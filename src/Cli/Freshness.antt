-- ===== src/Cli/Freshness.antt =====
-- The order of notifications: ec_client_handle_observation (evcoap_cli.c).
use webthings.Common.{
  ℕ, ◌+◌, ◌-◌, ◌^◌, ◌%◌, ◌≤◌, ◌<◌, ◌≡◌, ◌⊎◌, inl, inr, refl, [], ◌∷◌, ◌++◌, some, true, false, ◌==◌,
  ltb, if◌then◌else◌, ok, done, failed, Bool-cases, arith,
}
use webthings.Enums.{is_resp_code}
use webthings.Opt.Get.{opts_get_observe}
use webthings.Flow.{Flow, flow_get_resp_code, flow_set_resp_code}
use webthings.Cli.{CliObs, Client, CliEnv, ResPdu, client_get_response_pdu, res_set_add}
use webthings.Cli.Input.{
  is_stale, check_notification, handle_observation_of, client_handle_observation,
  client_take_response,
}

-- The counter is 1 to 2 ^ 15 steps ahead of the last one, around the end of 16 bits, or the last
-- notification is 2 ^ 14 seconds old.
abbrev pub IsNewer : CliObs → ℕ → ℕ → Type 0
IsNewer o o_cnt now =
    ((k : ℕ) × (1 ≤ k) × (k ≤ 2 ^ 15) × (o_cnt ≡ (o.last_cnt + k) % 2 ^ 16))
    ⊎ (o.last_ts + 2 ^ 14 ≤ now)

ahead :
    (last o_cnt k : ℕ)
    → last < 2 ^ 16
    → 1 ≤ k
    → k ≤ 2 ^ 15
    → o_cnt ≡ (last + k) % 2 ^ 16
    → 2 ^ 15 ≤ (last + 2 ^ 32 - o_cnt) % 2 ^ 32 % 2 ^ 16
ahead last o_cnt k l h m e = omega arith

behind :
    (last o_cnt : ℕ)
    → last < 2 ^ 16
    → o_cnt < 2 ^ 16
    → 2 ^ 15 ≤ (last + 2 ^ 32 - o_cnt) % 2 ^ 32 % 2 ^ 16
    → (k : ℕ) × (1 ≤ k) × (k ≤ 2 ^ 15) × (o_cnt ≡ (last + k) % 2 ^ 16)
behind last o_cnt l m h = ((o_cnt + 2 ^ 16 - last) % 2 ^ 16, omega arith, omega arith, omega arith)

is_stale-IsNewer :
    (o : CliObs) (o_cnt now : ℕ)
    → o.last_cnt < 2 ^ 16
    → IsNewer o o_cnt now
    → is_stale o o_cnt now ≡ false
unfolding is_stale
is_stale-IsNewer o o_cnt now l (inl (k, h, m, e)) = ground (arith, ahead o.last_cnt o_cnt k l h m e)
is_stale-IsNewer o o_cnt now l (inr h) = ground arith

is_stale_complete :
    (o : CliObs) (o_cnt now : ℕ)
    → o.last_cnt < 2 ^ 16
    → o_cnt < 2 ^ 16
    → is_stale o o_cnt now ≡ false
    → IsNewer o o_cnt now
unfolding is_stale
is_stale_complete o o_cnt now l m e =
    elim (Bool-cases (ltb ((o.last_cnt + 2 ^ 32 - o_cnt) % 2 ^ 32 % 2 ^ 16) (2 ^ 15))) [
      | inl f ↦ inr (ground (arith, e, f))
      | inr f ↦ inl (behind o.last_cnt o_cnt l m (ground (arith, f)))
    ]

-- What a notification must be to be judged by its counter: a response that is found, to a client
-- that observes, not 5.00 and not 2.02, with an Observe option.
pub record IsCounted (env : CliEnv) (cli : Client) (res : ResPdu) (o_cnt : ℕ) : Type 0 where
  pub found : client_get_response_pdu cli ≡ some res
  pub on : cli.observe.on ≡ true
  pub not_canceled : (cli.flow.resp_code == 160) ≡ false
  pub not_deleted : (cli.flow.resp_code == 66) ≡ false
  pub counter : opts_get_observe env.le res.opts.bundle ≡ some o_cnt

counted :
    (env : CliEnv) (cli : Client) (res : ResPdu) (o_cnt now : ℕ)
    → IsCounted env cli res o_cnt
    → client_handle_observation env cli now ≡ (
        if is_stale cli.observe o_cnt now
        then failed cli
        else done (record cli { observe = record cli.observe { last_cnt = o_cnt; last_ts = now } }))
unfolding client_handle_observation handle_observation_of check_notification flow_get_resp_code
counted env cli res o_cnt now w = simp (w.found, w.on, w.not_canceled, w.not_deleted, w.counter)

-- For a client that observes and a notification that is found, has an Observe option and is neither
-- 5.00 nor 2.02: it is accepted, and its counter and time remembered, exactly if its counter is 1 to
-- 2 ^ 15 ahead of the last one around the end of 16 bits, or the last one is 2 ^ 14 seconds old;
-- otherwise it is refused and the observation stays as it is.
pub client_handle_observation-IsNewer :
    (env : CliEnv) (cli : Client) (res : ResPdu) (o_cnt now : ℕ)
    → IsCounted env cli res o_cnt
    → cli.observe.last_cnt < 2 ^ 16
    → o_cnt < 2 ^ 16
    → (IsNewer cli.observe o_cnt now
        × (client_handle_observation env cli now
            ≡ done
                (record cli { observe = record cli.observe { last_cnt = o_cnt; last_ts = now } })))
      ⊎ (¬ IsNewer cli.observe o_cnt now × (client_handle_observation env cli now ≡ failed cli))
client_handle_observation-IsNewer env cli res o_cnt now w l m =
    elim (Bool-cases (is_stale cli.observe o_cnt now)) [
      | inl e ↦ inr (
        λ n. cc (e, is_stale-IsNewer cli.observe o_cnt now l n),
        rw (counted env cli res o_cnt now w, e) refl,
      )
      | inr e ↦ inl (
        is_stale_complete cli.observe o_cnt now l m e,
        rw (counted env cli res o_cnt now w, e) refl,
      )
    ]

-- The client after a response that was refused by its counter: the response stays in the set.
abbrev pub kept : Client → ResPdu → Client
kept cli q = record cli {
  flow = record cli.flow { resp_code = q.hdr.code };
  res_set = cli.res_set ++ (q ∷ []);
}

-- A response code that ends no observation.
abbrev pub GoesOn : ResPdu → Type 0
GoesOn q =
    (is_resp_code q.hdr.code ≡ true) × ((q.hdr.code == 160) ≡ false) × ((q.hdr.code == 66) ≡ false)

set_code :
    (flow : Flow) (rc : ℕ)
    → is_resp_code rc ≡ true
    → flow_set_resp_code flow rc ≡ ok (record flow { resp_code = rc })
unfolding flow_set_resp_code
set_code flow rc v = ground (arith, v)

take_response-kept :
    (env : CliEnv) (cli : Client) (p q : ResPdu) (o_cnt now : ℕ)
    → client_get_response_pdu (kept cli q) ≡ some p
    → cli.observe.on ≡ true
    → opts_get_observe env.le p.opts.bundle ≡ some o_cnt
    → is_stale cli.observe o_cnt now ≡ true
    → GoesOn q
    → client_take_response env cli q now ≡ failed (kept cli q)
unfolding client_take_response res_set_add
take_response-kept env cli p q o_cnt now e on c s (v, g, d) =
    let w : IsCounted env (kept cli q) p o_cnt = record {
      found = e;
      on = on;
      not_canceled = g;
      not_deleted = d;
      counter = c;
    } in
    rw
      (
        client_take_response,
        set_code cli.flow q.hdr.code v,
        counted env (kept cli q) p o_cnt now w,
        s,
      )
      refl

still_stale :
    (o : CliObs) (o_cnt now later : ℕ)
    → is_stale o o_cnt now ≡ true
    → later < o.last_ts + 2 ^ 14
    → is_stale o o_cnt later ≡ true
unfolding is_stale
still_stale o o_cnt now later s l = ground (arith, s)

-- For a unicast client that observes and has no response in its set, a stale notification blocks the
-- ones behind it: it stays the first of the set, so that a later response, be it as new as can be, is
-- refused by the counter of the stale one, as long as the last accepted one is not 2 ^ 14 seconds old
-- and the codes are response codes other than 5.00 and 2.02.
pub client_take_response_stuck :
    (env : CliEnv) (cli : Client) (p q : ResPdu) (o_cnt now later : ℕ)
    → cli.is_multicast ≡ false
    → cli.res_set ≡ []
    → cli.observe.on ≡ true
    → opts_get_observe env.le p.opts.bundle ≡ some o_cnt
    → is_stale cli.observe o_cnt now ≡ true
    → GoesOn p
    → GoesOn q
    → later < cli.observe.last_ts + 2 ^ 14
    → (client_take_response env cli p now ≡ failed (kept cli p))
      × (client_take_response env (kept cli p) q later ≡ failed (kept (kept cli p) q))
unfolding client_get_response_pdu
client_take_response_stuck env cli p q o_cnt now later u r on c s g h l = (
  take_response-kept env cli p p o_cnt now (rw (u, r) refl) on c s g,
  take_response-kept env (kept cli p) p q o_cnt later (rw (u, r) refl) on c
      (still_stale cli.observe o_cnt now later s l) h,
)
