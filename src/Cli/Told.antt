-- ===== src/Cli/Told.antt =====
-- What a client that enters a final state keeps, and what the user is told of it (evcoap_cli.c).
use webthings.Common.{
  ◌≡◌, inl, inr, refl, List, [], ◌∷◌, Option, none, some, Bool, true, false, ◌||◌, ◌&&◌, not,
  if◌then◌else◌, Result, ok, err, fault, Run, done, failed, ended, Bool-cases, arith,
}
use webthings.Opt.{opts_init}
use webthings.Opt.Reads.{InBounds}
use webthings.Pdu.Reads.{encode_response_ack-InBounds, encode_response_rst-InBounds}
use webthings.Srv.{OutPdu}
use webthings.Srv.Send.{pdu_new_empty}
use webthings.Srv.Unchanged.{encoded-InBounds}
use webthings.Cli.{
  CliState, Client, CliEnv, ResPdu, client_state_is_final, is_wait_nfy, client_get_response_pdu,
}
use webthings.Cli.Drive.{
  client_send_empty, client_send_ack, client_rst_peer, client_invoke_user_callback, client_enter,
  client_inform, settled,
}

-- A step that succeeds with a client of which `P` holds.
abbrev pub Gives : (Client → Type 0) → Run Client → Type 0
Gives P (done cli) = P cli
Gives P _ = ⊥

-- All of a client but its state, what was sent, and what the user was told.
pub record Same (a b : Client) : Type 0 where
  pub userown : b.userown ≡ a.userown
  pub cb : b.cb ≡ a.cb
  pub cancel : b.observe.cancel ≡ a.observe.cancel
  pub res_set : b.res_set ≡ a.res_set
  pub app : b.app ≡ a.app
  pub coap : b.coap ≡ a.coap
  pub obs : b.obs ≡ a.obs
  pub freed : b.freed ≡ a.freed
  pub called : b.called ≡ a.called
  pub state : b.state ≡ a.state

pub Same-refl : (a : Client) → Same a a
Same-refl a = record {
  userown = refl;
  cb = refl;
  cancel = refl;
  res_set = refl;
  app = refl;
  coap = refl;
  obs = refl;
  freed = refl;
  called = refl;
  state = refl;
}

Same-sent : (a : Client) (sent : List OutPdu) → Same a (record a { sent = sent })
Same-sent a sent = record {
  userown = refl;
  cb = refl;
  cancel = refl;
  res_set = refl;
  app = refl;
  coap = refl;
  obs = refl;
  freed = refl;
  called = refl;
  state = refl;
}

send_empty-Same :
    (env : CliEnv) (cli : Client) (r : Result OutPdu OutPdu)
    → InBounds r
    → Gives (Same cli) (settled (client_send_empty env cli r))
unfolding client_send_empty
send_empty-Same env cli (ok pdu) h = elim (Bool-cases (env.net_send pdu)) [
  | inl e ↦ rw e (Same-sent cli (pdu ∷ cli.sent))
  | inr e ↦ rw e (Same-refl cli)
]
send_empty-Same env cli (err _) h = Same-refl cli
send_empty-Same env cli fault h = absurd (h refl)

send_ack-Same :
    (env : CliEnv) (cli : Client) (res : Option ResPdu)
    → Gives (Same cli) (settled (client_send_ack env cli res))
unfolding client_send_ack
send_ack-Same env cli none = Same-refl cli
send_ack-Same env cli (some res) = send_empty-Same env cli _ (
    encoded-InBounds (record pdu_new_empty { sibling = some res.hdr.mid }) _
      (encode_response_ack-InBounds env.host opts_init [] (some res.hdr.mid)))

rst_peer-Same :
    (env : CliEnv) (cli : Client) (res : Option ResPdu)
    → Gives (Same cli) (settled (client_rst_peer env cli res))
unfolding client_rst_peer
rst_peer-Same env cli none = Same-refl cli
rst_peer-Same env cli (some res) = send_empty-Same env cli _ (
    encoded-InBounds (record pdu_new_empty { sibling = some res.hdr.mid }) _
      (encode_response_rst-InBounds env.host opts_init [] (some res.hdr.mid)))

acked-Same :
    (env : CliEnv) (cli : Client) (is_con : Bool)
    → Gives (Same cli) (
        if is_con
        then settled (client_send_ack env cli (client_get_response_pdu cli))
        else done cli)
acked-Same env cli true = send_ack-Same env cli (client_get_response_pdu cli)
acked-Same env cli false = Same-refl cli

-- A final state is entered without a change of the timers.
pub enter_final-Same :
    (env : CliEnv) (state cur : CliState) (is_con : Bool) (cli : Client)
    → client_state_is_final state ≡ true
    → Gives (Same cli) (client_enter env state cur is_con cli)
unfolding client_enter client_state_is_final
enter_final-Same env CliState.req_done CliState.req_ackd is_con cli f = acked-Same env cli is_con
enter_final-Same env CliState.req_sent cur is_con cli f = cc
enter_final-Same env CliState.wait_nfy cur is_con cli f = cc
enter_final-Same env CliState.req_ackd cur is_con cli f = cc
enter_final-Same env state cur is_con cli f = Same-refl cli

-- Whether the user is told: there is a callback, and the observation was not canceled.
abbrev pub is_told : Client → Bool
is_told cli = not cli.observe.cancel && cli.cb

-- The user is told of a final state where there is a callback, unless the observation was canceled.
pub record Told (a b : Client) : Type 0 where
  pub userown : b.userown ≡ a.userown
  pub coap : b.coap ≡ a.coap
  pub freed : b.freed ≡ a.freed
  pub called : b.called ≡ (if is_told a then a.state ∷ a.called else a.called)
  pub state : b.state ≡ a.state

reset-Told :
    (cli : Client) (r : Run Client)
    → cli.observe.cancel ≡ true
    → Gives (Same cli) r
    → Gives (Told cli) r
reset-Told cli (done c) e w = record {
  userown = w.userown;
  coap = w.coap;
  freed = w.freed;
  called = rw e w.called;
  state = w.state;
}
reset-Told cli (failed _) e w = elim w [ ]
reset-Told cli ended e w = elim w [ ]

pub Gives-if :
    (P : Client → Type 0) (b : Bool) (r s : Run Client)
    → (b ≡ true → Gives P r)
    → (b ≡ false → Gives P s)
    → Gives P (if b then r else s)
Gives-if P true r s h k = h refl
Gives-if P false r s h k = k refl

callback-Told :
    (env : CliEnv) (cli : Client)
    → cli.observe.cancel ≡ false
    → Gives (Told cli) (done (client_invoke_user_callback env cli))
unfolding client_invoke_user_callback
callback-Told env cli e = told-if cli.cb refl
  where
    told-if :
        (b : Bool)
        → b ≡ cli.cb
        → Told cli (
            if b
            then record cli {
              called = cli.state ∷ cli.called;
              observe = record cli.observe { cancel = cli.observe.cancel || env.cancels cli };
            }
            else cli)
    told-if true q = record {
      userown = refl;
      coap = refl;
      freed = refl;
      called = rw (e, ← q) refl;
      state = refl;
    }
    told-if false q = record {
      userown = refl;
      coap = refl;
      freed = refl;
      called = rw (e, ← q) refl;
      state = refl;
    }

pub inform_final-Told :
    (env : CliEnv) (cli : Client)
    → client_state_is_final cli.state ≡ true
    → Gives (Told cli) (client_inform env cli)
unfolding client_inform client_invoke_user_callback
inform_final-Told env cli f =
    Gives-if (Told cli) (client_state_is_final cli.state || is_wait_nfy cli.state) _ (done cli)
      (λ q.
        Gives-if (Told cli) cli.observe.cancel _ _
          (λ e.
            reset-Told cli (settled (client_rst_peer env cli (client_get_response_pdu cli))) e
              (rst_peer-Same env cli (client_get_response_pdu cli)))
          (λ e. callback-Told env cli e))
      (λ q. absurd (ground (arith, f, q)))
