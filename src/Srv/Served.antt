-- ===== src/Srv/Served.antt =====
-- ec_server_handle_pdu keeps all the transactions and observations in order (evcoap_srv.c).
use webthings.Common.{
  ℕ, ◌≡◌, inl, inr, refl, ◌∙◌, Bytes, List, [], Option, none, some, Bool, false, not, ◌==◌, Result,
  ok, err, fault, and_also, Bool-cases, arith,
}
use webthings.Opt.{Opts}
use webthings.Opt.Reads.{InBounds}
use webthings.Enums.{Method, method_num}
use webthings.Pdu.{Hdr, decode_header}
use webthings.Flow.{Flow}
use webthings.Srv.{
  req_ok, Server, server_set_state, set_state_from, server_check_transition, server_state_is_final,
  enter_timers,
}
use webthings.Srv.Send.{Env}
use webthings.Srv.Drive.{Answer}
use webthings.Srv.Unchanged.{Ends, Alike, Ends-and_also, server_reply-Alike}
use webthings.Srv.States.{IsServer}
use webthings.Srv.Entered.{Alike-IsServer, to_resp_done}
use webthings.Srv.Kept.{server_abort-IsServer}
use webthings.Srv.Lookup.{server_accept, ServerEvent}
use webthings.Srv.Safety.{event-IsServer}
use webthings.Observe.{Peer, SockAddrs, Observation, observer_search, observer_remove}
use webthings.Observe.Ops.{canceled_by_rst, canceled_by_get, remove_peer, observers_at}
use webthings.Observe.Cancel.{AreObserved, canceled_by_rst_lem, observer_remove-AreObserved}
use webthings.Observe.Arrive.{uri_cases}
use webthings.Srv.Input.{
  Base, Seen, read_body, is_request, server_new, serve, find_callback, read_request, run_request,
  handle_request, handle_reset, handle_new, handle_decoded, server_handle_pdu,
}
use webthings.Srv.Stepped.{IsBase, Leaves, with_new-IsBase, handle_control-IsBase}

-- What is accepted is ready for the user's function.
accept-AtRequest :
    (env : Env) (flow : Flow) (sd : ℕ) (peer : Bytes) (is_con : Bool) (mid : ℕ) (payload : Bytes)
    → Ends
        (λ s. IsServer s × (s.state ≡ req_ok) × (s.freed ≡ false))
        (server_accept env flow sd peer is_con mid payload)
unfolding server_accept server_set_state set_state_from server_check_transition enter_timers
    server_state_is_final
accept-AtRequest env flow sd peer is_con mid payload = (
  record {
    freed_final = refl;
    not_retrying = refl;
    timed = record { attached = λ q. cc; pending = λ q. cc; capped = omega arith };
  },
  refl,
  refl,
)

serve-IsServer :
    (env : Env) (srv : Server) (cb : Option (Server → Answer))
    → IsServer srv × (srv.state ≡ req_ok) × (srv.freed ≡ false)
    → Ends IsServer (serve env srv cb)
unfolding serve server_check_transition
serve-IsServer env srv (some cb) (v, e, f) =
    event-IsServer env srv (ServerEvent.called (cb srv)) v f e
serve-IsServer env srv none (v, e, f) =
    Ends-and_also (Alike srv) IsServer _ _ (server_reply-Alike env srv 132 [])
      (λ s w. to_resp_done env.ev s req_ok (Alike-IsServer srv s w v) (w.state ∙ e) refl)

new-IsServer : (sd : ℕ) (peer : Bytes) (is_con : Bool) → IsServer (server_new sd peer is_con)
unfolding server_state_is_final
new-IsServer sd peer is_con = record {
  freed_final = refl;
  not_retrying = refl;
  timed = record { attached = λ q. cc; pending = λ q. cc; capped = omega arith };
}

peer_removed :
    (sys : SockAddrs) (observing : List Observation) (i : ℕ) (peer : Peer)
    → AreObserved observing
    → AreObserved (remove_peer sys observing i peer)
unfolding remove_peer
peer_removed sys observing i peer w =
    removed (observer_search sys (observers_at observing i) peer 0)
  where
    removed :
        (j : Option ℕ)
        → AreObserved (elim j [ some j' ↦ observer_remove observing i j' | none ↦ observing ])
    removed none = w
    removed (some j) = observer_remove-AreObserved observing i j w

module _ (sys : SockAddrs) (same_uri strcasecmp : Bytes → Bytes → Bool)
    (url : Opts → Option (Bytes × Bool)) where
  served :
      (env : Env) (base : Base) (flow : Flow) (uri : Bytes) (sd : ℕ) (peer : Peer) (is_con : Bool)
      (mid : ℕ) (payload : Bytes)
      → Ends IsServer (
          and_also
            (server_accept env flow sd peer.addr is_con mid payload)
            (λ srv. serve env srv (find_callback strcasecmp base.resources base.fb uri)))
  served env base flow uri sd peer is_con mid payload =
      Ends-and_also (λ s. IsServer s × (s.state ≡ req_ok) × (s.freed ≡ false)) IsServer _ _
        (accept-AtRequest env flow sd peer.addr is_con mid payload)
        (λ s v. serve-IsServer env s _ v)

  get_cases :
      (observing : List Observation) (method : Method) (uri : Bytes) (peer : Peer)
      → AreObserved observing
      → (n : ℕ) × (rest : List Observation) × (canceled_by_get same_uri sys observing method uri
            peer
          ≡ ok (n, rest))
        × AreObserved rest
  unfolding canceled_by_get
  get_cases observing method uri peer w = elim (Bool-cases (not (method_num method == 1))) [
    | inl e ↦ (0, observing, rw (canceled_by_get, e) refl, w)
    | inr e ↦ elim (uri_cases same_uri observing uri w) [
      | inl (i, f, g) ↦ (
        1,
        remove_peer sys observing i peer,
        rw (canceled_by_get, e, f) refl,
        peer_removed sys observing i peer w,
      )
      | inr f ↦ (0, observing, rw (canceled_by_get, e, f) refl, w)
    ]
  ]

  run_request-IsBase :
      (env : Env) (base : Base) (flow : Flow) (uri : Bytes) (sd : ℕ) (peer : Peer) (is_con : Bool)
      (mid : ℕ) (payload : Bytes) (r : Result (Unit {0}) (ℕ × List Observation))
      → IsBase base
      → (n : ℕ) × (rest : List Observation) × (r ≡ ok (n, rest)) × AreObserved rest
      → Leaves IsBase
          (run_request sys same_uri strcasecmp url env base flow uri sd peer is_con mid payload r)
  unfolding run_request
  run_request-IsBase env base flow uri sd peer is_con mid payload r v (n, rest, e, w) = rw e (
      with_new-IsBase (record base { observing = rest }) _
        (record { servers = v.servers; observing = w })
        (served env base flow uri sd peer is_con mid payload))

  handle_request-IsBase :
      (env : Env) (base : Base) (h : Hdr) (sd : ℕ) (peer : Peer)
      (r : Result ℕ (Flow × Bytes × Bytes))
      → InBounds r
      → IsBase base
      → Leaves IsBase (handle_request sys same_uri strcasecmp url env base h sd peer r)
  unfolding handle_request
  handle_request-IsBase env base h sd peer (ok (flow, uri, payload)) b v =
      run_request-IsBase env base flow uri sd peer (h.t == 0) h.mid payload _ v
        (get_cases base.observing flow.method uri peer v.observing)
  handle_request-IsBase env base h sd peer (err rc) b v = with_new-IsBase base _ v (
      server_abort-IsServer env (server_new sd peer.addr (h.t == 0)) rc
        (new-IsServer sd peer.addr (h.t == 0)))
  handle_request-IsBase env base h sd peer fault b v = absurd (b refl)

  handle_reset-IsBase :
      (env : Env) (base : Base) (raw : Bytes) (h : Hdr) (sd : ℕ) (peer : Peer)
      → InBounds (read_body raw h)
      → IsBase base
      → Leaves IsBase (
          handle_reset sys same_uri strcasecmp url env base raw h sd peer
            (canceled_by_rst sys base.observing peer h.mid))
  unfolding handle_reset
  handle_reset-IsBase env base raw h sd peer b v =
      elim (canceled_by_rst_lem sys base.observing peer h.mid v.observing) [
        | inl (rest, e, _, w, c) ↦ rw e (record { servers = v.servers; observing = w })
        | inr (e, c) ↦ rw e (handle_control-IsBase sys env base raw h sd peer b v)
      ]

  -- Reading a request reads its options and its payload.
  options-InBounds :
      (raw : Bytes) (h : Hdr)
      → InBounds (read_request sys same_uri strcasecmp url raw h)
      → InBounds (read_body raw h)
  unfolding read_request
  options-InBounds raw h b = λ q. b (rw q refl)

  handle_new-IsBase :
      (env : Env) (base : Base) (raw : Bytes) (h : Hdr) (sd : ℕ) (peer : Peer)
      → InBounds (read_request sys same_uri strcasecmp url raw h)
      → IsBase base
      → Leaves IsBase (handle_new sys same_uri strcasecmp url env base raw h sd peer)
  unfolding handle_new
  handle_new-IsBase env base raw h sd peer b v = elim (Bool-cases (h.code == 0)) [
    | inl e ↦ elim (Bool-cases (h.t == 3)) [
      | inl f ↦ rw (e, f) (handle_reset-IsBase env base raw h sd peer (options-InBounds raw h b) v)
      | inr f ↦
          rw (e, f) (handle_control-IsBase sys env base raw h sd peer (options-InBounds raw h b) v)
    ]
    | inr e ↦ elim (Bool-cases (is_request h.code)) [
      | inl f ↦ rw (e, f) (handle_request-IsBase env base h sd peer _ b v)
      | inr f ↦ rw (e, f) v
    ]
  ]

  handle_decoded-IsBase :
      (env : Env) (base : Base) (raw : Bytes) (sd : ℕ) (peer : Peer) (seen : Seen) (o : Option Hdr)
      → ((h : Hdr) → o ≡ some h → InBounds (read_request sys same_uri strcasecmp url raw h))
      → IsBase base
      → Leaves IsBase (handle_decoded sys same_uri strcasecmp url env base raw sd peer seen o)
  unfolding handle_decoded
  handle_decoded-IsBase env base raw sd peer seen none b v = v
  handle_decoded-IsBase env base raw sd peer Seen.new (some h) b v =
      handle_new-IsBase env base raw h sd peer (b h refl) v
  handle_decoded-IsBase env base raw sd peer Seen.copy (some h) b v = v
  handle_decoded-IsBase env base raw sd peer Seen.internal (some h) b v = v

  -- From a base whose transactions are in progress and in order, and whose observations are in use and
  -- observed: whatever PDU comes, from whatever peer, the server goes on, and the base it leaves is such
  -- a base again, as long as nothing is read or written out of bounds while the PDU is taken apart: the
  -- options and the payload lie within the PDU, and what is copied of a Token option fits the 8 bytes
  -- of the flow, which ec_flow_save_token does not check.
  pub server_handle_pdu-IsBase :
      (env : Env) (base : Base) (raw : Bytes) (sd : ℕ) (peer : Peer) (seen : Seen)
      → ((h : Hdr)
          → decode_header env.host raw ≡ some h
          → InBounds (read_request sys same_uri strcasecmp url raw h))
      → IsBase base
      → Leaves IsBase (server_handle_pdu sys same_uri strcasecmp url env base raw sd peer seen)
  unfolding server_handle_pdu
  server_handle_pdu-IsBase env base raw sd peer seen b v =
      handle_decoded-IsBase env base raw sd peer seen (decode_header env.host raw) b v
