-- ===== src/Srv/Entered.antt =====
-- What each operation makes of the state of a server transaction that is in order (evcoap_srv.c).
use webthings.Common.{
  ◌≡◌, inl, inr, refl, ap, ◌∙◌, sym, subst, Bool, true, false, ◌&&◌, ◌||◌, if◌then◌else◌,
  Bool-cases,
}
use webthings.Timer.{Events}
use webthings.Srv.{
  SrvState, ack_sent, wait_ack, resp_done, internal_err, client_rst, req_ok, Server,
  server_state_is_final, server_check_transition, is_req_ok, is_ack_sent, is_wait_ack,
  set_state_from, server_set_state,
}
use webthings.Srv.Unchanged.{Ends, Alike}
use webthings.Srv.States.{IsServer, Live, set_final, set_wait_ack}

pub Alike-IsServer : (a b : Server) → Alike a b → IsServer a → IsServer b
Alike-IsServer a b w v = record {
  freed_final = w.freed ∙ (v.freed_final ∙ ap server_state_is_final (sym w.state));
  not_retrying = rw w.state v.not_retrying;
  timed = rw (w.state, w.coap) v.timed;
}

-- The state that a test has found.
pub is_req_ok-eq : (s : SrvState) → is_req_ok s ≡ true → s ≡ req_ok
is_req_ok-eq req_ok h = refl
is_req_ok-eq _ h = cc

is_ack_sent-eq : (s : SrvState) → is_ack_sent s ≡ true → s ≡ ack_sent
is_ack_sent-eq ack_sent h = refl
is_ack_sent-eq _ h = cc

pub is_wait_ack-eq : (s : SrvState) → is_wait_ack s ≡ true → s ≡ wait_ack
is_wait_ack-eq wait_ack h = refl
is_wait_ack-eq _ h = cc

-- ec_server_set_state from a state that is known.
pub set_at :
    (ev : Events) (Q : Server → Type 0) (srv : Server) (cur state : SrvState)
    → srv.state ≡ cur
    → Ends Q (set_state_from ev cur srv state)
    → Ends Q (server_set_state ev srv state)
unfolding server_set_state
set_at ev Q srv cur state e h = subst (λ c. Ends Q (set_state_from ev c srv state)) (sym e) h

pub IsServer-Live :
    (srv : Server) (cur : SrvState)
    → IsServer srv
    → srv.state ≡ cur
    → srv.freed ≡ false
    → Live cur srv
IsServer-Live srv cur v e f = (f, rw e at v.timed)

-- Any state can switch to the internal error, and to the reset by the client.
pub to_internal_err :
    (ev : Events) (srv : Server)
    → IsServer srv
    → Ends IsServer (server_set_state ev srv internal_err)
unfolding server_set_state server_check_transition server_state_is_final
to_internal_err ev srv v = set_final ev srv.state srv.state internal_err srv refl refl v.timed

pub to_client_rst :
    (ev : Events) (srv : Server) → IsServer srv → Ends IsServer (server_set_state ev srv client_rst)
unfolding server_set_state server_check_transition server_state_is_final
to_client_rst ev srv v = set_final ev srv.state srv.state client_rst srv refl refl v.timed

pub to_resp_done :
    (ev : Events) (srv : Server) (cur : SrvState)
    → IsServer srv
    → srv.state ≡ cur
    → server_check_transition cur resp_done ≡ true
    → Ends IsServer (server_set_state ev srv resp_done)
unfolding server_state_is_final
to_resp_done ev srv cur v e c =
    set_at ev IsServer srv cur resp_done e (set_final ev srv.state cur resp_done srv c refl v.timed)

-- After a response was sent: the state that ec_server_ready enters.
pub sent_ready :
    (ev : Events) (srv : Server) (is_con : Bool)
    → IsServer srv
    → srv.freed ≡ false
    → (is_ack_sent srv.state || is_req_ok srv.state) ≡ true
    → Ends IsServer
        (server_set_state ev srv (if is_con && is_ack_sent srv.state then wait_ack else resp_done))
unfolding server_check_transition
sent_ready ev srv is_con v f h = elim (Bool-cases (is_ack_sent srv.state)) [
  | inl e ↦
      let at = is_ack_sent-eq srv.state e in
      elim (Bool-cases is_con) [
        | inl c ↦
            rw (e, c)
              (set_at ev IsServer srv ack_sent wait_ack at
                (set_wait_ack ev srv (IsServer-Live srv ack_sent v at f)))
        | inr c ↦ rw (e, c) (to_resp_done ev srv ack_sent v at refl)
      ]
  | inr e ↦
      let at = is_req_ok-eq srv.state (rw e at h) in
      elim (Bool-cases is_con) [
        | inl c ↦ rw (e, c) (to_resp_done ev srv req_ok v at refl)
        | inr c ↦ rw (e, c) (to_resp_done ev srv req_ok v at refl)
      ]
]
