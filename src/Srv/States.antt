-- ===== src/Srv/States.antt =====
-- The invariant of a server transaction, and that ec_server_set_state keeps it (evcoap_srv.c).
use webthings.Common.{◌≤◌, ◌≡◌, inl, inr, refl, ◌∙◌, sym, true, false, done, Bool-cases, arith}
use webthings.Timer.{Timer, Events, timer_start, timer_remove, timer_restart}
use webthings.Flow.{flow_set_separate}
use webthings.Srv.{
  SrvState, ack_sent, wait_ack, coap_retry, req_ok, Server, server_state_is_final,
  server_check_transition, is_wait_ack, is_coap_retry, max_retransmit, srv_start_coap_timer,
  srv_restart_coap_timer, srv_stop_coap_timer, server_free, enter_timers, set_state_from,
}
use webthings.Srv.Unchanged.{Ends, Ends-and_also}

-- The retransmission timer is attached at most while an acknowledgement is awaited, libevent is to
-- fire it only then, and it has at most EC_COAP_MAX_RETRANSMIT retries left.
pub record IsTimed (state : SrvState) (coap : Timer) : Type 0 where
  pub attached : coap.evti ≡ true → is_wait_ack state ≡ true
  pub pending : coap.pending ≡ true → coap.evti ≡ true
  pub capped : coap.retries_left ≤ max_retransmit

-- Between two events: the transaction is freed exactly if its state is final, it is not in the middle
-- of a retransmission, and the timer is in order.
pub record IsServer (srv : Server) : Type 0 where
  pub freed_final : srv.freed ≡ server_state_is_final srv.state
  pub not_retrying : is_coap_retry srv.state ≡ false
  pub timed : IsTimed srv.state srv.coap

final_not_retrying :
    (state : SrvState) → server_state_is_final state ≡ true → is_coap_retry state ≡ false
unfolding server_state_is_final
final_not_retrying coap_retry f = cc
final_not_retrying state f = refl

removed-IsTimed :
    (old state : SrvState) (ti : Timer) → IsTimed old ti → IsTimed state (timer_remove ti)
unfolding timer_remove
removed-IsTimed old state ti w = elim (Bool-cases ti.evti) [
  | inl e ↦ rw e (record { attached = λ q. cc; pending = λ q. cc; capped = omega arith })
  | inr e ↦
      rw e (record { attached = λ q. cc; pending = λ q. (rw e at w.pending q); capped = w.capped })
]

freed-IsServer :
    (old state : SrvState) (srv : Server)
    → IsTimed old srv.coap
    → server_state_is_final state ≡ true
    → IsServer (server_free (srv_stop_coap_timer (record srv { state = state })))
unfolding srv_stop_coap_timer server_free
freed-IsServer old state srv w f = record {
  freed_final = sym f;
  not_retrying = final_not_retrying state f;
  timed = removed-IsTimed old state srv.coap w;
}

pub no_timer :
    (ev : Events) (cur state : SrvState) (srv : Server)
    → is_wait_ack state ≡ false
    → enter_timers ev state cur srv ≡ done srv
unfolding enter_timers
no_timer ev cur wait_ack srv f = cc
no_timer ev cur state srv f = refl

pub final_not_wait :
    (state : SrvState) → server_state_is_final state ≡ true → is_wait_ack state ≡ false
unfolding server_state_is_final
final_not_wait wait_ack f = cc
final_not_wait state f = refl

-- A final state can be entered from any state from which the check lets it be.
pub set_final :
    (ev : Events) (old cur state : SrvState) (srv : Server)
    → server_check_transition cur state ≡ true
    → server_state_is_final state ≡ true
    → IsTimed old srv.coap
    → Ends IsServer (set_state_from ev cur srv state)
unfolding set_state_from
set_final ev old cur state srv c f w =
    rw (c, no_timer ev cur state srv (final_not_wait state f), f) (freed-IsServer old state srv w f)

-- A server whose memory is in use, with a timer that is in order for `state`.
abbrev pub Live : SrvState → Server → Type 0
Live state srv = (srv.freed ≡ false) × IsTimed state srv.coap

start-Live :
    (ev : Events) (srv : Server)
    → Live ack_sent srv
    → Ends (Live wait_ack) (srv_start_coap_timer ev srv)
unfolding srv_start_coap_timer timer_start timer_remove
start-Live ev srv w = ground (arith, w.1.attached, w.1.pending, w.1.capped)

restart-Live :
    (ev : Events) (srv : Server)
    → Live wait_ack srv
    → srv.coap.evti ≡ true
    → Ends (Live wait_ack) (srv_restart_coap_timer ev srv)
unfolding srv_restart_coap_timer timer_restart
restart-Live ev srv w e = ground (arith, w.1.pending, w.1.capped)

rest-IsServer :
    (state : SrvState) (srv : Server)
    → Live state srv
    → server_state_is_final state ≡ false
    → is_coap_retry state ≡ false
    → IsServer (record srv { state = state })
rest-IsServer state srv w f r = record { freed_final = w.0 ∙ sym f; not_retrying = r; timed = w.1 }

pub set_ack_sent :
    (ev : Events) (srv : Server)
    → Live req_ok srv
    → Ends IsServer (set_state_from ev req_ok srv ack_sent)
unfolding set_state_from server_check_transition enter_timers server_state_is_final
set_ack_sent ev srv w =
    rest-IsServer ack_sent srv
      (w.0, record { attached = w.1.attached; pending = w.1.pending; capped = w.1.capped }) refl
      refl

pub set_wait_ack :
    (ev : Events) (srv : Server)
    → Live ack_sent srv
    → Ends IsServer (set_state_from ev ack_sent srv wait_ack)
unfolding set_state_from server_check_transition enter_timers server_state_is_final
set_wait_ack ev srv w =
    Ends-and_also (Live wait_ack) IsServer
      (srv_start_coap_timer ev (record srv { flow = flow_set_separate srv.flow true })) _
      (start-Live ev (record srv { flow = flow_set_separate srv.flow true }) w)
      (λ s v. rest-IsServer wait_ack s v refl refl)

pub set_wait_again :
    (ev : Events) (srv : Server)
    → Live wait_ack srv
    → srv.coap.evti ≡ true
    → Ends IsServer (set_state_from ev coap_retry srv wait_ack)
unfolding set_state_from server_check_transition enter_timers server_state_is_final
set_wait_again ev srv w e =
    Ends-and_also (Live wait_ack) IsServer (srv_restart_coap_timer ev srv) _
      (restart-Live ev srv w e) (λ s v. rest-IsServer wait_ack s v refl refl)
