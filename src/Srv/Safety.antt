-- ===== src/Srv/Safety.antt =====
-- Every transaction that can be reached is in order, and no event ends the process (evcoap_srv.c).
use webthings.Common.{
  ℕ, ◌≡◌, ◌⊎◌, inl, inr, refl, sym, ◌∙◌, subst, Bool-cases, Bytes, Bool, true, false, Run, done,
  failed, arith,
}
use webthings.Flow.{Flow}
use webthings.Srv.{
  SrvState, is_wait_ack, Server, server_set_state, set_state_from, server_check_transition,
  server_state_is_final, enter_timers, server_free, srv_stop_coap_timer,
}
use webthings.Srv.Send.{Env}
use webthings.Srv.Unchanged.{Ends, Ends-or_else}
use webthings.Srv.States.{IsServer}
use webthings.Srv.Kept.{
  server_userfn-IsServer, resched_userfn-IsServer, server_wakeup-IsServer, server_abort-IsServer,
  server_handle_empty-IsServer, srv_coap_timeout-IsServer,
}
use webthings.Srv.Drive.{server_userfn, server_abort, server_handle_empty}
use webthings.Srv.Lookup.{
  ServerEvent, called, rescheduled, woken, timed_out, emptied, server_event, server_accept, CanCome,
}

-- A step of the relation: an event that can come to a server whose memory is in use, with what it
-- returns. What the network, the clock and libevent do may differ from step to step.
pub data Step (a b : Server) : Type 0 where
  step :
      (env : Env) (e : ServerEvent)
      → CanCome a e
      → a.freed ≡ false
      → (server_event env a e ≡ done b) ⊎ (server_event env a e ≡ failed b)
      → Step a b

-- The servers that come of a request.
pub data Reach : Server → Type 0 where
  accepted :
      (env : Env) (flow : Flow) (sd : ℕ) (peer : Bytes) (is_con : Bool) (mid : ℕ) (payload : Bytes)
      {srv : Server}
      → server_accept env flow sd peer is_con mid payload ≡ done srv
      → Reach srv
  next : {a b : Server} → Reach a → Step a b → Reach b

Ends-done : (P : Server → Type 0) (r : Run Server) (s : Server) → r ≡ done s → Ends P r → P s
Ends-done P r s e h = subst (Ends P) e h

Ends-failed : (P : Server → Type 0) (r : Run Server) (s : Server) → r ≡ failed s → Ends P r → P s
Ends-failed P r s e h = subst (Ends P) e h

pub event-IsServer :
    (env : Env) (srv : Server) (e : ServerEvent)
    → IsServer srv
    → srv.freed ≡ false
    → CanCome srv e
    → Ends IsServer (server_event env srv e)
unfolding server_event
event-IsServer env srv (called a) v f c =
    Ends-or_else IsServer IsServer (server_userfn env srv a) (λ s. server_abort env s 0)
      (server_userfn-IsServer env srv a v f) (λ s w. server_abort-IsServer env s 0 w) (λ s w q. w)
event-IsServer env srv (rescheduled a) v f c = resched_userfn-IsServer env srv a v f
event-IsServer env srv woken v f c = server_wakeup-IsServer env srv v f
event-IsServer env srv timed_out v f c = srv_coap_timeout-IsServer env srv v f c
event-IsServer env srv (emptied t) v f c = server_handle_empty-IsServer env srv t v

accept-IsServer :
    (env : Env) (flow : Flow) (sd : ℕ) (peer : Bytes) (is_con : Bool) (mid : ℕ) (payload : Bytes)
    → Ends IsServer (server_accept env flow sd peer is_con mid payload)
unfolding server_accept server_set_state set_state_from server_check_transition enter_timers
    server_state_is_final
accept-IsServer env flow sd peer is_con mid payload = record {
  freed_final = refl;
  not_retrying = refl;
  timed = record { attached = λ q. cc; pending = λ q. cc; capped = omega arith };
}

Reach-IsServer : (srv : Server) → Reach srv → IsServer srv
Reach-IsServer srv (accepted env flow sd peer is_con mid payload e) =
    Ends-done IsServer _ srv e (accept-IsServer env flow sd peer is_con mid payload)
Reach-IsServer srv (next {a} r (step env e c f (inl q))) =
    Ends-done IsServer _ srv q (event-IsServer env a e (Reach-IsServer a r) f c)
Reach-IsServer srv (next {a} r (step env e c f (inr q))) =
    Ends-failed IsServer _ srv q (event-IsServer env a e (Reach-IsServer a r) f c)

-- A server that was freed has no retransmission timer that could fire.
freed-quiet : (srv : Server) → IsServer srv → srv.freed ≡ true → srv.coap.pending ≡ false
unfolding server_state_is_final
freed-quiet srv v f = elim (Bool-cases srv.coap.pending) [
  | inl p ↦
      absurd
        (waiting_not_final srv.state (v.timed.attached (v.timed.pending p)) (sym v.freed_final ∙ f))
  | inr p ↦ p
]
  where
    waiting_not_final :
        (state : SrvState) → is_wait_ack state ≡ true → server_state_is_final state ≡ true → ⊥
    waiting_not_final SrvState.wait_ack w q = cc
    waiting_not_final state w q = cc

-- Whatever the user's function answers, the network carries and libevent refuses at each step: a server
-- that came of a request is freed exactly if its state is final, and has its retransmission timer
-- attached only in WAIT_ACK and with at most 4 retries left. While it is not freed, no event that can
-- come to it ends the process by an invalid transition or an invalid access; once it is freed, its
-- retransmission timer is not going to fire. What the reschedule timer or the user's wake-up does to a
-- server that was freed is not covered.
pub Reach-server_event :
    (env : Env) (srv : Server) (e : ServerEvent)
    → Reach srv
    → CanCome srv e
    → IsServer srv
      × (((srv.freed ≡ false) × Ends IsServer (server_event env srv e))
          ⊎ ((srv.freed ≡ true) × (srv.coap.pending ≡ false)))
Reach-server_event env srv e r c =
    let v = Reach-IsServer srv r in
    (
      v,
      elim (Bool-cases srv.freed) [
        | inl f ↦ inr (f, freed-quiet srv v f)
        | inr f ↦ inl (f, event-IsServer env srv e v f c)
      ],
    )

-- A reset by the client frees the server in any state, and leaves the reschedule timer as it was: where
-- that is pending, it is going to fire for a server whose memory was given back.
pub server_handle_empty_dangling :
    (env : Env) (srv : Server)
    → srv.resched.pending ≡ true
    → (srv' : Server) × (server_handle_empty env srv 3 ≡ done srv')
      × (srv'.freed ≡ true)
      × (srv'.resched.pending ≡ true)
unfolding server_handle_empty server_set_state set_state_from server_check_transition enter_timers
    server_state_is_final srv_stop_coap_timer server_free
server_handle_empty_dangling env srv h = (_, refl, refl, h)
