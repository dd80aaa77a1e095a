-- ===== src/Srv/Retry.antt =====
-- The retransmissions of a separate response come to an end (evcoap_srv.c).
use webthings.Common.{
  ℕ, zero, suc, ◌≤◌, ◌≡◌, ◌⊎◌, inl, inr, refl, sym, subst, ◌∙◌, Bool, true, false, ◌==◌,
  if◌then◌else◌, Run, done, failed, ended, and_then, and_also, or_else, Bool-cases, arith,
}
use webthings.Timer.{Events, timer_restart, fired}
use webthings.Srv.{
  SrvState, wait_ack, coap_retry, internal_err, resp_ack_timeout, Server, server_check_transition,
  server_state_is_final, srv_restart_coap_timer, server_free, enter_timers, set_state_from,
  server_set_state,
}
use webthings.Srv.Send.{Env}
use webthings.Srv.Drive.{srv_coap_timeout}
use webthings.Srv.Unchanged.{Ends, Alike, Ends-and_also, Ends-or_else, server_send_resp-Alike}
use webthings.Srv.States.{IsServer, no_timer, final_not_wait}
use webthings.Srv.Entered.{is_wait_ack-eq, set_at}
use webthings.Srv.Kept.{to_coap_retry, srv_coap_timeout-IsServer}

-- At most `n` expiries of the retransmission timer, as long as the server is in use; what comes from
-- outside may differ from one to the next.
unfoldable pub timeouts : (ℕ → Env) → ℕ → Server → Run Server
timeouts env zero srv = done srv
timeouts env (suc n) srv =
    let rest = timeouts env n in
    if srv.freed then done srv else and_also (srv_coap_timeout (env n) srv) rest

-- A server whose memory was given back.
abbrev Freed : Server → Type 0
Freed srv = srv.freed ≡ true

-- A server that goes on waiting: its timer is pending, with one retry less than `n`.
abbrev Waits : ℕ → Server → Type 0
Waits n srv = (srv.freed ≡ false) × (srv.coap.pending ≡ true) × (suc srv.coap.retries_left ≡ n)

abbrev Settles : ℕ → Server → Type 0
Settles n srv = Freed srv ⊎ Waits n srv

-- The end of a transaction.
abbrev pub Over : Server → Type 0
Over srv = (srv.freed ≡ true) × (server_state_is_final srv.state ≡ true)

Ends-both : (P Q : Server → Type 0) (r : Run Server) → Ends P r → Ends Q r → Ends (λ s. P s × Q s) r
Ends-both P Q (done s) h k = (h, k)
Ends-both P Q (failed s) h k = (h, k)
Ends-both P Q ended h k = h

final_freed :
    (ev : Events) (n : ℕ) (cur state : SrvState) (srv : Server)
    → server_check_transition cur state ≡ true
    → server_state_is_final state ≡ true
    → Ends (Settles n) (set_state_from ev cur srv state)
unfolding set_state_from server_free
final_freed ev n cur state srv c f =
    rw (c, no_timer ev cur state srv (final_not_wait state f), f) (inl refl)

restart-Waits :
    (ev : Events) (srv : Server) (n : ℕ)
    → ev.add_ok ≡ true
    → ev.del_ok ≡ true
    → srv.freed ≡ false
    → srv.coap.evti ≡ true
    → srv.coap.retries_left ≡ n
    → (n == 0) ≡ false
    → Ends (Waits n) (srv_restart_coap_timer ev srv)
unfolding srv_restart_coap_timer timer_restart
restart-Waits ev srv n a d f e z t = ground arith

again-Settles :
    (ev : Events) (srv : Server) (n : ℕ)
    → ev.add_ok ≡ true
    → ev.del_ok ≡ true
    → srv.freed ≡ false
    → srv.coap.evti ≡ true
    → srv.coap.retries_left ≡ n
    → (n == 0) ≡ false
    → Ends (Settles n) (set_state_from ev coap_retry srv wait_ack)
unfolding set_state_from server_check_transition enter_timers server_state_is_final
again-Settles ev srv n a d f e z t =
    Ends-and_also (Waits n) (Settles n) (srv_restart_coap_timer ev srv) _
      (restart-Waits ev srv n a d f e z t) (λ s w. inr w)

to_internal_err_freed :
    (ev : Events) (n : ℕ) (srv : Server) → Ends (Settles n) (server_set_state ev srv internal_err)
unfolding server_set_state server_check_transition server_state_is_final
to_internal_err_freed ev n srv = final_freed ev n srv.state internal_err srv refl refl

-- What follows the sending of a retransmission, by its outcome.
sent-Settles :
    (ev : Events) (srv : Server) (n : ℕ) (r : Run Server)
    → ev.add_ok ≡ true
    → ev.del_ok ≡ true
    → srv.freed ≡ false
    → srv.coap.evti ≡ true
    → srv.coap.retries_left ≡ n
    → (n == 0) ≡ false
    → srv.state ≡ coap_retry
    → Ends (Alike srv) r
    → Ends (Settles n) (
        or_else
          (and_then r (λ t. server_set_state ev t wait_ack))
          (λ t. server_set_state ev t internal_err))
sent-Settles ev srv n (done s) a d f e z t q w =
    Ends-or_else (Settles n) (Settles n) (server_set_state ev s wait_ack) _
      (set_at ev (Settles n) s coap_retry wait_ack (w.state ∙ q)
        (again-Settles ev s n a d (w.freed ∙ f) (rw w.coap e) (rw w.coap z) t))
      (λ t v. to_internal_err_freed ev n t) (λ t v p. v)
sent-Settles ev srv n (failed s) a d f e z t q w = to_internal_err_freed ev n s
sent-Settles ev srv n ended a d f e z t q w = w

-- An expiry frees the server, or uses up one of its retries.
srv_coap_timeout-Settles :
    (env : Env) (srv : Server)
    → env.ev.add_ok ≡ true
    → env.ev.del_ok ≡ true
    → IsServer srv
    → srv.freed ≡ false
    → srv.coap.pending ≡ true
    → Ends (Settles srv.coap.retries_left) (srv_coap_timeout env srv)
unfolding srv_coap_timeout server_check_transition server_state_is_final
srv_coap_timeout-Settles env srv a d v f h =
    let n = srv.coap.retries_left in
    let e = is_wait_ack-eq srv.state (v.timed.attached (v.timed.pending h)) in
    let srv' = record srv { coap = fired srv.coap } in
    elim (Bool-cases (n == 0)) [
      | inl t ↦ rw t (
          set_at env.ev (Settles n) srv' wait_ack resp_ack_timeout e
            (final_freed env.ev n wait_ack resp_ack_timeout srv' refl refl))
      | inr t ↦
          rw (t, to_coap_retry env.ev srv' e)
            (sent-Settles env.ev (record srv' { state = coap_retry }) n _ a d f (v.timed.pending h)
              refl t refl (server_send_resp-Alike env (record srv' { state = coap_retry })))
    ]

unless_freed : (f : Bool) (a b : Run Server) → f ≡ false → (if f then a else b) ≡ b
unless_freed f a b e = rw e refl

freed-Over : (srv : Server) → IsServer srv → srv.freed ≡ true → Over srv
freed-Over srv v f = (f, sym v.freed_final ∙ f)

timeouts-freed : (env : ℕ → Env) (n : ℕ) (srv : Server) → Over srv → Ends Over (timeouts env n srv)
unfolding timeouts
timeouts-freed env zero srv (f, o) = (f, o)
timeouts-freed env (suc n) srv (f, o) = rw f (refl, o)

-- The first expiry of several.
timeouts-suc :
    (env : ℕ → Env) (n : ℕ) (srv : Server)
    → ((i : ℕ) → (env i).ev.add_ok ≡ true)
    → ((i : ℕ) → (env i).ev.del_ok ≡ true)
    → IsServer srv
    → srv.freed ≡ false
    → srv.coap.pending ≡ true
    → ((s : Server) → IsServer s → Waits srv.coap.retries_left s → Ends Over (timeouts env n s))
    → Ends Over (timeouts env (suc n) srv)
unfolding timeouts
timeouts-suc env n srv a d v f h k = subst (Ends Over) (sym (unless_freed srv.freed _ _ f)) (
    Ends-and_also (λ s. Settles srv.coap.retries_left s × IsServer s) Over
      (srv_coap_timeout (env n) srv) (timeouts env n)
      (Ends-both (Settles srv.coap.retries_left) IsServer (srv_coap_timeout (env n) srv)
        (srv_coap_timeout-Settles (env n) srv (a n) (d n) v f h)
        (srv_coap_timeout-IsServer (env n) srv v f h))
      (λ s (p, w). elim p [ inl g ↦ timeouts-freed env n s (freed-Over s w g) | inr g ↦ k s w g ]))

-- A server that awaits the acknowledgement of its separate response, with at most `n` retries left and
-- as long as libevent re-arms its timer, is freed in a final state after at most `n + 1` expiries,
-- whatever becomes of the retransmissions, and the process goes on.
pub timeouts_end :
    (env : ℕ → Env) (n : ℕ) (srv : Server)
    → ((i : ℕ) → (env i).ev.add_ok ≡ true)
    → ((i : ℕ) → (env i).ev.del_ok ≡ true)
    → IsServer srv
    → srv.freed ≡ false
    → srv.coap.pending ≡ true
    → srv.coap.retries_left ≤ n
    → Ends Over (timeouts env (suc n) srv)
timeouts_end env zero srv a d v f h b =
    timeouts-suc env zero srv a d v f h (λ s w (g, p, z). absurd (ground (arith, z, b)))
timeouts_end env (suc n) srv a d v f h b =
    timeouts-suc env (suc n) srv a d v f h
      (λ s w (g, p, z). timeouts_end env n s a d w g p (ground (arith, z, b)))
