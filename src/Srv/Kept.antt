-- ===== src/Srv/Kept.antt =====
-- Each event of a server transaction keeps its invariant and ends no process (evcoap_srv.c).
use webthings.Common.{
  ℕ, ◌≡◌, ◌≢◌, inl, inr, refl, ◌∙◌, [], Option, none, some, Bool, true, false, ◌==◌, ◌&&◌, ◌||◌,
  if◌then◌else◌, Result, ok, err, fault, Run, done, failed, ended, and_then, or_else, Bool-cases,
  arith,
}
use webthings.Timer.{Timer, Events, timer_start, fired}
use webthings.Flow.{flow_get_proxied}
use webthings.Srv.{
  SrvState, ack_sent, wait_ack, coap_retry, resp_done, internal_err, resp_ack_timeout, req_ok,
  Server, server_state_is_final, server_check_transition, is_req_ok, is_ack_sent, is_wait_ack,
  set_state_from, enter_timers, server_set_state,
}
use webthings.Srv.Send.{
  Env, conn_get_confirmable, server_send_resp, server_send_separate_ack, server_ready,
}
use webthings.Srv.Drive.{
  CbRc, ready, wait, poll, error, Answer, answered, server_reschedule_userfn, wait_accepted,
  server_wait, server_dispatch, server_userfn, resched_userfn, server_wakeup, srv_coap_timeout,
  server_abort, server_handle_empty, with_resched,
}
use webthings.Srv.Unchanged.{
  Ends, Alike, Alike-refl, Alike-sends, Ends-and_then, Ends-and_also, Ends-or_else, Ends-as_error,
  server_send_resp-Alike, server_send_separate_ack-Alike, server_reply-Alike,
}
use webthings.Srv.States.{IsTimed, IsServer, set_final, set_ack_sent, set_wait_again}
use webthings.Srv.Entered.{
  Alike-IsServer, is_req_ok-eq, is_wait_ack-eq, set_at, IsServer-Live, to_internal_err,
  to_client_rst, to_resp_done, sent_ready,
}

server_ready-IsServer :
    (env : Env) (srv : Server) (is_con : Bool)
    → IsServer srv
    → srv.freed ≡ false
    → Ends IsServer (server_ready env srv is_con)
unfolding server_ready
server_ready-IsServer env srv is_con v f =
    elim (Bool-cases (is_ack_sent srv.state || is_req_ok srv.state)) [
      | inl h ↦ rw h (
          Ends-and_then (Alike srv) IsServer (server_send_resp env srv)
            (λ s.
              server_set_state env.ev s
                (if is_con && is_ack_sent s.state then wait_ack else resp_done))
            (server_send_resp-Alike env srv)
            (λ s w.
              sent_ready env.ev s is_con (Alike-IsServer srv s w v) (w.freed ∙ f) (rw w.state h))
            (λ s w. Alike-IsServer srv s w v))
      | inr h ↦ rw h v
    ]

-- A server that is about to wait for the user: the request is accepted, and its memory is in use.
abbrev AtRequest : Server → Type 0
AtRequest srv = IsServer srv × (srv.state ≡ req_ok) × (srv.freed ≡ false)

timer_start-InBounds : (ev : Events) (ti : Timer) (n : ℕ) → timer_start ev ti n ≢ fault
unfolding timer_start
timer_start-InBounds ev ti n = ground arith

with_resched-AtRequest :
    (srv : Server) (r : Result Timer Timer)
    → AtRequest srv
    → r ≢ fault
    → Ends AtRequest (with_resched srv r)
with_resched-AtRequest srv (ok ti) (v, e, f) h =
    (record { freed_final = v.freed_final; not_retrying = v.not_retrying; timed = v.timed }, e, f)
with_resched-AtRequest srv (err ti) (v, e, f) h =
    (record { freed_final = v.freed_final; not_retrying = v.not_retrying; timed = v.timed }, e, f)
with_resched-AtRequest srv fault v h = absurd (h refl)

reschedule-AtRequest :
    (env : Env) (srv : Server) (tv : ℕ) (proxied : Bool)
    → AtRequest srv
    → Ends AtRequest (if proxied then done srv else server_reschedule_userfn env srv tv)
unfolding server_reschedule_userfn
reschedule-AtRequest env srv tv true v = v
reschedule-AtRequest env srv tv false v =
    with_resched-AtRequest srv _ v
      (timer_start-InBounds env.ev (record srv.resched { tout = tv }) 1)

enter_ack_sent :
    (ev : Events) (srv : Server) → AtRequest srv → Ends IsServer (server_set_state ev srv ack_sent)
enter_ack_sent ev srv (v, e, f) =
    set_at ev IsServer srv req_ok ack_sent e (set_ack_sent ev srv (IsServer-Live srv req_ok v e f))

acked-Alike :
    (env : Env) (srv : Server) (is_con : Bool)
    → Ends (Alike srv) (if is_con then server_send_separate_ack env srv else done srv)
acked-Alike env srv true = server_send_separate_ack-Alike env srv
acked-Alike env srv false = Alike-refl srv

wait_accepted-IsServer :
    (env : Env) (srv : Server) (is_con : Bool) (tv : ℕ)
    → AtRequest srv
    → Ends IsServer (wait_accepted env srv is_con tv)
unfolding wait_accepted
wait_accepted-IsServer env srv is_con tv (v, e, f) =
    Ends-and_then (Alike srv) IsServer _ _ (acked-Alike env srv is_con)
      (λ s w.
        let u = Alike-IsServer srv s w v in
        let s' = record s { listed = true } in
        let at : AtRequest s' = (
          record { freed_final = u.freed_final; not_retrying = u.not_retrying; timed = u.timed },
          w.state ∙ e,
          w.freed ∙ f,
        ) in
        Ends-and_then AtRequest IsServer _ (λ t. server_set_state env.ev t ack_sent)
          (reschedule-AtRequest env s' tv (flow_get_proxied s'.flow) at) (enter_ack_sent env.ev)
          (λ t a. a.0))
      (λ s w. Alike-IsServer srv s w v)

server_wait-IsServer :
    (env : Env) (srv : Server) (is_con : Bool) (tv : ℕ)
    → IsServer srv
    → srv.freed ≡ false
    → Ends IsServer (server_wait env srv is_con tv)
unfolding server_wait
server_wait-IsServer env srv is_con tv v f = elim (Bool-cases (is_req_ok srv.state)) [
  | inl h ↦ rw h (wait_accepted-IsServer env srv is_con tv (v, is_req_ok-eq srv.state h, f))
  | inr h ↦ rw h v
]

server_dispatch-IsServer :
    (env : Env) (srv : Server) (is_con : Bool) (rc : CbRc) (tv : ℕ)
    → IsServer srv
    → srv.freed ≡ false
    → Ends IsServer (server_dispatch env srv is_con rc tv)
unfolding server_dispatch
server_dispatch-IsServer env srv is_con ready tv v f = server_ready-IsServer env srv is_con v f
server_dispatch-IsServer env srv is_con wait tv v f = server_wait-IsServer env srv is_con tv v f
server_dispatch-IsServer env srv is_con poll tv v f = v
server_dispatch-IsServer env srv is_con error tv v f = v

answered-Alike : (srv : Server) (a : Answer) → Alike srv (answered srv a)
unfolding answered
answered-Alike srv a = Alike-sends srv srv _ srv.octrl srv.sent _ (Alike-refl srv)

pub server_userfn-IsServer :
    (env : Env) (srv : Server) (a : Answer)
    → IsServer srv
    → srv.freed ≡ false
    → Ends IsServer (server_userfn env srv a)
unfolding server_userfn
server_userfn-IsServer env srv a v f = with_flag (conn_get_confirmable srv.is_confirmable)
  where
    with_flag :
        (flag : Option Bool)
        → Ends IsServer (elim flag [
          | none ↦ failed srv
          | some is_con ↦ server_dispatch env (answered srv a) is_con a.rc a.tv
        ])
    with_flag none = v
    with_flag (some is_con) =
        let w = answered-Alike srv a in
        server_dispatch-IsServer env (answered srv a) is_con a.rc a.tv
          (Alike-IsServer srv (answered srv a) w v) (w.freed ∙ f)

pub resched_userfn-IsServer :
    (env : Env) (srv : Server) (a : Answer)
    → IsServer srv
    → srv.freed ≡ false
    → Ends IsServer (resched_userfn env srv a)
unfolding resched_userfn
resched_userfn-IsServer env srv a v f =
    Ends-or_else IsServer IsServer _ _
      (server_userfn-IsServer env (record srv { resched = fired srv.resched }) a
        (record { freed_final = v.freed_final; not_retrying = v.not_retrying; timed = v.timed }) f)
      (to_internal_err env.ev) (λ s w e. w)

pub server_wakeup-IsServer :
    (env : Env) (srv : Server)
    → IsServer srv
    → srv.freed ≡ false
    → Ends IsServer (server_wakeup env srv)
unfolding server_wakeup
server_wakeup-IsServer env srv v f = with_flag (conn_get_confirmable srv.is_confirmable)
  where
    with_flag :
        (flag : Option Bool)
        → Ends IsServer
            (elim flag [ none ↦ failed srv | some is_con ↦ server_ready env srv is_con ])
    with_flag none = v
    with_flag (some is_con) = server_ready-IsServer env srv is_con v f

pub server_abort-IsServer :
    (env : Env) (srv : Server) (rc : ℕ) → IsServer srv → Ends IsServer (server_abort env srv rc)
unfolding server_abort
server_abort-IsServer env srv rc v = Ends-as_error IsServer _ (
    Ends-and_also (Alike srv) IsServer _ _
      (server_reply-Alike env srv (if rc == 0 then 160 else rc) [])
      (λ s w. to_internal_err env.ev s (Alike-IsServer srv s w v)))

pub server_handle_empty-IsServer :
    (env : Env) (srv : Server) (t : ℕ)
    → IsServer srv
    → Ends IsServer (server_handle_empty env srv t)
unfolding server_handle_empty server_check_transition
server_handle_empty-IsServer env srv t v = elim (Bool-cases (t == 3)) [
  | inl e ↦ rw e (to_client_rst env.ev srv v)
  | inr e ↦ elim (Bool-cases (is_wait_ack srv.state)) [
    | inl h ↦ rw (e, h) (to_resp_done env.ev srv wait_ack v (is_wait_ack-eq srv.state h) refl)
    | inr h ↦ rw (e, h) (server_abort-IsServer env srv 128 v)
  ]
]

-- The end of a retransmission: a server in COAP_RETRY, by the outcome of its sending.
retry_case :
    (ev : Events) (srv : Server) (r : Run Server)
    → srv.freed ≡ false
    → IsTimed wait_ack srv.coap
    → srv.coap.evti ≡ true
    → srv.state ≡ coap_retry
    → Ends (Alike srv) r
    → Ends IsServer (
        or_else
          (and_then r (λ t. server_set_state ev t wait_ack))
          (λ t. server_set_state ev t internal_err))
unfolding server_check_transition server_state_is_final
retry_case ev srv (done s) f i a e w =
    Ends-or_else IsServer IsServer (server_set_state ev s wait_ack) _
      (set_at ev IsServer s coap_retry wait_ack (w.state ∙ e)
        (set_wait_again ev s (w.freed ∙ f, rw w.coap i) (rw w.coap a)))
      (to_internal_err ev) (λ t v q. v)
retry_case ev srv (failed s) f i a e w =
    set_at ev IsServer s coap_retry internal_err (w.state ∙ e)
      (set_final ev wait_ack coap_retry internal_err s refl refl (rw w.coap i))
retry_case ev srv ended f i a e w = w

fired-IsTimed : (state : SrvState) (ti : Timer) → IsTimed state ti → IsTimed state (fired ti)
fired-IsTimed state ti w = record { attached = w.attached; pending = λ q. cc; capped = w.capped }

pub to_coap_retry :
    (ev : Events) (srv : Server)
    → srv.state ≡ wait_ack
    → server_set_state ev srv coap_retry ≡ done (record srv { state = coap_retry })
unfolding server_set_state set_state_from server_check_transition enter_timers server_state_is_final
to_coap_retry ev srv e = rw e refl

pub srv_coap_timeout-IsServer :
    (env : Env) (srv : Server)
    → IsServer srv
    → srv.freed ≡ false
    → srv.coap.pending ≡ true
    → Ends IsServer (srv_coap_timeout env srv)
unfolding srv_coap_timeout server_check_transition server_state_is_final
srv_coap_timeout-IsServer env srv v f h =
    let a = v.timed.pending h in
    let e = is_wait_ack-eq srv.state (v.timed.attached a) in
    let i = fired-IsTimed wait_ack srv.coap (rw e at v.timed) in
    let srv' = record srv { coap = fired srv.coap } in
    elim (Bool-cases (srv.coap.retries_left == 0)) [
      | inl z ↦ rw z (
          set_at env.ev IsServer srv' wait_ack resp_ack_timeout e
            (set_final env.ev wait_ack wait_ack resp_ack_timeout srv' refl refl i))
      | inr z ↦
          rw (z, to_coap_retry env.ev srv' e)
            (retry_case env.ev (record srv' { state = coap_retry }) _ f i a refl
              (server_send_resp-Alike env (record srv' { state = coap_retry })))
    ]
