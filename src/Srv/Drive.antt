-- ===== src/Srv/Drive.antt =====
-- What drives a server transaction: the user's function, the two timers, empty messages of the client
-- and the user's wake-up (evcoap_srv.c).
use webthings.Common.{
  ℕ, Bytes, [], Option, none, some, Bool, true, ◌==◌, if◌then◌else◌, Result, ok, err, fault, Run,
  done, failed, ended, and_then, and_also, or_else,
}
use webthings.Opt.{Opts}
use webthings.Flow.{Flow, flow_set_resp_code, flow_get_proxied}
use webthings.Timer.{Timer, timer_start, fired}
use webthings.Srv.{
  internal_err, ack_sent, wait_ack, resp_ack_timeout, resp_done, coap_retry, client_rst, OutPdu,
  Server, is_req_ok, is_wait_ack, server_set_state,
}
use webthings.Srv.Send.{
  Env, conn_get_confirmable, server_send_resp, server_send_separate_ack, server_reply, server_ready,
}

-- ec_cbrc_t.
pub data CbRc : Type 0 where
  ready wait poll error : CbRc

-- What a call of the user's function does to the transaction, by the interface of evcoap.c: the
-- response code (where it is valid), the options and the payload of the response, the time to wait
-- and what it returns.
pub record Answer : Type 0 where
  pub rc : CbRc
  pub resp_code : ℕ
  pub opts : Opts
  pub payload : Bytes
  pub tv : ℕ

abbrev pub result_of : Flow → Result Flow Flow → Flow
result_of flow (ok flow') = flow'
result_of flow _ = flow

abbrev pub filled : Answer → Option OutPdu → Option OutPdu
filled a none = none
filled a (some res) = some (record res { opts = a.opts; payload = a.payload })

unfoldable pub answered : Server → Answer → Server
unfolding flow_set_resp_code
answered srv a = record srv {
  flow = result_of srv.flow (flow_set_resp_code srv.flow a.resp_code);
  res = filled a srv.res;
}

-- The server after ec_timer_start of the reschedule timer.
abbrev pub with_resched : Server → Result Timer Timer → Run Server
with_resched srv (ok ti) = done (record srv { resched = ti })
with_resched srv (err ti) = failed (record srv { resched = ti })
with_resched srv fault = ended

-- ec_server_reschedule_userfn.
unfoldable pub server_reschedule_userfn : Env → Server → ℕ → Run Server
unfolding timer_start
server_reschedule_userfn env srv tv =
    with_resched srv (timer_start env.ev (record srv.resched { tout = tv }) 1)

-- EC_CBRC_WAIT in ec_server_userfn, for an accepted request.
unfoldable pub wait_accepted : Env → Server → Bool → ℕ → Run Server
unfolding server_send_separate_ack server_reschedule_userfn server_set_state
wait_accepted env srv is_con tv =
    and_then (if is_con then server_send_separate_ack env srv else done srv) (λ s.
      let s' = record s { listed = true } in
      and_then (if flow_get_proxied s'.flow then done s' else server_reschedule_userfn env s' tv)
        (λ t. server_set_state env.ev t ack_sent))

-- EC_CBRC_WAIT in ec_server_userfn.
unfoldable pub server_wait : Env → Server → Bool → ℕ → Run Server
server_wait env srv is_con tv =
    if is_req_ok srv.state then wait_accepted env srv is_con tv else failed srv

-- The switch of ec_server_userfn.
unfoldable pub server_dispatch : Env → Server → Bool → CbRc → ℕ → Run Server
unfolding server_ready server_wait
server_dispatch env srv is_con ready tv = server_ready env srv is_con
server_dispatch env srv is_con wait tv = server_wait env srv is_con tv
server_dispatch env srv is_con poll tv = failed srv
server_dispatch env srv is_con error tv = failed srv

-- ec_server_userfn.
unfoldable pub server_userfn : Env → Server → Answer → Run Server
unfolding server_dispatch answered conn_get_confirmable
server_userfn env srv a = elim (conn_get_confirmable srv.is_confirmable) [
  | none ↦ failed srv
  | some is_con ↦ server_dispatch env (answered srv a) is_con a.rc a.tv
]

-- resched_userfn, when the reschedule timer fires.
unfoldable pub resched_userfn : Env → Server → Answer → Run Server
unfolding server_userfn server_set_state
resched_userfn env srv a =
    or_else (server_userfn env (record srv { resched = fired srv.resched }) a)
      (λ s. server_set_state env.ev s internal_err)

-- ec_server_wakeup.
unfoldable pub server_wakeup : Env → Server → Run Server
unfolding conn_get_confirmable server_ready
server_wakeup env srv = elim (conn_get_confirmable srv.is_confirmable) [
  | none ↦ failed srv
  | some is_con ↦ server_ready env srv is_con
]

-- ec_srv_coap_timeout, when the retransmission timer fires.
unfoldable pub srv_coap_timeout : Env → Server → Run Server
srv_coap_timeout env srv =
    let srv' = record srv { coap = fired srv.coap } in
    if srv'.coap.retries_left == 0
    then server_set_state env.ev srv' resp_ack_timeout
    else and_then (server_set_state env.ev srv' coap_retry) (λ s.
      or_else (and_then (server_send_resp env s) (λ t. server_set_state env.ev t wait_ack))
        (λ t. server_set_state env.ev t internal_err))

-- A step behind which EC_NET_CBRC_ERROR is returned.
abbrev pub as_error : {S : Type 0} → Run S → Run S
as_error (done s) = failed s
as_error r = r

-- The end of ec_server_handle_pdu on an error: a reply, 5.00 by default, and the error state.
unfoldable pub server_abort : Env → Server → ℕ → Run Server
unfolding server_reply server_set_state
server_abort env srv rc = as_error (
    and_also (server_reply env srv (if rc == 0 then 160 else rc) [])
      (λ s. server_set_state env.ev s internal_err))

-- ec_server_handle_pdu on an empty message of type ACK (2) or RST (3) for this server.
unfoldable pub server_handle_empty : Env → Server → ℕ → Run Server
server_handle_empty env srv t =
    if t == 3
    then server_set_state env.ev srv client_rst
    else (if is_wait_ack srv.state
        then server_set_state env.ev srv resp_done
        else server_abort env srv 128)
