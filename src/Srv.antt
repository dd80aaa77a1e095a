-- ===== src/Srv.antt =====
-- A server transaction: its states and timers, bridge/sw/lib/evcoap/src/evcoap_srv.c. Pool, header
-- and flow are those of the other modules; a PDU that was attached is named by its MID.
pub mod Send
pub mod Drive
pub mod Unchanged
pub mod States
pub mod Entered
pub mod Kept
pub mod Lookup
pub mod Safety
pub mod Input
pub mod Stepped
pub mod Served
pub mod Retry
use webthings.Common.{
  ℕ, ◌+◌, ◌-◌, ◌*◌, Bytes, List, [], ◌∷◌, Option, none, some, Bool, true, false, ◌==◌,
  if◌then◌else◌, Result, ok, err, fault, Run, done, failed, ended, and_also,
}
use webthings.Opt.{Opts}
use webthings.Flow.{Flow, flow_set_separate}
use webthings.Timer.{Timer, Events, timer_start, timer_remove, timer_restart}

-- ec_srv_state_t; `state_none` is EC_SRV_STATE_NONE.
pub data SrvState : Type 0 where
  state_none internal_err dup_req bad_req req_ok ack_sent wait_ack : SrvState
  resp_ack_timeout resp_done coap_retry client_rst : SrvState

-- A PDU of the server: its header, the MID that it remembers, the MID of its sibling, if it has one,
-- its options and its payload.
pub record OutPdu : Type 0 where
  pub hdr : Bytes
  pub mid : ℕ
  pub sibling : Option ℕ
  pub opts : Opts
  pub payload : Bytes

-- ec_server_t, with the connection of its flow: `socket`, `peer`, and `is_confirmable`, which is 0
-- while unset, 1 for CON and 2 for NON. `req` is the MID of the request, `listed` whether the server is
-- in the list, `freed` whether its memory was given back, and `sent` what went out, the latest first.
pub record Server : Type 0 where
  pub state : SrvState
  pub flow : Flow
  pub socket : ℕ
  pub peer : Bytes
  pub is_confirmable : ℕ
  pub req : Option ℕ
  pub payload : Bytes
  pub res : Option OutPdu
  pub octrl : Option OutPdu
  pub coap : Timer
  pub resched : Timer
  pub listed : Bool
  pub freed : Bool
  pub sent : List OutPdu

-- ec_server_state_is_final.
unfoldable pub server_state_is_final : SrvState → Bool
server_state_is_final internal_err = true
server_state_is_final dup_req = true
server_state_is_final bad_req = true
server_state_is_final resp_ack_timeout = true
server_state_is_final resp_done = true
server_state_is_final client_rst = true
server_state_is_final _ = false

-- Tests of the current state.
abbrev pub is_state_none : SrvState → Bool
is_state_none state_none = true
is_state_none _ = false

abbrev pub is_req_ok : SrvState → Bool
is_req_ok req_ok = true
is_req_ok _ = false

abbrev pub is_ack_sent : SrvState → Bool
is_ack_sent ack_sent = true
is_ack_sent _ = false

abbrev pub is_wait_ack : SrvState → Bool
is_wait_ack wait_ack = true
is_wait_ack _ = false

abbrev pub is_coap_retry : SrvState → Bool
is_coap_retry coap_retry = true
is_coap_retry _ = false

-- ec_server_check_transition: the current state, the next; true for 0.
unfoldable pub server_check_transition : SrvState → SrvState → Bool
server_check_transition cur internal_err = true
server_check_transition cur dup_req = is_state_none cur
server_check_transition cur bad_req = is_state_none cur
server_check_transition cur req_ok = is_state_none cur
server_check_transition cur ack_sent = if is_req_ok cur then true else is_wait_ack cur
server_check_transition cur wait_ack = if is_ack_sent cur then true else is_coap_retry cur
server_check_transition cur resp_ack_timeout = is_wait_ack cur
server_check_transition cur resp_done =
    if is_req_ok cur then true else (if is_wait_ack cur then true else is_ack_sent cur)
server_check_transition cur coap_retry = is_wait_ack cur
server_check_transition cur client_rst = true
server_check_transition cur state_none = false

-- EC_COAP_RESP_TIMEOUT and EC_COAP_MAX_RETRANSMIT.
abbrev pub resp_timeout : ℕ
resp_timeout = 2

abbrev pub max_retransmit : ℕ
max_retransmit = 4

-- The server after an operation on its timer.
abbrev pub with_coap : Server → Result Timer Timer → Run Server
with_coap srv (ok ti) = done (record srv { coap = ti })
with_coap srv (err ti) = failed (record srv { coap = ti })
with_coap srv fault = ended

-- ec_srv_start_coap_timer, ec_srv_restart_coap_timer and ec_srv_stop_coap_timer.
unfoldable pub srv_start_coap_timer : Events → Server → Run Server
unfolding timer_start
srv_start_coap_timer ev srv =
    with_coap srv (timer_start ev (record srv.coap { tout = resp_timeout }) max_retransmit)

unfoldable pub srv_restart_coap_timer : Events → Server → Run Server
unfolding timer_restart
srv_restart_coap_timer ev srv =
    if srv.coap.retries_left == 0
    then failed srv
    else with_coap srv (
        timer_restart ev
          (record srv.coap { tout = srv.coap.tout * 2; retries_left = srv.coap.retries_left - 1 }))

unfoldable pub srv_stop_coap_timer : Server → Server
unfolding timer_remove
srv_stop_coap_timer srv = record srv { coap = timer_remove srv.coap }

-- ec_server_free: the PDUs go, and the list is left. The timers are not looked at.
unfoldable pub server_free : Server → Server
server_free srv = record srv {
  res = none;
  req = none;
  payload = [];
  octrl = none;
  listed = false;
  freed = true;
}

-- What ec_server_set_state does before the state changes, for the next state and the current one:
-- the retransmission timer.
unfoldable pub enter_timers : Events → SrvState → SrvState → Server → Run Server
unfolding srv_start_coap_timer srv_restart_coap_timer flow_set_separate
enter_timers ev wait_ack ack_sent srv =
    srv_start_coap_timer ev (record srv { flow = flow_set_separate srv.flow true })
enter_timers ev wait_ack coap_retry srv = srv_restart_coap_timer ev srv
enter_timers ev state cur srv = done srv

-- ec_server_set_state from the state `cur`. An invalid transition ends the process.
unfoldable pub set_state_from : Events → SrvState → Server → SrvState → Run Server
unfolding server_check_transition server_state_is_final enter_timers srv_stop_coap_timer server_free
set_state_from ev cur srv state =
    if server_check_transition cur state
    then and_also (enter_timers ev state cur srv) (λ s.
      let s' = record s { state = state } in
      if server_state_is_final state then done (server_free (srv_stop_coap_timer s')) else done s')
    else ended

unfoldable pub server_set_state : Events → Server → SrvState → Run Server
unfolding set_state_from
server_set_state ev srv state = set_state_from ev srv.state srv state
