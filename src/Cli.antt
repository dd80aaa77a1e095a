-- ===== src/Cli.antt =====
-- A client transaction: its states, its timers and its responses, bridge/sw/lib/evcoap/src/evcoap_cli.c.
pub mod Drive
pub mod Input
pub mod Told
pub mod Final
pub mod Empty
pub mod Freshness
pub mod Start
pub mod Sending
use webthings.Common.{
  ℕ, ◌+◌, ◌-◌, ◌*◌, List, [], ◌∷◌, ◌++◌, Bytes, Option, none, some, Bool, true, false, ◌==◌, ◌||◌,
  ◌&&◌, if◌then◌else◌, Result, ok, err, fault, Run, done, failed, ended, and_then, and_also,
}
use webthings.Opt.{Opts}
use webthings.Opt.Get.{opts_get_max_age}
use webthings.Pdu.{HostOrder, Hdr}
use webthings.Flow.{Flow}
use webthings.Timer.{Timer, Events, timer_start, timer_remove, timer_restart}
use webthings.Srv.{OutPdu, resp_timeout, max_retransmit}
use webthings.Srv.Send.{conn_get_confirmable}

-- ec_cli_state_t; `state_none` is EC_CLI_STATE_NONE.
pub data CliState : Type 0 where
  state_none internal_err dns_failed dns_ok send_failed req_sent req_ackd : CliState
  app_timeout coap_retry coap_timeout req_done req_rst wait_nfy obs_timeout : CliState

-- ec_cli_obs_t.
pub record CliObs : Type 0 where
  pub on : Bool
  pub cancel : Bool
  pub last_cnt : ℕ
  pub last_ts : ℕ

-- A PDU that was received: header, options and payload.
pub record ResPdu : Type 0 where
  pub hdr : Hdr
  pub opts : Opts
  pub payload : Bytes

-- ec_client_t, with the connection of its flow (`is_confirmable` as for a server). `res_set` is the
-- bundle of responses, the first in front; `cb` whether the user set a callback; `freed` whether the memory was given back; `called` the
-- states in which the user's callback was invoked, and `sent` what went out, the latest in front.
pub record Client : Type 0 where
  pub state : CliState
  pub userown : Bool
  pub is_confirmable : ℕ
  pub is_multicast : Bool
  pub cb : Bool
  pub observe : CliObs
  pub flow : Flow
  pub req : OutPdu
  pub res_set : List ResPdu
  pub app : Timer
  pub coap : Timer
  pub obs : Timer
  pub freed : Bool
  pub called : List CliState
  pub sent : List OutPdu

-- What the client gets from outside: libevent, whether EC_LITTLE_ENDIAN is defined, the byte order,
-- whether ec_net_send of a PDU succeeds, and whether the user's callback cancels the observation.
pub record CliEnv : Type 0 where
  pub ev : Events
  pub le : Bool
  pub host : HostOrder
  pub net_send : OutPdu → Bool
  pub cancels : Client → Bool

-- ec_client_state_is_final.
unfoldable pub client_state_is_final : CliState → Bool
client_state_is_final CliState.internal_err = true
client_state_is_final CliState.dns_failed = true
client_state_is_final CliState.send_failed = true
client_state_is_final CliState.coap_timeout = true
client_state_is_final CliState.app_timeout = true
client_state_is_final CliState.req_done = true
client_state_is_final CliState.req_rst = true
client_state_is_final CliState.obs_timeout = true
client_state_is_final _ = false

-- Tests of the current state.
abbrev pub is_cli_none : CliState → Bool
is_cli_none CliState.state_none = true
is_cli_none _ = false

abbrev pub is_dns_ok : CliState → Bool
is_dns_ok CliState.dns_ok = true
is_dns_ok _ = false

abbrev pub is_cli_retry : CliState → Bool
is_cli_retry CliState.coap_retry = true
is_cli_retry _ = false

abbrev pub is_req_sent : CliState → Bool
is_req_sent CliState.req_sent = true
is_req_sent _ = false

abbrev pub is_req_ackd : CliState → Bool
is_req_ackd CliState.req_ackd = true
is_req_ackd _ = false

abbrev pub is_wait_nfy : CliState → Bool
is_wait_nfy CliState.wait_nfy = true
is_wait_nfy _ = false

-- The states in which a response or a notification can come.
abbrev pub is_open : CliState → Bool
is_open cur = is_req_sent cur || is_req_ackd cur || is_wait_nfy cur

-- ec_client_check_transition: the current state, the next; true for 0.
unfoldable pub client_check_transition : CliState → CliState → Bool
unfolding client_state_is_final
client_check_transition cur CliState.internal_err = true
client_check_transition cur CliState.dns_failed = is_cli_none cur
client_check_transition cur CliState.dns_ok = is_cli_none cur || client_state_is_final cur
client_check_transition cur CliState.send_failed = is_dns_ok cur || is_cli_retry cur
client_check_transition cur CliState.req_sent = is_dns_ok cur || is_cli_retry cur
client_check_transition cur CliState.req_ackd = is_req_sent cur
client_check_transition cur CliState.coap_retry = is_req_sent cur
client_check_transition cur CliState.coap_timeout = is_req_sent cur
client_check_transition cur CliState.app_timeout = is_open cur
client_check_transition cur CliState.req_done = is_open cur
client_check_transition cur CliState.req_rst = is_open cur
client_check_transition cur CliState.wait_nfy = is_open cur
client_check_transition cur CliState.obs_timeout = is_wait_nfy cur
client_check_transition cur CliState.state_none = false

-- ec_client_get_response_pdu: the first response, of a unicast request only.
unfoldable pub client_get_response_pdu : Client → Option ResPdu
client_get_response_pdu cli = if cli.is_multicast then none else first cli.res_set
  where
    first : List ResPdu → Option ResPdu
    first [] = none
    first (pdu ∷ _) = some pdu

-- ec_res_set_add and ec_res_set_clear, on the response set of a client.
unfoldable pub res_set_add : Client → ResPdu → Client
res_set_add cli pdu = record cli { res_set = cli.res_set ++ (pdu ∷ []) }

unfoldable pub res_set_clear : Client → Client
res_set_clear cli = record cli { res_set = [] }

-- The client after an operation on one of its timers.
abbrev pub with_app : Client → Result Timer Timer → Run Client
with_app cli (ok ti) = done (record cli { app = ti })
with_app cli (err ti) = failed (record cli { app = ti })
with_app cli fault = ended

abbrev pub with_cli_coap : Client → Result Timer Timer → Run Client
with_cli_coap cli (ok ti) = done (record cli { coap = ti })
with_cli_coap cli (err ti) = failed (record cli { coap = ti })
with_cli_coap cli fault = ended

abbrev pub with_obs : Client → Result Timer Timer → Run Client
with_obs cli (ok ti) = done (record cli { obs = ti })
with_obs cli (err ti) = failed (record cli { obs = ti })
with_obs cli fault = ended

-- ec_cli_start_coap_timer, ec_cli_restart_coap_timer and ec_cli_stop_coap_timer.
unfoldable pub cli_start_coap_timer : Events → Client → Run Client
unfolding timer_start
cli_start_coap_timer ev cli =
    with_cli_coap cli (timer_start ev (record cli.coap { tout = resp_timeout }) max_retransmit)

unfoldable pub cli_restart_coap_timer : Events → Client → Run Client
unfolding timer_restart
cli_restart_coap_timer ev cli =
    if cli.coap.retries_left == 0
    then failed cli
    else with_cli_coap cli (
        timer_restart ev
          (record cli.coap { tout = cli.coap.tout * 2; retries_left = cli.coap.retries_left - 1 }))

unfoldable pub cli_stop_coap_timer : Client → Client
unfolding timer_remove
cli_stop_coap_timer cli = record cli { coap = timer_remove cli.coap }

-- ec_cli_start_app_timer and ec_cli_stop_app_timer.
unfoldable pub cli_start_app_timer : Events → Client → Run Client
unfolding timer_start
cli_start_app_timer ev cli = with_app cli (timer_start ev cli.app 1)

unfoldable pub cli_stop_app_timer : Client → Client
unfolding timer_remove
cli_stop_app_timer cli = record cli { app = timer_remove cli.app }

-- The timeout of an observation: Max-Age of the response, 60 where there is none, and a second more.
unfoldable pub obs_tout : Bool → Option ResPdu → ℕ
unfolding opts_get_max_age
obs_tout le none = 60 + 1
obs_tout le (some pdu) = elim (opts_get_max_age le pdu.opts.bundle) [
  | none ↦ 60 + 1
  | some max_age ↦ max_age + 1
]

-- ec_cli_start_obs_timer, ec_cli_restart_obs_timer and ec_cli_stop_obs_timer.
unfoldable pub cli_start_obs_timer : CliEnv → Client → Run Client
unfolding timer_start obs_tout client_get_response_pdu
cli_start_obs_timer env cli =
    with_obs cli (
      timer_start env.ev (record cli.obs { tout = obs_tout env.le (client_get_response_pdu cli) })
        1)

unfoldable pub cli_restart_obs_timer : Events → Client → Run Client
unfolding timer_restart
cli_restart_obs_timer ev cli = with_obs cli (timer_restart ev cli.obs)

unfoldable pub cli_stop_obs_timer : Client → Client
unfolding timer_remove
cli_stop_obs_timer cli = record cli { obs = timer_remove cli.obs }
