-- ===== src/Cli/Drive.antt =====
-- What drives a client transaction: ec_client_set_state, the three timers, and what the server sends
-- (evcoap_cli.c).
use webthings.Common.{
  ℕ, [], ◌∷◌, Option, none, some, Bool, true, false, ◌==◌, ◌||◌, ◌&&◌, if◌then◌else◌, Result, ok,
  err, fault, Run, done, failed, ended, and_then, and_also,
}
use webthings.Pdu.{encode_response_ack, encode_response_rst}
use webthings.Timer.{fired}
use webthings.Srv.{OutPdu}
use webthings.Srv.Send.{conn_get_confirmable, pdu_new_empty, encoded}
use webthings.Cli.{
  CliState, Client, CliEnv, ResPdu, client_state_is_final, client_check_transition, is_wait_nfy,
  client_get_response_pdu, res_set_clear, cli_start_coap_timer, cli_restart_coap_timer,
  cli_stop_coap_timer, cli_start_app_timer, cli_stop_app_timer, cli_start_obs_timer,
  cli_restart_obs_timer, cli_stop_obs_timer,
}

-- `dbg_if` around a step: a failure is logged and forgotten.
abbrev pub settled : Run Client → Run Client
settled r = and_also r done

-- The end of ec_client_send_ack and of ec_client_rst_peer.
unfoldable pub client_send_empty : CliEnv → Client → Result OutPdu OutPdu → Run Client
client_send_empty env cli (ok pdu) =
    if env.net_send pdu then done (record cli { sent = pdu ∷ cli.sent }) else failed cli
client_send_empty env cli (err _) = failed cli
client_send_empty env cli fault = ended

-- ec_client_send_ack and ec_client_rst_peer; their flow is a fresh one, without token.
unfoldable pub client_send_ack : CliEnv → Client → Option ResPdu → Run Client
unfolding client_send_empty
client_send_ack env cli none = failed cli
client_send_ack env cli (some sep_res) =
    let sep_ack = record pdu_new_empty { sibling = some sep_res.hdr.mid } in
    client_send_empty env cli
      (encoded sep_ack (encode_response_ack env.host sep_ack.opts [] sep_ack.sibling))

unfoldable pub client_rst_peer : CliEnv → Client → Option ResPdu → Run Client
unfolding client_send_empty
client_rst_peer env cli none = failed cli
client_rst_peer env cli (some nfy) =
    let rst = record pdu_new_empty { sibling = some nfy.hdr.mid } in
    client_send_empty env cli (encoded rst (encode_response_rst env.host rst.opts [] rst.sibling))

-- ec_client_invoke_user_callback. Of what the callback does, the cancellation of the observation
-- (ec_client_cancel_observation) reaches the transaction.
unfoldable pub client_invoke_user_callback : CliEnv → Client → Client
client_invoke_user_callback env cli =
    if cli.cb
    then record cli {
      called = cli.state ∷ cli.called;
      observe = record cli.observe { cancel = cli.observe.cancel || env.cancels cli };
    }
    else cli

-- The type of the message flow; false where it is unset.
unfoldable pub flow_is_con : Client → Bool
unfolding conn_get_confirmable
flow_is_con cli = elim (conn_get_confirmable cli.is_confirmable) [
  | none ↦ false
  | some is_con ↦ is_con
]

-- What ec_client_set_state does before the state changes, for the next state and the current one.
unfoldable pub client_enter : CliEnv → CliState → CliState → Bool → Client → Run Client
unfolding cli_start_app_timer cli_start_coap_timer cli_restart_coap_timer cli_restart_obs_timer
    cli_start_obs_timer cli_stop_coap_timer cli_stop_app_timer client_send_ack
    client_get_response_pdu
client_enter env CliState.req_sent CliState.dns_ok is_con cli =
    and_then (cli_start_app_timer env.ev cli)
      (λ c. if is_con then settled (cli_start_coap_timer env.ev c) else done c)
client_enter env CliState.req_sent CliState.coap_retry is_con cli =
    settled (cli_restart_coap_timer env.ev cli)
client_enter env CliState.wait_nfy CliState.wait_nfy is_con cli = cli_restart_obs_timer env.ev cli
client_enter env CliState.wait_nfy cur is_con cli =
    cli_start_obs_timer env
      (if is_con then cli_stop_coap_timer (cli_stop_app_timer cli) else cli_stop_app_timer cli)
client_enter env CliState.req_ackd cur is_con cli =
    done (if is_con then cli_stop_coap_timer cli else cli)
client_enter env CliState.req_done CliState.req_ackd is_con cli =
    if is_con then settled (client_send_ack env cli (client_get_response_pdu cli)) else done cli
client_enter env state cur is_con cli = done cli

-- What ec_client_set_state returns: whether the transaction is over.
unfoldable pub client_is_over : CliState → Bool → Bool
unfolding client_state_is_final
client_is_over state cancel = client_state_is_final state || (is_wait_nfy state && cancel)

-- The user is told of a final state and of a notification; a canceled observation is reset instead.
unfoldable pub client_inform : CliEnv → Client → Run Client
unfolding client_state_is_final client_invoke_user_callback client_rst_peer client_get_response_pdu
client_inform env cli =
    if client_state_is_final cli.state || is_wait_nfy cli.state
    then (if cli.observe.cancel
        then settled (client_rst_peer env cli (client_get_response_pdu cli))
        else done (client_invoke_user_callback env cli))
    else done cli

-- ec_client_free; the socket and the list of clients are not modelled.
unfoldable pub client_free : Client → Client
unfolding res_set_clear
client_free cli = record (res_set_clear cli) { freed = true }

-- The end of a transaction.
unfoldable pub client_dispose : Bool → Client → Client
unfolding cli_stop_app_timer cli_stop_coap_timer cli_stop_obs_timer res_set_clear client_free
client_dispose is_con cli =
    let a = cli_stop_app_timer cli in
    let c = if is_con then cli_stop_coap_timer a else a in
    let o = cli_stop_obs_timer c in if o.userown then res_set_clear o else client_free o

-- ec_client_set_state, once the timers are set: the state changes, the user is told.
unfoldable pub client_switch : CliEnv → CliState → Bool → Run Client → Run Client
unfolding client_inform client_is_over client_dispose
client_switch env state is_con (done cli) =
    and_also (client_inform env (record cli { state = state })) (λ c.
      if client_is_over state cli.observe.cancel then done (client_dispose is_con c) else done c)
client_switch env state is_con (failed cli) = ended
client_switch env state is_con ended = ended

-- ec_client_set_state from the state `cur`. A failure ends the process.
unfoldable pub client_set_state_from : CliEnv → CliState → Client → CliState → Run Client
unfolding client_check_transition client_switch client_enter flow_is_con
client_set_state_from env cur cli state =
    if client_check_transition cur state
    then client_switch env state (flow_is_con cli)
        (client_enter env state cur (flow_is_con cli) cli)
    else ended

unfoldable pub client_set_state : CliEnv → Client → CliState → Run Client
unfolding client_set_state_from
client_set_state env cli state = client_set_state_from env cli.state cli state

-- ec_cli_coap_timeout, ec_cli_app_timeout and ec_cli_obs_timeout.
unfoldable pub cli_coap_timeout : CliEnv → Client → Run Client
unfolding client_set_state
cli_coap_timeout env cli =
    let cli' = record cli { coap = fired cli.coap } in
    if cli'.coap.retries_left == 0
    then client_set_state env cli' CliState.coap_timeout
    else and_also (client_set_state env cli' CliState.coap_retry) (λ c.
      if env.net_send c.req
      then client_set_state env (record c { sent = c.req ∷ c.sent }) CliState.req_sent
      else client_set_state env c CliState.send_failed)

unfoldable pub cli_app_timeout : CliEnv → Client → Run Client
unfolding client_set_state
cli_app_timeout env cli =
    client_set_state env (record cli { app = fired cli.app }) CliState.app_timeout

unfoldable pub cli_obs_timeout : CliEnv → Client → Run Client
unfolding client_set_state
cli_obs_timeout env cli =
    client_set_state env
      (record cli { obs = fired cli.obs; observe = record cli.observe { on = false } })
      CliState.obs_timeout

-- ec_client_handle_empty_pdu.
unfoldable pub client_handle_empty_pdu : CliEnv → Client → ℕ → Run Client
unfolding client_set_state
client_handle_empty_pdu env cli t =
    if t == 2
    then client_set_state env cli CliState.req_ackd
    else (if t == 3 then client_set_state env cli CliState.req_rst else failed cli)
