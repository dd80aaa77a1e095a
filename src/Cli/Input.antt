-- ===== src/Cli/Input.antt =====
-- What a client makes of a PDU of the server: ec_client_handle_observation and ec_client_handle_pdu
-- (evcoap_cli.c).
use webthings.Common.{
  ℕ, ◌+◌, ◌-◌, ◌^◌, ◌%◌, Bytes, Option, none, some, Bool, true, false, ◌==◌, ltb, leb, ◌&&◌,
  if◌then◌else◌, take, drop, ok, err, fault, Run, done, failed, ended, and_then,
}
use webthings.Opt.{Sym, Opts, opts_init}
use webthings.Opt.Pool.{opts_get}
use webthings.Opt.Get.{opts_get_token, opts_get_observe}
use webthings.Opt.Decode.{opts_decode, hdr_size}
use webthings.Pdu.{Hdr, decode_header}
use webthings.Flow.{flow_set_resp_code, flow_get_resp_code}
use webthings.Resource.{same_bytes}
use webthings.Cli.{
  CliState, CliObs, Client, CliEnv, ResPdu, client_get_response_pdu, res_set_add, res_set_clear,
}
use webthings.Cli.Drive.{client_set_state, client_is_over, client_handle_empty_pdu}

abbrev pub is_some {ℓ} : {A : Type ℓ} → Option A → Bool
is_some none = false
is_some (some _) = true

-- The test for a stale notification: the last counter and its time, the counter and the time now.
-- The difference is taken modulo 2 ^ 32 and then modulo 2 ^ 16.
unfoldable pub is_stale : CliObs → ℕ → ℕ → Bool
is_stale o o_cnt now =
    ltb ((o.last_cnt + 2 ^ 32 - o_cnt) % 2 ^ 32 % 2 ^ 16) (2 ^ 15) && ltb now (o.last_ts + 2 ^ 14)

-- The checks 2, 2.5 and 3 of ec_client_handle_observation on a notification, by its Observe option.
unfoldable pub check_notification : Client → ℕ → Option ℕ → Run Client
unfolding is_stale flow_get_resp_code
check_notification cli now none = done (record cli { observe = record cli.observe { on = false } })
check_notification cli now (some o_cnt) =
    if flow_get_resp_code cli.flow == 66
    then done (record cli { observe = record cli.observe { on = false } })
    else (if is_stale cli.observe o_cnt now
        then failed cli
        else done (record cli { observe = record cli.observe { last_cnt = o_cnt; last_ts = now } }))

-- ec_client_handle_observation at the time `now`, on the response that ec_client_get_response_options
-- finds.
unfoldable pub handle_observation_of : CliEnv → Client → ℕ → Option ResPdu → Run Client
unfolding check_notification flow_get_resp_code opts_get opts_get_observe
handle_observation_of env cli now none = failed cli
handle_observation_of env cli now (some res) =
    let obs_ack = opts_get_observe env.le res.opts.bundle in
    if cli.observe.on
    then (if flow_get_resp_code cli.flow == 160
        then done (record cli { observe = record cli.observe { on = false } })
        else check_notification cli now obs_ack)
    else done (record cli {
      observe = record cli.observe {
        on = is_some (opts_get cli.req.opts.bundle Sym.observe) && is_some obs_ack;
      };
    })

unfoldable pub client_handle_observation : CliEnv → Client → ℕ → Run Client
unfolding handle_observation_of client_get_response_pdu
client_handle_observation env cli now =
    handle_observation_of env cli now (client_get_response_pdu cli)

-- Whether the token of a response is the one of the request; a response without one passes.
unfoldable pub token_matches : Client → Option (Option Bytes × ℕ) → Bool
unfolding same_bytes
token_matches cli none = true
token_matches cli (some (none, l)) = l == cli.flow.token_sz
token_matches cli (some (some v, l)) =
    (l == cli.flow.token_sz) && same_bytes (take l v) (take l cli.flow.token)

-- After the observation was looked at: the callback, and the response set.
unfoldable pub client_deliver : CliEnv → Client → Run Client
unfolding client_set_state client_is_over res_set_clear
client_deliver env cli =
    let state = if cli.observe.on then CliState.wait_nfy else CliState.req_done in
    let over = client_is_over state cli.observe.cancel in
    and_then (client_set_state env cli state)
      (λ c. if over then done c else (if c.observe.on then done (res_set_clear c) else done c))

-- ec_client_handle_pdu from ec_flow_set_resp_code on, for a PDU whose options were decoded.
unfoldable pub client_take_response : CliEnv → Client → ResPdu → ℕ → Run Client
unfolding flow_set_resp_code res_set_add client_handle_observation client_deliver
client_take_response env cli pdu now = elim (flow_set_resp_code cli.flow pdu.hdr.code) [
  | ok flow ↦
      and_then (client_handle_observation env (res_set_add (record cli { flow = flow }) pdu) now)
        (client_deliver env)
  | err _ ↦ failed cli
  | fault ↦ ended
]

-- ec_client_handle_pdu with the options of the PDU and their length.
unfoldable pub client_take_pdu : CliEnv → Client → Bytes → Hdr → Opts → ℕ → ℕ → Run Client
unfolding token_matches opts_get_token client_take_response
client_take_pdu env cli raw h opts olen now =
    if token_matches cli (opts_get_token opts.bundle)
    then client_take_response env cli
        (record { hdr = h; opts = opts; payload = drop (hdr_size + olen) raw }) now
    else failed cli

-- ec_client_handle_pdu behind the duplicate detection.
unfoldable pub client_handle_new : CliEnv → Client → Bytes → Hdr → ℕ → Run Client
unfolding client_handle_empty_pdu opts_decode client_take_pdu
client_handle_new env cli raw h now =
    if h.code == 0
    then client_handle_empty_pdu env cli h.t
    else (elim (opts_decode opts_init raw h.oc) [
      | ok (opts, olen) ↦ client_take_pdu env cli raw h opts olen now
      | err _ ↦ failed cli
      | fault ↦ ended
    ])

-- What ec_dups_handle_incoming_srvmsg says of the message: 0, 1 or -1.
pub data Seen : Type 0 where
  new copy internal : Seen

-- ec_client_handle_pdu.
unfoldable pub client_handle_pdu : CliEnv → Client → Bytes → Seen → ℕ → Run Client
unfolding decode_header client_handle_new
client_handle_pdu env cli raw seen now = elim (decode_header env.host raw) [
  | none ↦ failed cli
  | some h ↦ if leb 1 h.code && leb h.code 31 then failed cli else (elim seen [
    | Seen.new ↦ client_handle_new env cli raw h now
    | Seen.copy ↦ done cli
    | Seen.internal ↦ failed cli
  ])
]
