-- ===== src/Srv/Send.antt =====
-- What a server transaction sends: ec_server_send_resp, ec_server_send_separate_ack, ec_server_reply
-- and ec_server_ready of evcoap_srv.c.
use webthings.Common.{
  ℕ, ◌+◌, ◌^◌, Bytes, [], ◌∷◌, Option, none, some, Bool, true, false, not, ltb, ◌==◌, ◌&&◌, ◌||◌,
  length, take, if◌then◌else◌, Result, ok, err, fault, Run, done, failed, ended, and_then,
}
use webthings.Enums.{is_resp_code}
use webthings.Opt.{Opts, opts_init}
use webthings.Pdu.{
  HostOrder, encode_response_piggyback, encode_response_separate, encode_response_ack,
}
use webthings.Flow.{flow_get_separate}
use webthings.Config.{Cfg, cfg_get_block_info}
use webthings.Timer.{Events}
use webthings.Srv.{wait_ack, resp_done, OutPdu, Server, is_ack_sent, is_req_ok, server_set_state}

-- What the server gets from outside: libevent, the byte order, the random generator (and what an
-- uninitialized MID holds), whether ec_net_send of a PDU succeeds, and the configuration.
pub record Env : Type 0 where
  pub ev : Events
  pub host : HostOrder
  pub random : ℕ
  pub uninitialized : ℕ
  pub net_send : OutPdu → Bool
  pub cfg : Cfg

-- ec_pdu_new_empty.
abbrev pub pdu_new_empty : OutPdu
pdu_new_empty = record { hdr = []; mid = 0; sibling = none; opts = opts_init; payload = [] }

-- ec_conn_get_confirmable; `none` is -1.
unfoldable pub conn_get_confirmable : ℕ → Option Bool
conn_get_confirmable flag =
    if flag == 1 then some true else (if flag == 2 then some false else none)

-- ec_pdu_set_sibling of the request, or of NULL. A PDU of a server has no other sibling.
unfoldable pub pdu_set_sibling : OutPdu → Option ℕ → Option OutPdu
pdu_set_sibling pdu none = none
pdu_set_sibling pdu (some mid) = some (record pdu { sibling = some mid })

-- A PDU after an encoder of evcoap_pdu.c; where that fails, the options may have changed.
abbrev pub encoded : OutPdu → Result Opts (Bytes × Opts) → Result OutPdu OutPdu
encoded pdu (ok (hdr, opts)) = ok (record pdu { hdr = hdr; opts = opts })
encoded pdu (err opts) = err (record pdu { opts = opts })
encoded pdu fault = fault

abbrev pub encoded_separate : OutPdu → Result Opts (ℕ × Bytes × Opts) → Result OutPdu OutPdu
encoded_separate pdu (ok (mid, hdr, opts)) = ok (record pdu { hdr = hdr; mid = mid; opts = opts })
encoded_separate pdu (err opts) = err (record pdu { opts = opts })
encoded_separate pdu fault = fault

-- The encoder that ec_server_send_resp chooses.
unfoldable pub encode_resp : Env → Server → OutPdu → Bool → Result OutPdu OutPdu
encode_resp env srv res is_con =
    let token = take srv.flow.token_sz srv.flow.token in
    if is_con && not (flow_get_separate srv.flow) && not (is_ack_sent srv.state)
    then encoded res
        (encode_response_piggyback env.host res.opts token srv.flow.resp_code res.sibling)
    else encoded_separate res (
        encode_response_separate env.host res.opts token srv.flow.resp_code srv.is_confirmable
          res.mid env.random env.uninitialized)

-- ec_pdu_send of the response that was encoded.
unfoldable pub send_encoded : Env → Server → Result OutPdu OutPdu → Run Server
send_encoded env srv (ok res) =
    if env.net_send res
    then done (record srv { res = some res; sent = res ∷ srv.sent })
    else failed (record srv { res = some res })
send_encoded env srv (err res) = failed (record srv { res = some res })
send_encoded env srv fault = ended

-- The rest of ec_server_send_resp, once the sibling is set.
unfoldable pub send_with_sibling : Env → Server → Option OutPdu → Run Server
unfolding encode_resp send_encoded conn_get_confirmable
send_with_sibling env srv none = failed srv
send_with_sibling env srv (some res) =
    let srv' = record srv { res = some res } in
    if not (is_resp_code srv.flow.resp_code)
    then failed srv'
    else (elim (conn_get_confirmable srv.is_confirmable) [
      | none ↦ failed srv'
      | some is_con ↦ send_encoded env srv' (encode_resp env srv' res is_con)
    ])

-- ec_server_send_resp, on the response PDU.
unfoldable pub send_res : Env → Server → Option OutPdu → Run Server
unfolding send_with_sibling pdu_set_sibling
send_res env srv none = failed srv
send_res env srv (some res) =
    send_with_sibling env srv
      (if is_ack_sent srv.state then some res else pdu_set_sibling res srv.req)

unfoldable pub server_send_resp : Env → Server → Run Server
unfolding send_res
server_send_resp env srv = send_res env srv srv.res

-- The end of ec_server_send_separate_ack: the PDU is kept only where it was sent.
unfoldable pub send_ack : Env → Server → Result OutPdu OutPdu → Run Server
send_ack env srv (ok ack) =
    if env.net_send ack
    then done (record srv { octrl = some ack; sent = ack ∷ srv.sent })
    else failed srv
send_ack env srv (err _) = failed srv
send_ack env srv fault = ended

abbrev pub has_pdu : Option OutPdu → Bool
has_pdu none = false
has_pdu (some _) = true

-- The PDU of ec_server_send_separate_ack, with its sibling.
unfoldable pub send_ack_for : Env → Server → Option OutPdu → Run Server
unfolding send_ack
send_ack_for env srv none = failed srv
send_ack_for env srv (some ack) = send_ack env srv (
    encoded ack
      (encode_response_ack env.host ack.opts (take srv.flow.token_sz srv.flow.token) ack.sibling))

-- ec_server_send_separate_ack.
unfoldable pub server_send_separate_ack : Env → Server → Run Server
unfolding send_ack_for pdu_set_sibling
server_send_separate_ack env srv =
    if not (is_req_ok srv.state)
    then failed srv
    else (if has_pdu srv.octrl
        then failed srv
        else send_ack_for env srv (pdu_set_sibling pdu_new_empty srv.req))

-- ec_trim_payload_sz.
unfoldable pub trim_payload_sz : Cfg → ℕ → ℕ
unfolding cfg_get_block_info
trim_payload_sz cfg pl_sz =
    let (stateless_block, szx) = cfg_get_block_info cfg in
    let bsz = 2 ^ (szx + 4) in if not stateless_block && ltb bsz pl_sz then bsz else pl_sz

-- The payload of a reply, trimmed; none is supplied where it is empty.
unfoldable pub attach_payload : Env → Server → Bytes → Option OutPdu → Run Server
unfolding trim_payload_sz
attach_payload env srv [] res = done srv
attach_payload env srv (b ∷ pl) none = failed srv
attach_payload env srv (b ∷ pl) (some res) = done (record srv {
  res = some (record res { payload = take (trim_payload_sz env.cfg (length (b ∷ pl))) (b ∷ pl) });
})

-- ec_server_reply.
unfoldable pub server_reply : Env → Server → ℕ → Bytes → Run Server
unfolding attach_payload server_send_resp
server_reply env srv rc pl =
    if not (is_resp_code rc)
    then failed srv
    else and_then
        (attach_payload env (record srv { flow = record srv.flow { resp_code = rc } }) pl srv.res)
        (server_send_resp env)

-- ec_server_ready.
unfoldable pub server_ready : Env → Server → Bool → Run Server
unfolding server_send_resp server_set_state
server_ready env srv is_con =
    if is_ack_sent srv.state || is_req_ok srv.state
    then and_then (server_send_resp env srv) (λ s.
      server_set_state env.ev s (if is_con && is_ack_sent s.state then wait_ack else resp_done))
    else failed srv
