-- ===== src/Api/Request.antt =====
-- What the user of a client puts into its request, and what the user of a server reads of the request
-- that it got (evcoap.c). `le` is whether EC_LITTLE_ENDIAN is defined.
pub mod Token
use mathlib.Core.Option
use webthings.Common.{
  ℕ, ◌+◌, ◌-◌, ◌*◌, ◌/◌, ◌%◌, ◌^◌, Bytes, [], Option, none, some, Bool, true, false, ltb, leb,
  length, ◌==◌, ◌||◌, ◌&&◌, not, if◌then◌else◌, List, Result, ok, err, fault,
}
use webthings.Config.{Cfg}
use webthings.Opt.{Opts}
use webthings.Opt.Add
use webthings.Opt.Get
use webthings.Flow.{Flow, flow_save_token}
use webthings.Srv.{OutPdu, Server}
use webthings.Cli.{Client, ResPdu}
use webthings.Api.Blocks.{with_req_opts, get_block_size}

-- ec_pdu_set_payload. A NULL payload is `none`.
unfoldable pub pdu_set_payload : OutPdu → Option Bytes → Result OutPdu OutPdu
pdu_set_payload pdu none = err pdu
pdu_set_payload pdu (some payload) =
    if length payload == 0 then err pdu else ok (record pdu { payload = payload })

abbrev with_req : Client → Result OutPdu OutPdu → Result Client Client
with_req cli (ok req) = ok (record cli { req = req })
with_req cli (err req) = err (record cli { req = req })
with_req cli fault = fault

-- The size of a payload, `sz`.
abbrev payload_sz : Option Bytes → ℕ
payload_sz none = 0
payload_sz (some payload) = length payload

-- ec_request_set_payload.
unfoldable pub request_set_payload : Cfg → Client → Option Bytes → Result Client Client
unfolding pdu_set_payload get_block_size
request_set_payload cfg cli payload =
    let bsz = get_block_size cfg in
    if not (bsz == 0) && ltb bsz (payload_sz payload)
    then err cli
    else with_req cli (pdu_set_payload cli.req payload)

-- ec_response_set_payload.
unfoldable pub response_set_payload : Server → Option Bytes → Result Server Server
unfolding pdu_set_payload
response_set_payload srv payload = elim srv.res [
  | none ↦ err srv
  | some res ↦ elim (pdu_set_payload res payload) [
    | ok res' ↦ ok (record srv { res = some res' })
    | err res' ↦ err (record srv { res = some res' })
    | fault ↦ fault
  ]
]

-- The setters that only pass the options of the request on: ec_request_add_proxy_uri (`is_absolute` is
-- libu's u_uri_is_absolute), ec_request_add_etag, ec_request_add_uri_host,
-- ec_request_add_location_path, ec_request_add_location_query, ec_request_add_uri_path,
-- ec_request_add_if_match, ec_request_add_uri_query and ec_request_add_if_none_match.
unfoldable pub request_add_proxy_uri : (Bytes → Bool) → Client → Option Bytes → Result Client Client
request_add_proxy_uri is_absolute cli pu =
    with_req_opts cli (Add.opts_add_proxy_uri is_absolute cli.req.opts pu)

unfoldable pub request_add_etag : Client → Option Bytes → ℕ → Result Client Client
request_add_etag cli et et_len = with_req_opts cli (Add.opts_add_etag cli.req.opts et et_len)

unfoldable pub request_add_uri_host : Client → Option Bytes → Result Client Client
request_add_uri_host cli uh = with_req_opts cli (Add.opts_add_uri_host cli.req.opts uh)

unfoldable pub request_add_location_path : Client → Option Bytes → Result Client Client
request_add_location_path cli lp = with_req_opts cli (Add.opts_add_location_path cli.req.opts lp)

unfoldable pub request_add_location_query : Client → Option Bytes → Result Client Client
request_add_location_query cli lq = with_req_opts cli (Add.opts_add_location_query cli.req.opts lq)

unfoldable pub request_add_uri_path : Client → Option Bytes → Result Client Client
request_add_uri_path cli up = with_req_opts cli (Add.opts_add_uri_path cli.req.opts up)

unfoldable pub request_add_if_match : Client → Option Bytes → ℕ → Result Client Client
request_add_if_match cli im im_len =
    with_req_opts cli (Add.opts_add_if_match cli.req.opts im im_len)

unfoldable pub request_add_uri_query : Client → Option Bytes → Result Client Client
request_add_uri_query cli uq = with_req_opts cli (Add.opts_add_uri_query cli.req.opts uq)

unfoldable pub request_add_if_none_match : Client → Result Client Client
request_add_if_none_match cli = with_req_opts cli (Add.opts_add_if_none_match cli.req.opts)

-- The token that ec_request_add_token adds: the user's, or the 8 bytes of the random generator.
unfoldable pub chosen_token : Bytes → Option Bytes → ℕ → Bytes × ℕ
chosen_token random none t_len = (random, 8)
chosen_token random (some t) t_len = if t_len == 0 then (random, 8) else (t, t_len)

abbrev with_flow : Client → Result Flow Flow → Result Client Client
with_flow cli (ok flow) = ok (record cli { flow = flow })
with_flow cli (err flow) = err (record cli { flow = flow })
with_flow cli fault = fault

-- ec_request_add_token from ec_opts_add_token on.
unfoldable pub add_and_save : Bytes → ℕ → Result Client Client → Result Client Client
add_and_save t t_len (ok cli) = with_flow cli (flow_save_token cli.flow (some t) t_len)
add_and_save t t_len (err cli) = err cli
add_and_save t t_len fault = fault

-- ec_request_add_token; `random` are the 8 bytes of evutil_secure_rng_get_bytes.
unfoldable pub request_add_token : Bytes → Client → Option Bytes → ℕ → Result Client Client
unfolding chosen_token add_and_save
request_add_token random cli t t_len =
    let (tok, n) = chosen_token random t t_len in
    add_and_save tok n (with_req_opts cli (Add.opts_add_token cli.req.opts (some tok) n))

-- An option that may occur only once.
abbrev once : Client → Option ℕ → Result Opts Opts → Result Client Client
once cli none added = with_req_opts cli added
once cli (some _) added = err cli

-- The write of a value of `w` bits through a pointer to an enum of 32 bits that holds `old`.
unfoldable pub store_part : Bool → ℕ → ℕ → ℕ → ℕ
store_part le w old v =
    if le then old / 2 ^ w * 2 ^ w + v else v * 2 ^ (32 - w) + old % 2 ^ (32 - w)

module _ (le : Bool) where
  -- ec_request_add_content_type, ec_request_add_max_age, ec_request_add_uri_port and
  -- ec_request_add_accept.
  unfoldable pub request_add_content_type : Client → ℕ → Result Client Client
  request_add_content_type cli ct = with_req_opts cli (Add.opts_add_content_type le cli.req.opts ct)

  unfoldable pub request_add_max_age : Client → ℕ → Result Client Client
  request_add_max_age cli ma = with_req_opts cli (Add.opts_add_max_age le cli.req.opts ma)

  unfoldable pub request_add_uri_port : Client → ℕ → Result Client Client
  request_add_uri_port cli up = with_req_opts cli (Add.opts_add_uri_port le cli.req.opts up)

  unfoldable pub request_add_accept : Client → ℕ → Result Client Client
  request_add_accept cli a = with_req_opts cli (Add.opts_add_accept le cli.req.opts a)

  -- ec_request_add_observe.
  unfoldable pub request_add_observe : Client → Result Client Client
  request_add_observe cli =
      once cli (Get.opts_get_observe le cli.req.opts.bundle)
        (Add.opts_add_observe le cli.req.opts 0)

  -- ec_request_add_publish, of the low 8 bits of the mask.
  unfoldable pub request_add_publish : Client → ℕ → Result Client Client
  request_add_publish cli allowed_methods =
      once cli (Get.opts_get_publish le cli.req.opts.bundle)
        (Add.opts_add_publish le cli.req.opts (allowed_methods % 2 ^ 8))

  -- ec_observer_new from the client that ec_client_new made; NULL is `none`, and `err` as a result.
  unfoldable pub new_observer : Option Client → Result (Unit {0}) Client
  unfolding request_add_observe
  new_observer none = err tt
  new_observer (some cli) = elim (request_add_observe cli) [
    | ok cli' ↦ ok cli'
    | err _ ↦ err tt
    | fault ↦ fault
  ]

  -- The getters on the request of a server: ec_request_get_acceptable_media_types,
  -- ec_request_get_content_type, ec_request_get_publish, ec_request_get_observe and
  -- ec_request_get_max_age. `none` is -1.
  unfoldable pub request_get_acceptable_media_types : Option ResPdu → ℕ → Option (List ℕ)
  request_get_acceptable_media_types req mta_sz =
      Option.bind req (λ pdu. Get.opts_get_accept_all le pdu.opts.bundle mta_sz)

  unfoldable pub request_get_content_type : Option ResPdu → Option ℕ
  unfolding store_part
  request_get_content_type req =
      Option.bind req
        (λ pdu. Option.map (store_part le 16 0) (Get.opts_get_content_type le pdu.opts.bundle))

  unfoldable pub request_get_publish : Option ResPdu → Option ℕ
  unfolding store_part
  request_get_publish req =
      Option.bind req
        (λ pdu. Option.map (store_part le 8 0) (Get.opts_get_publish le pdu.opts.bundle))

  unfoldable pub request_get_observe : Option ResPdu → Option ℕ
  request_get_observe req = Option.bind req (λ pdu. Get.opts_get_observe le pdu.opts.bundle)

  unfoldable pub request_get_max_age : Option ResPdu → Option ℕ
  request_get_max_age req = Option.bind req (λ pdu. Get.opts_get_max_age le pdu.opts.bundle)

-- ec_request_get_if_none_match: true for 0.
unfoldable pub request_get_if_none_match : Option ResPdu → Bool
request_get_if_none_match none = false
request_get_if_none_match (some pdu) = Get.opts_get_if_none_match pdu.opts.bundle

-- ec_request_get_payload: the bytes.
unfoldable pub request_get_payload : Option ResPdu → Option Bytes
request_get_payload req = Option.map (λ pdu. pdu.payload) req

-- ec_request_via_proxy.
unfoldable pub request_via_proxy : Server → Bool
request_via_proxy srv = srv.flow.proxy_uri
