-- ===== src/Api/Response.antt =====
-- What the user of a server puts into its response, and what the user of a client reads of the
-- response that it got (evcoap.c). `le` is whether EC_LITTLE_ENDIAN is defined.
use mathlib.Core.Option
use webthings.Common.{ℕ, ◌%◌, ◌^◌, Bytes, Option, Bool, Result, ok, err, fault}
use webthings.Opt.Add
use webthings.Opt.Get
use webthings.Flow.{flow_set_resp_code, flow_get_resp_code}
use webthings.Srv.{Server}
use webthings.Cli.{Client, client_get_response_pdu}
use webthings.Api.Blocks.{on_response, client_get_response_options}
use webthings.Api.Request.{store_part}

-- ec_response_set_code and ec_response_get_code.
unfoldable pub response_set_code : Server → ℕ → Result Server Server
unfolding flow_set_resp_code
response_set_code srv rc = elim (flow_set_resp_code srv.flow rc) [
  | ok flow ↦ ok (record srv { flow = flow })
  | err flow ↦ err (record srv { flow = flow })
  | fault ↦ fault
]

unfoldable pub response_get_code : Client → ℕ
unfolding flow_get_resp_code
response_get_code cli = flow_get_resp_code cli.flow

-- ec_response_get_payload: the bytes.
unfoldable pub response_get_payload : Client → Option Bytes
unfolding client_get_response_pdu
response_get_payload cli = Option.map (λ pdu. pdu.payload) (client_get_response_pdu cli)

-- ec_response_add_etag, ec_response_add_location_path and ec_response_add_location_query.
unfoldable pub response_add_etag : Server → Option Bytes → ℕ → Result Server Server
unfolding on_response
response_add_etag srv et et_len = on_response (λ opts. Add.opts_add_etag opts et et_len) srv srv.res

unfoldable pub response_add_location_path : Server → Option Bytes → Result Server Server
unfolding on_response
response_add_location_path srv lp =
    on_response (λ opts. Add.opts_add_location_path opts lp) srv srv.res

unfoldable pub response_add_location_query : Server → Option Bytes → Result Server Server
unfolding on_response
response_add_location_query srv lq =
    on_response (λ opts. Add.opts_add_location_query opts lq) srv srv.res

module _ (le : Bool) where
  -- ec_response_add_max_age, ec_response_add_observe and ec_response_add_content_type.
  unfoldable pub response_add_max_age : Server → ℕ → Result Server Server
  unfolding on_response
  response_add_max_age srv max_age =
      on_response (λ opts. Add.opts_add_max_age le opts max_age) srv srv.res

  unfoldable pub response_add_observe : Server → ℕ → Result Server Server
  unfolding on_response
  response_add_observe srv o = on_response (λ opts. Add.opts_add_observe le opts o) srv srv.res

  unfoldable pub response_add_content_type : Server → ℕ → Result Server Server
  unfolding on_response
  response_add_content_type srv ct =
      on_response (λ opts. Add.opts_add_content_type le opts ct) srv srv.res

  -- ec_response_get_content_type, into a variable that holds `ct`.
  unfoldable pub response_get_content_type : Client → ℕ → Option ℕ
  unfolding client_get_response_options store_part
  response_get_content_type cli ct =
      Option.bind (client_get_response_options cli)
        (λ opts. Option.map (store_part le 16 ct) (Get.opts_get_content_type le opts.bundle))

  -- ec_response_get_observe and ec_response_get_max_age.
  unfoldable pub response_get_observe : Client → Option ℕ
  unfolding client_get_response_options
  response_get_observe cli =
      Option.bind (client_get_response_options cli) (λ opts. Get.opts_get_observe le opts.bundle)

  unfoldable pub response_get_max_age : Client → Option ℕ
  unfolding client_get_response_options
  response_get_max_age cli =
      Option.bind (client_get_response_options cli) (λ opts. Get.opts_get_max_age le opts.bundle)

-- ec_get_observe_counter at the time `t`; `none` where time fails.
unfoldable pub get_observe_counter : Option ℕ → Option ℕ
get_observe_counter t = Option.map (λ s. s % 2 ^ 16) t
