-- ===== src/Flow.antt =====
-- The message flow of bridge/sw/lib/evcoap/src/evcoap_flow.c: token, method, response code and the
-- separate-response flag. URIs are values of libu and stay outside.
pub mod Token
use webthings.Common.{
  ℕ, Bytes, [], Option, none, some, Bool, true, false, length, take, drop, ltb, leb, ◌==◌, ◌||◌,
  ◌++◌, if◌then◌else◌, replicate, Result, ok, err, fault,
}
use webthings.Enums.{Method, is_method, is_resp_code}

-- ec_flow_t. `token` is the array of 8 bytes, of which `token_sz` are in use.
pub record Flow : Type 0 where
  pub method : Method
  pub resp_code : ℕ
  pub proxy_uri : Bool
  pub is_sep : Bool
  pub token : Bytes
  pub token_sz : ℕ

-- ec_flow_init.
unfoldable pub flow_init : Flow
flow_init = record {
  method = Method.unset;
  resp_code = 0;
  proxy_uri = false;
  is_sep = false;
  token = replicate 8 0;
  token_sz = 0;
}

-- The memcpy of `n` bytes into the 8 of the token: `fault` where either side is too short.
copy_token : Flow → Bytes → ℕ → Result Flow Flow
copy_token flow tok n =
    if ltb 8 n || ltb (length tok) n
    then fault
    else ok (record flow { token = take n tok ++ drop n flow.token; token_sz = n })

-- ec_flow_save_token. `none` is a NULL token.
unfoldable pub flow_save_token : Flow → Option Bytes → ℕ → Result Flow Flow
unfolding copy_token
flow_save_token flow none tok_sz = ok (record flow { token = replicate 8 0; token_sz = 0 })
flow_save_token flow (some tok) tok_sz =
    if tok_sz == 0
    then ok (record flow { token = replicate 8 0; token_sz = 0 })
    else copy_token flow tok tok_sz

-- ec_flow_get_token: the bytes copied out, and *token_sz.
unfoldable pub flow_get_token : Flow → Bytes × ℕ
flow_get_token flow =
    if flow.token_sz == 0 then ([], 0) else (take flow.token_sz flow.token, flow.token_sz)

-- ec_flow_set_method and ec_flow_get_method.
unfoldable pub flow_set_method : Flow → Method → Result Flow Flow
flow_set_method flow method =
    if is_method method then ok (record flow { method = method }) else err flow

unfoldable pub flow_get_method : Flow → Method
flow_get_method flow = flow.method

-- ec_flow_set_resp_code and ec_flow_get_resp_code.
unfoldable pub flow_set_resp_code : Flow → ℕ → Result Flow Flow
flow_set_resp_code flow rc =
    if is_resp_code rc then ok (record flow { resp_code = rc }) else err flow

unfoldable pub flow_get_resp_code : Flow → ℕ
flow_get_resp_code flow = flow.resp_code

-- ec_flow_get_proxied.
unfoldable pub flow_get_proxied : Flow → Bool
flow_get_proxied flow = flow.proxy_uri

-- ec_flow_set_separate and ec_flow_get_separate.
unfoldable pub flow_set_separate : Flow → Bool → Flow
flow_set_separate flow is_sep = record flow { is_sep = is_sep }

unfoldable pub flow_get_separate : Flow → Bool
flow_get_separate flow = flow.is_sep
