-- ===== src/Enums.antt =====
-- The enumerations of bridge/sw/include/evcoap_enums.h, by the numbers of the C enums, and the
-- functions of bridge/sw/lib/evcoap/src/evcoap_enums.c that map them to text and to masks.
pub mod Codes
use Prim.Native.String.{String}
use webthings.Common.{
  ℕ, ◌^◌, Option, none, some, Bool, List, [], ◌∷◌, ltb, leb, ◌==◌, ◌&&◌, if◌then◌else◌, get_elem?,
}

-- ec_msg_model_t.
pub data MsgModel : Type 0 where
  con non ack rst : MsgModel

abbrev pub model_num : MsgModel → ℕ
model_num MsgModel.con = 0
model_num MsgModel.non = 1
model_num MsgModel.ack = 2
model_num MsgModel.rst = 3

-- ec_method_t.
pub data Method : Type 0 where
  unset get post put delete method_max : Method

abbrev pub method_num : Method → ℕ
method_num Method.unset = 0
method_num Method.get = 1
method_num Method.post = 2
method_num Method.put = 3
method_num Method.delete = 4
method_num Method.method_max = 5

-- EC_IS_METHOD.
abbrev pub is_method : Method → Bool
is_method m = ltb 0 (method_num m) && ltb (method_num m) 5

-- EC_IS_METHOD_MASK: above EC_METHOD_MASK_UNSET, and up to EC_METHOD_MASK_ALL.
abbrev pub is_method_mask : ℕ → Bool
is_method_mask m = ltb 0 m && leb m 0x0f

-- ec_method_to_mask; `none` is -1.
unfoldable pub method_to_mask : Method → Option ℕ
method_to_mask Method.get = some (2 ^ 0)
method_to_mask Method.post = some (2 ^ 1)
method_to_mask Method.put = some (2 ^ 2)
method_to_mask Method.delete = some (2 ^ 3)
method_to_mask _ = none

-- EC_IS_OK and EC_IS_RESP_CODE, from EC_CREATED to EC_200_UNKNOWN and to EC_500_UNKNOWN.
abbrev pub is_ok : ℕ → Bool
is_ok rc = leb 65 rc && leb rc 95

abbrev pub is_resp_code : ℕ → Bool
is_resp_code rc = leb 65 rc && leb rc 191

-- g_client_states, in the order of ec_cli_state_t.
abbrev pub g_client_states : List String
g_client_states =
    "NULL STATE" ∷ "INTERNAL ERR (FINAL)" ∷ "DNS FAILED (FINAL)" ∷ "DNS OK" ∷ "SEND FAILED (FINAL)"
    ∷ "REQ SENT" ∷ "REQ ACKD (separate message)" ∷ "APP TIMEOUT (FINAL)" ∷ "COAP RETRY"
    ∷ "COAP TIMEOUT (FINAL)" ∷ "REQ DONE (FINAL)" ∷ "REQ RST (FINAL)" ∷ "WAIT NOTIFICATION"
    ∷ "OBSERVE TIMEOUT (FINAL)" ∷ []

-- ec_cli_state_str; `none` would be a read outside of the table.
unfoldable pub cli_state_str : ℕ → Option String
cli_state_str s = if ltb 13 s then some "unknown state" else get_elem? g_client_states s

-- g_server_states, in the order of ec_srv_state_t.
abbrev pub g_server_states : List String
g_server_states =
    "NULL STATE" ∷ "INTERNAL ERR (FINAL)" ∷ "DUP REQ (FINAL)" ∷ "BAD REQ (FINAL)" ∷ "REQ OK"
    ∷ "ACK SENT" ∷ "WAIT ACK" ∷ "ACK TIMEDOUT (FINAL)" ∷ "RESP DONE (FINAL)" ∷ "COAP RETRY"
    ∷ "CLIENT RST (FINAL)" ∷ []

-- ec_srv_state_str.
unfoldable pub srv_state_str : ℕ → Option String
srv_state_str s = if ltb 10 s then some "unknown state" else get_elem? g_server_states s

-- ec_model_str; `none` is NULL.
unfoldable pub model_str : ℕ → Option String
model_str m = get_elem? ("CON" ∷ "NON" ∷ "ACK" ∷ "RST" ∷ []) m

-- ec_method_str.
unfoldable pub method_str : ℕ → Option String
method_str m = get_elem? ("UNSET" ∷ "GET" ∷ "POST" ∷ "PUT" ∷ "DELETE" ∷ []) m

-- The cases of ec_rc_str.
abbrev rc_names : List (ℕ × String)
rc_names =
    (65, "2.01 (Created)")
    ∷ (66, "2.02 (Deleted)")
    ∷ (67, "2.03 (Valid)")
    ∷ (68, "2.04 (Changed)")
    ∷ (69, "2.05 (Content)")
    ∷ (128, "4.00 (Bad Request)")
    ∷ (129, "4.01 (Unauthorized)")
    ∷ (130, "4.02 (Bad Option)")
    ∷ (131, "4.03 (Forbidden)")
    ∷ (132, "4.04 (Not Found)")
    ∷ (133, "4.05 (Method Not Allowed)")
    ∷ (134, "4.06 (Not Acceptable)")
    ∷ (140, "4.12 (Precondition Failed)")
    ∷ (141, "4.13 (Request Entity Too Large)")
    ∷ (143, "4.15 (Unsupported Media Type)")
    ∷ (160, "5.00 (Internal Server Error)")
    ∷ (161, "5.01 (Not Implemented)")
    ∷ (162, "5.02 (Bad Gateway)")
    ∷ (163, "5.03 (Service Unavailable)")
    ∷ (164, "5.04 (Gateway Timeout)")
    ∷ (165, "5.05 (Proxying Not Supported)")
    ∷ []

find_name : ℕ → List (ℕ × String) → String → String
find_name rc [] s = s
find_name rc ((n, name) ∷ rest) s = if rc == n then name else find_name rc rest s

-- The names of a code that has no case.
class_name : ℕ → String
class_name rc =
    if rc == 0
    then "response code unset"
    else (if leb rc 95
        then "unknown success code"
        else (if leb rc 159
            then "unknown client failure"
            else (if leb rc 191 then "unknown server failure" else "unknown response code")))

-- ec_rc_str.
unfoldable pub rc_str : ℕ → String
unfolding find_name class_name
rc_str rc = find_name rc rc_names (class_name rc)

-- ec_code_str, of an unsigned int.
unfoldable pub code_str : ℕ → Option String
unfolding method_str rc_str
code_str c =
    if c == 0
    then some "Empty"
    else (if leb c 31
        then method_str c
        else (if leb c 63
            then some "Reserved"
            else (if leb c 191
                then some (rc_str c)
                else (if leb c 255 then some "Reserved" else none))))
