-- ===== src/Opt/Add.antt =====
-- The setters of evcoap_opt.c, ec_opts_add_uint to ec_opts_add_observe and ec_opts_add_block. A
-- pointer that the code tests for NULL is an `Option`; a C string is its bytes before the NUL.
-- `le` is whether EC_LITTLE_ENDIAN is defined.
use webthings.Common.{
  ℕ, ◌+◌, ◌*◌, ◌^◌, Bytes, [], Option, none, some, Bool, true, false, length, ltb, ◌==◌, ◌||◌, ◌&&◌,
  not, if◌then◌else◌, Result, err,
}
use webthings.Opt.{Sym, OptType, Opts, sym2type, rank}
use webthings.Opt.Pool.{opts_add_raw}
use webthings.Opt.Uint.{encode_uint}

-- The test of a type.
abbrev pub type_is : OptType → OptType → Bool
type_is OptType.invalid OptType.invalid = true
type_is OptType.uint OptType.uint = true
type_is OptType.string OptType.string = true
type_is OptType.opaque OptType.opaque = true
type_is OptType.empty OptType.empty = true
type_is _ _ = false

module _ (le : Bool) where
  -- ec_opts_add_uint: through a buffer of 8 bytes.
  unfoldable pub opts_add_uint : Opts → Sym → ℕ → Result Opts Opts
  opts_add_uint opts sym v =
      if type_is (sym2type sym) OptType.uint
      then (elim (encode_uint le 8 v) [
        | none ↦ err opts
        | some e ↦ opts_add_raw opts sym e (length e)
      ])
      else err opts

  -- ec_opts_add_publish, of a uint8_t; ec_opts_add_content_type, ec_opts_add_uri_port,
  -- ec_opts_add_accept and ec_opts_add_observe, of a uint16_t; ec_opts_add_max_age, of a uint32_t.
  unfoldable pub opts_add_publish : Opts → ℕ → Result Opts Opts
  opts_add_publish opts mm = opts_add_uint opts Sym.publish mm

  unfoldable pub opts_add_content_type : Opts → ℕ → Result Opts Opts
  opts_add_content_type opts ct = opts_add_uint opts Sym.content_type ct

  unfoldable pub opts_add_max_age : Opts → ℕ → Result Opts Opts
  opts_add_max_age opts ma = opts_add_uint opts Sym.max_age ma

  unfoldable pub opts_add_uri_port : Opts → ℕ → Result Opts Opts
  opts_add_uri_port opts up = opts_add_uint opts Sym.uri_port up

  unfoldable pub opts_add_accept : Opts → ℕ → Result Opts Opts
  opts_add_accept opts a = opts_add_uint opts Sym.accept a

  unfoldable pub opts_add_observe : Opts → ℕ → Result Opts Opts
  opts_add_observe opts o = opts_add_uint opts Sym.observe o

  -- ec_opts_add_block. The three parts fall on disjoint bits, so the `|=` is a sum.
  unfoldable pub opts_add_block : Opts → Sym → ℕ → Bool → ℕ → Result Opts Opts
  opts_add_block opts which num more szx =
      if not (rank which == rank Sym.block1) && not (rank which == rank Sym.block2)
      then err opts
      else (if ltb 0xfffff num
          then err opts
          else (if ltb 0x7 szx
              then err opts
              else opts_add_uint opts which (szx + (if more then 1 else 0) * 2 ^ 3 + num * 2 ^ 4)))

  -- ec_opts_add_block1 and ec_opts_add_block2.
  unfoldable pub opts_add_block1 : Opts → ℕ → Bool → ℕ → Result Opts Opts
  opts_add_block1 opts num more szx = opts_add_block opts Sym.block1 num more szx

  unfoldable pub opts_add_block2 : Opts → ℕ → Bool → ℕ → Result Opts Opts
  opts_add_block2 opts num more szx = opts_add_block opts Sym.block2 num more szx

-- ec_opts_add_string.
unfoldable pub opts_add_string : Opts → Sym → Bytes → Result Opts Opts
opts_add_string opts sym s =
    if type_is (sym2type sym) OptType.string then opts_add_raw opts sym s (length s) else err opts

-- ec_opts_add_opaque.
unfoldable pub opts_add_opaque : Opts → Sym → Bytes → ℕ → Result Opts Opts
opts_add_opaque opts sym v l =
    if type_is (sym2type sym) OptType.opaque then opts_add_raw opts sym v l else err opts

-- ec_opts_add_empty.
unfoldable pub opts_add_empty : Opts → Sym → Result Opts Opts
opts_add_empty opts sym =
    if type_is (sym2type sym) OptType.empty then opts_add_raw opts sym [] 0 else err opts

-- What the setters of strings share: NULL, the empty string and more than 270 bytes are refused.
abbrev pub add_short_string : Opts → Sym → Option Bytes → Result Opts Opts
add_short_string opts sym none = err opts
add_short_string opts sym (some s) =
    if length s == 0 || ltb 270 (length s) then err opts else opts_add_string opts sym s

-- What the setters of opaque values share: NULL and a length out of 1 to 8 are refused.
abbrev pub add_short_opaque : Opts → Sym → Option Bytes → ℕ → Result Opts Opts
add_short_opaque opts sym none l = err opts
add_short_opaque opts sym (some v) l =
    if l == 0 || ltb 8 l then err opts else opts_add_opaque opts sym v l

-- ec_opts_add_proxy_uri; `is_absolute` is libu's u_uri_is_absolute.
unfoldable pub opts_add_proxy_uri : (Bytes → Bool) → Opts → Option Bytes → Result Opts Opts
opts_add_proxy_uri is_absolute opts none = err opts
opts_add_proxy_uri is_absolute opts (some pu) =
    if length pu == 0 || not (is_absolute pu)
    then err opts
    else opts_add_string opts Sym.proxy_uri pu

-- ec_opts_add_etag.
unfoldable pub opts_add_etag : Opts → Option Bytes → ℕ → Result Opts Opts
opts_add_etag opts et et_len = add_short_opaque opts Sym.etag et et_len

-- ec_opts_add_uri_host.
unfoldable pub opts_add_uri_host : Opts → Option Bytes → Result Opts Opts
opts_add_uri_host opts uh = add_short_string opts Sym.uri_host uh

-- ec_opts_add_location_path.
unfoldable pub opts_add_location_path : Opts → Option Bytes → Result Opts Opts
opts_add_location_path opts lp = add_short_string opts Sym.location_path lp

-- ec_opts_add_location_query.
unfoldable pub opts_add_location_query : Opts → Option Bytes → Result Opts Opts
opts_add_location_query opts lq = add_short_string opts Sym.location_query lq

-- ec_opts_add_uri_path.
unfoldable pub opts_add_uri_path : Opts → Option Bytes → Result Opts Opts
opts_add_uri_path opts up = add_short_string opts Sym.uri_path up

-- ec_opts_add_token.
unfoldable pub opts_add_token : Opts → Option Bytes → ℕ → Result Opts Opts
opts_add_token opts t t_len = add_short_opaque opts Sym.token t t_len

-- ec_opts_add_if_match.
unfoldable pub opts_add_if_match : Opts → Option Bytes → ℕ → Result Opts Opts
opts_add_if_match opts im im_len = add_short_opaque opts Sym.if_match im im_len

-- ec_opts_add_uri_query.
unfoldable pub opts_add_uri_query : Opts → Option Bytes → Result Opts Opts
opts_add_uri_query opts uq = add_short_string opts Sym.uri_query uq

-- ec_opts_add_if_none_match.
unfoldable pub opts_add_if_none_match : Opts → Result Opts Opts
opts_add_if_none_match opts = opts_add_empty opts Sym.if_none_match
