-- ===== src/Opt.antt =====
-- Options of a CoAP message: bridge/sw/include/evcoap_opt.h and the tables at the top of
-- bridge/sw/lib/evcoap/src/evcoap_opt.c. The children model the rest of evcoap_opt.c.
pub mod Table
pub mod Pool
pub mod Uint
pub mod Add
pub mod Get
pub mod Encode
pub mod Decode
pub mod Reads
use webthings.Common.{
  ℕ, ◌*◌, ◌%◌, Bytes, Option, none, some, List, [], take, ltb, ◌==◌, ◌&&◌, not, Bool,
}

-- ec_opt_sym_t, in the order of the enum.
pub data Sym : Type 0 where
  opt_none content_type max_age proxy_uri etag uri_host location_path uri_port location_query : Sym
  uri_path observe token accept if_match uri_query block2 block1 if_none_match publish : Sym
  opt_max : Sym

-- The value that the C enum gives to a symbol.
unfoldable pub rank : Sym → ℕ
rank Sym.opt_none = 0
rank Sym.content_type = 1
rank Sym.max_age = 2
rank Sym.proxy_uri = 3
rank Sym.etag = 4
rank Sym.uri_host = 5
rank Sym.location_path = 6
rank Sym.uri_port = 7
rank Sym.location_query = 8
rank Sym.uri_path = 9
rank Sym.observe = 10
rank Sym.token = 11
rank Sym.accept = 12
rank Sym.if_match = 13
rank Sym.uri_query = 14
rank Sym.block2 = 15
rank Sym.block1 = 16
rank Sym.if_none_match = 17
rank Sym.publish = 18
rank Sym.opt_max = 19

-- ec_opt_type_t.
pub data OptType : Type 0 where
  invalid uint string opaque empty : OptType

-- EC_OPT_SYM_VALID.
abbrev pub sym_valid : Sym → Bool
sym_valid s = ltb 0 (rank s) && ltb (rank s) 19

abbrev pub opt_len_max : ℕ
opt_len_max = 270

abbrev pub proto_max_options : ℕ
proto_max_options = 15

-- The size of the buffer that takes the encoded options.
abbrev pub opts_max_len : ℕ
opts_max_len = 15 * opt_len_max

-- struct ec_opt_s. `v` is `none` where the pointer is NULL.
pub record Opt : Type 0 where
  pub sym : Sym
  pub t : OptType
  pub l : ℕ
  pub v : Option Bytes

-- The `l` bytes at `v`.
abbrev pub value_bytes : ℕ → Option Bytes → Bytes
value_bytes l none = []
value_bytes l (some b) = take l b

abbrev pub value_of : Opt → Bytes
value_of o = value_bytes o.l o.v

-- struct ec_opts_s. Of the buffer `enc` only the bytes written are kept.
pub record Opts : Type 0 where
  pub enc : Bytes
  pub enc_sz : ℕ
  pub noptions : ℕ
  pub bundle : List Opt

-- ec_opt_sym2type: the type column of g_opts.
unfoldable pub sym2type : Sym → OptType
sym2type Sym.opt_none = OptType.invalid
sym2type Sym.content_type = OptType.uint
sym2type Sym.max_age = OptType.uint
sym2type Sym.proxy_uri = OptType.string
sym2type Sym.etag = OptType.opaque
sym2type Sym.uri_host = OptType.string
sym2type Sym.location_path = OptType.string
sym2type Sym.uri_port = OptType.uint
sym2type Sym.location_query = OptType.string
sym2type Sym.uri_path = OptType.string
sym2type Sym.observe = OptType.uint
sym2type Sym.token = OptType.opaque
sym2type Sym.accept = OptType.uint
sym2type Sym.if_match = OptType.opaque
sym2type Sym.uri_query = OptType.string
sym2type Sym.block2 = OptType.uint
sym2type Sym.block1 = OptType.uint
sym2type Sym.if_none_match = OptType.empty
sym2type Sym.publish = OptType.uint
sym2type Sym.opt_max = OptType.invalid

-- ec_opt_sym2num: the number column of g_opts. An invalid symbol has EC_OPT_NONE, which is 0.
unfoldable pub sym2num : Sym → ℕ
sym2num Sym.opt_none = 0
sym2num Sym.content_type = 1
sym2num Sym.max_age = 2
sym2num Sym.proxy_uri = 3
sym2num Sym.etag = 4
sym2num Sym.uri_host = 5
sym2num Sym.location_path = 6
sym2num Sym.uri_port = 7
sym2num Sym.location_query = 8
sym2num Sym.uri_path = 9
sym2num Sym.observe = 10
sym2num Sym.token = 11
sym2num Sym.accept = 12
sym2num Sym.if_match = 13
sym2num Sym.uri_query = 15
sym2num Sym.block2 = 17
sym2num Sym.block1 = 19
sym2num Sym.if_none_match = 21
sym2num Sym.publish = 23
sym2num Sym.opt_max = 0

-- EC_OPT_NUM_IS_FENCEPOST.
abbrev pub is_fencepost : ℕ → Bool
is_fencepost n = not (n == 0) && (n % 14 == 0)

-- ec_opts_init on a fresh object.
unfoldable pub opts_init : Opts
opts_init = record { enc = []; enc_sz = 0; noptions = 0; bundle = [] }
