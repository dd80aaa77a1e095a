-- ===== src/Opt/Get.antt =====
-- The getters of evcoap_opt.c. `none` is NULL, or the return of -1, where no out argument is to be
-- read. `le` is whether EC_LITTLE_ENDIAN is defined.
pub mod RoundTrip
use webthings.Common.{
  ℕ, zero, suc, ◌+◌, ◌-◌, ◌*◌, ◌/◌, ◌%◌, ◌^◌, Bytes, List, [], ◌∷◌, Option, none, some, Bool, true,
  false, length, ltb, ◌==◌, ◌||◌, ◌&&◌, not, if◌then◌else◌, Result, ok, err,
}
use webthings.Opt.{Sym, OptType, Opt, Opts, sym2type, rank, value_of}
use webthings.Opt.Add.{type_is}
use webthings.Opt.Pool.{opts_get_nth, opts_get}
use webthings.Opt.Uint.{decode_uint}
use mathlib.Core.Option

-- The C string in a buffer: the bytes before the first NUL.
unfoldable pub c_string : Bytes → Bytes
c_string [] = []
c_string (b ∷ rest) = let s = c_string rest in if b == 0 then [] else b ∷ s

-- ec_opts_get_string.
unfoldable pub opts_get_string : List Opt → Sym → Option Bytes
unfolding opts_get c_string
opts_get_string bundle sym =
    if type_is (sym2type sym) OptType.string
    then Option.bind (opts_get bundle sym) (λ o. Option.map c_string o.v)
    else none

-- ec_opts_get_uri_host, ec_opts_get_location_path and ec_opts_get_location_query.
unfoldable pub opts_get_uri_host : List Opt → Option Bytes
opts_get_uri_host bundle = opts_get_string bundle Sym.uri_host

unfoldable pub opts_get_location_path : List Opt → Option Bytes
opts_get_location_path bundle = opts_get_string bundle Sym.location_path

unfoldable pub opts_get_location_query : List Opt → Option Bytes
opts_get_location_query bundle = opts_get_string bundle Sym.location_query

-- The value and the length of the n-th option of a symbol: ec_opts_get_etag_nth,
-- ec_opts_get_if_match_nth and ec_opts_get_token.
unfoldable pub opts_get_etag_nth : List Opt → ℕ → Option (Option Bytes × ℕ)
opts_get_etag_nth bundle n = Option.map (λ o. (o.v, o.l)) (opts_get_nth bundle Sym.etag n)

unfoldable pub opts_get_if_match_nth : List Opt → ℕ → Option (Option Bytes × ℕ)
opts_get_if_match_nth bundle n = Option.map (λ o. (o.v, o.l)) (opts_get_nth bundle Sym.if_match n)

unfoldable pub opts_get_token : List Opt → Option (Option Bytes × ℕ)
opts_get_token bundle = Option.map (λ o. (o.v, o.l)) (opts_get bundle Sym.token)

-- ec_opts_get_if_none_match: 0 (true) or -1 (false).
unfoldable pub opts_get_if_none_match : List Opt → Bool
opts_get_if_none_match bundle = elim (opts_get bundle Sym.if_none_match) [
  | none ↦ false
  | some _ ↦ true
]

-- A value that is refused above a limit.
abbrev at_most : ℕ → ℕ → Option ℕ
at_most limit tmp = if ltb limit tmp then none else some tmp

module _ (le : Bool) where
  -- ec_opts_get_uint.
  unfoldable pub opts_get_uint : List Opt → Sym → Option ℕ
  opts_get_uint bundle sym =
      if type_is (sym2type sym) OptType.uint
      then Option.bind (opts_get bundle sym) (λ o. decode_uint le (value_of o))
      else none

  -- ec_opts_get_uri_port.
  unfoldable pub opts_get_uri_port : List Opt → Option ℕ
  opts_get_uri_port bundle = Option.bind (opts_get_uint bundle Sym.uri_port) (at_most 0xffff)

  -- ec_opts_get_publish.
  unfoldable pub opts_get_publish : List Opt → Option ℕ
  opts_get_publish bundle = Option.bind (opts_get_uint bundle Sym.publish) (at_most 0xff)

  -- ec_opts_get_content_type.
  unfoldable pub opts_get_content_type : List Opt → Option ℕ
  opts_get_content_type bundle =
      Option.bind (opts_get_uint bundle Sym.content_type) (at_most 0xffff)

  -- ec_opts_get_observe.
  unfoldable pub opts_get_observe : List Opt → Option ℕ
  opts_get_observe bundle = Option.bind (opts_get_uint bundle Sym.observe) (at_most 0xffff)

  -- ec_opts_get_max_age: 3600 where the option is missing or cannot be decoded.
  unfoldable pub opts_get_max_age : List Opt → Option ℕ
  opts_get_max_age bundle = elim (opts_get_uint bundle Sym.max_age) [
    | none ↦ some 3600
    | some tmp ↦ at_most 0xffffffff tmp
  ]

  -- The loop of ec_opts_get_accept_all, with `room` places left in `mta`.
  accept_loop : List Opt → ℕ → Option (List ℕ)
  accept_loop [] room = some []
  accept_loop (o ∷ rest) room =
      let next = accept_loop rest (room - 1) in
      let skip = accept_loop rest room in
      if rank o.sym == rank Sym.accept
      then Option.bind (decode_uint le (value_of o))
          (λ mt. if room == 1 then some (mt % 2 ^ 32 ∷ []) else Option.map (◌∷◌ (mt % 2 ^ 32)) next)
      else skip

  -- ec_opts_get_accept_all into an array of `mta_sz` places.
  unfoldable pub opts_get_accept_all : List Opt → ℕ → Option (List ℕ)
  unfolding accept_loop
  opts_get_accept_all bundle mta_sz = if mta_sz == 0 then none else accept_loop bundle mta_sz

  -- ec_opts_get_block: the block number, the more flag and the size exponent.
  unfoldable pub opts_get_block : List Opt → Sym → Option (ℕ × Bool × ℕ)
  opts_get_block bundle which =
      if not (rank which == rank Sym.block1) && not (rank which == rank Sym.block2)
      then none
      else Option.bind (opts_get_uint bundle which) (λ tmp.
        if ltb 0xffffff tmp
        then none
        else some (tmp / 2 ^ 4, not (tmp / 2 ^ 3 % 2 == 0), tmp % 2 ^ 3))

  -- ec_opts_get_block1 and ec_opts_get_block2.
  unfoldable pub opts_get_block1 : List Opt → Option (ℕ × Bool × ℕ)
  opts_get_block1 bundle = opts_get_block bundle Sym.block1

  unfoldable pub opts_get_block2 : List Opt → Option (ℕ × Bool × ℕ)
  opts_get_block2 bundle = opts_get_block bundle Sym.block2
