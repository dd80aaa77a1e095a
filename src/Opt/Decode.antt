-- ===== src/Opt/Decode.antt =====
-- ec_opts_decode of evcoap_opt.c. The memory that may be read is the PDU itself: the code does not
-- compare its pointer with the end of the PDU, and a read behind that end is a `fault` here.
pub mod Steps
pub mod Inverse
pub mod Made
use webthings.Common.{
  ℕ, zero, suc, ◌+◌, ◌*◌, ◌/◌, ◌%◌, Bytes, List, [], ◌∷◌, Bool, true, false, Option, none, some,
  length, drop, ltb, ◌==◌, ◌&&◌, ◌||◌, if◌then◌else◌, Result, ok, err, fault, ◌>>=◌,
}
use webthings.Opt.{Sym, Opts, rank, is_fencepost}
use webthings.Opt.Table.{num2sym}
use webthings.Opt.Pool.{opts_add}

-- The codes that ec_opts_decode returns besides EC_RC_UNSET: EC_BAD_OPTION,
-- EC_INTERNAL_SERVER_ERROR, and -1 for a PDU shorter than the header.
pub data Failure : Type 0 where
  bad_option internal_server_error bad_pdu : Failure

-- EC_COAP_HDR_SIZE.
abbrev pub hdr_size : ℕ
hdr_size = 4

-- The variables of the loop: the pool, the number of the last option, the bytes from `opt_p` on, and
-- how far `opt_p` is behind the header.
pub record Cursor : Type 0 where
  pub opts : Opts
  pub opt_num : ℕ
  pub opt_p : Bytes
  pub olen : ℕ

-- Whether an option number is not in the table.
abbrev pub unrecognized : ℕ → Bool
unrecognized opt_num = rank (num2sym opt_num) == rank Sym.opt_none

-- What is done once the option number and the length are known.
unfoldable pub take_option : Cursor → ℕ → ℕ → Result (Failure × Opts) Cursor
take_option d opt_num opt_len =
    let skip_this = unrecognized opt_num || ((opt_len == 0) && is_fencepost opt_num) in
    let jump = if ltb 15 opt_len then 2 else 1 in
    let d' : Opts → Cursor = λ opts. record {
      opts = opts;
      opt_num = opt_num;
      opt_p = drop opt_len (drop jump d.opt_p);
      olen = d.olen + jump + opt_len;
    } in
    if skip_this
    then ok (d' d.opts)
    else (elim (opts_add d.opts (num2sym opt_num) (drop jump d.opt_p) opt_len) [
      | ok opts ↦ ok (d' opts)
      | err opts ↦ err (Failure.internal_server_error, opts)
      | fault ↦ fault
    ])

-- The length of an option whose first byte is `b`, with the bytes behind that.
unfoldable pub read_len : ℕ → Bytes → Option ℕ
read_len b [] = if b % 16 == 15 then none else some (b % 16)
read_len b (b' ∷ more) = if b % 16 == 15 then some (b' + 15) else some (b % 16)

-- One round of the loop, on the bytes from `opt_p` on.
unfoldable pub decode_option : Cursor → Bytes → Result (Failure × Opts) Cursor
decode_option d [] = fault
decode_option d (b ∷ more) =
    let opt_num = d.opt_num + b / 16 in
    if unrecognized opt_num && (opt_num % 2 == 1)
    then err (Failure.bad_option, d.opts)
    else (elim (read_len b more) [ none ↦ fault | some opt_len ↦ take_option d opt_num opt_len ])

-- The loop over the option count.
unfoldable pub decode_loop : ℕ → Cursor → Result (Failure × Opts) Cursor
decode_loop zero d = ok d
decode_loop (suc opt_count) d = decode_option d d.opt_p >>= λ d'. decode_loop opt_count d'

-- ec_opts_decode: the pool and *olen.
unfoldable pub opts_decode : Opts → Bytes → ℕ → Result (Failure × Opts) (Opts × ℕ)
opts_decode opts pdu oc =
    if ltb (length pdu) hdr_size
    then err (Failure.bad_pdu, opts)
    else (decode_loop oc (record { opts = opts; opt_num = 0; opt_p = drop hdr_size pdu; olen = 0 })
        >>= λ d. ok (d.opts, d.olen))
