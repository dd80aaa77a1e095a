-- ===== src/Opt/Uint.antt =====
-- ec_opt_encode_uint and ec_opt_decode_uint of evcoap_opt.c. `le` is whether EC_LITTLE_ENDIAN is
-- defined, which the build decides from the host. The bytes of a value fall on disjoint bits, so
-- the `|=` of the decoder is a sum.
pub mod RoundTrip
use webthings.Common.{
  ℕ, zero, suc, ◌+◌, ◌-◌, ◌*◌, ◌/◌, ◌%◌, ◌^◌, Bytes, [], ◌∷◌, Option, none, some, Bool, length, ltb,
  leb, ◌==◌, if◌then◌else◌,
}

-- The pick of the size: `i` counts up the table of the largest values of 1, 2, .. 8 bytes.
unfoldable pub pick_size : ℕ → ℕ → ℕ → ℕ
pick_size zero i ui = i
pick_size (suc left) i ui =
    let next = pick_size left (i + 1) ui in if leb ui (256 ^ (i + 1) - 1) then i + 1 else next

-- e[i - j] = (ui >> (8 * j)) & 0xff: the highest byte comes first.
unfoldable pub high_first : ℕ → ℕ → Bytes
high_first zero ui = []
high_first (suc n) ui = (ui / 256 ^ n % 256) ∷ high_first n ui

-- e[j] = (ui >> (8 * j)) & 0xff: the lowest byte comes first.
unfoldable pub low_first : ℕ → ℕ → ℕ → Bytes
low_first zero j ui = []
low_first (suc n) j ui = (ui / 256 ^ j % 256) ∷ low_first n (j + 1) ui

-- ec_opt_encode_uint into a buffer of `elen` bytes: the bytes written, `none` for -1.
unfoldable pub encode_uint : Bool → ℕ → ℕ → Option Bytes
encode_uint le elen ui =
    if ui == 0
    then some []
    else (if ltb elen (pick_size 8 0 ui)
        then none
        else some
            (if le then high_first (pick_size 8 0 ui) ui else low_first (pick_size 8 0 ui) 0 ui))

-- The sum of v[i] << (8 * (l - (i + 1))).
unfoldable pub sum_high : Bytes → ℕ
sum_high [] = 0
sum_high (b ∷ v) = b * 256 ^ length v + sum_high v

-- The sum of v[i] << (8 * i), from `i` on.
unfoldable pub sum_low : ℕ → Bytes → ℕ
sum_low i [] = 0
sum_low i (b ∷ v) = b * 256 ^ i + sum_low (i + 1) v

-- ec_opt_decode_uint of the bytes at `v`; `none` for -1.
unfoldable pub decode_uint : Bool → Bytes → Option ℕ
unfolding sum_high sum_low
decode_uint le v = if ltb 8 (length v) then none else some (if le then sum_high v else sum_low 0 v)
