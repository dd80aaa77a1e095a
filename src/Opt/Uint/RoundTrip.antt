-- ===== src/Opt/Uint/RoundTrip.antt =====
-- An unsigned integer is read back from its encoding, which is as short as can be.
use webthings.Common.{
  ℕ, zero, suc, ◌+◌, ◌-◌, ◌*◌, ◌/◌, ◌%◌, ◌^◌, ◌≤◌, ◌<◌, ◌≡◌, refl, ap, ◌∙◌, Bytes, [], ◌∷◌, ◌++◌,
  some, Bool, true, false, arith, length, leb, ◌==◌, Bool-cases, inl, inr, if◌then◌else◌, le→ltb,
}
use webthings.Opt.Uint.{
  pick_size, high_first, low_first, encode_uint, sum_high, sum_low, decode_uint,
}
use mathlib.Core.List.{reverse, reverse-cons}
use mathlib.Core.Option
use native.Mathlib.Nat.{mod-eq_of_lt, div-add-mod', div-div-eq-div-mul, pow-suc, zero-add, add-zero}
use native.Mathlib.Numerals.{add-one}

-- One byte more: the digits of `u` up to p * 256.
digit_step : (u p : ℕ) → u / p % 256 * p + u % p ≡ u % (p * 256)
digit_step u p = omega (
  arith,
  div-add-mod' u p,
  div-add-mod' u (p * 256),
  div-div-eq-div-mul u p 256,
  ap (λ (t : ℕ). t * p) (div-add-mod' (u / p) 256),
  ap (λ (t : ℕ). t * (p * 256)) (div-div-eq-div-mul u p 256),
)

length-high_first : (n ui : ℕ) → length (high_first n ui) ≡ n
unfolding high_first
length-high_first zero ui = refl
length-high_first (suc n) ui = ap suc (length-high_first n ui)

length-low_first : (n j ui : ℕ) → length (low_first n j ui) ≡ n
unfolding low_first
length-low_first zero j ui = refl
length-low_first (suc n) j ui = ap suc (length-low_first n (j + 1) ui)

sum_high-high_first : (n ui : ℕ) → sum_high (high_first n ui) ≡ ui % 256 ^ n
unfolding high_first sum_high
sum_high-high_first zero ui = omega arith
sum_high-high_first (suc n) ui =
    rw (length-high_first n ui, sum_high-high_first n ui, pow-suc 256 n) (digit_step ui (256 ^ n))

pow_one_more : (j : ℕ) → 256 ^ (j + 1) ≡ 256 ^ j * 256
pow_one_more j = rw (add-one j) (pow-suc 256 j)

one-le-pow : (j : ℕ) → 1 ≤ 256 ^ j
one-le-pow zero = omega arith
one-le-pow (suc j) = omega (arith, pow-suc 256 j, one-le-pow j)

-- From byte j on: what is missing is the part below 256 ^ j.
sum_low-low_first : (n j ui : ℕ) → sum_low j (low_first n j ui) + ui % 256 ^ j ≡ ui % 256 ^ (j + n)
unfolding low_first sum_low
sum_low-low_first zero j ui = rw (zero-add, add-zero)
sum_low-low_first (suc n) j ui =
    let e : j + suc n ≡ j + 1 + n = omega arith in
    rw (e, ← sum_low-low_first n (j + 1) ui)
      (omega (arith, digit_step ui (256 ^ j), ap (λ (t : ℕ). ui % t) (pow_one_more j)))

-- The size that is picked is that of the value.
pick_size_from :
    (left i ui : ℕ)
    → 256 ^ i ≤ ui
    → ui < 256 ^ (i + left)
    → (n : ℕ) × (pick_size left i ui ≡ suc n) × (n < i + left) × (256 ^ n ≤ ui) × (ui < 256 ^ suc n)
unfolding pick_size
pick_size_from zero i ui lo hi =
    let e : i + 0 ≡ i = omega arith in absurd (omega (arith, ap (λ (t : ℕ). 256 ^ t) e))
pick_size_from (suc left) i ui lo hi = elim (Bool-cases (leb ui (256 ^ (i + 1) - 1))) [
  | inl e ↦ (
    i,
    rw (e, pick_size) (omega arith),
    omega arith,
    lo,
    omega (arith, fits e, ap (λ (t : ℕ). 256 ^ t) (add-one i)),
  )
  | inr e ↦
      let shift : i + suc left ≡ i + 1 + left = omega arith in
      rw (e, pick_size, shift) (pick_size_from left (i + 1) ui (above e) (rw shift at hi))
]
  where
    pow_pos : 0 < 256 ^ (i + 1)
    pow_pos = omega (arith, pow_one_more i, one-le-pow i)

    fits : leb ui (256 ^ (i + 1) - 1) ≡ true → ui < 256 ^ (i + 1)
    fits e = ground (arith, pow_pos)

    above : leb ui (256 ^ (i + 1) - 1) ≡ false → 256 ^ (i + 1) ≤ ui
    above e = ground arith

pick_size_lem :
    (ui : ℕ)
    → 0 < ui
    → ui < 2 ^ 64
    → (n : ℕ) × (pick_size 8 0 ui ≡ suc n) × (n < 8) × (256 ^ n ≤ ui) × (ui < 256 ^ suc n)
pick_size_lem ui h k = pick_size_from 8 0 ui h k

-- What the encoding of `ui` is.
record Encodes (le : Bool) (ui : ℕ) (b : Bytes) : Type 0 where
  pub short : length b ≤ 8
  pub decoded : decode_uint le b ≡ some ui
  pub minimal : 256 ^ length b ≤ ui * 256 + 1

Encodes-zero : (le : Bool) → Encodes le 0 []
unfolding decode_uint
Encodes-zero true = record { short = omega arith; decoded = refl; minimal = omega arith }
Encodes-zero false = record { short = omega arith; decoded = refl; minimal = omega arith }

bytes_of : Bool → ℕ → ℕ → Bytes
bytes_of le n ui = if le then high_first n ui else low_first n 0 ui

length-bytes_of : (le : Bool) (n ui : ℕ) → length (bytes_of le n ui) ≡ n
unfolding bytes_of
length-bytes_of true n ui = length-high_first n ui
length-bytes_of false n ui = length-low_first n 0 ui

decode_uint-bytes_of :
    (le : Bool) (n ui : ℕ) → n ≤ 8 → ui < 256 ^ n → decode_uint le (bytes_of le n ui) ≡ some ui
unfolding decode_uint bytes_of
decode_uint-bytes_of true n ui h k =
    rw (length-high_first n ui, le→ltb _ _ h, sum_high-high_first n ui) (ap some (mod-eq_of_lt k))
decode_uint-bytes_of false n ui h k =
    let e : sum_low 0 (low_first n 0 ui) ≡ ui % 256 ^ (0 + n) =
      omega (arith, sum_low-low_first n 0 ui) in
    rw (length-low_first n 0 ui, le→ltb _ _ h, e, zero-add) (ap some (mod-eq_of_lt k))

Encodes-bytes_of :
    (le : Bool) (n ui : ℕ)
    → n < 8
    → 256 ^ n ≤ ui
    → ui < 256 ^ suc n
    → Encodes le ui (bytes_of le (suc n) ui)
Encodes-bytes_of le n ui h lo hi = record {
  short = rw (length-bytes_of le (suc n) ui) h;
  decoded = decode_uint-bytes_of le (suc n) ui h hi;
  minimal = rw (length-bytes_of le (suc n) ui) (omega (arith, pow-suc 256 n));
}

suc-==-zero : (u : ℕ) → (suc u == 0) ≡ false
suc-==-zero u = ground arith

-- In either build, every 64-bit integer has an encoding of at most 8 bytes; the decoder of the same
-- build reads the integer back from it, and no shorter byte string would do (256 to its length
-- exceeds 256 times the integer by 1 at most).
pub decode_uint-encode_uint :
    (le : Bool) (ui : ℕ)
    → ui < 2 ^ 64
    → (b : Bytes) × (encode_uint le 8 ui ≡ some b)
      × (length b ≤ 8)
      × (decode_uint le b ≡ some ui)
      × (256 ^ length b ≤ ui * 256 + 1)
unfolding encode_uint bytes_of
decode_uint-encode_uint le zero h =
    let c = Encodes-zero le in ([], refl, c.short, c.decoded, c.minimal)
decode_uint-encode_uint le (suc u) h =
    let (n, e, hn, lo, hi) = pick_size_lem (suc u) (omega arith) h in
    let c = Encodes-bytes_of le n (suc u) hn lo hi in
    (
      bytes_of le (suc n) (suc u),
      rw (suc-==-zero u, e, le→ltb _ _ hn),
      c.short,
      c.decoded,
      c.minimal,
    )

low_first-snoc :
    (n j ui : ℕ) → low_first (suc n) j ui ≡ low_first n j ui ++ ((ui / 256 ^ (j + n) % 256) ∷ [])
unfolding low_first
low_first-snoc zero j ui = rw add-zero
low_first-snoc (suc n) j ui =
    let e : j + suc n ≡ j + 1 + n = omega arith in
    ap (◌∷◌ (ui / 256 ^ j % 256)) (low_first-snoc n (j + 1) ui ∙ rw e)

reverse-high_first : (n ui : ℕ) → reverse (high_first n ui) ≡ low_first n 0 ui
unfolding high_first
reverse-high_first zero ui = unfold low_first in refl
reverse-high_first (suc n) ui =
    rw (reverse-cons, reverse-high_first n ui, low_first-snoc n 0 ui, zero-add)

-- The two builds put the bytes of one integer on the wire in opposite orders, though both are to be
-- read by the same peers.
pub encode_uint-reverse :
    (elen ui : ℕ) → encode_uint false elen ui ≡ Option.map reverse (encode_uint true elen ui)
unfolding encode_uint
encode_uint-reverse elen ui = ground (arith, reverse-high_first (pick_size 8 0 ui) ui)
