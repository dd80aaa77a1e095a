-- ===== src/Opt/Encode/Fences.antt =====
-- The fenceposts of evcoap_opt.c, the bytes of one option, and the length that the encoder computes.

use native.Mathlib.Decide.{ℕ_discrete}
use webthings.Common.{
  ℕ, zero, suc, ◌+◌, ◌-◌, ◌*◌, ◌%◌, ◌≤◌, ◌<◌, ◌≡◌, ◌≢◌, refl, Bytes, [], ◌∷◌, ◌++◌, Bool, true,
  false, arith, length, length-append, ltb, Bool-cases, inl, inr, if◌then◌else◌,
}
use webthings.Opt.{Opt, sym_valid, sym2num, value_of, is_fencepost}
use webthings.Opt.Table.{sym2num_bounds}
use webthings.Opt.Encode.{
  sub64, count_fenceposts, fenceposts_encsz, Fence, add_fenceposts, head_bytes, encoded_len,
}

-- Below 28 only 14 is a fencepost.
no_fencepost : (i : ℕ) → i < 28 → i ≢ 14 → is_fencepost i ≡ false
no_fencepost i h k = ground arith

add_fenceposts_none : (n i : ℕ) (f : Fence) → 15 ≤ i → i + n ≤ 28 → add_fenceposts n i f ≡ f
unfolding add_fenceposts
add_fenceposts_none zero i f h k = refl
add_fenceposts_none (suc n) i f h k =
    rw (no_fencepost i (omega arith) (omega arith))
      (add_fenceposts_none n (i + 1) f (omega arith) (omega arith))

count_fenceposts_none : (n i : ℕ) → 15 ≤ i → i + n ≤ 28 → count_fenceposts n i ≡ 0
unfolding count_fenceposts
count_fenceposts_none zero i h k = refl
count_fenceposts_none (suc n) i h k =
    rw (no_fencepost i (omega arith) (omega arith))
      (omega (arith, count_fenceposts_none n (i + 1) (omega arith) (omega arith)))

-- A walk over 14 writes one fencepost there.
unfoldable pub fence_at_14 : Fence → Fence
fence_at_14 f = record {
  p = f.p ++ ((14 - f.last) * 16 % 256 ∷ []);
  last = 14;
  noptions = f.noptions + 1;
}

add_fenceposts_one :
    (n i : ℕ) (f : Fence)
    → i ≤ 14
    → 15 ≤ i + n
    → i + n ≤ 28
    → (add_fenceposts n i f ≡ fence_at_14 f) × (count_fenceposts n i ≡ 1)
unfolding add_fenceposts fence_at_14 count_fenceposts
add_fenceposts_one zero i f h lo hi = absurd (omega arith)
add_fenceposts_one (suc n) i f h lo hi = elim (ℕ_discrete i 14) [
  | yes e ↦ rw e (
    add_fenceposts_none n (14 + 1) _ (omega arith) (omega arith),
    omega (arith, count_fenceposts_none n (14 + 1) (omega arith) (omega arith)),
  )
  | no e ↦
      let (a, c) = add_fenceposts_one n (i + 1) f (omega arith) (omega arith) (omega arith) in
      rw (no_fencepost i (omega arith) e) (a, omega (arith, c))
]

pub sub64_small : (a b : ℕ) → b ≤ a → a ≤ 23 → sub64 a b ≡ a - b
sub64_small a b h k = omega arith

-- Whether a fencepost comes before the option of number `cur`.
abbrev pub needs_fence : ℕ → ℕ → Bool
needs_fence last cur = ltb 14 (cur - last)

abbrev pub fence_count : Bool → ℕ
fence_count b = if b then 1 else 0

unfoldable pub fence_bytes : Bool → ℕ → Bytes
fence_bytes b last = if b then (14 - last) * 16 % 256 ∷ [] else []

-- The bytes of an option behind one of number `last`.
unfoldable pub chunk : ℕ → Opt → Bytes
unfolding fence_bytes
chunk last o =
    let cur = sym2num o.sym in
    fence_bytes (needs_fence last cur) last
    ++ (head_bytes (cur - (if needs_fence last cur then 14 else last)) o.l ++ value_of o)

-- An option that ec_opts_encode can follow: its number is not below `last`, and its value is there.
pub record Follows (last : ℕ) (o : Opt) : Type 0 where
  pub valid : sym_valid o.sym ≡ true
  pub rising : last ≤ sym2num o.sym
  pub apart : last ≢ 14
  pub whole : length (value_of o) ≡ o.l

pub fences :
    (last cur : ℕ) (f : Fence)
    → last ≤ cur
    → cur ≤ 23
    → last ≢ 14
    → needs_fence last cur ≡ true
    → (add_fenceposts (cur - last) last f ≡ fence_at_14 f)
      × (count_fenceposts (cur - last) last ≡ 1)
fences last cur f h k l b =
    add_fenceposts_one (cur - last) last f (ground arith) (ground arith) (ground arith)

length-head_bytes : (d l : ℕ) → length (head_bytes d l) ≡ (if ltb 14 l then 2 else 1)
length-head_bytes d l = ground arith

pub encoded_len-chunk :
    (last : ℕ) (o : Opt)
    → Follows last o
    → encoded_len o (sym2num o.sym) last ≡ length (chunk last o)
unfolding chunk fenceposts_encsz fence_bytes
encoded_len-chunk last o w =
    let (lo, hi, _) = sym2num_bounds o.sym w.valid in
    let cur = sym2num o.sym in
    let s = sub64_small cur last w.rising hi in
    elim (Bool-cases (needs_fence last cur)) [
      | inl b ↦
          let c =
            (fences last cur (record { p = []; last = 0; noptions = 0 }) w.rising hi w.apart b).1 in
          rw (s, b, c)
            (omega (
              arith,
              length-append (head_bytes (cur - 14) o.l) (value_of o),
              length-head_bytes (cur - 14) o.l,
              w.whole,
            ))
      | inr b ↦
          rw (s, b)
            (omega (
              arith,
              length-append (head_bytes (cur - last) o.l) (value_of o),
              length-head_bytes (cur - last) o.l,
              w.whole,
            ))
    ]
