-- ===== src/Opt/Get/RoundTrip.antt =====
-- Lookups see the occurrences of a symbol; what a setter of integers stores, its getter returns.
use mathlib.Core.Option
use mathlib.Core.List.{append-nil}
use webthings.Common.{
  ℕ, zero, suc, ◌+◌, ◌*◌, ◌/◌, ◌%◌, ◌^◌, ◌≤◌, ◌<◌, ◌≡◌, ◌≢◌, refl, ◌∙◌, sym, Bytes, List, [], ◌∷◌,
  some, Bool, true, false, not, arith, length, get_elem?, ◌==◌, ◌&&◌, ◌⊎◌, inl, inr, if◌then◌else◌,
  ok, le→ltb,
}
use webthings.Opt.{Sym, OptType, Opt, Opts, rank, sym2type, value_of, proto_max_options}
use webthings.Opt.Pool.{opts_get_nth, opts_get, opts_count_sym, to_be_used_opts}
use webthings.Opt.Pool.Order.{IsPool}
use webthings.Opt.Pool.Occur.{occurrences}
use webthings.Opt.Pool.Segments.{Grown, joined, carries}
use webthings.Opt.Pool.Raw.{opts_add_raw-Grown}
use webthings.Opt.Uint.{decode_uint}
use webthings.Opt.Uint.RoundTrip.{decode_uint-encode_uint}
use webthings.Opt.Add.{type_is, opts_add_uint, opts_add_block}
use webthings.Opt.Get.{opts_get_uint, opts_get_block}

-- The n-th option of a symbol, as ec_opts_get_nth finds it, is the n-th of its occurrences; and
-- ec_opts_count_sym adds their number to its counter.
pub opts_get_nth-occurrences :
    (xs : List Opt) (s : Sym) (n : ℕ)
    → (opts_get_nth xs s n ≡ get_elem? (occurrences s xs) n)
      × (opts_count_sym xs s n ≡ n + length (occurrences s xs))
unfolding opts_get_nth occurrences opts_count_sym
opts_get_nth-occurrences [] s n = (refl, omega arith)
opts_get_nth-occurrences (x ∷ xs) s zero =
    ground (arith, opts_get_nth-occurrences xs s 0, opts_get_nth-occurrences xs s (0 + 1))
opts_get_nth-occurrences (x ∷ xs) s (suc n) = ground (
  arith,
  opts_get_nth-occurrences xs s n,
  opts_get_nth-occurrences xs s (suc n),
  opts_get_nth-occurrences xs s (suc n + 1),
)

-- A list of one option, by its length and the bytes that it holds.
single :
    (xs : List Opt) (b : Bytes)
    → length xs ≡ 1
    → joined xs ≡ b
    → (o : Opt) × (xs ≡ o ∷ []) × (value_of o ≡ b)
unfolding joined
single [] b h e = absurd (omega arith)
single (o ∷ []) b h e = (o, refl, sym (append-nil (value_of o)) ∙ e)
single (o ∷ p ∷ xs) b h e = absurd (omega arith)

uint_type : (t : OptType) → t ≡ OptType.uint → (type_is t OptType.uint ≡ true) × (carries t ≡ true)
uint_type OptType.uint e = (refl, refl)
uint_type OptType.invalid e = cc
uint_type OptType.string e = cc
uint_type OptType.opaque e = cc
uint_type OptType.empty e = cc

short_slots : (l : ℕ) → l ≤ 8 → to_be_used_opts l ≡ 1
short_slots l h = ground arith

opts_get_uint-Grown :
    (le : Bool) (opts opts' : Opts) (s : Sym) (v : ℕ) (b : Bytes)
    → sym2type s ≡ OptType.uint
    → occurrences s opts.bundle ≡ []
    → decode_uint le b ≡ some v
    → Grown opts opts' s b 1
    → opts_get_uint le opts'.bundle s ≡ some v
unfolding opts_get_uint opts_get joined Option.bind
opts_get_uint-Grown le opts opts' s v b t none_yet d g =
    let (o, e, eo) =
      single (occurrences s opts'.bundle) b (rw none_yet at g.count) (rw none_yet at g.values) in
    rw ((uint_type _ t).0, (opts_get_nth-occurrences opts'.bundle s 0).0, e, eo, d)

-- On a pool with a free slot and no option of an integer symbol yet, ec_opts_add_uint stores any
-- 64-bit integer; ec_opts_get_uint of the same build then returns it, the other symbols keep their
-- options, and one more slot is taken.
pub opts_get_uint-opts_add_uint :
    (le : Bool) (opts : Opts) (s : Sym) (v : ℕ)
    → IsPool opts
    → opts.noptions < proto_max_options
    → sym2type s ≡ OptType.uint
    → occurrences s opts.bundle ≡ []
    → v < 2 ^ 64
    → (opts' : Opts) × (opts_add_uint le opts s v ≡ ok opts')
      × (opts_get_uint le opts'.bundle s ≡ some v)
      × IsPool opts'
      × ((r : Sym) → rank s ≢ rank r → occurrences r opts'.bundle ≡ occurrences r opts.bundle)
      × (opts'.noptions ≡ opts.noptions + 1)
unfolding opts_add_uint
opts_get_uint-opts_add_uint le opts s v p free t none_yet h =
    let (b, eb, short, d, _) = decode_uint-encode_uint le v h in
    let slots = short_slots (length b) short in
    let (opts', e, g) = opts_add_raw-Grown opts s b p (omega (arith, slots)) (uint_type _ t).1 in
    (
      opts',
      rw ((uint_type _ t).0, eb) e,
      opts_get_uint-Grown le opts opts' s v b t none_yet d (rw slots at g),
      g.pool,
      g.others,
      (rw slots at g).slots,
    )

IsBlock : Sym → Type 0
IsBlock s = (s ≡ Sym.block1) ⊎ (s ≡ Sym.block2)

block_type : (s : Sym) → IsBlock s → sym2type s ≡ OptType.uint
unfolding IsBlock sym2type
block_type s (inl e) = rw e
block_type s (inr e) = rw e

-- The test by which the code refuses a symbol that is not a block option.
not_block : Sym → Bool
not_block s = not (rank s == rank Sym.block1) && not (rank s == rank Sym.block2)

not_block-IsBlock : (s : Sym) → IsBlock s → not_block s ≡ false
unfolding not_block IsBlock rank
not_block-IsBlock s (inl e) = rw e
not_block-IsBlock s (inr e) = rw e

abbrev block_value : ℕ → Bool → ℕ → ℕ
block_value num more szx = szx + (if more then 1 else 0) * 2 ^ 3 + num * 2 ^ 4

block_parts :
    (num : ℕ) (more : Bool) (szx : ℕ)
    → num ≤ 0xfffff
    → szx ≤ 7
    → (block_value num more szx ≤ 0xffffff)
      × (block_value num more szx / 2 ^ 4 ≡ num)
      × (not (block_value num more szx / 2 ^ 3 % 2 == 0) ≡ more)
      × (block_value num more szx % 2 ^ 3 ≡ szx)
block_parts num true szx h k = ground arith
block_parts num false szx h k = ground arith

-- On a pool with a free slot and no option yet of the block symbol, ec_opts_add_block stores any
-- block number of 20 bits, more flag and size exponent that may be sent (0 to 6, since 7 is reserved),
-- and ec_opts_get_block returns exactly those three.
pub opts_get_block-opts_add_block :
    (le : Bool) (opts : Opts) (which : Sym) (num : ℕ) (more : Bool) (szx : ℕ)
    → IsPool opts
    → opts.noptions < proto_max_options
    → (which ≡ Sym.block1) ⊎ (which ≡ Sym.block2)
    → occurrences which opts.bundle ≡ []
    → num ≤ 0xfffff
    → szx ≤ 6
    → (opts' : Opts) × (opts_add_block le opts which num more szx ≡ ok opts')
      × (opts_get_block le opts'.bundle which ≡ some (num, more, szx))
unfolding opts_add_block opts_get_block not_block IsBlock Option.bind
opts_get_block-opts_add_block le opts which num more szx p free w none_yet hn hs =
    let hs7 : szx ≤ 7 = omega (arith, hs) in
    let (fits, en, em, es) = block_parts num more szx hn hs7 in
    let (opts', e, g, _, _, _) =
      opts_get_uint-opts_add_uint le opts which (block_value num more szx) p free
        (block_type which w) none_yet (omega arith) in
    (
      opts',
      rw (not_block-IsBlock which w, le→ltb _ _ hn, le→ltb _ _ hs7) e,
      rw (not_block-IsBlock which w, g, le→ltb _ _ fits, en, em, es),
    )
