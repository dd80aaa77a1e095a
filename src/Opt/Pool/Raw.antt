-- ===== src/Opt/Pool/Raw.antt =====
-- How ec_opts_add_raw spreads a value over the slots of the pool.

use webthings.Common.{
  ℕ, zero, suc, ◌+◌, ◌/◌, ◌≤◌, ◌<◌, ◌≡◌, refl, subst, Bytes, arith, length, ok, err, true,
  Bool-cases, inl, inr, ltb, ◌>>=◌, le→ltb, lt→ltb, ◌⊎◌,
}
use webthings.Opt.{Sym, OptType, Opts, sym2type, proto_max_options, opt_len_max}
use webthings.Opt.Pool.{
  opt_new, opts_add, add_segments, opts_add_raw, has_remainder, add_remainder, to_be_used_opts,
}
use webthings.Opt.Pool.Order.{IsPool}
use webthings.Opt.Pool.Segments.{
  carries, Grown, Grown-trans, add_segments-Grown, add_remainder-Grown, take_whole,
}

-- On a pool with enough slots left, ec_opts_add_raw of a symbol whose type carries a value succeeds
-- for any value: the bytes of its fragments, joined, are appended to those of the symbol, it takes
-- one slot for each 270 bytes begun (one for the empty value), and leaves all other symbols alone.
pub opts_add_raw-Grown :
    (opts : Opts) (s : Sym) (v : Bytes)
    → IsPool opts
    → opts.noptions + to_be_used_opts (length v) ≤ proto_max_options
    → carries (sym2type s) ≡ true
    → (opts' : Opts) × (opts_add_raw opts s v (length v) ≡ ok opts')
      × Grown opts opts' s v (to_be_used_opts (length v))
unfolding opts_add_raw
opts_add_raw-Grown opts s v p h c =
    let (opts', e, g) =
      add_segments-Grown (length v / opt_len_max) opts s v p (omega arith) c (omega arith) in
    let (opts'', e', g') =
      add_remainder-Grown opts' s v (length v) g.pool (omega (arith, g.slots)) c (omega arith) in
    (
      opts'',
      rw (le→ltb _ _ h, e) e',
      subst (λ b. Grown opts opts'' s b (to_be_used_opts (length v))) (take_whole v)
          (Grown-trans opts opts' opts'' s _ _ _ _ g g'),
    )

opts_add_invalid :
    (opts : Opts) (s : Sym) (v : Bytes) (l : ℕ)
    → sym2type s ≡ OptType.invalid
    → opts_add opts s v l ≡ err opts
unfolding opts_add opt_new
opts_add_invalid opts s v l e = elim (Bool-cases (ltb opt_len_max l)) [
  | inl h ↦ rw (h, opts_add)
  | inr h ↦ rw (h, e, opts_add)
]

segments_invalid :
    (n : ℕ) (opts : Opts) (s : Sym) (v : Bytes) (l : ℕ)
    → sym2type s ≡ OptType.invalid
    → n ≡ l / opt_len_max
    → (add_segments n opts s v >>= add_remainder l s v) ≡ err opts
unfolding add_segments add_remainder
segments_invalid zero opts s v l e h = rw (short_remainder l h) (opts_add_invalid opts s _ _ e)
  where
    short_remainder : (l : ℕ) → 0 ≡ l / opt_len_max → has_remainder l ≡ true
    short_remainder l h = ground arith
segments_invalid (suc n) opts s v l e h = rw (opts_add_invalid opts s v opt_len_max e)

-- ec_opts_add_raw returns -1 and leaves the pool as it was, where the fragments do not fit the 15
-- slots, and where the symbol is invalid.
pub opts_add_raw_refused :
    (opts : Opts) (s : Sym) (v : Bytes) (l : ℕ)
    → (proto_max_options < opts.noptions + to_be_used_opts l) ⊎ (sym2type s ≡ OptType.invalid)
    → opts_add_raw opts s v l ≡ err opts
unfolding opts_add_raw
opts_add_raw_refused opts s v l (inl h) = rw (lt→ltb _ _ h)
opts_add_raw_refused opts s v l (inr e) =
    elim (Bool-cases (ltb proto_max_options (opts.noptions + to_be_used_opts l))) [
      | inl h ↦ rw h
      | inr h ↦ rw h (segments_invalid (l / opt_len_max) opts s v l e refl)
    ]
