-- ===== src/Opt/Pool/Segments.antt =====
-- What each segment of ec_opts_add_raw of evcoap_opt.c does to the pool.
use mathlib.Core.List.{append_assoc, append-nil}
use webthings.Common.{
  ℕ, zero, suc, ◌+◌, ◌*◌, ◌/◌, ◌%◌, ◌≤◌, ◌<◌, ◌≡◌, ◌≢◌, refl, sym, ap, subst, ◌∙◌, Bytes, List, [],
  ◌∷◌, ◌++◌, none, some, arith, length, take, drop, ok, Bool, true, false, Bool-cases, inl, inr,
  ◌==◌, if◌then◌else◌, ==_refl, length-append, take_all, subst₂, length-drop, take_add,
}
use webthings.Opt.{
  value_of, Sym, OptType, Opt, Opts, rank, sym2type, proto_max_options, opt_len_max,
}
use webthings.Opt.Pool.{
  insert_opt, opt_new, opts_push, opts_add, add_segments, has_remainder, add_remainder,
}
use webthings.Opt.Pool.Order.{IsPool, insert_opt-SortedFrom}
use webthings.Opt.Pool.Occur.{occurrences, occurrences-insert_opt}

-- The values of a list of options, one after the other.
unfoldable pub joined : List Opt → Bytes
joined [] = []
joined (o ∷ rest) = value_of o ++ joined rest

joined-append : (xs : List Opt) (o : Opt) → joined (xs ++ (o ∷ [])) ≡ joined xs ++ value_of o
unfolding joined
joined-append [] o = append-nil (value_of o)
joined-append (x ∷ xs) o =
    rw (joined-append xs o) (sym (append_assoc (value_of x) (joined xs) (value_of o)))

-- The types whose options hold bytes.
abbrev pub carries : OptType → Bool
carries OptType.uint = true
carries OptType.string = true
carries OptType.opaque = true
carries OptType.invalid = false
carries OptType.empty = false

-- `opts'` is `opts` with `n` more options of the symbol, whose values are `b` in all.
pub record Grown (opts opts' : Opts) (s : Sym) (b : Bytes) (n : ℕ) : Type 0 where
  pub pool : IsPool opts'
  pub slots : opts'.noptions ≡ opts.noptions + n
  pub values : joined (occurrences s opts'.bundle) ≡ joined (occurrences s opts.bundle) ++ b
  pub count : length (occurrences s opts'.bundle) ≡ length (occurrences s opts.bundle) + n
  pub others : (r : Sym) → rank s ≢ rank r → occurrences r opts'.bundle ≡ occurrences r opts.bundle

pub Grown-trans :
    (opts opts' opts'' : Opts) (s : Sym) (b c : Bytes) (m n : ℕ)
    → Grown opts opts' s b m
    → Grown opts' opts'' s c n
    → Grown opts opts'' s (b ++ c) (m + n)
Grown-trans opts opts' opts'' s b c m n g h = record {
  pool = h.pool;
  slots = omega (arith, g.slots, h.slots);
  count = omega (arith, g.count, h.count);
  values = h.values ∙ ap (λ t. t ++ c) g.values ∙ append_assoc _ b c;
  others = λ r e. h.others r e ∙ g.others r e;
}

Grown-refl : (opts : Opts) (s : Sym) → IsPool opts → Grown opts opts s [] 0
Grown-refl opts s p = record {
  pool = p;
  slots = omega arith;
  count = omega arith;
  values = sym (append-nil _);
  others = λ r e. refl;
}

pub take_terminated : (l : ℕ) (v w : Bytes) → l ≤ length v → take l (take l v ++ w) ≡ take l v
take_terminated zero v w h = refl
take_terminated (suc l) [] w h = absurd (omega arith)
take_terminated (suc l) (x ∷ v) w h = ap (◌∷◌ x) (take_terminated l v w (omega arith))

-- The option that ec_opt_new makes, by type.
unfoldable pub new_of_type : Sym → OptType → ℕ → Bytes → Opt
new_of_type s OptType.uint zero v = record { sym = s; t = OptType.uint; l = 0; v = none }
new_of_type s OptType.string l v = record {
  sym = s;
  t = OptType.string;
  l = l;
  v = some (take l v ++ (0 ∷ []));
}
new_of_type s t l v = record { sym = s; t = t; l = l; v = some (take l v ++ []) }

pub value_of-new_of_type :
    (s : Sym) (t : OptType) (l : ℕ) (v : Bytes)
    → l ≤ length v
    → (value_of (new_of_type s t l v) ≡ take l v) × ((new_of_type s t l v).sym ≡ s)
unfolding new_of_type
value_of-new_of_type s OptType.uint zero v h = (refl, refl)
value_of-new_of_type s OptType.uint (suc l) v h = (take_terminated (suc l) v [] h, refl)
value_of-new_of_type s OptType.string l v h = (take_terminated l v _ h, refl)
value_of-new_of_type s OptType.opaque l v h = (take_terminated l v [] h, refl)
value_of-new_of_type s OptType.invalid l v h = (take_terminated l v [] h, refl)
value_of-new_of_type s OptType.empty l v h = (take_terminated l v [] h, refl)

pub opt_new-new_of_type :
    (s : Sym) (t : OptType) (l : ℕ) (v : Bytes)
    → sym2type s ≡ t
    → carries t ≡ true
    → l ≤ opt_len_max
    → l ≤ length v
    → opt_new s l v ≡ ok (new_of_type s t l v)
unfolding opt_new new_of_type
opt_new-new_of_type s OptType.uint zero v e c h k = rw (e, opt_new) (ground arith)
opt_new-new_of_type s OptType.uint (suc l) v e c h k = rw (e, opt_new) (ground arith)
opt_new-new_of_type s OptType.string l v e c h k = rw (e, opt_new) (ground arith)
opt_new-new_of_type s OptType.opaque l v e c h k = rw (e, opt_new) (ground arith)
opt_new-new_of_type s OptType.invalid l v e c h k = cc
opt_new-new_of_type s OptType.empty l v e c h k = cc

opts_push-Grown :
    (opts : Opts) (o : Opt)
    → IsPool opts
    → opts.noptions < proto_max_options
    → (opts' : Opts) × (opts_push opts o ≡ ok opts') × Grown opts opts' o.sym (value_of o) 1
unfolding opts_push
opts_push-Grown opts o p h = (
  record opts { noptions = opts.noptions + 1; bundle = insert_opt o opts.bundle },
  ground arith,
  record {
    pool = ground (arith, insert_opt-SortedFrom o opts.bundle p.sorted);
    slots = refl;
    count =
        rw (occurrences-insert_opt o.sym o opts.bundle p.sorted, ==_refl (rank o.sym))
          (length-append (occurrences o.sym opts.bundle) (o ∷ []));
    values =
        rw (occurrences-insert_opt o.sym o opts.bundle p.sorted, ==_refl (rank o.sym))
          (joined-append _ o);
    others = λ r e. ground (arith, occurrences-insert_opt r o opts.bundle p.sorted);
  },
)

-- A slot that is free takes the value.
opts_add-Grown :
    (opts : Opts) (s : Sym) (v : Bytes) (l : ℕ)
    → IsPool opts
    → opts.noptions < proto_max_options
    → carries (sym2type s) ≡ true
    → l ≤ opt_len_max
    → l ≤ length v
    → (opts' : Opts) × (opts_add opts s v l ≡ ok opts') × Grown opts opts' s (take l v) 1
unfolding opts_add
opts_add-Grown opts s v l p h c hl hv =
    let o = new_of_type s (sym2type s) l v in
    let (e, es) = value_of-new_of_type s (sym2type s) l v hv in
    let (opts', e', g) = opts_push-Grown opts o p h in
    (
      opts',
      rw (opt_new-new_of_type s (sym2type s) l v refl c hl hv, opts_add) e',
      subst (λ b. Grown opts opts' s b 1) e (subst (λ r. Grown opts opts' r (value_of o) 1) es g),
    )

take_segment :
    (n : ℕ) (v : Bytes)
    → take (suc n * opt_len_max) v
      ≡ take opt_len_max v ++ take (n * opt_len_max) (drop opt_len_max v)
take_segment n v =
    let e : suc n * opt_len_max ≡ opt_len_max + n * opt_len_max = omega arith in
    rw e (take_add opt_len_max (n * opt_len_max) v)

pub add_segments-Grown :
    (n : ℕ) (opts : Opts) (s : Sym) (v : Bytes)
    → IsPool opts
    → opts.noptions + n ≤ proto_max_options
    → carries (sym2type s) ≡ true
    → n * opt_len_max ≤ length v
    → (opts' : Opts) × (add_segments n opts s v ≡ ok opts')
      × Grown opts opts' s (take (n * opt_len_max) v) n
unfolding add_segments
add_segments-Grown zero opts s v p h c hv = (opts, refl, Grown-refl opts s p)
add_segments-Grown (suc n) opts s v p h c hv =
    let (opts', e, g) =
      opts_add-Grown opts s v opt_len_max p (omega arith) c (omega arith) (omega arith) in
    let (opts'', e', g') =
      add_segments-Grown n opts' s (drop opt_len_max v) g.pool (omega (arith, g.slots)) c
        (omega (arith, length-drop opt_len_max v)) in
    (
      opts'',
      rw (e, add_segments) e',
      subst₂ (λ b k. Grown opts opts'' s b k) (sym (take_segment n v)) (omega arith)
          (Grown-trans opts opts' opts'' s _ _ 1 n g g'),
    )

last_size : (l : ℕ) → (if l == 0 then 0 else l % opt_len_max) ≡ l % opt_len_max
last_size l = ground arith

no_remainder : (l : ℕ) → has_remainder l ≡ false → l % opt_len_max ≡ 0
no_remainder l h = ground arith

add_one-le : (b : Bool) (n m : ℕ) → b ≡ true → n + (if b then 1 else 0) ≤ m → n < m
add_one-le b n m e h = ground arith

pub add_remainder-Grown :
    (opts : Opts) (s : Sym) (v : Bytes) (l : ℕ)
    → IsPool opts
    → opts.noptions + (if has_remainder l then 1 else 0) ≤ proto_max_options
    → carries (sym2type s) ≡ true
    → l ≤ length v
    → (opts' : Opts) × (add_remainder l s v opts ≡ ok opts')
      × Grown opts opts' s
          (take (l % opt_len_max) (drop (l / opt_len_max * opt_len_max) v))
          (if has_remainder l then 1 else 0)
unfolding add_remainder
add_remainder-Grown opts s v l p h c hv = elim (Bool-cases (has_remainder l)) [
  | inl e ↦
      rw (e, last_size l)
        (opts_add-Grown opts s (drop (l / opt_len_max * opt_len_max) v) (l % opt_len_max) p
          (add_one-le _ _ _ e h) c (omega arith)
          (omega (arith, length-drop (l / opt_len_max * opt_len_max) v)))
  | inr e ↦ rw (e, no_remainder l e) (opts, refl, Grown-refl opts s p)
]

pub take_whole :
    (v : Bytes)
    → take (length v / opt_len_max * opt_len_max) v
        ++ take (length v % opt_len_max) (drop (length v / opt_len_max * opt_len_max) v)
      ≡ v
take_whole v =
    let e : length v / opt_len_max * opt_len_max + length v % opt_len_max ≡ length v =
      omega arith in
    sym (take_add (length v / opt_len_max * opt_len_max) (length v % opt_len_max) v)
    ∙ rw e (take_all v)
