-- ===== src/Opt/Pool/Order.antt =====
-- The pool stays sorted by symbol, counted and bounded.
use webthings.Common.{
  ℕ, zero, suc, ◌+◌, ◌/◌, ◌≤◌, ◌≡◌, Bytes, List, [], ◌∷◌, Option, none, some, arith, length, drop,
  Result, ok, err, fault, Bool-cases, inl, inr, ltb, ◌>>=◌,
}
use webthings.Opt.{Sym, Opt, Opts, rank, opts_init, proto_max_options, opt_len_max}
use webthings.Opt.Pool.{
  insert_after, insert_opt, opt_new, opts_push, opts_add, add_segments, opts_add_raw, has_remainder,
  add_remainder, to_be_used_opts,
}

-- Every option has a symbol of at least `n`, and the symbols do not fall along the list.
abbrev pub SortedFrom : ℕ → List Opt → Type 0
SortedFrom n [] = Unit {0}
SortedFrom n (o ∷ rest) = (n ≤ rank o.sym) × SortedFrom (rank o.sym) rest

pub record IsPool (opts : Opts) : Type 0 where
  pub sorted : SortedFrom 0 opts.bundle
  pub counted : opts.noptions ≡ length opts.bundle
  pub bounded : opts.noptions ≤ proto_max_options

pub SortedFrom-mono : (m n : ℕ) (xs : List Opt) → m ≤ n → SortedFrom n xs → SortedFrom m xs
SortedFrom-mono m n [] h s = tt
SortedFrom-mono m n (x ∷ xs) h s = (omega arith, s.1)

-- Where nothing is found the option is below the whole list; else the list found is sorted.
abbrev pub AfterCase : ℕ → Opt → List Opt → Option (List Opt) → Type 0
AfterCase n o xs none = SortedFrom (suc (rank o.sym)) xs
AfterCase n o xs (some ys) = SortedFrom n ys × (length ys ≡ length xs + 1)

pub insert_after-AfterCase :
    (n : ℕ) (o : Opt) (xs : List Opt) → SortedFrom n xs → AfterCase n o xs (insert_after o xs)
unfolding insert_after
insert_after-AfterCase n o [] s = tt
insert_after-AfterCase n o (x ∷ xs) s = ground (
  arith,
  insert_after-AfterCase (rank x.sym) o xs s.1,
  SortedFrom-mono (rank o.sym) (suc (rank o.sym)) xs,
)

pub insert_opt-SortedFrom :
    (o : Opt) (xs : List Opt)
    → SortedFrom 0 xs
    → SortedFrom 0 (insert_opt o xs) × (length (insert_opt o xs) ≡ length xs + 1)
unfolding insert_opt
insert_opt-SortedFrom o [] s = ground arith
insert_opt-SortedFrom o (x ∷ xs) s = ground (arith, insert_after-AfterCase 0 o (x ∷ xs) s)

-- What holds of the state that an operation leaves, whether it succeeds or not.
abbrev pub Leaves {ℓ} : (Opts → Type ℓ) → Result Opts Opts → Type ℓ
Leaves P (ok opts) = P opts
Leaves P (err opts) = P opts
Leaves P fault = Unit

Leaves-bind :
    (P : Opts → Type 0) (r : Result Opts Opts) (f : Opts → Result Opts Opts)
    → Leaves P r
    → ((opts : Opts) → P opts → Leaves P (f opts))
    → Leaves P (r >>= f)
Leaves-bind P (ok opts) f h k = k opts h
Leaves-bind P (err opts) f h k = h
Leaves-bind P fault f h k = tt

pub opts_init-IsPool : IsPool opts_init
unfolding opts_init
opts_init-IsPool = omega arith

opts_push-IsPool : (opts : Opts) (o : Opt) → IsPool opts → Leaves IsPool (opts_push opts o)
unfolding opts_push
opts_push-IsPool opts o p = ground (arith, insert_opt-SortedFrom o opts.bundle p.sorted)

pub opts_add-IsPool :
    (opts : Opts) (sym : Sym) (v : Bytes) (l : ℕ)
    → IsPool opts
    → Leaves IsPool (opts_add opts sym v l)
unfolding opts_add
opts_add-IsPool opts sym v l p =
    elim (opt_new sym l v)
      as (λ r.
        Leaves IsPool (elim r [ ok o ↦ opts_push opts o | err _ ↦ err opts | fault ↦ fault ])) [
          | ok o ↦ opts_push-IsPool opts o p
          | err _ ↦ p
          | fault ↦ tt
        ]

add_segments-IsPool :
    (n : ℕ) (opts : Opts) (sym : Sym) (v : Bytes)
    → IsPool opts
    → Leaves IsPool (add_segments n opts sym v)
unfolding add_segments
add_segments-IsPool zero opts sym v p = p
add_segments-IsPool (suc n) opts sym v p =
    Leaves-bind IsPool (opts_add opts sym v opt_len_max) _
      (opts_add-IsPool opts sym v opt_len_max p)
      (λ opts' p'. add_segments-IsPool n opts' sym (drop opt_len_max v) p')

add_remainder-IsPool :
    (l : ℕ) (sym : Sym) (v : Bytes) (opts : Opts)
    → IsPool opts
    → Leaves IsPool (add_remainder l sym v opts)
unfolding add_remainder
add_remainder-IsPool l sym v opts p = elim (Bool-cases (has_remainder l)) [
  | inl e ↦ rw e (opts_add-IsPool opts sym _ _ p)
  | inr e ↦ rw e p
]

-- ec_opts_add_raw keeps the pool sorted by symbol, counted and within 15 options, whether it succeeds
-- or fails.
pub opts_add_raw-IsPool :
    (opts : Opts) (sym : Sym) (v : Bytes) (l : ℕ)
    → IsPool opts
    → Leaves IsPool (opts_add_raw opts sym v l)
unfolding opts_add_raw
opts_add_raw-IsPool opts sym v l p =
    elim (Bool-cases (ltb proto_max_options (opts.noptions + to_be_used_opts l))) [
      | inl e ↦ rw e p
      | inr e ↦ rw e (
          Leaves-bind IsPool (add_segments (l / opt_len_max) opts sym v) _
            (add_segments-IsPool _ opts sym v p) (add_remainder-IsPool l sym v))
    ]
