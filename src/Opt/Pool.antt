-- ===== src/Opt/Pool.antt =====
-- The pool of options of a message: creation, ordered insertion and lookup.
-- evcoap_opt.c, ec_opt_new to ec_opts_add_raw and ec_opts_count_sym to ec_opts_get.
-- An allocation is taken to succeed. The bytes that a pointer gives access to are a list, and a copy
-- of more than it holds is a `fault`.
pub mod Order
pub mod Occur
pub mod Segments
pub mod Raw
use webthings.Common.{
  ℕ, zero, suc, ◌+◌, ◌*◌, ◌/◌, ◌%◌, Bytes, Option, none, some, List, [], ◌∷◌, ◌++◌, Bool, true,
  false, ltb, leb, ◌==◌, ◌||◌, not, if◌then◌else◌, length, take, drop, Result, ok, err, fault,
  ◌>>=◌,
}
use webthings.Opt.{
  Sym, OptType, Opt, Opts, rank, sym2type, opt_len_max, proto_max_options, opts_init,
}

-- `memcpy(o->v, v, o->l)`, with the NUL that is added behind a string.
unfoldable pub copy_value : Sym → OptType → ℕ → Bytes → Bytes → Result (Unit {0}) Opt
copy_value sym t l v terminator =
    if ltb (length v) l
    then fault
    else ok (record { sym = sym; t = t; l = l; v = some (take l v ++ terminator) })

-- ec_opt_new.
unfoldable pub opt_new : Sym → ℕ → Bytes → Result (Unit {0}) Opt
unfolding sym2type copy_value
opt_new sym l v = if ltb opt_len_max l then err tt else elim (sym2type sym) [
  | OptType.invalid ↦ err tt
  | OptType.empty ↦ ok (record { sym = sym; t = OptType.empty; l = l; v = none })
  | OptType.uint ↦
      if l == 0
      then ok (record { sym = sym; t = OptType.uint; l = l; v = none })
      else copy_value sym OptType.uint l v []
  | OptType.string ↦ copy_value sym OptType.string l v (0 ∷ [])
  | OptType.opaque ↦ copy_value sym OptType.opaque l v []
]

-- TAILQ_FOREACH_REVERSE and TAILQ_INSERT_AFTER: behind the last option whose symbol is not greater.
-- `none` where there is no such option.
unfoldable pub insert_after : Opt → List Opt → Option (List Opt)
insert_after o [] = none
insert_after o (tmp ∷ rest) = elim (insert_after o rest) [
  | some rest' ↦ some (tmp ∷ rest')
  | none ↦ if leb (rank tmp.sym) (rank o.sym) then some (tmp ∷ o ∷ rest) else none
]

-- The insertion of ec_opts_push: at the tail of an empty list, after the last that is not greater,
-- or at the head.
unfoldable pub insert_opt : Opt → List Opt → List Opt
unfolding insert_after
insert_opt o [] = o ∷ []
insert_opt o (tmp ∷ rest) = elim (insert_after o (tmp ∷ rest)) [
  | some bundle ↦ bundle
  | none ↦ o ∷ tmp ∷ rest
]

-- ec_opts_push.
unfoldable pub opts_push : Opts → Opt → Result Opts Opts
opts_push opts o =
    if opts.noptions == proto_max_options
    then err opts
    else ok (record opts { noptions = opts.noptions + 1; bundle = insert_opt o opts.bundle })

-- ec_opts_add.
unfoldable pub opts_add : Opts → Sym → Bytes → ℕ → Result Opts Opts
opts_add opts sym v l = elim (opt_new sym l v) [
  | ok o ↦ opts_push opts o
  | err _ ↦ err opts
  | fault ↦ fault
]

-- The loop over the full segments of ec_opts_add_raw.
unfoldable pub add_segments : ℕ → Opts → Sym → Bytes → Result Opts Opts
unfolding opts_add
add_segments zero opts sym v = ok opts
add_segments (suc n) opts sym v =
    opts_add opts sym v opt_len_max >>= λ opts'. add_segments n opts' sym (drop opt_len_max v)

-- Whether a last, partial or empty, segment is needed.
abbrev pub has_remainder : ℕ → Bool
has_remainder l = not (l % opt_len_max == 0) || (l == 0)

abbrev pub to_be_used_opts : ℕ → ℕ
to_be_used_opts l = l / opt_len_max + (if has_remainder l then 1 else 0)

-- The last, partial or empty, segment of ec_opts_add_raw.
unfoldable pub add_remainder : ℕ → Sym → Bytes → Opts → Result Opts Opts
unfolding opts_add
add_remainder l sym v opts =
    if has_remainder l
    then opts_add opts sym (drop (l / opt_len_max * opt_len_max) v)
        (if l == 0 then 0 else l % opt_len_max)
    else ok opts

-- ec_opts_add_raw.
unfoldable pub opts_add_raw : Opts → Sym → Bytes → ℕ → Result Opts Opts
unfolding add_segments add_remainder
opts_add_raw opts sym v l =
    if ltb proto_max_options (opts.noptions + to_be_used_opts l)
    then err opts
    else (add_segments (l / opt_len_max) opts sym v >>= add_remainder l sym v)

-- ec_opts_get_nth.
unfoldable pub opts_get_nth : List Opt → Sym → ℕ → Option Opt
opts_get_nth [] sym n = none
opts_get_nth (o ∷ rest) sym zero =
    if rank o.sym == rank sym then some o else opts_get_nth rest sym 0
opts_get_nth (o ∷ rest) sym (suc n) =
    opts_get_nth rest sym (if rank o.sym == rank sym then n else suc n)

-- ec_opts_get.
unfoldable pub opts_get : List Opt → Sym → Option Opt
unfolding opts_get_nth
opts_get bundle sym = opts_get_nth bundle sym 0

-- ec_opts_count_sym: adds to the count that it is given.
unfoldable pub opts_count_sym : List Opt → Sym → ℕ → ℕ
opts_count_sym [] sym n = n
opts_count_sym (o ∷ rest) sym n =
    opts_count_sym rest sym (if rank o.sym == rank sym then n + 1 else n)

-- ec_opts_clear: every option is taken off and freed, and the object is initialised again.
clear_loop : List Opt → List Opt
clear_loop [] = []
clear_loop (o ∷ rest) = clear_loop rest

unfoldable pub opts_clear : Opts → Opts
unfolding clear_loop opts_init
opts_clear opts = record opts_init { bundle = clear_loop opts.bundle }
