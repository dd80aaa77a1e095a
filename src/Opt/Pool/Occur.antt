-- ===== src/Opt/Pool/Occur.antt =====
-- What an insertion does to the occurrences of each symbol, and how ec_opts_add_raw spreads a value.
use webthings.Common.{
  ℕ, suc, ◌<◌, ◌≡◌, refl, List, [], ◌∷◌, ◌++◌, Option, none, some, arith, ◌==◌, if◌then◌else◌,
}
use webthings.Opt.{Sym, Opt, rank}
use webthings.Opt.Pool.{insert_after, insert_opt}
use webthings.Opt.Pool.Order.{SortedFrom, insert_after-AfterCase}

-- The options with a symbol, in the order of the pool.
unfoldable pub occurrences : Sym → List Opt → List Opt
occurrences sym [] = []
occurrences sym (o ∷ rest) =
    if rank o.sym == rank sym then o ∷ occurrences sym rest else occurrences sym rest

occurrences_above :
    (sym : Sym) (n : ℕ) (xs : List Opt) → SortedFrom n xs → rank sym < n → occurrences sym xs ≡ []
unfolding occurrences
occurrences_above sym n [] s h = refl
occurrences_above sym n (x ∷ xs) s h = ground (arith, occurrences_above sym (rank x.sym) xs s.1)

-- The occurrences of `sym` once `o` is put behind those of its own symbol.
abbrev pub added : Sym → Opt → List Opt → List Opt
added sym o xs = if rank o.sym == rank sym then xs ++ (o ∷ []) else xs

abbrev AfterOccur : Sym → Opt → List Opt → Option (List Opt) → Type 0
AfterOccur sym o xs none = Unit
AfterOccur sym o xs (some ys) = occurrences sym ys ≡ added sym o (occurrences sym xs)

insert_after-AfterOccur :
    (sym : Sym) (n : ℕ) (o : Opt) (xs : List Opt)
    → SortedFrom n xs
    → AfterOccur sym o xs (insert_after o xs)
unfolding insert_after occurrences
insert_after-AfterOccur sym n o [] s = tt
insert_after-AfterOccur sym n o (x ∷ xs) s = ground (
  arith,
  insert_after-AfterOccur sym (rank x.sym) o xs s.1,
  insert_after-AfterCase (rank x.sym) o xs s.1,
  occurrences_above sym (suc (rank o.sym)) xs,
)

-- An insertion puts the option behind those of its symbol, and leaves the other symbols alone.
pub occurrences-insert_opt :
    (sym : Sym) (o : Opt) (xs : List Opt)
    → SortedFrom 0 xs
    → occurrences sym (insert_opt o xs) ≡ added sym o (occurrences sym xs)
unfolding insert_opt occurrences
occurrences-insert_opt sym o [] s = ground arith
occurrences-insert_opt sym o (x ∷ xs) s = ground (
  arith,
  insert_after-AfterOccur sym 0 o (x ∷ xs) s,
  insert_after-AfterCase 0 o (x ∷ xs) s,
  occurrences_above sym (suc (rank o.sym)) (x ∷ xs),
)
