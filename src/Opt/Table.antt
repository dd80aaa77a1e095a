-- ===== src/Opt/Table.antt =====
-- ec_opt_num2sym, the search through g_opts, and what ties the table's columns together.
use webthings.Common.{
  ℕ, ◌*◌, ◌-◌, ◌≤◌, ◌≡◌, ◌≢◌, refl, List, [], ◌∷◌, true, arith, ◌==◌, leb, if◌then◌else◌,
}
use webthings.Opt.{Sym, rank, sym_valid, sym2num}

-- The rows of g_opts, by symbol.
abbrev g_opts : List Sym
g_opts =
    Sym.opt_none ∷ Sym.content_type ∷ Sym.max_age ∷ Sym.proxy_uri ∷ Sym.etag ∷ Sym.uri_host
    ∷ Sym.location_path ∷ Sym.uri_port ∷ Sym.location_query ∷ Sym.uri_path ∷ Sym.observe ∷ Sym.token
    ∷ Sym.accept ∷ Sym.if_match ∷ Sym.uri_query ∷ Sym.block2 ∷ Sym.block1 ∷ Sym.if_none_match
    ∷ Sym.publish ∷ []

-- The loop: the first row with that number, or EC_OPT_NONE.
num2sym_loop : ℕ → List Sym → Sym
num2sym_loop num [] = Sym.opt_none
num2sym_loop num (s ∷ rest) = if num == sym2num s then s else num2sym_loop num rest

unfoldable pub num2sym : ℕ → Sym
unfolding num2sym_loop sym2num
num2sym num = num2sym_loop num g_opts

-- A valid symbol is found again by its number.
pub num2sym-sym2num : (s : Sym) → sym_valid s ≡ true → num2sym (sym2num s) ≡ s
unfolding num2sym rank
num2sym-sym2num Sym.opt_none h = refl
num2sym-sym2num Sym.opt_max h = cc
num2sym-sym2num _ h = refl

-- The number column as a function of the row.
number_of_row : ℕ → ℕ
number_of_row r = if leb r 13 then r else 2 * r - 13

sym2num-row : (s : Sym) → sym_valid s ≡ true → sym2num s ≡ number_of_row (rank s)
unfolding sym2num number_of_row rank
sym2num-row Sym.opt_none h = refl
sym2num-row Sym.opt_max h = cc
sym2num-row _ h = refl

-- Symbols and numbers are in the same order, so a pool sorted by symbol is sorted by number.
pub sym2num_mono :
    (a b : Sym) → sym_valid a ≡ true → sym_valid b ≡ true → rank a ≤ rank b → sym2num a ≤ sym2num b
unfolding number_of_row
sym2num_mono a b ha hb h = ground (arith, sym2num-row a, sym2num-row b)

-- A valid number is between 1 and 23, and is no fencepost.
pub sym2num_bounds :
    (s : Sym) → sym_valid s ≡ true → (1 ≤ sym2num s) × (sym2num s ≤ 23) × (sym2num s ≢ 14)
unfolding number_of_row
sym2num_bounds s h = ground (arith, sym2num-row s)
