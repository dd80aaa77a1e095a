-- ===== src/Enums/Codes.antt =====
-- The tables of names cover their enums; a mask tells the methods apart.
use Prim.Native.String.{String}
use Prim.Native.Nat.{bit_and}
use webthings.Common.{
  ℕ, zero, suc, ◌<◌, ◌≡◌, refl, List, [], ◌∷◌, Option, none, some, arith, true, false, not, ltb,
  ◌==◌, Bool, Bool-cases, inl, inr, length, get_elem?,
}
use webthings.Enums.{
  Method, is_method, method_to_mask, method_num, cli_state_str, srv_state_str, g_client_states,
  g_server_states,
}

get_elem?-total {ℓ} :
    {A : Type ℓ} (xs : List A) (i : ℕ) → i < length xs → (x : A) × (get_elem? xs i ≡ some x)
get_elem?-total [] i h = absurd (omega arith)
get_elem?-total (x ∷ xs) zero h = (x, refl)
get_elem?-total (x ∷ xs) (suc i) h = get_elem?-total xs i (omega arith)

cli_state_str-total : (s : ℕ) → (name : String) × (cli_state_str s ≡ some name)
unfolding cli_state_str
cli_state_str-total s = elim (Bool-cases (ltb 13 s)) [
  | inl e ↦ ("unknown state", rw e)
  | inr e ↦ rw e (get_elem?-total g_client_states s (ground arith))
]

srv_state_str-total : (s : ℕ) → (name : String) × (srv_state_str s ≡ some name)
unfolding srv_state_str
srv_state_str-total s = elim (Bool-cases (ltb 10 s)) [
  | inl e ↦ ("unknown state", rw e)
  | inr e ↦ rw e (get_elem?-total g_server_states s (ground arith))
]

-- Every number has a name as the state of a client and of a server transaction: the lookups of
-- ec_cli_state_str and ec_srv_state_str stay within their tables.
pub state_str-total :
    (s : ℕ)
    → ((name : String) × (cli_state_str s ≡ some name))
      × ((name : String) × (srv_state_str s ≡ some name))
state_str-total s = (cli_state_str-total s, srv_state_str-total s)

-- Whether the masks of two methods share a bit.
abbrev pub share_bit : Option ℕ → Option ℕ → Bool
share_bit none b = false
share_bit (some a) none = false
share_bit (some a) (some b) = not (bit_and a b == 0)

-- The masks that ec_method_to_mask gives to two methods share a bit exactly if they are the same
-- method, so that a bitfield of masks stands for a set of methods.
pub method_to_mask_lem :
    (m n : Method)
    → is_method m ≡ true
    → is_method n ≡ true
    → share_bit (method_to_mask m) (method_to_mask n) ≡ (method_num m == method_num n)
unfolding method_to_mask
method_to_mask_lem Method.unset Method.unset h k = cc
method_to_mask_lem _ _ h k = ground arith
