-- ===== src/Common.antt =====
-- The names that the other modules share: the libraries', passed on, and those of the children.
mod Tests
mod Lists
pub use Tests.*
pub use Lists.*
pub use Prim.Native.Nat.{ℕ, zero, suc, ◌+◌, ◌-◌, ◌*◌, ◌/◌, ◌%◌, ◌^◌, ◌≤◌, ◌<◌}
pub use mathlib.Core.Path.{◌≡◌, refl, sym, ap, subst, subst₂, ◌∙◌}
pub use mathlib.Core.Logic.{◌≢◌, ◌↔◌, ◌⊎◌, inl, inr}
pub use mathlib.Core.Bool.{Bool, true, false, not, ◌&&◌, ◌||◌}
pub use mathlib.Core.Option.{Option, none, some}
pub use mathlib.Core.List.{List, [], ◌∷◌, ◌++◌}
pub use native.Mathlib.Omega.{arith}

-- A byte string.
abbrev pub Bytes : Type 0
Bytes = List ℕ

abbrev pub IsByte : ℕ → Type 0
IsByte b = b < 256

-- How an operation ends: `ok` is a return of 0 (or of an object), `err` that of an error code (or
-- of NULL), with the state it leaves where it has one, and `fault` is an access outside of a
-- buffer, which C leaves undefined.
pub data Result {ℓ κ} (E : Type ℓ) (A : Type κ) : Type (ℓ ⊔ κ) where
  ok : A → Result E A
  err : E → Result E A
  fault : Result E A

infixl 5 ◌>>=◌
abbrev pub ◌>>=◌ {ℓ κ} : {E : Type ℓ} {A B : Type κ} → Result E A → (A → Result E B) → Result E B
ok a >>= f = f a
err e >>= f = err e
fault >>= f = fault

-- How a step of a state machine ends: `done` is a return of 0 (or of nothing), `failed` one of -1,
-- both with the state, and `ended` the end of the process, by errx or an invalid access.
pub data Run (S : Type 0) : Type 0 where
  done : S → Run S
  failed : S → Run S
  ended : Run S

-- The next step, where this one did not fail: `dbg_err_if` on the way out.
abbrev pub and_then : {S : Type 0} → Run S → (S → Run S) → Run S
and_then (done s) f = f s
and_then (failed s) f = failed s
and_then ended f = ended

-- The next step in any case: `dbg_if`, which only logs.
abbrev pub and_also : {S : Type 0} → Run S → (S → Run S) → Run S
and_also (done s) f = f s
and_also (failed s) f = f s
and_also ended f = ended

-- What is done instead where a step fails.
abbrev pub or_else : {S : Type 0} → Run S → (S → Run S) → Run S
or_else (done s) f = done s
or_else (failed s) f = f s
or_else ended f = ended
