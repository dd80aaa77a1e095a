-- ===== src/Tests/Texts.antt =====
-- Byte strings as keys, and a libu that keeps its promises.
use webthings.Common.{
  ℕ, ◌≡◌, ◌≢◌, refl, ap, sym, ◌∙◌, Bytes, [], ◌∷◌, ◌++◌, Option, none, some, true, ◌+◌, ◌&&◌, ltb,
  length, if◌then◌else◌, arith, Bool-cases, inl, inr,
}
use webthings.Dups.{HMap}
use webthings.Resource.{same_bytes}
use webthings.Resource.Link.{Text}
use webthings.Filesys.WellKnown.{IsStrlcat}
use webthings.Api.Registry.Distinct.{IsEquivalence}
use webthings.Kache.Hits.{IsCacheMap}

same_bytes_refl : (a : Bytes) → same_bytes a a ≡ true
unfolding same_bytes
same_bytes_refl [] = refl
same_bytes_refl (x ∷ xs) = ground (arith, same_bytes_refl xs)

same_bytes→eq : (a b : Bytes) → same_bytes a b ≡ true → a ≡ b
unfolding same_bytes
same_bytes→eq [] [] h = refl
same_bytes→eq [] (y ∷ ys) h = cc
same_bytes→eq (x ∷ xs) [] h = cc
same_bytes→eq (x ∷ xs) (y ∷ ys) h = ground (arith, same_bytes→eq xs ys)

same_bytes_comm : (a b : Bytes) → same_bytes a b ≡ same_bytes b a
unfolding same_bytes
same_bytes_comm [] [] = refl
same_bytes_comm [] (y ∷ ys) = refl
same_bytes_comm (x ∷ xs) [] = refl
same_bytes_comm (x ∷ xs) (y ∷ ys) = ground (arith, same_bytes_comm xs ys)

pub same_bytes-IsEquivalence : IsEquivalence same_bytes
same_bytes-IsEquivalence = record {
  reflexive = same_bytes_refl;
  symmetric = same_bytes_comm;
  congruent = λ a b c h. ap (λ t. same_bytes t c) (same_bytes→eq a b h);
}

-- A map given by its lookup function.
abbrev pub ByText : Type 0 → Type 0
ByText V = Bytes → Option V

abbrev put_text : {V : Type 0} → ByText V → Bytes → Option V → ByText V
put_text m k v j = if same_bytes j k then v else m j

abbrev del_text : {V : Type 0} → ByText V → Bytes → Option V → Option (ByText V)
del_text m k none = none
del_text m k (some v) = some (put_text m k none)

abbrev pub by_text : {V : Type 0} → HMap (ByText V) Bytes V
by_text = record {
  get = λ m k. m k;
  put = λ m k v. some (put_text m k (some v));
  del = λ m k. del_text m k (m k);
}

put_text-other :
    (m : ByText ℕ) (k j : Bytes) (v : ℕ) → j ≢ k → m j ≡ none → put_text m k (some v) j ≡ none
put_text-other m k j v n h = elim (Bool-cases (same_bytes j k)) [
  | inl e ↦ absurd (n (same_bytes→eq j k e))
  | inr e ↦ rw e h
]

abbrev at_text : Bytes → Option (ByText ℕ) → Option ℕ
at_text j none = none
at_text j (some m) = m j

del_text-other :
    (m m' : ByText ℕ) (k j : Bytes) (o : Option ℕ)
    → del_text m k o ≡ some m'
    → m j ≡ none
    → m' j ≡ none
del_text-other m m' k j none e h = cc
del_text-other m m' k j (some v) e h =
    sym (ap (at_text j) e) ∙ elim (Bool-cases (same_bytes j k)) [ inl b ↦ rw b | inr b ↦ rw b h ]

pub by_text-IsCacheMap : IsCacheMap (by_text {V = ℕ})
by_text-IsCacheMap = record {
  put_other = λ m m' k v e j n h. sym (ap (at_text j) e) ∙ put_text-other m k j v n h;
  del_other = λ m m' k e j h. del_text-other m m' k j (m k) e h;
}

-- No conversion, no query of more than one parameter, and room for what fits.
abbrev pub libu : Text
libu = record {
  same = same_bytes;
  strtok = λ q. some (q ∷ []);
  strlcpy = λ s n. if ltb (length s) n then some s else none;
  strlcat = λ d s n. if ltb (length d + length s) n then some (d ++ s) else none;
  snprintf = λ k n. if ltb k 10 && ltb 1 n then some ((k + b'0') ∷ []) else none;
}

pub libu-IsStrlcat : IsStrlcat libu
libu-IsStrlcat = record { appends = λ d s n. refl }
