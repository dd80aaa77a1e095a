-- ===== src/Resource/Reps.antt =====
-- Which representation a lookup finds, and what an update leaves (evcoap_resource.c).
use webthings.Common.{
  ℕ, suc, true, false, Bytes, List, [], ◌∷◌, ◌++◌, Option, none, some, length, take, drop,
  get_elem?, ◌==◌, ==_refl, ◌+◌, ◌≡◌, inl, inr, refl, ap, ◌∙◌, Bool-cases, Result, ok, err, fault,
  All, if◌then◌else◌, arith,
}
use mathlib.Core.List.{append_assoc}
use native.Mathlib.Nat.{zero-add}
use webthings.Resource.{
  Rep, Res, suits, first_suitable, resource_get_suitable_rep, resource_get_rep, resource_add_rep,
  rep_del, resource_update_rep, replace_rep, rep_new, mt_matches, mt_loop, same_bytes, mt_any,
}

-- The representations that a list of media types and an ETag leave out.
abbrev pub AllUnsuited : List ℕ → Option Bytes → List Rep → Type 0
AllUnsuited mta etag rs = All (λ r. suits mta etag r ≡ false) rs

-- What a lookup in a list may answer: a position, counted from `i`, of a representation that suits,
-- with none before it that does; or nothing, where none suits.
abbrev pub Answer : ℕ → List Rep → List ℕ → Option Bytes → Option ℕ → Type 0
Answer i rs mta etag none = AllUnsuited mta etag rs
Answer i rs mta etag (some at) =
    (before : List Rep) × (r : Rep) × (after : List Rep) × (rs ≡ before ++ (r ∷ after))
    × (at ≡ i + length before)
    × (suits mta etag r ≡ true)
    × AllUnsuited mta etag before

later :
    (i : ℕ) (r : Rep) (rs : List Rep) (mta : List ℕ) (etag : Option Bytes) (a : Option ℕ)
    → suits mta etag r ≡ false
    → Answer (suc i) rs mta etag a
    → Answer i (r ∷ rs) mta etag a
later i r rs mta etag none e w = (e, w)
later i r rs mta etag (some at) e (before, x, after, p, q, s, u) =
    (r ∷ before, x, after, ap (◌∷◌ r) p, omega arith, s, (e, u))

first_suitable-Answer :
    (i : ℕ) (rs : List Rep) (mta : List ℕ) (etag : Option Bytes)
    → Answer i rs mta etag (first_suitable i rs mta etag)
unfolding first_suitable
first_suitable-Answer i [] mta etag = tt
first_suitable-Answer i (r ∷ rs) mta etag = elim (Bool-cases (suits mta etag r)) [
  | inl e ↦ rw e ([], r, rs, refl, omega arith, e, tt)
  | inr e ↦ rw e (later i r rs mta etag _ e (first_suitable-Answer (suc i) rs mta etag))
]

-- ec_resource_get_suitable_rep returns the first representation that has one of the media types and
-- the ETag, where these are given, and NULL exactly where no representation has them.
pub resource_get_suitable_rep_lem :
    (res : Res) (mta : List ℕ) (etag : Option Bytes)
    → Answer 0 res.reps mta etag (resource_get_suitable_rep res mta etag)
unfolding resource_get_suitable_rep
resource_get_suitable_rep_lem res mta etag = first_suitable-Answer 0 res.reps mta etag

-- The media types that ec_resource_get_rep searches for.
abbrev pub wanted : ℕ → List ℕ
wanted media_type = if media_type == mt_any then [] else (media_type ∷ [])

-- The list without its element at the position of `r`.
rep_del_at :
    (before : List Rep) (r : Rep) (after : List Rep)
    → take (length before) (before ++ (r ∷ after))
        ++ drop (suc (length before)) (before ++ (r ∷ after))
      ≡ before ++ after
rep_del_at [] r after = refl
rep_del_at (x ∷ before) r after = ap (◌∷◌ x) (rep_del_at before r after)

-- What ec_resource_update_rep may return: an error, where no representation suits, with the resource
-- as it was; or the new ETag, the first suitable representation gone and the new one at the end.
abbrev pub Updated : Res → Bytes → ℕ → Option Bytes → Bytes → Result Res (Res × Bytes) → Type 0
Updated res bytes media_type etag fresh fault = ⊥
Updated res bytes media_type etag fresh (err res') =
    (res' ≡ res) × AllUnsuited (wanted media_type) etag res.reps
Updated res bytes media_type etag fresh (ok (res', returned)) =
    (before : List Rep) × (r : Rep) × (after : List Rep) × (res.reps ≡ before ++ (r ∷ after))
    × suits (wanted media_type) etag r ≡ true
    × AllUnsuited (wanted media_type) etag before
    × (res'.reps
        ≡ before
          ++ (after ++ (record { bytes = bytes; etag = fresh; media_type = media_type } ∷ [])))
    × (returned ≡ fresh)

replaced :
    (res : Res) (found : Option ℕ) (bytes : Bytes) (media_type : ℕ) (etag : Option Bytes)
    (fresh : Bytes)
    → Answer 0 res.reps (wanted media_type) etag found
    → Updated res bytes media_type etag fresh (replace_rep res found bytes media_type fresh)
unfolding replace_rep resource_add_rep rep_new rep_del
replaced res none bytes media_type etag fresh w = (refl, w)
replaced res (some at) bytes media_type etag fresh (before, r, after, p, q, s, u) =
    let new : Rep = record { bytes = bytes; etag = fresh; media_type = media_type } in
    (
      before,
      r,
      after,
      p,
      s,
      u,
      rw (p, q, zero-add (length before), append_assoc before (r ∷ after) (new ∷ []))
          (rep_del_at before r (after ++ (new ∷ []))),
      refl,
    )

-- ec_resource_update_rep replaces exactly the first representation with the media type and the ETag
-- by the new one, which goes to the end of the list, and returns the new ETag; where there is none
-- it fails and leaves the resource as it was.
pub resource_update_rep_lem :
    (res : Res) (bytes : Bytes) (media_type : ℕ) (etag : Option Bytes) (fresh : Bytes)
    → Updated res bytes media_type etag fresh (resource_update_rep res bytes media_type etag fresh)
unfolding resource_update_rep resource_get_rep
resource_update_rep_lem res bytes media_type etag fresh =
    replaced res _ bytes media_type etag fresh
      (resource_get_suitable_rep_lem res (wanted media_type) etag)

same_bytes_refl : (b : Bytes) → same_bytes b b ≡ true
unfolding same_bytes
same_bytes_refl [] = refl
same_bytes_refl (x ∷ b) = rw (==_refl x, same_bytes_refl b)

new_suits :
    (bytes etag : Bytes) (media_type : ℕ)
    → suits
        (wanted media_type)
        (some etag)
        (record { bytes = bytes; etag = etag; media_type = media_type })
      ≡ true
unfolding suits mt_matches mt_loop
new_suits bytes etag media_type = ground (arith, same_bytes_refl etag)

found_at_end :
    (i : ℕ) (rs : List Rep) (r : Rep) (mta : List ℕ) (etag : Option Bytes)
    → AllUnsuited mta etag rs
    → suits mta etag r ≡ true
    → first_suitable i (rs ++ (r ∷ [])) mta etag ≡ some (i + length rs)
unfolding first_suitable
found_at_end i [] r mta etag u s = rw s (ap some (omega arith))
found_at_end i (x ∷ rs) r mta etag u s =
    rw (u.0, found_at_end (suc i) rs r mta etag u.1 s) (ap some (omega arith))

-- A representation that was added under an ETag which none of that media type has yet is what
-- ec_resource_get_rep finds by its media type and the ETag returned.
pub resource_get_rep-resource_add_rep :
    (res : Res) (bytes : Bytes) (media_type : ℕ) (etag : Bytes)
    → AllUnsuited (wanted media_type) (some etag) res.reps
    → (res' : Res) × (resource_add_rep res bytes media_type etag ≡ (res', etag))
      × (resource_get_rep res' media_type (some etag) ≡ some (length res.reps))
      × (get_elem? res'.reps (length res.reps)
          ≡ some (record { bytes = bytes; etag = etag; media_type = media_type }))
unfolding resource_add_rep rep_new resource_get_rep resource_get_suitable_rep
resource_get_rep-resource_add_rep res bytes media_type etag u =
    let new : Rep = record { bytes = bytes; etag = etag; media_type = media_type } in
    (
      record res { reps = res.reps ++ (new ∷ []) },
      refl,
      found_at_end 0 res.reps new (wanted media_type) (some etag) u
            (new_suits bytes etag media_type)
          ∙ ap some (omega arith),
      elem_at_end res.reps new,
    )
  where
    elem_at_end : (rs : List Rep) (r : Rep) → get_elem? (rs ++ (r ∷ [])) (length rs) ≡ some r
    elem_at_end [] r = refl
    elem_at_end (x ∷ rs) r = elem_at_end rs r
