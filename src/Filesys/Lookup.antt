-- ===== src/Filesys/Lookup.antt =====
-- The lookup of a representation by its type, ec_filesys_get_rep of evcoap_filesys.c.
use mathlib.Core.Option
use webthings.Common.{
  ℕ, ◌≡◌, refl, Bytes, List, [], ◌∷◌, Option, none, some, false, arith, All, ◌≢◌, suc,
}
use webthings.Resource.{
  Rep, Res, mt_any, suits, mt_matches, first_suitable, resource_get_suitable_rep, resource_get_rep,
}
use webthings.Dups.{HMap}
use webthings.Filesys.{Filesys, filesys_get_resource, filesys_get_rep}

unsuitable :
    (rep : Rep) (mt : ℕ) (etag : Option Bytes)
    → rep.media_type ≢ mt
    → suits (mt ∷ []) etag rep ≡ false
unfolding suits mt_matches
unsuitable rep mt none h = ground arith
unsuitable rep mt (some e) h = ground arith

no_suitable :
    (i : ℕ) (reps : List Rep) (mt : ℕ) (etag : Option Bytes)
    → All (λ rep. rep.media_type ≢ mt) reps
    → first_suitable i reps (mt ∷ []) etag ≡ none
unfolding first_suitable
no_suitable i [] mt etag h = refl
no_suitable i (rep ∷ reps) mt etag h =
    rw (unsuitable rep mt etag h.0) (no_suitable (suc i) reps mt etag h.1)

-- EC_MT_ANY is no wildcard for ec_filesys_get_rep: where no representation of the resource is of this
-- type itself, it returns NULL, while ec_resource_get_rep on the same resource, without an ETag, returns
-- the first one.
pub filesys_get_rep_any :
    {M : Type 0} (hmap : HMap M Bytes Res) (fs : Filesys M) (uri : Bytes) (res : Res) (rep : Rep)
    (reps : List Rep) (etag : Option Bytes)
    → filesys_get_resource hmap fs uri ≡ some res
    → res.reps ≡ rep ∷ reps
    → All (λ r. r.media_type ≢ mt_any) res.reps
    → (filesys_get_rep hmap fs uri mt_any etag ≡ none) × (resource_get_rep res mt_any none ≡ some 0)
unfolding filesys_get_rep resource_get_rep resource_get_suitable_rep first_suitable suits
    Option.bind mt_matches
filesys_get_rep_any hmap fs uri res rep reps etag e q h =
    (rw (e, no_suitable 0 res.reps mt_any etag h), rw (resource_get_suitable_rep, q))
