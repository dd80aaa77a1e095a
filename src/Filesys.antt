-- ===== src/Filesys.antt =====
-- The embedded file system of resources, bridge/sw/lib/evcoap/src/evcoap_filesys.c: a map of libu, with
-- the walk over its values, from URIs to resources.
pub mod WellKnown
pub mod Lookup
use webthings.Common.{
  ℕ, Bytes, List, [], ◌∷◌, Option, none, some, Bool, length, ◌==◌, if◌then◌else◌, Result, ok, err,
}
use mathlib.Core.Option
use webthings.Dups.{HMap}
use webthings.Resource.{Res, resource_get_suitable_rep}
use webthings.Resource.Link.{Text, res_link_format_str, cat}

-- ec_filesys_t.
pub record Filesys (M : Type 0) : Type 0 where
  pub rel_refs : Bool
  pub map : M

-- EC_WKC_MAX.
abbrev pub wkc_max : ℕ
wkc_max = 4096

module _ {M : Type 0} (hmap : HMap M Bytes Res) where
  -- ec_filesys_create, with the map that u_hmap_easy_new makes.
  unfoldable pub filesys_create : M → Bool → Filesys M
  filesys_create empty relative_refs = record { rel_refs = relative_refs; map = empty }

  abbrev with_map : Filesys M → Option M → Result (Filesys M) (Filesys M)
  with_map fs none = err fs
  with_map fs (some m) = ok (record fs { map = m })

  -- ec_filesys_put_resource.
  unfoldable pub filesys_put_resource : Filesys M → Res → Result (Filesys M) (Filesys M)
  filesys_put_resource fs res =
      if length res.uri == 0 then err fs else with_map fs (hmap.put fs.map res.uri res)

  -- ec_filesys_del_resource.
  unfoldable pub filesys_del_resource : Filesys M → Bytes → Result (Filesys M) (Filesys M)
  filesys_del_resource fs uri = with_map fs (hmap.del fs.map uri)

  -- ec_filesys_get_resource.
  unfoldable pub filesys_get_resource : Filesys M → Bytes → Option Res
  filesys_get_resource fs uri = if length uri == 0 then none else hmap.get fs.map uri

  -- ec_filesys_get_suitable_rep: the resource and the position of the representation.
  unfoldable pub filesys_get_suitable_rep :
      Filesys M → Bytes → List ℕ → Option Bytes → Option (Res × ℕ)
  unfolding filesys_get_resource
  filesys_get_suitable_rep fs uri mta etag =
      Option.bind (filesys_get_resource fs uri)
        (λ res. Option.map (λ i. (res, i)) (resource_get_suitable_rep res mta etag))

  -- ec_filesys_get_rep.
  unfoldable pub filesys_get_rep : Filesys M → Bytes → ℕ → Option Bytes → Option (Res × ℕ)
  unfolding filesys_get_suitable_rep
  filesys_get_rep fs uri media_type etag = filesys_get_suitable_rep fs uri (media_type ∷ []) etag

-- `each` are the values in the order of u_hmap_foreach_arg.
module _ {M : Type 0} (each : M → List Res) (text : Text) where
  -- __build_wkc on the link of a resource and the string so far; `none` is -1.
  unfoldable pub append_link : Bytes → Option Bytes → Option Bytes
  append_link wkc none = some wkc
  append_link wkc (some lfs) =
      if length wkc == 0
      then cat text wkc_max wkc (lfs ∷ [])
      else cat text wkc_max wkc ((b',' ∷ []) ∷ lfs ∷ [])

  -- u_hmap_foreach_arg of __build_wkc: it stops where __build_wkc fails.
  unfoldable pub build_wkc : Bytes → Option Bytes → Bool → Bytes → List Res → Option Bytes
  unfolding append_link
  build_wkc origin query rel_refs wkc [] = some wkc
  build_wkc origin query rel_refs wkc (res ∷ rest) =
      elim (append_link wkc (res_link_format_str text res origin query rel_refs)) [
        | none ↦ none
        | some wkc' ↦ build_wkc origin query rel_refs wkc' rest
      ]

  -- ec_filesys_well_known_core.
  unfoldable pub filesys_well_known_core : Filesys M → Bytes → Option Bytes → Option Bytes
  unfolding build_wkc
  filesys_well_known_core fs origin query = build_wkc origin query fs.rel_refs [] (each fs.map)
