-- ===== src/Resource.antt =====
-- Hosted resources and their representations, bridge/sw/lib/evcoap/src/evcoap_resource.c. Memory is
-- taken to be available; a pointer to a representation is its position in the list.
pub mod Reps
pub mod Methods
pub mod Link
use webthings.Common.{
  ℕ, zero, suc, Bool, true, false, Bytes, List, [], ◌∷◌, ◌++◌, Option, none, some, ltb, leb, length,
  take, drop, ◌==◌, ◌+◌, ◌&&◌, ◌||◌, not, if◌then◌else◌, Result, ok, err,
}
use Prim.Native.Nat.{bit_and}
use mathlib.Core.Option
use webthings.Enums.{Method, is_method, is_method_mask, method_to_mask}

-- ec_rep_t: `etag` is the array of EC_ETAG_SZ = 4 bytes, `bytes` what data and data_sz span.
pub record Rep : Type 0 where
  pub bytes : Bytes
  pub etag : Bytes
  pub media_type : ℕ

-- The attributes of a resource, ec_res_attrs_t.
pub record Attrs : Type 0 where
  pub obs : Bool
  pub exp : Bool
  pub interface : Bytes
  pub res_type : Bytes

-- ec_res_t.
pub record Res : Type 0 where
  pub uri : Bytes
  pub methods : ℕ
  pub max_age : ℕ
  pub reps : List Rep
  pub attrs : Attrs

-- EC_MT_ANY and EC_COAP_DEFAULT_MAX_AGE.
abbrev pub mt_any : ℕ
mt_any = 255

abbrev pub default_max_age : ℕ
default_max_age = 60

-- memcmp of two byte arrays of one length, tested for 0.
unfoldable pub same_bytes : Bytes → Bytes → Bool
same_bytes [] [] = true
same_bytes (x ∷ xs) (y ∷ ys) = (x == y) && same_bytes xs ys
same_bytes _ _ = false

-- ec_res_attrs_init.
abbrev pub attrs_init : Attrs
attrs_init = record { obs = false; exp = false; interface = []; res_type = [] }

-- u_strlcpy is libu's: what arrives in a buffer of the given size, `none` if the string was cut.
module _ (strlcpy : Bytes → ℕ → Option Bytes) where
  -- ec_resource_new. `none` is NULL.
  unfoldable pub resource_new : Bytes → ℕ → ℕ → Option Res
  resource_new uri methods max_age =
      if is_method_mask methods
      then Option.map
          (λ u. record {
            uri = u;
            methods = methods;
            max_age = if max_age == 0 then default_max_age else max_age;
            reps = [];
            attrs = attrs_init;
          })
          (strlcpy uri 512)
      else none

  -- ec_res_attrs_set_if and ec_res_attrs_set_rt; EC_RES_ATTR_MAX is 1024. `none` is -1.
  unfoldable pub res_attrs_set_if : Res → Bytes → Option Res
  res_attrs_set_if res interface =
      Option.map (λ s. record res { attrs = record res.attrs { interface = s } })
        (strlcpy interface 1024)

  unfoldable pub res_attrs_set_rt : Res → Bytes → Option Res
  res_attrs_set_rt res res_type =
      Option.map (λ s. record res { attrs = record res.attrs { res_type = s } })
        (strlcpy res_type 1024)

-- ec_res_attrs_set_obs and ec_res_attrs_set_exp.
unfoldable pub res_attrs_set_obs : Res → Bool → Res
res_attrs_set_obs res observable = record res { attrs = record res.attrs { obs = observable } }

unfoldable pub res_attrs_set_exp : Res → Bool → Res
res_attrs_set_exp res exportable = record res { attrs = record res.attrs { exp = exportable } }

-- ec_rep_new; `etag` are the random bytes of libevent.
unfoldable pub rep_new : Bytes → ℕ → Bytes → Rep
rep_new bytes media_type etag = record { bytes = bytes; etag = etag; media_type = media_type }

-- ec_resource_add_rep: the resource, and the ETag returned to the caller.
unfoldable pub resource_add_rep : Res → Bytes → ℕ → Bytes → Res × Bytes
unfolding rep_new
resource_add_rep res bytes media_type etag =
    (record res { reps = res.reps ++ (rep_new bytes media_type etag ∷ []) }, etag)

-- ec_rep_del of the representation at a position.
unfoldable pub rep_del : Res → ℕ → Res
rep_del res i = record res { reps = take i res.reps ++ drop (suc i) res.reps }

-- ec_resource_is_empty.
unfoldable pub resource_is_empty : Res → Bool
resource_is_empty res = length res.reps == 0

-- ec_mt_matches: an empty array accepts every media type.
unfoldable pub mt_loop : ℕ → List ℕ → Bool
mt_loop mt [] = false
mt_loop mt (m ∷ mta) = (m == mt) || mt_loop mt mta

unfoldable pub mt_matches : ℕ → List ℕ → Bool
unfolding mt_loop
mt_matches mt mta = if length mta == 0 then true else mt_loop mt mta

-- The test of ec_resource_get_suitable_rep. A NULL ETag is `none`.
unfoldable pub suits : List ℕ → Option Bytes → Rep → Bool
suits mta none rep = mt_matches rep.media_type mta
suits mta (some etag) rep = mt_matches rep.media_type mta && same_bytes rep.etag etag

-- ec_resource_get_suitable_rep: the position of the first representation that passes; `i` counts
-- those before the list.
unfoldable pub first_suitable : ℕ → List Rep → List ℕ → Option Bytes → Option ℕ
first_suitable i [] mta etag = none
first_suitable i (r ∷ rs) mta etag =
    if suits mta etag r then some i else first_suitable (suc i) rs mta etag

unfoldable pub resource_get_suitable_rep : Res → List ℕ → Option Bytes → Option ℕ
resource_get_suitable_rep res mta etag = first_suitable 0 res.reps mta etag

-- ec_resource_get_rep.
unfoldable pub resource_get_rep : Res → ℕ → Option Bytes → Option ℕ
resource_get_rep res media_type etag =
    resource_get_suitable_rep res (if media_type == mt_any then [] else (media_type ∷ [])) etag

-- ec_resource_update_rep: what it does with the representation it found.
unfoldable pub replace_rep : Res → Option ℕ → Bytes → ℕ → Bytes → Result Res (Res × Bytes)
replace_rep res none bytes media_type fresh = err res
replace_rep res (some i) bytes media_type fresh =
    let (added, etag) = resource_add_rep res bytes media_type fresh in ok (rep_del added i, etag)

-- ec_resource_update_rep: `etag` selects, and `fresh` are the random bytes of the new ETag, which the
-- caller gets back in place of `etag`.
unfoldable pub resource_update_rep :
    Res → Bytes → ℕ → Option Bytes → Bytes → Result Res (Res × Bytes)
unfolding replace_rep
resource_update_rep res bytes media_type etag fresh =
    replace_rep res (resource_get_rep res media_type etag) bytes media_type fresh

-- ec_resource_check_method: true for 0, false for -1.
mask_allows : ℕ → Option ℕ → Bool
mask_allows methods none = false
mask_allows methods (some mmask) = not (bit_and methods mmask == 0)

unfoldable pub resource_check_method : Res → Method → Bool
unfolding mask_allows
resource_check_method res method =
    if is_method method then mask_allows res.methods (method_to_mask method) else false
