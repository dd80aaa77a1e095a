-- ===== src/Api/Registry.antt =====
-- The functions that the user registers for URIs, and the one for all the others: ec_register_cb,
-- ec_unregister_cb, ec_register_fb and ec_unregister_fb of evcoap.c. Memory is taken to be available.
pub mod Distinct
use webthings.Common.{
  Bytes, List, [], ◌∷◌, ◌++◌, Option, none, some, Bool, true, false, if◌then◌else◌, Result, ok, err,
}
use webthings.Srv.{Server}
use webthings.Srv.Drive.{Answer}
use webthings.Srv.Input.{Hosted, Base}

-- `same_uri` is libevent's evutil_ascii_strcasecmp, tested for 0.
module _ (same_uri : Bytes → Bytes → Bool) where
  -- The loop of ec_register_cb: whether the URL is taken.
  unfoldable pub is_registered : List Hosted → Bytes → Bool
  is_registered [] url = false
  is_registered (r ∷ rs) url = if same_uri r.path url then true else is_registered rs url

  -- ec_register_cb. A NULL function is `none`.
  unfoldable pub register_cb : Base → Bytes → Option (Server → Answer) → Result Base Base
  unfolding is_registered
  register_cb coap url none = err coap
  register_cb coap url (some cb) =
      if is_registered coap.resources url
      then err coap
      else ok (record coap { resources = coap.resources ++ (record { path = url; cb = cb } ∷ []) })

  -- The loop of ec_unregister_cb; `none` where no resource has the URL.
  unfoldable pub remove_first : List Hosted → Bytes → Option (List Hosted)
  remove_first [] url = none
  remove_first (r ∷ rs) url =
      let rest = remove_first rs url in
      if same_uri r.path url then some rs else elim rest [ none ↦ none | some l ↦ some (r ∷ l) ]

  -- ec_unregister_cb.
  unfoldable pub unregister_cb : Base → Bytes → Result Base Base
  unfolding remove_first
  unregister_cb coap url = elim (remove_first coap.resources url) [
    | none ↦ err coap
    | some rs ↦ ok (record coap { resources = rs })
  ]

-- ec_register_fb and ec_unregister_fb.
unfoldable pub register_fb : Base → Option (Server → Answer) → Base
register_fb coap fb = record coap { fb = fb }

unfoldable pub unregister_fb : Base → Base
unregister_fb coap = record coap { fb = none }
