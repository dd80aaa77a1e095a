-- ===== src/Api/Registry/Distinct.antt =====
-- The registered functions as a map from URIs: ec_register_cb and ec_unregister_cb of evcoap.c against
-- the lookup of ec_server_handle_pdu.
use webthings.Common.{
  Bytes, List, [], ◌∷◌, ◌++◌, Option, some, Bool, true, false, if◌then◌else◌, ◌≡◌, refl, ◌∙◌, subst,
  sym, ◌⊎◌, err, inl, inr, ok, arith, Bool-cases, Option-cases,
}
use webthings.Srv.{Server}
use webthings.Srv.Drive.{Answer}
use webthings.Srv.Input.{Hosted, Base, find_callback}
use webthings.Api.Registry.{is_registered, register_cb, remove_first, unregister_cb}

-- What is documented of evutil_ascii_strcasecmp: it tests for an equivalence.
pub record IsEquivalence (same : Bytes → Bytes → Bool) : Type 0 where
  pub reflexive : (a : Bytes) → same a a ≡ true
  pub symmetric : (a b : Bytes) → same a b ≡ same b a
  pub congruent : (a b c : Bytes) → same a b ≡ true → same a c ≡ same b c

module _ (same : Bytes → Bytes → Bool) where
  -- No path stands twice in the list.
  abbrev pub IsDistinct : List Hosted → Type 0
  IsDistinct [] = Unit
  IsDistinct (r ∷ rs) = (is_registered same rs r.path ≡ false) × IsDistinct rs

  is_registered-append :
      (rs : List Hosted) (x : Hosted) (url : Bytes)
      → is_registered same (rs ++ (x ∷ [])) url
        ≡ (if is_registered same rs url then true else same x.path url)
  unfolding is_registered
  is_registered-append [] x url = ground arith
  is_registered-append (r ∷ rs) x url = ground (arith, is_registered-append rs x url)

  find_callback-append :
      (rs : List Hosted) (x : Hosted) (fb : Option (Server → Answer)) (uri : Bytes)
      → find_callback same (rs ++ (x ∷ [])) fb uri
        ≡ find_callback same rs (if same x.path uri then some x.cb else fb) uri
  unfolding find_callback
  find_callback-append [] x fb uri = refl
  find_callback-append (r ∷ rs) x fb uri = ground (arith, find_callback-append rs x fb uri)

  find_callback_missing :
      (rs : List Hosted) (fb : Option (Server → Answer)) (uri : Bytes)
      → is_registered same rs uri ≡ false
      → find_callback same rs fb uri ≡ fb
  unfolding find_callback is_registered
  find_callback_missing [] fb uri h = refl
  find_callback_missing (r ∷ rs) fb uri h = ground (arith, find_callback_missing rs fb uri)

  find_callback_present :
      (rs : List Hosted) (fb fb' : Option (Server → Answer)) (uri : Bytes)
      → is_registered same rs uri ≡ true
      → find_callback same rs fb uri ≡ find_callback same rs fb' uri
  unfolding find_callback is_registered
  find_callback_present [] fb fb' uri h = cc
  find_callback_present (r ∷ rs) fb fb' uri h = ground (arith, find_callback_present rs fb fb' uri)

  remove_first-append :
      (rs : List Hosted) (x : Hosted) (url : Bytes)
      → is_registered same rs url ≡ false
      → same x.path url ≡ true
      → remove_first same (rs ++ (x ∷ [])) url ≡ some rs
  unfolding remove_first is_registered
  remove_first-append [] x url h e = rw e
  remove_first-append (r ∷ rs) x url h e = ground (arith, remove_first-append rs x url)

  module _ (eqv : IsEquivalence same) where
    registered_congruent :
        (rs : List Hosted) (a b : Bytes)
        → same a b ≡ true
        → is_registered same rs a ≡ is_registered same rs b
    unfolding is_registered
    registered_congruent [] a b h = refl
    registered_congruent (r ∷ rs) a b h = ground (
      arith,
      registered_congruent rs a b,
      eqv.congruent a b r.path h,
      eqv.symmetric a r.path,
      eqv.symmetric b r.path,
    )

    append-IsDistinct :
        (rs : List Hosted) (x : Hosted)
        → IsDistinct rs
        → is_registered same rs x.path ≡ false
        → IsDistinct (rs ++ (x ∷ []))
    unfolding is_registered
    append-IsDistinct [] x d h = (refl, tt)
    append-IsDistinct (r ∷ rs) x d h = (
      ground (arith, is_registered-append rs x r.path, eqv.symmetric x.path r.path),
      append-IsDistinct rs x d.1 (ground arith),
    )

    -- The two ways in which the loop of ec_unregister_cb finds the URL.
    remove_first_cases :
        (r : Hosted) (rs rest : List Hosted) (url : Bytes)
        → remove_first same (r ∷ rs) url ≡ some rest
        → ((same r.path url ≡ true) × (rest ≡ rs))
          ⊎ ((l : List Hosted) × (same r.path url ≡ false)
              × (remove_first same rs url ≡ some l)
              × (rest ≡ r ∷ l))
    unfolding remove_first
    remove_first_cases r rs rest url h = elim (Bool-cases (same r.path url)) [
      | inl e ↦ inl (e, ground arith)
      | inr e ↦ elim (Option-cases (remove_first same rs url)) [
        | inl q ↦ absurd (ground arith)
        | inr (l, q) ↦ inr (l, e, q, ground arith)
      ]
    ]

    remove_first-registered :
        (rs rest : List Hosted) (url uri : Bytes)
        → remove_first same rs url ≡ some rest
        → is_registered same rs uri ≡ false
        → is_registered same rest uri ≡ false
    unfolding remove_first is_registered
    remove_first-registered [] rest url uri h k = cc
    remove_first-registered (r ∷ rs) rest url uri h k = elim (remove_first_cases r rs rest url h) [
      | inl (e, w) ↦ rw w (ground arith)
      | inr (l, e, q, w) ↦ rw w (ground (arith, remove_first-registered rs l url uri q))
    ]

    remove_first-IsDistinct :
        (rs rest : List Hosted) (url : Bytes)
        → remove_first same rs url ≡ some rest
        → IsDistinct rs
        → IsDistinct rest
    unfolding remove_first
    remove_first-IsDistinct [] rest url h d = cc
    remove_first-IsDistinct (r ∷ rs) rest url h d = elim (remove_first_cases r rs rest url h) [
      | inl (e, w) ↦ rw w d.1
      | inr (l, e, q, w) ↦
          rw w
            (remove_first-registered rs l url r.path q d.0, remove_first-IsDistinct rs l url q d.1)
    ]

    find_callback-remove_first :
        (rs rest : List Hosted) (fb : Option (Server → Answer)) (url uri : Bytes)
        → remove_first same rs url ≡ some rest
        → IsDistinct rs
        → find_callback same rest fb uri
          ≡ (if same url uri then fb else find_callback same rs fb uri)
    unfolding remove_first find_callback
    find_callback-remove_first [] rest fb url uri h d = cc
    find_callback-remove_first (r ∷ rs) rest fb url uri h d =
        elim (remove_first_cases r rs rest url h) [
          | inl (e, w) ↦ rw w (
              ground (
                arith,
                eqv.congruent r.path url uri e,
                registered_congruent rs r.path uri,
                find_callback_missing rs fb uri,
              ))
          | inr (l, e, q, w) ↦ rw w (
              ground (
                arith,
                eqv.congruent url uri r.path,
                eqv.symmetric url r.path,
                eqv.symmetric uri r.path,
                find_callback-remove_first rs l fb url uri q d.1,
              ))
        ]

    found_first :
        (coap : Base) (url uri : Bytes) (new : Option (Server → Answer))
        → is_registered same coap.resources url ≡ false
        → find_callback same coap.resources (if same url uri then new else coap.fb) uri
          ≡ (if same url uri then new else find_callback same coap.resources coap.fb uri)
    found_first coap url uri new e = elim (Bool-cases (same url uri)) [
      | inl w ↦ rw w (
          find_callback_missing coap.resources new uri
            (sym (registered_congruent coap.resources url uri w) ∙ e))
      | inr w ↦ rw w
    ]

    removed :
        (coap coap' : Base) (url : Bytes) (l : List Hosted)
        → remove_first same coap.resources url ≡ some l
        → unregister_cb same coap url ≡ ok coap'
        → record coap { resources = l } ≡ coap'
    unfolding unregister_cb
    removed coap coap' url l q h = ground arith

    -- Two comparisons that agree find the same function.
    agreed :
        (strcasecmp : Bytes → Bytes → Bool)
        → ((a b : Bytes) → strcasecmp a b ≡ same a b)
        → (rs : List Hosted) (fb : Option (Server → Answer)) (uri : Bytes)
        → find_callback strcasecmp rs fb uri ≡ find_callback same rs fb uri
    unfolding find_callback
    agreed strcasecmp agree [] fb uri = refl
    agreed strcasecmp agree (r ∷ rs) fb uri =
        rw (agree r.path uri, agreed strcasecmp agree rs fb uri) refl

    else_agreed :
        (strcasecmp : Bytes → Bytes → Bool)
        → ((a b : Bytes) → strcasecmp a b ≡ same a b)
        → (coap : Base) (url uri : Bytes) (new : Option (Server → Answer))
        → (if same url uri then new else find_callback same coap.resources coap.fb uri)
          ≡ (if same url uri then new else find_callback strcasecmp coap.resources coap.fb uri)
    else_agreed strcasecmp agree coap url uri new =
        rw (agreed strcasecmp agree coap.resources coap.fb uri) refl

    -- Where evutil_ascii_strcasecmp tests for an equivalence, and strcasecmp of the C library agrees with
    -- it, ec_register_cb with a function fails
    -- exactly if the URL is taken. Where it succeeds, no path stands twice if none did, the lookup of
    -- ec_server_handle_pdu then gives the function for the URLs that are the same as this one and what
    -- it gave before for all others, and ec_unregister_cb takes the registration back.
    pub register_cb_lem :
        (strcasecmp : Bytes → Bytes → Bool) (coap : Base) (url : Bytes) (cb : Server → Answer)
        → ((a b : Bytes) → strcasecmp a b ≡ same a b)
        → IsDistinct coap.resources
        → (is_registered same coap.resources url ≡ true)
            × (register_cb same coap url (some cb) ≡ err coap)
          ⊎ ((coap' : Base) × (register_cb same coap url (some cb) ≡ ok coap')
              × IsDistinct coap'.resources
              × ((uri : Bytes)
                  → find_callback strcasecmp coap'.resources coap'.fb uri ≡ (
                      if same url uri
                      then some cb
                      else find_callback strcasecmp coap.resources coap.fb uri))
              × (unregister_cb same coap' url ≡ ok coap))
    unfolding register_cb unregister_cb
    register_cb_lem strcasecmp coap url cb agree d =
        elim (Bool-cases (is_registered same coap.resources url)) [
          | inl e ↦ inl (e, rw e)
          | inr e ↦
              let x : Hosted = record { path = url; cb = cb } in
              inr (
                record coap { resources = coap.resources ++ (x ∷ []) },
                rw e,
                append-IsDistinct coap.resources x d e,
                λ uri.
                    agreed strcasecmp agree (coap.resources ++ (x ∷ [])) coap.fb uri
                    ∙ (find_callback-append coap.resources x coap.fb uri
                        ∙ (found_first coap url uri (some cb) e
                            ∙ else_agreed strcasecmp agree coap url uri (some cb))),
                rw (unregister_cb, remove_first-append coap.resources x url e (eqv.reflexive url)),
              )
        ]

    -- Where evutil_ascii_strcasecmp tests for an equivalence, strcasecmp of the C library agrees with it,
    -- and no path stands twice, a successful
    -- ec_unregister_cb keeps the paths distinct, and the lookup of ec_server_handle_pdu then gives the
    -- function for all the others to the URLs that are the same as this one, and what it gave before to
    -- the rest.
    pub unregister_cb_lem :
        (strcasecmp : Bytes → Bytes → Bool) (coap coap' : Base) (url : Bytes)
        → ((a b : Bytes) → strcasecmp a b ≡ same a b)
        → IsDistinct coap.resources
        → unregister_cb same coap url ≡ ok coap'
        → IsDistinct coap'.resources
          × ((uri : Bytes)
              → find_callback strcasecmp coap'.resources coap'.fb uri ≡ (
                  if same url uri
                  then coap.fb
                  else find_callback strcasecmp coap.resources coap.fb uri))
    unfolding unregister_cb
    unregister_cb_lem strcasecmp coap coap' url agree d h =
        elim (Option-cases (remove_first same coap.resources url)) [
          | inl q ↦ absurd (ground arith)
          | inr (l, q) ↦
              subst
                (λ c.
                  IsDistinct c.resources
                  × ((uri : Bytes)
                      → find_callback strcasecmp c.resources c.fb uri ≡ (
                          if same url uri
                          then coap.fb
                          else find_callback strcasecmp coap.resources coap.fb uri)))
                (removed coap coap' url l q h)
                (
                  remove_first-IsDistinct coap.resources l url q d,
                  λ uri.
                      agreed strcasecmp agree l coap.fb uri
                      ∙ (find_callback-remove_first coap.resources l coap.fb url uri q d
                          ∙ else_agreed strcasecmp agree coap url uri coap.fb),
                )
        ]
