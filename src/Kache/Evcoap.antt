-- ===== src/Kache/Evcoap.antt =====
-- The cache of CoAP responses, bridge/sw/lib/kache/src/kache_evcoap.c. `le` is whether
-- EC_LITTLE_ENDIAN is defined, and `garbage` what an uninitialised content type holds.
use webthings.Common.{
  ℕ, Bytes, [], ◌∷◌, ◌++◌, Option, none, some, Bool, true, length, ◌==◌, if◌then◌else◌, Result, ok,
  err, fault, ◌>>=◌,
}
use mathlib.Core.Option
use webthings.Dups.{HMap}
use webthings.Opt.{Opts}
use webthings.Opt.Add.{opts_add_content_type, opts_add_max_age, opts_add_etag}
use webthings.Opt.Get.{
  opts_get_content_type, opts_get_max_age, opts_get_etag_nth, opts_get_token, c_string,
}
use webthings.Cli.{Client, ResPdu, client_get_response_pdu}
use webthings.Srv.{OutPdu}
use webthings.Srv.Send.{pdu_new_empty}
use webthings.Kache.{
  Ptr, KacheRep, KacheObj, Kache, obj_at, rep_at, put_obj, put_rep, kache_get, kache_set,
  kache_unset,
}
use webthings.Kache.Content.{ContentType, ct_from_ecct, get_ecct_from_ct}
use webthings.Kache.Objects.{
  add_key_val, init_kache_obj, init_kache_rep, add_rep, remove_rep, peak_rep, clear_kache_rep,
  by_media_type, free_kache_rep, free_kache_obj, set_rep_timer,
}

-- How the C string "Token" and the one of the key that kache_store_evcoap_response uses are read.
abbrev pub token_key : Bytes
token_key = b'T' ∷ b'o' ∷ b'k' ∷ b'e' ∷ b'n' ∷ 0 ∷ []

abbrev pub uri_key : Bytes
uri_key = b'u' ∷ b'r' ∷ b'i' ∷ []

-- The ETag of the first option, copied with a NUL behind it; NULL leaves the pointer.
unfoldable pub store_etag : KacheRep → Option (Option Bytes × ℕ) → KacheRep
store_etag rep none = rep
store_etag rep (some (none, l)) = rep
store_etag rep (some (some et, l)) = record rep { etag = Ptr.valid (et ++ (0 ∷ [])) }

-- The token, as a value of the key "Token".
unfoldable pub store_token : KacheRep → Option (Option Bytes × ℕ) → Result (Unit {0}) KacheRep
unfolding add_key_val
store_token rep none = ok rep
store_token rep (some (none, l)) = ok rep
store_token rep (some (some token, l)) = add_key_val rep token_key 5 token l

-- The payload of a response: NULL where it is empty.
unfoldable pub store_payload : KacheRep → Bytes → KacheRep
store_payload rep [] = rep
store_payload rep (b ∷ pl) = record rep { payload = Ptr.valid (b ∷ pl) }

-- A failure of evcoap in a step of the cache: -1.
abbrev to_minus_one : Result Opts Opts → Result (Unit {0}) Opts
to_minus_one (ok opts) = ok opts
to_minus_one (err _) = err tt
to_minus_one fault = fault

-- ec_pdu_set_payload from the payload of a representation.
unfoldable pub pdu_payload : OutPdu → Ptr Bytes → Result (Unit {0}) OutPdu
pdu_payload pdu Ptr.null = ok pdu
pdu_payload pdu (Ptr.valid pl) = if length pl == 0 then err tt else ok (record pdu { payload = pl })
pdu_payload pdu Ptr.dangling = fault

-- Where kache_store_evcoap_response puts the representation: the object, and the representation,
-- which is in no list, with the cache.
abbrev Place : Type 0 → Type 0
Place M = ℕ × ℕ × Kache M

module _ {M : Type 0} where
  -- The old object: its representation of the type is taken out and cleared, or there is a new one.
  unfoldable pub place_old :
      Kache M → ℕ → KacheObj → ContentType → Option ℕ → Result (Unit {0}) (Place M)
  unfolding rep_at put_rep put_obj remove_rep clear_kache_rep
  place_old k o obj mt none =
      ok (o, length k.reps, record k { reps = k.reps ++ (init_kache_rep mt ∷ []) })
  place_old k o obj mt (some a) = elim (rep_at k a) [
    | none ↦ fault
    | some rep ↦ clear_kache_rep rep >>= λ r.
        ok (o, a, put_rep (put_obj k o (remove_rep obj a)) a (record r { media_type = mt }))
  ]

  -- The end of kache_store_evcoap_response: the timer, and the list of the object. Where a step
  -- failed, the object and the representation are given back.
  unfoldable pub finish_store :
      Kache M → ℕ → ℕ → Result (Unit {0}) KacheRep → Result (Kache M) (Kache M)
  unfolding obj_at rep_at put_obj put_rep add_rep set_rep_timer
  finish_store k o a (ok rep) = elim (obj_at k o) [
    | none ↦ fault
    | some obj ↦
        let age = if rep.max_age == 0 then 60 else rep.max_age in
        ok (
          put_obj (put_rep k a (set_rep_timer (record rep { max_age = age }) o age)) o
            (add_rep obj a))
  ]
  finish_store k o a (err _) = elim (obj_at k o) [
    | none ↦ fault
    | some obj ↦ elim (rep_at k a) [
      | none ↦ fault
      | some rep ↦
          err (put_rep (put_obj k o (record obj { freed = true })) a (record rep { freed = true }))
    ]
  ]
  finish_store k o a fault = fault

module _ {M : Type 0} (hmap : HMap M Bytes ℕ) where
  -- A new object, stored under the key "uri".
  unfoldable pub place_new : Kache M → Bytes → ContentType → Place M
  unfolding kache_set
  place_new k uri mt =
      let o = length k.objs in
      let k' = record k {
        objs = k.objs ++ (init_kache_obj uri ∷ []);
        reps = k.reps ++ (init_kache_rep mt ∷ []);
      } in
      elim (kache_set hmap k' uri_key o).0 [
        | ok k'' ↦ (o, length k.reps, k'')
        | err k'' ↦ (o, length k.reps, k'')
        | fault ↦ (o, length k.reps, k')
      ]

  unfoldable pub find_place : Kache M → Bytes → ContentType → Result (Unit {0}) (Place M)
  unfolding obj_at kache_get by_media_type place_new place_old
  find_place k uri mt = elim (kache_get hmap k uri) [
    | none ↦ ok (place_new k uri mt)
    | some o ↦ elim (obj_at k o) [
      | none ↦ fault
      | some obj ↦ by_media_type k obj.reps mt >>= place_old k o obj mt
    ]
  ]

  -- kache_evcoap_timer_cb for a representation whose object is left without any.
  unfoldable pub drop_obj : Kache M → ℕ → KacheObj → Result (Unit {0}) (Kache M)
  unfolding peak_rep kache_unset free_kache_obj
  drop_obj k o obj = elim (peak_rep obj) [
    | some _ ↦ ok k
    | none ↦ elim (kache_unset hmap k obj.key).0 [
      | ok k' ↦ free_kache_obj k' o
      | err k' ↦ free_kache_obj k' o
      | fault ↦ fault
    ]
  ]

  -- kache_evcoap_timer_cb, for the object and the representation of its argument.
  unfoldable pub timer_cb : Kache M → ℕ → ℕ → Result (Unit {0}) (Kache M)
  unfolding obj_at put_obj remove_rep drop_obj free_kache_rep
  timer_cb k o a = elim (obj_at k o) [
    | none ↦ fault
    | some obj ↦
        let obj' = remove_rep obj a in
        drop_obj (put_obj k o obj') o obj' >>= λ k'. free_kache_rep k' a
  ]

module _ (le : Bool) where
  -- kache_store_ec_options_to_rep, in the order of the symbols; -1 where there are no options.
  unfoldable pub store_ec_options_to_rep : Option Opts → KacheRep → Result (Unit {0}) KacheRep
  unfolding store_etag store_token opts_get_max_age opts_get_etag_nth opts_get_token
  store_ec_options_to_rep none rep = err tt
  store_ec_options_to_rep (some opts) rep =
      let rep' : KacheRep = elim (opts_get_max_age le opts.bundle) [
        | none ↦ rep
        | some n ↦ record rep { max_age = n }
      ] in
      store_token (store_etag rep' (opts_get_etag_nth opts.bundle 0)) (opts_get_token opts.bundle)

  -- The ETag in kache_rep_to_evcoap_pdu_, up to its first NUL.
  unfoldable pub pdu_etag : Opts → Ptr Bytes → Result (Unit {0}) Opts
  unfolding opts_add_etag c_string
  pdu_etag opts Ptr.null = ok opts
  pdu_etag opts (Ptr.valid etag) =
      to_minus_one (opts_add_etag opts (some (c_string etag)) (length (c_string etag)))
  pdu_etag opts Ptr.dangling = fault

  -- kache_rep_to_evcoap_pdu_ of a representation.
  unfoldable pub rep_to_evcoap_pdu : KacheRep → OutPdu → Result (Unit {0}) OutPdu
  unfolding get_ecct_from_ct pdu_payload pdu_etag opts_add_content_type opts_add_max_age
  rep_to_evcoap_pdu rep pdu =
      to_minus_one (opts_add_content_type le pdu.opts (get_ecct_from_ct rep.media_type)) >>= λ o.
      pdu_payload pdu rep.payload >>= λ p.
      to_minus_one (opts_add_max_age le o rep.max_age) >>= λ o'.
      pdu_etag o' rep.etag >>= λ o''. ok (record p { opts = o'' })

  -- A content type, or what the variable holds where there is none.
  unfoldable pub read_content_type : ℕ → Option Opts → ContentType
  unfolding ct_from_ecct opts_get_content_type
  read_content_type garbage opts =
      elim (Option.bind opts (λ o. opts_get_content_type le o.bundle)) [
        | none ↦ ct_from_ecct garbage
        | some ct ↦ ct_from_ecct ct
      ]

  -- What is put into the representation at its place, at the time `now`.
  unfoldable pub fill_rep : ℕ → Option ResPdu → KacheRep → Result (Unit {0}) KacheRep
  unfolding store_ec_options_to_rep store_payload
  fill_rep now none rep = store_ec_options_to_rep none (record rep { ts = Ptr.valid now })
  fill_rep now (some pdu) rep =
      store_ec_options_to_rep (some pdu.opts)
        (record (store_payload rep pdu.payload) { ts = Ptr.valid now })

  module _ {M : Type 0} where
    -- kache_get_evcoap_response for the representation that was looked up: NULL is read through.
    unfoldable pub answer_with : Kache M → Option ℕ → Result (Unit {0}) OutPdu
    unfolding rep_at rep_to_evcoap_pdu
    answer_with k none = fault
    answer_with k (some a) = elim (rep_at k a) [
      | none ↦ fault
      | some rep ↦ rep_to_evcoap_pdu rep pdu_new_empty
    ]

    -- The search for the place returns no error of its own.
    unfoldable pub fill_place :
        ℕ → Option ResPdu → Result (Unit {0}) (Place M) → Result (Kache M) (Kache M)
    unfolding rep_at fill_rep finish_store
    fill_place now pdu (ok (o, a, k)) = elim (rep_at k a) [
      | none ↦ fault
      | some rep ↦ finish_store k o a (fill_rep now pdu rep)
    ]
    fill_place now pdu (err _) = fault
    fill_place now pdu fault = fault

  module _ {M : Type 0} (hmap : HMap M Bytes ℕ) where
    -- kache_get_evcoap_response: a PDU, NULL (`err`), or an invalid access.
    unfoldable pub get_evcoap_response : Kache M → Client → Bytes → ℕ → Result (Unit {0}) OutPdu
    unfolding obj_at kache_get by_media_type answer_with read_content_type
    get_evcoap_response k cli uri garbage = elim (kache_get hmap k uri) [
      | none ↦ err tt
      | some a ↦ elim (obj_at k a) [
        | none ↦ fault
        | some obj ↦
            by_media_type k obj.reps (read_content_type garbage (some cli.req.opts))
            >>= answer_with k
      ]
    ]

    -- kache_store_evcoap_response at the time `now`.
    unfoldable pub store_evcoap_response :
        Kache M → Client → Bytes → ℕ → ℕ → Result (Kache M) (Kache M)
    unfolding client_get_response_pdu read_content_type find_place fill_place
    store_evcoap_response k cli uri garbage now =
        let pdu = client_get_response_pdu cli in
        let mt = read_content_type garbage (Option.map (λ p. p.opts) pdu) in
        fill_place now pdu (find_place hmap k uri mt)
