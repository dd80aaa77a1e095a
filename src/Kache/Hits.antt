-- ===== src/Kache/Hits.antt =====
-- What the cache of CoAP responses can find: kache_store_evcoap_response stores under the key "uri", and
-- kache_get_evcoap_response looks up the URI of the request (kache_evcoap.c).
use webthings.Common.{
  ℕ, ◌≡◌, ◌≢◌, inl, inr, refl, Bytes, Option, none, some, Bool, arith, ok, err, fault, Result,
  ◌>>=◌, Option-cases, length, subst,
}
use webthings.Dups.{HMap}
use webthings.Cli.{Client, ResPdu, client_get_response_pdu}
use webthings.Kache.{
  KacheRep, KacheObj, Kache, obj_at, rep_at, put_obj, put_rep, kache_get, kache_set, kache_unset,
}
use webthings.Kache.Content.{ContentType}
use webthings.Kache.Objects.{
  remove_rep, by_media_type, clear_kache_rep, peak_rep, free_kache_obj, free_kache_rep,
}
use webthings.Kache.Evcoap.{
  uri_key, place_old, place_new, find_place, finish_store, fill_rep, fill_place,
  store_evcoap_response, drop_obj, timer_cb,
}

-- What is documented of u_hmap, whichever entries its policy discards: an insertion may add its own key,
-- and a deletion adds none.
pub record IsCacheMap {M : Type 0} (hmap : HMap M Bytes ℕ) : Type 0 where
  pub put_other :
      (m m' : M) (k : Bytes) (v : ℕ)
      → hmap.put m k v ≡ some m'
      → (j : Bytes) → j ≢ k
      → hmap.get m j ≡ none
      → hmap.get m' j ≡ none
  pub del_other :
      (m m' : M) (k : Bytes)
      → hmap.del m k ≡ some m'
      → (j : Bytes) → hmap.get m j ≡ none
      → hmap.get m' j ≡ none

-- The cache that an operation leaves, unless it ends in an invalid access.
abbrev pub left_by : {M : Type 0} → Result (Kache M) (Kache M) → Option (Kache M)
left_by (ok k) = some k
left_by (err k) = some k
left_by fault = none

abbrev pub left_by_timer : {M : Type 0} → Result (Unit {0}) (Kache M) → Option (Kache M)
left_by_timer (ok k) = some k
left_by_timer (err _) = none
left_by_timer fault = none

-- What an operation that succeeds went through: a valid access, and a step that succeeded.
pub valid-eq-ok {ℓ κ} :
    {A : Type ℓ} {B : Type κ} (o : Option A) (f : A → Result (Unit {0}) B) (b : B)
    → (elim o [ none ↦ fault | some a ↦ f a ]) ≡ ok b
    → (a : A) × (o ≡ some a) × (f a ≡ ok b)
valid-eq-ok none f b h = cc
valid-eq-ok (some a) f b h = (a, refl, h)

pub >>=-eq-ok {κ} :
    {A B : Type κ} (m : Result (Unit {0}) A) (f : A → Result (Unit {0}) B) (b : B)
    → (m >>= f) ≡ ok b
    → (a : A) × (m ≡ ok a) × (f a ≡ ok b)
>>=-eq-ok (ok a) f b h = (a, refl, h)
>>=-eq-ok (err e) f b h = cc
>>=-eq-ok fault f b h = cc

module _ {M : Type 0} where
  finish_store-map :
      (k k' : Kache M) (o a : ℕ) (r : Result (Unit {0}) KacheRep)
      → left_by (finish_store k o a r) ≡ some k'
      → k'.map ≡ k.map
  unfolding finish_store put_obj put_rep
  finish_store-map k k' o a (ok rep) h = ground arith
  finish_store-map k k' o a (err _) h = ground arith
  finish_store-map k k' o a fault h = cc

  fill_place-map :
      (le : Bool) (now : ℕ) (pdu : Option ResPdu) (k k' : Kache M) (o a : ℕ)
      → left_by (fill_place le now pdu (ok (o, a, k))) ≡ some k'
      → k'.map ≡ k.map
  unfolding fill_place
  fill_place-map le now pdu k k' o a h = elim (Option-cases (rep_at k a)) [
    | inl e ↦ absurd (ground arith)
    | inr (rep, e) ↦ finish_store-map k k' o a (fill_rep le now pdu rep) (ground arith)
  ]

  fill_place-found :
      (le : Bool) (now : ℕ) (pdu : Option ResPdu) (place : Result (Unit {0}) (ℕ × ℕ × Kache M))
      (k' : Kache M)
      → left_by (fill_place le now pdu place) ≡ some k'
      → (o : ℕ) × (a : ℕ) × (k : Kache M) × (place ≡ ok (o, a, k)) × (k'.map ≡ k.map)
  unfolding fill_place
  fill_place-found le now pdu (ok (o, a, k)) k' h =
      (o, a, k, refl, fill_place-map le now pdu k k' o a h)
  fill_place-found le now pdu (err _) k' h = cc
  fill_place-found le now pdu fault k' h = cc

  place_old-map :
      (k : Kache M) (o : ℕ) (obj : KacheObj) (mt : ContentType) (r : Option ℕ) (o' a : ℕ)
      (k' : Kache M)
      → place_old k o obj mt r ≡ ok (o', a, k')
      → k'.map ≡ k.map
  unfolding place_old put_obj put_rep
  place_old-map k o obj mt none o' a k' h = ground arith
  place_old-map k o obj mt (some a) o' a' k' h =
      let (rep, _, f) = valid-eq-ok (rep_at k a) _ _ h in
      let (r, _, g) = >>=-eq-ok (clear_kache_rep rep) _ _ f in ground arith

module _ {M : Type 0} (hmap : HMap M Bytes ℕ) (lawful : IsCacheMap hmap) (j : Bytes) where
  place_new-misses :
      (k : Kache M) (uri : Bytes) (mt : ContentType)
      → j ≢ uri_key
      → hmap.get k.map j ≡ none
      → hmap.get (place_new hmap k uri mt).2.map j ≡ none
  unfolding place_new kache_set
  place_new-misses k uri mt n h = elim (Option-cases (hmap.put k.map uri_key (length k.objs))) [
    | inl e ↦ rw (place_new, kache_set, e) h
    | inr (m, e) ↦
        rw (place_new, kache_set, e) (lawful.put_other k.map m uri_key (length k.objs) e j n h)
  ]

  find_place-misses :
      (k : Kache M) (uri : Bytes) (mt : ContentType) (o a : ℕ) (k' : Kache M)
      → j ≢ uri_key
      → hmap.get k.map j ≡ none
      → find_place hmap k uri mt ≡ ok (o, a, k')
      → hmap.get k'.map j ≡ none
  unfolding find_place
  find_place-misses k uri mt o a k' n h e = elim (Option-cases (kache_get hmap k uri)) [
    | inl q ↦
        let w : place_new hmap k uri mt ≡ (o, a, k') = ground arith in
        subst (λ p. hmap.get p.2.map j ≡ none) w (place_new-misses k uri mt n h)
    | inr (o', q) ↦ found o' (ground arith)
  ]
    where
      found :
          (o' : ℕ)
          → (elim (obj_at k o') [
            | none ↦ fault
            | some obj ↦ by_media_type k obj.reps mt >>= place_old k o' obj mt
          ])
            ≡ ok (o, a, k')
          → hmap.get k'.map j ≡ none
      found o' r =
          let (obj, _, f) = valid-eq-ok (obj_at k o') _ _ r in
          let (b, _, g) = >>=-eq-ok (by_media_type k obj.reps mt) _ _ f in
          rw (place_old-map k o' obj mt b o a k' g) h

  pub store-misses :
      (le : Bool) (k k' : Kache M) (cli : Client) (uri : Bytes) (garbage now : ℕ)
      → j ≢ uri_key
      → hmap.get k.map j ≡ none
      → left_by (store_evcoap_response le hmap k cli uri garbage now) ≡ some k'
      → hmap.get k'.map j ≡ none
  unfolding store_evcoap_response
  store-misses le k k' cli uri garbage now n h e =
      let (o, a, k'', p, q) = fill_place-found le now (client_get_response_pdu cli) _ k' e in
      rw q (find_place-misses k uri _ o a k'' n h p)

  freed_obj-map : (k k' : Kache M) (o : ℕ) → free_kache_obj k o ≡ ok k' → k'.map ≡ k.map
  unfolding free_kache_obj put_obj
  freed_obj-map k k' o h = let (obj, _, e) = valid-eq-ok (obj_at k o) _ _ h in ground arith

  freed_rep-map : (k k' : Kache M) (a : ℕ) → free_kache_rep k a ≡ ok k' → k'.map ≡ k.map
  unfolding free_kache_rep put_rep
  freed_rep-map k k' a h =
      let (rep, _, e) = valid-eq-ok (rep_at k a) _ _ h in
      let (r, _, f) = >>=-eq-ok (clear_kache_rep rep) _ _ e in ground arith

  drop_obj-misses :
      (k k' : Kache M) (o : ℕ) (obj : KacheObj)
      → hmap.get k.map j ≡ none
      → drop_obj hmap k o obj ≡ ok k'
      → hmap.get k'.map j ≡ none
  unfolding drop_obj kache_unset
  drop_obj-misses k k' o obj h e = elim (Option-cases (peak_rep obj)) [
    | inl p ↦ elim (Option-cases (hmap.del k.map obj.key)) [
      | inl q ↦ rw (freed_obj-map k k' o (ground arith)) h
      | inr (m, q) ↦
          rw (freed_obj-map (record k { map = m }) k' o (ground arith))
            (lawful.del_other k.map m obj.key q j h)
    ]
    | inr (r, p) ↦ let w : k ≡ k' = ground arith in subst (λ c. hmap.get c.map j ≡ none) w h
  ]

  pub timer_cb-misses :
      (k k' : Kache M) (o a : ℕ)
      → hmap.get k.map j ≡ none
      → timer_cb hmap k o a ≡ ok k'
      → hmap.get k'.map j ≡ none
  unfolding timer_cb put_obj
  timer_cb-misses k k' o a h e =
      let (obj, _, f) = valid-eq-ok (obj_at k o) _ _ e in
      let (k'', g, i) =
        >>=-eq-ok (drop_obj hmap (put_obj k o (remove_rep obj a)) o (remove_rep obj a)) _ _ f in
      rw (freed_rep-map k'' k' a i)
        (drop_obj-misses (put_obj k o (remove_rep obj a)) k'' o (remove_rep obj a) h g)
