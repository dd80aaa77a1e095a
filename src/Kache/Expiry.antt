-- ===== src/Kache/Expiry.antt =====
-- What the timer of the last representation leaves in the cache, kache_evcoap_timer_cb of
-- kache_evcoap.c.
use webthings.Common.{
  ℕ, zero, suc, ◌≡◌, refl, ap, ◌∙◌, subst, Bytes, List, [], ◌∷◌, none, some, Bool, true, arith, ok,
  fault, get_elem?, ==_refl,
}
use webthings.Dups.{HMap, modify}
use webthings.Cli.{Client}
use webthings.Kache.{
  KacheObj, Kache, live_obj, obj_at, rep_at, put_obj, put_rep, kache_get, kache_unset,
}
use webthings.Kache.Objects.{
  without, remove_rep, rep_nth, peak_rep, clear_kache_rep, free_kache_rep, free_kache_obj,
}
use webthings.Kache.Evcoap.{drop_obj, timer_cb, get_evcoap_response}
use webthings.Kache.Dangling.{stops}
use webthings.Kache.Hits.{valid-eq-ok, >>=-eq-ok}

modify-freed :
    (xs : List KacheObj) (a : ℕ) (o : KacheObj)
    → o.freed ≡ true
    → live_obj (get_elem? (modify (λ _. o) xs a) a) ≡ none
unfolding modify
modify-freed [] a r f = refl
modify-freed (x ∷ xs) zero r f = rw f
modify-freed (x ∷ xs) (suc a) r f = modify-freed xs a r f

free_kache_obj-dead :
    {M : Type 0} (k k' : Kache M) (o : ℕ)
    → free_kache_obj k o ≡ ok k'
    → (obj_at k' o ≡ none) × (k'.map ≡ k.map)
unfolding free_kache_obj obj_at put_obj
free_kache_obj-dead k k' o h =
    let (obj, _, e) = valid-eq-ok (obj_at k o) _ _ h in
    let w : put_obj k o (record obj { freed = true }) ≡ k' = ground arith in
    subst (λ c. (obj_at c o ≡ none) × (c.map ≡ k.map)) w
      (modify-freed k.objs o (record obj { freed = true }) refl, refl)

free_kache_rep-objs :
    {M : Type 0} (k k' : Kache M) (a : ℕ)
    → free_kache_rep k a ≡ ok k'
    → (k'.objs ≡ k.objs) × (k'.map ≡ k.map)
unfolding free_kache_rep put_rep
free_kache_rep-objs k k' a h =
    let (rep, _, e) = valid-eq-ok (rep_at k a) _ _ h in
    let (r, _, f) = >>=-eq-ok (clear_kache_rep rep) _ _ e in (ground arith, ground arith)

only_one : (obj : KacheObj) (a : ℕ) → obj.reps ≡ a ∷ [] → (remove_rep obj a).reps ≡ []
unfolding remove_rep without
only_one obj a h = rw (h, ==_refl a)

drop_obj-last :
    {M : Type 0} (hmap : HMap M Bytes ℕ) (k k' : Kache M) (o : ℕ) (obj : KacheObj)
    → obj.reps ≡ []
    → hmap.del k.map obj.key ≡ none
    → drop_obj hmap k o obj ≡ ok k'
    → free_kache_obj k o ≡ ok k'
unfolding drop_obj peak_rep rep_nth kache_unset
drop_obj-last hmap k k' o obj r d h = ground arith

same_objs : {M : Type 0} (k k' : Kache M) (o : ℕ) → k'.objs ≡ k.objs → obj_at k' o ≡ obj_at k o
unfolding obj_at
same_objs k k' o e = ap (λ xs. live_obj (get_elem? xs o)) e

-- Where an object is stored under another key than its own, and the map has nothing under its own, the
-- timer of its only representation gives the object back and leaves its address in the map: the next
-- kache_get_evcoap_response for that key reads it.
pub timer_cb-dangling :
    {M : Type 0} (le : Bool) (hmap : HMap M Bytes ℕ) (k k' : Kache M) (o a : ℕ) (obj : KacheObj)
    (key : Bytes) (cli : Client) (garbage : ℕ)
    → kache_get hmap k key ≡ some o
    → obj_at k o ≡ some obj
    → obj.reps ≡ a ∷ []
    → hmap.del k.map obj.key ≡ none
    → timer_cb hmap k o a ≡ ok k'
    → get_evcoap_response le hmap k' cli key garbage ≡ fault
unfolding timer_cb get_evcoap_response kache_get
timer_cb-dangling le hmap k k' o a obj key cli garbage g e r d h =
    let (x, q, f) = valid-eq-ok (obj_at k o) _ _ h in
    let same : obj ≡ x = cc in
    let (k'', u, v) =
      >>=-eq-ok (drop_obj hmap (put_obj k o (remove_rep x a)) o (remove_rep x a)) _ _ f in
    let last =
      drop_obj-last hmap (put_obj k o (remove_rep x a)) k'' o (remove_rep x a)
        (only_one x a (subst (λ y. y.reps ≡ a ∷ []) same r))
        (subst (λ y. hmap.del k.map y.key ≡ none) same d) u in
    let (dead, map'') = free_kache_obj-dead (put_obj k o (remove_rep x a)) k'' o last in
    let (objs', map') = free_kache_rep-objs k'' k' a v in
    rw (get_evcoap_response, kache_get, map', map'', g)
      (stops _ _ (same_objs k'' k' o objs' ∙ dead))
