-- ===== src/Kache/Events.antt =====
-- The life of the cache of CoAP responses, as a sequence of what happens to it (kache_evcoap.c).
use webthings.Common.{
  ℕ, ◌≡◌, ◌≢◌, Bytes, List, [], ◌∷◌, Option, none, some, Bool, arith, err, subst, bind-eq-some,
}
use mathlib.Core.Option
use webthings.Dups.{HMap}
use webthings.Cli.{Client}
use webthings.Kache.{Kache, kache_init, kache_get}
use webthings.Kache.Evcoap.{uri_key, store_evcoap_response, timer_cb, get_evcoap_response}
use webthings.Kache.Hits.{IsCacheMap, left_by, left_by_timer, store-misses, timer_cb-misses}

-- What happens to the cache: a response is stored, or the timer of a representation fires.
pub data KacheEvent : Type 0 where
  stored : Client → Bytes → ℕ → ℕ → KacheEvent
  expired : ℕ → ℕ → KacheEvent

-- The cache after an event; `none` where that is an invalid access.
unfoldable pub kache_event :
    {M : Type 0} → Bool → HMap M Bytes ℕ → Kache M → KacheEvent → Option (Kache M)
unfolding store_evcoap_response timer_cb
kache_event le hmap k (stored cli uri garbage now) =
    left_by (store_evcoap_response le hmap k cli uri garbage now)
kache_event le hmap k (expired o a) = left_by_timer (timer_cb hmap k o a)

unfoldable pub kache_events :
    {M : Type 0} → Bool → HMap M Bytes ℕ → Kache M → List KacheEvent → Option (Kache M)
unfolding kache_event
kache_events le hmap k [] = some k
kache_events le hmap k (e ∷ es) =
    Option.bind (kache_event le hmap k e) (λ k'. kache_events le hmap k' es)

event-misses :
    {M : Type 0} (le : Bool) (hmap : HMap M Bytes ℕ) (k k' : Kache M) (e : KacheEvent) (j : Bytes)
    → IsCacheMap hmap
    → j ≢ uri_key
    → hmap.get k.map j ≡ none
    → kache_event le hmap k e ≡ some k'
    → hmap.get k'.map j ≡ none
unfolding kache_event
event-misses le hmap k k' (stored cli uri garbage now) j c n h e =
    store-misses hmap c j le k k' cli uri garbage now n h e
event-misses le hmap k k' (expired o a) j c n h e =
    timer_cb-misses hmap c j k k' o a h (ground arith)

events-miss :
    {M : Type 0} (le : Bool) (hmap : HMap M Bytes ℕ) (k k' : Kache M) (es : List KacheEvent)
    (j : Bytes)
    → IsCacheMap hmap
    → j ≢ uri_key
    → hmap.get k.map j ≡ none
    → kache_events le hmap k es ≡ some k'
    → hmap.get k'.map j ≡ none
unfolding kache_events
events-miss le hmap k k' [] j c n h e =
    let w : k ≡ k' = ground arith in subst (λ m. hmap.get m.map j ≡ none) w h
events-miss le hmap k k' (x ∷ es) j c n h e =
    let (k'', p, q) =
      bind-eq-some (kache_event le hmap k x) (λ m. kache_events le hmap m es) k' e in
    events-miss le hmap k'' k' es j c n (event-misses le hmap k k'' x j c n h p) q

-- Whatever responses were stored in a cache that was empty, and whatever timers fired,
-- kache_get_evcoap_response returns NULL for every URI but the text "uri", also for the URIs whose
-- responses were stored: u_hmap is only relied on to add no keys of its own.
pub get_evcoap_response-misses :
    {M : Type 0} (le : Bool) (hmap : HMap M Bytes ℕ) (empty : M) (es : List KacheEvent)
    (k : Kache M) (cli : Client) (uri : Bytes) (garbage : ℕ)
    → IsCacheMap hmap
    → ((j : Bytes) → hmap.get empty j ≡ none)
    → kache_events le hmap (kache_init empty) es ≡ some k
    → uri ≢ uri_key
    → get_evcoap_response le hmap k cli uri garbage ≡ err tt
unfolding get_evcoap_response kache_get kache_init
get_evcoap_response-misses le hmap empty es k cli uri garbage c z e n =
    rw (get_evcoap_response, events-miss le hmap (kache_init empty) k es uri c n (z uri) e)
