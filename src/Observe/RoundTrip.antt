-- ===== src/Observe/RoundTrip.antt =====
-- ec_rem_observer takes back what ec_add_observer did, and what a failure of the latter leaves
-- (evcoap_observe.c).
use webthings.Common.{
  ℕ, suc, ◌≤◌, ◌<◌, ◌≡◌, inl, inr, refl, List, [], ◌∷◌, ◌++◌, Bytes, Option, some, Bool, true,
  false, ◌==◌, if◌then◌else◌, take, length, Result, ok, err, fault, ◌>>=◌, Bool-cases, arith,
}
use webthings.Flow.{Flow}
use webthings.Observe.{
  Peer, SockAddrs, Observer, Observation, source_match, observer_matches, observer_search,
  observation_search, observer_remove, remove_at, observer_new, observation_new,
}
use webthings.Observe.Ops.{
  add_to_new, observation_add, add_observer, remove_peer, rem_observer, observers_at,
}
use webthings.Observe.Arrive.{made}

later_err : (r : Result (Unit {0}) ℕ) → (r >>= λ i. ok (suc i)) ≡ err tt → r ≡ err tt
later_err (ok i) e = cc
later_err (err _) e = refl
later_err fault e = cc

-- What is looked for in vain among the others is found at the end.
last_found :
    (same_uri : Bytes → Bytes → Bool) (observing : List Observation) (obs : Observation)
    (uri : Bytes)
    → observation_search same_uri observing uri ≡ err tt
    → obs.freed ≡ false
    → same_uri obs.uri uri ≡ true
    → observation_search same_uri (observing ++ (obs ∷ [])) uri ≡ ok (length observing)
unfolding observation_search
last_found same_uri [] obs uri e f s = rw (f, s) refl
last_found same_uri (o ∷ os) obs uri e f s = elim (Bool-cases o.freed) [
  | inl g ↦ absurd (cc (g, e))
  | inr g ↦ elim (Bool-cases (same_uri o.uri uri)) [
    | inl h ↦ absurd (cc (g, h, e))
    | inr h ↦ rw (g, h, last_found same_uri os obs uri (later_err _ (rw (g, h) at e)) f s) refl
  ]
]

observers_at-last :
    (observing : List Observation) (obs : Observation)
    → observers_at (observing ++ (obs ∷ [])) (length observing) ≡ obs.observers
observers_at-last [] obs = refl
observers_at-last (o ∷ os) obs = observers_at-last os obs

observer_remove-last :
    (observing : List Observation) (obs : Observation) (ovr : Observer)
    → observer_remove (observing ++ (record obs { observers = ovr ∷ [] } ∷ [])) (length observing) 0
      ≡ observing
unfolding observer_remove remove_at
observer_remove-last [] obs ovr = refl
observer_remove-last (o ∷ os) obs ovr = rw (observer_remove-last os obs ovr) refl

remove_peer-last :
    (sys : SockAddrs) (observing : List Observation) (obs : Observation) (ovr : Observer)
    (conn : Peer)
    → observer_matches sys conn 0 ovr ≡ true
    → remove_peer sys
        (observing ++ (record obs { observers = ovr ∷ [] } ∷ []))
        (length observing)
        conn
      ≡ observing
unfolding remove_peer observer_search
remove_peer-last sys observing obs ovr conn m =
    rw
      (
        remove_peer,
        observers_at-last observing (record obs { observers = ovr ∷ [] }),
        m,
        observer_remove-last observing obs ovr,
      )
      refl

matches_own :
    (sys : SockAddrs) (conn : Peer) (ovr : Observer)
    → source_match sys conn ovr.peer ≡ true
    → observer_matches sys conn 0 ovr ≡ true
unfolding observer_matches
matches_own sys conn ovr m = rw m refl

-- A peer that is added to a resource that nobody observes and then removed leaves the observations as
-- they were, where libu and libevent serve, the address family of the peer is known, its token has at
-- most 8 bytes and the ETag at most 4.
pub rem_observer-add_observer :
    (sys : SockAddrs) (same_uri : Bytes → Bytes → Bool) (strlcpy : Bytes → ℕ → Option Bytes)
    (observing : List Observation) (uri u : Bytes) (flow : Flow) (conn : Peer) (max_age mt : ℕ)
    (etag : Bytes)
    → observation_search same_uri observing uri ≡ err tt
    → strlcpy uri 512 ≡ some u
    → same_uri u uri ≡ true
    → source_match sys conn conn ≡ true
    → length (take flow.token_sz flow.token) ≤ 8
    → length etag ≤ 4
    → (rest : List Observation) × (add_observer same_uri strlcpy true true observing uri flow conn
          max_age mt etag
        ≡ ok rest)
      × (rem_observer same_uri sys rest uri conn ≡ ok observing)
unfolding add_observer add_to_new observation_add observation_new rem_observer
rem_observer-add_observer sys same_uri strlcpy observing uri u flow conn max_age mt etag e c s m t
      h =
    let token = take flow.token_sz flow.token in
    let ovr : Observer = record {
      token = token;
      etag = etag;
      media_type = mt;
      peer = conn;
      last_mid = 0;
    } in
    let obs : Observation = record {
      uri = u;
      max_age = if max_age == 0 then 60 else max_age;
      observers = ovr ∷ [];
      armed = true;
      freed = false;
    } in
    (
      observing ++ (obs ∷ []),
      rw (add_observer, e, c, made token etag mt conn t h) refl,
      rw
          (
            rem_observer,
            last_found same_uri observing obs uri e refl s,
            remove_peer-last sys observing obs ovr conn (matches_own sys conn ovr m),
          )
          refl,
    )

too_long :
    (token etag : Bytes) (mt : ℕ) (conn : Peer)
    → 8 < length etag
    → observer_new token etag mt conn ≡ err tt
unfolding observer_new
too_long token etag mt conn h = ground (arith, h)

reads_freed :
    (same_uri : Bytes → Bytes → Bool) (observing : List Observation) (obs : Observation)
    (uri : Bytes)
    → observation_search same_uri observing uri ≡ err tt
    → obs.freed ≡ true
    → observation_search same_uri (observing ++ (obs ∷ [])) uri ≡ fault
unfolding observation_search
reads_freed same_uri [] obs uri e f = rw f refl
reads_freed same_uri (o ∷ os) obs uri e f = elim (Bool-cases o.freed) [
  | inl g ↦ absurd (cc (g, e))
  | inr g ↦ elim (Bool-cases (same_uri o.uri uri)) [
    | inl h ↦ absurd (cc (g, h, e))
    | inr h ↦ rw (g, h, reads_freed same_uri os obs uri (later_err _ (rw (g, h) at e)) f) refl
  ]
]

-- Where nobody observes a resource yet, libu and libevent serve, and the observer is refused for its
-- ETag of more than 8 bytes, the new observation is freed but stays in the list: the next search for
-- the resource reads it.
pub add_observer_dangling :
    (same_uri : Bytes → Bytes → Bool) (strlcpy : Bytes → ℕ → Option Bytes)
    (observing : List Observation) (uri u : Bytes) (flow : Flow) (conn : Peer) (max_age mt : ℕ)
    (etag : Bytes)
    → observation_search same_uri observing uri ≡ err tt
    → strlcpy uri 512 ≡ some u
    → 8 < length etag
    → (rest : List Observation) × (add_observer same_uri strlcpy true true observing uri flow conn
          max_age mt etag
        ≡ err rest)
      × (observation_search same_uri rest uri ≡ fault)
unfolding add_observer add_to_new observation_add observation_new
add_observer_dangling same_uri strlcpy observing uri u flow conn max_age mt etag e c h =
    let obs : Observation = record {
      uri = u;
      max_age = if max_age == 0 then 60 else max_age;
      observers = [];
      armed = false;
      freed = true;
    } in
    (
      observing ++ (obs ∷ []),
      rw (add_observer, e, c, too_long (take flow.token_sz flow.token) etag mt conn h) refl,
      reads_freed same_uri observing obs uri e refl,
    )
