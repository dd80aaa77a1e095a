-- ===== src/Observe/Arrive.antt =====
-- What ec_add_observer makes of the observations (evcoap_observe.c).
use webthings.Common.{
  ℕ, zero, suc, ◌≤◌, ◌<◌, ◌≡◌, ◌≢◌, ◌⊎◌, inl, inr, refl, List, [], ◌∷◌, ◌++◌, All, Bytes, Option,
  none, some, Bool, true, false, ◌==◌, if◌then◌else◌, take, length, length-append, ok, err,
  Bool-cases, arith,
}
use webthings.Flow.{Flow}
use webthings.Observe.{
  Peer, Observer, Observation, observation_search, observer_new, observation_new,
}
use webthings.Observe.Ops.{append_observer, add_to_old, add_to_new, observation_add, add_observer}
use webthings.Observe.Cancel.{AreObserved, observers_count}

-- The search never reads an observation that was freed, and stays in the list.
pub uri_cases :
    (same_uri : Bytes → Bytes → Bool) (observing : List Observation) (uri : Bytes)
    → AreObserved observing
    → ((i : ℕ) × (observation_search same_uri observing uri ≡ ok i) × (i < length observing))
      ⊎ (observation_search same_uri observing uri ≡ err tt)
unfolding observation_search
uri_cases same_uri [] uri w = inr refl
uri_cases same_uri (obs ∷ observing) uri (v, w) = elim (Bool-cases (same_uri obs.uri uri)) [
  | inl e ↦ inl (zero, rw (v.in_use, e) refl, omega arith)
  | inr e ↦ elim (uri_cases same_uri observing uri w) [
    | inl (i, f, g) ↦ inl (suc i, rw (v.in_use, e, f) refl, omega (arith, g))
    | inr f ↦ inr (rw (v.in_use, e, f) refl)
  ]
]

-- The observations with one observer more: behind those of the first observation of the URI, or, where
-- there is none, alone in a new observation behind all the others, which counts down.
pub data Joined (same_uri : Bytes → Bytes → Bool) (strlcpy : Bytes → ℕ → Option Bytes) (uri : Bytes)
    (max_age : ℕ) (ovr : Observer) : List Observation → List Observation → Type 0 where
  joins :
      {obs : Observation} {observing : List Observation}
      → same_uri obs.uri uri ≡ true
      → Joined same_uri strlcpy uri max_age ovr
          (obs ∷ observing)
          (record obs { observers = obs.observers ++ (ovr ∷ []) } ∷ observing)
  goes_by :
      {obs : Observation} {observing rest : List Observation}
      → same_uri obs.uri uri ≡ false
      → Joined same_uri strlcpy uri max_age ovr observing rest
      → Joined same_uri strlcpy uri max_age ovr (obs ∷ observing) (obs ∷ rest)
  starts :
      {u : Bytes}
      → strlcpy uri 512 ≡ some u
      → Joined same_uri strlcpy uri max_age ovr [] (
          (record {
            uri = u;
            max_age = if max_age == 0 then 60 else max_age;
            observers = ovr ∷ [];
            armed = true;
            freed = false;
          })
          ∷ [])

-- No observation is of the URI.
abbrev pub NotOf : (Bytes → Bytes → Bool) → Bytes → List Observation → Type 0
NotOf same_uri uri observing = All (λ obs. same_uri obs.uri uri ≡ false) observing

Joined-cases :
    (same_uri : Bytes → Bytes → Bool) (strlcpy : Bytes → ℕ → Option Bytes)
    (observing : List Observation) (uri : Bytes) (max_age : ℕ) (ovr : Observer)
    → AreObserved observing
    → ((i : ℕ) × (observation_search same_uri observing uri ≡ ok i)
        × (i < length observing)
        × Joined same_uri strlcpy uri max_age ovr observing (append_observer observing i ovr))
      ⊎ ((observation_search same_uri observing uri ≡ err tt) × NotOf same_uri uri observing)
unfolding observation_search append_observer
Joined-cases same_uri strlcpy [] uri max_age ovr w = inr (refl, tt)
Joined-cases same_uri strlcpy (obs ∷ observing) uri max_age ovr (v, w) =
    elim (Bool-cases (same_uri obs.uri uri)) [
      | inl e ↦ inl (zero, rw (v.in_use, e) refl, omega arith, joins e)
      | inr e ↦ elim (Joined-cases same_uri strlcpy observing uri max_age ovr w) [
        | inl (i, f, g, j) ↦ inl (suc i, rw (v.in_use, e, f) refl, omega (arith, g), goes_by e j)
        | inr (f, n) ↦ inr (rw (v.in_use, e, f) refl, (e, n))
      ]
    ]

starts_last :
    (same_uri : Bytes → Bytes → Bool) (strlcpy : Bytes → ℕ → Option Bytes)
    (observing : List Observation) (uri u : Bytes) (max_age : ℕ) (ovr : Observer)
    → strlcpy uri 512 ≡ some u
    → NotOf same_uri uri observing
    → Joined same_uri strlcpy uri max_age ovr observing (
        observing
        ++ ((record {
          uri = u;
          max_age = if max_age == 0 then 60 else max_age;
          observers = ovr ∷ [];
          armed = true;
          freed = false;
        })
            ∷ []))
starts_last same_uri strlcpy [] uri u max_age ovr c n = starts c
starts_last same_uri strlcpy (obs ∷ observing) uri u max_age ovr c (e, n) =
    goes_by e (starts_last same_uri strlcpy observing uri u max_age ovr c n)

last_observed : (ovrs : List Observer) (ovr : Observer) → ovrs ++ (ovr ∷ []) ≢ []
last_observed [] ovr = λ q. cc
last_observed (o ∷ os) ovr = λ q. cc

append_observer_lem :
    (observing : List Observation) (i : ℕ) (ovr : Observer)
    → i < length observing
    → AreObserved observing
    → AreObserved (append_observer observing i ovr)
      × (observers_count (append_observer observing i ovr) ≡ suc (observers_count observing))
unfolding append_observer
append_observer_lem [] i ovr h w = absurd (omega (arith, h))
append_observer_lem (obs ∷ observing) zero ovr h (v, w) = (
  (record { in_use = v.in_use; observed = last_observed obs.observers ovr }, w),
  omega (arith, length-append obs.observers (ovr ∷ [])),
)
append_observer_lem (obs ∷ observing) (suc i) ovr h (v, w) =
    let (a, c) = append_observer_lem observing i ovr (omega (arith, h)) w in
    ((v, a), omega (arith, c))

append_observation_lem :
    (observing : List Observation) (obs : Observation) (ovr : Observer)
    → obs.freed ≡ false
    → AreObserved observing
    → AreObserved (observing ++ (record obs { observers = ovr ∷ [] } ∷ []))
      × (observers_count (observing ++ (record obs { observers = ovr ∷ [] } ∷ []))
          ≡ suc (observers_count observing))
append_observation_lem [] obs ovr f w =
    ((record { in_use = f; observed = λ q. cc }, tt), omega arith)
append_observation_lem (o ∷ os) obs ovr f (v, w) =
    let (a, c) = append_observation_lem os obs ovr f w in ((v, a), omega (arith, c))

Option-cases : (o : Option Bytes) → (o ≡ none) ⊎ ((u : Bytes) × (o ≡ some u))
Option-cases none = inl refl
Option-cases (some u) = inr (u, refl)

-- What libu or libevent refuses: the URI is too long for its buffer, or there is no timer.
abbrev pub IsRefused : (Bytes → ℕ → Option Bytes) → Bool → Bool → Bytes → Type 0
IsRefused strlcpy new_ok add_ok uri =
    (strlcpy uri 512 ≡ none) ⊎ ((new_ok ≡ false) ⊎ (add_ok ≡ false))

-- A new observation, with its countdown started.
added_cases :
    (strlcpy : Bytes → ℕ → Option Bytes) (new_ok add_ok : Bool) (uri : Bytes) (max_age : ℕ)
    → ((u : Bytes) × (strlcpy uri 512 ≡ some u)
        × (observation_add add_ok (observation_new strlcpy new_ok uri max_age)
            ≡ ok (record {
              uri = u;
              max_age = if max_age == 0 then 60 else max_age;
              observers = [];
              armed = true;
              freed = false;
            })))
      ⊎ ((observation_add add_ok (observation_new strlcpy new_ok uri max_age) ≡ err tt)
          × IsRefused strlcpy new_ok add_ok uri)
unfolding observation_add observation_new
added_cases strlcpy new_ok add_ok uri max_age = elim (Option-cases (strlcpy uri 512)) [
  | inl e ↦ inr (rw (observation_new, e) refl, inl e)
  | inr (u, e) ↦ elim (Bool-cases new_ok) [
    | inl f ↦ elim (Bool-cases add_ok) [
      | inl g ↦ inl (u, e, rw (observation_new, e, f, g) refl)
      | inr g ↦ inr (rw (observation_new, e, f, g) refl, inr (inr g))
    ]
    | inr f ↦ inr (rw (observation_new, e, f) refl, inr (inl f))
  ]
]

pub made :
    (token etag : Bytes) (mt : ℕ) (conn : Peer)
    → length token ≤ 8
    → length etag ≤ 4
    → observer_new token etag mt conn
      ≡ ok (record { token = token; etag = etag; media_type = mt; peer = conn; last_mid = 0 })
unfolding observer_new
made token etag mt conn t h = ground (arith, t, h)

-- The observer that is made of a flow and its peer.
abbrev pub observer_of : Flow → Peer → ℕ → Bytes → Observer
observer_of flow conn mt etag = record {
  token = take flow.token_sz flow.token;
  etag = etag;
  media_type = mt;
  peer = conn;
  last_mid = 0;
}

-- Where every observation is in use and has an observer: with a token of at most 8 bytes and an ETag of
-- at most 4, a peer is added as one observer more, behind those of the first observation of the URI, or
-- in a new observation behind all the others where none is of the URI; all else stays as it is, and
-- every observation keeps an observer. Or nothing changes and -1 is returned: then no observation is of
-- the URI, and libu refuses to copy the URI or libevent refuses the countdown.
pub add_observer_lem :
    (same_uri : Bytes → Bytes → Bool) (strlcpy : Bytes → ℕ → Option Bytes) (new_ok add_ok : Bool)
    (observing : List Observation) (uri : Bytes) (flow : Flow) (conn : Peer) (max_age mt : ℕ)
    (etag : Bytes)
    → AreObserved observing
    → length (take flow.token_sz flow.token) ≤ 8
    → length etag ≤ 4
    → ((rest : List Observation) × (add_observer same_uri strlcpy new_ok add_ok observing uri flow
            conn max_age mt etag
          ≡ ok rest)
        × Joined same_uri strlcpy uri max_age (observer_of flow conn mt etag) observing rest
        × AreObserved rest
        × (observers_count rest ≡ suc (observers_count observing)))
      ⊎ ((add_observer same_uri strlcpy new_ok add_ok observing uri flow conn max_age mt etag
            ≡ err observing)
          × NotOf same_uri uri observing
          × IsRefused strlcpy new_ok add_ok uri)
unfolding add_observer add_to_old add_to_new
add_observer_lem same_uri strlcpy new_ok add_ok observing uri flow conn max_age mt etag w t h =
    let ovr = observer_of flow conn mt etag in
    let o = made (take flow.token_sz flow.token) etag mt conn t h in
    elim (Joined-cases same_uri strlcpy observing uri max_age ovr w) [
      | inl (i, e, g, j) ↦
          let (a, c) = append_observer_lem observing i ovr g w in
          inl (append_observer observing i ovr, rw (add_observer, e, o) refl, j, a, c)
      | inr (e, n) ↦ elim (added_cases strlcpy new_ok add_ok uri max_age) [
        | inl (u, s, f) ↦
            let new : Observation = record {
              uri = u;
              max_age = if max_age == 0 then 60 else max_age;
              observers = [];
              armed = true;
              freed = false;
            } in
            let (a, c) = append_observation_lem observing new ovr refl w in
            inl (
              observing ++ (record new { observers = ovr ∷ [] } ∷ []),
              rw (add_observer, e, f, o) refl,
              starts_last same_uri strlcpy observing uri u max_age ovr s n,
              a,
              c,
            )
        | inr (f, q) ↦ inr (rw (add_observer, e, f) refl, n, q)
      ]
    ]
