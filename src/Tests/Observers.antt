-- ===== src/Tests/Observers.antt =====
-- The theorems on observers, at concrete observations.
use webthings.Common.{
  replicate, ℕ, suc, List, [], ◌∷◌, All, Bytes, Option, some, true, false, ◌≡◌, ◌⊎◌, refl, ok, err,
  fault, arith,
}
use webthings.Resource.{same_bytes}
use webthings.Observe.{
  Observer, Peer, SockAddrs, Observation, observation_search, source_match, net_socklen,
}
use webthings.Observe.Ops.{add_observer, canceled_by_rst, rem_observer}
use webthings.Observe.Cancel.{AreObserved, observers_count, NoMatch, Canceled, canceled_by_rst_lem}
use webthings.Observe.Arrive.{Joined, NotOf, IsRefused, observer_of, add_observer_lem}
use webthings.Observe.RoundTrip.{rem_observer-add_observer, add_observer_dangling}
use webthings.Observe.Notify.{NotifyEnv}
use webthings.Tests.{fresh_flow, little_endian}

abbrev linux : SockAddrs
linux = record { af_inet = 2; af_inet6 = 10; inet_sz = 16; inet6_sz = 28 }

abbrev near : Peer
near = record { family = 2; addr = 2 ∷ 0 ∷ 22 ∷ 51 ∷ 10 ∷ 0 ∷ 0 ∷ 1 ∷ replicate 120 0 }

abbrev strlcpy : Bytes → ℕ → Option Bytes
strlcpy s n = some s

-- The resource `/t`, which one peer observes.
abbrev watched : List Observation
watched =
    (record {
      uri = 47 ∷ 116 ∷ [];
      max_age = 60;
      observers =
          (record { token = []; etag = []; media_type = 0; peer = near; last_mid = 9 }) ∷ [];
      armed = true;
      freed = false;
    })
    ∷ []

watched-AreObserved : AreObserved watched
watched-AreObserved = (record { in_use = refl; observed = λ q. cc }, tt)

no_other : observation_search same_bytes watched (47 ∷ 104 ∷ []) ≡ err tt
unfolding observation_search same_bytes
no_other = refl

canceled_by_rst_lem_example :
    ((rest : List Observation) × (canceled_by_rst linux watched near 9 ≡ ok (1, rest))
      × Canceled linux near 9 watched rest
      × AreObserved rest
      × (suc (observers_count rest) ≡ observers_count watched))
    ⊎ ((canceled_by_rst linux watched near 9 ≡ ok (0, watched))
        × All (λ obs. NoMatch linux near 9 obs.observers) watched)
canceled_by_rst_lem_example = canceled_by_rst_lem linux watched near 9 watched-AreObserved

add_observer_lem_example :
    ((rest : List Observation) × (add_observer same_bytes strlcpy true true watched
          (47 ∷ 104 ∷ [])
          fresh_flow
          near
          30
          0
          []
        ≡ ok rest)
      × Joined same_bytes strlcpy (47 ∷ 104 ∷ []) 30 (observer_of fresh_flow near 0 []) watched rest
      × AreObserved rest
      × (observers_count rest ≡ suc (observers_count watched)))
    ⊎ ((add_observer same_bytes strlcpy true true watched (47 ∷ 104 ∷ []) fresh_flow near 30 0 []
          ≡ err watched)
        × NotOf same_bytes (47 ∷ 104 ∷ []) watched
        × IsRefused strlcpy true true (47 ∷ 104 ∷ []))
add_observer_lem_example =
    add_observer_lem same_bytes strlcpy true true watched (47 ∷ 104 ∷ []) fresh_flow near 30 0 []
      watched-AreObserved (omega arith) (omega arith)

same_path : same_bytes (47 ∷ 104 ∷ []) (47 ∷ 104 ∷ []) ≡ true
unfolding same_bytes
same_path = refl

near_itself : source_match linux near near ≡ true
unfolding source_match net_socklen same_bytes
near_itself = refl

rem_observer-add_observer_example :
    (rest : List Observation) × (add_observer same_bytes strlcpy true true watched
        (47 ∷ 104 ∷ [])
        fresh_flow
        near
        30
        0
        []
      ≡ ok rest)
    × (rem_observer same_bytes linux rest (47 ∷ 104 ∷ []) near ≡ ok watched)
rem_observer-add_observer_example =
    rem_observer-add_observer linux same_bytes strlcpy watched (47 ∷ 104 ∷ []) (47 ∷ 104 ∷ [])
      fresh_flow near 30 0 [] no_other refl same_path near_itself (omega arith) (omega arith)

abbrev nine : Bytes
nine = 1 ∷ 2 ∷ 3 ∷ 4 ∷ 5 ∷ 6 ∷ 7 ∷ 8 ∷ 9 ∷ []

add_observer_dangling_example :
    (rest : List Observation) × (add_observer same_bytes strlcpy true true watched
        (47 ∷ 104 ∷ [])
        fresh_flow
        near
        30
        0
        nine
      ≡ err rest)
    × (observation_search same_bytes rest (47 ∷ 104 ∷ []) ≡ fault)
add_observer_dangling_example =
    add_observer_dangling same_bytes strlcpy watched (47 ∷ 104 ∷ []) (47 ∷ 104 ∷ []) fresh_flow near
      30 0 nine no_other refl (omega arith)

-- A network that carries nothing.
abbrev silent : NotifyEnv
silent = record {
  le = true;
  host = little_endian;
  random = λ ovr. 4711;
  uninitialized = 0;
  drained = false;
  net_send = λ pdu. false;
  add_ok = true;
  reps_cb = λ uri ovr. some (50 ∷ []);
}

abbrev watcher : Observer
watcher = record { token = []; etag = []; media_type = 0; peer = near; last_mid = 9 }

abbrev reading : Observation
reading = record {
  uri = 47 ∷ 116 ∷ [];
  max_age = 60;
  observers = watcher ∷ watcher ∷ [];
  armed = false;
  freed = false;
}
