-- ===== src/Observe/Ops.antt =====
-- How observers come and go: ec_add_observer, ec_observe_canceled_by_rst, ec_observe_canceled_by_get and
-- ec_rem_observer (evcoap_observe.c).
use webthings.Common.{
  ℕ, zero, suc, List, [], ◌∷◌, ◌++◌, Bytes, Option, none, some, Bool, true, false, not, ◌==◌,
  if◌then◌else◌, take, Result, ok, err, fault, ◌>>=◌,
}
use webthings.Enums.{Method, method_num}
use webthings.Flow.{Flow}
use webthings.Observe.{
  Peer, SockAddrs, Observer, Observation, observer_search, observation_search, observer_remove,
  observer_new, observation_new,
}

-- TAILQ_INSERT_TAIL of an observer in the observation at a position.
unfoldable pub append_observer : List Observation → ℕ → Observer → List Observation
append_observer [] i ovr = []
append_observer (obs ∷ observing) zero ovr =
    record obs { observers = obs.observers ++ (ovr ∷ []) } ∷ observing
append_observer (obs ∷ observing) (suc i) ovr = obs ∷ append_observer observing i ovr

-- The end of ec_add_observer for an observation that is there.
unfoldable pub add_to_old :
    List Observation → ℕ → Result (Unit {0}) Observer → Result (List Observation) (List Observation)
unfolding append_observer
add_to_old observing i (ok ovr) = ok (append_observer observing i ovr)
add_to_old observing i (err _) = err observing
add_to_old observing i fault = fault

-- The same for a new one, which is freed where there is no observer, and stays in the list.
unfoldable pub add_to_new :
    List Observation
    → Observation
    → Result (Unit {0}) Observer
    → Result (List Observation) (List Observation)
add_to_new observing obs (ok ovr) = ok (observing ++ (record obs { observers = ovr ∷ [] } ∷ []))
add_to_new observing obs (err _) =
    err (observing ++ (record obs { freed = true; armed = false } ∷ []))
add_to_new observing obs fault = fault

-- ec_observation_add: a new observation, with its countdown started, where evtimer_add succeeds.
unfoldable pub observation_add :
    Bool → Result (Unit {0}) Observation → Result (Unit {0}) Observation
observation_add add_ok r = r >>= λ obs. if add_ok then ok (record obs { armed = true }) else err tt

module _ (same_uri : Bytes → Bytes → Bool) (strlcpy : Bytes → ℕ → Option Bytes)
    (new_ok add_ok : Bool) where
  -- ec_add_observer for the flow of a server to the resource `uri`.
  unfoldable pub add_observer :
      List Observation
      → Bytes
      → Flow
      → Peer
      → ℕ
      → ℕ
      → Bytes
      → Result (List Observation) (List Observation)
  unfolding observation_search add_to_old add_to_new observation_add observation_new observer_new
  add_observer observing uri flow conn max_age mt etag =
      let ovr = observer_new (take flow.token_sz flow.token) etag mt conn in
      elim (observation_search same_uri observing uri) [
        | ok i ↦ add_to_old observing i ovr
        | err _ ↦ elim (observation_add add_ok (observation_new strlcpy new_ok uri max_age)) [
          | ok obs ↦ add_to_new observing obs ovr
          | err _ ↦ err observing
          | fault ↦ fault
        ]
        | fault ↦ fault
      ]

-- The search of ec_observe_canceled_by_rst: observation and observer.
unfoldable pub rst_search : SockAddrs → List Observation → Peer → ℕ → Result (Unit {0}) (ℕ × ℕ)
unfolding observer_search
rst_search sys [] peer mid = err tt
rst_search sys (obs ∷ observing) peer mid =
    let rest = rst_search sys observing peer mid in
    if obs.freed then fault else (elim (observer_search sys obs.observers peer mid) [
      | some j ↦ ok (zero, j)
      | none ↦ rest >>= λ (i, j). ok (suc i, j)
    ])

-- ec_observe_canceled_by_rst: the return and the observations.
unfoldable pub canceled_by_rst :
    SockAddrs → List Observation → Peer → ℕ → Result (Unit {0}) (ℕ × List Observation)
unfolding rst_search observer_remove
canceled_by_rst sys observing peer mid = elim (rst_search sys observing peer mid) [
  | ok (i, j) ↦ ok (1, observer_remove observing i j)
  | err _ ↦ ok (0, observing)
  | fault ↦ fault
]

-- The observers of the observation at a position.
abbrev pub observers_at : List Observation → ℕ → List Observer
observers_at [] i = []
observers_at (obs ∷ observing) zero = obs.observers
observers_at (obs ∷ observing) (suc i) = observers_at observing i

-- The removal of a peer's observer from the observation that was found.
unfoldable pub remove_peer : SockAddrs → List Observation → ℕ → Peer → List Observation
unfolding observer_search observer_remove
remove_peer sys observing i peer = elim (observer_search sys (observers_at observing i) peer 0) [
  | some j ↦ observer_remove observing i j
  | none ↦ observing
]

module _ (same_uri : Bytes → Bytes → Bool) where
  -- ec_observe_canceled_by_get: the return and the observations.
  unfoldable pub canceled_by_get :
      SockAddrs
      → List Observation
      → Method
      → Bytes
      → Peer
      → Result (Unit {0}) (ℕ × List Observation)
  unfolding observation_search remove_peer
  canceled_by_get sys observing method uri peer =
      if not (method_num method == 1)
      then ok (0, observing)
      else (elim (observation_search same_uri observing uri) [
        | ok i ↦ ok (1, remove_peer sys observing i peer)
        | err _ ↦ ok (0, observing)
        | fault ↦ fault
      ])

  -- ec_rem_observer.
  unfoldable pub rem_observer :
      SockAddrs → List Observation → Bytes → Peer → Result (Unit {0}) (List Observation)
  unfolding observation_search remove_peer
  rem_observer sys observing uri peer = elim (observation_search same_uri observing uri) [
    | ok i ↦ ok (remove_peer sys observing i peer)
    | err _ ↦ ok observing
    | fault ↦ fault
  ]
