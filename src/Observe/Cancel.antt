-- ===== src/Observe/Cancel.antt =====
-- What adding and removing observers makes of the observations (evcoap_observe.c).
use webthings.Common.{
  ℕ, zero, suc, ◌+◌, ◌≡◌, ◌≢◌, ◌⊎◌, inl, inr, refl, List, [], ◌∷◌, All, none, some, true, false,
  length, ok, err, Bool-cases, arith,
}
use webthings.Observe.{
  Peer, SockAddrs, Observer, Observation, observer_matches, observer_search, observer_remove,
  remove_at,
}
use webthings.Observe.Ops.{rst_search, canceled_by_rst}

-- An observation of the list is in use, and somebody observes it.
pub record IsObserved (obs : Observation) : Type 0 where
  pub in_use : obs.freed ≡ false
  pub observed : obs.observers ≢ []

abbrev pub AreObserved : List Observation → Type 0
AreObserved observing = All IsObserved observing

-- How many observers there are.
abbrev pub observers_count : List Observation → ℕ
observers_count [] = 0
observers_count (obs ∷ observing) = length obs.observers + observers_count observing

-- No observer of the peer has that MID.
abbrev pub NoMatch : SockAddrs → Peer → ℕ → List Observer → Type 0
NoMatch sys peer mid ovrs = All (λ ovr. observer_matches sys peer mid ovr ≡ false) ovrs

-- The first list without its first observer of the peer with that MID.
pub data Gone (sys : SockAddrs) (peer : Peer) (mid : ℕ)
    : List Observer → List Observer → Type 0 where
  first :
      {ovr : Observer} {ovrs : List Observer}
      → observer_matches sys peer mid ovr ≡ true
      → Gone sys peer mid (ovr ∷ ovrs) ovrs
  behind :
      {ovr : Observer} {ovrs rest : List Observer}
      → observer_matches sys peer mid ovr ≡ false
      → Gone sys peer mid ovrs rest
      → Gone sys peer mid (ovr ∷ ovrs) (ovr ∷ rest)

-- The observations without the first such observer of any of them: the others are as they were, and an
-- observation goes with its last observer.
pub data Canceled (sys : SockAddrs) (peer : Peer) (mid : ℕ)
    : List Observation → List Observation → Type 0 where
  observed_still :
      {obs : Observation} {observing : List Observation} {o : Observer} {os : List Observer}
      → Gone sys peer mid obs.observers (o ∷ os)
      → Canceled sys peer mid (obs ∷ observing) (record obs { observers = o ∷ os } ∷ observing)
  observed_no_more :
      {obs : Observation} {observing : List Observation}
      → Gone sys peer mid obs.observers []
      → Canceled sys peer mid (obs ∷ observing) observing
  in_later :
      {obs : Observation} {observing rest : List Observation}
      → NoMatch sys peer mid obs.observers
      → Canceled sys peer mid observing rest
      → Canceled sys peer mid (obs ∷ observing) (obs ∷ rest)

Canceled-here :
    (sys : SockAddrs) (peer : Peer) (mid : ℕ) (obs : Observation) (observing : List Observation)
    (os : List Observer)
    → Gone sys peer mid obs.observers os
    → Canceled sys peer mid
        (obs ∷ observing)
        (elim os [ [] ↦ observing | o ∷ os' ↦ record obs { observers = o ∷ os' } ∷ observing ])
Canceled-here sys peer mid obs observing [] g = observed_no_more g
Canceled-here sys peer mid obs observing (o ∷ os) g = observed_still g

search_cases :
    (sys : SockAddrs) (ovrs : List Observer) (peer : Peer) (mid : ℕ)
    → ((j : ℕ) × (observer_search sys ovrs peer mid ≡ some j)
        × Gone sys peer mid ovrs (remove_at ovrs j)
        × (suc (length (remove_at ovrs j)) ≡ length ovrs))
      ⊎ ((observer_search sys ovrs peer mid ≡ none) × NoMatch sys peer mid ovrs)
unfolding observer_search remove_at
search_cases sys [] peer mid = inr (refl, tt)
search_cases sys (ovr ∷ ovrs) peer mid = elim (Bool-cases (observer_matches sys peer mid ovr)) [
  | inl e ↦ inl (zero, rw e refl, first e, refl)
  | inr e ↦ elim (search_cases sys ovrs peer mid) [
    | inl (j, f, c, g) ↦ inl (suc j, rw (e, f) refl, behind e c, omega (arith, g))
    | inr (f, g) ↦ inr (rw (e, f) refl, (e, g))
  ]
]

remove_IsObserved :
    (obs : Observation) (observing : List Observation) (os : List Observer)
    → IsObserved obs
    → AreObserved observing
    → AreObserved
        (elim os [ [] ↦ observing | o ∷ os' ↦ record obs { observers = o ∷ os' } ∷ observing ])
remove_IsObserved obs observing [] v w = w
remove_IsObserved obs observing (o ∷ os) v w = (record { in_use = v.in_use; observed = λ q. cc }, w)

pub observer_remove-AreObserved :
    (observing : List Observation) (i j : ℕ)
    → AreObserved observing
    → AreObserved (observer_remove observing i j)
unfolding observer_remove
observer_remove-AreObserved [] i j w = tt
observer_remove-AreObserved (obs ∷ observing) zero j (v, w) =
    remove_IsObserved obs observing (remove_at obs.observers j) v w
observer_remove-AreObserved (obs ∷ observing) (suc i) j (v, w) =
    (v, observer_remove-AreObserved observing i j w)

removed_count :
    (obs : Observation) (observing : List Observation) (os : List Observer)
    → observers_count
        (elim os [ [] ↦ observing | o ∷ os' ↦ record obs { observers = o ∷ os' } ∷ observing ])
      ≡ length os + observers_count observing
removed_count obs observing [] = omega arith
removed_count obs observing (o ∷ os) = refl

-- What the search over all the observations finds.
rst_cases :
    (sys : SockAddrs) (observing : List Observation) (peer : Peer) (mid : ℕ)
    → AreObserved observing
    → ((i : ℕ) × (j : ℕ) × (rst_search sys observing peer mid ≡ ok (i, j))
        × Canceled sys peer mid observing (observer_remove observing i j)
        × (suc (observers_count (observer_remove observing i j)) ≡ observers_count observing))
      ⊎ ((rst_search sys observing peer mid ≡ err tt)
          × All (λ obs. NoMatch sys peer mid obs.observers) observing)
unfolding rst_search observer_remove
rst_cases sys [] peer mid w = inr (refl, tt)
rst_cases sys (obs ∷ observing) peer mid (v, w) = elim (search_cases sys obs.observers peer mid) [
  | inl (j, f, c, g) ↦ inl (
    zero,
    j,
    rw (v.in_use, f) refl,
    Canceled-here sys peer mid obs observing (remove_at obs.observers j) c,
    omega (arith, g, removed_count obs observing (remove_at obs.observers j)),
  )
  | inr (f, g) ↦ elim (rst_cases sys observing peer mid w) [
    | inl (i, j, h, c, k) ↦ inl (suc i, j, rw (v.in_use, f, h) refl, in_later g c, omega (arith, k))
    | inr (h, k) ↦ inr (rw (v.in_use, f, h) refl, (g, k))
  ]
]

-- Where every observation is in use and has an observer, a reset by a peer removes the first observer of
-- that peer with the MID (any MID, where it is 0) of the first observation that has one, with the
-- observation if it was its last one, leaves all the others as they are and returns 1; it returns 0 and
-- leaves all as it is exactly where there is none.
-- It never reads an observation that was freed.
pub canceled_by_rst_lem :
    (sys : SockAddrs) (observing : List Observation) (peer : Peer) (mid : ℕ)
    → AreObserved observing
    → ((rest : List Observation) × (canceled_by_rst sys observing peer mid ≡ ok (1, rest))
        × Canceled sys peer mid observing rest
        × AreObserved rest
        × (suc (observers_count rest) ≡ observers_count observing))
      ⊎ ((canceled_by_rst sys observing peer mid ≡ ok (0, observing))
          × All (λ obs. NoMatch sys peer mid obs.observers) observing)
unfolding canceled_by_rst
canceled_by_rst_lem sys observing peer mid w = elim (rst_cases sys observing peer mid w) [
  | inl (i, j, e, c, k) ↦ inl (
    observer_remove observing i j,
    rw (canceled_by_rst, e) refl,
    c,
    observer_remove-AreObserved observing i j w,
    k,
  )
  | inr (e, k) ↦ inr (rw (canceled_by_rst, e) refl, k)
]
