-- ===== src/Observe.antt =====
-- Observation of resources on the server's side, bridge/sw/lib/evcoap/src/evcoap_observe.c.
pub mod Ops
pub mod Cancel
pub mod Arrive
pub mod RoundTrip
pub mod Notify
use webthings.Common.{
  ℕ, zero, suc, ◌+◌, List, [], ◌∷◌, ◌++◌, Bytes, Option, none, some, Bool, true, false, not, ◌==◌,
  ltb, ◌||◌, ◌&&◌, if◌then◌else◌, take, length, Result, ok, err, fault, ◌>>=◌,
}
use webthings.Resource.{same_bytes}
use webthings.Flow.{Flow}
use mathlib.Core.Option

-- A struct sockaddr_storage: its family and its bytes; and the numbers of the families and the sizes of
-- their addresses on the host.
pub record Peer : Type 0 where
  pub family : ℕ
  pub addr : Bytes

pub record SockAddrs : Type 0 where
  pub af_inet : ℕ
  pub af_inet6 : ℕ
  pub inet_sz : ℕ
  pub inet6_sz : ℕ

-- ec_observer_t. `token` and `etag` are the bytes in use.
pub record Observer : Type 0 where
  pub token : Bytes
  pub etag : Bytes
  pub media_type : ℕ
  pub peer : Peer
  pub last_mid : ℕ

-- ec_observation_t; `armed` is whether the countdown runs, `freed` whether the memory was given back
-- with the observation still in the list.
pub record Observation : Type 0 where
  pub uri : Bytes
  pub max_age : ℕ
  pub observers : List Observer
  pub armed : Bool
  pub freed : Bool

-- ec_net_socklen; `none` is -1.
unfoldable pub net_socklen : SockAddrs → ℕ → Option ℕ
net_socklen sys family =
    if family == sys.af_inet
    then some sys.inet_sz
    else (if family == sys.af_inet6 then some sys.inet6_sz else none)

-- ec_source_match: the request's address, the observer's.
unfoldable pub source_match : SockAddrs → Peer → Peer → Bool
unfolding net_socklen same_bytes
source_match sys req_src obs_src = elim (net_socklen sys req_src.family) [
  | none ↦ false
  | some peer_len ↦ same_bytes (take peer_len req_src.addr) (take peer_len obs_src.addr)
]

-- The test of ec_observer_search: a MID of 0 is not compared.
unfoldable pub observer_matches : SockAddrs → Peer → ℕ → Observer → Bool
unfolding source_match
observer_matches sys peer mid ovr =
    source_match sys peer ovr.peer && (mid == 0 || ovr.last_mid == mid)

-- ec_observer_search: the position of the observer.
unfoldable pub observer_search : SockAddrs → List Observer → Peer → ℕ → Option ℕ
observer_search sys [] peer mid = none
observer_search sys (ovr ∷ ovrs) peer mid =
    if observer_matches sys peer mid ovr
    then some zero
    else Option.map suc (observer_search sys ovrs peer mid)

-- ec_observation_search: the position of the observation. `same_uri` is evutil_ascii_strcasecmp of
-- libevent. An observation that was freed cannot be read.
unfoldable pub observation_search :
    (Bytes → Bytes → Bool) → List Observation → Bytes → Result (Unit {0}) ℕ
observation_search same_uri [] uri = err tt
observation_search same_uri (obs ∷ observing) uri =
    let rest = observation_search same_uri observing uri in
    if obs.freed
    then fault
    else (if same_uri obs.uri uri then ok zero else (rest >>= λ i. ok (suc i)))

-- TAILQ_REMOVE of the element at a position.
unfoldable pub remove_at {ℓ} : {A : Type ℓ} → List A → ℕ → List A
remove_at [] n = []
remove_at (x ∷ xs) zero = xs
remove_at (x ∷ xs) (suc n) = x ∷ remove_at xs n

-- ec_observer_remove: of the observation at `i`, the observer at `j`; an observation without observers
-- goes too.
unfoldable pub observer_remove : List Observation → ℕ → ℕ → List Observation
unfolding remove_at
observer_remove [] i j = []
observer_remove (obs ∷ observing) zero j = elim (remove_at obs.observers j) [
  | [] ↦ observing
  | o ∷ os ↦ record obs { observers = o ∷ os } ∷ observing
]
observer_remove (obs ∷ observing) (suc i) j = obs ∷ observer_remove observing i j

-- ec_observer_new. The size of the ETag is compared with that of `token`, and it is copied into an
-- array of EC_ETAG_SZ bytes.
unfoldable pub observer_new : Bytes → Bytes → ℕ → Peer → Result (Unit {0}) Observer
observer_new token etag media_type conn =
    if ltb 8 (length token) || ltb 8 (length etag)
    then err tt
    else (if ltb 4 (length etag)
        then fault
        else ok (record {
          token = token;
          etag = etag;
          media_type = media_type;
          peer = conn;
          last_mid = 0;
        }))

-- ec_observation_new, with u_strlcpy of libu and whether evtimer_new of libevent succeeds.
unfoldable pub observation_new :
    (Bytes → ℕ → Option Bytes) → Bool → Bytes → ℕ → Result (Unit {0}) Observation
observation_new strlcpy new_ok uri max_age = elim (strlcpy uri 512) [
  | none ↦ err tt
  | some u ↦
      if new_ok
      then ok (record {
        uri = u;
        max_age = if max_age == 0 then 60 else max_age;
        observers = [];
        armed = false;
        freed = false;
      })
      else err tt
]
