-- ===== src/Dups.antt =====
-- Detection of duplicate messages, ec_dups_* and ec_recvd_pdu_* of
-- bridge/sw/lib/evcoap/src/evcoap_base.c. The hash map of libu and the text of a key are parameters.
-- Received PDUs lie in a heap, and the map, which owns them, holds their addresses; one that was freed
-- is marked, and cannot be read.
pub mod Lifetime
pub mod Links
use webthings.Common.{
  ℕ, zero, suc, Bytes, List, [], ◌∷◌, ◌++◌, ◌≡◌, ◌≢◌, ◌⊎◌, Option, none, some, Bool, true, false,
  not, ◌&&◌, ◌||◌, length, get_elem?, if◌then◌else◌, Result, ok, err, fault, Run, done, ended,
}
use mathlib.Core.Option

-- What is used of u_hmap: lookup, insertion and deletion by key; `none` is a failure.
pub record HMap (M K V : Type 0) : Type 0 where
  pub get : M → K → Option V
  pub put : M → K → V → Option M
  pub del : M → K → Option M

-- ec_cached_pdu_t, ec_recvd_pdu_t and ec_dups_t.
pub record CachedPdu : Type 0 where
  pub is_set : Bool
  pub hdr : Bytes
  pub opts : Bytes
  pub payload : Bytes

pub record RecvdPdu (K P : Type 0) : Type 0 where
  pub who : P
  pub mid : ℕ
  pub key : K
  pub cached_pdu : CachedPdu
  pub freed : Bool

pub record Dups (M K P : Type 0) : Type 0 where
  pub map : M
  pub heap : List (RecvdPdu K P)

-- A write through the address of an element.
unfoldable pub modify {ℓ} : {A : Type ℓ} → (A → A) → List A → ℕ → List A
modify f [] a = []
modify f (x ∷ xs) zero = f x ∷ xs
modify f (x ∷ xs) (suc a) = x ∷ modify f xs a

-- ec_recvd_pdu_update. The copies are taken to succeed.
unfoldable pub recvd_pdu_update :
    {M K P : Type 0} → Dups M K P → ℕ → Bytes → Bytes → Bytes → Dups M K P
recvd_pdu_update dups recvd hdr opts payload = record dups {
  heap =
      modify
        (λ r. record r {
          cached_pdu = record { is_set = true; hdr = hdr; opts = opts; payload = payload };
        })
        dups.heap recvd;
}

-- What a new record needs: whether gettimeofday succeeds, whether the key fits u_strlcpy's buffer, and
-- whether event_new and evtimer_add succeed.
pub record Recorder (K : Type 0) : Type 0 where
  pub gettimeofday : Bool
  pub strlcpy : K → Bool
  pub event_new : Bool
  pub evtimer_add : Bool

-- ec_recvd_pdu_new; `none` is NULL, where what was made is freed again.
unfoldable pub recvd_pdu_new : {K P : Type 0} → Recorder K → K → P → ℕ → Option (RecvdPdu K P)
recvd_pdu_new sys key peer mid =
    if not sys.gettimeofday
    then none
    else (if not (sys.strlcpy key)
        then none
        else (if not sys.event_new || not sys.evtimer_add
            then none
            else some (record {
              who = peer;
              mid = mid;
              key = key;
              cached_pdu = record { is_set = false; hdr = []; opts = []; payload = [] };
              freed = false;
            })))

-- The record at an address, unless it was freed.
abbrev pub unless_zapped : {K P : Type 0} → RecvdPdu K P → Option (RecvdPdu K P)
unless_zapped r = if r.freed then none else some r

unfoldable pub recvd_at : {M K P : Type 0} → Dups M K P → ℕ → Option (RecvdPdu K P)
recvd_at dups recvd = Option.bind (get_elem? dups.heap recvd) unless_zapped

-- ec_recvd_pdu_free of the record at an address, which u_hmap calls for what it deletes.
unfoldable pub recvd_pdu_free :
    {K P : Type 0} → List (RecvdPdu K P) → Option ℕ → List (RecvdPdu K P)
unfolding modify
recvd_pdu_free heap none = heap
recvd_pdu_free heap (some recvd) = modify (λ r. record r { freed = true }) heap recvd

-- The PDU that is sent again for a record: the cached one, if it is set and the sending succeeds.
-- `net_send` is whether ec_net_send of a PDU succeeds.
abbrev pub resent : (CachedPdu → Bool) → CachedPdu → Option CachedPdu
resent net_send cpdu = if cpdu.is_set && net_send cpdu then some cpdu else none

-- What is done about a message that has a record, and the record at its address. The result holds
-- whether the message is a duplicate (1) or not (0), the PDU sent again, and the records. A client
-- ignores a failure to send.
unfoldable pub srv_found :
    {M K P : Type 0}
    → (CachedPdu → Bool)
    → Dups M K P
    → Option (RecvdPdu K P)
    → Result (Dups M K P) (Bool × Option CachedPdu × Dups M K P)
srv_found net_send dups none = fault
srv_found net_send dups (some recvd) = ok (true, resent net_send recvd.cached_pdu, dups)

-- A server fails with it.
unfoldable pub cli_found :
    {M K P : Type 0}
    → (CachedPdu → Bool)
    → Dups M K P
    → Option (RecvdPdu K P)
    → Result (Dups M K P) (Bool × Option CachedPdu × Dups M K P)
cli_found net_send dups none = fault
cli_found net_send dups (some recvd) =
    if recvd.cached_pdu.is_set && not (net_send recvd.cached_pdu)
    then err dups
    else ok (true, resent net_send recvd.cached_pdu, dups)

-- A message without a record gets one, where the insertion succeeds.
unfoldable pub inserted :
    {M K P : Type 0}
    → Dups M K P
    → Option (Dups M K P)
    → Result (Dups M K P) (Bool × Option CachedPdu × Dups M K P)
inserted dups none = err dups
inserted dups (some dups') = ok (false, none, dups')

-- The two cases of the handlers, on what ec_dups_search and ec_dups_insert give.
unfoldable pub srv_case :
    {M K P : Type 0}
    → (CachedPdu → Bool)
    → Dups M K P
    → Option ℕ
    → Option (Dups M K P)
    → Result (Dups M K P) (Bool × Option CachedPdu × Dups M K P)
unfolding srv_found inserted recvd_at
srv_case net_send dups (some recvd) insertion = srv_found net_send dups (recvd_at dups recvd)
srv_case net_send dups none insertion = inserted dups insertion

unfoldable pub cli_case :
    {M K P : Type 0}
    → (CachedPdu → Bool)
    → Dups M K P
    → Option ℕ
    → Option (Dups M K P)
    → Result (Dups M K P) (Bool × Option CachedPdu × Dups M K P)
unfolding cli_found inserted recvd_at
cli_case net_send dups (some recvd) insertion = cli_found net_send dups (recvd_at dups recvd)
cli_case net_send dups none insertion = inserted dups insertion

-- The records after a deletion, which may have failed.
unfoldable pub zapped : {M K P : Type 0} → Dups M K P → Option (Dups M K P) → Dups M K P
zapped dups none = dups
zapped dups (some dups') = dups'

-- A new record is push_recvd into the map; where that fails, it is freed.
unfoldable pub push_recvd :
    {M K P : Type 0} → HMap M K ℕ → Dups M K P → K → Option (RecvdPdu K P) → Option (Dups M K P)
push_recvd h dups key none = none
push_recvd h dups key (some new) =
    Option.map (λ map. record { map = map; heap = dups.heap ++ (new ∷ []) })
      (h.put dups.map key (length dups.heap))

-- `dup_key` is ec_dup_key_new, which prints the MID and the address.
module _ {M K P : Type 0} (h : HMap M K ℕ) (dup_key : ℕ → P → Option K) where
  -- ec_dups_search: the address of the record.
  unfoldable pub dups_search : Dups M K P → ℕ → P → Option ℕ
  dups_search dups mid peer = Option.bind (dup_key mid peer) (h.get dups.map)

  -- ec_dups_insert.
  unfoldable pub dups_insert : Recorder K → Dups M K P → P → ℕ → Option (Dups M K P)
  unfolding push_recvd recvd_pdu_new
  dups_insert sys dups peer mid =
      Option.bind (dup_key mid peer) (λ key. push_recvd h dups key (recvd_pdu_new sys key peer mid))

  -- ec_dups_delete: the record goes out of the map, and is freed.
  unfoldable pub dups_delete : Dups M K P → K → Option (Dups M K P)
  unfolding recvd_pdu_free
  dups_delete dups key =
      Option.map (λ map. record { map = map; heap = recvd_pdu_free dups.heap (h.get dups.map key) })
        (h.del dups.map key)

  -- ec_dup_zap, when the lifetime of the record at an address is over; it ignores a failure of the
  -- deletion.
  unfoldable pub dup_zap : Dups M K P → ℕ → Run (Dups M K P)
  unfolding recvd_at zapped
  dup_zap dups recvd = elim (recvd_at dups recvd) [
    | none ↦ ended
    | some r ↦ done (zapped dups (dups_delete dups r.key))
  ]

  -- ec_dups_handle_incoming_srvmsg, of a message that a client got from a server.
  unfoldable pub dups_handle_incoming_srvmsg :
      Recorder K
      → (CachedPdu → Bool)
      → Dups M K P
      → ℕ
      → P
      → Result (Dups M K P) (Bool × Option CachedPdu × Dups M K P)
  dups_handle_incoming_srvmsg sys net_send dups mid peer =
      srv_case net_send dups (dups_search dups mid peer) (dups_insert sys dups peer mid)

  -- ec_dups_handle_incoming_climsg, of a message that a server got from a client.
  unfoldable pub dups_handle_incoming_climsg :
      Recorder K
      → (CachedPdu → Bool)
      → Dups M K P
      → ℕ
      → P
      → Result (Dups M K P) (Bool × Option CachedPdu × Dups M K P)
  dups_handle_incoming_climsg sys net_send dups mid peer =
      cli_case net_send dups (dups_search dups mid peer) (dups_insert sys dups peer mid)
