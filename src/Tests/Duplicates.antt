-- ===== src/Tests/Duplicates.antt =====
-- The theorems on duplicate detection, with a map given by its lookup function.
use webthings.Common.{
  ℕ, [], ◌∷◌, ◌≡◌, ◌≢◌, inl, inr, refl, ap, sym, get_elem?, Option, none, some, true, ◌+◌, ◌*◌,
  ◌==◌, ==_refl, if◌then◌else◌, ok, err, Bool, false, ◌⊎◌, arith,
}
use native.Mathlib.Decide.{ℕ_discrete}
use webthings.Dups.{
  HMap, CachedPdu, RecvdPdu, Dups, Recorder, recvd_pdu_update, dups_search,
  dups_handle_incoming_srvmsg, dups_handle_incoming_climsg,
}
use webthings.Dups.Links.{IsLinked, Kept, dups_handle_incoming-IsLinked}
use webthings.Dups.Lifetime.{
  IsHMap, can_record, dups_handle_incoming_srvmsg_once,
  dups_handle_incoming_srvmsg-recvd_pdu_update,
}

abbrev Lookup : Type 0
Lookup = ℕ → Option ℕ

abbrev put_at : Lookup → ℕ → Option ℕ → Lookup
put_at m k v j = if j == k then v else m j

abbrev del_found : Lookup → ℕ → Option ℕ → Option Lookup
del_found m k none = none
del_found m k (some v) = some (put_at m k none)

abbrev lookups : HMap Lookup ℕ ℕ
lookups = record {
  get = λ m k. m k;
  put = λ m k v. some (put_at m k (some v));
  del = λ m k. del_found m k (m k);
}

put_at-same : (m : Lookup) (k : ℕ) (v : Option ℕ) → put_at m k v k ≡ v
put_at-same m k v = rw (==_refl k)

put_at-other : (m : Lookup) (k : ℕ) (v : Option ℕ) (j : ℕ) → j ≢ k → put_at m k v j ≡ m j
put_at-other m k v j n = ground arith

lookups-IsHMap : IsHMap lookups
lookups-IsHMap = record {
  keys_compare = λ j k. elim (ℕ_discrete j k) [ yes e ↦ inl e | no n ↦ inr n ];
  put_new =
      λ m k v e. (put_at m k (some v), refl, put_at-same m k (some v), put_at-other m k (some v));
  del_present = λ m k v e.
      (put_at m k none, ap (del_found m k) e, put_at-same m k none, put_at-other m k none);
}

-- The key of a message: a peer is a number below 10.
abbrev key_of : ℕ → ℕ → Option ℕ
key_of mid peer = some (mid * 10 + peer)

abbrev nothing : Dups Lookup ℕ ℕ
nothing = record { map = λ k. none; heap = [] }

abbrev record_7 : RecvdPdu ℕ ℕ
record_7 = record {
  who = 3;
  mid = 7;
  key = 73;
  cached_pdu = record { is_set = false; hdr = []; opts = []; payload = [] };
  freed = false;
}

abbrev seven_seen : Dups Lookup ℕ ℕ
seven_seen = record { map = put_at (λ k. none) 73 (some 0); heap = record_7 ∷ [] }

abbrev recorder : Recorder ℕ
recorder = record {
  gettimeofday = true;
  strlcpy = λ key. true;
  event_new = true;
  evtimer_add = true;
}

abbrev carried : CachedPdu → Bool
carried pdu = true

dups_handle_incoming_srvmsg_once_example :
    ((can_record recorder 73 ≡ true)
      × (dups' : Dups Lookup ℕ ℕ) × (dups_handle_incoming_srvmsg lookups key_of recorder carried
            nothing 7 3
          ≡ ok (false, none, dups'))
      × (dups_handle_incoming_srvmsg lookups key_of recorder carried dups' 7 3
          ≡ ok (true, none, dups'))
      × ((mid' peer' key' : ℕ)
          → key_of mid' peer' ≡ some key'
          → key' ≢ 73
          → dups_search lookups key_of dups' mid' peer'
            ≡ dups_search lookups key_of nothing mid' peer'))
    ⊎ ((can_record recorder 73 ≡ false)
        × (dups_handle_incoming_srvmsg lookups key_of recorder carried nothing 7 3 ≡ err nothing))
dups_handle_incoming_srvmsg_once_example =
    dups_handle_incoming_srvmsg_once lookups key_of recorder carried nothing 7 3 73 lookups-IsHMap
      refl refl

-- A response: its header, no options, a payload of one byte.
abbrev answer : CachedPdu
answer = record { is_set = true; hdr = 96 ∷ 69 ∷ 0 ∷ 7 ∷ []; opts = []; payload = 42 ∷ [] }

abbrev seven_answered : Dups Lookup ℕ ℕ
seven_answered = recvd_pdu_update seven_seen 0 (96 ∷ 69 ∷ 0 ∷ 7 ∷ []) [] (42 ∷ [])

dups_handle_incoming_srvmsg-recvd_pdu_update_example :
    (dups_handle_incoming_srvmsg lookups key_of recorder carried seven_answered 7 3
      ≡ ok (true, some answer, seven_answered))
    × (dups_handle_incoming_climsg lookups key_of recorder carried seven_answered 7 3
        ≡ ok (true, some answer, seven_answered))
unfolding dups_search mathlib.Core.Option.bind
dups_handle_incoming_srvmsg-recvd_pdu_update_example =
    dups_handle_incoming_srvmsg-recvd_pdu_update lookups key_of recorder carried seven_seen 7 3 0
      record_7 (96 ∷ 69 ∷ 0 ∷ 7 ∷ []) [] (42 ∷ []) refl refl refl

seven_seen-IsLinked : IsLinked lookups seven_seen
unfolding IsLinked
seven_seen-IsLinked k a e = elim (ℕ_discrete k 73) [
  | yes q ↦
      let first : a ≡ 0 = ground arith in
      (record_7, ap (get_elem? seven_seen.heap) first, sym q, refl)
  | no n ↦ absurd (ground arith)
]

dups_handle_incoming-IsLinked_example :
    Kept lookups (dups_handle_incoming_srvmsg lookups key_of recorder carried seven_seen 7 3)
    × Kept lookups (dups_handle_incoming_climsg lookups key_of recorder carried seven_seen 7 3)
dups_handle_incoming-IsLinked_example =
    dups_handle_incoming-IsLinked lookups key_of recorder carried seven_seen 7 3 lookups-IsHMap
      seven_seen-IsLinked
