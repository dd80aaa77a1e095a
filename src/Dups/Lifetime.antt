-- ===== src/Dups/Lifetime.antt =====
-- The life of the record of a received message (evcoap_base.c).
use webthings.Common.{
  ℕ, zero, suc, Bytes, List, [], ◌∷◌, ◌++◌, ◌≡◌, ◌≢◌, ◌⊎◌, inl, inr, refl, ap, ◌∙◌, sym, Option,
  none, some, Bool, true, false, not, ◌&&◌, ◌||◌, length, get_elem?, if◌then◌else◌, ok, err, done,
}
use webthings.Dups.{
  HMap, CachedPdu, RecvdPdu, Dups, Recorder, modify, recvd_pdu_update, recvd_pdu_new,
  recvd_pdu_free, recvd_at, unless_zapped, push_recvd, dups_search, dups_insert, dups_delete,
  dup_zap, zapped, srv_case, cli_case, srv_found, cli_found, inserted, dups_handle_incoming_srvmsg,
  dups_handle_incoming_climsg,
}
use mathlib.Core.Option

-- What evcoap relies on of u_hmap: keys are compared, an insertion under a new key and the deletion of a present one
-- succeed, do what they say, and leave the other keys alone.
pub record IsHMap {M K V : Type 0} (h : HMap M K V) : Type 0 where
  pub keys_compare : (j k : K) → (j ≡ k) ⊎ (j ≢ k)
  pub put_new :
      (m : M) (k : K) (v : V)
      → h.get m k ≡ none
      → (m' : M) × (h.put m k v ≡ some m')
        × (h.get m' k ≡ some v)
        × ((j : K) → j ≢ k → h.get m' j ≡ h.get m j)
  pub del_present :
      (m : M) (k : K) (v : V)
      → h.get m k ≡ some v
      → (m' : M) × (h.del m k ≡ some m')
        × (h.get m' k ≡ none)
        × ((j : K) → j ≢ k → h.get m' j ≡ h.get m j)

pub get_elem?-last {ℓ} :
    {A : Type ℓ} (xs : List A) (x : A) → get_elem? (xs ++ (x ∷ [])) (length xs) ≡ some x
get_elem?-last [] x = refl
get_elem?-last (y ∷ xs) x = get_elem?-last xs x

if_not {ℓ} :
    {A B : Type ℓ} (f : Option B → A) (x : B) (y : A) (b : Bool)
    → (if true && not b then y else f (if true && b then some x else none))
      ≡ (if b then f (some x) else y)
if_not f x y true = refl
if_not f x y false = refl

get_elem?-modify {ℓ} :
    {A : Type ℓ} (f : A → A) (xs : List A) (a : ℕ) (x : A)
    → get_elem? xs a ≡ some x
    → get_elem? (modify f xs a) a ≡ some (f x)
unfolding modify
get_elem?-modify f [] a x e = cc
get_elem?-modify f (y ∷ xs) zero x e = ap (Option.map f) e
get_elem?-modify f (y ∷ xs) (suc a) x e = get_elem?-modify f xs a x e

pub search_by_key :
    {M K P : Type 0} (h : HMap M K ℕ) (dup_key : ℕ → P → Option K) (dups : Dups M K P) (mid : ℕ)
    (peer : P) (key : K)
    → dup_key mid peer ≡ some key
    → dups_search h dup_key dups mid peer ≡ h.get dups.map key
unfolding dups_search Option.bind
search_by_key h dup_key dups mid peer key e = ap (λ o. Option.bind o (h.get dups.map)) e

-- A new record, with no response.
abbrev pub blank : {K P : Type 0} → K → P → ℕ → RecvdPdu K P
blank key peer mid = record {
  who = peer;
  mid = mid;
  key = key;
  cached_pdu = record { is_set = false; hdr = []; opts = []; payload = [] };
  freed = false;
}

-- The clock answers, the key fits, and libevent gives a timer.
abbrev pub can_record : {K : Type 0} → Recorder K → K → Bool
can_record sys key = sys.gettimeofday && sys.strlcpy key && sys.event_new && sys.evtimer_add

new_cases :
    {K P : Type 0} (sys : Recorder K) (key : K) (peer : P) (mid : ℕ)
    → ((can_record sys key ≡ true) × (recvd_pdu_new sys key peer mid ≡ some (blank key peer mid)))
      ⊎ ((can_record sys key ≡ false) × (recvd_pdu_new sys key peer mid ≡ none))
unfolding recvd_pdu_new
new_cases sys key peer mid =
    by_tests sys.gettimeofday (sys.strlcpy key) sys.event_new sys.evtimer_add
  where
    by_tests :
        (a b c d : Bool)
        → ((a && b && c && d ≡ true)
            × ((if not a
                  then none
                  else (if not b
                      then none
                      else (if not c || not d then none else some (blank key peer mid))))
                ≡ some (blank key peer mid)))
          ⊎ ((a && b && c && d ≡ false)
              × ((if not a
                    then none
                    else (if not b
                        then none
                        else (if not c || not d then none else some (blank key peer mid))))
                  ≡ none))
    by_tests true true true true = inl (refl, refl)
    by_tests true true true false = inr (refl, refl)
    by_tests true true false d = inr (refl, refl)
    by_tests true false c d = inr (refl, refl)
    by_tests false b c d = inr (refl, refl)

pub insert_cases :
    {M K P : Type 0} (h : HMap M K ℕ) (dup_key : ℕ → P → Option K) (sys : Recorder K)
    (dups : Dups M K P) (mid : ℕ) (peer : P) (key : K)
    → IsHMap h
    → dup_key mid peer ≡ some key
    → h.get dups.map key ≡ none
    → ((can_record sys key ≡ true)
        × (map' : M) × (dups_insert h dup_key sys dups peer mid
            ≡ some (record { map = map'; heap = dups.heap ++ (blank key peer mid ∷ []) }))
        × (h.get map' key ≡ some (length dups.heap))
        × ((j : K) → j ≢ key → h.get map' j ≡ h.get dups.map j))
      ⊎ ((can_record sys key ≡ false) × (dups_insert h dup_key sys dups peer mid ≡ none))
unfolding dups_insert push_recvd Option.bind
insert_cases h dup_key sys dups mid peer key w e absent = elim (new_cases sys key peer mid) [
  | inl (c, n) ↦
      let (map', p, g, o) = w.put_new dups.map key (length dups.heap) absent in
      inl (c, map', rw (e, n, p) refl, g, o)
  | inr (c, n) ↦ inr (c, rw (e, n) refl)
]

-- A client takes a message without a record for new, and sends nothing. Where the clock answers, the
-- key fits and libevent gives a timer, it records the message: until the record goes or gets a
-- response, each further copy is a duplicate that sends nothing and changes nothing, and no message
-- with another key is taken for it or loses its record. Otherwise the handler fails and changes nothing.
pub dups_handle_incoming_srvmsg_once :
    {M K P : Type 0} (h : HMap M K ℕ) (dup_key : ℕ → P → Option K) (sys : Recorder K)
    (net_send : CachedPdu → Bool) (dups : Dups M K P) (mid : ℕ) (peer : P) (key : K)
    → IsHMap h
    → dup_key mid peer ≡ some key
    → h.get dups.map key ≡ none
    → ((can_record sys key ≡ true)
        × (dups' : Dups M K P) × (dups_handle_incoming_srvmsg h dup_key sys net_send dups mid peer
            ≡ ok (false, none, dups'))
        × (dups_handle_incoming_srvmsg h dup_key sys net_send dups' mid peer
            ≡ ok (true, none, dups'))
        × ((mid' : ℕ) (peer' : P) (key' : K)
            → dup_key mid' peer' ≡ some key'
            → key' ≢ key
            → dups_search h dup_key dups' mid' peer' ≡ dups_search h dup_key dups mid' peer'))
      ⊎ ((can_record sys key ≡ false)
          × (dups_handle_incoming_srvmsg h dup_key sys net_send dups mid peer ≡ err dups))
unfolding dups_handle_incoming_srvmsg srv_case srv_found inserted recvd_at Option.bind
dups_handle_incoming_srvmsg_once h dup_key sys net_send dups mid peer key w e absent =
    let none_yet = search_by_key h dup_key dups mid peer key e ∙ absent in
    let by_insertion =
      ap (λ s. srv_case net_send dups s (dups_insert h dup_key sys dups peer mid)) none_yet in
    elim (insert_cases h dup_key sys dups mid peer key w e absent) [
      | inl (c, map', p, g, o) ↦
          let dups' : Dups _ _ _ = record {
            map = map';
            heap = dups.heap ++ (blank key peer mid ∷ []);
          } in
          inl (
            c,
            dups',
            by_insertion ∙ ap (inserted dups) p,
            ap (λ s. srv_case net_send dups' s (dups_insert h dup_key sys dups' peer mid))
                  (search_by_key h dup_key dups' mid peer key e ∙ g)
                ∙ ap (λ x. srv_found net_send dups' (Option.bind x unless_zapped))
                    (get_elem?-last dups.heap (blank key peer mid)),
            λ mid' peer' key' e' n.
                search_by_key h dup_key dups' mid' peer' key' e'
                ∙ (o key' n ∙ sym (search_by_key h dup_key dups mid' peer' key' e')),
          )
      | inr (c, n) ↦ inr (c, by_insertion ∙ ap (inserted dups) n)
    ]

-- Once a response is cached for a recorded message, a copy of the message makes the server (the handler
-- of client messages) send exactly that response again, and fail where the sending fails; the client
-- (the handler of server messages) takes the copy for a duplicate in both cases.
pub dups_handle_incoming_srvmsg-recvd_pdu_update :
    {M K P : Type 0} (h : HMap M K ℕ) (dup_key : ℕ → P → Option K) (sys : Recorder K)
    (net_send : CachedPdu → Bool) (dups : Dups M K P) (mid : ℕ) (peer : P) (recvd : ℕ)
    (r : RecvdPdu K P) (hdr opts payload : Bytes)
    → dups_search h dup_key dups mid peer ≡ some recvd
    → get_elem? dups.heap recvd ≡ some r
    → r.freed ≡ false
    → (let cached : CachedPdu = record {
      is_set = true;
      hdr = hdr;
      opts = opts;
      payload = payload;
    } in
        let dups' = recvd_pdu_update dups recvd hdr opts payload in
        (dups_handle_incoming_srvmsg h dup_key sys net_send dups' mid peer
          ≡ ok (true, (if net_send cached then some cached else none), dups'))
        × (dups_handle_incoming_climsg h dup_key sys net_send dups' mid peer
            ≡ (if net_send cached then ok (true, some cached, dups') else err dups')))
unfolding dups_handle_incoming_srvmsg dups_handle_incoming_climsg dups_search srv_case cli_case
    recvd_pdu_update srv_found cli_found recvd_at Option.bind
dups_handle_incoming_srvmsg-recvd_pdu_update h dup_key sys net_send dups mid peer recvd r hdr opts
      payload s e live =
    let cached : CachedPdu = record { is_set = true; hdr = hdr; opts = opts; payload = payload } in
    let dups' = recvd_pdu_update dups recvd hdr opts payload in
    let there =
      ap (λ x. Option.bind x unless_zapped)
        (get_elem?-modify (λ x. record x { cached_pdu = cached }) dups.heap recvd r e)
      ∙ ap (λ b. if b then none else some (record r { cached_pdu = cached })) live in
    let ins = dups_insert h dup_key sys dups' peer mid in
    (
      ap (λ f. srv_case net_send dups' f ins) s ∙ ap (srv_found net_send dups') there,
      ap (λ f. cli_case net_send dups' f ins) s
          ∙ (ap (cli_found net_send dups') there
              ∙ if_not (λ o. ok (true, o, dups')) cached (err dups') (net_send cached)),
    )

-- When the countdown of a record that the map holds elapses, the record goes and is freed: its message
-- counts as new again, and the records of other keys stay.
pub dups_search-dup_zap :
    {M K P : Type 0} (h : HMap M K ℕ) (dup_key : ℕ → P → Option K) (dups : Dups M K P) (mid : ℕ)
    (peer : P) (recvd : ℕ) (r : RecvdPdu K P)
    → IsHMap h
    → dup_key mid peer ≡ some r.key
    → dups_search h dup_key dups mid peer ≡ some recvd
    → recvd_at dups recvd ≡ some r
    → (dups' : Dups M K P) × (dup_zap h dup_key dups recvd ≡ done dups')
      × (dups'.heap ≡ recvd_pdu_free dups.heap (some recvd))
      × (dups_search h dup_key dups' mid peer ≡ none)
      × ((mid' : ℕ) (peer' : P) (key' : K)
          → dup_key mid' peer' ≡ some key'
          → key' ≢ r.key
          → dups_search h dup_key dups' mid' peer' ≡ dups_search h dup_key dups mid' peer')
unfolding dup_zap dups_delete zapped
dups_search-dup_zap h dup_key dups mid peer recvd r w e s live =
    let found = sym (search_by_key h dup_key dups mid peer r.key e) ∙ s in
    let (map', d, g, o) = w.del_present dups.map r.key recvd found in
    let dups' : Dups _ _ _ = record { map = map'; heap = recvd_pdu_free dups.heap (some recvd) } in
    (
      dups',
      rw (dup_zap, live, d, found) refl,
      refl,
      search_by_key h dup_key dups' mid peer r.key e ∙ g,
      λ mid' peer' key' e' n.
          search_by_key h dup_key dups' mid' peer' key' e'
          ∙ (o key' n ∙ sym (search_by_key h dup_key dups mid' peer' key' e')),
    )
