-- ===== src/Dups/Links.antt =====
-- Every address in the map leads to the record of its key (evcoap_base.c).
use webthings.Common.{
  Bytes, ℕ, zero, suc, List, [], ◌∷◌, ◌++◌, ◌≡◌, ◌≢◌, ◌⊎◌, inl, inr, refl, ap, ◌∙◌, sym, subst,
  Option, none, some, Bool, true, false, not, ◌&&◌, if◌then◌else◌, length, get_elem?, Result, ok,
  err, fault, done, Option-cases,
}
use webthings.Dups.{
  HMap, CachedPdu, RecvdPdu, Dups, Recorder, recvd_pdu_update, recvd_pdu_free, recvd_at,
  unless_zapped, resent, modify, dup_zap, dups_delete, zapped, dups_search, dups_insert, srv_found,
  cli_found, inserted, srv_case, cli_case, dups_handle_incoming_srvmsg, dups_handle_incoming_climsg,
}
use webthings.Dups.Lifetime.{IsHMap, get_elem?-last, search_by_key, insert_cases, blank}
use mathlib.Core.Option

-- Every address in the map leads to a record of its key that was not freed.
unfoldable pub IsLinked : {M K P : Type 0} → HMap M K ℕ → Dups M K P → Type 0
IsLinked {M} {K} {P} h dups =
    (k : K) (a : ℕ)
    → h.get dups.map k ≡ some a
    → (r : RecvdPdu K P) × (get_elem? dups.heap a ≡ some r) × (r.key ≡ k) × (r.freed ≡ false)

-- What a handler may return: records that are linked, and no access to a record that is not there or
-- was freed.
abbrev pub Kept :
    {M K P : Type 0}
    → HMap M K ℕ
    → Result (Dups M K P) (Bool × Option CachedPdu × Dups M K P)
    → Type 0
Kept h fault = ⊥
Kept h (err dups) = IsLinked h dups
Kept h (ok (is_dup, sent, dups)) = IsLinked h dups

get_elem?-append {ℓ} :
    {A : Type ℓ} (xs ys : List A) (a : ℕ) (x : A)
    → get_elem? xs a ≡ some x
    → get_elem? (xs ++ ys) a ≡ some x
get_elem?-append [] ys a x e = cc
get_elem?-append (y ∷ xs) ys zero x e = e
get_elem?-append (y ∷ xs) ys (suc a) x e = get_elem?-append xs ys a x e

some_eq {ℓ} : {A : Type ℓ} (x y : A) → some x ≡ some y → x ≡ y
some_eq x y e = cc

inserted-IsLinked :
    {M K P : Type 0} (h : HMap M K ℕ) (dups : Dups M K P) (new : RecvdPdu K P) (map' : M)
    → IsHMap h
    → IsLinked h dups
    → new.freed ≡ false
    → h.get map' new.key ≡ some (length dups.heap)
    → ((j : K) → j ≢ new.key → h.get map' j ≡ h.get dups.map j)
    → IsLinked h (record { map = map'; heap = dups.heap ++ (new ∷ []) })
unfolding IsLinked
inserted-IsLinked h dups new map' w l live g o k a e = elim (w.keys_compare k new.key) [
  | inl q ↦
      let at : length dups.heap ≡ a = some_eq _ _ (sym g ∙ (ap (h.get map') (sym q) ∙ e)) in
      (
        new,
        subst (λ i. get_elem? (dups.heap ++ (new ∷ [])) i ≡ some new) at
            (get_elem?-last dups.heap new),
        sym q,
        live,
      )
  | inr n ↦
      let (r, f, q, t) = l k a (sym (o k n) ∙ e) in
      (r, get_elem?-append dups.heap (new ∷ []) a r f, q, t)
]

live_at :
    {M K P : Type 0} (dups : Dups M K P) (a : ℕ) (r : RecvdPdu K P)
    → get_elem? dups.heap a ≡ some r
    → r.freed ≡ false
    → recvd_at dups a ≡ some r
unfolding recvd_at Option.bind
live_at dups a r f live =
    ap (λ x. Option.bind x unless_zapped) f ∙ ap (λ b. if b then none else some r) live

found-Kept :
    {M K P : Type 0} (h : HMap M K ℕ) (net_send : CachedPdu → Bool) (dups : Dups M K P)
    (found : Option (RecvdPdu K P)) (r : RecvdPdu K P)
    → IsLinked h dups
    → found ≡ some r
    → Kept h (srv_found net_send dups found) × Kept h (cli_found net_send dups found)
unfolding srv_found cli_found
found-Kept h net_send dups none r l e = cc
found-Kept h net_send dups (some x) r l e =
    (l, either (x.cached_pdu.is_set && not (net_send x.cached_pdu)))
  where
    either :
        (b : Bool) → Kept h (if b then err dups else ok (true, resent net_send x.cached_pdu, dups))
    either true = l
    either false = l

no_key :
    {M K P : Type 0} (h : HMap M K ℕ) (dup_key : ℕ → P → Option K) (sys : Recorder K)
    (dups : Dups M K P) (mid : ℕ) (peer : P)
    → dup_key mid peer ≡ none
    → (dups_search h dup_key dups mid peer ≡ none)
      × (dups_insert h dup_key sys dups peer mid ≡ none)
unfolding dups_search dups_insert Option.bind
no_key h dup_key sys dups mid peer e = (rw e refl, rw e refl)

-- What a handler makes of a search and an insertion that turn out so.
both_as :
    {M K P : Type 0} (h : HMap M K ℕ) (net_send : CachedPdu → Bool) (dups : Dups M K P)
    (s t : Option ℕ) (i j : Option (Dups M K P))
    → s ≡ t
    → i ≡ j
    → Kept h (srv_case net_send dups t j) × Kept h (cli_case net_send dups t j)
    → Kept h (srv_case net_send dups s i) × Kept h (cli_case net_send dups s i)
both_as h net_send dups s t i j e f v = rw (e, f) v

-- On records that are linked, neither handler reads a record that is not there or was freed, and both
-- leave linked records, whether they fail or not, whatever the clock, libevent and the network do.
pub dups_handle_incoming-IsLinked :
    {M K P : Type 0} (h : HMap M K ℕ) (dup_key : ℕ → P → Option K) (sys : Recorder K)
    (net_send : CachedPdu → Bool) (dups : Dups M K P) (mid : ℕ) (peer : P)
    → IsHMap h
    → IsLinked h dups
    → Kept h (dups_handle_incoming_srvmsg h dup_key sys net_send dups mid peer)
      × Kept h (dups_handle_incoming_climsg h dup_key sys net_send dups mid peer)
unfolding dups_handle_incoming_srvmsg dups_handle_incoming_climsg srv_case cli_case inserted
    IsLinked
dups_handle_incoming-IsLinked h dup_key sys net_send dups mid peer w l =
    elim (Option-cases (dup_key mid peer)) [
      | inl e ↦
          let (s, i) = no_key h dup_key sys dups mid peer e in
          both_as h net_send dups _ none _ none s i (l, l)
      | inr (key, e) ↦
          let s = search_by_key h dup_key dups mid peer key e in
          elim (Option-cases (h.get dups.map key)) [
            | inl absent ↦ elim (insert_cases h dup_key sys dups mid peer key w e absent) [
              | inl (c, map', p, g, o) ↦
                  let v = inserted-IsLinked h dups (blank key peer mid) map' w l refl g o in
                  both_as h net_send dups _ none _ _ (s ∙ absent) p (v, v)
              | inr (c, n) ↦ both_as h net_send dups _ none _ none (s ∙ absent) n (l, l)
            ]
            | inr (a, found) ↦
                let (r, f, _, live) = l key a found in
                both_as h net_send dups _ (some a) _ _ (s ∙ found) refl
                  (found-Kept h net_send dups (recvd_at dups a) r l (live_at dups a r f live))
          ]
    ]

get_elem?-modify_any {ℓ} :
    {A : Type ℓ} (f : A → A) (xs : List A) (a b : ℕ) (x : A)
    → get_elem? xs b ≡ some x
    → (y : A) × (get_elem? (modify f xs a) b ≡ some y) × ((y ≡ x) ⊎ (y ≡ f x))
unfolding modify
get_elem?-modify_any f [] a b x e = cc
get_elem?-modify_any f (z ∷ xs) zero zero x e = (f x, ap (Option.map f) e, inr refl)
get_elem?-modify_any f (z ∷ xs) zero (suc b) x e = (x, e, inl refl)
get_elem?-modify_any f (z ∷ xs) (suc a) zero x e = (x, e, inl refl)
get_elem?-modify_any f (z ∷ xs) (suc a) (suc b) x e = get_elem?-modify_any f xs a b x e

-- A write at another address leaves an element.
get_elem?-modify_other {ℓ} :
    {A : Type ℓ} (f : A → A) (xs : List A) (a b : ℕ)
    → b ≢ a
    → get_elem? (modify f xs a) b ≡ get_elem? xs b
unfolding modify
get_elem?-modify_other f [] a b n = refl
get_elem?-modify_other f (z ∷ xs) zero zero n = absurd (n refl)
get_elem?-modify_other f (z ∷ xs) zero (suc b) n = refl
get_elem?-modify_other f (z ∷ xs) (suc a) zero n = refl
get_elem?-modify_other f (z ∷ xs) (suc a) (suc b) n =
    get_elem?-modify_other f xs a b (λ q. n (ap suc q))

-- The records stay linked when a response is cached in any record.
pub recvd_pdu_update-IsLinked :
    {M K P : Type 0} (h : HMap M K ℕ) (dups : Dups M K P) (recvd : ℕ) (hdr opts payload : Bytes)
    → IsLinked h dups
    → IsLinked h (recvd_pdu_update dups recvd hdr opts payload)
unfolding recvd_pdu_update IsLinked
recvd_pdu_update-IsLinked h dups recvd hdr opts payload l k a e =
    let (r, f, q, live) = l k a e in
    let (r', f', c) = get_elem?-modify_any _ dups.heap recvd a r f in
    (
      r',
      f',
      elim c [ inl s ↦ ap (λ x. x.key) s ∙ q | inr s ↦ ap (λ x. x.key) s ∙ q ],
      elim c [ inl s ↦ ap (λ x. x.freed) s ∙ live | inr s ↦ ap (λ x. x.freed) s ∙ live ],
    )

-- The countdown of a record that the map holds takes it out of the map and frees it: the process goes
-- on, and no address that is left leads to it.
pub dup_zap-IsLinked :
    {M K P : Type 0} (h : HMap M K ℕ) (dup_key : ℕ → P → Option K) (dups : Dups M K P) (key : K)
    (recvd : ℕ)
    → IsHMap h
    → IsLinked h dups
    → h.get dups.map key ≡ some recvd
    → (dups' : Dups M K P) × (dup_zap h dup_key dups recvd ≡ done dups') × IsLinked h dups'
unfolding dup_zap dups_delete zapped recvd_pdu_free IsLinked
dup_zap-IsLinked h dup_key dups key recvd w l e =
    let (r, f, q, live) = l key recvd e in
    let (map', d, g, o) = w.del_present dups.map key recvd e in
    (
      record { map = map'; heap = modify (λ x. record x { freed = true }) dups.heap recvd },
      rw (dup_zap, live_at dups recvd r f live, q, d, e) refl,
      λ k a t. elim (w.keys_compare k key) [
        | inl p ↦ let clash : none ≡ some a = sym g ∙ (ap (h.get map') (sym p) ∙ t) in cc
        | inr n ↦
            let (r', f', q', live') = l k a (sym (o k n) ∙ t) in
            let apart : a ≢ recvd = λ p. n (
              sym q'
              ∙ (ap (λ x. x.key) (some_eq _ _ (sym f' ∙ (ap (get_elem? dups.heap) p ∙ f))) ∙ q)) in
            (r', get_elem?-modify_other _ dups.heap recvd a apart ∙ f', q', live')
      ],
    )
