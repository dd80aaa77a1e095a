-- ===== src/Kache/Dangling.antt =====
-- Where the cache reads or writes memory that is not its own (kache_obj.c, kache_evcoap.c).
use webthings.Common.{
  ℕ, zero, suc, ◌<◌, ◌≡◌, refl, Bytes, List, [], ◌∷◌, Option, none, some, Bool, true, false, length,
  arith, ok, err, fault, Result, lt→ltb, Option-cases, ◌⊎◌, ◌∙◌, get_elem?, if◌then◌else◌, inl, inr,
}
use webthings.Dups.{HMap, modify}
use webthings.Opt.Get.{opts_get_token}
use webthings.Cli.{Client, ResPdu, client_get_response_pdu}
use webthings.Kache.{Ptr, after_free, live_rep, KacheRep, KacheObj, Kache, obj_at, rep_at, put_rep}
use webthings.Kache.Objects.{
  clear_kache_rep, strlen, copy_sized, add_key_val, rep_foreach, free_kache_rep, default_free_func,
  free_all, kache_free,
}
use webthings.Kache.Evcoap.{
  store_token, store_ec_options_to_rep, fill_rep, finish_store, fill_place, find_place,
  store_evcoap_response, read_content_type,
}

strlen-lt-length : (s : Bytes) (k : ℕ) → strlen s ≡ some k → k < length s
unfolding strlen
strlen-lt-length [] k h = cc
strlen-lt-length (b ∷ rest) k h = elim (Option-cases (strlen rest)) [
  | inl e ↦ ground arith
  | inr (n, e) ↦ ground (arith, strlen-lt-length rest n e)
]

copy_sized-whole : (s : Bytes) → copy_sized s (length s) ≡ fault
unfolding copy_sized
copy_sized-whole s = elim (Option-cases (strlen s)) [
  | inl e ↦ rw (copy_sized, e)
  | inr (k, e) ↦ rw (copy_sized, e, lt→ltb k (length s) (strlen-lt-length s k e))
]

store_token-fault :
    (rep : KacheRep) (token : Bytes) → store_token rep (some (some token, length token)) ≡ fault
unfolding store_token add_key_val
store_token-fault rep token = rw (copy_sized-whole token)

fill_rep-fault :
    (le : Bool) (now : ℕ) (pdu : ResPdu) (rep : KacheRep) (token : Bytes)
    → opts_get_token pdu.opts.bundle ≡ some (some token, length token)
    → fill_rep le now (some pdu) rep ≡ fault
unfolding fill_rep store_ec_options_to_rep
fill_rep-fault le now pdu rep token e = rw (e, store_token-fault _ token)

fill_place-fault :
    {M : Type 0} (le : Bool) (now : ℕ) (pdu : ResPdu) (token : Bytes)
    (place : Result (Unit {0}) (ℕ × ℕ × Kache M))
    → opts_get_token pdu.opts.bundle ≡ some (some token, length token)
    → fill_place le now (some pdu) place ≡ fault
unfolding fill_place finish_store
fill_place-fault le now pdu token (ok (o, a, k)) e = elim (Option-cases (rep_at k a)) [
  | inl q ↦ rw (fill_place, q)
  | inr (rep, q) ↦ rw (fill_place, q, fill_rep-fault le now pdu rep token e)
]
fill_place-fault le now pdu token (err _) e = refl
fill_place-fault le now pdu token fault e = refl

-- kache_store_evcoap_response never stores a response that carries a token: whatever the cache and the
-- token, an invalid access ends it. The token is measured as a C string, which it is not: either the
-- read runs past its bytes, or a NUL within them makes the copy too short for the bytes written to it.
pub store_evcoap_response-token :
    {M : Type 0} (le : Bool) (hmap : HMap M Bytes ℕ) (k : Kache M) (cli : Client) (uri : Bytes)
    (garbage now : ℕ) (pdu : ResPdu) (token : Bytes)
    → client_get_response_pdu cli ≡ some pdu
    → opts_get_token pdu.opts.bundle ≡ some (some token, length token)
    → store_evcoap_response le hmap k cli uri garbage now ≡ fault
unfolding store_evcoap_response
store_evcoap_response-token le hmap k cli uri garbage now pdu token r e = rw r (
    fill_place-fault le now pdu token
      (find_place hmap k uri (read_content_type le garbage (some pdu.opts))) e)

after_free_cases :
    {A : Type 0} (p : Ptr A) → (after_free p ≡ fault) ⊎ ((q : Ptr A) × (after_free p ≡ ok q))
after_free_cases Ptr.null = inr (Ptr.null, refl)
after_free_cases (Ptr.valid a) = inr (Ptr.dangling, refl)
after_free_cases Ptr.dangling = inl refl

clear_cases :
    (rep : KacheRep)
    → (clear_kache_rep rep ≡ fault) ⊎ ((r : KacheRep) × (clear_kache_rep rep ≡ ok r))
unfolding clear_kache_rep
clear_cases rep = elim (after_free_cases rep.payload) [
  | inl e ↦ inl (rw e)
  | inr (p, e) ↦ elim (after_free_cases rep.etag) [
    | inl f ↦ inl (rw (e, f))
    | inr (q, f) ↦ elim (after_free_cases rep.ts) [
      | inl g ↦ inl (rw (e, f, g))
      | inr (t, g) ↦ inr (record rep { payload = p; etag = q; keyvalq = []; ts = t }, rw (e, f, g))
    ]
  ]
]

modify-freed :
    (xs : List KacheRep) (a : ℕ) (r : KacheRep)
    → r.freed ≡ true
    → live_rep (get_elem? (modify (λ _. r) xs a) a) ≡ none
unfolding modify
modify-freed [] a r f = refl
modify-freed (x ∷ xs) zero r f = rw f
modify-freed (x ∷ xs) (suc a) r f = modify-freed xs a r f

rep_at-put_rep :
    {M : Type 0} (k : Kache M) (a : ℕ) (r : KacheRep)
    → r.freed ≡ true
    → rep_at (put_rep k a r) a ≡ none
unfolding rep_at put_rep
rep_at-put_rep k a r f = modify-freed k.reps a r f

pub stops :
    {A B : Type 0} (o : Option A) (next : A → Result (Unit {0}) B)
    → o ≡ none
    → (elim o [ none ↦ fault | some a ↦ next a ]) ≡ fault
stops none next h = refl
stops (some a) next h = cc

rep_foreach-free :
    {M : Type 0} (k : Kache M) (a : ℕ) (rest : List ℕ)
    → rep_foreach free_kache_rep k (a ∷ rest) ≡ fault
unfolding rep_foreach free_kache_rep
rep_foreach-free k a rest = elim (Option-cases (rep_at k a)) [
  | inl q ↦ rw (free_kache_rep, q)
  | inr (rep, q) ↦ elim (clear_cases rep) [
    | inl e ↦ rw (free_kache_rep, q, e)
    | inr (r, e) ↦
        rw (free_kache_rep, q, e) (stops _ _ (rep_at-put_rep k a (record r { freed = true }) refl))
  ]
]

default_free_func-fault :
    {M : Type 0} (k : Kache M) (o : ℕ) (obj : KacheObj) (a : ℕ) (rest : List ℕ)
    → obj_at k o ≡ some obj
    → obj.reps ≡ a ∷ rest
    → default_free_func k o ≡ fault
unfolding default_free_func
default_free_func-fault k o obj a rest q r = rw (default_free_func, q, r, rep_foreach-free k a rest)

if_not_set {ℓ} : {A : Type ℓ} (b : Bool) (x y : A) → b ≡ false → (if b then x else y) ≡ y
if_not_set true x y h = cc
if_not_set false x y h = refl

-- kache_free, without a function of the user, ends in an invalid access as soon as a stored object has a
-- representation: the walk over the representations reads each after giving it back.
pub kache_free-fault :
    {M : Type 0} (each : M → List ℕ) (k : Kache M) (o : ℕ) (obj : KacheObj) (others : List ℕ)
    (a : ℕ) (rest : List ℕ)
    → k.free_obj ≡ false
    → each k.map ≡ o ∷ others
    → obj_at k o ≡ some obj
    → obj.reps ≡ a ∷ rest
    → kache_free each k ≡ fault
unfolding kache_free free_all default_free_func
kache_free-fault each k o obj others a rest f e q r =
    if_not_set k.free_obj (ok k) (free_all k (each k.map)) f
    ∙ rw (e, default_free_func-fault k o obj a rest q r)
