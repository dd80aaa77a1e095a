-- ===== src/Kache/Answers.antt =====
-- The response that the cache makes of a representation, kache_rep_to_evcoap_pdu_ of kache_evcoap.c.
use webthings.Common.{
  ℕ, ◌≤◌, ◌<◌, ◌^◌, ◌≡◌, ◌≢◌, refl, Bytes, List, [], none, some, Bool, length, arith, ok, le→ltb,
  ◌∙◌, sym, ap, get_elem?, if◌then◌else◌,
}
use mathlib.Core.Option
use webthings.Opt.{Sym, OptType, Opt, Opts, value_of, sym2type, opts_init, rank}
use webthings.Opt.Add.{opts_add_content_type, opts_add_max_age, type_is}
use webthings.Opt.Get.{opts_get_uint, opts_get_content_type, opts_get_max_age}
use webthings.Opt.Get.RoundTrip.{opts_get_uint-opts_add_uint, opts_get_nth-occurrences}
use webthings.Opt.Pool.Order.{opts_init-IsPool}
use webthings.Opt.Pool.{opts_get, opts_get_nth}
use webthings.Opt.Uint.{decode_uint}
use webthings.Opt.Pool.Occur.{occurrences}
use webthings.Srv.{OutPdu}
use webthings.Srv.Send.{pdu_new_empty}
use webthings.Kache.{Ptr, KacheRep}
use webthings.Kache.Content.{ContentType, get_ecct_from_ct, ecct_of}
use webthings.Kache.Evcoap.{rep_to_evcoap_pdu, pdu_payload, pdu_etag}

ecct-small : (ct : ContentType) → get_ecct_from_ct ct ≤ 50
unfolding get_ecct_from_ct ecct_of
ecct-small ct = ground arith

same_uint :
    (le : Bool) (xs ys : List Opt) (s : Sym)
    → occurrences s xs ≡ occurrences s ys
    → opts_get_uint le xs s ≡ opts_get_uint le ys s
unfolding opts_get_uint opts_get
same_uint le xs ys s e =
    let nth : opts_get_nth xs s 0 ≡ opts_get_nth ys s 0 =
      (opts_get_nth-occurrences xs s 0).0
      ∙ ap (λ o. get_elem? o 0) e
      ∙ sym (opts_get_nth-occurrences ys s 0).0 in
    ap
      (λ o.
        if type_is (sym2type s) OptType.uint
        then Option.bind o (λ o. decode_uint le (value_of o))
        else none)
      nth

opts_get_content_type-small :
    (le : Bool) (xs : List Opt) (n : ℕ)
    → opts_get_uint le xs Sym.content_type ≡ some n
    → n ≤ 50
    → opts_get_content_type le xs ≡ some n
unfolding opts_get_content_type Option.bind
opts_get_content_type-small le xs n e h = rw (e, le→ltb 0xffff n (omega arith))

opts_get_max_age-small :
    (le : Bool) (xs : List Opt) (n : ℕ)
    → opts_get_uint le xs Sym.max_age ≡ some n
    → n < 2 ^ 32
    → opts_get_max_age le xs ≡ some n
unfolding opts_get_max_age
opts_get_max_age-small le xs n e h = rw (opts_get_max_age, e, le→ltb 0xffffffff n (omega arith))

no_slot : opts_init.noptions ≡ 0
unfolding opts_init
no_slot = refl

none_yet : (s : Sym) → occurrences s opts_init.bundle ≡ []
unfolding occurrences opts_init
none_yet s = refl

payload_of :
    (pdu : OutPdu) (p : Ptr Bytes) (pl : Bytes)
    → p ≡ Ptr.valid pl
    → 1 ≤ length pl
    → pdu_payload pdu p ≡ ok (record pdu { payload = pl })
unfolding pdu_payload
payload_of pdu p pl e h = rw e (ground arith)

etag_of : (le : Bool) (opts : Opts) (p : Ptr Bytes) → p ≡ Ptr.null → pdu_etag le opts p ≡ ok opts
unfolding pdu_etag
etag_of le opts p e = rw e

type_ct : sym2type Sym.content_type ≡ OptType.uint
unfolding sym2type
type_ct = refl

type_age : sym2type Sym.max_age ≡ OptType.uint
unfolding sym2type
type_age = refl

apart : rank Sym.content_type ≢ rank Sym.max_age
unfolding rank
apart = omega arith

-- A representation with a payload and no ETag, whose Max-Age fits 32 bits, becomes a PDU from which the
-- getters read its media type and its Max-Age, and whose payload is its own.
pub rep_to_evcoap_pdu_lem :
    (le : Bool) (rep : KacheRep) (pl : Bytes)
    → rep.payload ≡ Ptr.valid pl
    → 1 ≤ length pl
    → rep.etag ≡ Ptr.null
    → rep.max_age < 2 ^ 32
    → (pdu : OutPdu) × (rep_to_evcoap_pdu le rep pdu_new_empty ≡ ok pdu)
      × (pdu.payload ≡ pl)
      × (opts_get_content_type le pdu.opts.bundle ≡ some (get_ecct_from_ct rep.media_type))
      × (opts_get_max_age le pdu.opts.bundle ≡ some rep.max_age)
unfolding rep_to_evcoap_pdu opts_add_content_type opts_add_max_age
rep_to_evcoap_pdu_lem le rep pl e h t m =
    let small = ecct-small rep.media_type in
    let (o, a, g, p, others, n) =
      opts_get_uint-opts_add_uint le opts_init Sym.content_type (get_ecct_from_ct rep.media_type)
        opts_init-IsPool (omega (arith, no_slot)) type_ct (none_yet Sym.content_type)
        (omega arith) in
    let (o', a', g', _, others', _) =
      opts_get_uint-opts_add_uint le o Sym.max_age rep.max_age p (omega (arith, no_slot)) type_age
        (others Sym.max_age apart ∙ none_yet Sym.max_age) (omega arith) in
    (
      record pdu_new_empty { opts = o'; payload = pl },
      rw (
        rep_to_evcoap_pdu,
        a,
        a',
        payload_of pdu_new_empty rep.payload pl e h,
        etag_of le o' rep.etag t,
      ),
      refl,
      opts_get_content_type-small le o'.bundle _
          (same_uint le o'.bundle o.bundle Sym.content_type
              (others' Sym.content_type (λ q. apart (sym q)))
            ∙ g)
          small,
      opts_get_max_age-small le o'.bundle rep.max_age g' m,
    )
