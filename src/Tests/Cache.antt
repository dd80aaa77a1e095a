-- ===== src/Tests/Cache.antt =====
-- The theorems on the cache, at concrete caches and responses.
use webthings.Common.{
  ℕ, Bytes, [], ◌∷◌, some, none, true, false, ◌≡◌, ◌≢◌, refl, ok, err, fault, arith, ◌⊎◌,
  if◌then◌else◌, ◌⊎◌, if◌then◌else◌,
}
use mathlib.Core.Option
use webthings.Resource.{same_bytes}
use webthings.Opt.{Sym, OptType, opts_init, rank, sym2type}
use webthings.Opt.Get.{opts_get_token, opts_get_uint, opts_get_content_type, opts_get_max_age}
use webthings.Opt.Pool.{opts_get}
use webthings.Srv.{OutPdu}
use webthings.Srv.Send.{pdu_new_empty}
use webthings.Cli.{Client, ResPdu, client_get_response_pdu}
use webthings.Kache.{Ptr, KacheRep, Kache, kache_init, kache_get, obj_at}
use webthings.Kache.Content.{
  MediaType, MediaSubtype, IsKnown, get_ecct_from_ct, ct_from_ecct, get_ecct_from_ct-ct_from_ecct,
}
use webthings.Kache.Objects.{init_kache_rep}
use webthings.Kache.Evcoap.{
  uri_key, rep_to_evcoap_pdu, get_evcoap_response, store_evcoap_response, timer_cb,
}
use webthings.Kache.Answers.{rep_to_evcoap_pdu_lem}
use webthings.Kache.Dangling.{store_evcoap_response-token}
use webthings.Kache.Events.{KacheEvent, kache_events, get_evcoap_response-misses}
use webthings.Kache.Expiry.{timer_cb-dangling}
use webthings.Tests.Clients.{asking, five}
use webthings.Tests.Texts.{ByText, by_text, by_text-IsCacheMap}

-- A client with a response of the type text/plain, and one whose response carries a token.
abbrev hello : ResPdu
hello = record five { opts = opts_init; payload = 104 ∷ 105 ∷ [] }

abbrev greeted : Client
greeted = record asking { res_set = hello ∷ [] }

abbrev tokened : ResPdu
tokened = record hello {
  opts = record opts_init {
    noptions = 1;
    bundle = (record { sym = Sym.token; t = OptType.opaque; l = 2; v = some (7 ∷ 8 ∷ []) }) ∷ [];
  };
}

abbrev nothing : ByText ℕ
nothing uri = none

abbrev root : Bytes
root = b'/' ∷ []

-- What is stored of the response of `greeted` for "/".
abbrev kept_rep : KacheRep
kept_rep =
    record (init_kache_rep (record { type_of = MediaType.text; subtype = MediaSubtype.plain })) {
      payload = Ptr.valid (104 ∷ 105 ∷ []);
      ts = Ptr.valid 1000;
      max_age = 3600;
      timer = some 0;
      seconds = 3600;
    }

-- That cache, and what is left once its timer fired.
abbrev greeting_kept : Kache (ByText ℕ)
greeting_kept = record {
  map = λ uri. if same_bytes uri uri_key then some 0 else none;
  objs = (record { key = root; reps = 0 ∷ []; freed = false }) ∷ [];
  reps = kept_rep ∷ [];
  max = 50;
  custom = false;
  procedure = false;
  free_obj = false;
  notified = [];
}

abbrev greeting_gone : Kache (ByText ℕ)
greeting_gone = record greeting_kept {
  objs = (record { key = root; reps = []; freed = true }) ∷ [];
  reps = (record kept_rep { payload = Ptr.dangling; ts = Ptr.dangling; freed = true }) ∷ [];
}

store_greeting :
    store_evcoap_response true by_text (kache_init nothing) greeted root 0 1000 ≡ ok greeting_kept
unfolding store_evcoap_response kache_init opts_get opts_init opts_get_uint sym2type Option.bind
    same_bytes
store_greeting = refl

-- The response is not found under the URI that it was stored for.
get_evcoap_response-misses_example :
    get_evcoap_response true by_text greeting_kept greeted root 0 ≡ err tt
unfolding kache_events store_evcoap_response kache_init opts_get opts_init opts_get_uint sym2type
    Option.bind same_bytes
get_evcoap_response-misses_example =
    get_evcoap_response-misses true by_text nothing (KacheEvent.stored greeted root 0 1000 ∷ [])
      greeting_kept greeted root 0 by_text-IsCacheMap (λ j. refl) refl (λ h. cc)

store_evcoap_response-token_example :
    store_evcoap_response true by_text
      (kache_init nothing)
      (record asking { res_set = tokened ∷ [] })
      root
      0
      1000
    ≡ fault
unfolding client_get_response_pdu opts_get_token opts_get opts_init rank
store_evcoap_response-token_example =
    store_evcoap_response-token true by_text (kache_init nothing)
      (record asking { res_set = tokened ∷ [] }) root 0 1000 tokened (7 ∷ 8 ∷ []) refl refl

timer_cb-dangling_example : get_evcoap_response true by_text greeting_gone greeted uri_key 0 ≡ fault
unfolding kache_get obj_at timer_cb same_bytes
timer_cb-dangling_example =
    timer_cb-dangling true by_text greeting_kept greeting_gone 0 0
      (record { key = root; reps = 0 ∷ []; freed = false }) uri_key greeted 0 refl refl refl refl
      refl

rep_to_evcoap_pdu_lem_example :
    (pdu : OutPdu) × (rep_to_evcoap_pdu true kept_rep pdu_new_empty ≡ ok pdu)
    × (pdu.payload ≡ 104 ∷ 105 ∷ [])
    × (opts_get_content_type true pdu.opts.bundle ≡ some (get_ecct_from_ct kept_rep.media_type))
    × (opts_get_max_age true pdu.opts.bundle ≡ some 3600)
rep_to_evcoap_pdu_lem_example =
    rep_to_evcoap_pdu_lem true kept_rep (104 ∷ 105 ∷ []) refl (omega arith) refl (omega arith)

get_ecct_from_ct-ct_from_ecct_example :
    (IsKnown 50 × (get_ecct_from_ct (ct_from_ecct 50) ≡ 50))
    ⊎ ((get_ecct_from_ct (ct_from_ecct 50) ≢ 50) × (ct_from_ecct 50 ≡ ct_from_ecct 41))
get_ecct_from_ct-ct_from_ecct_example = get_ecct_from_ct-ct_from_ecct 50
