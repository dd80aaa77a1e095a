-- ===== src/Tests/Interface.antt =====
-- The theorems on the interface of the library and on the file system, at concrete inputs.
use webthings.Common.{
  Bytes, [], ◌∷◌, some, none, true, false, ◌≡◌, ◌≢◌, ◌⊎◌, ◌≤◌, inr, refl, replicate, length, ok,
  err, fault, arith, ◌+◌, ◌^◌, ◌*◌, if◌then◌else◌,
}
use mathlib.Core.Option
use webthings.Config.{Cfg}
use webthings.Opt.{Sym, opts_init}
use webthings.Opt.Pool.Order.{opts_init-IsPool}
use webthings.Opt.Pool.Occur.{occurrences}
use webthings.Resource.{Res, resource_get_rep, same_bytes}
use webthings.Resource.Link.{res_link_format_str}
use webthings.Srv.Input.{Base, find_callback}
use webthings.Cli.{Client}
use webthings.Api.Registry.{is_registered, register_cb, unregister_cb}
use webthings.Api.Registry.Distinct.{IsDistinct, register_cb_lem, unregister_cb_lem}
use webthings.Api.Blocks.{request_add_block, request_get_block, set_block_size}
use webthings.Api.Blocks.RoundTrip.{
  request_get_block-request_add_block, request_set_payload-set_block_size,
}
use webthings.Api.Request.{chosen_token, request_add_token, request_set_payload}
use webthings.Api.Request.Token.{Tokened, request_add_token_lem}
use webthings.Filesys.{Filesys, filesys_get_rep, filesys_get_resource, filesys_well_known_core}
use webthings.Filesys.WellKnown.{links, commas, fitted, filesys_well_known_core_lem}
use webthings.Filesys.Lookup.{filesys_get_rep_any}
use webthings.Tests.{sensor, plain, json}
use webthings.Tests.Clients.{asking, five}
use webthings.Tests.Servers.{busy, content}
use webthings.Tests.Texts.{ByText, by_text, libu, libu-IsStrlcat, same_bytes-IsEquivalence}

-- The path "/t", which nobody registered.
abbrev tea : Bytes
tea = b'/' ∷ b't' ∷ []

register_cb_lem_example :
    (is_registered same_bytes busy.resources tea ≡ true)
      × (register_cb same_bytes busy tea (some (λ srv. content)) ≡ err busy)
    ⊎ ((coap' : Base) × (register_cb same_bytes busy tea (some (λ srv. content)) ≡ ok coap')
        × IsDistinct same_bytes coap'.resources
        × ((uri : Bytes)
            → find_callback same_bytes coap'.resources coap'.fb uri ≡ (
                if same_bytes tea uri
                then some (λ srv. content)
                else find_callback same_bytes busy.resources busy.fb uri))
        × (unregister_cb same_bytes coap' tea ≡ ok busy))
unfolding is_registered
register_cb_lem_example =
    register_cb_lem same_bytes same_bytes-IsEquivalence same_bytes busy tea (λ srv. content)
      (λ a b. refl) (refl, tt)

unregister_cb_lem_example :
    IsDistinct same_bytes []
    × ((uri : Bytes)
        → find_callback same_bytes [] none uri ≡ (
            if same_bytes (b'/' ∷ []) uri
            then none
            else find_callback same_bytes busy.resources none uri))
unfolding same_bytes is_registered unregister_cb
unregister_cb_lem_example =
    unregister_cb_lem same_bytes same_bytes-IsEquivalence same_bytes busy
      (record busy { resources = [] }) (b'/' ∷ []) (λ a b. refl) (refl, tt) refl

request_get_block-request_add_block_example :
    (cli' : Client) × (request_add_block true asking Sym.block2 70 true (2 ^ (5 + 4)) ≡ ok cli')
    × (request_get_block true (some (record five { opts = cli'.req.opts })) Sym.block2
        ≡ some (70, true, 2 ^ (5 + 4)))
unfolding occurrences opts_init
request_get_block-request_add_block_example =
    request_get_block-request_add_block true asking Sym.block2 70 true 5 five opts_init-IsPool
      (omega arith) (inr refl) refl (omega arith) (omega arith)

abbrev unset : Cfg
unset = record { block_is_stateless = true; block_szx = 0 }

request_set_payload-set_block_size_example :
    (cfg' : Cfg) × (set_block_size unset 64 ≡ ok cfg')
    × ((cli : Client) (payload : Bytes)
        → (64 ≤ length payload → request_set_payload cfg' cli (some payload) ≡ err cli)
          × (1 ≤ length payload
              → length payload * 2 ≤ 64
              → request_set_payload cfg' cli (some payload)
                ≡ ok (record cli { req = record cli.req { payload = payload } })))
request_set_payload-set_block_size_example =
    request_set_payload-set_block_size unset 64 (omega arith) (omega arith)

request_add_token_lem_example :
    (request_add_token (replicate 8 9) asking (some (1 ∷ 2 ∷ [])) 2 ≢ fault)
    × ((cli' : Client)
        → request_add_token (replicate 8 9) asking (some (1 ∷ 2 ∷ [])) 2 ≡ ok cli'
        → Tokened asking.req.opts cli' (1 ∷ 2 ∷ []))
unfolding chosen_token
request_add_token_lem_example =
    request_add_token_lem (replicate 8 9) asking (some (1 ∷ 2 ∷ [])) refl refl

-- Two resources, of which the second can be observed.
abbrev meadow : Res
meadow = record sensor {
  uri = b'/' ∷ b'm' ∷ [];
  reps = plain ∷ [];
  attrs = record { obs = true; exp = false; interface = []; res_type = b't' ∷ [] };
}

abbrev hosting : Filesys (ByText Res)
hosting = record { rel_refs = false; map = λ uri. some sensor }

filesys_well_known_core_lem_example :
    filesys_well_known_core (λ m. sensor ∷ meadow ∷ []) libu hosting [] none
    ≡ fitted (commas (links libu [] none false (sensor ∷ meadow ∷ [])))
filesys_well_known_core_lem_example =
    filesys_well_known_core_lem libu libu-IsStrlcat (λ m. sensor ∷ meadow ∷ []) hosting [] none

-- </s>;sz=2,</m>;rt="t";sz=2;ct=0;obs
two_links :
    filesys_well_known_core (λ m. sensor ∷ meadow ∷ []) libu hosting [] none
    ≡ some (
        b'<' ∷ b'/' ∷ b's' ∷ b'>' ∷ b';' ∷ b's' ∷ b'z' ∷ b'=' ∷ b'2' ∷ b',' ∷ b'<' ∷ b'/' ∷ b'm'
        ∷ b'>' ∷ b';' ∷ b'r' ∷ b't' ∷ b'=' ∷ b'"' ∷ b't' ∷ b'"' ∷ b';' ∷ b's' ∷ b'z' ∷ b'=' ∷ b'2'
        ∷ b';' ∷ b'c' ∷ b't' ∷ b'=' ∷ b'0' ∷ b';' ∷ b'o' ∷ b'b' ∷ b's' ∷ [])
unfolding filesys_well_known_core res_link_format_str same_bytes Option.bind
two_links = refl

filesys_get_rep_any_example :
    (filesys_get_rep by_text hosting sensor.uri 255 none ≡ none)
    × (resource_get_rep sensor 255 none ≡ some 0)
unfolding filesys_get_resource
filesys_get_rep_any_example =
    filesys_get_rep_any by_text hosting sensor.uri sensor plain (json ∷ []) none refl refl
      (omega arith, (omega arith, tt))
