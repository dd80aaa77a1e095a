-- ===== src/Api/Request/Token.antt =====
-- The token of a request is the same in its options and in its flow (ec_request_add_token of evcoap.c).
use webthings.Common.{
  ℕ, ◌≤◌, ◌≡◌, ◌≢◌, refl, subst, Bytes, Option, none, some, length, arith, ok, err, fault, Result,
  ◌==◌, inl, inr, Bool-cases,
}
use webthings.Opt.{Opts}
use webthings.Opt.Add.{opts_add_token}
use webthings.Opt.Reads.{InBounds, opts_add_token-InBounds}
use webthings.Flow.{flow_get_token}
use webthings.Flow.Token.{flow_get_token-flow_save_token}
use webthings.Cli.{Client}
use webthings.Api.Blocks.{with_req_opts}
use webthings.Api.Request.{chosen_token, add_and_save, request_add_token}

added_bounds :
    (opts opts' : Opts) (tok : Bytes) (n : ℕ)
    → opts_add_token opts (some tok) n ≡ ok opts'
    → (1 ≤ n) × (n ≤ 8)
unfolding opts_add_token
added_bounds opts opts' tok n h = (ground arith, ground arith)

-- The size of a token that the user passes.
abbrev pub size_of : Option Bytes → ℕ
size_of none = 0
size_of (some t) = length t

chosen_size :
    (random : Bytes) (t : Option Bytes)
    → length random ≡ 8
    → (chosen_token random t (size_of t)).1 ≡ length (chosen_token random t (size_of t)).0
unfolding chosen_token
chosen_size random none h = ground arith
chosen_size random (some t) h = elim (Bool-cases (length t == 0)) [
  | inl e ↦ rw e (ground arith)
  | inr e ↦ rw e
]

-- A client whose request carries the token `tok` that its flow remembers, added to the options `opts`.
pub record Tokened (opts : Opts) (cli : Client) (tok : Bytes) : Type 0 where
  pub added : opts_add_token opts (some tok) (length tok) ≡ ok cli.req.opts
  pub saved : flow_get_token cli.flow ≡ (tok, length tok)
  pub some_byte : 1 ≤ length tok
  pub few_bytes : length tok ≤ 8

add_and_save_lem :
    (cli : Client) (tok : Bytes) (added : Result Opts Opts)
    → length cli.flow.token ≡ 8
    → opts_add_token cli.req.opts (some tok) (length tok) ≡ added
    → InBounds added
    → (add_and_save tok (length tok) (with_req_opts cli added) ≢ fault)
      × ((cli' : Client)
          → add_and_save tok (length tok) (with_req_opts cli added) ≡ ok cli'
          → Tokened cli.req.opts cli' tok)
unfolding add_and_save
add_and_save_lem cli tok (ok opts) w e b =
    let (lo, hi) = added_bounds cli.req.opts opts tok (length tok) e in
    let (flow', s, g, _) = flow_get_token-flow_save_token cli.flow tok w lo hi in
    let cli' : Client = record cli { req = record cli.req { opts = opts }; flow = flow' } in
    let t : Tokened cli.req.opts cli' tok = record {
      added = e;
      saved = g;
      some_byte = lo;
      few_bytes = hi;
    } in
    rw s (λ h. cc, λ c h. subst (λ c. Tokened cli.req.opts c tok) (ground arith) t)
add_and_save_lem cli tok (err opts) w e b = (λ h. cc, λ cli' h. cc)
add_and_save_lem cli tok fault w e b = absurd (b refl)

-- ec_request_add_token, given the size of the token that it is passed and 8 random bytes, on a flow with
-- its buffer of 8 bytes, writes nowhere else: the check of the option keeps longer tokens from the flow.
-- Where it succeeds, the token that it chose has 1 to 8 bytes, is the one added to the options, and is the
-- one that ec_flow_get_token gives for the matching of responses.
pub request_add_token_lem :
    (random : Bytes) (cli : Client) (t : Option Bytes)
    → length random ≡ 8
    → length cli.flow.token ≡ 8
    → (request_add_token random cli t (size_of t) ≢ fault)
      × ((cli' : Client)
          → request_add_token random cli t (size_of t) ≡ ok cli'
          → Tokened cli.req.opts cli' (chosen_token random t (size_of t)).0)
unfolding request_add_token
request_add_token_lem random cli t h w =
    let tok = (chosen_token random t (size_of t)).0 in
    rw (chosen_size random t h) (
      add_and_save_lem cli tok (opts_add_token cli.req.opts (some tok) (length tok)) w refl
        (opts_add_token-InBounds cli.req.opts tok))
