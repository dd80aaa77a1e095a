-- ===== src/Flow/Token.antt =====
-- The token of a request is mirrored in the response.
use webthings.Common.{
  ℕ, ◌≤◌, ◌<◌, ◌≡◌, Bytes, some, arith, length, length-append, length-take, length-drop, take_all,
  take, drop, ok, fault, ◌++◌, take-append, subst,
}
use webthings.Flow.{Flow, flow_save_token, flow_get_token}

take_copied : (n : ℕ) (v w : Bytes) → n ≤ length v → take n (take n v ++ w) ≡ take n v
take_copied n v w h =
    subst (λ k. take k (take n v ++ w) ≡ take n v) (length-take n v h) (take-append (take n v) w)

-- A token of 1 to 8 bytes is saved, and ec_flow_get_token then returns exactly these bytes and their
-- number; the buffer keeps its 8 bytes.
pub flow_get_token-flow_save_token :
    (flow : Flow) (tok : Bytes)
    → length flow.token ≡ 8
    → 1 ≤ length tok
    → length tok ≤ 8
    → (flow' : Flow) × (flow_save_token flow (some tok) (length tok) ≡ ok flow')
      × (flow_get_token flow' ≡ (tok, length tok))
      × (length flow'.token ≡ 8)
unfolding flow_save_token flow_get_token
flow_get_token-flow_save_token flow tok h lo hi =
    let n = length tok in
    (
      record flow { token = take n tok ++ drop n flow.token; token_sz = n },
      ground arith,
      ground (arith, take_copied n tok (drop n flow.token), take_all tok),
      omega (
        arith,
        length-append (take n tok) (drop n flow.token),
        length-take n tok (omega arith),
        length-drop n flow.token,
      ),
    )

-- ec_flow_save_token does not check the length: a longer token is written past the end of the
-- buffer of 8 bytes, whatever the flow.
pub flow_save_token_overflow :
    (flow : Flow) (tok : Bytes)
    → 8 < length tok
    → flow_save_token flow (some tok) (length tok) ≡ fault
unfolding flow_save_token
flow_save_token_overflow flow tok h = ground arith
