-- ===== src/Pdu/Reads.antt =====
-- The responses of evcoap_pdu.c are encoded within the buffers.
use webthings.Common.{ℕ, Bytes, Option, none, some, ◌==◌, if◌then◌else◌, arith}
use webthings.Opt.{Opts}
use webthings.Opt.Reads.{InBounds, opts_add_token-InBounds, opts_encode-InBounds}
use webthings.Pdu.{
  HostOrder, encode_response, encode_response_piggyback, encode_response_ack, encode_response_rst,
  encode_response_separate,
}

module _ (host : HostOrder) where
  encode_response-InBounds :
      (opts : Opts) (token : Bytes) (t rc mid : ℕ)
      → InBounds (encode_response host opts token t rc mid)
  unfolding encode_response
  encode_response-InBounds opts token t rc mid =
      grind (arith, opts_add_token-InBounds, opts_encode-InBounds)

  pub encode_response_piggyback-InBounds :
      (opts : Opts) (token : Bytes) (resp_code : ℕ) (sibling : Option ℕ)
      → InBounds (encode_response_piggyback host opts token resp_code sibling)
  unfolding encode_response_piggyback
  encode_response_piggyback-InBounds opts token resp_code none = λ q. cc
  encode_response_piggyback-InBounds opts token resp_code (some mid) =
      ground (arith, encode_response-InBounds opts token 2 resp_code mid)

  pub encode_response_ack-InBounds :
      (opts : Opts) (token : Bytes) (sibling : Option ℕ)
      → InBounds (encode_response_ack host opts token sibling)
  unfolding encode_response_ack
  encode_response_ack-InBounds opts token none = λ q. cc
  encode_response_ack-InBounds opts token (some mid) = encode_response-InBounds opts token 2 0 mid

  pub encode_response_rst-InBounds :
      (opts : Opts) (token : Bytes) (sibling : Option ℕ)
      → InBounds (encode_response_rst host opts token sibling)
  unfolding encode_response_rst
  encode_response_rst-InBounds opts token none = λ q. cc
  encode_response_rst-InBounds opts token (some mid) = encode_response-InBounds opts token 3 0 mid

  pub encode_response_separate-InBounds :
      (opts : Opts) (token : Bytes) (resp_code confirmable hdr_mid random uninitialized : ℕ)
      → InBounds (
          encode_response_separate host opts token resp_code confirmable hdr_mid random
            uninitialized)
  unfolding encode_response_separate
  encode_response_separate-InBounds opts token resp_code confirmable hdr_mid random uninitialized =
      ground (
        arith,
        encode_response-InBounds opts token (if confirmable == 1 then 0 else 1) resp_code
            (if hdr_mid == 0 then random else uninitialized),
      )
