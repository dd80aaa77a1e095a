-- ===== src/Pdu.antt =====
-- The CoAP header: encode_header, ec_pdu_decode_header and encode_response of
-- bridge/sw/lib/evcoap/src/evcoap_pdu.c.
pub mod Header
pub mod Reads
use webthings.Common.{
  ℕ, ◌+◌, ◌*◌, ◌/◌, ◌%◌, Bytes, List, [], ◌∷◌, Option, none, some, Bool, true, false, not, ltb,
  ◌==◌, ◌||◌, ◌&&◌, if◌then◌else◌, length, Result, ok, err, fault,
}
use webthings.Opt.{Opts}
use webthings.Opt.Add.{opts_add_token}
use webthings.Opt.Encode.{opts_encode}
use webthings.Enums.{is_resp_code}

-- ec_hdr_t.
pub record Hdr : Type 0 where
  pub t : ℕ
  pub oc : ℕ
  pub code : ℕ
  pub mid : ℕ

-- The byte order of 16-bit words on the host: htons and ntohs of the C library.
pub record HostOrder : Type 0 where
  pub htons : ℕ → ℕ
  pub ntohs : ℕ → ℕ

module _ (host : HostOrder) where
  open host use {htons, ntohs}

  -- encode_header. `ver` is 1 and `oc` and `code` are uint8_t; the parts that `|` joins fall on disjoint bits.
  unfoldable pub encode_header : ℕ → ℕ → ℕ → ℕ → Bytes
  encode_header noptions code t mid =
      (1 * 64 + t % 4 * 16 + noptions % 256 % 16)
      ∷ code % 256
      ∷ (htons mid / 256 % 256)
      ∷ (htons mid % 256)
      ∷ []

  -- ec_pdu_decode_header on the bytes received; `none` for -1.
  unfoldable pub decode_header : Bytes → Option Hdr
  decode_header (r0 ∷ r1 ∷ r2 ∷ r3 ∷ rest) =
      if r0 / 64 % 4 == 1
      then some (record { t = r0 / 16 % 4; oc = r0 % 16; code = r1; mid = ntohs (r2 * 256 + r3) })
      else none
  decode_header _ = none

  -- What encode_response reads of the flow and of the PDU: the token that the client sent, and the
  -- options. It leaves the header and the options.
  unfoldable pub encode_response : Opts → Bytes → ℕ → ℕ → ℕ → Result Opts (Bytes × Opts)
  encode_response opts token t rc mid =
      let tokened : Result Opts Opts =
        if length token == 0 then ok opts else opts_add_token opts (some token) (length token) in
      let encoded : Result Opts Opts = elim tokened [
        | ok o ↦ opts_encode o
        | err o ↦ err o
        | fault ↦ fault
      ] in
      let ready : Result Opts Opts = if not (t == 3) && not (rc == 0) then encoded else ok opts in
      elim ready [
        | ok o ↦ ok (encode_header o.noptions rc t mid, o)
        | err o ↦ err o
        | fault ↦ fault
      ]

  -- ec_pdu_encode_response_piggyback: `sibling` is the MID of the request, if there is one.
  unfoldable pub encode_response_piggyback :
      Opts → Bytes → ℕ → Option ℕ → Result Opts (Bytes × Opts)
  encode_response_piggyback opts token resp_code none = err opts
  encode_response_piggyback opts token resp_code (some mid) =
      if is_resp_code resp_code then encode_response opts token 2 resp_code mid else err opts

  -- ec_pdu_encode_response_ack.
  unfoldable pub encode_response_ack : Opts → Bytes → Option ℕ → Result Opts (Bytes × Opts)
  encode_response_ack opts token none = err opts
  encode_response_ack opts token (some mid) = encode_response opts token 2 0 mid

  -- ec_pdu_encode_response_rst.
  unfoldable pub encode_response_rst : Opts → Bytes → Option ℕ → Result Opts (Bytes × Opts)
  encode_response_rst opts token none = err opts
  encode_response_rst opts token (some mid) = encode_response opts token 3 0 mid

  -- ec_pdu_encode_response_separate. `confirmable` is the flag of the connection (0 unset, 1 CON,
  -- 2 NON) and `random` what the generator gives. The local `mid` is assigned only where the header
  -- has no MID yet; `uninitialized` is what it holds otherwise. The result holds the MID that the
  -- PDU remembers, the header and the options.
  unfoldable pub encode_response_separate :
      Opts → Bytes → ℕ → ℕ → ℕ → ℕ → ℕ → Result Opts (ℕ × Bytes × Opts)
  encode_response_separate opts token resp_code confirmable hdr_mid random uninitialized =
      let mid = if hdr_mid == 0 then random else uninitialized in
      let hdr_mid' = if hdr_mid == 0 then random else hdr_mid in
      if confirmable == 1 || confirmable == 2
      then (elim (encode_response opts token (if confirmable == 1 then 0 else 1) resp_code mid) [
        | ok (hdr, o) ↦ ok (hdr_mid', hdr, o)
        | err o ↦ err o
        | fault ↦ fault
      ])
      else err opts
