-- ===== src/Pdu/Header.antt =====
-- What a peer reads of the header that the library writes.
use webthings.Common.{
  ℕ, ◌+◌, ◌*◌, ◌/◌, ◌%◌, ◌≤◌, ◌<◌, ◌≡◌, refl, Bytes, ◌++◌, List, [], ◌∷◌, some, arith, ok, subst,
  length,
}
use webthings.Opt.{Opt, Opts, sym2num, proto_max_options, opts_max_len}
use webthings.Opt.Table.{sym2num_bounds}
use webthings.Opt.Encode.{opts_encode}
use webthings.Opt.Encode.Chunks.{chunks, fence_total, AllFollow, opts_encode-chunks}
use webthings.Pdu.{HostOrder, encode_header, decode_header}

-- The documented behaviour of htons and ntohs: 16-bit words, and inverse to each other.
pub record IsHostOrder (host : HostOrder) : Type 0 where
  pub htons_word : (n : ℕ) → n < 65536 → host.htons n < 65536
  pub ntohs-htons : (n : ℕ) → n < 65536 → host.ntohs (host.htons n) ≡ n

-- Whatever the byte order of the host, ec_pdu_decode_header reads back the type, the code and the
-- MID that encode_header wrote, whatever follows; the option count comes back modulo 16.
pub decode_header-encode_header :
    (host : HostOrder) (noptions code t mid : ℕ) (rest : Bytes)
    → IsHostOrder host
    → code < 256
    → t < 4
    → mid < 65536
    → decode_header host (encode_header host noptions code t mid ++ rest)
      ≡ some (record { t = t; oc = noptions % 16; code = code; mid = mid })
unfolding encode_header decode_header
decode_header-encode_header host noptions code t mid rest w hc ht hm =
    let word = w.htons_word mid hm in
    let joined : host.htons mid / 256 % 256 * 256 + host.htons mid % 256 ≡ host.htons mid =
      omega (arith, word) in
    let back = w.ntohs-htons mid hm in
    let ver : (64 + t % 4 * 16 + noptions % 256 % 16) / 64 % 4 ≡ 1 = omega arith in
    let ty : (64 + t % 4 * 16 + noptions % 256 % 16) / 16 % 4 ≡ t = omega arith in
    let oc : (64 + t % 4 * 16 + noptions % 256 % 16) % 16 ≡ noptions % 16 = omega arith in
    let co : code % 256 ≡ code = omega arith in rw (ver, joined, back, ty, oc, co)

fence_total_none :
    (xs : List Opt) (last : ℕ) → 15 ≤ last → AllFollow last xs → fence_total last xs ≡ 0
unfolding fence_total
fence_total_none [] last h w = refl
fence_total_none (x ∷ xs) last h (w, ws) =
    let (lo, hi, _) = sym2num_bounds x.sym w.valid in
    ground (arith, fence_total_none xs (sym2num x.sym) (omega (arith, w.rising)) ws)

one_fence :
    (o : Opt) (xs : List Opt) (opts : Opts)
    → opts.bundle ≡ o ∷ xs
    → opts.noptions ≡ proto_max_options
    → 14 < sym2num o.sym
    → AllFollow 0 opts.bundle
    → opts.noptions + fence_total 0 opts.bundle ≡ 16
unfolding fence_total
one_fence o xs opts e full high f =
    let (w, ws) = subst (AllFollow 0) e f in
    rw (e, full) (ground (arith, fence_total_none xs (sym2num o.sym) high ws))

-- A full pool of 15 options, the lowest of which has a number above 14, is encoded with 16 options:
-- its header announces none at all to whoever decodes it.
pub full_pool_announces_none :
    (host : HostOrder) (opts : Opts) (o : Opt) (xs : List Opt) (code t mid : ℕ) (rest : Bytes)
    → IsHostOrder host
    → code < 256
    → t < 4
    → mid < 65536
    → opts.bundle ≡ o ∷ xs
    → opts.noptions ≡ proto_max_options
    → 14 < sym2num o.sym
    → AllFollow 0 opts.bundle
    → length (chunks 0 opts.bundle) ≤ opts_max_len
    → (opts' : Opts) × (opts_encode opts ≡ ok opts')
      × (opts'.noptions ≡ 16)
      × (decode_header host (encode_header host opts'.noptions code t mid ++ rest)
          ≡ some (record { t = t; oc = 0; code = code; mid = mid }))
full_pool_announces_none host opts o xs code t mid rest w hc ht hm e full high f fits =
    let opts' : Opts = record opts {
      enc = chunks 0 opts.bundle;
      enc_sz = length (chunks 0 opts.bundle);
      noptions = opts.noptions + fence_total 0 opts.bundle;
    } in
    let sixteen : opts'.noptions ≡ 16 = one_fence o xs opts e full high f in
    (
      opts',
      opts_encode-chunks opts f fits,
      sixteen,
      rw sixteen (decode_header-encode_header host 16 code t mid rest w hc ht hm),
    )
