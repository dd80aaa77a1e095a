-- ===== src/Opt/Encode/Chunks.antt =====
-- What ec_opts_encode writes, option by option, without its buffer and its loop variables.
use mathlib.Core.List.{append_assoc, append-nil}
use webthings.Common.{
  ℕ, ◌+◌, ◌-◌, ◌≤◌, ◌<◌, ◌≡◌, ◌≢◌, ap, ◌∙◌, Bytes, List, [], ◌∷◌, ◌++◌, false, arith, length,
  length-append, ltb, le→ltb, ◌==◌, Bool-cases, inl, inr, if◌then◌else◌, ok, err,
}
use webthings.Opt.{Opt, Opts, sym2num, opts_max_len}
use webthings.Opt.Table.{sym2num_bounds}
use webthings.Opt.Encode.{
  sub64, Fence, add_fenceposts, Enc, put_option, encode_option, encode_loop, opts_encode,
}
use webthings.Opt.Encode.Fences.{
  fence_at_14, sub64_small, needs_fence, fence_count, fence_bytes, chunk, Follows, fences,
  encoded_len-chunk,
}

-- The variables after an option.
pub after_chunk : Enc → Opt → Enc
after_chunk e o = record {
  p = e.p ++ chunk e.last o;
  left = e.left - length (chunk e.last o);
  last = sym2num o.sym;
  noptions = e.noptions + fence_count (needs_fence e.last (sym2num o.sym));
}

abbrev start_fence : Enc → Fence
start_fence e = record { p = e.p; last = e.last; noptions = e.noptions }

fence_part : Enc → ℕ → Fence
fence_part e cur =
    if ltb 14 (sub64 cur e.last)
    then add_fenceposts (cur - e.last) e.last (start_fence e)
    else start_fence e

fence_part_lem :
    (e : Enc) (cur : ℕ)
    → e.last ≤ cur
    → cur ≤ 23
    → e.last ≢ 14
    → fence_part e cur
      ≡ (if needs_fence e.last cur then fence_at_14 (start_fence e) else start_fence e)
unfolding fence_part
fence_part_lem e cur h k l = elim (Bool-cases (needs_fence e.last cur)) [
  | inl b ↦ rw (sub64_small cur e.last h k, b) (fences e.last cur (start_fence e) h k l b).0
  | inr b ↦ rw (sub64_small cur e.last h k, b)
]

put_option-after_chunk :
    (e : Enc) (o : Opt)
    → Follows e.last o
    → put_option o (sym2num o.sym) e (fence_part e (sym2num o.sym)) ≡ after_chunk e o
unfolding put_option after_chunk
put_option-after_chunk e o w =
    let (lo, hi, _) = sym2num_bounds o.sym w.valid in
    rw (encoded_len-chunk e.last o w, fence_part_lem e (sym2num o.sym) w.rising hi w.apart)
      (unfold chunk fence_bytes fence_at_14 in
        elim (Bool-cases (needs_fence e.last (sym2num o.sym))) [
          | inl b ↦ rw (b, sub64_small (sym2num o.sym) 14 (ground arith) hi, append_assoc)
          | inr b ↦ rw (b, sub64_small (sym2num o.sym) e.last w.rising hi) (ground arith)
        ])

-- The body of the loop fails exactly where the chunk does not fit, and else writes it.
pub encode_option-chunk :
    (e : Enc) (o : Opt)
    → Follows e.last o
    → encode_option e o
      ≡ (if ltb e.left (length (chunk e.last o)) then err e else ok (after_chunk e o))
unfolding encode_option fence_part
encode_option-chunk e o w =
    let (lo, hi, _) = sym2num_bounds o.sym w.valid in
    let known : (sym2num o.sym == 0) ≡ false = ground arith in
    rw (known, ← encoded_len-chunk e.last o w, ← put_option-after_chunk e o w)

-- Every option follows the one before it.
abbrev pub AllFollow : ℕ → List Opt → Type 0
AllFollow last [] = Unit {0}
AllFollow last (o ∷ rest) = Follows last o × AllFollow (sym2num o.sym) rest

unfoldable pub chunks : ℕ → List Opt → Bytes
chunks last [] = []
chunks last (o ∷ rest) = chunk last o ++ chunks (sym2num o.sym) rest

unfoldable pub fence_total : ℕ → List Opt → ℕ
fence_total last [] = 0
fence_total last (o ∷ rest) =
    fence_count (needs_fence last (sym2num o.sym)) + fence_total (sym2num o.sym) rest

unfoldable pub end_of : ℕ → List Opt → ℕ
end_of last [] = last
end_of last (o ∷ rest) = end_of (sym2num o.sym) rest

-- The variables after the whole pool.
after_chunks : Enc → List Opt → Enc
after_chunks e xs = record {
  p = e.p ++ chunks e.last xs;
  left = e.left - length (chunks e.last xs);
  last = end_of e.last xs;
  noptions = e.noptions + fence_total e.last xs;
}

encode_loop-chunks :
    (xs : List Opt) (e : Enc)
    → AllFollow e.last xs
    → length (chunks e.last xs) ≤ e.left
    → encode_loop e xs ≡ ok (after_chunks e xs)
unfolding encode_loop after_chunk after_chunks chunks fence_total end_of
encode_loop-chunks [] e w h = ground (arith, append-nil e.p)
encode_loop-chunks (o ∷ xs) e w h =
    let split = length-append (chunk e.last o) (chunks (sym2num o.sym) xs) in
    let step : encode_option e o ≡ ok (after_chunk e o) = rw (
      encode_option-chunk e o w.0,
      le→ltb e.left (length (chunk e.last o)) (omega (arith, split)),
    ) in
    rw (step, encode_loop)
      (encode_loop-chunks xs (after_chunk e o) w.1 (omega (arith, split))
        ∙ ap ok
            (ground (arith, split, append_assoc e.p (chunk e.last o) (chunks (sym2num o.sym) xs))))

-- On a pool whose options follow one another and whose encoding fits the buffer of 4050 bytes,
-- ec_opts_encode succeeds: it writes the chunks of the options and no more, sets enc_sz to the bytes
-- written, and counts the fenceposts among the options.
pub opts_encode-chunks :
    (opts : Opts)
    → AllFollow 0 opts.bundle
    → length (chunks 0 opts.bundle) ≤ opts_max_len
    → opts_encode opts
      ≡ ok (record opts {
        enc = chunks 0 opts.bundle;
        enc_sz = length (chunks 0 opts.bundle);
        noptions = opts.noptions + fence_total 0 opts.bundle;
      })
unfolding opts_encode after_chunks
opts_encode-chunks opts w h =
    rw
      (
        encode_loop-chunks opts.bundle
            (record { p = []; left = opts_max_len; last = 0; noptions = opts.noptions }) w h,
        opts_encode,
      )
      (ground arith)

encode_loop_full :
    (xs : List Opt) (e : Enc)
    → AllFollow e.last xs
    → e.left < length (chunks e.last xs)
    → (e' : Enc) × (encode_loop e xs ≡ err e')
unfolding encode_loop chunks after_chunk
encode_loop_full [] e w h = absurd (omega arith)
encode_loop_full (o ∷ xs) e w h =
    let split = length-append (chunk e.last o) (chunks (sym2num o.sym) xs) in
    elim (Bool-cases (ltb e.left (length (chunk e.last o)))) [
      | inl b ↦ (e, rw (encode_option-chunk e o w.0, b))
      | inr b ↦
          rw (encode_option-chunk e o w.0, b)
            (encode_loop_full xs (after_chunk e o) w.1 (ground (arith, split)))
    ]

-- Where the encoding does not fit, ec_opts_encode fails; it never writes past the buffer.
pub opts_encode_full :
    (opts : Opts)
    → AllFollow 0 opts.bundle
    → opts_max_len < length (chunks 0 opts.bundle)
    → (opts' : Opts) × (opts_encode opts ≡ err opts')
unfolding opts_encode
opts_encode_full opts w h =
    let (e, q) =
      encode_loop_full opts.bundle
        (record { p = []; left = opts_max_len; last = 0; noptions = opts.noptions }) w h in
    (record opts { enc = e.p; enc_sz = opts_max_len; noptions = e.noptions }, rw (q, opts_encode))
