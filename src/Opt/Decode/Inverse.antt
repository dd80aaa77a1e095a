-- ===== src/Opt/Decode/Inverse.antt =====
-- The decoder undoes the encoder, but for values of exactly 15 bytes.
use mathlib.Core.List.{append_assoc, append-nil}
use native.Mathlib.Nat.{le_refl}
use webthings.Common.{
  ℕ, zero, suc, ◌+◌, ◌≤◌, ◌≡◌, ◌≢◌, refl, ap, ◌∙◌, Bytes, List, [], ◌∷◌, ◌++◌, true, arith, length,
  All, All-append, length-append, some, ok,
}
use webthings.Opt.{
  Sym, Opt, Opts, rank, sym_valid, sym2num, value_of, proto_max_options, opts_max_len, opts_init,
}
use webthings.Opt.Table.{sym2num_bounds, sym2num_mono}
use webthings.Opt.Pool.{insert_opt, insert_after}
use webthings.Opt.Pool.Order.{SortedFrom, IsPool}
use webthings.Opt.Encode.{opts_encode}
use webthings.Opt.Encode.Fences.{chunk, needs_fence, fence_count}
use webthings.Opt.Encode.Chunks.{chunks, fence_total, end_of, AllFollow, opts_encode-chunks}
use webthings.Opt.Decode.{decode_loop, opts_decode}
use webthings.Opt.Decode.Steps.{IsMade, pushed, at_bytes, chunk_steps}

-- The options of a pool, each as the encoder wants it.
pub record IsSound (o : Opt) : Type 0 where
  pub made : IsMade o
  pub known : sym_valid o.sym ≡ true
  pub whole : length (value_of o) ≡ o.l
  pub not_15 : o.l ≢ 15

pushed_all : Opts → List Opt → Opts
pushed_all opts [] = opts
pushed_all opts (o ∷ rest) = pushed_all (pushed opts o) rest

chunks_steps :
    (xs : List Opt) (opts : Opts) (last olen : ℕ) (rest : Bytes)
    → All IsSound xs
    → AllFollow last xs
    → opts.noptions + length xs ≤ proto_max_options
    → decode_loop
        (fence_total last xs + length xs)
        (at_bytes opts last (chunks last xs ++ rest) olen)
      ≡ ok (at_bytes (pushed_all opts xs) (end_of last xs) rest (olen + length (chunks last xs)))
unfolding chunks fence_total pushed_all end_of
chunks_steps [] opts last olen rest s w h =
    let z : 0 + 0 ≡ zero = omega arith in
    let n : olen ≡ olen + 0 = omega arith in
    rw z (unfold decode_loop in ap (λ m. ok (at_bytes opts last rest m)) n)
chunks_steps (o ∷ xs) opts last olen rest (s, ss) (w, ws) h =
    let c = sym2num o.sym in
    let f = fence_count (needs_fence last c) in
    let order : f + fence_total c xs + suc (length xs) ≡ f + suc (fence_total c xs + length xs) =
      omega arith in
    let total : olen + length (chunk last o) + length (chunks c xs)
        ≡ olen + length (chunk last o ++ chunks c xs) =
      omega (arith, length-append (chunk last o) (chunks c xs)) in
    rw (append_assoc, order)
      (chunk_steps opts o last olen _ _ s.made w s.not_15 (omega arith)
        ∙ chunks_steps xs (pushed opts o) c _ rest ss ws (unfold pushed in omega arith)
        ∙ ap (λ n. ok (at_bytes (pushed_all (pushed opts o) xs) (end_of c xs) rest n)) total)

-- Pushing the options of a sorted list one by one gives the list.
insert_after-last :
    (o x : Opt) (xs : List Opt)
    → All (λ y. rank y.sym ≤ rank o.sym) (x ∷ xs)
    → insert_after o (x ∷ xs) ≡ some ((x ∷ xs) ++ (o ∷ []))
unfolding insert_after
insert_after-last o x [] h = ground arith
insert_after-last o x (y ∷ xs) h = rw (insert_after-last o y xs h.1, insert_after)

insert_opt-last :
    (o : Opt) (xs : List Opt)
    → All (λ y. rank y.sym ≤ rank o.sym) xs
    → insert_opt o xs ≡ xs ++ (o ∷ [])
unfolding insert_opt
insert_opt-last o [] h = refl
insert_opt-last o (x ∷ xs) h = rw (insert_after-last o x xs h, insert_opt)

All-le :
    (m n : ℕ) (xs : List Opt) → m ≤ n → All (λ y. rank y.sym ≤ m) xs → All (λ y. rank y.sym ≤ n) xs
All-le m n [] h a = tt
All-le m n (x ∷ xs) h a = (omega arith, All-le m n xs h a.1)

pushed_all-sorted :
    (xs : List Opt) (opts : Opts) (n : ℕ)
    → All (λ y. rank y.sym ≤ n) opts.bundle
    → SortedFrom n xs
    → pushed_all opts xs
      ≡ record opts { noptions = opts.noptions + length xs; bundle = opts.bundle ++ xs }
unfolding pushed_all pushed
pushed_all-sorted [] opts n a s = ground (arith, append-nil opts.bundle)
pushed_all-sorted (o ∷ xs) opts n a s =
    let below = All-le n (rank o.sym) opts.bundle s.0 a in
    let e = insert_opt-last o opts.bundle below in
    pushed_all-sorted xs (pushed opts o) (rank o.sym)
      (rw e (
        All-append (λ (y : Opt). rank y.sym ≤ rank o.sym) opts.bundle (o ∷ []) below
          (le_refl (rank o.sym), tt)))
      s.1
    ∙ rw (e, append_assoc) (ground arith)

-- A sorted pool of sound options is one that the encoder can follow.
follows_of_sorted :
    (xs : List Opt) (r last : ℕ)
    → All IsSound xs
    → SortedFrom r xs
    → ((y : Sym) → sym_valid y ≡ true → r ≤ rank y → last ≤ sym2num y)
    → last ≢ 14
    → AllFollow last xs
follows_of_sorted [] r last s o up ne = tt
follows_of_sorted (x ∷ xs) r last (s, ss) (h, o) up ne = (
  record { valid = s.known; rising = up x.sym s.known h; apart = ne; whole = s.whole },
  follows_of_sorted xs (rank x.sym) (sym2num x.sym) ss o (λ y v k. sym2num_mono x.sym y s.known v k)
      (sym2num_bounds x.sym s.known).2,
)

-- For any pool that is sorted and counted, whose options are made by ec_opt_new for valid symbols
-- and none of which is 15 bytes long: if the encoding fits the buffer, ec_opts_encode succeeds, and
-- ec_opts_decode of any header, that encoding and any payload, with the option count that the
-- encoder left, gives back exactly the options of the pool and the length of the encoding.
pub opts_decode-opts_encode :
    (opts : Opts) (h0 h1 h2 h3 : ℕ) (payload : Bytes)
    → IsPool opts
    → All IsSound opts.bundle
    → length (chunks 0 opts.bundle) ≤ opts_max_len
    → (opts' : Opts) × (opts_encode opts ≡ ok opts')
      × (opts_decode opts_init (h0 ∷ h1 ∷ h2 ∷ h3 ∷ (opts'.enc ++ payload)) opts'.noptions
          ≡ ok (
            record opts_init { noptions = opts.noptions; bundle = opts.bundle },
            length opts'.enc,
          ))
unfolding opts_decode opts_init
opts_decode-opts_encode opts h0 h1 h2 h3 payload p s fits =
    let xs = opts.bundle in
    let w = follows_of_sorted xs 0 0 s p.sorted (λ y v k. omega arith) (λ z. omega arith) in
    let count : opts.noptions + fence_total 0 xs ≡ fence_total 0 xs + length xs =
      omega (arith, p.counted) in
    let total : 0 + length (chunks 0 xs) ≡ length (chunks 0 xs) = omega arith in
    (
      record opts {
        enc = chunks 0 xs;
        enc_sz = length (chunks 0 xs);
        noptions = opts.noptions + fence_total 0 xs;
      },
      opts_encode-chunks opts w fits,
      rw
          (
            count,
            chunks_steps xs opts_init 0 0 payload s w (omega (arith, p.counted, p.bounded)),
            pushed_all-sorted xs opts_init 0 tt p.sorted,
            total,
          )
          (ground (arith, p.counted)),
    )
