-- ===== src/Opt/Reads.antt =====
-- The pool and its encoder read and write within their buffers (evcoap_opt.c).
use webthings.Common.{
  ℕ, zero, suc, ◌+◌, ◌*◌, ◌/◌, ◌%◌, ◌≤◌, ◌≢◌, refl, Bytes, List, [], ◌∷◌, some, ltb, ◌==◌,
  if◌then◌else◌, length, drop, length-drop, Result, ok, err, fault, ◌>>=◌, Bool-cases, inl, inr,
  arith,
}
use webthings.Opt.{Sym, Opt, Opts, opt_len_max, opts_max_len, proto_max_options}
use webthings.Opt.Pool.{
  copy_value, opt_new, opts_push, opts_add, add_segments, add_remainder, has_remainder,
  to_be_used_opts, opts_add_raw,
}
use webthings.Opt.Add.{opts_add_token, opts_add_opaque}
use webthings.Opt.Encode.{Enc, encode_option, encode_loop, opts_encode}

-- No access outside of a buffer.
abbrev pub InBounds {ℓ κ} : {E : Type ℓ} {A : Type κ} → Result E A → Type (ℓ ⊔ κ)
InBounds r = r ≢ fault

opt_new-InBounds : (sym : Sym) (l : ℕ) (v : Bytes) → l ≤ length v → InBounds (opt_new sym l v)
unfolding opt_new copy_value
opt_new-InBounds sym l v h = ground arith

opts_add-InBounds :
    (opts : Opts) (sym : Sym) (v : Bytes) (l : ℕ) → l ≤ length v → InBounds (opts_add opts sym v l)
unfolding opts_add opts_push
opts_add-InBounds opts sym v l h = ground (arith, opt_new-InBounds sym l v h)

pub >>=-InBounds {ℓ κ} :
    {E : Type ℓ} {A B : Type κ} (r : Result E A) (f : A → Result E B)
    → InBounds r
    → ((a : A) → InBounds (f a))
    → InBounds (r >>= f)
>>=-InBounds (ok a) f h k = k a
>>=-InBounds (err e) f h k = λ q. cc
>>=-InBounds fault f h k = absurd (h refl)

add_segments-InBounds :
    (n : ℕ) (opts : Opts) (sym : Sym) (v : Bytes)
    → n * opt_len_max ≤ length v
    → InBounds (add_segments n opts sym v)
unfolding add_segments
add_segments-InBounds zero opts sym v h = λ q. cc
add_segments-InBounds (suc n) opts sym v h =
    >>=-InBounds (opts_add opts sym v opt_len_max) (λ o. add_segments n o sym (drop opt_len_max v))
      (opts_add-InBounds opts sym v opt_len_max (omega arith))
      (λ o.
        add_segments-InBounds n o sym (drop opt_len_max v)
          (omega (arith, length-drop opt_len_max v)))

add_remainder-InBounds :
    (l : ℕ) (sym : Sym) (v : Bytes) (opts : Opts)
    → l ≤ length v
    → InBounds (add_remainder l sym v opts)
unfolding add_remainder
add_remainder-InBounds l sym v opts h = elim (Bool-cases (has_remainder l)) [
  | inl e ↦ rw e (
      opts_add-InBounds opts sym (drop (l / opt_len_max * opt_len_max) v)
        (if l == 0 then 0 else l % opt_len_max)
        (ground (arith, length-drop (l / opt_len_max * opt_len_max) v)))
  | inr e ↦ rw e (λ q. cc)
]

-- ec_opts_add_raw, given no more than the bytes at its pointer, never reads past them, whatever the
-- state of the pool and however many segments the value takes.
pub opts_add_raw-InBounds :
    (opts : Opts) (sym : Sym) (v : Bytes) (l : ℕ)
    → l ≤ length v
    → InBounds (opts_add_raw opts sym v l)
unfolding opts_add_raw
opts_add_raw-InBounds opts sym v l h =
    elim (Bool-cases (ltb proto_max_options (opts.noptions + to_be_used_opts l))) [
      | inl e ↦ rw e (λ q. cc)
      | inr e ↦ rw e (
          >>=-InBounds (add_segments (l / opt_len_max) opts sym v) (add_remainder l sym v)
            (add_segments-InBounds (l / opt_len_max) opts sym v (omega arith))
            (λ o. add_remainder-InBounds l sym v o h))
    ]

pub opts_add_token-InBounds :
    (opts : Opts) (t : Bytes) → InBounds (opts_add_token opts (some t) (length t))
unfolding opts_add_token opts_add_opaque
opts_add_token-InBounds opts t = ground (arith, opts_add_raw-InBounds opts Sym.token t (length t))

encode_loop-InBounds : (e : Enc) (xs : List Opt) → InBounds (encode_loop e xs)
unfolding encode_loop encode_option
encode_loop-InBounds e [] = λ q. cc
encode_loop-InBounds e (x ∷ xs) =
    >>=-InBounds (encode_option e x) (λ e'. encode_loop e' xs) (ground arith)
      (λ e'. encode_loop-InBounds e' xs)

pub opts_encode-InBounds : (opts : Opts) → InBounds (opts_encode opts)
unfolding opts_encode
opts_encode-InBounds opts = ground (
  arith,
  encode_loop-InBounds (record { p = []; left = opts_max_len; last = 0; noptions = opts.noptions })
      opts.bundle,
)
