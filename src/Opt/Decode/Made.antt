-- ===== src/Opt/Decode/Made.antt =====
-- The options that ec_opt_new makes are sound for the round trip, and what becomes of the lengths
-- that the round trip leaves out.

use webthings.Common.{
  ℕ, zero, suc, ◌+◌, ◌≤◌, ◌<◌, ◌≡◌, ◌≢◌, refl, ap, subst, ◌∙◌, sym, Bytes, [], ◌∷◌, ◌++◌, true,
  arith, length, take, drop, length-take, length-append, ok, some,
}
use webthings.Opt.{
  Sym, OptType, Opt, Opts, sym_valid, sym2num, sym2type, value_of, proto_max_options, opt_len_max,
}
use webthings.Opt.Table.{num2sym-sym2num}
use webthings.Opt.Pool.{opt_new, opts_add}
use webthings.Opt.Pool.Segments.{
  carries, new_of_type, take_terminated, value_of-new_of_type, opt_new-new_of_type,
}
use webthings.Opt.Encode.{head_bytes}
use webthings.Opt.Decode.{take_option, decode_option}
use webthings.Opt.Decode.Steps.{
  pushed, at_bytes, read_len_extended, decode_known, valid_number, opts_push-pushed,
}
use webthings.Opt.Decode.Inverse.{IsSound}

abbrev opt_with : Sym → OptType → ℕ → Bytes → Bytes → Opt
opt_with s t l w b = record { sym = s; t = t; l = l; v = some (b ++ w) }

kept : (l : ℕ) (v w : Bytes) → l ≤ length v → length (take l (take l v ++ w)) ≡ l
kept l v w h = rw (take_terminated l v w h) (length-take l v h)

-- What a new option holds depends on the first bytes alone.
new_of_type-again :
    (s : Sym) (t : OptType) (l : ℕ) (v rest : Bytes)
    → carries t ≡ true
    → l ≤ length v
    → (new_of_type s t l (take l v ++ rest) ≡ new_of_type s t l v)
      × ((new_of_type s t l v).l ≡ l)
      × (length (value_of (new_of_type s t l v)) ≡ l)
unfolding new_of_type
new_of_type-again s OptType.uint zero v rest c h = (refl, refl, refl)
new_of_type-again s OptType.uint (suc l) v rest c h = (
  ap (opt_with s OptType.uint (suc l) []) (take_terminated (suc l) v rest h),
  refl,
  kept (suc l) v [] h,
)
new_of_type-again s OptType.string l v rest c h = (
  ap (opt_with s OptType.string l (0 ∷ [])) (take_terminated l v rest h),
  refl,
  kept l v (0 ∷ []) h,
)
new_of_type-again s OptType.opaque l v rest c h =
    (ap (opt_with s OptType.opaque l []) (take_terminated l v rest h), refl, kept l v [] h)
new_of_type-again s OptType.invalid l v rest c h = cc
new_of_type-again s OptType.empty l v rest c h = cc

-- Every option that ec_opt_new makes of a valid symbol whose type carries a value is fit for the
-- round trip through ec_opts_encode and ec_opts_decode, unless it is 15 bytes long.
pub opt_new-IsSound :
    (s : Sym) (l : ℕ) (v : Bytes)
    → sym_valid s ≡ true
    → carries (sym2type s) ≡ true
    → l ≤ opt_len_max
    → l ≤ length v
    → l ≢ 15
    → (o : Opt) × (opt_new s l v ≡ ok o)
      × (o.sym ≡ s)
      × (o.l ≡ l)
      × (value_of o ≡ take l v)
      × IsSound o
opt_new-IsSound s l v valid c fits h ne =
    let t = sym2type s in
    let o = new_of_type s t l v in
    let (same, el, whole) = new_of_type-again s t l v [] c h in
    let (ev, es) = value_of-new_of_type s t l v h in
    let again : (rest : Bytes) → opt_new s l (take l v ++ rest) ≡ ok o = λ rest.
      opt_new-new_of_type s t l (take l v ++ rest) refl c fits
        (omega (arith, length-append (take l v) rest, length-take l v h))
      ∙ ap ok (new_of_type-again s t l v rest c h).0 in
    (
      o,
      opt_new-new_of_type s t l v refl c fits h,
      es,
      el,
      ev,
      record {
        made = record {
          fits = omega (arith, el);
          remade = λ rest.
              ap (λ r. opt_new r o.l (value_of o ++ rest)) es
              ∙ ap (λ n. opt_new s n (value_of o ++ rest)) el
              ∙ ap (λ b. opt_new s l (b ++ rest)) ev
              ∙ again rest;
        };
        known = subst (λ r. sym_valid r ≡ true) (sym es) valid;
        whole = whole ∙ sym el;
        not_15 = λ e. ne (sym el ∙ e);
      },
    )

take-append_le : (n : ℕ) (v w : Bytes) → n ≤ length v → take n (v ++ w) ≡ take n v
take-append_le zero v w h = refl
take-append_le (suc n) [] w h = absurd (omega arith)
take-append_le (suc n) (x ∷ v) w h = ap (◌∷◌ x) (take-append_le n v w (omega arith))

-- The round of the decoder on an option of 15 bytes, as the encoder writes it: the second length
-- byte is taken for the first byte of the value, and the pointer stops before its last byte.
pub decode_option_15 :
    (opts : Opts) (s : Sym) (num delta olen : ℕ) (v rest : Bytes)
    → sym_valid s ≡ true
    → carries (sym2type s) ≡ true
    → length v ≡ 15
    → delta ≤ 14
    → num + delta ≡ sym2num s
    → opts.noptions < proto_max_options
    → (o : Opt) × (value_of o ≡ 0 ∷ take 14 v)
      × (let b = head_bytes delta 15 ++ (v ++ rest) in
          decode_option (at_bytes opts num b olen) b
          ≡ ok (at_bytes (pushed opts o) (sym2num s) (drop 14 (v ++ rest)) (olen + 1 + 15)))
unfolding take_option opts_add
decode_option_15 opts s num delta olen v rest valid c len d14 e free =
    let t = sym2type s in
    let w = 0 ∷ (v ++ rest) in
    let long : 15 ≤ length w = omega (arith, length-append v rest) in
    let o = new_of_type s t 15 w in
    let (ev, es) = value_of-new_of_type s t 15 w long in
    let (known, plain) = valid_number s valid in
    (
      o,
      ev ∙ ap (◌∷◌ 0) (take-append_le 14 v rest (omega arith)),
      decode_known _ _ _ (sym2num s) 15 (omega arith) (rw known)
            (read_len_extended _ _ _ (omega arith))
          ∙ rw (
            known,
            num2sym-sym2num s valid,
            opt_new-new_of_type s t 15 w refl c (omega arith) long,
            opts_push-pushed opts o free,
          ),
    )
