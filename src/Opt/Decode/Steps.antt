-- ===== src/Opt/Decode/Steps.antt =====
-- One round of the decoder of evcoap_opt.c on the bytes that the encoder writes of an option.
use mathlib.Core.List.{append_assoc}
use webthings.Common.{
  ℕ, suc, ◌+◌, ◌-◌, ◌*◌, ◌/◌, ◌%◌, ◌≤◌, ◌<◌, ◌≡◌, ◌≢◌, refl, ap, subst, ◌∙◌, sym, Bytes, [], ◌∷◌,
  ◌++◌, Bool, true, false, arith, length, drop, drop-append, ltb, ◌==◌, ◌&&◌, ◌||◌, Bool-cases, inl,
  inr, some, if◌then◌else◌, ok,
}
use webthings.Opt.{
  Sym, Opt, Opts, rank, sym_valid, sym2num, value_of, is_fencepost, proto_max_options, opt_len_max,
}
use webthings.Opt.Table.{num2sym, num2sym-sym2num, sym2num_bounds}
use webthings.Opt.Pool.{opt_new, insert_opt, opts_push, opts_add}
use webthings.Opt.Encode.{head_bytes}
use webthings.Opt.Encode.Fences.{chunk, needs_fence, fence_count, Follows}
use webthings.Opt.Decode.{Cursor, unrecognized, read_len, take_option, decode_option, decode_loop}

-- An option as ec_opt_new makes it, wherever its value is read from.
pub record IsMade (o : Opt) : Type 0 where
  pub fits : o.l ≤ opt_len_max
  pub remade : (rest : Bytes) → opt_new o.sym o.l (value_of o ++ rest) ≡ ok o

unfoldable pub pushed : Opts → Opt → Opts
pushed opts o = record opts { noptions = opts.noptions + 1; bundle = insert_opt o opts.bundle }

pub opts_push-pushed :
    (opts : Opts) (o : Opt)
    → opts.noptions < proto_max_options
    → opts_push opts o ≡ ok (pushed opts o)
unfolding opts_push pushed
opts_push-pushed opts o h = ground arith

read_len_base : (b : ℕ) (rest : Bytes) (l : ℕ) → b % 16 ≡ l → l < 15 → read_len b rest ≡ some l
unfolding read_len
read_len_base b [] l e h = ground arith
read_len_base b (x ∷ rest) l e h = ground arith

pub read_len_extended :
    (b x : ℕ) (rest : Bytes) → b % 16 ≡ 15 → read_len b (x ∷ rest) ≡ some (x + 15)
unfolding read_len
read_len_extended b x rest e = ground arith

rank_none : rank Sym.opt_none ≡ 0
unfolding rank
rank_none = refl

-- A valid symbol is recognised by its number, which is no fencepost.
pub valid_number :
    (s : Sym)
    → sym_valid s ≡ true
    → (unrecognized (sym2num s) ≡ false) × (is_fencepost (sym2num s) ≡ false)
valid_number s v =
    let (lo, hi, ne) = sym2num_bounds s v in
    (rw (num2sym-sym2num s v) (ground (arith, rank_none)), ground arith)

-- A decoder state whose next bytes are `b`.
abbrev pub at_bytes : Opts → ℕ → Bytes → ℕ → Cursor
at_bytes opts num b olen = record { opts = opts; opt_num = num; opt_p = b; olen = olen }

-- A fencepost is skipped.
fourteen_unknown : unrecognized 14 ≡ true
unfolding num2sym rank
fourteen_unknown = refl

pub decode_known :
    (d : Cursor) (b : ℕ) (more : Bytes) (num l : ℕ)
    → d.opt_num + b / 16 ≡ num
    → (unrecognized num && (num % 2 == 1)) ≡ false
    → read_len b more ≡ some l
    → decode_option d (b ∷ more) ≡ take_option d num l
decode_known d b more num l e u r =
    subst
      (λ n.
        (unrecognized n && (n % 2 == 1)) ≡ false → decode_option d (b ∷ more) ≡ take_option d n l)
      e (λ u'. unfold decode_option in rw (u', r)) u

fence_step :
    (opts : Opts) (last olen : ℕ) (rest : Bytes)
    → last < 14
    → decode_option
        (at_bytes opts last ((14 - last) * 16 % 256 ∷ rest) olen)
        ((14 - last) * 16 % 256 ∷ rest)
      ≡ ok (at_bytes opts 14 rest (olen + 1 + 0))
unfolding take_option
fence_step opts last olen rest h =
    decode_known _ _ rest 14 0 (omega arith) (rw fourteen_unknown)
      (read_len_base _ rest 0 (omega arith) (omega arith))
    ∙ rw (fourteen_unknown, take_option)

pub opts_add-pushed :
    (opts : Opts) (o : Opt) (rest : Bytes)
    → IsMade o
    → opts.noptions < proto_max_options
    → opts_add opts o.sym (value_of o ++ rest) o.l ≡ ok (pushed opts o)
unfolding opts_add
opts_add-pushed opts o rest m h = rw (m.remade rest, opts_add) (opts_push-pushed opts o h)

pub skip_false : (u f z : Bool) → u ≡ false → f ≡ false → (u || (z && f)) ≡ false
skip_false u f true e k = cc
skip_false u f false e k = cc

jump_of : ℕ → ℕ
jump_of l = if ltb 15 l then 2 else 1

jump_long : (l : ℕ) → 15 < l → jump_of l ≡ 2
unfolding jump_of
jump_long l h = ground arith

jump_short : (l : ℕ) → l ≤ 15 → jump_of l ≡ 1
unfolding jump_of
jump_short l h = ground arith

-- The part of a round behind the number and the length, for an option of the encoder.
take_step :
    (d : Cursor) (o : Opt) (rest : Bytes)
    → IsMade o
    → sym_valid o.sym ≡ true
    → length (value_of o) ≡ o.l
    → d.opts.noptions < proto_max_options
    → drop (jump_of o.l) d.opt_p ≡ value_of o ++ rest
    → take_option d (sym2num o.sym) o.l
      ≡ ok (at_bytes (pushed d.opts o) (sym2num o.sym) rest (d.olen + jump_of o.l + o.l))
unfolding take_option jump_of
take_step d o rest m v w free e =
    let (known, plain) = valid_number o.sym v in
    let behind : drop o.l (drop (jump_of o.l) d.opt_p) ≡ rest =
      ap (drop o.l) e
      ∙ subst (λ n. drop n (value_of o ++ rest) ≡ rest) w (drop-append (value_of o) rest) in
    rw
      (
        skip_false _ _ (o.l == 0) known plain,
        e,
        num2sym-sym2num o.sym v,
        opts_add-pushed d.opts o rest m free,
      )
      (ap (λ r. ok (at_bytes (pushed d.opts o) (sym2num o.sym) r (d.olen + jump_of o.l + o.l)))
        behind)

-- An option of the encoder is read back and pushed.
option_step :
    (opts : Opts) (o : Opt) (num delta olen : ℕ) (rest : Bytes)
    → IsMade o
    → sym_valid o.sym ≡ true
    → length (value_of o) ≡ o.l
    → o.l ≢ 15
    → delta ≤ 14
    → num + delta ≡ sym2num o.sym
    → opts.noptions < proto_max_options
    → let b = head_bytes delta o.l ++ (value_of o ++ rest) in
      decode_option (at_bytes opts num b olen) b
      ≡ ok (
          at_bytes
            (pushed opts o)
            (sym2num o.sym)
            rest
            (olen + length (head_bytes delta o.l ++ value_of o)))
option_step opts o num delta olen rest m v w n15 d14 e free = elim (Bool-cases (ltb 14 o.l)) [
  | inl long ↦ rw long (
      decode_known _ _ _ (sym2num o.sym) o.l (omega arith) (rw (valid_number o.sym v).0)
        (read_len_extended _ _ _ (omega arith) ∙ ap some (ground arith))
      ∙ take_step _ o rest m v w free (rw (jump_long o.l (ground arith)))
      ∙ ap (λ n. ok (at_bytes (pushed opts o) (sym2num o.sym) rest n))
          (omega (arith, jump_long o.l (ground arith), w)))
  | inr short ↦ rw short (
      decode_known _ _ _ (sym2num o.sym) o.l (ground arith) (rw (valid_number o.sym v).0)
        (read_len_base _ _ _ (ground arith) (ground arith))
      ∙ take_step _ o rest m v w free (rw (jump_short o.l (ground arith)))
      ∙ ap (λ n. ok (at_bytes (pushed opts o) (sym2num o.sym) rest n))
          (omega (arith, jump_short o.l (ground arith), w)))
]

loop_step :
    (k : ℕ) (d d' : Cursor)
    → decode_option d d.opt_p ≡ ok d'
    → decode_loop (suc k) d ≡ decode_loop k d'
unfolding decode_loop
loop_step k d d' e = rw (e, decode_loop)

chunk_fenced :
    (last : ℕ) (o : Opt) (rest : Bytes)
    → needs_fence last (sym2num o.sym) ≡ true
    → chunk last o ++ rest
      ≡ (14 - last) * 16 % 256 ∷ (head_bytes (sym2num o.sym - 14) o.l ++ (value_of o ++ rest))
unfolding chunk
chunk_fenced last o rest b =
    rw b (ap (◌∷◌ ((14 - last) * 16 % 256)) (append_assoc _ (value_of o) rest))

chunk_plain :
    (last : ℕ) (o : Opt) (rest : Bytes)
    → needs_fence last (sym2num o.sym) ≡ false
    → chunk last o ++ rest ≡ head_bytes (sym2num o.sym - last) o.l ++ (value_of o ++ rest)
unfolding chunk
chunk_plain last o rest b = rw b (append_assoc _ (value_of o) rest)

length_fenced :
    (last : ℕ) (o : Opt)
    → needs_fence last (sym2num o.sym) ≡ true
    → length (chunk last o) ≡ 1 + length (head_bytes (sym2num o.sym - 14) o.l ++ value_of o)
unfolding chunk
length_fenced last o b = rw b (omega arith)

length_plain :
    (last : ℕ) (o : Opt)
    → needs_fence last (sym2num o.sym) ≡ false
    → length (chunk last o) ≡ length (head_bytes (sym2num o.sym - last) o.l ++ value_of o)
unfolding chunk
length_plain last o b = rw b

-- A chunk of the encoder takes a round for its fencepost, if any, and one for the option.
pub chunk_steps :
    (opts : Opts) (o : Opt) (last olen k : ℕ) (rest : Bytes)
    → IsMade o
    → Follows last o
    → o.l ≢ 15
    → opts.noptions < proto_max_options
    → decode_loop
        (fence_count (needs_fence last (sym2num o.sym)) + suc k)
        (at_bytes opts last (chunk last o ++ rest) olen)
      ≡ decode_loop k (at_bytes (pushed opts o) (sym2num o.sym) rest (olen + length (chunk last o)))
chunk_steps opts o last olen k rest m w n15 free =
    let (lo, hi, _) = sym2num_bounds o.sym w.valid in
    elim (Bool-cases (needs_fence last (sym2num o.sym))) [
      | inl b ↦
          let two : 1 + suc k ≡ suc (suc k) = omega arith in
          rw (chunk_fenced last o rest b, b, two)
            (loop_step (suc k) _ _ (fence_step opts last olen _ (ground arith))
              ∙ loop_step k _ _ (
                  option_step opts o 14 (sym2num o.sym - 14) (olen + 1 + 0) rest m w.valid w.whole
                    n15 (omega arith) (ground arith) free)
              ∙ ap (λ n. decode_loop k (at_bytes (pushed opts o) (sym2num o.sym) rest n))
                  (omega (arith, length_fenced last o b)))
      | inr b ↦
          let one : 0 + suc k ≡ suc k = omega arith in
          rw (chunk_plain last o rest b, b, one)
            (loop_step k _ _ (
                option_step opts o last (sym2num o.sym - last) olen rest m w.valid w.whole n15
                  (ground arith) (omega (arith, w.rising)) free)
              ∙ ap (λ n. decode_loop k (at_bytes (pushed opts o) (sym2num o.sym) rest n))
                  (ap (◌+◌ olen) (sym (length_plain last o b))))
    ]
