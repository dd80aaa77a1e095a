-- ===== src/Opt/Encode.antt =====
-- ec_opts_encode of evcoap_opt.c, with its two helpers for fenceposts.
pub mod Fences
pub mod Chunks
use webthings.Common.{
  ℕ, zero, suc, ◌+◌, ◌-◌, ◌*◌, ◌%◌, ◌^◌, Bytes, List, [], ◌∷◌, ◌++◌, ltb, ◌==◌, if◌then◌else◌,
  Result, ok, err, fault, ◌>>=◌,
}
use webthings.Opt.{Opt, Opts, sym2num, value_of, is_fencepost, opts_max_len}

-- a - b on size_t.
abbrev pub sub64 : ℕ → ℕ → ℕ
sub64 a b = (a + 2 ^ 64 - b) % 2 ^ 64

-- The loop of fenceposts_encsz over `n` numbers from `i` on.
unfoldable pub count_fenceposts : ℕ → ℕ → ℕ
count_fenceposts zero i = 0
count_fenceposts (suc n) i = (if is_fencepost i then 1 else 0) + count_fenceposts n (i + 1)

-- fenceposts_encsz: one byte for each fencepost from `last` up to `cur`.
unfoldable pub fenceposts_encsz : ℕ → ℕ → ℕ
unfolding count_fenceposts
fenceposts_encsz cur last =
    if ltb 14 (sub64 cur last) then count_fenceposts (cur - last) last else 0

-- The variables of add_fenceposts: the bytes written, the last number, and the options of the PDU.
pub record Fence : Type 0 where
  pub p : Bytes
  pub last : ℕ
  pub noptions : ℕ

-- The loop of add_fenceposts over `n` numbers from `opt_num` on.
unfoldable pub add_fenceposts : ℕ → ℕ → Fence → Fence
add_fenceposts zero opt_num f = f
add_fenceposts (suc n) opt_num f = add_fenceposts n (opt_num + 1) (
    if is_fencepost opt_num
    then record {
      p = f.p ++ ((opt_num - f.last) * 16 % 256 ∷ []);
      last = opt_num;
      noptions = f.noptions + 1;
    }
    else f)

-- The variables of ec_opts_encode. `p` is what is written of `enc`.
pub record Enc : Type 0 where
  pub p : Bytes
  pub left : ℕ
  pub last : ℕ
  pub noptions : ℕ

-- The delta and length bytes. (The parts that `|` joins fall on disjoint bits.)
abbrev pub head_bytes : ℕ → ℕ → Bytes
head_bytes delta l =
    if ltb 14 l
    then (delta * 16 + 0x0f) % 256 ∷ (l - 15) % 256 ∷ []
    else (delta * 16 + l % 16) % 256 ∷ []

-- elen: the space that an option takes.
abbrev pub encoded_len : Opt → ℕ → ℕ → ℕ
encoded_len o cur last = (if ltb 14 o.l then 2 else 1) + o.l + fenceposts_encsz cur last

-- One option once its fenceposts are written.
put_option : Opt → ℕ → Enc → Fence → Enc
put_option o cur e f = record {
  p = f.p ++ (head_bytes (sub64 cur f.last) o.l ++ value_of o);
  left = e.left - encoded_len o cur e.last;
  last = cur;
  noptions = f.noptions;
}

-- The body of the loop of ec_opts_encode.
unfoldable pub encode_option : Enc → Opt → Result Enc Enc
unfolding add_fenceposts fenceposts_encsz put_option sym2num
encode_option e o =
    let cur = sym2num o.sym in
    let f : Fence = record { p = e.p; last = e.last; noptions = e.noptions } in
    if cur == 0
    then err e
    else (if ltb e.left (encoded_len o cur e.last)
        then err e
        else ok (
            put_option o cur e
              (if ltb 14 (sub64 cur e.last) then add_fenceposts (cur - e.last) e.last f else f)))

-- The loop over the pool.
unfoldable pub encode_loop : Enc → List Opt → Result Enc Enc
unfolding encode_option
encode_loop e [] = ok e
encode_loop e (o ∷ rest) = encode_option e o >>= λ e'. encode_loop e' rest

-- ec_opts_encode. Where it fails, enc_sz is the size of the whole buffer.
unfoldable pub opts_encode : Opts → Result Opts Opts
unfolding encode_loop
opts_encode opts =
    elim (encode_loop (record { p = []; left = opts_max_len; last = 0; noptions = opts.noptions })
      opts.bundle) [
        | ok e ↦
            ok (record opts { enc = e.p; enc_sz = opts_max_len - e.left; noptions = e.noptions })
        | err e ↦ err (record opts { enc = e.p; enc_sz = opts_max_len; noptions = e.noptions })
        | fault ↦ fault
      ]
