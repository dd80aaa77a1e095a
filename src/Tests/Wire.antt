-- ===== src/Tests/Wire.antt =====
-- The theorems on the encoder, the decoder and the header, at concrete messages.
use webthings.Common.{
  ℕ, zero, suc, [], ◌∷◌, ◌++◌, some, ◌+◌, ◌%◌, ◌≤◌, ◌≡◌, ◌≢◌, refl, length, take, replicate, ok,
  arith,
}
use webthings.Opt.{
  Sym, OptType, Opt, Opts, rank, sym2type, sym2num, value_of, opts_init, opts_max_len,
}
use webthings.Opt.Pool.{opt_new, copy_value}
use webthings.Opt.Encode.{Enc, opts_encode}
use webthings.Opt.Encode.Fences.{chunk, fence_bytes, Follows}
use webthings.Opt.Encode.Chunks.{chunks, fence_total, AllFollow, opts_encode-chunks}
use webthings.Opt.Decode.{opts_decode}
use webthings.Opt.Decode.Inverse.{IsSound, opts_decode-opts_encode}
use webthings.Opt.Decode.Made.{opt_new-IsSound}
use webthings.Pdu.{encode_header, decode_header}
use webthings.Pdu.Header.{IsHostOrder, decode_header-encode_header, full_pool_announces_none}
use webthings.Tests.{text, first_block, create_only, three, little_endian}
use webthings.Tests.Pools.{three-IsPool}

text-IsSound : IsSound text
unfolding opt_new copy_value rank sym2type
text-IsSound = record {
  made = record { fits = omega arith; remade = λ rest. ground arith };
  known = refl;
  whole = refl;
  not_15 = omega arith;
}

first_block-IsSound : IsSound first_block
unfolding opt_new copy_value rank sym2type
first_block-IsSound = record {
  made = record { fits = omega arith; remade = λ rest. ground arith };
  known = refl;
  whole = refl;
  not_15 = omega arith;
}

create_only-IsSound : IsSound create_only
unfolding opt_new rank sym2type
create_only-IsSound = record {
  made = record { fits = omega arith; remade = λ rest. refl };
  known = refl;
  whole = refl;
  not_15 = omega arith;
}

-- Eight bytes with the fencepost before the second option.
three_chunks : chunks 0 three.bundle ≡ 0x11 ∷ 40 ∷ 0xd0 ∷ 0x52 ∷ 1 ∷ 14 ∷ 0x20 ∷ []
unfolding chunks chunk fence_bytes sym2num rank
three_chunks = refl

three_fit : length (chunks 0 three.bundle) ≤ opts_max_len
three_fit = rw three_chunks (omega arith)

opts_decode-opts_encode_example :
    (opts' : Opts) × (opts_encode three ≡ ok opts')
    × (opts_decode opts_init (0x54 ∷ 69 ∷ 0 ∷ 1 ∷ (opts'.enc ++ (104 ∷ 105 ∷ []))) opts'.noptions
        ≡ ok (record opts_init { noptions = 3; bundle = three.bundle }, length opts'.enc))
opts_decode-opts_encode_example =
    opts_decode-opts_encode three 0x54 69 0 1 (104 ∷ 105 ∷ []) three-IsPool
      (text-IsSound, (first_block-IsSound, (create_only-IsSound, tt))) three_fit

text-Follows : Follows 0 text
unfolding sym2num rank
text-Follows = record { valid = refl; rising = omega arith; apart = omega arith; whole = refl }

first_block-Follows : Follows 1 first_block
unfolding sym2num rank
first_block-Follows = record {
  valid = refl;
  rising = omega arith;
  apart = omega arith;
  whole = refl;
}

three-AllFollow : AllFollow 0 three.bundle
unfolding sym2num rank
three-AllFollow = (
  text-Follows,
  (
    first_block-Follows,
    (record { valid = refl; rising = omega arith; apart = omega arith; whole = refl }, tt),
  ),
)

opts_encode-chunks_example :
    opts_encode three
    ≡ ok (record three {
      enc = chunks 0 three.bundle;
      enc_sz = length (chunks 0 three.bundle);
      noptions = 3 + fence_total 0 three.bundle;
    })
opts_encode-chunks_example = opts_encode-chunks three three-AllFollow three_fit

-- What the encoder has left of a full buffer, with `left` bytes in it.
abbrev at_start : ℕ → Enc
at_start left = record { p = []; left = left; last = 1; noptions = 3 }

opt_new-IsSound_example :
    (o : Opt) × (opt_new Sym.token 2 (1 ∷ 2 ∷ 3 ∷ []) ≡ ok o)
    × (o.sym ≡ Sym.token)
    × (o.l ≡ 2)
    × (value_of o ≡ take 2 (1 ∷ 2 ∷ 3 ∷ []))
    × IsSound o
unfolding rank sym2type
opt_new-IsSound_example =
    opt_new-IsSound Sym.token 2 (1 ∷ 2 ∷ 3 ∷ []) refl refl (omega arith) (omega arith) (omega arith)

little_endian-IsHostOrder : IsHostOrder little_endian
little_endian-IsHostOrder = record {
  htons_word = λ n h. omega arith;
  ntohs-htons = λ n h. omega arith;
}

decode_header-encode_header_example :
    decode_header little_endian (encode_header little_endian 5 69 2 4660 ++ (1 ∷ []))
    ≡ some (record { t = 2; oc = 5 % 16; code = 69; mid = 4660 })
decode_header-encode_header_example =
    decode_header-encode_header little_endian 5 69 2 4660 (1 ∷ []) little_endian-IsHostOrder
      (omega arith) (omega arith) (omega arith)

-- Fifteen options If-None-Match, the first behind a fencepost.
abbrev fifteen : Opts
fifteen = record { enc = []; enc_sz = 0; noptions = 15; bundle = replicate 15 create_only }

create_only-AllFollow :
    (n last : ℕ) → last ≤ 21 → last ≢ 14 → AllFollow last (replicate n create_only)
unfolding sym2num rank
create_only-AllFollow zero last h k = tt
create_only-AllFollow (suc n) last h k = (
  record { valid = refl; rising = h; apart = k; whole = refl },
  create_only-AllFollow n 21 (omega arith) (omega arith),
)

fifteen_fit : length (chunks 0 fifteen.bundle) ≤ opts_max_len
unfolding chunks chunk fence_bytes sym2num rank
fifteen_fit = omega arith

full_pool_announces_none_example :
    (opts' : Opts) × (opts_encode fifteen ≡ ok opts')
    × (opts'.noptions ≡ 16)
    × (decode_header little_endian (encode_header little_endian opts'.noptions 69 2 4660 ++ [])
        ≡ some (record { t = 2; oc = 0; code = 69; mid = 4660 }))
unfolding sym2num
full_pool_announces_none_example =
    full_pool_announces_none little_endian fifteen create_only (replicate 14 create_only) 69 2 4660
      [] little_endian-IsHostOrder (omega arith) (omega arith) (omega arith) refl refl (omega arith)
      (create_only-AllFollow 15 0 (omega arith) (omega arith)) fifteen_fit

-- A full pool of values of 270 bytes: with its lengths it needs 4080 bytes, 30 more than the buffer.
abbrev long : Opt
long = record { sym = Sym.proxy_uri; t = OptType.string; l = 270; v = some (replicate 270 65) }

abbrev longest : Opts
longest = record { enc = []; enc_sz = 0; noptions = 15; bundle = replicate 15 long }

long-AllFollow : (n last : ℕ) → last ≤ 3 → AllFollow last (replicate n long)
unfolding sym2num rank
long-AllFollow zero last h = tt
long-AllFollow (suc n) last h = (
  record { valid = refl; rising = h; apart = omega arith; whole = refl },
  long-AllFollow n 3 (omega arith),
)

longest_length : length (chunks 0 longest.bundle) ≡ 4080
unfolding chunks chunk fence_bytes sym2num rank
longest_length = refl
