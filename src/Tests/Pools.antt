-- ===== src/Tests/Pools.antt =====
-- The theorems on the pool of options and on its getters, at concrete pools.
use webthings.Common.{
  Bytes, [], ◌∷◌, some, true, ◌+◌, ◌*◌, ◌^◌, ◌≤◌, ◌≡◌, inr, refl, length, replicate, ok, arith,
}
use webthings.Opt.{Sym, Opts, rank, sym2type}
use webthings.Opt.Pool.{opts_add_raw}
use webthings.Opt.Pool.Order.{IsPool, Leaves, opts_add_raw-IsPool}
use webthings.Opt.Pool.Occur.{occurrences}
use webthings.Opt.Pool.Segments.{Grown}
use webthings.Opt.Pool.Raw.{opts_add_raw-Grown}
use webthings.Opt.Uint.{encode_uint, decode_uint}
use webthings.Opt.Uint.RoundTrip.{decode_uint-encode_uint}
use webthings.Opt.Add.{opts_add_block}
use webthings.Opt.Get.{opts_get_block}
use webthings.Opt.Get.RoundTrip.{opts_get_block-opts_add_block}
use webthings.Tests.{three}

pub three-IsPool : IsPool three
unfolding rank
three-IsPool = record {
  sorted = (omega arith, (omega arith, (omega arith, tt)));
  counted = refl;
  bounded = omega arith;
}

opts_add_raw-IsPool_example : Leaves IsPool (opts_add_raw three Sym.token (1 ∷ 2 ∷ []) 2)
opts_add_raw-IsPool_example = opts_add_raw-IsPool three Sym.token (1 ∷ 2 ∷ []) 2 three-IsPool

opts_add_raw-Grown_example :
    (opts' : Opts) × (opts_add_raw three Sym.proxy_uri (replicate 600 65) 600 ≡ ok opts')
    × Grown three opts' Sym.proxy_uri (replicate 600 65) 3
unfolding sym2type
opts_add_raw-Grown_example =
    opts_add_raw-Grown three Sym.proxy_uri (replicate 600 65) three-IsPool (omega arith) refl

decode_uint-encode_uint_example :
    (b : Bytes) × (encode_uint true 8 70000 ≡ some b)
    × (length b ≤ 8)
    × (decode_uint true b ≡ some 70000)
    × (256 ^ length b ≤ 70000 * 256 + 1)
decode_uint-encode_uint_example = decode_uint-encode_uint true 70000 (omega arith)

opts_get_block-opts_add_block_example :
    (opts' : Opts) × (opts_add_block true three Sym.block2 1000 true 6 ≡ ok opts')
    × (opts_get_block true opts'.bundle Sym.block2 ≡ some (1000, true, 6))
unfolding occurrences rank
opts_get_block-opts_add_block_example =
    opts_get_block-opts_add_block true three Sym.block2 1000 true 6 three-IsPool (omega arith)
      (inr refl) refl (omega arith) (omega arith)
