-- ===== src/Tests.antt =====
-- The data of the tests: a pool of three options whose last delta needs a fencepost, the host of a
-- little-endian machine, and a resource with two representations.
pub mod Pools
pub mod Wire
pub mod Endpoints
pub mod Duplicates
pub mod Servers
pub mod Clients
pub mod Starts
pub mod Observers
pub mod Texts
pub mod Interface
pub mod Cache
use webthings.Common.{
  ℕ, Bytes, List, [], ◌∷◌, none, some, true, false, ◌*◌, ◌/◌, ◌%◌, ◌+◌, replicate,
}
use webthings.Opt.{Sym, OptType, Opt, Opts}
use webthings.Pdu.{HostOrder}
use webthings.Flow.{Flow}
use webthings.Enums.{Method}
use webthings.Resource.{Rep, Res}

abbrev pub text : Opt
text = record { sym = Sym.content_type; t = OptType.uint; l = 1; v = some (40 ∷ []) }

abbrev pub first_block : Opt
first_block = record { sym = Sym.block1; t = OptType.uint; l = 2; v = some (1 ∷ 14 ∷ []) }

abbrev pub create_only : Opt
create_only = record { sym = Sym.if_none_match; t = OptType.empty; l = 0; v = none }

abbrev pub three : Opts
three = record {
  enc = [];
  enc_sz = 0;
  noptions = 3;
  bundle = text ∷ first_block ∷ create_only ∷ [];
}

abbrev pub swap_bytes : ℕ → ℕ
swap_bytes n = n % 256 * 256 + n / 256

abbrev pub little_endian : HostOrder
little_endian = record { htons = swap_bytes; ntohs = swap_bytes }

abbrev pub fresh_flow : Flow
fresh_flow = record {
  method = Method.get;
  resp_code = 0;
  proxy_uri = false;
  is_sep = false;
  token = replicate 8 0;
  token_sz = 0;
}

abbrev pub plain : Rep
plain = record { bytes = 104 ∷ 105 ∷ []; etag = 1 ∷ 2 ∷ 3 ∷ 4 ∷ []; media_type = 0 }

abbrev pub json : Rep
json = record { bytes = 123 ∷ 125 ∷ []; etag = 5 ∷ 6 ∷ 7 ∷ 8 ∷ []; media_type = 50 }

abbrev pub sensor : Res
sensor = record {
  uri = 47 ∷ 115 ∷ [];
  methods = 5;
  max_age = 60;
  reps = plain ∷ json ∷ [];
  attrs = record { obs = false; exp = false; interface = []; res_type = [] };
}
