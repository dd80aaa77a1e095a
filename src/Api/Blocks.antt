-- ===== src/Api/Blocks.antt =====
-- The Block options of a request and of a response, and the block size of the configuration
-- (evcoap.c). Block sizes are of size_t, 64 bits; `le` is whether EC_LITTLE_ENDIAN is defined.
pub mod RoundTrip
use Prim.Native.Nat.{bit_and}
use mathlib.Core.Option
use webthings.Common.{
  ℕ, zero, suc, ◌+◌, ◌-◌, ◌*◌, ◌%◌, ◌^◌, Option, none, some, Bool, not, ltb, ◌==◌, ◌||◌, ◌&&◌,
  if◌then◌else◌, List, Result, ok, err, fault,
}
use webthings.Config.{Cfg, block_min, block_max, cfg_set_block_sz, cfg_get_block_info}
use webthings.Opt.{Sym, Opt, Opts, rank}
use webthings.Opt.Add.{opts_add_block}
use webthings.Opt.Get.{opts_get_uint, opts_get_block, opts_get_block1, opts_get_block2}
use webthings.Srv.{OutPdu, Server}
use webthings.Cli.{Client, ResPdu, client_get_response_pdu}

-- ec_client_get_request_options is `cli.req.opts`: the client after a setter of these options.
abbrev pub with_req_opts : Client → Result Opts Opts → Result Client Client
with_req_opts cli (ok opts) = ok (record cli { req = record cli.req { opts = opts } })
with_req_opts cli (err opts) = err (record cli { req = record cli.req { opts = opts } })
with_req_opts cli fault = fault

-- The server after a setter of the options of its response.
abbrev pub with_res_opts : Server → OutPdu → Result Opts Opts → Result Server Server
with_res_opts srv res (ok opts) = ok (record srv { res = some (record res { opts = opts }) })
with_res_opts srv res (err opts) = err (record srv { res = some (record res { opts = opts }) })
with_res_opts srv res fault = fault

-- A setter applied to the response of a server; -1 where there is none.
unfoldable pub on_response :
    (Opts → Result Opts Opts) → Server → Option OutPdu → Result Server Server
on_response add srv none = err srv
on_response add srv (some res) = with_res_opts srv res (add res.opts)

-- ec_client_get_response_options.
unfoldable pub client_get_response_options : Client → Option Opts
unfolding client_get_response_pdu
client_get_response_options cli = Option.map (λ pdu. pdu.opts) (client_get_response_pdu cli)

-- The loop of add_block with the rounds that are left, from `i` and `sz` on; `none` where `sz` runs
-- past EC_COAP_BLOCK_MAX.
unfoldable pub find_szx : ℕ → ℕ → ℕ → ℕ → Option ℕ
find_szx zero i sz bsz = none
find_szx (suc n) i sz bsz = if bsz == sz then some i else find_szx n (i + 1) (sz * 2) bsz

-- bsz & (~bsz + 1), on 64 bits: the lowest bit that is set.
unfoldable pub lowest_bit : ℕ → ℕ
lowest_bit bsz = bit_and bsz ((2 ^ 64 - bsz) % 2 ^ 64)

abbrev occurs : Option ℕ → Bool
occurs o = elim o [ none ↦ Bool.false | some _ ↦ Bool.true ]

-- The sizes, and with them the number of the rounds, are those of EC_COAP_BLOCK_MIN << i.
abbrev add_szx : Bool → Opts → Sym → ℕ → Bool → Option ℕ → Result Opts Opts
add_szx le opts which bnum more none = err opts
add_szx le opts which bnum more (some szx) = opts_add_block le opts which bnum more szx

module _ (le : Bool) where
  -- add_block.
  unfoldable pub add_block : Opts → Sym → ℕ → Bool → ℕ → Result Opts Opts
  add_block opts which bnum more bsz =
      if not (rank which == rank Sym.block1) && not (rank which == rank Sym.block2)
      then err opts
      else (if ltb bsz block_min || ltb block_max bsz
          then err opts
          else (if not (lowest_bit bsz == bsz)
              then err opts
              else (if occurs (opts_get_uint le opts.bundle which)
                  then err opts
                  else add_szx le opts which bnum more (find_szx 7 0 block_min bsz))))

  -- ec_request_add_block, ec_request_add_block1 and ec_request_add_block2.
  unfoldable pub request_add_block : Client → Sym → ℕ → Bool → ℕ → Result Client Client
  unfolding add_block
  request_add_block cli which bnum more bsz =
      with_req_opts cli (add_block cli.req.opts which bnum more bsz)

  unfoldable pub request_add_block1 : Client → ℕ → Bool → ℕ → Result Client Client
  unfolding request_add_block
  request_add_block1 cli bnum more bsz = request_add_block cli Sym.block1 bnum more bsz

  unfoldable pub request_add_block2 : Client → ℕ → Bool → ℕ → Result Client Client
  unfolding request_add_block
  request_add_block2 cli bnum more bsz = request_add_block cli Sym.block2 bnum more bsz

  -- ec_response_add_block, ec_response_add_block1 and ec_response_add_block2.
  unfoldable pub response_add_block : Server → Sym → ℕ → Bool → ℕ → Result Server Server
  unfolding add_block on_response
  response_add_block srv which bnum more bsz =
      on_response (λ opts. add_block opts which bnum more bsz) srv srv.res

  unfoldable pub response_add_block1 : Server → ℕ → Bool → ℕ → Result Server Server
  unfolding response_add_block
  response_add_block1 srv bnum more bsz = response_add_block srv Sym.block1 bnum more bsz

  unfoldable pub response_add_block2 : Server → ℕ → Bool → ℕ → Result Server Server
  unfolding response_add_block
  response_add_block2 srv bnum more bsz = response_add_block srv Sym.block2 bnum more bsz

  -- What is written to *bnum, *more and *bsz.
  abbrev to_size : Option (ℕ × Bool × ℕ) → Option (ℕ × Bool × ℕ)
  to_size none = none
  to_size (some (bnum, more, szx)) = some (bnum, more, 2 ^ (szx + 4))

  -- ec_request_get_block, ec_request_get_block1 and ec_request_get_block2 on the request of a server;
  -- `none` is -1.
  unfoldable pub request_get_block : Option ResPdu → Sym → Option (ℕ × Bool × ℕ)
  unfolding opts_get_block
  request_get_block none which = none
  request_get_block (some req) which = to_size (opts_get_block le req.opts.bundle which)

  unfoldable pub request_get_block1 : Option ResPdu → Option (ℕ × Bool × ℕ)
  unfolding request_get_block
  request_get_block1 req = request_get_block req Sym.block1

  unfoldable pub request_get_block2 : Option ResPdu → Option (ℕ × Bool × ℕ)
  unfolding request_get_block
  request_get_block2 req = request_get_block req Sym.block2

  -- ec_response_get_block1 and ec_response_get_block2.
  unfoldable pub response_get_block1 : Client → Option (ℕ × Bool × ℕ)
  unfolding client_get_response_options opts_get_block1
  response_get_block1 cli = elim (client_get_response_options cli) [
    | none ↦ none
    | some opts ↦ to_size (opts_get_block1 le opts.bundle)
  ]

  unfoldable pub response_get_block2 : Client → Option (ℕ × Bool × ℕ)
  unfolding client_get_response_options opts_get_block2
  response_get_block2 cli = elim (client_get_response_options cli) [
    | none ↦ none
    | some opts ↦ to_size (opts_get_block2 le opts.bundle)
  ]

-- ec_set_block_size.
unfoldable pub set_block_size : Cfg → ℕ → Result Cfg Cfg
unfolding cfg_set_block_sz
set_block_size cfg val = cfg_set_block_sz cfg val

-- ec_get_block_size: *val.
unfoldable pub get_block_size : Cfg → ℕ
unfolding cfg_get_block_info
get_block_size cfg =
    let (is_stateless, szx) = cfg_get_block_info cfg in if is_stateless then 0 else 2 ^ (szx + 4)
