-- ===== src/Api/Blocks/RoundTrip.antt =====
-- Which block sizes the interface takes, what the getters make of them, and how the configured size
-- bounds a payload (evcoap.c).
use native.Mathlib.Nat.{pow-suc}
use mathlib.Core.Option
use webthings.Common.{
  ℕ, zero, suc, ◌+◌, ◌*◌, ◌^◌, ◌≤◌, ◌<◌, ◌≡◌, ◌⊎◌, inl, inr, refl, subst, sym, ap, ◌∙◌, Bytes, [],
  none, some, Bool, true, false, not, ltb, ◌==◌, ◌||◌, ◌&&◌, length, arith, ok, err, Bool-cases,
  Option-cases,
}
use webthings.Config.{Cfg, block_min, block_max, cfg_get_block_info}
use webthings.Config.Block.{cfg_get_block_info-cfg_set_block_sz}
use webthings.Opt.{Sym, OptType, sym2type, Opts, proto_max_options, rank}
use webthings.Opt.Add.{type_is, opts_add_block}
use webthings.Opt.Get.{opts_get_uint}
use webthings.Opt.Get.RoundTrip.{opts_get_nth-occurrences, opts_get_block-opts_add_block}
use webthings.Opt.Pool.{opts_get}
use webthings.Opt.Pool.Order.{IsPool}
use webthings.Opt.Pool.Occur.{occurrences}
use webthings.Cli.{Client, ResPdu}
use webthings.Api.Blocks.{
  find_szx, lowest_bit, add_block, request_add_block, request_get_block, set_block_size,
  get_block_size,
}
use webthings.Api.Request.{request_set_payload}

double : (i sz : ℕ) → sz ≡ 2 ^ (i + 4) → sz * 2 ≡ 2 ^ (i + 1 + 4)
double i sz e = rw e (sym (pow-suc 2 (i + 4)) ∙ ap (λ k. 2 ^ k) (omega arith))

-- What the loop finds is a size of the series.
find_szx-pow :
    (n i sz bsz szx : ℕ)
    → find_szx n i sz bsz ≡ some szx
    → sz ≡ 2 ^ (i + 4)
    → (bsz ≡ 2 ^ (szx + 4)) × (szx < i + n)
unfolding find_szx
find_szx-pow zero i sz bsz szx h e = cc
find_szx-pow (suc n) i sz bsz szx h e = elim (Bool-cases (bsz == sz)) [
  | inl w ↦
      let q : i ≡ szx = ground arith in
      (subst (λ k. bsz ≡ 2 ^ (k + 4)) q (ground arith), omega arith)
  | inr w ↦
      let (a, b) = find_szx-pow n (i + 1) (sz * 2) bsz szx (ground arith) (double i sz e) in
      (a, omega arith)
]

-- The sizes of the series pass the checks of add_block.
size_passes :
    (szx : ℕ)
    → szx ≤ 6
    → ((ltb (2 ^ (szx + 4)) block_min || ltb block_max (2 ^ (szx + 4))) ≡ false)
      × ((lowest_bit (2 ^ (szx + 4)) == 2 ^ (szx + 4)) ≡ true)
      × (find_szx 7 0 block_min (2 ^ (szx + 4)) ≡ some szx)
unfolding find_szx lowest_bit
size_passes zero h = (refl, refl, refl)
size_passes (suc zero) h = (refl, refl, refl)
size_passes (suc (suc zero)) h = (refl, refl, refl)
size_passes (suc (suc (suc zero))) h = (refl, refl, refl)
size_passes (suc (suc (suc (suc zero)))) h = (refl, refl, refl)
size_passes (suc (suc (suc (suc (suc zero))))) h = (refl, refl, refl)
size_passes (suc (suc (suc (suc (suc (suc zero)))))) h = (refl, refl, refl)
size_passes (suc (suc (suc (suc (suc (suc (suc szx))))))) h = absurd (omega arith)

abbrev IsBlock : Sym → Type 0
IsBlock s = (s ≡ Sym.block1) ⊎ (s ≡ Sym.block2)

block_rank :
    (which : Sym)
    → IsBlock which
    → (not (rank which == rank Sym.block1) && not (rank which == rank Sym.block2)) ≡ false
unfolding rank
block_rank which (inl e) = rw e
block_rank which (inr e) = rw e

no_uint :
    (le : Bool) (opts : Opts) (which : Sym)
    → occurrences which opts.bundle ≡ []
    → opts_get_uint le opts.bundle which ≡ none
unfolding opts_get_uint opts_get Option.bind
no_uint le opts which e = elim (Bool-cases (type_is (sym2type which) OptType.uint)) [
  | inl t ↦ rw (t, (opts_get_nth-occurrences opts.bundle which 0).0, e)
  | inr t ↦ rw t
]

-- add_block adds a Block option only if the size is one of the powers of two from 16 to 1024, and only
-- if no option of the symbol can be read yet; what it then adds is the option of ec_opts_add_block with
-- the exponent of the size.
pub add_block_sizes :
    (le : Bool) (opts opts' : Opts) (which : Sym) (bnum : ℕ) (more : Bool) (bsz : ℕ)
    → add_block le opts which bnum more bsz ≡ ok opts'
    → (szx : ℕ) × (bsz ≡ 2 ^ (szx + 4))
      × (szx ≤ 6)
      × (opts_get_uint le opts.bundle which ≡ none)
      × (opts_add_block le opts which bnum more szx ≡ ok opts')
unfolding add_block
add_block_sizes le opts opts' which bnum more bsz h =
    elim (Option-cases (find_szx 7 0 block_min bsz)) [
      | inl e ↦ absurd (ground arith)
      | inr (szx, e) ↦
          let (pow, small) = find_szx-pow 7 0 block_min bsz szx e refl in
          (szx, pow, omega arith, ground arith, ground arith)
    ]

-- What ec_request_add_block1 or ec_request_add_block2 puts into a request, the getter of the server
-- reads back: on a pool with a free slot and no option of the symbol yet, for a block number of 20 bits,
-- any more flag and a size of 16 to 1024 that is a power of two.
pub request_get_block-request_add_block :
    (le : Bool) (cli : Client) (which : Sym) (bnum : ℕ) (more : Bool) (szx : ℕ) (pdu : ResPdu)
    → IsPool cli.req.opts
    → cli.req.opts.noptions < proto_max_options
    → (which ≡ Sym.block1) ⊎ (which ≡ Sym.block2)
    → occurrences which cli.req.opts.bundle ≡ []
    → bnum ≤ 0xfffff
    → szx ≤ 6
    → (cli' : Client) × (request_add_block le cli which bnum more (2 ^ (szx + 4)) ≡ ok cli')
      × (request_get_block le (some (record pdu { opts = cli'.req.opts })) which
          ≡ some (bnum, more, 2 ^ (szx + 4)))
unfolding request_add_block request_get_block add_block
request_get_block-request_add_block le cli which bnum more szx pdu p free w none_yet hn hs =
    let (inside, power, found) = size_passes szx hs in
    let (opts', e, g) =
      opts_get_block-opts_add_block le cli.req.opts which bnum more szx p free w none_yet hn
        (omega arith) in
    (
      record cli { req = record cli.req { opts = opts' } },
      rw (block_rank which w, inside, power, no_uint le cli.req.opts which none_yet, found, e),
      rw g,
    )

block_size_of :
    (cfg : Cfg) (szx : ℕ)
    → cfg_get_block_info cfg ≡ (false, szx)
    → get_block_size cfg ≡ 2 ^ (szx + 4)
unfolding get_block_size
block_size_of cfg szx e = rw (ap (λ p. p.0) e, ap (λ p. p.1) e)

payload_refused :
    (cfg : Cfg) (cli : Client) (payload : Bytes)
    → 0 < get_block_size cfg
    → get_block_size cfg < length payload
    → request_set_payload cfg cli (some payload) ≡ err cli
unfolding request_set_payload
payload_refused cfg cli payload h k = ground arith

payload_taken :
    (cfg : Cfg) (cli : Client) (payload : Bytes)
    → length payload ≤ get_block_size cfg
    → 1 ≤ length payload
    → request_set_payload cfg cli (some payload)
      ≡ ok (record cli { req = record cli.req { payload = payload } })
unfolding request_set_payload
payload_taken cfg cli payload h k = ground arith

-- After ec_set_block_size with a size above 16 and up to 1024, ec_request_set_payload refuses every
-- payload of at least this size, and takes every payload that is not empty and at most half of it.
pub request_set_payload-set_block_size :
    (cfg : Cfg) (val : ℕ)
    → block_min < val
    → val ≤ block_max
    → (cfg' : Cfg) × (set_block_size cfg val ≡ ok cfg')
      × ((cli : Client) (payload : Bytes)
          → (val ≤ length payload → request_set_payload cfg' cli (some payload) ≡ err cli)
            × (1 ≤ length payload
                → length payload * 2 ≤ val
                → request_set_payload cfg' cli (some payload)
                  ≡ ok (record cli { req = record cli.req { payload = payload } })))
unfolding set_block_size
request_set_payload-set_block_size cfg val lo hi =
    let (cfg', szx, e, g, below, above, small) =
      cfg_get_block_info-cfg_set_block_sz cfg val lo hi in
    let size = block_size_of cfg' szx g in
    let half : 2 ^ (szx + 5) ≡ 2 ^ (szx + 4) * 2 =
      ap (λ k. 2 ^ k) (omega arith) ∙ pow-suc 2 (szx + 4) in
    (
      cfg',
      e,
      λ cli payload. (
        λ h.
            payload_refused cfg' cli payload (omega (arith, size, half))
              (omega (arith, size, half)),
        λ h k. payload_taken cfg' cli payload (omega (arith, size, half)) h,
      ),
    )
