-- ===== src/Config.antt =====
-- The runtime configuration of bridge/sw/lib/evcoap/src/evcoap_base.c: the preferred block size.
pub mod Block
use webthings.Common.{
  ℕ, zero, suc, Bool, true, false, Option, none, some, ltb, ◌+◌, ◌-◌, ◌^◌, ◌||◌, if◌then◌else◌,
  Result, ok, err,
}

-- ec_cfg_t.
pub record Cfg : Type 0 where
  pub block_is_stateless : Bool
  pub block_szx : ℕ

-- EC_COAP_BLOCK_MIN and EC_COAP_BLOCK_MAX.
abbrev pub block_min : ℕ
block_min = 2 ^ 4

abbrev pub block_max : ℕ
block_max = 2 ^ 10

-- ec_cfg_init.
unfoldable pub cfg_init : Cfg → Cfg
cfg_init cfg = record cfg { block_is_stateless = true }

-- The loop of ec_nearest_block with `n` rounds to go: i is n + 3, from 10 down to 4. `none` is -1.
unfoldable pub nearest_loop : ℕ → ℕ → Option ℕ
nearest_loop zero orig = none
nearest_loop (suc n) orig = if ltb (2 ^ (n + 4)) orig then some n else nearest_loop n orig

-- ec_nearest_block.
unfoldable pub nearest_block : ℕ → Option ℕ
nearest_block orig = if ltb orig block_min then none else nearest_loop 7 orig

-- What ec_cfg_set_block_sz does with the answer of ec_nearest_block.
set_szx : Cfg → Option ℕ → Result Cfg Cfg
set_szx cfg none = err cfg
set_szx cfg (some szx) = ok (record { block_is_stateless = false; block_szx = szx })

-- ec_cfg_set_block_sz.
unfoldable pub cfg_set_block_sz : Cfg → ℕ → Result Cfg Cfg
unfolding set_szx
cfg_set_block_sz cfg val =
    if ltb val block_min || ltb block_max val then err cfg else set_szx cfg (nearest_block val)

-- ec_cfg_get_block_info: *is_stateless and *szx.
unfoldable pub cfg_get_block_info : Cfg → Bool × ℕ
cfg_get_block_info cfg = (cfg.block_is_stateless, cfg.block_szx)
