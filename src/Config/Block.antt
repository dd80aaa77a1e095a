-- ===== src/Config/Block.antt =====
-- Which block size ec_cfg_set_block_sz selects (evcoap_base.c).
use webthings.Common.{
  ℕ, zero, suc, false, some, ltb, ◌+◌, ◌^◌, ◌<◌, ◌≤◌, ◌≡◌, subst, ◌⊎◌, inl, inr, refl, Bool-cases,
  ok, err, arith,
}
use webthings.Config.{
  Cfg, block_min, block_max, nearest_loop, nearest_block, cfg_set_block_sz, cfg_get_block_info,
}

-- The loop finds the largest power of two that is less than the size.
nearest_loop_lem :
    (n orig : ℕ)
    → 2 ^ 4 < orig
    → orig ≤ 2 ^ (n + 4)
    → (szx : ℕ) × (nearest_loop n orig ≡ some szx)
      × (2 ^ (szx + 4) < orig)
      × (orig ≤ 2 ^ (szx + 5))
      × (szx < n)
unfolding nearest_loop
nearest_loop_lem zero orig lo hi = absurd (omega arith)
nearest_loop_lem (suc n) orig lo hi = elim (Bool-cases (ltb (2 ^ (n + 4)) orig)) [
  | inl e ↦ (n, rw e refl, ground arith, subst (λ k. orig ≤ 2 ^ k) (omega arith) hi, omega arith)
  | inr e ↦
      let (szx, q, a, b, c) = nearest_loop_lem n orig lo (ground arith) in
      (szx, rw e q, a, b, omega arith)
]

ltb_le : (a b : ℕ) → b ≤ a → ltb a b ≡ false
ltb_le a b h = ground arith

first_round : (val : ℕ) → val ≤ 2 ^ 10 → nearest_loop 7 val ≡ nearest_loop 6 val
unfolding nearest_loop
first_round val h = ground arith

-- A size above 16 and up to 1024 bytes is accepted: evcoap then handles the blocks itself, and the
-- size 2 ^ (szx + 4) in use is the largest power of two that is less than the one asked for. So a
-- power of two itself is halved.
pub cfg_get_block_info-cfg_set_block_sz :
    (cfg : Cfg) (val : ℕ)
    → block_min < val
    → val ≤ block_max
    → (cfg' : Cfg) × (szx : ℕ) × (cfg_set_block_sz cfg val ≡ ok cfg')
      × (cfg_get_block_info cfg' ≡ (false, szx))
      × (2 ^ (szx + 4) < val)
      × (val ≤ 2 ^ (szx + 5))
      × (szx ≤ 5)
unfolding cfg_set_block_sz cfg_get_block_info nearest_block
cfg_get_block_info-cfg_set_block_sz cfg val lo hi =
    let (szx, q, a, b, c) = nearest_loop_lem 6 val lo hi in
    (
      record { block_is_stateless = false; block_szx = szx },
      szx,
      rw (ltb_le val 16 (omega arith), ltb_le 1024 val hi, first_round val hi, q) refl,
      refl,
      a,
      b,
      omega arith,
    )

-- Any other size is refused and leaves the configuration, the least block size of 16 among them.
pub cfg_set_block_sz_refused :
    (cfg : Cfg) (val : ℕ)
    → (val ≤ block_min) ⊎ (block_max < val)
    → cfg_set_block_sz cfg val ≡ err cfg
unfolding cfg_set_block_sz nearest_block nearest_loop
cfg_set_block_sz_refused cfg val h = ground arith
