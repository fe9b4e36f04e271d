-- ===== src/Money/Rounding.antt =====
-- Bounds of the roundings.
use dse_auto.Common.{ℕ, ◌+◌, ◌*◌, ◌≤◌, ◌≡◌, arith}
use dse_auto.Money.{round_half_even}

-- Rounding half to even by a hundred thousand is off by at most half of it.
pub round_half_even-fee : (n : ℕ) → 2 * (100000 * round_half_even n 100000) ≤ 2 * n + 100000
unfolding round_half_even
round_half_even-fee n = ground arith

pub round_half_even-price :
    (n : ℕ)
    → (2 * (100000000 * round_half_even n 100000000) ≤ 2 * n + 100000000)
      × (2 * n ≤ 2 * (100000000 * round_half_even n 100000000) + 100000000)
unfolding round_half_even
round_half_even-price n = ground arith

pub round_half_even-exact : (c : ℕ) → round_half_even (c * 100000000) 100000000 ≡ c
unfolding round_half_even
round_half_even-exact c = ground arith
