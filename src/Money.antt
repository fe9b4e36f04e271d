-- ===== src/Money.antt =====
-- Rounding of `Decimal` values. An amount with four places is a number of ten-thousandths; a
-- product keeps all its places until the source calls `quantize`. Values stay far below the 28
-- digits of the decimal context, so that no other rounding takes place.
pub mod Rounding
use dse_auto.Common.{ℕ, ◌+◌, ◌*◌, ◌/◌, ◌%◌, ltb, ◌==◌, if◌then◌else◌}

-- The quotient n / d rounded to a whole number, halves to the even side: the default of `quantize`.
unfoldable pub round_half_even : ℕ → ℕ → ℕ
round_half_even n d =
    let q = n / d in
    let r = n % d in if ltb (2 * r) d then q else if ltb d (2 * r) then q + 1 else q + q % 2

-- The same with halves upwards: ROUND_HALF_UP.
unfoldable pub round_half_up : ℕ → ℕ → ℕ
round_half_up n d = let q = n / d in if ltb (2 * (n % d)) d then q else q + 1
