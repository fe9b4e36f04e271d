-- ===== src/Governance/Costs.antt =====
-- The parts of a cost breakdown and its total.
use dse_auto.Common.{ℕ, ◌+◌, ◌*◌, ◌≤◌, ◌<◌, ◌≡◌, refl, arith, String, ok, str_eq, if_rule}
use mathlib.Core.Path.{subst}
use dse_auto.Money.{round_half_up}
use dse_auto.Governance.{FeeConfiguration}
use dse_auto.Governance.Fees.{
  CostBreakdown, exact_costs, rounded_costs, cents, trade_cost_breakdown,
}

-- A value is within half a unit of its rounding.
cents_bounds :
    (v : ℕ)
    → (2 * (100000000 * cents v) ≤ 2 * v + 100000000)
      × (2 * v < 2 * (100000000 * cents v) + 100000000)
unfolding round_half_up
cents_bounds v = ground arith

abbrev pub sum_of_parts : CostBreakdown → ℕ
sum_of_parts b =
    b.brokerage + b.exchange_fee + b.regulatory_fee + b.tax + b.settlement_charge + b.account_fee
    + b.flat_charge

-- The parts add up to the total, to three hundredths.
abbrev pub IsNearTotal : CostBreakdown → Type 0
IsNearTotal b = (b.total ≤ sum_of_parts b + 3) × (sum_of_parts b ≤ b.total + 3)

rounded-IsNearTotal :
    (c : FeeConfiguration) (brokerage_percent tax_percent flat gross : ℕ)
    → IsNearTotal (rounded_costs (exact_costs c brokerage_percent tax_percent flat gross))
unfolding rounded_costs exact_costs
rounded-IsNearTotal c brokerage_percent tax_percent flat gross =
    near (exact_costs c brokerage_percent tax_percent flat gross) refl
  where
    near : (b : CostBreakdown) → b.total ≡ sum_of_parts b → IsNearTotal (rounded_costs b)
    near b e = omega (
      arith,
      cents_bounds b.brokerage,
      cents_bounds b.exchange_fee,
      cents_bounds b.regulatory_fee,
      cents_bounds b.tax,
      cents_bounds b.settlement_charge,
      cents_bounds b.account_fee,
      cents_bounds b.flat_charge,
      cents_bounds b.total,
    )

-- Where `trade_cost_breakdown` returns a breakdown, its total and the sum of its seven parts, each
-- rounded to a hundredth on its own, differ by at most three hundredths.
pub trade_cost_breakdown-IsNearTotal :
    (c : FeeConfiguration) (side : String) (gross : ℕ) (b : CostBreakdown)
    → trade_cost_breakdown c side gross ≡ ok b
    → IsNearTotal b
unfolding trade_cost_breakdown
trade_cost_breakdown-IsNearTotal c side gross b =
    if_rule (λ x. x ≡ ok b → IsNearTotal b) (str_eq side "buy") _ _
      (λ _ e.
        subst IsNearTotal (same _ e)
          (rounded-IsNearTotal c c.brokerage_buy_percent c.tax_buy_percent c.flat_buy_charge gross))
      (λ _.
        if_rule (λ x. x ≡ ok b → IsNearTotal b) (str_eq side "sell") _ _
          (λ _ e. subst IsNearTotal (same _ e) (
            rounded-IsNearTotal c c.brokerage_sell_percent c.tax_sell_percent c.flat_sell_charge
              gross))
          (λ _ e. absurd (ground arith)))
  where
    same : (x : CostBreakdown) → ok x ≡ ok b → x ≡ b
    same x e = cc
