-- ===== src/Governance/Fees.antt =====
-- The costs of a trade under a fee profile: `conservative_fee_configuration`,
-- `trade_cost_breakdown` and `fee_sensitivity`. A cost before its rounding is a number of
-- ten-thousand-millionths, and after it of hundredths.
use dse_auto.Common.{
  ℕ, ◌+◌, ◌*◌, Option, none, some, List, String, str_eq, if◌then◌else◌, Result, ok, raise,
  value_error, max, map,
}
use dse_auto.Money.{round_half_even, round_half_up}
use dse_auto.Governance.{FeeConfiguration}

-- The entries of a given configuration.
pub record FeeOverrides : Type 0 where
  pub brokerage_buy_percent : Option ℕ
  pub brokerage_sell_percent : Option ℕ
  pub minimum_brokerage : Option ℕ
  pub exchange_fee_percent : Option ℕ
  pub regulatory_fee_percent : Option ℕ
  pub tax_buy_percent : Option ℕ
  pub tax_sell_percent : Option ℕ
  pub settlement_charge : Option ℕ
  pub account_fee : Option ℕ
  pub flat_buy_charge : Option ℕ
  pub flat_sell_charge : Option ℕ

abbrev pub or_default : Option ℕ → ℕ → ℕ
or_default none d = d
or_default (some n) d = n

-- defaults.update(configuration)
abbrev pub conservative_fee_configuration : FeeOverrides → FeeConfiguration
conservative_fee_configuration c = record {
  brokerage_buy_percent = or_default c.brokerage_buy_percent 5000;
  brokerage_sell_percent = or_default c.brokerage_sell_percent 5000;
  minimum_brokerage = or_default c.minimum_brokerage 100000;
  exchange_fee_percent = or_default c.exchange_fee_percent 200;
  regulatory_fee_percent = or_default c.regulatory_fee_percent 100;
  tax_buy_percent = or_default c.tax_buy_percent 0;
  tax_sell_percent = or_default c.tax_sell_percent 1000;
  settlement_charge = or_default c.settlement_charge 50000;
  account_fee = or_default c.account_fee 0;
  flat_buy_charge = or_default c.flat_buy_charge 0;
  flat_sell_charge = or_default c.flat_sell_charge 0;
}

pub record CostBreakdown : Type 0 where
  pub brokerage : ℕ
  pub exchange_fee : ℕ
  pub regulatory_fee : ℕ
  pub tax : ℕ
  pub settlement_charge : ℕ
  pub account_fee : ℕ
  pub flat_charge : ℕ
  pub total : ℕ

-- An amount among products with a percentage: ten thousand times a hundred.
abbrev pub scaled : ℕ → ℕ
scaled amount = amount * 1000000

-- The values before their rounding, for the entries of one side.
unfoldable pub exact_costs : FeeConfiguration → ℕ → ℕ → ℕ → ℕ → CostBreakdown
exact_costs c brokerage_percent tax_percent flat gross =
    let brokerage = max (gross * brokerage_percent) (scaled c.minimum_brokerage) in
    let exchange = gross * c.exchange_fee_percent in
    let regulatory = gross * c.regulatory_fee_percent in
    let tax = gross * tax_percent in
    record {
      brokerage = brokerage;
      exchange_fee = exchange;
      regulatory_fee = regulatory;
      tax = tax;
      settlement_charge = scaled c.settlement_charge;
      account_fee = scaled c.account_fee;
      flat_charge = scaled flat;
      total =
          brokerage
          + exchange
          + regulatory
          + tax
          + scaled c.settlement_charge
          + scaled c.account_fee
          + scaled flat;
    }

-- value.quantize(Decimal("0.01"), rounding=ROUND_HALF_UP)
abbrev pub cents : ℕ → ℕ
cents value = round_half_up value 100000000

unfoldable pub rounded_costs : CostBreakdown → CostBreakdown
rounded_costs b = record {
  brokerage = cents b.brokerage;
  exchange_fee = cents b.exchange_fee;
  regulatory_fee = cents b.regulatory_fee;
  tax = cents b.tax;
  settlement_charge = cents b.settlement_charge;
  account_fee = cents b.account_fee;
  flat_charge = cents b.flat_charge;
  total = cents b.total;
}

-- The configuration of the profile, which `create_fee_profile` has completed with the defaults.
unfoldable pub trade_cost_breakdown : FeeConfiguration → String → ℕ → Result CostBreakdown
unfolding exact_costs rounded_costs
trade_cost_breakdown c side gross =
    if str_eq side "buy"
    then ok (
        rounded_costs
          (exact_costs c c.brokerage_buy_percent c.tax_buy_percent c.flat_buy_charge gross))
    else if str_eq side "sell"
    then ok (
        rounded_costs
          (exact_costs c c.brokerage_sell_percent c.tax_sell_percent c.flat_sell_charge gross))
    else raise (value_error "Trade cost requires buy/sell and non-negative gross value")

-- The estimates, in hundredths, for multipliers in hundredths.
unfoldable pub fee_sensitivity : FeeConfiguration → String → ℕ → List ℕ → Result (List (ℕ × ℕ))
unfolding trade_cost_breakdown
fee_sensitivity c side gross multipliers = elim (trade_cost_breakdown c side gross) [
  | raise e ↦ raise e
  | ok b ↦ ok (map (λ m. (m, round_half_even (b.total * m) 100)) multipliers)
]
