-- ===== src/Risk.antt =====
-- backend/app/risk/engine.py and kill_switch.py: the pre-trade checks and the kill switch.
pub mod KillSwitch
pub mod Approval
use dse_auto.Common.{
  ℕ, ◌+◌, ◌-◌, ◌*◌, Bool, true, false, not, ◌&&◌, ◌||◌, Option, none, some, List, [], ◌∷◌, ◌++◌,
  String, str_eq, ltb, leb, ◌==◌, if◌then◌else◌, any,
}
use dse_auto.Common.Int.{ℤ, pos, pos_part}
use dse_auto.Common.Keys.{Json, str, int, amount, arr, letters, dict, items_of}
use dse_auto.Common.{map}
use dse_auto.Store.{
  KillState, healthy, warning, trading_paused, reconciliation_required, emergency_stop,
}
use dse_auto.Schemas.{
  OrderProposal, RiskDecision, RiskCode, kill_switch_not_healthy, daily_loss_limit,
  campaign_drawdown_limit, repeated_loss_cooldown, strategy_suspended,
  restart_reconciliation_required, reconciliation_mismatch, stale_or_unsafe_data, provider_conflict,
  max_trade_value, max_quantity, max_position_percent, max_daily_orders, max_open_orders,
  insufficient_liquidity, restricted_symbol, symbol_not_approved, price_deviation, spread_too_wide,
}
use dse_auto.Env.{Env}

-- RiskLimits; values and percentages are in ten-thousandths.
pub record RiskLimits : Type 0 where
  pub trade_value : ℕ
  pub quantity : ℕ
  pub position_percent : ℕ
  pub orders_per_day : ℕ
  pub open_orders : ℕ
  pub average_daily_volume : ℕ
  pub disagreement_percent : ℕ
  pub deviation_percent : ℕ
  pub spread_percent : ℕ
  pub daily_loss_percent : ℕ
  pub drawdown_percent : ℕ
  pub cooldown_count : ℕ
  pub restricted_symbols : List String
  pub approved_symbols : List String

-- The defaults of the class.
abbrev pub default_limits : RiskLimits
default_limits = record {
  trade_value = 2500000000;
  quantity = 100000;
  position_percent = 200000;
  orders_per_day = 20;
  open_orders = 10;
  average_daily_volume = 10000;
  disagreement_percent = 10000;
  deviation_percent = 20000;
  spread_percent = 15000;
  daily_loss_percent = 30000;
  drawdown_percent = 100000;
  cooldown_count = 3;
  restricted_symbols = [];
  approved_symbols = [];
}

-- The keyword arguments of `evaluate`. The age of the data is in microseconds, and 0 where the
-- source has a negative age; the maximum is in seconds.
pub record Conditions : Type 0 where
  pub kill_switch_state : KillState
  pub portfolio_value : ℤ
  pub current_position_value : ℕ
  pub orders_today : ℕ
  pub open_orders : ℕ
  pub data_age : ℕ
  pub max_data_age_seconds : ℕ
  pub daily_loss_percent : ℕ
  pub campaign_drawdown_percent : ℕ
  pub consecutive_losses : ℕ
  pub strategy_suspended : Bool
  pub restart_reconciled : Bool
  pub reconciliation_healthy : Bool

abbrev pub is_healthy : KillState → Bool
is_healthy healthy = true
is_healthy warning = false
is_healthy trading_paused = false
is_healthy reconciliation_required = false
is_healthy emergency_stop = false

-- proposal.limit_price or proposal.current_price
abbrev pub price_or : Option ℕ → ℕ → ℕ
price_or none current = current
price_or (some p) current = if p == 0 then current else p

-- proposal.quantity * (proposal.limit_price or proposal.current_price)
abbrev pub trade_value : OrderProposal → ℕ
trade_value p = p.quantity * price_or p.limit_price p.current_price

-- `value is not None and limit < value`
abbrev pub some_above : Option ℕ → ℕ → Bool
some_above none limit = false
some_above (some v) limit = ltb limit v

-- `value is not None and value < limit`
abbrev pub some_below : Option ℕ → ℕ → Bool
some_below none limit = false
some_below (some v) limit = ltb v limit

abbrev pub member : String → List String → Bool
member s = any (λ t. str_eq t s)

-- `if proposal.limit_price:` abs(limit - current) / current * 100 > maximum, multiplied out.
abbrev pub deviates : Option ℕ → ℕ → ℕ → Bool
deviates none current maximum = false
deviates (some p) current maximum =
    not (p == 0) && ltb (maximum * current) (((p - current) + (current - p)) * 1000000)

-- `if proposal.bid and proposal.ask and proposal.ask > 0:` (ask - bid) / ask * 100 > maximum. A bid
-- above the ask gives 0 here and a negative number in the source, and neither exceeds the maximum.
abbrev pub spreads : Option ℕ → Option ℕ → ℕ → Bool
spreads none ask maximum = false
spreads (some bid) none maximum = false
spreads (some bid) (some ask) maximum =
    not (bid == 0) && ltb 0 ask && ltb (maximum * ask) ((ask - bid) * 1000000)

abbrev pub is_empty {ℓ} : {A : Type ℓ} → List A → Bool
is_empty [] = true
is_empty (_ ∷ _) = false

-- The tests of `evaluate` in their order, each with the code that it rejects with. The quotient
-- (current + value) / portfolio * 100 > maximum is multiplied out.
unfoldable pub checks : RiskLimits → OrderProposal → Conditions → List (Bool × RiskCode)
checks l p c =
    (not (is_healthy c.kill_switch_state), kill_switch_not_healthy)
    ∷ (leb l.daily_loss_percent c.daily_loss_percent, daily_loss_limit)
    ∷ (leb l.drawdown_percent c.campaign_drawdown_percent, campaign_drawdown_limit)
    ∷ (leb l.cooldown_count c.consecutive_losses, repeated_loss_cooldown)
    ∷ (c.strategy_suspended, strategy_suspended)
    ∷ (not c.restart_reconciled, restart_reconciliation_required)
    ∷ (not c.reconciliation_healthy, reconciliation_mismatch)
    ∷ (
      str_eq p.data_quality_status "unsafe" || ltb (c.max_data_age_seconds * 1000000) c.data_age,
      stale_or_unsafe_data,
    )
    ∷ (some_above p.provider_disagreement_percent l.disagreement_percent, provider_conflict)
    ∷ (ltb l.trade_value (trade_value p), max_trade_value)
    ∷ (ltb l.quantity p.quantity, max_quantity)
    ∷ (
      ltb 0 (pos_part c.portfolio_value)
          && ltb (l.position_percent * pos_part c.portfolio_value)
              ((c.current_position_value + trade_value p) * 1000000),
      max_position_percent,
    )
    ∷ (leb l.orders_per_day c.orders_today, max_daily_orders)
    ∷ (leb l.open_orders c.open_orders, max_open_orders)
    ∷ (some_below p.average_daily_volume l.average_daily_volume, insufficient_liquidity)
    ∷ (member p.symbol l.restricted_symbols, restricted_symbol)
    ∷ (
      not (is_empty l.approved_symbols) && not (member p.symbol l.approved_symbols),
      symbol_not_approved,
    )
    ∷ (deviates p.limit_price p.current_price l.deviation_percent, price_deviation)
    ∷ (spreads p.bid p.ask l.spread_percent, spread_too_wide)
    ∷ []

-- The calls of `reject`, in their order.
abbrev pub failed : List (Bool × RiskCode) → List RiskCode
failed [] = []
failed ((b, code) ∷ rest) = let others = failed rest in if b then code ∷ others else others

symbols_json : List String → Json
symbols_json l = arr (items_of (map (λ s. str (letters s ∷ [])) l))

-- {key: str(value) for key, value in asdict(self.limits).items()}
limits_json : RiskLimits → Json
unfolding symbols_json
limits_json l = dict (
    ("max_trade_value", amount (pos l.trade_value))
    ∷ ("max_quantity", int l.quantity)
    ∷ ("max_position_percent", amount (pos l.position_percent))
    ∷ ("max_orders_per_day", int l.orders_per_day)
    ∷ ("max_open_orders", int l.open_orders)
    ∷ ("min_average_daily_volume", int l.average_daily_volume)
    ∷ ("max_provider_disagreement_percent", amount (pos l.disagreement_percent))
    ∷ ("max_price_deviation_percent", amount (pos l.deviation_percent))
    ∷ ("max_spread_percent", amount (pos l.spread_percent))
    ∷ ("max_daily_loss_percent", amount (pos l.daily_loss_percent))
    ∷ ("max_campaign_drawdown_percent", amount (pos l.drawdown_percent))
    ∷ ("repeated_loss_cooldown_count", int l.cooldown_count)
    ∷ ("restricted_symbols", symbols_json l.restricted_symbols)
    ∷ ("approved_symbols", symbols_json l.approved_symbols)
    ∷ [])

-- The texts of the reasons, one for each code, are not modelled.
unfoldable pub evaluate : Env → ℕ → RiskLimits → OrderProposal → Conditions → RiskDecision
unfolding limits_json
evaluate env now l p c =
    let codes = failed (checks l p c) in
    record {
      approved = is_empty codes;
      rejected = not (is_empty codes);
      reason_codes = codes;
      input_snapshot = dict (
          env.dump_proposal p
          ++ (("limits", limits_json l)
              ∷ ("portfolio_value", amount c.portfolio_value)
              ∷ ("current_position_value", amount (pos c.current_position_value))
              ∷ []));
      risk_rule_version = "1.0.0";
      timestamp = now;
    }
