-- ===== src/Schemas.antt =====
-- backend/app/schemas/trading.py and market.py: an order proposal after its validation, the
-- decision of the risk engine, and what the order service asks of a market-data provider.
use dse_auto.Common.{ℕ, Bool, Option, List, String, Result}
use dse_auto.Common.Keys.{Key, Json}
use dse_auto.Store.{Side, OrderType}

-- Prices and percentages are in ten-thousandths, times in microseconds.
pub record OrderProposal : Type 0 where
  pub idempotency_key : Key
  pub symbol : String
  pub side : Side
  pub order_type : OrderType
  pub quantity : ℕ
  pub limit_price : Option ℕ
  pub stop_price : Option ℕ
  pub current_price : ℕ
  pub strategy_id : Option String
  pub expires_at : Option ℕ
  pub data_timestamp : ℕ
  pub data_quality_status : String
  pub provider_disagreement_percent : Option ℕ
  pub bid : Option ℕ
  pub ask : Option ℕ
  pub average_daily_volume : Option ℕ

pub data RiskCode : Type 0 where
  kill_switch_not_healthy daily_loss_limit campaign_drawdown_limit : RiskCode
  repeated_loss_cooldown strategy_suspended restart_reconciliation_required : RiskCode
  reconciliation_mismatch stale_or_unsafe_data provider_conflict max_trade_value : RiskCode
  max_quantity max_position_percent max_daily_orders max_open_orders : RiskCode
  insufficient_liquidity restricted_symbol symbol_not_approved price_deviation : RiskCode
  spread_too_wide unsafe_provider insufficient_timestamp_trust : RiskCode

pub record RiskDecision : Type 0 where
  pub approved : Bool
  pub rejected : Bool
  pub reason_codes : List RiskCode
  pub input_snapshot : Json
  pub risk_rule_version : String
  pub timestamp : ℕ

pub data TimestampProvenance : Type 0 where
  exchange_verified provider_asserted operator_attested receipt_only unknown : TimestampProvenance

-- provider.get_capabilities().suitable_for_order_approval, and the provenance of get_quote(symbol).
pub record Provider : Type 0 where
  pub name : String
  pub suitable_for_order_approval : Bool
  pub quote_provenance : String → Result TimestampProvenance
