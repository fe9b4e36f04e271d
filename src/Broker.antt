-- ===== src/Broker.antt =====
-- backend/app/brokers/paper.py and dse_execution.py: the local paper broker. It fills limit orders
-- against a market price within the liquidity that it is given, and writes the cash of the account
-- and the history of transactions.
pub mod Rules
pub mod Fill
pub mod Admission
pub mod Submit
pub mod Manage
pub mod Reconcile
pub mod Official
use dse_auto.Common.{ℕ, Bool, true, false, Option, List, String}
use dse_auto.Common.Keys.{Json}
use dse_auto.Store.{
  OrderStatus, Side, Order, proposed, awaiting_approval, approved, submitted, partially_filled,
  filled, cancelled, expired, rejected, risk_rejected,
}
use dse_auto.Broker.Rules.{ExecutionRules}

-- The fields of a PaperBroker; rates are in ten-thousandths.
pub record PaperBroker : Type 0 where
  pub participation_rate : ℕ
  pub slippage_percent : ℕ
  pub fill_model : String
  pub rules : Option ExecutionRules
  pub account_id : ℕ
  pub account_label : String
  pub source_metadata : List (String × Json)

-- FILLABLE
abbrev pub is_fillable : OrderStatus → Bool
is_fillable approved = true
is_fillable submitted = true
is_fillable partially_filled = true
is_fillable proposed = false
is_fillable awaiting_approval = false
is_fillable filled = false
is_fillable cancelled = false
is_fillable expired = false
is_fillable rejected = false
is_fillable risk_rejected = false

-- The statuses from which `cancel_order` raises.
abbrev pub is_final : OrderStatus → Bool
is_final filled = true
is_final cancelled = true
is_final expired = true
is_final rejected = true
is_final proposed = false
is_final awaiting_approval = false
is_final approved = false
is_final submitted = false
is_final partially_filled = false
is_final risk_rejected = false

-- The statuses that `replace_order` accepts.
abbrev pub is_replaceable : OrderStatus → Bool
is_replaceable proposed = true
is_replaceable awaiting_approval = true
is_replaceable approved = true
is_replaceable submitted = true
is_replaceable partially_filled = false
is_replaceable filled = false
is_replaceable cancelled = false
is_replaceable expired = false
is_replaceable rejected = false
is_replaceable risk_rejected = false
