-- ===== src/Orders.antt =====
-- backend/app/services/orders.py: proposals and their approval. The Telegram message that
-- `propose_order` sends after its commit is not modelled. `token` is what `random.choices` gives.
pub mod Propose
pub mod Approve
pub mod Gate
pub mod Intake
use dse_auto.Common.{
  ℕ, ◌+◌, ◌-◌, ◌*◌, Bool, true, false, Option, none, some, List, [], ◌∷◌, ◌++◌, String, ◌==◌,
  if◌then◌else◌, count_if, ◌||◌, ◌&&◌,
}
use dse_auto.Common.Int.{ℤ, pos}
use dse_auto.Common.Keys.{Key, Json, key_eq, str, num, int, letters, dict}
use dse_auto.Store.{
  Order, OrderStatus, proposed, awaiting_approval, approved, submitted, partially_filled, filled,
  cancelled, expired, rejected, risk_rejected, PaperAccount, RiskState, Session, set_books, Trail,
}
use dse_auto.Schemas.{
  OrderProposal, RiskDecision, RiskCode, TimestampProvenance, exchange_verified, operator_attested,
  provider_asserted, receipt_only, unknown, unsafe_provider,
}
use dse_auto.Env.{Env}
use dse_auto.Audit.{Entry}
use dse_auto.Broker.Submit.{order_id}
use dse_auto.Risk.{Conditions}

-- select(Order).where(Order.idempotency_key == key)
unfoldable pub find_order_key : Key → List Order → Option Order
find_order_key key [] = none
find_order_key key (o ∷ os) = if key_eq o.idempotency_key key then some o else find_order_key key os

-- db.get(Order, id)
abbrev pub find_order : ℕ → List Order → Option Order
find_order id [] = none
find_order id (o ∷ os) = if o.id == id then some o else find_order id os

-- The new row for a proposal, with the defaults of its columns.
abbrev pub order_of : ℕ → ℕ → OrderProposal → OrderStatus → Order
order_of id now p status = record {
  id = id;
  idempotency_key = p.idempotency_key;
  symbol = p.symbol;
  side = p.side;
  order_type = p.order_type;
  quantity = p.quantity;
  limit_price = p.limit_price;
  stop_price = p.stop_price;
  status = status;
  filled_quantity = 0;
  average_fill_price = none;
  strategy_id = p.strategy_id;
  expires_at = p.expires_at;
  approval_token = none;
  approval_token_expires_at = none;
  updated_at = now;
  campaign_id = none;
}

-- db.add(order); db.flush()
abbrev pub add_order : Order → Session → Session
add_order o s =
    let t = s.work.trail in
    record {
      work = record {
        books = record s.work.books { orders = s.work.books.orders ++ o ∷ [] };
        trail = record t { next_id = t.next_id + 1 };
      };
      durable = s.durable;
    }

-- The statuses of the query for open orders.
abbrev pub is_open_status : OrderStatus → Bool
is_open_status awaiting_approval = true
is_open_status approved = true
is_open_status submitted = true
is_open_status partially_filled = true
is_open_status proposed = false
is_open_status filled = false
is_open_status cancelled = false
is_open_status expired = false
is_open_status rejected = false
is_open_status risk_rejected = false

abbrev pub count_open : List Order → ℕ
count_open = count_if (λ o. is_open_status o.status)

abbrev pub is_trusted : TimestampProvenance → Bool
is_trusted exchange_verified = true
is_trusted operator_attested = true
is_trusted provider_asserted = false
is_trusted receipt_only = false
is_trusted unknown = false

-- account.cash if account else Decimal("0")
abbrev pub cash_or_zero : Option PaperAccount → ℤ
cash_or_zero none = pos 0
cash_or_zero (some a) = a.cash

-- What `evaluate` is given, with the defaults for the arguments that the service does not pass.
abbrev pub conditions_of : RiskState → Option PaperAccount → ℕ → ℕ → OrderProposal → ℕ → Conditions
conditions_of state account open_count now p max_age = record {
  kill_switch_state = state.state;
  portfolio_value = cash_or_zero account;
  current_position_value = 0;
  orders_today = 0;
  open_orders = open_count;
  data_age = now - p.data_timestamp;
  max_data_age_seconds = max_age;
  daily_loss_percent = 0;
  campaign_drawdown_percent = 0;
  consecutive_losses = 0;
  strategy_suspended = false;
  restart_reconciled = true;
  reconciliation_healthy = true;
}

-- The decision that rejects without an evaluation.
abbrev pub refusal : ℕ → RiskCode → Json → RiskDecision
refusal now code snapshot = record {
  approved = false;
  rejected = true;
  reason_codes = code ∷ [];
  input_snapshot = snapshot;
  risk_rule_version = "1.0.0";
  timestamp = now;
}

abbrev pub provider_refusal : ℕ → String → RiskDecision
provider_refusal now name =
    refusal now unsafe_provider (dict (("provider", str (letters name ∷ [])) ∷ []))

-- An audit record about an order with a decision as its new state.
abbrev pub decision_entry : String → String → Order → Json → Entry
decision_entry actor type o state = record {
  actor = actor;
  event_type = type;
  entity_type = "order";
  entity_id = some (order_id o);
  previous_state = none;
  new_state = some state;
  metadata = none;
}
