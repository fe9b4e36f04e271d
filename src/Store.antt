-- ===== src/Store.antt =====
-- The tables of backend/app/models/entities.py that the trading core reads and writes, and the
-- unit of work of a SQLAlchemy session over them (commit, rollback).
-- A status column is a data type. Money, prices and quantities of transactions are numbers of
-- ten-thousandths (`Numeric(18, 4)`); a time is a number of microseconds; a generated identifier
-- (`uuid4`) is a number drawn from `next_id`.
pub mod Rows
use dse_auto.Common.{
  ℕ, ◌+◌, ◌≡◌, refl, Bool, true, false, Option, none, some, List, [], ◌∷◌, ◌++◌, ◌==◌,
  if◌then◌else◌, String,
}
use dse_auto.Common.Int.{ℤ}
use dse_auto.Common.Single.{put_row}
use dse_auto.Common.Keys.{Key, Json}
use dse_auto.Common.Text.{Text}

-- Order.status
pub data OrderStatus : Type 0 where
  proposed awaiting_approval approved submitted partially_filled filled : OrderStatus
  cancelled expired rejected risk_rejected : OrderStatus

pub data Side : Type 0 where
  buy sell : Side

pub data OrderType : Type 0 where
  limit stop stop_limit trailing_stop market : OrderType

pub record Order : Type 0 where
  pub id : ℕ
  pub idempotency_key : Key
  pub symbol : String
  pub side : Side
  pub order_type : OrderType
  pub quantity : ℕ
  pub limit_price : Option ℕ
  pub stop_price : Option ℕ
  pub status : OrderStatus
  pub filled_quantity : ℕ
  pub average_fill_price : Option ℕ
  pub strategy_id : Option String
  pub expires_at : Option ℕ
  pub approval_token : Option String
  pub approval_token_expires_at : Option ℕ
  pub updated_at : ℕ
  pub campaign_id : Option ℕ

pub data TransactionType : Type 0 where
  bought sold dividend bonus split rights fee tax adjustment cash_balance : TransactionType

pub record Transaction : Type 0 where
  pub occurred_at : ℕ
  pub transaction_type : TransactionType
  pub symbol : String
  pub quantity : ℕ
  pub price : ℕ
  pub fees : ℕ
  pub taxes : ℕ
  pub broker : Option String
  pub account_label : Option String
  pub notes : Option Key
  pub source_record : List (String × Json)
  pub campaign_id : Option ℕ

pub record PaperAccount : Type 0 where
  pub cash : ℤ
  pub starting_cash : ℤ

-- RiskState.state
pub data KillState : Type 0 where
  healthy warning trading_paused reconciliation_required emergency_stop : KillState

pub record RiskState : Type 0 where
  pub state : KillState
  pub reason : Option String

pub record AuditEvent : Type 0 where
  pub id : ℕ
  pub timestamp : ℕ
  pub actor : String
  pub event_type : String
  pub entity_type : String
  pub entity_id : Option Key
  pub previous_state : Option Json
  pub new_state : Option Json
  pub event_metadata : Json
  pub previous_hash : String
  pub integrity_hash : String
  pub chain_id : Option ℕ
  pub sequence : Option ℕ

-- The active row of AuditChain.
pub record AuditChain : Type 0 where
  pub id : ℕ
  pub operator_acknowledgement : Text
  pub legacy_archive_hash : String

-- EVENT_TYPES of backend/app/services/events.py
pub data EventType : Type 0 where
  quote_received data_activated signal_generated risk_rejected_event proposal_created : EventType
  proposal_approved order_submitted partial_fill fill_completed : EventType
  reconciliation_completed incident_opened emergency_stopped : EventType
  campaign_session_started campaign_session_completed : EventType

-- OutboxEvent.state
pub data OutboxState : Type 0 where
  pending leased retry delivered dead_letter : OutboxState

pub record OutboxEvent : Type 0 where
  pub id : ℕ
  pub event_type : EventType
  pub schema_version : ℕ
  pub aggregate_type : String
  pub aggregate_id : Option Key
  pub payload : Json
  pub idempotency_key : Key
  pub correlation_id : Key
  pub causation_id : Option Key
  pub audit_event_id : Option ℕ
  pub state : OutboxState
  pub attempts : ℕ
  pub max_attempts : ℕ
  pub available_at : ℕ
  pub lease_owner : Option String
  pub lease_expires_at : Option ℕ
  pub delivered_at : Option ℕ
  pub last_error : Option String
  pub created_at : ℕ

pub record EventDelivery : Type 0 where
  pub event_id : ℕ
  pub consumer : String
  pub effect_key : Key
  pub result : Json

-- The tables of the trading books.
pub record Books : Type 0 where
  pub orders : List Order
  pub transactions : List Transaction
  pub accounts : ℕ → Option PaperAccount
  pub risk_state : Option RiskState

-- The tables that record what happened.
pub record Trail : Type 0 where
  pub audit_events : List AuditEvent
  pub audit_chain : Option AuditChain
  pub outbox : List OutboxEvent
  pub deliveries : List EventDelivery
  pub next_id : ℕ

pub record Tables : Type 0 where
  pub books : Books
  pub trail : Trail

-- A session: the tables as the session sees them, and as they were last committed.
pub record Session : Type 0 where
  pub work : Tables
  pub durable : Tables

-- db.commit()
abbrev pub commit : Session → Session
commit s = record { work = s.work; durable = s.work }

-- if b: db.commit()
abbrev pub commit_if : Bool → Session → Session
commit_if b s = record { work = s.work; durable = if b then s.work else s.durable }

-- db.rollback()
abbrev pub rollback : Session → Session
rollback s = record { work = s.durable; durable = s.durable }

abbrev pub set_books : Books → Session → Session
set_books b s = record { work = record { books = b; trail = s.work.trail }; durable = s.durable }

abbrev pub set_trail : Trail → Session → Session
set_trail t s = record { work = record { books = s.work.books; trail = t }; durable = s.durable }

-- A write to a row of a table that is keyed by numbers.
abbrev pub update {ℓ} : {A : Type ℓ} → (ℕ → Option A) → ℕ → A → ℕ → Option A
update f k v j = if k == j then some v else f j

-- A write to an attribute of an order, which the session tracks: the row with its id changes.
unfoldable pub put_order : Order → List Order → List Order
put_order o os = put_row (λ p. p.id) o os

abbrev pub save_order : Order → Session → Session
save_order o s = set_books (record s.work.books { orders = put_order o s.work.books.orders }) s

-- db.get(PaperAccount, id)
abbrev pub get_account : ℕ → Session → Option PaperAccount
get_account k s = s.work.books.accounts k

abbrev pub save_account : ℕ → PaperAccount → Session → Session
save_account k a s =
    set_books (record s.work.books { accounts = update s.work.books.accounts k a }) s
