-- ===== src/Examples/Samples.antt =====
-- The rows and sessions of the concrete runs.
use dse_auto.Common.{
  ℕ, ◌+◌, ◌-◌, ◌*◌, zero, suc, true, Option, none, some, List, [], ◌∷◌, String, ok, raise,
  other_error,
}
use dse_auto.Common.Int.{pos}
use dse_auto.Common.Keys.{Key, letters, num, points, obj, done, null}
use dse_auto.Store.{
  Order, buy, limit, OrderStatus, PaperAccount, AuditChain, Trail, Books, Tables, Session,
  quote_received, healthy, OutboxEvent, OutboxState,
}
use dse_auto.Schemas.{OrderProposal, Provider, exchange_verified}
use dse_auto.Env.{Env}
use dse_auto.Audit.{Entry}
use dse_auto.Events.{EventArgs}
use dse_auto.Events.Deliver.{Consumer}
use dse_auto.Broker.{PaperBroker}
use dse_auto.TaskQueue.{TaskRecord, TaskSession, TaskTables, queued}
use dse_auto.TaskQueue.Worker.{TaskWorker, Handler}

-- A digest that tells events apart by their type.
-- The number of a text of two digits.
abbrev pub two_digits : Key → Option ℕ
two_digits [] = none
two_digits (letters s ∷ ps) = none
two_digits (num n ∷ ps) = none
two_digits (points [] ∷ ps) = none
two_digits (points (a ∷ []) ∷ ps) = none
two_digits (points (a ∷ b ∷ []) ∷ ps) = some ((a - 48) * 10 + (b - 48))
two_digits (points (a ∷ b ∷ c ∷ cs) ∷ ps) = none

abbrev pub env0 : Env
env0 = record {
  sha256 = λ c. c.event_type;
  sha256_json = λ j. "digest";
  dump_proposal = λ p. [];
  dump_decision = λ d. null;
  archive_sha256 = λ events. "archive";
  int_text = two_digits;
}

abbrev pub chain0 : AuditChain
chain0 = record { id = 0; operator_acknowledgement = []; legacy_archive_hash = "archive" }

abbrev pub account0 : PaperAccount
account0 = record { cash = pos 10000000; starting_cash = pos 10000000 }

-- An approved order to buy two shares at 100.0000.
abbrev pub order_with : OrderStatus → Order
order_with status = record {
  id = 7;
  idempotency_key = letters "first" ∷ [];
  symbol = "GP";
  side = buy;
  order_type = limit;
  quantity = 2;
  limit_price = some 1000000;
  stop_price = none;
  status = status;
  filled_quantity = 0;
  average_fill_price = none;
  strategy_id = none;
  expires_at = none;
  approval_token = none;
  approval_token_expires_at = none;
  updated_at = 0;
  campaign_id = none;
}

abbrev pub books_with : List Order → Books
books_with os = record {
  orders = os;
  transactions = [];
  accounts = λ k. elim k [ zero ↦ none | suc _ ↦ some account0 ];
  risk_state = some (record { state = healthy; reason = none });
}

abbrev pub trail_with : Option AuditChain → List OutboxEvent → Trail
trail_with chain outbox = record {
  audit_events = [];
  audit_chain = chain;
  outbox = outbox;
  deliveries = [];
  next_id = 1;
}

abbrev pub tables_with : Option AuditChain → List Order → List OutboxEvent → Tables
tables_with chain os outbox = record { books = books_with os; trail = trail_with chain outbox }

abbrev pub session_with : Option AuditChain → List Order → List OutboxEvent → Session
session_with chain os outbox = record {
  work = tables_with chain os outbox;
  durable = tables_with chain os outbox;
}

abbrev pub session0 : Session
session0 = session_with (some chain0) [] []

abbrev pub broker0 : PaperBroker
broker0 = record {
  participation_rate = 1000;
  slippage_percent = 10;
  fill_model = "realistic";
  rules = none;
  account_id = 1;
  account_label = "paper";
  source_metadata = [];
}

abbrev pub proposal0 : OrderProposal
proposal0 = record {
  idempotency_key = letters "first" ∷ [];
  symbol = "GP";
  side = buy;
  order_type = limit;
  quantity = 2;
  limit_price = some 1000000;
  stop_price = none;
  current_price = 1000000;
  strategy_id = none;
  expires_at = none;
  data_timestamp = 100;
  data_quality_status = "good";
  provider_disagreement_percent = none;
  bid = none;
  ask = none;
  average_daily_volume = none;
}

abbrev pub provider0 : Provider
provider0 = record {
  name = "exchange";
  suitable_for_order_approval = true;
  quote_provenance = λ symbol. ok exchange_verified;
}

abbrev pub entry0 : Entry
entry0 = record {
  actor = "user";
  event_type = "note";
  entity_type = "order";
  entity_id = none;
  previous_state = none;
  new_state = none;
  metadata = none;
}

abbrev pub event_args0 : EventArgs
event_args0 = record {
  event_type = quote_received;
  aggregate_type = "quote";
  aggregate_id = none;
  payload = null;
  idempotency_key = letters "quote" ∷ [];
  correlation_id = none;
  causation_id = none;
  audit_event_id = none;
  schema_version = 1;
}

abbrev pub accepting : Consumer
accepting s e = (ok null, s)

abbrev pub refusing : Consumer
refusing s e = (raise other_error, s)

abbrev pub task0 : TaskRecord
task0 = record {
  id = 3;
  task_name = "campaign_scans";
  queue = "dse-paper-tasks";
  payload = null;
  idempotency_key = letters "scan" ∷ [];
  state = queued;
  attempts = 0;
  max_attempts = 5;
  available_at = 10;
  lease_owner = none;
  lease_expires_at = none;
  last_error = none;
  result = obj done;
  correlation_id = none;
  created_at = 10;
}

abbrev pub queue_with : TaskRecord → TaskSession
queue_with t =
    let tables : TaskTables = record {
      tasks = t ∷ [];
      heartbeats = [];
      rest = tables_with (some chain0) [] [];
    } in
    record { work = tables; durable = tables }

abbrev pub failing : Handler
failing s payload = (raise other_error, s)

abbrev pub worker0 : TaskWorker
worker0 = record {
  worker_id = "worker";
  process_id = 1;
  queue = "dse-paper-tasks";
  lease_seconds = 60;
  handlers = λ name. some failing;
}

-- A pending event.
abbrev pub event_with : ℕ → String → OutboxEvent
event_with id key = record {
  id = id;
  event_type = quote_received;
  schema_version = 1;
  aggregate_type = "quote";
  aggregate_id = none;
  payload = null;
  idempotency_key = letters key ∷ [];
  correlation_id = letters key ∷ [];
  causation_id = none;
  audit_event_id = none;
  state = OutboxState.pending;
  attempts = 0;
  max_attempts = 5;
  available_at = 5;
  lease_owner = none;
  lease_expires_at = none;
  delivered_at = none;
  last_error = none;
  created_at = 5;
}

abbrev pub event0 : OutboxEvent
event0 = event_with 1 "quote"

abbrev pub event1 : OutboxEvent
event1 = event_with 2 "signal"
