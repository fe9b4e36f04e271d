-- ===== src/TaskQueue/Handlers.antt =====
-- DEFAULT_TASK_HANDLERS: expiry of proposals, verification of the audit chain and the simulated day.
-- The jobs of backend/app/services/scheduler.py are parameters.
use dse_auto.Common.{
  ℕ, Bool, true, false, ◌&&◌, Option, none, some, List, [], ◌∷◌, String, str_eq, if◌then◌else◌, ok,
  raise, Error, map, count_if,
}
use dse_auto.Common.Keys.{
  Json, Fields, null, obj, arr, end, field, done, int, bool, str, letters, dict,
}
use dse_auto.Store.{
  Order, OrderStatus, proposed, awaiting_approval, approved, submitted, partially_filled, filled,
  cancelled, expired, rejected, risk_rejected, Session,
}
use dse_auto.Store.Rows.{opt_lt}
use dse_auto.Env.{Env}
use dse_auto.Audit.Status.{verify_audit_chain}
use dse_auto.TaskQueue.{TaskSession, save}
use dse_auto.TaskQueue.Worker.{Handler}

abbrev pub is_undecided : OrderStatus → Bool
is_undecided proposed = true
is_undecided awaiting_approval = true
is_undecided approved = false
is_undecided submitted = false
is_undecided partially_filled = false
is_undecided filled = false
is_undecided cancelled = false
is_undecided expired = false
is_undecided rejected = false
is_undecided risk_rejected = false

abbrev pub is_overdue : ℕ → Order → Bool
is_overdue now o = is_undecided o.status && opt_lt o.expires_at now

abbrev pub expire : ℕ → Order → Order
expire now o = if is_overdue now o then record o { status = expired } else o

-- A change of the orders table, from a session of the queue.
abbrev pub set_orders : List Order → TaskSession → TaskSession
set_orders os s = record {
  work = record {
    tasks = s.work.tasks;
    heartbeats = s.work.heartbeats;
    rest = record s.work.rest { books = record s.work.rest.books { orders = os } };
  };
  durable = s.durable;
}

unfoldable pub expire_proposals : ℕ → Handler
expire_proposals now s payload =
    let os = s.work.rest.books.orders in
    (
      ok (dict (("expired", int (count_if (is_overdue now) os)) ∷ [])),
      save (set_orders (map (expire now) os) s),
    )

-- The session of the trading core inside a session of the queue.
abbrev pub as_session : TaskSession → Session
as_session s = record { work = s.work.rest; durable = s.durable.rest }

unfoldable pub audit_verify : Env → Handler
unfolding verify_audit_chain
audit_verify env s payload =
    (ok (dict (("valid", bool (verify_audit_chain env (as_session s))) ∷ [])), s)

abbrev pub find_field : String → Fields → Option Json
find_field name done = none
find_field name (field k v rest) =
    let later = find_field name rest in if str_eq k name then some v else later

-- payload.get(name, default), for a payload that is an object
abbrev pub payload_get : String → Json → Json → Json
payload_get name default (obj fs) = elim (find_field name fs) [ none ↦ default | some v ↦ v ]
payload_get name default null = default
payload_get name default (str k) = default
payload_get name default (int n) = default
payload_get name default (Json.amount z) = default
payload_get name default (bool b) = default
payload_get name default (arr l) = default

unfoldable pub simulation_day : Handler
simulation_day s payload = (
  ok (
      dict (
        ("simulated", bool true)
        ∷ ("day", payload_get "day" null payload)
        ∷ ("symbols", payload_get "symbols" (arr end) payload)
        ∷ ("strategies", payload_get "strategies" (arr end) payload)
        ∷ [])),
  s,
)

-- The job that `_legacy_job` imports, with the error that it raises, if any.
unfoldable pub legacy_job : (String → TaskSession → Option Error × TaskSession) → String → Handler
legacy_job jobs name s payload =
    let (r, s') = jobs name s in
    (
      elim r [
        | some e ↦ raise e
        | none ↦ ok (dict (("completed", bool true) ∷ ("handler", str (letters name ∷ [])) ∷ []))
      ],
      s',
    )

abbrev pub lookup : String → List (String × Handler) → Option Handler
lookup name [] = none
lookup name ((k, h) ∷ rest) = if str_eq k name then some h else lookup name rest

unfoldable pub default_handlers :
    Env → ℕ → (String → TaskSession → Option Error × TaskSession) → String → Option Handler
unfolding legacy_job expire_proposals audit_verify simulation_day
default_handlers env now jobs name = lookup name (
    ("market_data_ingestion", legacy_job jobs "refresh_quotes_job")
    ∷ ("campaign_scans", legacy_job jobs "campaign_drift_detection_job")
    ∷ ("signal_generation", legacy_job jobs "scan_signals_job")
    ∷ ("proposal_expiry", expire_proposals now)
    ∷ ("reconciliation", legacy_job jobs "reconciliation_job")
    ∷ ("eod_processing", legacy_job jobs "campaign_end_of_day_job")
    ∷ ("evidence_generation", legacy_job jobs "report_generation_job")
    ∷ ("backups", legacy_job jobs "end_of_day_snapshot_job")
    ∷ ("audit_verification", audit_verify env)
    ∷ ("incident_notifications", legacy_job jobs "scan_news_job")
    ∷ ("simulation_day", simulation_day)
    ∷ [])
