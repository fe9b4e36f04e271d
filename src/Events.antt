-- ===== src/Events.antt =====
-- backend/app/services/events.py: the outbox. Events are staged in the caller's transaction, leased
-- to a dispatcher, and delivered to consumers, each of which is recorded once for each event.
pub mod Claim
pub mod Deliver
pub mod Dispatch
pub mod Staged
pub mod Frame
pub mod Leases
pub mod Retries
use dse_auto.Common.{
  ℕ, ◌+◌, ◌*◌, Bool, true, false, ◌&&◌, Option, none, some, List, [], ◌∷◌, ◌++◌, String, str_eq,
  ltb, ◌==◌, if◌then◌else◌, Result, ok, raise, value_error,
}
use dse_auto.Common.Keys.{Key, Json, key_eq, num}
use dse_auto.Store.{
  EventType, OutboxEvent, OutboxState, Trail, Session, set_trail, commit, quote_received,
  data_activated, signal_generated, risk_rejected_event, proposal_created, proposal_approved,
  order_submitted, partial_fill, fill_completed, reconciliation_completed, incident_opened,
  emergency_stopped, campaign_session_started, campaign_session_completed,
}

-- The arguments of `emit_event` behind the type.
pub record EventArgs : Type 0 where
  pub event_type : EventType
  pub aggregate_type : String
  pub aggregate_id : Option Key
  pub payload : Json
  pub idempotency_key : Key
  pub correlation_id : Option Key
  pub causation_id : Option Key
  pub audit_event_id : Option ℕ
  pub schema_version : ℕ

-- The table EVENT_TYPES.
abbrev pub event_names : List (String × EventType)
event_names =
    ("quote_received", quote_received)
    ∷ ("data_activated", data_activated)
    ∷ ("signal_generated", signal_generated)
    ∷ ("risk_rejected", risk_rejected_event)
    ∷ ("proposal_created", proposal_created)
    ∷ ("proposal_approved", proposal_approved)
    ∷ ("order_submitted", order_submitted)
    ∷ ("partial_fill", partial_fill)
    ∷ ("fill_completed", fill_completed)
    ∷ ("reconciliation_completed", reconciliation_completed)
    ∷ ("incident_opened", incident_opened)
    ∷ ("emergency_stop", emergency_stopped)
    ∷ ("campaign_session_started", campaign_session_started)
    ∷ ("campaign_session_completed", campaign_session_completed)
    ∷ []

abbrev pub name_lookup : String → List (String × EventType) → Option EventType
name_lookup name [] = none
name_lookup name ((n, t) ∷ rest) = if str_eq n name then some t else name_lookup name rest

-- select(OutboxEvent).where(OutboxEvent.idempotency_key == key)
unfoldable pub find_key : Key → List OutboxEvent → Option OutboxEvent
find_key key [] = none
find_key key (e ∷ es) = if key_eq e.idempotency_key key then some e else find_key key es

-- correlation_id or str(uuid4())
abbrev pub or_fresh : ℕ → Option Key → Key
or_fresh id none = num id ∷ []
or_fresh id (some key) = key

-- The new row, with the defaults of its columns.
unfoldable pub new_event : ℕ → ℕ → EventArgs → OutboxEvent
new_event now id args = record {
  id = id;
  event_type = args.event_type;
  schema_version = args.schema_version;
  aggregate_type = args.aggregate_type;
  aggregate_id = args.aggregate_id;
  payload = args.payload;
  idempotency_key = args.idempotency_key;
  correlation_id = or_fresh (id + 1) args.correlation_id;
  causation_id = args.causation_id;
  audit_event_id = args.audit_event_id;
  state = OutboxState.pending;
  attempts = 0;
  max_attempts = 5;
  available_at = now;
  lease_owner = none;
  lease_expires_at = none;
  delivered_at = none;
  last_error = none;
  created_at = now;
}

abbrev pub add_event : OutboxEvent → Trail → Trail
add_event event t = record t { outbox = t.outbox ++ event ∷ []; next_id = t.next_id + 2 }

-- The part of `emit_event` behind its two guards. The callers in the core name a type of
-- EVENT_TYPES and leave the version at its default 1, so that they pass the guards.
unfoldable pub stage_event : ℕ → EventArgs → Session → OutboxEvent × Session
unfolding new_event
stage_event now args s =
    let event = new_event now s.work.trail.next_id args in
    elim (find_key args.idempotency_key s.work.trail.outbox) [
      | some existing ↦ (existing, s)
      | none ↦ (event, set_trail (add_event event s.work.trail) s)
    ]

-- For a caller that does not use the event.
abbrev pub emit : ℕ → EventArgs → Session → Session
emit now args s = (stage_event now args s).1

unfoldable pub emit_event : ℕ → String → EventArgs → Session → Result OutboxEvent × Session
emit_event now name args s = elim (name_lookup name event_names) [
  | none ↦ (raise (value_error "Unsupported event type"), s)
  | some type ↦
      if ltb args.schema_version 1
      then (raise (value_error "Event schema version must be positive"), s)
      else (let (event, s') = stage_event now (record args { event_type = type }) s in
          (ok event, s'))
]

-- An assignment to attributes of the event with an id.
abbrev pub modify_event : ℕ → (OutboxEvent → OutboxEvent) → List OutboxEvent → List OutboxEvent
modify_event id f [] = []
modify_event id f (e ∷ es) = (if e.id == id then f e else e) ∷ modify_event id f es

-- db.get(OutboxEvent, id)
abbrev pub find_id : ℕ → List OutboxEvent → Option OutboxEvent
find_id id [] = none
find_id id (e ∷ es) = if e.id == id then some e else find_id id es

abbrev pub set_outbox : List OutboxEvent → Session → Session
set_outbox es s = set_trail (record s.work.trail { outbox = es }) s

-- What `replay_event` writes.
abbrev pub reset_event : ℕ → OutboxEvent → OutboxEvent
reset_event now e = record e {
  state = OutboxState.pending;
  attempts = 0;
  available_at = now;
  lease_owner = none;
  lease_expires_at = none;
  delivered_at = none;
  last_error = none;
}

unfoldable pub replay_event : ℕ → ℕ → Session → Result OutboxEvent × Session
replay_event now id s = elim (find_id id s.work.trail.outbox) [
  | none ↦ (raise (value_error "Outbox event not found"), s)
  | some e ↦ (
    ok (reset_event now e),
    commit (set_outbox (modify_event id (reset_event now) s.work.trail.outbox) s),
  )
]
