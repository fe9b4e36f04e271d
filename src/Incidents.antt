-- ===== src/Incidents.antt =====
-- backend/app/services/incidents.py. The Telegram message of a critical incident is not modelled.
pub mod Linked
use dse_auto.Common.{
  ℕ, ◌+◌, Bool, true, false, not, Option, none, some, List, [], ◌∷◌, ◌++◌, String, str_eq, any,
  if◌then◌else◌, Result, ok, raise, value_error, ◌==◌,
}
use dse_auto.Common.Keys.{Key, Json, obj, done, letters, num, str, dict, opt_json}
use dse_auto.Store.{Tables, Trail, OutboxEvent, incident_opened, Session}
use dse_auto.Env.{Env}
use dse_auto.Audit.{Entry, append_audit}
use dse_auto.Events.{EventArgs, stage_event, modify_event, set_outbox}
use dse_auto.Broker.Submit.{text_json}

-- OperationalIncident.state
pub data IncidentState : Type 0 where
  open_state acknowledged mitigated resolved accepted_risk : IncidentState

pub record OperationalIncident : Type 0 where
  pub id : ℕ
  pub campaign_id : Option ℕ
  pub incident_type : String
  pub state : IncidentState
  pub severity : String
  pub opened_at : ℕ
  pub acknowledged_at : Option ℕ
  pub resolved_at : Option ℕ
  pub owner : Option String
  pub root_cause : Option String
  pub remediation : Option String
  pub evidence : Json
  pub linked_audit_events : List ℕ

-- INCIDENT_TYPES
abbrev pub incident_types : List String
incident_types =
    "provider_outage" ∷ "stale_data" ∷ "timestamp_trust_failure" ∷ "reconciliation_mismatch"
    ∷ "audit_failure" ∷ "missed_scheduler_job" ∷ "missed_eod" ∷ "campaign_drawdown_breach"
    ∷ "backup_failure" ∷ "database_failure" ∷ "notification_failure" ∷ "unexpected_process_restart"
    ∷ "postgresql_unavailable" ∷ "redis_unavailable" ∷ "worker_failure" ∷ "scheduler_failure"
    ∷ "api_restart" ∷ "database_restart" ∷ "redis_restart" ∷ "database_pool_exhaustion"
    ∷ "disk_write_failure" ∷ "dead_letter_accumulation" ∷ "stale_lease" ∷ "corrupt_task_payload"
    ∷ "database_migration_mismatch" ∷ "provider_certification_failure" ∷ "invalid_recovery_manifest"
    ∷ []

abbrev pub severities : List String
severities = "low" ∷ "medium" ∷ "high" ∷ "critical" ∷ []

abbrev pub among : String → List String → Bool
among t = any (str_eq t)

abbrev pub state_name : IncidentState → String
state_name open_state = "open"
state_name acknowledged = "acknowledged"
state_name mitigated = "mitigated"
state_name resolved = "resolved"
state_name accepted_risk = "accepted_risk"

-- INCIDENT_STATES
abbrev pub incident_states : List IncidentState
incident_states = open_state ∷ acknowledged ∷ mitigated ∷ resolved ∷ accepted_risk ∷ []

abbrev pub find_state : String → List IncidentState → Option IncidentState
find_state name [] = none
find_state name (k ∷ ks) = if str_eq (state_name k) name then some k else find_state name ks

-- The table `allowed`.
abbrev pub allowed : IncidentState → List IncidentState
allowed open_state = acknowledged ∷ mitigated ∷ resolved ∷ accepted_risk ∷ []
allowed acknowledged = mitigated ∷ resolved ∷ accepted_risk ∷ []
allowed mitigated = resolved ∷ accepted_risk ∷ open_state ∷ []
allowed resolved = []
allowed accepted_risk = open_state ∷ resolved ∷ []

abbrev pub may_move : IncidentState → IncidentState → Bool
may_move from target = any (λ k. str_eq (state_name target) (state_name k)) (allowed from)

-- The table of the incidents beside the session of the trading core.
pub record IncidentDb : Type 0 where
  pub incidents : List OperationalIncident
  pub durable_incidents : List OperationalIncident
  pub session : Session

-- db.commit()
abbrev pub save : IncidentDb → IncidentDb
save db = record {
  incidents = db.incidents;
  durable_incidents = db.incidents;
  session = record { work = db.session.work; durable = db.session.work };
}

abbrev pub opened :
    ℕ → ℕ → Option ℕ → String → String → Option String → Option Json → ℕ → OperationalIncident
opened now id campaign_id incident_type severity owner evidence audit_id = record {
  id = id;
  campaign_id = campaign_id;
  incident_type = incident_type;
  state = open_state;
  severity = severity;
  opened_at = now;
  acknowledged_at = none;
  resolved_at = none;
  owner = owner;
  root_cause = none;
  remediation = none;
  evidence = elim evidence [ none ↦ obj done | some e ↦ e ];
  linked_audit_events = audit_id ∷ [];
}

abbrev pub campaign_key : Option ℕ → Option Key
campaign_key none = none
campaign_key (some id) = some (num id ∷ [])

abbrev pub opened_json : Option ℕ → String → String → Json
opened_json campaign_id incident_type severity = dict (
    ("type", text_json incident_type)
    ∷ ("severity", text_json severity)
    ∷ ("campaign_id", opt_json (λ id. str (num id ∷ [])) campaign_id)
    ∷ [])

abbrev pub opened_event : ℕ → Option ℕ → Json → EventArgs
opened_event id campaign_id payload = record {
  event_type = incident_opened;
  aggregate_type = "operational_incident";
  aggregate_id = some (num id ∷ []);
  payload = payload;
  idempotency_key = letters "incident-opened" ∷ num id ∷ [];
  correlation_id = campaign_key campaign_id;
  causation_id = none;
  audit_event_id = none;
  schema_version = 1;
}

abbrev pub incident_entry : String → String → ℕ → Option Json → Json → Entry
incident_entry actor type id previous next = record {
  actor = actor;
  event_type = type;
  entity_type = "operational_incident";
  entity_id = some (num id ∷ []);
  previous_state = previous;
  new_state = some next;
  metadata = none;
}

-- db.add(incident); db.flush(): the identifier is drawn.
abbrev pub draw_id : Session → Session
draw_id s = record {
  work = record {
    books = s.work.books;
    trail = record s.work.trail { next_id = s.work.trail.next_id + 1 };
  };
  durable = s.durable;
}

abbrev pub link_audit : ℕ → OutboxEvent → OutboxEvent
link_audit id e = record e { audit_event_id = some id }

unfoldable pub write_incident :
    Env
    → ℕ
    → Option ℕ
    → String
    → String
    → Option String
    → Option Json
    → IncidentDb
    → OperationalIncident × IncidentDb
write_incident env now campaign_id incident_type severity owner evidence db =
    let id = db.session.work.trail.next_id in
    let payload = opened_json campaign_id incident_type severity in
    let (outbox, s1) = stage_event now (opened_event id campaign_id payload) (draw_id db.session) in
    let audit_id = s1.work.trail.next_id in
    let s2 =
      append_audit env now (incident_entry "operations" "incident.opened" id none payload) s1 in
    let s3 = set_outbox (modify_event outbox.id (link_audit audit_id) s2.work.trail.outbox) s2 in
    let incident = opened now id campaign_id incident_type severity owner evidence audit_id in
    (
      incident,
      save (record {
        incidents = db.incidents ++ incident ∷ [];
        durable_incidents = db.durable_incidents;
        session = s3;
      }),
    )

unfoldable pub open_incident :
    Env
    → ℕ
    → Option ℕ
    → String
    → String
    → Option String
    → Option Json
    → IncidentDb
    → Result OperationalIncident × IncidentDb
unfolding write_incident
open_incident env now campaign_id incident_type severity owner evidence db =
    let (incident, db') =
      write_incident env now campaign_id incident_type severity owner evidence db in
    if not (among incident_type incident_types)
    then (raise (value_error "Unknown incident type"), db)
    else if not (among severity severities)
    then (raise (value_error "Unknown incident severity"), db)
    else (ok incident, db')

-- new or old, where an empty text counts as missing
abbrev pub or_old : Option String → Option String → Option String
or_old none old = old
or_old (some t) old = if str_eq t "" then old else some t

abbrev pub time_if : Bool → ℕ → Option ℕ → Option ℕ
time_if b now old = if b then some now else old

abbrev pub is_acknowledged : IncidentState → Bool
is_acknowledged acknowledged = true
is_acknowledged open_state = false
is_acknowledged mitigated = false
is_acknowledged resolved = false
is_acknowledged accepted_risk = false

abbrev pub is_resolved : IncidentState → Bool
is_resolved resolved = true
is_resolved open_state = false
is_resolved acknowledged = false
is_resolved mitigated = false
is_resolved accepted_risk = false

abbrev pub moved :
    ℕ
    → IncidentState
    → Option String
    → Option String
    → Option String
    → ℕ
    → OperationalIncident
    → OperationalIncident
moved now target owner root_cause remediation audit_id i = record i {
  state = target;
  owner = or_old owner i.owner;
  root_cause = or_old root_cause i.root_cause;
  remediation = or_old remediation i.remediation;
  acknowledged_at = time_if (is_acknowledged target) now i.acknowledged_at;
  resolved_at = time_if (is_resolved target) now i.resolved_at;
  linked_audit_events = i.linked_audit_events ++ audit_id ∷ [];
}

abbrev pub put_incident : OperationalIncident → List OperationalIncident → List OperationalIncident
put_incident i [] = []
put_incident i (p ∷ ps) = (if p.id == i.id then i else p) ∷ put_incident i ps

abbrev pub moved_entry : OperationalIncident → IncidentState → Option String → Entry
moved_entry i target owner =
    incident_entry "operator" "incident.state_changed" i.id
      (some (dict (("state", text_json (state_name i.state)) ∷ [])))
      (dict (
        ("state", text_json (state_name target))
        ∷ ("owner", opt_json text_json (or_old owner i.owner))
        ∷ []))

unfoldable pub write_move :
    Env
    → ℕ
    → OperationalIncident
    → IncidentState
    → Option String
    → Option String
    → Option String
    → IncidentDb
    → OperationalIncident × IncidentDb
write_move env now i target owner root_cause remediation db =
    let i' = moved now target owner root_cause remediation db.session.work.trail.next_id i in
    (
      i',
      save (record {
        incidents = put_incident i' db.incidents;
        durable_incidents = db.durable_incidents;
        session = append_audit env now (moved_entry i target owner) db.session;
      }),
    )

unfoldable pub transition_incident :
    Env
    → ℕ
    → OperationalIncident
    → String
    → Option String
    → Option String
    → Option String
    → IncidentDb
    → Result OperationalIncident × IncidentDb
unfolding write_move
transition_incident env now i target_state owner root_cause remediation db =
    elim (find_state target_state incident_states) [
      | none ↦ (raise (value_error "Unknown incident state"), db)
      | some target ↦
          (let (i', db') = write_move env now i target owner root_cause remediation db in
            if may_move i.state target
            then (ok i', db')
            else (raise (value_error "Invalid incident transition"), db))
    ]
