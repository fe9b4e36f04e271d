-- ===== src/Risk/KillSwitch.antt =====
-- backend/app/risk/kill_switch.py
use dse_auto.Common.{
  ℕ, Option, none, some, List, [], ◌∷◌, String, str_eq, if◌then◌else◌, Result, ok, raise,
  value_error,
}
use dse_auto.Common.Keys.{Json, num, letters, dict, opt_json}
use dse_auto.Store.{
  KillState, healthy, warning, trading_paused, reconciliation_required, emergency_stop, RiskState,
  Session, set_books, commit, emergency_stopped,
}
use dse_auto.Env.{Env}
use dse_auto.Audit.{Entry, append_audit}
use dse_auto.Events.{EventArgs, emit}
use dse_auto.Broker.Submit.{text_json}

abbrev pub state_name : KillState → String
state_name healthy = "healthy"
state_name warning = "warning"
state_name trading_paused = "trading_paused"
state_name reconciliation_required = "reconciliation_required"
state_name emergency_stop = "emergency_stop"

-- VALID_STATES
abbrev pub valid_states : List KillState
valid_states = healthy ∷ warning ∷ trading_paused ∷ reconciliation_required ∷ emergency_stop ∷ []

abbrev pub find_state : String → List KillState → Option KillState
find_state name [] = none
find_state name (k ∷ ks) = if str_eq (state_name k) name then some k else find_state name ks

abbrev pub initial_state : RiskState
initial_state = record {
  state = reconciliation_required;
  reason = some "Startup reconciliation required";
}

abbrev pub set_risk_state : RiskState → Session → Session
set_risk_state r s = set_books (record s.work.books { risk_state = some r }) s

abbrev pub state_of : Option RiskState → Session → RiskState × Session
state_of none s = (initial_state, set_risk_state initial_state s)
state_of (some r) s = (r, s)

-- A missing row is added, and not yet committed.
unfoldable pub get_state : Session → RiskState × Session
get_state s = state_of s.work.books.risk_state s

state_json : RiskState → Json
state_json r =
    dict (("state", text_json (state_name r.state)) ∷ ("reason", opt_json text_json r.reason) ∷ [])

pub stop_event : ℕ → String → String → EventArgs
stop_event now reason actor = record {
  event_type = emergency_stopped;
  aggregate_type = "risk_state";
  aggregate_id = some (letters "1" ∷ []);
  payload = dict (
      ("state", text_json "emergency_stop")
      ∷ ("reason", text_json reason)
      ∷ ("actor", text_json actor)
      ∷ []);
  idempotency_key = letters "emergency-stop" ∷ num now ∷ [];
  correlation_id = none;
  causation_id = none;
  audit_event_id = none;
  schema_version = 1;
}

change_entry : String → RiskState → RiskState → Entry
unfolding state_json
change_entry actor previous next = record {
  actor = actor;
  event_type = "risk.kill_switch_changed";
  entity_type = "risk_state";
  entity_id = some (letters "1" ∷ []);
  previous_state = some (state_json previous);
  new_state = some (state_json next);
  metadata = none;
}

-- The event of an emergency stop.
abbrev pub announce : ℕ → KillState → String → String → Session → Session
announce now emergency_stop reason actor s = emit now (stop_event now reason actor) s
announce now healthy reason actor s = s
announce now warning reason actor s = s
announce now trading_paused reason actor s = s
announce now reconciliation_required reason actor s = s

-- With a valid state.
unfoldable pub change_state : Env → ℕ → KillState → String → String → Session → RiskState × Session
unfolding get_state change_entry stop_event
change_state env now k reason actor s =
    let (previous, s1) = get_state s in
    let next : RiskState = record { state = k; reason = some reason } in
    let s2 = announce now k reason actor (set_risk_state next s1) in
    (next, commit (append_audit env now (change_entry actor previous next) s2))

unfoldable pub set_state : Env → ℕ → String → String → String → Session → Result RiskState × Session
set_state env now name reason actor s = elim (find_state name valid_states) [
  | none ↦ (raise (value_error "Invalid kill-switch state"), s)
  | some k ↦ (let (r, s') = change_state env now k reason actor s in (ok r, s'))
]
