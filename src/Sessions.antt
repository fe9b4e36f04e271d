-- ===== src/Sessions.antt =====
-- backend/app/services/paper_sessions.py: the state machine of paper sessions.
pub mod Create
pub mod Single
pub mod Final
use dse_auto.Common.{
  ℕ, ◌+◌, ◌-◌, ◌*◌, Bool, true, false, not, ◌&&◌, Option, none, some, List, [], ◌∷◌, ◌++◌, String,
  ltb, ◌==◌, if◌then◌else◌, Result, ok, raise, value_error, any, is_none, map, keep, length, str_eq,
}
use dse_auto.Common.Int.{ℤ}
use dse_auto.Common.Keys.{Key, Json, obj, done, letters, num, dict}
use dse_auto.Common.Single.{put_row}
use dse_auto.Store.{Tables}
use dse_auto.Store.Rows.{opt_lt}
use dse_auto.Env.{Env}
use dse_auto.Audit.{Entry, append_event}
use dse_auto.Broker.Submit.{text_json}

-- PaperSession.state
pub data SessionState : Type 0 where
  configured warming_up running paused degraded : SessionState
  reconciliation_required stopped completed failed : SessionState

pub record PaperSession : Type 0 where
  pub id : ℕ
  pub name : String
  pub account_id : ℕ
  pub state : SessionState
  pub starting_cash : ℤ
  pub approved_universe : List String
  pub strategies : List String
  pub risk_profile : Json
  pub fill_model : String
  pub started_at : Option ℕ
  pub stopped_at : Option ℕ
  pub heartbeat_at : Option ℕ
  pub market_rule_set_id : Option ℕ
  pub fee_profile_id : Option ℕ

pub record PaperSessionRun : Type 0 where
  pub session_id : ℕ
  pub run_type : String
  pub status : SessionState
  pub reason : Option String
  pub metrics : Json
  pub finished_at : Option ℕ

-- The tables of the sessions beside those of the trading core.
pub record SessionTables : Type 0 where
  pub sessions : List PaperSession
  pub runs : List PaperSessionRun
  pub rest : Tables

pub record SessionDb : Type 0 where
  pub work : SessionTables
  pub durable : SessionTables

abbrev pub state_name : SessionState → String
state_name configured = "configured"
state_name warming_up = "warming_up"
state_name running = "running"
state_name paused = "paused"
state_name degraded = "degraded"
state_name reconciliation_required = "reconciliation_required"
state_name stopped = "stopped"
state_name completed = "completed"
state_name failed = "failed"

-- f"paper_session.{target}"
abbrev pub event_name : SessionState → String
event_name configured = "paper_session.configured"
event_name warming_up = "paper_session.warming_up"
event_name running = "paper_session.running"
event_name paused = "paper_session.paused"
event_name degraded = "paper_session.degraded"
event_name reconciliation_required = "paper_session.reconciliation_required"
event_name stopped = "paper_session.stopped"
event_name completed = "paper_session.completed"
event_name failed = "paper_session.failed"

-- ACTIVE_STATES
abbrev pub is_active : SessionState → Bool
is_active warming_up = true
is_active running = true
is_active paused = true
is_active degraded = true
is_active reconciliation_required = true
is_active configured = false
is_active stopped = false
is_active completed = false
is_active failed = false

-- TRANSITIONS
abbrev pub targets : SessionState → List SessionState
targets configured = warming_up ∷ stopped ∷ []
targets warming_up = running ∷ degraded ∷ reconciliation_required ∷ failed ∷ stopped ∷ []
targets running = paused ∷ degraded ∷ reconciliation_required ∷ stopped ∷ completed ∷ []
targets paused = running ∷ stopped ∷ reconciliation_required ∷ []
targets degraded = running ∷ reconciliation_required ∷ stopped ∷ failed ∷ []
targets reconciliation_required = running ∷ stopped ∷ failed ∷ []
targets stopped = []
targets completed = []
targets failed = []

abbrev pub state_eq : SessionState → SessionState → Bool
state_eq a b = str_eq (state_name a) (state_name b)

abbrev pub may_move : SessionState → SessionState → Bool
may_move from target = any (state_eq target) (targets from)

-- Another session that is active on the account.
abbrev pub is_rival : PaperSession → PaperSession → Bool
is_rival session other =
    other.account_id == session.account_id && is_active other.state && not (other.id == session.id)

abbrev pub is_over : SessionState → Bool
is_over stopped = true
is_over completed = true
is_over failed = true
is_over configured = false
is_over warming_up = false
is_over running = false
is_over paused = false
is_over degraded = false
is_over reconciliation_required = false

abbrev pub is_warming : SessionState → Bool
is_warming warming_up = true
is_warming configured = false
is_warming running = false
is_warming paused = false
is_warming degraded = false
is_warming reconciliation_required = false
is_warming stopped = false
is_warming completed = false
is_warming failed = false

-- What a transition writes to the session.
abbrev pub moved : ℕ → SessionState → PaperSession → PaperSession
moved now target session = record session {
  state = target;
  heartbeat_at = some now;
  started_at = if is_warming target then some now else session.started_at;
  stopped_at = if is_over target then some now else session.stopped_at;
}

-- The row with the session's identifier becomes the session.
abbrev pub put_session : PaperSession → List PaperSession → List PaperSession
put_session session ps = put_row (λ p. p.id) session ps

abbrev pub run_row : ℕ → PaperSession → SessionState → String → PaperSessionRun
run_row now session target reason = record {
  session_id = session.id;
  run_type = "state_transition";
  status = target;
  reason = some reason;
  metrics = obj done;
  finished_at = some now;
}

abbrev pub entry_of : PaperSession → SessionState → String → String → Entry
entry_of session target reason actor = record {
  actor = actor;
  event_type = event_name target;
  entity_type = "paper_session";
  entity_id = some (num session.id ∷ []);
  previous_state = some (dict (("state", text_json (state_name session.state)) ∷ []));
  new_state =
      some (dict (("state", text_json (state_name target)) ∷ ("reason", text_json reason) ∷ []));
  metadata = none;
}

-- The tables after the writes of a transition and its audit record, which are committed.
unfoldable pub write_transition :
    Env → ℕ → PaperSession → SessionState → String → String → SessionTables → SessionTables
write_transition env now session target reason actor t = record {
  sessions = put_session (moved now target session) t.sessions;
  runs = t.runs ++ run_row now session target reason ∷ [];
  rest = record t.rest {
    trail = append_event env now (entry_of session target reason actor) t.rest.trail;
  };
}

unfoldable pub transition_session :
    Env
    → ℕ
    → PaperSession
    → SessionState
    → String
    → String
    → SessionDb
    → Result PaperSession × SessionDb
unfolding write_transition
transition_session env now session target reason actor db =
    let t = write_transition env now session target reason actor db.work in
    if not (may_move session.state target)
    then (raise (value_error "Invalid paper-session transition"), db)
    else if is_active target && any (is_rival session) db.work.sessions
    then (raise (value_error "Paper account already used by active session"), db)
    else (ok (moved now target session), record { work = t; durable = t })

unfoldable pub heartbeat : ℕ → PaperSession → Option Json → SessionDb → SessionDb
heartbeat now session metrics db =
    let t : SessionTables = record {
      sessions = put_session (record session { heartbeat_at = some now }) db.work.sessions;
      runs =
          db.work.runs
          ++ (record {
            session_id = session.id;
            run_type = "heartbeat";
            status = session.state;
            reason = none;
            metrics = elim metrics [ none ↦ obj done | some m ↦ m ];
            finished_at = some now;
          }
              ∷ []);
      rest = db.work.rest;
    } in
    record { work = t; durable = t }

abbrev pub is_live : SessionState → Bool
is_live warming_up = true
is_live running = true
is_live configured = false
is_live paused = false
is_live degraded = false
is_live reconciliation_required = false
is_live stopped = false
is_live completed = false
is_live failed = false

abbrev pub is_stale : ℕ → PaperSession → Bool
is_stale cutoff session = is_live session.state && opt_lt session.heartbeat_at cutoff

-- The loop; an error leaves it.
unfoldable pub recover_all : Env → ℕ → List PaperSession → SessionDb → Result (Unit {0}) × SessionDb
recover_all env now [] db = (ok tt, db)
recover_all env now (session ∷ rest) db =
    let (r, db') =
      transition_session env now session reconciliation_required "stale_session_recovered"
        "startup_recovery" db in
    let others = recover_all env now rest db' in elim r [ raise e ↦ (raise e, db') | ok _ ↦ others ]

-- The time `now - stale_after` is 0 where the source has a time before the epoch.
unfoldable pub recover_stale_sessions : Env → ℕ → ℕ → SessionDb → Result ℕ × SessionDb
unfolding recover_all
recover_stale_sessions env now stale_after db =
    let sessions = keep (is_stale (now - stale_after * 1000000)) db.work.sessions in
    let (r, db') = recover_all env now sessions db in
    (elim r [ raise e ↦ raise e | ok _ ↦ ok (length sessions) ], db')
