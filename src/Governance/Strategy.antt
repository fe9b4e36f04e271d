-- ===== src/Governance/Strategy.antt =====
-- `register_strategy`, `promote_strategy`, `evaluate_strategy_suspension` and
-- `strategy_by_reference`. `int` of a text is the parameter `int_text` of the environment.
use dse_auto.Common.{
  ℕ, Bool, true, false, not, ◌&&◌, ◌||◌, Option, none, some, List, [], ◌∷◌, ◌++◌, String, str_eq,
  ltb, leb, ◌==◌, length, any, if◌then◌else◌, Result, ok, raise, value_error, key_error,
  other_error,
}
use dse_auto.Common.Keys.{Json, null, str, int, amount, bool, arr, obj, num, dict, points}
use dse_auto.Common.Int.{pos_part}
use dse_auto.Common.{◌/◌}
use dse_auto.Common.Text.{Text, strip, text_eq}
use dse_auto.Env.{Env}
use dse_auto.Broker.Submit.{text_json}
use dse_auto.Governance.{
  LifecycleState, draft, research, paper_candidate, paper_active, suspended, rejected, archived,
  StrategyRegistration, GovernanceTables, GovernanceDb, committed, fresh, take_id, audited, get_key,
  put_strategy, set_strategies,
}
use dse_auto.Governance.Rules.{has_keys, governance_entry}

abbrev pub lifecycle_name : LifecycleState → String
lifecycle_name draft = "draft"
lifecycle_name research = "research"
lifecycle_name paper_candidate = "paper_candidate"
lifecycle_name paper_active = "paper_active"
lifecycle_name suspended = "suspended"
lifecycle_name rejected = "rejected"
lifecycle_name archived = "archived"

-- STRATEGY_STATES
abbrev pub lifecycle_states : List LifecycleState
lifecycle_states =
    draft ∷ research ∷ paper_candidate ∷ paper_active ∷ suspended ∷ rejected ∷ archived ∷ []

abbrev pub find_lifecycle : String → List LifecycleState → Option LifecycleState
find_lifecycle name [] = none
find_lifecycle name (k ∷ ks) =
    if str_eq (lifecycle_name k) name then some k else find_lifecycle name ks

-- PROMOTION_EVIDENCE
abbrev pub promotion_evidence : List String
promotion_evidence =
    "backtest_report" ∷ "walk_forward_report" ∷ "sensitivity_report" ∷ "risk_review" ∷ "sample_size"
    ∷ []

pub record StrategyArgs : Type 0 where
  pub strategy_id : Text
  pub version : Text
  -- a text, and the number of its characters
  pub code_hash : String
  pub code_hash_length : ℕ
  pub parameters : Json
  pub data_requirements : Json
  pub minimum_sample_size : ℕ
  pub evidence : List (String × Json)

abbrev pub registration_of : ℕ → StrategyArgs → StrategyRegistration
registration_of id a = record {
  id = id;
  strategy_id = a.strategy_id;
  version = a.version;
  lifecycle_state = draft;
  code_hash = a.code_hash;
  parameters = a.parameters;
  data_requirements = a.data_requirements;
  evidence = a.evidence;
  minimum_sample_size = a.minimum_sample_size;
  operator_approval = [];
  suspension_reason = none;
}

abbrev pub points_json : Text → Json
points_json t = str (points t ∷ [])

unfoldable pub register_strategy :
    Env → ℕ → StrategyArgs → GovernanceDb → Result StrategyRegistration × GovernanceDb
register_strategy env now a db =
    let r = registration_of (fresh db.work) a in
    let db' = committed (
      audited env now
        (governance_entry "operator" "strategy.registered" "strategy" r.id (
          dict (
            ("strategy_id", points_json a.strategy_id)
            ∷ ("version", points_json a.version)
            ∷ ("code_hash", text_json a.code_hash)
            ∷ [])))
        (take_id (set_strategies (db.work.strategies ++ r ∷ []) db.work))) in
    if not (a.code_hash_length == 64) || a.minimum_sample_size == 0
    then (raise (value_error "Strategy requires a SHA-256 code hash and positive sample size"), db)
    else (ok r, db')

-- target_state in {"paper_candidate", "paper_active"}
abbrev pub is_paper : LifecycleState → Bool
is_paper paper_candidate = true
is_paper paper_active = true
is_paper draft = false
is_paper research = false
is_paper suspended = false
is_paper rejected = false
is_paper archived = false

-- value is False
abbrev pub is_false : Option Json → Bool
is_false none = false
is_false (some null) = false
is_false (some (str k)) = false
is_false (some (int n)) = false
is_false (some (amount z)) = false
is_false (some (bool b)) = not b
is_false (some (arr l)) = false
is_false (some (obj fs)) = false

-- int(evidence["sample_size"]); a negative number counts as 0, which no minimum admits either
abbrev pub int_result : Option ℕ → Result ℕ
int_result none = raise (value_error "invalid literal for int")
int_result (some n) = ok n

abbrev pub sample_size : Env → Option Json → Result ℕ
sample_size env none = raise (key_error "sample_size")
sample_size env (some null) = raise other_error
sample_size env (some (str k)) = int_result (env.int_text k)
sample_size env (some (int n)) = ok n
sample_size env (some (amount z)) = ok (pos_part z / 10000)
sample_size env (some (bool b)) = ok (if b then 1 else 0)
sample_size env (some (arr l)) = raise other_error
sample_size env (some (obj fs)) = raise other_error

-- The tests of the sample size and of the operator's approval.
abbrev pub check_sample : ℕ → Text → Result ℕ → Result (Unit {0})
check_sample minimum approval (raise e) = raise e
check_sample minimum approval (ok n) =
    if ltb n minimum
    then raise (value_error "Strategy sample size is below the governance minimum")
    else if ltb (length (strip approval)) 12
    then raise (value_error "Operator approval is required; promotion is never automatic")
    else ok tt

-- The tests of a promotion to the paper states; `ok` where they all pass.
unfoldable pub check_evidence : Env → StrategyRegistration → Text → Result (Unit {0})
check_evidence env r approval =
    if is_false (get_key "promotion_authorized" r.evidence)
    then raise (value_error "Strategy promotion is explicitly not authorized")
    else if not (has_keys promotion_evidence r.evidence)
    then raise (value_error "Strategy promotion evidence missing")
    else check_sample r.minimum_sample_size approval
        (sample_size env (get_key "sample_size" r.evidence))

-- The table `allowed`.
abbrev pub allowed : LifecycleState → List LifecycleState
allowed draft = research ∷ rejected ∷ archived ∷ []
allowed research = paper_candidate ∷ rejected ∷ archived ∷ []
allowed paper_candidate = paper_active ∷ suspended ∷ rejected ∷ archived ∷ []
allowed paper_active = suspended ∷ archived ∷ []
allowed suspended = research ∷ rejected ∷ archived ∷ []
allowed rejected = archived ∷ []
allowed archived = []

abbrev pub may_move : LifecycleState → LifecycleState → Bool
may_move from target = any (λ k. str_eq (lifecycle_name target) (lifecycle_name k)) (allowed from)

-- new.strip() or old
abbrev pub approval_or : Text → Text → Text
approval_or [] old = old
approval_or (c ∷ cs) old = c ∷ cs

abbrev pub promoted : LifecycleState → Text → StrategyRegistration → StrategyRegistration
promoted target approval r = record r {
  lifecycle_state = target;
  operator_approval = approval_or (strip approval) r.operator_approval;
}

abbrev pub state_dict : LifecycleState → Json
state_dict k = dict (("state", text_json (lifecycle_name k)) ∷ [])

unfoldable pub write_promotion :
    Env → ℕ → StrategyRegistration → LifecycleState → Text → GovernanceTables → GovernanceTables
write_promotion env now r target approval t =
    audited env now
      (record {
        actor = "operator";
        event_type = "strategy.lifecycle_changed";
        entity_type = "strategy";
        entity_id = some (num r.id ∷ []);
        previous_state = some (state_dict r.lifecycle_state);
        new_state = some (state_dict target);
        metadata = none;
      })
      (set_strategies (put_strategy (promoted target approval r) t.strategies) t)

-- if target_state in …: the tests
abbrev pub check_target : Env → StrategyRegistration → LifecycleState → Text → Result (Unit {0})
check_target env r target approval =
    let checked = check_evidence env r approval in if is_paper target then checked else ok tt

-- After the tests.
abbrev pub promote_checked :
    Env
    → ℕ
    → StrategyRegistration
    → LifecycleState
    → Text
    → GovernanceDb
    → Result (Unit {0})
    → Result StrategyRegistration × GovernanceDb
promote_checked env now r target approval db (raise e) = (raise e, db)
promote_checked env now r target approval db (ok _) =
    let db' = committed (write_promotion env now r target approval db.work) in
    if may_move r.lifecycle_state target
    then (ok (promoted target approval r), db')
    else (raise (value_error "Invalid strategy transition"), db)

unfoldable pub promote_to :
    Env
    → ℕ
    → StrategyRegistration
    → LifecycleState
    → Text
    → GovernanceDb
    → Result StrategyRegistration × GovernanceDb
unfolding write_promotion check_evidence
promote_to env now r target approval db =
    promote_checked env now r target approval db (check_target env r target approval)

unfoldable pub promote_strategy :
    Env
    → ℕ
    → StrategyRegistration
    → String
    → Text
    → GovernanceDb
    → Result StrategyRegistration × GovernanceDb
unfolding promote_to
promote_strategy env now r target_state approval db =
    elim (find_lifecycle target_state lifecycle_states) [
      | none ↦ (raise (value_error "Unknown strategy lifecycle state"), db)
      | some target ↦ promote_to env now r target approval db
    ]

-- The observations, with the defaults of the missing ones; ratios are in ten-thousandths.
pub record Observations : Type 0 where
  pub drawdown : ℕ
  pub max_drawdown : ℕ
  pub data_failures : ℕ
  pub turnover : ℕ
  pub max_turnover : ℕ
  pub risk_rejections : ℕ
  pub behavior_divergence : Bool
  pub insufficient_liquidity : Bool
  pub implementation_hash : Option String

abbrev pub no_observations : Observations
no_observations = record {
  drawdown = 0;
  max_drawdown = 1500;
  data_failures = 0;
  turnover = 0;
  max_turnover = 50000;
  risk_rejections = 0;
  behavior_divergence = false;
  insufficient_liquidity = false;
  implementation_hash = none;
}

-- observations.get("implementation_hash", registration.code_hash) != registration.code_hash
abbrev pub hash_changed : Option String → String → Bool
hash_changed none code_hash = false
hash_changed (some h) code_hash = not (str_eq h code_hash)

abbrev pub triggers : Observations → StrategyRegistration → List (Bool × String)
triggers o r =
    (ltb o.max_drawdown o.drawdown, "excessive_drawdown")
    ∷ (leb 3 o.data_failures, "repeated_data_failures")
    ∷ (ltb o.max_turnover o.turnover, "abnormal_turnover")
    ∷ (leb 3 o.risk_rejections, "repeated_risk_rejection")
    ∷ (o.behavior_divergence, "behavior_divergence")
    ∷ (o.insufficient_liquidity, "insufficient_liquidity")
    ∷ (hash_changed o.implementation_hash r.code_hash, "implementation_hash_change")
    ∷ []

abbrev pub first_trigger : List (Bool × String) → Option String
first_trigger [] = none
first_trigger ((b, name) ∷ rest) = if b then some name else first_trigger rest

abbrev pub suspend : String → StrategyRegistration → StrategyRegistration
suspend reason r = record r { lifecycle_state = suspended; suspension_reason = some reason }

unfoldable pub write_suspension :
    Env → ℕ → StrategyRegistration → String → GovernanceTables → GovernanceTables
write_suspension env now r reason t =
    audited env now
      (governance_entry "governance" "strategy.auto_suspended" "strategy" r.id
        (dict (("state", text_json "suspended") ∷ ("reason", text_json reason) ∷ [])))
      (set_strategies (put_strategy (suspend reason r) t.strategies) t)

unfoldable pub evaluate_strategy_suspension :
    Env → ℕ → StrategyRegistration → Observations → GovernanceDb → Option String × GovernanceDb
unfolding write_suspension
evaluate_strategy_suspension env now r o db = elim (first_trigger (triggers o r)) [
  | none ↦ (none, db)
  | some reason ↦ (
    some reason,
    (if is_paper r.lifecycle_state
        then committed (write_suspension env now r reason db.work)
        else db),
  )
]

-- The code point of "@".
abbrev pub at_sign : ℕ
at_sign = 64

-- reference.partition("@"), or `none` where there is no separator
abbrev pub partition : Text → Option (Text × Text)
partition [] = none
partition (c ∷ cs) =
    let rest = partition cs in
    if c == at_sign
    then some ([], cs)
    else elim rest [ none ↦ none | some (before, after) ↦ some (c ∷ before, after) ]

abbrev pub find_strategy : Text → Text → List StrategyRegistration → Option StrategyRegistration
find_strategy id version [] = none
find_strategy id version (r ∷ rs) =
    if text_eq r.strategy_id id && text_eq r.version version
    then some r
    else find_strategy id version rs

unfoldable pub strategy_by_reference :
    Text → List StrategyRegistration → Option StrategyRegistration
strategy_by_reference reference rs = elim (partition reference) [
  | none ↦ none
  | some (strategy_id, version) ↦ find_strategy strategy_id version rs
]
