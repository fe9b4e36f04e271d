-- ===== src/Campaigns.antt =====
-- backend/app/services/campaigns.py: the state machine of validation campaigns.
pub mod Passed
pub mod Activation
pub mod Single
pub mod Create
pub mod Kept
pub mod Reach
pub mod Restart
pub mod Restarted
use dse_auto.Common.{
  ℕ, Bool, true, false, not, ◌&&◌, Option, none, some, List, [], ◌∷◌, String, str_eq, if◌then◌else◌,
  Result, ok, raise, value_error, any, map, length, ltb, ◌==◌, is_none,
}
use dse_auto.Common.Keys.{Json, arr, dict, num, str, items_of}
use dse_auto.Common.Text.{Text, strip}
use dse_auto.Common.Single.{put_row}
use dse_auto.Env.{Env}
use dse_auto.Audit.{Entry}
use dse_auto.Broker.Submit.{text_json}
use dse_auto.Governance.{
  CampaignState, configured, awaiting_data, ready, active, paused, degraded,
  reconciliation_required, completed, invalidated, archived_campaign, RuleStatus, assumed,
  partially_verified, verified, deprecated, MarketRuleSet, LifecycleState, draft, research,
  paper_candidate, paper_active, suspended, rejected, archived, StrategyRegistration, EvidenceClass,
  synthetic, imported, real_market, ValidationCampaign, GovernanceTables, GovernanceDb, committed,
  audited, find_rule_set,
}
use dse_auto.Governance.Strategy.{strategy_by_reference, points_json}

abbrev pub campaign_state_name : CampaignState → String
campaign_state_name configured = "configured"
campaign_state_name awaiting_data = "awaiting_data"
campaign_state_name ready = "ready"
campaign_state_name active = "active"
campaign_state_name paused = "paused"
campaign_state_name degraded = "degraded"
campaign_state_name reconciliation_required = "reconciliation_required"
campaign_state_name completed = "completed"
campaign_state_name invalidated = "invalidated"
campaign_state_name archived_campaign = "archived"

-- CAMPAIGN_STATES
abbrev pub campaign_states : List CampaignState
campaign_states =
    configured ∷ awaiting_data ∷ ready ∷ active ∷ paused ∷ degraded ∷ reconciliation_required
    ∷ completed ∷ invalidated ∷ archived_campaign ∷ []

abbrev pub find_campaign_state : String → List CampaignState → Option CampaignState
find_campaign_state name [] = none
find_campaign_state name (k ∷ ks) =
    if str_eq (campaign_state_name k) name then some k else find_campaign_state name ks

-- CONTROLLING_STATES
abbrev pub is_controlling : CampaignState → Bool
is_controlling active = true
is_controlling paused = true
is_controlling degraded = true
is_controlling reconciliation_required = true
is_controlling configured = false
is_controlling awaiting_data = false
is_controlling ready = false
is_controlling completed = false
is_controlling invalidated = false
is_controlling archived_campaign = false

-- TRANSITIONS
abbrev pub campaign_targets : CampaignState → List CampaignState
campaign_targets configured = awaiting_data ∷ ready ∷ active ∷ invalidated ∷ archived_campaign ∷ []
campaign_targets awaiting_data = ready ∷ invalidated ∷ archived_campaign ∷ []
campaign_targets ready = active ∷ awaiting_data ∷ invalidated ∷ archived_campaign ∷ []
campaign_targets active = paused ∷ degraded ∷ reconciliation_required ∷ completed ∷ invalidated ∷ []
campaign_targets paused = active ∷ reconciliation_required ∷ completed ∷ invalidated ∷ []
campaign_targets degraded = active ∷ paused ∷ reconciliation_required ∷ invalidated ∷ []
campaign_targets reconciliation_required = active ∷ invalidated ∷ []
campaign_targets completed = archived_campaign ∷ []
campaign_targets invalidated = archived_campaign ∷ []
campaign_targets archived_campaign = []

abbrev pub campaign_may_move : CampaignState → CampaignState → Bool
campaign_may_move from target =
    any (λ k. str_eq (campaign_state_name target) (campaign_state_name k)) (campaign_targets from)

abbrev pub is_activation : CampaignState → Bool
is_activation active = true
is_activation configured = false
is_activation awaiting_data = false
is_activation ready = false
is_activation paused = false
is_activation degraded = false
is_activation reconciliation_required = false
is_activation completed = false
is_activation invalidated = false
is_activation archived_campaign = false

abbrev pub is_ready : CampaignState → Bool
is_ready ready = true
is_ready configured = false
is_ready awaiting_data = false
is_ready active = false
is_ready paused = false
is_ready degraded = false
is_ready reconciliation_required = false
is_ready completed = false
is_ready invalidated = false
is_ready archived_campaign = false

abbrev pub is_real_market : EvidenceClass → Bool
is_real_market real_market = true
is_real_market synthetic = false
is_real_market imported = false

-- The query for another campaign that controls the account.
abbrev pub is_rival_campaign : ValidationCampaign → ValidationCampaign → Bool
is_rival_campaign campaign other =
    other.account_id == campaign.account_id
    && not (other.id == campaign.id)
    && is_controlling other.state

abbrev pub is_paper_active : LifecycleState → Bool
is_paper_active paper_active = true
is_paper_active draft = false
is_paper_active research = false
is_paper_active paper_candidate = false
is_paper_active suspended = false
is_paper_active rejected = false
is_paper_active archived = false

abbrev pub is_governed : Option StrategyRegistration → Bool
is_governed none = false
is_governed (some r) = is_paper_active r.lifecycle_state

-- `_governance_ready`: the references that have not passed
unfoldable pub governance_failures : List StrategyRegistration → List Text → List Text
governance_failures rs [] = []
governance_failures rs (reference ∷ rest) =
    let failures = governance_failures rs rest in
    if is_governed (strategy_by_reference reference rs) then failures else reference ∷ failures

abbrev pub is_deprecated : RuleStatus → Bool
is_deprecated deprecated = true
is_deprecated assumed = false
is_deprecated partially_verified = false
is_deprecated verified = false

-- rule_set is None or rule_set.verification_status == "deprecated"
abbrev pub is_unusable : Option MarketRuleSet → Bool
is_unusable none = true
is_unusable (some r) = is_deprecated r.verification_status

abbrev pub is_empty {ℓ} : {A : Type ℓ} → List A → Bool
is_empty [] = true
is_empty (x ∷ xs) = false

-- The tests of an activation.
unfoldable pub check_activation : ValidationCampaign → GovernanceTables → Result (Unit {0})
unfolding governance_failures
check_activation campaign t =
    if is_real_market campaign.evidence_class && not (is_ready campaign.state)
    then raise (value_error "Real-market campaign must pass through ready before activation")
    else if any (is_rival_campaign campaign) t.campaigns
    then raise (value_error "Paper account is controlled by campaign")
    else if not (is_empty (governance_failures t.strategies campaign.approved_strategies))
    then raise (value_error "Strategies have not passed governance")
    else if is_unusable (find_rule_set campaign.active_rule_set_id t.rule_sets)
    then raise (value_error "Campaign rule-set version is unavailable or deprecated")
    else ok tt

abbrev pub put_campaign : ValidationCampaign → List ValidationCampaign → List ValidationCampaign
put_campaign campaign cs = put_row (λ c. c.id) campaign cs

abbrev pub set_campaigns : List ValidationCampaign → GovernanceTables → GovernanceTables
set_campaigns cs t = record {
  rule_sets = t.rule_sets;
  fee_profiles = t.fee_profiles;
  strategies = t.strategies;
  campaigns = cs;
  days = t.days;
  core = t.core;
}

abbrev pub campaign_moved : CampaignState → ValidationCampaign → ValidationCampaign
campaign_moved target campaign = record campaign { state = target }

abbrev pub state_changed_entry : ValidationCampaign → CampaignState → String → String → Entry
state_changed_entry campaign target reason actor = record {
  actor = actor;
  event_type = "campaign.state_changed";
  entity_type = "validation_campaign";
  entity_id = some (num campaign.id ∷ []);
  previous_state = some (dict (("state", text_json (campaign_state_name campaign.state)) ∷ []));
  new_state = some (
      dict (("state", text_json (campaign_state_name target)) ∷ ("reason", text_json reason) ∷ []));
  metadata = some (
      dict (
        ("rule_set_id", str (num campaign.active_rule_set_id ∷ []))
        ∷ ("fee_profile_id", str (num campaign.active_fee_profile_id ∷ []))
        ∷ ("strategies", arr (items_of (map points_json campaign.approved_strategies)))
        ∷ []));
}

unfoldable pub write_campaign_move :
    Env
    → ℕ
    → ValidationCampaign
    → CampaignState
    → String
    → String
    → GovernanceTables
    → GovernanceTables
write_campaign_move env now campaign target reason actor t =
    audited env now (state_changed_entry campaign target reason actor)
      (set_campaigns (put_campaign (campaign_moved target campaign) t.campaigns) t)

-- if target_state == "active": the tests
abbrev pub check_move : ValidationCampaign → CampaignState → GovernanceTables → Result (Unit {0})
check_move campaign target t =
    let checked = check_activation campaign t in if is_activation target then checked else ok tt

-- After the tests.
abbrev pub move_checked :
    Env
    → ℕ
    → ValidationCampaign
    → CampaignState
    → String
    → String
    → GovernanceDb
    → Result (Unit {0})
    → Result ValidationCampaign × GovernanceDb
move_checked env now campaign target reason actor db (raise e) = (raise e, db)
move_checked env now campaign target reason actor db (ok _) = (
  ok (campaign_moved target campaign),
  committed (write_campaign_move env now campaign target reason actor db.work),
)

unfoldable pub move_campaign :
    Env
    → ℕ
    → ValidationCampaign
    → CampaignState
    → String
    → String
    → GovernanceDb
    → Result ValidationCampaign × GovernanceDb
unfolding write_campaign_move check_activation
move_campaign env now campaign target reason actor db =
    let moved =
      move_checked env now campaign target reason actor db (check_move campaign target db.work) in
    if not (campaign_may_move campaign.state target)
    then (raise (value_error "Invalid campaign transition"), db)
    else moved

abbrev pub move_to :
    Env
    → ℕ
    → ValidationCampaign
    → String
    → String
    → GovernanceDb
    → Option CampaignState
    → Result ValidationCampaign × GovernanceDb
move_to env now campaign reason actor db none =
    (raise (value_error "Invalid campaign transition"), db)
move_to env now campaign reason actor db (some target) =
    move_campaign env now campaign target reason actor db

unfoldable pub transition_campaign :
    Env
    → ℕ
    → ValidationCampaign
    → String
    → String
    → String
    → GovernanceDb
    → Result ValidationCampaign × GovernanceDb
unfolding move_campaign
transition_campaign env now campaign target_state reason actor db =
    move_to env now campaign reason actor db (find_campaign_state target_state campaign_states)

abbrev pub rule_set_entry : ValidationCampaign → ℕ → Text → Entry
rule_set_entry campaign rule_set_id operator_approval = record {
  actor = "operator";
  event_type = "campaign.rule_set_changed";
  entity_type = "validation_campaign";
  entity_id = some (num campaign.id ∷ []);
  previous_state = some (dict (("rule_set_id", str (num campaign.active_rule_set_id ∷ [])) ∷ []));
  new_state = some (dict (("rule_set_id", str (num rule_set_id ∷ [])) ∷ []));
  metadata = some (dict (("operator_approval", points_json (strip operator_approval)) ∷ []));
}

abbrev pub with_rule_set : ℕ → ValidationCampaign → ValidationCampaign
with_rule_set rule_set_id campaign = record campaign { active_rule_set_id = rule_set_id }

unfoldable pub write_rule_change :
    Env → ℕ → ValidationCampaign → ℕ → Text → GovernanceTables → GovernanceTables
write_rule_change env now campaign rule_set_id operator_approval t =
    audited env now (rule_set_entry campaign rule_set_id operator_approval)
      (set_campaigns (put_campaign (with_rule_set rule_set_id campaign) t.campaigns) t)

unfoldable pub change_campaign_rule_set :
    Env
    → ℕ
    → ValidationCampaign
    → ℕ
    → Text
    → GovernanceDb
    → Result ValidationCampaign × GovernanceDb
unfolding write_rule_change
change_campaign_rule_set env now campaign rule_set_id operator_approval db =
    let db' =
      committed (write_rule_change env now campaign rule_set_id operator_approval db.work) in
    if is_controlling campaign.state
    then (raise (value_error "Rule-set version is locked for a controlling campaign"), db)
    else if is_unusable (find_rule_set rule_set_id db.work.rule_sets)
    then (raise (value_error "Replacement rule set is unavailable or deprecated"), db)
    else if ltb (length (strip operator_approval)) 12
    then (raise (value_error "Rule-set change requires explicit operator approval"), db)
    else (ok (with_rule_set rule_set_id campaign), db')
