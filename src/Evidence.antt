-- ===== src/Evidence.antt =====
-- backend/app/services/evidence_review.py: the reviews of completed campaign days. The digest of a
-- day's evidence, a file or its summary, is a parameter.
pub mod Review
use dse_auto.Common.{
  ℕ, Bool, true, false, not, ◌&&◌, ◌||◌, Option, none, some, List, [], ◌∷◌, ◌++◌, String, str_eq,
  ◌==◌, any, all, map, if◌then◌else◌, Result, ok, raise, value_error, permission_error,
}
use dse_auto.Common.Keys.{Json, bool, str, num, arr, dict, items_of, opt_json}
use dse_auto.Common.Single.{put_row}
use dse_auto.Env.{Env}
use dse_auto.Audit.{Entry}
use dse_auto.Broker.Submit.{text_json}
use dse_auto.Governance.{
  DayState, planned, market_open, day_reconciliation_required, backup_failed, day_completed, missed,
  CampaignDay, EvidenceClass, real_market, GovernanceTables, GovernanceDb, committed, fresh,
  take_id, audited,
}
use dse_auto.Campaigns.{is_empty, is_real_market}

-- EvidenceReview.state
pub data ReviewState : Type 0 where
  pending_review reviewed accepted concerns_found rejected requires_rerun : ReviewState

pub record EvidenceReview : Type 0 where
  pub id : ℕ
  pub campaign_day_id : ℕ
  pub campaign_id : ℕ
  pub session_id : Option ℕ
  pub state : ReviewState
  pub reviewer : Option String
  pub reviewer_role : Option String
  pub reviewed_at : Option ℕ
  pub evidence_pack_hash : String
  pub data_quality_verdict : Option String
  pub strategy_behavior_verdict : Option String
  pub risk_engine_verdict : Option String
  pub execution_model_verdict : Option String
  pub incidents_reviewed : List String
  pub comments : String
  pub approval_decision : Option String

-- The table of the reviews beside those of the campaigns.
pub record ReviewDb : Type 0 where
  pub reviews : List EvidenceReview
  pub durable_reviews : List EvidenceReview
  pub governance : GovernanceDb

-- db.commit() of tables
abbrev pub stored : List EvidenceReview → GovernanceTables → ReviewDb
stored rs t = record { reviews = rs; durable_reviews = rs; governance = committed t }

abbrev pub review_state_name : ReviewState → String
review_state_name pending_review = "pending_review"
review_state_name reviewed = "reviewed"
review_state_name accepted = "accepted"
review_state_name concerns_found = "concerns_found"
review_state_name rejected = "rejected"
review_state_name requires_rerun = "requires_rerun"

-- REVIEW_STATES - {"pending_review"}
abbrev pub review_targets : List ReviewState
review_targets = reviewed ∷ accepted ∷ concerns_found ∷ rejected ∷ requires_rerun ∷ []

abbrev pub find_review_state : String → List ReviewState → Option ReviewState
find_review_state name [] = none
find_review_state name (k ∷ ks) =
    if str_eq (review_state_name k) name then some k else find_review_state name ks

-- FINAL_REVIEW_STATES
abbrev pub is_final : ReviewState → Bool
is_final accepted = true
is_final concerns_found = true
is_final rejected = true
is_final requires_rerun = true
is_final pending_review = false
is_final reviewed = false

abbrev pub is_accepted : ReviewState → Bool
is_accepted accepted = true
is_accepted pending_review = false
is_accepted reviewed = false
is_accepted concerns_found = false
is_accepted rejected = false
is_accepted requires_rerun = false

abbrev pub is_completed : DayState → Bool
is_completed day_completed = true
is_completed planned = false
is_completed market_open = false
is_completed day_reconciliation_required = false
is_completed backup_failed = false
is_completed missed = false

abbrev pub pending : ℕ → CampaignDay → String → EvidenceReview
pending id day hash = record {
  id = id;
  campaign_day_id = day.id;
  campaign_id = day.campaign_id;
  session_id = day.session_id;
  state = pending_review;
  reviewer = none;
  reviewer_role = none;
  reviewed_at = none;
  evidence_pack_hash = hash;
  data_quality_verdict = none;
  strategy_behavior_verdict = none;
  risk_engine_verdict = none;
  execution_model_verdict = none;
  incidents_reviewed = [];
  comments = "";
  approval_decision = none;
}

abbrev pub find_day_review : ℕ → List EvidenceReview → Option EvidenceReview
find_day_review day_id [] = none
find_day_review day_id (r ∷ rs) =
    if r.campaign_day_id == day_id then some r else find_day_review day_id rs

-- With the review that the day already has, if any.
abbrev pub queue_new :
    (CampaignDay → String)
    → CampaignDay
    → ReviewDb
    → Option EvidenceReview
    → Result EvidenceReview × ReviewDb
queue_new evidence_hash day db (some existing) = (ok existing, db)
queue_new evidence_hash day db none =
    let r = pending (fresh db.governance.work) day (evidence_hash day) in
    (ok r, stored (db.reviews ++ r ∷ []) (take_id db.governance.work))

unfoldable pub queue_campaign_day_review :
    (CampaignDay → String) → CampaignDay → ReviewDb → Result EvidenceReview × ReviewDb
queue_campaign_day_review evidence_hash day db =
    let queued = queue_new evidence_hash day db (find_day_review day.id db.reviews) in
    if not day.eod_completed || not (is_completed day.state)
    then (raise (value_error "Only completed campaign days can enter evidence review"), db)
    else queued

-- The arguments of `submit_review`; a missing list or dictionary is empty.
pub record ReviewArgs : Type 0 where
  pub reviewer : String
  pub reviewer_role : String
  pub target_state : String
  pub data_quality_verdict : String
  pub strategy_behavior_verdict : String
  pub risk_engine_verdict : String
  pub execution_model_verdict : String
  pub incidents_reviewed : List String
  pub comments : String
  pub approval_decision : String
  pub review_checklist : List (String × Bool)
  pub concerns : List String
  pub linked_evidence_hashes : List String

abbrev pub is_verdict : String → Bool
is_verdict v = str_eq v "pass" || str_eq v "concern" || str_eq v "fail" || str_eq v "not_applicable"

abbrev pub verdicts : ReviewArgs → List String
verdicts a =
    a.data_quality_verdict ∷ a.strategy_behavior_verdict ∷ a.risk_engine_verdict
    ∷ a.execution_model_verdict ∷ []

abbrev pub find_day : ℕ → List CampaignDay → Option CampaignDay
find_day id [] = none
find_day id (d ∷ ds) = if d.id == id then some d else find_day id ds

-- day and day.evidence_class == "real_market"
abbrev pub is_real_day : Option CampaignDay → Bool
is_real_day none = false
is_real_day (some d) = is_real_market d.evidence_class

-- What an accepted review of a real-market day lacks.
abbrev pub lacks_evidence : EvidenceReview → ReviewArgs → Bool
lacks_evidence r a =
    is_empty a.review_checklist
    || is_empty a.linked_evidence_hashes
    || not (any (str_eq r.evidence_pack_hash) a.linked_evidence_hashes)

abbrev pub decided : ℕ → ReviewState → ReviewArgs → EvidenceReview → EvidenceReview
decided now target a r = record r {
  state = target;
  reviewer = some a.reviewer;
  reviewer_role = some a.reviewer_role;
  reviewed_at = some now;
  data_quality_verdict = some a.data_quality_verdict;
  strategy_behavior_verdict = some a.strategy_behavior_verdict;
  risk_engine_verdict = some a.risk_engine_verdict;
  execution_model_verdict = some a.execution_model_verdict;
  incidents_reviewed = a.incidents_reviewed;
  comments = a.comments;
  approval_decision = some a.approval_decision;
}

abbrev pub texts_json : List String → Json
texts_json ts = arr (items_of (map text_json ts))

abbrev pub review_entry : EvidenceReview → ReviewState → ReviewArgs → Entry
review_entry r target a = record {
  actor = a.reviewer;
  event_type = "evidence.reviewed";
  entity_type = "evidence_review";
  entity_id = some (num r.id ∷ []);
  previous_state = some (dict (("state", text_json (review_state_name r.state)) ∷ []));
  new_state = some (
      dict (
        ("state", text_json (review_state_name target))
        ∷ ("campaign_id", str (num r.campaign_id ∷ []))
        ∷ ("session_id", opt_json (λ id. str (num id ∷ [])) r.session_id)
        ∷ ("evidence_pack_hash", text_json r.evidence_pack_hash)
        ∷ ("approval_decision", text_json a.approval_decision)
        ∷ []));
  metadata = some (
      dict (
        ("reviewer_role", text_json a.reviewer_role)
        ∷ ("incidents_reviewed", texts_json a.incidents_reviewed)
        ∷ ("review_checklist", dict (map (λ (k, b). (k, bool b)) a.review_checklist))
        ∷ ("concerns", texts_json a.concerns)
        ∷ ("linked_evidence_hashes", texts_json a.linked_evidence_hashes)
        ∷ []));
}

unfoldable pub write_review :
    Env
    → ℕ
    → EvidenceReview
    → ReviewState
    → ReviewArgs
    → ReviewDb
    → Result EvidenceReview × ReviewDb
write_review env now r target a db = (
  ok (decided now target a r),
  stored (put_row (λ p. p.id) (decided now target a r) db.reviews)
      (audited env now (review_entry r target a) db.governance.work),
)

-- With a known target.
abbrev pub submit_to :
    Env
    → ℕ
    → EvidenceReview
    → ReviewArgs
    → ReviewDb
    → Option ReviewState
    → Result EvidenceReview × ReviewDb
submit_to env now r a db none = (raise (value_error "Invalid evidence review target state"), db)
submit_to env now r a db (some target) =
    let written = write_review env now r target a db in
    if is_final r.state
    then (raise (value_error "Final evidence reviews are immutable; create a rerun day"), db)
    else if not (all is_verdict (verdicts a))
    then (raise (value_error "Review verdict must be pass, concern, fail, or not_applicable"), db)
    else if not (all (λ (k, b). b) a.review_checklist)
    then (raise (value_error "Every mandatory daily-review checklist item must be confirmed"), db)
    else if is_accepted target
        && is_real_day (find_day r.campaign_day_id db.governance.work.days)
        && lacks_evidence r a
    then (
      raise (value_error "Accepted review requires a complete checklist and linked evidence hash"),
      db,
    )
    else written

unfoldable pub submit_review :
    Env → ℕ → EvidenceReview → ReviewArgs → ReviewDb → Result EvidenceReview × ReviewDb
unfolding write_review
submit_review env now r a db =
    let submitted = submit_to env now r a db (find_review_state a.target_state review_targets) in
    if not (str_eq a.reviewer_role "reviewer" || str_eq a.reviewer_role "operator")
    then (raise (permission_error "Evidence decisions require reviewer or operator role"), db)
    else submitted
