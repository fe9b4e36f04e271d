-- ===== src/Examples/Reviews.antt =====
-- A review of a real-market day, and the qualification of its campaign.
use dse_auto.Common.{ℕ, refl, true, none, some, [], ◌∷◌}
use dse_auto.Governance.{CampaignDay, day_completed, real_market, GovernanceTables}
use dse_auto.Sessions.{SessionTables}
use dse_auto.Evidence.{
  EvidenceReview, ReviewDb, ReviewArgs, accepted, pending, stored, decided, submit_review,
}
use dse_auto.Evidence.Review.{IsConfirmed, IsRefused, submit_review-accepted}
use dse_auto.Common.Keys.{bool, dict}
use dse_auto.Common.{false}
use dse_auto.Qualification.{
  QualificationTables, QualificationDb, gather, snapshot_of, calculate_qualification,
}
use dse_auto.Qualification.Qualified.{IsQualified, calculate_qualification-IsQualified}
use dse_auto.Examples.Samples.{env0, chain0, tables_with}

abbrev day0 : CampaignDay
day0 = record {
  id = 2;
  campaign_id = 5;
  market_date = 10;
  session_id = none;
  state = day_completed;
  premarket_completed = true;
  eod_completed = true;
  missed_reason = none;
  summary =
      ("audit_valid", bool true)
      ∷ ("reconciliation", dict (("healthy", bool true) ∷ []))
      ∷ ("backup", dict (("successful", bool true) ∷ []))
      ∷ [];
  evidence_path = none;
  started_at = some 1;
  completed_at = some 9;
  evidence_class = real_market;
}

abbrev review0 : EvidenceReview
review0 = pending 3 day0 "pack"

abbrev reviews0 : ReviewDb
reviews0 =
    let core : SessionTables = record {
      sessions = [];
      runs = [];
      rest = tables_with (some chain0) [] [];
    } in
    let t : GovernanceTables = record {
      rule_sets = [];
      fee_profiles = [];
      strategies = [];
      campaigns = [];
      days = day0 ∷ [];
      core = core;
    } in
    stored (review0 ∷ []) t

abbrev acceptance0 : ReviewArgs
acceptance0 = record {
  reviewer = "ana";
  reviewer_role = "reviewer";
  target_state = "accepted";
  data_quality_verdict = "pass";
  strategy_behavior_verdict = "pass";
  risk_engine_verdict = "pass";
  execution_model_verdict = "not_applicable";
  incidents_reviewed = [];
  comments = "";
  approval_decision = "accept";
  review_checklist = ("data", true) ∷ [];
  concerns = [];
  linked_evidence_hashes = "pack" ∷ [];
}

submit_review-accepted_example :
    IsConfirmed review0 acceptance0
    × ((later : ℕ) (again : ReviewArgs) (db : ReviewDb)
        → IsRefused db
            (submit_review env0 later (decided 12 accepted acceptance0 review0) again db))
unfolding submit_review
submit_review-accepted_example =
    submit_review-accepted env0 12 review0 (decided 12 accepted acceptance0 review0) acceptance0
      reviews0 day0 refl refl refl refl

abbrev qualification0 : QualificationDb
qualification0 =
    let t : QualificationTables = record {
      governance = reviews0.governance.work;
      reviews = decided 12 accepted acceptance0 review0 ∷ [];
      reports =
          (record { campaign_id = some 5; start_date = 1; end_date = 30; passed = true }) ∷ [];
      incidents = [];
      qualifications = [];
      next_id = 1;
    } in
    record { work = t; durable = t }

calculate_qualification-IsQualified_example : IsQualified false 1 (gather 5 qualification0.work)
unfolding calculate_qualification
calculate_qualification-IsQualified_example =
    calculate_qualification-IsQualified 40 5 1 "paper" qualification0
      (snapshot_of 40 1 5 false 1 (gather 5 qualification0.work)) refl refl
