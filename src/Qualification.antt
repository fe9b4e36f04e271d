-- ===== src/Qualification.antt =====
-- backend/app/services/qualification.py: `calculate_qualification`. The order of the days, on which no
-- count depends, is that of the table. A report of data quality keeps what the function reads.
-- Where an entry of a summary is not of the kind that the function reads, it raises.
pub mod Qualified
use dse_auto.Common.{
  ℕ, ◌+◌, ◌-◌, Bool, true, false, not, ◌&&◌, ◌||◌, Option, none, some, List, [], ◌∷◌, ◌++◌, String,
  str_eq, ltb, leb, length, ◌==◌, any, keep, map, is_none, if◌then◌else◌, Result, ok, raise,
  value_error, other_error,
}
use dse_auto.Common.Keys.{
  Json, null, str, int, amount, bool, arr, obj, Fields, done, field, dict, letters, key_eq,
}
use dse_auto.Store.Rows.{opt_num_eq}
use dse_auto.Broker.Submit.{text_json}
use dse_auto.Governance.{CampaignDay, ValidationCampaign, GovernanceTables, get_key}
use dse_auto.Incidents.{OperationalIncident, is_resolved}
use dse_auto.Campaigns.{is_real_market, is_empty}
use dse_auto.Campaigns.Create.{truth}
use dse_auto.Common.Single.{find_row}
use dse_auto.Evidence.{
  ReviewState, EvidenceReview, is_accepted, is_completed, find_day_review, review_state_name,
}

pub record DataQualityReport : Type 0 where
  pub campaign_id : Option ℕ
  pub start_date : ℕ
  pub end_date : ℕ
  pub passed : Bool

pub record PaperQualification : Type 0 where
  pub id : ℕ
  pub campaign_id : ℕ
  pub target_days : ℕ
  pub counts : Json
  pub qualifying : Bool
  pub failure_reasons : List String
  pub remaining_qualifying_days : ℕ
  pub calculated_at : ℕ

pub record QualificationTables : Type 0 where
  pub governance : GovernanceTables
  pub reviews : List EvidenceReview
  pub reports : List DataQualityReport
  pub incidents : List OperationalIncident
  pub qualifications : List PaperQualification
  pub next_id : ℕ

pub record QualificationDb : Type 0 where
  pub work : QualificationTables
  pub durable : QualificationTables

-- The entry of an object, as a dictionary's `get`.
abbrev pub field_of : String → Fields → Option Json
field_of name done = none
field_of name (field k v fs) = let rest = field_of name fs in if str_eq k name then some v else rest

-- Whether the value of `summary.get(outer, {})` is a dictionary, which alone has `get` and `values`.
abbrev pub is_dict : Option Json → Bool
is_dict none = true
is_dict (some null) = false
is_dict (some (str k)) = false
is_dict (some (int n)) = false
is_dict (some (amount z)) = false
is_dict (some (bool b)) = false
is_dict (some (arr l)) = false
is_dict (some (obj fs)) = true

-- summary.get(outer, {}).get(inner); where the entry is no dictionary, `is_malformed` has raised before
abbrev pub inner_entry : String → Option Json → Option Json
inner_entry name none = none
inner_entry name (some null) = none
inner_entry name (some (str k)) = none
inner_entry name (some (int n)) = none
inner_entry name (some (amount z)) = none
inner_entry name (some (bool b)) = none
inner_entry name (some (arr l)) = none
inner_entry name (some (obj fs)) = field_of name fs

-- all(bool(value) for value in summary.get("mandatory_evidence", {}).values()); where the entry is no
-- dictionary, `is_malformed` has raised before
abbrev pub all_fields : Fields → Bool
all_fields done = true
all_fields (field k v fs) = let rest = all_fields fs in truth (some v) && rest

abbrev pub all_true : Option Json → Bool
all_true none = true
all_true (some null) = true
all_true (some (str k)) = true
all_true (some (int n)) = true
all_true (some (amount z)) = true
all_true (some (bool b)) = true
all_true (some (arr l)) = true
all_true (some (obj fs)) = all_fields fs

-- value in {"operator_attested", "exchange_verified"}
abbrev pub is_trusted_entry : Option Json → Bool
is_trusted_entry none = false
is_trusted_entry (some null) = false
is_trusted_entry (some (str k)) =
    key_eq k (letters "operator_attested" ∷ []) || key_eq k (letters "exchange_verified" ∷ [])
is_trusted_entry (some (int n)) = false
is_trusted_entry (some (amount z)) = false
is_trusted_entry (some (bool b)) = false
is_trusted_entry (some (arr l)) = false
is_trusted_entry (some (obj fs)) = false

abbrev pub is_complete : CampaignDay → Bool
is_complete d = d.eod_completed && is_completed d.state

-- The review of a day, among those of the campaign.
abbrev pub review_of : List EvidenceReview → CampaignDay → Option EvidenceReview
review_of reviews d = find_day_review d.id reviews

abbrev pub has_review : List EvidenceReview → CampaignDay → Bool
has_review reviews d = not (is_none (review_of reviews d))

abbrev pub review_in : String → Option EvidenceReview → Bool
review_in name none = false
review_in name (some r) = str_eq (review_state_name r.state) name

abbrev pub is_audit_valid : CampaignDay → Bool
is_audit_valid d = truth (get_key "audit_valid" d.summary)

abbrev pub is_reconciled : CampaignDay → Bool
is_reconciled d = truth (inner_entry "healthy" (get_key "reconciliation" d.summary))

abbrev pub is_backed_up : CampaignDay → Bool
is_backed_up d = truth (inner_entry "successful" (get_key "backup" d.summary))

-- A report that passed covers the day.
abbrev pub has_quality : List DataQualityReport → CampaignDay → Bool
has_quality reports d =
    any (λ r. r.passed && leb r.start_date d.market_date && leb d.market_date r.end_date) reports

-- The dates of a set.
abbrev pub distinct_dates : List ℕ → List ℕ
distinct_dates [] = []
distinct_dates (d ∷ ds) =
    let rest = distinct_dates ds in if any (λ e. e == d) ds then rest else d ∷ rest

abbrev pub is_licensed : ValidationCampaign → Bool
is_licensed c =
    not (is_none c.provider_certification_id)
    || truth (get_key "allow_operator_attested" c.data_source_policy)

abbrev pub is_eligible : Option ValidationCampaign → Bool
is_eligible none = false
is_eligible (some c) = is_real_market c.evidence_class && is_licensed c

-- Whether a value has no hash, which a test for membership of a set needs.
abbrev pub is_unhashable : Option Json → Bool
is_unhashable none = false
is_unhashable (some null) = false
is_unhashable (some (str k)) = false
is_unhashable (some (int n)) = false
is_unhashable (some (amount z)) = false
is_unhashable (some (bool b)) = false
is_unhashable (some (arr l)) = true
is_unhashable (some (obj fs)) = true

-- The tests of a real-market day before that of its provenance.
abbrev pub is_presented : Option ValidationCampaign → CampaignDay → Bool
is_presented campaign d =
    is_eligible campaign
    && is_real_market d.evidence_class
    && truth (get_key "real_market_eligible" d.summary)
    && not (truth (get_key "synthetic_or_accelerated" d.summary))

-- Whether the tests of a real-market day raise.
abbrev pub is_day_malformed : Option ValidationCampaign → CampaignDay → Bool
is_day_malformed campaign d =
    is_presented campaign d
    && (is_unhashable (get_key "timestamp_provenance" d.summary)
        || is_trusted_entry (get_key "timestamp_provenance" d.summary)
          && not (is_dict (get_key "mandatory_evidence" d.summary)))

-- What a real-market qualification asks of a day.
abbrev pub is_real_evidence : Option ValidationCampaign → CampaignDay → Bool
is_real_evidence campaign d =
    is_presented campaign d
    && is_trusted_entry (get_key "timestamp_provenance" d.summary)
    && all_true (get_key "mandatory_evidence" d.summary)

-- The lists of the function, of which the counts and the failures are computed.
pub record Evidence : Type 0 where
  pub days : List CampaignDay
  pub reviews : List EvidenceReview
  pub reports : List DataQualityReport
  pub campaign : Option ValidationCampaign
  pub unresolved_critical : List OperationalIncident

abbrev pub gather : ℕ → QualificationTables → Evidence
gather campaign_id t = record {
  days = keep (λ d. d.campaign_id == campaign_id) t.governance.days;
  reviews = keep (λ r. r.campaign_id == campaign_id) t.reviews;
  reports = keep (λ r. opt_num_eq r.campaign_id campaign_id) t.reports;
  campaign = find_row (λ c. c.id) campaign_id t.governance.campaigns;
  unresolved_critical =
      keep
        (λ i.
          opt_num_eq i.campaign_id campaign_id
          && str_eq i.severity "critical"
          && not (is_resolved i.state))
        t.incidents;
}

abbrev pub completed_days : Evidence → List CampaignDay
completed_days e = keep is_complete e.days

abbrev pub in_state : String → Evidence → List CampaignDay
in_state name e = keep (λ d. review_in name (review_of e.reviews d)) (completed_days e)

abbrev pub quality_dates : Evidence → List ℕ
quality_dates e = distinct_dates (map (λ d. d.market_date) (keep (has_quality e.reports) e.days))

abbrev pub is_qualifying : Bool → Evidence → CampaignDay → Bool
is_qualifying real e d =
    is_audit_valid d
    && is_reconciled d
    && is_backed_up d
    && has_quality e.reports d
    && (not real || is_real_evidence e.campaign d)

abbrev pub qualifying_days : Bool → Evidence → List CampaignDay
qualifying_days real e = keep (is_qualifying real e) (in_state "accepted" e)

-- Whether the calculation meets an entry of a summary that it cannot read, and so raises.
abbrev pub is_malformed : Bool → Evidence → Bool
is_malformed real e =
    any
      (λ d.
        not (is_dict (get_key "reconciliation" d.summary))
        || not (is_dict (get_key "backup" d.summary)))
      (completed_days e)
    || real && any (is_day_malformed e.campaign) (qualifying_days false e)

abbrev pub not_real_market : Option ValidationCampaign → Bool
not_real_market none = true
not_real_market (some c) = not (is_real_market c.evidence_class)

abbrev pub is_unlicensed : Option ValidationCampaign → Bool
is_unlicensed none = false
is_unlicensed (some c) = not (is_licensed c)

-- len(subset) < len(completed)
abbrev pub falls_short : (CampaignDay → Bool) → Evidence → Bool
falls_short p e = ltb (length (keep p (completed_days e))) (length (completed_days e))

-- The tests in their order, each with the failure that it appends.
abbrev pub tests : Bool → ℕ → Evidence → List (Bool × String)
tests real target e =
    (falls_short (has_review e.reviews) e, "completed_day_missing_review")
    ∷ (falls_short is_audit_valid e, "audit_invalid_or_missing")
    ∷ (falls_short is_reconciled e, "reconciliation_invalid_or_missing")
    ∷ (falls_short is_backed_up e, "backup_invalid_or_missing")
    ∷ (
      ltb (length (quality_dates e)) (length (completed_days e)),
      "data_quality_unacceptable_or_missing",
    )
    ∷ (not (is_empty e.unresolved_critical), "unresolved_critical_incidents")
    ∷ (real && not_real_market e.campaign, "campaign_not_real_market")
    ∷ (real && is_unlicensed e.campaign, "approved_real_market_source_missing")
    ∷ (ltb (length (qualifying_days real e)) target, "qualification_target_not_met")
    ∷ []

abbrev pub failures : List (Bool × String) → List String
failures [] = []
failures ((b, name) ∷ rest) = let others = failures rest in if b then name ∷ others else others

abbrev pub scope_name : Bool → String
scope_name real = if real then "real_market" else "paper"

abbrev pub counts_of : Bool → ℕ → Evidence → Json
counts_of real target e = dict (
    ("planned_trading_days", int target)
    ∷ ("completed_days", int (length (completed_days e)))
    ∷ ("reviewed_days", int (length (keep (has_review e.reviews) (completed_days e))))
    ∷ ("accepted_days", int (length (in_state "accepted" e)))
    ∷ ("rejected_days", int (length (in_state "rejected" e)))
    ∷ ("concerns_found_days", int (length (in_state "concerns_found" e)))
    ∷ ("missing_days", int (target - length (completed_days e)))
    ∷ ("rerun_required_days", int (length (in_state "requires_rerun" e)))
    ∷ ("audit_valid_days", int (length (keep is_audit_valid (completed_days e))))
    ∷ ("reconciliation_valid_days", int (length (keep is_reconciled (completed_days e))))
    ∷ ("backup_valid_days", int (length (keep is_backed_up (completed_days e))))
    ∷ (
      "data_quality_passing_days",
      int (
          length
            (keep (λ d. any (λ date. date == d.market_date) (quality_dates e)) (completed_days e))),
    )
    ∷ ("qualifying_days", int (length (qualifying_days real e)))
    ∷ ("unresolved_critical_incidents", int (length e.unresolved_critical))
    ∷ ("qualification_scope", text_json (scope_name real))
    ∷ (
      "real_market_evidence_days",
      int (length (keep (λ d. is_real_market d.evidence_class) (completed_days e))),
    )
    ∷ [])

abbrev pub snapshot_of : ℕ → ℕ → ℕ → Bool → ℕ → Evidence → PaperQualification
snapshot_of now id campaign_id real target e = record {
  id = id;
  campaign_id = campaign_id;
  target_days = target;
  counts = counts_of real target e;
  qualifying =
      is_empty (failures (tests real target e)) && (target - length (qualifying_days real e)) == 0;
  failure_reasons = failures (tests real target e);
  remaining_qualifying_days = target - length (qualifying_days real e);
  calculated_at = now;
}

abbrev pub find_qualification : ℕ → List PaperQualification → Option PaperQualification
find_qualification campaign_id [] = none
find_qualification campaign_id (q ∷ qs) =
    if q.campaign_id == campaign_id then some q else find_qualification campaign_id qs

abbrev pub put_qualification :
    PaperQualification → List PaperQualification → List PaperQualification
put_qualification q [] = []
put_qualification q (p ∷ ps) = (if p.id == q.id then q else p) ∷ put_qualification q ps

abbrev pub set_qualifications : List PaperQualification → ℕ → QualificationTables → QualificationDb
set_qualifications qs next t =
    let t' : QualificationTables = record {
      governance = t.governance;
      reviews = t.reviews;
      reports = t.reports;
      incidents = t.incidents;
      qualifications = qs;
      next_id = next;
    } in
    record { work = t'; durable = t' }

-- The write of the snapshot, over the one that is there if any.
abbrev pub write_snapshot :
    ℕ
    → ℕ
    → Bool
    → ℕ
    → Evidence
    → QualificationTables
    → Option PaperQualification
    → Result PaperQualification × QualificationDb
write_snapshot now campaign_id real target e t none =
    let q = snapshot_of now t.next_id campaign_id real target e in
    (ok q, set_qualifications (t.qualifications ++ q ∷ []) (t.next_id + 1) t)
write_snapshot now campaign_id real target e t (some old) =
    let q = snapshot_of now old.id campaign_id real target e in
    (ok q, set_qualifications (put_qualification q t.qualifications) t.next_id t)

abbrev pub write_qualification :
    ℕ → ℕ → Bool → ℕ → QualificationDb → Result PaperQualification × QualificationDb
write_qualification now campaign_id real target db =
    let e = gather campaign_id db.work in
    let written =
      write_snapshot now campaign_id real target e db.work
        (find_qualification campaign_id db.work.qualifications) in
    if is_malformed real e then (raise other_error, db) else written

unfoldable pub calculate_qualification :
    ℕ → ℕ → ℕ → String → QualificationDb → Result PaperQualification × QualificationDb
calculate_qualification now campaign_id target_days scope db =
    let written = write_qualification now campaign_id (str_eq scope "real_market") target_days db in
    if not (str_eq scope "paper" || str_eq scope "real_market")
    then (raise (value_error "Unknown qualification scope"), db)
    else if is_none (find_row (λ c. c.id) campaign_id db.work.governance.campaigns)
        && str_eq scope "real_market"
    then (raise (value_error "Campaign not found"), db)
    else written
