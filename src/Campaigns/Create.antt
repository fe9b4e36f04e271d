-- ===== src/Campaigns/Create.antt =====
-- `create_campaign`. `str.upper` is a parameter, and so is what the query for the certification finds:
-- its status. `str` of an evidence class or of a fill model is the text itself.
use dse_auto.Common.{
  ℕ, Bool, true, false, not, ◌&&◌, ◌||◌, Option, none, some, List, [], ◌∷◌, ◌++◌, String, str_eq,
  ltb, ◌==◌, map, all, if◌then◌else◌, is_none, Result, ok, raise, value_error,
}
use dse_auto.Common.Int.{ℤ, pos, leb_ℤ}
use dse_auto.Common.Keys.{
  Json, null, str, int, amount, bool, arr, obj, num, dict, items_of, opt_json, end, item, done,
  field, Part, part_eq, letters, points,
}
use dse_auto.Common.Text.{Text}
use dse_auto.Env.{Env}
use dse_auto.Audit.{Entry}
use dse_auto.Broker.Submit.{text_json}
use dse_auto.Sessions.Create.{sorted_set, is_fill_model}
use dse_auto.Governance.{
  configured, EvidenceClass, synthetic, imported, real_market, ValidationCampaign, GovernanceDb,
  committed, fresh, take_id, audited, get_key, find_rule_set, find_fee_profile,
}
use dse_auto.Governance.Strategy.{points_json, sample_size}
use dse_auto.Campaigns.{campaign_state_name, is_real_market, is_unusable, is_empty, set_campaigns}

abbrev pub evidence_name : EvidenceClass → String
evidence_name synthetic = "synthetic"
evidence_name imported = "imported"
evidence_name real_market = "real_market"

abbrev pub evidence_classes : List EvidenceClass
evidence_classes = synthetic ∷ imported ∷ real_market ∷ []

abbrev pub find_evidence : String → List EvidenceClass → Option EvidenceClass
find_evidence name [] = none
find_evidence name (k ∷ ks) =
    if str_eq (evidence_name k) name then some k else find_evidence name ks

-- A part of a composed text that is empty.
abbrev pub is_blank : Part → Bool
is_blank p = part_eq p (letters "") || part_eq p (points [])

-- bool(value) of a JSON value that may be missing
abbrev pub truth : Option Json → Bool
truth none = false
truth (some null) = false
truth (some (str k)) = not (all is_blank k)
truth (some (int n)) = not (n == 0)
truth (some (amount z)) = not (leb_ℤ z (pos 0) && leb_ℤ (pos 0) z)
truth (some (bool b)) = b
truth (some (arr end)) = false
truth (some (arr (item x xs))) = true
truth (some (obj done)) = false
truth (some (obj (field k v fs))) = true

pub record CampaignArgs : Type 0 where
  pub name : String
  pub start_date : ℕ
  pub planned_end_date : ℕ
  pub approved_symbols : List String
  pub approved_strategies : List Text
  pub starting_capital : ℤ
  pub risk_profile : Json
  pub data_source_policy : List (String × Json)
  pub timestamp_trust_requirement : String
  pub fill_model : String
  pub benchmark : String
  pub operator_notes : String
  pub active_rule_set_id : ℕ
  pub active_fee_profile_id : ℕ
  pub account_id : ℕ
  pub evidence_class : String
  pub provider_certification_id : Option ℕ
  pub daily_reviewer_assignments : Option Json

-- `campaign_view`
abbrev pub campaign_view : ValidationCampaign → List (String × Json)
campaign_view c =
    ("id", str (num c.id ∷ []))
    ∷ ("name", text_json c.name)
    ∷ ("account_id", int c.account_id)
    ∷ ("start_date", int c.start_date)
    ∷ ("planned_end_date", int c.planned_end_date)
    ∷ ("approved_symbols", arr (items_of (map text_json c.approved_symbols)))
    ∷ ("approved_strategies", arr (items_of (map points_json c.approved_strategies)))
    ∷ ("starting_capital", amount c.starting_capital)
    ∷ ("risk_profile", c.risk_profile)
    ∷ ("data_source_policy", dict c.data_source_policy)
    ∷ ("timestamp_trust_requirement", text_json c.timestamp_trust_requirement)
    ∷ ("fill_model", text_json c.fill_model)
    ∷ ("benchmark", text_json c.benchmark)
    ∷ ("operator_notes", text_json c.operator_notes)
    ∷ ("state", text_json (campaign_state_name c.state))
    ∷ ("active_rule_set_id", str (num c.active_rule_set_id ∷ []))
    ∷ ("active_fee_profile_id", str (num c.active_fee_profile_id ∷ []))
    ∷ ("evidence_class", text_json (evidence_name c.evidence_class))
    ∷ ("provider_certification_id", opt_json (λ id. str (num id ∷ [])) c.provider_certification_id)
    ∷ ("daily_reviewer_assignments", c.daily_reviewer_assignments)
    ∷ []

abbrev pub new_campaign : (String → String) → ℕ → EvidenceClass → CampaignArgs → ValidationCampaign
new_campaign upper id evidence a = record {
  id = id;
  name = a.name;
  account_id = a.account_id;
  start_date = a.start_date;
  planned_end_date = a.planned_end_date;
  approved_symbols = sorted_set (map upper a.approved_symbols);
  approved_strategies = a.approved_strategies;
  starting_capital = a.starting_capital;
  risk_profile = a.risk_profile;
  data_source_policy = a.data_source_policy;
  timestamp_trust_requirement = a.timestamp_trust_requirement;
  fill_model = a.fill_model;
  benchmark = a.benchmark;
  operator_notes = a.operator_notes;
  state = configured;
  active_rule_set_id = a.active_rule_set_id;
  active_fee_profile_id = a.active_fee_profile_id;
  evidence_class = evidence;
  provider_certification_id = a.provider_certification_id;
  daily_reviewer_assignments = elim a.daily_reviewer_assignments [ none ↦ obj done | some j ↦ j ];
}

abbrev pub configured_entry : ValidationCampaign → Entry
configured_entry c = record {
  actor = "operator";
  event_type = "campaign.configured";
  entity_type = "validation_campaign";
  entity_id = some (num c.id ∷ []);
  previous_state = none;
  new_state = some (dict (campaign_view c ++ ("paper_only", bool true) ∷ []));
  metadata = none;
}

unfoldable pub write_campaign :
    (String → String)
    → Env
    → ℕ
    → EvidenceClass
    → CampaignArgs
    → GovernanceDb
    → Result ValidationCampaign × GovernanceDb
write_campaign upper env now evidence a db =
    let c = new_campaign upper (fresh db.work) evidence a in
    (
      ok c,
      committed (
          audited env now (configured_entry c)
            (take_id (set_campaigns (db.work.campaigns ++ c ∷ []) db.work))),
    )

-- certification is not None and certification.status == "passed"
abbrev pub is_certified : Option String → Bool
is_certified none = false
is_certified (some status) = str_eq status "passed"

-- int(data_source_policy.get("qualification_target_days", 60))
abbrev pub target_days : Env → Option Json → Result ℕ
target_days env none = ok 60
target_days env (some j) = sample_size env (some j)

-- After the tests of the policy: those of the rule set and the fee profile.
abbrev pub create_tested :
    (String → String)
    → Env
    → ℕ
    → EvidenceClass
    → CampaignArgs
    → GovernanceDb
    → Result ValidationCampaign × GovernanceDb
create_tested upper env now evidence a db =
    let written = write_campaign upper env now evidence a db in
    if is_unusable (find_rule_set a.active_rule_set_id db.work.rule_sets)
    then (raise (value_error "Campaign requires a non-deprecated market rule set"), db)
    else if is_none (find_fee_profile a.active_fee_profile_id db.work.fee_profiles)
    then (raise (value_error "Campaign requires a versioned fee profile"), db)
    else written

-- The target of a real-market campaign.
abbrev pub create_targeted :
    (String → String)
    → Env
    → ℕ
    → EvidenceClass
    → CampaignArgs
    → GovernanceDb
    → Result ℕ
    → Result ValidationCampaign × GovernanceDb
create_targeted upper env now evidence a db (raise e) = (raise e, db)
create_targeted upper env now evidence a db (ok days) =
    let created = create_tested upper env now evidence a db in
    if days == 60
    then created
    else (raise (value_error "Real-market campaign qualification target must be 60 days"), db)

-- With a known evidence class.
unfoldable pub create_classed :
    (String → String)
    → Option String
    → Env
    → ℕ
    → EvidenceClass
    → CampaignArgs
    → GovernanceDb
    → Result ValidationCampaign × GovernanceDb
unfolding write_campaign
create_classed upper certification env now evidence a db =
    let created = create_tested upper env now evidence a db in
    let targeted =
      create_targeted upper env now evidence a db
        (target_days env (get_key "qualification_target_days" a.data_source_policy)) in
    if is_real_market evidence
      && not (
          is_certified certification
          || truth (get_key "allow_operator_attested" a.data_source_policy))
    then (
      raise (
          value_error
            "Real-market campaigns require a passing licensed provider or an explicit operator-attested-file policy"),
      db,
    )
    else if is_real_market evidence
    then targeted
    else created

abbrev pub create_known :
    (String → String)
    → Option String
    → Env
    → ℕ
    → CampaignArgs
    → GovernanceDb
    → Option EvidenceClass
    → Result ValidationCampaign × GovernanceDb
create_known upper certification env now a db none =
    (raise (value_error "Unknown campaign evidence class"), db)
create_known upper certification env now a db (some evidence) =
    create_classed upper certification env now evidence a db

unfoldable pub create_campaign :
    (String → String)
    → Option String
    → Env
    → ℕ
    → CampaignArgs
    → GovernanceDb
    → Result ValidationCampaign × GovernanceDb
unfolding create_classed
create_campaign upper certification env now a db =
    let known =
      create_known upper certification env now a db
        (find_evidence a.evidence_class evidence_classes) in
    if ltb a.planned_end_date a.start_date
    then (raise (value_error "Campaign end date precedes its start date"), db)
    else if is_empty a.approved_symbols
        || is_empty a.approved_strategies
        || leb_ℤ a.starting_capital (pos 0)
    then (raise (value_error "Campaign requires symbols, strategies, and positive capital"), db)
    else if not (is_fill_model a.fill_model)
    then (raise (value_error "Unknown fill model"), db)
    else if not (
        str_eq a.timestamp_trust_requirement "operator_attested"
        || str_eq a.timestamp_trust_requirement "exchange_verified")
    then (
      raise (value_error "Campaign timestamp trust must be operator_attested or exchange_verified"),
      db,
    )
    else known
