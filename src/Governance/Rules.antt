-- ===== src/Governance/Rules.antt =====
-- `create_rule_set` and `create_fee_profile`.
use dse_auto.Common.{
  ℕ, Bool, not, Option, none, some, List, [], ◌∷◌, ◌++◌, String, str_eq, ltb, length, any, all,
  if◌then◌else◌, Result, ok, raise, value_error,
}
use dse_auto.Common.Keys.{Json, num, int, amount, dict, opt_json}
use dse_auto.Common.Int.{pos}
use dse_auto.Common.Text.{Text, strip}
use dse_auto.Env.{Env}
use dse_auto.Audit.{Entry}
use dse_auto.Broker.Submit.{text_json}
use dse_auto.Governance.{
  RuleStatus, assumed, partially_verified, verified, deprecated, MarketRuleSet, FeeConfiguration,
  FeeProfile, GovernanceTables, GovernanceDb, committed, fresh, take_id, audited,
}
use dse_auto.Governance.Fees.{FeeOverrides, conservative_fee_configuration}

-- REQUIRED_RULES
abbrev pub required_rules : List String
required_rules =
    "market_timezone" ∷ "weekly_trading_days" ∷ "trading_sessions" ∷ "auction_periods" ∷ "holidays"
    ∷ "tick_sizes" ∷ "price_bands" ∷ "settlement_assumptions" ∷ "short_selling_policy"
    ∷ "leverage_policy" ∷ "minimum_order_quantity" ∷ "order_expiry_rules"
    ∷ "transaction_fee_assumptions" ∷ "tax_assumptions" ∷ "liquidity_thresholds" ∷ []

abbrev pub status_name : RuleStatus → String
status_name assumed = "assumed"
status_name partially_verified = "partially_verified"
status_name verified = "verified"
status_name deprecated = "deprecated"

abbrev pub find_status : String → List RuleStatus → Option RuleStatus
find_status name [] = none
find_status name (k ∷ ks) = if str_eq (status_name k) name then some k else find_status name ks

abbrev pub statuses : List RuleStatus
statuses = assumed ∷ partially_verified ∷ verified ∷ deprecated ∷ []

-- name in dictionary
abbrev pub has_key {ℓ} : {A : Type ℓ} → List (String × A) → String → Bool
has_key entries name = any (λ (k, v). str_eq k name) entries

-- not (required - entries.keys())
abbrev pub has_keys {ℓ} : {A : Type ℓ} → List String → List (String × A) → Bool
has_keys required entries = all (has_key entries) required

pub record RuleSetArgs : Type 0 where
  pub version : String
  pub effective_date : ℕ
  pub source_reference : String
  pub verification_status : String
  pub operator_approval : Text
  pub rules : List (String × Json)
  pub change_history : Json

abbrev pub rule_set_of : Env → ℕ → RuleStatus → RuleSetArgs → MarketRuleSet
rule_set_of env id status a = record {
  id = id;
  version = a.version;
  effective_date = a.effective_date;
  source_reference = a.source_reference;
  verification_status = status;
  operator_approval = strip a.operator_approval;
  rules = a.rules;
  change_history = a.change_history;
  integrity_hash = env.sha256_json (
      dict (
        ("version", text_json a.version)
        ∷ ("effective_date", int a.effective_date)
        ∷ ("source_reference", text_json a.source_reference)
        ∷ ("verification_status", text_json a.verification_status)
        ∷ ("rules", dict a.rules)
        ∷ ("change_history", a.change_history)
        ∷ []));
}

abbrev pub governance_entry : String → String → String → ℕ → Json → Entry
governance_entry actor type entity id new_state = record {
  actor = actor;
  event_type = type;
  entity_type = entity;
  entity_id = some (num id ∷ []);
  previous_state = none;
  new_state = some new_state;
  metadata = none;
}

abbrev pub add_rule_set : MarketRuleSet → GovernanceTables → GovernanceTables
add_rule_set r t = record {
  rule_sets = t.rule_sets ++ r ∷ [];
  fee_profiles = t.fee_profiles;
  strategies = t.strategies;
  campaigns = t.campaigns;
  days = t.days;
  core = t.core;
}

unfoldable pub write_rule_set :
    Env → ℕ → RuleStatus → RuleSetArgs → GovernanceDb → MarketRuleSet × GovernanceDb
write_rule_set env now status a db =
    let r = rule_set_of env (fresh db.work) status a in
    (
      r,
      committed (
          audited env now
            (governance_entry "operator" "market_rules.version_created" "market_rule_set" r.id (
              dict (
                ("version", text_json a.version)
                ∷ ("status", text_json a.verification_status)
                ∷ ("hash", text_json r.integrity_hash)
                ∷ [])))
            (take_id (add_rule_set r db.work))),
    )

unfoldable pub create_rule_set :
    Env → ℕ → RuleSetArgs → GovernanceDb → Result MarketRuleSet × GovernanceDb
unfolding write_rule_set
create_rule_set env now a db = elim (find_status a.verification_status statuses) [
  | none ↦ (raise (value_error "Unknown rule-set verification status"), db)
  | some status ↦
      (let (r, db') = write_rule_set env now status a db in
        if not (has_keys required_rules a.rules)
        then (raise (value_error "Rule set is incomplete"), db)
        else if ltb (length (strip a.operator_approval)) 12
        then (raise (value_error "Operator approval must explain the rule-set decision"), db)
        else (ok r, db'))
]

abbrev pub configuration_json : FeeConfiguration → Json
configuration_json c = dict (
    ("brokerage_buy_percent", amount (pos c.brokerage_buy_percent))
    ∷ ("brokerage_sell_percent", amount (pos c.brokerage_sell_percent))
    ∷ ("minimum_brokerage", amount (pos c.minimum_brokerage))
    ∷ ("exchange_fee_percent", amount (pos c.exchange_fee_percent))
    ∷ ("regulatory_fee_percent", amount (pos c.regulatory_fee_percent))
    ∷ ("tax_buy_percent", amount (pos c.tax_buy_percent))
    ∷ ("tax_sell_percent", amount (pos c.tax_sell_percent))
    ∷ ("settlement_charge", amount (pos c.settlement_charge))
    ∷ ("account_fee", amount (pos c.account_fee))
    ∷ ("flat_buy_charge", amount (pos c.flat_buy_charge))
    ∷ ("flat_sell_charge", amount (pos c.flat_sell_charge))
    ∷ ("assumption", text_json "conservative_when_unknown")
    ∷ [])

pub record FeeProfileArgs : Type 0 where
  pub name : String
  pub version : String
  pub effective_date : ℕ
  pub configuration : FeeOverrides
  pub broker : Option String
  pub account_label : Option String

abbrev pub fee_profile_of : Env → ℕ → FeeProfileArgs → FeeProfile
fee_profile_of env id a =
    let normalized = conservative_fee_configuration a.configuration in
    record {
      id = id;
      name = a.name;
      version = a.version;
      effective_date = a.effective_date;
      broker = a.broker;
      account_label = a.account_label;
      configuration = normalized;
      integrity_hash = env.sha256_json (
          dict (
            ("name", text_json a.name)
            ∷ ("version", text_json a.version)
            ∷ ("effective_date", int a.effective_date)
            ∷ ("broker", opt_json text_json a.broker)
            ∷ ("account_label", opt_json text_json a.account_label)
            ∷ ("configuration", configuration_json normalized)
            ∷ []));
    }

abbrev pub add_fee_profile : FeeProfile → GovernanceTables → GovernanceTables
add_fee_profile p t = record {
  rule_sets = t.rule_sets;
  fee_profiles = t.fee_profiles ++ p ∷ [];
  strategies = t.strategies;
  campaigns = t.campaigns;
  days = t.days;
  core = t.core;
}

unfoldable pub create_fee_profile :
    Env → ℕ → FeeProfileArgs → GovernanceDb → FeeProfile × GovernanceDb
create_fee_profile env now a db =
    let p = fee_profile_of env (fresh db.work) a in
    (
      p,
      committed (
          audited env now
            (governance_entry "operator" "fee_profile.version_created" "fee_profile" p.id (
              dict (
                ("name", text_json a.name)
                ∷ ("version", text_json a.version)
                ∷ ("hash", text_json p.integrity_hash)
                ∷ [])))
            (take_id (add_fee_profile p db.work))),
    )
