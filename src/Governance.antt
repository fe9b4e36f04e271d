-- ===== src/Governance.antt =====
-- backend/app/services/governance.py: rule sets, fee profiles and strategies, and the tables that
-- the campaigns share with them. A date is a number of days; a description that the code only stores
-- is a text.
pub mod Fees
pub mod Rules
pub mod Strategy
pub mod Promotion
pub mod Reference
pub mod Costs
use dse_auto.Common.{
  ◌+◌, ℕ, Bool, true, false, Option, none, some, List, [], ◌∷◌, ◌++◌, String, str_eq, if◌then◌else◌,
  ◌==◌,
}
use dse_auto.Common.Single.{put_row}
use dse_auto.Common.Int.{ℤ}
use dse_auto.Common.Keys.{Json}
use dse_auto.Common.Text.{Text}
use dse_auto.Env.{Env}
use dse_auto.Audit.{Entry, append_event}
use dse_auto.Sessions.{SessionTables}

-- RULE_STATUSES
pub data RuleStatus : Type 0 where
  assumed partially_verified verified deprecated : RuleStatus

pub record MarketRuleSet : Type 0 where
  pub id : ℕ
  pub version : String
  pub effective_date : ℕ
  pub source_reference : String
  pub verification_status : RuleStatus
  pub operator_approval : Text
  pub rules : List (String × Json)
  pub change_history : Json
  pub integrity_hash : String

-- The numbers of a fee configuration, in ten-thousandths.
pub record FeeConfiguration : Type 0 where
  pub brokerage_buy_percent : ℕ
  pub brokerage_sell_percent : ℕ
  pub minimum_brokerage : ℕ
  pub exchange_fee_percent : ℕ
  pub regulatory_fee_percent : ℕ
  pub tax_buy_percent : ℕ
  pub tax_sell_percent : ℕ
  pub settlement_charge : ℕ
  pub account_fee : ℕ
  pub flat_buy_charge : ℕ
  pub flat_sell_charge : ℕ

pub record FeeProfile : Type 0 where
  pub id : ℕ
  pub name : String
  pub version : String
  pub effective_date : ℕ
  pub broker : Option String
  pub account_label : Option String
  pub configuration : FeeConfiguration
  pub integrity_hash : String

-- STRATEGY_STATES
pub data LifecycleState : Type 0 where
  draft research paper_candidate paper_active suspended rejected archived : LifecycleState

pub record StrategyRegistration : Type 0 where
  pub id : ℕ
  pub strategy_id : Text
  pub version : Text
  pub lifecycle_state : LifecycleState
  pub code_hash : String
  pub parameters : Json
  pub data_requirements : Json
  pub evidence : List (String × Json)
  pub minimum_sample_size : ℕ
  pub operator_approval : Text
  pub suspension_reason : Option String

-- CAMPAIGN_STATES of backend/app/services/campaigns.py
pub data CampaignState : Type 0 where
  configured awaiting_data ready active paused degraded : CampaignState
  reconciliation_required completed invalidated archived_campaign : CampaignState

pub data EvidenceClass : Type 0 where
  synthetic imported real_market : EvidenceClass

pub record ValidationCampaign : Type 0 where
  pub id : ℕ
  pub name : String
  pub account_id : ℕ
  pub start_date : ℕ
  pub planned_end_date : ℕ
  pub approved_symbols : List String
  pub approved_strategies : List Text
  pub starting_capital : ℤ
  pub risk_profile : Json
  pub data_source_policy : List (String × Json)
  pub timestamp_trust_requirement : String
  pub fill_model : String
  pub benchmark : String
  pub operator_notes : String
  pub state : CampaignState
  pub active_rule_set_id : ℕ
  pub active_fee_profile_id : ℕ
  pub evidence_class : EvidenceClass
  pub provider_certification_id : Option ℕ
  pub daily_reviewer_assignments : Json

pub data DayState : Type 0 where
  planned market_open day_reconciliation_required backup_failed day_completed missed : DayState

pub record CampaignDay : Type 0 where
  pub id : ℕ
  pub campaign_id : ℕ
  pub market_date : ℕ
  pub session_id : Option ℕ
  pub state : DayState
  pub premarket_completed : Bool
  pub eod_completed : Bool
  pub missed_reason : Option String
  pub summary : List (String × Json)
  pub evidence_path : Option String
  pub started_at : Option ℕ
  pub completed_at : Option ℕ
  pub evidence_class : EvidenceClass

pub record GovernanceTables : Type 0 where
  pub rule_sets : List MarketRuleSet
  pub fee_profiles : List FeeProfile
  pub strategies : List StrategyRegistration
  pub campaigns : List ValidationCampaign
  pub days : List CampaignDay
  pub core : SessionTables

pub record GovernanceDb : Type 0 where
  pub work : GovernanceTables
  pub durable : GovernanceTables

-- The tables as committed.
abbrev pub committed : GovernanceTables → GovernanceDb
committed t = record { work = t; durable = t }

-- The identifier that the next row takes.
abbrev pub fresh : GovernanceTables → ℕ
fresh t = t.core.rest.trail.next_id

abbrev pub set_core : SessionTables → GovernanceTables → GovernanceTables
set_core c t = record {
  rule_sets = t.rule_sets;
  fee_profiles = t.fee_profiles;
  strategies = t.strategies;
  campaigns = t.campaigns;
  days = t.days;
  core = c;
}

-- The flush of a new row, which takes an identifier.
abbrev pub take_id : GovernanceTables → GovernanceTables
take_id t =
    set_core
      (record t.core {
        rest = record t.core.rest {
          trail = record t.core.rest.trail { next_id = t.core.rest.trail.next_id + 1 };
        };
      })
      t

-- `append_audit` before the commit of all tables.
abbrev pub audited : Env → ℕ → Entry → GovernanceTables → GovernanceTables
audited env now entry t =
    set_core
      (record t.core {
        rest = record t.core.rest { trail = append_event env now entry t.core.rest.trail };
      })
      t

-- dictionary.get(name)
abbrev pub get_key {ℓ} : {A : Type ℓ} → String → List (String × A) → Option A
get_key name [] = none
get_key name ((k, v) ∷ rest) = if str_eq k name then some v else get_key name rest

abbrev pub find_rule_set : ℕ → List MarketRuleSet → Option MarketRuleSet
find_rule_set id [] = none
find_rule_set id (r ∷ rs) = if r.id == id then some r else find_rule_set id rs

abbrev pub find_fee_profile : ℕ → List FeeProfile → Option FeeProfile
find_fee_profile id [] = none
find_fee_profile id (r ∷ rs) = if r.id == id then some r else find_fee_profile id rs

abbrev pub put_strategy :
    StrategyRegistration → List StrategyRegistration → List StrategyRegistration
put_strategy s ps = put_row (λ p. p.id) s ps

abbrev pub set_strategies : List StrategyRegistration → GovernanceTables → GovernanceTables
set_strategies ss t = record {
  rule_sets = t.rule_sets;
  fee_profiles = t.fee_profiles;
  strategies = ss;
  campaigns = t.campaigns;
  days = t.days;
  core = t.core;
}
