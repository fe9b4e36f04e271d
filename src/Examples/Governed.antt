-- ===== src/Examples/Governed.antt =====
-- Strategies, their costs and the campaigns that run them.
use dse_auto.Common.{ℕ, ◌≡◌, ◌↔◌, refl, true, false, none, some, List, [], ◌∷◌, ◌++◌}
use dse_auto.Common.{is_ok}
use dse_auto.Common.Int.{pos}
use dse_auto.Common.Keys.{obj, done, null, str, points}
use dse_auto.Common.Text.{Text, strip}
use dse_auto.Governance.{
  synthetic, market_open, FeeProfile, FeeConfiguration, StrategyRegistration, LifecycleState,
  paper_candidate, paper_active, assumed, MarketRuleSet, CampaignState, ready, active, paused,
  real_market, ValidationCampaign, GovernanceTables, GovernanceDb, committed,
}
use dse_auto.Governance.Fees.{conservative_fee_configuration}
use dse_auto.Governance.Strategy.{
  StrategyArgs, registration_of, promote_strategy, register_strategy, strategy_by_reference,
  lifecycle_name,
}
use dse_auto.Governance.Promotion.{IsPermitted, HasPromoted, promote_strategy-ok_iff}
use dse_auto.Governance.Reference.{reference_of, register_strategy-by_reference}
use dse_auto.Campaigns.{campaign_may_move, transition_campaign}
use dse_auto.Campaigns.Activation.{IsActivatable, HasActivated, transition_campaign-ok_iff}
use dse_auto.Campaigns.Create.{CampaignArgs, new_campaign, create_campaign}
use dse_auto.Campaigns.Kept.{IsWell}
use dse_auto.Campaigns.Reach.{here, after, created, moved, Reaches-IsWell}
use dse_auto.Campaigns.Restart.{CampaignDb}
use dse_auto.Recovery.Startup.{run_startup_recovery}
use dse_auto.Recovery.Recovered.{IsRecovered, run_startup_recovery-IsRecovered}
use dse_auto.Sessions.{SessionTables, recover_stale_sessions}
use dse_auto.Examples.Samples.{env0, chain0, tables_with}

-- "ma", "v1" and an approval of twelve characters.
abbrev id0 : Text
id0 = 109 ∷ 97 ∷ []

abbrev version0 : Text
version0 = 118 ∷ 49 ∷ []

abbrev approval0 : Text
approval0 = id0 ++ id0 ++ id0 ++ id0 ++ id0 ++ id0

abbrev strategy_in : LifecycleState → StrategyRegistration
strategy_in state = record {
  id = 4;
  strategy_id = id0;
  version = version0;
  lifecycle_state = state;
  code_hash = "code";
  parameters = obj done;
  data_requirements = obj done;
  evidence =
      ("backtest_report", null)
      ∷ ("walk_forward_report", null)
      ∷ ("sensitivity_report", null)
      ∷ ("risk_review", null)
      ∷ ("sample_size", str (points (52 ∷ 48 ∷ []) ∷ []))
      ∷ [];
  minimum_sample_size = 30;
  operator_approval = [];
  suspension_reason = none;
}

abbrev rule_set0 : MarketRuleSet
rule_set0 = record {
  id = 8;
  version = "2026";
  effective_date = 0;
  source_reference = "circular";
  verification_status = assumed;
  operator_approval = [];
  rules = [];
  change_history = null;
  integrity_hash = "digest";
}

abbrev campaign_in : ℕ → ℕ → CampaignState → ValidationCampaign
campaign_in id account_id state = record {
  id = id;
  name = "campaign";
  account_id = account_id;
  start_date = 0;
  planned_end_date = 60;
  approved_symbols = "GP" ∷ [];
  approved_strategies = reference_of id0 version0 ∷ [];
  starting_capital = pos 10000000;
  risk_profile = obj done;
  data_source_policy = [];
  timestamp_trust_requirement = "exchange_verified";
  fill_model = "pessimistic";
  benchmark = "DSEX";
  operator_notes = "";
  state = state;
  active_rule_set_id = 8;
  active_fee_profile_id = 9;
  evidence_class = real_market;
  provider_certification_id = none;
  daily_reviewer_assignments = obj done;
}

abbrev tables0 : List StrategyRegistration → List ValidationCampaign → GovernanceTables
tables0 strategies campaigns =
    let core : SessionTables = record {
      sessions = [];
      runs = [];
      rest = tables_with (some chain0) [] [];
    } in
    record {
      rule_sets = rule_set0 ∷ [];
      fee_profiles = [];
      strategies = strategies;
      campaigns = campaigns;
      days = [];
      core = core;
    }

-- A strategy that is a candidate, and no campaign.
abbrev candidate0 : GovernanceDb
candidate0 = committed (tables0 (strategy_in paper_candidate ∷ []) [])

promote_strategy-ok_iff_example :
    HasPromoted env0 5 (strategy_in paper_candidate) paper_active approval0 candidate0 (
      promote_strategy env0 5
        (strategy_in paper_candidate)
        (lifecycle_name paper_active)
        approval0
        candidate0)
    ↔ IsPermitted env0 (strategy_in paper_candidate) paper_active approval0
promote_strategy-ok_iff_example =
    promote_strategy-ok_iff env0 5 (strategy_in paper_candidate) paper_active approval0 candidate0
      refl

-- The promotion is permitted there.
promotion_run :
    is_ok
      (promote_strategy env0 5
        (strategy_in paper_candidate)
        (lifecycle_name paper_active)
        approval0
        candidate0).0
    ≡ true
unfolding promote_strategy strip
promotion_run = refl

abbrev args0 : StrategyArgs
args0 = record {
  strategy_id = id0;
  version = version0;
  code_hash = "code";
  code_hash_length = 64;
  parameters = obj done;
  data_requirements = obj done;
  minimum_sample_size = 30;
  evidence = [];
}

abbrev empty0 : GovernanceDb
empty0 = committed (tables0 [] [])

register_strategy-by_reference_example :
    strategy_by_reference
      (reference_of id0 version0)
      (register_strategy env0 5 args0 empty0).1.work.strategies
    ≡ some (registration_of 1 args0)
unfolding register_strategy
register_strategy-by_reference_example =
    register_strategy-by_reference env0 5 args0 empty0 (register_strategy env0 5 args0 empty0).1
      (registration_of 1 args0) refl refl refl

abbrev configuration0 : FeeConfiguration
configuration0 = conservative_fee_configuration (record {
  brokerage_buy_percent = none;
  brokerage_sell_percent = none;
  minimum_brokerage = none;
  exchange_fee_percent = none;
  regulatory_fee_percent = none;
  tax_buy_percent = none;
  tax_sell_percent = none;
  settlement_charge = none;
  account_fee = none;
  flat_buy_charge = none;
  flat_sell_charge = none;
})

-- A campaign that is ready and one that another account has paused, with an active strategy.
abbrev campaigns0 : GovernanceDb
campaigns0 =
    committed (
      tables0 (strategy_in paper_active ∷ []) (campaign_in 5 1 ready ∷ campaign_in 6 2 paused ∷ []))

transition_campaign-ok_iff_example :
    HasActivated env0 5
      (campaign_in 5 1 ready)
      "start"
      "operator"
      campaigns0
      (transition_campaign env0 5 (campaign_in 5 1 ready) "active" "start" "operator" campaigns0)
    ↔ ((campaign_may_move ready active ≡ true)
        × IsActivatable (campaign_in 5 1 ready) campaigns0.work)
transition_campaign-ok_iff_example =
    transition_campaign-ok_iff env0 5 (campaign_in 5 1 ready) "start" "operator" campaigns0 refl

-- The activation succeeds there.
activation_run :
    is_ok
      (transition_campaign env0 5 (campaign_in 5 1 ready) "active" "start" "operator" campaigns0).0
    ≡ true
unfolding transition_campaign strategy_by_reference
activation_run = refl

abbrev profile0 : FeeProfile
profile0 = record {
  id = 9;
  name = "fees";
  version = "2026";
  effective_date = 0;
  broker = none;
  account_label = none;
  configuration = configuration0;
  integrity_hash = "digest";
}

abbrev opening0 : GovernanceDb
opening0 =
    committed (record (tables0 (strategy_in paper_active ∷ []) []) { fee_profiles = profile0 ∷ [] })

abbrev campaign_args0 : CampaignArgs
campaign_args0 = record {
  name = "campaign";
  start_date = 0;
  planned_end_date = 60;
  approved_symbols = "GP" ∷ [];
  approved_strategies = reference_of id0 version0 ∷ [];
  starting_capital = pos 10000000;
  risk_profile = obj done;
  data_source_policy = [];
  timestamp_trust_requirement = "exchange_verified";
  fill_model = "pessimistic";
  benchmark = "DSEX";
  operator_notes = "";
  active_rule_set_id = 8;
  active_fee_profile_id = 9;
  account_id = 1;
  evidence_class = "synthetic";
  provider_certification_id = none;
  daily_reviewer_assignments = none;
}

-- The campaign that is created there.
abbrev created0 : ValidationCampaign
created0 = new_campaign (λ s. s) 1 synthetic campaign_args0

abbrev created_db : GovernanceDb
created_db = (create_campaign (λ s. s) none env0 5 campaign_args0 opening0).1

Reaches-IsWell_example :
    IsWell (transition_campaign env0 6 created0 "active" "start" "operator" created_db).1.work
unfolding create_campaign
Reaches-IsWell_example =
    Reaches-IsWell env0 opening0
      (transition_campaign env0 6 created0 "active" "start" "operator" created_db).1 (tt, tt)
      (after created_db
        (transition_campaign env0 6 created0 "active" "start" "operator" created_db).1
        (after opening0 created_db here (created (λ s. s) none 5 campaign_args0 opening0))
        (moved 6 created0 "active" "start" "operator" created_db refl))

-- A campaign that is active with a day of its own that was never completed.
abbrev interrupted0 : CampaignDb
interrupted0 =
    let t : GovernanceTables = record (tables0 [] (campaign_in 5 1 active ∷ [])) {
      days =
          (record {
            id = 2;
            campaign_id = 5;
            market_date = 10;
            session_id = none;
            state = market_open;
            premarket_completed = true;
            eod_completed = false;
            missed_reason = none;
            summary = [];
            evidence_path = none;
            started_at = some 1;
            completed_at = none;
            evidence_class = synthetic;
          })
          ∷ [];
    } in
    record { governance = committed t; incidents = []; durable_incidents = [] }

run_startup_recovery-IsRecovered_example :
    IsRecovered 50 11 (run_startup_recovery env0 50 30 11 interrupted0).1
unfolding run_startup_recovery recover_stale_sessions
run_startup_recovery-IsRecovered_example =
    run_startup_recovery-IsRecovered env0 50 30 11 interrupted0 refl
