-- ===== src/Campaigns/Passed.antt =====
-- The tests of an activation, in the order of the code.
use dse_auto.Common.{
  ℕ, ◌≡◌, sym, ◌∙◌, refl, Bool, true, false, not, ◌&&◌, List, [], ◌∷◌, String, arith, All, if_rule,
  Result, ok, raise, any,
}
use dse_auto.Common.Text.{Text}
use dse_auto.Env.{Env}
use dse_auto.Governance.{
  StrategyRegistration, ValidationCampaign, GovernanceTables, GovernanceDb, committed,
  find_rule_set, active,
}
use dse_auto.Common.{is_ok}
use dse_auto.Governance.Strategy.{strategy_by_reference}
use dse_auto.Campaigns.{
  is_real_market, is_ready, is_rival_campaign, governance_failures, is_governed, is_unusable,
  is_empty, check_activation, check_move, campaign_may_move, move_checked, move_campaign,
  transition_campaign, campaign_moved, write_campaign_move,
}

-- The outcomes of the tests.
pub record HasPassed (campaign : ValidationCampaign) (t : GovernanceTables) : Type 0 where
  pub prepared : (is_real_market campaign.evidence_class && not (is_ready campaign.state)) ≡ false
  pub alone : any (is_rival_campaign campaign) t.campaigns ≡ false
  pub governed :
      All
        (λ reference. is_governed (strategy_by_reference reference t.strategies) ≡ true)
        campaign.approved_strategies
  pub usable : is_unusable (find_rule_set campaign.active_rule_set_id t.rule_sets) ≡ false

no_failures :
    (rs : List StrategyRegistration) (references : List Text)
    → is_empty (governance_failures rs references) ≡ true
    → All (λ reference. is_governed (strategy_by_reference reference rs) ≡ true) references
unfolding governance_failures
no_failures rs [] = λ _. tt
no_failures rs (reference ∷ rest) =
    if_rule
      (λ l.
        is_empty l ≡ true
        → All (λ reference. is_governed (strategy_by_reference reference rs) ≡ true)
            (reference ∷ rest))
      (is_governed (strategy_by_reference reference rs)) (governance_failures rs rest)
      (reference ∷ governance_failures rs rest) (λ passed h. (passed, no_failures rs rest h))
      (λ _ h. absurd (ground arith))

none_failing :
    (rs : List StrategyRegistration) (references : List Text)
    → All (λ reference. is_governed (strategy_by_reference reference rs) ≡ true) references
    → governance_failures rs references ≡ []
unfolding governance_failures
none_failing rs [] h = refl
none_failing rs (reference ∷ rest) h =
    if_rule (λ l. l ≡ []) (is_governed (strategy_by_reference reference rs))
      (governance_failures rs rest) (reference ∷ governance_failures rs rest)
      (λ _. none_failing rs rest h.1) (λ failed. absurd (two failed h.0))
  where
    two : {b : Bool} → b ≡ false → b ≡ true → ⊥
    two f t = ground arith

pub activation-HasPassed :
    (campaign : ValidationCampaign) (t : GovernanceTables)
    → is_ok (check_activation campaign t) ≡ true
    → HasPassed campaign t
unfolding check_activation
activation-HasPassed campaign t =
    if_rule Grants (is_real_market campaign.evidence_class && not (is_ready campaign.state)) _ _
      (λ _ passed. absurd (ground arith))
      (λ prepared.
        if_rule Grants (any (is_rival_campaign campaign) t.campaigns) _ _
          (λ _ passed. absurd (ground arith))
          (λ alone.
            if_rule Grants
              (not (is_empty (governance_failures t.strategies campaign.approved_strategies))) _ _
              (λ _ passed. absurd (ground arith))
              (λ governed.
                if_rule Grants (is_unusable (find_rule_set campaign.active_rule_set_id t.rule_sets))
                  _ _ (λ _ passed. absurd (ground arith))
                  (λ usable _. record {
                    prepared = prepared;
                    alone = alone;
                    governed = no_failures t.strategies campaign.approved_strategies (ground arith);
                    usable = usable;
                  }))))
  where
    Grants : Result (Unit {0}) → Type 0
    Grants x = is_ok x ≡ true → HasPassed campaign t

HasPassed-passes :
    (campaign : ValidationCampaign) (t : GovernanceTables)
    → HasPassed campaign t
    → check_activation campaign t ≡ ok tt
unfolding check_activation
HasPassed-passes campaign t a =
    rw
      (
        a.prepared,
        a.alone,
        none_failing t.strategies campaign.approved_strategies a.governed,
        a.usable,
        check_activation,
      )
      refl

module _ (env : Env) (now : ℕ) (campaign : ValidationCampaign) (reason actor : String)
    (db : GovernanceDb) where
  checked_ok :
      (c : Result (Unit {0}))
      → is_ok (move_checked env now campaign active reason actor db c).0 ≡ is_ok c
  checked_ok (raise e) = refl
  checked_ok (ok _) = refl

  pub activated-HasPassed :
      is_ok (transition_campaign env now campaign "active" reason actor db).0 ≡ true
      → (campaign_may_move campaign.state active ≡ true) × HasPassed campaign db.work
  unfolding transition_campaign move_campaign
  activated-HasPassed =
      if_rule
        (λ (x : Result ValidationCampaign × GovernanceDb).
          is_ok x.0 ≡ true
          → (campaign_may_move campaign.state active ≡ true) × HasPassed campaign db.work)
        (not (campaign_may_move campaign.state active)) _ _ (λ _ passed. absurd (ground arith))
        (λ may passed. (
          ground arith,
          activation-HasPassed campaign db.work
              (sym (checked_ok (check_move campaign active db.work)) ∙ passed),
        ))

  pub HasPassed-activated :
      (campaign_may_move campaign.state active ≡ true) × HasPassed campaign db.work
      → transition_campaign env now campaign "active" reason actor db ≡ (
        ok (campaign_moved active campaign),
        committed (write_campaign_move env now campaign active reason actor db.work),
      )
  unfolding transition_campaign move_campaign
  HasPassed-activated h =
      rw (h.0, HasPassed-passes campaign db.work h.1, transition_campaign, move_campaign) refl
