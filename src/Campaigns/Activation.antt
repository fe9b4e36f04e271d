-- ===== src/Campaigns/Activation.antt =====
-- What the activation of a campaign requires, against an independent description.
use dse_auto.Common.{
  ℕ, ◌≡◌, ◌↔◌, refl, ap, ◌∙◌, Bool, true, false, not, ◌&&◌, Option, none, some, List, [], ◌∷◌,
  String, arith, All, any, ◌==◌, Bool-cases, inl, inr, Result, ok, sym,
}
use mathlib.Core.Path.{subst}
use dse_auto.Common.Single.{find_row, find_row-put}
use dse_auto.Common.Text.{Text}
use dse_auto.Env.{Env}
use dse_auto.Governance.{
  StrategyRegistration, ValidationCampaign, GovernanceTables, GovernanceDb, committed,
  find_rule_set, MarketRuleSet, active,
}
use dse_auto.Common.{is_ok}
use dse_auto.Governance.Strategy.{strategy_by_reference}
use dse_auto.Campaigns.{
  is_real_market, is_ready, is_rival_campaign, is_controlling, is_governed, is_paper_active,
  is_unusable, is_deprecated, campaign_may_move, transition_campaign, campaign_moved,
  write_campaign_move,
}
use dse_auto.Campaigns.Passed.{HasPassed, activated-HasPassed, HasPassed-activated}

-- The reference is that of a strategy that is active on paper.
abbrev pub IsGoverned : List StrategyRegistration → Text → Type 0
IsGoverned rs reference =
    (r : StrategyRegistration) × (strategy_by_reference reference rs ≡ some r)
    × (is_paper_active r.lifecycle_state ≡ true)

-- The other campaign, unless it is the same, leaves the account alone.
abbrev pub IsApart : ValidationCampaign → ValidationCampaign → Type 0
IsApart campaign other =
    other.account_id ≡ campaign.account_id
    → is_controlling other.state ≡ true
    → other.id ≡ campaign.id

-- What an activation asks.
pub record IsActivatable (campaign : ValidationCampaign) (t : GovernanceTables) : Type 0 where
  pub prepared : is_real_market campaign.evidence_class ≡ true → is_ready campaign.state ≡ true
  pub alone : All (IsApart campaign) t.campaigns
  pub governed : All (IsGoverned t.strategies) campaign.approved_strategies
  pub rule_set : MarketRuleSet
  pub stored : find_rule_set campaign.active_rule_set_id t.rule_sets ≡ some rule_set
  pub usable : is_deprecated rule_set.verification_status ≡ false

not_rival_iff :
    (campaign other : ValidationCampaign)
    → (is_rival_campaign campaign other ≡ false) ↔ IsApart campaign other
not_rival_iff campaign other = (
  λ h same controls. ground arith,
  λ h. elim (Bool-cases (other.account_id == campaign.account_id)) [
    | inr elsewhere ↦ ground arith
    | inl here ↦ elim (Bool-cases (is_controlling other.state)) [
      | inr idle ↦ ground arith
      | inl controls ↦ ground (arith, h (ground arith) controls)
    ]
  ],
)

alone_iff :
    (campaign : ValidationCampaign) (cs : List ValidationCampaign)
    → (any (is_rival_campaign campaign) cs ≡ false) ↔ All (IsApart campaign) cs
alone_iff campaign [] = (λ _. tt, λ _. refl)
alone_iff campaign (c ∷ cs) = (
  λ h. ((not_rival_iff campaign c).0 (ground arith), (alone_iff campaign cs).0 (ground arith)),
  λ h. ground (arith, (not_rival_iff campaign c).1 h.0, (alone_iff campaign cs).1 h.1),
)

module _ (rs : List StrategyRegistration) (reference : Text) where
  to_governed :
      (o : Option StrategyRegistration)
      → strategy_by_reference reference rs ≡ o
      → is_governed o ≡ true
      → IsGoverned rs reference
  to_governed none e = λ h. absurd (ground arith)
  to_governed (some r) e = λ h. (r, e, h)

  from_governed : IsGoverned rs reference → is_governed (strategy_by_reference reference rs) ≡ true
  from_governed (r, e, h) = ap is_governed e ∙ h

each_reference :
    {P Q : Text → Type 0} (references : List Text)
    → ((reference : Text) → P reference → Q reference)
    → All P references
    → All Q references
each_reference [] f h = tt
each_reference (r ∷ rest) f h = (f r h.0, each_reference rest f h.1)

module _ (campaign : ValidationCampaign) (t : GovernanceTables) where
  abbrev found : Option MarketRuleSet
  found = find_rule_set campaign.active_rule_set_id t.rule_sets

  -- A record of what the tests found, for what the table holds.
  described : HasPassed campaign t → IsActivatable campaign t
  described p = with_rules found refl p.usable
    where
      with_rules :
          (o : Option MarketRuleSet) → found ≡ o → is_unusable o ≡ false → IsActivatable campaign t
      with_rules none e = λ h. absurd (ground arith)
      with_rules (some r) e = λ h. record {
        prepared = λ real. ground (arith, p.prepared);
        alone = (alone_iff campaign t.campaigns).0 p.alone;
        governed =
            each_reference campaign.approved_strategies
              (λ reference.
                to_governed t.strategies reference (strategy_by_reference reference t.strategies)
                  refl)
              p.governed;
        rule_set = r;
        stored = e;
        usable = h;
      }

  tested : IsActivatable campaign t → HasPassed campaign t
  tested a = record {
    prepared =
        by_class (is_real_market campaign.evidence_class) (is_ready campaign.state) a.prepared;
    alone = (alone_iff campaign t.campaigns).1 a.alone;
    governed = each_reference campaign.approved_strategies (from_governed t.strategies) a.governed;
    usable = ap is_unusable a.stored ∙ a.usable;
  }
    where
      by_class : (b c : Bool) → (b ≡ true → c ≡ true) → (b && not c) ≡ false
      by_class false c h = refl
      by_class true c h = ap not (h refl)

module _ (env : Env) (now : ℕ) (campaign : ValidationCampaign) (reason actor : String)
    (db : GovernanceDb) where
  -- The campaign is returned, active and else unchanged, and is the row of its identifier, committed.
  abbrev pub HasActivated : Result ValidationCampaign × GovernanceDb → Type 0
  HasActivated x =
      (new : ValidationCampaign) × (x.0 ≡ ok new)
      × (new ≡ record campaign { state = active })
      × (find_row (λ c. c.id) campaign.id x.1.durable.campaigns ≡ some new)
      × (x.1.durable ≡ x.1.work)

  written-HasActivated :
      {old : ValidationCampaign}
      → find_row (λ c. c.id) campaign.id db.work.campaigns ≡ some old
      → HasActivated (
        ok (campaign_moved active campaign),
        committed (write_campaign_move env now campaign active reason actor db.work),
      )
  unfolding write_campaign_move
  written-HasActivated found = (
    campaign_moved active campaign,
    refl,
    refl,
    find_row-put (λ c. c.id) (campaign_moved active campaign) db.work.campaigns found,
    refl,
  )

-- Where the campaign is a row of the table, `transition_campaign` returns it with the state active, else
-- unchanged, and with its row stored and committed, exactly where the table of transitions has the move
-- from its state, a campaign of real-market evidence is ready, no other campaign controls the account,
-- every approved strategy resolves to a registration that is active on paper, and the rule set exists
-- and is not deprecated.
pub transition_campaign-ok_iff :
    (env : Env) (now : ℕ) (campaign : ValidationCampaign) (reason actor : String)
    (db : GovernanceDb)
    → find_row (λ c. c.id) campaign.id db.work.campaigns ≡ some campaign
    → HasActivated env now campaign reason actor db
        (transition_campaign env now campaign "active" reason actor db)
      ↔ ((campaign_may_move campaign.state active ≡ true) × IsActivatable campaign db.work)
transition_campaign-ok_iff env now campaign reason actor db found = (
  λ h. after (activated-HasPassed env now campaign reason actor db (ap is_ok h.1)),
  λ h.
      subst (HasActivated env now campaign reason actor db)
        (sym
          (HasPassed-activated env now campaign reason actor db (h.0, tested campaign db.work h.1)))
        (written-HasActivated env now campaign reason actor db found),
)
  where
    after :
        (campaign_may_move campaign.state active ≡ true) × HasPassed campaign db.work
        → (campaign_may_move campaign.state active ≡ true) × IsActivatable campaign db.work
    after h = (h.0, described campaign db.work h.1)
