-- ===== src/Campaigns/Kept.antt =====
-- What each operation on the campaigns keeps.
use dse_auto.Common.{
  ℕ, ◌+◌, ◌<◌, ◌≡◌, refl, false, not, ◌&&◌, ◌||◌, Option, none, some, List, [], ◌∷◌, ◌++◌, String,
  arith, All, if_rule, ◌==◌, str_eq, ltb, length, is_none, Result, ok, raise,
}
use dse_auto.Common.Int.{pos, leb_ℤ}
use dse_auto.Common.Text.{Text, strip}
use dse_auto.Common.Single.{find_row, put_row, clash_by, put-IsSingleBy, found-FitsBy, found-All}
use dse_auto.Env.{Env}
use dse_auto.Audit.{append_event}
use dse_auto.Sessions.Create.{is_fill_model}
use dse_auto.Governance.{
  CampaignState, EvidenceClass, ValidationCampaign, GovernanceTables, GovernanceDb, fresh,
  find_rule_set, find_fee_profile, get_key,
}
use dse_auto.Campaigns.{
  is_real_market, is_unusable, is_empty, is_controlling, campaign_may_move, campaign_moved,
  check_move, move_checked, move_campaign, move_to, transition_campaign, find_campaign_state,
  campaign_states, write_campaign_move, with_rule_set, write_rule_change, change_campaign_rule_set,
}
use dse_auto.Campaigns.Create.{
  CampaignArgs, new_campaign, write_campaign, create_tested, create_targeted, create_classed,
  create_known, create_campaign, find_evidence, evidence_classes, is_certified, truth, target_days,
}
use dse_auto.Campaigns.Single.{
  id_of, both_control, both_control_comm, IsSingle, transition_campaign-IsSingle,
}

-- No two campaigns have one identifier or control one account, and the next identifier is new.
abbrev pub IsWell : GovernanceTables → Type 0
IsWell t = IsSingle t.campaigns × All (λ c. c.id < fresh t) t.campaigns

below_more :
    (n m : ℕ) (cs : List ValidationCampaign) → All (λ c. c.id < n) cs → All (λ c. c.id < n + m) cs
below_more n m [] h = tt
below_more n m (c ∷ cs) h = (omega (arith, h.0), below_more n m cs h.1)

below_put :
    (n : ℕ) (new : ValidationCampaign) (cs : List ValidationCampaign)
    → new.id < n
    → All (λ c. c.id < n) cs
    → All (λ c. c.id < n) (put_row id_of new cs)
below_put n new [] low h = tt
below_put n new (c ∷ cs) low h = (
  if_rule (λ x. x.id < n) (c.id == new.id) new c (λ _. low) (λ _. h.0),
  below_put n new cs low h.1,
)

below_added :
    (n : ℕ) (new : ValidationCampaign) (cs : List ValidationCampaign)
    → new.id < n
    → All (λ c. c.id < n) cs
    → All (λ c. c.id < n) (cs ++ new ∷ [])
below_added n new [] low h = (low, tt)
below_added n new (c ∷ cs) low h = (h.0, below_added n new cs low h.1)

-- A new row that controls nothing, with an identifier above the others.
module _ (new : ValidationCampaign) (idle : is_controlling new.state ≡ false) where
  apart_added :
      (x : ValidationCampaign) (cs : List ValidationCampaign)
      → x.id < new.id
      → All (λ y. clash_by id_of both_control x y ≡ false) cs
      → All (λ y. clash_by id_of both_control x y ≡ false) (cs ++ new ∷ [])
  apart_added x [] low h = (ground arith, tt)
  apart_added x (c ∷ cs) low h = (h.0, apart_added x cs low h.1)

  put_behind :
      (cs : List ValidationCampaign)
      → IsSingle cs
      → All (λ c. c.id < new.id) cs
      → IsSingle (cs ++ new ∷ [])
  put_behind [] h low = (tt, tt)
  put_behind (c ∷ cs) h low = (apart_added c cs low.0 h.0, put_behind cs h.1 low.1)

-- The tables after an operation.
abbrev Keeps : Result ValidationCampaign × GovernanceDb → Type 0
Keeps r = IsWell r.1.work

module _ (upper : String → String) (certification : Option String) (env : Env) (now : ℕ)
    (a : CampaignArgs) (db : GovernanceDb) (h : IsWell db.work) where
  written-Keeps : (evidence : EvidenceClass) → Keeps (write_campaign upper env now evidence a db)
  unfolding write_campaign append_event
  written-Keeps evidence = (
    put_behind (new_campaign upper (fresh db.work) evidence a) refl db.work.campaigns h.0 h.1,
    below_added (fresh db.work + 1 + 1) (new_campaign upper (fresh db.work) evidence a)
        db.work.campaigns (omega arith)
        (below_more (fresh db.work + 1) 1 db.work.campaigns
          (below_more (fresh db.work) 1 db.work.campaigns h.1)),
  )

  tested-Keeps : (evidence : EvidenceClass) → Keeps (create_tested upper env now evidence a db)
  tested-Keeps evidence =
      if_rule Keeps (is_unusable (find_rule_set a.active_rule_set_id db.work.rule_sets)) _ _
        (λ _. h)
        (λ _.
          if_rule Keeps (is_none (find_fee_profile a.active_fee_profile_id db.work.fee_profiles)) _
            _ (λ _. h) (λ _. written-Keeps evidence))

  targeted-Keeps :
      (evidence : EvidenceClass) (days : Result ℕ)
      → Keeps (create_targeted upper env now evidence a db days)
  targeted-Keeps evidence (raise e) = h
  targeted-Keeps evidence (ok days) =
      if_rule Keeps (days == 60) _ _ (λ _. tested-Keeps evidence) (λ _. h)

  known-Keeps : (o : Option EvidenceClass) → Keeps (create_known upper certification env now a db o)
  unfolding create_classed
  known-Keeps none = h
  known-Keeps (some evidence) =
      if_rule Keeps
        (is_real_market evidence
          && not (
              is_certified certification
              || truth (get_key "allow_operator_attested" a.data_source_policy)))
        _ _ (λ _. h)
        (λ _.
          if_rule Keeps (is_real_market evidence) _ _
            (λ _.
              targeted-Keeps evidence
                (target_days env (get_key "qualification_target_days" a.data_source_policy)))
            (λ _. tested-Keeps evidence))

  pub created-Keeps : Keeps (create_campaign upper certification env now a db)
  unfolding create_campaign
  created-Keeps =
      if_rule Keeps (ltb a.planned_end_date a.start_date) _ _ (λ _. h)
        (λ _.
          if_rule Keeps
            (is_empty a.approved_symbols
              || is_empty a.approved_strategies
              || leb_ℤ a.starting_capital (pos 0))
            _ _ (λ _. h)
            (λ _.
              if_rule Keeps (not (is_fill_model a.fill_model)) _ _ (λ _. h)
                (λ _.
                  if_rule Keeps
                    (not (
                      str_eq a.timestamp_trust_requirement "operator_attested"
                      || str_eq a.timestamp_trust_requirement "exchange_verified"))
                    _ _ (λ _. h)
                    (λ _. known-Keeps (find_evidence a.evidence_class evidence_classes)))))

module _ (env : Env) (now : ℕ) (campaign : ValidationCampaign) (db : GovernanceDb)
    (h : IsWell db.work)
    (found : find_row id_of campaign.id db.work.campaigns ≡ some campaign) where
  row_below : campaign.id < fresh db.work
  row_below =
      found-All id_of both_control both_control_comm (λ c. c.id < fresh db.work) campaign.id
        campaign db.work.campaigns h.1 found

  put-below :
      (new : ValidationCampaign)
      → new.id ≡ campaign.id
      → All (λ c. c.id < fresh db.work + 1) (put_row id_of new db.work.campaigns)
  put-below new e =
      below_put (fresh db.work + 1) new db.work.campaigns (omega (arith, e, row_below))
        (below_more (fresh db.work) 1 db.work.campaigns h.1)

  -- The bound, after an operation.
  abbrev Below : Result ValidationCampaign × GovernanceDb → Type 0
  Below r = All (λ c. c.id < fresh r.1.work) r.1.work.campaigns

  moved-Below :
      (reason actor : String) (o : Option CampaignState)
      → Below (move_to env now campaign reason actor db o)
  unfolding move_campaign write_campaign_move append_event
  moved-Below reason actor none = h.1
  moved-Below reason actor (some target) =
      if_rule Below (not (campaign_may_move campaign.state target)) _ _ (λ _. h.1)
        (λ _. by_check (check_move campaign target db.work))
    where
      by_check :
          (c : Result (Unit {0})) → Below (move_checked env now campaign target reason actor db c)
      by_check (raise e) = h.1
      by_check (ok _) = put-below (campaign_moved target campaign) refl

  pub moved-Keeps :
      (target reason actor : String)
      → Keeps (transition_campaign env now campaign target reason actor db)
  unfolding transition_campaign
  moved-Keeps target reason actor = (
    transition_campaign-IsSingle env now campaign target reason actor db h.0 found,
    moved-Below reason actor (find_campaign_state target campaign_states),
  )

  pub ruled-Keeps :
      (rule_set_id : ℕ) (approval : Text)
      → Keeps (change_campaign_rule_set env now campaign rule_set_id approval db)
  unfolding change_campaign_rule_set write_rule_change append_event
  ruled-Keeps rule_set_id approval =
      if_rule Keeps (is_controlling campaign.state) _ _ (λ _. h)
        (λ _.
          if_rule Keeps (is_unusable (find_rule_set rule_set_id db.work.rule_sets)) _ _ (λ _. h)
            (λ _.
              if_rule Keeps (ltb (length (strip approval)) 12) _ _ (λ _. h)
                (λ _. (
                  put-IsSingleBy id_of both_control both_control_comm
                      (with_rule_set rule_set_id campaign) db.work.campaigns h.0
                      (found-FitsBy id_of both_control both_control_comm campaign.id campaign
                        db.work.campaigns h.0 found),
                  put-below (with_rule_set rule_set_id campaign) refl,
                ))))
