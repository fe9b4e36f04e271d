-- ===== src/Campaigns/Single.antt =====
-- The campaigns that control an account.
use dse_auto.Common.{
  ℕ, ◌≡◌, ap, refl, Bool, true, false, not, ◌&&◌, ◌||◌, Option, none, some, List, [], ◌∷◌, String,
  arith, Bool-cases, inl, inr, if_rule, ◌==◌, Result, ok, raise, any, all,
}
use dse_auto.Common.Single.{find_row, IsSingleBy, FitsBy, put-IsSingleBy, found-FitsBy}
use dse_auto.Env.{Env}
use dse_auto.Governance.{
  CampaignState, configured, awaiting_data, ready, active, paused, degraded,
  reconciliation_required, completed, invalidated, archived_campaign, ValidationCampaign,
  GovernanceDb,
}
use dse_auto.Common.{is_ok}
use dse_auto.Campaigns.Passed.{activation-HasPassed}
use dse_auto.Campaigns.{
  is_controlling, campaign_may_move, is_activation, is_rival_campaign, check_activation, check_move,
  campaign_moved, find_campaign_state, campaign_states, write_campaign_move, move_checked,
  move_campaign, move_to, transition_campaign,
}

abbrev pub id_of : ValidationCampaign → ℕ
id_of c = c.id

abbrev pub both_control : ValidationCampaign → ValidationCampaign → Bool
both_control x y = x.account_id == y.account_id && is_controlling x.state && is_controlling y.state

-- No two rows have one identifier, and no two control one account.
abbrev pub IsSingle : List ValidationCampaign → Type 0
IsSingle = IsSingleBy id_of both_control

pub both_control_comm : (x y : ValidationCampaign) → both_control x y ≡ both_control y x
both_control_comm x y = ground arith

-- A test that every listed state passes.
each : (p : CampaignState → Bool) → all p campaign_states ≡ true → (k : CampaignState) → p k ≡ true
each p h configured = ground arith
each p h awaiting_data = ground arith
each p h ready = ground arith
each p h active = ground arith
each p h paused = ground arith
each p h degraded = ground arith
each p h reconciliation_required = ground arith
each p h completed = ground arith
each p h invalidated = ground arith
each p h archived_campaign = ground arith

-- A state that controls is entered by an activation or from one that controls.
abbrev keeps_control : CampaignState → CampaignState → Bool
keeps_control from target =
    not (campaign_may_move from target)
    || not (is_controlling target)
    || is_activation target
    || is_controlling from

kept_control : (from target : CampaignState) → keeps_control from target ≡ true
kept_control from target =
    each (keeps_control from) (each (λ k. all (keeps_control k) campaign_states) refl from) target

module _ (target : CampaignState) (campaign : ValidationCampaign) where
  idle-Fits :
      (cs : List ValidationCampaign)
      → is_controlling target ≡ false
      → FitsBy id_of both_control (campaign_moved target campaign) cs
  idle-Fits [] idle = tt
  idle-Fits (y ∷ cs) idle = (λ other. ground arith, idle-Fits cs idle)

  alone-Fits :
      (cs : List ValidationCampaign)
      → any (is_rival_campaign campaign) cs ≡ false
      → FitsBy id_of both_control (campaign_moved target campaign) cs
  alone-Fits [] alone = tt
  alone-Fits (y ∷ cs) alone = (λ other. ground arith, alone-Fits cs (ground arith))

  kept-Fits :
      (cs : List ValidationCampaign)
      → is_controlling campaign.state ≡ true
      → FitsBy id_of both_control campaign cs
      → FitsBy id_of both_control (campaign_moved target campaign) cs
  kept-Fits [] controls h = tt
  kept-Fits (y ∷ cs) controls h = (λ other. kept (h.0 other) other, kept-Fits cs controls h.1)
    where
      kept :
          (campaign.id == y.id || both_control campaign y) ≡ false
          → (y.id == campaign.id) ≡ false
          → (campaign.id == y.id || both_control (campaign_moved target campaign) y) ≡ false
      kept apart other = ground arith

  move_campaign-IsSingle :
      (env : Env) (now : ℕ) (reason actor : String) (db : GovernanceDb)
      → IsSingle db.work.campaigns
      → find_row id_of campaign.id db.work.campaigns ≡ some campaign
      → IsSingle (move_campaign env now campaign target reason actor db).1.work.campaigns
  unfolding move_campaign write_campaign_move
  move_campaign-IsSingle env now reason actor db h found =
      if_rule Kept (not (campaign_may_move campaign.state target)) _ _ (λ _. h)
        (λ may. by_check (check_move campaign target db.work) refl (ground arith))
    where
      Kept : Result ValidationCampaign × GovernanceDb → Type 0
      Kept r = IsSingle r.1.work.campaigns

      kept :
          FitsBy id_of both_control (campaign_moved target campaign) db.work.campaigns
          → Kept (move_checked env now campaign target reason actor db (ok tt))
      kept fits =
          put-IsSingleBy id_of both_control both_control_comm (campaign_moved target campaign)
            db.work.campaigns h fits

      two : {b : Bool} → b ≡ true → b ≡ false → ⊥
      two t f = ground arith

      no_rival :
          is_activation target ≡ true
          → is_ok (check_move campaign target db.work) ≡ true
          → any (is_rival_campaign campaign) db.work.campaigns ≡ false
      no_rival activation =
          if_rule (λ x. is_ok x ≡ true → any (is_rival_campaign campaign) db.work.campaigns ≡ false)
            (is_activation target) (check_activation campaign db.work) (ok tt)
            (λ _ passed. (activation-HasPassed campaign db.work passed).alone)
            (λ other. absurd (two activation other))

      by_check :
          (c : Result (Unit {0}))
          → check_move campaign target db.work ≡ c
          → campaign_may_move campaign.state target ≡ true
          → Kept (move_checked env now campaign target reason actor db c)
      by_check (raise e) checked may = h
      by_check (ok _) checked may = elim (Bool-cases (is_controlling target)) [
        | inr idle ↦ kept (idle-Fits db.work.campaigns idle)
        | inl controls ↦ elim (Bool-cases (is_activation target)) [
          | inl activation ↦
              kept (alone-Fits db.work.campaigns (no_rival activation (ap is_ok checked)))
          | inr other ↦ kept (
              kept-Fits db.work.campaigns (ground (arith, kept_control campaign.state target)) (
                found-FitsBy id_of both_control both_control_comm campaign.id campaign
                  db.work.campaigns h found))
        ]
      ]

-- Where no two campaigns have one identifier or control one account, the same holds after
-- `transition_campaign` on a row of the table, whether it moves the campaign or raises.
pub transition_campaign-IsSingle :
    (env : Env) (now : ℕ) (campaign : ValidationCampaign) (target_state reason actor : String)
    (db : GovernanceDb)
    → IsSingle db.work.campaigns
    → find_row id_of campaign.id db.work.campaigns ≡ some campaign
    → IsSingle (transition_campaign env now campaign target_state reason actor db).1.work.campaigns
unfolding transition_campaign
transition_campaign-IsSingle env now campaign target_state reason actor db h found =
    by_state (find_campaign_state target_state campaign_states)
  where
    by_state :
        (k : Option CampaignState)
        → IsSingle (move_to env now campaign reason actor db k).1.work.campaigns
    by_state none = h
    by_state (some target) = move_campaign-IsSingle target campaign env now reason actor db h found
