-- ===== src/Campaigns/Reach.antt =====
-- The campaigns after any sequence of operations on them.
use dse_auto.Common.{ℕ, ◌≡◌, Option, some, String}
use dse_auto.Common.Text.{Text}
use dse_auto.Common.Single.{find_row}
use dse_auto.Env.{Env}
use dse_auto.Governance.{ValidationCampaign, GovernanceDb}
use dse_auto.Campaigns.{transition_campaign, change_campaign_rule_set}
use dse_auto.Campaigns.Create.{CampaignArgs, create_campaign}
use dse_auto.Campaigns.Single.{id_of}
use dse_auto.Campaigns.Kept.{IsWell, created-Keeps, moved-Keeps, ruled-Keeps}

-- An operation on the campaigns, successful or not.
pub data Step (env : Env) : GovernanceDb → GovernanceDb → Type 0 where
  created :
      (upper : String → String) (certification : Option String) (now : ℕ) (a : CampaignArgs)
      (db : GovernanceDb)
      → Step env db (create_campaign upper certification env now a db).1
  moved :
      (now : ℕ) (campaign : ValidationCampaign) (target reason actor : String) (db : GovernanceDb)
      → find_row id_of campaign.id db.work.campaigns ≡ some campaign
      → Step env db (transition_campaign env now campaign target reason actor db).1
  ruled :
      (now : ℕ) (campaign : ValidationCampaign) (rule_set_id : ℕ) (approval : Text)
      (db : GovernanceDb)
      → find_row id_of campaign.id db.work.campaigns ≡ some campaign
      → Step env db (change_campaign_rule_set env now campaign rule_set_id approval db).1

-- What a sequence of operations reaches.
pub data Reaches (env : Env) (start : GovernanceDb) : GovernanceDb → Type 0 where
  here : Reaches env start start
  after :
      (db next : GovernanceDb) → Reaches env start db → Step env db next → Reaches env start next

step-IsWell :
    (env : Env) (db next : GovernanceDb) → Step env db next → IsWell db.work → IsWell next.work
step-IsWell env _ _ (created upper certification now a db) h =
    created-Keeps upper certification env now a db h
step-IsWell env _ _ (moved now campaign target reason actor db found) h =
    moved-Keeps env now campaign db h found target reason actor
step-IsWell env _ _ (ruled now campaign rule_set_id approval db found) h =
    ruled-Keeps env now campaign db h found rule_set_id approval

-- From tables in which no two campaigns have one identifier or control one account, and the next
-- identifier is above those of the campaigns, every sequence of creations, transitions and changes of
-- the rule set, each of a row of the tables and successful or not, leads to tables of which the same
-- holds.
pub Reaches-IsWell :
    (env : Env) (start db : GovernanceDb)
    → IsWell start.work
    → Reaches env start db
    → IsWell db.work
Reaches-IsWell env start _ h here = h
Reaches-IsWell env start _ h (after before next reached step) =
    step-IsWell env before next step (Reaches-IsWell env start before h reached)
