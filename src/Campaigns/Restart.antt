-- ===== src/Campaigns/Restart.antt =====
-- `recover_campaigns_after_restart`, over the tables of the campaigns and that of the incidents.
-- `open_incident` commits both.
use dse_auto.Common.{
  ℕ, Bool, not, ◌&&◌, Option, none, some, List, [], ◌∷◌, ◌++◌, String, ltb, ◌==◌, keep,
  if◌then◌else◌,
}
use dse_auto.Common.Keys.{Json, int, dict}
use dse_auto.Store.{Session}
use dse_auto.Env.{Env}
use dse_auto.Governance.{
  CampaignState, reconciliation_required, ValidationCampaign, DayState, day_reconciliation_required,
  CampaignDay, GovernanceTables, GovernanceDb, committed, set_core,
}
use dse_auto.Incidents.{OperationalIncident, IncidentDb, open_incident}
use dse_auto.Campaigns.{is_controlling, set_campaigns}

pub record CampaignDb : Type 0 where
  pub governance : GovernanceDb
  pub incidents : List OperationalIncident
  pub durable_incidents : List OperationalIncident

abbrev pub set_governance : GovernanceDb → CampaignDb → CampaignDb
set_governance g db = record {
  governance = g;
  incidents = db.incidents;
  durable_incidents = db.durable_incidents;
}

abbrev pub in_work : GovernanceTables → CampaignDb → CampaignDb
in_work t db = set_governance (record { work = t; durable = db.governance.durable }) db

-- db.commit()
abbrev pub commit_all : CampaignDb → CampaignDb
commit_all db = record {
  governance = committed db.governance.work;
  incidents = db.incidents;
  durable_incidents = db.incidents;
}

-- The incidents with the session of the trading core.
abbrev pub incident_db : CampaignDb → IncidentDb
incident_db db = record {
  incidents = db.incidents;
  durable_incidents = db.durable_incidents;
  session = record {
    work = db.governance.work.core.rest;
    durable = db.governance.durable.core.rest;
  };
}

-- The tables of the trading core as a session of theirs leaves them.
abbrev pub with_rest : Session → GovernanceTables → GovernanceTables
with_rest s t = set_core (record t.core { rest = s.work }) t

-- The incident is opened in the same session, which is committed.
unfoldable pub open_campaign_incident :
    Env → ℕ → Option ℕ → String → String → Json → CampaignDb → CampaignDb
open_campaign_incident env now campaign_id incident_type severity evidence db =
    let (incident, i) =
      open_incident env now campaign_id incident_type severity none (some evidence)
        (incident_db db) in
    record {
      governance = committed (with_rest i.session db.governance.work);
      incidents = i.incidents;
      durable_incidents = i.durable_incidents;
    }

-- A day before the date whose session began and was not completed.
abbrev pub is_incomplete : ℕ → ℕ → CampaignDay → Bool
is_incomplete campaign_id as_of d =
    d.campaign_id == campaign_id
    && ltb d.market_date as_of
    && d.premarket_completed
    && not d.eod_completed

abbrev pub find_incomplete : ℕ → ℕ → List CampaignDay → Option CampaignDay
find_incomplete campaign_id as_of [] = none
find_incomplete campaign_id as_of (d ∷ ds) =
    if is_incomplete campaign_id as_of d then some d else find_incomplete campaign_id as_of ds

-- campaign.state = …
abbrev pub assign_campaign : ℕ → CampaignState → List ValidationCampaign → List ValidationCampaign
assign_campaign id k [] = []
assign_campaign id k (c ∷ cs) =
    (if c.id == id then record c { state = k } else c) ∷ assign_campaign id k cs

-- incomplete.state = …
abbrev pub assign_day : ℕ → DayState → List CampaignDay → List CampaignDay
assign_day id k [] = []
assign_day id k (d ∷ ds) = (if d.id == id then record d { state = k } else d) ∷ assign_day id k ds

abbrev pub set_days : List CampaignDay → GovernanceTables → GovernanceTables
set_days ds t = record {
  rule_sets = t.rule_sets;
  fee_profiles = t.fee_profiles;
  strategies = t.strategies;
  campaigns = t.campaigns;
  days = ds;
  core = t.core;
}

abbrev pub suspend_rows : ℕ → ℕ → GovernanceTables → GovernanceTables
suspend_rows campaign_id day_id t =
    set_campaigns (assign_campaign campaign_id reconciliation_required t.campaigns)
      (set_days (assign_day day_id day_reconciliation_required t.days) t)

-- The round of a campaign, with the day that the query finds.
abbrev pub flag :
    Env → ℕ → ValidationCampaign → Option CampaignDay → CampaignDb → List ℕ × CampaignDb
flag env now campaign none db = ([], db)
flag env now campaign (some day) db = (
  campaign.id ∷ [],
  open_campaign_incident env now (some campaign.id) "unexpected_process_restart" "high"
      (dict (("incomplete_day", int day.market_date) ∷ []))
      (in_work (suspend_rows campaign.id day.id db.governance.work) db),
)

-- The loop over the campaigns of the first query.
unfoldable pub flag_all : Env → ℕ → ℕ → List ValidationCampaign → CampaignDb → List ℕ × CampaignDb
unfolding open_campaign_incident
flag_all env now as_of [] db = ([], db)
flag_all env now as_of (campaign ∷ rest) db =
    let (affected, db') =
      flag env now campaign (find_incomplete campaign.id as_of db.governance.work.days) db in
    let (others, db2) = flag_all env now as_of rest db' in (affected ++ others, db2)

unfoldable pub recover_campaigns_after_restart : Env → ℕ → ℕ → CampaignDb → List ℕ × CampaignDb
unfolding flag_all
recover_campaigns_after_restart env now as_of db =
    let campaigns = keep (λ c. is_controlling c.state) db.governance.work.campaigns in
    let (affected, db') = flag_all env now as_of campaigns db in (affected, commit_all db')
