-- ===== src/Campaigns/Restarted.antt =====
-- The campaigns after a restart.
use dse_auto.Common.{
  ℕ, ◌≡◌, refl, ap, Bool, true, false, not, ◌||◌, ◌⊎◌, inl, inr, Bool-cases, Option, none, some,
  List, [], ◌∷◌, arith, All, if_rule, ◌==◌, any, keep,
}
use mathlib.Core.Path.{subst}
use dse_auto.Env.{Env}
use dse_auto.Governance.{
  CampaignState, ValidationCampaign, CampaignDay, DayState, reconciliation_required,
  day_reconciliation_required,
}
use dse_auto.Campaigns.{is_controlling}
use dse_auto.Campaigns.Restart.{
  CampaignDb, is_incomplete, find_incomplete, assign_campaign, assign_day, flag, flag_all,
  open_campaign_incident, recover_campaigns_after_restart,
}

abbrev pub is_reconciling : CampaignState → Bool
is_reconciling CampaignState.reconciliation_required = true
is_reconciling CampaignState.configured = false
is_reconciling CampaignState.awaiting_data = false
is_reconciling CampaignState.ready = false
is_reconciling CampaignState.active = false
is_reconciling CampaignState.paused = false
is_reconciling CampaignState.degraded = false
is_reconciling CampaignState.completed = false
is_reconciling CampaignState.invalidated = false
is_reconciling CampaignState.archived_campaign = false

-- Whether a campaign has an incomplete day.
abbrev pub has_incomplete : ℕ → ℕ → List CampaignDay → Bool
has_incomplete id as_of = any (is_incomplete id as_of)

assigned_day :
    (id as_of day_id : ℕ) (k : DayState) (ds : List CampaignDay)
    → has_incomplete id as_of (assign_day day_id k ds) ≡ has_incomplete id as_of ds
assigned_day id as_of day_id k [] = refl
assigned_day id as_of day_id k (d ∷ ds) =
    if_rule
      (λ x.
        (is_incomplete id as_of x || has_incomplete id as_of (assign_day day_id k ds))
        ≡ (is_incomplete id as_of d || has_incomplete id as_of ds))
      (d.id == day_id) (record d { state = k }) d
      (λ _. ap (λ b. is_incomplete id as_of d || b) (assigned_day id as_of day_id k ds))
      (λ _. ap (λ b. is_incomplete id as_of d || b) (assigned_day id as_of day_id k ds))

none_incomplete :
    (id as_of : ℕ) (ds : List CampaignDay)
    → find_incomplete id as_of ds ≡ none
    → has_incomplete id as_of ds ≡ false
none_incomplete id as_of [] = λ _. refl
none_incomplete id as_of (d ∷ ds) =
    if_rule (λ o. o ≡ none → has_incomplete id as_of (d ∷ ds) ≡ false) (is_incomplete id as_of d)
      (some d) (find_incomplete id as_of ds) (λ _ h. absurd (ground arith))
      (λ other h. both other (none_incomplete id as_of ds h))
  where
    both :
        is_incomplete id as_of d ≡ false
        → has_incomplete id as_of ds ≡ false
        → has_incomplete id as_of (d ∷ ds) ≡ false
    both e f = ground arith

-- A row that controls its account and has an incomplete day is marked, or among those to come.
abbrev pub covered : ℕ → List CampaignDay → List ValidationCampaign → ValidationCampaign → Bool
covered as_of ds cs r =
    not (is_controlling r.state)
    || not (has_incomplete r.id as_of ds)
    || is_reconciling r.state
    || any (λ c. c.id == r.id) cs

module _ (as_of : ℕ) (campaign : ValidationCampaign) (rest : List ValidationCampaign)
    (ds : List CampaignDay) where
  passed-covered :
      (rows : List ValidationCampaign)
      → has_incomplete campaign.id as_of ds ≡ false
      → All (λ r. covered as_of ds (campaign ∷ rest) r ≡ true) rows
      → All (λ r. covered as_of ds rest r ≡ true) rows
  passed-covered [] complete h = tt
  passed-covered (r ∷ rows) complete h =
      (kept (Bool-cases (campaign.id == r.id)) h.0, passed-covered rows complete h.1)
    where
      finished : has_incomplete r.id as_of ds ≡ false → covered as_of ds rest r ≡ true
      finished f = ground arith

      kept :
          ((campaign.id == r.id) ≡ true) ⊎ ((campaign.id == r.id) ≡ false)
          → covered as_of ds (campaign ∷ rest) r ≡ true
          → covered as_of ds rest r ≡ true
      kept (inr other) c = ground arith
      kept (inl same) c =
          finished (subst (λ i. has_incomplete i as_of ds ≡ false) (ground arith) complete)

  marked-covered :
      (day_id : ℕ) (rows : List ValidationCampaign)
      → All (λ r. covered as_of ds (campaign ∷ rest) r ≡ true) rows
      → All
          (λ r. covered as_of (assign_day day_id day_reconciliation_required ds) rest r ≡ true)
          (assign_campaign campaign.id reconciliation_required rows)
  marked-covered day_id [] h = tt
  marked-covered day_id (r ∷ rows) h = (
    if_rule (λ x. covered as_of (assign_day day_id day_reconciliation_required ds) rest x ≡ true)
        (r.id == campaign.id) (record r { state = reconciliation_required }) r (λ _. ground arith)
        (λ other. kept other h.0 (assigned_day r.id as_of day_id day_reconciliation_required ds)),
    marked-covered day_id rows h.1,
  )
    where
      kept :
          (r.id == campaign.id) ≡ false
          → covered as_of ds (campaign ∷ rest) r ≡ true
          → has_incomplete r.id as_of (assign_day day_id day_reconciliation_required ds)
            ≡ has_incomplete r.id as_of ds
          → covered as_of (assign_day day_id day_reconciliation_required ds) rest r ≡ true
      kept other c e = ground arith

module _ (env : Env) (now as_of : ℕ) where
  -- The rows of a session are covered by campaigns to come.
  abbrev IsCovered : List ValidationCampaign → CampaignDb → Type 0
  IsCovered cs db =
      All (λ r. covered as_of db.governance.work.days cs r ≡ true) db.governance.work.campaigns

  flag-IsCovered :
      (campaign : ValidationCampaign) (rest : List ValidationCampaign) (db : CampaignDb)
      (o : Option CampaignDay)
      → find_incomplete campaign.id as_of db.governance.work.days ≡ o
      → IsCovered (campaign ∷ rest) db
      → IsCovered rest (flag env now campaign o db).1
  unfolding open_campaign_incident
  flag-IsCovered campaign rest db none e h =
      passed-covered as_of campaign rest db.governance.work.days db.governance.work.campaigns
        (none_incomplete campaign.id as_of db.governance.work.days e) h
  flag-IsCovered campaign rest db (some day) e h =
      marked-covered as_of campaign rest db.governance.work.days day.id db.governance.work.campaigns
        h

  flag_all-IsCovered :
      (cs : List ValidationCampaign) (db : CampaignDb)
      → IsCovered cs db
      → IsCovered [] (flag_all env now as_of cs db).1
  unfolding flag_all
  flag_all-IsCovered [] db h = h
  flag_all-IsCovered (campaign ∷ rest) db h =
      flag_all-IsCovered rest
        (flag env now campaign (find_incomplete campaign.id as_of db.governance.work.days) db).1
        (flag-IsCovered campaign rest db (find_incomplete campaign.id as_of db.governance.work.days)
          refl h)

more-covered :
    (as_of : ℕ) (ds : List CampaignDay) (c : ValidationCampaign) (cs rows : List ValidationCampaign)
    → All (λ r. covered as_of ds cs r ≡ true) rows
    → All (λ r. covered as_of ds (c ∷ cs) r ≡ true) rows
more-covered as_of ds c cs [] h = tt
more-covered as_of ds c cs (r ∷ rows) h = (ground (arith, h.0), more-covered as_of ds c cs rows h.1)

-- The rows of the first query cover the table.
queried-covered :
    (as_of : ℕ) (ds : List CampaignDay) (rows : List ValidationCampaign)
    → All (λ r. covered as_of ds (keep (λ c. is_controlling c.state) rows) r ≡ true) rows
queried-covered as_of ds [] = tt
queried-covered as_of ds (r ∷ rows) =
    if_rule (λ cs. All (λ x. covered as_of ds cs x ≡ true) (r ∷ rows)) (is_controlling r.state) _ _
      (λ _. (ground arith, more-covered as_of ds r _ rows (queried-covered as_of ds rows)))
      (λ idle. (ground arith, queried-covered as_of ds rows))

-- The row requires reconciliation, where it controls its account and has, before the date, a day that
-- was begun and not completed.
abbrev pub IsFlagged : ℕ → List CampaignDay → ValidationCampaign → Type 0
IsFlagged as_of ds r =
    is_controlling r.state ≡ true
    → has_incomplete r.id as_of ds ≡ true
    → is_reconciling r.state ≡ true

without_rest :
    (as_of : ℕ) (ds : List CampaignDay) (rows : List ValidationCampaign)
    → All (λ r. covered as_of ds [] r ≡ true) rows
    → All (IsFlagged as_of ds) rows
without_rest as_of ds [] h = tt
without_rest as_of ds (r ∷ rows) h =
    (λ controls open_day. ground (arith, h.0), without_rest as_of ds rows h.1)

-- After the recovery of campaigns, in the committed tables, every campaign that controls its account
-- and has, before the date, a day that was begun and not completed requires reconciliation.
pub recover_campaigns_after_restart-IsFlagged :
    (env : Env) (now as_of : ℕ) (db : CampaignDb)
    → (let t = (recover_campaigns_after_restart env now as_of db).1.governance.durable in
        All (IsFlagged as_of t.days) t.campaigns)
unfolding recover_campaigns_after_restart
recover_campaigns_after_restart-IsFlagged env now as_of db = without_rest as_of _ _ (
    flag_all-IsCovered env now as_of
      (keep (λ c. is_controlling c.state) db.governance.work.campaigns) db
      (queried-covered as_of db.governance.work.days db.governance.work.campaigns))
