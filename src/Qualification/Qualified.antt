-- ===== src/Qualification/Qualified.antt =====
-- What a campaign that qualifies has shown.
use dse_auto.Common.{
  ℕ, suc, ◌≤◌, ◌≡◌, ap, ◌∙◌, Bool, true, false, not, ◌&&◌, ◌||◌, Option, none, some, List, [], ◌∷◌,
  String, arith, All, if_rule, length, keep, str_eq, Result, ok, is_none,
}
use dse_auto.Governance.{CampaignDay, ValidationCampaign}
use dse_auto.Campaigns.{is_empty}
use dse_auto.Common.Single.{find_row}
use dse_auto.Qualification.{
  PaperQualification, QualificationDb, Evidence, gather, is_complete, has_review, is_audit_valid,
  is_reconciled, is_backed_up, is_eligible, completed_days, qualifying_days, not_real_market,
  is_unlicensed, is_malformed, falls_short, tests, failures, snapshot_of, find_qualification,
  write_snapshot, calculate_qualification,
}

module _ {ℓ} {A : Type ℓ} (p : A → Bool) where
  keep-length : (xs : List A) → length (keep p xs) ≤ length xs
  keep-length [] = omega arith
  keep-length (x ∷ xs) =
      if_rule (λ l. length l ≤ suc (length xs)) (p x) (x ∷ keep p xs) (keep p xs)
        (λ _. omega (arith, keep-length xs)) (λ _. omega (arith, keep-length xs))

  -- Where nothing is left out, every element has the property.
  kept_whole : (xs : List A) → length xs ≤ length (keep p xs) → All (λ x. p x ≡ true) xs
  kept_whole [] = λ _. tt
  kept_whole (x ∷ xs) =
      if_rule (λ l. suc (length xs) ≤ length l → All (λ x. p x ≡ true) (x ∷ xs)) (p x)
        (x ∷ keep p xs) (keep p xs)
        (λ stays all_kept. (stays, kept_whole xs (omega (arith, all_kept))))
        (λ _ all_kept. absurd (omega (arith, all_kept, keep-length xs)))

  -- What holds of the kept elements.
  kept_only : (P : A → Type 0) (xs : List A) → All P (keep p xs) → All (λ x. p x ≡ true → P x) xs
  kept_only P [] = λ _. tt
  kept_only P (x ∷ xs) =
      if_rule (λ l. All P l → All (λ y. p y ≡ true → P y) (x ∷ xs)) (p x) (x ∷ keep p xs)
        (keep p xs) (λ _ h. ((λ _. h.0), kept_only P xs h.1))
        (λ other h. ((λ kept. absurd (two other kept)), kept_only P xs h))
    where
      two : {b : Bool} → b ≡ false → b ≡ true → ⊥
      two f t = ground arith

-- A day has a review, a valid audit chain, a healthy reconciliation and a backup.
pub record IsSound (e : Evidence) (d : CampaignDay) : Type 0 where
  pub reviewed : has_review e.reviews d ≡ true
  pub audited : is_audit_valid d ≡ true
  pub reconciled : is_reconciled d ≡ true
  pub backed_up : is_backed_up d ≡ true

-- What a qualification for a target rests on.
pub record IsQualified (real : Bool) (target : ℕ) (e : Evidence) : Type 0 where
  pub reached : target ≤ length (qualifying_days real e)
  pub sound : All (λ d. is_complete d ≡ true → IsSound e d) e.days
  pub resolved : is_empty e.unresolved_critical ≡ true
  pub eligible : real ≡ true → is_eligible e.campaign ≡ true

none_failed : (l : List (Bool × String)) → is_empty (failures l) ≡ true → All (λ t. t.0 ≡ false) l
none_failed [] = λ _. tt
none_failed ((b, name) ∷ rest) =
    if_rule (λ l. is_empty l ≡ true → All (λ t. t.0 ≡ false) ((b, name) ∷ rest)) b
      (name ∷ failures rest) (failures rest) (λ _ h. absurd (ground arith))
      (λ passed h. (passed, none_failed rest h))

module _ (real : Bool) (target : ℕ) (e : Evidence) where
  All-days :
      (p : CampaignDay → Bool)
      → falls_short p e ≡ false
      → All (λ d. is_complete d ≡ true → p d ≡ true) e.days
  All-days p h =
      kept_only is_complete (λ d. p d ≡ true) e.days
        (kept_whole p (completed_days e) (ground arith))

  together :
      (ds : List CampaignDay)
      → All (λ d. is_complete d ≡ true → has_review e.reviews d ≡ true) ds
      → All (λ d. is_complete d ≡ true → is_audit_valid d ≡ true) ds
      → All (λ d. is_complete d ≡ true → is_reconciled d ≡ true) ds
      → All (λ d. is_complete d ≡ true → is_backed_up d ≡ true) ds
      → All (λ d. is_complete d ≡ true → IsSound e d) ds
  together [] a b c f = tt
  together (d ∷ ds) a b c f = (
    λ complete. record {
      reviewed = a.0 complete;
      audited = b.0 complete;
      reconciled = c.0 complete;
      backed_up = f.0 complete;
    },
    together ds a.1 b.1 c.1 f.1,
  )

  campaign_eligible :
      (o : Option ValidationCampaign)
      → not_real_market o ≡ false
      → is_unlicensed o ≡ false
      → is_eligible o ≡ true
  campaign_eligible none a b = absurd (ground arith)
  campaign_eligible (some c) a b = ground arith

  passed-IsQualified : is_empty (failures (tests real target e)) ≡ true → IsQualified real target e
  passed-IsQualified h = record {
    reached = ground (arith, t.1.1.1.1.1.1.1.1.0);
    sound =
        together e.days (All-days (has_review e.reviews) t.0) (All-days is_audit_valid t.1.0)
          (All-days is_reconciled t.1.1.0) (All-days is_backed_up t.1.1.1.0);
    resolved = ground (arith, t.1.1.1.1.1.0);
    eligible = λ is_real.
        campaign_eligible e.campaign (ground (arith, is_real, t.1.1.1.1.1.1.0))
          (ground (arith, is_real, t.1.1.1.1.1.1.1.0));
  }
    where
      t : All (λ x. x.0 ≡ false) (tests real target e)
      t = none_failed (tests real target e) h

-- Where `calculate_qualification` returns a snapshot that qualifies, at least as many days as the target
-- asks are qualifying days; every completed day of the campaign has a review, a valid audit chain, a
-- healthy reconciliation and a successful backup; no critical incident of the campaign is unresolved;
-- and for the real-market scope the campaign is of real-market evidence from a licensed source or
-- under a policy of attested files.
pub calculate_qualification-IsQualified :
    (now campaign_id target_days : ℕ) (scope : String) (db : QualificationDb)
    (q : PaperQualification)
    → (calculate_qualification now campaign_id target_days scope db).0 ≡ ok q
    → q.qualifying ≡ true
    → IsQualified (str_eq scope "real_market") target_days (gather campaign_id db.work)
unfolding calculate_qualification
calculate_qualification-IsQualified now campaign_id target_days scope db q =
    if_rule Shows (not (str_eq scope "paper" || str_eq scope "real_market")) _ _
      (λ _ e. absurd (ground arith))
      (λ _.
        if_rule Shows
          (is_none (find_row (λ c. c.id) campaign_id db.work.governance.campaigns)
            && str_eq scope "real_market")
          _ _ (λ _ e. absurd (ground arith))
          (λ _.
            if_rule Shows (is_malformed real evidence) _ _ (λ _ e. absurd (ground arith))
              (λ _. by_row (find_qualification campaign_id db.work.qualifications))))
  where
    real : Bool
    real = str_eq scope "real_market"

    evidence : Evidence
    evidence = gather campaign_id db.work

    Shows : Result PaperQualification × QualificationDb → Type 0
    Shows r = r.0 ≡ ok q → q.qualifying ≡ true → IsQualified real target_days evidence

    first : (a b : Bool) → (a && b) ≡ true → a ≡ true
    first a b h = ground arith

    same : (x : PaperQualification) → ok x ≡ ok q → x ≡ q
    same x e = cc

    shown :
        (id : ℕ)
        → ok (snapshot_of now id campaign_id real target_days evidence) ≡ ok q
        → q.qualifying ≡ true
        → IsQualified real target_days evidence
    shown id e positive = passed-IsQualified real target_days evidence (
        first _ _ (
          ap (λ (z : PaperQualification). z.qualifying)
            (same (snapshot_of now id campaign_id real target_days evidence) e)
          ∙ positive))

    by_row :
        (o : Option PaperQualification)
        → Shows (write_snapshot now campaign_id real target_days evidence db.work o)
    by_row none = shown db.work.next_id
    by_row (some old) = shown old.id
