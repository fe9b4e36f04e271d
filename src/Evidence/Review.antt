-- ===== src/Evidence/Review.antt =====
-- What an accepted review has been given, and what becomes of it.
use dse_auto.Common.{
  is_ok, ℕ, ◌≡◌, refl, ap, ◌∙◌, Bool, true, false, not, ◌&&◌, ◌||◌, Option, none, some, List, [],
  ◌∷◌, String, arith, All, if_rule, any, all, str_eq, Result, ok,
}
use dse_auto.Env.{Env}
use dse_auto.Governance.{CampaignDay}
use dse_auto.Campaigns.{is_empty, is_real_market}
use dse_auto.Evidence.{
  ReviewState, EvidenceReview, ReviewDb, ReviewArgs, is_final, is_accepted, is_verdict, verdicts,
  find_day, is_real_day, lacks_evidence, decided, find_review_state, review_targets, write_review,
  submit_to, submit_review,
}

-- The role of the reviewer.
abbrev pub may_review : String → Bool
may_review role = str_eq role "reviewer" || str_eq role "operator"

-- What the acceptance of a real-market day has been given.
pub record IsConfirmed (r : EvidenceReview) (a : ReviewArgs) : Type 0 where
  pub by_reviewer : may_review a.reviewer_role ≡ true
  pub was_open : is_final r.state ≡ false
  pub given : is_empty a.review_checklist ≡ false
  pub confirmed : All (λ (k, b). b ≡ true) a.review_checklist
  pub linked : any (str_eq r.evidence_pack_hash) a.linked_evidence_hashes ≡ true

-- A submission that raises and leaves the tables.
abbrev pub IsRefused : ReviewDb → Result EvidenceReview × ReviewDb → Type 0
IsRefused db x = (is_ok x.0 ≡ false) × (x.1 ≡ db)

entries_confirmed :
    (entries : List (String × Bool))
    → all (λ (k, b). b) entries ≡ true
    → All (λ (k, b). b ≡ true) entries
entries_confirmed [] h = tt
entries_confirmed ((k, b) ∷ rest) h = (ground arith, entries_confirmed rest (ground arith))

accepted-is_final : (k : ReviewState) → is_accepted k ≡ true → is_final k ≡ true
accepted-is_final k h = ground arith

module _ (env : Env) (now : ℕ) (r : EvidenceReview) (a : ReviewArgs) (db : ReviewDb) where
  final-IsRefused : is_final r.state ≡ true → IsRefused db (submit_review env now r a db)
  unfolding submit_review
  final-IsRefused final =
      if_rule (IsRefused db) (not (may_review a.reviewer_role)) _ _ (λ _. (refl, refl))
        (λ _. by_target (find_review_state a.target_state review_targets))
    where
      two : {b : Bool} → b ≡ true → b ≡ false → ⊥
      two t f = ground arith

      by_target : (o : Option ReviewState) → IsRefused db (submit_to env now r a db o)
      by_target none = (refl, refl)
      by_target (some target) =
          if_rule (IsRefused db) (is_final r.state) _ _ (λ _. (refl, refl))
            (λ open_still. absurd (two final open_still))

  module _ (r' : EvidenceReview) (accepted : is_accepted r'.state ≡ true)
      (real : is_real_day (find_day r.campaign_day_id db.governance.work.days) ≡ true) where
    abbrev Confirms : Result EvidenceReview × ReviewDb → Type 0
    Confirms x = x.0 ≡ ok r' → IsConfirmed r a

    target-Confirms :
        may_review a.reviewer_role ≡ true
        → (o : Option ReviewState) → Confirms (submit_to env now r a db o)
    unfolding write_review
    target-Confirms role none = λ e. absurd (ground arith)
    target-Confirms role (some target) =
        if_rule Confirms (is_final r.state) _ _ (λ _ e. absurd (ground arith))
          (λ was_open.
            if_rule Confirms (not (all is_verdict (verdicts a))) _ _ (λ _ e. absurd (ground arith))
              (λ _.
                if_rule Confirms (not (all (λ (k, b). b) a.review_checklist)) _ _
                  (λ _ e. absurd (ground arith))
                  (λ checked.
                    if_rule Confirms
                      (is_accepted target
                        && is_real_day (find_day r.campaign_day_id db.governance.work.days)
                        && lacks_evidence r a)
                      _ _ (λ _ e. absurd (ground arith))
                      (λ complete e. enough was_open checked complete (target_accepted e)))))
      where
        same : ok (decided now target a r) ≡ ok r' → decided now target a r ≡ r'
        same e = cc

        target_accepted : ok (decided now target a r) ≡ ok r' → is_accepted target ≡ true
        target_accepted e = ap (λ (z : EvidenceReview). is_accepted z.state) (same e) ∙ accepted

        enough :
            is_final r.state ≡ false
            → not (all (λ (k, b). b) a.review_checklist) ≡ false
            → (is_accepted target
                && is_real_day (find_day r.campaign_day_id db.governance.work.days)
                && lacks_evidence r a)
              ≡ false
            → is_accepted target ≡ true
            → IsConfirmed r a
        enough was_open checked complete is_acceptance = record {
          by_reviewer = role;
          was_open = was_open;
          given = ground arith;
          confirmed = entries_confirmed a.review_checklist (ground arith);
          linked = ground arith;
        }

    submitted-Confirms : Confirms (submit_review env now r a db)
    unfolding submit_review
    submitted-Confirms =
        if_rule Confirms (not (may_review a.reviewer_role)) _ _ (λ _ e. absurd (ground arith))
          (λ role. target-Confirms (ground arith) (find_review_state a.target_state review_targets))

-- Where `submit_review` accepts a review of a real-market day, the role is that of a reviewer or an
-- operator, the review was not final, a checklist is given and all of its items are confirmed, and
-- the hash of the evidence is among the linked ones; and every further submission for the accepted
-- review, whatever it says and on any tables, raises and changes nothing.
pub submit_review-accepted :
    (env : Env) (now : ℕ) (r r' : EvidenceReview) (a : ReviewArgs) (db : ReviewDb)
    (day : CampaignDay)
    → (submit_review env now r a db).0 ≡ ok r'
    → is_accepted r'.state ≡ true
    → find_day r.campaign_day_id db.governance.work.days ≡ some day
    → is_real_market day.evidence_class ≡ true
    → IsConfirmed r a
      × ((later : ℕ) (again : ReviewArgs) (db' : ReviewDb)
          → IsRefused db' (submit_review env later r' again db'))
submit_review-accepted env now r r' a db day e accepted found real = (
  submitted-Confirms env now r a db r' accepted (ap is_real_day found ∙ real) e,
  λ later again db'. final-IsRefused env later r' again db' (accepted-is_final r'.state accepted),
)
