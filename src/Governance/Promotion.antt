-- ===== src/Governance/Promotion.antt =====
-- What a promotion requires, against an independent description of the requirements.
use dse_auto.Common.{
  is_ok, ℕ, ◌≤◌, ◌≡◌, ◌↔◌, ◌⊎◌, refl, sym, ap, ◌∙◌, Bool, true, false, not, some, List, [], ◌∷◌,
  String, ltb, length, All, all, arith, inl, inr, if_rule, Result, ok, raise,
}
use mathlib.Core.Path.{subst}
use dse_auto.Common.Single.{find_row, find_row-put}
use dse_auto.Common.Text.{Text, strip}
use dse_auto.Env.{Env}
use dse_auto.Governance.{
  LifecycleState, StrategyRegistration, GovernanceDb, committed, get_key, draft, research,
  paper_candidate, paper_active, suspended, rejected, archived,
}
use dse_auto.Governance.Rules.{has_key, has_keys}
use dse_auto.Governance.Strategy.{
  check_sample, is_false, sample_size, check_evidence, check_target, promotion_evidence, may_move,
  is_paper, promote_to, promote_checked, promote_strategy, find_lifecycle, lifecycle_states,
  promoted, write_promotion, lifecycle_name,
}

-- What a promotion to a paper state asks of the strategy and of the operator.
pub record IsEvidenced (env : Env) (r : StrategyRegistration) (approval : Text) : Type 0 where
  pub not_forbidden : is_false (get_key "promotion_authorized" r.evidence) ≡ false
  pub complete : All (λ name. has_key r.evidence name ≡ true) promotion_evidence
  pub sample : ℕ
  pub sampled : sample_size env (get_key "sample_size" r.evidence) ≡ ok sample
  pub enough : r.minimum_sample_size ≤ sample
  pub explained : 12 ≤ length (strip approval)

-- What a transition asks.
abbrev pub IsPermitted : Env → StrategyRegistration → LifecycleState → Text → Type 0
IsPermitted env r target approval =
    (may_move r.lifecycle_state target ≡ true)
    × ((is_paper target ≡ false) ⊎ IsEvidenced env r approval)

all_iff :
    (p : String → Bool) (names : List String)
    → (all p names ≡ true) ↔ All (λ name. p name ≡ true) names
all_iff p [] = (λ _. tt, λ _. refl)
all_iff p (x ∷ xs) = (
  λ h. (ground arith, (all_iff p xs).0 (ground arith)),
  λ h. ground (arith, h.0, (all_iff p xs).1 h.1),
)

module _ (env : Env) (r : StrategyRegistration) (approval : Text) where
  -- A test that passes only where the requirements hold.
  abbrev Grants : Result (Unit {0}) → Type 0
  Grants x = is_ok x ≡ true → IsEvidenced env r approval

  sample-Grants :
      (s : Result ℕ)
      → sample_size env (get_key "sample_size" r.evidence) ≡ s
      → is_false (get_key "promotion_authorized" r.evidence) ≡ false
      → has_keys promotion_evidence r.evidence ≡ true
      → Grants (check_sample r.minimum_sample_size approval s)
  sample-Grants (raise e) h free keys = λ passed. absurd (ground arith)
  sample-Grants (ok n) h free keys =
      if_rule Grants (ltb n r.minimum_sample_size) _ _ (λ _ passed. absurd (ground arith))
        (λ large.
          if_rule Grants (ltb (length (strip approval)) 12) _ _ (λ _ passed. absurd (ground arith))
            (λ long passed. record {
              not_forbidden = free;
              complete = (all_iff (has_key r.evidence) promotion_evidence).0 keys;
              sample = n;
              sampled = h;
              enough = ground arith;
              explained = ground arith;
            }))

  evidence-Grants : Grants (check_evidence env r approval)
  unfolding check_evidence
  evidence-Grants =
      if_rule Grants (is_false (get_key "promotion_authorized" r.evidence)) _ _
        (λ _ passed. absurd (ground arith))
        (λ free.
          if_rule Grants (not (has_keys promotion_evidence r.evidence)) _ _
            (λ _ passed. absurd (ground arith))
            (λ keys.
              sample-Grants (sample_size env (get_key "sample_size" r.evidence)) refl free
                (ground arith)))

  evidence-passes : IsEvidenced env r approval → check_evidence env r approval ≡ ok tt
  unfolding check_evidence
  evidence-passes e =
      rw
        (
          e.not_forbidden,
          (all_iff (has_key r.evidence) promotion_evidence).1 e.complete,
          e.sampled,
          check_evidence,
        )
        (passes (ground (arith, e.enough)) (ground (arith, e.explained)))
    where
      passes :
          ltb e.sample r.minimum_sample_size ≡ false
          → ltb (length (strip approval)) 12 ≡ false
          → check_sample r.minimum_sample_size approval (ok e.sample) ≡ ok tt
      passes large long = rw (large, long) refl

  target-Grants :
      (target : LifecycleState)
      → is_ok (check_target env r target approval) ≡ true
      → (is_paper target ≡ false) ⊎ IsEvidenced env r approval
  target-Grants target =
      if_rule (λ x. is_ok x ≡ true → (is_paper target ≡ false) ⊎ IsEvidenced env r approval)
        (is_paper target) (check_evidence env r approval) (ok tt)
        (λ _ passed. inr (evidence-Grants passed)) (λ other _. inl other)

  target-passes :
      (target : LifecycleState)
      → (is_paper target ≡ false) ⊎ IsEvidenced env r approval
      → check_target env r target approval ≡ ok tt
  target-passes target (inl other) = rw other refl
  target-passes target (inr e) =
      if_rule (λ x. x ≡ ok tt) (is_paper target) (check_evidence env r approval) (ok tt)
        (λ _. evidence-passes e) (λ _. refl)

find_lifecycle-name :
    (k : LifecycleState) → find_lifecycle (lifecycle_name k) lifecycle_states ≡ some k
find_lifecycle-name draft = refl
find_lifecycle-name research = refl
find_lifecycle-name paper_candidate = refl
find_lifecycle-name paper_active = refl
find_lifecycle-name suspended = refl
find_lifecycle-name rejected = refl
find_lifecycle-name archived = refl

module _ (env : Env) (now : ℕ) (r : StrategyRegistration) (target : LifecycleState)
    (approval : Text) (db : GovernanceDb) where
  checked-IsPermitted :
      (c : Result (Unit {0}))
      → check_target env r target approval ≡ c
      → is_ok (promote_checked env now r target approval db c).0 ≡ true
      → IsPermitted env r target approval
  checked-IsPermitted (raise e) h = λ passed. absurd (ground arith)
  checked-IsPermitted (ok _) h =
      if_rule
        (λ (x : Result StrategyRegistration × GovernanceDb).
          is_ok x.0 ≡ true → IsPermitted env r target approval)
        (may_move r.lifecycle_state target) _ _
        (λ may _. (may, target-Grants env r approval target (ap is_ok h)))
        (λ _ passed. absurd (ground arith))

  promoted-IsPermitted :
      is_ok (promote_to env now r target approval db).0 ≡ true → IsPermitted env r target approval
  unfolding promote_to
  promoted-IsPermitted = checked-IsPermitted (check_target env r target approval) refl

  IsPermitted-promoted :
      IsPermitted env r target approval
      → promote_to env now r target approval db ≡ (
        ok (promoted target approval r),
        committed (write_promotion env now r target approval db.work),
      )
  unfolding promote_to
  IsPermitted-promoted p = rw (target-passes env r approval target p.1, p.0, promote_to) refl

  named :
      promote_strategy env now r (lifecycle_name target) approval db
      ≡ promote_to env now r target approval db
  unfolding promote_strategy
  named = rw (find_lifecycle-name target, promote_strategy) refl

  -- The strategy in its new state is returned, and is the row of its identifier, committed.
  abbrev pub HasPromoted : Result StrategyRegistration × GovernanceDb → Type 0
  HasPromoted x =
      (new : StrategyRegistration) × (x.0 ≡ ok new)
      × (new ≡ record r { lifecycle_state = target; operator_approval = new.operator_approval })
      × (find_row (λ s. s.id) r.id x.1.durable.strategies ≡ some new)
      × (x.1.durable ≡ x.1.work)

  -- What the two writes leave.
  written-HasPromoted :
      {old : StrategyRegistration}
      → find_row (λ s. s.id) r.id db.work.strategies ≡ some old
      → HasPromoted (
        ok (promoted target approval r),
        committed (write_promotion env now r target approval db.work),
      )
  unfolding write_promotion
  written-HasPromoted found = (
    promoted target approval r,
    refl,
    refl,
    find_row-put (λ s. s.id) (promoted target approval r) db.work.strategies found,
    refl,
  )

-- Where the strategy is a row of the table, `promote_strategy` returns it in the new lifecycle state,
-- its other fields but the approval unchanged, with its row stored and committed, exactly where the
-- table of transitions has the move and, for the two paper states, promotion is not forbidden, the
-- evidence is complete, the sample has the minimum size, and the operator's approval has twelve
-- characters.
pub promote_strategy-ok_iff :
    (env : Env) (now : ℕ) (r : StrategyRegistration) (target : LifecycleState) (approval : Text)
    (db : GovernanceDb)
    → find_row (λ s. s.id) r.id db.work.strategies ≡ some r
    → HasPromoted env now r target approval db
        (promote_strategy env now r (lifecycle_name target) approval db)
      ↔ IsPermitted env r target approval
promote_strategy-ok_iff env now r target approval db found = (
  λ h.
      promoted-IsPermitted env now r target approval db
        (ap (λ x. is_ok x.0) (sym (named env now r target approval db)) ∙ ap is_ok h.1),
  λ p.
      subst (HasPromoted env now r target approval db)
        (sym (
          named env now r target approval db ∙ IsPermitted-promoted env now r target approval db p))
        (written-HasPromoted env now r target approval db found),
)
