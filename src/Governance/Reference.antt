-- ===== src/Governance/Reference.antt =====
-- References to strategies: an identifier and a version joined by "@".
use dse_auto.Common.{
  ℕ, ◌≡◌, refl, Bool, true, false, not, ◌&&◌, ◌||◌, none, some, List, [], ◌∷◌, ◌++◌, ◌==◌, arith,
  if_rule, passed_over, Result, ok, raise,
}
use mathlib.Core.Path.{subst}
use dse_auto.Common.Text.{Text, text_eq, text_eq_iff}
use dse_auto.Env.{Env}
use dse_auto.Governance.{StrategyRegistration, GovernanceDb}
use dse_auto.Governance.Strategy.{
  StrategyArgs, register_strategy, partition, at_sign, find_strategy, strategy_by_reference,
}

-- The text f"{strategy_id}@{version}".
abbrev pub reference_of : Text → Text → Text
reference_of strategy_id version = strategy_id ++ at_sign ∷ version

-- No "@" among the characters.
abbrev pub is_plain : Text → Bool
is_plain [] = true
is_plain (c ∷ cs) = not (c == at_sign) && is_plain cs

partition-reference :
    (strategy_id version : Text)
    → is_plain strategy_id ≡ true
    → partition (reference_of strategy_id version) ≡ some (strategy_id, version)
partition-reference [] version h = refl
partition-reference (c ∷ cs) version h = rw (other, partition-reference cs version rest_plain) refl
  where
    other : (c == at_sign) ≡ false
    other = ground arith

    rest_plain : is_plain cs ≡ true
    rest_plain = ground arith

find_strategy-behind :
    (id version : Text) (rs : List StrategyRegistration) (r : StrategyRegistration)
    → find_strategy id version rs ≡ none
    → r.strategy_id ≡ id
    → r.version ≡ version
    → find_strategy id version (rs ++ r ∷ []) ≡ some r
find_strategy-behind id version [] r h e e' =
    rw ((text_eq_iff r.strategy_id id).1 e, (text_eq_iff r.version version).1 e') refl
find_strategy-behind id version (x ∷ xs) r h e e' =
    let (there, absent) =
      passed_over (text_eq x.strategy_id id && text_eq x.version version) x
        (find_strategy id version xs) h in
    rw there (find_strategy-behind id version xs r absent e e')

-- A strategy that was registered under an identifier without "@" and a version, where no strategy
-- had both, is what `strategy_by_reference` finds for the identifier and the version joined by "@".
pub register_strategy-by_reference :
    (env : Env) (now : ℕ) (a : StrategyArgs) (db db' : GovernanceDb) (r : StrategyRegistration)
    → is_plain a.strategy_id ≡ true
    → find_strategy a.strategy_id a.version db.work.strategies ≡ none
    → register_strategy env now a db ≡ (ok r, db')
    → strategy_by_reference (reference_of a.strategy_id a.version) db'.work.strategies ≡ some r
unfolding register_strategy strategy_by_reference
register_strategy-by_reference env now a db db' r plain absent e = subst Found e (
    if_rule Found (not (a.code_hash_length == 64) || a.minimum_sample_size == 0) _ _ (λ _. tt)
      (λ _.
        rw (partition-reference a.strategy_id a.version plain, strategy_by_reference)
          (find_strategy-behind a.strategy_id a.version db.work.strategies _ absent refl refl)))
  where
    Found : Result StrategyRegistration × GovernanceDb → Type 0
    Found (ok r', d) =
        strategy_by_reference (reference_of a.strategy_id a.version) d.work.strategies ≡ some r'
    Found (raise x, d) = Unit
