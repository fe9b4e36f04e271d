-- ===== src/Providers/Calls.antt =====
-- How often a failing provider is asked.
use dse_auto.Common.{
  ℕ, ◌+◌, ◌-◌, ◌≤◌, ◌<◌, ◌≡◌, refl, Bool, true, false, Option, none, some, List, [], ◌∷◌, String,
  arith, All, if_rule, leb, ltb, Result, ok, raise,
}
use dse_auto.Common.{is_ok}
use dse_auto.Providers.{
  BreakerState, closed, open_circuit, half_open, CircuitBreaker, new_breaker, Attempt,
  record_failure, after, answer, settle, attempt,
}

abbrev pub counted {ℓ} : {A : Type ℓ} → Option A → ℕ
counted none = 0
counted (some a) = 1

-- How many of the attempts, one after the other, ask the provider.
unfoldable pub calls {ℓ} : {A : Type ℓ} → List (Attempt A) → CircuitBreaker → ℕ
unfolding attempt
calls [] b = 0
calls (a ∷ rest) b = counted (attempt a b).0 + calls rest (attempt a b).1

-- The attempt fails, and lies in the cooldown that begins at a time.
abbrev pub IsFailing {ℓ} : {A : Type ℓ} → ℕ → ℕ → Attempt A → Type 0
IsFailing start cooldown a =
    (is_ok a.outcome ≡ false) × (start ≤ a.failed) × (a.asked ≤ start + cooldown)

abbrev made : String → ℕ → ℕ → ℕ → ℕ → BreakerState → CircuitBreaker
made name threshold cooldown count last state = record {
  name = name;
  failure_threshold = threshold;
  cooldown = cooldown;
  failure_count = count;
  last_failure_time = last;
  state = state;
}

module _ {ℓ} {A : Type ℓ} (name : String) (threshold cooldown start : ℕ) where
  open-calls :
      (attempts : List (Attempt A)) (count last : ℕ)
      → start ≤ last
      → All (IsFailing start cooldown) attempts
      → calls attempts (made name threshold cooldown count last open_circuit) ≡ 0
  unfolding calls attempt
  open-calls [] count last later h = refl
  open-calls (a ∷ rest) count last later h =
      if_rule
        (λ (t : Bool × CircuitBreaker).
          counted (answer t.0 a.outcome) + calls rest (settle a t) ≡ 0)
        (ltb (last + cooldown) a.asked) (true, made name threshold cooldown count last half_open)
        (false, made name threshold cooldown count last open_circuit)
        (λ over. absurd (still over (h.0.2)))
        (λ _. none_more (open-calls rest count last later h.1))
    where
      none_more : {n : ℕ} → n ≡ 0 → 0 + n ≡ 0
      none_more e = omega arith

      still : ltb (last + cooldown) a.asked ≡ true → a.asked ≤ start + cooldown → ⊥
      still over early = ground arith

  closed-calls :
      (attempts : List (Attempt A)) (count last : ℕ)
      → count < threshold
      → All (IsFailing start cooldown) attempts
      → calls attempts (made name threshold cooldown count last closed) ≤ threshold - count
  unfolding calls attempt record_failure
  closed-calls [] count last below h = omega arith
  closed-calls (a ∷ rest) count last below h =
      on_answer a.outcome h.0.0 (λ more. closed-calls rest (count + 1) a.failed more h.1)
    where
      on_answer :
          (r : Result A)
          → is_ok r ≡ false
          → (count + 1 < threshold
              → calls rest (made name threshold cooldown (count + 1) a.failed closed)
                ≤ threshold - (count + 1))
          → 1 + calls rest (after r a.failed (made name threshold cooldown count last closed))
            ≤ threshold - count
      on_answer (ok x) = λ fails later. absurd (ground arith)
      on_answer (raise e) = λ _ later.
          if_rule
            (λ s.
              1 + calls rest (made name threshold cooldown (count + 1) a.failed s)
              ≤ threshold - count)
            (leb threshold (count + 1)) open_circuit closed
            (λ _. omega (arith, open-calls rest (count + 1) a.failed h.0.1 h.1))
            (λ more. omega (arith, later (ground arith)))

-- Of any attempts that all fail and that begin within one cooldown, a new breaker with a positive
-- threshold lets at most as many reach the provider as the threshold says.
pub calls-bounded {ℓ} :
    {A : Type ℓ} (name : String) (threshold cooldown start : ℕ) (attempts : List (Attempt A))
    → 0 < threshold
    → All (IsFailing start cooldown) attempts
    → calls attempts (new_breaker name threshold cooldown) ≤ threshold
calls-bounded name threshold cooldown start attempts positive h =
    no_failures (closed-calls name threshold cooldown start attempts 0 0 positive h)
  where
    no_failures : {n : ℕ} → n ≤ threshold - 0 → n ≤ threshold
    no_failures h = omega arith
