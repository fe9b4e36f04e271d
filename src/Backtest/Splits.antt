-- ===== src/Backtest/Splits.antt =====
-- The windows that the walk-forward loop makes.
use dse_auto.Common.{
  ℕ, suc, ◌+◌, ◌≤◌, ◌<◌, ◌≡◌, refl, Option, none, some, List, [], ◌∷◌, arith, if_rule, leb, min,
  ◌==◌, ok, zero,
}
use dse_auto.Backtest.{Split, split_at, add_split, splits_from, walk_forward_splits}

-- A window at a start: its three ranges have the given sizes and follow one another.
pub record IsWindow (start train validation test : ℕ) (s : Split) : Type 0 where
  pub begins : s.training.start ≡ start
  pub trained : s.training.stop ≡ s.training.start + train
  pub next : s.validating.start ≡ s.training.stop
  pub validated : s.validating.stop ≡ s.validating.start + validation
  pub last : s.testing.start ≡ s.validating.stop
  pub tested : s.testing.stop ≡ s.testing.start + test

-- The windows from a start: each has the three given sizes, its parts follow one another, it ends
-- within the length, the next begins where the test size has passed, and after the last no further
-- window fits.
abbrev pub IsTiling : ℕ → ℕ → ℕ → ℕ → ℕ → List Split → Type 0
IsTiling length train validation test start [] = length < start + train + validation + test
IsTiling length train validation test start (s ∷ rest) =
    IsWindow start train validation test s
    × (s.testing.stop ≤ length)
    × IsTiling length train validation test (start + test) rest

-- The loop returns such windows.
abbrev pub Returns : ℕ → ℕ → ℕ → ℕ → ℕ → Option (List Split) → Type 0
Returns length train validation test start none = ⊥
Returns length train validation test start (some ws) =
    IsTiling length train validation test start ws

module _ (length train validation test : ℕ) (positive : 0 < test) where
  loop-Returns :
      (fuel start : ℕ)
      → start ≤ length
      → length < fuel + start
      → Returns length train validation test start
          (splits_from fuel length train validation test start)
  unfolding splits_from
  loop-Returns zero start within enough = absurd (omega arith)
  loop-Returns (suc fuel) start within enough =
      if_rule (Returns length train validation test start)
        (leb (start + train + validation + test) length) _ _
        (λ fits.
          added (splits_from fuel length train validation test (start + test)) (ground arith)
            (loop-Returns fuel (start + test) (ground arith) (omega arith)))
        (λ over. ground arith)
    where
      added :
          (o : Option (List Split))
          → start + train + validation + test ≤ length
          → Returns length train validation test (start + test) o
          → Returns length train validation test start
              (add_split (split_at start train validation test) o)
      added none fits h = h
      added (some ws) fits h = (
        record {
          begins = refl;
          trained = refl;
          next = refl;
          validated = refl;
          last = refl;
          tested = refl;
        },
        fits,
        h,
      )

-- For positive sizes the loop of `walk_forward_splits` ends, and its windows tile the data: each has
-- the given sizes, its test part follows its validation part, which follows its training part, it
-- ends within the length, consecutive windows are one test part apart, and no further window fits.
pub walk_forward_splits-IsTiling :
    (length train validation test : ℕ)
    → 0 < length
    → 0 < train
    → 0 < validation
    → 0 < test
    → (ws : List Split) × (walk_forward_splits length train validation test ≡ ok (some ws))
      × IsTiling length train validation test 0 ws
unfolding walk_forward_splits
walk_forward_splits-IsTiling length train validation test a b c d =
    if_rule
      (λ x. (ws : List Split) × (x ≡ ok (some ws)) × IsTiling length train validation test 0 ws)
      (min length (min train (min validation test)) == 0) _ _ (λ empty. absurd (ground arith))
      (λ _.
        found (splits_from (length + 1) length train validation test 0)
          (loop-Returns length train validation test d (length + 1) 0 (omega arith) (omega arith)))
  where
    found :
        (o : Option (List Split))
        → Returns length train validation test 0 o
        → (ws : List Split) × (ok o ≡ ok (some ws)) × IsTiling length train validation test 0 ws
    found none h = absurd h
    found (some ws) h = (ws, refl, h)
