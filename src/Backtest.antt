-- ===== src/Backtest.antt =====
-- backend/app/backtesting/engine.py: `walk_forward_splits`. A range is its two ends. The loop runs on
-- fuel; `walk_forward_splits` gives it one unit more than the length.
pub mod Splits
use dse_auto.Common.{
  ℕ, ◌+◌, Bool, true, false, Option, none, some, List, [], ◌∷◌, leb, min, ◌==◌, if◌then◌else◌,
  Result, ok, raise, value_error, zero, suc,
}

pub record Range : Type 0 where
  pub start : ℕ
  pub stop : ℕ

abbrev pub range : ℕ → ℕ → Range
range start stop = record { start = start; stop = stop }

pub record Split : Type 0 where
  pub training : Range
  pub validating : Range
  pub testing : Range

abbrev pub split_at : ℕ → ℕ → ℕ → ℕ → Split
split_at start train validation test = record {
  training = range start (start + train);
  validating = range (start + train) (start + train + validation);
  testing = range (start + train + validation) (start + train + validation + test);
}

-- The rest of the loop after a window, where it returns.
abbrev pub add_split : Split → Option (List Split) → Option (List Split)
add_split s none = none
add_split s (some rest) = some (s ∷ rest)

-- The loop from a start; `none` where the fuel is spent.
unfoldable pub splits_from : ℕ → ℕ → ℕ → ℕ → ℕ → ℕ → Option (List Split)
splits_from zero length train validation test start = none
splits_from (suc fuel) length train validation test start =
    let rest = splits_from fuel length train validation test (start + test) in
    if leb (start + train + validation + test) length
    then add_split (split_at start train validation test) rest
    else some []

unfoldable pub walk_forward_splits : ℕ → ℕ → ℕ → ℕ → Result (Option (List Split))
unfolding splits_from
walk_forward_splits length train validation test =
    if min length (min train (min validation test)) == 0
    then raise (value_error "Split sizes must be positive")
    else ok (splits_from (length + 1) length train validation test 0)
