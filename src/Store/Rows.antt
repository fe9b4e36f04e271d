-- ===== src/Store/Rows.antt =====
-- Equality tests on the columns that queries compare.
use dse_auto.Common.{Bool, true, false, Option, none, some, String, str_eq, ltb, ℕ}
use dse_auto.Common.{◌==◌}

-- `column == value` where the column may be null
abbrev pub opt_str_eq : Option String → String → Bool
opt_str_eq none s = false
opt_str_eq (some t) s = str_eq t s

-- `column < value` where the column may be null
abbrev pub opt_lt : Option ℕ → ℕ → Bool
opt_lt none b = false
opt_lt (some a) b = ltb a b

-- or_(column.is_(None), column < value)
abbrev pub none_or_lt : Option ℕ → ℕ → Bool
none_or_lt none b = true
none_or_lt (some a) b = ltb a b

-- `column == value` where the column may be null
abbrev pub opt_num_eq : Option ℕ → ℕ → Bool
opt_num_eq none n = false
opt_num_eq (some m) n = m == n
