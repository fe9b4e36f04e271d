-- ===== src/Providers/Quotes.antt =====
-- backend/app/schemas/market.py: a quote; backend/app/services/data_validation.py: the comparison of
-- two quotes. Prices and percentages are in ten-thousandths and times in microseconds; a percentage
-- is compared with its limit as an exact ratio, multiplied out.
use dse_auto.Common.{
  ℕ, ◌+◌, ◌-◌, ◌*◌, Bool, true, false, not, ◌&&◌, ◌||◌, Option, none, some, List, [], ◌∷◌, ◌++◌,
  String, str_eq, ltb, ◌==◌, any, max, if◌then◌else◌,
}
use dse_auto.Common.Int.{ℤ}

pub data QualityStatus : Type 0 where
  valid degraded unsafe : QualityStatus

pub data TimestampProvenance : Type 0 where
  exchange_verified provider_asserted operator_attested receipt_only unknown : TimestampProvenance

pub record Quote : Type 0 where
  pub symbol : String
  pub last_price : ℕ
  pub opening : Option ℕ
  pub high : Option ℕ
  pub low : Option ℕ
  pub previous_close : Option ℕ
  pub change : Option ℤ
  pub change_percent : Option ℤ
  pub volume : Option ℕ
  pub trade_count : Option ℕ
  pub turnover : Option ℕ
  pub bid : Option ℕ
  pub ask : Option ℕ
  pub market_timestamp : ℕ
  pub received_at : ℕ
  pub source : String
  pub stale : Bool
  pub quality_status : QualityStatus
  pub quality_flags : List String
  pub timestamp_provenance : TimestampProvenance

pub record DataComparison : Type 0 where
  pub symbol : String
  pub safe_for_orders : Bool
  -- a difference and what it is a percentage of
  pub disagreement_percent : Option (ℕ × ℕ)
  pub reason_codes : List String
  pub primary : Quote
  pub secondary : Option Quote

abbrev pub is_unsafe : QualityStatus → Bool
is_unsafe unsafe = true
is_unsafe valid = false
is_unsafe degraded = false

abbrev pub is_trusted : TimestampProvenance → Bool
is_trusted exchange_verified = true
is_trusted operator_attested = true
is_trusted provider_asserted = false
is_trusted receipt_only = false
is_trusted unknown = false

-- quote.stale or age > max_staleness_seconds
abbrev pub is_old : ℕ → ℕ → Quote → Bool
is_old max_staleness_seconds now q =
    q.stale || ltb (q.market_timestamp + max_staleness_seconds * 1000000) now

abbrev pub difference : ℕ → ℕ → ℕ
difference a b = (a - b) + (b - a)

-- Whether a part is more than so many ten-thousandths of a percent of a whole.
abbrev pub exceeds_percent : ℕ → ℕ → ℕ → Bool
exceeds_percent limit part whole = ltb (limit * whole) (part * 1000000)

abbrev pub prices_conflict : ℕ → Quote → Quote → Bool
prices_conflict limit q s =
    exceeds_percent limit (difference q.last_price s.last_price)
      (max q.last_price (max s.last_price 1))

-- Both closes, where both are given and not zero.
abbrev pub closes_differ : ℕ → Option ℕ → Option ℕ → Bool
closes_differ limit none b = false
closes_differ limit (some a) none = false
closes_differ limit (some a) (some b) =
    not (a == 0) && not (b == 0) && exceeds_percent limit (difference a b) (max a b)

abbrev pub reason_if : Bool → String → List String
reason_if b name = if b then name ∷ [] else []

abbrev pub primary_reasons : ℕ → ℕ → Quote → List String
primary_reasons max_staleness_seconds now q =
    reason_if (is_old max_staleness_seconds now q) "STALE_PRIMARY_DATA"
    ++ reason_if (is_unsafe q.quality_status) "PRIMARY_DATA_UNSAFE"
    ++ reason_if (not (is_trusted q.timestamp_provenance)) "INSUFFICIENT_TIMESTAMP_TRUST"

abbrev pub secondary_reasons : ℕ → ℕ → ℕ → Quote → Option Quote → List String
secondary_reasons limit max_staleness_seconds now q none = "SECONDARY_PROVIDER_UNAVAILABLE" ∷ []
secondary_reasons limit max_staleness_seconds now q (some s) =
    reason_if (is_old max_staleness_seconds now s) "STALE_SECONDARY_DATA"
    ++ reason_if (prices_conflict limit q s) "PROVIDER_PRICE_CONFLICT"
    ++ reason_if (closes_differ limit q.previous_close s.previous_close)
        "PROVIDER_PREVIOUS_CLOSE_CONFLICT"

abbrev pub disagreement : Quote → Option Quote → Option (ℕ × ℕ)
disagreement q none = none
disagreement q (some s) =
    some (difference q.last_price s.last_price, max q.last_price (max s.last_price 1))

-- The set `blocking`.
abbrev pub blocking : List String
blocking =
    "STALE_PRIMARY_DATA" ∷ "PRIMARY_DATA_UNSAFE" ∷ "INSUFFICIENT_TIMESTAMP_TRUST"
    ∷ "PROVIDER_PRICE_CONFLICT" ∷ "PROVIDER_PREVIOUS_CLOSE_CONFLICT" ∷ []

abbrev pub is_blocking : String → Bool
is_blocking reason = any (str_eq reason) blocking

unfoldable pub compare_quotes : Quote → Option Quote → ℕ → ℕ → ℕ → DataComparison
compare_quotes q second limit max_staleness_seconds now =
    let reasons =
      primary_reasons max_staleness_seconds now q
      ++ secondary_reasons limit max_staleness_seconds now q second in
    record {
      symbol = q.symbol;
      safe_for_orders = not (any is_blocking reasons);
      disagreement_percent = disagreement q second;
      reason_codes = reasons;
      primary = q;
      secondary = second;
    }
