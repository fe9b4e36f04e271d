-- ===== src/Providers.antt =====
-- backend/app/data/providers/reliable.py: the circuit breakers and the failover from the primary
-- provider to the secondary. What a provider answers is outside the repository; it is an argument.
pub mod Quotes
pub mod Calls
pub mod Safe
use dse_auto.Common.{
  ℕ, ◌+◌, Bool, true, false, not, ◌||◌, Option, none, some, List, [], ◌∷◌, ◌++◌, String, ltb, leb,
  if◌then◌else◌, Result, ok, raise, provider_error,
}
use dse_auto.Common.Keys.{Json, bool, int, dict}
use dse_auto.Broker.Submit.{text_json}
use dse_auto.Providers.Quotes.{Quote, unsafe, degraded, compare_quotes}

pub data BreakerState : Type 0 where
  closed open_circuit half_open : BreakerState

-- A breaker; times and the cooldown are in microseconds.
pub record CircuitBreaker : Type 0 where
  pub name : String
  pub failure_threshold : ℕ
  pub cooldown : ℕ
  pub failure_count : ℕ
  pub last_failure_time : ℕ
  pub state : BreakerState

-- `__init__`
abbrev pub new_breaker : String → ℕ → ℕ → CircuitBreaker
new_breaker name failure_threshold cooldown = record {
  name = name;
  failure_threshold = failure_threshold;
  cooldown = cooldown;
  failure_count = 0;
  last_failure_time = 0;
  state = closed;
}

abbrev pub record_success : CircuitBreaker → CircuitBreaker
record_success b = record b { failure_count = 0; state = closed }

unfoldable pub record_failure : ℕ → CircuitBreaker → CircuitBreaker
record_failure now b = record b {
  failure_count = b.failure_count + 1;
  last_failure_time = now;
  state = if leb b.failure_threshold (b.failure_count + 1) then open_circuit else b.state;
}

-- The state that the test leaves, and its answer.
abbrev pub tested : ℕ → CircuitBreaker → BreakerState → Bool × CircuitBreaker
tested now b closed = (true, b)
tested now b open_circuit =
    if ltb (b.last_failure_time + b.cooldown) now
    then (true, record b { state = half_open })
    else (false, b)
tested now b half_open = (true, b)

abbrev pub can_execute : ℕ → CircuitBreaker → Bool × CircuitBreaker
can_execute now b = tested now b b.state

-- A call of a provider: when its breaker is tested, what it answers if it is asked, and when the
-- failure of the answer is recorded.
pub record Attempt {ℓ} (A : Type ℓ) : Type ℓ where
  pub asked : ℕ
  pub outcome : Result A
  pub failed : ℕ

-- The breaker after an answer.
abbrev pub after {ℓ} : {A : Type ℓ} → Result A → ℕ → CircuitBreaker → CircuitBreaker
after (ok a) failed b = record_success b
after (raise e) failed b = record_failure failed b

-- The answer where the provider is asked.
abbrev pub answer {ℓ} : {A : Type ℓ} → Bool → Result A → Option (Result A)
answer false outcome = none
answer true outcome = some outcome

abbrev pub settle {ℓ} : {A : Type ℓ} → Attempt A → Bool × CircuitBreaker → CircuitBreaker
settle a (false, b) = b
settle a (true, b) = after a.outcome a.failed b

-- One provider's part of a request: `none` where its circuit is open.
unfoldable pub attempt {ℓ} :
    {A : Type ℓ} → Attempt A → CircuitBreaker → Option (Result A) × CircuitBreaker
unfolding record_failure
attempt a b = (answer (can_execute a.asked b).0 a.outcome, settle a (can_execute a.asked b))

pub record ReliableDataProvider : Type 0 where
  pub primary_breaker : CircuitBreaker
  pub secondary_breaker : CircuitBreaker
  pub max_disagreement_percent : ℕ
  pub max_staleness_seconds : ℕ

abbrev pub with_secondary : CircuitBreaker → ReliableDataProvider → ReliableDataProvider
with_secondary b p = record p { secondary_breaker = b }

abbrev pub with_primary : CircuitBreaker → ReliableDataProvider → ReliableDataProvider
with_primary b p = record p { primary_breaker = b }

-- The secondary's answer, as the answer to the request; a DataProviderError otherwise.
abbrev pub secondary_result {ℓ} : {A : Type ℓ} → Option (Result A) → Result A
secondary_result none = raise (provider_error "All providers are currently offline/circuits open")
secondary_result (some (ok a)) = ok a
secondary_result (some (raise e)) =
    raise (provider_error "Both primary and secondary providers failed")

abbrev pub fail_over {ℓ} :
    {A : Type ℓ}
    → Attempt A
    → ReliableDataProvider
    → Option (Result A) × CircuitBreaker
    → Result A × ReliableDataProvider
fail_over second p (some (ok a), b) = (ok a, with_primary b p)
fail_over second p (some (raise e), b) =
    let (r, b') = attempt second p.secondary_breaker in
    (secondary_result r, with_secondary b' (with_primary b p))
fail_over second p (none, b) =
    let (r, b') = attempt second p.secondary_breaker in
    (secondary_result r, with_secondary b' (with_primary b p))

-- `_execute`
unfoldable pub execute {ℓ} :
    {A : Type ℓ} → Attempt A → Attempt A → ReliableDataProvider → Result A × ReliableDataProvider
unfolding attempt
execute first second p = fail_over second p (attempt first p.primary_breaker)

-- `get_company_info`, `get_market_depth` and `get_news`: an error gives the default.
abbrev pub or_fallback {ℓ} :
    {A : Type ℓ} → A → Result A × ReliableDataProvider → A × ReliableDataProvider
or_fallback d (ok a, p) = (a, p)
or_fallback d (raise e, p) = (d, p)

unfoldable pub execute_or {ℓ} :
    {A : Type ℓ} → A → Attempt A → Attempt A → ReliableDataProvider → A × ReliableDataProvider
unfolding execute
execute_or d first second p = or_fallback d (execute first second p)

-- The provider whose capabilities are returned: the primary, where its circuit lets it.
abbrev pub get_capabilities {ℓ} :
    {A : Type ℓ} → ℕ → A → A → ReliableDataProvider → A × ReliableDataProvider
get_capabilities now primary secondary p =
    let (usable, b) = can_execute now p.primary_breaker in
    (if usable then primary else secondary, with_primary b p)

-- The quote of an answer.
abbrev pub fetched : Option (Result Quote) → Option Quote
fetched none = none
fetched (some (ok q)) = some q
fetched (some (raise e)) = none

abbrev pub mark_unsafe : List String → Quote → Quote
mark_unsafe reasons q = record q {
  quality_status = unsafe;
  quality_flags = q.quality_flags ++ reasons;
}

abbrev pub mark_fallback : Quote → Quote
mark_fallback q = record q {
  quality_status = degraded;
  quality_flags = q.quality_flags ++ "primary_provider_failed" ∷ [];
}

-- The quote that is returned for what the two providers gave, at the time the request began.
unfoldable pub choose_quote : ReliableDataProvider → ℕ → Option Quote → Option Quote → Result Quote
choose_quote p now none none = raise (provider_error "Failed to fetch quotes from all providers")
choose_quote p now none (some s) = ok (mark_fallback s)
choose_quote p now (some q) second =
    let c = compare_quotes q second p.max_disagreement_percent p.max_staleness_seconds now in
    ok (if c.safe_for_orders then q else mark_unsafe c.reason_codes q)

unfoldable pub get_quote :
    ℕ → Attempt Quote → Attempt Quote → ReliableDataProvider → Result Quote × ReliableDataProvider
unfolding attempt choose_quote
get_quote now first second p =
    let (r, b) = attempt first p.primary_breaker in
    let (r', b') = attempt second p.secondary_breaker in
    (choose_quote p now (fetched r) (fetched r'), with_secondary b' (with_primary b p))

abbrev pub breaker_state_name : BreakerState → String
breaker_state_name closed = "closed"
breaker_state_name open_circuit = "open"
breaker_state_name half_open = "half_open"

abbrev pub is_open : BreakerState → Bool
is_open closed = false
is_open open_circuit = true
is_open half_open = false

abbrev pub breaker_json : CircuitBreaker → Json
breaker_json b = dict (
    ("name", text_json b.name)
    ∷ ("state", text_json (breaker_state_name b.state))
    ∷ ("failures", int b.failure_count)
    ∷ [])

abbrev pub health_check : ReliableDataProvider → Json
health_check p = dict (
    ("provider", text_json "reliable")
    ∷ (
      "healthy",
      bool (not (is_open p.primary_breaker.state) || not (is_open p.secondary_breaker.state)),
    )
    ∷ ("primary", breaker_json p.primary_breaker)
    ∷ ("secondary", breaker_json p.secondary_breaker)
    ∷ [])
