-- ===== src/Examples/Services.antt =====
-- Providers, walk-forward windows, the startup recovery, logins and a task that never succeeds.
use dse_auto.Common.{
  ℕ, ◌+◌, ◌*◌, ◌≤◌, ◌≡◌, ◌↔◌, refl, false, true, none, some, List, [], ◌∷◌, All, ok, raise,
  other_error, arith,
}
use dse_auto.Common.Text.{Text, strip}
use dse_auto.Store.{Session, awaiting_approval, get_account}
use dse_auto.TaskQueue.Dead.{run_all, IsBuried, run_all-IsBuried}
use dse_auto.Providers.Quotes.{Quote, compare_quotes, valid, exchange_verified}
use dse_auto.Providers.{new_breaker, Attempt, attempt, ReliableDataProvider, get_quote, fetched}
use dse_auto.Providers.Calls.{calls, calls-bounded}
use dse_auto.Providers.Safe.{IsUsable, get_quote-IsUsable}
use dse_auto.Backtest.{Split, walk_forward_splits}
use dse_auto.Backtest.Splits.{IsTiling, walk_forward_splits-IsTiling}
use dse_auto.Recovery.{is_in_step, is_in_market, recover_books}
use dse_auto.Recovery.Outcome.{IsSettled, is_healthy, switch, may_resume, recover_books-healthy_iff}
use dse_auto.Security.{
  AuthSession, AuthDb, Settings, Digest, Login, principal, session_row,
  authenticate_and_create_session, stored,
}
use dse_auto.Security.Tokens.{bearer, until, authenticate_and_create_session-principal}
use dse_auto.RateLimit.{RateLimiter, Request}
use dse_auto.RateLimit.Passed.{passes, passes-bounded}
use dse_auto.Examples.Samples.{
  env0, chain0, session_with, order_with, task0, queue_with, worker0, failing,
}

run_all-IsBuried_example : IsBuried 3 5 (
    run_all
      ((10, 11)
        ∷ (2000000, 2000001)
        ∷ (5000000, 5000001)
        ∷ (10000000, 10000001)
        ∷ (20000000, 20000001)
        ∷ [])
      worker0
      (3 ∷ [])
      (queue_with task0))
run_all-IsBuried_example =
    run_all-IsBuried 3 worker0 failing other_error
      ((2000000, 2000001) ∷ (5000000, 5000001) ∷ (10000000, 10000001) ∷ (20000000, 20000001) ∷ [])
      10 11 (queue_with task0) task0 (λ s payload. (s, refl, refl)) refl (refl, refl) refl refl
      (omega arith, (omega arith, (omega arith, (omega arith, (omega arith, tt)))))

abbrev failed_at : ℕ → Attempt ℕ
failed_at t = record { asked = t; outcome = raise other_error; failed = t }

calls-bounded_example :
    calls
      (failed_at 10 ∷ failed_at 20 ∷ failed_at 30 ∷ failed_at 40 ∷ [])
      (new_breaker "primary" 3 60000000)
    ≤ 3
calls-bounded_example =
    calls-bounded "primary" 3 60000000 10
      (failed_at 10 ∷ failed_at 20 ∷ failed_at 30 ∷ failed_at 40 ∷ []) (omega arith)
      (
        (refl, omega arith, omega arith),
        (
          (refl, omega arith, omega arith),
          ((refl, omega arith, omega arith), ((refl, omega arith, omega arith), tt)),
        ),
      )

abbrev quote_at : ℕ → Quote
quote_at price = record {
  symbol = "GP";
  last_price = price;
  opening = none;
  high = none;
  low = none;
  previous_close = some 1000000;
  change = none;
  change_percent = none;
  volume = none;
  trade_count = none;
  turnover = none;
  bid = none;
  ask = none;
  market_timestamp = 100;
  received_at = 110;
  source = "exchange";
  stale = false;
  quality_status = valid;
  quality_flags = [];
  timestamp_provenance = exchange_verified;
}

abbrev answered : ℕ → Attempt Quote
answered price = record { asked = 120; outcome = ok (quote_at price); failed = 130 }

abbrev reliable0 : ReliableDataProvider
reliable0 = record {
  primary_breaker = new_breaker "primary" 3 60000000;
  secondary_breaker = new_breaker "secondary" 3 60000000;
  max_disagreement_percent = 10000;
  max_staleness_seconds = 30;
}

get_quote-IsUsable_example :
    (quote_at 1000000 ≡ quote_at 1000000)
    × IsUsable 10000 30 150
        (quote_at 1000000)
        (fetched (attempt (answered 1005000) (new_breaker "secondary" 3 60000000)).0)
unfolding get_quote attempt compare_quotes
get_quote-IsUsable_example =
    get_quote-IsUsable 150 (answered 1000000) (answered 1005000) reliable0 (quote_at 1000000)
      (quote_at 1000000) refl refl refl

walk_forward_splits-IsTiling_example :
    (ws : List Split) × (walk_forward_splits 20 10 3 3 ≡ ok (some ws)) × IsTiling 20 10 3 3 0 ws
walk_forward_splits-IsTiling_example =
    walk_forward_splits-IsTiling 20 10 3 3 (omega arith) (omega arith) (omega arith) (omega arith)

abbrev restarted0 : Session
restarted0 = session_with (some chain0) (order_with awaiting_approval ∷ []) []

recover_books-healthy_iff_example :
    All (IsSettled 50) (recover_books env0 50 restarted0).work.books.orders
    × ((is_healthy (switch (recover_books env0 50 restarted0)) ≡ true) ↔ (
        (is_in_step (get_account 1 restarted0) restarted0.work.books.transactions ≡ true)
        × All
            (λ o. is_in_market o.status ≡ false)
            (recover_books env0 50 restarted0).work.books.orders
        × (may_resume (switch restarted0) ≡ true)))
recover_books-healthy_iff_example = recover_books-healthy_iff env0 50 restarted0

abbrev settings0 : Settings
settings0 = record {
  api_secret_key = 107 ∷ 101 ∷ 121 ∷ [];
  reviewer_api_secret_key = 114 ∷ 101 ∷ 118 ∷ [];
  session_ttl_seconds = 3600;
  login_max_attempts = 5;
  login_window_seconds = 300;
}

abbrev digest0 : Digest
digest0 t = "digest"

abbrev token0 : Text
token0 = 116 ∷ 111 ∷ []

abbrev login0 : Login
login0 = record {
  role = "operator";
  supplied_key = 107 ∷ 101 ∷ 121 ∷ [];
  actor = "ana";
  fingerprint = 102 ∷ [];
}

abbrev auth0 : AuthDb
auth0 = stored (record { sessions = []; attempts = []; next_id = 1 })

abbrev opened0 : AuthSession
opened0 = session_row settings0 2 100 "digest" "operator" "ana"

authenticate_and_create_session-principal_example :
    (principal settings0 digest0 900 []
        (bearer token0)
        (authenticate_and_create_session settings0 digest0 100 token0 login0 auth0).1.durable
      ≡ until 900 opened0)
    × (opened0.actor ≡ login0.actor)
    × (opened0.role ≡ login0.role)
    × (opened0.expires_at ≡ 100 + settings0.session_ttl_seconds * 1000000)
unfolding authenticate_and_create_session strip
authenticate_and_create_session-principal_example =
    authenticate_and_create_session-principal settings0 digest0 100 900 token0 token0 login0 auth0
      opened0 refl refl refl

-- A limit of two requests, and a client with a request of the window before.
abbrev limiter0 : RateLimiter
limiter0 = record { max_requests = 2; window_seconds = 60; request_counts = λ client. 5 ∷ [] }

abbrev request0 : Request
request0 = record { client_host = some "10.0.0.1"; skip_header = none }

passes-bounded_example : passes (10 ∷ 20 ∷ 30 ∷ 40 ∷ []) request0 limiter0 ≤ 2
passes-bounded_example = passes-bounded request0 10 (10 ∷ 20 ∷ 30 ∷ 40 ∷ []) limiter0 refl (
  (omega arith, omega arith),
  ((omega arith, omega arith), ((omega arith, omega arith), ((omega arith, omega arith), tt))),
)
