-- ===== src/RateLimit.antt =====
-- backend/app/core/rate_limit.py: the requests of a client in a window. Times are in microseconds; the
-- response to a request that passes is outside.
pub mod Passed
use dse_auto.Common.{
  ℕ, ◌+◌, ◌*◌, Bool, true, false, not, ◌&&◌, Option, none, some, List, [], ◌∷◌, ◌++◌, String,
  str_eq, ltb, leb, length, keep, if◌then◌else◌,
}

pub record RateLimiter : Type 0 where
  pub max_requests : ℕ
  pub window_seconds : ℕ
  -- `request_counts`, where a missing client has the empty list
  pub request_counts : String → List ℕ

-- What the middleware reads of a request.
pub record Request : Type 0 where
  pub client_host : Option String
  pub skip_header : Option String

-- request.client.host if request.client else "unknown"
abbrev pub client_ip : Option String → String
client_ip none = "unknown"
client_ip (some host) = host

abbrev pub is_true : Option String → Bool
is_true none = false
is_true (some text) = str_eq text "true"

-- now - t < window
abbrev pub is_recent : ℕ → ℕ → ℕ → Bool
is_recent window_seconds now t = ltb now (t + window_seconds * 1000000)

abbrev pub set_counts : String → List ℕ → RateLimiter → RateLimiter
set_counts ip ts l = record l {
  request_counts = λ other. if str_eq other ip then ts else l.request_counts other;
}

-- The request of a client, with its timestamps in the window: whether it passes.
abbrev pub admit : ℕ → String → List ℕ → RateLimiter → Bool × RateLimiter
admit now ip recent l =
    if leb l.max_requests (length recent)
    then (false, set_counts ip recent l)
    else (true, set_counts ip (recent ++ now ∷ []) l)

unfoldable pub dispatch : ℕ → Request → RateLimiter → Bool × RateLimiter
dispatch now request l =
    let ip = client_ip request.client_host in
    if str_eq ip "testserver" && is_true request.skip_header
    then (true, l)
    else admit now ip (keep (is_recent l.window_seconds now) (l.request_counts ip)) l
