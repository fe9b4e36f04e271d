-- ===== src/RateLimit/Passed.antt =====
-- How many requests of a client pass in a window.
use dse_auto.Common.{
  ℕ, suc, ◌+◌, ◌-◌, ◌*◌, ◌≤◌, ◌<◌, ◌≡◌, refl, sym, ap, Bool, true, false, ◌&&◌, List, [], ◌∷◌, ◌++◌,
  String, str_eq, arith, All, if_rule, leb, length, keep, count_if, if◌then◌else◌,
}
use mathlib.Core.Path.{subst}
use text.Mathlib.TextPositions.{eq_refl}
use dse_auto.RateLimit.{
  RateLimiter, Request, client_ip, is_true, is_recent, set_counts, admit, dispatch,
}

abbrev pub one_if : Bool → ℕ
one_if true = 1
one_if false = 0

-- How many of the requests of one client, at the given times, pass.
unfoldable pub passes : List ℕ → Request → RateLimiter → ℕ
unfolding dispatch
passes [] request l = 0
passes (now ∷ rest) request l =
    one_if (dispatch now request l).0 + passes rest request (dispatch now request l).1

-- The timestamps since a time.
abbrev pub since : ℕ → List ℕ → ℕ
since start ts = count_if (leb start) ts

since_kept :
    (start window now : ℕ) (ts : List ℕ)
    → now < start + window * 1000000
    → since start (keep (is_recent window now) ts) ≡ since start ts
since_kept start window now [] inside = refl
since_kept start window now (t ∷ ts) inside =
    if_rule (λ l. since start l ≡ since start (t ∷ ts)) (is_recent window now t) _ _
      (λ _. kept_too (since_kept start window now ts inside))
      (λ old. gone old (since_kept start window now ts inside))
  where
    kept_too :
        since start (keep (is_recent window now) ts) ≡ since start ts
        → since start (t ∷ keep (is_recent window now) ts) ≡ since start (t ∷ ts)
    kept_too e = ap (λ n. if leb start t then suc n else n) e

    gone :
        is_recent window now t ≡ false
        → since start (keep (is_recent window now) ts) ≡ since start ts
        → since start (keep (is_recent window now) ts) ≡ since start (t ∷ ts)
    gone old e = ground arith

since-length : (start : ℕ) (ts : List ℕ) → since start ts ≤ length ts
since-length start [] = omega arith
since-length start (t ∷ ts) =
    if_rule (λ n. n ≤ suc (length ts)) (leb start t) (suc (since start ts)) (since start ts)
      (λ _. omega (arith, since-length start ts)) (λ _. omega (arith, since-length start ts))

since-behind :
    (start now : ℕ) (ts : List ℕ) → start ≤ now → since start (ts ++ now ∷ []) ≡ since start ts + 1
since-behind start now [] late = ground arith
since-behind start now (t ∷ ts) late =
    if_rule (λ n. n ≡ since start (t ∷ ts) + 1) (leb start t) _ _
      (λ late_t. counted late_t (since-behind start now ts late))
      (λ early. skipped early (since-behind start now ts late))
  where
    counted :
        leb start t ≡ true
        → since start (ts ++ now ∷ []) ≡ since start ts + 1
        → suc (since start (ts ++ now ∷ [])) ≡ since start (t ∷ ts) + 1
    counted late_t e = ground arith

    skipped :
        leb start t ≡ false
        → since start (ts ++ now ∷ []) ≡ since start ts + 1
        → since start (ts ++ now ∷ []) ≡ since start (t ∷ ts) + 1
    skipped early e = ground arith

-- A request of one client, which the middleware does not let by, and a window that begins at a time.
module _ (request : Request) (start : ℕ)
    (limited : (str_eq (client_ip request.client_host) "testserver" && is_true request.skip_header)
      ≡ false) where
  abbrev ip : String
  ip = client_ip request.client_host

  -- The time is in the window.
  abbrev IsInside : ℕ → ℕ → Type 0
  IsInside window t = (start ≤ t) × (t < start + window * 1000000)

  found_counts : (ts : List ℕ) (l : RateLimiter) → (set_counts ip ts l).request_counts ip ≡ ts
  found_counts ts l = ap (λ b. if b then ts else l.request_counts ip) (eq_refl ip)

  passes-room :
      (times : List ℕ) (l : RateLimiter) (ts : List ℕ)
      → l.request_counts ip ≡ ts
      → All (IsInside l.window_seconds) times
      → passes times request l ≤ l.max_requests - since start ts
  unfolding passes dispatch
  passes-room [] l ts e h = omega arith
  passes-room (now ∷ rest) l ts e h =
      if_rule Fits (str_eq ip "testserver" && is_true request.skip_header) (true, l)
        (admit now ip (keep (is_recent l.window_seconds now) (l.request_counts ip)) l)
        (λ skips. absurd (two limited skips))
        (λ _.
          subst (λ cs. Fits (admit now ip (keep (is_recent l.window_seconds now) cs) l)) (sym e)
            (if_rule Fits (leb l.max_requests (length recent)) _ _
              (λ _. omega (
                arith,
                kept,
                passes-room rest (set_counts ip recent l) recent (found_counts recent l) h.1,
              ))
              (λ room. roomy room (
                passes-room rest (set_counts ip (recent ++ now ∷ []) l) (recent ++ now ∷ [])
                  (found_counts (recent ++ now ∷ []) l) h.1))))
    where
      Fits : Bool × RateLimiter → Type 0
      Fits r = one_if r.0 + passes rest request r.1 ≤ l.max_requests - since start ts

      recent : List ℕ
      recent = keep (is_recent l.window_seconds now) ts

      two : {b : Bool} → b ≡ false → b ≡ true → ⊥
      two f t = ground arith

      kept : since start recent ≡ since start ts
      kept = since_kept start l.window_seconds now ts h.0.1

      below : leb l.max_requests (length recent) ≡ false → length recent < l.max_requests
      below room = ground arith

      roomy :
          leb l.max_requests (length recent) ≡ false
          → passes rest request (set_counts ip (recent ++ now ∷ []) l)
            ≤ l.max_requests - since start (recent ++ now ∷ [])
          → 1 + passes rest request (set_counts ip (recent ++ now ∷ []) l)
            ≤ l.max_requests - since start ts
      roomy room later = omega (
        arith,
        kept,
        later,
        since-behind start now recent h.0.0,
        since-length start recent,
        below room,
      )

-- Of the requests of one client that all fall into one window, and that do not carry the header for
-- tests, the middleware lets at most `max_requests` pass, whatever it has counted before.
pub passes-bounded :
    (request : Request) (start : ℕ) (times : List ℕ) (l : RateLimiter)
    → (str_eq (client_ip request.client_host) "testserver" && is_true request.skip_header) ≡ false
    → All (λ t. (start ≤ t) × (t < start + l.window_seconds * 1000000)) times
    → passes times request l ≤ l.max_requests
passes-bounded request start times l limited h = omega (
  arith,
  passes-room request start limited times l (l.request_counts (client_ip request.client_host)) refl
      h,
)
