-- ===== src/Providers/Safe.antt =====
-- What a quote has passed that is returned as usable.
use dse_auto.Common.{
  ℕ, ◌+◌, ◌*◌, ◌≤◌, ◌≡◌, ◌↔◌, ◌⊎◌, Bool-cases, inl, inr, ◌==◌, max, refl, sym, ap, ◌∙◌, Bool, true,
  false, not, ◌||◌, Option, none, some, List, [], ◌∷◌, ◌++◌, String, arith, if_rule, ok, any,
}
use dse_auto.Providers.Quotes.{
  Quote, is_unsafe, is_old, is_trusted, prices_conflict, closes_differ, compare_quotes, reason_if,
  primary_reasons, secondary_reasons, is_blocking, exceeds_percent, difference,
}
use dse_auto.Providers.{
  Attempt, ReliableDataProvider, attempt, fetched, choose_quote, get_quote, mark_unsafe,
}

-- A part is at most so many ten-thousandths of a percent of a whole.
abbrev pub IsWithin : ℕ → ℕ → ℕ → Type 0
IsWithin limit part whole = part * 1000000 ≤ limit * whole

-- Two closes agree, where both are given and not zero.
abbrev pub IsClose : ℕ → Option ℕ → Option ℕ → Type 0
IsClose limit none b = Unit
IsClose limit (some a) none = Unit
IsClose limit (some a) (some b) = (a ≡ 0) ⊎ (b ≡ 0) ⊎ IsWithin limit (difference a b) (max a b)

-- Two quotes agree on the price and, where both have one, on the previous close.
abbrev pub IsAgreed : ℕ → Quote → Option Quote → Type 0
IsAgreed limit q none = Unit
IsAgreed limit q (some s) =
    IsWithin limit (difference q.last_price s.last_price) (max q.last_price (max s.last_price 1))
    × IsClose limit q.previous_close s.previous_close

pub record IsUsable (limit max_staleness_seconds now : ℕ) (q : Quote) (second : Option Quote)
    : Type 0 where
  pub current : q.stale ≡ false
  pub recent : now ≤ q.market_timestamp + max_staleness_seconds * 1000000
  pub sound : is_unsafe q.quality_status ≡ false
  pub trusted : is_trusted q.timestamp_provenance ≡ true
  pub agreed : IsAgreed limit q second

in_limit_iff :
    (limit part whole : ℕ) → (exceeds_percent limit part whole ≡ false) ↔ IsWithin limit part whole
in_limit_iff limit part whole = (λ h. ground arith, λ h. ground arith)

near_closes_iff :
    (limit : ℕ) (a b : Option ℕ) → (closes_differ limit a b ≡ false) ↔ IsClose limit a b
near_closes_iff limit none b = (λ _. tt, λ _. refl)
near_closes_iff limit (some a) none = (λ _. tt, λ _. refl)
near_closes_iff limit (some a) (some b) = (
  λ h. elim (Bool-cases (a == 0)) [
    | inl no_first ↦ inl (ground arith)
    | inr first ↦ elim (Bool-cases (b == 0)) [
      | inl no_second ↦ inr (inl (ground arith))
      | inr second ↦ inr (inr ((in_limit_iff limit (difference a b) (max a b)).0 (ground arith)))
    ]
  ],
  λ h. elim h [
    | inl no_first ↦ ground arith
    | inr (inl no_second) ↦ ground arith
    | inr (inr within) ↦ ground (arith, (in_limit_iff limit (difference a b) (max a b)).1 within)
  ],
)

any-append : (p : String → Bool) (xs ys : List String) → any p (xs ++ ys) ≡ (any p xs || any p ys)
any-append p [] ys = refl
any-append p (x ∷ xs) ys = ground (arith, any-append p xs ys)

primary_blocks :
    (a b c : Bool)
    → any is_blocking (
        reason_if a "STALE_PRIMARY_DATA"
        ++ reason_if b "PRIMARY_DATA_UNSAFE"
        ++ reason_if c "INSUFFICIENT_TIMESTAMP_TRUST")
      ≡ (a || b || c)
primary_blocks true true true = refl
primary_blocks true true false = refl
primary_blocks true false true = refl
primary_blocks true false false = refl
primary_blocks false true true = refl
primary_blocks false true false = refl
primary_blocks false false true = refl
primary_blocks false false false = refl

secondary_blocks :
    (a b c : Bool)
    → any is_blocking (
        reason_if a "STALE_SECONDARY_DATA"
        ++ reason_if b "PROVIDER_PRICE_CONFLICT"
        ++ reason_if c "PROVIDER_PREVIOUS_CLOSE_CONFLICT")
      ≡ (b || c)
secondary_blocks true true true = refl
secondary_blocks true true false = refl
secondary_blocks true false true = refl
secondary_blocks true false false = refl
secondary_blocks false true true = refl
secondary_blocks false true false = refl
secondary_blocks false false true = refl
secondary_blocks false false false = refl

module _ (limit max_staleness_seconds now : ℕ) (q : Quote) where
  abbrev primary_blocked : Bool
  primary_blocked =
      is_old max_staleness_seconds now q
      || is_unsafe q.quality_status
      || not (is_trusted q.timestamp_provenance)

  abbrev secondary_blocked : Option Quote → Bool
  secondary_blocked none = false
  secondary_blocked (some s) =
      prices_conflict limit q s || closes_differ limit q.previous_close s.previous_close

  secondary_any :
      (second : Option Quote)
      → any is_blocking (secondary_reasons limit max_staleness_seconds now q second)
        ≡ secondary_blocked second
  secondary_any none = refl
  secondary_any (some s) =
      secondary_blocks (is_old max_staleness_seconds now s) (prices_conflict limit q s)
        (closes_differ limit q.previous_close s.previous_close)

  safe_test :
      (second : Option Quote)
      → (compare_quotes q second limit max_staleness_seconds now).safe_for_orders
        ≡ not (primary_blocked || secondary_blocked second)
  unfolding compare_quotes
  safe_test second = ap not (
      any-append is_blocking (primary_reasons max_staleness_seconds now q)
        (secondary_reasons limit max_staleness_seconds now q second)
      ∙ both
          (primary_blocks (is_old max_staleness_seconds now q) (is_unsafe q.quality_status)
            (not (is_trusted q.timestamp_provenance)))
          (secondary_any second))
    where
      both : {a b c d : Bool} → a ≡ b → c ≡ d → (a || c) ≡ (b || d)
      both e f = cc

  without_conflict :
      (second : Option Quote) → secondary_blocked second ≡ false → IsAgreed limit q second
  without_conflict none h = tt
  without_conflict (some s) h = (
    (in_limit_iff limit (difference q.last_price s.last_price)
          (max q.last_price (max s.last_price 1))).0
        (ground arith),
    (near_closes_iff limit q.previous_close s.previous_close).0 (ground arith),
  )

  conflict_free :
      (second : Option Quote) → IsAgreed limit q second → secondary_blocked second ≡ false
  conflict_free none h = refl
  conflict_free (some s) h = ground (
    arith,
    (in_limit_iff limit (difference q.last_price s.last_price)
          (max q.last_price (max s.last_price 1))).1
        h.0,
    (near_closes_iff limit q.previous_close s.previous_close).1 h.1,
  )

  -- `compare_quotes` finds a quote safe for orders exactly where it is recent, not marked unsafe, of a
  -- trusted timestamp and, where there is a second quote, in agreement with it on the price and on
  -- the previous close.
  pub compare_quotes-safe_iff :
      (second : Option Quote)
      → ((compare_quotes q second limit max_staleness_seconds now).safe_for_orders ≡ true)
        ↔ IsUsable limit max_staleness_seconds now q second
  compare_quotes-safe_iff second = (
    λ h. usable (sym (safe_test second) ∙ h),
    λ u.
        safe_test second
        ∙ passed (ground (arith, u.current, u.recent)) u.sound u.trusted
            (conflict_free second u.agreed),
  )
    where
      usable :
          not (primary_blocked || secondary_blocked second) ≡ true
          → IsUsable limit max_staleness_seconds now q second
      usable h = record {
        current = ground arith;
        recent = ground arith;
        sound = ground arith;
        trusted = ground arith;
        agreed = without_conflict second (ground arith);
      }

      passed :
          is_old max_staleness_seconds now q ≡ false
          → is_unsafe q.quality_status ≡ false
          → is_trusted q.timestamp_provenance ≡ true
          → secondary_blocked second ≡ false
          → not (primary_blocked || secondary_blocked second) ≡ true
      passed a b c d = ground arith

module _ (now : ℕ) (first second : Attempt Quote) (p : ReliableDataProvider) (q : Quote) where
  abbrev companion : Option Quote
  companion = fetched (attempt second p.secondary_breaker).0

  chosen-IsUsable :
      (r : Quote)
      → is_unsafe r.quality_status ≡ false
      → choose_quote p now (some q) companion ≡ ok r
      → (r ≡ q) × IsUsable p.max_disagreement_percent p.max_staleness_seconds now q companion
  unfolding choose_quote
  chosen-IsUsable r usable =
      if_rule
        (λ x.
          ok x ≡ ok r
          → (r ≡ q) × IsUsable p.max_disagreement_percent p.max_staleness_seconds now q companion)
        (compare_quotes q companion p.max_disagreement_percent p.max_staleness_seconds
          now).safe_for_orders
        q
        (mark_unsafe
          (compare_quotes q companion p.max_disagreement_percent p.max_staleness_seconds
            now).reason_codes
          q)
        (λ safe e. (
          cc,
          (compare_quotes-safe_iff p.max_disagreement_percent p.max_staleness_seconds now q
                companion).0
              safe,
        ))
        (λ _ e. absurd (unusable _ (same _ e)))
    where
      two : {b : Bool} → true ≡ b → b ≡ false → ⊥
      two t f = ground arith

      same : (x : Quote) → ok x ≡ ok r → x ≡ r
      same x e = cc

      unusable : (reasons : List String) → mark_unsafe reasons q ≡ r → ⊥
      unusable reasons e = two (ap (λ (z : Quote). is_unsafe z.quality_status) e) usable

-- Where the primary provider gives a quote and `get_quote` returns one that is not marked unsafe, it
-- is the primary's, recent, not marked unsafe by the provider, of a trusted timestamp, and in
-- agreement with the secondary's quote where there is one.
pub get_quote-IsUsable :
    (now : ℕ) (first second : Attempt Quote) (p : ReliableDataProvider) (q r : Quote)
    → fetched (attempt first p.primary_breaker).0 ≡ some q
    → (get_quote now first second p).0 ≡ ok r
    → is_unsafe r.quality_status ≡ false
    → (r ≡ q)
      × IsUsable p.max_disagreement_percent p.max_staleness_seconds now q
          (fetched (attempt second p.secondary_breaker).0)
unfolding get_quote
get_quote-IsUsable now first second p q r given e usable =
    chosen-IsUsable now first second p q r usable (
      ap (λ o. choose_quote p now o (fetched (attempt second p.secondary_breaker).0)) (sym given)
      ∙ e)
