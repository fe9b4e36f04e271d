-- ===== src/Risk/Approval.antt =====
-- The decision of the engine and an independent description of the limits.
use dse_auto.Common.{
  ℕ, ◌+◌, ◌-◌, ◌*◌, ◌≤◌, ◌<◌, ◌≡◌, refl, Bool, true, false, not, ◌&&◌, ◌||◌, ◌↔◌, ◌⊎◌, Option, none,
  some, List, [], ◌∷◌, str_eq, ltb, leb, arith, All,
}
use dse_auto.Common.Int.{pos_part}
use dse_auto.Store.{KillState, healthy}
use dse_auto.Schemas.{OrderProposal, RiskCode}
use dse_auto.Env.{Env}
use dse_auto.Risk.{
  RiskLimits, Conditions, checks, failed, evaluate, is_healthy, is_empty, member, trade_value,
  some_above, some_below, deviates, spreads,
}

-- A value that may be missing is at most, or at least, a limit.
abbrev pub IsAtMost : Option ℕ → ℕ → Type 0
IsAtMost none limit = Unit
IsAtMost (some v) limit = v ≤ limit

abbrev pub IsAtLeast : Option ℕ → ℕ → Type 0
IsAtLeast none limit = Unit
IsAtLeast (some v) limit = limit ≤ v

-- |limit price - current price| * 100 is at most maximum * current price, if there is a limit price.
abbrev pub IsNear : Option ℕ → ℕ → ℕ → Type 0
IsNear none current maximum = Unit
IsNear (some p) current maximum =
    (p ≡ 0) ⊎ (((p - current) + (current - p)) * 1000000 ≤ maximum * current)

abbrev pub IsNarrow : Option ℕ → Option ℕ → ℕ → Type 0
IsNarrow none ask maximum = Unit
IsNarrow (some bid) none maximum = Unit
IsNarrow (some bid) (some ask) maximum =
    (bid ≡ 0) ⊎ (ask ≡ 0) ⊎ ((ask - bid) * 1000000 ≤ maximum * ask)

-- What the limits ask of a proposal under the conditions of the moment.
pub record IsAcceptable (l : RiskLimits) (p : OrderProposal) (c : Conditions) : Type 0 where
  pub kill_switch : c.kill_switch_state ≡ healthy
  pub daily_loss : c.daily_loss_percent < l.daily_loss_percent
  pub drawdown : c.campaign_drawdown_percent < l.drawdown_percent
  pub losses : c.consecutive_losses < l.cooldown_count
  pub not_suspended : c.strategy_suspended ≡ false
  pub restarted : c.restart_reconciled ≡ true
  pub reconciled : c.reconciliation_healthy ≡ true
  pub quality : str_eq p.data_quality_status "unsafe" ≡ false
  pub fresh : c.data_age ≤ c.max_data_age_seconds * 1000000
  pub agreement : IsAtMost p.provider_disagreement_percent l.disagreement_percent
  pub value : trade_value p ≤ l.trade_value
  pub quantity : p.quantity ≤ l.quantity
  pub position :
      (pos_part c.portfolio_value ≡ 0)
      ⊎ ((c.current_position_value + trade_value p) * 1000000
          ≤ l.position_percent * pos_part c.portfolio_value)
  pub orders_today : c.orders_today < l.orders_per_day
  pub open_orders : c.open_orders < l.open_orders
  pub liquidity : IsAtLeast p.average_daily_volume l.average_daily_volume
  pub not_restricted : member p.symbol l.restricted_symbols ≡ false
  pub listed : (is_empty l.approved_symbols ≡ true) ⊎ (member p.symbol l.approved_symbols ≡ true)
  pub deviation : IsNear p.limit_price p.current_price l.deviation_percent
  pub spread : IsNarrow p.bid p.ask l.spread_percent

-- No check failed.
abbrev Clear : List (Bool × RiskCode) → Type 0
Clear = All (λ (b, _). b ≡ false)

failed-Clear : (cs : List (Bool × RiskCode)) → is_empty (failed cs) ≡ true → Clear cs
failed-Clear [] h = tt
failed-Clear ((true, code) ∷ rest) h = cc
failed-Clear ((false, code) ∷ rest) h = (refl, failed-Clear rest h)

Clear-failed : (cs : List (Bool × RiskCode)) → Clear cs → is_empty (failed cs) ≡ true
Clear-failed [] h = refl
Clear-failed ((true, code) ∷ rest) h = cc (h.0)
Clear-failed ((false, code) ∷ rest) h = Clear-failed rest h.1

healthy_iff : (k : KillState) → (not (is_healthy k) ≡ false) ↔ (k ≡ healthy)
healthy_iff k = (λ h. ground arith, λ h. ground arith)

below_iff : (a b : ℕ) → (leb a b ≡ false) ↔ (b < a)
below_iff a b = (λ h. ground arith, λ h. ground arith)

most_iff : (a b : ℕ) → (ltb a b ≡ false) ↔ (b ≤ a)
most_iff a b = (λ h. ground arith, λ h. ground arith)

not_iff : (b : Bool) → (not b ≡ false) ↔ (b ≡ true)
not_iff b = (λ h. ground arith, λ h. ground arith)

or_iff : (a b : Bool) → ((a || b) ≡ false) ↔ ((a ≡ false) × (b ≡ false))
or_iff a b = (λ h. ground arith, λ h. ground arith)

above_iff : (o : Option ℕ) (l : ℕ) → (some_above o l ≡ false) ↔ IsAtMost o l
above_iff none l = (λ h. tt, λ h. refl)
above_iff (some v) l = (λ h. ground arith, λ h. ground arith)

least_iff : (o : Option ℕ) (l : ℕ) → (some_below o l ≡ false) ↔ IsAtLeast o l
least_iff none l = (λ h. tt, λ h. refl)
least_iff (some v) l = (λ h. ground arith, λ h. ground arith)

position_iff :
    (w v m : ℕ)
    → ((ltb 0 w && ltb (m * w) (v * 1000000)) ≡ false) ↔ ((w ≡ 0) ⊎ (v * 1000000 ≤ m * w))
position_iff w v m = (λ h. ground arith, λ h. ground arith)

listed_iff : (e m : Bool) → ((not e && not m) ≡ false) ↔ ((e ≡ true) ⊎ (m ≡ true))
listed_iff e m = (λ h. ground arith, λ h. ground arith)

IsNear-iff : (o : Option ℕ) (c m : ℕ) → (deviates o c m ≡ false) ↔ IsNear o c m
IsNear-iff none c m = (λ h. tt, λ h. refl)
IsNear-iff (some p) c m = (λ h. ground arith, λ h. ground arith)

IsNarrow-iff : (b a : Option ℕ) (m : ℕ) → (spreads b a m ≡ false) ↔ IsNarrow b a m
IsNarrow-iff none a m = (λ h. tt, λ h. refl)
IsNarrow-iff (some b) none m = (λ h. tt, λ h. refl)
IsNarrow-iff (some b) (some a) m = (λ h. ground arith, λ h. ground arith)

module _ (l : RiskLimits) (p : OrderProposal) (c : Conditions) where
  Clear-IsAcceptable : Clear (checks l p c) → IsAcceptable l p c
  unfolding checks
  Clear-IsAcceptable
        (
          h1,
          (
            h2,
            (
              h3,
              (
                h4,
                (
                  h5,
                  (
                    h6,
                    (
                      h7,
                      (
                        h8,
                        (
                          h9,
                          (h10, (h11, (h12, (h13, (h14, (h15, (h16, (h17, (h18, (h19, _)))))))))),
                        ),
                      ),
                    ),
                  ),
                ),
              ),
            ),
          ),
        ) =
      record {
        kill_switch = (healthy_iff _).0 h1;
        daily_loss = (below_iff _ _).0 h2;
        drawdown = (below_iff _ _).0 h3;
        losses = (below_iff _ _).0 h4;
        not_suspended = h5;
        restarted = (not_iff _).0 h6;
        reconciled = (not_iff _).0 h7;
        quality = ((or_iff _ _).0 h8).0;
        fresh = (most_iff _ _).0 ((or_iff _ _).0 h8).1;
        agreement = (above_iff _ _).0 h9;
        value = (most_iff _ _).0 h10;
        quantity = (most_iff _ _).0 h11;
        position = (position_iff _ _ _).0 h12;
        orders_today = (below_iff _ _).0 h13;
        open_orders = (below_iff _ _).0 h14;
        liquidity = (least_iff _ _).0 h15;
        not_restricted = h16;
        listed = (listed_iff _ _).0 h17;
        deviation = (IsNear-iff p.limit_price _ _).0 h18;
        spread = (IsNarrow-iff p.bid p.ask _).0 h19;
      }

  IsAcceptable-Clear : IsAcceptable l p c → Clear (checks l p c)
  unfolding checks
  IsAcceptable-Clear a = (
    (healthy_iff _).1 a.kill_switch,
    (
      (below_iff _ _).1 a.daily_loss,
      (
        (below_iff _ _).1 a.drawdown,
        (
          (below_iff _ _).1 a.losses,
          (
            a.not_suspended,
            (
              (not_iff _).1 a.restarted,
              (
                (not_iff _).1 a.reconciled,
                (
                  (or_iff _ _).1 (a.quality, (most_iff _ _).1 a.fresh),
                  (
                    (above_iff _ _).1 a.agreement,
                    (
                      (most_iff _ _).1 a.value,
                      (
                        (most_iff _ _).1 a.quantity,
                        (
                          (position_iff _ _ _).1 a.position,
                          (
                            (below_iff _ _).1 a.orders_today,
                            (
                              (below_iff _ _).1 a.open_orders,
                              (
                                (least_iff _ _).1 a.liquidity,
                                (
                                  a.not_restricted,
                                  (
                                    (listed_iff _ _).1 a.listed,
                                    (
                                      (IsNear-iff _ _ _).1 a.deviation,
                                      ((IsNarrow-iff _ _ _).1 a.spread, tt),
                                    ),
                                  ),
                                ),
                              ),
                            ),
                          ),
                        ),
                      ),
                    ),
                  ),
                ),
              ),
            ),
          ),
        ),
      ),
    ),
  )

-- The engine approves a proposal exactly when it respects every limit, and rejects it otherwise.
pub evaluate-approved_iff :
    (env : Env) (now : ℕ) (l : RiskLimits) (p : OrderProposal) (c : Conditions)
    → (((evaluate env now l p c).approved ≡ true) ↔ IsAcceptable l p c)
      × ((evaluate env now l p c).rejected ≡ not (evaluate env now l p c).approved)
unfolding evaluate
evaluate-approved_iff env now l p c = (
  (
    λ h. Clear-IsAcceptable l p c (failed-Clear (checks l p c) h),
    λ a. Clear-failed (checks l p c) (IsAcceptable-Clear l p c a),
  ),
  refl,
)
