-- ===== src/Recovery/Outcome.antt =====
-- The orders and the kill switch after the startup recovery.
use dse_auto.Common.{
  Bool-cases, inl, inr, ℕ, ◌≡◌, ◌↔◌, refl, sym, ap, ◌∙◌, Bool, true, false, not, ◌&&◌, Option, none,
  some, List, [], ◌∷◌, String, arith, All, if_rule, ◌==◌, any, map, count_if,
}
use mathlib.Core.Path.{subst}
use dse_auto.Store.{
  Order, Books, KillState, healthy, warning, trading_paused, reconciliation_required,
  emergency_stop, RiskState, Session, commit, get_account, expired, OrderStatus, proposed,
  awaiting_approval, approved, submitted, partially_filled, filled, cancelled, rejected,
  risk_rejected,
}
use dse_auto.Env.{Env}
use dse_auto.Audit.{append_audit}
use dse_auto.Audit.Frame.{append_audit-books}
use dse_auto.Events.Frame.{emit-books}
use dse_auto.Broker.Submit.{set_status}
use dse_auto.Risk.KillSwitch.{
  get_state, state_of, set_state, change_state, announce, set_risk_state,
}
use dse_auto.Orders.Gate.{get_state-orders}
use dse_auto.Store.Rows.{opt_lt}
use dse_auto.Recovery.{
  is_pending, is_unfinished, is_in_market, is_stale, expire_if, expire_rows, expire_stale,
  expired_entry, is_in_step, is_reconciliation, resume, conclude, recover_books,
}

-- The order does not wait for a decision, and it is not unfinished past its time.
abbrev pub IsSettled : ℕ → Order → Type 0
IsSettled now o =
    (is_pending o.status ≡ false) × ((is_unfinished o.status && opt_lt o.expires_at now) ≡ false)

-- A finished order is not pending.
not_pending : (k : OrderStatus) → is_unfinished k ≡ false → is_pending k ≡ false
not_pending proposed = λ h. absurd (ground arith)
not_pending awaiting_approval = λ h. absurd (ground arith)
not_pending approved = λ h. absurd (ground arith)
not_pending submitted = λ h. absurd (ground arith)
not_pending partially_filled = λ h. absurd (ground arith)
not_pending filled = λ h. refl
not_pending cancelled = λ h. refl
not_pending expired = λ h. refl
not_pending rejected = λ h. refl
not_pending risk_rejected = λ h. refl

fresh-IsSettled : (now : ℕ) (o : Order) → is_stale now o ≡ false → IsSettled now o
fresh-IsSettled now o h = elim (Bool-cases (is_unfinished o.status)) [
  | inl unfinished ↦ (ground arith, ground arith)
  | inr finished ↦ (not_pending o.status finished, ground arith)
]

expired-IsSettled : (now : ℕ) (os : List Order) → All (IsSettled now) (map (expire_if now) os)
expired-IsSettled now [] = tt
expired-IsSettled now (o ∷ os) = (
  if_rule (IsSettled now) (is_stale now o) (set_status now expired o) o (λ _. (refl, refl))
      (fresh-IsSettled now o),
  expired-IsSettled now os,
)

announce-books :
    (now : ℕ) (k : KillState) (reason actor : String) (s : Session)
    → (announce now k reason actor s).work.books ≡ s.work.books
announce-books now emergency_stop reason actor s = emit-books now _ s
announce-books now healthy reason actor s = refl
announce-books now warning reason actor s = refl
announce-books now trading_paused reason actor s = refl
announce-books now reconciliation_required reason actor s = refl

-- The books after a change of the kill switch.
abbrev IsSwitched : KillState → Session → Session → Type 0
IsSwitched k s s' = (s'.work.books.orders ≡ s.work.books.orders) × ((get_state s').0.state ≡ k)

change_state-IsSwitched :
    (env : Env) (now : ℕ) (k : KillState) (reason actor : String) (s : Session)
    → IsSwitched k s (change_state env now k reason actor s).1
unfolding change_state get_state
change_state-IsSwitched env now k reason actor s = (
  ap (λ (b : Books). b.orders) books ∙ get_state-orders s,
  ap (λ (b : Books). (state_of b.risk_state after).0.state) books,
)
  where
    after : Session
    after = (change_state env now k reason actor s).1

    next : RiskState
    next = record { state = k; reason = some reason }

    books :
        (change_state env now k reason actor s).1.work.books
        ≡ (set_risk_state next (get_state s).1).work.books
    books =
        append_audit-books env now _ _
        ∙ announce-books now k reason actor (set_risk_state next (get_state s).1)

-- What the checks find: the cash agrees and no order is in the market.
abbrev pub IsClean : Session → Type 0
IsClean s =
    (is_in_step (get_account 1 s) s.work.books.transactions ≡ true)
    × (any (λ o. is_in_market o.status) s.work.books.orders ≡ false)

-- The state lets the recovery end in `healthy`.
abbrev pub may_resume : KillState → Bool
may_resume healthy = true
may_resume reconciliation_required = true
may_resume warning = false
may_resume trading_paused = false
may_resume emergency_stop = false

-- The state of the kill switch, where a missing row counts as its initial one.
abbrev pub switch : Session → KillState
switch s = (get_state s).0.state

abbrev pub is_healthy : KillState → Bool
is_healthy healthy = true
is_healthy warning = false
is_healthy trading_paused = false
is_healthy reconciliation_required = false
is_healthy emergency_stop = false

-- The orders of a session, kept, and whether the kill switch ends healthy.
abbrev Ends : Session → Bool → Session → Type 0
Ends s b s' = (s'.work.books.orders ≡ s.work.books.orders) × (is_healthy (switch s') ≡ b)

module _ (env : Env) (now : ℕ) (s : Session) where
  failing-Ends :
      (reason : String)
      → Ends s false (set_state env now "reconciliation_required" reason "recovery_service" s).1
  unfolding set_state
  failing-Ends reason = (switched.0, ap is_healthy switched.1)
    where
      switched :
          IsSwitched reconciliation_required s
            (change_state env now reconciliation_required reason "recovery_service" s).1
      switched = change_state-IsSwitched env now reconciliation_required reason "recovery_service" s

  -- A second reading finds the same state.
  read_again : switch (get_state s).1 ≡ switch s
  unfolding get_state
  read_again = by_row s.work.books.risk_state refl
    where
      by_row :
          (r : Option RiskState)
          → s.work.books.risk_state ≡ r
          → (state_of (state_of r s).1.work.books.risk_state (state_of r s).1).0.state
            ≡ (state_of r s).0.state
      by_row none h = refl
      by_row (some r) h = ap (λ o. (state_of o s).0.state) h

  resume-Ends : Ends s (may_resume (switch s)) (resume env now s)
  unfolding resume set_state
  resume-Ends =
      if_rule (Ends s (may_resume (switch s))) (is_reconciliation (switch s)) _ _
        (λ waits.
          (switched.0 ∙ get_state-orders s, ap is_healthy switched.1 ∙ allowed (switch s) waits))
        (λ other. (get_state-orders s, ap is_healthy read_again ∙ unchanged (switch s) other))
    where
      switched :
          IsSwitched healthy
            (get_state s).1
            (change_state env now healthy
              "Startup checks passed, auto-resuming from reconciliation state" "recovery_service"
              (get_state s).1).1
      switched =
          change_state-IsSwitched env now healthy
            "Startup checks passed, auto-resuming from reconciliation state" "recovery_service"
            (get_state s).1

      allowed : (k : KillState) → is_reconciliation k ≡ true → true ≡ may_resume k
      allowed k h = ground arith

      unchanged : (k : KillState) → is_reconciliation k ≡ false → is_healthy k ≡ may_resume k
      unchanged healthy h = refl
      unchanged warning h = refl
      unchanged trading_paused h = refl
      unchanged reconciliation_required h = ground arith
      unchanged emergency_stop h = refl

  conclude-Ends :
      (agrees in_market : Bool)
      → Ends s
          (agrees && not in_market && may_resume (switch s))
          (conclude env now agrees in_market s)
  unfolding conclude
  conclude-Ends false in_market = failing-Ends "Startup cash reconciliation mismatch"
  conclude-Ends true true =
      failing-Ends "Active submitted/partially-filled orders found during restart"
  conclude-Ends true false = resume-Ends

  expired-orders :
      (expire_stale env now s).work.books
      ≡ record s.work.books { orders = map (expire_if now) s.work.books.orders }
  unfolding expire_stale
  expired-orders =
      if_rule
        (λ (x : Session).
          x.work.books ≡ record s.work.books { orders = map (expire_if now) s.work.books.orders })
        (count_if (is_stale now) s.work.books.orders == 0) (expire_rows now s)
        (commit (
          append_audit env now (expired_entry (count_if (is_stale now) s.work.books.orders))
            (expire_rows now s)))
        (λ _. refl) (λ _. append_audit-books env now _ (expire_rows now s))

same_switch :
    (s s' : Session) → s'.work.books.risk_state ≡ s.work.books.risk_state → switch s' ≡ switch s
unfolding get_state
same_switch s s' e = ap (λ o. (state_of o s').0.state) e ∙ by_row s.work.books.risk_state
  where
    by_row : (r : Option RiskState) → (state_of r s').0.state ≡ (state_of r s).0.state
    by_row none = refl
    by_row (some r) = refl

none_any : (p : Order → Bool) (os : List Order) → (any p os ≡ false) ↔ All (λ o. p o ≡ false) os
none_any p [] = (λ _. tt, λ _. refl)
none_any p (o ∷ os) = (
  λ h. (ground arith, (none_any p os).0 (ground arith)),
  λ h. ground (arith, h.0, (none_any p os).1 h.1),
)

module _ (env : Env) (now : ℕ) (s : Session) where
  abbrev recovered : Session
  recovered = recover_books env now s

  abbrev prepared : Session
  prepared = expire_stale env now s

  abbrev agreeing : Bool
  agreeing = is_in_step (get_account 1 s) s.work.books.transactions

  recovered-Ends :
      Ends prepared
        (is_in_step (get_account 1 prepared) prepared.work.books.transactions
          && not (any (λ o. is_in_market o.status) prepared.work.books.orders)
          && may_resume (switch prepared))
        recovered
  unfolding recover_books
  recovered-Ends = conclude-Ends env now prepared _ _

  recovered_orders : recovered.work.books.orders ≡ map (expire_if now) s.work.books.orders
  recovered_orders = recovered-Ends.0 ∙ ap (λ (b : Books). b.orders) (expired-orders env now s)

  recovered_health : is_healthy (switch recovered) ≡ (
      agreeing
      && not (any (λ o. is_in_market o.status) recovered.work.books.orders)
      && may_resume (switch s))
  recovered_health =
      recovered-Ends.1
      ∙ all_three
          (ap (λ (b : Books). is_in_step (b.accounts 1) b.transactions) (expired-orders env now s))
          (ap (λ os. any (λ o. is_in_market o.status) os) (sym recovered-Ends.0))
          (ap may_resume
            (same_switch s prepared (ap (λ (b : Books). b.risk_state) (expired-orders env now s))))
    where
      all_three :
          {a a' b b' c c' : Bool}
          → a ≡ a'
          → b ≡ b'
          → c ≡ c'
          → (a && not b && c) ≡ (a' && not b' && c')
      all_three e f g = cc

-- After the startup recovery no order is proposed or awaits approval, and none that is unfinished is
-- past its time; and the kill switch is healthy exactly where the cash of account 1, if it exists,
-- agrees with the transactions to a hundredth, no order is submitted or partially filled, and the
-- switch was healthy or required a reconciliation before.
pub recover_books-healthy_iff :
    (env : Env) (now : ℕ) (s : Session)
    → All (IsSettled now) (recover_books env now s).work.books.orders
      × ((is_healthy (switch (recover_books env now s)) ≡ true) ↔ (
          (is_in_step (get_account 1 s) s.work.books.transactions ≡ true)
          × All (λ o. is_in_market o.status ≡ false) (recover_books env now s).work.books.orders
          × (may_resume (switch s) ≡ true)))
recover_books-healthy_iff env now s = (
  subst (All (IsSettled now)) (sym (recovered_orders env now s))
      (expired-IsSettled now s.work.books.orders),
  (
    λ h. parts (sym (recovered_health env now s) ∙ h),
    λ h.
        recovered_health env now s
        ∙ joined h.0 ((none_any (λ o. is_in_market o.status) _).1 h.1) h.2,
  ),
)
  where
    in_market : Bool
    in_market = any (λ o. is_in_market o.status) (recover_books env now s).work.books.orders

    parts :
        (agreeing env now s && not in_market && may_resume (switch s)) ≡ true
        → (is_in_step (get_account 1 s) s.work.books.transactions ≡ true)
          × All (λ o. is_in_market o.status ≡ false) (recover_books env now s).work.books.orders
          × (may_resume (switch s) ≡ true)
    parts h =
        (ground arith, (none_any (λ o. is_in_market o.status) _).0 (ground arith), ground arith)

    joined : {a b c : Bool} → a ≡ true → b ≡ false → c ≡ true → (a && not b && c) ≡ true
    joined e f g = ground arith
