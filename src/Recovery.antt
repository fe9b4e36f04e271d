-- ===== src/Recovery.antt =====
-- backend/app/services/recovery.py: `run_startup_recovery`, from the orders on (`recover_books`). The
-- text of a mismatch is left out of the reason that is stored.
pub mod Outcome
pub mod Startup
pub mod Recovered
use dse_auto.Common.{
  ℕ, Bool, true, false, not, ◌&&◌, ◌||◌, Option, none, some, List, [], ◌∷◌, leb, ltb, ◌==◌, any,
  map, count_if, if◌then◌else◌,
}
use dse_auto.Common.Int.{ℤ, ◌-ℤ◌, abs_ℤ}
use dse_auto.Common.Keys.{Json, int, dict}
use dse_auto.Store.{
  Order, OrderStatus, proposed, awaiting_approval, approved, submitted, partially_filled, filled,
  cancelled, expired, rejected, risk_rejected, KillState, healthy, warning, trading_paused,
  reconciliation_required, emergency_stop, Transaction, PaperAccount, Session, set_books, commit,
  get_account,
}
use dse_auto.Store.Rows.{opt_lt}
use dse_auto.Env.{Env}
use dse_auto.Audit.{Entry, append_audit}
use dse_auto.Broker.Submit.{set_status}
use dse_auto.Broker.Reconcile.{derived_cash, widen_ℤ}
use dse_auto.Risk.KillSwitch.{get_state, set_state}

-- The statuses of the query.
abbrev pub is_unfinished : OrderStatus → Bool
is_unfinished proposed = true
is_unfinished awaiting_approval = true
is_unfinished approved = true
is_unfinished submitted = true
is_unfinished partially_filled = true
is_unfinished filled = false
is_unfinished cancelled = false
is_unfinished expired = false
is_unfinished rejected = false
is_unfinished risk_rejected = false

-- order.status in ["proposed", "awaiting_approval"]
abbrev pub is_pending : OrderStatus → Bool
is_pending proposed = true
is_pending awaiting_approval = true
is_pending approved = false
is_pending submitted = false
is_pending partially_filled = false
is_pending filled = false
is_pending cancelled = false
is_pending expired = false
is_pending rejected = false
is_pending risk_rejected = false

-- The statuses of the second query.
abbrev pub is_in_market : OrderStatus → Bool
is_in_market submitted = true
is_in_market partially_filled = true
is_in_market proposed = false
is_in_market awaiting_approval = false
is_in_market approved = false
is_in_market filled = false
is_in_market cancelled = false
is_in_market expired = false
is_in_market rejected = false
is_in_market risk_rejected = false

-- What the loop expires.
abbrev pub is_stale : ℕ → Order → Bool
is_stale now o = is_unfinished o.status && (opt_lt o.expires_at now || is_pending o.status)

abbrev pub expire_if : ℕ → Order → Order
expire_if now o = if is_stale now o then set_status now expired o else o

abbrev pub expired_entry : ℕ → Entry
expired_entry n = record {
  actor = "recovery_service";
  event_type = "recovery.expired_proposals";
  entity_type = "order";
  entity_id = none;
  previous_state = none;
  new_state = some (dict (("expired_count", int n) ∷ []));
  metadata = none;
}

abbrev pub expire_rows : ℕ → Session → Session
expire_rows now s =
    set_books (record s.work.books { orders = map (expire_if now) s.work.books.orders }) s

unfoldable pub expire_stale : Env → ℕ → Session → Session
expire_stale env now s =
    let n = count_if (is_stale now) s.work.books.orders in
    let s' = expire_rows now s in
    if n == 0 then s' else commit (append_audit env now (expired_entry n) s')

-- The comparison of the stored cash with the cash that all transactions give.
unfoldable pub is_in_step : Option PaperAccount → List Transaction → Bool
is_in_step none ts = true
is_in_step (some account) ts =
    leb (abs_ℤ (widen_ℤ account.cash -ℤ derived_cash (widen_ℤ account.starting_cash) ts)) 1000000

abbrev pub is_reconciliation : KillState → Bool
is_reconciliation reconciliation_required = true
is_reconciliation healthy = false
is_reconciliation warning = false
is_reconciliation trading_paused = false
is_reconciliation emergency_stop = false

-- A missing row of the risk state is added by `get_state` and not committed here.
unfoldable pub resume : Env → ℕ → Session → Session
resume env now s =
    let (r, s') = get_state s in
    if is_reconciliation r.state
    then (set_state env now "healthy"
        "Startup checks passed, auto-resuming from reconciliation state" "recovery_service" s').1
    else s'

-- The end of the run: whether the cash agrees, and whether an order is in the market.
unfoldable pub conclude : Env → ℕ → Bool → Bool → Session → Session
unfolding resume
conclude env now agrees in_market s =
    if not agrees
    then (set_state env now "reconciliation_required" "Startup cash reconciliation mismatch"
        "recovery_service" s).1
    else if in_market
    then (set_state env now "reconciliation_required"
        "Active submitted/partially-filled orders found during restart" "recovery_service" s).1
    else resume env now s

unfoldable pub recover_books : Env → ℕ → Session → Session
unfolding expire_stale conclude is_in_step
recover_books env now s =
    let s1 = expire_stale env now s in
    conclude env now (is_in_step (get_account 1 s1) s1.work.books.transactions)
      (any (λ o. is_in_market o.status) s1.work.books.orders) s1
