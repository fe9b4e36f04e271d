-- ===== src/Broker/Manage.antt =====
-- `cancel_order`, `replace_order` and `reset_account`.
pub mod Lifecycle
use dse_auto.Common.{
  ℕ, Bool, not, ◌||◌, Option, none, some, [], ◌∷◌, ltb, if◌then◌else◌, Result, ok, raise,
  value_error, runtime_error,
}
use dse_auto.Common.Int.{ℤ}
use dse_auto.Common.Keys.{num, dict}
use dse_auto.Store.{
  Order, PaperAccount, Session, commit, save_order, get_account, save_account, cancelled,
  awaiting_approval,
}
use dse_auto.Env.{Env}
use dse_auto.Audit.{Entry, append_audit}
use dse_auto.Broker.{PaperBroker, is_final, is_replaceable}
use dse_auto.Broker.Submit.{set_status, status_json, order_entry}

unfoldable pub cancel_order : Env → ℕ → Order → Session → Result Order × Session
cancel_order env now order s =
    let order' = set_status now cancelled order in
    let state = dict (("status", status_json cancelled) ∷ []) in
    let entry = order_entry "user" "order.cancelled" order (some state) none in
    if is_final order.status
    then (raise (value_error "Order cannot be cancelled"), s)
    else (ok order', commit (append_audit env now entry (save_order order' s)))

unfoldable pub replace_order : ℕ → Order → ℕ → ℕ → Session → Result Order × Session
replace_order now order quantity limit_price s =
    let order' = record order {
      quantity = quantity;
      limit_price = some limit_price;
      status = awaiting_approval;
      updated_at = now;
    } in
    if ltb 0 order.filled_quantity || not (is_replaceable order.status)
    then (raise (value_error "Only unfilled active paper orders may be replaced"), s)
    else (ok order', commit (save_order order' s))

abbrev reset_entry : ℕ → Entry
reset_entry account_id = record {
  actor = "user";
  event_type = "paper_account.reset";
  entity_type = "paper_account";
  entity_id = some (num account_id ∷ []);
  previous_state = none;
  new_state = none;
  metadata = none;
}

abbrev pub reset_to :
    Env → ℕ → PaperBroker → ℤ → Option PaperAccount → Session → Result (Unit {0}) × Session
reset_to env now b starting_cash none s =
    (raise (runtime_error "Paper account is not initialized"), s)
reset_to env now b starting_cash (some account) s =
    let account' : PaperAccount = record { cash = starting_cash; starting_cash = starting_cash } in
    (
      ok tt,
      commit
          (append_audit env now (reset_entry b.account_id) (save_account b.account_id account' s)),
    )

unfoldable pub reset_account : Env → ℕ → PaperBroker → ℤ → Session → Result (Unit {0}) × Session
reset_account env now b starting_cash s =
    reset_to env now b starting_cash (get_account b.account_id s) s
