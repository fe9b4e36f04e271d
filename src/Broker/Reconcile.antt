-- ===== src/Broker/Reconcile.antt =====
-- `PaperBroker.reconcile`: the cash that the history of transactions gives is compared with the
-- cash of the account. A product of a quantity and a price has eight places, so the derived cash is
-- a number of hundred-millionths.
pub mod InStep
use dse_auto.Common.{
  ℕ, suc, ◌+◌, ◌*◌, Bool, true, false, not, ◌&&◌, ◌||◌, Option, none, some, List, [], ◌∷◌, ◌++◌,
  String, str_eq, ltb, leb, ◌==◌, if◌then◌else◌, Result, ok, raise, runtime_error, keep, any,
  count_if, length, is_none,
}
use dse_auto.Common.Int.{ℤ, pos, negsuc, sub_ℕ, ◌+ℤ◌, ◌-ℤ◌, leb_ℤ, abs_ℤ}
use dse_auto.Common.Keys.{Key, Part, Json, str, num, bool, amount, letters, dict, part_eq, key_eq}
use dse_auto.Store.{
  Order, Transaction, TransactionType, bought, sold, bonus, rights, split, dividend, adjustment,
  cash_balance, PaperAccount, Session, commit, get_account, reconciliation_completed, OutboxEvent,
}
use dse_auto.Store.Rows.{opt_str_eq}
use dse_auto.Env.{Env}
use dse_auto.Audit.{Entry, append_audit}
use dse_auto.Events.{EventArgs, stage_event, modify_event, set_outbox}
use dse_auto.Broker.{PaperBroker}

-- Four places become eight.
abbrev pub widen : ℕ → ℕ
widen n = n * 10000

abbrev pub widen_ℤ : ℤ → ℤ
widen_ℤ (pos n) = pos (n * 10000)
widen_ℤ (negsuc n) = sub_ℕ 0 (suc n * 10000)

-- `a or b`
abbrev pub or_else : ℕ → ℕ → ℕ
or_else a b = if a == 0 then b else a

-- What the body of the loop does to the derived cash.
unfoldable pub derive_step : TransactionType → ℕ → ℕ → ℕ → ℕ → ℤ → ℤ
derive_step bought qty prc fee tax cash = cash -ℤ pos (qty * prc + widen fee + widen tax)
derive_step rights qty prc fee tax cash = cash -ℤ pos (qty * prc + widen fee + widen tax)
derive_step sold qty prc fee tax cash = cash +ℤ (pos (qty * prc) -ℤ pos (widen fee + widen tax))
derive_step dividend qty prc fee tax cash = cash +ℤ pos (if qty == 0 then widen prc else qty * prc)
derive_step TransactionType.fee qty prc fee tax cash = cash -ℤ pos (widen (or_else fee prc))
derive_step TransactionType.tax qty prc fee tax cash = cash -ℤ pos (widen (or_else tax prc))
derive_step adjustment qty prc fee tax cash = cash +ℤ pos (widen prc)
derive_step bonus qty prc fee tax cash = cash
derive_step split qty prc fee tax cash = cash
derive_step cash_balance qty prc fee tax cash = cash

abbrev pub derive_row : Transaction → ℤ → ℤ
derive_row t cash = derive_step t.transaction_type t.quantity t.price t.fees t.taxes cash

unfoldable pub derived_cash : ℤ → List Transaction → ℤ
derived_cash cash [] = cash
derived_cash cash (t ∷ ts) = derived_cash (derive_row t cash) ts

-- The rows of the account: those with its label, and for account 1 those with no label, "paper" or
-- "simulation".
abbrev pub is_main_label : Option String → Bool
is_main_label none = true
is_main_label (some l) = str_eq l "paper" || str_eq l "simulation"

unfoldable pub counts_for : PaperBroker → Transaction → Bool
counts_for b t =
    if b.account_id == 1
    then is_main_label t.account_label
    else opt_str_eq t.account_label b.account_label

-- like(f"fv:{account_id}:%"), on the parts of a key
abbrev pub is_forward_key : ℕ → Key → Bool
is_forward_key account_id [] = false
is_forward_key account_id (p ∷ []) = false
is_forward_key account_id (p ∷ q ∷ _) = part_eq p (letters "fv") && part_eq q (num account_id)

abbrev pub duplicate_scope : PaperBroker → Order → Bool
duplicate_scope b o = b.account_id == 1 || is_forward_key b.account_id o.idempotency_key

-- A group of the query has more than one row.
unfoldable pub has_duplicates : PaperBroker → List Order → Bool
has_duplicates b orders =
    let scope = keep (duplicate_scope b) orders in
    any (λ o. ltb 1 (count_if (λ p. key_eq p.idempotency_key o.idempotency_key) scope)) scope

pub record Reconciliation : Type 0 where
  pub healthy : Bool
  pub cash : ℤ
  pub derived_cash : ℤ
  pub duplicate_orders : Bool
  pub cash_reconciled : Bool

-- The comparison, of an account and its books; 0.01 is a million hundred-millionths.
unfoldable pub assess : PaperBroker → PaperAccount → Session → Reconciliation
unfolding derived_cash derive_step counts_for has_duplicates
assess b account s =
    let derived =
      derived_cash (widen_ℤ account.starting_cash)
        (keep (counts_for b) s.work.books.transactions) in
    let duplicate = has_duplicates b s.work.books.orders in
    let reconciled = leb (abs_ℤ (widen_ℤ account.cash -ℤ derived)) 1000000 in
    record {
      healthy = not duplicate && leb_ℤ (pos 0) account.cash && reconciled;
      cash = account.cash;
      derived_cash = derived;
      duplicate_orders = duplicate;
      cash_reconciled = reconciled;
    }

report_json : Reconciliation → Json
report_json r = dict (
    ("healthy", bool r.healthy)
    ∷ ("cash", amount r.cash)
    ∷ ("derived_cash", amount r.derived_cash)
    ∷ ("duplicate_orders", bool r.duplicate_orders)
    ∷ ("cash_reconciled", bool r.cash_reconciled)
    ∷ [])

-- The text of an amount inside a key.
abbrev amount_key : ℤ → Key
amount_key (pos n) = num n ∷ []
amount_key (negsuc n) = letters "-" ∷ num (suc n) ∷ []

reconcile_event : PaperBroker → ℕ → ℤ → Json → EventArgs
reconcile_event b rows cash payload = record {
  event_type = reconciliation_completed;
  aggregate_type = "paper_account";
  aggregate_id = some (num b.account_id ∷ []);
  payload = payload;
  idempotency_key = letters "reconciliation" ∷ num b.account_id ∷ num rows ∷ amount_key cash;
  correlation_id = none;
  causation_id = none;
  audit_event_id = none;
  schema_version = 1;
}

reconcile_entry : PaperBroker → Json → Entry
reconcile_entry b payload = record {
  actor = "paper_broker";
  event_type = "paper.reconciliation_completed";
  entity_type = "paper_account";
  entity_id = some (num b.account_id ∷ []);
  previous_state = none;
  new_state = some payload;
  metadata = none;
}

abbrev link_audit : ℕ → OutboxEvent → OutboxEvent
link_audit audit_id e = record e { audit_event_id = some audit_id }

-- The event, the audit record, and the link from one to the other.
unfoldable pub record_reconciliation :
    Env → ℕ → PaperBroker → Reconciliation → ℕ → Session → Session
unfolding report_json reconcile_event reconcile_entry
record_reconciliation env now b r rows s =
    let payload = report_json r in
    let (event, s1) = stage_event now (reconcile_event b rows r.cash payload) s in
    let audit_id = s1.work.trail.next_id in
    let s2 = append_audit env now (reconcile_entry b payload) s1 in
    commit (set_outbox (modify_event event.id (link_audit audit_id) s2.work.trail.outbox) s2)

abbrev pub reconcile_account :
    Env → ℕ → PaperBroker → Option PaperAccount → Session → Result Reconciliation × Session
reconcile_account env now b none s = (raise (runtime_error "Paper account is not initialized"), s)
reconcile_account env now b (some account) s =
    let r = assess b account s in
    let rows = length (keep (counts_for b) s.work.books.transactions) in
    (ok r, record_reconciliation env now b r rows s)

unfoldable pub reconcile : Env → ℕ → PaperBroker → Session → Result Reconciliation × Session
unfolding assess record_reconciliation
reconcile env now b s = reconcile_account env now b (get_account b.account_id s) s
