-- ===== src/Broker/Submit.antt =====
-- `PaperBroker.submit_order`. Guards come first and raise before anything is written; what is
-- written after them is committed on every path but the missing account.
pub mod Frames
pub mod Effects
pub mod Safety
use dse_auto.Common.{
  ℕ, ◌+◌, ◌-◌, ◌*◌, Bool, true, false, not, ◌&&◌, ◌||◌, Option, none, some, List, [], ◌∷◌, ◌++◌,
  String, str_eq, ltb, leb, ◌==◌, if◌then◌else◌, Result, ok, raise, value_error, runtime_error,
}
use dse_auto.Common.Int.{ℤ, pos, ◌+ℤ◌, ◌-ℤ◌, ltb_ℤ, trunc_div}
use dse_auto.Common.Keys.{Key, Json, str, num, int, bool, amount, letters, dict}
use dse_auto.Store.{
  Order, OrderStatus, Side, buy, sell, Transaction, TransactionType, bought, sold, bonus, rights,
  PaperAccount, Session, commit, set_books, save_order, get_account, save_account, submitted,
  partially_filled, filled, rejected, order_submitted, risk_rejected_event, fill_completed,
  partial_fill, EventType, approved, proposed, awaiting_approval, cancelled, expired, risk_rejected,
}
use dse_auto.Store.Rows.{opt_str_eq}
use dse_auto.Env.{Env}
use dse_auto.Audit.{Entry, append_audit}
use dse_auto.Events.{EventArgs, emit}
use dse_auto.Broker.{PaperBroker}
use dse_auto.Broker.Fill.{crosses, fill_quantity, fill_price, fill_fee, average_price}
use dse_auto.Broker.Rules.{ExecutionContext}
use dse_auto.Broker.Admission.{Admission, skipped, admitted, admit}

-- The text of a status.
abbrev pub status_name : OrderStatus → String
status_name proposed = "proposed"
status_name awaiting_approval = "awaiting_approval"
status_name approved = "approved"
status_name submitted = "submitted"
status_name partially_filled = "partially_filled"
status_name filled = "filled"
status_name cancelled = "cancelled"
status_name expired = "expired"
status_name rejected = "rejected"
status_name risk_rejected = "risk_rejected"

abbrev pub status_json : OrderStatus → Json
status_json st = str (letters (status_name st) ∷ [])

abbrev pub text_json : String → Json
text_json t = str (letters t ∷ [])

-- An assignment to `order.status`; `updated_at` moves when the row is flushed with a change.
abbrev pub set_status : ℕ → OrderStatus → Order → Order
set_status now st o = record o {
  status = st;
  updated_at = if str_eq (status_name o.status) (status_name st) then o.updated_at else now;
}

abbrev pub order_id : Order → Key
order_id o = num o.id ∷ []

-- The arguments of an event about an order, with its schema version 1.
abbrev pub order_event : EventType → Order → Json → Key → Option Key → EventArgs
order_event type o payload key causation = record {
  event_type = type;
  aggregate_type = "order";
  aggregate_id = some (order_id o);
  payload = payload;
  idempotency_key = key;
  correlation_id = some (order_id o);
  causation_id = causation;
  audit_event_id = none;
  schema_version = 1;
}

abbrev pub order_entry : String → String → Order → Option Json → Option Json → Entry
order_entry actor type o new_state metadata = record {
  actor = actor;
  event_type = type;
  entity_type = "order";
  entity_id = some (order_id o);
  previous_state = none;
  new_state = new_state;
  metadata = metadata;
}

abbrev pub fill_model_json : PaperBroker → Json
fill_model_json b = dict (("fill_model", text_json b.fill_model) ∷ [])

-- The symbol is suspended or has no trade.
unfoldable pub skip_order : Env → ℕ → PaperBroker → Order → Session → Order × Session
skip_order env now b order s =
    let order' = set_status now submitted order in
    let metadata = dict (
      ("reason", text_json "suspended_or_no_trade")
      ∷ ("fill_model", text_json b.fill_model)
      ∷ []) in
    let entry = order_entry "paper_broker" "order.skipped" order none (some metadata) in
    (order', commit (append_audit env now entry (save_order order' s)))

-- order.status = "submitted", and its event.
unfoldable pub mark_submitted : ℕ → PaperBroker → Order → Session → Order × Session
mark_submitted now b order s =
    let order' = set_status now submitted order in
    let payload =
      dict (("status", status_json order'.status) ∷ ("fill_model", text_json b.fill_model) ∷ []) in
    let key = letters "order-submitted" ∷ num order.id ∷ [] in
    (order', emit now (order_event order_submitted order payload key none) (save_order order' s))

-- The price does not cross, or there is no volume.
unfoldable pub no_fill : Env → ℕ → PaperBroker → Order → Session → Order × Session
no_fill env now b order s =
    let state = dict (("status", status_json order.status) ∷ []) in
    let entry =
      order_entry "paper_broker" "order.submitted_no_fill" order (some state)
        (some (fill_model_json b)) in
    (order, commit (append_audit env now entry s))

-- Insufficient cash or shares; `reason` with dashes is the end of the event's key.
unfoldable pub reject_order : Env → ℕ → Order → String → String → Session → Order × Session
reject_order env now order reason key_end s =
    let order' = set_status now rejected order in
    let payload = dict (("reason", text_json reason) ∷ []) in
    let key = letters "risk-rejected" ∷ num order.id ∷ letters key_end ∷ [] in
    let s1 =
      emit now (order_event risk_rejected_event order payload key none) (save_order order' s) in
    let state = dict (("status", status_json rejected) ∷ []) in
    let entry = order_entry "paper_broker" "order.rejected" order (some state) (some payload) in
    (order', commit (append_audit env now entry s1))

-- The rows that `_held_quantity` selects.
abbrev pub is_holding_of : String → String → Transaction → Bool
is_holding_of label symbol t = str_eq t.symbol symbol && opt_str_eq t.account_label label

-- What a transaction of a type adds to the held quantity, in ten-thousandths.
abbrev pub held_change : TransactionType → ℕ → ℤ → ℤ
held_change bought n total = total +ℤ pos n
held_change rights n total = total +ℤ pos n
held_change bonus n total = total +ℤ pos n
held_change sold n total = total -ℤ pos n
held_change TransactionType.dividend n total = total
held_change TransactionType.split n total = total
held_change TransactionType.fee n total = total
held_change TransactionType.tax n total = total
held_change TransactionType.adjustment n total = total
held_change TransactionType.cash_balance n total = total

-- The loop of `_held_quantity`.
unfoldable pub held_total : String → String → ℤ → List Transaction → ℤ
held_total label symbol total [] = total
held_total label symbol total (t ∷ ts) =
    held_total label symbol
      (if is_holding_of label symbol t
        then held_change t.transaction_type t.quantity total
        else total)
      ts

-- `_held_quantity`; `int` rounds towards zero.
unfoldable pub held_quantity : PaperBroker → String → Session → ℤ
held_quantity b symbol s =
    trunc_div (held_total b.account_label symbol (pos 0) s.work.books.transactions) 10000

abbrev pub side_type : Side → TransactionType
side_type buy = bought
side_type sell = sold

-- account.cash += -(gross + fee) if order.side == "buy" else gross - fee
unfoldable pub cash_after : Side → ℕ → ℕ → ℤ → ℤ
cash_after buy gross fee cash = cash -ℤ pos (gross + fee)
cash_after sell gross fee cash = cash +ℤ (pos gross -ℤ pos fee)

-- The order with the fill, before and after its status is set.
unfoldable pub filled_order : ℕ → Order → ℕ → ℕ → Order
filled_order now order quantity price =
    let total = order.filled_quantity + quantity in
    record order {
      filled_quantity = total;
      average_fill_price = some (average_price order quantity price);
      status = if total == order.quantity then filled else partially_filled;
      updated_at = now;
    }

-- The new transaction.
unfoldable pub fill_transaction : PaperBroker → Order → ℕ → ℕ → ℕ → Transaction
fill_transaction b order quantity price fee = record {
  occurred_at = order.updated_at;
  transaction_type = side_type order.side;
  symbol = order.symbol;
  quantity = quantity * 10000;
  price = price;
  fees = fee;
  taxes = 0;
  broker = some "paper";
  account_label = some b.account_label;
  notes = some (letters "Paper fill for " ∷ num order.id ∷ []);
  source_record = ("order_id", str (order_id order)) ∷ ("simulated", bool true) ∷ b.source_metadata;
  campaign_id = order.campaign_id;
}

abbrev pub add_transaction_row : Transaction → Session → Session
add_transaction_row t s =
    set_books (record s.work.books { transactions = s.work.books.transactions ++ t ∷ [] }) s

abbrev pub is_filled : OrderStatus → Bool
is_filled st = str_eq (status_name st) (status_name filled)

abbrev pub price_json : Option ℕ → Json
price_json none = str (letters "None" ∷ [])
price_json (some p) = amount (pos p)

-- The writes to the books: cash, order, transaction.
unfoldable pub book_fill : ℕ → PaperBroker → Order → PaperAccount → ℕ → ℕ → ℕ → Session → Session
unfolding filled_order fill_transaction cash_after
book_fill now b order account quantity price fee s =
    let gross = price * quantity in
    let account' = record account { cash = cash_after order.side gross fee account.cash } in
    add_transaction_row (fill_transaction b order quantity price fee)
      (save_order (filled_order now order quantity price) (save_account b.account_id account' s))

-- The fill, its event and its audit record.
unfoldable pub fill_order :
    Env → ℕ → PaperBroker → Order → PaperAccount → ℕ → ℕ → ℕ → Session → Order × Session
fill_order env now b order account quantity price fee s =
    let order' = filled_order now order quantity price in
    let s1 = book_fill now b order account quantity price fee s in
    let type = if is_filled order'.status then fill_completed else partial_fill in
    let payload = dict (
      ("status", status_json order'.status)
      ∷ ("fill_quantity", int quantity)
      ∷ ("filled_quantity", int order'.filled_quantity)
      ∷ ("average_fill_price", price_json order'.average_fill_price)
      ∷ []) in
    let key = letters "fill" ∷ num order.id ∷ num order'.filled_quantity ∷ [] in
    let cause = letters "order-submitted" ∷ num order.id ∷ [] in
    let s2 = emit now (order_event type order payload key (some cause)) s1 in
    let state = dict (
      ("status", status_json order'.status)
      ∷ ("filled_quantity", int order'.filled_quantity)
      ∷ ("average_fill_price", price_json order'.average_fill_price)
      ∷ []) in
    let entry =
      order_entry "paper_broker" "order.fill" order (some state) (some (fill_model_json b)) in
    (order', commit (append_audit env now entry s2))

abbrev pub is_buy : Side → Bool
is_buy buy = true
is_buy sell = false

-- With the account at hand: the checks of cash and of shares, and the fill.
unfoldable pub trade :
    Env → ℕ → PaperBroker → Order → PaperAccount → ℕ → ℕ → Session → Order × Session
trade env now b order account quantity price s =
    let gross = price * quantity in
    let fee = fill_fee gross in
    if is_buy order.side && ltb_ℤ account.cash (pos (gross + fee))
    then reject_order env now order "insufficient_cash" "insufficient-cash" s
    else if not (is_buy order.side) && ltb_ℤ (held_quantity b order.symbol s) (pos quantity)
    then reject_order env now order "insufficient_shares" "insufficient-shares" s
    else fill_order env now b order account quantity price fee s

abbrev pub with_account :
    Env → ℕ → PaperBroker → Order → ℕ → ℕ → Option PaperAccount → Session → Result Order × Session
with_account env now b order quantity price none s =
    (raise (runtime_error "Paper account is not initialized"), s)
with_account env now b order quantity price (some account) s =
    let (order', s') = trade env now b order account quantity price s in (ok order', s')

-- What follows the guards, with the volume that they leave.
unfoldable pub execute :
    Env → ℕ → PaperBroker → Order → ℕ → ℕ → ℕ → Session → Result Order × Session
execute env now b order limit_price market_price available_volume s =
    let (order', s1) = mark_submitted now b order s in
    let quantity = fill_quantity b order available_volume in
    let price = fill_price b order.side limit_price market_price in
    if not (crosses order.side limit_price market_price) || available_volume == 0
    then (let (o, s') = no_fill env now b order' s1 in (ok o, s'))
    else if quantity == 0
    then (ok order', commit s1)
    else with_account env now b order' quantity price (get_account b.account_id s1) s1

abbrev pub proceed :
    Env → ℕ → PaperBroker → Order → ℕ → Result Admission → Session → Result Order × Session
proceed env now b order market_price (raise e) s = (raise e, s)
proceed env now b order market_price (ok skipped) s =
    let (o, s') = skip_order env now b order s in (ok o, s')
proceed env now b order market_price (ok (admitted limit_price volume)) s =
    execute env now b order limit_price market_price volume s

unfoldable pub submit_order :
    Env
    → ℕ
    → PaperBroker
    → Order
    → ℕ
    → ℕ
    → Option ExecutionContext
    → Session
    → Result Order × Session
submit_order env now b order market_price available_volume context s =
    proceed env now b order market_price (admit b order market_price available_volume context) s
