-- ===== src/Broker/Submit/Effects.antt =====
-- The effect of `submit_order` on the accounts and the transactions.
use dse_auto.Common.{
  ℕ, ◌*◌, ◌+◌, ◌≡◌, refl, ◌∙◌, ap, ◌++◌, [], ◌∷◌, String, Option, none, some, Bool, true, false,
  not, ◌||◌, ◌&&◌, ◌⊎◌, inl, inr, Bool-cases, Result, ok, raise, ◌==◌, arith,
}
use dse_auto.Common.Int.{pos, ltb_ℤ}
use mathlib.Core.Path.{subst₂}
use dse_auto.Store.{
  Order, OrderStatus, Side, Books, PaperAccount, Session, update, submitted, get_account,
}
use dse_auto.Env.{Env}
use dse_auto.Broker.{PaperBroker}
use dse_auto.Broker.Rules.{ExecutionContext}
use dse_auto.Broker.Admission.{Admission, skipped, admitted, admit}
use dse_auto.Broker.Fill.{fill_fee, fill_quantity, fill_price, crosses}
use dse_auto.Broker.Submit.{
  set_status, is_buy, held_quantity, cash_after, fill_transaction, trade, with_account, execute,
  proceed, submit_order, mark_submitted, book_fill, fill_order,
}
use dse_auto.Broker.Submit.Frames.{
  skip_order-books, mark_submitted-books, no_fill-books, reject_order-books, fill_order-books,
}

-- The accounts and the transactions are as they were.
pub record IsUntouched (s s' : Session) : Type 0 where
  pub accounts : s'.work.books.accounts ≡ s.work.books.accounts
  pub transactions : s'.work.books.transactions ≡ s.work.books.transactions

-- One fill of an order: what was checked, and what was written.
pub record IsFill (b : PaperBroker) (side : Side) (symbol : String) (s s' : Session) : Type 0 where
  pub order : Order
  pub account : PaperAccount
  pub quantity : ℕ
  pub price : ℕ
  pub same_side : order.side ≡ side
  pub same_symbol : order.symbol ≡ symbol
  pub found : s.work.books.accounts b.account_id ≡ some account
  pub affordable :
      is_buy side ≡ true
      → ltb_ℤ account.cash (pos (price * quantity + fill_fee (price * quantity))) ≡ false
  pub owned : is_buy side ≡ false → ltb_ℤ (held_quantity b symbol s) (pos quantity) ≡ false
  pub accounts :
      s'.work.books.accounts
      ≡ update s.work.books.accounts b.account_id (record account {
        cash = cash_after side (price * quantity) (fill_fee (price * quantity)) account.cash;
      })
  pub transactions :
      s'.work.books.transactions
      ≡ s.work.books.transactions
        ++ fill_transaction b order quantity price (fill_fee (price * quantity)) ∷ []

abbrev pub Effect : PaperBroker → Side → String → Session → Session → Type 0
Effect b side symbol s s' = IsUntouched s s' ⊎ IsFill b side symbol s s'

untouched :
    {s s' : Session} (t : Books)
    → s'.work.books ≡ t
    → t.accounts ≡ s.work.books.accounts
    → t.transactions ≡ s.work.books.transactions
    → IsUntouched s s'
untouched t e a r = record {
  accounts = ap (λ (k : Books). k.accounts) e ∙ a;
  transactions = ap (λ (k : Books). k.transactions) e ∙ r;
}

held-transactions :
    (b : PaperBroker) (symbol : String) (s t : Session)
    → t.work.books.transactions ≡ s.work.books.transactions
    → held_quantity b symbol t ≡ held_quantity b symbol s
unfolding held_quantity
held-transactions b symbol s t h = rw h

-- A fill between two sessions is one between two others with the same accounts and transactions.
IsFill-move :
    {b : PaperBroker} {side : Side} {symbol : String} {s s' t t' : Session}
    → IsUntouched s t
    → t'.work.books.accounts ≡ s'.work.books.accounts
    → t'.work.books.transactions ≡ s'.work.books.transactions
    → IsFill b side symbol t s'
    → IsFill b side symbol s t'
IsFill-move {b} {side} {symbol} {s} {s'} {t} {t'} u a r f = record {
  order = f.order;
  account = f.account;
  quantity = f.quantity;
  price = f.price;
  same_side = f.same_side;
  same_symbol = f.same_symbol;
  found = rw u.accounts at f.found;
  affordable = f.affordable;
  owned = λ selling. rw (held-transactions b symbol s t u.transactions) at (f.owned selling);
  accounts = a ∙ rw u.accounts at f.accounts;
  transactions = r ∙ rw u.transactions at f.transactions;
}

module _ (env : Env) (now : ℕ) (b : PaperBroker) (o : Order) (a : PaperAccount) (q p : ℕ)
    (s : Session) (found : s.work.books.accounts b.account_id ≡ some a) where
  filled_effect :
      (is_buy o.side ≡ true → ltb_ℤ a.cash (pos (p * q + fill_fee (p * q))) ≡ false)
      → (is_buy o.side ≡ false → ltb_ℤ (held_quantity b o.symbol s) (pos q) ≡ false)
      → IsFill b o.side o.symbol s (book_fill now b o a q p (fill_fee (p * q)) s)
  unfolding book_fill
  filled_effect can own = record {
    order = o;
    account = a;
    quantity = q;
    price = p;
    same_side = refl;
    same_symbol = refl;
    found = found;
    affordable = can;
    owned = own;
    accounts = refl;
    transactions = refl;
  }

  abbrev poor : Bool
  poor = is_buy o.side && ltb_ℤ a.cash (pos (p * q + fill_fee (p * q)))

  abbrev short : Bool
  short = not (is_buy o.side) && ltb_ℤ (held_quantity b o.symbol s) (pos q)

  trade-Effect : Effect b o.side o.symbol s (trade env now b o a q p s).1
  unfolding trade
  trade-Effect = elim (Bool-cases poor) [
    | inl is_poor ↦
        inl (rw (is_poor, trade) (untouched _ (reject_order-books env now o _ _ s) refl refl))
    | inr can ↦ elim (Bool-cases short) [
      | inl is_short ↦
          inl
            (rw (can, is_short, trade) (untouched _ (reject_order-books env now o _ _ s) refl refl))
      | inr own ↦ inr (
          rw (can, own, trade)
            (IsFill-move (record { accounts = refl; transactions = refl })
              (ap (λ (k : Books). k.accounts) books) (ap (λ (k : Books). k.transactions) books)
              (filled_effect (λ buying. rw buying at can) (λ selling. rw selling at own))))
    ]
  ]
    where
      books :
          (fill_order env now b o a q p (fill_fee (p * q)) s).1.work.books
          ≡ (book_fill now b o a q p (fill_fee (p * q)) s).work.books
      books = fill_order-books env now b o a q p (fill_fee (p * q)) s

Effect-move :
    {b : PaperBroker} {side : Side} {symbol : String} {s t t' : Session}
    → IsUntouched s t
    → Effect b side symbol t t'
    → Effect b side symbol s t'
Effect-move u (inl v) =
    inl (record {
      accounts = v.accounts ∙ u.accounts;
      transactions = v.transactions ∙ u.transactions;
    })
Effect-move u (inr f) = inr (IsFill-move u refl refl f)

module _ (env : Env) (now : ℕ) (b : PaperBroker) (o : Order) (l m v : ℕ) (s : Session) where
  abbrev order' : Order
  order' = (mark_submitted now b o s).0

  abbrev s1 : Session
  s1 = (mark_submitted now b o s).1

  marked : IsUntouched s s1
  marked = untouched _ (mark_submitted-books now b o s) refl refl

  account-Effect :
      (q p : ℕ) (found : Option PaperAccount)
      → get_account b.account_id s1 ≡ found
      → Effect b order'.side order'.symbol s1 (with_account env now b order' q p found s1).1
  account-Effect q p none e = inl (record { accounts = refl; transactions = refl })
  account-Effect q p (some a) e = trade-Effect env now b order' a q p s1 e

  execute-Effect : Effect b order'.side order'.symbol s (execute env now b o l m v s).1
  unfolding execute
  execute-Effect = elim (Bool-cases (not (crosses o.side l m) || v == 0)) [
    | inl stop ↦ inl (
        rw (stop, execute)
          (untouched _ (no_fill-books env now b order' s1) marked.accounts marked.transactions))
    | inr go ↦ elim (Bool-cases (fill_quantity b o v == 0)) [
      | inl nothing ↦
          rw (go, nothing, execute)
            (inl (record { accounts = marked.accounts; transactions = marked.transactions }))
      | inr enough ↦
          rw (go, enough, execute)
            (Effect-move marked
              (account-Effect (fill_quantity b o v) (fill_price b o.side l m) _ refl))
    ]
  ]

set_status-side : (now : ℕ) (st : OrderStatus) (o : Order) → (set_status now st o).side ≡ o.side
set_status-side now st o = ground arith

set_status-symbol :
    (now : ℕ) (st : OrderStatus) (o : Order) → (set_status now st o).symbol ≡ o.symbol
set_status-symbol now st o = ground arith

proceed-Effect :
    (env : Env) (now : ℕ) (b : PaperBroker) (o : Order) (m : ℕ) (a : Result Admission) (s : Session)
    → Effect b o.side o.symbol s (proceed env now b o m a s).1
proceed-Effect env now b o m (raise e) s = inl (record { accounts = refl; transactions = refl })
proceed-Effect env now b o m (ok skipped) s =
    inl (untouched _ (skip_order-books env now b o s) refl refl)
proceed-Effect env now b o m (ok (admitted l v)) s =
    subst₂ (λ side symbol. Effect b side symbol s (execute env now b o l m v s).1)
      (set_status-side now submitted o) (set_status-symbol now submitted o)
      (unfold mark_submitted in execute-Effect env now b o l m v s)

-- A submission, however it ends, leaves the accounts and the transactions as they were, or makes
-- one fill. A fill was affordable (a buy) or covered by the held quantity (a sale), changes the cash
-- of the broker's account by gross and fee, and adds the transaction that says so.
pub submit_order-Effect :
    (env : Env) (now : ℕ) (b : PaperBroker) (o : Order) (market_price volume : ℕ)
    (context : Option ExecutionContext) (s : Session)
    → Effect b o.side o.symbol s (submit_order env now b o market_price volume context s).1
unfolding submit_order
submit_order-Effect env now b o m v context s =
    proceed-Effect env now b o m (admit b o m v context) s
