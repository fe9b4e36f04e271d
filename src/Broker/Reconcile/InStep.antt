-- ===== src/Broker/Reconcile/InStep.antt =====
-- The cash of the account and the history of transactions under submissions.
use dse_auto.Common.{
  ℕ, ◌+◌, ◌*◌, ◌≡◌, refl, ap, ◌∙◌, true, Option, some, List, [], ◌∷◌, ◌++◌, String, inl, inr, ◌==◌,
  arith, if◌then◌else◌, keep, keep-append, eq_iff, leb,
}
use dse_auto.Common.Int.{
  ℤ, pos, negsuc, pos_part, neg_part, ◌+ℤ◌, ◌-ℤ◌, int_laws, eq_of_parts, abs_ℤ,
}
use dse_auto.Store.{Order, Side, buy, sell, Transaction, PaperAccount, Session}
use dse_auto.Env.{Env}
use dse_auto.Broker.{PaperBroker}
use dse_auto.Broker.Rules.{ExecutionContext}
use dse_auto.Broker.Fill.{fill_fee}
use dse_auto.Broker.Submit.{cash_after, side_type, fill_transaction, submit_order}
use dse_auto.Broker.Submit.Effects.{Effect, IsFill, submit_order-Effect}
use dse_auto.Broker.Reconcile.{
  derived_cash, derive_row, derive_step, counts_for, widen_ℤ, is_main_label, assess,
}

derived_cash-append :
    (cash : ℤ) (ts : List Transaction) (t : Transaction)
    → derived_cash cash (ts ++ t ∷ []) ≡ derive_row t (derived_cash cash ts)
unfolding derived_cash
derived_cash-append cash [] t = refl
derived_cash-append cash (x ∷ ts) t = derived_cash-append (derive_row x cash) ts t

widen_parts :
    (z : ℤ)
    → (pos_part (widen_ℤ z) ≡ pos_part z * 10000) × (neg_part (widen_ℤ z) ≡ neg_part z * 10000)
widen_parts (pos n) = (refl, refl)
widen_parts (negsuc n) = (ground arith, ground arith)

-- The cash of the account is the one that its history gives.
abbrev pub IsInStep : PaperBroker → PaperAccount → Session → Type 0
IsInStep b a s =
    derived_cash (widen_ℤ a.starting_cash) (keep (counts_for b) s.work.books.transactions)
    ≡ widen_ℤ a.cash

-- A broker's own fills count for its account: account 1 has a label that its query selects.
abbrev pub IsCounted : PaperBroker → Type 0
IsCounted b = (if b.account_id == 1 then is_main_label (some b.account_label) else true) ≡ true

fill-counts :
    (b : PaperBroker) (o : Order) (q p f : ℕ)
    → IsCounted b
    → counts_for b (fill_transaction b o q p f) ≡ true
unfolding counts_for fill_transaction
fill-counts b o q p f h = ground (arith, eq_iff b.account_label b.account_label)

fill-derived :
    (b : PaperBroker) (o : Order) (q p f : ℕ) (cash : ℤ)
    → derive_row (fill_transaction b o q p f) (widen_ℤ cash)
      ≡ widen_ℤ (cash_after o.side (p * q) f cash)
unfolding fill_transaction derive_step cash_after
fill-derived b o q p f cash = go o.side
  where
    go :
        (side : Side)
        → derive_step (side_type side) (q * 10000) p f 0 (widen_ℤ cash)
          ≡ widen_ℤ (cash_after side (p * q) f cash)
    go buy =
        eq_of_parts _ _ (omega (int_laws, widen_parts cash, widen_parts (cash -ℤ pos (p * q + f))))
    go sell =
        eq_of_parts _ _
          (omega (int_laws, widen_parts cash, widen_parts (cash +ℤ (pos (p * q) -ℤ pos f))))

fill-InStep :
    (b : PaperBroker) (side : Side) (symbol : String) (s s' : Session) {a : PaperAccount}
    → IsCounted b
    → s.work.books.accounts b.account_id ≡ some a
    → IsInStep b a s
    → IsFill b side symbol s s'
    → (a' : PaperAccount) × (s'.work.books.accounts b.account_id ≡ some a') × IsInStep b a' s'
fill-InStep b side symbol s s' {a} counted found step f = (
  record f.account { cash = cash_after side (f.price * f.quantity) fee f.account.cash },
  rw f.accounts (ground arith),
  rw f.transactions (
      rw
        (keep-append (counts_for b) s.work.books.transactions row
          (fill-counts b f.order f.quantity f.price fee counted))
        (derived_cash-append _ (keep (counts_for b) s.work.books.transactions) row
          ∙ ap (derive_row row) step'
          ∙ fill-derived b f.order f.quantity f.price fee f.account.cash
          ∙ ap (λ k. widen_ℤ (cash_after k (f.price * f.quantity) fee f.account.cash))
              f.same_side)),
)
  where
    fee : ℕ
    fee = fill_fee (f.price * f.quantity)

    row : Transaction
    row = fill_transaction b f.order f.quantity f.price fee

    step' : IsInStep b f.account s
    step' = let same : f.account ≡ a = ground (arith, f.found) in rw same step

IsInStep-reconciled :
    (b : PaperBroker) (a : PaperAccount) (s : Session)
    → IsInStep b a s
    → (assess b a s).cash_reconciled ≡ true
unfolding assess
IsInStep-reconciled b a s h = rw h (zero_gap (widen_ℤ a.cash))
  where
    zero_gap : (z : ℤ) → leb (abs_ℤ (z -ℤ z)) 1000000 ≡ true
    zero_gap z = let e : z -ℤ z ≡ pos 0 = eq_of_parts _ _ (omega int_laws) in rw e refl

-- If the cash of the broker's account is what its history of transactions gives, to the last
-- hundred-millionth, and the broker's label is one that reconciliation counts, then the same holds
-- after a submission, however it ends, and `reconcile` finds the cash reconciled.
pub submit_order-InStep :
    (env : Env) (now : ℕ) (b : PaperBroker) (o : Order) (market_price volume : ℕ)
    (context : Option ExecutionContext) (s : Session) {a : PaperAccount}
    → IsCounted b
    → s.work.books.accounts b.account_id ≡ some a
    → IsInStep b a s
    → let s' = (submit_order env now b o market_price volume context s).1 in
      (a' : PaperAccount) × (s'.work.books.accounts b.account_id ≡ some a')
      × IsInStep b a' s'
      × ((assess b a' s').cash_reconciled ≡ true)
submit_order-InStep env now b o m v context s {a} counted found step =
    let (a', found', step') = go (submit_order-Effect env now b o m v context s) in
    (a', found', step', IsInStep-reconciled b a' _ step')
  where
    go :
        Effect b o.side o.symbol s (submit_order env now b o m v context s).1
        → (a' : PaperAccount) × ((submit_order env now b o m v context s).1.work.books.accounts
              b.account_id
            ≡ some a')
          × IsInStep b a' (submit_order env now b o m v context s).1
    go (inl u) = (a, rw u.accounts found, rw u.transactions step)
    go (inr f) = fill-InStep b o.side o.symbol s _ counted found step f
