-- ===== src/Broker/Submit/Safety.antt =====
-- Cash and holdings under submissions.
use dse_auto.Common.{
  ℕ, ◌+◌, ◌*◌, ◌≤◌, ◌≡◌, refl, sym, ◌∙◌, Bool, true, false, Option, some, List, [], ◌∷◌, ◌++◌,
  String, inl, inr, arith, if◌then◌else◌, eq_iff, and_parts,
}
use dse_auto.Common.Int.{ℤ, pos, negsuc, ◌-ℤ◌, ◌≤ℤ◌, ltb_ℤ, int_laws, -ℤ_parts, trunc_div}
use mathlib.Core.Path.{subst}
use dse_auto.Store.{Order, Side, buy, sell, Transaction, PaperAccount, Session}
use dse_auto.Env.{Env}
use dse_auto.Broker.{PaperBroker}
use dse_auto.Broker.Rules.{ExecutionContext}
use dse_auto.Broker.Fill.{fill_fee}
use dse_auto.Broker.Fill.Bounds.{fill_fee-le}
use dse_auto.Broker.Submit.{
  cash_after, held_total, held_change, held_quantity, is_holding_of, fill_transaction, is_buy,
  side_type, submit_order,
}
use dse_auto.Broker.Submit.Effects.{Effect, IsFill, submit_order-Effect}

cash_after-nonneg :
    (side : Side) (gross fee : ℕ) (cash : ℤ)
    → fee ≤ gross
    → pos 0 ≤ℤ cash
    → (is_buy side ≡ true → ltb_ℤ cash (pos (gross + fee)) ≡ false)
    → pos 0 ≤ℤ cash_after side gross fee cash
unfolding cash_after
cash_after-nonneg buy gross fee cash small rich can = enough cash gross fee (can refl)
  where
    enough : (c : ℤ) (g f : ℕ) → ltb_ℤ c (pos (g + f)) ≡ false → pos 0 ≤ℤ c -ℤ pos (g + f)
    enough c g f h = ground (arith, -ℤ_parts c (pos (g + f)))
cash_after-nonneg sell gross fee cash small rich can = omega int_laws

-- If the broker's account exists and its cash is not negative, the same holds after a submission.
pub submit_order-cash_nonneg :
    (env : Env) (now : ℕ) (b : PaperBroker) (o : Order) (market_price volume : ℕ)
    (context : Option ExecutionContext) (s : Session) {a : PaperAccount}
    → s.work.books.accounts b.account_id ≡ some a
    → pos 0 ≤ℤ a.cash
    → let s' = (submit_order env now b o market_price volume context s).1 in
      (a' : PaperAccount) × (s'.work.books.accounts b.account_id ≡ some a') × (pos 0 ≤ℤ a'.cash)
submit_order-cash_nonneg env now b o m v context s {a} found rich =
    go (submit_order-Effect env now b o m v context s)
  where
    go :
        {s' : Session}
        → Effect b o.side o.symbol s s'
        → (a' : PaperAccount) × (s'.work.books.accounts b.account_id ≡ some a') × (pos 0 ≤ℤ a'.cash)
    go (inl u) = (a, rw u.accounts found, rich)
    go (inr f) = (
      record f.account {
        cash =
            cash_after o.side (f.price * f.quantity) (fill_fee (f.price * f.quantity))
              f.account.cash;
      },
      rw f.accounts (ground arith),
      cash_after-nonneg o.side (f.price * f.quantity) (fill_fee (f.price * f.quantity))
          f.account.cash (fill_fee-le (f.price * f.quantity))
          (let same : f.account ≡ a = ground (arith, f.found) in rw same rich) f.affordable,
    )

held_total-append :
    (label symbol : String) (total : ℤ) (ts : List Transaction) (t : Transaction)
    → held_total label symbol total (ts ++ t ∷ []) ≡ (
        if is_holding_of label symbol t
        then held_change t.transaction_type t.quantity (held_total label symbol total ts)
        else held_total label symbol total ts)
unfolding held_total
held_total-append label symbol total [] t = refl
held_total-append label symbol total (x ∷ ts) t =
    held_total-append label symbol
      (if is_holding_of label symbol x
        then held_change x.transaction_type x.quantity total
        else total)
      ts t

-- The held quantity of a symbol under the broker's label, before it is rounded.
abbrev pub held : PaperBroker → String → Session → ℤ
held b symbol s = held_total b.account_label symbol (pos 0) s.work.books.transactions

covered :
    (total : ℤ) (quantity : ℕ)
    → pos 0 ≤ℤ total
    → ltb_ℤ (trunc_div total 10000) (pos quantity) ≡ false
    → pos 0 ≤ℤ total -ℤ pos (quantity * 10000)
covered (pos n) q h k = ground (arith, -ℤ_parts (pos n) (pos (q * 10000)))
covered (negsuc n) q h k = absurd (omega arith)

-- A fill keeps a held total that is not negative: a buy adds to it, and a sale is covered.
held_change-nonneg :
    (holds : Bool) (side : Side) (quantity : ℕ) (total : ℤ)
    → pos 0 ≤ℤ total
    → (is_buy side ≡ false → holds ≡ true → ltb_ℤ (trunc_div total 10000) (pos quantity) ≡ false)
    → pos 0 ≤ℤ (if holds then held_change (side_type side) (quantity * 10000) total else total)
held_change-nonneg false side q total known own = known
held_change-nonneg true buy q total known own = omega int_laws
held_change-nonneg true sell q total known own = covered total q known (own refl refl)

fill-held :
    (b : PaperBroker) (side : Side) (o_symbol symbol : String) (s s' : Session)
    → IsFill b side o_symbol s s'
    → pos 0 ≤ℤ held b symbol s
    → pos 0 ≤ℤ held b symbol s'
unfolding fill_transaction held_quantity
fill-held b side o_symbol symbol s s' f known = rw f.transactions (
    rw (held_total-append b.account_label symbol (pos 0) s.work.books.transactions row) (
      held_change-nonneg (is_holding_of b.account_label symbol row) f.order.side f.quantity
        (held b symbol s) known own))
  where
    row : Transaction
    row = fill_transaction b f.order f.quantity f.price (fill_fee (f.price * f.quantity))

    own :
        is_buy f.order.side ≡ false
        → is_holding_of b.account_label symbol row ≡ true
        → ltb_ℤ (trunc_div (held b symbol s) 10000) (pos f.quantity) ≡ false
    own selling holds =
        let same : f.order.symbol ≡ symbol =
          (eq_iff f.order.symbol symbol).0 (and_parts _ _ holds).0 in
        subst (λ k. ltb_ℤ (trunc_div (held b k s) 10000) (pos f.quantity) ≡ false)
          (sym f.same_symbol ∙ same) (f.owned (rw f.same_side at selling))

-- A held quantity that is not negative, of any symbol, is not negative after a submission: no sale
-- goes short.
pub submit_order-no_short :
    (env : Env) (now : ℕ) (b : PaperBroker) (o : Order) (market_price volume : ℕ)
    (context : Option ExecutionContext) (s : Session) (symbol : String)
    → pos 0 ≤ℤ held b symbol s
    → pos 0 ≤ℤ held b symbol (submit_order env now b o market_price volume context s).1
submit_order-no_short env now b o m v context s symbol known =
    elim (submit_order-Effect env now b o m v context s) [
      | inl u ↦ rw u.transactions known
      | inr f ↦ fill-held b o.side o.symbol symbol s _ f known
    ]
