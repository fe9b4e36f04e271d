-- ===== src/Broker/Manage/Lifecycle.antt =====
-- The life of an order at the broker: its status and its filled quantity.
use dse_auto.Common.{
  ℕ, ◌+◌, ◌*◌, ◌≤◌, ◌<◌, ◌≡◌, refl, ap, true, false, not, ◌||◌, ◌&&◌, Option, none, some, ◌⊎◌, inl,
  inr, Bool-cases, Result, ok, raise, ◌==◌, arith, ltb, value_error,
}
use mathlib.Core.Path.{subst}
use dse_auto.Common.Int.{pos, ltb_ℤ}
use dse_auto.Store.{Order, PaperAccount, Session, submitted, partially_filled, filled, rejected}
use dse_auto.Env.{Env}
use dse_auto.Broker.{PaperBroker, is_fillable, is_final, is_replaceable}
use dse_auto.Broker.Rules.{ExecutionContext}
use dse_auto.Broker.Admission.{Admission, skipped, admitted, admit}
use dse_auto.Broker.Fill.{fill_fee, fill_quantity, crosses}
use dse_auto.Broker.Fill.Bounds.{fill_quantity-le}
use dse_auto.Broker.Submit.{
  set_status, trade, with_account, execute, proceed, submit_order, mark_submitted, filled_order,
  skip_order, no_fill, reject_order, fill_order, is_buy, held_quantity,
}
use dse_auto.Broker.Manage.{cancel_order, replace_order}

-- How an order may look after a submission: as submitted with nothing filled, rejected with nothing
-- filled, or with a positive fill that completes it or not.
pub record IsProgress (o o' : Order) : Type 0 where
  pub same_quantity : o'.quantity ≡ o.quantity
  pub grows : o.filled_quantity ≤ o'.filled_quantity
  pub within : o'.filled_quantity ≤ o'.quantity
  pub status_fits :
      ((o'.status ≡ submitted) × (o'.filled_quantity ≡ o.filled_quantity))
      ⊎ ((o'.status ≡ rejected) × (o'.filled_quantity ≡ o.filled_quantity))
      ⊎ ((o'.status ≡ filled)
          × (o.filled_quantity < o'.filled_quantity)
          × (o'.filled_quantity ≡ o'.quantity))
      ⊎ ((o'.status ≡ partially_filled)
          × (o.filled_quantity < o'.filled_quantity)
          × (o'.filled_quantity < o'.quantity))

submitted-IsProgress :
    (now : ℕ) (o : Order)
    → o.filled_quantity ≤ o.quantity
    → IsProgress o (set_status now submitted o)
submitted-IsProgress now o h = record {
  same_quantity = refl;
  grows = omega arith;
  within = h;
  status_fits = inl (refl, refl);
}

filled-IsProgress :
    (now : ℕ) (o o' : Order) (q p : ℕ)
    → o'.quantity ≡ o.quantity
    → o'.filled_quantity ≡ o.filled_quantity
    → 0 < q
    → o.filled_quantity + q ≤ o.quantity
    → IsProgress o (filled_order now o' q p)
unfolding filled_order
filled-IsProgress now o o' q p same same' some_q fits = record {
  same_quantity = same;
  grows = omega arith;
  within = omega arith;
  status_fits = ground arith;
}

-- The order that a step returns, if it returns one.
abbrev Progresses : Order → Result Order × Session → Type 0
Progresses o (ok o', s) = IsProgress o o'
Progresses o (raise e, s) = Unit

module _ (env : Env) (now : ℕ) (b : PaperBroker) (o : Order)
    (sound : o.filled_quantity ≤ o.quantity) where
  abbrev marked : Order
  marked = set_status now submitted o

  trade-IsProgress :
      (a : PaperAccount) (q p : ℕ) (s : Session)
      → 0 < q
      → o.filled_quantity + q ≤ o.quantity
      → IsProgress o (trade env now b marked a q p s).0
  unfolding trade reject_order fill_order
  trade-IsProgress a q p s some_q fits =
      elim (Bool-cases (is_buy o.side && ltb_ℤ a.cash (pos (p * q + fill_fee (p * q))))) [
        | inl poor ↦ rw (poor, trade) declined
        | inr can ↦
            elim (Bool-cases (not (is_buy o.side) && ltb_ℤ (held_quantity b o.symbol s) (pos q))) [
              | inl short ↦ rw (can, short, trade) declined
              | inr own ↦
                  rw (can, own, trade) (filled-IsProgress now o marked q p refl refl some_q fits)
            ]
      ]
    where
      declined : IsProgress o (set_status now rejected marked)
      declined = record {
        same_quantity = refl;
        grows = omega arith;
        within = sound;
        status_fits = inr (inl (refl, refl));
      }

  account-Progresses :
      (q p : ℕ) (found : Option PaperAccount) (s : Session)
      → 0 < q
      → o.filled_quantity + q ≤ o.quantity
      → Progresses o (with_account env now b marked q p found s)
  account-Progresses q p none s some_q fits = tt
  account-Progresses q p (some a) s some_q fits = trade-IsProgress a q p s some_q fits

  execute-Progresses : (l m v : ℕ) (s : Session) → Progresses o (execute env now b o l m v s)
  unfolding execute mark_submitted no_fill
  execute-Progresses l m v s = elim (Bool-cases (not (crosses o.side l m) || v == 0)) [
    | inl stop ↦ rw (stop, execute) (submitted-IsProgress now o sound)
    | inr go ↦ elim (Bool-cases (fill_quantity b o v == 0)) [
      | inl nothing ↦ rw (go, nothing, execute) (submitted-IsProgress now o sound)
      | inr enough ↦
          rw (go, enough, execute)
            (account-Progresses (fill_quantity b o v) _ _ _ (ground arith)
              (omega (arith, fill_quantity-le b o v)))
    ]
  ]

proceed-Progresses :
    (env : Env) (now : ℕ) (b : PaperBroker) (o : Order) (m : ℕ) (a : Result Admission) (s : Session)
    → o.filled_quantity ≤ o.quantity
    → Progresses o (proceed env now b o m a s)
unfolding skip_order
proceed-Progresses env now b o m (raise e) s h = tt
proceed-Progresses env now b o m (ok skipped) s h = submitted-IsProgress now o h
proceed-Progresses env now b o m (ok (admitted l v)) s h = execute-Progresses env now b o h l m v s

returned :
    (o o' : Order) (r : Result Order × Session) → r.0 ≡ ok o' → Progresses o r → IsProgress o o'
returned o o' (ok x, s) h p = subst (IsProgress o) same p
  where
    same : x ≡ o'
    same = cc
returned o o' (raise e, s) h p = cc

-- An order in another status is refused before anything is written.
pub submit_order-refused :
    (env : Env) (now : ℕ) (b : PaperBroker) (o : Order) (m v : ℕ)
    (context : Option ExecutionContext) (s : Session)
    → is_fillable o.status ≡ false
    → submit_order env now b o m v context s ≡ (raise (value_error "Order cannot be submitted"), s)
unfolding submit_order admit
submit_order-refused env now b o m v context s h = rw h

-- An order whose filled quantity is within its quantity, and for which `submit_order` returns, was in
-- a fillable status. The returned order is submitted or rejected with its filled quantity as it was,
-- or it has a positive fill, and is filled exactly when the filled quantity reaches the quantity.
pub submit_order-IsProgress :
    (env : Env) (now : ℕ) (b : PaperBroker) (o : Order) (m v : ℕ)
    (context : Option ExecutionContext) (s : Session) {o' : Order}
    → o.filled_quantity ≤ o.quantity
    → (submit_order env now b o m v context s).0 ≡ ok o'
    → (is_fillable o.status ≡ true) × IsProgress o o'
unfolding submit_order
submit_order-IsProgress env now b o m v context s {o'} sound h = (
  fillable,
  returned o o' (proceed env now b o m (admit b o m v context) s) h
      (proceed-Progresses env now b o m (admit b o m v context) s sound),
)
  where
    fillable : is_fillable o.status ≡ true
    fillable = elim (Bool-cases (is_fillable o.status)) [
      | inl e ↦ e
      | inr e ↦ absurd (not_ok (submit_order-refused env now b o m v context s e))
    ]
      where
        not_ok :
            submit_order env now b o m v context s
              ≡ (raise (value_error "Order cannot be submitted"), s)
            → ⊥
        not_ok e = cc (ap (λ (r : Result Order × Session). r.0) e)

-- An order that is filled, cancelled, expired or rejected stays so: submission, cancellation and
-- replacement all raise and leave the session as it was.
pub final_absorbs :
    (env : Env) (now : ℕ) (b : PaperBroker) (o : Order) (m v quantity limit_price : ℕ)
    (context : Option ExecutionContext) (s : Session)
    → is_final o.status ≡ true
    → (submit_order env now b o m v context s
        ≡ (raise (value_error "Order cannot be submitted"), s))
      × (cancel_order env now o s ≡ (raise (value_error "Order cannot be cancelled"), s))
      × (replace_order now o quantity limit_price s
          ≡ (raise (value_error "Only unfilled active paper orders may be replaced"), s))
unfolding cancel_order replace_order
final_absorbs env now b o m v quantity limit_price context s h = (
  submit_order-refused env now b o m v context s (ground arith),
  rw (h, cancel_order),
  rw (no_place, replace_order),
)
  where
    no_place : (ltb 0 o.filled_quantity || not (is_replaceable o.status)) ≡ true
    no_place = ground arith
