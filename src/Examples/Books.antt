-- ===== src/Examples/Books.antt =====
-- Orders, risk and the broker.
use dse_auto.Common.{
  ◌+◌, ◌≤◌, ◌≡◌, refl, not, true, ◌↔◌, none, some, [], ◌∷◌, Result, ok, raise, value_error, arith,
}
use dse_auto.Common.Int.{pos, ◌≤ℤ◌}
use dse_auto.Store.{
  Order, Session, PaperAccount, approved, awaiting_approval, filled, buy, sell, healthy,
}
use dse_auto.Schemas.{RiskDecision}
use dse_auto.Broker.{is_fillable}
use dse_auto.Broker.Submit.{submit_order, held_total, execute, mark_submitted}
use dse_auto.Broker.Admission.{admit}
use dse_auto.Events.{stage_event, find_key}
use dse_auto.Broker.Reconcile.{derived_cash}
use dse_auto.Broker.Submit.Safety.{submit_order-cash_nonneg, submit_order-no_short, held}
use dse_auto.Broker.Manage.{cancel_order, replace_order}
use dse_auto.Broker.Manage.Lifecycle.{submit_order-IsProgress, IsProgress, final_absorbs}
use dse_auto.Broker.Reconcile.{assess}
use dse_auto.Broker.Reconcile.InStep.{submit_order-InStep, IsInStep}
use dse_auto.Broker.Fill.{fill_price, fill_quantity}
use dse_auto.Broker.Fill.Bounds.{fill_price-limit}
use dse_auto.Risk.{default_limits, checks, RiskLimits, Conditions, evaluate}
use dse_auto.Risk.Approval.{evaluate-approved_iff, IsAcceptable}
use dse_auto.Orders.{conditions_of}
use dse_auto.Orders.Propose.{propose_order, evaluate_proposal, store_proposal}
use dse_auto.Orders.Approve.{approve_order, evaluate_approval}
use dse_auto.Risk.KillSwitch.{get_state}
use dse_auto.Orders.{find_order_key}
use dse_auto.Orders.Gate.{approve_order-IsCleared, approve_order-IsDecided, IsCleared, IsDecided}
use dse_auto.Orders.Intake.{propose_order-IsTaken, propose_order-again, IsTaken}
use dse_auto.Examples.Samples.{
  env0, session0, session_with, chain0, account0, order_with, broker0, proposal0, provider0,
}

abbrev with_order0 : Session
with_order0 = session_with (some chain0) (order_with approved ∷ []) []

submit_order-InStep_example :
    (let s' = (submit_order env0 5 broker0 (order_with approved) 990000 1000 none with_order0).1 in
      (a' : PaperAccount) × (s'.work.books.accounts 1 ≡ some a')
      × IsInStep broker0 a' s'
      × ((assess broker0 a' s').cash_reconciled ≡ true))
unfolding derived_cash
submit_order-InStep_example =
    submit_order-InStep env0 5 broker0 (order_with approved) 990000 1000 none with_order0 refl refl
      refl

submit_order-cash_nonneg_example :
    (let s' = (submit_order env0 5 broker0 (order_with approved) 990000 1000 none with_order0).1 in
      (a' : PaperAccount) × (s'.work.books.accounts 1 ≡ some a') × (pos 0 ≤ℤ a'.cash))
submit_order-cash_nonneg_example =
    submit_order-cash_nonneg env0 5 broker0 (order_with approved) 990000 1000 none with_order0 refl
      (ground arith)

submit_order-no_short_example :
    pos 0
    ≤ℤ held broker0 "GP"
        (submit_order env0 5 broker0 (order_with approved) 990000 1000 none with_order0).1
unfolding held_total
submit_order-no_short_example =
    submit_order-no_short env0 5 broker0 (order_with approved) 990000 1000 none with_order0 "GP"
      (ground arith)

abbrev filled_run : Result Order × Session
filled_run = submit_order env0 5 broker0 (order_with approved) 990000 1000 none with_order0

abbrev order_of_run : Result Order → Order
order_of_run (ok o) = o
order_of_run (raise e) = order_with approved

submit_order-IsProgress_example :
    (is_fillable approved ≡ true) × IsProgress (order_with approved) (order_of_run filled_run.0)
unfolding submit_order admit execute fill_quantity mark_submitted stage_event find_key
submit_order-IsProgress_example =
    submit_order-IsProgress env0 5 broker0 (order_with approved) 990000 1000 none with_order0
      {o' = order_of_run filled_run.0} (ground arith) run_ok
  where
    run_ok : filled_run.0 ≡ ok (order_of_run filled_run.0)
    run_ok = refl

final_absorbs_example :
    (submit_order env0 5 broker0 (order_with filled) 990000 1000 none with_order0
      ≡ (raise (value_error "Order cannot be submitted"), with_order0))
    × (cancel_order env0 5 (order_with filled) with_order0
        ≡ (raise (value_error "Order cannot be cancelled"), with_order0))
    × (replace_order 5 (order_with filled) 1 1 with_order0
        ≡ (raise (value_error "Only unfilled active paper orders may be replaced"), with_order0))
final_absorbs_example =
    final_absorbs env0 5 broker0 (order_with filled) 990000 1000 1 1 none with_order0 refl

fill_price-limit_example :
    (fill_price broker0 buy 1000010 1000010 ≤ 1000010 + 50)
    × (1000010 ≤ fill_price broker0 sell 1000010 1000010 + 50)
fill_price-limit_example = fill_price-limit broker0 1000010 1000010

abbrev conditions0 : Conditions
conditions0 =
    conditions_of (record { state = healthy; reason = none }) (some account0) 0 120 proposal0 60

evaluate-approved_iff_example :
    (((evaluate env0 120 default_limits proposal0 conditions0).approved ≡ true)
      ↔ IsAcceptable default_limits proposal0 conditions0)
    × ((evaluate env0 120 default_limits proposal0 conditions0).rejected
        ≡ not (evaluate env0 120 default_limits proposal0 conditions0).approved)
evaluate-approved_iff_example = evaluate-approved_iff env0 120 default_limits proposal0 conditions0

-- An order that waits for approval, in a session that holds it.
abbrev waiting0 : Session
waiting0 = session_with (some chain0) (order_with awaiting_approval ∷ []) []

abbrev large0 : RiskLimits
large0 = record default_limits { position_percent = 1000000 }

abbrev approval_run : Result RiskDecision × Session
approval_run =
    approve_order env0 120 large0 (order_with awaiting_approval) proposal0 60 provider0 waiting0

abbrev decision0 : RiskDecision
decision0 =
    (evaluate_approval env0 120 large0 (order_with awaiting_approval) proposal0 60 waiting0).0

approved_run : approval_run ≡ (ok decision0, approval_run.1)
unfolding approve_order
approved_run = refl

approve_order-IsCleared_example :
    IsCleared large0 120 (order_with awaiting_approval) proposal0 60 provider0 waiting0
unfolding evaluate_approval get_state evaluate checks
approve_order-IsCleared_example =
    approve_order-IsCleared env0 120 large0 (order_with awaiting_approval) proposal0 60 provider0
      waiting0 approval_run.1 decision0 approved_run decided
  where
    decided : decision0.approved ≡ true
    decided = refl

approve_order-IsDecided_example :
    IsDecided (order_with awaiting_approval) decision0.approved waiting0 approval_run.1
approve_order-IsDecided_example =
    approve_order-IsDecided env0 120 large0 (order_with awaiting_approval) proposal0 60 provider0
      waiting0 approval_run.1 decision0 refl approved_run

abbrev proposal_run : Result (Order × RiskDecision) × Session
proposal_run = propose_order env0 120 "token" large0 proposal0 60 provider0 session0

abbrev evaluated0 : RiskDecision × Session
evaluated0 = evaluate_proposal env0 120 large0 proposal0 60 session0

abbrev stored0 : (Order × RiskDecision) × Session
stored0 = store_proposal env0 120 "token" proposal0 evaluated0.0 evaluated0.1

proposed_run : proposal_run ≡ (ok (stored0.0.0, stored0.0.1), proposal_run.1)
unfolding propose_order find_order_key
proposed_run = refl

propose_order-IsTaken_example : IsTaken proposal0 session0 stored0.0.0 stored0.0.1 proposal_run.1
propose_order-IsTaken_example =
    propose_order-IsTaken env0 120 "token" large0 proposal0 60 provider0 session0 proposal_run.1
      stored0.0.0 stored0.0.1 proposed_run

propose_order-again_example :
    propose_order env0 500 "other" default_limits proposal0 60 provider0 proposal_run.1
    ≡ (raise (value_error "Duplicate order idempotency key"), proposal_run.1)
propose_order-again_example =
    propose_order-again env0 120 "token" large0 proposal0 60 provider0 session0 proposal_run.1
      stored0.0.0 stored0.0.1 proposed_run 500 "other" default_limits proposal0 60 provider0 refl
