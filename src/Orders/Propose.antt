-- ===== src/Orders/Propose.antt =====
-- `propose_order`
use dse_auto.Common.{
  ℕ, ◌+◌, Bool, true, false, not, none, some, [], ◌∷◌, String, if◌then◌else◌, Result, ok, raise,
  value_error,
}
use dse_auto.Common.Keys.{num, int, letters, dict}
use dse_auto.Store.{
  Order, EventType, risk_rejected_event, proposal_created, awaiting_approval, risk_rejected,
  Session, commit, get_account,
}
use dse_auto.Schemas.{OrderProposal, RiskDecision, Provider, TimestampProvenance}
use dse_auto.Env.{Env}
use dse_auto.Audit.{append_audit}
use dse_auto.Events.{emit}
use dse_auto.Broker.Submit.{order_event, status_json, text_json}
use dse_auto.Risk.{RiskLimits, evaluate}
use dse_auto.Risk.KillSwitch.{get_state}
use dse_auto.Orders.{
  find_order_key, order_of, add_order, count_open, is_trusted, conditions_of, provider_refusal,
  decision_entry,
}

-- The provider is not suitable: a rejected order is stored.
unfoldable pub refuse_provider :
    Env → ℕ → OrderProposal → Provider → Session → (Order × RiskDecision) × Session
refuse_provider env now p provider s =
    let decision = provider_refusal now provider.name in
    let order = order_of s.work.trail.next_id now p risk_rejected in
    let payload = env.dump_decision decision in
    let key = letters "risk-rejected" ∷ num order.id ∷ letters "proposal" ∷ [] in
    let s1 =
      emit now (order_event risk_rejected_event order payload key none) (add_order order s) in
    let s2 = append_audit env now (decision_entry "system" "risk.decision" order payload) s1 in
    ((order, decision), commit s2)

-- The new order: with a token that is good for fifteen minutes if it is approved.
abbrev pub evaluated_order : ℕ → ℕ → String → OrderProposal → Bool → Order
evaluated_order id now token p true = record (order_of id now p awaiting_approval) {
  approval_token = some token;
  approval_token_expires_at = some (now + 900000000);
}
evaluated_order id now token p false = order_of id now p risk_rejected

abbrev pub proposal_event : Bool → EventType
proposal_event true = proposal_created
proposal_event false = risk_rejected_event

abbrev pub proposal_word : Bool → String
proposal_word true = "proposal-created"
proposal_word false = "risk-rejected"

-- Storing of the evaluated order. (`add_order` is refused by the unique key only if another session
-- has stored the key since the query; the source then rolls back and raises.)
unfoldable pub store_proposal :
    Env → ℕ → String → OrderProposal → RiskDecision → Session → (Order × RiskDecision) × Session
store_proposal env now token p decision s =
    let order = evaluated_order s.work.trail.next_id now token p decision.approved in
    let payload = dict (
      ("status", status_json order.status)
      ∷ ("symbol", text_json order.symbol)
      ∷ ("quantity", int order.quantity)
      ∷ ("risk", env.dump_decision decision)
      ∷ []) in
    let key = letters (proposal_word decision.approved) ∷ num order.id ∷ [] in
    let event = order_event (proposal_event decision.approved) order payload key none in
    let s1 = emit now event (add_order order s) in
    let s2 =
      append_audit env now
        (decision_entry "system" "risk.decision" order (env.dump_decision decision)) s1 in
    let state = dict (
      ("status", status_json order.status)
      ∷ ("symbol", text_json order.symbol)
      ∷ ("quantity", int order.quantity)
      ∷ []) in
    let s3 = append_audit env now (decision_entry "system" "order.proposed" order state) s2 in
    ((order, decision), commit s3)

-- The evaluation: kill switch, cash of account 1, and the number of open orders.
unfoldable pub evaluate_proposal :
    Env → ℕ → RiskLimits → OrderProposal → ℕ → Session → RiskDecision × Session
unfolding get_state
evaluate_proposal env now limits p max_age s =
    let account = get_account 1 s in
    let (state, s1) = get_state s in
    let open_orders = count_open s1.work.books.orders in
    (evaluate env now limits p (conditions_of state account open_orders now p max_age), s1)

abbrev pub with_quote :
    Env
    → ℕ
    → String
    → RiskLimits
    → OrderProposal
    → ℕ
    → Result TimestampProvenance
    → Session
    → Result (Order × RiskDecision) × Session
with_quote env now token limits p max_age (raise e) s = (raise e, s)
with_quote env now token limits p max_age (ok provenance) s =
    let (decision, s1) = evaluate_proposal env now limits p max_age s in
    let (r, s2) = store_proposal env now token p decision s1 in
    if is_trusted provenance
    then (ok r, s2)
    else (raise (value_error "Paper-order proposal blocked by insufficient timestamp trust"), s)

abbrev pub propose_new :
    Env
    → ℕ
    → String
    → RiskLimits
    → OrderProposal
    → ℕ
    → Provider
    → Session
    → Result (Order × RiskDecision) × Session
propose_new env now token limits p max_age provider s =
    let (r, s') = refuse_provider env now p provider s in
    if not provider.suitable_for_order_approval
    then (ok r, s')
    else with_quote env now token limits p max_age (provider.quote_provenance p.symbol) s

unfoldable pub propose_order :
    Env
    → ℕ
    → String
    → RiskLimits
    → OrderProposal
    → ℕ
    → Provider
    → Session
    → Result (Order × RiskDecision) × Session
propose_order env now token limits p max_age provider s =
    elim (find_order_key p.idempotency_key s.work.books.orders) [
      | some existing ↦ (raise (value_error "Duplicate order idempotency key"), s)
      | none ↦ propose_new env now token limits p max_age provider s
    ]
