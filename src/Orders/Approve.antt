-- ===== src/Orders/Approve.antt =====
-- `approve_order`: everything is checked again before an order becomes approved.
use dse_auto.Common.{
  ℕ, Bool, true, false, not, none, [], ◌∷◌, String, if◌then◌else◌, Result, ok, raise, value_error,
}
use dse_auto.Common.Keys.{Key, Json, num, bool, arr, letters, dict, items_of}
use dse_auto.Store.{
  Order, OrderStatus, EventType, risk_rejected_event, proposal_approved, proposed,
  awaiting_approval, approved, submitted, partially_filled, filled, cancelled, expired, rejected,
  risk_rejected, Session, commit, get_account, save_order,
}
use dse_auto.Store.Rows.{opt_lt}
use dse_auto.Schemas.{
  OrderProposal, RiskDecision, Provider, TimestampProvenance, exchange_verified, operator_attested,
  provider_asserted, receipt_only, unknown, insufficient_timestamp_trust,
}
use dse_auto.Env.{Env}
use dse_auto.Audit.{append_audit}
use dse_auto.Events.{emit}
use dse_auto.Broker.Submit.{order_event, set_status, text_json}
use dse_auto.Risk.{RiskLimits, evaluate}
use dse_auto.Risk.KillSwitch.{get_state}
use dse_auto.Orders.{is_trusted, conditions_of, refusal, provider_refusal, decision_entry}

abbrev pub is_awaiting : OrderStatus → Bool
is_awaiting awaiting_approval = true
is_awaiting proposed = false
is_awaiting approved = false
is_awaiting submitted = false
is_awaiting partially_filled = false
is_awaiting filled = false
is_awaiting cancelled = false
is_awaiting expired = false
is_awaiting rejected = false
is_awaiting risk_rejected = false

-- A change of status with its event and its audit record.
abbrev pub revalidated :
    Env → ℕ → Order → OrderStatus → EventType → Key → Json → Json → Session → Session
revalidated env now order status type key payload state s =
    let s1 =
      emit now (order_event type order payload key none)
        (save_order (set_status now status order) s) in
    commit
      (append_audit env now (decision_entry "user" "order.approval_revalidated" order state) s1)

unfoldable pub reject_provider : Env → ℕ → Order → Provider → Session → RiskDecision × Session
reject_provider env now order provider s =
    let decision = provider_refusal now provider.name in
    let json = env.dump_decision decision in
    let key = letters "risk-rejected" ∷ num order.id ∷ letters "approval-provider" ∷ [] in
    (decision, revalidated env now order risk_rejected risk_rejected_event key json json s)

abbrev pub provenance_name : TimestampProvenance → String
provenance_name exchange_verified = "exchange_verified"
provenance_name provider_asserted = "provider_asserted"
provenance_name operator_attested = "operator_attested"
provenance_name receipt_only = "receipt_only"
provenance_name unknown = "unknown"

abbrev pub trust_codes : Json
trust_codes = arr (items_of (text_json "INSUFFICIENT_TIMESTAMP_TRUST" ∷ []))

unfoldable pub reject_timestamp :
    Env → ℕ → Order → TimestampProvenance → Session → RiskDecision × Session
reject_timestamp env now order provenance s =
    let snapshot = dict (("timestamp_provenance", text_json (provenance_name provenance)) ∷ []) in
    let decision = refusal now insufficient_timestamp_trust snapshot in
    let payload = dict (("reason_codes", trust_codes) ∷ []) in
    let state = dict (("approved", bool false) ∷ ("reason_codes", trust_codes) ∷ []) in
    let key = letters "risk-rejected" ∷ num order.id ∷ letters "timestamp" ∷ [] in
    (decision, revalidated env now order risk_rejected risk_rejected_event key payload state s)

abbrev pub approval_status : Bool → OrderStatus
approval_status true = approved
approval_status false = risk_rejected

abbrev pub approval_event : Bool → EventType
approval_event true = proposal_approved
approval_event false = risk_rejected_event

abbrev pub approval_word : Bool → String
approval_word true = "proposal-approved"
approval_word false = "risk-rejected"

-- The evaluation at the time of the approval; the number of open orders is left at its default.
unfoldable pub evaluate_approval :
    Env → ℕ → RiskLimits → Order → OrderProposal → ℕ → Session → RiskDecision × Session
unfolding get_state
evaluate_approval env now limits order p max_age s =
    let (state, s1) = get_state s in
    let account = get_account 1 s1 in
    let decision = evaluate env now limits p (conditions_of state account 0 now p max_age) in
    let json = env.dump_decision decision in
    let key = letters (approval_word decision.approved) ∷ num order.id ∷ letters "approval" ∷ [] in
    (
      decision,
      revalidated env now order (approval_status decision.approved)
          (approval_event decision.approved) key json json s1,
    )

abbrev pub approve_quoted :
    Env
    → ℕ
    → RiskLimits
    → Order
    → OrderProposal
    → ℕ
    → Result TimestampProvenance
    → Session
    → Result RiskDecision × Session
approve_quoted env now limits order p max_age (raise e) s = (raise e, s)
approve_quoted env now limits order p max_age (ok provenance) s =
    let (refused, s1) = reject_timestamp env now order provenance s in
    let (decision, s2) = evaluate_approval env now limits order p max_age s in
    if is_trusted provenance then (ok decision, s2) else (ok refused, s1)

unfoldable pub approve_order :
    Env
    → ℕ
    → RiskLimits
    → Order
    → OrderProposal
    → ℕ
    → Provider
    → Session
    → Result RiskDecision × Session
approve_order env now limits order p max_age provider s =
    let (refused, s1) = reject_provider env now order provider s in
    if not (is_awaiting order.status)
    then (raise (value_error "Order is not awaiting approval"), s)
    else if opt_lt order.expires_at now
    then (
      raise (value_error "Proposal expired"),
      commit (save_order (set_status now expired order) s),
    )
    else if not provider.suitable_for_order_approval
    then (ok refused, s1)
    else approve_quoted env now limits order p max_age (provider.quote_provenance p.symbol) s
