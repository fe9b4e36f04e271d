-- ===== src/Orders/Intake.antt =====
-- What `propose_order` stores, and proposals with a key that is taken.
use dse_auto.Common.{
  ℕ, ◌≡◌, refl, ap, ◌∙◌, Bool, true, false, not, Bool-cases, if_rule, Option-cases, inl, inr, none,
  some, List, [], ◌∷◌, ◌++◌, String, Result, ok, raise, if◌then◌else◌, value_error,
}
use mathlib.Core.Path.{subst}
use dse_auto.Common.Keys.{Key, key_eq, key_eq_iff}
use dse_auto.Store.{Order, OrderStatus, awaiting_approval, risk_rejected, Session}
use dse_auto.Schemas.{OrderProposal, RiskDecision, Provider, TimestampProvenance}
use dse_auto.Env.{Env}
use dse_auto.Audit.Frame.{append_audit-books}
use dse_auto.Events.Frame.{emit-books}
use dse_auto.Risk.{RiskLimits}
use dse_auto.Risk.KillSwitch.{get_state}
use dse_auto.Orders.{find_order_key, is_trusted}
use dse_auto.Orders.Gate.{get_state-orders}
use dse_auto.Orders.Propose.{
  refuse_provider, evaluated_order, store_proposal, evaluate_proposal, with_quote, propose_new,
  propose_order,
}

abbrev pub proposal_status : Bool → OrderStatus
proposal_status true = awaiting_approval
proposal_status false = risk_rejected

-- The stored order: the row is the last one, committed, and nothing else is in the orders.
pub record IsTaken (p : OrderProposal) (s : Session) (o : Order) (d : RiskDecision) (s' : Session)
    : Type 0 where
  pub orders : s'.work.books.orders ≡ s.work.books.orders ++ o ∷ []
  pub saved : s'.durable ≡ s'.work
  pub status : o.status ≡ proposal_status d.approved
  pub key : o.idempotency_key ≡ p.idempotency_key
  pub quantity : o.quantity ≡ p.quantity
  pub nothing_filled : o.filled_quantity ≡ 0
  pub fresh_key : find_order_key p.idempotency_key s.work.books.orders ≡ none

evaluated_order-status :
    (id now : ℕ) (token : String) (p : OrderProposal) (b : Bool)
    → (evaluated_order id now token p b).status ≡ proposal_status b
evaluated_order-status id now token p true = refl
evaluated_order-status id now token p false = refl

evaluated_order-same :
    (id now : ℕ) (token : String) (p : OrderProposal) (b : Bool)
    → ((evaluated_order id now token p b).idempotency_key ≡ p.idempotency_key)
      × ((evaluated_order id now token p b).quantity ≡ p.quantity)
      × ((evaluated_order id now token p b).filled_quantity ≡ 0)
evaluated_order-same id now token p true = (refl, refl, refl)
evaluated_order-same id now token p false = (refl, refl, refl)

module _ (env : Env) (now : ℕ) (token : String) (limits : RiskLimits) (p : OrderProposal)
    (max_age : ℕ) (provider : Provider) (s : Session) where
  -- The outcome where no order has the key.
  abbrev Takes : Result (Order × RiskDecision) × Session → Type 0
  Takes (ok (o, d), s') = IsTaken p s o d s'
  Takes (raise e, s') = s' ≡ s

  module _ (fresh : find_order_key p.idempotency_key s.work.books.orders ≡ none) where
    refused-Takes :
        Takes
          (ok (refuse_provider env now p provider s).0, (refuse_provider env now p provider s).1)
    unfolding refuse_provider
    refused-Takes = record {
      orders = ap (λ (t : _). t.orders) (append_audit-books env now _ _ ∙ emit-books now _ _);
      saved = refl;
      status = refl;
      key = refl;
      quantity = refl;
      nothing_filled = refl;
      fresh_key = fresh;
    }

    stored-Takes :
        (d : RiskDecision) (s1 : Session)
        → s1.work.books.orders ≡ s.work.books.orders
        → Takes
            (ok (store_proposal env now token p d s1).0, (store_proposal env now token p d s1).1)
    unfolding store_proposal
    stored-Takes d s1 same = record {
      orders =
          ap (λ (t : _). t.orders)
            (append_audit-books env now _ _ ∙ append_audit-books env now _ _ ∙ emit-books now _ _)
          ∙ ap (λ l. l ++ evaluated_order s1.work.trail.next_id now token p d.approved ∷ []) same;
      saved = refl;
      status = evaluated_order-status _ now token p d.approved;
      key = (evaluated_order-same _ now token p d.approved).0;
      quantity = (evaluated_order-same _ now token p d.approved).1;
      nothing_filled = (evaluated_order-same _ now token p d.approved).2;
      fresh_key = fresh;
    }

    quote-Takes :
        (r : Result TimestampProvenance) → Takes (with_quote env now token limits p max_age r s)
    unfolding evaluate_proposal
    quote-Takes (raise e) = refl
    quote-Takes (ok v) = elim (Bool-cases (is_trusted v)) [
      | inl sure ↦ rw (sure, with_quote) (stored-Takes _ (get_state s).1 (get_state-orders s))
      | inr unsure ↦ rw (unsure, with_quote) refl
    ]

    new-Takes : Takes (propose_new env now token limits p max_age provider s)
    new-Takes =
        if_rule Takes (not provider.suitable_for_order_approval) _ _ (λ unsuited. refused-Takes)
          (λ suited. quote-Takes (provider.quote_provenance p.symbol))

  propose_order-Takes : Takes (propose_order env now token limits p max_age provider s)
  unfolding propose_order
  propose_order-Takes = elim (Option-cases (find_order_key p.idempotency_key s.work.books.orders)) [
    | inl absent ↦ rw (absent, propose_order) (new-Takes absent)
    | inr (o, found) ↦ rw (found, propose_order) refl
  ]

-- Where `propose_order` returns an order and a decision, no order had the idempotency key of the
-- proposal; the order is stored behind the others and committed, with the key and the quantity of
-- the proposal, nothing filled, and the status awaiting_approval or risk_rejected that goes with the
-- decision.
pub propose_order-IsTaken :
    (env : Env) (now : ℕ) (token : String) (limits : RiskLimits) (p : OrderProposal) (max_age : ℕ)
    (provider : Provider) (s s' : Session) (o : Order) (d : RiskDecision)
    → propose_order env now token limits p max_age provider s ≡ (ok (o, d), s')
    → IsTaken p s o d s'
propose_order-IsTaken env now token limits p max_age provider s s' o d e =
    subst (Takes env now token limits p max_age provider s) e
      (propose_order-Takes env now token limits p max_age provider s)

find_order_key-behind :
    (key : Key) (os : List Order) (o : Order)
    → find_order_key key os ≡ none
    → key_eq o.idempotency_key key ≡ true
    → find_order_key key (os ++ o ∷ []) ≡ some o
unfolding find_order_key
find_order_key-behind key [] o h e = rw e refl
find_order_key-behind key (x ∷ xs) o h e = elim (Bool-cases (key_eq x.idempotency_key key)) [
  | inl same ↦
      absurd
        (taken_not_none (subst (λ b. (if b then some x else find_order_key key xs) ≡ none) same h))
  | inr differs ↦ rw differs (
      find_order_key-behind key xs o
        (subst (λ b. (if b then some x else find_order_key key xs) ≡ none) differs h) e)
]
  where
    taken_not_none : some x ≡ none → ⊥
    taken_not_none e = cc

-- After a proposal was stored, every further proposal with its idempotency key, at any time and
-- with any limits and any provider, is refused as a duplicate and leaves the session as it is.
pub propose_order-again :
    (env : Env) (now : ℕ) (token : String) (limits : RiskLimits) (p : OrderProposal) (max_age : ℕ)
    (provider : Provider) (s s' : Session) (o : Order) (d : RiskDecision)
    → propose_order env now token limits p max_age provider s ≡ (ok (o, d), s')
    → (now' : ℕ) (token' : String) (limits' : RiskLimits) (p' : OrderProposal) (max_age' : ℕ)
      (provider' : Provider)
    → p'.idempotency_key ≡ p.idempotency_key
    → propose_order env now' token' limits' p' max_age' provider' s'
      ≡ (raise (value_error "Duplicate order idempotency key"), s')
unfolding propose_order
propose_order-again env now token limits p max_age provider s s' o d e now' token' limits' p'
      max_age' provider' same =
    rw (found, propose_order) refl
  where
    taken : IsTaken p s o d s'
    taken = propose_order-IsTaken env now token limits p max_age provider s s' o d e

    found : find_order_key p'.idempotency_key s'.work.books.orders ≡ some o
    found =
        ap (λ k. find_order_key k s'.work.books.orders) same
        ∙ ap (find_order_key p.idempotency_key) taken.orders
        ∙ find_order_key-behind p.idempotency_key s.work.books.orders o taken.fresh_key
            ((key_eq_iff _ _).1 taken.key)
