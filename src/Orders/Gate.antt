-- ===== src/Orders/Gate.antt =====
-- What an approval requires, and what it stores.
use dse_auto.Common.{
  ℕ, ◌≡◌, refl, ap, ◌∙◌, Bool, true, false, not, Bool-cases, inl, inr, if_rule, Option, none, some,
  Result, ok, raise, arith, if◌then◌else◌, ◌==◌,
}
use mathlib.Core.Path.{subst}
use dse_auto.Common.Single.{find_row, find_row-put, find_row-put_other}
use dse_auto.Common.Keys.{Json, Key}
use dse_auto.Store.{
  Order, approved, risk_rejected, OrderStatus, EventType, awaiting_approval, Session, put_order,
  get_account, RiskState,
}
use dse_auto.Store.Rows.{opt_lt}
use dse_auto.Schemas.{OrderProposal, RiskDecision, Provider, TimestampProvenance}
use dse_auto.Env.{Env}
use dse_auto.Audit.Frame.{append_audit-books}
use dse_auto.Events.Frame.{emit-books}
use dse_auto.Broker.Submit.{set_status}
use dse_auto.Risk.{RiskLimits}
use dse_auto.Risk.Approval.{IsAcceptable, evaluate-approved_iff}
use dse_auto.Risk.KillSwitch.{get_state, state_of}
use dse_auto.Orders.{conditions_of, is_trusted}
use dse_auto.Orders.Approve.{
  approve_order, approve_quoted, evaluate_approval, reject_provider, reject_timestamp, revalidated,
  approval_status, is_awaiting,
}

-- What must hold for an approved decision.
pub record IsCleared (limits : RiskLimits) (now : ℕ) (order : Order) (p : OrderProposal)
    (max_age : ℕ) (provider : Provider) (s : Session) : Type 0 where
  pub awaiting : order.status ≡ awaiting_approval
  pub live : opt_lt order.expires_at now ≡ false
  pub suitable : provider.suitable_for_order_approval ≡ true
  pub provenance : TimestampProvenance
  pub quoted : provider.quote_provenance p.symbol ≡ ok provenance
  pub trusted : is_trusted provenance ≡ true
  pub acceptable :
      IsAcceptable limits p
        (conditions_of (get_state s).0 (get_account 1 (get_state s).1) 0 now p max_age)

-- The row of the order after a decision: its status, every other field but the time of the change as
-- before, and every other row as before, all committed.
pub record IsDecided (order : Order) (b : Bool) (s s' : Session) : Type 0 where
  pub row : Order
  pub stored : find_row (λ o. o.id) order.id s'.durable.books.orders ≡ some row
  pub status : row.status ≡ (if b then approved else risk_rejected)
  pub kept : row ≡ record order { status = row.status; updated_at = row.updated_at }
  pub others :
      (id : ℕ)
      → (order.id == id) ≡ false
      → find_row (λ o. o.id) id s'.durable.books.orders
        ≡ find_row (λ o. o.id) id s.work.books.orders
  pub committed : s'.durable ≡ s'.work

-- The stored orders after a decision, committed.
abbrev pub IsStored : ℕ → Order → Bool → Session → Session → Type 0
IsStored now order b s s' =
    (s'.work.books.orders
      ≡ put_order (set_status now (approval_status b) order) s.work.books.orders)
    × (s'.durable ≡ s'.work)

pub get_state-orders : (s : Session) → (get_state s).1.work.books.orders ≡ s.work.books.orders
unfolding get_state
get_state-orders s = by_row s.work.books.risk_state
  where
    by_row : (r : Option RiskState) → (state_of r s).1.work.books.orders ≡ s.work.books.orders
    by_row none = refl
    by_row (some r) = refl

revalidated-IsStored :
    (env : Env) (now : ℕ) (order : Order) (b : Bool) (type : EventType) (key : Key)
    (payload state : Json) (s : Session)
    → IsStored now order b s
        (revalidated env now order (approval_status b) type key payload state s)
revalidated-IsStored env now order b type key payload state s =
    (ap (λ (t : _). t.orders) (append_audit-books env now _ _ ∙ emit-books now _ _), refl)

module _ (env : Env) (now : ℕ) (limits : RiskLimits) (order : Order) (p : OrderProposal)
    (max_age : ℕ) (provider : Provider) (s : Session) where
  -- The outcome of the code after the first three guards.
  abbrev Decides : Result RiskDecision × Session → Type 0
  Decides (ok d, s') =
      IsStored now order d.approved s s'
      × (d.approved ≡ true → IsCleared limits now order p max_age provider s)
  Decides (raise e, s') = Unit

  provider-Decides : Decides (
    ok (reject_provider env now order provider s).0,
    (reject_provider env now order provider s).1,
  )
  unfolding reject_provider
  provider-Decides =
      (revalidated-IsStored env now order false _ _ _ _ s, λ h. absurd (ground arith))

  timestamp-Decides :
      (v : TimestampProvenance)
      → Decides (ok (reject_timestamp env now order v s).0, (reject_timestamp env now order v s).1)
  unfolding reject_timestamp
  timestamp-Decides v =
      (revalidated-IsStored env now order false _ _ _ _ s, λ h. absurd (ground arith))

  module _ (awaiting : order.status ≡ awaiting_approval)
      (live : opt_lt order.expires_at now ≡ false)
      (suitable : provider.suitable_for_order_approval ≡ true) where
    evaluated-Decides :
        (v : TimestampProvenance)
        → provider.quote_provenance p.symbol ≡ ok v
        → is_trusted v ≡ true
        → Decides (
          ok (evaluate_approval env now limits order p max_age s).0,
          (evaluate_approval env now limits order p max_age s).1,
        )
    unfolding evaluate_approval
    evaluated-Decides v quoted trusted = (
      (
        (revalidated-IsStored env now order _ _ _ _ _ (get_state s).1).0
            ∙ ap (put_order _) (get_state-orders s),
        refl,
      ),
      λ h. record {
        awaiting = awaiting;
        live = live;
        suitable = suitable;
        provenance = v;
        quoted = quoted;
        trusted = trusted;
        acceptable = (evaluate-approved_iff env now limits p _).0.0 h;
      },
    )

    quoted-Decides :
        (r : Result TimestampProvenance)
        → provider.quote_provenance p.symbol ≡ r
        → Decides (approve_quoted env now limits order p max_age r s)
    quoted-Decides (raise e) h = tt
    quoted-Decides (ok v) h = elim (Bool-cases (is_trusted v)) [
      | inl sure ↦ rw (sure, approve_quoted) (evaluated-Decides v h sure)
      | inr unsure ↦ rw (unsure, approve_quoted) (timestamp-Decides v)
    ]

  awaiting-eq : (t : OrderStatus) → is_awaiting t ≡ true → t ≡ awaiting_approval
  awaiting-eq t h = ground arith

  approve_order-Decides : Decides (approve_order env now limits order p max_age provider s)
  unfolding approve_order
  approve_order-Decides = elim (Bool-cases (is_awaiting order.status)) [
    | inr other ↦ rw (other, approve_order) tt
    | inl waits ↦ elim (Bool-cases (opt_lt order.expires_at now)) [
      | inl late ↦ rw (waits, late, approve_order) tt
      | inr live ↦
          rw (waits, live, approve_order)
            (if_rule Decides (not provider.suitable_for_order_approval) _ _
              (λ unsuited. provider-Decides)
              (λ suited.
                quoted-Decides (awaiting-eq order.status waits) live (ground arith)
                  (provider.quote_provenance p.symbol) refl))
    ]
  ]

  outcome-Decides :
      (d : RiskDecision) (s' : Session)
      → approve_order env now limits order p max_age provider s ≡ (ok d, s')
      → Decides (ok d, s')
  outcome-Decides d s' e = subst Decides e approve_order-Decides

-- Where `approve_order` returns an approved decision, the order was awaiting approval and had not
-- expired, the provider is suitable, its quote has trusted provenance, and the proposal respects
-- every limit under the kill switch, the cash of account 1 and the age of the data at that time, with
-- no orders, positions or losses counted and the reconciliation taken as healthy, as the code passes
-- them.
pub approve_order-IsCleared :
    (env : Env) (now : ℕ) (limits : RiskLimits) (order : Order) (p : OrderProposal) (max_age : ℕ)
    (provider : Provider) (s s' : Session) (d : RiskDecision)
    → approve_order env now limits order p max_age provider s ≡ (ok d, s')
    → d.approved ≡ true
    → IsCleared limits now order p max_age provider s
approve_order-IsCleared env now limits order p max_age provider s s' d e h =
    (outcome-Decides env now limits order p max_age provider s d s' e).1 h

approval_status-name : (b : Bool) → approval_status b ≡ (if b then approved else risk_rejected)
approval_status-name true = refl
approval_status-name false = refl

stored-IsDecided :
    (now : ℕ) (order : Order) (b : Bool) (s s' : Session) {old : Order}
    → find_row (λ o. o.id) order.id s.work.books.orders ≡ some old
    → IsStored now order b s s'
    → IsDecided order b s s'
unfolding put_order
stored-IsDecided now order b s s' found h = record {
  row = new;
  stored = looked_up order.id ∙ find_row-put (λ o. o.id) new s.work.books.orders found;
  status = approval_status-name b;
  kept = refl;
  others =
      λ id apart. looked_up id ∙ find_row-put_other (λ o. o.id) id new s.work.books.orders apart;
  committed = h.1;
}
  where
    new : Order
    new = set_status now (approval_status b) order

    looked_up :
        (id : ℕ)
        → find_row (λ o. o.id) id s'.durable.books.orders
          ≡ find_row (λ o. o.id) id (put_order new s.work.books.orders)
    looked_up id =
        ap (λ (t : _). find_row (λ o. o.id) id t.books.orders) h.1
        ∙ ap (find_row (λ o. o.id) id) h.0

-- Where the order is a row of the table and `approve_order` returns a decision, approved or not, the
-- row is stored with the status approved if the decision approves it and risk_rejected if not, its
-- other fields but the time of the change stay, every other row stays, and all of this is committed.
pub approve_order-IsDecided :
    (env : Env) (now : ℕ) (limits : RiskLimits) (order : Order) (p : OrderProposal) (max_age : ℕ)
    (provider : Provider) (s s' : Session) (d : RiskDecision)
    → find_row (λ o. o.id) order.id s.work.books.orders ≡ some order
    → approve_order env now limits order p max_age provider s ≡ (ok d, s')
    → IsDecided order d.approved s s'
approve_order-IsDecided env now limits order p max_age provider s s' d found e =
    stored-IsDecided now order d.approved s s' found
      (outcome-Decides env now limits order p max_age provider s d s' e).0
