-- ===== src/Events/Frame.antt =====
-- The frame of staging: the tables outside the outbox.
use dse_auto.Common.{ℕ, ◌≡◌, ap, Option-cases, inl, inr}
use dse_auto.Store.{OutboxEvent, Session}
use dse_auto.Events.{EventArgs, find_key, emit}
use dse_auto.Events.Staged.{stage_old, stage_new}

pub emit-books :
    (now : ℕ) (args : EventArgs) (s : Session) → (emit now args s).work.books ≡ s.work.books
emit-books now args s = elim (Option-cases (find_key args.idempotency_key s.work.trail.outbox)) [
  | inl absent ↦ ap (λ (r : OutboxEvent × Session). r.1.work.books) (stage_new now args s absent)
  | inr (e, found) ↦ ap (λ (r : OutboxEvent × Session). r.1.work.books) (stage_old now args s found)
]

pub emit-durable :
    (now : ℕ) (args : EventArgs) (s : Session) → (emit now args s).durable ≡ s.durable
emit-durable now args s = elim (Option-cases (find_key args.idempotency_key s.work.trail.outbox)) [
  | inl absent ↦ ap (λ (r : OutboxEvent × Session). r.1.durable) (stage_new now args s absent)
  | inr (e, found) ↦ ap (λ (r : OutboxEvent × Session). r.1.durable) (stage_old now args s found)
]
