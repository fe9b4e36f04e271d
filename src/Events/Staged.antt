-- ===== src/Events/Staged.antt =====
-- Staging and the idempotency keys of the outbox.
use dse_auto.Common.{
  ℕ, ◌≡◌, false, none, some, List, [], ◌∷◌, ◌++◌, arith, All, All-snoc, Bool-cases, Option-cases,
  inl, inr,
}
use dse_auto.Common.Keys.{key_eq, key_eq_symm, key_eq_refl}
use dse_auto.Store.{OutboxEvent, Session, set_trail}
use dse_auto.Events.{EventArgs, find_key, add_event, stage_event, new_event}

-- No two events have the same key.
abbrev pub KeysDiffer : List OutboxEvent → Type 0
KeysDiffer [] = Unit
KeysDiffer (e ∷ es) =
    All (λ d. key_eq d.idempotency_key e.idempotency_key ≡ false) es × KeysDiffer es

KeysDiffer-append :
    (es : List OutboxEvent) (e : OutboxEvent)
    → KeysDiffer es
    → find_key e.idempotency_key es ≡ none
    → KeysDiffer (es ++ e ∷ [])
unfolding find_key
KeysDiffer-append [] e h f = (tt, tt)
KeysDiffer-append (x ∷ es) e h f = elim (Bool-cases (key_eq x.idempotency_key e.idempotency_key)) [
  | inl same ↦ absurd (ground arith)
  | inr differ ↦ (
    All-snoc _ es e h.0 (rw (key_eq_symm e.idempotency_key x.idempotency_key) differ),
    KeysDiffer-append es e h.1 (rw differ at f),
  )
]

pub stage_old :
    (now : ℕ) (args : EventArgs) (s : Session) {e : OutboxEvent}
    → find_key args.idempotency_key s.work.trail.outbox ≡ some e
    → stage_event now args s ≡ (e, s)
unfolding stage_event
stage_old now args s h = rw (h, stage_event)

pub stage_new :
    (now : ℕ) (args : EventArgs) (s : Session)
    → find_key args.idempotency_key s.work.trail.outbox ≡ none
    → stage_event now args s ≡ (
      new_event now s.work.trail.next_id args,
      set_trail (add_event (new_event now s.work.trail.next_id args) s.work.trail) s,
    )
unfolding stage_event
stage_new now args s h = rw (h, stage_event)

-- Where the idempotency keys of the outbox are pairwise different, they are so after an event is
-- staged.
pub stage_event-KeysDiffer :
    (now : ℕ) (args : EventArgs) (s : Session)
    → KeysDiffer s.work.trail.outbox
    → KeysDiffer (stage_event now args s).1.work.trail.outbox
unfolding new_event
stage_event-KeysDiffer now args s h =
    elim (Option-cases (find_key args.idempotency_key s.work.trail.outbox)) [
      | inl absent ↦
          rw (stage_new now args s absent) (
            KeysDiffer-append s.work.trail.outbox (new_event now s.work.trail.next_id args) h
              absent)
      | inr (e, found) ↦ rw (stage_old now args s found) h
    ]

find_key-append :
    (es : List OutboxEvent) (e : OutboxEvent)
    → find_key e.idempotency_key es ≡ none
    → find_key e.idempotency_key (es ++ e ∷ []) ≡ some e
unfolding find_key
find_key-append [] e h = rw (key_eq_refl e.idempotency_key)
find_key-append (x ∷ es) e h = ground (arith, find_key-append es e)

-- Staged again, with any other contents and at any later time, an event is the one that was staged
-- first, and the session stays as the first call left it.
pub stage_event-again :
    (now later : ℕ) (args again : EventArgs) (s : Session)
    → again.idempotency_key ≡ args.idempotency_key
    → stage_event later again (stage_event now args s).1 ≡ stage_event now args s
unfolding new_event
stage_event-again now later args again s h =
    elim (Option-cases (find_key args.idempotency_key s.work.trail.outbox)) [
      | inl absent ↦ rw (stage_new now args s absent) (
          stage_old later again _ (
            rw h (
              find_key-append s.work.trail.outbox (new_event now s.work.trail.next_id args)
                absent)))
      | inr (e, found) ↦ rw (stage_old now args s found) (stage_old later again s (rw h found))
    ]
