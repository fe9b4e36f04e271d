-- ===== src/Events/Leases.antt =====
-- Claims of an event while its lease runs.
use dse_auto.Common.{
  ℕ, ◌+◌, ◌*◌, ◌≤◌, ◌≡◌, ◌≢◌, true, some, List, [], ◌∷◌, String, arith, All, All-keep, Option-cases,
  inl, inr, ◌==◌, ==_iff,
}
use dse_auto.Common.Sorted.{order_by-All, first-All}
use dse_auto.Store.{OutboxEvent, Session}
use dse_auto.Events.{modify_event, set_outbox}
use dse_auto.Events.Claim.{claim_event, claim_query, claimable, by_creation, lease}

-- What a query returns stands in the table and meets its condition.
claim_query-All :
    (P : OutboxEvent → Type 0) (current : ℕ) (es : List OutboxEvent) {e : OutboxEvent}
    → All P es
    → claim_query current es ≡ some e
    → P e × (claimable current e ≡ true)
unfolding claim_query
claim_query-All P current es h q =
    first-All (λ x. P x × (claimable current x ≡ true)) _
      (order_by-All by_creation _ _ (All-keep P (claimable current) es h)) q

-- Every row with the identifier of the claimed event is under the lease.
abbrev IsLeasedUntil : ℕ → ℕ → OutboxEvent → Type 0
IsLeasedUntil id until e = (e.id == id) ≡ true → e.lease_expires_at ≡ some until

modify-IsLeased :
    (id current seconds : ℕ) (d : String) (es : List OutboxEvent)
    → All
        (IsLeasedUntil id (current + seconds * 1000000))
        (modify_event id (lease current d seconds) es)
modify-IsLeased id current seconds d [] = tt
modify-IsLeased id current seconds d (e ∷ es) =
    (ground arith, modify-IsLeased id current seconds d es)

-- A row whose lease runs may not be claimed.
refused :
    (later until : ℕ) (y : OutboxEvent)
    → y.lease_expires_at ≡ some until
    → later ≤ until
    → claimable later y ≡ true
    → ⊥
refused later until y leased in_time may_run = ground arith

claim_some :
    (current seconds : ℕ) (d : String) (s : Session) {e : OutboxEvent}
    → (claim_event current d seconds s).0 ≡ some e
    → (x : OutboxEvent) × (claim_query current s.work.trail.outbox ≡ some x)
      × (e ≡ lease current d seconds x)
      × ((claim_event current d seconds s).1
          ≡ set_outbox (modify_event x.id (lease current d seconds) s.work.trail.outbox) s)
unfolding claim_event
claim_some current seconds d s h = elim (Option-cases (claim_query current s.work.trail.outbox)) [
  | inl nothing ↦ absurd (ground arith)
  | inr (x, found) ↦ (x, found, ground arith, rw (found, claim_event))
]

-- Where a dispatcher claimed an event, with a lease of so many seconds, no claim up to the end of
-- the lease, by any dispatcher, returns an event with that identifier.
pub claim_event-exclusive :
    (current later seconds seconds' : ℕ) (d d' : String) (s : Session) {e e' : OutboxEvent}
    → (claim_event current d seconds s).0 ≡ some e
    → later ≤ current + seconds * 1000000
    → (claim_event later d' seconds' (claim_event current d seconds s).1).0 ≡ some e'
    → e'.id ≢ e.id
claim_event-exclusive current later seconds seconds' d d' s first in_time second same =
    let (x, found, is_x, after) = claim_some current seconds d s first in
    let (y, found', is_y, _) =
      claim_some later seconds' d' (claim_event current d seconds s).1 second in
    let (held, may_run) =
      claim_query-All (IsLeasedUntil x.id (current + seconds * 1000000)) later _
        (rw after (modify-IsLeased x.id current seconds d s.work.trail.outbox)) found' in
    let same_row : y.id ≡ x.id = cc in
    refused later _ y (held ((==_iff y.id x.id).1 same_row)) in_time may_run
