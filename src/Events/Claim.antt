-- ===== src/Events/Claim.antt =====
-- `claim_event`: the oldest event that may run is leased to a dispatcher.
use dse_auto.Common.{
  ℕ, ◌+◌, ◌*◌, Bool, true, false, ◌&&◌, ◌||◌, Option, none, some, List, String, ltb, leb, ◌==◌,
  keep,
}
use dse_auto.Common.Sorted.{order_by, first?}
use dse_auto.Store.{
  OutboxEvent, OutboxState, Session, pending, leased, retry, delivered, dead_letter,
}
use dse_auto.Store.Rows.{none_or_lt}
use dse_auto.Events.{modify_event, set_outbox}

-- OutboxEvent.state.in_(("pending", "retry", "leased"))
abbrev pub is_open : OutboxState → Bool
is_open pending = true
is_open retry = true
is_open leased = true
is_open delivered = false
is_open dead_letter = false

-- The condition of the query.
abbrev pub claimable : ℕ → OutboxEvent → Bool
claimable current e =
    is_open e.state && leb e.available_at current && none_or_lt e.lease_expires_at current

-- order_by(OutboxEvent.created_at, OutboxEvent.id)
abbrev pub by_creation : OutboxEvent → OutboxEvent → Bool
by_creation a b = ltb a.created_at b.created_at || (a.created_at == b.created_at && leb a.id b.id)

unfoldable pub claim_query : ℕ → List OutboxEvent → Option OutboxEvent
claim_query current events = first? (order_by by_creation (keep (claimable current) events))

-- What a claim writes; times are in microseconds.
abbrev pub lease : ℕ → String → ℕ → OutboxEvent → OutboxEvent
lease current dispatcher seconds e = record e {
  state = leased;
  lease_owner = some dispatcher;
  lease_expires_at = some (current + seconds * 1000000);
  attempts = e.attempts + 1;
}

-- The claim is flushed and not committed. (Postgres also locks the row; a session here has no
-- concurrent one.)
unfoldable pub claim_event : ℕ → String → ℕ → Session → Option OutboxEvent × Session
unfolding claim_query
claim_event current dispatcher seconds s = elim (claim_query current s.work.trail.outbox) [
  | none ↦ (none, s)
  | some e ↦ (
    some (lease current dispatcher seconds e),
    set_outbox (modify_event e.id (lease current dispatcher seconds) s.work.trail.outbox) s,
  )
]
