-- ===== src/Audit.antt =====
-- backend/app/services/audit.py: the append-only audit chain. Each event carries the hash of the
-- one before it. The latency metric that `append_audit` adds beside the event is not modelled.
pub mod Frame
pub mod Verify
pub mod Append
pub mod Status
pub mod Tamper
pub mod Init
use dse_auto.Common.{
  ℕ, suc, zero, ◌+◌, Bool, true, false, not, ◌&&◌, ◌||◌, Option, none, some, List, [], ◌∷◌, ◌++◌,
  String, str_eq, ltb, leb, ◌==◌, if◌then◌else◌, keep, is_none,
}
use dse_auto.Common.Keys.{Key, Json, dict}
use dse_auto.Common.Sorted.{order_by, last?}
use dse_auto.Store.{AuditEvent, AuditChain, Trail, Tables, Session, commit_if, set_trail}
use dse_auto.Store.Rows.{opt_num_eq}
use dse_auto.Env.{Env, Canonical}

-- ZERO_HASH, "0" * 64
abbrev pub zero_hash : String
zero_hash = "0000000000000000000000000000000000000000000000000000000000000000"

-- What `_canonical` encodes.
unfoldable pub canonical : AuditEvent → Bool → Canonical
canonical event include_generation = record {
  actor = event.actor;
  event_type = event.event_type;
  entity_type = event.entity_type;
  entity_id = event.entity_id;
  previous_state = event.previous_state;
  new_state = event.new_state;
  metadata = event.event_metadata;
  previous_hash = event.previous_hash;
  generation = if include_generation then some (event.chain_id, event.sequence) else none;
}

-- `event.chain_id == chain.id`, and `event.chain_id.is_(None)` for no chain.
abbrev pub in_chain : Option ℕ → AuditEvent → Bool
in_chain (some c) event = opt_num_eq event.chain_id c
in_chain none event = is_none event.chain_id

-- prior.sequence or 0
abbrev pub sequence_of : AuditEvent → ℕ
sequence_of event = elim event.sequence [ none ↦ 0 | some n ↦ n ]

-- order_by(AuditEvent.sequence)
abbrev pub by_sequence : AuditEvent → AuditEvent → Bool
by_sequence a b = leb (sequence_of a) (sequence_of b)

-- order_by(AuditEvent.timestamp, AuditEvent.id)
abbrev pub by_time : AuditEvent → AuditEvent → Bool
by_time a b = ltb a.timestamp b.timestamp || (a.timestamp == b.timestamp && leb a.id b.id)

-- The events of a chain, or those of no chain, in the order in which they are verified.
abbrev pub chain_order : Option ℕ → AuditEvent → AuditEvent → Bool
chain_order (some _) = by_sequence
chain_order none = by_time

unfoldable pub chain_events : Option ℕ → List AuditEvent → List AuditEvent
chain_events c events = order_by (chain_order c) (keep (in_chain c) events)

abbrev pub chain_id_of : Option AuditChain → Option ℕ
chain_id_of none = none
chain_id_of (some chain) = some chain.id

abbrev pub hash_of : Option AuditEvent → String
hash_of none = zero_hash
hash_of (some prior) = prior.integrity_hash

-- `(prior.sequence or 0) + 1 if prior else 1`, where there is a chain
abbrev pub next_sequence : Option ℕ → Option AuditEvent → Option ℕ
next_sequence none prior = none
next_sequence (some _) none = some 1
next_sequence (some _) (some prior) = some (sequence_of prior + 1)

-- A reading of the clock, moved past the predecessor's time if it is not later.
abbrev pub next_time : ℕ → Option AuditEvent → ℕ
next_time now none = now
next_time now (some prior) = if leb now prior.timestamp then prior.timestamp + 1 else now

-- The arguments of `append_audit`.
pub record Entry : Type 0 where
  pub actor : String
  pub event_type : String
  pub entity_type : String
  pub entity_id : Option Key
  pub previous_state : Option Json
  pub new_state : Option Json
  pub metadata : Option Json

-- metadata or {}
abbrev pub or_empty : Option Json → Json
or_empty none = dict []
or_empty (some m) = m

-- The event before its hash is computed.
unfoldable pub draft : ℕ → Trail → Entry → AuditEvent
unfolding chain_events
draft now t entry =
    let c = chain_id_of t.audit_chain in
    let prior = last? (chain_events c t.audit_events) in
    record {
      id = t.next_id;
      timestamp = next_time now prior;
      actor = entry.actor;
      event_type = entry.event_type;
      entity_type = entry.entity_type;
      entity_id = entry.entity_id;
      previous_state = entry.previous_state;
      new_state = entry.new_state;
      event_metadata = or_empty entry.metadata;
      previous_hash = hash_of prior;
      integrity_hash = "pending";
      chain_id = c;
      sequence = next_sequence c prior;
    }

-- event.integrity_hash = sha256(_canonical(event, include_generation=chain_id is not None))
unfoldable pub seal : Env → AuditEvent → AuditEvent
unfolding canonical
seal env event = record event {
  integrity_hash = env.sha256 (canonical event (not (is_none event.chain_id)));
}

-- The rows after the flush of the new event.
unfoldable pub append_event : Env → ℕ → Entry → Trail → Trail
unfolding draft seal
append_event env now entry t = record t {
  audit_events = t.audit_events ++ seal env (draft now t entry) ∷ [];
  next_id = t.next_id + 1;
}

-- With an active chain the whole session is committed before `append_audit` returns.
unfoldable pub append_audit : Env → ℕ → Entry → Session → Session
append_audit env now entry s =
    let s' = set_trail (append_event env now entry s.work.trail) s in
    commit_if (not (is_none s.work.trail.audit_chain)) s'

-- One round of the loop of `_verify_events`.
abbrev pub event_ok : Env → Bool → String → ℕ → AuditEvent → Bool
event_ok env generated previous expected event =
    str_eq event.previous_hash previous
    && (not generated || opt_num_eq event.sequence expected)
    && str_eq (env.sha256 (canonical event generated)) event.integrity_hash

-- The loop: `previous` and `expected_sequence` are its variables.
unfoldable pub verify_from : Env → Bool → String → ℕ → List AuditEvent → Bool
verify_from env generated previous expected [] = true
verify_from env generated previous expected (event ∷ events) =
    event_ok env generated previous expected event
    && verify_from env generated event.integrity_hash (expected + 1) events

unfoldable pub verify_events : Env → Bool → List AuditEvent → Bool
unfolding verify_from
verify_events env generated events = verify_from env generated zero_hash 1 events
