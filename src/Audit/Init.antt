-- ===== src/Audit/Init.antt =====
-- `initialize_canonical_chain`: the old events are archived and a new chain is begun. The archive
-- is the list of events that `path.write_bytes` is given; its path, built from the time, is not
-- modelled.
use dse_auto.Common.{
  ℕ, ◌+◌, ◌≡◌, refl, ap, Bool, true, false, Option, none, some, List, [], ◌∷◌, ◌++◌, String, ltb,
  if◌then◌else◌, length, is_some, value_error, Result, ok, raise, All, keep-none, map,
}
use dse_auto.Common.Keys.{Json, str, num, int, bool, letters, dict}
use dse_auto.Common.Text.{Text, strip}
use dse_auto.Store.{AuditEvent, AuditChain, Trail, Session, commit, set_trail}
use dse_auto.Env.{Env}
use dse_auto.Audit.{Entry, append_audit, append_event, in_chain, chain_events, verify_events}
use dse_auto.Audit.Append.{append_event-IsValid, IsValid}
use dse_auto.Audit.Status.{verify_audit_chain, IsValid-verify_audit_chain}
use mathlib.Core.Path.{subst}
use dse_auto.Common.Sorted.{order_by}

pub record Initialization : Type 0 where
  pub dry_run : Bool
  pub archived : List AuditEvent
  pub archive_hash : String
  pub canonical_chain_id : Option ℕ

result_json : Initialization → Json
result_json r = dict (
    ("dry_run", bool r.dry_run)
    ∷ ("legacy_events", int (length r.archived))
    ∷ ("archive_hash", str (letters r.archive_hash ∷ []))
    ∷ ("original_evidence_preserved", bool true)
    ∷ [])

-- The new row of AuditChain.
new_chain : ℕ → Text → String → AuditChain
new_chain id ack hash = record {
  id = id;
  operator_acknowledgement = strip ack;
  legacy_archive_hash = hash;
}

genesis : ℕ → Text → Json → Entry
genesis id ack result = record {
  actor = "operator";
  event_type = "audit.canonical_chain_initialized";
  entity_type = "audit_chain";
  entity_id = some (num id ∷ []);
  previous_state = none;
  new_state = some result;
  metadata = some (dict (("operator_acknowledgement", str (map num (strip ack))) ∷ []));
}

-- db.add(chain); db.flush()
abbrev add_chain : AuditChain → Trail → Trail
add_chain chain t = record t { audit_chain = some chain; next_id = t.next_id + 1 }

-- The chain row is added and flushed, the genesis event appended, and all committed.
begin_chain : Env → ℕ → Text → Initialization → Session → Initialization × Session
unfolding result_json new_chain genesis
begin_chain env now ack result s =
    let t = s.work.trail in
    let id = t.next_id in
    let chain = new_chain id ack result.archive_hash in
    let s' = set_trail (add_chain chain t) s in
    let s'' = append_audit env now (genesis id ack (result_json result)) s' in
    (record result { canonical_chain_id = some id }, commit s'')

unfoldable pub initialize_canonical_chain :
    Env → ℕ → Text → Bool → Session → Result Initialization × Session
unfolding begin_chain
initialize_canonical_chain env now ack dry_run s =
    let legacy = chain_events none s.work.trail.audit_events in
    let result : Initialization = record {
      dry_run = dry_run;
      archived = legacy;
      archive_hash = env.archive_sha256 legacy;
      canonical_chain_id = none;
    } in
    if ltb (length (strip ack)) 12
    then (raise (value_error "Operator acknowledgement must describe the recovery decision"), s)
    else if is_some s.work.trail.audit_chain
    then (raise (value_error "A canonical audit chain already exists"), s)
    else if dry_run
    then (ok result, s)
    else (let (r, s') = begin_chain env now ack result s in (ok r, s'))

-- The identifier that the next row takes is not yet the chain of any event.
abbrev pub IsFresh : Session → Type 0
IsFresh s = All (λ e. in_chain (some s.work.trail.next_id) e ≡ false) s.work.trail.audit_events

no_rows :
    (env : Env) (c : ℕ) (es : List AuditEvent)
    → All (λ e. in_chain (some c) e ≡ false) es
    → verify_events env true (chain_events (some c) es) ≡ true
unfolding chain_events verify_events order_by
no_rows env c es h = rw (keep-none (in_chain (some c)) es h)

add_chain-IsValid :
    (env : Env) (chain : AuditChain) (t : Trail)
    → All (λ e. in_chain (some chain.id) e ≡ false) t.audit_events
    → IsValid env (add_chain chain t)
add_chain-IsValid env chain t fresh c is_chain =
    subst
      (λ (k : AuditChain). verify_events env true (chain_events (some k.id) t.audit_events) ≡ true)
      same (no_rows env chain.id t.audit_events fresh)
  where
    same : chain ≡ c
    same = cc

module _ (env : Env) (now : ℕ) (ack : Text) (s : Session)
    (described : ltb (length (strip ack)) 12 ≡ false) (inactive : s.work.trail.audit_chain ≡ none)
    (fresh : IsFresh s) where
  abbrev first_result : Initialization
  first_result = record {
    dry_run = false;
    archived = chain_events none s.work.trail.audit_events;
    archive_hash = env.archive_sha256 (chain_events none s.work.trail.audit_events);
    canonical_chain_id = none;
  }

  begins :
      initialize_canonical_chain env now ack false s
      ≡ (ok (begin_chain env now ack first_result s).0, (begin_chain env now ack first_result s).1)
  unfolding initialize_canonical_chain
  begins =
      let blank : is_some s.work.trail.audit_chain ≡ false = ap is_some inactive in
      rw (described, blank)

  begun_verifies : verify_audit_chain env (begin_chain env now ack first_result s).1 ≡ true
  unfolding begin_chain append_audit
  begun_verifies =
      IsValid-verify_audit_chain env (begin_chain env now ack first_result s).1 _ still (
        append_event-IsValid env now _ _ (
          add_chain-IsValid env
            (new_chain s.work.trail.next_id ack (env.archive_sha256 first_result.archived))
            s.work.trail fresh))
    where
      still :
          (begin_chain env now ack first_result s).1.work.trail.audit_chain
          ≡ some (new_chain s.work.trail.next_id ack (env.archive_sha256 first_result.archived))
      still = unfold append_event in refl

-- With an acknowledgement of at least twelve characters, no active chain and a fresh identifier,
-- the call returns a result that archives the events of no chain in the order of their times, the
-- new chain verifies, all is committed, and every event that was there before still is, with one
-- more behind them.
pub initialize-verify :
    (env : Env) (now : ℕ) (ack : Text) (s : Session)
    → ltb (length (strip ack)) 12 ≡ false
    → s.work.trail.audit_chain ≡ none
    → IsFresh s
    → let out = initialize_canonical_chain env now ack false s in
      (verify_audit_chain env out.1 ≡ true)
      × (out.1.durable ≡ out.1.work)
      × ((e : AuditEvent) × (out.1.work.trail.audit_events ≡ s.work.trail.audit_events ++ e ∷ []))
      × ((r : Initialization) × (out.0 ≡ ok r)
          × (r.archived ≡ chain_events none s.work.trail.audit_events))
unfolding begin_chain append_audit append_event
initialize-verify env now ack s described inactive fresh =
    rw (begins env now ack s described inactive fresh)
      (begun_verifies env now ack s described inactive fresh, refl, (_, refl), (_, refl, refl))
