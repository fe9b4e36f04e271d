-- ===== src/Audit/Status.antt =====
-- `audit_status` and `verify_audit_chain`.
use dse_auto.Common.{
  ℕ, ◌+◌, ◌≡◌, sym, Bool, true, false, not, ◌&&◌, Option, none, some, List, [], ◌∷◌, String, str_eq,
  ltb, if◌then◌else◌, keep, length, count_if,
}
use mathlib.Core.Path.{subst}
use dse_auto.Store.{AuditEvent, AuditChain, Session}
use dse_auto.Env.{Env}
use dse_auto.Audit.{Entry, append_audit, append_event, in_chain, chain_events, verify_events}
use dse_auto.Audit.Append.{append_audit-IsValid, IsValid}

-- legacy_successors[h] = legacy_successors.get(h, 0) + 1
abbrev pub add_successor : String → List (String × ℕ) → List (String × ℕ)
add_successor h [] = (h, 1) ∷ []
add_successor h ((k, n) ∷ rest) =
    if str_eq k h then (k, n + 1) ∷ rest else (k, n) ∷ add_successor h rest

-- The loop that fills `legacy_successors`.
pub legacy_successors : List (String × ℕ) → List AuditEvent → List (String × ℕ)
legacy_successors acc [] = acc
legacy_successors acc (event ∷ events) =
    legacy_successors (add_successor event.previous_hash acc) events

-- len(branches)
pub legacy_branch_count : List AuditEvent → ℕ
unfolding legacy_successors
legacy_branch_count legacy = count_if (λ (_, n). ltb 1 n) (legacy_successors [] legacy)

pub record AuditStatus : Type 0 where
  pub canonical_initialized : Bool
  pub canonical_chain_id : Option ℕ
  pub canonical_valid : Bool
  pub canonical_events : ℕ
  pub legacy_events : ℕ
  pub legacy_branch_count : ℕ
  pub archive_hash : Option String
  pub ready : Bool

status_of : Env → List AuditEvent → Option AuditChain → AuditStatus
unfolding legacy_branch_count
status_of env events none =
    let legacy = keep (in_chain none) events in
    record {
      canonical_initialized = false;
      canonical_chain_id = none;
      canonical_valid = false;
      canonical_events = 0;
      legacy_events = length legacy;
      legacy_branch_count = legacy_branch_count legacy;
      archive_hash = none;
      ready = false;
    }
status_of env events (some chain) =
    let legacy = keep (in_chain none) events in
    let canonical = chain_events (some chain.id) events in
    let valid = verify_events env true canonical in
    record {
      canonical_initialized = true;
      canonical_chain_id = some chain.id;
      canonical_valid = valid;
      canonical_events = length canonical;
      legacy_events = length legacy;
      legacy_branch_count = legacy_branch_count legacy;
      archive_hash = some chain.legacy_archive_hash;
      ready = valid;
    }

unfoldable pub audit_status : Env → Session → AuditStatus
unfolding status_of
audit_status env s = status_of env s.work.trail.audit_events s.work.trail.audit_chain

-- The verdict from the status of the rows.
verdict : Env → List AuditEvent → Option AuditChain → Bool
unfolding status_of
verdict env events chain =
    let status = status_of env events chain in
    if status.canonical_initialized
    then status.ready
    else not (ltb 0 status.legacy_branch_count)
      && verify_events env false (chain_events none events)

unfoldable pub verify_audit_chain : Env → Session → Bool
unfolding verdict
verify_audit_chain env s = verdict env s.work.trail.audit_events s.work.trail.audit_chain

-- A verified session with an active chain has valid events.
pub verify_audit_chain-IsValid :
    (env : Env) (s : Session) (c : AuditChain)
    → s.work.trail.audit_chain ≡ some c
    → verify_audit_chain env s ≡ true
    → IsValid env s.work.trail
unfolding verify_audit_chain
verify_audit_chain-IsValid env s c active v d also =
    subst (λ k. verdict env s.work.trail.audit_events k ≡ true) also v

pub IsValid-verify_audit_chain :
    (env : Env) (s : Session) (c : AuditChain)
    → s.work.trail.audit_chain ≡ some c
    → IsValid env s.work.trail
    → verify_audit_chain env s ≡ true
unfolding verify_audit_chain
IsValid-verify_audit_chain env s c active h =
    subst (λ k. verdict env s.work.trail.audit_events k ≡ true) (sym active) (h c active)

-- Where `verify_audit_chain` accepts a session that has an active chain, it accepts the session
-- after `append_audit` with any entry at any time, and that session has no uncommitted row.
pub append_audit-verify :
    (env : Env) (now : ℕ) (entry : Entry) (s : Session) (c : AuditChain)
    → s.work.trail.audit_chain ≡ some c
    → verify_audit_chain env s ≡ true
    → (verify_audit_chain env (append_audit env now entry s) ≡ true)
      × ((append_audit env now entry s).durable ≡ (append_audit env now entry s).work)
append_audit-verify env now entry s c active v =
    let (valid, saved) =
      append_audit-IsValid env now entry s c active (verify_audit_chain-IsValid env s c active v) in
    (IsValid-verify_audit_chain env (append_audit env now entry s) c still valid, saved)
  where
    still : (append_audit env now entry s).work.trail.audit_chain ≡ some c
    still = unfold append_audit append_event in active
