-- ===== src/Audit/Append.antt =====
-- `append_audit` and the validity of the active chain.
use dse_auto.Common.{
  ℕ, ◌+◌, ◌≡◌, refl, sym, true, some, List, [], ◌∷◌, ◌++◌, String, arith, length, All, eq_iff,
  keep-append, ◌∙◌, keep,
}
use dse_auto.Common.Sorted.{last?, order_by, order_by-append, All-order_by}
use dse_auto.Store.{AuditEvent, AuditChain, Trail, Session}
use dse_auto.Env.{Env}
use dse_auto.Audit.{
  Entry, verify_from, verify_events, event_ok, in_chain, chain_events, by_sequence, sequence_of,
  next_sequence, hash_of, zero_hash, draft, seal, append_event, append_audit, canonical,
}
use dse_auto.Audit.Verify.{
  end_hash, hash_of-last, verify_from-append, next_sequence-verified, sequences_below,
}

-- The events of the active chain verify.
abbrev pub IsValid : Env → Trail → Type 0
IsValid env t =
    (c : AuditChain)
    → t.audit_chain ≡ some c
    → verify_events env true (chain_events (some c.id) t.audit_events) ≡ true

-- The sequence number that a verified chain's next event takes.
next-verified :
    (env : Env) (c : ℕ) (es : List AuditEvent)
    → verify_events env true es ≡ true
    → next_sequence (some c) (last? es) ≡ some (1 + length es)
unfolding verify_events
next-verified env c [] v = refl
next-verified env c (x ∷ es) v = next_sequence-verified env c zero_hash 1 x es v

event_ok_intro :
    (env : Env) (previous : String) (n : ℕ) (e : AuditEvent)
    → e.previous_hash ≡ previous
    → e.sequence ≡ some n
    → e.integrity_hash ≡ env.sha256 (canonical e true)
    → event_ok env true previous n e ≡ true
event_ok_intro env previous n e p q r = ground (
  arith,
  (eq_iff e.previous_hash previous).1 p,
  (eq_iff (env.sha256 (canonical e true)) e.integrity_hash).1 (sym r),
)

module _ (env : Env) (now : ℕ) (entry : Entry) (t : Trail) (c : AuditChain)
    (active : t.audit_chain ≡ some c) where
  abbrev old : List AuditEvent
  old = chain_events (some c.id) t.audit_events

  abbrev new : AuditEvent
  new = seal env (draft now t entry)

  new-sequence : new.sequence ≡ next_sequence (some c.id) (last? old)
  unfolding seal draft
  new-sequence = rw active

  new-previous : new.previous_hash ≡ hash_of (last? old)
  unfolding seal draft
  new-previous = rw active

  new-in_chain : in_chain (some c.id) new ≡ true
  unfolding seal draft
  new-in_chain = rw active (ground arith)

  new-hash : new.integrity_hash ≡ env.sha256 (canonical new true)
  unfolding seal draft canonical
  new-hash = rw active

  module _ (valid : verify_events env true old ≡ true) where
    new-number : new.sequence ≡ some (1 + length old)
    new-number = new-sequence ∙ next-verified env c.id old valid

    new_ok : event_ok env true (end_hash zero_hash old) (1 + length old) new ≡ true
    new_ok = event_ok_intro env _ _ new (new-previous ∙ hash_of-last old) new-number new-hash

    old_below : All (λ x. by_sequence x new ≡ true) (keep (in_chain (some c.id)) t.audit_events)
    old_below =
        All-order_by by_sequence (λ x. by_sequence x new ≡ true)
          (keep (in_chain (some c.id)) t.audit_events)
          (rows-order (
            sequences_below env zero_hash 1 old new verified
              (let k : sequence_of new ≡ 1 + length old = rw new-number in omega arith)))
      where
        verified : verify_from env true zero_hash 1 old ≡ true
        verified = unfold verify_events in valid

        rows-order :
            All (λ x. by_sequence x new ≡ true) old
            → All
                (λ x. by_sequence x new ≡ true)
                (order_by by_sequence (keep (in_chain (some c.id)) t.audit_events))
        rows-order h = unfold chain_events in h

    appended : chain_events (some c.id) (t.audit_events ++ new ∷ []) ≡ old ++ new ∷ []
    unfolding chain_events
    appended =
        rw (keep-append (in_chain (some c.id)) t.audit_events new new-in_chain)
          (order_by-append by_sequence new (keep (in_chain (some c.id)) t.audit_events) old_below)

    append-valid :
        verify_events env true (chain_events (some c.id) (t.audit_events ++ new ∷ [])) ≡ true
    unfolding verify_events
    append-valid = rw appended (verify_from-append env true zero_hash 1 old new valid new_ok)

-- Whatever entry is appended, the active chain still verifies.
pub append_event-IsValid :
    (env : Env) (now : ℕ) (entry : Entry) (t : Trail)
    → IsValid env t
    → IsValid env (append_event env now entry t)
unfolding append_event
append_event-IsValid env now entry t h c active = append-valid env now entry t c active (h c active)

-- After `append_audit`, with whatever entry, the active chain of the session still verifies, and
-- when there is an active chain the verified rows are the committed ones.
pub append_audit-IsValid :
    (env : Env) (now : ℕ) (entry : Entry) (s : Session) (c : AuditChain)
    → s.work.trail.audit_chain ≡ some c
    → IsValid env s.work.trail
    → IsValid env (append_audit env now entry s).work.trail
      × ((append_audit env now entry s).durable ≡ (append_audit env now entry s).work)
unfolding append_audit
append_audit-IsValid env now entry s c active h =
    (append_event-IsValid env now entry s.work.trail h, rw active)
