-- ===== src/Audit/Frame.antt =====
-- The frame of `append_audit`: the tables outside the audit rows.
use dse_auto.Common.{ℕ, ◌≡◌, refl}
use dse_auto.Store.{Session}
use dse_auto.Env.{Env}
use dse_auto.Audit.{Entry, append_audit, append_event}

pub append_audit-books :
    (env : Env) (now : ℕ) (entry : Entry) (s : Session)
    → (append_audit env now entry s).work.books ≡ s.work.books
unfolding append_audit
append_audit-books env now entry s = refl

pub append_audit-outbox :
    (env : Env) (now : ℕ) (entry : Entry) (s : Session)
    → (append_audit env now entry s).work.trail.outbox ≡ s.work.trail.outbox
unfolding append_audit append_event
append_audit-outbox env now entry s = refl

pub append_audit-chain :
    (env : Env) (now : ℕ) (entry : Entry) (s : Session)
    → (append_audit env now entry s).work.trail.audit_chain ≡ s.work.trail.audit_chain
unfolding append_audit append_event
append_audit-chain env now entry s = refl
