-- ===== src/Incidents/Linked.antt =====
-- The audit events that an incident names.
use dse_auto.Common.{
  ℕ, ◌≡◌, Bool, true, Option, List, [], ◌∷◌, ◌++◌, String, arith, All, All-snoc, Option-cases, inl,
  inr, if_rule, Result, any, ◌==◌,
}
use dse_auto.Store.{AuditEvent}
use dse_auto.Env.{Env}
use dse_auto.Audit.{append_audit, append_event, draft, seal}
use dse_auto.Incidents.{
  OperationalIncident, IncidentDb, transition_incident, write_move, may_move, find_state,
  incident_states, put_incident,
}

-- Some audit event has the identifier.
abbrev pub is_event : List AuditEvent → ℕ → Bool
is_event es id = any (λ (e : AuditEvent). e.id == id) es

-- Every audit event that an incident of the table names exists.
abbrev pub IsLinked : List AuditEvent → List OperationalIncident → Type 0
IsLinked es = All (λ i. All (λ id. is_event es id ≡ true) i.linked_audit_events)

is_event-behind :
    (es : List AuditEvent) (e : AuditEvent) (id : ℕ)
    → is_event es id ≡ true
    → is_event (es ++ e ∷ []) id ≡ true
is_event-behind [] e id h = absurd (ground arith)
is_event-behind (x ∷ es) e id h = ground (arith, is_event-behind es e id)

is_event-last : (es : List AuditEvent) (e : AuditEvent) → is_event (es ++ e ∷ []) e.id ≡ true
is_event-last [] e = ground arith
is_event-last (x ∷ es) e = ground (arith, is_event-last es e)

All-behind :
    (es : List AuditEvent) (e : AuditEvent) (ids : List ℕ)
    → All (λ id. is_event es id ≡ true) ids
    → All (λ id. is_event (es ++ e ∷ []) id ≡ true) ids
All-behind es e [] h = tt
All-behind es e (id ∷ ids) h = (is_event-behind es e id h.0, All-behind es e ids h.1)

put-IsLinked :
    (es : List AuditEvent) (e : AuditEvent) (i : OperationalIncident)
    (is : List OperationalIncident)
    → IsLinked es is
    → All (λ id. is_event (es ++ e ∷ []) id ≡ true) i.linked_audit_events
    → IsLinked (es ++ e ∷ []) (put_incident i is)
put-IsLinked es e i [] h new = tt
put-IsLinked es e i (p ∷ ps) h new = (
  if_rule
      (λ (r : OperationalIncident).
        All (λ id. is_event (es ++ e ∷ []) id ≡ true) r.linked_audit_events)
      (p.id == i.id) i p (λ _. new) (λ _. All-behind es e p.linked_audit_events h.0),
  put-IsLinked es e i ps h.1 new,
)

-- Where every audit event that the incident or an incident of the table names exists, the same holds
-- for the table after a transition of the incident, whether it moves or raises.
pub transition_incident-IsLinked :
    (env : Env) (now : ℕ) (i : OperationalIncident) (target : String)
    (owner root_cause remediation : Option String) (db : IncidentDb)
    → IsLinked db.session.work.trail.audit_events (i ∷ db.incidents)
    → let out = (transition_incident env now i target owner root_cause remediation db).1 in
      IsLinked out.session.work.trail.audit_events out.incidents
unfolding transition_incident write_move append_audit append_event draft seal
transition_incident-IsLinked env now i target owner root_cause remediation db h =
    elim (Option-cases (find_state target incident_states)) [
      | inl unknown ↦ rw (unknown, transition_incident) h.1
      | inr (k, found) ↦
          rw (found, transition_incident)
            (if_rule Kept (may_move i.state k) _ _
              (λ _. put-IsLinked es _ _ db.incidents h.1 (
                All-snoc _ i.linked_audit_events _ (All-behind es _ i.linked_audit_events h.0)
                  (is_event-last es _)))
              (λ _. h.1))
    ]
  where
    es : List AuditEvent
    es = db.session.work.trail.audit_events

    Kept : Result OperationalIncident × IncidentDb → Type 0
    Kept r = IsLinked r.1.session.work.trail.audit_events r.1.incidents
