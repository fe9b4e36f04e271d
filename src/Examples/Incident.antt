-- ===== src/Examples/Incident.antt =====
-- Incidents.
use dse_auto.Common.{refl, none, some, [], ◌∷◌}
use dse_auto.Common.Keys.{obj, done}
use dse_auto.Incidents.{OperationalIncident, IncidentDb, open_state, transition_incident}
use dse_auto.Incidents.Linked.{IsLinked, transition_incident-IsLinked}
use dse_auto.Examples.Samples.{env0, session0, entry0}
use dse_auto.Store.{Session}
use dse_auto.Audit.{append_audit, append_event, draft, seal}

abbrev incident0 : OperationalIncident
incident0 = record {
  id = 40;
  campaign_id = none;
  incident_type = "stale_data";
  state = open_state;
  severity = "high";
  opened_at = 1;
  acknowledged_at = none;
  resolved_at = none;
  owner = none;
  root_cause = none;
  remediation = none;
  evidence = obj done;
  linked_audit_events = session0.work.trail.next_id ∷ [];
}

-- The session with the audit event that the incident names.
abbrev linked0 : Session
linked0 = append_audit env0 3 entry0 session0

abbrev incidents0 : IncidentDb
incidents0 = record {
  incidents = incident0 ∷ [];
  durable_incidents = incident0 ∷ [];
  session = linked0;
}

abbrev resolved_run : IncidentDb
resolved_run =
    (transition_incident env0 5 incident0 "resolved" (some "operator") none none incidents0).1

transition_incident-IsLinked_example :
    IsLinked resolved_run.session.work.trail.audit_events resolved_run.incidents
unfolding append_audit append_event draft seal
transition_incident-IsLinked_example =
    transition_incident-IsLinked env0 5 incident0 "resolved" (some "operator") none none incidents0
      ((refl, tt), ((refl, tt), tt))
