-- ===== src/Events/Dispatch.antt =====
-- `dispatch_once`: claim an event, give it to every consumer, and commit; or roll back and record
-- the failure.
use dse_auto.Common.{
  ℕ, ◌+◌, ◌-◌, ◌*◌, ◌^◌, Option, none, some, List, [], ◌∷◌, String, leb, if◌then◌else◌, Result, ok,
  raise, Error,
}
use dse_auto.Store.{
  OutboxEvent, EventDelivery, Session, commit, rollback, retry, delivered, dead_letter,
}
use dse_auto.Events.{modify_event, find_id, set_outbox}
use dse_auto.Events.Claim.{claim_event}
use dse_auto.Events.Deliver.{Consumer, deliver_event}

-- f"{type(exc).__name__}: {exc}", without the message
abbrev pub error_text : Error → String
error_text (Error.value_error s) = s
error_text (Error.runtime_error s) = s
error_text (Error.key_error s) = s
error_text (Error.provider_error s) = s
error_text (Error.permission_error s) = s
error_text (Error.http_error code s) = s
error_text Error.other_error = "Exception"

-- An exception of one delivery leaves the loop.
abbrev pub then_all :
    Result EventDelivery × Session
    → (Session → Result (Unit {0}) × Session)
    → Result (Unit {0}) × Session
then_all (ok _, s) rest = rest s
then_all (raise x, s) rest = (raise x, s)

-- `for name, consumer in consumers.items()`
unfoldable pub deliver_all :
    OutboxEvent → List (String × Consumer) → Session → Result (Unit {0}) × Session
deliver_all e [] s = (ok tt, s)
deliver_all e ((name, consumer) ∷ rest) s =
    then_all (deliver_event e name consumer s) (λ s'. deliver_all e rest s')

-- What is written when every consumer has returned.
abbrev pub mark_delivered : ℕ → OutboxEvent → OutboxEvent
mark_delivered current e = record e {
  state = delivered;
  delivered_at = some current;
  lease_owner = none;
  lease_expires_at = none;
}

-- What is written to the event as it was last committed; `max(attempts - 1, 0)` is `attempts - 1`.
abbrev pub mark_failed : ℕ → Error → OutboxEvent → OutboxEvent
mark_failed current exc e =
    let failed = record e {
      last_error = some (error_text exc);
      lease_owner = none;
      lease_expires_at = none;
    } in
    if leb e.max_attempts e.attempts
    then record failed { state = dead_letter }
    else record failed { state = retry; available_at = current + 2 ^ (e.attempts - 1) * 1000000 }

-- The `except` block: the session is rolled back first.
unfoldable pub handle_failure :
    ℕ → OutboxEvent → Error → Session → Result (Option OutboxEvent) × Session
handle_failure current e exc s =
    let outbox = s.durable.trail.outbox in
    elim (find_id e.id outbox) [
      | none ↦ (raise exc, rollback s)
      | some failed ↦ (
        ok (some (mark_failed current exc failed)),
        commit (set_outbox (modify_event e.id (mark_failed current exc) outbox) (rollback s)),
      )
    ]

-- After the loop over the consumers.
abbrev pub settle :
    ℕ → OutboxEvent → Result (Unit {0}) × Session → Result (Option OutboxEvent) × Session
settle current e (ok _, s) =
    let outbox = modify_event e.id (mark_delivered current) s.work.trail.outbox in
    (ok (find_id e.id outbox), commit (set_outbox outbox s))
settle current e (raise exc, s) = handle_failure current e exc s

-- After the claim, with the default lease of 60 seconds.
abbrev pub dispatch_claimed :
    ℕ
    → List (String × Consumer)
    → Option OutboxEvent × Session
    → Result (Option OutboxEvent) × Session
dispatch_claimed current consumers (none, s) = (ok none, s)
dispatch_claimed current consumers (some e, s) = settle current e (deliver_all e consumers s)

unfoldable pub dispatch_once :
    ℕ → String → List (String × Consumer) → Session → Result (Option OutboxEvent) × Session
dispatch_once current dispatcher consumers s =
    dispatch_claimed current consumers (claim_event current dispatcher 60 s)
