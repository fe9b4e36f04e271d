-- ===== src/Events/Retries.antt =====
-- What a dispatch does to the event that it claimed.
use dse_auto.Common.{
  ℕ, ◌≡◌, refl, ap, true, none, some, List, [], ◌∷◌, ◌++◌, String, arith, Bool-cases, Option-cases,
  inl, inr, ◌==◌, str_eq, eq_iff, if◌then◌else◌, Result, ok, raise, Error, leb, ◌&&◌,
}
use dse_auto.Common.Keys.{Json}
use dse_auto.Store.{OutboxEvent, EventDelivery, Session, commit, rollback, dead_letter, retry}
use dse_auto.Events.{modify_event, find_id, set_outbox}
use dse_auto.Events.Claim.{claim_event}
use dse_auto.Events.Deliver.{
  Consumer, deliver_event, find_delivery, new_delivery, record_delivery, after_consumer,
}
use dse_auto.Events.Dispatch.{dispatch_once, deliver_all, handle_failure, mark_failed}

find_delivery-append :
    (e : OutboxEvent) (name : String) (result : Json) (ds : List EventDelivery)
    → (d : EventDelivery) × (find_delivery e.id name (ds ++ new_delivery e name result ∷ [])
        ≡ some d)
unfolding find_delivery
find_delivery-append e name result [] =
    (new_delivery e name result, ground (arith, eq_iff name name))
find_delivery-append e name result (d ∷ ds) =
    elim (Bool-cases (d.event_id == e.id && str_eq d.consumer name)) [
      | inl this ↦ (d, rw this)
      | inr other ↦ let (d', h) = find_delivery-append e name result ds in (d', rw other h)
    ]

deliver_old :
    (e : OutboxEvent) (name : String) (consumer : Consumer) (s : Session) {d : EventDelivery}
    → find_delivery e.id name s.work.trail.deliveries ≡ some d
    → deliver_event e name consumer s ≡ (ok d, s)
unfolding deliver_event
deliver_old e name consumer s h = rw (h, deliver_event)

deliver_new :
    (e : OutboxEvent) (name : String) (consumer : Consumer) (s : Session)
    → find_delivery e.id name s.work.trail.deliveries ≡ none
    → deliver_event e name consumer s ≡ after_consumer e name (consumer s e)
unfolding deliver_event
deliver_new e name consumer s h = rw (h, deliver_event)

deliver_twice :
    (e : OutboxEvent) (name : String) (consumer' : Consumer) (r : Result Json × Session)
    → {d : EventDelivery} → (after_consumer e name r).0 ≡ ok d
    → (d' : EventDelivery) × (deliver_event e name consumer' (after_consumer e name r).1
        ≡ (ok d', (after_consumer e name r).1))
deliver_twice e name consumer' (raise x, s) h = cc
deliver_twice e name consumer' (ok result, s) h =
    let (d', found) = find_delivery-append e name result s.work.trail.deliveries in
    (d', deliver_old e name consumer' (record_delivery (new_delivery e name result) s) found)

-- A consumer that returned is not called again for the event: a second delivery, even with another
-- function under that name, returns a recorded delivery and changes nothing.
pub deliver_event-once :
    (e : OutboxEvent) (name : String) (consumer consumer' : Consumer) (s : Session)
    → {d : EventDelivery} → (deliver_event e name consumer s).0 ≡ ok d
    → (d' : EventDelivery) × (deliver_event e name consumer' (deliver_event e name consumer s).1
        ≡ (ok d', (deliver_event e name consumer s).1))
deliver_event-once e name consumer consumer' s h =
    elim (Option-cases (find_delivery e.id name s.work.trail.deliveries)) [
      | inl absent ↦
          let as_new = deliver_new e name consumer s absent in
          rw as_new (deliver_twice e name consumer' (consumer s e) (rw as_new at h))
      | inr (d', found) ↦
          let as_old = deliver_old e name consumer s found in
          rw as_old (d', deliver_old e name consumer' s found)
    ]

find_id-modify :
    (id : ℕ) (f : OutboxEvent → OutboxEvent) (es : List OutboxEvent) {row : OutboxEvent}
    → ((e : OutboxEvent) → (f e).id ≡ e.id)
    → find_id id es ≡ some row
    → find_id id (modify_event id f es) ≡ some (f row)
find_id-modify id f [] keeps h = cc
find_id-modify id f (e ∷ es) {row} keeps h = elim (Bool-cases (e.id == id)) [
  | inl this ↦
      let same : e ≡ row = ground arith in
      let hit : ((f e).id == id) ≡ true = ground (arith, keeps e) in
      rw this (rw hit (ap some (ap f same)))
  | inr other ↦ rw other (rw other (find_id-modify id f es keeps (rw other at h)))
]

mark_failed-id :
    (current : ℕ) (exc : Error) (e : OutboxEvent) → (mark_failed current exc e).id ≡ e.id
mark_failed-id current exc e = ground arith

failure_at :
    (current : ℕ) (e : OutboxEvent) (exc : Error) (s : Session) {row : OutboxEvent}
    → find_id e.id s.durable.trail.outbox ≡ some row
    → handle_failure current e exc s ≡ (
      ok (some (mark_failed current exc row)),
      commit (
          set_outbox
            (modify_event e.id (mark_failed current exc) s.durable.trail.outbox)
            (rollback s)),
    )
unfolding handle_failure
failure_at current e exc s h = rw (h, handle_failure)

-- A dispatch whose consumers raise without having committed, of an event that was committed as
-- `row`: the event is committed again with the attempts of `row`, so this attempt is not counted,
-- and it goes to the dead letters only if the attempts of `row` had already reached the maximum.
pub failed_dispatch-attempts :
    (current : ℕ) (dispatcher : String) (consumers : List (String × Consumer)) (s : Session)
    → {e row : OutboxEvent} {s1 s2 : Session} {exc : Error}
    → claim_event current dispatcher 60 s ≡ (some e, s1)
    → deliver_all e consumers s1 ≡ (raise exc, s2)
    → s2.durable ≡ s.durable
    → find_id e.id s.durable.trail.outbox ≡ some row
    → let out = (dispatch_once current dispatcher consumers s).1 in
      (out.durable ≡ out.work)
      × ((row' : OutboxEvent) × (find_id e.id out.durable.trail.outbox ≡ some row')
          × (row'.attempts ≡ row.attempts)
          × (row'.state ≡ (if leb row.max_attempts row.attempts then dead_letter else retry)))
unfolding dispatch_once
failed_dispatch-attempts current dispatcher consumers s {e} {row} {s1} {s2} {exc} claimed failed
      uncommitted stored =
    let stored' : find_id e.id s2.durable.trail.outbox ≡ some row = rw uncommitted stored in
    rw (claimed, failed)
      (rw (failure_at current e exc s2 stored') (
        refl,
        (
          mark_failed current exc row,
          find_id-modify e.id (mark_failed current exc) s2.durable.trail.outbox
              (mark_failed-id current exc) stored',
          ground arith,
          ground arith,
        ),
      ))
