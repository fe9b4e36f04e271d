-- ===== src/Examples/Trails.antt =====
-- The audit chain and the outbox.
use dse_auto.Common.{
  ◌≡◌, ◌≢◌, inl, inr, eq_iff, refl, true, false, ◌++◌, none, some, List, [], ◌∷◌, ok, raise,
  other_error, arith, ltb, length, String,
}
use dse_auto.Common.Text.{Text, strip, strip_left, is_space}
use dse_auto.Common.Keys.{null, letters, num}
use dse_auto.Common.Sorted.{order_by, insert}
use dse_auto.Store.{Session, AuditEvent, OutboxEvent, EventDelivery, retry}
use dse_auto.Audit.{
  verify_from, append_audit, append_event, draft, seal, canonical, verify_events, zero_hash, Entry,
}
use dse_auto.Audit.Verify.{end_hash}
use dse_auto.Audit.Status.{verify_audit_chain, append_audit-verify}
use dse_auto.Audit.Tamper.{tamper_evident, Collides, AreSame}
use dse_auto.Audit.Init.{Initialization, initialize_canonical_chain, initialize-verify}
use dse_auto.Audit.{chain_events}
use dse_auto.Events.{EventArgs, find_key, stage_event, find_id}
use dse_auto.Events.Staged.{stage_event-KeysDiffer, stage_event-again, KeysDiffer}
use dse_auto.Events.Claim.{lease, claim_event, claim_query}
use dse_auto.Events.Leases.{claim_event-exclusive}
use dse_auto.Events.Deliver.{deliver_event, new_delivery, find_delivery}
use dse_auto.Events.Dispatch.{dispatch_once, deliver_all}
use dse_auto.Events.Retries.{deliver_event-once, failed_dispatch-attempts}
use dse_auto.Examples.Samples.{
  env0, session0, session_with, chain0, entry0, event_args0, accepting, refusing, event0, event1,
}

append_audit-verify_example :
    (verify_audit_chain env0 (append_audit env0 5 entry0 session0) ≡ true)
    × ((append_audit env0 5 entry0 session0).durable ≡ (append_audit env0 5 entry0 session0).work)
unfolding verify_audit_chain verify_events chain_events order_by verify_from
append_audit-verify_example = append_audit-verify env0 5 entry0 session0 chain0 refl verified
  where
    verified : verify_audit_chain env0 session0 ≡ true
    verified = refl

-- The rows of a chain of two events, and of one that ends in another event.
abbrev chain_of_two : List AuditEvent
chain_of_two =
    (append_audit env0 9 entry0 (append_audit env0 5 entry0 session0)).work.trail.audit_events

abbrev forged0 : Entry
forged0 = record entry0 { event_type = "forged" }

abbrev forged_chain : List AuditEvent
forged_chain =
    (append_audit env0 9 forged0 (append_audit env0 5 entry0 session0)).work.trail.audit_events

tamper_evident_example : end_hash zero_hash chain_of_two ≢ end_hash zero_hash forged_chain
unfolding verify_events append_audit append_event draft seal chain_events order_by insert
    verify_from canonical
tamper_evident_example =
    tamper_evident env0 chain_of_two forged_chain refl verified forged_verified apart differ
  where
    verified : verify_events env0 true chain_of_two ≡ true
    verified = refl

    forged_verified : verify_events env0 true forged_chain ≡ true
    forged_verified = refl

    note : String
    note = "note"

    forged : String
    forged = "forged"

    other_types : note ≢ forged
    other_types e = ground (arith, (eq_iff note forged).1 e)

    apart : Collides env0 chain_of_two forged_chain → ⊥
    apart (inl (other, _)) = other refl
    apart (inr (inl (_, digests))) = other_types digests
    apart (inr (inr more)) = absurd more

    differ : AreSame chain_of_two forged_chain → ⊥
    differ (_, (last, _)) = other_types last.event_type

-- Twelve letters.
abbrev acknowledgement : Text
acknowledgement = 97 ∷ 97 ∷ 97 ∷ 97 ∷ 97 ∷ 97 ∷ 97 ∷ 97 ∷ 97 ∷ 97 ∷ 97 ∷ 97 ∷ []

abbrev unchained : Session
unchained = session_with none [] []

initialize-verify_example :
    (let out = initialize_canonical_chain env0 5 acknowledgement false unchained in
      (verify_audit_chain env0 out.1 ≡ true)
      × (out.1.durable ≡ out.1.work)
      × ((e : AuditEvent) × (out.1.work.trail.audit_events
            ≡ unchained.work.trail.audit_events ++ e ∷ []))
      × ((r : Initialization) × (out.0 ≡ ok r)
          × (r.archived ≡ chain_events none unchained.work.trail.audit_events)))
unfolding strip strip_left is_space
initialize-verify_example = initialize-verify env0 5 acknowledgement unchained long_enough refl tt
  where
    long_enough : ltb (length (strip acknowledgement)) 12 ≡ false
    long_enough = refl

stage_event-again_example :
    stage_event 9 event_args0 (stage_event 5 event_args0 session0).1
    ≡ stage_event 5 event_args0 session0
stage_event-again_example = stage_event-again 5 9 event_args0 event_args0 session0 refl

-- A session that holds one event.
abbrev one_event : Session
one_event = session_with (some chain0) [] (event0 ∷ [])

abbrev two_events : Session
two_events = session_with (some chain0) [] (event0 ∷ event1 ∷ [])

-- A third event behind the two, by its key.
abbrev third_args : EventArgs
third_args = record event_args0 { idempotency_key = letters "signal" ∷ num 7 ∷ [] }

stage_event-KeysDiffer_example :
    KeysDiffer (stage_event 5 third_args two_events).1.work.trail.outbox
stage_event-KeysDiffer_example = stage_event-KeysDiffer 5 third_args two_events differ
  where
    differ : KeysDiffer two_events.work.trail.outbox
    differ = ((refl, tt), (tt, tt))

-- The outbox then holds three events.
staged_run : length (stage_event 5 third_args two_events).1.work.trail.outbox ≡ 3
unfolding stage_event find_key
staged_run = refl

claim_event-exclusive_example : (lease 20 "other" 60 event1).id ≢ (lease 10 "first" 60 event0).id
unfolding claim_event claim_query order_by insert
claim_event-exclusive_example =
    claim_event-exclusive 10 20 60 60 "first" "other" two_events {e = lease 10 "first" 60 event0}
      {e' = lease 20 "other" 60 event1} first_claim (ground arith) second_claim
  where
    first_claim : (claim_event 10 "first" 60 two_events).0 ≡ some (lease 10 "first" 60 event0)
    first_claim = refl

    second_claim :
        (claim_event 20 "other" 60 (claim_event 10 "first" 60 two_events).1).0
        ≡ some (lease 20 "other" 60 event1)
    second_claim = refl

deliver_event-once_example :
    (d' : EventDelivery) × (deliver_event event0 "book" refusing
        (deliver_event event0 "book" accepting one_event).1
      ≡ (ok d', (deliver_event event0 "book" accepting one_event).1))
unfolding deliver_event find_delivery
deliver_event-once_example =
    deliver_event-once event0 "book" accepting refusing one_event
      {d = new_delivery event0 "book" null} returned
  where
    returned :
        (deliver_event event0 "book" accepting one_event).0 ≡ ok (new_delivery event0 "book" null)
    returned = refl

failed_dispatch-attempts_example :
    (let out = (dispatch_once 10 "first" (("book", refusing) ∷ []) one_event).1 in
      (out.durable ≡ out.work)
      × ((row' : OutboxEvent) × (find_id 1 out.durable.trail.outbox ≡ some row')
          × (row'.attempts ≡ 0)
          × (row'.state ≡ retry)))
unfolding claim_event claim_query order_by insert deliver_all deliver_event find_delivery
failed_dispatch-attempts_example =
    failed_dispatch-attempts 10 "first" (("book", refusing) ∷ []) one_event
      {e = lease 10 "first" 60 event0} {row = event0} {s1 = (claim_event 10 "first" 60 one_event).1}
      {s2 = (claim_event 10 "first" 60 one_event).1} {exc = other_error} claimed raised kept found
  where
    claimed :
        claim_event 10 "first" 60 one_event
        ≡ (some (lease 10 "first" 60 event0), (claim_event 10 "first" 60 one_event).1)
    claimed = refl

    raised :
        deliver_all
          (lease 10 "first" 60 event0)
          (("book", refusing) ∷ [])
          (claim_event 10 "first" 60 one_event).1
        ≡ (raise other_error, (claim_event 10 "first" 60 one_event).1)
    raised = refl

    kept : (claim_event 10 "first" 60 one_event).1.durable ≡ one_event.durable
    kept = refl

    found : find_id 1 one_event.durable.trail.outbox ≡ some event0
    found = refl
