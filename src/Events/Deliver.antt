-- ===== src/Events/Deliver.antt =====
-- `deliver_event`: one consumer gets one event, once.
use dse_auto.Common.{
  ℕ, ◌&&◌, Option, none, some, List, [], ◌∷◌, ◌++◌, String, str_eq, ◌==◌, if◌then◌else◌, Result, ok,
  raise,
}
use dse_auto.Common.Keys.{Key, Json, num, letters}
use dse_auto.Store.{OutboxEvent, EventDelivery, Session, set_trail}

-- A consumer is code outside this module; it may write to the session and may raise.
abbrev pub Consumer : Type 0
Consumer = Session → OutboxEvent → Result Json × Session

unfoldable pub find_delivery : ℕ → String → List EventDelivery → Option EventDelivery
find_delivery id name [] = none
find_delivery id name (d ∷ ds) =
    if d.event_id == id && str_eq d.consumer name then some d else find_delivery id name ds

-- f"{event.id}:{consumer_name}:v{event.schema_version}"
abbrev pub effect_key : OutboxEvent → String → Key
effect_key e name = num e.id ∷ letters name ∷ num e.schema_version ∷ []

abbrev pub new_delivery : OutboxEvent → String → Json → EventDelivery
new_delivery e name result = record {
  event_id = e.id;
  consumer = name;
  effect_key = effect_key e name;
  result = result;
}

abbrev pub record_delivery : EventDelivery → Session → Session
record_delivery d s =
    set_trail (record s.work.trail { deliveries = s.work.trail.deliveries ++ d ∷ [] }) s

-- What follows the call of the consumer.
abbrev pub after_consumer :
    OutboxEvent → String → Result Json × Session → Result EventDelivery × Session
after_consumer e name (ok result, s) =
    (ok (new_delivery e name result), record_delivery (new_delivery e name result) s)
after_consumer e name (raise x, s) = (raise x, s)

unfoldable pub deliver_event :
    OutboxEvent → String → Consumer → Session → Result EventDelivery × Session
deliver_event e name consumer s = elim (find_delivery e.id name s.work.trail.deliveries) [
  | some existing ↦ (ok existing, s)
  | none ↦ after_consumer e name (consumer s e)
]
