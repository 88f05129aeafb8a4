-- ===== src/Bus/Examples.antt =====
-- The event bus at concrete inputs: tests, and the theorems at inputs that meet their hypotheses.
use zymi_core.Prelude.{ℕ, ◌≡◌, refl, true, none, some, List, [], ◌∷◌, arith, codes}
use zymi_core.Events.{Event, response_ready}
use zymi_core.Bus.{
  Subscriber, has_id, remove_id, RecentLocal, evict, record_id, contains_id, EventBus, accepts,
  try_send, fan_out, publish, redeliver, subscribe, subscribe_with_capacity, subscribe_correlation,
  add_subscriber, retain_open, recent_local_capacity,
}
use zymi_core.Bus.Ring.{IsSound, record_id-IsSound, redeliver-publish}
use zymi_core.Bus.Window.{record_ids, record_ids-contains}

abbrev event : Event
event = record {
  id = 5;
  stream_id = codes "s";
  sequence = 1;
  timestamp = 0;
  kind = response_ready (codes "s") (codes "hi");
  correlation_id = some 7;
  causation_id = none;
  source = codes "agent";
}

abbrev empty_ring : RecentLocal
empty_ring = record { set = []; queue = [] }

abbrev empty_bus : EventBus
empty_bus = record { store = []; subscribers = []; recent_local = empty_ring }

-- A place to unfold what a delivery runs through.
parts : Unit {0}
unfolding has_id remove_id evict record_id contains_id accepts try_send fan_out publish redeliver
    subscribe subscribe_with_capacity subscribe_correlation add_subscriber retain_open record_ids
parts = tt

abbrev buffers : List Subscriber → List (List Event)
buffers [] = []
buffers (sub ∷ subs) = sub.buffer ∷ buffers subs

delivers_by_correlation :
    buffers
      (publish true event
        (subscribe_correlation 8 (subscribe_correlation 7 (subscribe empty_bus)))).0.subscribers
    ≡ (event ∷ []) ∷ (event ∷ []) ∷ [] ∷ []
unfolding parts
delivers_by_correlation = refl

evicts_oldest : (record_ids 2 (1 ∷ 2 ∷ 1 ∷ 3 ∷ []) empty_ring).queue ≡ 2 ∷ 3 ∷ []
unfolding parts
evicts_oldest = refl

empty-IsSound : (capacity : ℕ) → IsSound capacity empty_ring
unfolding has_id
empty-IsSound capacity = record { bounded = omega arith; distinct = tt; same = λ id. refl }

record_id-IsSound_example : IsSound 2 (record_id 2 7 empty_ring)
record_id-IsSound_example = record_id-IsSound 2 7 empty_ring (empty-IsSound 2)

redeliver-publish_example :
    redeliver event (publish true event empty_bus).0 ≡ (publish true event empty_bus).0
redeliver-publish_example = redeliver-publish event empty_bus (empty-IsSound recent_local_capacity)

record_ids-contains_example :
    contains_id (record_ids 3 (8 ∷ 9 ∷ []) (record_id 3 7 empty_ring)) 7 ≡ true
unfolding has_id
record_ids-contains_example =
    record_ids-contains 3 7 (8 ∷ 9 ∷ []) empty_ring (omega arith) (empty-IsSound 3) refl
