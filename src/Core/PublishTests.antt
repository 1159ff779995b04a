-- ===== src/Core/PublishTests.antt =====
-- Runs of the parts of components/core that hand states and events on, and each theorem at one.
use zigbee_gateway_v.Common.{
  ℕ, ◌≡◌, ◌≢◌, refl, true, none, some, [], ◌∷◌, arith, find_index, count_if, length,
}
use zigbee_gateway_v.Core.Events.{no_event}
use zigbee_gateway_v.Core.State.{initial_state}
use zigbee_gateway_v.Core.Registry.{
  Reader, SnapshotRef, slot_at, pins_at, read_step, write_step, publish_begin,
}
use zigbee_gateway_v.Core.Registry.Steps.{
  System, Step, Reach, start, reader_at, read_move, write_move, call_move,
}
use zigbee_gateway_v.Core.Registry.Safety.{pins, target, Published}
use zigbee_gateway_v.Core.Registry.Writing.{held_unchanged, pins_counted}
use zigbee_gateway_v.Core.EventBus.{
  CoreEventBus, new_bus, subscribe, unsubscribe, publish, publish_loop,
}
use zigbee_gateway_v.Core.EventBus.Laws.{
  Subscribed, new_bus-Inv, subscribe-Subscribed, subscribe-Inv, unsubscribe-subscribe,
  publish-Called, Called,
}

-- One of two readers has pinned the first snapshot and reads it.
abbrev at_snapshot : System
at_snapshot = read_move (read_move (read_move (read_move (start 2) 0) 0) 0) 0

-- Meanwhile the writer publishes a state up to the search of a slot.
abbrev publishing : System
publishing = write_move (call_move at_snapshot (record initial_state { network_connected = true }))

at_snapshot-Reach : Reach 2 at_snapshot
at_snapshot-Reach =
    Reach.next _ _
      (Reach.next _ _
        (Reach.next _ _ (Reach.next _ _ Reach.here (Step.read 0 (omega arith)))
          (Step.read 0 (omega arith)))
        (Step.read 0 (omega arith)))
      (Step.read 0 (omega arith))

publishing-Reach : Reach 2 publishing
publishing-Reach =
    Reach.next _ _ (Reach.next _ _ at_snapshot-Reach (Step.call none _ refl)) Step.write

abbrev first_ref : SnapshotRef
first_ref = record { id = 0; slot_index = 0 }

first_read : reader_at publishing 0 ≡ Reader.holding first_ref initial_state
unfolding read_step write_step publish_begin
first_read = refl

held_unchanged_example :
    (slot_at publishing.registry 0 ≡ record { id = 0; state = initial_state })
    × Published publishing.history (record { id = 0; state = initial_state })
    × (target publishing.writer ≢ 0)
held_unchanged_example =
    held_unchanged 2 publishing 0 first_ref initial_state (omega arith) publishing-Reach first_read

pins_counted_example :
    (pins_at publishing.registry 0 ≡ count_if (pins 0) publishing.readers)
    × Published publishing.history (slot_at publishing.registry publishing.registry.active_index)
pins_counted_example = pins_counted 2 publishing 0 (omega arith) publishing-Reach (omega arith)

-- Handlers and contexts are numbers.
abbrev empty_bus : CoreEventBus ℕ ℕ
empty_bus = new_bus

subscribe-Subscribed_example :
    Subscribed empty_bus (some 5) (some 3) (subscribe empty_bus (some 3) (some 5))
subscribe-Subscribed_example = subscribe-Subscribed empty_bus (some 3) (some 5) new_bus-Inv

unsubscribe-subscribe_example :
    let (bus, id) = subscribe empty_bus (some 3) (some 5) in
    (id ≡ some 1)
    × (unsubscribe bus 1 ≡ (record bus { subscribers = empty_bus.subscribers; count = 0 }, true))
unfolding find_index
unsubscribe-subscribe_example =
    unsubscribe-subscribe empty_bus 3 (some 5) new_bus-Inv (omega arith) refl

abbrev busy_bus : CoreEventBus ℕ ℕ
busy_bus = (subscribe empty_bus (some 3) (some 5)).0

busy_publish : publish busy_bus no_event ≡ (3, no_event, some 5) ∷ []
unfolding publish publish_loop subscribe find_index
busy_publish = refl

publish-Called_example :
    Called no_event busy_bus.subscribers (publish busy_bus no_event)
    × (length (publish busy_bus no_event) ≡ 1)
unfolding subscribe find_index
publish-Called_example =
    publish-Called busy_bus no_event (subscribe-Inv empty_bus (some 3) (some 5) new_bus-Inv)
