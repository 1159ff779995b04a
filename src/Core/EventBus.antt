-- ===== src/Core/EventBus.antt =====
-- components/core/core_event_bus.cpp: up to sixteen subscribers of the core's events. A handler and
-- its context are values of any types; a call of `publish` is the list of the handler calls it
-- makes, in order.
pub mod Laws
use zigbee_gateway_v.Common.{
  ℕ, ◌+◌, ◌-◌, Bool, true, false, not, ◌&&◌, ◌||◌, Option, none, some, List, [], ◌∷◌, ◌++◌, ltb,
  leb, ◌==◌, if◌then◌else◌, set, replicate, find_index, u16,
}
use zigbee_gateway_v.Core.Events.{CoreEvent}

abbrev pub max_subscribers : ℕ
max_subscribers = 16

pub record Subscriber (Handler Context : Type 0) : Type 0 where
  pub id : ℕ  -- uint16_t
  pub handler : Option Handler  -- `none` is the null pointer
  pub context : Option Context
  pub active : Bool

pub record CoreEventBus (Handler Context : Type 0) : Type 0 where
  pub subscribers : List (Subscriber Handler Context)
  pub next_id : ℕ  -- uint16_t
  pub count : ℕ  -- size_t

-- `next_id_++`, which skips 0.
abbrev pub following_id : ℕ → ℕ
following_id n = if u16 (n + 1) == 0 then 1 else u16 (n + 1)

module _ {Handler Context : Type 0} where
  abbrev pub no_subscriber : Subscriber Handler Context
  no_subscriber = record { id = 0; handler = none; context = none; active = false }

  abbrev pub new_bus : CoreEventBus Handler Context
  new_bus = record { subscribers = replicate max_subscribers no_subscriber; next_id = 1; count = 0 }

  abbrev pub is_inactive : Subscriber Handler Context → Bool
  is_inactive s = not s.active

  abbrev pub has_id : ℕ → Subscriber Handler Context → Bool
  has_id id s = s.active && s.id == id

  abbrev pub subscription : ℕ → Handler → Option Context → Subscriber Handler Context
  subscription id handler context = record {
    id = id;
    handler = some handler;
    context = context;
    active = true;
  }

  -- The new bus, and the id on success.
  unfoldable pub subscribe :
      CoreEventBus Handler Context
      → Option Handler
      → Option Context
      → CoreEventBus Handler Context × Option ℕ
  subscribe bus none context = (bus, none)
  subscribe bus (some handler) context =
      if leb max_subscribers bus.count
      then (bus, none)
      else elim (find_index is_inactive bus.subscribers) [
        | none ↦ (bus, none)
        | some i ↦ (
          record {
            subscribers = set bus.subscribers i (subscription bus.next_id handler context);
            next_id = following_id bus.next_id;
            count = bus.count + 1;
          },
          some bus.next_id,
        )
      ]

  unfoldable pub unsubscribe :
      CoreEventBus Handler Context → ℕ → CoreEventBus Handler Context × Bool
  unsubscribe bus id =
      if id == 0 then (bus, false) else elim (find_index (has_id id) bus.subscribers) [
        | none ↦ (bus, false)
        | some i ↦ (
          record bus {
            subscribers = set bus.subscribers i no_subscriber;
            count = if ltb 0 bus.count then bus.count - 1 else bus.count;
          },
          true,
        )
      ]

  -- The call that `publish` makes for one subscriber.
  abbrev pub call_of :
      CoreEvent → Subscriber Handler Context → List (Handler × CoreEvent × Option Context)
  call_of event s =
      if not s.active
      then []
      else elim s.handler [ none ↦ [] | some h ↦ (h, event, s.context) ∷ [] ]

  unfoldable pub publish_loop :
      CoreEvent → List (Subscriber Handler Context) → List (Handler × CoreEvent × Option Context)
  publish_loop event [] = []
  publish_loop event (s ∷ ss) = call_of event s ++ publish_loop event ss

  unfoldable pub publish :
      CoreEventBus Handler Context → CoreEvent → List (Handler × CoreEvent × Option Context)
  unfolding publish_loop
  publish bus event = publish_loop event bus.subscribers

  abbrev pub subscriber_count : CoreEventBus Handler Context → ℕ
  subscriber_count bus = bus.count
