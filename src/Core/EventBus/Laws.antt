-- ===== src/Core/EventBus/Laws.antt =====
-- components/core/core_event_bus.cpp: the table of subscribers stays consistent, and a subscription
-- is undone by its id.
use zigbee_gateway_v.Common.{
  ℕ, suc, ◌+◌, ◌-◌, ◌<◌, ◌≡◌, refl, sym, ap, ◌∙◌, ◌≢◌, ==_refl, count_if-le, find_index-set,
  set_twice, Bool, true, false, Option, none, some, List, [], ◌∷◌, ◌++◌, arith, ltb, leb, ◌==◌,
  Bool-cases, Option-cases, inl, inr, if◌then◌else◌, length, length-append, length-set, get_or, set,
  set-get_or, get_or-set, get_or-replicate, find_index, find_index-some, find_index-room, count_if,
  count_if-set, weigh,
}
use zigbee_gateway_v.Core.Events.{CoreEvent}
use zigbee_gateway_v.Core.EventBus.{
  Subscriber, CoreEventBus, no_subscriber, new_bus, max_subscribers, is_inactive, has_id,
  following_id, subscription, subscribe, unsubscribe, call_of, publish_loop, publish,
}

module _ {Handler Context : Type 0} where
  abbrev pub is_active : Subscriber Handler Context → Bool
  is_active s = s.active

  -- An active slot has a handler and an id other than 0; any other slot is blank.
  pub data IsSlot : Subscriber Handler Context → Type 0 where
    blank : IsSlot no_subscriber
    taken :
        (id : ℕ) (h : Handler) (c : Option Context)
        → id ≢ 0
        → IsSlot (record { id = id; handler = some h; context = c; active = true })

  pub record Inv (bus : CoreEventBus Handler Context) : Type 0 where
    pub size : length bus.subscribers ≡ max_subscribers
    pub slots : (i : ℕ) → IsSlot (get_or bus.subscribers i no_subscriber)
    pub counted : bus.count ≡ count_if is_active bus.subscribers
    pub next : bus.next_id ≢ 0

  pub new_bus-Inv : Inv new_bus
  unfolding count_if
  new_bus-Inv = record {
    size = refl;
    slots = λ i. rw (get_or-replicate max_subscribers no_subscriber i) blank;
    counted = refl;
    next = omega arith;
  }

  IsSlot-if :
      (b : Bool) (s t : Subscriber Handler Context)
      → IsSlot s
      → IsSlot t
      → IsSlot (if b then s else t)
  IsSlot-if true s t p q = p
  IsSlot-if false s t p q = q

  set-IsSlot :
      (ss : List (Subscriber Handler Context)) (i : ℕ) (s : Subscriber Handler Context)
      → ((j : ℕ) → IsSlot (get_or ss j no_subscriber))
      → IsSlot s
      → (j : ℕ) → IsSlot (get_or (set ss i s) j no_subscriber)
  set-IsSlot ss i s old new j = rw (get_or-set ss i s j no_subscriber) (IsSlot-if _ s _ new (old j))

  -- What `subscribe` promises: it refuses a null handler and a full table with no change, or it
  -- writes the subscription into a blank slot.
  pub data Subscribed (bus : CoreEventBus Handler Context) (context : Option Context)
      : Option Handler → CoreEventBus Handler Context × Option ℕ → Type 0 where
    no_handler : Subscribed bus context none (bus, none)
    full : (h : Handler) → bus.count ≡ max_subscribers → Subscribed bus context (some h) (bus, none)
    stored :
        (h : Handler) (i : ℕ) (bus' : CoreEventBus Handler Context)
        → bus.count < max_subscribers
        → i < max_subscribers
        → get_or bus.subscribers i no_subscriber ≡ no_subscriber
        → bus'.subscribers ≡ set bus.subscribers i (subscription bus.next_id h context)
        → Inv bus'
        → Subscribed bus context (some h) (bus', some bus.next_id)

  IsSlot-blank :
      (s : Subscriber Handler Context) → IsSlot s → is_inactive s ≡ true → s ≡ no_subscriber
  IsSlot-blank _ blank h = refl
  IsSlot-blank _ (taken id handler c n) h = cc

  free_slot :
      (bus : CoreEventBus Handler Context)
      → Inv bus
      → (i : ℕ) → find_index is_inactive bus.subscribers ≡ some i
      → (i < max_subscribers) × (get_or bus.subscribers i no_subscriber ≡ no_subscriber)
  free_slot bus inv i found =
      let f = find_index-some is_inactive bus.subscribers i no_subscriber found in
      (omega (arith, f.0, inv.size), IsSlot-blank _ (inv.slots i) f.1)

  no_slot :
      (bus : CoreEventBus Handler Context)
      → Inv bus
      → bus.count < max_subscribers
      → find_index is_inactive bus.subscribers ≢ none
  no_slot bus inv room =
      find_index-room is_active is_inactive bus.subscribers (λ s h. ground (arith, h))
        (omega (arith, inv.counted, inv.size))

  -- Under the invariant of the bus, `subscribe` refuses a null handler and a full table with no
  -- change, or stores the subscription in a blank slot under the id it returns, and the invariant
  -- is kept; the search for a slot does not fail.
  pub subscribe-Subscribed :
      (bus : CoreEventBus Handler Context) (handler : Option Handler) (context : Option Context)
      → Inv bus
      → Subscribed bus context handler (subscribe bus handler context)
  unfolding subscribe
  subscribe-Subscribed bus none context inv = no_handler
  subscribe-Subscribed bus (some h) context inv =
      elim (Bool-cases (leb max_subscribers bus.count)) [
        | inl over ↦
            rw over (
              full h (ground (arith, inv.counted, inv.size, count_if-le is_active bus.subscribers)))
        | inr room ↦ elim (Option-cases (find_index is_inactive bus.subscribers)) [
          | inl missed ↦ absurd (no_slot bus inv (ground (arith, room)) missed)
          | inr (i, found) ↦
              rw (room, found)
                (stored h i _ (ground (arith, room)) (at i found).0 (at i found).1 refl
                  (stored_Inv i found))
        ]
      ]
    where
      at :
          (i : ℕ)
          → find_index is_inactive bus.subscribers ≡ some i
          → (i < max_subscribers) × (get_or bus.subscribers i no_subscriber ≡ no_subscriber)
      at i found = free_slot bus inv i found

      stored_Inv :
          (i : ℕ)
          → find_index is_inactive bus.subscribers ≡ some i
          → Inv (record {
            subscribers = set bus.subscribers i (subscription bus.next_id h context);
            next_id = following_id bus.next_id;
            count = bus.count + 1;
          })
      stored_Inv i found = record {
        size = length-set bus.subscribers i _ ∙ inv.size;
        slots = set-IsSlot bus.subscribers i _ inv.slots (taken bus.next_id h context inv.next);
        counted =
            let a = at i found in
            let c =
              count_if-set is_active bus.subscribers i (subscription bus.next_id h context)
                no_subscriber (omega (arith, inv.size)) in
            let c' = ap (λ s. weigh (is_active s)) a.1 in omega (arith, inv.counted, c, c');
        next = ground arith;
      }

  module _ (bus : CoreEventBus Handler Context) (inv : Inv bus) (h : Handler)
      (context : Option Context) where
    -- The bus after the subscription took slot `i`.
    stored_bus : ℕ → CoreEventBus Handler Context
    stored_bus i = record {
      subscribers = set bus.subscribers i (subscription bus.next_id h context);
      next_id = following_id bus.next_id;
      count = bus.count + 1;
    }

    subscribe-room :
        (i : ℕ)
        → bus.count < max_subscribers
        → find_index is_inactive bus.subscribers ≡ some i
        → subscribe bus (some h) context ≡ (stored_bus i, some bus.next_id)
    unfolding subscribe stored_bus
    subscribe-room i room found = rw (below, found) refl
      where
        below : leb max_subscribers bus.count ≡ false
        below = ground arith

    unsubscribe-stored :
        (i : ℕ)
        → find_index is_inactive bus.subscribers ≡ some i
        → find_index (has_id bus.next_id) bus.subscribers ≡ none
        → unsubscribe (stored_bus i) bus.next_id
          ≡ (record (stored_bus i) { subscribers = bus.subscribers; count = bus.count }, true)
    unfolding unsubscribe stored_bus
    unsubscribe-stored i found fresh =
        let (small, blank_i) = free_slot bus inv i found in
        rw
          (
            nonzero,
            find_index-set (has_id bus.next_id) bus.subscribers i
                (subscription bus.next_id h context) fresh (omega (arith, inv.size))
                (==_refl bus.next_id),
            set_twice bus.subscribers i (subscription bus.next_id h context) no_subscriber,
            restored small blank_i,
            down,
          )
          refl
      where
        nonzero : (bus.next_id == 0) ≡ false
        nonzero = ground (arith, inv.next)

        down : (if ltb 0 (bus.count + 1) then bus.count + 1 - 1 else bus.count + 1) ≡ bus.count
        down = ground arith

        restored :
            i < max_subscribers
            → get_or bus.subscribers i no_subscriber ≡ no_subscriber
            → set bus.subscribers i no_subscriber ≡ bus.subscribers
        restored small e =
            ap (set bus.subscribers i) (sym e) ∙ set-get_or bus.subscribers i no_subscriber

  -- While there is room, a subscription whose id no active subscriber has is undone by `unsubscribe`
  -- with this id: the subscribers and their number are as before.
  pub unsubscribe-subscribe :
      (bus : CoreEventBus Handler Context) (h : Handler) (context : Option Context)
      → Inv bus
      → bus.count < max_subscribers
      → find_index (has_id bus.next_id) bus.subscribers ≡ none
      → let (bus', id) = subscribe bus (some h) context in
        (id ≡ some bus.next_id)
        × (unsubscribe bus' bus.next_id
            ≡ (record bus' { subscribers = bus.subscribers; count = bus.count }, true))
  unsubscribe-subscribe bus h context inv room fresh =
      elim (Option-cases (find_index is_inactive bus.subscribers)) [
        | inl missed ↦ absurd (no_slot bus inv room missed)
        | inr (i, found) ↦
            rw (subscribe-room bus inv h context i room found)
              (refl, unsubscribe-stored bus inv h context i found fresh)
      ]

  call_of-length :
      (event : CoreEvent) (s : Subscriber Handler Context)
      → IsSlot s
      → length (call_of event s) ≡ weigh (is_active s)
  call_of-length event _ blank = refl
  call_of-length event _ (taken id h c n) = refl

  -- The calls for an event: one for each subscriber, in the order of the table, of the handler that
  -- subscribed, with the event and the context that it gave.
  pub data Called (event : CoreEvent)
      : List (Subscriber Handler Context)
        → List (Handler × CoreEvent × Option Context)
        → Type 0 where
    end : Called event [] []
    nobody :
        (ss : List (Subscriber Handler Context))
        (calls : List (Handler × CoreEvent × Option Context))
        → Called event ss calls
        → Called event (no_subscriber ∷ ss) calls
    somebody :
        (id : ℕ) (h : Handler) (context : Option Context) (ss : List (Subscriber Handler Context))
        (calls : List (Handler × CoreEvent × Option Context))
        → Called event ss calls
        → Called event (subscription id h context ∷ ss) ((h, event, context) ∷ calls)

  call_of-Called :
      (event : CoreEvent) (s : Subscriber Handler Context) (ss : List (Subscriber Handler Context))
      (calls : List (Handler × CoreEvent × Option Context))
      → IsSlot s
      → Called event ss calls
      → Called event (s ∷ ss) (call_of event s ++ calls)
  call_of-Called event _ ss calls blank rest = nobody ss calls rest
  call_of-Called event _ ss calls (taken id h c n) rest = somebody id h c ss calls rest

  loop-Called :
      (event : CoreEvent) (ss : List (Subscriber Handler Context))
      → ((i : ℕ) → IsSlot (get_or ss i no_subscriber))
      → Called event ss (publish_loop event ss)
  unfolding publish_loop
  loop-Called event [] slots = end
  loop-Called event (s ∷ ss) slots =
      call_of-Called event s ss (publish_loop event ss) (slots 0)
        (loop-Called event ss (λ i. slots (suc i)))

  -- Under the invariant of the bus, `publish` calls, in the order of the table, for each subscriber
  -- the handler that subscribed, once, with the event and the context of this subscriber, and calls
  -- nothing else; the calls are as many as `subscriber_count` counts.
  pub publish-Called :
      (bus : CoreEventBus Handler Context) (event : CoreEvent)
      → Inv bus
      → Called event bus.subscribers (publish bus event) × (length (publish bus event) ≡ bus.count)
  unfolding publish publish_loop count_if
  publish-Called bus event inv = (
    loop-Called event bus.subscribers inv.slots,
    loop bus.subscribers inv.slots ∙ omega (arith, inv.counted),
  )
    where
      loop :
          (ss : List (Subscriber Handler Context))
          → ((i : ℕ) → IsSlot (get_or ss i no_subscriber))
          → length (publish_loop event ss) ≡ count_if is_active ss
      loop [] h = refl
      loop (s ∷ ss) h = omega (
        arith,
        length-append (call_of event s) (publish_loop event ss),
        call_of-length event s (h 0),
        loop ss (λ i. h (suc i)),
      )

  Subscribed-Inv :
      (bus : CoreEventBus Handler Context) (context : Option Context) (handler : Option Handler)
      → Inv bus
      → (out : CoreEventBus Handler Context × Option ℕ) → Subscribed bus context handler out
      → Inv out.0
  Subscribed-Inv bus context _ inv _ no_handler = inv
  Subscribed-Inv bus context _ inv _ (full h over) = inv
  Subscribed-Inv bus context _ inv _ (stored h i bus' room small blank_i slots inv') = inv'

  pub subscribe-Inv :
      (bus : CoreEventBus Handler Context) (handler : Option Handler) (context : Option Context)
      → Inv bus
      → Inv (subscribe bus handler context).0
  subscribe-Inv bus handler context inv =
      Subscribed-Inv bus context handler inv _ (subscribe-Subscribed bus handler context inv)
