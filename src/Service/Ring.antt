-- ===== src/Service/Ring.antt =====
-- The ring queues of components/service: the queues of requests and of results of
-- command_manager.cpp, and the event queue of service_runtime.cpp. Each is an array with the
-- indices of its first element and of its first free place, and a count.
pub mod Refine
use zigbee_gateway_v.Common.{
  ℕ, ◌+◌, ◌-◌, ◌%◌, Bool, true, false, Option, none, some, List, [], ◌∷◌, leb, ◌==◌, if◌then◌else◌,
  get_or, set, replicate,
}

-- `size_t` counters stay below twice the capacity, and do not wrap.
pub record Ring {ℓ} (A : Type ℓ) : Type ℓ where
  pub queue : List A
  pub head : ℕ
  pub tail : ℕ
  pub count : ℕ

module _ {ℓ} {A : Type ℓ} (capacity : ℕ) where
  abbrev pub new_ring : A → Ring A
  new_ring blank = record { queue = replicate capacity blank; head = 0; tail = 0; count = 0 }

  unfoldable pub push : Ring A → A → Ring A × Bool
  push r x = if leb capacity r.count then (r, false) else (
    record {
      queue = set r.queue r.tail x;
      head = r.head;
      tail = (r.tail + 1) % capacity;
      count = r.count + 1;
    },
    true,
  )

  -- `blank` is what a read out of bounds would give.
  unfoldable pub pop : A → Ring A → Ring A × Option A
  pop blank r = if r.count == 0 then (r, none) else (
    record r { head = (r.head + 1) % capacity; count = r.count - 1 },
    some (get_or r.queue r.head blank),
  )
