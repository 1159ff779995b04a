-- ===== src/Core/Registry/Steps.antt =====
-- Runs of components/core/core_registry.cpp: any number of readers and one writer, whose steps
-- interleave in every order.
use zigbee_gateway_v.Common.{
  ℕ, ◌<◌, ◌≡◌, Option, none, List, [], ◌∷◌, length, get_or, set, replicate,
}
use zigbee_gateway_v.Core.State.{CoreState}
use zigbee_gateway_v.Core.Registry.{
  CoreRegistry, SnapshotSlot, Reader, Writer, new_registry, first_slot, read_step, write_step,
  publish_begin,
}

-- `history` holds the snapshots that were activated, the latest first.
pub record System : Type 0 where
  pub registry : CoreRegistry
  pub readers : List Reader
  pub writer : Writer
  pub history : List SnapshotSlot

abbrev pub reader_at : System → ℕ → Reader
reader_at s i = get_or s.readers i Reader.idle

-- `n` readers outside the registry.
abbrev pub start : ℕ → System
start n = record {
  registry = new_registry;
  readers = replicate n Reader.idle;
  writer = Writer.ready none;
  history = first_slot ∷ [];
}

-- Reader `i` makes its next step.
abbrev pub read_move : System → ℕ → System
read_move s i =
    let (registry, reader) = read_step s.registry (reader_at s i) in
    record s { registry = registry; readers = set s.readers i reader }

-- An activated snapshot is the state that `publish` prepared, with the id it announced.
abbrev pub record_activation : System → Writer → List SnapshotSlot
record_activation s (Writer.activating state j) =
    record { id = s.registry.active_snapshot_id; state = state } ∷ s.history
record_activation s _ = s.history

-- The writer makes its next step.
abbrev pub write_move : System → System
write_move s =
    let (registry, writer) = write_step s.registry s.writer in
    record s { registry = registry; writer = writer; history = record_activation s s.writer }

-- The writer calls `publish` with a state.
abbrev pub call_move : System → CoreState → System
call_move s state = record s { writer = publish_begin s.registry state }

pub data Step (s : System) : System → Type 0 where
  read : (i : ℕ) → i < length s.readers → Step s (read_move s i)
  write : Step s (write_move s)
  call :
      (result : Option _) (state : CoreState)
      → s.writer ≡ Writer.ready result
      → Step s (call_move s state)

-- The systems that some interleaving reaches from `n` readers.
pub data Reach (n : ℕ) : System → Type 0 where
  here : Reach n (start n)
  next : (s t : System) → Reach n s → Step s t → Reach n t
