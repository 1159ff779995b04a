-- ===== src/Core/Registry.antt =====
-- components/core/core_registry.cpp: the snapshots of the state that readers pin while one writer
-- publishes. A step of a reader or of the writer makes one atomic access, or one write to a slot.
pub mod Steps
pub mod Safety
pub mod Writing
use zigbee_gateway_v.Common.{
  ℕ, zero, suc, ◌+◌, ◌%◌, Bool, true, false, not, Option, none, some, List, [], ◌∷◌, ltb, leb, ◌==◌,
  if◌then◌else◌, get_or, set, replicate, u32,
}
use zigbee_gateway_v.Core.State.{CoreState, initial_state}

abbrev pub snapshot_count : ℕ
snapshot_count = 8

pub record SnapshotSlot : Type 0 where
  pub id : ℕ  -- uint32_t
  pub state : CoreState

-- The field `state` of the code points into slot `slot_index`.
pub record SnapshotRef : Type 0 where
  pub id : ℕ  -- uint32_t
  pub slot_index : ℕ  -- uint32_t

pub record CoreRegistry : Type 0 where
  pub slots : List SnapshotSlot
  pub slot_pin_count : List ℕ  -- std::atomic<uint32_t>
  pub active_index : ℕ  -- std::atomic<uint32_t>
  pub active_snapshot_id : ℕ  -- std::atomic<uint32_t>
  pub write_index : ℕ  -- uint32_t
  pub next_snapshot_id : ℕ  -- uint32_t

abbrev pub first_slot : SnapshotSlot
first_slot = record { id = 0; state = initial_state }

abbrev pub new_registry : CoreRegistry
new_registry = record {
  slots = replicate snapshot_count first_slot;
  slot_pin_count = replicate snapshot_count 0;
  active_index = 0;
  active_snapshot_id = 0;
  write_index = 0;
  next_snapshot_id = 1;
}

abbrev pub slot_at : CoreRegistry → ℕ → SnapshotSlot
slot_at r k = get_or r.slots k first_slot

abbrev pub pins_at : CoreRegistry → ℕ → ℕ
pins_at r k = get_or r.slot_pin_count k 0

-- `slot_pin_count_[k].fetch_add(1)` and `fetch_sub(1)`.
abbrev pub fetch_add : CoreRegistry → ℕ → CoreRegistry
fetch_add r k = record r { slot_pin_count = set r.slot_pin_count k (u32 (pins_at r k + 1)) }

abbrev pub fetch_sub : CoreRegistry → ℕ → CoreRegistry
fetch_sub r k = record r {
  slot_pin_count = set r.slot_pin_count k (u32 (pins_at r k + 0xffffffff));
}

-- Where a reader stands: outside; in `pin_current`, after the first load of the active index, the
-- pin, the second load with the same or another index; with the snapshot in hand, and the value it
-- read; or in `release_snapshot`, before the store that repairs a count of 0.
pub data Reader : Type 0 where
  idle : Reader
  loaded pinned reading retrying repairing : ℕ → Reader
  holding : SnapshotRef → CoreState → Reader

-- The next step of a reader: it pins when it is idle, and releases when it holds a snapshot.
unfoldable pub read_step : CoreRegistry → Reader → CoreRegistry × Reader
read_step r Reader.idle = (r, Reader.loaded r.active_index)
read_step r (Reader.loaded k) = (fetch_add r k, Reader.pinned k)
read_step r (Reader.pinned k) =
    (r, if r.active_index == k then Reader.reading k else Reader.retrying k)
read_step r (Reader.retrying k) = (fetch_sub r k, Reader.idle)
read_step r (Reader.reading k) =
    (r, Reader.holding (record { id = (slot_at r k).id; slot_index = k }) (slot_at r k).state)
read_step r (Reader.holding ref seen) =
    if ltb ref.slot_index snapshot_count
    then (
      fetch_sub r ref.slot_index,
      if pins_at r ref.slot_index == 0 then Reader.repairing ref.slot_index else Reader.idle,
    )
    else (r, Reader.idle)
read_step r (Reader.repairing k) =
    (record r { slot_pin_count = set r.slot_pin_count k 0 }, Reader.idle)

-- Where the writer stands: outside `publish`, with its last result; at candidate `i` of the search;
-- or at one of the four writes to the slot it found.
pub data Writer : Type 0 where
  ready : Option Bool → Writer
  scanning : CoreState → ℕ → ℕ → Writer
  writing stamping announcing activating : CoreState → ℕ → Writer

-- A revision that is not above the current one is raised.
abbrev pub raise_revision : CoreState → CoreState → CoreState
raise_revision current state =
    if leb state.revision current.revision
    then record state { revision = u32 (current.revision + 1) }
    else state

-- The start of `publish`.
unfoldable pub publish_begin : CoreRegistry → CoreState → Writer
publish_begin r state =
    Writer.scanning (raise_revision (slot_at r r.active_index).state state) r.active_index 0

abbrev pub candidate : CoreRegistry → ℕ → ℕ
candidate r i = u32 (r.write_index + 1 + i) % snapshot_count

-- The next step of `publish`.
unfoldable pub write_step : CoreRegistry → Writer → CoreRegistry × Writer
write_step r (Writer.ready result) = (r, Writer.ready result)
write_step r (Writer.scanning state current i) = (
  r,
  if ltb i snapshot_count
      then (if candidate r i == current
          then Writer.scanning state current (i + 1)
          else (if not (pins_at r (candidate r i) == 0)
              then Writer.scanning state current (i + 1)
              else Writer.writing state (candidate r i)))
      else Writer.ready (some false),
)
write_step r (Writer.writing state j) = (
  record r { slots = set r.slots j (record (slot_at r j) { state = state }) },
  Writer.stamping state j,
)
write_step r (Writer.stamping state j) = (
  record r {
    slots = set r.slots j (record (slot_at r j) { id = r.next_snapshot_id });
    next_snapshot_id = u32 (r.next_snapshot_id + 1);
    write_index = j;
  },
  Writer.announcing state j,
)
write_step r (Writer.announcing state j) =
    (record r { active_snapshot_id = (slot_at r j).id }, Writer.activating state j)
write_step r (Writer.activating state j) = (record r { active_index = j }, Writer.ready (some true))
