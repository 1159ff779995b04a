-- ===== src/Service/DeviceManager.antt =====
-- components/service/device_manager.cpp: the devices that are to be removed by force at a deadline,
-- and the devices that lately asked to join. The lock makes each operation one step.
pub mod Deadlines
pub mod ForceRemove
pub mod Eviction
pub mod JoinCandidates
pub mod Snapshot
pub mod Leaving
use zigbee_gateway_v.Common.{
  ℕ, zero, suc, ◌+◌, Bool, true, false, not, ◌&&◌, ◌||◌, Option, none, some, List, [], ◌∷◌, map,
  ltb, leb, ◌==◌, if◌then◌else◌, length, get_or, set, replicate, find_index, sub_u32,
}
use zigbee_gateway_v.Common.Int.{ℤ, pos}
use zigbee_gateway_v.Core.Events.{CoreEvent, CoreEventType, unknown_short_addr}
use zigbee_gateway_v.Core.State.{CoreState, CoreDeviceRecord, CoreReportingState}

abbrev pub max_pending_force_remove : ℕ
max_pending_force_remove = 16

abbrev pub join_candidate_history_size : ℕ
join_candidate_history_size = 8

abbrev pub join_dedup_window_ms : ℕ
join_dedup_window_ms = 5000

pub record PendingForceRemove : Type 0 where
  pub in_use : Bool
  pub short_addr : ℕ  -- uint16_t
  pub deadline_ms : ℕ  -- uint32_t

abbrev pub no_pending : PendingForceRemove
no_pending = record { in_use = false; short_addr = unknown_short_addr; deadline_ms = 0 }

pub record JoinCandidateEntry : Type 0 where
  pub short_addr : ℕ  -- uint16_t
  pub seen_at_ms : ℕ  -- uint32_t

abbrev pub no_candidate : JoinCandidateEntry
no_candidate = record { short_addr = unknown_short_addr; seen_at_ms = 0 }

pub record DeviceManager : Type 0 where
  pub pending_force_remove : List PendingForceRemove
  pub join_candidate_history : List JoinCandidateEntry

abbrev pub new_manager : DeviceManager
new_manager = record {
  pending_force_remove = replicate max_pending_force_remove no_pending;
  join_candidate_history = replicate join_candidate_history_size no_candidate;
}

-- The addresses that no device has: unknown, and the coordinator's.
abbrev pub no_device_addr : ℕ → Bool
no_device_addr a = a == unknown_short_addr || a == 0

-- The sign of the difference as int32_t.
abbrev pub is_deadline_reached : ℕ → ℕ → Bool
is_deadline_reached now_ms deadline_ms = ltb (sub_u32 now_ms deadline_ms) 0x80000000

abbrev pub is_pending_for : ℕ → PendingForceRemove → Bool
is_pending_for a p = p.in_use && p.short_addr == a

-- The loop of `handle_event`: every pending removal of the address goes.
unfoldable pub drop_pending : ℕ → List PendingForceRemove → List PendingForceRemove × Bool
drop_pending a [] = ([], false)
drop_pending a (p ∷ ps) =
    let (rest, changed) = drop_pending a ps in
    if is_pending_for a p then (no_pending ∷ rest, true) else (p ∷ rest, changed)

-- `clear_join_candidate`.
abbrev pub cleared_candidate : ℕ → JoinCandidateEntry → JoinCandidateEntry
cleared_candidate a e = if e.short_addr == a then no_candidate else e

abbrev pub clear_join_candidate : List JoinCandidateEntry → ℕ → List JoinCandidateEntry
clear_join_candidate history a =
    if no_device_addr a then history else map (cleared_candidate a) history

abbrev is_left : CoreEventType → Bool
is_left CoreEventType.device_left = true
is_left _ = false

unfoldable pub handle_event : DeviceManager → CoreEvent → DeviceManager × Bool
handle_event m event =
    if not (is_left event.type) || no_device_addr event.device_short_addr
    then (m, false)
    else (let (pending, changed) = drop_pending event.device_short_addr m.pending_force_remove in
        (
          record {
            pending_force_remove = pending;
            join_candidate_history =
                clear_join_candidate m.join_candidate_history event.device_short_addr;
          },
          changed,
        ))

-- What the scan of `is_duplicate_join_candidate` finds: an entry of the address, or the entry to
-- write, the first free one or else the oldest.
pub data JoinScan : Type 0 where
  seen : ℕ → JoinScan
  unseen : ℕ → JoinScan

abbrev choose_target : Option ℕ → ℕ → ℕ
choose_target none oldest = oldest
choose_target (some free) oldest = free

-- The first free slot so far.
abbrev pub first_free : Option ℕ → ℕ → Option ℕ
first_free none i = some i
first_free (some free) i = some free

-- The loop, at index `i`, with the first free entry, the oldest one and its time.
unfoldable pub scan_candidates : ℕ → List JoinCandidateEntry → ℕ → Option ℕ → ℕ → ℕ → JoinScan
scan_candidates a [] i free oldest oldest_ms = JoinScan.unseen (choose_target free oldest)
scan_candidates a (e ∷ es) i free oldest oldest_ms =
    let unused = e.short_addr == unknown_short_addr in
    let older = not unused && ltb e.seen_at_ms oldest_ms in
    let rest =
      scan_candidates a es (i + 1) (if unused then first_free free i else free)
        (if older then i else oldest) (if older then e.seen_at_ms else oldest_ms) in
    if e.short_addr == a then JoinScan.seen i else rest

abbrev candidate_at : DeviceManager → ℕ → JoinCandidateEntry
candidate_at m i = get_or m.join_candidate_history i no_candidate

abbrev note_candidate : DeviceManager → ℕ → ℕ → ℕ → DeviceManager
note_candidate m i a now_ms = record m {
  join_candidate_history =
      set m.join_candidate_history i (record { short_addr = a; seen_at_ms = now_ms });
}

unfoldable pub is_duplicate_join_candidate : DeviceManager → ℕ → ℕ → DeviceManager × Bool
is_duplicate_join_candidate m a now_ms =
    if no_device_addr a
    then (m, true)
    else elim (scan_candidates a m.join_candidate_history 0 none 0 (candidate_at m 0).seen_at_ms) [
      | seen i ↦
          if leb (sub_u32 now_ms (candidate_at m i).seen_at_ms) join_dedup_window_ms
          then (m, true)
          else (note_candidate m i a now_ms, false)
      | unseen i ↦ (note_candidate m i a now_ms, false)
    ]

abbrev pub is_vacant : PendingForceRemove → Bool
is_vacant p = not p.in_use

abbrev pub pending_at : DeviceManager → ℕ → PendingForceRemove
pending_at m i = get_or m.pending_force_remove i no_pending

abbrev pub removal : ℕ → ℕ → PendingForceRemove
removal a deadline_ms = record { in_use = true; short_addr = a; deadline_ms = deadline_ms }

-- An address that waits already gets the new deadline; else the first free slot is taken.
unfoldable pub schedule_force_remove : DeviceManager → ℕ → ℕ → DeviceManager × Bool
schedule_force_remove m a deadline_ms =
    if no_device_addr a
    then (m, false)
    else elim (find_index (is_pending_for a) m.pending_force_remove) [
      | some i ↦ (
        record m {
          pending_force_remove =
              set m.pending_force_remove i (record (pending_at m i) { deadline_ms = deadline_ms });
        },
        true,
      )
      | none ↦ elim (find_index is_vacant m.pending_force_remove) [
        | none ↦ (m, false)
        | some i ↦ (
          record m { pending_force_remove = set m.pending_force_remove i (removal a deadline_ms) },
          true,
        )
      ]
    ]

-- The time that is left to a deadline.
abbrev pub time_left : ℕ → ℕ → ℕ
time_left now_ms deadline_ms =
    if is_deadline_reached now_ms deadline_ms then 0 else sub_u32 deadline_ms now_ms

-- `none` is the result false.
unfoldable pub get_force_remove_remaining_ms : DeviceManager → ℕ → ℕ → Option ℕ
get_force_remove_remaining_ms m a now_ms =
    if no_device_addr a then none else elim (find_index (is_pending_for a) m.pending_force_remove) [
      | none ↦ none
      | some i ↦ some (time_left now_ms (pending_at m i).deadline_ms)
    ]

-- The loop of `collect_expired_force_remove` with the number of addresses written so far.
unfoldable pub collect_loop : ℕ → List PendingForceRemove → ℕ → List PendingForceRemove × List ℕ
collect_loop now_ms [] written = ([], [])
collect_loop now_ms (p ∷ ps) written =
    let expired = p.in_use && is_deadline_reached now_ms p.deadline_ms in
    let room = ltb written max_pending_force_remove in
    let (pending, addrs) =
      collect_loop now_ms ps (if expired && room then written + 1 else written) in
    if expired
    then (no_pending ∷ pending, if room then p.short_addr ∷ addrs else addrs)
    else (p ∷ pending, addrs)

unfoldable pub collect_expired_force_remove : DeviceManager → ℕ → DeviceManager × List ℕ
collect_expired_force_remove m now_ms =
    let (pending, expired) = collect_loop now_ms m.pending_force_remove 0 in
    (record m { pending_force_remove = pending }, expired)
