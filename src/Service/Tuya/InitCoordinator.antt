-- ===== src/Service/Tuya/InitCoordinator.antt =====
-- components/service/tuya_init_coordinator.cpp: the start-up commands of Tuya devices, sent one
-- after the other, each until it is acknowledged or its tries are used up.
pub mod Table
pub mod Budget
pub mod Settling
pub mod Acks
use zigbee_gateway_v.Common.{
  ℕ, zero, suc, ◌+◌, ◌-◌, Bool, true, false, not, ◌&&◌, Option, none, some, List, [], ◌∷◌, ◌++◌,
  map, ltb, leb, ◌==◌, if◌then◌else◌, get_or, set, take, replicate, find_index, u8, u32,
}
use zigbee_gateway_v.Service.Tuya.DpParser.{TuyaDpType}

abbrev pub max_devices : ℕ
max_devices = 16

abbrev pub max_retries : ℕ
max_retries = 3

abbrev pub step_timeout_ms : ℕ
step_timeout_ms = 5000

abbrev pub correlation_id_base : ℕ
correlation_id_base = 0x80000000

abbrev pub dp_command_value_max_len : ℕ
dp_command_value_max_len = 4

abbrev pub max_init_steps : ℕ
max_init_steps = 4

pub data TuyaInitStatus : Type 0 where
  not_started ready init_pending waiting_ack degraded failed : TuyaInitStatus

pub record TuyaInitStep : Type 0 where
  pub dp_id : ℕ  -- uint8_t
  pub dp_type : TuyaDpType
  pub value : List ℕ  -- an array of `dp_command_value_max_len` uint8_t
  pub value_len : ℕ  -- uint8_t
  pub endpoint : ℕ  -- uint8_t

abbrev pub blank_value : List ℕ
blank_value = replicate dp_command_value_max_len 0

abbrev pub no_step : TuyaInitStep
no_step = record {
  dp_id = 0;
  dp_type = TuyaDpType.raw;
  value = blank_value;
  value_len = 0;
  endpoint = 1;
}

pub record TuyaInitPlan : Type 0 where
  pub step_count : ℕ  -- uint8_t
  pub steps : List TuyaInitStep  -- an array of `max_init_steps`

abbrev pub no_plan : TuyaInitPlan
no_plan = record { step_count = 0; steps = replicate max_init_steps no_step }

abbrev pub is_empty : TuyaInitPlan → Bool
is_empty plan = plan.step_count == 0

pub record TuyaInitEntry : Type 0 where
  pub in_use : Bool
  pub short_addr : ℕ  -- uint16_t
  pub status : TuyaInitStatus
  pub current_step : ℕ  -- uint8_t
  pub retries_left : ℕ  -- uint8_t
  pub deadline_ms : ℕ  -- uint32_t
  pub correlation_id : ℕ  -- uint32_t
  pub plan : TuyaInitPlan

abbrev pub no_entry : TuyaInitEntry
no_entry = record {
  in_use = false;
  short_addr = 0xffff;
  status = TuyaInitStatus.not_started;
  current_step = 0;
  retries_left = max_retries;
  deadline_ms = 0;
  correlation_id = 0;
  plan = no_plan;
}

-- The action that `tick` asks for; one with `pending` false is `none`.
pub record TuyaInitAction : Type 0 where
  pub short_addr : ℕ  -- uint16_t
  pub endpoint : ℕ  -- uint8_t
  pub dp_id : ℕ  -- uint8_t
  pub dp_type : TuyaDpType
  pub value : List ℕ  -- an array of `dp_command_value_max_len` uint8_t
  pub value_len : ℕ  -- uint8_t
  pub correlation_id : ℕ  -- uint32_t

pub record TuyaInitCoordinator : Type 0 where
  pub entries : List TuyaInitEntry  -- an array of `max_devices`
  pub correlation_id_counter : ℕ  -- uint32_t

abbrev pub new_coordinator : TuyaInitCoordinator
new_coordinator = record {
  entries = replicate max_devices no_entry;
  correlation_id_counter = correlation_id_base;
}

abbrev pub is_pending : TuyaInitStatus → Bool
is_pending TuyaInitStatus.not_started = false
is_pending TuyaInitStatus.ready = false
is_pending TuyaInitStatus.init_pending = true
is_pending TuyaInitStatus.waiting_ack = false
is_pending TuyaInitStatus.degraded = false
is_pending TuyaInitStatus.failed = false

abbrev pub is_waiting : TuyaInitStatus → Bool
is_waiting TuyaInitStatus.not_started = false
is_waiting TuyaInitStatus.ready = false
is_waiting TuyaInitStatus.init_pending = false
is_waiting TuyaInitStatus.waiting_ack = true
is_waiting TuyaInitStatus.degraded = false
is_waiting TuyaInitStatus.failed = false

-- The tests of `find`, `allocate` and `find_by_correlation_id`.
abbrev pub has_addr : ℕ → TuyaInitEntry → Bool
has_addr short_addr e = e.in_use && e.short_addr == short_addr

abbrev pub is_vacant : TuyaInitEntry → Bool
is_vacant e = not e.in_use

abbrev pub has_correlation_id : ℕ → TuyaInitEntry → Bool
has_correlation_id correlation_id e = e.in_use && e.correlation_id == correlation_id

-- The entry as `notify_device_resolved` leaves it.
abbrev pub started : ℕ → TuyaInitPlan → TuyaInitEntry
started short_addr plan = record {
  in_use = true;
  short_addr = short_addr;
  status = if is_empty plan then TuyaInitStatus.ready else TuyaInitStatus.init_pending;
  current_step = 0;
  retries_left = max_retries;
  deadline_ms = 0;
  correlation_id = 0;
  plan = plan;
}

-- `find`, then `allocate`: the place of a device, or a vacant one.
abbrev pub find_or_allocate : List TuyaInitEntry → ℕ → Option ℕ
find_or_allocate entries short_addr = elim (find_index (has_addr short_addr) entries) [
  | some i ↦ some i
  | none ↦ find_index is_vacant entries
]

unfoldable pub notify_device_resolved : TuyaInitCoordinator → ℕ → TuyaInitPlan → TuyaInitCoordinator
notify_device_resolved c short_addr plan = elim (find_or_allocate c.entries short_addr) [
  | none ↦ c
  | some i ↦ record c { entries = set c.entries i (started short_addr plan) }
]

unfoldable pub notify_device_removed : TuyaInitCoordinator → ℕ → TuyaInitCoordinator
notify_device_removed c short_addr = elim (find_index (has_addr short_addr) c.entries) [
  | none ↦ c
  | some i ↦ record c { entries = set c.entries i no_entry }
]

-- One more try for the current step, or none: after a timeout and after a failure.
abbrev pub retry : TuyaInitEntry → TuyaInitEntry
retry e =
    if ltb 0 e.retries_left
    then record e { retries_left = e.retries_left - 1; status = TuyaInitStatus.init_pending }
    else record e { status = TuyaInitStatus.degraded }

-- The body of the first loop of `tick`.
abbrev pub check_deadline : ℕ → TuyaInitEntry → TuyaInitEntry
check_deadline now_ms e =
    if e.in_use && is_waiting e.status then if leb e.deadline_ms now_ms then retry e else e else e

-- The loop over the value: `value_len` bytes, and `dp_command_value_max_len` at most.
abbrev pub copy_value : ℕ → List ℕ → List ℕ
copy_value value_len value =
    let n =
      if ltb value_len dp_command_value_max_len then value_len else dp_command_value_max_len in
    take n value ++ replicate (dp_command_value_max_len - n) 0

abbrev pub action_of : TuyaInitEntry → ℕ → TuyaInitAction
action_of e id =
    let step = get_or e.plan.steps e.current_step no_step in
    record {
      short_addr = e.short_addr;
      endpoint = step.endpoint;
      dp_id = step.dp_id;
      dp_type = step.dp_type;
      value = copy_value step.value_len step.value;
      value_len = step.value_len;
      correlation_id = id;
    }

-- The entry after its action is sent under the correlation id `id`.
abbrev pub sent : ℕ → ℕ → TuyaInitEntry → TuyaInitEntry
sent now_ms id e = record e {
  correlation_id = id;
  deadline_ms = u32 (now_ms + step_timeout_ms);
  status = TuyaInitStatus.waiting_ack;
}

-- The second loop of `tick`, where the next correlation id is `id`.
unfoldable pub next_action : ℕ → ℕ → List TuyaInitEntry → List TuyaInitEntry × Option TuyaInitAction
next_action now_ms id [] = ([], none)
next_action now_ms id (e ∷ es) =
    let (es', action) = next_action now_ms id es in
    if e.in_use && is_pending e.status
    then if leb e.plan.step_count e.current_step
      then (record e { status = TuyaInitStatus.ready } ∷ es', action)
      else (sent now_ms id e ∷ es, some (action_of e id))
    else (e ∷ es', action)

-- `next_correlation_id` is taken where an action is sent; the time is a uint32_t.
unfoldable pub tick : TuyaInitCoordinator → ℕ → TuyaInitCoordinator × Option TuyaInitAction
tick c now_ms =
    let id = c.correlation_id_counter in
    let (entries, action) = next_action now_ms id (map (check_deadline now_ms) c.entries) in
    (
      record {
        entries = entries;
        correlation_id_counter = elim action [ none ↦ id | some a ↦ u32 (id + 1) ];
      },
      action,
    )

-- The entry after an acknowledgement of the command it waits for.
unfoldable pub acknowledge : Bool → TuyaInitEntry → TuyaInitEntry
acknowledge true e =
    let step = u8 (e.current_step + 1) in
    record e {
      current_step = step;
      retries_left = max_retries;
      status =
          if leb e.plan.step_count step then TuyaInitStatus.ready else TuyaInitStatus.init_pending;
    }
acknowledge false e = retry e

unfoldable pub notify_ack : TuyaInitCoordinator → ℕ → Bool → TuyaInitCoordinator × Bool
notify_ack c correlation_id success =
    elim (find_index (has_correlation_id correlation_id) c.entries) [
      | none ↦ (c, false)
      | some i ↦
          let e = get_or c.entries i no_entry in
          if is_waiting e.status
          then (record c { entries = set c.entries i (acknowledge success e) }, true)
          else (c, false)
    ]

unfoldable pub status : TuyaInitCoordinator → ℕ → TuyaInitStatus
status c short_addr = elim (find_index (has_addr short_addr) c.entries) [
  | none ↦ TuyaInitStatus.not_started
  | some i ↦ (get_or c.entries i no_entry).status
]

abbrev pub clear : TuyaInitCoordinator → TuyaInitCoordinator
clear c = new_coordinator
