-- ===== src/Service/ResultStore.antt =====
-- components/service/operation_result_store.cpp: the results of requests, which a client polls and
-- takes. The store copies results and reads their request id only, so the other fields of a result
-- are values of any types. The lock makes each operation one step.
pub mod Queue
pub mod Lifecycle
use zigbee_gateway_v.Common.{
  ℕ, ◌+◌, Bool, true, false, not, ◌&&◌, ◌||◌, Option, none, some, List, [], ◌==◌, if◌then◌else◌,
  length, u32,
}
use zigbee_gateway_v.Service.ResultStore.Queue.{
  Tagged, lookup, is_known, overwrite, append, upsert, delete,
}

-- The capacities of the queues for network, configuration, OTA and RCP update results.
abbrev pub network_capacity : ℕ
network_capacity = 16

abbrev pub config_capacity : ℕ
config_capacity = 8

abbrev pub ota_capacity : ℕ
ota_capacity = 4

abbrev pub rcp_update_capacity : ℕ
rcp_update_capacity = 4

pub data NetworkOperationPollStatus : Type 0 where
  not_ready scan_queued scan_in_progress ready : NetworkOperationPollStatus

pub data OtaPollStatus : Type 0 where
  not_ready queued downloading ready : OtaPollStatus

pub data RcpUpdatePollStatus : Type 0 where
  not_ready queued applying ready : RcpUpdatePollStatus

-- The results of one kind of request with the statuses of the requests that wait.
pub record Results (R S : Type 0) : Type 0 where
  pub results : List (Tagged R)
  pub statuses : List (Tagged S)

module _ {R S : Type 0} (capacity : ℕ) where
  -- `upsert_*_poll_status_locked`, whose result the callers ignore.
  unfoldable pub upsert_poll_status : Results R S → ℕ → S → Results R S
  upsert_poll_status r id status = if id == 0 then r else record r {
    statuses = upsert capacity (record { request_id = id; value = status }) r.statuses;
  }

  -- `note_*_poll_status`, with the test whether the status is not-ready.
  unfoldable pub note_poll_status : (S → Bool) → Results R S → ℕ → S → Results R S
  note_poll_status is_not_ready r id status =
      if is_not_ready status
      then record r { statuses = delete id r.statuses }
      else upsert_poll_status r id status

  -- `publish_ota_result` and `publish_rcp_update_result`, with the status ready as `final`.
  unfoldable pub publish_result : S → Results R S → Tagged R → Results R S × Bool
  publish_result final r result = if result.request_id == 0 then (r, false) else (
    upsert_poll_status (record r { results = upsert capacity result r.results }) result.request_id
        final,
    true,
  )

  -- `publish_network_result`: it takes a result with request id 0, which never overwrites one, and
  -- notes the status of a new result only.
  unfoldable pub publish_network_result : S → Results R S → Tagged R → Results R S × Bool
  publish_network_result final r result =
      if not (result.request_id == 0) && is_known result.request_id r.results
      then (record r { results = overwrite result r.results }, true)
      else (
        upsert_poll_status (record r { results = append capacity result r.results })
            result.request_id final,
        true,
      )

abbrev pub status_or : {S : Type 0} → S → Option S → S
status_or initial none = initial
status_or initial (some status) = status

module _ {R S : Type 0} where
  -- `take_network_result`, `take_ota_result` and `take_rcp_update_result`; `none` is the result
  -- false.
  unfoldable pub take_result : Results R S → ℕ → Results R S × Option R
  take_result r id = if id == 0 then (r, none) else elim (lookup id r.results) [
    | none ↦ (r, none)
    | some value ↦
        (record { results = delete id r.results; statuses = delete id r.statuses }, some value)
  ]

  -- `get_*_poll_status`.
  unfoldable pub get_poll_status : S → S → Results R S → ℕ → S
  get_poll_status initial final r id =
      if id == 0
      then initial
      else if is_known id r.results
      then final
      else status_or initial (lookup id r.statuses)

-- `publish_config_result` and `take_config_result`: these results have no statuses.
unfoldable pub publish_config_result :
    {R : Type 0} → List (Tagged R) → Tagged R → List (Tagged R) × Bool
publish_config_result results result =
    if result.request_id == 0
    then (results, false)
    else (upsert config_capacity result results, true)

unfoldable pub take_config_result : {R : Type 0} → List (Tagged R) → ℕ → List (Tagged R) × Option R
take_config_result results id = if id == 0 then (results, none) else elim (lookup id results) [
  | none ↦ (results, none)
  | some value ↦ (delete id results, some value)
]

pub record OperationResultStore (Network Config Ota RcpUpdate : Type 0) : Type 0 where
  pub next_request_id : ℕ  -- std::atomic<uint32_t>
  pub config_results : List (Tagged Config)
  pub network : Results Network NetworkOperationPollStatus
  pub ota : Results Ota OtaPollStatus
  pub rcp_update : Results RcpUpdate RcpUpdatePollStatus

-- `next_request_id`: the id handed out, and the new counter. The loop repeats the exchange until
-- no other thread came between its load and its store.
unfoldable pub take_request_id : ℕ → ℕ × ℕ
take_request_id current = (current, if current == 0xffffffff then 1 else u32 (current + 1))

abbrev pub network_not_ready : NetworkOperationPollStatus → Bool
network_not_ready NetworkOperationPollStatus.not_ready = true
network_not_ready _ = false

abbrev pub ota_not_ready : OtaPollStatus → Bool
ota_not_ready OtaPollStatus.not_ready = true
ota_not_ready _ = false

abbrev pub rcp_update_not_ready : RcpUpdatePollStatus → Bool
rcp_update_not_ready RcpUpdatePollStatus.not_ready = true
rcp_update_not_ready _ = false

-- The operations of the store, each on the queues of its kind.
module _ {N C O U : Type 0} (store : OperationResultStore N C O U) where
  abbrev pub next_request_id : ℕ × OperationResultStore N C O U
  next_request_id =
      let (id, next) = take_request_id store.next_request_id in
      (id, record store { next_request_id = next })

  abbrev pub note_network_poll_status :
      ℕ → NetworkOperationPollStatus → OperationResultStore N C O U
  note_network_poll_status id status = record store {
    network = note_poll_status network_capacity network_not_ready store.network id status;
  }

  abbrev pub note_ota_poll_status : ℕ → OtaPollStatus → OperationResultStore N C O U
  note_ota_poll_status id status = record store {
    ota = note_poll_status ota_capacity ota_not_ready store.ota id status;
  }

  abbrev pub note_rcp_update_poll_status : ℕ → RcpUpdatePollStatus → OperationResultStore N C O U
  note_rcp_update_poll_status id status = record store {
    rcp_update =
        note_poll_status rcp_update_capacity rcp_update_not_ready store.rcp_update id status;
  }

  abbrev pub publish_config : Tagged C → OperationResultStore N C O U × Bool
  publish_config result =
      let (results, done) = publish_config_result store.config_results result in
      (record store { config_results = results }, done)

  abbrev pub publish_network : Tagged N → OperationResultStore N C O U × Bool
  publish_network result =
      let (network, done) =
        publish_network_result network_capacity NetworkOperationPollStatus.ready store.network
          result in
      (record store { network = network }, done)

  abbrev pub publish_ota : Tagged O → OperationResultStore N C O U × Bool
  publish_ota result =
      let (ota, done) = publish_result ota_capacity OtaPollStatus.ready store.ota result in
      (record store { ota = ota }, done)

  abbrev pub publish_rcp_update : Tagged U → OperationResultStore N C O U × Bool
  publish_rcp_update result =
      let (rcp_update, done) =
        publish_result rcp_update_capacity RcpUpdatePollStatus.ready store.rcp_update result in
      (record store { rcp_update = rcp_update }, done)

  abbrev pub take_config : ℕ → OperationResultStore N C O U × Option C
  take_config id =
      let (results, out) = take_config_result store.config_results id in
      (record store { config_results = results }, out)

  abbrev pub take_network : ℕ → OperationResultStore N C O U × Option N
  take_network id =
      let (network, out) = take_result store.network id in (record store { network = network }, out)

  abbrev pub take_ota : ℕ → OperationResultStore N C O U × Option O
  take_ota id = let (ota, out) = take_result store.ota id in (record store { ota = ota }, out)

  abbrev pub take_rcp_update : ℕ → OperationResultStore N C O U × Option U
  take_rcp_update id =
      let (rcp_update, out) = take_result store.rcp_update id in
      (record store { rcp_update = rcp_update }, out)

  abbrev pub get_network_operation_poll_status : ℕ → NetworkOperationPollStatus
  get_network_operation_poll_status =
      get_poll_status NetworkOperationPollStatus.not_ready NetworkOperationPollStatus.ready
        store.network

  abbrev pub get_ota_poll_status : ℕ → OtaPollStatus
  get_ota_poll_status = get_poll_status OtaPollStatus.not_ready OtaPollStatus.ready store.ota

  abbrev pub get_rcp_update_poll_status : ℕ → RcpUpdatePollStatus
  get_rcp_update_poll_status =
      get_poll_status RcpUpdatePollStatus.not_ready RcpUpdatePollStatus.ready store.rcp_update

  abbrev pub pending_config_results : ℕ
  pending_config_results = length store.config_results

  abbrev pub pending_network_results : ℕ
  pending_network_results = length store.network.results

  abbrev pub pending_ota_results : ℕ
  pending_ota_results = length store.ota.results

  abbrev pub pending_rcp_update_results : ℕ
  pending_rcp_update_results = length store.rcp_update.results
