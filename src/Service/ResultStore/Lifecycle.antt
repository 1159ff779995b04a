-- ===== src/Service/ResultStore/Lifecycle.antt =====
-- components/service/operation_result_store.cpp: a result from its publication to its removal.
use zigbee_gateway_v.Common.{
  ℕ, ◌+◌, ◌%◌, ap, ◌≤◌, ◌<◌, ◌≡◌, refl, ◌≢◌, false, not, ◌&&◌, Option, Bool-cases, inl, inr, none,
  some, arith, ◌==◌, if◌then◌else◌,
}
use zigbee_gateway_v.Service.ResultStore.{
  Results, upsert_poll_status, publish_result, take_result, get_poll_status, take_request_id,
}
use zigbee_gateway_v.Service.ResultStore.Queue.{
  Tagged, lookup, is_known, is_known-found, is_known-missing, is_evicted, delete, Inv, upsert-Inv,
  delete-Inv, lookup-upsert, lookup-delete,
}

-- Both queues of a kind fit their arrays and have no request twice.
pub record IsValid {R S : Type 0} (capacity : ℕ) (r : Results R S) : Type 0 where
  pub results : Inv capacity r.results
  pub statuses : Inv capacity r.statuses

module _ {R S : Type 0} (capacity : ℕ) (pos : 0 < capacity) where
  upsert_poll_status-IsValid :
      (r : Results R S) (id : ℕ) (status : S)
      → IsValid capacity r
      → IsValid capacity (upsert_poll_status capacity r id status)
  unfolding upsert_poll_status
  upsert_poll_status-IsValid r id status v = elim (Bool-cases (id == 0)) [
    | inl e ↦ rw e v
    | inr e ↦ rw e (record {
      results = v.results;
      statuses =
          upsert-Inv capacity (record { request_id = id; value = status }) r.statuses pos
            v.statuses;
    })
  ]

  -- With valid queues and room for a result at all, publishing the result of an OTA or an RCP
  -- update keeps both queues of its kind valid; a result with request id 0 is refused with no
  -- change of the results or the statuses; any other is stored under its id, with the final status
  -- under the same id, and no other result and no other status is lost but the oldest of a full
  -- queue that does not know the id.
  pub publish_result-lookup :
      (final : S) (r : Results R S) (result : Tagged R) (k : ℕ)
      → IsValid capacity r
      → let (r', done) = publish_result capacity final r result in
        IsValid capacity r'
        × (done ≡ not (result.request_id == 0))
        × ((if done then r else r') ≡ r)
        × (lookup k r'.results ≡ (
            if not done
            then lookup k r.results
            else if result.request_id == k
            then some result.value
            else if not (is_known result.request_id r.results) && is_evicted capacity k r.results
            then none
            else lookup k r.results))
        × (lookup k r'.statuses ≡ (
            if not done
            then lookup k r.statuses
            else if result.request_id == k
            then some final
            else if not (is_known result.request_id r.statuses) && is_evicted capacity k r.statuses
            then none
            else lookup k r.statuses))
  unfolding publish_result upsert_poll_status
  publish_result-lookup final r result k v = elim (Bool-cases (result.request_id == 0)) [
    | inl e ↦ rw e (v, refl, refl, refl, refl)
    | inr e ↦ rw e (
      record {
        results = upsert-Inv capacity result r.results pos v.results;
        statuses =
            upsert-Inv capacity (record { request_id = result.request_id; value = final })
              r.statuses pos v.statuses;
      },
      refl,
      refl,
      lookup-upsert capacity result r.results k v.results.distinct,
      lookup-upsert capacity (record { request_id = result.request_id; value = final }) r.statuses k
          v.statuses.distinct,
    )
  ]

module _ {R S : Type 0} (capacity : ℕ) (r : Results R S) (v : IsValid capacity r) (id : ℕ)
    (nonzero : id ≢ 0) where
  some_id : (id == 0) ≡ false
  some_id = ground (arith, nonzero)

  -- The queues without the request.
  abbrev without : Results R S
  without = record { results = delete id r.results; statuses = delete id r.statuses }

  taken : (value : R) → lookup id r.results ≡ some value → take_result r id ≡ (without, some value)
  unfolding take_result
  taken value found = rw (some_id, found) refl

  no_result : lookup id (delete id r.results) ≡ none
  no_result = ground (arith, lookup-delete id id r.results v.results.distinct)

  no_status : lookup id (delete id r.statuses) ≡ none
  no_status = ground (arith, lookup-delete id id r.statuses v.statuses.distinct)

  taken_again : take_result without id ≡ (without, none)
  unfolding take_result
  taken_again = rw (some_id, no_result) refl

  poll-without : (initial final : S) → get_poll_status initial final without id ≡ initial
  unfolding get_poll_status
  poll-without initial final =
      rw (some_id, is_known-missing id (delete id r.results) no_result, no_status) refl

  poll-found :
      (initial final : S) (value : R)
      → lookup id r.results ≡ some value
      → get_poll_status initial final r id ≡ final
  unfolding get_poll_status
  poll-found initial final value found = rw (some_id, is_known-found id r.results value found) refl

  -- With valid queues, a request that is not 0 and has a result polls as ready; taking it
  -- returns this result, and afterwards the request polls as not ready and no second take
  -- succeeds; the results and the statuses of other requests stay, and both queues stay valid.
  pub take_result-lookup :
      (initial final : S) (k : ℕ) (value : R)
      → lookup id r.results ≡ some value
      → let (r', out) = take_result r id in
        (get_poll_status initial final r id ≡ final)
        × (out ≡ some value)
        × (get_poll_status initial final r' id ≡ initial)
        × ((take_result r' id).1 ≡ none)
        × (lookup k r'.results ≡ (if id == k then none else lookup k r.results))
        × (lookup k r'.statuses ≡ (if id == k then none else lookup k r.statuses))
        × IsValid capacity r'
  take_result-lookup initial final k value found = rw (taken value found) (
    poll-found initial final value found,
    refl,
    poll-without initial final,
    ap (λ (out : Results R S × Option R). out.1) taken_again,
    lookup-delete id k r.results v.results.distinct,
    lookup-delete id k r.statuses v.statuses.distinct,
    record {
      results = delete-Inv capacity id r.results v.results;
      statuses = delete-Inv capacity id r.statuses v.statuses;
    },
  )

-- A counter between 1 and 2³² - 1 hands out ids between these bounds for ever, and one id follows
-- the other, with 1 after the last one.
pub take_request_id-range :
    (current : ℕ)
    → 0 < current
    → current ≤ 0xffffffff
    → let (id, next) = take_request_id current in
      (id ≡ current) × (0 < next) × (next ≤ 0xffffffff) × (next ≡ id % 0xffffffff + 1)
unfolding take_request_id
take_request_id-range current low high = ground arith
