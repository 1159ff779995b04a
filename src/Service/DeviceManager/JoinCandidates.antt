-- ===== src/Service/DeviceManager/JoinCandidates.antt =====
-- components/service/device_manager.cpp: the history of the devices that asked to join.
use zigbee_gateway_v.Common.{
  ℕ, zero, ◌⊎◌, suc, ◌+◌, ◌<◌, ◌≡◌, refl, ap, ◌∙◌, Bool, true, false, Option, none, some, List, [],
  ◌∷◌, arith, leb, ◌==◌, Bool-cases, Option-cases, inl, inr, if◌then◌else◌, find_index,
  find_index-some, find_index-set, find_index-cong, get_or-set, ==_refl, length, length-set, get_or,
  get_or-set_self, set, sub_u32,
}
use zigbee_gateway_v.Service.DeviceManager.Eviction.{
  IsFirstFree, IsOldest, target_within, scan-target,
}
use zigbee_gateway_v.Service.DeviceManager.{
  JoinCandidateEntry, DeviceManager, join_candidate_history_size, join_dedup_window_ms,
  no_candidate, no_device_addr, JoinScan, scan_candidates, is_duplicate_join_candidate,
}

-- The time at which an address was last let through.
unfoldable pub seen_of : ℕ → List JoinCandidateEntry → Option ℕ
seen_of a [] = none
seen_of a (e ∷ es) = if e.short_addr == a then some e.seen_at_ms else seen_of a es

abbrev is_of : ℕ → JoinCandidateEntry → Bool
is_of a e = e.short_addr == a

seen_of-found :
    (a : ℕ) (es : List JoinCandidateEntry) (k : ℕ)
    → find_index (is_of a) es ≡ some k
    → seen_of a es ≡ some (get_or es k no_candidate).seen_at_ms
unfolding seen_of find_index
seen_of-found a [] k h = cc
seen_of-found a (e ∷ es) zero h = ground arith
seen_of-found a (e ∷ es) (suc k) h = ground (arith, seen_of-found a es k)

seen_of-missed :
    (a : ℕ) (es : List JoinCandidateEntry) → find_index (is_of a) es ≡ none → seen_of a es ≡ none
unfolding seen_of find_index
seen_of-missed a [] h = refl
seen_of-missed a (e ∷ es) h = ground (arith, seen_of-missed a es)

skipped :
    (a : ℕ) (e : JoinCandidateEntry) (es : List JoinCandidateEntry) (k : ℕ)
    → find_index (is_of a) (e ∷ es) ≡ some k
    → 0 < k
    → (e.short_addr == a) ≡ false
unfolding find_index
skipped a e es k h later = ground arith

scan-hit :
    (a : ℕ) (es : List JoinCandidateEntry) (i : ℕ) (free : Option ℕ) (oldest oldest_ms k : ℕ)
    → find_index (is_of a) es ≡ some k
    → scan_candidates a es i free oldest oldest_ms ≡ JoinScan.seen (i + k)
unfolding scan_candidates find_index
scan-hit a [] i free oldest oldest_ms k h = cc
scan-hit a (e ∷ es) i free oldest oldest_ms zero h = ground arith
scan-hit a (e ∷ es) i free oldest oldest_ms (suc k) h =
    rw (skipped a e es (suc k) h (omega arith))
      (scan-hit a es (i + 1) _ _ _ k (ground (arith, h)) ∙ ap JoinScan.seen (omega arith))

-- A time at most the window ago, in uint32_t.
abbrev pub recently : ℕ → Option ℕ → Bool
recently now_ms none = false
recently now_ms (some t) = leb (sub_u32 now_ms t) join_dedup_window_ms

-- How the history changes: a recent address is refused, a known one gets the new time, and a new one
-- takes the first free entry or else one with the least time.
pub data Noted (m : DeviceManager) (a now_ms : ℕ) : DeviceManager × Bool → Type 0 where
  again : recently now_ms (seen_of a m.join_candidate_history) ≡ true → Noted m a now_ms (m, true)
  renewed :
      (k : ℕ)
      → k < length m.join_candidate_history
      → (get_or m.join_candidate_history k no_candidate).short_addr ≡ a
      → seen_of a m.join_candidate_history
        ≡ some (get_or m.join_candidate_history k no_candidate).seen_at_ms
      → recently now_ms (seen_of a m.join_candidate_history) ≡ false
      → Noted m a now_ms (
        record m {
          join_candidate_history =
              set m.join_candidate_history k (record { short_addr = a; seen_at_ms = now_ms });
        },
        false,
      )
  entered :
      (k : ℕ)
      → seen_of a m.join_candidate_history ≡ none
      → IsFirstFree m.join_candidate_history k ⊎ IsOldest m.join_candidate_history k
      → Noted m a now_ms (
        record m {
          join_candidate_history =
              set m.join_candidate_history k (record { short_addr = a; seen_at_ms = now_ms });
        },
        false,
      )

module _ (m : DeviceManager) (a now_ms : ℕ) where
  abbrev history : List JoinCandidateEntry
  history = m.join_candidate_history

  abbrev noted : ℕ → List JoinCandidateEntry
  noted i = set history i (record { short_addr = a; seen_at_ms = now_ms })

  -- The entry written holds the new time.
  seen_of-noted :
      (i : ℕ)
      → i < length history
      → find_index (is_of a) (noted i) ≡ some i
      → seen_of a (noted i) ≡ some now_ms
  seen_of-noted i lt h =
      seen_of-found a (noted i) i h
      ∙ ap (λ (e : JoinCandidateEntry). some e.seen_at_ms)
          (get_or-set_self history i _ no_candidate lt)

  find-noted_again :
      (i : ℕ) → find_index (is_of a) history ≡ some i → find_index (is_of a) (noted i) ≡ some i
  find-noted_again i h =
      let f = find_index-some (is_of a) history i no_candidate h in
      find_index-cong (is_of a) (noted i) history no_candidate (length-set history i _) (λ j lt.
        ground (
          arith,
          f,
          get_or-set history i (record { short_addr = a; seen_at_ms = now_ms }) j no_candidate,
        ))
      ∙ h

  -- With its eight entries, `is_duplicate_join_candidate` refuses an address of a device exactly
  -- when the history has an entry of it whose time is at most 5000 ms ago in uint32_t arithmetic,
  -- and then changes nothing; else it lets the address through and notes the time, in the entry of
  -- the address, or, for an address without an entry, in the first free one, or, if none is free,
  -- in one with the least time of all, which is overwritten. All else stays, and the history keeps its size.
  pub is_duplicate-recently :
      length m.join_candidate_history ≡ join_candidate_history_size
      → no_device_addr a ≡ false
      → let (m', duplicate) = is_duplicate_join_candidate m a now_ms in
        (duplicate ≡ recently now_ms (seen_of a m.join_candidate_history))
        × (seen_of a m'.join_candidate_history
            ≡ (if duplicate then seen_of a m.join_candidate_history else some now_ms))
        × (length m'.join_candidate_history ≡ join_candidate_history_size)
        × Noted m a now_ms (m', duplicate)
  unfolding is_duplicate_join_candidate
  is_duplicate-recently size good = elim (Option-cases (find_index (is_of a) history)) [
    | inr (i, h) ↦
        let f = find_index-some (is_of a) history i no_candidate h in
        let e =
          scan-hit a history 0 none 0 (get_or history 0 no_candidate).seen_at_ms i h
          ∙ ap JoinScan.seen {y = i} (omega arith) in
        elim (Bool-cases
          (leb (sub_u32 now_ms (get_or history i no_candidate).seen_at_ms) join_dedup_window_ms)) [
            | inl soon ↦
                rw (good, e, seen_of-found a history i h, soon)
                  (
                    refl,
                    seen_of-found a history i h,
                    size,
                    again (rw (seen_of-found a history i h) soon),
                  )
            | inr late ↦
                rw (good, e, seen_of-found a history i h, late)
                  (
                    refl,
                    seen_of-noted i f.0 (find-noted_again i h),
                    length-set history i _ ∙ size,
                    renewed i f.0 (ground (arith, f.1)) (seen_of-found a history i h)
                        (rw (seen_of-found a history i h) late),
                  )
          ]
    | inl h ↦
        let (k, e, target) =
          scan-target history a history 0 none 0 (get_or history 0 no_candidate).seen_at_ms h
            (omega arith) (λ j. ap (λ n. get_or history n no_candidate) (omega arith))
            (omega (arith, size), refl, λ j below. absurd (omega arith)) in
        rw (good, e, seen_of-missed a history h)
          (
            refl,
            seen_of-noted k (target_within history k target) (
                find_index-set (is_of a) history k _ h (target_within history k target)
                  (==_refl a)),
            length-set history k _ ∙ size,
            entered k (seen_of-missed a history h) target,
          )
  ]
