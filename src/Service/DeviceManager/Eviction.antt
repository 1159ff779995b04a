-- ===== src/Service/DeviceManager/Eviction.antt =====
-- components/service/device_manager.cpp: the entry of the join history that the scan of
-- `is_duplicate_join_candidate` gives up for an address that the history does not have.
use zigbee_gateway_v.Common.{
  ℕ, ap, dec_lt, subst, suc, ◌+◌, ◌≤◌, ◌<◌, ◌≡◌, refl, sym, ◌∙◌, ◌⊎◌, true, false, Option, none,
  some, List, [], ◌∷◌, arith, ltb, ◌==◌, Bool-cases, inl, inr, if◌then◌else◌, find_index, length,
  get_or,
}
use zigbee_gateway_v.Core.Events.{unknown_short_addr}
use zigbee_gateway_v.Service.DeviceManager.{
  JoinCandidateEntry, no_candidate, JoinScan, scan_candidates, first_free,
}

-- The entry is free, and no entry before it is.
pub record IsFirstFree (es : List JoinCandidateEntry) (k : ℕ) : Type 0 where
  pub within : k < length es
  pub free : (get_or es k no_candidate).short_addr ≡ 0xffff
  pub first : (j : ℕ) → j < k → ((get_or es j no_candidate).short_addr == 0xffff) ≡ false

-- No entry is free, and the entry has the least time of all.
pub record IsOldest (es : List JoinCandidateEntry) (k : ℕ) : Type 0 where
  pub within : k < length es
  pub taken : (j : ℕ) → j < length es → ((get_or es j no_candidate).short_addr == 0xffff) ≡ false
  pub least :
      (j : ℕ)
      → j < length es
      → (get_or es k no_candidate).seen_at_ms ≤ (get_or es j no_candidate).seen_at_ms

pub target_within :
    (es : List JoinCandidateEntry) (k : ℕ) → IsFirstFree es k ⊎ IsOldest es k → k < length es
target_within es k (inl f) = f.within
target_within es k (inr o) = o.within

module _ (history : List JoinCandidateEntry) where
  abbrev at : ℕ → JoinCandidateEntry
  at j = get_or history j no_candidate

  -- What the scan knows of the entries before `i`.
  abbrev Scanned : ℕ → Option ℕ → ℕ → ℕ → Type 0
  Scanned i (some f) oldest oldest_ms = IsFirstFree history f
  Scanned i none oldest oldest_ms =
      (oldest < length history)
      × (oldest_ms ≡ (at oldest).seen_at_ms)
      × ((j : ℕ)
          → j < i
          → (((at j).short_addr == 0xffff) ≡ false) × (oldest_ms ≤ (at j).seen_at_ms))

  Scanned-free :
      (i : ℕ) (free : Option ℕ) (oldest oldest_ms : ℕ)
      → i < length history
      → ((at i).short_addr == unknown_short_addr) ≡ true
      → Scanned i free oldest oldest_ms
      → Scanned (i + 1) (first_free free i) oldest oldest_ms
  Scanned-free i none oldest oldest_ms lt e s = record {
    within = lt;
    free = ground (arith, e);
    first = λ j below. (s.2 j below).0;
  }
  Scanned-free i (some f) oldest oldest_ms lt e s = s

  Scanned-taken :
      (i : ℕ) (free : Option ℕ) (oldest oldest_ms : ℕ)
      → i < length history
      → ((at i).short_addr == unknown_short_addr) ≡ false
      → Scanned i free oldest oldest_ms
      → let older = ltb (at i).seen_at_ms oldest_ms in
        Scanned
          (i + 1)
          free
          (if older then i else oldest)
          (if older then (at i).seen_at_ms else oldest_ms)
  Scanned-taken i none oldest oldest_ms lt e s =
      elim (Bool-cases (ltb (at i).seen_at_ms oldest_ms)) [
        | inl h ↦ rw h (lt, refl, λ j below. newer j below (ground (arith, h)))
        | inr h ↦ rw h (s.0, s.1, λ j below. kept j below (ground (arith, h)))
      ]
    where
      at_last : (j : ℕ) → j < i + 1 → ¬ (j < i) → j ≡ i
      at_last j below past = omega arith

      newer :
          (j : ℕ)
          → j < i + 1
          → (at i).seen_at_ms < oldest_ms
          → (((at j).short_addr == 0xffff) ≡ false) × ((at i).seen_at_ms ≤ (at j).seen_at_ms)
      newer j below h = elim (dec_lt j i) [
        | yes before ↦ ((s.2 j before).0, omega (arith, h, (s.2 j before).1))
        | no past ↦ rw (at_last j below past) (e, omega arith)
      ]

      kept :
          (j : ℕ)
          → j < i + 1
          → oldest_ms ≤ (at i).seen_at_ms
          → (((at j).short_addr == 0xffff) ≡ false) × (oldest_ms ≤ (at j).seen_at_ms)
      kept j below h = elim (dec_lt j i) [
        | yes before ↦ s.2 j before
        | no past ↦ rw (at_last j below past) (e, h)
      ]
  Scanned-taken i (some f) oldest oldest_ms lt e s = s

  -- A scan that misses the address ends at the first free entry, or else at the oldest one.
  pub scan-target :
      (a : ℕ) (es : List JoinCandidateEntry) (i : ℕ) (free : Option ℕ) (oldest oldest_ms : ℕ)
      → find_index (λ (e : JoinCandidateEntry). e.short_addr == a) es ≡ none
      → i + length es ≡ length history
      → ((j : ℕ) → get_or es j no_candidate ≡ at (i + j))
      → Scanned i free oldest oldest_ms
      → (k : ℕ) × (scan_candidates a es i free oldest oldest_ms ≡ JoinScan.unseen k)
        × (IsFirstFree history k ⊎ IsOldest history k)
  unfolding scan_candidates find_index
  scan-target a [] i none oldest oldest_ms h size same s = (
    oldest,
    refl,
    inr (record {
      within = s.0;
      taken = λ j lt. (s.2 j (omega (arith, size, lt))).0;
      least = λ j lt. rw (← s.1) ((s.2 j (omega (arith, size, lt))).1);
    }),
  )
  scan-target a [] i (some f) oldest oldest_ms h size same s = (f, refl, inl s)
  scan-target a (e ∷ es) i free oldest oldest_ms h size same s =
      elim (Bool-cases (e.short_addr == unknown_short_addr)) [
        | inl u ↦
            rw (differs, u)
              (scan-target a es (i + 1) (first_free free i) oldest oldest_ms (ground (arith, h))
                (omega (arith, size)) shifted
                (Scanned-free i free oldest oldest_ms (omega (arith, size)) (rw here u) s))
        | inr u ↦
            let next =
              subst
                (λ (x : JoinCandidateEntry).
                  let older = ltb x.seen_at_ms oldest_ms in
                  Scanned (i + 1) free (if older then i else oldest)
                    (if older then x.seen_at_ms else oldest_ms))
                here (Scanned-taken i free oldest oldest_ms (omega (arith, size)) (rw here u) s) in
            rw (differs, u)
              (scan-target a es (i + 1) free _ _ (ground (arith, h)) (omega (arith, size)) shifted
                next)
      ]
    where
      differs : (e.short_addr == a) ≡ false
      differs = ground (arith, h)

      here : at i ≡ e
      here = rw (sym i_zero) (sym (same 0))
        where
          i_zero : i + 0 ≡ i
          i_zero = omega arith

      shifted : (j : ℕ) → get_or es j no_candidate ≡ at (i + 1 + j)
      shifted j = same (suc j) ∙ ap at (omega arith)
