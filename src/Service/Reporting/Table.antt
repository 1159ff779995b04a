-- ===== src/Service/Reporting/Table.antt =====
-- components/service/reporting_manager.cpp: well-formed entries, and writing one.
use zigbee_gateway_v.Common.{
  ℕ, ◌≤◌, ◌<◌, ◌≡◌, refl, sym, ap, ◌∙◌, ◌≢◌, ◌⊎◌, true, false, ◌&&◌, Option, Option-cases,
  Bool-cases, inl, inr, some, List, arith, ltb, ◌==◌, length, length-set, get_or, get_or-set, set,
  find_index, find_index-some, find_index-none, get_or-ge, dec_lt, ==→eq,
}
use zigbee_gateway_v.Core.Events.{CoreEventType, unknown_short_addr}
use zigbee_gateway_v.Core.State.{max_devices}
use zigbee_gateway_v.Service.Reporting.Entry.{
  Entry, no_entry, RetryTarget, FailureReason, max_retry_attempts, has_addr, is_free,
  valid_short_addr, advance, is_joined,
}
use zigbee_gateway_v.Service.Reporting.Manager.{index_for, claim, is_no_target, fail}
use zigbee_gateway_v.Service.Reporting.Occupancy.{index_or_free}

-- What holds of an entry: a free one is blank, a retry that is waiting was counted and is for an
-- operation, and there were three tries at most.
pub record EntryOk (e : Entry) : Type 0 where
  pub blank : e.short_addr ≡ unknown_short_addr → e ≡ no_entry
  pub device : e.short_addr ≢ 0
  pub attempts : e.retry_attempt ≤ max_retry_attempts
  pub counted : e.retry_pending ≡ true → 0 < e.retry_attempt
  pub aimed : e.retry_pending ≡ true → is_no_target e.retry_target ≡ false

pub record Inv (es : List Entry) : Type 0 where
  pub size : length es ≡ max_devices
  pub each : (i : ℕ) → EntryOk (get_or es i no_entry)
  pub unique :
      (i j : ℕ)
      → i ≢ j
      → (get_or es i no_entry).short_addr ≡ (get_or es j no_entry).short_addr
      → (get_or es i no_entry).short_addr ≡ unknown_short_addr

pub no_entry-EntryOk : EntryOk no_entry
no_entry-EntryOk = record {
  blank = λ h. refl;
  device = λ h. omega arith;
  attempts = omega arith;
  counted = λ h. cc;
  aimed = λ h. cc;
}

pub set-Inv :
    (es : List Entry) (i : ℕ) (e : Entry)
    → Inv es
    → EntryOk e
    → ((j : ℕ)
        → j ≢ i
        → (get_or es j no_entry).short_addr ≡ e.short_addr
        → e.short_addr ≡ unknown_short_addr)
    → Inv (set es i e)
set-Inv es i e inv ok new = record {
  size = length-set es i e ∙ inv.size;
  each = λ j. elim (Bool-cases ((i == j) && ltb i (length es))) [
    | inl h ↦ rw (get_or-set es i e j no_entry, h) ok
    | inr h ↦ rw (get_or-set es i e j no_entry, h) (inv.each j)
  ];
  unique = λ j k ne.
      rw (get_or-set es i e j no_entry, get_or-set es i e k no_entry)
        (λ same. ground (arith, inv.unique j k ne, new j, new k));
}

pub pointwise-Inv :
    (es es' : List Entry)
    → length es' ≡ length es
    → ((i : ℕ) → (get_or es' i no_entry).short_addr ≡ (get_or es i no_entry).short_addr)
    → ((i : ℕ) → EntryOk (get_or es i no_entry) → EntryOk (get_or es' i no_entry))
    → Inv es
    → Inv es'
pointwise-Inv es es' size same ok inv = record {
  size = size ∙ inv.size;
  each = λ i. ok i (inv.each i);
  unique = λ i j ne. rw (same i, same j) (inv.unique i j ne);
}

-- No other entry has the address of a device's entry.
unique-device :
    (es : List Entry) (i : ℕ) (e : Entry)
    → Inv es
    → e.short_addr ≡ (get_or es i no_entry).short_addr
    → (j : ℕ) → j ≢ i
    → (get_or es j no_entry).short_addr ≡ e.short_addr
    → e.short_addr ≡ unknown_short_addr
unique-device es i e inv same j ne h = omega (arith, inv.unique j i ne (h ∙ same))

-- Nor that of a device that was not found.
unique-new :
    (es : List Entry) (a : ℕ)
    → find_index (has_addr a) es ≡ Option.none
    → (j : ℕ) → (get_or es j no_entry).short_addr ≡ a
    → a ≡ unknown_short_addr
unique-new es a h j e = elim (dec_lt j (length es)) [
  | yes lt ↦ ground (arith, find_index-none (has_addr a) es j no_entry h lt)
  | no ge ↦ ground (arith, get_or-ge es j no_entry)
]

-- The address stays, or the entry is freed.
pub advance-addr :
    (type : CoreEventType) (value : ℕ) (e : Entry)
    → ((advance type value e).0.short_addr ≡ e.short_addr) ⊎ ((advance type value e).0 ≡ no_entry)
unfolding advance
advance-addr type value e = ground arith

-- A retry that waits after an event waited before.
advance-retry :
    (type : CoreEventType) (value : ℕ) (e : Entry)
    → let e' = (advance type value e).0 in
      (e'.retry_attempt ≤ e.retry_attempt)
      × (e'.retry_pending ≡ true
          → (e.retry_pending ≡ true)
            × (e'.retry_attempt ≡ e.retry_attempt)
            × (e'.retry_target ≡ e.retry_target))
unfolding advance
advance-retry type value e = (ground arith, λ h. (ground arith, ground arith, ground arith))

pub advance-EntryOk :
    (type : CoreEventType) (value : ℕ) (e : Entry)
    → e.short_addr ≢ unknown_short_addr
    → EntryOk e
    → EntryOk (advance type value e).0
advance-EntryOk type value e device ok = elim (advance-addr type value e) [
  | inr h ↦ rw h no_entry-EntryOk
  | inl h ↦
      let (fewer, before) = advance-retry type value e in
      record {
        blank = λ u. absurd (device (sym h ∙ u));
        device = λ z. ok.device (sym h ∙ z);
        attempts = omega (arith, fewer, ok.attempts);
        counted = λ p. omega (arith, ok.counted (before p).0, (before p).1);
        aimed = λ p. rw (before p).2 (ok.aimed (before p).0);
      }
]

pub fail-EntryOk :
    (target : RetryTarget) (reason : FailureReason) (now_ms : ℕ) (e : Entry)
    → is_no_target target ≡ false
    → e.short_addr ≢ unknown_short_addr
    → EntryOk e
    → EntryOk (fail target reason now_ms e).0
unfolding fail
fail-EntryOk target reason now_ms e t a ok =
    let device = ok.device in
    let attempts = ok.attempts in
    record {
      blank = λ h. ground arith;
      device = ground arith;
      attempts = ground arith;
      counted = λ h. ground arith;
      aimed = λ h. ground arith;
    }

-- The place of a device, or a free one for an address that no entry has.
abbrev pub IsPlace : List Entry → ℕ → ℕ → Type 0
IsPlace es a i =
    (find_index (has_addr a) es ≡ some i)
    ⊎ ((find_index (has_addr a) es ≡ Option.none) × (find_index is_free es ≡ some i))

pub index_for-IsPlace :
    (type : CoreEventType) (es : List Entry) (a i : ℕ)
    → index_for type a es ≡ some i
    → IsPlace es a i
unfolding index_for
index_for-IsPlace type es a i = elim (Option-cases (find_index (has_addr a) es)) [
  | inr (k, h) ↦ rw (h, index_for) (λ e. inl e)
  | inl h ↦
      rw (h, index_for)
        (elim (Bool-cases (is_joined type)) [
          | inl j ↦ rw j (λ e. inr (refl, e))
          | inr j ↦ rw j (λ e. cc)
        ])
]

pub index_or_free-IsPlace :
    (es : List Entry) (a i : ℕ) → index_or_free es a ≡ some i → IsPlace es a i
unfolding index_or_free
index_or_free-IsPlace es a i = elim (Option-cases (find_index (has_addr a) es)) [
  | inr (k, h) ↦ rw (h, index_or_free) (λ e. inl e)
  | inl h ↦ rw (h, index_or_free) (λ e. inr (refl, e))
]

-- No other entry has the address.
IsPlace-new :
    (es : List Entry) (a i : ℕ)
    → Inv es
    → IsPlace es a i
    → (j : ℕ) → j ≢ i
    → (get_or es j no_entry).short_addr ≡ a
    → a ≡ unknown_short_addr
IsPlace-new es a i inv (inr (h, f)) j ne = unique-new es a h j
IsPlace-new es a i inv (inl h) j ne =
    let hit = find_index-some (has_addr a) es i no_entry h in
    λ e. omega (arith, e, ==→eq _ _ hit.1, inv.unique j i ne (e ∙ sym (==→eq _ _ hit.1)))

-- An entry that takes an address and keeps its retry stays well-formed.
pub readdressed-EntryOk :
    (e e' : Entry)
    → valid_short_addr e'.short_addr ≡ true
    → e'.retry_attempt ≡ e.retry_attempt
    → e'.retry_pending ≡ e.retry_pending
    → e'.retry_target ≡ e.retry_target
    → EntryOk e
    → EntryOk e'
readdressed-EntryOk e e' valid attempt pending target ok = record {
  blank = λ h. absurd (ground (arith, valid));
  device = ground (arith, valid);
  attempts = omega (arith, attempt, ok.attempts);
  counted = λ h. omega (arith, attempt, ok.counted (sym pending ∙ h));
  aimed = λ h. rw target (ok.aimed (sym pending ∙ h));
}

-- Storing an entry of a device, or a blank one, at its place.
pub store-Inv :
    (es : List Entry) (a i : ℕ) (e : Entry)
    → Inv es
    → IsPlace es a i
    → EntryOk e
    → ((e.short_addr ≡ a) ⊎ (e ≡ no_entry))
    → Inv (set es i e)
store-Inv es a i e inv place ok (inl same) =
    set-Inv es i e inv ok (λ j ne h. same ∙ IsPlace-new es a i inv place j ne (h ∙ same))
store-Inv es a i e inv place ok (inr blank) =
    set-Inv es i e inv ok (λ j ne h. ap (λ (x : Entry). x.short_addr) blank)

pub claim-EntryOk :
    (es : List Entry) (a i : ℕ)
    → Inv es
    → valid_short_addr a ≡ true
    → EntryOk (claim a (get_or es i no_entry))
claim-EntryOk es a i inv valid =
    readdressed-EntryOk (get_or es i no_entry) _ (ground (arith, valid)) (ground arith)
      (ground arith) (ground arith) (inv.each i)
