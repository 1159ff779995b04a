-- ===== src/Core/Registry/Safety.antt =====
-- components/core/core_registry.cpp: what every interleaving of readers and writer keeps.
use zigbee_gateway_v.Common.{
  ℕ, zero, suc, ◌+◌, ◌<◌, ◌≡◌, refl, sym, subst, ◌∙◌, ◌≢◌, Bool, true, false, List, arith, ==→eq,
  ==_refl, ◌==◌, ltb, Bool-cases, inl, inr, if◌then◌else◌, length, get_or, set, replicate,
  get_or-set, get_or-replicate, length-set, length-replicate, count_if, count_if-set, count_if-pos,
  count_if-le, u32, weigh,
}
use zigbee_gateway_v.Core.Registry.{
  SnapshotSlot, Reader, Writer, first_slot, read_step, pins_at, snapshot_count,
}
use zigbee_gateway_v.Core.Registry.Steps.{System, start, reader_at, read_move}

-- A reader whose pin on slot `k` is counted.
abbrev pub pins : ℕ → Reader → Bool
pins k (Reader.pinned j) = k == j
pins k (Reader.reading j) = k == j
pins k (Reader.retrying j) = k == j
pins k (Reader.holding ref seen) = k == ref.slot_index
pins k _ = false

-- The slot that the writer writes or is about to activate; 8 for none.
abbrev pub target : Writer → ℕ
target (Writer.ready result) = snapshot_count
target (Writer.scanning state current i) = snapshot_count
target (Writer.writing state j) = j
target (Writer.stamping state j) = j
target (Writer.announcing state j) = j
target (Writer.activating state j) = j

-- A snapshot that was activated at some time.
unfoldable pub Published : List SnapshotSlot → SnapshotSlot → Type 0
Published history s = (n : ℕ) × (n < length history) × (get_or history n first_slot ≡ s)

abbrev pub slot_in : List SnapshotSlot → ℕ → SnapshotSlot
slot_in slots k = get_or slots k first_slot

-- What the writer relies on, with the active index and the active id.
unfoldable pub WriterOk : List SnapshotSlot → ℕ → ℕ → Writer → Type 0
WriterOk slots active id (Writer.ready result) = Unit
WriterOk slots active id (Writer.scanning state current i) = current ≡ active
WriterOk slots active id (Writer.writing state j) = j < snapshot_count
WriterOk slots active id (Writer.stamping state j) =
    (j < snapshot_count) × ((slot_in slots j).state ≡ state)
WriterOk slots active id (Writer.announcing state j) =
    (j < snapshot_count) × ((slot_in slots j).state ≡ state)
WriterOk slots active id (Writer.activating state j) =
    (j < snapshot_count) × ((slot_in slots j).state ≡ state) × ((slot_in slots j).id ≡ id)

-- A reader that saw its pinned slot active, or holds its snapshot, is at a published slot that the
-- writer does not write.
unfoldable pub ReaderOk : Writer → List SnapshotSlot → List SnapshotSlot → Reader → Type 0
ReaderOk w history slots Reader.idle = Unit
ReaderOk w history slots (Reader.loaded k) = k < snapshot_count
ReaderOk w history slots (Reader.pinned k) = k < snapshot_count
ReaderOk w history slots (Reader.retrying k) = k < snapshot_count
ReaderOk w history slots (Reader.repairing k) = ⊥
ReaderOk w history slots (Reader.reading k) =
    (k < snapshot_count) × (target w ≢ k) × Published history (slot_in slots k)
ReaderOk w history slots (Reader.holding ref seen) =
    (ref.slot_index < snapshot_count)
    × (target w ≢ ref.slot_index)
    × Published history (slot_in slots ref.slot_index)
    × (slot_in slots ref.slot_index ≡ record { id = ref.id; state = seen })

pub record Inv (s : System) : Type 0 where
  pub threads : length s.readers < 0xffffffff
  pub slots : length s.registry.slots ≡ snapshot_count
  pub counts : length s.registry.slot_pin_count ≡ snapshot_count
  pub active : s.registry.active_index < snapshot_count
  pub fresh : target s.writer ≢ s.registry.active_index
  pub current : Published s.history (slot_in s.registry.slots s.registry.active_index)
  pub pinned : (k : ℕ) → k < snapshot_count → pins_at s.registry k ≡ count_if (pins k) s.readers
  pub writer :
      WriterOk s.registry.slots s.registry.active_index s.registry.active_snapshot_id s.writer
  pub readers : (i : ℕ) → ReaderOk s.writer s.history s.registry.slots (reader_at s i)

none_pinned : (n k : ℕ) → count_if (pins k) (replicate n Reader.idle) ≡ 0
unfolding count_if
none_pinned zero k = refl
none_pinned (suc n) k = omega (arith, none_pinned n k)

pub start-Inv : (n : ℕ) → n < 0xffffffff → Inv (start n)
unfolding WriterOk ReaderOk Published
start-Inv n h = record {
  threads = omega (arith, length-replicate n Reader.idle);
  slots = refl;
  counts = refl;
  active = omega arith;
  fresh = omega arith;
  current = (0, omega arith, refl);
  pinned = λ k lt. rw (none_pinned n k) (get_or-replicate 8 0 k);
  writer = tt;
  readers = λ i. rw (get_or-replicate n Reader.idle i) tt;
}

pick : {r r' : Reader} (P : Reader → Type 0) (b : Bool) → P r → P r' → P (if b then r else r')
pick P true p q = p
pick P false p q = q

-- A step of a reader writes the pin counts at most, and moves each count with its own pin.
module _ (s : System) (inv : Inv s) (i : ℕ) (lt : i < length s.readers) where
  read_frame :
      (counts : List ℕ) (r : Reader)
      → length counts ≡ snapshot_count
      → ((k : ℕ)
          → k < snapshot_count
          → get_or counts k 0 + weigh (pins k (reader_at s i))
            ≡ pins_at s.registry k + weigh (pins k r))
      → ReaderOk s.writer s.history s.registry.slots r
      → Inv (record s {
        registry = record s.registry { slot_pin_count = counts };
        readers = set s.readers i r;
      })
  read_frame counts r size moved ok = record {
    threads = omega (arith, length-set s.readers i r, inv.threads);
    slots = inv.slots;
    counts = size;
    active = inv.active;
    fresh = inv.fresh;
    current = inv.current;
    pinned = λ k small. omega (
      arith,
      moved k small,
      inv.pinned k small,
      count_if-set (pins k) s.readers i r Reader.idle lt,
    );
    writer = inv.writer;
    readers = λ j.
        rw (get_or-set s.readers i r j Reader.idle)
          (pick (ReaderOk s.writer s.history s.registry.slots) _ ok (inv.readers j));
  }

  count_room : (k : ℕ) → k < snapshot_count → pins_at s.registry k < 0xffffffff
  count_room k small =
      ground (arith, inv.pinned k small, inv.threads, count_if-le (pins k) s.readers)

  count_held :
      (k : ℕ) → k < snapshot_count → pins k (reader_at s i) ≡ true → 0 < pins_at s.registry k
  count_held k small h =
      omega (arith, inv.pinned k small, count_if-pos (pins k) s.readers i Reader.idle lt h)

  added :
      (k j : ℕ)
      → k < snapshot_count
      → j < snapshot_count
      → get_or (set s.registry.slot_pin_count k (u32 (pins_at s.registry k + 1))) j 0
        ≡ pins_at s.registry j + weigh (j == k)
  added k j small small' = ground (
    arith,
    inv.counts,
    count_room k small,
    get_or-set s.registry.slot_pin_count k (u32 (pins_at s.registry k + 1)) j 0,
  )

  removed :
      (k j : ℕ)
      → k < snapshot_count
      → j < snapshot_count
      → 0 < pins_at s.registry k
      → get_or (set s.registry.slot_pin_count k (u32 (pins_at s.registry k + 0xffffffff))) j 0
          + weigh (j == k)
        ≡ pins_at s.registry j
  removed k j small small' some_pin = ground (
    arith,
    inv.counts,
    count_room k small,
    get_or-set s.registry.slot_pin_count k (u32 (pins_at s.registry k + 0xffffffff)) j 0,
  )

-- Every step of a reader keeps the invariant.
pub read_step-Inv : (s : System) → Inv s → (i : ℕ) → i < length s.readers → Inv (read_move s i)
unfolding read_step ReaderOk
read_step-Inv s inv i lt = step (reader_at s i) refl
  where
    size : (k v : ℕ) → length (set s.registry.slot_pin_count k v) ≡ snapshot_count
    size k v = omega (arith, length-set s.registry.slot_pin_count k v, inv.counts)

    ok : (r : Reader) → reader_at s i ≡ r → ReaderOk s.writer s.history s.registry.slots r
    ok r e = subst (ReaderOk s.writer s.history s.registry.slots) e (inv.readers i)

    step :
        (r : Reader)
        → reader_at s i ≡ r
        → Inv (record s {
          registry = (read_step s.registry r).0;
          readers = set s.readers i (read_step s.registry r).1;
        })
    step Reader.idle e =
        read_frame s inv i lt s.registry.slot_pin_count (Reader.loaded s.registry.active_index)
          inv.counts (λ k small. rw e refl) inv.active
    step (Reader.loaded k) e =
        read_frame s inv i lt (set s.registry.slot_pin_count k (u32 (pins_at s.registry k + 1)))
          (Reader.pinned k) (size k _)
          (λ j small. rw e (omega (arith, added s inv i lt k j (ok _ e) small))) (ok _ e)
    step (Reader.pinned k) e = elim (Bool-cases (s.registry.active_index == k)) [
      | inl same ↦ rw same (
          read_frame s inv i lt s.registry.slot_pin_count (Reader.reading k) inv.counts
            (λ k small. rw e refl)
            (
              ok _ e,
              (let q = ==→eq _ _ same in λ h. inv.fresh (h ∙ sym q)),
              subst (λ k. Published s.history (slot_in s.registry.slots k)) (==→eq _ _ same)
                  inv.current,
            ))
      | inr other ↦ rw other (
          read_frame s inv i lt s.registry.slot_pin_count (Reader.retrying k) inv.counts
            (λ k small. rw e refl) (ok _ e))
    ]
    step (Reader.retrying k) e =
        read_frame s inv i lt
          (set s.registry.slot_pin_count k (u32 (pins_at s.registry k + 0xffffffff))) Reader.idle
          (size k _)
          (λ j small. rw e (
            omega (
              arith,
              removed s inv i lt k j (ok _ e) small
                  (count_held s inv i lt k (ok _ e) (rw e (==_refl k))),
            )))
          tt
    step (Reader.reading k) e =
        read_frame s inv i lt s.registry.slot_pin_count _ inv.counts (λ j small. rw e refl)
          (let o = ok _ e in (o.0, o.1, o.2, refl))
    step (Reader.holding ref seen) e =
        rw (small_slot, some_pin)
          (read_frame s inv i lt
            (set s.registry.slot_pin_count k (u32 (pins_at s.registry k + 0xffffffff))) Reader.idle
            (size k _)
            (λ j small. rw e (omega (arith, removed s inv i lt k j (ok _ e).0 small held))) tt)
      where
        k : ℕ
        k = ref.slot_index

        held : 0 < pins_at s.registry k
        held = count_held s inv i lt k (ok _ e).0 (rw e (==_refl k))

        small_slot : ltb k snapshot_count ≡ true
        small_slot = ground (arith, (ok _ e).0)

        some_pin : (pins_at s.registry k == 0) ≡ false
        some_pin = ground (arith, held)
    step (Reader.repairing k) e = absurd (ok _ e)
