-- ===== src/Core/Registry/Writing.antt =====
-- components/core/core_registry.cpp: the steps of the writer, and every interleaving.
use zigbee_gateway_v.Common.{
  ℕ, suc, ◌+◌, ◌<◌, ◌≡◌, refl, sym, subst, ap, ap₂, ◌∙◌, ◌≢◌, Bool, true, false, Option, some, List,
  ◌∷◌, arith, ==_refl, ◌==◌, ltb, Bool-cases, inl, inr, length, get_or, set, get_or-set_self,
  get_or-set_ne, get_or-ge, length-set, count_if, count_if-pos, u32, dec_lt,
}
use zigbee_gateway_v.Core.State.{CoreState}
use zigbee_gateway_v.Core.Registry.{
  CoreRegistry, SnapshotSlot, SnapshotRef, Reader, Writer, first_slot, write_step, publish_begin,
  slot_at, pins_at, snapshot_count, candidate,
}
use zigbee_gateway_v.Core.Registry.Steps.{
  System, Step, Reach, reader_at, write_move, call_move, record_activation,
}
use zigbee_gateway_v.Core.Registry.Safety.{
  pins, target, Published, slot_in, WriterOk, ReaderOk, Inv, start-Inv, read_step-Inv,
}

-- What a step of the writer leaves to the readers that pin a slot it did not write.
abbrev Kept :
    Writer
    → List SnapshotSlot
    → List SnapshotSlot
    → Writer
    → List SnapshotSlot
    → List SnapshotSlot
    → ℕ
    → Type 0
Kept w history slots w' history' slots' k =
    (target w' ≢ k)
    × (slot_in slots' k ≡ slot_in slots k)
    × ((x : SnapshotSlot) → Published history x → Published history' x)

ReaderOk-Kept :
    (w w' : Writer) (history history' slots slots' : List SnapshotSlot) (r : Reader)
    → ((k : ℕ)
        → pins k r ≡ true
        → target w ≢ k
        → k < snapshot_count
        → Kept w history slots w' history' slots' k)
    → ReaderOk w history slots r
    → ReaderOk w' history' slots' r
unfolding ReaderOk
ReaderOk-Kept w w' h h' s s' Reader.idle kept ok = tt
ReaderOk-Kept w w' h h' s s' (Reader.loaded k) kept ok = ok
ReaderOk-Kept w w' h h' s s' (Reader.pinned k) kept ok = ok
ReaderOk-Kept w w' h h' s s' (Reader.retrying k) kept ok = ok
ReaderOk-Kept w w' h h' s s' (Reader.repairing k) kept ok = ok
ReaderOk-Kept w w' h h' s s' (Reader.reading k) kept ok =
    let q = kept k (==_refl k) ok.1 ok.0 in (ok.0, q.0, rw q.1 (q.2 _ ok.2))
ReaderOk-Kept w w' h h' s s' (Reader.holding ref seen) kept ok =
    let q = kept ref.slot_index (==_refl ref.slot_index) ok.1 ok.0 in
    (ok.0, q.0, rw q.1 (q.2 _ ok.2), q.1 ∙ ok.3)

-- A step of the writer that keeps what the readers rely on.
write_frame :
    (s : System)
    → Inv s
    → (registry : CoreRegistry) (w : Writer) (history : List SnapshotSlot)
    → registry.slot_pin_count ≡ s.registry.slot_pin_count
    → length registry.slots ≡ snapshot_count
    → (registry.active_index < snapshot_count)
      × (target w ≢ registry.active_index)
      × Published history (slot_in registry.slots registry.active_index)
    → WriterOk registry.slots registry.active_index registry.active_snapshot_id w
    → ((i k : ℕ)
        → pins k (reader_at s i) ≡ true
        → target s.writer ≢ k
        → k < snapshot_count
        → Kept s.writer s.history s.registry.slots w history registry.slots k)
    → Inv (record s { registry = registry; writer = w; history = history })
write_frame s inv registry w history same size active ok kept = record {
  threads = inv.threads;
  slots = size;
  counts = omega (arith, ap length same, inv.counts);
  active = active.0;
  fresh = active.1;
  current = active.2;
  pinned = λ k small. ap (λ c. get_or c k 0) same ∙ inv.pinned k small;
  writer = ok;
  readers = λ i. ReaderOk-Kept _ _ _ _ _ _ (reader_at s i) (kept i) (inv.readers i);
}

module _ (s : System) (inv : Inv s) where
  -- A slot without a pin is pinned by no reader.
  unpinned :
      (i k : ℕ) → k < snapshot_count → pins_at s.registry k ≡ 0 → pins k (reader_at s i) ≡ false
  unpinned i k small zero_pins = elim (dec_lt i (length s.readers)) [
    | yes lt ↦ elim (Bool-cases (pins k (reader_at s i))) [
      | inl h ↦
          absurd
            (omega (arith, inv.pinned k small, count_if-pos (pins k) s.readers i Reader.idle lt h))
      | inr h ↦ h
    ]
    | no ge ↦ rw (get_or-ge s.readers i Reader.idle (omega arith)) refl
  ]

  call-Inv :
      (result : Option Bool) (state : CoreState)
      → s.writer ≡ Writer.ready result
      → Inv (call_move s state)
  unfolding publish_begin WriterOk Published
  call-Inv result state e =
      write_frame s inv s.registry _ s.history refl inv.slots
        (inv.active, (let a = inv.active in omega arith), inv.current) refl
        (λ i k h f small. (omega arith, refl, λ x p. p))

  got : (j : ℕ) (v : SnapshotSlot) → j < snapshot_count → slot_in (set s.registry.slots j v) j ≡ v
  got j v small = get_or-set_self s.registry.slots j v first_slot (omega (arith, inv.slots))

  -- A write to the slot that the writer took.
  slot_write :
      (w : Writer) (j : ℕ) (v : SnapshotSlot) (write_index next_id : ℕ)
      → target s.writer ≡ j
      → j < snapshot_count
      → target w ≡ j
      → WriterOk (set s.registry.slots j v) s.registry.active_index s.registry.active_snapshot_id w
      → Inv (record s {
        registry = record s.registry {
          slots = set s.registry.slots j v;
          write_index = write_index;
          next_snapshot_id = next_id;
        };
        writer = w;
      })
  slot_write w j v write_index next_id e small e' ok =
      write_frame s inv _ w s.history refl
        (omega (arith, length-set s.registry.slots j v, inv.slots))
        (
          inv.active,
          (λ h. inv.fresh (e ∙ sym e' ∙ h)),
          rw
              (get_or-set_ne s.registry.slots j v s.registry.active_index first_slot
                (λ h. inv.fresh (e ∙ h)))
              inv.current,
        )
        ok
        (λ i k h f lt. (
          (λ q. f (e ∙ sym e' ∙ q)),
          get_or-set_ne s.registry.slots j v k first_slot (λ q. f (e ∙ q)),
          λ x p. p,
        ))

  write_step-Inv : Inv (write_move s)
  unfolding write_step WriterOk Published
  write_step-Inv = step s.writer refl
    where
      ok :
          (w : Writer)
          → s.writer ≡ w
          → WriterOk s.registry.slots s.registry.active_index s.registry.active_snapshot_id w
      ok w e =
          subst (WriterOk s.registry.slots s.registry.active_index s.registry.active_snapshot_id) e
            inv.writer

      next : Writer → System
      next w = record s {
        registry = (write_step s.registry w).0;
        writer = (write_step s.registry w).1;
        history = record_activation s w;
      }

      step : (w : Writer) → s.writer ≡ w → Inv (next w)
      step (Writer.ready result) e =
          write_frame s inv s.registry _ s.history refl inv.slots
            (inv.active, (let a = inv.active in omega arith), inv.current) tt
            (λ i k h f small. (omega arith, refl, λ x p. p))
      step (Writer.scanning state current i) e = elim (Bool-cases (ltb i snapshot_count)) [
        | inr out ↦ rw out (still (Writer.ready (some false)) refl tt)
        | inl within ↦ elim (Bool-cases (candidate s.registry i == current)) [
          | inl own ↦ rw (within, own) (still (Writer.scanning state current (i + 1)) refl (ok _ e))
          | inr other ↦ elim (Bool-cases (pins_at s.registry (candidate s.registry i) == 0)) [
            | inr taken ↦
                rw (within, other, taken)
                  (still (Writer.scanning state current (i + 1)) refl (ok _ e))
            | inl free ↦
                rw (within, other, free)
                  (write_frame s inv s.registry (Writer.writing state (candidate s.registry i))
                    s.history refl inv.slots
                    (inv.active, (let q = ok _ e in ground arith), inv.current) (omega arith)
                    (λ i' k h f small.
                      ((let u = unpinned i' k small in ground arith), refl, λ x p. p)))
          ]
        ]
      ]
        where
          still :
              (w : Writer)
              → target w ≡ snapshot_count
              → WriterOk s.registry.slots s.registry.active_index s.registry.active_snapshot_id w
              → Inv (record s { writer = w })
          still w t o =
              write_frame s inv s.registry w s.history refl inv.slots
                (inv.active, (let a = inv.active in omega (arith, t)), inv.current) o
                (λ i k h f small. (omega (arith, t), refl, λ x p. p))
      step (Writer.writing state j) e =
          slot_write (Writer.stamping state j) j _ s.registry.write_index
            s.registry.next_snapshot_id e' (ok _ e) refl
            (ok _ e, ap (λ x. x.state) (got j _ (ok _ e)))
        where
          e' : target s.writer ≡ j
          e' = ap target e
      step (Writer.stamping state j) e =
          slot_write (Writer.announcing state j) j _ j (u32 (s.registry.next_snapshot_id + 1))
            (ap target e) (ok _ e).0 refl
            ((ok _ e).0, ap (λ x. x.state) (got j _ (ok _ e).0) ∙ (ok _ e).1)
      step (Writer.announcing state j) e =
          write_frame s inv _ (Writer.activating state j) s.history refl inv.slots
            (inv.active, (λ h. inv.fresh (ap target e ∙ h)), inv.current)
            ((ok _ e).0, (ok _ e).1, refl)
            (λ i k h f small. ((λ q. f (ap target e ∙ q)), refl, λ x p. p))
      step (Writer.activating state j) e =
          write_frame s inv (record s.registry { active_index = j }) (Writer.ready (some true))
            (record { id = s.registry.active_snapshot_id; state = state } ∷ s.history) refl
            inv.slots
            (
              (ok _ e).0,
              (let o = (ok _ e).0 in omega arith),
              (
                0,
                omega arith,
                ap₂ (λ id state. record { id = id; state = state }) (sym (ok _ e).2)
                    (sym (ok _ e).1),
              ),
            )
            tt (λ i k h f small. (omega arith, refl, λ x p. (suc p.0, omega (arith, p.1), p.2)))

Reach-Inv : (n : ℕ) → n < 0xffffffff → (s : System) → Reach n s → Inv s
Reach-Inv n few _ Reach.here = start-Inv n few
Reach-Inv n few _ (Reach.next s _ r (Step.read i lt)) = read_step-Inv s (Reach-Inv n few s r) i lt
Reach-Inv n few _ (Reach.next s _ r Step.write) = write_step-Inv s (Reach-Inv n few s r)
Reach-Inv n few _ (Reach.next s _ r (Step.call result state e)) =
    call-Inv s (Reach-Inv n few s r) result state e

-- In every interleaving of one writer and fewer than 2³² - 1 readers, the slot of a snapshot that a
-- reader holds still has the id and the state that the reader saw when it pinned the slot, this is
-- a snapshot that `publish` activated as a whole, and the writer is not at this slot.
pub held_unchanged :
    (n : ℕ) (s : System) (i : ℕ) (ref : SnapshotRef) (seen : CoreState)
    → n < 0xffffffff
    → Reach n s
    → reader_at s i ≡ Reader.holding ref seen
    → (slot_at s.registry ref.slot_index ≡ record { id = ref.id; state = seen })
      × Published s.history (record { id = ref.id; state = seen })
      × (target s.writer ≢ ref.slot_index)
unfolding ReaderOk
held_unchanged n s i ref seen few r e =
    let ok =
      subst (ReaderOk s.writer s.history s.registry.slots) e ((Reach-Inv n few s r).readers i) in
    (ok.3, subst (Published s.history) ok.3 ok.2, ok.1)

-- In every interleaving of one writer and fewer than 2³² - 1 readers, the pin count of a slot is
-- the number of readers between a pin of this slot and its release, and the active slot holds a
-- snapshot that `publish` activated as a whole.
pub pins_counted :
    (n : ℕ) (s : System) (k : ℕ)
    → n < 0xffffffff
    → Reach n s
    → k < snapshot_count
    → (pins_at s.registry k ≡ count_if (pins k) s.readers)
      × Published s.history (slot_at s.registry s.registry.active_index)
pins_counted n s k few r small = let inv = Reach-Inv n few s r in (inv.pinned k small, inv.current)
