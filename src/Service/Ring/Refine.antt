-- ===== src/Service/Ring/Refine.antt =====
-- The ring queues of components/service behave as bounded first-in first-out lists.
use zigbee_gateway_v.Common.{
  ℕ, zero, suc, ◌+◌, ◌-◌, ◌%◌, ◌≤◌, ◌<◌, ◌≡◌, refl, sym, ap, ap₂, ◌∙◌, ◌≢◌, Bool, true, false,
  Option, none, some, List, [], ◌∷◌, ◌++◌, arith, leb, ltb, ◌==◌, dec_lt, Bool-cases, inl, inr,
  if◌then◌else◌, length, length-set, length-replicate, get_or, set, get_or-set_self, get_or-set_ne,
}
use native.Mathlib.Nat.{mod-eq_of_lt, mod_self}
use zigbee_gateway_v.Service.Ring.{Ring, new_ring, push, pop}

-- The place that is `k` steps behind place `h`.
abbrev pub place : ℕ → ℕ → ℕ → ℕ
place capacity h k = if ltb (h + k) capacity then h + k else h + k - capacity

mod-step : (i n : ℕ) → i < n → (i + 1) % n ≡ place n i 1
mod-step i n h = elim (dec_lt (i + 1) n) [
  | yes lt ↦ ground (arith, mod-eq_of_lt lt)
  | no ge ↦ let e : i + 1 ≡ n = omega arith in ap (λ k. k % n) e ∙ mod_self n ∙ ground arith
]

-- A bounded first-in first-out list.
module _ {ℓ} {A : Type ℓ} where
  unfoldable pub enqueue : ℕ → List A → A → List A × Bool
  enqueue capacity l x = if leb capacity (length l) then (l, false) else (l ++ (x ∷ []), true)

  unfoldable pub dequeue : List A → List A × Option A
  dequeue [] = ([], none)
  dequeue (x ∷ l) = (l, some x)

module _ {ℓ} {A : Type ℓ} (capacity : ℕ) (blank : A) where
  -- The elements at `n` places from the `k`-th one on.
  unfoldable pub window : List A → ℕ → ℕ → ℕ → List A
  window queue h k zero = []
  window queue h k (suc n) = get_or queue (place capacity h k) blank ∷ window queue h (suc k) n

  -- The elements of a queue, the oldest first.
  unfoldable pub contents : Ring A → List A
  contents r = window r.queue r.head 0 r.count

  pub record Inv (r : Ring A) : Type 0 where
    pub pos : 0 < capacity
    pub size : length r.queue ≡ capacity
    pub head : r.head < capacity
    pub fits : r.count ≤ capacity
    pub tail : r.tail ≡ place capacity r.head r.count

  pub new_ring-Inv : 0 < capacity → Inv (new_ring capacity blank)
  new_ring-Inv pos = record {
    pos = pos;
    size = length-replicate capacity blank;
    head = pos;
    fits = omega arith;
    tail = ground arith;
  }

  length-window : (queue : List A) (h k n : ℕ) → length (window queue h k n) ≡ n
  unfolding window
  length-window queue h k zero = refl
  length-window queue h k (suc n) = ap suc (length-window queue h (suc k) n)

  pub length-contents : (r : Ring A) → length (contents r) ≡ r.count
  unfolding contents
  length-contents r = length-window r.queue r.head 0 r.count

  window-none : (queue : List A) (h k n : ℕ) → n ≡ 0 → window queue h k n ≡ []
  unfolding window
  window-none queue h k zero e = refl
  window-none queue h k (suc n) e = absurd (omega arith)

  window-pos :
      (queue : List A) (h k n : ℕ)
      → n ≢ 0
      → window queue h k n
        ≡ get_or queue (place capacity h k) blank ∷ window queue h (suc k) (n - 1)
  unfolding window
  window-pos queue h k zero pos = absurd (pos refl)
  window-pos queue h k (suc n) pos = ap (λ m. window queue h k (suc m)) (omega arith)

  -- A write just behind a window extends it.
  window-set :
      (queue : List A) (x : A) (h k n j : ℕ)
      → length queue ≡ capacity
      → h < capacity
      → k + n < capacity
      → j ≡ place capacity h (k + n)
      → window (set queue j x) h k (suc n) ≡ window queue h k n ++ (x ∷ [])
  unfolding window
  window-set queue x h k zero j size hh hn e =
      ap (λ y. y ∷ [])
        (ap (λ i. get_or (set queue j x) i blank) at_j
          ∙ get_or-set_self queue j x blank (ground (arith, size, e)))
    where
      at_j : place capacity h k ≡ j
      at_j = ground (arith, e)
  window-set queue x h k (suc n) j size hh hn e =
      ap₂ ◌∷◌ (get_or-set_ne queue j x (place capacity h k) blank (ground (arith, e)))
        (window-set queue x h (suc k) n j size hh (omega arith) (ground (arith, e)))

  window-next :
      (queue : List A) (h k n : ℕ)
      → h < capacity
      → k + n < capacity
      → window queue (place capacity h 1) k n ≡ window queue h (suc k) n
  unfolding window
  window-next queue h k zero hh hn = refl
  window-next queue h k (suc n) hh hn =
      ap₂ ◌∷◌ (ap (λ i. get_or queue i blank) (ground arith))
        (window-next queue h (suc k) n hh (omega arith))

  module _ (r : Ring A) (inv : Inv r) where
    pub push-Inv : (x : A) → Inv (push capacity r x).0
    unfolding push
    push-Inv x = elim (Bool-cases (leb capacity r.count)) [
      | inl over ↦ rw over inv
      | inr room ↦ rw room (record {
        pos = inv.pos;
        size = length-set r.queue r.tail x ∙ inv.size;
        head = inv.head;
        fits = ground (arith, room);
        tail =
            mod-step r.tail capacity (ground (arith, inv.tail, inv.head, room, inv.fits))
            ∙ ground (arith, inv.tail, inv.head, room);
      })
    ]

    pub pop-Inv : Inv (pop capacity blank r).0
    unfolding pop
    pop-Inv = elim (Bool-cases (r.count == 0)) [
      | inl none_left ↦ rw none_left inv
      | inr more ↦ rw more (record {
        pos = inv.pos;
        size = inv.size;
        head = rw (mod-step r.head capacity inv.head) (ground (arith, inv.head));
        fits = omega (arith, inv.fits);
        tail =
            inv.tail
            ∙ ground (arith, more, inv.head, inv.fits)
            ∙ ap (λ h. place capacity h (r.count - 1)) (sym (mod-step r.head capacity inv.head));
      })
    ]

    pub contents-push :
        (x : A)
        → let (r', done) = push capacity r x in
          (contents r', done) ≡ enqueue capacity (contents r) x
    unfolding push contents enqueue
    contents-push x = elim (Bool-cases (leb capacity r.count)) [
      | inl over ↦ rw (length-window r.queue r.head 0 r.count, over) refl
      | inr room ↦
          rw (length-window r.queue r.head 0 r.count, room)
            (ap (λ l. (l, true))
              (ap (window (set r.queue r.tail x) r.head 0) (omega arith)
                ∙ window-set r.queue x r.head 0 r.count r.tail inv.size inv.head
                    (ground (arith, room)) (inv.tail ∙ ap (place capacity r.head) (omega arith))))
    ]

    pub contents-pop :
        let (r', out) = pop capacity blank r in (contents r', out) ≡ dequeue (contents r)
    unfolding pop contents dequeue
    contents-pop = elim (Bool-cases (r.count == 0)) [
      | inl none_left ↦
          let e : window r.queue r.head 0 r.count ≡ [] =
            window-none r.queue r.head 0 r.count (ground (arith, none_left)) in
          rw (none_left, e) refl
      | inr more ↦
          let e = window-pos r.queue r.head 0 r.count (ground (arith, more)) in
          rw (e, more)
            (ap₂ (λ l x. (l, some x))
              (ap (λ h. window r.queue h 0 (r.count - 1)) (mod-step r.head capacity inv.head)
                ∙ window-next r.queue r.head 0 (r.count - 1) inv.head
                    (ground (arith, more, inv.fits)))
              (ap (λ i. get_or r.queue i blank) (ground (arith, inv.head))))
    ]

  -- What a client asks of a queue: `some x` to append `x`, `none` to take the oldest element. The
  -- answer of a call is whether it appended, or the element taken.
  pub run : Ring A → List (Option A) → List (Bool × Option A)
  run r [] = []
  run r (some x ∷ calls) = let (r', done) = push capacity r x in (done, none) ∷ run r' calls
  run r (none ∷ calls) = let (r', out) = pop capacity blank r in (false, out) ∷ run r' calls

  pub run_list : List A → List (Option A) → List (Bool × Option A)
  run_list l [] = []
  run_list l (some x ∷ calls) =
      let (l', done) = enqueue capacity l x in (done, none) ∷ run_list l' calls
  run_list l (none ∷ calls) = let (l', out) = dequeue l in (false, out) ∷ run_list l' calls

  -- In any sequence of calls, a ring queue that satisfies its invariant gives the answers of the
  -- first-in first-out list of its elements with the same capacity.
  pub run_refines :
      (r : Ring A) (calls : List (Option A)) → Inv r → run r calls ≡ run_list (contents r) calls
  unfolding run run_list
  run_refines r [] inv = refl
  run_refines r (some x ∷ calls) inv =
      rw (run_refines (push capacity r x).0 calls (push-Inv r inv x), ← contents-push r inv x) refl
  run_refines r (none ∷ calls) inv =
      rw (run_refines (pop capacity blank r).0 calls (pop-Inv r inv), ← contents-pop r inv) refl
