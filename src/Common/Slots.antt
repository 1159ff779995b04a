-- ===== src/Common/Slots.antt =====
-- Arrays of slots: the first index that passes a test, and how many slots pass one.
use Prim.Native.Nat.{ℕ, zero, suc, ◌+◌, ◌<◌, ◌≤◌}
use mathlib.Core.Path.{◌≡◌, refl}
use mathlib.Core.Logic.{◌≢◌}
use mathlib.Core.Bool.{Bool, true, false}
use mathlib.Core.Option.{Option, none, some}
use mathlib.Core.Option
use mathlib.Core.List.{List, [], ◌∷◌}
use native.Mathlib.Omega.{arith}
use zigbee_gateway_v.Common.Tests.{if◌then◌else◌}
use zigbee_gateway_v.Common.Lists.{length, get_or, set}

-- 1 for a slot that passes.
abbrev pub weigh : Bool → ℕ
weigh true = 1
weigh false = 0

module _ {ℓ} {A : Type ℓ} where
  -- `for (i = 0; i < n; ++i) if (test(slots[i])) return i;`; `none` is the -1 or the null pointer.
  unfoldable pub find_index : (A → Bool) → List A → Option ℕ
  find_index p [] = none
  find_index p (x ∷ xs) = if p x then some 0 else Option.map suc (find_index p xs)

  unfoldable pub count_if : (A → Bool) → List A → ℕ
  count_if p [] = 0
  count_if p (x ∷ xs) = weigh (p x) + count_if p xs

  pub find_index-some :
      (p : A → Bool) (xs : List A) (i : ℕ) (d : A)
      → find_index p xs ≡ some i
      → (i < length xs) × (p (get_or xs i d) ≡ true)
  unfolding find_index
  find_index-some p [] i d h = cc
  find_index-some p (x ∷ xs) zero d h = ground arith
  find_index-some p (x ∷ xs) (suc i) d h = ground (arith, find_index-some p xs i d)

  pub find_index-none :
      (p : A → Bool) (xs : List A) (j : ℕ) (d : A)
      → find_index p xs ≡ none
      → j < length xs
      → p (get_or xs j d) ≡ false
  unfolding find_index
  find_index-none p [] j d h lt = absurd (omega arith)
  find_index-none p (x ∷ xs) zero d h lt = ground arith
  find_index-none p (x ∷ xs) (suc j) d h lt = ground (arith, find_index-none p xs j d)

  pub find_index-first :
      (p : A → Bool) (xs : List A) (i j : ℕ) (d : A)
      → find_index p xs ≡ some i
      → j < i
      → p (get_or xs j d) ≡ false
  unfolding find_index
  find_index-first p [] i j d h lt = cc
  find_index-first p (x ∷ xs) zero j d h lt = absurd (omega arith)
  find_index-first p (x ∷ xs) (suc i) zero d h lt = ground arith
  find_index-first p (x ∷ xs) (suc i) (suc j) d h lt = ground (arith, find_index-first p xs i j d)

  -- A slot that passes is found, at its own index if no other slot passes.
  pub find_index-hit :
      (p : A → Bool) (xs : List A) (j : ℕ) (d : A)
      → j < length xs
      → p (get_or xs j d) ≡ true
      → (i : ℕ) × (find_index p xs ≡ some i)
  unfolding find_index
  find_index-hit p [] j d lt h = absurd (omega arith)
  find_index-hit p (x ∷ xs) zero d lt h = (0, ground arith)
  find_index-hit p (x ∷ xs) (suc j) d lt h =
      step (p x) refl (find_index-hit p xs j d (omega arith) h)
    where
      step :
          (b : Bool)
          → p x ≡ b
          → (i : ℕ) × (find_index p xs ≡ some i)
          → (i : ℕ) × ((if p x then some 0 else Option.map suc (find_index p xs)) ≡ some i)
      step true e r = (0, ground arith)
      step false e r = (suc r.0, ground arith)

  pub count_if-set :
      (p : A → Bool) (xs : List A) (i : ℕ) (v d : A)
      → i < length xs
      → count_if p (set xs i v) + weigh (p (get_or xs i d)) ≡ count_if p xs + weigh (p v)
  unfolding count_if
  count_if-set p [] i v d h = absurd (omega arith)
  count_if-set p (x ∷ xs) zero v d h = omega arith
  count_if-set p (x ∷ xs) (suc i) v d h = omega (arith, count_if-set p xs i v d (omega arith))

  pub count_if-le : (p : A → Bool) (xs : List A) → count_if p xs ≤ length xs
  unfolding count_if
  count_if-le p [] = omega arith
  count_if-le p (x ∷ xs) = ground (arith, count_if-le p xs)

  -- A slot that passes counts.
  pub count_if-pos :
      (p : A → Bool) (xs : List A) (i : ℕ) (d : A)
      → i < length xs
      → p (get_or xs i d) ≡ true
      → 0 < count_if p xs
  unfolding count_if
  count_if-pos p [] i d lt h = absurd (omega arith)
  count_if-pos p (x ∷ xs) zero d lt h = ground arith
  count_if-pos p (x ∷ xs) (suc i) d lt h = ground (arith, count_if-pos p xs i d (omega arith) h)

  -- While not every slot passes, one that does not is found.
  pub find_index-room :
      (p q : A → Bool) (xs : List A)
      → ((x : A) → p x ≡ false → q x ≡ true)
      → count_if p xs < length xs
      → find_index q xs ≢ none
  unfolding find_index count_if
  find_index-room p q [] h lt = absurd (omega arith)
  find_index-room p q (x ∷ xs) h lt = ground (arith, h x, find_index-room p q xs h)

  -- A slot that is made to pass, where none did, is the one found.
  pub find_index-set :
      (p : A → Bool) (xs : List A) (i : ℕ) (v : A)
      → find_index p xs ≡ none
      → i < length xs
      → p v ≡ true
      → find_index p (set xs i v) ≡ some i
  unfolding find_index
  find_index-set p [] i v h lt hit = absurd (omega arith)
  find_index-set p (x ∷ xs) zero v h lt hit = ground arith
  find_index-set p (x ∷ xs) (suc i) v h lt hit = ground (arith, find_index-set p xs i v)

  -- The only slot that passes is the one found.
  pub find_index-only :
      (p : A → Bool) (xs : List A) (i : ℕ) (d : A)
      → i < length xs
      → p (get_or xs i d) ≡ true
      → ((j : ℕ) → j < i → p (get_or xs j d) ≡ false)
      → find_index p xs ≡ some i
  unfolding find_index
  find_index-only p [] i d lt hit before = absurd (omega arith)
  find_index-only p (x ∷ xs) zero d lt hit before = ground arith
  find_index-only p (x ∷ xs) (suc i) d lt hit before =
      let first = before 0 (omega arith) in
      ground (
        arith,
        first,
        find_index-only p xs i d (omega arith) hit (λ j l. before (suc j) (omega arith)),
      )

  -- A search sees the tests' results alone.
  pub find_index-cong :
      (p : A → Bool) (xs ys : List A) (d : A)
      → length xs ≡ length ys
      → ((j : ℕ) → j < length xs → p (get_or xs j d) ≡ p (get_or ys j d))
      → find_index p xs ≡ find_index p ys
  unfolding find_index
  find_index-cong p [] [] d e h = refl
  find_index-cong p [] (y ∷ ys) d e h = absurd (omega arith)
  find_index-cong p (x ∷ xs) [] d e h = absurd (omega arith)
  find_index-cong p (x ∷ xs) (y ∷ ys) d e h =
      let first = h 0 (omega arith) in
      let rest = find_index-cong p xs ys d (omega arith) (λ j lt. h (suc j) (omega arith)) in
      rw (first, rest) refl
