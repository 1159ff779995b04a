-- ===== src/Service/ResultStore/Queue.antt =====
-- components/service/operation_result_store.cpp: the bounded queues of results and of statuses, which
-- the code writes out for each of its seven arrays. The list holds the elements below the count; an
-- element is a request id with a value.
use zigbee_gateway_v.Common.{
  ℕ, suc, ◌≤◌, ◌<◌, ◌≡◌, refl, Bool, true, false, not, ◌&&◌, Option, Bool-cases, inl, inr, none,
  some, List, [], ◌∷◌, ◌++◌, arith, leb, ◌==◌, if◌then◌else◌, length, length-append,
}

pub record Tagged (A : Type 0) : Type 0 where
  pub request_id : ℕ  -- uint32_t
  pub value : A

module _ {A : Type 0} where
  -- The first element of a request.
  unfoldable pub lookup : ℕ → List (Tagged A) → Option A
  lookup id [] = none
  lookup id (x ∷ xs) = if x.request_id == id then some x.value else lookup id xs

  unfoldable pub is_known : ℕ → List (Tagged A) → Bool
  is_known id [] = false
  is_known id (x ∷ xs) = if x.request_id == id then true else is_known id xs

  -- The loop that overwrites the first element of the same request.
  unfoldable pub overwrite : Tagged A → List (Tagged A) → List (Tagged A)
  overwrite x [] = []
  overwrite x (y ∷ ys) = if y.request_id == x.request_id then x ∷ ys else y ∷ overwrite x ys

  -- The loop that moves the elements of a full queue down by one.
  abbrev pub drop_oldest : List (Tagged A) → List (Tagged A)
  drop_oldest [] = []
  drop_oldest (x ∷ xs) = xs

  unfoldable pub append : ℕ → Tagged A → List (Tagged A) → List (Tagged A)
  append capacity x xs = (if leb capacity (length xs) then drop_oldest xs else xs) ++ (x ∷ [])

  -- An element of a known request is overwritten in place, any other is appended.
  unfoldable pub upsert : ℕ → Tagged A → List (Tagged A) → List (Tagged A)
  upsert capacity x xs = if is_known x.request_id xs then overwrite x xs else append capacity x xs

  -- The loops that move the elements behind the first one of a request down by one.
  unfoldable pub delete : ℕ → List (Tagged A) → List (Tagged A)
  delete id [] = []
  delete id (x ∷ xs) = if x.request_id == id then xs else x ∷ delete id xs

  abbrev pub Absent : ℕ → List (Tagged A) → Type 0
  Absent id xs = lookup id xs ≡ none

  -- No request has two elements.
  abbrev pub Distinct : List (Tagged A) → Type 0
  Distinct [] = Unit {0}
  Distinct (x ∷ xs) = Absent x.request_id xs × Distinct xs

  pub is_known-Absent : (id : ℕ) (xs : List (Tagged A)) → is_known id xs ≡ false → Absent id xs
  unfolding is_known lookup
  is_known-Absent id [] h = refl
  is_known-Absent id (x ∷ xs) h = ground (arith, is_known-Absent id xs)

  pub is_known-found :
      (id : ℕ) (xs : List (Tagged A)) (value : A)
      → lookup id xs ≡ some value
      → is_known id xs ≡ true
  unfolding is_known lookup
  is_known-found id [] value h = cc
  is_known-found id (x ∷ xs) value h = ground (arith, is_known-found id xs value)

  pub is_known-missing : (id : ℕ) (xs : List (Tagged A)) → Absent id xs → is_known id xs ≡ false
  unfolding is_known lookup
  is_known-missing id [] h = refl
  is_known-missing id (x ∷ xs) h = ground (arith, is_known-missing id xs)

  lookup-overwrite :
      (x : Tagged A) (xs : List (Tagged A)) (k : ℕ)
      → is_known x.request_id xs ≡ true
      → lookup k (overwrite x xs) ≡ (if x.request_id == k then some x.value else lookup k xs)
  unfolding is_known overwrite lookup
  lookup-overwrite x [] k h = cc
  lookup-overwrite x (y ∷ ys) k h = ground (arith, lookup-overwrite x ys k)

  Distinct-overwrite :
      (x : Tagged A) (xs : List (Tagged A))
      → is_known x.request_id xs ≡ true
      → Distinct xs
      → Distinct (overwrite x xs)
  unfolding is_known overwrite lookup
  Distinct-overwrite x [] h d = cc
  Distinct-overwrite x (y ∷ ys) h d = elim (Bool-cases (y.request_id == x.request_id)) [
    | inl e ↦ rw e (ground (arith, d.0), d.1)
    | inr e ↦ rw e (
      ground (arith, d.0, lookup-overwrite x ys y.request_id),
      Distinct-overwrite x ys (ground (arith, h)) d.1,
    )
  ]

  length-overwrite : (x : Tagged A) (xs : List (Tagged A)) → length (overwrite x xs) ≡ length xs
  unfolding overwrite
  length-overwrite x [] = refl
  length-overwrite x (y ∷ ys) = ground (arith, length-overwrite x ys)

  lookup-append :
      (xs : List (Tagged A)) (x : Tagged A) (k : ℕ)
      → Absent x.request_id xs
      → lookup k (xs ++ (x ∷ [])) ≡ (if x.request_id == k then some x.value else lookup k xs)
  unfolding lookup
  lookup-append [] x k h = ground arith
  lookup-append (y ∷ ys) x k h = ground (arith, lookup-append ys x k)

  pub lookup-delete :
      (id k : ℕ) (xs : List (Tagged A))
      → Distinct xs
      → lookup k (delete id xs) ≡ (if id == k then none else lookup k xs)
  unfolding lookup delete
  lookup-delete id k [] d = ground arith
  lookup-delete id k (x ∷ xs) d = ground (arith, d, lookup-delete id k xs)

  Distinct-delete : (id : ℕ) (xs : List (Tagged A)) → Distinct xs → Distinct (delete id xs)
  unfolding lookup delete
  Distinct-delete id [] d = tt
  Distinct-delete id (x ∷ xs) d = elim (Bool-cases (x.request_id == id)) [
    | inl e ↦ rw e d.1
    | inr e ↦ rw e (ground (arith, d, lookup-delete id x.request_id xs), Distinct-delete id xs d.1)
  ]

  length-delete : (id : ℕ) (xs : List (Tagged A)) → length (delete id xs) ≤ length xs
  unfolding delete
  length-delete id [] = omega arith
  length-delete id (x ∷ xs) = ground (arith, length-delete id xs)

  Distinct-append :
      (xs : List (Tagged A)) (x : Tagged A)
      → Absent x.request_id xs
      → Distinct xs
      → Distinct (xs ++ (x ∷ []))
  unfolding lookup
  Distinct-append [] x h d = (refl, tt)
  Distinct-append (y ∷ ys) x h d = (
    ground (arith, h, d.0, lookup-append ys x y.request_id),
    Distinct-append ys x (ground (arith, h)) d.1,
  )

  -- Whether a queue gives up its oldest element for a new one, and this is of request `k`.
  abbrev pub is_evicted : ℕ → ℕ → List (Tagged A) → Bool
  is_evicted capacity k [] = false
  is_evicted capacity k (y ∷ ys) = leb capacity (suc (length ys)) && y.request_id == k

  lookup-new :
      (capacity : ℕ) (x : Tagged A) (xs : List (Tagged A)) (k : ℕ)
      → Distinct xs
      → Absent x.request_id xs
      → lookup k (append capacity x xs) ≡ (
          if x.request_id == k
          then some x.value
          else if is_evicted capacity k xs
          then none
          else lookup k xs)
  unfolding append lookup
  lookup-new capacity x [] k d h = ground arith
  lookup-new capacity x (y ∷ ys) k d h = elim (Bool-cases (leb capacity (suc (length ys)))) [
    | inl e ↦ rw e (ground (arith, d, h, lookup-append ys x k))
    | inr e ↦ rw e (ground (arith, h, lookup-append (y ∷ ys) x k))
  ]

  Distinct-new :
      (capacity : ℕ) (x : Tagged A) (xs : List (Tagged A))
      → Distinct xs
      → Absent x.request_id xs
      → Distinct (append capacity x xs)
  unfolding append lookup
  Distinct-new capacity x [] d h = ground arith
  Distinct-new capacity x (y ∷ ys) d h = elim (Bool-cases (leb capacity (suc (length ys)))) [
    | inl e ↦ rw e (Distinct-append ys x (ground (arith, h)) d.1)
    | inr e ↦ rw e (Distinct-append (y ∷ ys) x h d)
  ]

  length-new :
      (capacity : ℕ) (x : Tagged A) (xs : List (Tagged A))
      → 0 < capacity
      → length xs ≤ capacity
      → length (append capacity x xs) ≤ capacity
  unfolding append
  length-new capacity x [] pos h = ground arith
  length-new capacity x (y ∷ ys) pos h =
      ground (arith, length-append ys (x ∷ []), length-append (y ∷ ys) (x ∷ []))

  -- A queue that fits its array and has no request twice.
  pub record Inv (capacity : ℕ) (xs : List (Tagged A)) : Type 0 where
    pub distinct : Distinct xs
    pub fits : length xs ≤ capacity

  pub upsert-Inv :
      (capacity : ℕ) (x : Tagged A) (xs : List (Tagged A))
      → 0 < capacity
      → Inv capacity xs
      → Inv capacity (upsert capacity x xs)
  unfolding upsert
  upsert-Inv capacity x xs pos inv = elim (Bool-cases (is_known x.request_id xs)) [
    | inl e ↦ rw e (record {
      distinct = Distinct-overwrite x xs e inv.distinct;
      fits = omega (arith, length-overwrite x xs, inv.fits);
    })
    | inr e ↦ rw e (record {
      distinct = Distinct-new capacity x xs inv.distinct (is_known-Absent x.request_id xs e);
      fits = length-new capacity x xs pos inv.fits;
    })
  ]

  pub delete-Inv :
      (capacity id : ℕ) (xs : List (Tagged A)) → Inv capacity xs → Inv capacity (delete id xs)
  delete-Inv capacity id xs inv = record {
    distinct = Distinct-delete id xs inv.distinct;
    fits = omega (arith, length-delete id xs, inv.fits);
  }

  -- A new element: the queue knows it and all it knew, but for the oldest of a full queue.
  pub lookup-upsert :
      (capacity : ℕ) (x : Tagged A) (xs : List (Tagged A)) (k : ℕ)
      → Distinct xs
      → lookup k (upsert capacity x xs) ≡ (
          if x.request_id == k
          then some x.value
          else if not (is_known x.request_id xs) && is_evicted capacity k xs
          then none
          else lookup k xs)
  unfolding upsert append
  lookup-upsert capacity x xs k d = elim (Bool-cases (is_known x.request_id xs)) [
    | inl e ↦ rw e (lookup-overwrite x xs k e)
    | inr e ↦ rw e (lookup-new capacity x xs k d (is_known-Absent x.request_id xs e))
  ]
