-- ===== src/Service/DeviceManager/Deadlines.antt =====
-- components/service/device_manager.cpp: the pending removals as a map from addresses to deadlines.
use zigbee_gateway_v.Common.{
  ℕ, zero, suc, ◌≡◌, refl, Bool, true, Option, none, some, List, [], ◌∷◌, arith, ◌==◌,
  if◌then◌else◌, length, get_or, set, replicate, find_index,
}
use zigbee_gateway_v.Service.DeviceManager.{
  PendingForceRemove, DeviceManager, new_manager, max_pending_force_remove, no_pending,
  is_pending_for, is_vacant, removal,
}

abbrev pub is_used : PendingForceRemove → Bool
is_used p = p.in_use

-- The deadline at which an address is to be removed.
unfoldable pub deadline_of : ℕ → List PendingForceRemove → Option ℕ
deadline_of a [] = none
deadline_of a (p ∷ ps) = if is_pending_for a p then some p.deadline_ms else deadline_of a ps

-- No address waits twice.
abbrev pub Distinct : List PendingForceRemove → Type 0
Distinct [] = Unit {0}
Distinct (p ∷ ps) = (p.in_use ≡ true → deadline_of p.short_addr ps ≡ none) × Distinct ps

pub record Inv (m : DeviceManager) : Type 0 where
  pub size : length m.pending_force_remove ≡ max_pending_force_remove
  pub distinct : Distinct m.pending_force_remove

pub new_manager-Inv : Inv new_manager
unfolding deadline_of
new_manager-Inv = record { size = refl; distinct = free 16 }
  where
    free : (n : ℕ) → Distinct (replicate n no_pending)
    free zero = tt
    free (suc n) = ((λ h. ground (arith, h)), free n)

pub deadline_of-vacant :
    (a : ℕ) (ps : List PendingForceRemove)
    → find_index (is_pending_for a) ps ≡ none
    → deadline_of a ps ≡ none
unfolding deadline_of find_index
deadline_of-vacant a [] h = refl
deadline_of-vacant a (p ∷ ps) h = ground (arith, deadline_of-vacant a ps)

pub deadline_of-found :
    (a : ℕ) (ps : List PendingForceRemove) (i : ℕ)
    → find_index (is_pending_for a) ps ≡ some i
    → deadline_of a ps ≡ some (get_or ps i no_pending).deadline_ms
unfolding deadline_of find_index
deadline_of-found a [] i h = cc
deadline_of-found a (p ∷ ps) zero h = ground arith
deadline_of-found a (p ∷ ps) (suc i) h = ground (arith, deadline_of-found a ps i)

module _ (a deadline_ms : ℕ) where
  pub deadline_of-store :
      (ps : List PendingForceRemove) (i k : ℕ)
      → find_index is_vacant ps ≡ some i
      → deadline_of a ps ≡ none
      → deadline_of k (set ps i (removal a deadline_ms))
        ≡ (if a == k then some deadline_ms else deadline_of k ps)
  unfolding deadline_of find_index
  deadline_of-store [] i k h n = cc
  deadline_of-store (p ∷ ps) zero k h n = ground arith
  deadline_of-store (p ∷ ps) (suc i) k h n = ground (arith, deadline_of-store ps i k)

  pub Distinct-store :
      (ps : List PendingForceRemove) (i : ℕ)
      → find_index is_vacant ps ≡ some i
      → deadline_of a ps ≡ none
      → Distinct ps
      → Distinct (set ps i (removal a deadline_ms))
  unfolding deadline_of find_index
  Distinct-store [] i h n d = cc
  Distinct-store (p ∷ ps) zero h n d = ((λ u. ground arith), d.1)
  Distinct-store (p ∷ ps) (suc i) h n d = (
    (λ u. ground (arith, u, n, h, d.0 u, deadline_of-store ps i p.short_addr)),
    Distinct-store ps i (ground (arith, h)) (ground (arith, n, h)) d.1,
  )

  abbrev pub postponed : List PendingForceRemove → ℕ → List PendingForceRemove
  postponed ps i = set ps i (record (get_or ps i no_pending) { deadline_ms = deadline_ms })

  pub deadline_of-postpone :
      (ps : List PendingForceRemove) (i k : ℕ)
      → find_index (is_pending_for a) ps ≡ some i
      → deadline_of k (postponed ps i) ≡ (if a == k then some deadline_ms else deadline_of k ps)
  unfolding deadline_of find_index
  deadline_of-postpone [] i k h = cc
  deadline_of-postpone (p ∷ ps) zero k h = ground arith
  deadline_of-postpone (p ∷ ps) (suc i) k h = ground (arith, deadline_of-postpone ps i k)

  pub Distinct-postpone :
      (ps : List PendingForceRemove) (i : ℕ)
      → find_index (is_pending_for a) ps ≡ some i
      → Distinct ps
      → Distinct (postponed ps i)
  unfolding deadline_of find_index
  Distinct-postpone [] i h d = cc
  Distinct-postpone (p ∷ ps) zero h d = d
  Distinct-postpone (p ∷ ps) (suc i) h d = (
    (λ u. ground (arith, u, h, d.0 u, deadline_of-postpone ps i p.short_addr)),
    Distinct-postpone ps i (ground (arith, h)) d.1,
  )
