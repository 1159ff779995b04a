-- ===== src/Core/DeviceId/Order.antt =====
-- The order of `DeviceId` (`operator<` of components/core/include/device_id.hpp).
use zigbee_gateway_v.Common.{ℕ, ◌≡◌, refl, not, ◌&&◌, true, false, List, [], ◌∷◌, arith, length}
use zigbee_gateway_v.Core.DeviceId.{DeviceId, byte_length, bytes_eq, id_eq, less_bytes, less}

less_bytes_trans :
    (xs ys zs : List ℕ)
    → less_bytes xs ys ≡ true
    → less_bytes ys zs ≡ true
    → less_bytes xs zs ≡ true
unfolding less_bytes
less_bytes_trans [] ys zs h k = cc
less_bytes_trans (x ∷ xs) [] zs h k = cc
less_bytes_trans (x ∷ xs) (y ∷ ys) [] h k = cc
less_bytes_trans (x ∷ xs) (y ∷ ys) (z ∷ zs) h k = ground (arith, less_bytes_trans xs ys zs)

-- `operator<` is transitive.
pub less_trans : (a b c : DeviceId) → less a b ≡ true → less b c ≡ true → less a c ≡ true
unfolding less
less_trans a b c h k = less_bytes_trans a.bytes b.bytes c.bytes h k

less_bytes_trichotomy :
    (xs ys : List ℕ)
    → length xs ≡ length ys
    → (bytes_eq xs ys ≡ not (less_bytes xs ys) && not (less_bytes ys xs))
      × ((less_bytes xs ys && less_bytes ys xs) ≡ false)
unfolding less_bytes bytes_eq
less_bytes_trichotomy [] [] e = (refl, refl)
less_bytes_trichotomy [] (y ∷ ys) e = absurd (omega arith)
less_bytes_trichotomy (x ∷ xs) [] e = absurd (omega arith)
less_bytes_trichotomy (x ∷ xs) (y ∷ ys) e = ground (arith, less_bytes_trichotomy xs ys)

-- Of two identities of eight bytes one is below the other, never both ways, or `operator==` holds.
less_trichotomy :
    (a b : DeviceId)
    → length a.bytes ≡ byte_length
    → length b.bytes ≡ byte_length
    → (id_eq a b ≡ not (less a b) && not (less b a)) × ((less a b && less b a) ≡ false)
unfolding less id_eq
less_trichotomy a b la lb = less_bytes_trichotomy a.bytes b.bytes (omega arith)
