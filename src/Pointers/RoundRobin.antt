-- ===== src/Pointers/RoundRobin.antt =====
-- Round-robin pointers of `src/common/utils/pointer_traits.h`: packing, unpacking, and arithmetic
-- inside one storage.
use Prim.Native.Nat.{bit_or}
use uh_core.Base.{ℕ, ◌+◌, ◌*◌, ◌%◌, ◌^◌, ◌<◌, ◌≡◌, ap₂, arith, word}
use uh_core.Base.Bits.{bit_or_disjoint}
use uh_core.Pointers.{rr_global_pointer, rr_storage_pointer, get_group_id}

-- The packed pointer as a sum of its three fields.
pub rr_global_pointer_sum :
    (p g s : ℕ)
    → p < word
    → g < 2 ^ 32
    → s < 2 ^ 32
    → rr_global_pointer p g s ≡ g * 2 ^ 96 + s * 2 ^ 64 + p
unfolding rr_global_pointer
rr_global_pointer_sum p g s hp hg hs =
    let group : g * 2 ^ 96 % 2 ^ 128 ≡ g * 2 ^ 96 = omega arith in
    let storage : s * 2 ^ 64 % 2 ^ 128 ≡ s * 2 ^ 64 = omega arith in
    let ids : bit_or (g * 2 ^ 96) (s * 2 ^ 64) ≡ (g * 2 ^ 32 + s) * 2 ^ 64 =
      omega (arith, bit_or_disjoint 96 g (s * 2 ^ 64) (omega arith)) in
    rw (group, storage, ids) (omega (arith, bit_or_disjoint 64 (g * 2 ^ 32 + s) p hp))

-- A pointer within a storage that is packed with its group id and storage id, both below 2^32, is
-- unpacked to the same storage id and the same pointer, and to the same group id.
pub rr_round_trip :
    (p g s : ℕ)
    → p < word
    → g < 2 ^ 32
    → s < 2 ^ 32
    → (rr_storage_pointer (rr_global_pointer p g s) ≡ (s, p))
      × (get_group_id (rr_global_pointer p g s) ≡ g)
unfolding rr_storage_pointer get_group_id
rr_round_trip p g s hp hg hs =
    rw (rr_global_pointer_sum p g s hp hg hs)
      (ap₂ (λ a b. (a, b)) (omega arith) (omega arith), omega arith)

-- Advancing a packed pointer by `n` bytes stays in its storage, as long as the storage pointer
-- does not leave 64 bits: the arithmetic on global pointers agrees with that on storage pointers.
pub rr_advance :
    (p g s n : ℕ)
    → p + n < word
    → g < 2 ^ 32
    → s < 2 ^ 32
    → rr_global_pointer p g s + n ≡ rr_global_pointer (p + n) g s
rr_advance p g s n h hg hs = omega (
  arith,
  rr_global_pointer_sum p g s (omega arith) hg hs,
  rr_global_pointer_sum (p + n) g s h hg hs,
)
