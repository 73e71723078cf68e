-- ===== src/Pointers.antt =====
-- `src/common/utils/pointer_traits.h`: a global pointer packs a group id and a pointer within the
-- group, for round-robin groups and for erasure-coded ones. `x << k` on `uint128_t` is
-- `x * 2 ^ k % 2 ^ 128`, `x >> k` is `x / 2 ^ k`, and a mask of k ones is `% 2 ^ k`.
pub mod RoundRobin
pub mod ErasureCoding
mod Tests
use Prim.Native.Nat.{bit_or}
use uh_core.Base.{ℕ, ◌+◌, ◌-◌, ◌*◌, ◌/◌, ◌%◌, ◌^◌, word, wide, add64, add128}

abbrev pub group_id_bit_offset : ℕ
group_id_bit_offset = 96

abbrev pub storage_id_bit_offset : ℕ
storage_id_bit_offset = 64

-- `x << k` on `uint128_t`.
abbrev pub shl : ℕ → ℕ → ℕ
shl x k = x * 2 ^ k % wide

unfoldable pub get_group_id : ℕ → ℕ
get_group_id global_pointer = global_pointer / 2 ^ group_id_bit_offset % word

unfoldable pub get_group_pointer : ℕ → ℕ
get_group_pointer global_pointer = global_pointer % 2 ^ group_id_bit_offset

unfoldable pub rr_global_pointer : ℕ → ℕ → ℕ → ℕ
rr_global_pointer storage_pointer group_id storage_id =
    bit_or (bit_or (shl group_id group_id_bit_offset) (shl storage_id storage_id_bit_offset))
      storage_pointer

unfoldable pub rr_storage_pointer : ℕ → ℕ × ℕ
rr_storage_pointer global_pointer = (global_pointer / 2 ^ 64 % 2 ^ 32, global_pointer % word)

unfoldable pub ec_group_pointer : ℕ → ℕ → ℕ → ℕ → ℕ
unfolding add128
ec_group_pointer storage_pointer storage_id chunk_size stripe_size =
    let stripes = storage_pointer / chunk_size * stripe_size % wide in
    let chunks = chunk_size * storage_id % wide in
    add128 (add128 stripes (storage_pointer % chunk_size)) chunks

unfoldable pub ec_global_pointer : ℕ → ℕ → ℕ → ℕ → ℕ → ℕ
unfolding ec_group_pointer
ec_global_pointer storage_pointer group_id storage_id chunk_size stripe_size =
    bit_or (shl group_id group_id_bit_offset)
      (ec_group_pointer storage_pointer storage_id chunk_size stripe_size)

unfoldable pub ec_storage_pointer : ℕ → ℕ → ℕ → ℕ × ℕ
ec_storage_pointer group_pointer chunk_size stripe_size =
    let group_mod = group_pointer % stripe_size % word in
    let storage_id = group_mod / chunk_size in
    let stripes = group_pointer / stripe_size * chunk_size % wide in
    (storage_id, (stripes + (group_mod - storage_id * chunk_size)) % word)
