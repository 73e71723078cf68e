-- ===== src/Storage/EcDataView.antt =====
-- `src/storage/group/ec_data_view.cpp`: an erasure-coded group spreads the stripes of its data over
-- its storages, a chunk for each.
pub mod Pieces
pub mod Split
pub mod Stripes
pub mod Layout
pub mod Counts
pub mod Service
pub mod Link
pub mod Place
pub mod StoreAll
pub mod Write
pub mod Read
mod Tests
use uh_core.Base.{
  ℕ, zero, suc, ◌+◌, ◌-◌, ◌*◌, ◌/◌, ◌%◌, ◌^◌, min, Option, none, some, List, [], ◌∷◌, ◌++◌, ltb,
  if◌then◌else◌, wide, add64, sub64, add128, sub128,
}
use uh_core.Types.Fragment.{Fragment}
use uh_core.Types.Address.{Address, append, empty_address}

-- `align_up_next` of `src/common/utils/integral.h`, on `uint128_t`.
unfoldable pub align_up_next : ℕ → ℕ → ℕ
unfolding add128
align_up_next x y = add128 (x / y) 1 * y % wide

abbrev pub consed {ℓ} : {A : Type ℓ} → A → Option (List A) → Option (List A)
consed a none = none
consed a (some as') = some (a ∷ as')

-- The loop of `split_fragment`, from `current_p` on; `none` means that the fuel ran out.
unfoldable pub split_rest : ℕ → ℕ → ℕ → ℕ → Option (List Fragment)
unfolding add128 sub128
split_rest chunk zero current end = none
split_rest chunk (suc fuel) current end =
    let size = sub128 (min (add128 current chunk) end) current in
    let rest = split_rest chunk fuel (add128 current size) end in
    if ltb current end
    then consed (record { pointer = current; size = size % 2 ^ 64 }) rest
    else some []

unfoldable pub split_fragment : ℕ → ℕ → ℕ → Option (List Fragment)
unfolding align_up_next split_rest add128 sub128
split_fragment chunk pointer read_size =
    let end = add128 pointer read_size in
    let size = sub128 (min (align_up_next pointer chunk) end) pointer in
    consed (record { pointer = pointer; size = size % 2 ^ 64 })
      (split_rest chunk (suc read_size) (add128 pointer size) end)

-- The loop of `get_aligned_address`.
unfoldable pub aligned_from : ℕ → Address → List Fragment → Option Address
unfolding split_fragment append
aligned_from chunk aligned [] = some aligned
aligned_from chunk aligned (f ∷ fs) = elim (split_fragment chunk f.pointer f.size) [
  | none ↦ none
  | some a ↦ aligned_from chunk (append aligned (record { fragments = a })) fs
]

unfoldable pub get_aligned_address : ℕ → Address → Option Address
unfolding aligned_from
get_aligned_address chunk addr = aligned_from chunk empty_address addr.fragments
