-- ===== src/Types/Tests.antt =====
-- Addresses of `src/common/types/address.h` on concrete values.
use uh_core.Base.{
  ◌+◌, ◌-◌, ◌<◌, min, ◌≡◌, refl, [], ◌∷◌, arith, length, take, drop, add64, sub64, add128,
}
use uh_core.Types.Fragment.{Fragment, frag_bytes, subfrag}
use uh_core.Types.Address.{Address, data_size, range}
use uh_core.Types.Address.Bytes.{bytes, IsValid}
use uh_core.Types.Address.Backwards.{range_backwards}
use uh_core.Types.Address.Range.{range-bytes, range-IsValid}

abbrev first : Fragment
first = record { pointer = 100; size = 4 }

abbrev second : Fragment
second = record { pointer = 7; size = 3 }

abbrev two : Address
two = record { fragments = first ∷ second ∷ [] }

two-IsValid : IsValid two
two-IsValid = record { fits = (omega arith, (omega arith, tt)); small = omega arith }

-- The range from 2 to 6 crosses the border between the fragments.
range_across : range two 2 6 ≡ record {
  fragments = record { pointer = 102; size = 2 } ∷ record { pointer = 7; size = 2 } ∷ [];
}
unfolding range add64 subfrag sub64 add128
range_across = refl

range-bytes_example : bytes (range two 2 6) ≡ take (6 - 2) (drop 2 (bytes two))
range-bytes_example = range-bytes two 2 6 two-IsValid (omega arith) (omega arith)

range-IsValid_example :
    IsValid (range two 2 6) × (data_size (range two 2 6) ≡ min (6 - 2) (data_size two - 2))
range-IsValid_example = range-IsValid two 2 6 two-IsValid (omega arith) (omega arith)

-- Bytes 5 to 2 of seven: two bytes instead of none.
range_backwards_example :
    (bytes (range two 5 2) ≡ drop (5 - (4 + 0)) (frag_bytes second))
    × (0 < length (drop (5 - (4 + 0)) (frag_bytes second)))
range_backwards_example =
    range_backwards (first ∷ []) second [] 5 2 (omega arith) (omega arith) (omega arith)
      (omega arith) (omega arith)
