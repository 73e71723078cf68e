-- ===== src/Http/Tests.antt =====
-- `src/entrypoint/http/range.cpp` on a concrete address.
use uh_core.Base.{◌≡◌, List, [], ◌∷◌, ◌++◌, map, arith, refl, add64, sub64, add128}
use uh_core.Base.Result.{ok}
use uh_core.Strings.{join}
use uh_core.Policy.Matchers.{codes}
use uh_core.Types.Fragment.{subfrag}
use uh_core.Types.Address.{Address, append, range, size}
use uh_core.Types.Address.Bytes.{bytes, IsValid}
use uh_core.Http.{
  ByteRange, apply_ranges, apply_range, range_to_string, parse_range_spec, parse_range_header,
}
use uh_core.Http.Header.{parse_range_header-range_to_string}
use uh_core.Http.Ranges.{slices, apply_range-bytes}

abbrev stored : Address
stored = record {
  fragments = record { pointer = 100; size = 4 } ∷ record { pointer = 7; size = 3 } ∷ [];
}

stored-IsValid : IsValid stored
stored-IsValid = record { fits = (omega arith, (omega arith, tt)); small = omega arith }

-- Bytes 5 and 6, then bytes 0 to 4, across the border of the fragments.
abbrev asked : List ByteRange
asked = record { start = 5; end = 7 } ∷ record { start = 0; end = 5 } ∷ []

apply_asked : apply_range stored asked ≡ record {
  fragments =
      record { pointer = 8; size = 2 }
      ∷ record { pointer = 100; size = 4 }
      ∷ record { pointer = 7; size = 1 }
      ∷ [];
}
unfolding apply_range apply_ranges size append range add64 subfrag sub64 add128
apply_asked = refl

apply_range-bytes_example : bytes (apply_range stored asked) ≡ slices asked (bytes stored)
apply_range-bytes_example =
    apply_range-bytes stored asked stored-IsValid
      ((omega arith, omega arith), ((omega arith, omega arith), tt))

-- `bytes=5-6,0-4`
parse_range_header-range_to_string_example :
    parse_range_header (codes "bytes=" ++ join (44 ∷ []) (map range_to_string asked)) 7 ≡ ok asked
parse_range_header-range_to_string_example =
    parse_range_header-range_to_string (record { start = 5; end = 7 })
      (record { start = 0; end = 5 } ∷ []) 7
      ((omega arith, omega arith, omega arith), ((omega arith, omega arith, omega arith), tt))

asked_as_text : map range_to_string asked ≡ codes "5-6" ∷ codes "0-4" ∷ []
unfolding range_to_string
asked_as_text = refl

-- A suffix of the object, and one that is longer than the object.
parse_suffix : parse_range_spec (codes "-3") 7 ≡ ok (record { start = 4; end = 7 })
unfolding parse_range_spec
parse_suffix = refl

parse_long_suffix :
    parse_range_spec (codes "-9") 7 ≡ ok (record { start = 18446744073709551614; end = 7 })
unfolding parse_range_spec
parse_long_suffix = refl
