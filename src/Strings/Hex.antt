-- ===== src/Strings/Hex.antt =====
-- `to_hex` and `unhex` of `src/common/utils/strings.h` and `strings.cpp`.
use native.Mathlib.Nat.{mod-lt}
use Prim.Native.Nat.{bit_or}
use uh_core.Base.{
  ℕ, ◌*◌, ◌/◌, ◌%◌, ◌^◌, ◌<◌, ◌≡◌, refl, ap, ◌∙◌, true, List, [], ◌∷◌, map, arith, ◌==◌, length,
}
use uh_core.Base.Bits.{bit_or_disjoint}
use uh_core.Base.Result.{ok}
use uh_core.Strings.{tolower, hex_char, isxdigit, xvalue, to_hex_byte, to_hex, unhex_from, unhex}

-- The digits that `to_hex` writes.
module _ (n : ℕ) (digit : n < 16) where
  tolower-hex_char : tolower (hex_char n) ≡ hex_char n
  tolower-hex_char = ground arith

  isxdigit-hex_char : isxdigit (hex_char n) ≡ true
  isxdigit-hex_char = ground arith

  xvalue-hex_char : xvalue (hex_char n) ≡ n
  xvalue-hex_char = ground arith

-- What `unhex` makes of two digits: the second alone.
low_digit : (x y : ℕ) → y < 16 → bit_or (x * 2 ^ 8) y % 256 ≡ y
low_digit x y h = ap (λ (t : ℕ). t % 256) (bit_or_disjoint 8 x y (omega arith)) ∙ omega arith

unhex_from-to_hex :
    (bytes : List ℕ) → unhex_from (map tolower (to_hex bytes)) ≡ ok (map (λ b. b % 16) bytes)
unfolding unhex_from to_hex to_hex_byte
unhex_from-to_hex [] = refl
unhex_from-to_hex (b ∷ bs) =
    let high : b / 16 % 16 < 16 = mod-lt (b / 16) (omega arith) in
    let low : b % 16 < 16 = mod-lt b (omega arith) in
    rw
      (
        tolower-hex_char (b / 16 % 16) high,
        tolower-hex_char (b % 16) low,
        isxdigit-hex_char (b / 16 % 16) high,
        isxdigit-hex_char (b % 16) low,
        xvalue-hex_char (b / 16 % 16) high,
        xvalue-hex_char (b % 16) low,
        low_digit (b / 16 % 16) (b % 16) low,
        unhex_from-to_hex bs,
      )
      refl

length-to_hex : (bytes : List ℕ) → length (to_hex bytes) ≡ 2 * length bytes
unfolding to_hex to_hex_byte
length-to_hex [] = refl
length-to_hex (b ∷ bs) = omega (arith, length-to_hex bs)

-- `unhex` of what `to_hex` writes succeeds, but yields the low four bits of every byte alone: the
-- bytes come back only where they are below 16.
pub unhex-to_hex : (bytes : List ℕ) → unhex (to_hex bytes) ≡ ok (map (λ b. b % 16) bytes)
unfolding unhex
unhex-to_hex bytes =
    let even : (length (to_hex bytes) % 2 == 0) ≡ true = ground (arith, length-to_hex bytes) in
    rw even (unhex_from-to_hex bytes)
