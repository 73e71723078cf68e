-- ===== src/Policy/Numbers.antt =====
-- `to_int` of `src/entrypoint/policy/variables.cpp`, on `std::from_chars` for `int64_t`.
use uh_core.Base.{
  ℕ, ◌+◌, ◌-◌, ◌*◌, ◌^◌, ◌==◌, ltb, leb, Bool, true, false, ◌&&◌, if◌then◌else◌, Option, none, some,
  List, [], ◌∷◌,
}
use uh_core.Base.Result.{Result, ok, throws, runtime_error}

-- `negsuc n` is -(n + 1).
pub data ℤ : Type 0 where
  pos : ℕ → ℤ
  negsuc : ℕ → ℤ

abbrev pub equal_to : ℤ → ℤ → Bool
equal_to (pos a) (pos b) = a == b
equal_to (pos a) (negsuc b) = false
equal_to (negsuc a) (pos b) = false
equal_to (negsuc a) (negsuc b) = a == b

abbrev pub less : ℤ → ℤ → Bool
less (pos a) (pos b) = ltb a b
less (pos a) (negsuc b) = false
less (negsuc a) (pos b) = true
less (negsuc a) (negsuc b) = ltb b a

-- The value of a text of digits behind those of value `acc`; `none` at another character.
unfoldable pub digits_from : ℕ → List ℕ → Option ℕ
digits_from acc [] = some acc
digits_from acc (c ∷ cs) =
    let rest = digits_from (acc * 10 + (c - 48)) cs in if leb 48 c && leb c 57 then rest else none

-- `from_chars` wants a digit.
abbrev pub digits : List ℕ → Option ℕ
digits [] = none
digits (c ∷ cs) = digits_from 0 (c ∷ cs)

abbrev pub positive : Option ℕ → Result ℤ
positive none = throws runtime_error
positive (some n) = if ltb n (2 ^ 63) then ok (pos n) else throws runtime_error

abbrev pub negative : Option ℕ → Result ℤ
negative none = throws runtime_error
negative (some n) =
    if n == 0
    then ok (pos 0)
    else if leb n (2 ^ 63)
    then ok (negsuc (n - 1))
    else throws runtime_error

unfoldable pub to_int : List ℕ → Result ℤ
unfolding digits_from
to_int [] = throws runtime_error
to_int (c ∷ cs) = if c == 45 then negative (digits cs) else positive (digits (c ∷ cs))
