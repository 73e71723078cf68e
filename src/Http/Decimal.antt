-- ===== src/Http/Decimal.antt =====
-- Numbers in the texts of `src/entrypoint/http/range.cpp`: `std::stoull` reads what
-- `std::to_string` writes.
use uh_core.Base.{
  ℕ, zero, suc, ◌+◌, ◌-◌, ◌*◌, ◌/◌, ◌%◌, ◌<◌, ◌==◌, ◌≡◌, refl, ap, ◌∙◌, inl, inr, Bool, Bool-cases,
  true, false, ltb, leb, if◌then◌else◌, List, [], ◌∷◌, arith, length, word,
}
use uh_core.Base.Result.{ok, throws, out_of_range, invalid_argument}
use uh_core.Http.{to_decimal, is_digit, is_space, leading_digits, in_range, number, stoull}

abbrev pub AllDigits : List ℕ → Type 0
AllDigits [] = Unit {0}
AllDigits (c ∷ cs) = (is_digit c ≡ true) × AllDigits cs

pub to_decimal-AllDigits :
    (fuel n : ℕ) (text : List ℕ) → AllDigits text → AllDigits (to_decimal fuel n text)
unfolding to_decimal
to_decimal-AllDigits zero n text all = all
to_decimal-AllDigits (suc fuel) n text all = elim (Bool-cases (ltb n 10)) [
  | inl small ↦ rw small (ground arith, all)
  | inr big ↦ rw big (to_decimal-AllDigits fuel (n / 10) ((48 + n % 10) ∷ text) (ground arith, all))
]

pub leading_digits-to_decimal :
    (fuel n : ℕ) (text : List ℕ)
    → n < fuel
    → leading_digits 0 (to_decimal fuel n text) ≡ leading_digits n text
unfolding to_decimal leading_digits
leading_digits-to_decimal zero n text h = absurd (omega arith)
leading_digits-to_decimal (suc fuel) n text h = elim (Bool-cases (ltb n 10)) [
  | inl small ↦
      let digit : is_digit (48 + n) ≡ true = ground arith in
      let value : 0 * 10 + (48 + n - 48) ≡ n = omega arith in rw (small, digit, value) refl
  | inr big ↦
      let digit : is_digit (48 + n % 10) ≡ true = ground arith in
      let value : n / 10 * 10 + (48 + n % 10 - 48) ≡ n = omega arith in
      rw big (
        leading_digits-to_decimal fuel (n / 10) ((48 + n % 10) ∷ text) (ground arith)
        ∙ rw (digit, value) refl)
]

-- A text of digits, of which there is one, is read as it stands.
stoull_of_digits :
    (c : ℕ) (cs : List ℕ)
    → is_digit c ≡ true
    → leading_digits 0 (c ∷ cs) < word
    → stoull (c ∷ cs) ≡ ok (leading_digits 0 (c ∷ cs))
unfolding stoull
stoull_of_digits c cs digit small =
    let solid : is_space c ≡ false = ground arith in
    let no_minus : (c == 45) ≡ false = ground arith in
    let no_plus : (c == 43) ≡ false = ground arith in
    let fits : leb word (leading_digits 0 (c ∷ cs)) ≡ false = ground arith in
    let inside : in_range false (leading_digits 0 (c ∷ cs)) ≡ ok (leading_digits 0 (c ∷ cs)) =
      ap (λ (b : Bool). if b then throws out_of_range else ok (leading_digits 0 (c ∷ cs))) fits in
    let read : number false (c ∷ cs) ≡ in_range false (leading_digits 0 (c ∷ cs)) =
      ap
        (λ (b : Bool).
          if b then in_range false (leading_digits 0 (c ∷ cs)) else throws invalid_argument)
        digit in
    rw (solid, no_minus, no_plus) (read ∙ inside)

to_decimal-length :
    (fuel n : ℕ) (text : List ℕ) → 0 < length text → 0 < length (to_decimal fuel n text)
unfolding to_decimal
to_decimal-length zero n text h = h
to_decimal-length (suc fuel) n text h = elim (Bool-cases (ltb n 10)) [
  | inl small ↦ rw small (omega arith)
  | inr big ↦ rw big (to_decimal-length fuel (n / 10) ((48 + n % 10) ∷ text) (omega arith))
]

pub length-decimal : (n : ℕ) → 0 < length (to_decimal (suc n) n [])
unfolding to_decimal
length-decimal n = elim (Bool-cases (ltb n 10)) [
  | inl small ↦ rw small (omega arith)
  | inr big ↦ rw big (to_decimal-length n (n / 10) ((48 + n % 10) ∷ []) (omega arith))
]

pub stoull-to_decimal : (n : ℕ) → n < word → stoull (to_decimal (suc n) n []) ≡ ok n
stoull-to_decimal n small =
    go (to_decimal (suc n) n []) (to_decimal-AllDigits (suc n) n [] tt) (length-decimal n)
      (leading_digits-to_decimal (suc n) n [] (omega arith) ∙ unfold leading_digits in refl)
  where
    go :
        (text : List ℕ)
        → AllDigits text
        → 0 < length text
        → leading_digits 0 text ≡ n
        → stoull text ≡ ok n
    go [] all h e = absurd (omega arith)
    go (c ∷ cs) (digit, all) h e = stoull_of_digits c cs digit (omega (arith, e)) ∙ ap ok e
