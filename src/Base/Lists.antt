-- ===== src/Base/Lists.antt =====
-- Lists measured and cut by native numbers, under the library's names.
use Prim.Native.Nat.{ℕ, zero, suc, ◌+◌, ◌-◌, ◌≤◌, ◌<◌, min}
use mathlib.Core.Path.{◌≡◌, refl, ap}
use mathlib.Core.Logic.{◌≢◌}
use mathlib.Core.List.{List, [], ◌∷◌, ◌++◌, map}
use mathlib.Core.Option.{Option, none, some}
use native.Mathlib.Omega.{arith}
use native.Mathlib.Numerals.{unary_clauses}

module _ {ℓ} {A : Type ℓ} where
  abbrev pub length : List A → ℕ
  length [] = 0
  length (x ∷ xs) = suc (length xs)

  abbrev pub take : ℕ → List A → List A
  take zero xs = []
  take (suc n) [] = []
  take (suc n) (x ∷ xs) = x ∷ take n xs

  abbrev pub drop : ℕ → List A → List A
  drop zero xs = xs
  drop (suc n) [] = []
  drop (suc n) (x ∷ xs) = drop n xs

  abbrev pub get_elem? : List A → ℕ → Option A
  get_elem? [] i = none
  get_elem? (x ∷ xs) zero = some x
  get_elem? (x ∷ xs) (suc i) = get_elem? xs i

  -- The list with the element at a place replaced; out of range, the list as it is.
  abbrev pub set_elem : List A → ℕ → A → List A
  set_elem [] i a = []
  set_elem (x ∷ xs) zero a = a ∷ xs
  set_elem (x ∷ xs) (suc i) a = x ∷ set_elem xs i a

  pub length-set_elem : (xs : List A) (i : ℕ) (a : A) → length (set_elem xs i a) ≡ length xs
  length-set_elem [] i a = refl
  length-set_elem (x ∷ xs) zero a = refl
  length-set_elem (x ∷ xs) (suc i) a = ap suc (length-set_elem xs i a)

  pub get_elem?-set_elem_self :
      (xs : List A) (i : ℕ) (a : A) → i < length xs → get_elem? (set_elem xs i a) i ≡ some a
  get_elem?-set_elem_self [] i a h = absurd (omega arith)
  get_elem?-set_elem_self (x ∷ xs) zero a h = refl
  get_elem?-set_elem_self (x ∷ xs) (suc i) a h = get_elem?-set_elem_self xs i a (omega arith)

  pub get_elem?-set_elem_other :
      (xs : List A) (i j : ℕ) (a : A) → i ≢ j → get_elem? (set_elem xs i a) j ≡ get_elem? xs j
  get_elem?-set_elem_other [] i j a h = refl
  get_elem?-set_elem_other (x ∷ xs) zero zero a h = absurd (h refl)
  get_elem?-set_elem_other (x ∷ xs) zero (suc j) a h = refl
  get_elem?-set_elem_other (x ∷ xs) (suc i) zero a h = refl
  get_elem?-set_elem_other (x ∷ xs) (suc i) (suc j) a h =
      get_elem?-set_elem_other xs i j a (λ e. h (ap suc e))

  pub take-nil : (n : ℕ) → take n [] ≡ []
  take-nil zero = refl
  take-nil (suc n) = refl

  pub drop-nil : (n : ℕ) → drop n [] ≡ []
  drop-nil zero = refl
  drop-nil (suc n) = refl

  pub length-append : (xs ys : List A) → length (xs ++ ys) ≡ length xs + length ys
  length-append [] ys = omega arith
  length-append (x ∷ xs) ys = omega (arith, length-append xs ys)

  pub length-take : (n : ℕ) (xs : List A) → length (take n xs) ≡ min n (length xs)
  length-take zero xs = omega arith
  length-take (suc n) [] = omega arith
  length-take (suc n) (x ∷ xs) = omega (arith, length-take n xs)

  pub length-drop : (n : ℕ) (xs : List A) → length (drop n xs) ≡ length xs - n
  length-drop zero xs = omega arith
  length-drop (suc n) [] = omega arith
  length-drop (suc n) (x ∷ xs) = omega (arith, length-drop n xs)

  -- A cut at or behind the end.
  pub take_of_length-le : (n : ℕ) (xs : List A) → length xs ≤ n → take n xs ≡ xs
  take_of_length-le n [] h = take-nil n
  take_of_length-le zero (x ∷ xs) h = absurd (omega arith)
  take_of_length-le (suc n) (x ∷ xs) h = ap (◌∷◌ x) (take_of_length-le n xs (omega arith))

  pub drop_of_length-le : (n : ℕ) (xs : List A) → length xs ≤ n → drop n xs ≡ []
  drop_of_length-le zero [] h = refl
  drop_of_length-le zero (x ∷ xs) h = absurd (omega arith)
  drop_of_length-le (suc n) [] h = refl
  drop_of_length-le (suc n) (x ∷ xs) h = drop_of_length-le n xs (omega arith)

  pub take-append :
      (n : ℕ) (xs ys : List A) → take n (xs ++ ys) ≡ take n xs ++ take (n - length xs) ys
  take-append zero [] ys = refl
  take-append zero (x ∷ xs) ys =
      let none_left : 0 - suc (length xs) ≡ 0 = omega arith in rw none_left
  take-append (suc n) [] ys = simp unary_clauses
  take-append (suc n) (x ∷ xs) ys = simp unary_clauses (ap (◌∷◌ x) (take-append n xs ys))

  pub drop-append :
      (n : ℕ) (xs ys : List A) → drop n (xs ++ ys) ≡ drop n xs ++ drop (n - length xs) ys
  drop-append zero [] ys = refl
  drop-append zero (x ∷ xs) ys =
      let none_left : 0 - suc (length xs) ≡ 0 = omega arith in rw none_left
  drop-append (suc n) [] ys = simp unary_clauses
  drop-append (suc n) (x ∷ xs) ys = simp unary_clauses (drop-append n xs ys)

module _ {ℓ} {A : Type ℓ} where
  pub drop-drop : (m n : ℕ) (xs : List A) → drop m (drop n xs) ≡ drop (n + m) xs
  drop-drop m zero xs = ap (λ (k : ℕ). drop k xs) (omega arith)
  drop-drop m (suc n) [] = rw (drop-nil m, drop-nil (suc n + m))
  drop-drop m (suc n) (x ∷ xs) =
      let sum : suc n + m ≡ suc (n + m) = omega arith in rw sum (drop-drop m n xs)

  pub take_add : (n m : ℕ) (xs : List A) → take n xs ++ take m (drop n xs) ≡ take (n + m) xs
  take_add zero m xs = ap (λ (k : ℕ). take k xs) (omega arith)
  take_add (suc n) m [] = rw (take-nil m, take-nil (suc n + m))
  take_add (suc n) m (x ∷ xs) =
      let sum : suc n + m ≡ suc (n + m) = omega arith in rw sum (ap (◌∷◌ x) (take_add n m xs))

  -- Cuts that stay inside the first of two lists.
  pub take-append_le : (n : ℕ) (xs ys : List A) → n ≤ length xs → take n (xs ++ ys) ≡ take n xs
  take-append_le zero xs ys h = refl
  take-append_le (suc n) [] ys h = absurd (omega arith)
  take-append_le (suc n) (x ∷ xs) ys h = ap (◌∷◌ x) (take-append_le n xs ys (omega arith))

  pub drop-append_le :
      (n : ℕ) (xs ys : List A) → n ≤ length xs → drop n (xs ++ ys) ≡ drop n xs ++ ys
  drop-append_le zero xs ys h = refl
  drop-append_le (suc n) [] ys h = absurd (omega arith)
  drop-append_le (suc n) (x ∷ xs) ys h = drop-append_le n xs ys (omega arith)

  pub take-append_self : (xs ys : List A) → take (length xs) (xs ++ ys) ≡ xs
  take-append_self [] ys = refl
  take-append_self (x ∷ xs) ys = ap (◌∷◌ x) (take-append_self xs ys)

  pub drop-append_self : (xs ys : List A) → drop (length xs) (xs ++ ys) ≡ ys
  drop-append_self [] ys = refl
  drop-append_self (x ∷ xs) ys = drop-append_self xs ys

  -- The element at a position heads the list from there on.
  pub drop-get_elem? :
      (xs : List A) (i : ℕ)
      → i < length xs
      → (x : A) × (get_elem? xs i ≡ some x) × (drop i xs ≡ x ∷ drop (suc i) xs)
  drop-get_elem? [] i h = absurd (omega arith)
  drop-get_elem? (x ∷ xs) zero h = (x, refl, refl)
  drop-get_elem? (x ∷ xs) (suc i) h = drop-get_elem? xs i (omega arith)

module _ {ℓ κ} {A : Type ℓ} {B : Type κ} (f : A → B) where
  pub map-take : (n : ℕ) (xs : List A) → map f (take n xs) ≡ take n (map f xs)
  map-take zero xs = refl
  map-take (suc n) [] = refl
  map-take (suc n) (x ∷ xs) = ap (◌∷◌ (f x)) (map-take n xs)

  pub map-drop : (n : ℕ) (xs : List A) → map f (drop n xs) ≡ drop n (map f xs)
  map-drop zero xs = refl
  map-drop (suc n) [] = refl
  map-drop (suc n) (x ∷ xs) = map-drop n xs

  pub length-map : (xs : List A) → length (map f xs) ≡ length xs
  length-map [] = refl
  length-map (x ∷ xs) = ap suc (length-map xs)
