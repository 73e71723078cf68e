-- ===== src/Base/Elements.antt =====
-- The elements of lists that are put together and cut.
use Prim.Native.Nat.{ℕ, zero, suc, ◌+◌, ◌<◌}
use mathlib.Core.Path.{◌≡◌, refl, ap}
use mathlib.Core.List.{List, [], ◌∷◌, ◌++◌}
use native.Mathlib.Omega.{arith}
use uh_core.Base.Lists.{length, take, drop, get_elem?}

module _ {ℓ} {A : Type ℓ} where
  pub get_elem?-append_lt :
      (xs ys : List A) (i : ℕ) → i < length xs → get_elem? (xs ++ ys) i ≡ get_elem? xs i
  get_elem?-append_lt [] ys i h = absurd (omega arith)
  get_elem?-append_lt (x ∷ xs) ys zero h = refl
  get_elem?-append_lt (x ∷ xs) ys (suc i) h = get_elem?-append_lt xs ys i (omega arith)

  pub get_elem?-append_add :
      (xs ys : List A) (n i : ℕ) → length xs ≡ n → get_elem? (xs ++ ys) (n + i) ≡ get_elem? ys i
  get_elem?-append_add [] ys zero i e = ap (get_elem? ys) (omega arith)
  get_elem?-append_add [] ys (suc n) i e = absurd (omega arith)
  get_elem?-append_add (x ∷ xs) ys zero i e = absurd (omega arith)
  get_elem?-append_add (x ∷ xs) ys (suc n) i e =
      let front : suc n + i ≡ suc (n + i) = omega arith in
      rw front (get_elem?-append_add xs ys n i (omega arith))

  pub get_elem?-take :
      (n : ℕ) (xs : List A) (i : ℕ) → i < n → get_elem? (take n xs) i ≡ get_elem? xs i
  get_elem?-take zero xs i h = absurd (omega arith)
  get_elem?-take (suc n) [] i h = refl
  get_elem?-take (suc n) (x ∷ xs) zero h = refl
  get_elem?-take (suc n) (x ∷ xs) (suc i) h = get_elem?-take n xs i (omega arith)

  pub get_elem?-drop :
      (n : ℕ) (xs : List A) (i : ℕ) → get_elem? (drop n xs) i ≡ get_elem? xs (n + i)
  get_elem?-drop zero xs i = ap (get_elem? xs) (omega arith)
  get_elem?-drop (suc n) [] i = refl
  get_elem?-drop (suc n) (x ∷ xs) i =
      let front : suc n + i ≡ suc (n + i) = omega arith in rw front (get_elem?-drop n xs i)
