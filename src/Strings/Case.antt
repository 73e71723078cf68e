-- ===== src/Strings/Case.antt =====
-- `equals_nocase` of `src/common/utils/strings.cpp`.
use uh_core.Base.{
  ℕ, ◌≡◌, refl, ap, ap₂, ◌↔◌, true, inl, inr, List, [], ◌∷◌, map, arith, ◌==◌, ==_iff, Bool-cases,
  length, length-map,
}
use uh_core.Strings.{tolower, lowercase, equal_nocase_from, equals_nocase}

abbrev head_or : ℕ → List ℕ → ℕ
head_or d [] = d
head_or d (c ∷ cs) = c

abbrev tail : List ℕ → List ℕ
tail [] = []
tail (c ∷ cs) = cs

from_iff :
    (xs ys : List ℕ)
    → length xs ≡ length ys
    → (equal_nocase_from xs ys ≡ true) ↔ (map tolower xs ≡ map tolower ys)
unfolding equal_nocase_from
from_iff [] [] e = (λ h. refl, λ h. refl)
from_iff [] (b ∷ ys) e = absurd (omega arith)
from_iff (a ∷ xs) [] e = absurd (omega arith)
from_iff (a ∷ xs) (b ∷ ys) e =
    let ih = from_iff xs ys (omega arith) in
    elim (Bool-cases (tolower a == tolower b)) [
      | inl same ↦
          rw same
            (λ h. ap₂ ◌∷◌ ((==_iff (tolower a) (tolower b)).0 same) (ih.0 h), λ h. ih.1 (ap tail h))
      | inr differ ↦
          rw differ
            (λ h. cc, λ h. let same = (==_iff (tolower a) (tolower b)).1 (ap (head_or 0) h) in cc)
    ]

-- `equals_nocase` holds for exactly the strings whose lower case versions are equal.
pub equals_nocase_iff :
    (xs ys : List ℕ) → (equals_nocase xs ys ≡ true) ↔ (lowercase xs ≡ lowercase ys)
unfolding equals_nocase lowercase
equals_nocase_iff xs ys = elim (Bool-cases (length xs == length ys)) [
  | inl same ↦ rw same (from_iff xs ys ((==_iff (length xs) (length ys)).0 same))
  | inr differ ↦
      rw differ (λ h. cc, λ h. let same = (==_iff (length xs) (length ys)).1 (lengths h) in cc)
]
  where
    lengths : map tolower xs ≡ map tolower ys → length xs ≡ length ys
    lengths h = omega (arith, length-map tolower xs, length-map tolower ys, ap length h)
