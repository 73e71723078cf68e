-- ===== src/Policy/Wildcard.antt =====
-- `equals_wildcard` of `src/entrypoint/policy/variables.cpp`, against what a pattern stands for.
use uh_core.Base.{
  ℕ, ◌≡◌, refl, ap, sym, ◌∙◌, ◌↔◌, ◌⊎◌, inl, inr, ◌==◌, ==_iff, Bool, true, false, ◌||◌,
  if◌then◌else◌, Bool-cases, Option, none, some, List, [], ◌∷◌, ◌++◌, arith,
}
use uh_core.Policy.{begins_with, advance, match_from, equals_wildcard}

module _ (asterisk questionmark : ℕ) where
  -- What one character of the pattern stands for.
  abbrev pub IsPiece : ℕ → List ℕ → Type 0
  IsPiece c piece =
      (c ≡ asterisk) ⊎ ((c ≡ questionmark) × (x : ℕ) × (piece ≡ x ∷ [])) ⊎ (piece ≡ c ∷ [])

  -- The string is the pieces that the characters of the pattern stand for, in their order.
  abbrev pub IsMatch : List ℕ → List ℕ → Type 0
  IsMatch [] s = s ≡ []
  IsMatch (c ∷ pattern) s =
      (piece rest : List ℕ) × (s ≡ piece ++ rest) × IsPiece c piece × IsMatch pattern rest

  behind_end : (pattern : List ℕ) → equals_wildcard asterisk questionmark pattern none ≡ false
  unfolding equals_wildcard
  behind_end [] = refl
  behind_end (c ∷ pattern) = rw (behind_end pattern) (both (c == asterisk) (c == questionmark))
    where
      both : (b b' : Bool) → (if b then false else if b' || false then false else false) ≡ false
      both true b' = refl
      both false true = refl
      both false false = refl

  asterisk_finds :
      (later : Option (List ℕ) → Bool) (s : List ℕ)
      → match_from later s ≡ true
      → (piece rest : List ℕ) × (s ≡ piece ++ rest) × (later (some rest) ≡ true)
  unfolding match_from
  asterisk_finds later [] e = ([], [], refl, e)
  asterisk_finds later (x ∷ xs) e = elim (Bool-cases (later (some (x ∷ xs)))) [
    | inl here ↦ ([], x ∷ xs, refl, here)
    | inr other ↦
        let (piece, rest, parts, found) = asterisk_finds later xs (ground arith) in
        (x ∷ piece, rest, ap (◌∷◌ x) parts, found)
  ]

  asterisk_takes :
      (later : Option (List ℕ) → Bool) (piece rest : List ℕ)
      → later (some rest) ≡ true
      → match_from later (piece ++ rest) ≡ true
  unfolding match_from
  asterisk_takes later [] [] e = e
  asterisk_takes later [] (x ∷ xs) e = rw e refl
  asterisk_takes later (x ∷ piece) rest e =
      let found = asterisk_takes later piece rest e in ground arith

  step_asterisk :
      (c : ℕ) (pattern s : List ℕ)
      → (c == asterisk) ≡ true
      → equals_wildcard asterisk questionmark (c ∷ pattern) (some s)
        ≡ match_from (equals_wildcard asterisk questionmark pattern) s
  unfolding equals_wildcard
  step_asterisk c pattern s e = rw e refl

  step_char :
      (c : ℕ) (pattern : List ℕ) (str : Option (List ℕ))
      → (c == asterisk) ≡ false
      → equals_wildcard asterisk questionmark (c ∷ pattern) str ≡ (
          if (c == questionmark) || begins_with c str
          then equals_wildcard asterisk questionmark pattern (advance str)
          else false)
  unfolding equals_wildcard
  step_char c pattern str e = rw e refl

  IsMatch-matched :
      (pattern s : List ℕ)
      → equals_wildcard asterisk questionmark pattern (some s) ≡ true
      → IsMatch pattern s
  IsMatch-matched [] [] e = refl
  IsMatch-matched [] (x ∷ xs) e = absurd (unfold equals_wildcard in ground arith)
  IsMatch-matched (c ∷ pattern) s e = elim (Bool-cases (c == asterisk)) [
    | inl any ↦
        let (piece, rest, parts, found) =
          asterisk_finds (equals_wildcard asterisk questionmark pattern) s
            (sym (step_asterisk c pattern s any) ∙ e) in
        (piece, rest, parts, inl ((==_iff c asterisk).0 any), IsMatch-matched pattern rest found)
    | inr other ↦
        char s (λ rest. IsMatch-matched pattern rest) (sym (step_char c pattern (some s) other) ∙ e)
  ]
    where
      char :
          (s : List ℕ)
          → ((rest : List ℕ)
              → equals_wildcard asterisk questionmark pattern (some rest) ≡ true
              → IsMatch pattern rest)
          → (if (c == questionmark) || begins_with c (some s)
              then equals_wildcard asterisk questionmark pattern (advance (some s))
              else false)
            ≡ true
          → IsMatch (c ∷ pattern) s
      char [] later e = absurd (let past = behind_end pattern in ground arith)
      char (x ∷ xs) later e = elim (Bool-cases (c == questionmark)) [
        | inl one ↦ (
          x ∷ [],
          xs,
          refl,
          inr (inl ((==_iff c questionmark).0 one, x, refl)),
          later xs (rw one at e),
        )
        | inr other ↦ elim (Bool-cases (x == c)) [
          | inl same ↦ (
            x ∷ [],
            xs,
            refl,
            inr (inr (ap (λ y. y ∷ []) ((==_iff x c).0 same))),
            later xs (rw (other, same) at e),
          )
          | inr differs ↦ absurd (ground arith)
        ]
      ]

  matched-IsMatch :
      (pattern s : List ℕ)
      → IsMatch pattern s
      → equals_wildcard asterisk questionmark pattern (some s) ≡ true
  matched-IsMatch [] s e = rw e (unfold equals_wildcard in refl)
  matched-IsMatch (c ∷ pattern) s (piece, rest, parts, what, m) =
      let found = matched-IsMatch pattern rest m in
      elim (Bool-cases (c == asterisk)) [
        | inl any ↦
            step_asterisk c pattern s any
            ∙ (rw parts
                (asterisk_takes (equals_wildcard asterisk questionmark pattern) piece rest found))
        | inr other ↦ step_char c pattern (some s) other ∙ char what other found
      ]
    where
      either : (b : Bool) {t : Bool} → t ≡ true → (if b || true then t else false) ≡ true
      either true e = e
      either false e = e

      char :
          IsPiece c piece
          → (c == asterisk) ≡ false
          → equals_wildcard asterisk questionmark pattern (some rest) ≡ true
          → (if (c == questionmark) || begins_with c (some s)
              then equals_wildcard asterisk questionmark pattern (advance (some s))
              else false)
            ≡ true
      char (inl any) other found = absurd (let e = (==_iff c asterisk).1 any in ground arith)
      char (inr (inl (one, x, e))) other found = rw (parts, e, (==_iff c questionmark).1 one) found
      char (inr (inr e)) other found =
          rw (parts, e, (==_iff c c).1 refl) (either (c == questionmark) found)

  -- `equals_wildcard` holds for exactly the strings that are made of pieces, one for each character
  -- of the pattern in their order: any text for the asterisk, one character for the question mark,
  -- and the character itself for another.
  pub equals_wildcard_iff :
      (pattern s : List ℕ)
      → (equals_wildcard asterisk questionmark pattern (some s) ≡ true) ↔ IsMatch pattern s
  equals_wildcard_iff pattern s = (IsMatch-matched pattern s, matched-IsMatch pattern s)
