-- ===== src/Policy/Pattern.antt =====
-- `equals_wildcard` with variables of `src/entrypoint/policy/variables.cpp`, against what the pattern
-- of a policy stands for as it is written.
pub mod Matched
use mathlib.Core.List.{map-append}
use uh_core.Base.{
  ℕ, ◌<◌, ◌==◌, ==_iff, ◌≡◌, refl, ap, ap₂, sym, ◌∙◌, ◌↔◌, ◌⊎◌, Bool, Bool-cases, true, false,
  Option, Option-cases, none, some, List, [], ◌∷◌, ◌++◌, append_assoc, if◌then◌else◌, inl, inr, map,
  arith,
}
use uh_core.Policy.Variables.{
  Text, Vars, dollar, backslash, close_brace, find_close, special_value, var_value, replacement,
  temp_asterisk, temp_questionmark, equals_wildcard_vars,
}
use uh_core.Policy.Matchers.{texts_equal}
use uh_core.Policy.Wildcard.{IsPiece, IsMatch}
use uh_core.Policy.Replace.{
  Piece, plain, escaped, variable, print, AllWell, values, equals_wildcard_vars_iff,
}

-- Characters of UTF-8: the stand-ins 254 and 255 are none.
abbrev pub AllChars : Text → Type 0
AllChars [] = Unit {0}
AllChars (c ∷ cs) = (c < 254) × AllChars cs

-- No `*`, `?` or `}`.
abbrev pub AllOrdinary : Text → Type 0
AllOrdinary [] = Unit {0}
AllOrdinary (c ∷ cs) =
    ((c == 42) ≡ false) × ((c == 63) ≡ false) × ((c == 125) ≡ false) × AllOrdinary cs

-- The value of `${name}`: `*` and `?` stand for themselves, every other name for its value, and
-- without one `$` for itself and the rest for nothing.
abbrev pub value_of : Vars → Text → Text
value_of vars name =
    if texts_equal name (42 ∷ [])
    then 42 ∷ []
    else if texts_equal name (63 ∷ [])
    then 63 ∷ []
    else elim (vars name) [
      | some value ↦ value
      | none ↦ if texts_equal name (36 ∷ []) then 36 ∷ [] else []
    ]

-- The text is the pieces that the parts of the pattern stand for, in their order. A variable stands
-- for its value; a character that is escaped stands for what it stands for without that.
abbrev pub Fits : Vars → List Piece → Text → Type 0
Fits vars [] s = s ≡ []
Fits vars (plain c ∷ ps) s =
    (piece rest : Text) × (s ≡ piece ++ rest) × IsPiece 42 63 c piece × Fits vars ps rest
Fits vars (escaped c ∷ ps) s =
    (piece rest : Text) × (s ≡ piece ++ rest) × IsPiece 42 63 c piece × Fits vars ps rest
Fits vars (variable name ∷ ps) s =
    (rest : Text) × (s ≡ value_of vars name ++ rest) × Fits vars ps rest

-- A name is `*`, `?`, or has neither of them in it.
abbrev pub IsName : Text → Type 0
IsName name = (name ≡ 42 ∷ []) ⊎ (name ≡ 63 ∷ []) ⊎ (AllOrdinary name × AllChars name)

abbrev pub AllProper : Vars → List Piece → Type 0
AllProper vars [] = Unit {0}
AllProper vars (plain c ∷ ps) =
    (c < 254) × ((c == 36) ≡ false) × ((c == 92) ≡ false) × AllProper vars ps
AllProper vars (escaped c ∷ ps) = (c < 254) × AllProper vars ps
AllProper vars (variable name ∷ ps) =
    IsName name × AllChars (value_of vars name) × AllProper vars ps

-- The pieces with the stand-ins in them.
abbrev pub stand_in : List Piece → List Piece
stand_in [] = []
stand_in (plain c ∷ ps) = plain (replacement c) ∷ stand_in ps
stand_in (escaped c ∷ ps) = escaped (replacement c) ∷ stand_in ps
stand_in (variable name ∷ ps) = variable (map replacement name) ∷ stand_in ps

pub map-print : (ps : List Piece) → map replacement (print ps) ≡ print (stand_in ps)
map-print [] = refl
map-print (plain c ∷ ps) = ap (◌∷◌ (replacement c)) (map-print ps)
map-print (escaped c ∷ ps) = ap (λ (t : Text). 92 ∷ replacement c ∷ t) (map-print ps)
map-print (variable name ∷ ps) =
    ap (λ (t : Text). 36 ∷ 123 ∷ t)
      (map-append replacement name (125 ∷ print ps)
        ∙ ap (λ (t : Text). map replacement name ++ 125 ∷ t) (map-print ps))

replacement_other : (c d : ℕ) → d < 254 → (c == d) ≡ false → (replacement c == d) ≡ false
replacement_other c d low e = elim (Bool-cases (c == 42)) [
  | inl any ↦ rw any (ground arith)
  | inr other ↦ elim (Bool-cases (c == 63)) [
    | inl one ↦ rw (other, one) (ground arith)
    | inr ordinary ↦ rw (other, ordinary) e
  ]
]

pub map-ordinary : (name : Text) → AllOrdinary name → map replacement name ≡ name
map-ordinary [] o = refl
map-ordinary (c ∷ cs) o = rw (o.0, o.1) (ap (◌∷◌ c) (map-ordinary cs o.3))

find_close-ordinary : (name : Text) → AllOrdinary name → find_close name ≡ none
unfolding find_close
find_close-ordinary [] o = refl
find_close-ordinary (c ∷ cs) o = rw (find_close-ordinary cs o.3, o.2) refl

find_close-name : (name : Text) → IsName name → find_close (map replacement name) ≡ none
find_close-name name (inl e) = rw e (unfold find_close in refl)
find_close-name name (inr (inl e)) = rw e (unfold find_close in refl)
find_close-name name (inr (inr (o, chars))) =
    ap find_close (map-ordinary name o) ∙ find_close-ordinary name o

pub AllWell-stand_in : (vars : Vars) (ps : List Piece) → AllProper vars ps → AllWell (stand_in ps)
AllWell-stand_in vars [] w = tt
AllWell-stand_in vars (plain c ∷ ps) w = (
  replacement_other c 36 (omega arith) w.1,
  replacement_other c 92 (omega arith) w.2,
  AllWell-stand_in vars ps w.3,
)
AllWell-stand_in vars (escaped c ∷ ps) w = AllWell-stand_in vars ps w.1
AllWell-stand_in vars (variable name ∷ ps) w =
    (find_close-name name w.0, AllWell-stand_in vars ps w.2)

-- A character and its stand-in stand for the same pieces.
pub IsPiece-replacement :
    (c : ℕ) (piece : Text)
    → c < 254
    → IsPiece temp_asterisk temp_questionmark (replacement c) piece ↔ IsPiece 42 63 c piece
IsPiece-replacement c piece low = elim (Bool-cases (c == 42)) [
  | inl any ↦ rw any (λ h. inl ((==_iff c 42).0 any), λ h. inl refl)
  | inr other ↦ elim (Bool-cases (c == 63)) [
    | inl one ↦
        let this : c ≡ 63 = (==_iff c 63).0 one in
        rw (other, one)
          (
            λ h. elim h [
              | inl e ↦ absurd (omega arith)
              | inr k ↦ elim k [
                | inl (e, x, p) ↦ inr (inl (this, x, p))
                | inr p ↦ inr (inl (this, 254, p))
              ]
            ],
            λ h. elim h [
              | inl e ↦ absurd (ground arith)
              | inr k ↦ elim k [
                | inl (e, x, p) ↦ inr (inl (refl, x, p))
                | inr p ↦ inr (inl (refl, c, p))
              ]
            ],
          )
    | inr ordinary ↦
        rw (other, ordinary)
          (
            λ h. elim h [
              | inl e ↦ absurd (omega arith)
              | inr k ↦ elim k [ inl (e, x, p) ↦ absurd (omega arith) | inr p ↦ inr (inr p) ]
            ],
            λ h. elim h [
              | inl e ↦ absurd (ground arith)
              | inr k ↦ elim k [ inl (e, x, p) ↦ absurd (ground arith) | inr p ↦ inr (inr p) ]
            ],
          )
  ]
]

-- Characters that are no wildcard match themselves.
pub IsMatch-append :
    (v pattern s : Text)
    → AllChars v
    → IsMatch temp_asterisk temp_questionmark (v ++ pattern) s
      ↔ ((rest : Text) × (s ≡ v ++ rest) × IsMatch temp_asterisk temp_questionmark pattern rest)
IsMatch-append [] pattern s low = (λ m. (s, refl, m), λ (rest, e, m). rw e m)
IsMatch-append (c ∷ cs) pattern s low = (
  λ (piece, more, e, here, m).
      let (rest, e', m') = (IsMatch-append cs pattern more low.1).0 m in
      let same : piece ≡ c ∷ [] = elim here [
        | inl any ↦ absurd (omega (arith, low.0))
        | inr k ↦ elim k [ inl (one, x, p) ↦ absurd (omega (arith, low.0)) | inr p ↦ p ]
      ] in
      (rest, e ∙ ap₂ (λ (a b : Text). a ++ b) same e', m'),
  λ (rest, e, m). (
    c ∷ [],
    cs ++ rest,
    e,
    inr (inr refl),
    (IsMatch-append cs pattern (cs ++ rest) low.1).1 (rest, refl, m),
  ),
)
