-- ===== src/Policy/Pattern/Matched.antt =====
-- `equals_wildcard` with variables of `src/entrypoint/policy/variables.cpp`: what the variables come to,
-- and what the whole pattern accepts.
use uh_core.Base.{
  ◌==◌, ◌≡◌, refl, ap, ◌∙◌, ◌↔◌, Bool-cases, true, false, Option, Option-cases, none, some, List,
  [], ◌∷◌, if◌then◌else◌, inl, inr, map, arith,
}
use uh_core.Policy.Variables.{
  Text, Vars, special_value, var_value, replacement, temp_asterisk, temp_questionmark,
  equals_wildcard_vars,
}
use uh_core.Policy.Matchers.{texts_equal}
use uh_core.Policy.Wildcard.{IsMatch}
use uh_core.Policy.Replace.{
  Piece, plain, escaped, variable, print, values, equals_wildcard_vars_iff,
}
use uh_core.Policy.Pattern.{
  AllChars, AllOrdinary, value_of, Fits, IsName, AllProper, stand_in, map-print, map-ordinary,
  AllWell-stand_in, IsPiece-replacement, IsMatch-append,
}

module _ (vars : Vars) (no_asterisk : vars (temp_asterisk ∷ []) ≡ none)
    (no_questionmark : vars (temp_questionmark ∷ []) ≡ none) where
  abbrev found_or : Text → Option Text → Text
  found_or name (some value) = value
  found_or name none = special_value temp_asterisk temp_questionmark vars name

  var_value-found_or :
      (name : Text) (o : Option Text)
      → vars name ≡ o
      → var_value temp_asterisk temp_questionmark vars name ≡ found_or name o
  unfolding var_value
  var_value-found_or name o e = ap (found_or name) e

  -- What a name without a value stands for.
  special_value-ordinary :
      (name : Text)
      → AllOrdinary name
      → AllChars name
      → special_value temp_asterisk temp_questionmark vars name
        ≡ (if texts_equal name (36 ∷ []) then 36 ∷ [] else [])
  unfolding special_value
  special_value-ordinary [] o chars = refl
  special_value-ordinary (c ∷ []) o chars =
      let a : (c == 255) ≡ false = ground (arith, chars.0) in
      let b : (c == 254) ≡ false = ground (arith, chars.0) in
      elim (Bool-cases (c == 36)) [
        | inl own ↦ rw (a, b, own) refl
        | inr other ↦ rw (a, b, other) refl
      ]
  special_value-ordinary (c ∷ d ∷ cs) o chars = elim (Bool-cases (c == 36)) [
    | inl own ↦ rw own refl
    | inr other ↦ rw other refl
  ]

  not_wildcard :
      (name : Text)
      → AllOrdinary name
      → (texts_equal name (42 ∷ []) ≡ false) × (texts_equal name (63 ∷ []) ≡ false)
  not_wildcard [] o = (refl, refl)
  not_wildcard (c ∷ cs) o = (rw o.0 refl, rw o.1 refl)

  ordinary_value :
      (name : Text)
      → AllOrdinary name
      → AllChars name
      → var_value temp_asterisk temp_questionmark vars name ≡ value_of vars name
  ordinary_value name o chars =
      let (a, b) = not_wildcard name o in
      elim (Option-cases (vars name)) [
        | inl missing ↦
            var_value-found_or name none missing
            ∙ special_value-ordinary name o chars
            ∙ rw (a, b, missing) refl
        | inr (v, found) ↦ var_value-found_or name (some v) found ∙ rw (a, b, found) refl
      ]

  var_value-value_of :
      (name : Text)
      → IsName name
      → var_value temp_asterisk temp_questionmark vars (map replacement name) ≡ value_of vars name
  var_value-value_of name (inl e) =
      rw e
        (var_value-found_or (temp_asterisk ∷ []) none no_asterisk ∙ (unfold special_value in refl))
  var_value-value_of name (inr (inl e)) = rw e (
      var_value-found_or (temp_questionmark ∷ []) none no_questionmark
      ∙ (unfold special_value in refl))
  var_value-value_of name (inr (inr (o, chars))) =
      ap (var_value temp_asterisk temp_questionmark vars) (map-ordinary name o)
      ∙ ordinary_value name o chars

  IsMatch-Fits :
      (ps : List Piece) (s : Text)
      → AllProper vars ps
      → IsMatch temp_asterisk temp_questionmark
          (values temp_asterisk temp_questionmark vars (stand_in ps))
          s
        ↔ Fits vars ps s
  IsMatch-Fits [] s w = (λ m. m, λ m. m)
  IsMatch-Fits (plain c ∷ ps) s w = (
    λ (piece, rest, e, here, m).
        (piece, rest, e, (IsPiece-replacement c piece w.0).0 here, (IsMatch-Fits ps rest w.3).0 m),
    λ (piece, rest, e, here, m).
        (piece, rest, e, (IsPiece-replacement c piece w.0).1 here, (IsMatch-Fits ps rest w.3).1 m),
  )
  IsMatch-Fits (escaped c ∷ ps) s w = (
    λ (piece, rest, e, here, m).
        (piece, rest, e, (IsPiece-replacement c piece w.0).0 here, (IsMatch-Fits ps rest w.1).0 m),
    λ (piece, rest, e, here, m).
        (piece, rest, e, (IsPiece-replacement c piece w.0).1 here, (IsMatch-Fits ps rest w.1).1 m),
  )
  IsMatch-Fits (variable name ∷ ps) s w =
      let v = value_of vars name in
      let later = values temp_asterisk temp_questionmark vars (stand_in ps) in
      let split = IsMatch-append v later s w.1 in
      rw (var_value-value_of name w.0) (
        λ m. let (rest, e, m') = split.0 m in (rest, e, (IsMatch-Fits ps rest w.2).0 m'),
        λ (rest, e, m). split.1 (rest, e, (IsMatch-Fits ps rest w.2).1 m),
      )

  -- A pattern that is written as plain characters, escaped characters and variables accepts exactly
  -- the strings that its parts fit: `*` is any text, `?` is any character, escaped or not, every
  -- other character is itself, `${*}` and `${?}` are the characters in the braces, and every other
  -- variable is its value, which is taken as it is; without a value `${$}` is a dollar and the
  -- others are nothing. The pattern, the names and the values are of characters of UTF-8, names
  -- besides `*` and `?` have neither of these nor a `}` in them, plain characters are neither `$` nor
  -- `\`, and no variable has a stand-in for its name.
  pub equals_wildcard_vars-Fits :
      (ps : List Piece) (str : Text)
      → AllProper vars ps
      → (equals_wildcard_vars vars (print ps) str ≡ true) ↔ Fits vars ps str
  equals_wildcard_vars-Fits ps str w =
      let match =
        equals_wildcard_vars_iff vars (print ps) str (stand_in ps) (map-print ps)
          (AllWell-stand_in vars ps w) in
      let fits = IsMatch-Fits ps str w in (λ e. fits.0 (match.0 e), λ f. match.1 (fits.1 f))
