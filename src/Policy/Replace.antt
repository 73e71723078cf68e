-- ===== src/Policy/Replace.antt =====
-- `var_replace` and the wildcards with variables of `src/entrypoint/policy/variables.cpp`, against
-- the pieces that a format is made of.
use uh_core.Base.{
  ℕ, suc, ◌==◌, ◌≡◌, refl, ap, ◌∙◌, ◌↔◌, true, false, Option-cases, none, some, List, [], ◌∷◌, ◌++◌,
  inl, inr, map, length, take-append_self, arith,
}
use uh_core.Policy.Variables.{
  Text, Vars, backslash, dollar, open_brace, close_brace, find_close, var_value, dollar_step,
  replace_step, replace_from, var_replace, replacement, temp_asterisk, temp_questionmark,
  equals_wildcard_vars,
}
use uh_core.Policy.Wildcard.{IsMatch, equals_wildcard_iff}

pub data Piece : Type 0 where
  plain : ℕ → Piece
  escaped : ℕ → Piece
  variable : Text → Piece

abbrev pub print : List Piece → Text
print [] = []
print (plain c ∷ ps) = c ∷ print ps
print (escaped c ∷ ps) = backslash ∷ c ∷ print ps
print (variable name ∷ ps) = dollar ∷ open_brace ∷ (name ++ close_brace ∷ print ps)

-- A plain character is neither `$` nor `\`, and no name holds a `}`.
abbrev pub AllWell : List Piece → Type 0
AllWell [] = Unit {0}
AllWell (plain c ∷ ps) = ((c == dollar) ≡ false) × ((c == backslash) ≡ false) × AllWell ps
AllWell (escaped c ∷ ps) = AllWell ps
AllWell (variable name ∷ ps) = (find_close name ≡ none) × AllWell ps

find_close-append :
    (name rest : Text)
    → find_close name ≡ none
    → find_close (name ++ close_brace ∷ rest) ≡ some (length name)
unfolding find_close
find_close-append [] rest e = refl
find_close-append (c ∷ cs) rest e = elim (Option-cases (find_close cs)) [
  | inl other ↦ let found = find_close-append cs rest other in ground arith
  | inr (i, found) ↦ absurd (ground arith)
]

module _ (asterisk questionmark : ℕ) (vars : Vars) where
  abbrev pub values : List Piece → Text
  values [] = []
  values (plain c ∷ ps) = c ∷ values ps
  values (escaped c ∷ ps) = c ∷ values ps
  values (variable name ∷ ps) = var_value asterisk questionmark vars name ++ values ps

  dollar_step-variable :
      (name rest : Text)
      → find_close name ≡ none
      → dollar_step asterisk questionmark vars (open_brace ∷ (name ++ close_brace ∷ rest))
        ≡ record {
          out = var_value asterisk questionmark vars name;
          skip = suc (suc (length name));
          last = dollar;
        }
  unfolding dollar_step
  dollar_step-variable name rest e =
      rw (find_close-append name rest e, take-append_self name (close_brace ∷ rest))

  replace_from_skip :
      (last : ℕ) (xs : Text) (c : ℕ) (rest : Text)
      → replace_from asterisk questionmark vars (suc (length xs)) last (xs ++ c ∷ rest)
        ≡ replace_from asterisk questionmark vars 0 last rest
  unfolding replace_from
  replace_from_skip last [] c rest = refl
  replace_from_skip last (x ∷ xs) c rest = replace_from_skip last xs c rest

  replace_from-print :
      (last : ℕ) (ps : List Piece)
      → (last == backslash) ≡ false
      → AllWell ps
      → replace_from asterisk questionmark vars 0 last (print ps) ≡ values ps
  unfolding replace_from replace_step
  replace_from-print last [] e w = refl
  replace_from-print last (plain c ∷ ps) e (d, b, w) =
      rw (e, d, b) (ap (◌∷◌ c) (replace_from-print c ps b w))
  replace_from-print last (escaped c ∷ ps) e w = rw e (ap (◌∷◌ c) (replace_from-print 0 ps refl w))
  replace_from-print last (variable name ∷ ps) e (n, w) =
      rw (e, dollar_step-variable name (print ps) n)
        (ap (◌++◌ (var_value asterisk questionmark vars name)) (
          replace_from_skip dollar (open_brace ∷ name) close_brace (print ps)
          ∙ replace_from-print dollar ps refl w))

  -- For a format that is printed from plain characters, escaped characters and variables.
  pub var_replace-print :
      (ps : List Piece) → AllWell ps → var_replace asterisk questionmark vars (print ps) ≡ values ps
  unfolding var_replace
  var_replace-print ps w = replace_from-print 0 ps refl w

-- Where the pattern, with stand-ins for its wildcards, is printed from plain characters, escaped
-- characters and variables, `equals_wildcard` holds for exactly the strings that the pattern
-- matches with every variable replaced by its value: an asterisk or question mark that is the name
-- of a variable stands for itself.
pub equals_wildcard_vars_iff :
    (vars : Vars) (pattern str : Text) (ps : List Piece)
    → map replacement pattern ≡ print ps
    → AllWell ps
    → (equals_wildcard_vars vars pattern str ≡ true)
      ↔ IsMatch temp_asterisk temp_questionmark (values temp_asterisk temp_questionmark vars ps) str
unfolding equals_wildcard_vars
equals_wildcard_vars_iff vars pattern str ps e w =
    rw (e, var_replace-print temp_asterisk temp_questionmark vars ps w)
      (equals_wildcard_iff temp_asterisk temp_questionmark
        (values temp_asterisk temp_questionmark vars ps) str)
