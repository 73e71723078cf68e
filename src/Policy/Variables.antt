-- ===== src/Policy/Variables.antt =====
-- `var_replace` and the wildcards with variables of `src/entrypoint/policy/variables.cpp`. `vars` is
-- `variables::get`, which gives a name the same value for as long as the object lives.
use uh_core.Base.{
  ℕ, zero, suc, ◌==◌, Bool, if◌then◌else◌, Option, none, some, List, [], ◌∷◌, ◌++◌, length, map,
  take,
}
use uh_core.Policy.{equals_wildcard}

abbrev pub Text : Type 0
Text = List ℕ

abbrev pub Vars : Type 0
Vars = Text → Option Text

-- The codes of `\`, `$`, `{` and `}`.
abbrev pub backslash : ℕ
backslash = 92

abbrev pub dollar : ℕ
dollar = 36

abbrev pub open_brace : ℕ
open_brace = 123

abbrev pub close_brace : ℕ
close_brace = 125

-- `s.find('}')`
unfoldable pub find_close : Text → Option ℕ
find_close [] = none
find_close (c ∷ cs) =
    let later : Option ℕ = elim (find_close cs) [ none ↦ none | some i ↦ some (suc i) ] in
    if c == close_brace then some 0 else later

-- What a round of the loop of `var_replace` appends, how many characters it jumps over, and `last`.
pub record Step : Type 0 where
  pub out : Text
  pub skip : ℕ
  pub last : ℕ

abbrev step : Text → ℕ → ℕ → Step
step out skip last = record { out = out; skip = skip; last = last }

module _ (asterisk questionmark : ℕ) (vars : Vars) where
  -- What a name without a value stands for.
  unfoldable pub special_value : Text → Text
  special_value [] = []
  special_value (c ∷ []) =
      (if c == asterisk then 42 ∷ [] else [])
      ++ ((if c == questionmark then 63 ∷ [] else []) ++ (if c == dollar then dollar ∷ [] else []))
  special_value (c ∷ d ∷ cs) = []

  unfoldable pub var_value : Text → Text
  unfolding special_value
  var_value name = elim (vars name) [ some value ↦ value | none ↦ special_value name ]

  -- The case of a dollar, by what is behind it: `find('}')` looks from the brace on, and `npos` takes
  -- the rest of the format as it is.
  unfoldable pub dollar_step : Text → Step
  unfolding find_close var_value
  dollar_step [] = step (dollar ∷ []) 0 dollar
  dollar_step (d ∷ cs) =
      if d == open_brace
      then elim (find_close cs) [
        | some n ↦ step (var_value (take n cs)) (suc (suc n)) dollar
        | none ↦ step (dollar ∷ d ∷ cs) (suc (length cs)) dollar
      ]
      else step [] 0 dollar

  -- The body of the loop, at the character `c`.
  unfoldable pub replace_step : ℕ → ℕ → Text → Step
  unfolding dollar_step
  replace_step last c rest =
      if last == backslash
      then step (c ∷ []) 0 0
      else if c == dollar
      then dollar_step rest
      else if c == backslash
      then step [] 0 c
      else step (c ∷ []) 0 c

  -- The loop: `skip` characters are jumped over, as `i = end_of_var` does.
  unfoldable pub replace_from : ℕ → ℕ → Text → Text
  unfolding replace_step
  replace_from skip last [] = []
  replace_from (suc skip) last (c ∷ cs) = replace_from skip last cs
  replace_from zero last (c ∷ cs) =
      let s = replace_step last c cs in s.out ++ replace_from s.skip s.last cs

  unfoldable pub var_replace : Text → Text
  unfolding replace_from
  var_replace format = replace_from 0 0 format

-- The stand-ins for the wildcards of a pattern: the characters -1 and -2.
abbrev pub temp_asterisk : ℕ
temp_asterisk = 255

abbrev pub temp_questionmark : ℕ
temp_questionmark = 254

abbrev pub replacement : ℕ → ℕ
replacement c = if c == 42 then temp_asterisk else if c == 63 then temp_questionmark else c

unfoldable pub equals_wildcard_vars : Vars → Text → Text → Bool
unfolding var_replace equals_wildcard
equals_wildcard_vars vars pattern str =
    equals_wildcard temp_asterisk temp_questionmark
      (var_replace temp_asterisk temp_questionmark vars (map replacement pattern)) (some str)
