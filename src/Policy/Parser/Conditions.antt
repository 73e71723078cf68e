-- ===== src/Policy/Parser/Conditions.antt =====
-- The conditions on texts that `src/entrypoint/policy/parser.cpp` builds, against what they demand.
use uh_core.Base.{
  ℕ, ◌≡◌, refl, sym, ◌∙◌, ◌↔◌, ◌⊎◌, inl, inr, Bool, Bool-cases, true, false, none, some, List, [],
  ◌∷◌, arith, if◌then◌else◌,
}
use uh_core.Base.Result.{Result, ok}
use uh_core.Policy.Variables.{Text, Vars}
use uh_core.Policy.Matchers.{
  codes, texts_equal, Matcher, Undefined, ignore, do_not_match, Values, match_any, replaced,
  string_equals, match_stringequals,
}
use uh_core.Policy.Matchers.Texts.{texts_equal_iff}
use uh_core.Policy.Matchers.Laws.{AllHold, var_matcher_iff}
use uh_core.Policy.Json.{Json}
use uh_core.Policy.Parser.{split_key, find_operator, condition_parameter, condition_matcher}

-- A text is one of the options, after the variables in them are replaced.
abbrev pub IsAnyOf : Vars → Text → List Text → Type 0
IsAnyOf vars value [] = ⊥
IsAnyOf vars value (option ∷ options) = (value ≡ replaced vars option) ⊎ IsAnyOf vars value options

-- Every key of the condition has a value that is one of its options, or, where that suffices, no
-- value.
abbrev pub AllMeet : Bool → Vars → Values → Type 0
AllMeet if_exists vars [] = Unit {0}
AllMeet if_exists vars ((name, options) ∷ values) =
    (((vars name ≡ none) × (if_exists ≡ true))
      ⊎ ((value : Text) × (vars name ≡ some value) × IsAnyOf vars value options))
    × AllMeet if_exists vars values

abbrev undefined_of : Bool → Undefined
undefined_of if_exists = if if_exists then ignore else do_not_match

-- The operator of the condition.
abbrev pub key_of : Bool → Text
key_of if_exists = if if_exists then codes "StringEqualsIfExists" else codes "StringEquals"

string_equals-IsAnyOf :
    (vars : Vars) (value : Text) (options : List Text)
    → (string_equals vars value options ≡ ok true) ↔ IsAnyOf vars value options
unfolding match_any
string_equals-IsAnyOf vars value [] = (λ e. absurd (ground arith), λ h. absurd h)
string_equals-IsAnyOf vars value (option ∷ options) =
    let same = texts_equal_iff value (replaced vars option) in
    let rest = string_equals-IsAnyOf vars value options in
    elim (Bool-cases (texts_equal value (replaced vars option))) [
      | inl equal ↦ rw equal (λ e. inl (same.0 equal), λ h. refl)
      | inr differs ↦ rw differs (
        λ e. inr (rest.0 e),
        λ h. elim h [
          | inl e ↦ absurd (true_false (sym (same.1 e) ∙ differs))
          | inr later ↦ rest.1 later
        ],
      )
    ]
  where
    true_false : true ≡ false → ⊥
    true_false e = cc

ignored_iff : (if_exists : Bool) → (undefined_of if_exists ≡ ignore) ↔ (if_exists ≡ true)
ignored_iff true = (λ e. refl, λ e. refl)
ignored_iff false = (λ e. absurd (ground arith), λ e. absurd (ground arith))

AllHold-AllMeet :
    (if_exists : Bool) (vars : Vars) (values : Values)
    → AllHold (undefined_of if_exists) string_equals vars values ↔ AllMeet if_exists vars values
AllHold-AllMeet if_exists vars [] = (λ h. h, λ h. h)
AllHold-AllMeet if_exists vars ((name, options) ∷ values) =
    let rest = AllHold-AllMeet if_exists vars values in
    let ignores = ignored_iff if_exists in
    (
      λ (h, later). (
        elim h [
          | inl (missing, e) ↦ inl (missing, ignores.0 e)
          | inr (v, found, e) ↦ inr (v, found, (string_equals-IsAnyOf vars v options).0 e)
        ],
        rest.0 later,
      ),
      λ (h, later). (
        elim h [
          | inl (missing, e) ↦ inl (missing, ignores.1 e)
          | inr (v, found, e) ↦ inr (v, found, (string_equals-IsAnyOf vars v options).1 e)
        ],
        rest.1 later,
      ),
    )

module _ (read_date : Text → Result ℕ) where
  key_found :
      (if_exists : Bool) (condition : Json) (values : Values)
      → condition_parameter condition ≡ ok values
      → condition_matcher read_date (key_of if_exists) condition
        ≡ ok (match_stringequals values (undefined_of if_exists))
  unfolding condition_matcher split_key find_operator
  key_found true condition values e = rw e refl
  key_found false condition values e = rw e refl

  -- The condition that `StringEqualsIfExists` or `StringEquals` makes of keys with their options is
  -- met by exactly the requests in which every key has a value that is one of its options after the
  -- variables in them are replaced; a key without a value is met for `StringEqualsIfExists` and not
  -- for `StringEquals`.
  pub condition_matcher-AllMeet :
      (if_exists : Bool) (condition : Json) (values : Values)
      → condition_parameter condition ≡ ok values
      → (m : Matcher) × (condition_matcher read_date (key_of if_exists) condition ≡ ok m)
        × ((vars : Vars) → (m vars ≡ ok true) ↔ AllMeet if_exists vars values)
  condition_matcher-AllMeet if_exists condition values e = (
    match_stringequals values (undefined_of if_exists),
    key_found if_exists condition values e,
    λ vars.
        let holds = var_matcher_iff (undefined_of if_exists) string_equals vars values in
        let meets = AllHold-AllMeet if_exists vars values in
        (
          λ h. meets.0 (holds.0 (unfold match_stringequals in h)),
          λ h. unfold match_stringequals in holds.1 (meets.1 h),
        ),
  )
