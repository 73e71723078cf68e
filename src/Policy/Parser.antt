-- ===== src/Policy/Parser.antt =====
-- `src/entrypoint/policy/parser.cpp`: the policies that a JSON text states. `read_date` is
-- `read_iso8601_date`, with a time as a number of seconds.
pub mod Statement
pub mod Conditions
use Prim.Native.String.{String}
use uh_core.Base.{
  ℕ, ◌-◌, ◌==◌, ltb, leb, Bool, true, false, not, ◌&&◌, if◌then◌else◌, Option, none, some, List, [],
  ◌∷◌, ◌++◌, length, take, drop,
}
use uh_core.Base.Result.{Result, ok, throws, runtime_error, ◌>>=◌}
use uh_core.Policy.Variables.{Text}
use uh_core.Policy.Matchers.{
  codes, texts_equal, Matcher, Undefined, ignore, do_not_match, Values, match_never, conjunction,
  match_action, match_not_action, match_resource, match_not_resource, match_principal,
  match_not_principal, var_matcher, compare_single, match_stringequals, match_stringnotequals,
  match_stringequalsignorecase, match_stringnotequalsignorecase, match_stringlike,
  match_stringnotlike, match_unimplemented,
}
use uh_core.Policy.Numbers.{ℤ, equal_to, less, to_int}
use uh_core.Policy.Json.{Json, get_string, optional, require, multi_element, items}
use uh_core.Policy.Check.{Effect, allow, deny, Policy}

-- `to_string`: a value has at most 200 bytes.
unfoldable pub to_string : Json → Result Text
to_string element =
    get_string element >>= λ ret. if ltb 200 (length ret) then throws runtime_error else ok ret

unfoldable pub string_or_set : Json → Result (List Text)
unfolding to_string multi_element
string_or_set element = multi_element to_string element

abbrev pub effect_named : Text → Result Effect
effect_named effect =
    if texts_equal effect (codes "Allow")
    then ok allow
    else if texts_equal effect (codes "Deny")
    then ok deny
    else throws runtime_error

abbrev pub effect_of : Option Json → Result Effect
effect_of none = throws runtime_error
effect_of (some found) = get_string found >>= effect_named

unfoldable pub get_effect : Json → Result Effect
get_effect stmt = effect_of (optional stmt (codes "Effect"))

-- One of two elements that exclude one another.
abbrev pub one_of :
    (List Text → Matcher) → (List Text → Matcher) → Option Json → Option Json → Result Matcher
one_of plain negated (some a) (some b) = throws runtime_error
one_of plain negated (some a) none = string_or_set a >>= λ texts. ok (plain texts)
one_of plain negated none (some b) = string_or_set b >>= λ texts. ok (negated texts)
one_of plain negated none none = throws runtime_error

unfoldable pub action_matchers : Json → Result Matcher
unfolding string_or_set
action_matchers stmt =
    one_of match_action match_not_action (optional stmt (codes "Action"))
      (optional stmt (codes "NotAction"))

unfoldable pub resource_matchers : Json → Result Matcher
unfolding string_or_set
resource_matchers stmt =
    one_of match_resource match_not_resource (optional stmt (codes "Resource"))
      (optional stmt (codes "NotResource"))

-- The first of the two that is there, if any.
abbrev pub principal_of : Option Json → Option Json → Result (List Matcher)
principal_of (some a) b = string_or_set a >>= λ texts. ok (match_principal texts ∷ [])
principal_of none (some b) = string_or_set b >>= λ texts. ok (match_not_principal texts ∷ [])
principal_of none none = ok []

unfoldable pub principal_matchers : Json → Result (List Matcher)
unfolding string_or_set
principal_matchers stmt =
    principal_of (optional stmt (codes "Principal")) (optional stmt (codes "NotPrincipal"))

unfoldable pub read_values : List (Text × Json) → Result Values
unfolding string_or_set
read_values [] = ok []
read_values ((key, value) ∷ elems) =
    let rest = read_values elems in
    string_or_set value >>= λ texts. rest >>= λ values. ok ((key, texts) ∷ values)

unfoldable pub condition_parameter : Json → Result Values
unfolding read_values items
condition_parameter condition = read_values (items condition)

-- `key.ends_with(suffix)`
abbrev pub ends_with : Text → Text → Bool
ends_with key suffix =
    leb (length suffix) (length key) && texts_equal (drop (length key - length suffix) key) suffix

abbrev pub if_exists : Text
if_exists = codes "IfExists"

-- The key without `IfExists`, and what the suffix says.
unfoldable pub split_key : Text → Text × Undefined
split_key key =
    if ends_with key if_exists
    then (take (length key - length if_exists) key, ignore)
    else (key, do_not_match)

abbrev pub Operator : Type 0
Operator = Values → Undefined → Matcher

module _ {ℓ} {A : Type ℓ} (read : Text → Result A) (equal lower : A → A → Bool) where
  -- The comparison operators of a kind, `std::equal_to` to `std::greater_equal`.
  abbrev comparison : (A → A → Bool) → Operator
  comparison comp values uv = var_matcher values uv (compare_single read comp)

  abbrev pub comparisons : Text → List (Text × Operator)
  comparisons kind =
      (kind ++ codes "Equals", comparison equal)
      ∷ (kind ++ codes "NotEquals", comparison (λ a b. not (equal a b)))
      ∷ (kind ++ codes "LessThan", comparison lower)
      ∷ (kind ++ codes "LessThanEquals", comparison (λ a b. not (lower b a)))
      ∷ (kind ++ codes "GreaterThan", comparison (λ a b. lower b a))
      ∷ (kind ++ codes "GreaterThanEquals", comparison (λ a b. not (lower a b)))
      ∷ []

abbrev unimplemented : Operator
unimplemented values uv = match_unimplemented values

abbrev pub sid_of : Option Json → Result Text
sid_of none = ok (codes "<Sid undefined>")
sid_of (some sid) = get_string sid

abbrev pub check_version : Option Json → Result Text
check_version none = throws runtime_error
check_version (some version) = get_string version >>= λ v.
    if texts_equal v (codes "2012-10-17") then ok v else throws runtime_error

module _ (read_date : Text → Result ℕ) where
  -- What the keys of `condition_matcher` stand for.
  abbrev pub operators : List (Text × Operator)
  operators =
      (codes "StringEquals", match_stringequals)
      ∷ (codes "StringNotEquals", match_stringnotequals)
      ∷ (codes "StringEqualsIgnoreCase", match_stringequalsignorecase)
      ∷ (codes "StringNotEqualsIgnoreCase", match_stringnotequalsignorecase)
      ∷ (codes "StringLike", match_stringlike)
      ∷ (codes "StringNotLike", match_stringnotlike)
      ∷ (comparisons to_int equal_to less (codes "Numeric")
          ++ (comparisons read_date ◌==◌ ltb (codes "Date")
              ++ ((codes "Bool", unimplemented)
                  ∷ (codes "BinaryEquals", unimplemented)
                  ∷ (codes "IpAddress", unimplemented)
                  ∷ (codes "NotIpAddress", unimplemented)
                  ∷ (codes "ArnEquals", unimplemented)
                  ∷ (codes "ArnLike", unimplemented)
                  ∷ (codes "ArnNotEquals", unimplemented)
                  ∷ (codes "ArnNotLike", unimplemented)
                  ∷ (codes "Null", unimplemented)
                  ∷ [])))

  -- The chain of comparisons with `key`.
  unfoldable pub find_operator : Text → List (Text × Operator) → Option Operator
  find_operator key [] = none
  find_operator key ((name, op) ∷ ops) =
      if texts_equal key name then some op else find_operator key ops

  unfoldable pub condition_matcher : Text → Json → Result Matcher
  unfolding split_key find_operator condition_parameter
  condition_matcher key condition =
      let (name, uv) = split_key key in
      elim (find_operator name operators) [
        | none ↦ ok match_never
        | some op ↦ condition_parameter condition >>= λ values. ok (op values uv)
      ]

  -- The loop of `condition_matchers`.
  unfoldable pub read_conditions : List (Text × Json) → Result (List Matcher)
  unfolding condition_matcher
  read_conditions [] = ok []
  read_conditions ((key, value) ∷ elems) =
      let rest = read_conditions elems in
      condition_matcher key value >>= λ m. rest >>= λ subs. ok (m ∷ subs)

  abbrev conditions_of : Option Json → Result (List Matcher)
  conditions_of none = ok []
  conditions_of (some condition) =
      read_conditions (items condition) >>= λ subs. ok (conjunction subs ∷ [])

  unfoldable pub condition_matchers : Json → Result (List Matcher)
  unfolding read_conditions items
  condition_matchers stmt = conditions_of (optional stmt (codes "Condition"))

  unfoldable pub parse_policy : Json → Result Policy
  unfolding action_matchers resource_matchers principal_matchers condition_matchers get_effect
  parse_policy stmt = do
    action ← action_matchers stmt
    resource ← resource_matchers stmt
    principal ← principal_matchers stmt
    condition ← condition_matchers stmt
    id ← sid_of (optional stmt (codes "Sid"))
    effect ← get_effect stmt
    ok (record {
      id = id;
      matchers = action ∷ resource ∷ (principal ++ condition);
      effect = effect;
    })

  -- `parser::parse`, behind `json::parse`.
  unfoldable pub parse : Json → Result (List Policy)
  unfolding parse_policy multi_element
  parse js = do
    version ← check_version (optional js (codes "Version"))
    statements ← require js (codes "Statement")
    multi_element parse_policy statements
