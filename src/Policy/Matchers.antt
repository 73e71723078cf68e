-- ===== src/Policy/Matchers.antt =====
-- `src/entrypoint/policy/matcher.h` and `matchers.h`: a matcher answers for the variables of a
-- request, or throws. A set or list of options is a list, in the order in which it is walked.
pub mod Texts
pub mod Laws
use Prim.Native.Char.{code}
use Prim.Native.String.{String}
use uh_core.Base.{
  ℕ, suc, ◌+◌, ◌-◌, ◌*◌, ◌^◌, ◌==◌, ltb, leb, Bool, true, false, not, ◌&&◌, if◌then◌else◌, Option,
  none, some, List, [], ◌∷◌,
}
use uh_core.Base.Result.{Result, ok, throws, runtime_error, ◌>>=◌}
use uh_core.Strings.{equals_nocase}
use uh_core.Policy.{equals_wildcard}
use uh_core.Policy.Variables.{Text, Vars, var_replace, equals_wildcard_vars}

-- The bytes of an ASCII text.
abbrev pub codes : String → Text
codes String.[] = []
codes (String.◌∷◌ c s) = code c ∷ codes s

abbrev pub texts_equal : Text → Text → Bool
texts_equal [] [] = true
texts_equal [] (d ∷ ds) = false
texts_equal (c ∷ cs) [] = false
texts_equal (c ∷ cs) (d ∷ ds) = c == d && texts_equal cs ds

abbrev pub Matcher : Type 0
Matcher = Vars → Result Bool

pub data Undefined : Type 0 where
  ignore do_not_match : Undefined

match_always : Matcher
match_always vars = ok true

unfoldable pub match_never : Matcher
match_never vars = ok false

unfoldable pub conjunction : List Matcher → Matcher
conjunction [] vars = ok true
conjunction (m ∷ subs) vars =
    let rest = conjunction subs vars in m vars >>= λ b. if b then rest else ok false

unfoldable pub match_any {ℓ} : {A : Type ℓ} → (A → Result Bool) → List A → Result Bool
match_any pred [] = ok false
match_any pred (opt ∷ options) =
    let rest = match_any pred options in pred opt >>= λ b. if b then ok true else rest

abbrev pub negate : Result Bool → Result Bool
negate r = r >>= λ b. ok (not b)

-- A value of `values` that `test` accepts with the variable `name`, which must have a value.
unfoldable pub match_variable : Text → (Text → Text → Bool) → List Text → Matcher
unfolding match_any
match_variable name test values vars =
    match_any
      (λ value. elim (vars name) [ some v ↦ ok (test value v) | none ↦ throws runtime_error ])
      values

abbrev pub wildcard : Text → Text → Bool
wildcard pattern str = equals_wildcard 42 63 pattern (some str)

abbrev pub action_id : Text
action_id = codes "vrm:ActionId"

abbrev pub resource_arn : Text
resource_arn = codes "vrm:ResourceArn"

abbrev pub principal_arn : Text
principal_arn = codes "aws:PrincipalArn"

unfoldable pub match_action : List Text → Matcher
unfolding match_variable
match_action actions = match_variable action_id wildcard actions

unfoldable pub match_not_action : List Text → Matcher
unfolding match_variable
match_not_action actions vars = negate (match_variable action_id wildcard actions vars)

unfoldable pub match_resource : List Text → Matcher
unfolding match_variable equals_wildcard_vars
match_resource resources vars =
    match_variable resource_arn (equals_wildcard_vars vars) resources vars

unfoldable pub match_not_resource : List Text → Matcher
unfolding match_variable equals_wildcard_vars
match_not_resource resources vars =
    negate (match_variable resource_arn (equals_wildcard_vars vars) resources vars)

unfoldable pub match_principal : List Text → Matcher
unfolding match_variable
match_principal principals = match_variable principal_arn wildcard principals

unfoldable pub match_not_principal : List Text → Matcher
unfolding match_variable
match_not_principal principals vars = negate (match_variable principal_arn wildcard principals vars)

-- The context keys of a condition operator with their options.
abbrev pub Values : Type 0
Values = List (Text × List Text)

-- How an operator compares the value of a key with the options.
abbrev pub Comparer : Type 0
Comparer = Vars → Text → List Text → Result Bool

-- What a key without a value comes to, where `rest` is what the other keys come to.
abbrev pub on_undefined : Undefined → Result Bool → Result Bool
on_undefined ignore rest = rest
on_undefined do_not_match rest = ok false

unfoldable pub var_matcher : Values → Undefined → Comparer → Matcher
var_matcher [] uv match_func vars = ok true
var_matcher ((name, options) ∷ values) uv match_func vars =
    let rest = var_matcher values uv match_func vars in
    elim (vars name) [
      | none ↦ on_undefined uv rest
      | some value ↦ match_func vars value options >>= λ b. if b then rest else ok false
    ]

-- `var_replace` of a value of a condition.
abbrev pub replaced : Vars → Text → Text
replaced vars value = var_replace 42 63 vars value

abbrev pub string_equals : Comparer
string_equals vars var options =
    match_any (λ value. ok (texts_equal var (replaced vars value))) options

abbrev pub string_equals_nocase : Comparer
string_equals_nocase vars var options =
    match_any (λ value. ok (equals_nocase var (replaced vars value))) options

abbrev pub string_like : Comparer
string_like vars var options = match_any (λ value. ok (equals_wildcard_vars vars var value)) options

abbrev pub negated : Comparer → Comparer
negated match_func vars var options = negate (match_func vars var options)

unfoldable pub match_stringequals : Values → Undefined → Matcher
unfolding var_matcher match_any var_replace
match_stringequals values uv = var_matcher values uv string_equals

unfoldable pub match_stringnotequals : Values → Undefined → Matcher
unfolding var_matcher match_any var_replace
match_stringnotequals values uv = var_matcher values uv (negated string_equals)

unfoldable pub match_stringequalsignorecase : Values → Undefined → Matcher
unfolding var_matcher match_any var_replace
match_stringequalsignorecase values uv = var_matcher values uv string_equals_nocase

unfoldable pub match_stringnotequalsignorecase : Values → Undefined → Matcher
unfolding var_matcher match_any var_replace
match_stringnotequalsignorecase values uv = var_matcher values uv (negated string_equals_nocase)

unfoldable pub match_stringlike : Values → Undefined → Matcher
unfolding var_matcher match_any equals_wildcard_vars
match_stringlike values uv = var_matcher values uv string_like

unfoldable pub match_stringnotlike : Values → Undefined → Matcher
unfolding var_matcher match_any equals_wildcard_vars
match_stringnotlike values uv = var_matcher values uv (negated string_like)

-- A comparison of one value, read by `read`, with one option.
unfoldable pub compare_single {ℓ} : {A : Type ℓ} → (Text → Result A) → (A → A → Bool) → Comparer
unfolding var_replace
compare_single read comp vars var [] = throws runtime_error
compare_single read comp vars var (option ∷ []) =
    read var >>= λ a. read (replaced vars option) >>= λ b. ok (comp a b)
compare_single read comp vars var (option ∷ other ∷ options) = throws runtime_error

-- `Bool`, `BinaryEquals`, `IpAddress`, `NotIpAddress`, the four of `Arn` and `Null`.
unfoldable pub match_unimplemented : Values → Matcher
match_unimplemented values vars = throws runtime_error
