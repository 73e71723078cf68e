-- ===== src/Policy/Tests.antt =====
-- `src/entrypoint/policy/variables.cpp` on concrete patterns.
use uh_core.Base.{
  ℕ, inl, arith, ◌≡◌, ◌↔◌, refl, true, false, Option, none, some, List, [], ◌∷◌, if◌then◌else◌,
}
use uh_core.Policy.{match_from, equals_wildcard}
use uh_core.Policy.Variables.{
  Text, Vars, find_close, special_value, replace_from, var_replace, equals_wildcard_vars,
}
use uh_core.Policy.Replace.{Piece, plain, variable}
use uh_core.Policy.Pattern.{AllProper, Fits}
use uh_core.Policy.Pattern.Matched.{equals_wildcard_vars-Fits}
use uh_core.Policy.Matchers.{
  codes, texts_equal, Matcher, do_not_match, match_stringlike, match_action, match_not_resource,
}
use uh_core.Policy.Matchers.Laws.{star, match_stringlike-star}
use uh_core.Policy.Json.{Json, string, object, end, member, find_member, multi_element}
use uh_core.Policy.Check.{Policy, Effect, allow, deny, check, check_matchers, module_check}
use uh_core.Policy.Decision.{decision, module_check-decision}
use uh_core.Policy.Parser.{
  to_string, string_or_set, action_matchers, resource_matchers, principal_matchers,
  condition_parameter, condition_matcher, condition_matchers, get_effect, parse_policy,
}
use uh_core.Policy.Parser.Conditions.{AllMeet, condition_matcher-AllMeet}
use uh_core.Policy.Parser.Statement.{IsStatement, parse_policy-IsStatement}
use uh_core.Base.Result.{Result, ok, throws, runtime_error}

-- `a*?` and `abc`.
abbrev pattern : List ℕ
pattern = 97 ∷ 42 ∷ 63 ∷ []

abbrev text : List ℕ
text = 97 ∷ 98 ∷ 99 ∷ []

pattern_matches : equals_wildcard 42 63 pattern (some text) ≡ true
unfolding equals_wildcard match_from
pattern_matches = refl

-- The question mark leads behind the end of the string, where nothing matches.
pattern_fails : equals_wildcard 42 63 pattern (some (97 ∷ [])) ≡ false
unfolding equals_wildcard match_from
pattern_fails = refl

-- `${*}*`: an asterisk, and what is behind it.
abbrev star_pattern : Text
star_pattern = 36 ∷ 123 ∷ 42 ∷ 125 ∷ 42 ∷ []

abbrev no_vars : Vars
no_vars name = none

abbrev star_pieces : List Piece
star_pieces = variable (42 ∷ []) ∷ plain 42 ∷ []

star_pieces-AllProper : AllProper no_vars star_pieces
star_pieces-AllProper = (inl refl, (omega arith, tt), (omega arith, refl, refl, tt))

equals_wildcard_vars-Fits_example :
    (equals_wildcard_vars no_vars star_pattern (42 ∷ 97 ∷ []) ≡ true)
    ↔ Fits no_vars star_pieces (42 ∷ 97 ∷ [])
equals_wildcard_vars-Fits_example =
    equals_wildcard_vars-Fits no_vars refl refl star_pieces (42 ∷ 97 ∷ []) star_pieces-AllProper

-- The name in braces stands for the asterisk itself, which `a` is not.
star_is_literal : equals_wildcard_vars no_vars star_pattern (97 ∷ []) ≡ false
unfolding equals_wildcard_vars var_replace replace_from find_close special_value equals_wildcard
    match_from
star_is_literal = refl

-- A request whose referer is `*`.
abbrev referer : Text
referer = codes "aws:referer"

abbrev star_vars : Vars
star_vars name = if texts_equal name referer then some star else none

match_stringlike-star_example :
    match_stringlike ((referer, codes "https://example.org/*" ∷ []) ∷ []) do_not_match star_vars
    ≡ ok true
match_stringlike-star_example =
    match_stringlike-star referer (codes "https://example.org/*") [] do_not_match star_vars refl

-- The referer is to be `abc`, where there is one.
abbrev referer_condition : Json
referer_condition = object (member referer (string text) end)

condition_matcher-AllMeet_example :
    (m : Matcher) × (condition_matcher
        (λ t. throws runtime_error)
        (codes "StringEqualsIfExists")
        referer_condition
      ≡ ok m)
    × ((vars : Vars) → (m vars ≡ ok true) ↔ AllMeet true vars ((referer, text ∷ []) ∷ []))
condition_matcher-AllMeet_example =
    condition_matcher-AllMeet (λ t. throws runtime_error) true referer_condition
      ((referer, text ∷ []) ∷ [])
      (unfold condition_parameter string_or_set multi_element to_string in refl)

-- Policies that allow, deny and throw.
abbrev policy : List Matcher → Effect → Policy
policy matchers effect = record { id = []; matchers = matchers; effect = effect }

abbrev breaking : Matcher
breaking vars = throws runtime_error

abbrev allowing : Policy
allowing = policy [] allow

abbrev denying : Policy
denying = policy [] deny

abbrev throwing : Policy
throwing = policy (breaking ∷ []) allow

abbrev parsed : Text → Result (List Policy)
parsed t = ok (allowing ∷ throwing ∷ denying ∷ [])

abbrev stored_policy : Text → Result (Option Text)
stored_policy bucket = ok (some bucket)

allowing-check : check allowing no_vars ≡ ok (some allow)
unfolding check check_matchers
allowing-check = refl

throwing-check : check throwing no_vars ≡ throws runtime_error
unfolding check check_matchers
throwing-check = refl

-- The denial behind the policy that throws is not heard.
module_check-decision_example :
    module_check stored_policy parsed [] text [] no_vars ≡ ok (decision no_vars (allowing ∷ []))
module_check-decision_example =
    module_check-decision stored_policy parsed [] (allowing ∷ []) (throwing ∷ denying ∷ []) text []
      no_vars tt refl ((some allow, allowing-check), tt) (runtime_error, throwing-check) tt

abbrev statement : Json
statement = object (
    member (codes "Effect") (string (codes "Deny")) (
      member (codes "Action") (string (codes "s3:*"))
        (member (codes "NotResource") (string (codes "arn:aws:s3:::a")) end)))

abbrev stated : Policy
stated = record {
  id = codes "<Sid undefined>";
  matchers =
      match_action (codes "s3:*" ∷ []) ∷ match_not_resource (codes "arn:aws:s3:::a" ∷ []) ∷ [];
  effect = deny;
}

no_dates : Text → Result ℕ
no_dates t = throws runtime_error

statement_parses : parse_policy no_dates statement ≡ ok stated
unfolding parse_policy action_matchers resource_matchers principal_matchers condition_matchers
    get_effect string_or_set to_string multi_element find_member
statement_parses = refl

parse_policy-IsStatement_example : IsStatement statement stated
parse_policy-IsStatement_example =
    parse_policy-IsStatement no_dates statement stated statement_parses
