-- ===== src/Cors/Tests.antt =====
-- `src/entrypoint/cors` on rules for two origins.
use uh_core.Base.{ℕ, ◌≡◌, refl, true, false, none, some, List, [], ◌∷◌}
use uh_core.Base.Result.{ok}
use uh_core.Policy.Variables.{Text}
use uh_core.Policy.Matchers.{codes, texts_equal}
use uh_core.Cors.{Info, Request, CorsResult, no_content, equals_wildcard_single, check}
use uh_core.Cors.Answer.{IsAnswer, check-IsAnswer}

-- The code of `PUT` is 5.
abbrev verb : Text → ℕ
verb t = elim (texts_equal t (codes "PUT")) [ true ↦ 5 | false ↦ 0 ]

abbrev name : ℕ → Text
name m = codes "PUT"

abbrev rules : List Info
rules =
    record {
      origin = codes "http://a.org";
      methods = 5 ∷ [];
      headers = codes "x-*" ∷ [];
      expose_headers = none;
      max_age_seconds = some 60;
    }
    ∷ []

abbrev preflight_request : Request
preflight_request = record {
  method = 7;
  origin = some (codes "http://a.org");
  requested_method = some (codes "PUT");
  requested_headers = some (codes "x-one,range");
}

preflight_allows :
    check verb name (ok rules) preflight_request
    ≡ ok (
        no_content (record {
          allow_origin = codes "http://a.org";
          allow_headers = some (codes "x-one");
          max_age = some 60;
          allow_methods = some (codes "PUT");
        }))
unfolding check uh_core.Strings.join uh_core.Strings.split
preflight_allows = refl

check-IsAnswer_example :
    (a : CorsResult) × (check verb name (ok rules) preflight_request ≡ ok a)
    × IsAnswer verb name rules preflight_request a
check-IsAnswer_example = check-IsAnswer verb name rules preflight_request

-- The last character before the star is not compared.
star_too_wide : equals_wildcard_single (codes "x-*") (codes "xylophone") ≡ true
unfolding equals_wildcard_single
star_too_wide = refl
