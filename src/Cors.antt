-- ===== src/Cors.antt =====
-- `src/entrypoint/cors`: the rules of a bucket, and what they say of a request. Sets of strings are
-- lists in their order; methods are the numbers of Boost's `verb`.
pub mod Parser
pub mod Wildcard
pub mod Headers
pub mod Answer
mod Tests
use uh_core.Base.{
  ℕ, zero, suc, ◌-◌, ◌==◌, ltb, leb, Bool, true, false, not, ◌&&◌, ◌||◌, if◌then◌else◌, Option,
  none, some, List, [], ◌∷◌, map, length, take, drop,
}
use uh_core.Base.Result.{Result, ok, throws, command_exception, ◌>>=◌}
use uh_core.Strings.{split, join}
use uh_core.Policy.Variables.{Text}
use uh_core.Policy.Matchers.{codes, texts_equal}
use uh_core.Policy.Parser.{ends_with}

-- `info`
pub record Info : Type 0 where
  pub origin : Text
  pub methods : List ℕ
  pub headers : List Text
  pub expose_headers : Option Text
  pub max_age_seconds : Option ℕ

-- `operator<` of `std::string`
abbrev pub is_before : Text → Text → Bool
is_before [] [] = false
is_before [] (d ∷ ds) = true
is_before (c ∷ cs) [] = false
is_before (c ∷ cs) (d ∷ ds) = ltb c d || (c == d && is_before cs ds)

-- `insert` of `std::set<std::string>`
unfoldable pub insert_text : Text → List Text → List Text
insert_text t [] = t ∷ []
insert_text t (u ∷ us) =
    let later = u ∷ insert_text t us in
    if texts_equal u t then u ∷ us else if is_before t u then t ∷ u ∷ us else later

unfoldable pub to_set : List Text → List Text → List Text
unfolding insert_text
to_set [] s = s
to_set (t ∷ ts) s = to_set ts (insert_text t s)

abbrev pub star : ℕ
star = 42

abbrev pub comma : ℕ
comma = 44

abbrev pub counted : Option ℕ → Option ℕ
counted none = none
counted (some n) = some (suc n)

-- `find('*')`
abbrev pub find_star : Text → Option ℕ
find_star [] = none
find_star (c ∷ cs) = if c == star then some 0 else counted (find_star cs)

abbrev pub starts_with : Text → Text → Bool
starts_with str [] = true
starts_with [] (c ∷ cs) = false
starts_with (d ∷ ds) (c ∷ cs) = d == c && starts_with ds cs

abbrev pub matches_at : Option ℕ → Text → Text → Bool
matches_at none pattern str = texts_equal str pattern
matches_at (some pos) pattern str =
    if ltb 0 pos && not (starts_with str (take (pos - 1) pattern))
    then false
    else ends_with str (drop (suc pos) pattern)

unfoldable pub equals_wildcard_single : Text → Text → Bool
equals_wildcard_single pattern str = matches_at (find_star pattern) pattern str

abbrev pub has_method : List ℕ → ℕ → Bool
has_method [] method = false
has_method (m ∷ ms) method = m == method || has_method ms method

abbrev pub admits : Info → Text → ℕ → Bool
admits i origin method =
    (texts_equal i.origin origin || texts_equal i.origin (star ∷ [])) && has_method i.methods method

unfoldable pub find_info : List Info → Text → ℕ → Option Info
find_info [] origin method = none
find_info (i ∷ rules) origin method =
    if admits i origin method then some i else find_info rules origin method

-- The headers of the request that a pattern admits, added to the set.
unfoldable pub add_matching : Text → List Text → List Text → List Text
unfolding insert_text equals_wildcard_single
add_matching pattern [] s = s
add_matching pattern (h ∷ hs) s =
    add_matching pattern hs (if equals_wildcard_single pattern h then insert_text h s else s)

unfoldable pub intersection : List Text → List Text → List Text → List Text
unfolding add_matching
intersection [] requested s = s
intersection (p ∷ ps) requested s = intersection ps requested (add_matching p requested s)

pub record Request : Type 0 where
  pub method : ℕ
  pub origin : Option Text
  pub requested_method : Option Text
  pub requested_headers : Option Text

-- The fields of the response to a preflight request.
pub record Preflight : Type 0 where
  pub allow_origin : Text
  pub allow_headers : Option Text
  pub max_age : Option ℕ
  pub allow_methods : Option Text

-- `result`: without anything, with a response, or with fields for the response of a command.
pub data CorsResult : Type 0 where
  nothing : CorsResult
  forbidden : CorsResult
  no_content : Preflight → CorsResult
  with_headers : Text → Option Text → CorsResult

abbrev pub unless_empty : Text → Option Text
unless_empty [] = none
unless_empty (c ∷ cs) = some (c ∷ cs)

abbrev pub allowed_headers : Info → Option Text → Option Text
allowed_headers i none = none
allowed_headers i (some acrh) =
    unless_empty (join (comma ∷ []) (intersection i.headers (to_set (split comma acrh) []) []))

-- `cached` is what the cache holds for the bucket, `config` what the directory has, and `parse` is
-- the parser.
unfoldable pub get_info :
    Option (List Info) → Result (Option Text) → (Text → Result (List Info)) → Result (List Info)
get_info (some rules) config parse = ok rules
get_info none config parse =
    config >>= λ text. elim text [ none ↦ throws command_exception | some code ↦ parse code ]

abbrev pub options : ℕ
options = 7

abbrev pub flight_result : Option Info → CorsResult
flight_result none = forbidden
flight_result (some i) = with_headers i.origin i.expose_headers

-- `verb` and `name` are Boost's functions from strings to methods and back.
module _ (verb : Text → ℕ) (name : ℕ → Text) where
  abbrev pub preflight_response : Option Info → Request → Text → CorsResult
  preflight_response none r origin = forbidden
  preflight_response (some i) r origin = no_content (record {
    allow_origin = origin;
    allow_headers = allowed_headers i r.requested_headers;
    max_age = i.max_age_seconds;
    allow_methods = unless_empty (join (comma ∷ []) (map name i.methods));
  })

  abbrev pub preflight_method : Option Text → List Info → Request → Text → CorsResult
  preflight_method none rules r origin = forbidden
  preflight_method (some method) rules r origin =
      preflight_response (find_info rules origin (verb method)) r origin

  abbrev pub check_origin : Option Text → Result (List Info) → Request → Result CorsResult
  check_origin none rules r = ok nothing
  check_origin (some origin) rules r = rules >>= λ infos. ok (
      if r.method == options
      then preflight_method r.requested_method infos r origin
      else flight_result (find_info infos origin r.method))

  -- `rules` is what `get_info` gives or throws.
  unfoldable pub check : Result (List Info) → Request → Result CorsResult
  unfolding find_info intersection to_set
  check rules r = check_origin r.origin rules r
