-- ===== src/Cors/Parser.antt =====
-- `src/entrypoint/cors/parser.cpp`: the rules of a configuration. Reading XML is Boost's; a rule of
-- the document is here what the code asks of its tree.
use uh_core.Base.{ℕ, ◌==◌, ltb, Option, some, List, [], ◌∷◌, ◌++◌, map, if◌then◌else◌}
use uh_core.Strings.{join}
use uh_core.Policy.Variables.{Text}
use uh_core.Policy.Matchers.{codes, texts_equal}
use uh_core.Cors.{Info, comma, to_set}

-- The values of the elements of a `CORSRule`, by their names.
pub record CorsRule : Type 0 where
  pub allowed_origin : List Text
  pub allowed_method : List Text
  pub allowed_header : List Text
  pub expose_header : List Text
  pub max_age_seconds : Option ℕ

-- `insert` of `std::set<http::verb>`
abbrev pub insert_method : ℕ → List ℕ → List ℕ
insert_method m [] = m ∷ []
insert_method m (n ∷ ns) =
    let later = n ∷ insert_method m ns in
    if n == m then n ∷ ns else if ltb m n then m ∷ n ∷ ns else later

-- Names that are not known are passed over.
abbrev pub add_method : Text → List ℕ → List ℕ
add_method method s =
    if texts_equal method (codes "DELETE")
    then insert_method 1 s
    else if texts_equal method (codes "GET")
    then insert_method 2 s
    else if texts_equal method (codes "HEAD")
    then insert_method 3 s
    else if texts_equal method (codes "POST")
    then insert_method 4 s
    else if texts_equal method (codes "PUT")
    then insert_method 5 s
    else s

abbrev pub parse_methods : List Text → List ℕ → List ℕ
parse_methods [] s = s
parse_methods (m ∷ ms) s = parse_methods ms (add_method m s)

-- The origins of a rule, and what it says of each.
unfoldable pub parse_corse_info : CorsRule → List Text × (Text → Info)
unfolding to_set join
parse_corse_info rule = (
  to_set rule.allowed_origin [],
  λ origin. record {
    origin = origin;
    methods = parse_methods rule.allowed_method [];
    headers = to_set rule.allowed_header [];
    expose_headers = some (join (comma ∷ []) rule.expose_header);
    max_age_seconds = rule.max_age_seconds;
  },
)

-- One entry for each origin of each rule, in their order.
unfoldable pub parse : List CorsRule → List Info
unfolding parse_corse_info
parse [] = []
parse (rule ∷ rules) =
    let (origins, info) = parse_corse_info rule in map info origins ++ parse rules
