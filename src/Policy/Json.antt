-- ===== src/Policy/Json.antt =====
-- `src/common/utils/json.h`, on the values that nlohmann's `json::parse` yields.
use uh_core.Base.{
  ℕ, zero, suc, ◌+◌, ◌/◌, ◌%◌, ltb, if◌then◌else◌, Option, none, some, List, [], ◌∷◌, ◌++◌,
}
use uh_core.Base.Result.{Result, ok, throws, runtime_error, json_error, ◌>>=◌}
use uh_core.Policy.Variables.{Text}
use uh_core.Policy.Matchers.{texts_equal}

-- `scalar` is a number or Boolean.
mutual
  pub data Json : Type 0 where
    null scalar : Json
    string : Text → Json
    array : Elements → Json
    object : Members → Json

  pub data Elements : Type 0 where
    none_left : Elements
    element : Json → Elements → Elements

  pub data Members : Type 0 where
    end : Members
    member : Text → Json → Members → Members

-- `j.get<std::string>()`
abbrev pub get_string : Json → Result Text
get_string (string s) = ok s
get_string null = throws json_error
get_string scalar = throws json_error
get_string (array es) = throws json_error
get_string (object ms) = throws json_error

unfoldable pub find_member : Text → Members → Option Json
find_member key end = none
find_member key (member k j ms) = if texts_equal k key then some j else find_member key ms

-- `j.find(key)`, which finds nothing in what is no object.
abbrev pub optional : Json → Text → Option Json
optional (object ms) key = find_member key ms
optional null key = none
optional scalar key = none
optional (string s) key = none
optional (array es) key = none

abbrev pub require : Json → Text → Result Json
require j key = elim (optional j key) [ none ↦ throws runtime_error | some found ↦ ok found ]

module _ {ℓ} {A : Type ℓ} (reader : Json → Result A) where
  unfoldable pub read_elements : Elements → Result (List A)
  read_elements none_left = ok []
  read_elements (element j es) =
      let rest = read_elements es in reader j >>= λ a. rest >>= λ as'. ok (a ∷ as')

  abbrev pub single : Json → Result (List A)
  single j = reader j >>= λ a. ok (a ∷ [])

  unfoldable pub multi_element : Json → Result (List A)
  unfolding read_elements
  multi_element (array es) = read_elements es
  multi_element null = single null
  multi_element scalar = single scalar
  multi_element (string s) = single (string s)
  multi_element (object ms) = single (object ms)

-- A number in decimal digits: the key that `items()` gives to an element of an array.
unfoldable pub index_key : ℕ → ℕ → Text
index_key zero n = (48 + n % 10) ∷ []
index_key (suc fuel) n =
    let front = index_key fuel (n / 10) in
    if ltb n 10 then (48 + n) ∷ [] else front ++ (48 + n % 10) ∷ []

unfoldable pub indexed : ℕ → Elements → List (Text × Json)
unfolding index_key
indexed i none_left = []
indexed i (element j es) = (index_key i i, j) ∷ indexed (suc i) es

unfoldable pub keyed : Members → List (Text × Json)
keyed end = []
keyed (member k j ms) = (k, j) ∷ keyed ms

-- `j.items()`
unfoldable pub items : Json → List (Text × Json)
unfolding indexed keyed
items null = []
items scalar = ([], scalar) ∷ []
items (string s) = ([], string s) ∷ []
items (array es) = indexed 0 es
items (object ms) = keyed ms
