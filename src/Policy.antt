-- ===== src/Policy.antt =====
-- `src/entrypoint/policy/variables.cpp`: the matching of wildcards. The place in the pattern is
-- what is left of the pattern. The place in the string is what is left of it, or `none` for an
-- index behind its end, which `?` at the end leads to.
use uh_core.Base.{
  ℕ, ◌==◌, Bool, true, false, ◌||◌, if◌then◌else◌, Option, none, some, List, [], ◌∷◌,
}
pub mod Wildcard
pub mod Variables
pub mod Replace
pub mod Matchers
pub mod Numbers
pub mod Json
pub mod Pattern
pub mod Parser
pub mod Check
pub mod Decision
mod Tests

-- `str_index == str.size()`
abbrev pub at_end : Option (List ℕ) → Bool
at_end none = false
at_end (some []) = true
at_end (some (x ∷ xs)) = false

-- `str_index < str.size() && str[str_index] == c`
abbrev pub begins_with : ℕ → Option (List ℕ) → Bool
begins_with c none = false
begins_with c (some []) = false
begins_with c (some (x ∷ xs)) = x == c

-- `str_index + 1`
abbrev pub advance : Option (List ℕ) → Option (List ℕ)
advance none = none
advance (some []) = none
advance (some (x ∷ xs)) = some xs

-- The recursion at an asterisk, in a string whose index is not behind the end: `later` is the call
-- with the next index of the pattern.
unfoldable pub match_from : (Option (List ℕ) → Bool) → List ℕ → Bool
match_from later [] = later (some [])
match_from later (x ∷ xs) = later (some (x ∷ xs)) || match_from later xs

abbrev pub match_asterisk : (Option (List ℕ) → Bool) → Option (List ℕ) → Bool
match_asterisk later none = later none
match_asterisk later (some s) = match_from later s

unfoldable pub equals_wildcard : ℕ → ℕ → List ℕ → Option (List ℕ) → Bool
equals_wildcard asterisk questionmark [] str = at_end str
equals_wildcard asterisk questionmark (c ∷ pattern) str =
    if c == asterisk
    then match_asterisk (equals_wildcard asterisk questionmark pattern) str
    else if (c == questionmark) || begins_with c str
    then equals_wildcard asterisk questionmark pattern (advance str)
    else false
