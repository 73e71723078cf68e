-- ===== src/Policy/Matchers/Laws.antt =====
-- The conditions of `src/entrypoint/policy/matchers.h`.
use uh_core.Base.{
  ◌≡◌, refl, sym, ap, ◌∙◌, ◌↔◌, ◌⊎◌, inl, inr, Bool, true, false, if◌then◌else◌, Option-cases, none,
  some, List, [], ◌∷◌, append-nil, arith,
}
use uh_core.Base.Result.{Result, ok, ◌>>=◌, >>=-eq-ok}
use uh_core.Policy.Variables.{Text, Vars, equals_wildcard_vars}
use uh_core.Policy.Replace.{plain, equals_wildcard_vars_iff}
use uh_core.Policy.Matchers.{
  Undefined, ignore, do_not_match, Values, Comparer, match_any, on_undefined, var_matcher,
  string_like, match_stringlike,
}

module _ (uv : Undefined) (match_func : Comparer) (vars : Vars) where
  -- Every key without a value may be ignored, and every other value compares well.
  abbrev pub AllHold : Values → Type 0
  AllHold [] = Unit {0}
  AllHold ((name, options) ∷ values) =
      (((vars name ≡ none) × (uv ≡ ignore))
        ⊎ ((v : Text) × (vars name ≡ some v) × (match_func vars v options ≡ ok true)))
      × AllHold values

  missing_key :
      (name : Text) (options : List Text) (values : Values)
      → vars name ≡ none
      → var_matcher ((name, options) ∷ values) uv match_func vars
        ≡ on_undefined uv (var_matcher values uv match_func vars)
  unfolding var_matcher
  missing_key name options values e = rw (e, var_matcher) refl

  known_key :
      (name : Text) (options : List Text) (values : Values) (v : Text)
      → vars name ≡ some v
      → var_matcher ((name, options) ∷ values) uv match_func vars ≡ (
          match_func vars v options >>= λ b.
          if b then var_matcher values uv match_func vars else ok false)
  unfolding var_matcher
  known_key name options values v e = rw (e, var_matcher) refl

  ignored :
      (u : Undefined) (rest : Result Bool)
      → on_undefined u rest ≡ ok true
      → (u ≡ ignore) × (rest ≡ ok true)
  ignored ignore rest e = (refl, e)
  ignored do_not_match rest e = absurd (ground arith)

  both_true :
      (b : Bool) (rest : Result Bool)
      → (if b then rest else ok false) ≡ ok true
      → (b ≡ true) × (rest ≡ ok true)
  both_true true rest e = (refl, e)
  both_true false rest e = absurd (ground arith)

  AllHold-matched :
      (values : Values) → var_matcher values uv match_func vars ≡ ok true → AllHold values
  AllHold-matched [] e = tt
  AllHold-matched ((name, options) ∷ values) e = elim (Option-cases (vars name)) [
    | inl missing ↦
        let (u, rest) =
          ignored uv (var_matcher values uv match_func vars)
            (sym (missing_key name options values missing) ∙ e) in
        (inl (missing, u), AllHold-matched values rest)
    | inr (v, found) ↦
        let (b, (matches, more)) =
          >>=-eq-ok (match_func vars v options)
            (λ b. if b then var_matcher values uv match_func vars else ok false)
            (sym (known_key name options values v found) ∙ e) in
        let (holds, rest) = both_true b (var_matcher values uv match_func vars) more in
        (inr (v, found, matches ∙ ap ok holds), AllHold-matched values rest)
  ]

  matched-AllHold :
      (values : Values) → AllHold values → var_matcher values uv match_func vars ≡ ok true
  matched-AllHold [] h = unfold var_matcher in refl
  matched-AllHold ((name, options) ∷ values) (inl (missing, u), h) =
      missing_key name options values missing
      ∙ ap (λ t. on_undefined t (var_matcher values uv match_func vars)) u
      ∙ matched-AllHold values h
  matched-AllHold ((name, options) ∷ values) (inr (v, found, matches), h) =
      known_key name options values v found ∙ (rw matches (matched-AllHold values h))

  -- The conditions of an operator hold exactly if every key compares well with its options, keys
  -- without a value aside where `uv` is to ignore them; else they fail the condition.
  pub var_matcher_iff :
      (values : Values) → (var_matcher values uv match_func vars ≡ ok true) ↔ AllHold values
  var_matcher_iff values = (AllHold-matched values, matched-AllHold values)

-- The text `*`, which a client may send as its referer or user agent.
abbrev pub star : Text
star = 42 ∷ []

star_matches : (vars : Vars) (value : Text) → equals_wildcard_vars vars star value ≡ true
star_matches vars value =
    (equals_wildcard_vars_iff vars star value (plain 255 ∷ []) refl (refl, refl, tt)).1
      (value, [], sym (append-nil value), inl refl, refl)

-- `StringLike` takes the value of the request for the pattern: a request whose value for the key is
-- `*` meets the condition whatever the options of the policy are, if there are any.
pub match_stringlike-star :
    (name option : Text) (options : List Text) (uv : Undefined) (vars : Vars)
    → vars name ≡ some star
    → match_stringlike ((name, option ∷ options) ∷ []) uv vars ≡ ok true
unfolding match_stringlike
match_stringlike-star name option options uv vars e =
    (var_matcher_iff uv string_like vars ((name, option ∷ options) ∷ [])).1
      (inr (star, e, unfold match_any in rw (star_matches vars option) refl), tt)
