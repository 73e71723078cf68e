-- ===== src/Policy/Parser/Statement.antt =====
-- Which statements `src/entrypoint/policy/parser.cpp` takes for a policy.
use uh_core.Base.{
  ℕ, ◌≡◌, refl, ap, ◌⊎◌, inl, inr, Bool-cases, Option, none, some, List, ◌∷◌, ◌++◌, arith,
}
use uh_core.Base.Result.{Result, ok, throws, ◌>>=◌}
use uh_core.Policy.Variables.{Text}
use uh_core.Policy.Matchers.{codes, texts_equal, Matcher}
use uh_core.Policy.Json.{Json, null, scalar, string, array, object, optional}
use uh_core.Policy.Check.{Effect, allow, deny, Policy}
use uh_core.Policy.Matchers.Texts.{texts_equal-eq}
use uh_core.Policy.Parser.{
  one_of, effect_named, effect_of, action_matchers, resource_matchers, principal_matchers,
  condition_matchers, sid_of, get_effect, parse_policy,
}

-- Exactly one of two elements is there.
abbrev pub OneOf : Option Json → Option Json → Type 0
OneOf a b = ((j : Json) × (a ≡ some j) × (b ≡ none)) ⊎ ((j : Json) × (a ≡ none) × (b ≡ some j))

abbrev pub effect_text : Effect → Text
effect_text allow = codes "Allow"
effect_text deny = codes "Deny"

pub record IsStatement (stmt : Json) (p : Policy) : Type 0 where
  pub action : OneOf (optional stmt (codes "Action")) (optional stmt (codes "NotAction"))
  pub resource : OneOf (optional stmt (codes "Resource")) (optional stmt (codes "NotResource"))
  pub effect : optional stmt (codes "Effect") ≡ some (string (effect_text p.effect))

one_of-OneOf :
    (plain negated : List Text → Matcher) (a b : Option Json) (m : Matcher)
    → one_of plain negated a b ≡ ok m
    → OneOf a b
one_of-OneOf plain negated (some a) (some b) m e = absurd (ground arith)
one_of-OneOf plain negated (some a) none m e = inl (a, refl, refl)
one_of-OneOf plain negated none (some b) m e = inr (b, refl, refl)
one_of-OneOf plain negated none none m e = absurd (ground arith)

effect_named-eq-ok :
    (text : Text) (effect : Effect) → effect_named text ≡ ok effect → text ≡ effect_text effect
effect_named-eq-ok text allow e = elim (Bool-cases (texts_equal text (codes "Allow"))) [
  | inl named ↦ texts_equal-eq text (codes "Allow") named
  | inr other ↦ absurd (ground arith)
]
effect_named-eq-ok text deny e = elim (Bool-cases (texts_equal text (codes "Deny"))) [
  | inl named ↦ texts_equal-eq text (codes "Deny") named
  | inr other ↦ absurd (ground arith)
]

effect_of-eq-ok :
    (found : Option Json) (effect : Effect)
    → effect_of found ≡ ok effect
    → found ≡ some (string (effect_text effect))
effect_of-eq-ok none effect e = absurd (ground arith)
effect_of-eq-ok (some (string s)) effect e =
    ap (λ t. some (string t)) (effect_named-eq-ok s effect e)
effect_of-eq-ok (some null) effect e = absurd (ground arith)
effect_of-eq-ok (some scalar) effect e = absurd (ground arith)
effect_of-eq-ok (some (array es)) effect e = absurd (ground arith)
effect_of-eq-ok (some (object ms)) effect e = absurd (ground arith)

-- Where a policy is put together, its action and resource matchers and its effect were there.
built :
    (a r : Result Matcher) (ps cs : Result (List Matcher)) (i : Result Text) (f : Result Effect)
    (p : Policy)
    → (a >>= λ action. r >>= λ resource. ps >>= λ principal. cs >>= λ condition. i >>= λ id.
        f >>= λ effect. ok (record {
          id = id;
          matchers = action ∷ resource ∷ (principal ++ condition);
          effect = effect;
        }))
      ≡ ok p
    → ((m : Matcher) × (a ≡ ok m)) × ((m : Matcher) × (r ≡ ok m)) × (f ≡ ok p.effect)
built (throws x) r ps cs i f p e = absurd (ground arith)
built (ok m) (throws x) ps cs i f p e = absurd (ground arith)
built (ok m) (ok m') (throws x) cs i f p e = absurd (ground arith)
built (ok m) (ok m') (ok ps) (throws x) i f p e = absurd (ground arith)
built (ok m) (ok m') (ok ps) (ok cs) (throws x) f p e = absurd (ground arith)
built (ok m) (ok m') (ok ps) (ok cs) (ok i) (throws x) p e = absurd (ground arith)
built (ok m) (ok m') (ok ps) (ok cs) (ok i) (ok effect) p e = ((m, refl), (m', refl), ground arith)

-- A statement that becomes a policy has exactly one of `Action` and `NotAction`, exactly one of
-- `Resource` and `NotResource`, and for `Effect` the text of the effect that the policy has.
pub parse_policy-IsStatement :
    (read_date : Text → Result ℕ) (stmt : Json) (p : Policy)
    → parse_policy read_date stmt ≡ ok p
    → IsStatement stmt p
unfolding parse_policy action_matchers resource_matchers get_effect
parse_policy-IsStatement read_date stmt p e =
    let ((m, a), (m', r), f) =
      built (action_matchers stmt) (resource_matchers stmt) (principal_matchers stmt)
        (condition_matchers read_date stmt) (sid_of (optional stmt (codes "Sid"))) (get_effect stmt)
        p e in
    record {
      action =
          one_of-OneOf _ _ (optional stmt (codes "Action")) (optional stmt (codes "NotAction")) m a;
      resource =
          one_of-OneOf _ _ (optional stmt (codes "Resource")) (optional stmt (codes "NotResource"))
            m' r;
      effect = effect_of-eq-ok (optional stmt (codes "Effect")) p.effect f;
    }
