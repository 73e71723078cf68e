-- ===== src/Cors/Headers.antt =====
-- The headers that `preflight` of `src/entrypoint/cors/module.cpp` allows.
use uh_core.Base.{
  ◌≡◌, refl, ap, sym, ◌∙◌, ◌⊎◌, ◌↔◌, inl, inr, Bool, Bool-cases, true, false, ◌&&◌, ◌||◌, List, [],
  ◌∷◌, arith,
}
use uh_core.Policy.Variables.{Text}
use uh_core.Policy.Matchers.{texts_equal}
use uh_core.Policy.Matchers.Texts.{texts_equal-eq, texts_equal_iff}
use uh_core.Cors.Wildcard.{Accepts, equals_wildcard_single-Accepts, IsOneOf}
use uh_core.Cors.{
  is_before, insert_text, to_set, equals_wildcard_single, add_matching, intersection,
}

abbrev pub has_text : Text → List Text → Bool
has_text x [] = false
has_text x (u ∷ us) = texts_equal u x || has_text x us

-- Whether a pattern of the rule admits a header.
abbrev pub is_admitted : List Text → Text → Bool
is_admitted [] x = false
is_admitted (p ∷ ps) x = equals_wildcard_single p x || is_admitted ps x

has_text-insert_text :
    (x t : Text) (s : List Text) → has_text x (insert_text t s) ≡ (texts_equal t x || has_text x s)
unfolding insert_text
has_text-insert_text x t [] = refl
has_text-insert_text x t (u ∷ us) = elim (Bool-cases (texts_equal u t)) [
  | inl same ↦ rw (same, sym (texts_equal-eq u t same)) (twice (texts_equal u x) (has_text x us))
  | inr other ↦ elim (Bool-cases (is_before t u)) [
    | inl before ↦ rw (other, before) refl
    | inr after ↦
        rw (other, after)
          (ap (λ (b : Bool). texts_equal u x || b) (has_text-insert_text x t us)
            ∙ swap (texts_equal u x) (texts_equal t x) (has_text x us))
  ]
]
  where
    twice : (a b : Bool) → (a || b) ≡ (a || (a || b))
    twice true b = refl
    twice false b = refl

    swap : (a b c : Bool) → (a || (b || c)) ≡ (b || (a || c))
    swap true true c = refl
    swap true false c = refl
    swap false b c = refl

pub has_text-to_set :
    (x : Text) (ts s : List Text) → has_text x (to_set ts s) ≡ (has_text x ts || has_text x s)
unfolding to_set
has_text-to_set x [] s = refl
has_text-to_set x (t ∷ ts) s =
    has_text-to_set x ts (insert_text t s)
    ∙ ap (λ (b : Bool). has_text x ts || b) (has_text-insert_text x t s)
    ∙ swap (has_text x ts) (texts_equal t x) (has_text x s)
  where
    swap : (a b c : Bool) → (a || (b || c)) ≡ ((b || a) || c)
    swap true true c = refl
    swap true false c = refl
    swap false true c = refl
    swap false false c = refl

-- Whether a text is one of the headers that the pattern admits.
has_text-add_matching :
    (x p : Text) (hs s : List Text)
    → has_text x (add_matching p hs s)
      ≡ ((equals_wildcard_single p x && has_text x hs) || has_text x s)
unfolding add_matching
has_text-add_matching x p [] s = ground arith
has_text-add_matching x p (h ∷ hs) s = elim (Bool-cases (equals_wildcard_single p h)) [
  | inl fits ↦ rw fits (
      has_text-add_matching x p hs (insert_text h s)
      ∙ ap (λ (b : Bool). (equals_wildcard_single p x && has_text x hs) || b)
          (has_text-insert_text x h s)
      ∙ taken fits)
  | inr other ↦ rw other (has_text-add_matching x p hs s ∙ passed other)
]
  where
    taken :
        equals_wildcard_single p h ≡ true
        → ((equals_wildcard_single p x && has_text x hs) || (texts_equal h x || has_text x s))
          ≡ ((equals_wildcard_single p x && (texts_equal h x || has_text x hs)) || has_text x s)
    taken fits = elim (Bool-cases (texts_equal h x)) [
      | inl same ↦
          let e : equals_wildcard_single p x ≡ true =
            ap (equals_wildcard_single p) (sym (texts_equal-eq h x same)) ∙ fits in
          ground (arith, e, same)
      | inr apart ↦ ground (arith, apart)
    ]

    passed :
        equals_wildcard_single p h ≡ false
        → ((equals_wildcard_single p x && has_text x hs) || has_text x s)
          ≡ ((equals_wildcard_single p x && (texts_equal h x || has_text x hs)) || has_text x s)
    passed other = elim (Bool-cases (texts_equal h x)) [
      | inl same ↦
          let e : equals_wildcard_single p x ≡ false =
            ap (equals_wildcard_single p) (sym (texts_equal-eq h x same)) ∙ other in
          ground (arith, e, same)
      | inr apart ↦ ground (arith, apart)
    ]

pub has_text-intersection :
    (x : Text) (ps hs s : List Text)
    → has_text x (intersection ps hs s) ≡ ((is_admitted ps x && has_text x hs) || has_text x s)
unfolding intersection
has_text-intersection x [] hs s = ground arith
has_text-intersection x (p ∷ ps) hs s =
    has_text-intersection x ps hs (add_matching p hs s)
    ∙ ap (λ (b : Bool). (is_admitted ps x && has_text x hs) || b) (has_text-add_matching x p hs s)
    ∙ ground arith

-- Whether a pattern of the rule accepts a header.
abbrev pub IsAllowed : List Text → Text → Type 0
IsAllowed [] x = ⊥
IsAllowed (p ∷ ps) x = Accepts p x ⊎ IsAllowed ps x

pub has_text-IsOneOf : (x : Text) (ts : List Text) → (has_text x ts ≡ true) ↔ IsOneOf x ts
has_text-IsOneOf x [] = (λ e. absurd (ground arith), λ h. absurd h)
has_text-IsOneOf x (t ∷ ts) =
    let rest = has_text-IsOneOf x ts in
    let here = texts_equal_iff t x in
    (
      λ e. elim (Bool-cases (texts_equal t x)) [
        | inl same ↦ inl (here.0 same)
        | inr other ↦ inr (rest.0 (ground arith))
      ],
      λ h. elim h [
        | inl same ↦ rw (here.1 same) refl
        | inr later ↦ let e = rest.1 later in ground arith
      ],
    )

pub is_admitted-IsAllowed : (ps : List Text) (x : Text) → (is_admitted ps x ≡ true) ↔ IsAllowed ps x
is_admitted-IsAllowed [] x = (λ e. absurd (ground arith), λ h. absurd h)
is_admitted-IsAllowed (p ∷ ps) x =
    let rest = is_admitted-IsAllowed ps x in
    let here = equals_wildcard_single-Accepts p x in
    (
      λ e. elim (Bool-cases (equals_wildcard_single p x)) [
        | inl same ↦ inl (here.0 same)
        | inr other ↦ inr (rest.0 (ground arith))
      ],
      λ h. elim h [
        | inl same ↦ rw (here.1 same) refl
        | inr later ↦ let e = rest.1 later in ground arith
      ],
    )
