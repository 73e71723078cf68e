-- ===== src/Cors/Wildcard.antt =====
-- What `equals_wildcard_single` and `find_info` of `src/entrypoint/cors/module.cpp` accept, in terms of
-- the texts.
use uh_core.Base.{
  ℕ, zero, suc, ◌-◌, ◌≡◌, refl, ap, ap₂, sym, ◌∙◌, ◌⊎◌, ◌↔◌, inl, inr, Bool, Bool-cases, true,
  false, ◌&&◌, ◌||◌, ◌==◌, ==_iff, some, none, Option, List, [], ◌∷◌, ◌++◌, arith, leb, ltb, length,
  take, drop, length-append, drop-append_self,
}
use uh_core.Policy.Variables.{Text}
use uh_core.Policy.Matchers.{texts_equal}
use uh_core.Policy.Matchers.Texts.{texts_equal-eq, texts_equal_self, texts_equal_iff}
use uh_core.Policy.Parser.{ends_with}
use uh_core.Cors.{
  Info, star, find_star, starts_with, matches_at, equals_wildcard_single, has_method, admits,
}

abbrev pub HasNoStar : Text → Type 0
HasNoStar [] = Unit {0}
HasNoStar (c ∷ cs) = (c ≡ star → ⊥) × HasNoStar cs

-- A text without its last character.
abbrev pub but_last : Text → Text
but_last [] = []
but_last (c ∷ []) = []
but_last (c ∷ d ∷ ds) = c ∷ but_last (d ∷ ds)

-- What a pattern accepts. Without a star that is the text that it is. With one, before which no
-- other stands, it is a text that ends with what stands behind the star, and that begins with what
-- stands before it but for the last character, which is not compared.
abbrev pub Accepts : Text → Text → Type 0
Accepts pattern str =
    (HasNoStar pattern × (str ≡ pattern))
    ⊎ ((before : Text) × (behind : Text) × (pattern ≡ before ++ star ∷ behind)
        × HasNoStar before
        × ((rest : Text) × (str ≡ but_last before ++ rest))
        × ((front : Text) × (str ≡ front ++ behind)))

starts_with-append : (p rest : Text) → starts_with (p ++ rest) p ≡ true
starts_with-append [] [] = refl
starts_with-append [] (d ∷ ds) = refl
starts_with-append (c ∷ cs) rest = rw ((==_iff c c).1 refl) (starts_with-append cs rest)

starts_with_found : (str p : Text) → starts_with str p ≡ true → (rest : Text) × (str ≡ p ++ rest)
starts_with_found str [] e = (str, refl)
starts_with_found [] (c ∷ cs) e = absurd (ground arith)
starts_with_found (d ∷ ds) (c ∷ cs) e =
    let (rest, same) = starts_with_found ds cs (ground arith) in
    (rest, ap₂ ◌∷◌ ((==_iff d c).0 (ground arith)) same)

take-drop : (n : ℕ) (xs : Text) → xs ≡ take n xs ++ drop n xs
take-drop zero xs = refl
take-drop (suc n) [] = refl
take-drop (suc n) (x ∷ xs) = ap (◌∷◌ x) (take-drop n xs)

ends_with_found : (str p : Text) → ends_with str p ≡ true → (front : Text) × (str ≡ front ++ p)
ends_with_found str p e =
    let k = length str - length p in
    let tail = texts_equal-eq (drop k str) p (ground arith) in
    (take k str, take-drop k str ∙ ap (λ (t : Text). take k str ++ t) tail)

ends_with-append : (front p : Text) → ends_with (front ++ p) p ≡ true
ends_with-append front p =
    let all = length-append front p in
    let k : length (front ++ p) - length p ≡ length front = omega (arith, all) in
    let fits : leb (length p) (length (front ++ p)) ≡ true = ground (arith, all) in
    rw (fits, k, drop-append_self front p) (texts_equal_self p)

find_star-none : (p : Text) → HasNoStar p → find_star p ≡ none
find_star-none [] clean = refl
find_star-none (c ∷ cs) clean = elim (Bool-cases (c == star)) [
  | inl here ↦ absurd (clean.0 ((==_iff c star).0 here))
  | inr other ↦ rw (other, find_star-none cs clean.1) refl
]

find_star-some :
    (before behind : Text)
    → HasNoStar before
    → find_star (before ++ star ∷ behind) ≡ some (length before)
find_star-some [] behind clean = refl
find_star-some (c ∷ cs) behind clean = elim (Bool-cases (c == star)) [
  | inl here ↦ absurd (clean.0 ((==_iff c star).0 here))
  | inr other ↦ rw (other, find_star-some cs behind clean.1) refl
]

split_at_star :
    (p : Text)
    → HasNoStar p
      ⊎ ((before : Text) × (behind : Text) × (p ≡ before ++ star ∷ behind) × HasNoStar before)
split_at_star [] = inl tt
split_at_star (c ∷ cs) = elim (Bool-cases (c == star)) [
  | inl here ↦ inr ([], cs, ap (λ (d : ℕ). d ∷ cs) ((==_iff c star).0 here), tt)
  | inr other ↦
      let clean : c ≡ star → ⊥ = λ e. true_false (sym ((==_iff c star).1 e) ∙ other) in
      elim (split_at_star cs) [
        | inl none_left ↦ inl (clean, none_left)
        | inr (before, behind, same, free) ↦
            inr (c ∷ before, behind, ap (◌∷◌ c) same, (clean, free))
      ]
]
  where
    true_false : true ≡ false → ⊥
    true_false e = cc

take-but_last : (c : ℕ) (cs t : Text) → take (length cs) (c ∷ cs ++ t) ≡ but_last (c ∷ cs)
take-but_last c [] t = refl
take-but_last c (d ∷ ds) t = ap (◌∷◌ c) (take-but_last d ds t)

drop_behind : (before behind : Text) → drop (suc (length before)) (before ++ star ∷ behind) ≡ behind
drop_behind [] behind = refl
drop_behind (c ∷ cs) behind = drop_behind cs behind

-- What a pattern with a star in it is compared for.
matches_around :
    (before behind str : Text)
    → matches_at (some (length before)) (before ++ star ∷ behind) str
      ≡ (starts_with str (but_last before) && ends_with str behind)
matches_around [] behind [] = refl
matches_around [] behind (d ∷ ds) = refl
matches_around (c ∷ cs) behind str =
    let back : suc (length cs) - 1 ≡ length cs = omega arith in
    let inside : ltb 0 (suc (length cs)) ≡ true = ground arith in
    elim (Bool-cases (starts_with str (but_last (c ∷ cs)))) [
      | inl begins ↦
          rw (back, take-but_last c cs (star ∷ behind), begins, drop_behind cs behind, inside) refl
      | inr differs ↦ rw (back, take-but_last c cs (star ∷ behind), differs, inside) refl
    ]

pub equals_wildcard_single-Accepts :
    (pattern str : Text) → (equals_wildcard_single pattern str ≡ true) ↔ Accepts pattern str
unfolding equals_wildcard_single
equals_wildcard_single-Accepts pattern str = (from, to)
  where
    from : equals_wildcard_single pattern str ≡ true → Accepts pattern str
    from e = elim (split_at_star pattern) [
      | inl clean ↦ inl (clean, texts_equal-eq str pattern (rw (find_star-none pattern clean) at e))
      | inr (before, behind, same, clean) ↦
          let e' : matches_at (find_star (before ++ star ∷ behind)) (before ++ star ∷ behind) str
              ≡ true =
            ap (λ (p : Text). matches_at (find_star p) p str) (sym same) ∙ e in
          let e'' = rw (find_star-some before behind clean) at e' in
          let both = sym (matches_around before behind str) ∙ e'' in
          inr (
            before,
            behind,
            same,
            clean,
            starts_with_found str (but_last before) (ground (arith, both)),
            ends_with_found str behind (ground (arith, both)),
          )
    ]

    to : Accepts pattern str → equals_wildcard_single pattern str ≡ true
    to (inl (clean, same)) =
        rw (find_star-none pattern clean) ((texts_equal_iff str pattern).1 same)
    to (inr (before, behind, same, clean, (rest, begins), (front, ends))) =
        let a : starts_with str (but_last before) ≡ true =
          ap (λ (t : Text). starts_with t (but_last before)) begins
          ∙ starts_with-append (but_last before) rest in
        let b : ends_with str behind ≡ true =
          ap (λ (t : Text). ends_with t behind) ends ∙ ends_with-append front behind in
        ap (λ (p : Text). matches_at (find_star p) p str) same
        ∙ ap (λ (o : Option ℕ). matches_at o (before ++ star ∷ behind) str)
            (find_star-some before behind clean)
        ∙ matches_around before behind str
        ∙ ap₂ ◌&&◌ a b

abbrev pub IsOneOf : {A : Type 0} → A → List A → Type 0
IsOneOf x [] = ⊥
IsOneOf x (y ∷ ys) = (y ≡ x) ⊎ IsOneOf x ys

-- A rule admits an origin and a method where its origin is that one or a star, and the method is
-- one of its methods.
abbrev pub Admits : Info → Text → ℕ → Type 0
Admits i origin method = ((i.origin ≡ origin) ⊎ (i.origin ≡ star ∷ [])) × IsOneOf method i.methods

has_method-IsOneOf : (m : ℕ) (ms : List ℕ) → (has_method ms m ≡ true) ↔ IsOneOf m ms
has_method-IsOneOf m [] = (λ e. absurd (ground arith), λ h. absurd h)
has_method-IsOneOf m (n ∷ ms) =
    let rest = has_method-IsOneOf m ms in
    (
      λ e. elim (Bool-cases (n == m)) [
        | inl here ↦ inl ((==_iff n m).0 here)
        | inr other ↦ inr (rest.0 (ground arith))
      ],
      λ h. elim h [
        | inl same ↦ rw ((==_iff n m).1 same) refl
        | inr later ↦ let e = rest.1 later in ground arith
      ],
    )

pub admits-Admits : (i : Info) (o : Text) (m : ℕ) → (admits i o m ≡ true) ↔ Admits i o m
admits-Admits i o m =
    let own = texts_equal_iff i.origin o in
    let any = texts_equal_iff i.origin (star ∷ []) in
    let listed = has_method-IsOneOf m i.methods in
    (
      λ e. (
        elim (Bool-cases (texts_equal i.origin o)) [
          | inl same ↦ inl (own.0 same)
          | inr other ↦ inr (any.0 (ground arith))
        ],
        listed.0 (ground arith),
      ),
      λ (origin, method).
          let b = listed.1 method in
          elim origin [
            | inl same ↦ let a = own.1 same in ground arith
            | inr stars ↦ let a = any.1 stars in rw (a, b) (or_true (texts_equal i.origin o))
          ],
    )
  where
    or_true : (x : Bool) → ((x || true) && true) ≡ true
    or_true true = refl
    or_true false = refl
