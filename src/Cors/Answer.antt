-- ===== src/Cors/Answer.antt =====
-- What `check` of `src/entrypoint/cors/module.cpp` answers, in terms of the rules.
use uh_core.Base.{
  ℕ, ◌==◌, ◌≡◌, refl, ap, sym, ◌∙◌, ◌↔◌, ◌⊎◌, inl, inr, Bool-cases, true, false, Option, none, some,
  List, [], ◌∷◌, ◌++◌, arith,
}
use uh_core.Base.Result.{ok}
use uh_core.Strings.{split, join}
use uh_core.Policy.Variables.{Text}
use uh_core.Cors.{
  Info, Request, CorsResult, nothing, forbidden, no_content, with_headers, comma, options, admits,
  find_info, to_set, intersection, unless_empty, allowed_headers, preflight_response,
  preflight_method, flight_result, check_origin, check,
}
use uh_core.Cors.Wildcard.{IsOneOf, Admits, admits-Admits}
use uh_core.Cors.Headers.{
  IsAllowed, has_text-IsOneOf, is_admitted-IsAllowed, has_text-to_set, has_text-intersection,
}

abbrev pub AllRefuse : List Info → Text → ℕ → Type 0
AllRefuse [] origin method = Unit {0}
AllRefuse (i ∷ rules) origin method = (Admits i origin method → ⊥) × AllRefuse rules origin method

-- The first rule that admits an origin and a method.
abbrev pub IsFirst : Info → List Info → Text → ℕ → Type 0
IsFirst i rules origin method =
    (before : List Info) × (after : List Info) × (rules ≡ before ++ i ∷ after)
    × AllRefuse before origin method
    × Admits i origin method

-- The headers that are allowed are those that are asked for and that the rule admits.
abbrev pub AreAllowed : Info → Text → Option Text → Type 0
AreAllowed i acrh allowed =
    (s : List Text) × (allowed ≡ unless_empty (join (comma ∷ []) s))
    × ((x : Text) → IsOneOf x s ↔ (IsOneOf x (split comma acrh) × IsAllowed i.headers x))

module _ (verb : Text → ℕ) (name : ℕ → Text) where
  abbrev pub IsRefused : List Info → Request → Text → Type 0
  IsRefused rules r origin =
      (((r.method == options) ≡ false) × AllRefuse rules origin r.method)
      ⊎ (((r.method == options) ≡ true)
          × ((r.requested_method ≡ none)
              ⊎ ((m : Text) × (r.requested_method ≡ some m) × AllRefuse rules origin (verb m))))

  -- What an answer says of the rules and the request.
  abbrev pub IsAnswer : List Info → Request → CorsResult → Type 0
  IsAnswer rules r nothing = r.origin ≡ none
  IsAnswer rules r forbidden = (origin : Text) × (r.origin ≡ some origin) × IsRefused rules r origin
  IsAnswer rules r (with_headers allow expose) =
      (origin : Text) × (i : Info) × (r.origin ≡ some origin)
      × ((r.method == options) ≡ false)
      × IsFirst i rules origin r.method
      × (allow ≡ i.origin)
      × (expose ≡ i.expose_headers)
  IsAnswer rules r (no_content p) =
      (m : Text) × (i : Info) × (r.origin ≡ some p.allow_origin)
      × ((r.method == options) ≡ true)
      × (r.requested_method ≡ some m)
      × IsFirst i rules p.allow_origin (verb m)
      × ((acrh : Text) → r.requested_headers ≡ some acrh → AreAllowed i acrh p.allow_headers)
      × (r.requested_headers ≡ none → p.allow_headers ≡ none)

  refuses :
      (i : Info) (origin : Text) (method : ℕ)
      → admits i origin method ≡ false
      → Admits i origin method
      → ⊥
  refuses i origin method rejects h =
      true_false (sym ((admits-Admits i origin method).1 h) ∙ rejects)
    where
      true_false : true ≡ false → ⊥
      true_false e = cc

  find_info-AllRefuse :
      (rules : List Info) (origin : Text) (method : ℕ)
      → find_info rules origin method ≡ none
      → AllRefuse rules origin method
  unfolding find_info
  find_info-AllRefuse [] origin method e = tt
  find_info-AllRefuse (i ∷ rules) origin method e = elim (Bool-cases (admits i origin method)) [
    | inl fits ↦ absurd (some_none i (rw fits at e))
    | inr rejects ↦
        (refuses i origin method rejects, find_info-AllRefuse rules origin method (rw rejects at e))
  ]
    where
      some_none : (j : Info) → some j ≡ none → ⊥
      some_none j e = cc

  find_info-IsFirst :
      (rules : List Info) (origin : Text) (method : ℕ) (i : Info)
      → find_info rules origin method ≡ some i
      → IsFirst i rules origin method
  unfolding find_info
  find_info-IsFirst [] origin method i e = absurd cc
  find_info-IsFirst (j ∷ rules) origin method i e = elim (Bool-cases (admits j origin method)) [
    | inl fits ↦
        let same : j ≡ i = injected j (rw fits at e) in
        (
          [],
          rules,
          ap (λ (x : Info). x ∷ rules) same,
          tt,
          (admits-Admits i origin method).0
              (ap (λ (x : Info). admits x origin method) (sym same) ∙ fits),
        )
    | inr rejects ↦
        let (before, after, split_up, refuse, fits) =
          find_info-IsFirst rules origin method i (rw rejects at e) in
        (j ∷ before, after, ap (◌∷◌ j) split_up, (refuses j origin method rejects, refuse), fits)
  ]
    where
      injected : (j : Info) → some j ≡ some i → j ≡ i
      injected j e = cc

  allowed_headers-AreAllowed :
      (i : Info) (acrh : Text) → AreAllowed i acrh (allowed_headers i (some acrh))
  allowed_headers-AreAllowed i acrh =
      let asked = to_set (split comma acrh) [] in
      (
        intersection i.headers asked [],
        refl,
        λ x.
            let all = has_text-intersection x i.headers asked [] in
            let set = has_text-to_set x (split comma acrh) [] in
            let found = has_text-IsOneOf x (intersection i.headers asked []) in
            let listed = has_text-IsOneOf x (split comma acrh) in
            let allowed = is_admitted-IsAllowed i.headers x in
            (
              λ h.
                  let e = found.1 h in
                  (listed.0 (ground (arith, all, set, e)), allowed.0 (ground (arith, all, set, e))),
              λ (h, k).
                  let a = listed.1 h in
                  let b = allowed.1 k in found.0 (ground (arith, all, set, a, b)),
            ),
      )

  module _ (rules : List Info) (r : Request) (origin : Text) (from : r.origin ≡ some origin) where
    flight_result-IsAnswer :
        (o : Option Info)
        → (r.method == options) ≡ false
        → find_info rules origin r.method ≡ o
        → IsAnswer rules r (flight_result o)
    flight_result-IsAnswer none e f =
        (origin, from, inl (e, find_info-AllRefuse rules origin r.method f))
    flight_result-IsAnswer (some i) e f =
        (origin, i, from, e, find_info-IsFirst rules origin r.method i f, refl, refl)

    preflight_response-IsAnswer :
        (m : Text) (o : Option Info)
        → (r.method == options) ≡ true
        → r.requested_method ≡ some m
        → find_info rules origin (verb m) ≡ o
        → IsAnswer rules r (preflight_response verb name o r origin)
    preflight_response-IsAnswer m none e k f =
        (origin, from, inr (e, inr (m, k, find_info-AllRefuse rules origin (verb m) f)))
    preflight_response-IsAnswer m (some i) e k f = (
      m,
      i,
      from,
      e,
      k,
      find_info-IsFirst rules origin (verb m) i f,
      λ acrh h. rw h (allowed_headers-AreAllowed i acrh),
      λ h. ap (allowed_headers i) h,
    )

    preflight_method-IsAnswer :
        (o : Option Text)
        → (r.method == options) ≡ true
        → r.requested_method ≡ o
        → IsAnswer rules r (preflight_method verb name o rules r origin)
    preflight_method-IsAnswer none e k = (origin, from, inr (e, inl k))
    preflight_method-IsAnswer (some m) e k =
        preflight_response-IsAnswer m (find_info rules origin (verb m)) e k refl

  check_origin-IsAnswer :
      (o : Option Text) (rules : List Info) (r : Request)
      → r.origin ≡ o
      → (a : CorsResult) × (check_origin verb name o (ok rules) r ≡ ok a) × IsAnswer rules r a
  check_origin-IsAnswer none rules r from = (nothing, refl, from)
  check_origin-IsAnswer (some origin) rules r from = elim (Bool-cases (r.method == options)) [
    | inl asked ↦ (
      preflight_method verb name r.requested_method rules r origin,
      rw asked refl,
      preflight_method-IsAnswer rules r origin from r.requested_method asked refl,
    )
    | inr sent ↦ (
      flight_result (find_info rules origin r.method),
      rw sent refl,
      flight_result-IsAnswer rules r origin from (find_info rules origin r.method) sent refl,
    )
  ]

  -- Where the rules are there, `check` gives nothing to a request without an origin, and refuses an
  -- origin and a method that no rule admits, and a preflight request that asks for no method. For any
  -- other, it answers from the first rule that admits the origin and the method: with the origin and
  -- the exposed headers of the rule, or, to a preflight request, with its origin and those of the
  -- headers asked for, if any, that a pattern of the rule accepts. A rule admits one of its methods
  -- from its origin, or from any if that is a star. A pattern without a star accepts the text that it
  -- is; one with a star accepts a text that ends with what stands behind the first star, and begins
  -- with what stands before it without the last character, which is not compared.
  pub check-IsAnswer :
      (rules : List Info) (r : Request)
      → (a : CorsResult) × (check verb name (ok rules) r ≡ ok a) × IsAnswer rules r a
  unfolding check
  check-IsAnswer rules r = check_origin-IsAnswer r.origin rules r refl
