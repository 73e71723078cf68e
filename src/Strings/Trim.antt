-- ===== src/Strings/Trim.antt =====
-- `trim`, `ltrim` and `rtrim` of `src/common/utils/strings.cpp`.
use uh_core.Base.{
  ℕ, suc, ◌≡◌, refl, ap, sym, ◌∙◌, Bool, true, false, inl, inr, none, some, List, [], ◌∷◌, ◌++◌,
  append_assoc, arith, if◌then◌else◌, Bool-cases, Option-cases, take,
}
use uh_core.Strings.{
  contains, find_first_not_of, find_last_not_of, from_first, to_last, ltrim, rtrim, trim,
}

abbrev pub last_of : ℕ → List ℕ → ℕ
last_of c [] = c
last_of c (d ∷ ds) = last_of d ds

last_of-append :
    (c : ℕ) (front : List ℕ) (d : ℕ) (ds : List ℕ) → last_of c (front ++ d ∷ ds) ≡ last_of d ds
last_of-append c [] d ds = refl
last_of-append c (x ∷ front) d ds = last_of-append x front d ds

module _ (chars : List ℕ) where
  abbrev pub AllIn : List ℕ → Type 0
  AllIn [] = Unit {0}
  AllIn (c ∷ cs) = (contains chars c ≡ true) × AllIn cs

  -- The text is empty, or neither its first nor its last character is one to trim.
  abbrev pub IsTrimmed : List ℕ → Type 0
  IsTrimmed [] = Unit {0}
  IsTrimmed (c ∷ cs) = (contains chars c ≡ false) × (contains chars (last_of c cs) ≡ false)

  abbrev StartsWell : List ℕ → Type 0
  StartsWell [] = Unit {0}
  StartsWell (c ∷ cs) = contains chars c ≡ false

  abbrev EndsWell : List ℕ → Type 0
  EndsWell [] = Unit {0}
  EndsWell (c ∷ cs) = contains chars (last_of c cs) ≡ false

  first_stays :
      (c : ℕ) (cs : List ℕ) → contains chars c ≡ false → find_first_not_of chars (c ∷ cs) ≡ some 0
  unfolding find_first_not_of
  first_stays c cs stays = ground arith

  first_found :
      (c i : ℕ) (cs : List ℕ)
      → contains chars c ≡ true
      → find_first_not_of chars cs ≡ some i
      → find_first_not_of chars (c ∷ cs) ≡ some (suc i)
  unfolding find_first_not_of
  first_found c i cs goes found = ground arith

  first_nothing :
      (c : ℕ) (cs : List ℕ)
      → contains chars c ≡ true
      → find_first_not_of chars cs ≡ none
      → find_first_not_of chars (c ∷ cs) ≡ none
  unfolding find_first_not_of
  first_nothing c cs goes nothing = ground arith

  ltrim_stays : (c : ℕ) (cs : List ℕ) → contains chars c ≡ false → ltrim (c ∷ cs) chars ≡ c ∷ cs
  unfolding ltrim
  ltrim_stays c cs stays = ap (λ o. from_first o (c ∷ cs)) (first_stays c cs stays)

  ltrim_goes :
      (c : ℕ) (cs : List ℕ) → contains chars c ≡ true → ltrim (c ∷ cs) chars ≡ ltrim cs chars
  unfolding ltrim
  ltrim_goes c cs goes = elim (Option-cases (find_first_not_of chars cs)) [
    | inl nothing ↦
        ap (λ o. from_first o (c ∷ cs)) (first_nothing c cs goes nothing)
        ∙ sym (ap (λ o. from_first o cs) nothing)
    | inr (i, found) ↦
        ap (λ o. from_first o (c ∷ cs)) (first_found c i cs goes found)
        ∙ sym (ap (λ o. from_first o cs) found)
  ]

  ltrim_lem :
      (s : List ℕ)
      → (front : List ℕ) × (s ≡ front ++ ltrim s chars) × AllIn front × StartsWell (ltrim s chars)
  ltrim_lem [] =
      ([], unfold ltrim find_first_not_of in refl, tt, unfold ltrim find_first_not_of in tt)
  ltrim_lem (c ∷ cs) =
      let (front, parts, inside, start) = ltrim_lem cs in
      elim (Bool-cases (contains chars c)) [
        | inr stays ↦ rw (ltrim_stays c cs stays) ([], refl, tt, stays)
        | inl goes ↦ rw (ltrim_goes c cs goes) (c ∷ front, ap (◌∷◌ c) parts, (goes, inside), start)
      ]

  -- Where nothing stays, all is trimmed.
  AllIn-find_last_not_of : (s : List ℕ) → find_last_not_of chars s ≡ none → AllIn s
  unfolding find_last_not_of
  AllIn-find_last_not_of [] e = tt
  AllIn-find_last_not_of (c ∷ cs) e = elim (Option-cases (find_last_not_of chars cs)) [
    | inr (i, found) ↦ absurd (ground arith)
    | inl nothing ↦ (ground arith, AllIn-find_last_not_of cs nothing)
  ]

  last_found :
      (c i : ℕ) (cs : List ℕ)
      → find_last_not_of chars cs ≡ some i
      → find_last_not_of chars (c ∷ cs) ≡ some (suc i)
  unfolding find_last_not_of
  last_found c i cs found = ground arith

  rtrim_found :
      (c i : ℕ) (cs : List ℕ)
      → find_last_not_of chars cs ≡ some i
      → (rtrim (c ∷ cs) chars ≡ c ∷ take (suc i) cs) × (rtrim cs chars ≡ take (suc i) cs)
  unfolding rtrim
  rtrim_found c i cs found =
      (ap (λ o. to_last o (c ∷ cs)) (last_found c i cs found), ap (λ o. to_last o cs) found)

  last_nothing :
      (c : ℕ) (cs : List ℕ)
      → find_last_not_of chars cs ≡ none
      → find_last_not_of chars (c ∷ cs) ≡ (if contains chars c then none else some 0)
  unfolding find_last_not_of
  last_nothing c cs nothing = ground arith

  rtrim_nothing :
      (c : ℕ) (cs : List ℕ)
      → find_last_not_of chars cs ≡ none
      → rtrim (c ∷ cs) chars ≡ (if contains chars c then [] else c ∷ [])
  unfolding rtrim
  rtrim_nothing c cs nothing =
      ap (λ o. to_last o (c ∷ cs)) (last_nothing c cs nothing) ∙ kept (contains chars c)
    where
      kept : (b : Bool) → to_last (if b then none else some 0) (c ∷ cs) ≡ (if b then [] else c ∷ [])
      kept true = refl
      kept false = refl

  rtrim_lem :
      (s : List ℕ)
      → (back : List ℕ) × (s ≡ rtrim s chars ++ back) × AllIn back × EndsWell (rtrim s chars)
  rtrim_lem [] =
      ([], unfold rtrim find_last_not_of in refl, tt, unfold rtrim find_last_not_of in tt)
  rtrim_lem (c ∷ cs) = elim (Option-cases (find_last_not_of chars cs)) [
    | inr (i, found) ↦
        let (back, parts, inside, end) = rtrim_lem cs in
        let (longer_text, text) = rtrim_found c i cs found in
        rw longer_text
          (back, ap (◌∷◌ c) (rw text at parts), inside, longer i c cs found (rw text at end))
    | inl nothing ↦ elim (Bool-cases (contains chars c)) [
      | inl goes ↦
          rw (rtrim_nothing c cs nothing, goes)
            (c ∷ cs, refl, (goes, AllIn-find_last_not_of cs nothing), tt)
      | inr stays ↦
          rw (rtrim_nothing c cs nothing, stays)
            (cs, refl, AllIn-find_last_not_of cs nothing, stays)
    ]
  ]
    where
      longer :
          (i c : ℕ) (cs : List ℕ)
          → find_last_not_of chars cs ≡ some i
          → EndsWell (take (suc i) cs)
          → EndsWell (c ∷ take (suc i) cs)
      longer i c [] found end = absurd (unfold find_last_not_of in ground arith)
      longer i c (d ∷ ds) found end = end

  -- Trimming only takes characters of `chars` away, at both ends, and takes all of them that stand
  -- there: what is left is empty, or begins and ends with another character.
  pub trim_lem :
      (s : List ℕ)
      → (front back : List ℕ) × (s ≡ front ++ (trim s chars ++ back))
        × AllIn front
        × AllIn back
        × IsTrimmed (trim s chars)
  unfolding trim
  trim_lem s =
      let (back, parts, inside, end) = rtrim_lem s in
      let (front, parts', inside', start) = ltrim_lem (rtrim s chars) in
      (
        front,
        back,
        parts ∙ ap (λ x. x ++ back) parts' ∙ append_assoc front (trim s chars) back,
        inside',
        inside,
        both front (rtrim s chars) (trim s chars) parts' start end,
      )
    where
      both :
          (front whole rest : List ℕ)
          → whole ≡ front ++ rest
          → StartsWell rest
          → EndsWell whole
          → IsTrimmed rest
      both front whole [] e start end = tt
      both [] whole (c ∷ cs) e start end = (start, rw e at end)
      both (x ∷ front) whole (c ∷ cs) e start end =
          (start, ap (contains chars) (sym (last_of-append x front c cs)) ∙ (rw e at end))
