-- ===== src/Policy/Decision.antt =====
-- The evaluation of `src/entrypoint/policy/module.cpp` against what it is to decide.
use uh_core.Base.{
  Bool-cases, inl, inr, append-nil, Bool, true, false, ◌||◌, ◌≡◌, refl, ap, sym, ◌∙◌, if◌then◌else◌,
  Option, none, some, List, [], ◌∷◌, ◌++◌,
}
use uh_core.Base.Result.{Result, ok, throws, Failure}
use uh_core.Policy.Variables.{Text, Vars}
use uh_core.Policy.Check.{
  Policy, Effect, allow, deny, check, Loop, denied, ended, failed, check_policies, check_groups,
  caught, after, bucket_policies, check_bucket, verdict, module_check,
}

abbrev pub concat {ℓ} : {A : Type ℓ} → List (List A) → List A
concat [] = []
concat (xs ∷ xss) = xs ++ concat xss

or_assoc : (b c d : Bool) → (b || (c || d)) ≡ ((b || c) || d)
or_assoc true c d = refl
or_assoc false c d = refl

or_true : (b : Bool) → true ≡ (b || true)
or_true true = refl
or_true false = refl

or_false : (b : Bool) → b ≡ (b || false)
or_false true = refl
or_false false = refl

abbrev of_result {ℓ} : {A : Type ℓ} → Result (List A) → List A
of_result (ok xs) = xs
of_result (throws e) = []

module _ (vars : Vars) where
  abbrev is_deny : Result (Option Effect) → Bool
  is_deny (ok (some deny)) = true
  is_deny (ok (some allow)) = false
  is_deny (ok none) = false
  is_deny (throws e) = false

  abbrev is_allow : Result (Option Effect) → Bool
  is_allow (ok (some allow)) = true
  is_allow (ok (some deny)) = false
  is_allow (ok none) = false
  is_allow (throws e) = false

  abbrev pub denies : List Policy → Bool
  denies [] = false
  denies (p ∷ ps) = is_deny (check p vars) || denies ps

  abbrev pub allows : List Policy → Bool
  allows [] = false
  allows (p ∷ ps) = is_allow (check p vars) || allows ps

  -- A policy that denies decides; else one that allows; else nothing is allowed.
  abbrev pub decision : List Policy → Effect
  decision ps = if denies ps then deny else if allows ps then allow else deny

  abbrev Answers : Policy → Type 0
  Answers p = (answer : Option Effect) × (check p vars ≡ ok answer)

  abbrev pub AllAnswer : List Policy → Type 0
  AllAnswer [] = Unit {0}
  AllAnswer (p ∷ ps) = ((answer : Option Effect) × (check p vars ≡ ok answer)) × AllAnswer ps

  -- Nothing is left to evaluate, or the next policy throws.
  abbrev pub Stops : List Policy → Type 0
  Stops [] = Unit {0}
  Stops (p ∷ ps) = (e : Failure) × (check p vars ≡ throws e)

  denies-append : (ps qs : List Policy) → denies (ps ++ qs) ≡ (denies ps || denies qs)
  denies-append [] qs = refl
  denies-append (p ∷ ps) qs =
      rw (denies-append ps qs) (or_assoc (is_deny (check p vars)) (denies ps) (denies qs))

  allows-append : (ps qs : List Policy) → allows (ps ++ qs) ≡ (allows ps || allows qs)
  allows-append [] qs = refl
  allows-append (p ∷ ps) qs =
      rw (allows-append ps qs) (or_assoc (is_allow (check p vars)) (allows ps) (allows qs))

  -- What a loop comes to that answers for every policy.
  abbrev outcome : Bool → List Policy → Loop
  outcome has_allow ps = if denies ps then denied else ended (has_allow || allows ps)

  after_ext : (l : Loop) (f g : Bool → Loop) → ((b : Bool) → f b ≡ g b) → after l f ≡ after l g
  after_ext denied f g h = refl
  after_ext (ended b) f g h = h b
  after_ext (failed e b) f g h = refl

  check_policies-append :
      (b : Bool) (before rest : List Policy)
      → AllAnswer before
      → check_policies b (before ++ rest) vars
        ≡ after (outcome b before) (λ b'. check_policies b' rest vars)
  unfolding check_policies
  check_policies-append b [] rest a = ap (λ t. check_policies t rest vars) (or_false b)
  check_policies-append b (p ∷ before) rest ((none, e), a) =
      rw e (check_policies-append b before rest a)
  check_policies-append b (p ∷ before) rest ((some deny, e), a) = rw e refl
  check_policies-append b (p ∷ before) rest ((some allow, e), a) = rw e (
      check_policies-append true before rest a
      ∙ ap
          (λ t.
            after (if denies before then denied else ended t) (λ b'. check_policies b' rest vars))
          (or_true b))

  after-outcome :
      (b : Bool) (ps qs : List Policy)
      → after (outcome b ps) (λ b'. outcome b' qs) ≡ outcome b (ps ++ qs)
  after-outcome b ps qs =
      rw (denies-append ps qs, allows-append ps qs)
        (elim (Bool-cases (denies ps)) [
          | inl denying ↦ rw denying refl
          | inr silent ↦ rw silent (
              ap (λ t. if denies qs then denied else ended t)
                (sym (or_assoc b (allows ps) (allows qs))))
        ])

  after_ended : (b : Bool) (ps : List Policy) → after (outcome b ps) ended ≡ outcome b ps
  after_ended b ps = elim (Bool-cases (denies ps)) [
    | inl denying ↦ rw denying refl
    | inr silent ↦ rw silent refl
  ]

  check_policies-outcome :
      (b : Bool) (ps : List Policy) → AllAnswer ps → check_policies b ps vars ≡ outcome b ps
  check_policies-outcome b ps a =
      ap (λ t. check_policies b t vars) (sym (append-nil ps))
      ∙ check_policies-append b ps [] a
      ∙ unfold check_policies in after_ended b ps

  caught-check_policies :
      (b : Bool) (before rest : List Policy)
      → AllAnswer before
      → Stops rest
      → caught (check_policies b (before ++ rest) vars) ≡ outcome b before
  caught-check_policies b before rest a s =
      ap caught (check_policies-append b before rest a) ∙ elim (Bool-cases (denies before)) [
        | inl denying ↦ rw denying refl
        | inr silent ↦ rw silent (stopped (b || allows before) rest s)
      ]
    where
      stopped :
          (b : Bool) (rest : List Policy)
          → Stops rest
          → caught (check_policies b rest vars) ≡ ended b
      stopped b [] s = unfold check_policies in refl
      stopped b (p ∷ ps) (e, thrown) = unfold check_policies in rw thrown refl

  abbrev pub AllGroupsAnswer : List (List Policy) → Type 0
  AllGroupsAnswer [] = Unit {0}
  AllGroupsAnswer (ps ∷ groups) = AllAnswer ps × AllGroupsAnswer groups

  check_groups-outcome :
      (b : Bool) (groups : List (List Policy))
      → AllGroupsAnswer groups
      → check_groups b groups vars ≡ outcome b (concat groups)
  unfolding check_groups
  check_groups-outcome b [] a = ap ended (or_false b)
  check_groups-outcome b (ps ∷ groups) (a, as') =
      ap (λ l. after l (λ b'. check_groups b' groups vars)) (check_policies-outcome b ps a)
      ∙ after_ext (outcome b ps) (λ b'. check_groups b' groups vars)
          (λ b'. outcome b' (concat groups)) (λ b'. check_groups-outcome b' groups as')
      ∙ after-outcome b ps (concat groups)

module _ (get_bucket_policy : Text → Result (Option Text))
    (parse : Text → Result (List Policy)) where
  -- The policies of the bucket; none where they cannot be read.
  abbrev pub loaded : Text → List Policy
  loaded bucket = of_result (bucket_policies get_bucket_policy parse bucket)

  caught-check_bucket :
      (b : Bool) (bucket : Text) (vars : Vars)
      → caught (check_bucket get_bucket_policy parse b bucket vars)
        ≡ caught (check_policies b (loaded bucket) vars)
  caught-check_bucket b bucket vars =
      by_result (bucket_policies get_bucket_policy parse bucket) refl
    where
      by_result :
          (r : Result (List Policy))
          → bucket_policies get_bucket_policy parse bucket ≡ r
          → caught (check_bucket get_bucket_policy parse b bucket vars)
            ≡ caught (check_policies b (loaded bucket) vars)
      by_result (ok ps) e = rw (e, check_bucket) refl
      by_result (throws x) e = rw (e, check_bucket) (unfold check_policies in refl)

  -- Where no policy of the installation or of the user throws, and `before` are the policies of the
  -- bucket before the first that throws (all where none does, and none where they cannot be read),
  -- the request is denied if one of these policies denies it, else allowed if one allows it, else
  -- denied. What is behind the policy that throws counts for nothing.
  pub module_check-decision :
      (globals before rest : List Policy) (bucket : Text) (users : List (List Policy)) (vars : Vars)
      → AllAnswer vars globals
      → loaded bucket ≡ before ++ rest
      → AllAnswer vars before
      → Stops vars rest
      → AllGroupsAnswer vars users
      → module_check get_bucket_policy parse globals bucket users vars
        ≡ ok (decision vars (globals ++ (before ++ concat users)))
  unfolding module_check
  module_check-decision globals before rest bucket users vars ga split ba stops ua =
      ap
        (λ l. verdict (
          after l (λ b.
            after (caught (check_bucket get_bucket_policy parse b bucket vars))
              (λ b'. check_groups b' users vars))))
        (check_policies-outcome vars false globals ga)
      ∙ ap (verdict) (after_ext vars (outcome vars false globals) _ _ behind)
      ∙ ap (verdict) (after-outcome vars false globals (before ++ concat users))
      ∙ decided (globals ++ (before ++ concat users))
    where
      behind :
          (b : Bool)
          → after
              (caught (check_bucket get_bucket_policy parse b bucket vars))
              (λ b'. check_groups b' users vars)
            ≡ outcome vars b (before ++ concat users)
      behind b =
          ap (λ l. after l (λ b'. check_groups b' users vars))
            (caught-check_bucket b bucket vars
              ∙ ap (λ ps. caught (check_policies b ps vars)) split
              ∙ caught-check_policies vars b before rest ba stops)
          ∙ after_ext vars (outcome vars b before) (λ b'. check_groups b' users vars)
              (λ b'. outcome vars b' (concat users)) (λ b'. check_groups-outcome vars b' users ua)
          ∙ after-outcome vars b before (concat users)

      decided : (ps : List Policy) → verdict (outcome vars false ps) ≡ ok (decision vars ps)
      decided ps = elim (Bool-cases (denies vars ps)) [
        | inl denying ↦ rw denying refl
        | inr silent ↦ rw silent refl
      ]
