-- ===== src/Policy/Check.antt =====
-- `src/entrypoint/policy/policy.cpp` and `module.cpp`: the evaluation of the policies for a request.
use uh_core.Base.{Bool, true, false, if◌then◌else◌, Option, none, some, List, [], ◌∷◌}
use uh_core.Base.Result.{Result, ok, throws, Failure, ◌>>=◌}
use uh_core.Policy.Variables.{Text, Vars}
use uh_core.Policy.Matchers.{Matcher}

pub data Effect : Type 0 where
  allow deny : Effect

pub record Policy : Type 0 where
  pub id : Text
  pub matchers : List Matcher
  pub effect : Effect

-- The loop of `policy::check`.
unfoldable pub check_matchers : List Matcher → Effect → Vars → Result (Option Effect)
check_matchers [] effect vars = ok (some effect)
check_matchers (m ∷ ms) effect vars =
    let rest = check_matchers ms effect vars in m vars >>= λ b. if b then rest else ok none

unfoldable pub check : Policy → Vars → Result (Option Effect)
unfolding check_matchers
check p vars = check_matchers p.matchers p.effect vars

-- How a loop over policies ends: with `co_return deny`, or with the value of `has_allow`, at its end
-- or where an exception leaves it.
pub data Loop : Type 0 where
  denied : Loop
  ended : Bool → Loop
  failed : Failure → Bool → Loop

-- The body of such a loop, for the answer of one policy: `next` is the rest of the loop.
abbrev pub by_answer : Result (Option Effect) → Bool → (Bool → Loop) → Loop
by_answer (throws e) has_allow next = failed e has_allow
by_answer (ok none) has_allow next = next has_allow
by_answer (ok (some deny)) has_allow next = denied
by_answer (ok (some allow)) has_allow next = next true

unfoldable pub check_policies : Bool → List Policy → Vars → Loop
unfolding check
check_policies has_allow [] vars = ended has_allow
check_policies has_allow (p ∷ ps) vars =
    by_answer (check p vars) has_allow (λ b. check_policies b ps vars)

-- `catch (const std::exception&)`, which goes on with what `has_allow` is then.
abbrev pub caught : Loop → Loop
caught (failed e has_allow) = ended has_allow
caught denied = denied
caught (ended has_allow) = ended has_allow

-- Goes on unless the loop returned or threw.
abbrev pub after : Loop → (Bool → Loop) → Loop
after (ended has_allow) next = next has_allow
after denied next = denied
after (failed e has_allow) next = failed e has_allow

-- The policies of the user: a list for each name.
unfoldable pub check_groups : Bool → List (List Policy) → Vars → Loop
unfolding check_policies
check_groups has_allow [] vars = ended has_allow
check_groups has_allow (ps ∷ groups) vars =
    after (check_policies has_allow ps vars) (λ b. check_groups b groups vars)

-- What the whole evaluation returns.
abbrev pub verdict : Loop → Result Effect
verdict denied = ok deny
verdict (ended has_allow) = ok (if has_allow then allow else deny)
verdict (failed e has_allow) = throws e

module _ (get_bucket_policy : Text → Result (Option Text))
    (parse : Text → Result (List Policy)) where
  -- The block in `try`, without the evaluation.
  abbrev pub bucket_policies : Text → Result (List Policy)
  bucket_policies [] = ok []
  bucket_policies (c ∷ cs) =
      get_bucket_policy (c ∷ cs) >>= λ found. elim found [ none ↦ ok [] | some text ↦ parse text ]

  abbrev pub check_bucket : Bool → Text → Vars → Loop
  check_bucket has_allow bucket vars = elim (bucket_policies bucket) [
    | throws e ↦ failed e has_allow
    | ok ps ↦ check_policies has_allow ps vars
  ]

  unfoldable pub module_check : List Policy → Text → List (List Policy) → Vars → Result Effect
  unfolding check_policies check_groups
  module_check globals bucket users vars = verdict (
      after (check_policies false globals vars)
        (λ b. after (caught (check_bucket b bucket vars)) (λ b'. check_groups b' users vars)))
