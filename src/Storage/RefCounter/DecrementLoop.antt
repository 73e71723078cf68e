-- ===== src/Storage/RefCounter/DecrementLoop.antt =====
-- The loop of `decrement` in `src/storage/reference_counter.cpp`.
use uh_core.Base.{
  ℕ, ◌+◌, ◌-◌, ◌≤◌, ◌<◌, ◌≡◌, refl, ◌∙◌, Bool, true, false, inl, inr, Option, none, some, List, [],
  ◌∷◌, arith, leb, ◌==◌, ==_iff, if◌then◌else◌, Bool-cases, Option-cases, word, sub64_exact,
}
use uh_core.Base.Result.{ok, throws, runtime_error, >>=-eq-ok}
use uh_core.Storage.Kv.{KvStore}
use uh_core.Storage.RefCounter.{Refcount, decrement_one, decrement_loop}
use uh_core.Storage.RefCounter.Increment.{counted, names}

-- What is left of a counter `v` after `c` references are gone.
abbrev pub lowered : ℕ → ℕ → Option ℕ
lowered v c = if leb v c then none else some (v - c)

abbrev pub mem : ℕ → List ℕ → Bool
mem j [] = false
mem j (k ∷ ks) = if k == j then true else mem j ks

abbrev pub AllPositive : List Refcount → Type 0
AllPositive [] = Unit {0}
AllPositive (r ∷ rs) = (0 < r.count) × AllPositive rs

pub counted_pos :
    (j : ℕ) (rs : List Refcount) → names j rs ≡ true → AllPositive rs → 0 < counted j rs
counted_pos j [] n pos = cc
counted_pos j (r ∷ rs) n pos = elim (Bool-cases (r.stripe_id == j)) [
  | inl same ↦ rw same (omega (arith, pos.0))
  | inr other ↦ rw other (omega (arith, counted_pos j rs (rw other at n) pos.1))
]

module _ (kv : KvStore) where
  open kv use {Store, get, put, del, get-put, get-del}

  -- One step, on a tracked stripe.
  decrement_one_tracked :
      (s : Store) (id count v : ℕ)
      → get s id ≡ some v
      → v < word
      → (t : Store) × (decrement_one kv s id count ≡ ok (t, leb v count))
        × ((j : ℕ) → get t j ≡ (if id == j then lowered v count else get s j))
  unfolding decrement_one
  decrement_one_tracked s id count v e small = elim (Bool-cases (leb v count)) [
    | inl gone ↦ (del s id, rw (e, decrement_one, gone), λ j. rw gone (get-del s id j))
    | inr kept ↦ (
      put s id (v - count),
      rw (e, decrement_one, kept, sub64_exact v count (ground arith) small),
      λ j. rw kept (get-put s id (v - count) j),
    )
  ]

  -- Every counter of the store is a 64-bit word.
  abbrev pub AllWords : Store → Type 0
  AllWords s = (k v : ℕ) → get s k ≡ some v → v < word

  -- A step keeps the counters words.
  step_words :
      (s t : Store) (id count v : ℕ)
      → ((j : ℕ) → get t j ≡ (if id == j then lowered v count else get s j))
      → v < word
      → AllWords s
      → AllWords t
  step_words s t id count v after small words k w e = ground (arith, after k, words k w)

  -- Where the list names an untracked stripe, `decrement` throws, and the whole transaction is
  -- rolled back: the store is as before, and no storage is freed.
  pub loop_throws :
      (s : Store) (rs : List Refcount) (j : ℕ)
      → names j rs ≡ true
      → get s j ≡ none
      → AllWords s
      → decrement_loop kv s rs ≡ throws runtime_error
  unfolding decrement_loop decrement_one
  loop_throws s [] j n e words = cc
  loop_throws s (r ∷ rs) j n e words = elim (Option-cases (get s r.stripe_id)) [
    | inl u ↦ rw (u, decrement_one)
    | inr (v, t) ↦
        let (s', stepped, after) = decrement_one_tracked s r.stripe_id r.count v t (words _ _ t) in
        let other : (r.stripe_id == j) ≡ false = ground (arith) in
        rw (
          stepped,
          loop_throws s' rs j (rw other at n) (rw (after j, other) e)
              (step_words s s' r.stripe_id r.count v after (words _ _ t) words),
        )
  ]

  -- What a successful loop has done in its first round.
  record FirstRound (s t : Store) (r : Refcount) (rs : List Refcount) (freed : List ℕ)
      : Type 0 where
    value : ℕ
    next : Store
    rest : List ℕ
    tracked : get s r.stripe_id ≡ some value
    after : (j : ℕ) → get next j ≡ (if r.stripe_id == j then lowered value r.count else get s j)
    words : AllWords next
    later : decrement_loop kv next rs ≡ ok (t, rest)
    listed : freed ≡ (if leb value r.count then r.stripe_id ∷ rest else rest)

  first_round :
      (s t : Store) (r : Refcount) (rs : List Refcount) (freed : List ℕ)
      → decrement_loop kv s (r ∷ rs) ≡ ok (t, freed)
      → AllWords s
      → FirstRound s t r rs freed
  unfolding decrement_loop decrement_one
  first_round s t r rs freed done words = elim (Option-cases (get s r.stripe_id)) [
    | inl u ↦ absurd (ground arith)
    | inr (v, e) ↦
        let (n, stepped, after) = decrement_one_tracked s r.stripe_id r.count v e (words _ _ e) in
        let (rest, (later, end)) = >>=-eq-ok (decrement_loop kv n rs) _ (rw stepped at done) in
        record {
          value = v;
          next = n;
          rest = rest.1;
          tracked = e;
          after = after;
          words = step_words s n r.stripe_id r.count v after (words _ _ e) words;
          later = later ∙ ground arith;
          listed = ground arith;
        }
  ]

  -- A successful loop names no untracked stripe, and tracks no new one.
  pub loop_untracked :
      (s t : Store) (rs : List Refcount) (freed : List ℕ) (j : ℕ)
      → decrement_loop kv s rs ≡ ok (t, freed)
      → AllWords s
      → get s j ≡ none
      → (names j rs ≡ false) × (get t j ≡ none) × (mem j freed ≡ false)
  loop_untracked s t [] freed j done words e = unfold decrement_loop in ground arith
  loop_untracked s t (r ∷ rs) freed j done words e =
      let f = first_round s t r rs freed done words in
      let other : (r.stripe_id == j) ≡ false = ground (arith, f.tracked) in
      let gone : get f.next j ≡ none = rw (f.after j, other) e in
      ground (arith, other, f.listed, loop_untracked f.next t rs f.rest j f.later f.words gone)

  -- What a successful loop leaves of a tracked stripe, and whether it is among those to free.
  pub loop_tracked :
      (s t : Store) (rs : List Refcount) (freed : List ℕ) (j v : ℕ)
      → decrement_loop kv s rs ≡ ok (t, freed)
      → AllWords s
      → get s j ≡ some v
      → 0 < v
      → (get t j ≡ lowered v (counted j rs)) × (mem j freed ≡ leb v (counted j rs))
  loop_tracked s t [] freed j v done words e pos = unfold decrement_loop in ground arith
  loop_tracked s t (r ∷ rs) freed j v done words e pos =
      let f = first_round s t r rs freed done words in
      elim (Bool-cases (r.stripe_id == j)) [
        | inl same ↦
            let id : r.stripe_id ≡ j = (==_iff r.stripe_id j).0 same in
            let value : f.value ≡ v = ground (arith, f.tracked) in
            let now : get f.next j ≡ lowered v r.count = rw (f.after j, same, value) in
            elim (Bool-cases (leb v r.count)) [
              | inl gone ↦
                  let none_left : get f.next j ≡ none = rw gone at now in
                  let ih = loop_untracked f.next t rs f.rest j f.later f.words none_left in
                  rw same (ground (arith, f.listed))
              | inr some_left ↦
                  let kept : get f.next j ≡ some (v - r.count) = rw some_left at now in
                  let ih =
                    loop_tracked f.next t rs f.rest j (v - r.count) f.later f.words kept
                      (ground arith) in
                  rw same (ground (arith, f.listed))
            ]
        | inr other ↦
            let kept : get f.next j ≡ some v = rw (f.after j, other) e in
            ground (arith, f.listed, loop_tracked f.next t rs f.rest j v f.later f.words kept pos)
      ]

  -- Every stripe that the list names is tracked, with at least the references to drop.
  abbrev pub IsCovered : Store → List Refcount → Type 0
  IsCovered s rs = (j : ℕ) → names j rs ≡ true → (v : ℕ) × (get s j ≡ some v) × (counted j rs ≤ v)

  step-IsCovered :
      (s n : Store) (r : Refcount) (rs : List Refcount) (v : ℕ)
      → AllPositive rs
      → ((j : ℕ) → get n j ≡ (if r.stripe_id == j then lowered v r.count else get s j))
      → get s r.stripe_id ≡ some v
      → IsCovered s (r ∷ rs)
      → IsCovered n rs
  step-IsCovered s n r rs v pos after e covered j named = elim (Bool-cases (r.stripe_id == j)) [
    | inl same ↦
        let (w, f, enough) = covered j (rw same) in
        let id : r.stripe_id ≡ j = (==_iff r.stripe_id j).0 same in
        let value : w ≡ v = ground (arith, f, e) in
        let most : r.count + counted j rs ≤ v = rw (same, value) at enough in
        let some_more = counted_pos j rs named pos in
        (v - r.count, ground (arith, after j), omega arith)
    | inr other ↦
        let (w, f, enough) = covered j (rw other named) in
        let less : 0 + counted j rs ≤ w = rw other at enough in
        (w, rw (after j, other) f, omega arith)
  ]

  pub loop_succeeds :
      (s : Store) (rs : List Refcount)
      → AllWords s
      → AllPositive rs
      → IsCovered s rs
      → (t : Store) × (freed : List ℕ) × (decrement_loop kv s rs ≡ ok (t, freed))
  unfolding decrement_loop
  loop_succeeds s [] words pos covered = (s, [], refl)
  loop_succeeds s (r ∷ rs) words pos covered =
      let (v, e, enough) = covered r.stripe_id (ground arith) in
      let (n, stepped, after) = decrement_one_tracked s r.stripe_id r.count v e (words _ _ e) in
      let (t, freed, rest) =
        loop_succeeds n rs (step_words s n r.stripe_id r.count v after (words _ _ e) words) pos.1
          (step-IsCovered s n r rs v pos.1 after e covered) in
      (t, if leb v r.count then r.stripe_id ∷ freed else freed, rw (stepped, rest))
