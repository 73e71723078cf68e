-- ===== src/Storage/RefCounter/Increment.antt =====
-- `increment` of `src/storage/reference_counter.cpp`: the counters afterwards, and the entries
-- that are reported back.
use uh_core.Base.{
  ℕ, ◌+◌, ◌%◌, ◌<◌, ◌≡◌, refl, ap, ◌∙◌, Bool, true, false, inl, inr, none, some, List, [], ◌∷◌,
  arith, ◌==◌, if◌then◌else◌, Bool-cases, Option-cases, word, add64, add64-lt, add64_fold,
}
use uh_core.Storage.Kv.{KvStore}
use uh_core.Storage.RefCounter.{Refcount, current_value, increment_one, increment}

-- The sum of the counts that a list holds for one stripe, and whether it names that stripe.
abbrev pub counted : ℕ → List Refcount → ℕ
counted j [] = 0
counted j (r ∷ rs) = (if r.stripe_id == j then r.count else 0) + counted j rs

abbrev pub names : ℕ → List Refcount → Bool
names j [] = false
names j (r ∷ rs) = if r.stripe_id == j then true else names j rs

pub counted_unnamed : (j : ℕ) (rs : List Refcount) → names j rs ≡ false → counted j rs ≡ 0
counted_unnamed j [] h = refl
counted_unnamed j (r ∷ rs) h = ground (arith, counted_unnamed j rs)

module _ (kv : KvStore) where
  open kv use {Store, get, put, del, get-put, get-del}

  -- The entries whose stripe the store does not track.
  abbrev pub untracked : Store → List Refcount → List Refcount
  untracked s [] = []
  untracked s (r ∷ rs) = elim (get s r.stripe_id) [
    | none ↦ r ∷ untracked s rs
    | some v ↦ untracked s rs
  ]

  increment_one_upstream_tracked :
      (s : Store) (id count j v : ℕ)
      → get s j ≡ some v
      → get (increment_one kv s id count true).0 j ≡ some (if id == j then add64 v count else v)
  unfolding increment_one
  increment_one_upstream_tracked s id count j v e = elim (Option-cases (get s id)) [
    | inl f ↦ ground (arith)
    | inr (w, f) ↦ ground (arith, get-put s id (add64 w count) j)
  ]

  increment_one_upstream_untracked :
      (s : Store) (id count j : ℕ)
      → get s j ≡ none
      → get (increment_one kv s id count true).0 j ≡ none
  unfolding increment_one
  increment_one_upstream_untracked s id count j e = elim (Option-cases (get s id)) [
    | inl f ↦ ground (arith)
    | inr (w, f) ↦ ground (arith, get-put s id (add64 w count) j)
  ]

  increment_one_local :
      (s : Store) (id count j : ℕ)
      → get (increment_one kv s id count false).0 j
        ≡ (if id == j then some (add64 (current_value (get s j)) count) else get s j)
  unfolding increment_one
  increment_one_local s id count j = elim (Option-cases (get s id)) [
    | inl f ↦ ground (arith, get-put s id (add64 0 count) j)
    | inr (w, f) ↦ ground (arith, get-put s id (add64 w count) j)
  ]

  tracked_raised :
      (s : Store) (rs : List Refcount) (j v : ℕ)
      → get s j ≡ some v
      → v < word
      → get (increment kv s rs true).0 j ≡ some ((v + counted j rs) % word)
  unfolding increment
  tracked_raised s [] j v e small = rw e (ap some (omega arith))
  tracked_raised s (r ∷ rs) j v e small =
      let t = (increment_one kv s r.stripe_id r.count true).0 in
      let first = increment_one_upstream_tracked s r.stripe_id r.count j v e in
      elim (Bool-cases (r.stripe_id == j)) [
        | inl same ↦
            tracked_raised t rs j (add64 v r.count) (rw same at first) (add64-lt v r.count)
            ∙ rw same (ap some (add64_fold v r.count (counted j rs)))
        | inr other ↦
            tracked_raised t rs j v (rw other at first) small ∙ rw other (ap some (omega arith))
      ]

  untracked_stays :
      (s : Store) (rs : List Refcount) (j : ℕ)
      → get s j ≡ none
      → get (increment kv s rs true).0 j ≡ none
  unfolding increment
  untracked_stays s [] j e = e
  untracked_stays s (r ∷ rs) j e =
      untracked_stays (increment_one kv s r.stripe_id r.count true).0 rs j
        (increment_one_upstream_untracked s r.stripe_id r.count j e)

  untracked_after :
      (s : Store) (id count : ℕ) (rs : List Refcount)
      → untracked (increment_one kv s id count true).0 rs ≡ untracked s rs
  untracked_after s id count [] = refl
  untracked_after s id count (r ∷ rs) = elim (Option-cases (get s r.stripe_id)) [
    | inl e ↦ ground (
      arith,
      increment_one_upstream_untracked s id count r.stripe_id e,
      untracked_after s id count rs,
    )
    | inr (v, e) ↦ ground (
      arith,
      increment_one_upstream_tracked s id count r.stripe_id v e,
      untracked_after s id count rs,
    )
  ]

  reported : (s : Store) (rs : List Refcount) → (increment kv s rs true).1 ≡ untracked s rs
  unfolding increment
  reported s [] = refl
  reported s (r ∷ rs) =
      let t = (increment_one kv s r.stripe_id r.count true).0 in
      let later = reported t rs ∙ untracked_after s r.stripe_id r.count rs in
      rw later (unfold increment_one in ground arith)

  -- For an upstream caller, `increment` adds the counts of every tracked stripe (modulo 2^64),
  -- leaves an untracked stripe untracked, and reports exactly the entries whose stripe was
  -- untracked, in their order.
  pub increment_upstream :
      (s : Store) (rs : List Refcount)
      → ((j v : ℕ)
          → get s j ≡ some v
          → v < word
          → get (increment kv s rs true).0 j ≡ some ((v + counted j rs) % word))
        × ((j : ℕ) → get s j ≡ none → get (increment kv s rs true).0 j ≡ none)
        × ((increment kv s rs true).1 ≡ untracked s rs)
  increment_upstream s rs =
      (λ j v e small. tracked_raised s rs j v e small, untracked_stays s rs, reported s rs)

  -- For a local caller, `increment` starts to track what it did not track: afterwards every stripe
  -- that the list names holds its old count, 0 if there was none, plus the counts of the list
  -- (modulo 2^64), and every other stripe is as before. Counters are 64-bit words.
  pub increment_local :
      (s : Store) (rs : List Refcount) (j : ℕ)
      → current_value (get s j) < word
      → get (increment kv s rs false).0 j
        ≡ (if names j rs then some ((current_value (get s j) + counted j rs) % word) else get s j)
  unfolding increment
  increment_local s [] j small = refl
  increment_local s (r ∷ rs) j small =
      let v = current_value (get s j) in
      let one = increment_one kv s r.stripe_id r.count false in
      let first = increment_one_local s r.stripe_id r.count j in
      elim (Bool-cases (r.stripe_id == j)) [
        | inl same ↦
            let now : get one.0 j ≡ some (add64 v r.count) = rw same at first in
            let ih = increment_local one.0 rs j (rw now (add64-lt v r.count)) in
            let sum = add64_fold v r.count (counted j rs) in
            rw same (elim (Bool-cases (names j rs)) [
              | inl again ↦ rw (again, now) at ih ∙ ap some sum
              | inr once ↦
                  let all : add64 v r.count ≡ (v + (r.count + counted j rs)) % word =
                    omega (arith, sum, add64-lt v r.count, counted_unnamed j rs once) in
                  rw (once, now) at ih ∙ ap some all
            ])
        | inr other ↦
            let now : get one.0 j ≡ get s j = rw other at first in
            increment_local one.0 rs j (rw now small) ∙ ground arith
      ]
