-- ===== src/Storage/RefCounter/Decrement.antt =====
-- `decrement` of `src/storage/reference_counter.cpp`: the transaction, its commit and its
-- rollback.
use uh_core.Base.{
  ℕ, ◌+◌, ◌<◌, ◌≡◌, refl, ap, ◌∙◌, true, false, inl, inr, none, some, List, arith, leb,
  if◌then◌else◌, Bool-cases, Option-cases, word,
}
use uh_core.Base.Result.{Result, throws, runtime_error}
use uh_core.Storage.Kv.{KvStore}
use uh_core.Storage.RefCounter.{Refcount, current_value, increment, decrement, free_stripes}
use uh_core.Storage.RefCounter.Increment.{counted, names, counted_unnamed, increment_local}
use uh_core.Storage.RefCounter.DecrementLoop.{
  lowered, mem, AllPositive, counted_pos, AllWords, loop_throws, loop_tracked, loop_untracked,
  IsCovered, loop_succeeds,
}

module _ {D : Type 0} (cb : D → ℕ → ℕ → D × Result ℕ) (stripe_size : ℕ) (kv : KvStore) where
  -- Where the list names a stripe that the store does not track, `decrement` throws and rolls
  -- the whole transaction back: the store is as before, and nothing is freed.
  pub decrement_rolls_back :
      (s : kv.Store) (d : D) (rs : List Refcount) (j : ℕ)
      → AllWords kv s
      → names j rs ≡ true
      → kv.get s j ≡ none
      → decrement cb stripe_size kv s d rs ≡ (s, d, throws runtime_error)
  unfolding decrement
  decrement_rolls_back s d rs j words named untracked =
      rw (loop_throws kv s rs j named untracked words, decrement)

  -- Where every stripe of the list is tracked with at least the references to drop, and all counts
  -- are positive, `decrement` commits: a counter that keeps references holds the difference, one
  -- that reaches zero is no longer tracked, and no other counter changes. The outcome is that of
  -- `free_stripes` on a list of stripes that holds exactly the named ones that reached zero.
  pub decrement_commits :
      (s : kv.Store) (d : D) (rs : List Refcount)
      → AllWords kv s
      → AllPositive rs
      → IsCovered kv s rs
      → ((j v : ℕ)
          → kv.get s j ≡ some v
          → 0 < v
          → kv.get (decrement cb stripe_size kv s d rs).0 j ≡ lowered v (counted j rs))
        × ((j : ℕ) → kv.get s j ≡ none → kv.get (decrement cb stripe_size kv s d rs).0 j ≡ none)
        × (freed : List ℕ) × ((decrement cb stripe_size kv s d rs).1
            ≡ (free_stripes cb stripe_size d freed).0)
        × ((decrement cb stripe_size kv s d rs).2 ≡ (free_stripes cb stripe_size d freed).1)
        × ((j v : ℕ) → kv.get s j ≡ some v → 0 < v → mem j freed ≡ leb v (counted j rs))
        × ((j : ℕ) → kv.get s j ≡ none → mem j freed ≡ false)
  unfolding decrement
  decrement_commits s d rs words pos covered =
      let (t, freed, done) = loop_succeeds kv s rs words pos covered in
      rw (done, decrement)
        (
          λ j v e p. (loop_tracked kv s t rs freed j v done words e p).0,
          λ j e. (loop_untracked kv s t rs freed j done words e).1,
          freed,
          refl,
          refl,
          λ j v e p. (loop_tracked kv s t rs freed j v done words e p).1,
          λ j e. (loop_untracked kv s t rs freed j done words e).2,
        )

  -- The counters after `increment`, where no counter overflows.
  module _ (s : kv.Store) (rs : List Refcount) (words : AllWords kv s) (pos : AllPositive rs)
      (room : (j : ℕ) → current_value (kv.get s j) + counted j rs < word) where
    incremented :
        (j : ℕ)
        → kv.get (increment kv s rs false).0 j
          ≡ (if names j rs then some (current_value (kv.get s j) + counted j rs) else kv.get s j)
    incremented j =
        increment_local kv s rs j (omega (arith, room j))
        ∙ ap (λ k. if names j rs then some k else kv.get s j) (omega (arith, room j))

    incremented_words : AllWords kv (increment kv s rs false).0
    incremented_words j v e = elim (Bool-cases (names j rs)) [
      | inl named ↦ let now = rw named at (incremented j) in ground (arith, room j)
      | inr unnamed ↦ let now = rw unnamed at (incremented j) in ground (arith, words j v)
    ]

    incremented-IsCovered : IsCovered kv (increment kv s rs false).0 rs
    incremented-IsCovered j named =
        (current_value (kv.get s j) + counted j rs, rw named at (incremented j), omega arith)

    -- A local `increment` followed by a `decrement` of the same list gives every counter back its
    -- old value, and untracks what was untracked: for positive counts, where no counter overflows
    -- and every tracked counter is positive.
    pub decrement-increment :
        (d : D) (j : ℕ)
        → ((v : ℕ) → kv.get s j ≡ some v → 0 < v)
        → kv.get (decrement cb stripe_size kv (increment kv s rs false).0 d rs).0 j ≡ kv.get s j
    decrement-increment d j alive =
        let t = (increment kv s rs false).0 in
        let committed = decrement_commits t d rs incremented_words pos incremented-IsCovered in
        elim (Bool-cases (names j rs)) [
          | inl named ↦
              let now = rw named at (incremented j) in
              let some_count = counted_pos j rs named pos in
              let back = committed.0 j _ now (omega arith) in
              back ∙ elim (Option-cases (kv.get s j)) [
                | inl untracked ↦ ground arith
                | inr (v, tracked) ↦ ground (arith, alive v tracked)
              ]
          | inr unnamed ↦
              let now = rw unnamed at (incremented j) in
              let nothing = counted_unnamed j rs unnamed in
              elim (Option-cases (kv.get s j)) [
                | inl untracked ↦ committed.1 j (now ∙ untracked) ∙ ground arith
                | inr (v, tracked) ↦
                    committed.0 j v (now ∙ tracked) (alive v tracked)
                    ∙ ground (arith, alive v tracked)
              ]
        ]
