-- ===== src/Storage/Tests.antt =====
-- Reference counters of `src/storage/reference_counter.cpp` on concrete values.
use uh_core.Base.{
  ℕ, ◌+◌, ◌%◌, ◌<◌, ◌≡◌, refl, true, false, none, some, List, [], ◌∷◌, arith, ◌==◌, leb,
  if◌then◌else◌, word, add64, sub64,
}
use uh_core.Base.Result.{Result, ok, throws, runtime_error}
use uh_core.Storage.Kv.{map_store}
use uh_core.Storage.RefCounter.{Refcount, current_value, increment, decrement, free_stripes}
use uh_core.Storage.RefCounter.Increment.{
  counted, names, untracked, increment_upstream, increment_local,
}
use uh_core.Storage.RefCounter.DecrementLoop.{AllWords, IsCovered, lowered, mem}
use uh_core.Storage.RefCounter.Decrement.{
  decrement_rolls_back, decrement_commits, decrement-increment,
}
use uh_core.Storage.RefCounter.Free.{
  ByteRange, range_bytes, stripe_bytes, free_all, free_stripes_ranges,
}

-- Stripe 3 with five references.
abbrev store : map_store.Store
store = λ k. if 3 == k then some 5 else none

-- The callback records the ranges and frees all of them.
abbrev record_range : List ByteRange → ℕ → ℕ → List ByteRange × Result ℕ
record_range log offset size = (record { offset = offset; size = size } ∷ log, ok size)

abbrev two_of_three : List Refcount
two_of_three = record { stripe_id = 3; count = 2 } ∷ []

abbrev with_untracked : List Refcount
with_untracked = record { stripe_id = 3; count = 2 } ∷ record { stripe_id = 4; count = 1 } ∷ []

store-AllWords : AllWords map_store store
store-AllWords k v e = ground arith

two_of_three-IsCovered : IsCovered map_store store two_of_three
two_of_three-IsCovered j named = (5, ground arith, ground arith)

-- Dropping the last references of stripes 3 and 4 frees both by one call.
frees_once :
    free_stripes record_range 10 [] (3 ∷ 4 ∷ 7 ∷ [])
    ≡ (record { offset = 70; size = 10 } ∷ record { offset = 30; size = 20 } ∷ [], ok 30)
unfolding free_stripes add64 sub64
frees_once = refl

increment_upstream_example :
    ((j v : ℕ)
      → map_store.get store j ≡ some v
      → v < word
      → map_store.get (increment map_store store with_untracked true).0 j
        ≡ some ((v + counted j with_untracked) % word))
    × ((j : ℕ)
        → map_store.get store j ≡ none
        → map_store.get (increment map_store store with_untracked true).0 j ≡ none)
    × ((increment map_store store with_untracked true).1 ≡ untracked map_store store with_untracked)
increment_upstream_example = increment_upstream map_store store with_untracked

increment_local_example : map_store.get (increment map_store store with_untracked false).0 4 ≡ (
    if names 4 with_untracked
    then some ((current_value (map_store.get store 4) + counted 4 with_untracked) % word)
    else map_store.get store 4)
increment_local_example = increment_local map_store store with_untracked 4 (omega arith)

decrement_rolls_back_example :
    decrement record_range 10 map_store store [] with_untracked ≡ (store, [], throws runtime_error)
decrement_rolls_back_example =
    decrement_rolls_back record_range 10 map_store store [] with_untracked 4 store-AllWords refl
      refl

decrement_commits_example :
    ((j v : ℕ)
      → map_store.get store j ≡ some v
      → 0 < v
      → map_store.get (decrement record_range 10 map_store store [] two_of_three).0 j
        ≡ lowered v (counted j two_of_three))
    × ((j : ℕ)
        → map_store.get store j ≡ none
        → map_store.get (decrement record_range 10 map_store store [] two_of_three).0 j ≡ none)
    × (freed : List ℕ) × ((decrement record_range 10 map_store store [] two_of_three).1
        ≡ (free_stripes record_range 10 [] freed).0)
    × ((decrement record_range 10 map_store store [] two_of_three).2
        ≡ (free_stripes record_range 10 [] freed).1)
    × ((j v : ℕ)
        → map_store.get store j ≡ some v
        → 0 < v
        → mem j freed ≡ leb v (counted j two_of_three))
    × ((j : ℕ) → map_store.get store j ≡ none → mem j freed ≡ false)
decrement_commits_example =
    decrement_commits record_range 10 map_store store [] two_of_three store-AllWords
      (omega arith, tt) two_of_three-IsCovered

decrement-increment_example :
    map_store.get
      (decrement record_range 10 map_store
        (increment map_store store two_of_three false).0
        []
        two_of_three).0
      3
    ≡ map_store.get store 3
decrement-increment_example =
    decrement-increment record_range 10 map_store store two_of_three store-AllWords
      (omega arith, tt) (λ j. ground arith) [] 3 (λ v e. ground arith)

free_stripes_ranges_example :
    (calls : List ByteRange) × ((d : List ByteRange)
      → free_stripes record_range 10 d (3 ∷ 4 ∷ 7 ∷ []) ≡ free_all record_range d 0 calls)
    × (range_bytes calls ≡ stripe_bytes 10 (3 ∷ 4 ∷ 7 ∷ []))
free_stripes_ranges_example =
    free_stripes_ranges record_range 10 (3 ∷ 4 ∷ 7 ∷ [])
      (omega arith, omega arith, (omega arith, omega arith, (omega arith, omega arith, tt)))
