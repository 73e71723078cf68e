-- ===== src/Storage/RefCounter.antt =====
-- `src/storage/reference_counter.cpp`: counters of the pages that stored data refers to, kept in
-- a transactional store. `txn` and `dbi` are the store, which is passed on; the callback that frees
-- a byte range is a parameter with a state of its own.
pub mod Increment
pub mod DecrementLoop
pub mod Decrement
pub mod Free
use uh_core.Base.{
  ℕ, ◌+◌, ◌-◌, ◌*◌, ◌%◌, Bool, true, false, ◌&&◌, Option, none, some, List, [], ◌∷◌, leb, ◌==◌,
  if◌then◌else◌, word, add64, sub64,
}
use uh_core.Base.Result.{Result, ok, throws, runtime_error, ◌>>=◌}
use uh_core.Storage.Kv.{KvStore}

-- `refcount_t` of `src/common/types/common_types.h`.
pub record Refcount : Type 0 where
  pub stripe_id : ℕ
  pub count : ℕ

-- The value read from the store, 0 for an untracked page.
abbrev pub current_value : Option ℕ → ℕ
current_value none = 0
current_value (some v) = v

module _ (kv : KvStore) where
  open kv use {Store, get, put, del}

  -- Of one stripe: the new store, and whether an upstream call met an untracked page.
  unfoldable pub increment_one : Store → ℕ → ℕ → Bool → Store × Bool
  increment_one s stripe_id count upstream = elim (get s stripe_id) [
    | none ↦ if upstream then (s, true) else (put s stripe_id (add64 0 count), false)
    | some current ↦ (put s stripe_id (add64 current count), false)
  ]

  unfoldable pub increment : Store → List Refcount → Bool → Store × List Refcount
  increment s [] upstream = (s, [])
  increment s (r ∷ rs) upstream =
      let one = increment_one s r.stripe_id r.count upstream in
      let rest = increment one.0 rs upstream in (rest.0, if one.1 then r ∷ rest.1 else rest.1)

  -- Of one stripe: the new store, and whether the count has dropped to zero.
  unfoldable pub decrement_one : Store → ℕ → ℕ → Result (Store × Bool)
  decrement_one s stripe_id count = elim (get s stripe_id) [
    | none ↦ throws runtime_error
    | some current ↦
        if leb current count
        then ok (del s stripe_id, true)
        else ok (put s stripe_id (sub64 current count), false)
  ]

  -- The loop of `decrement`: the new store, and the stripes to free.
  unfoldable pub decrement_loop : Store → List Refcount → Result (Store × List ℕ)
  decrement_loop s [] = ok (s, [])
  decrement_loop s (r ∷ rs) = decrement_one s r.stripe_id r.count >>= λ one.
      decrement_loop one.0 rs >>= λ rest.
      ok (rest.0, if one.1 then r.stripe_id ∷ rest.1 else rest.1)

  unfoldable pub get_refcounts : Store → List ℕ → List Refcount
  get_refcounts s [] = []
  get_refcounts s (id ∷ ids) =
      record { stripe_id = id; count = current_value (get s id) } ∷ get_refcounts s ids

-- What follows a call of the callback, which may have thrown.
abbrev pub add_freed : {D : Type 0} → D × Result ℕ → (D → ℕ → D × Result ℕ) → D × Result ℕ
add_freed (d, ok n) next = next d n
add_freed (d, throws e) next = (d, throws e)

module _ {D : Type 0} (cb : D → ℕ → ℕ → D × Result ℕ) (stripe_size : ℕ) where
  -- The call for the stripes from `start` to `end`.
  unfoldable pub free_range : D → ℕ → ℕ → D × Result ℕ
  free_range d start end =
      cb d (start * stripe_size % word) (add64 (sub64 end start) 1 * stripe_size % word)

  -- The loop over the remaining stripes, and the call behind it.
  unfoldable pub free_loop : D → ℕ → ℕ → ℕ → List ℕ → D × Result ℕ
  unfolding free_range
  free_loop d start end freed [] =
      add_freed (free_range d start end) λ d' n. (d', ok (add64 freed n))
  free_loop d start end freed (id ∷ ids) =
      let longer = free_loop d start id freed ids in
      if id == add64 end 1
      then longer
      else add_freed (free_range d start end) λ d' n. free_loop d' id id (add64 freed n) ids

  unfoldable pub free_stripes : D → List ℕ → D × Result ℕ
  unfolding free_loop
  free_stripes d [] = (d, ok 0)
  free_stripes d (id ∷ ids) = free_loop d id id 0 ids

  -- The transaction is committed before the stripes are freed, and rolled back where it throws.
  unfoldable pub decrement : (kv : KvStore) → kv.Store → D → List Refcount → kv.Store × D × Result ℕ
  unfolding decrement_loop free_stripes
  decrement kv s d rs = elim (decrement_loop kv s rs) [
    | throws e ↦ (s, d, throws e)
    | ok done ↦ let freed = free_stripes d done.1 in (done.0, freed.0, freed.1)
  ]
