-- ===== src/Storage/EcDataView/StoreAll.antt =====
-- The last step of `write` of `src/storage/group/ec_data_view.cpp`: the writes of all storages, and what
-- they come to.
use uh_core.Base.{
  ℕ, suc, ◌+◌, ◌*◌, ◌%◌, ◌≤◌, ◌<◌, ◌≡◌, refl, ap, ◌∙◌, ◌==◌, Bool, true, false, some, List, [], ◌∷◌,
  arith, leb, length, get_elem?, ◌⊎◌, inl, inr, ==_iff, Bool-cases, word,
}
use uh_core.Base.Result.{Result, Failure, ok, throws}
use uh_core.Storage.RefCounter.{Refcount}
use uh_core.Storage.Fanout.{run_for_all}
use uh_core.Storage.EcDataView.Stripes.{div_ceil, nth}
use uh_core.Storage.EcDataView.Service.{EcGroup, all_there, ec_compute_address, written, ec_write}

-- A call for each of several storages throws what one of the calls has thrown, or all have gone well.
abbrev IsOutcome : (ℕ → Result (Unit {0})) → ℕ → List Bool → Type 0
IsOutcome ask i ss =
    ((e : Failure) × (n : ℕ) × (run_for_all (λ k s. ask k) i ss ≡ throws e)
      × (i ≤ n)
      × (n < i + length ss)
      × (ask n ≡ throws e))
    ⊎ ((done : List (Unit {0})) × (run_for_all (λ k s. ask k) i ss ≡ ok done)
        × ((n : ℕ) → i ≤ n → n < i + length ss → ask n ≡ ok tt))

first-IsOutcome :
    (ask : ℕ → Result (Unit {0})) (i : ℕ) (s : Bool) (ss : List Bool) (o : Result (Unit {0}))
    → ask i ≡ o
    → IsOutcome ask (suc i) ss
    → IsOutcome ask i (s ∷ ss)
unfolding run_for_all
first-IsOutcome ask i s ss (throws e) failed rest =
    inl (e, i, rw failed refl, omega arith, omega arith, failed)
first-IsOutcome ask i s ss (ok u) answer (inl (e, n, run, low, high, failed)) =
    inl (e, n, rw (answer, run) refl, omega arith, omega arith, failed)
first-IsOutcome ask i s ss (ok u) answer (inr (done, run, all)) = inr (
  u ∷ done,
  rw (answer, run) refl,
  λ n low high. elim (Bool-cases (n == i)) [
    | inl here ↦ ap ask ((==_iff n i).0 here) ∙ answer
    | inr later ↦ all n (ground arith) (omega arith)
  ],
)

run_for_all-IsOutcome : (ask : ℕ → Result (Unit {0})) (i : ℕ) (ss : List Bool) → IsOutcome ask i ss
unfolding run_for_all
run_for_all-IsOutcome ask i [] = inr ([], refl, λ n low high. absurd (omega arith))
run_for_all-IsOutcome ask i (s ∷ ss) =
    first-IsOutcome ask i s ss (ask i) refl (run_for_all-IsOutcome ask (suc i) ss)

module _ (encode : List (List ℕ) → List (List ℕ)) (allocate : ℕ → ℕ → ℕ → Result ℕ)
    (store : ℕ → ℕ → List ℕ → List Refcount → Result (Unit {0})) (g : EcGroup) where
  -- What storage `n` is asked to write, behind the allocation at chunk `o`.
  abbrev pub stored_by : ℕ → List ℕ → List ℕ → ℕ → Result (Unit {0})
  stored_by o contents offsets n =
      store n (o * g.chunk_size)
        (nth (written encode allocate store g contents offsets (o * g.chunk_size)).buffers n)
        (written encode allocate store g contents offsets (o * g.chunk_size)).refcounts

  -- The outcome of a `write` behind an allocation.
  pub ec_write_runs :
      (leader o : ℕ) (storages : List Bool) (contents offsets : List ℕ)
      → leb g.storages leader ≡ false
      → get_elem? storages leader ≡ some true
      → all_there storages ≡ true
      → allocate leader
          (div_ceil (length contents) g.stripe_size * g.chunk_size % word)
          g.chunk_size
        ≡ ok (o * g.chunk_size)
      → (o * g.chunk_size % g.chunk_size == 0) ≡ true
      → ((e : Failure) × (n : ℕ) × (ec_write encode allocate store g true
              (some leader)
              storages
              contents
              offsets
            ≡ some (throws e))
          × (n < length storages)
          × (stored_by o contents offsets n ≡ throws e))
        ⊎ ((ec_write encode allocate store g true (some leader) storages contents offsets
              ≡ some (ok (ec_compute_address g offsets (length contents) (o * g.chunk_size))))
            × ((n : ℕ) → n < length storages → stored_by o contents offsets n ≡ ok tt))
  unfolding ec_write
  ec_write_runs leader o storages contents offsets known there all offset aligned =
      elim (run_for_all-IsOutcome (stored_by o contents offsets) 0 storages) [
        | inl (e, n, run, low, high, failed) ↦
            inl (e, n, rw (known, there, offset, aligned, all, run) refl, omega arith, failed)
        | inr (done, run, each) ↦ inr (
          rw (known, there, offset, aligned, all, run) refl,
          λ n h. each n (omega arith) (omega arith),
        )
      ]
