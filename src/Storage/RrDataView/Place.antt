-- ===== src/Storage/RrDataView/Place.antt =====
-- `compute_address` of `src/storage/group/rr_data_view.cpp`: the address against the bytes that
-- the storage was given.
use uh_core.Base.{
  ℕ, ◌+◌, ◌-◌, ◌^◌, ◌≤◌, ◌<◌, ◌≡◌, ap, sym, ◌∙◌, List, ◌∷◌, arith, add64_exact, add64, word, wide,
}
use uh_core.Types.Fragment.{span}
use uh_core.Types.Address.Bytes.{bytes, IsValid}
use uh_core.Pointers.{rr_global_pointer}
use uh_core.Pointers.RoundRobin.{rr_global_pointer_sum, rr_advance}
use uh_core.Storage.Placing.{AreOffsets, fragments_from-IsValid}
use uh_core.Storage.RrDataView.{compute_address}

module _ (group storage size base : ℕ) (small_group : group < 2 ^ 32)
    (small_storage : storage < 2 ^ 32) (fits : base + size < word) where
  -- The pointer of an offset.
  abbrev place : ℕ → ℕ
  place o = rr_global_pointer (add64 base o) group storage

  place_exact : (o : ℕ) → o ≤ size → place o ≡ rr_global_pointer (base + o) group storage
  place_exact o h = rw (add64_exact base o (omega arith))

  place_step : (o next : ℕ) → o ≤ next → next ≤ size → place next ≡ place o + (next - o)
  place_step o next h k =
      let sum : base + o + (next - o) ≡ base + next = omega arith in
      rw (place_exact o (omega arith), place_exact next k)
        (sym (
          rr_advance (base + o) group storage (next - o) (omega arith) small_group small_storage
          ∙ ap (λ (p : ℕ). rr_global_pointer p group storage) sum))

  place_fits : place size < wide
  place_fits = rw (place_exact size (omega arith)) (
      omega (
        arith,
        rr_global_pointer_sum (base + size) group storage (omega arith) small_group small_storage,
      ))

  -- The address of a write is valid, and covers the bytes of the storage from where it allocated
  -- the space, as many as were written: for offsets that begin with 0, increase and stay inside the
  -- data, ids below 2^32, and a place in the storage that ends below 2^64.
  pub compute_address-IsValid :
      (os : List ℕ)
      → AreOffsets size (0 ∷ os)
      → IsValid (compute_address group (0 ∷ os) size storage base)
        × (bytes (compute_address group (0 ∷ os) size storage base)
            ≡ span (rr_global_pointer base group storage) size)
  unfolding compute_address
  compute_address-IsValid os h =
      let (valid, covers) =
        fragments_from-IsValid place size (omega arith) place_fits place_step os h in
      let start : base + 0 ≡ base = omega arith in
      (
        valid,
        covers
            ∙ ap (λ (p : ℕ). span p size)
                (place_exact 0 (omega arith)
                  ∙ ap (λ (p : ℕ). rr_global_pointer p group storage) start),
      )
