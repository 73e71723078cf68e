-- ===== src/Storage/RrDataView/Tests.antt =====
-- `src/storage/group/rr_data_view.cpp` on concrete values.
use uh_core.Base.{
  ℕ, ◌+◌, ◌^◌, ◌<◌, ◌≡◌, refl, Bool, true, false, some, List, [], ◌∷◌, arith, get_elem?, add64,
  sub64,
}
use uh_core.Storage.RefCounter.{Refcount}
use uh_core.Storage.RefCounter.Increment.{counted}
use uh_core.Storage.RefCounter.DecrementLoop.{AllPositive}
use uh_core.Types.Fragment.{span}
use uh_core.Types.Address.{Address}
use uh_core.Types.Address.Bytes.{bytes, IsValid}
use uh_core.Pointers.{rr_global_pointer}
use uh_core.Storage.RrDataView.{
  compute_address, extract_refcounts, compute_rejected_address, first_stripe, last_stripe,
}
use uh_core.Base.Result.{Result, ok, throws, Failure}
use uh_core.Storage.RrDataView.Service.{rr_link, rr_unlink, link-unlink_throw}
use uh_core.Storage.RrDataView.Place.{compute_address-IsValid}
use uh_core.Storage.RrDataView.Count.{AreRuns, lies_in, references, extract_refcounts-references}
use uh_core.Storage.RrDataView.Rejected.{keep, meets_any, compute_rejected_address-keep}

-- A buffer of ten bytes with fragments at 0 and 4, written by storage 2 of group 1 at 100.
compute_address-IsValid_example :
    IsValid (compute_address 1 (0 ∷ 4 ∷ []) 10 2 100)
    × (bytes (compute_address 1 (0 ∷ 4 ∷ []) 10 2 100) ≡ span (rr_global_pointer 100 1 2) 10)
compute_address-IsValid_example =
    compute_address-IsValid 1 2 10 100 (omega arith) (omega arith) (omega arith) (4 ∷ [])
      (omega arith, omega arith)

-- Fragments of storages 0 and 1, with stripes of ten bytes.
abbrev two_storages : Address
two_storages = record {
  fragments = record { pointer = 15; size = 10 } ∷ record { pointer = 2 ^ 64 + 25; size = 3 } ∷ [];
}

two_storages_runs : AreRuns two_storages.fragments
two_storages_runs = (omega arith, omega arith, (omega arith, omega arith, tt))

extract_refcounts-references_example :
    (all : List (List Refcount)) × (extract_refcounts 2 10 two_storages ≡ some all)
    × ((k : ℕ)
        → k < 2
        → (rs : List Refcount) × (get_elem? all k ≡ some rs)
          × AllPositive rs
          × ((j : ℕ) → counted j rs ≡ references 10 two_storages.fragments k j))
extract_refcounts-references_example =
    extract_refcounts-references 10 2 two_storages (omega arith) two_storages_runs
      (omega arith, (omega arith, tt)) (omega arith)

-- Storage 0 has rejected stripe 2, and both fragments come back.
both_rejected :
    compute_rejected_address 10 ((record { stripe_id = 2; count = 1 } ∷ []) ∷ [] ∷ []) two_storages
    ≡ two_storages
unfolding compute_rejected_address last_stripe sub64 add64 first_stripe
both_rejected = refl

compute_rejected_address-keep_example :
    (compute_rejected_address 10
      ((record { stripe_id = 2; count = 1 } ∷ []) ∷ [] ∷ [])
      two_storages).fragments
    ≡ keep
        (λ f. meets_any (lies_in 10 f) ((record { stripe_id = 2; count = 1 } ∷ []) ∷ [] ∷ []))
        two_storages.fragments
compute_rejected_address-keep_example =
    compute_rejected_address-keep 10 ((record { stripe_id = 2; count = 1 } ∷ []) ∷ [] ∷ [])
      two_storages (omega arith) two_storages_runs

abbrev nothing_rejected : ℕ → List Refcount → Result (List Refcount)
nothing_rejected i rs = ok []

abbrev freed_ten : ℕ → List Refcount → Result ℕ
freed_ten i rs = ok 10

abbrev second_missing : List Bool
second_missing = true ∷ false ∷ []

link-unlink_throw_example :
    ((e : Failure) × (rr_link 10 second_missing nothing_rejected two_storages ≡ some (throws e)))
    × ((e : Failure) × (rr_unlink 10 second_missing freed_ten two_storages ≡ some (throws e)))
unfolding extract_refcounts last_stripe sub64 add64 first_stripe
link-unlink_throw_example =
    link-unlink_throw 10 second_missing nothing_rejected freed_ten two_storages
      ((record { stripe_id = 1; count = 1 } ∷ record { stripe_id = 2; count = 1 } ∷ [])
        ∷ (record { stripe_id = 2; count = 1 } ∷ [])
        ∷ [])
      1 refl refl
