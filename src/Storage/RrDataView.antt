-- ===== src/Storage/RrDataView.antt =====
-- `src/storage/group/rr_data_view.cpp`: data of a round-robin group is kept by one of its storages,
-- and references to it are counted per storage and stripe. A `std::map` is a function from its keys,
-- or a list in the order of the keys.
pub mod Place
pub mod Count
pub mod Rejected
pub mod Service
mod Tests
use uh_core.Base.{
  ℕ, zero, suc, ◌+◌, ◌-◌, ◌/◌, ◌%◌, ◌^◌, Bool, true, false, ◌&&◌, ◌||◌, Option, none, some, List,
  [], ◌∷◌, ◌++◌, ltb, leb, ◌==◌, if◌then◌else◌, length, get_elem?, add64, sub64,
}
use uh_core.Base.Result.{Result, ok, throws}
use uh_core.Types.Fragment.{Fragment}
use uh_core.Types.Address.{Address, empty_address}
use uh_core.Pointers.{rr_global_pointer, rr_storage_pointer}
use uh_core.Storage.RefCounter.{Refcount}
use uh_core.Storage.Placing.{fragments_from}

unfoldable pub compute_address : ℕ → List ℕ → ℕ → ℕ → ℕ → Address
unfolding fragments_from
compute_address group offsets size storage base = record {
  fragments = fragments_from (λ o. rr_global_pointer (add64 base o) group storage) size offsets;
}

-- `stripe_map[stripe_id]++`, where a key that is not there begins at 0.
unfoldable pub count_one : ℕ → List Refcount → List Refcount
count_one id [] = record { stripe_id = id; count = 1 } ∷ []
count_one id (r ∷ rs) =
    let later = r ∷ count_one id rs in
    if id == r.stripe_id
    then record { stripe_id = id; count = add64 r.count 1 } ∷ rs
    else if ltb id r.stripe_id
    then record { stripe_id = id; count = 1 } ∷ r ∷ rs
    else later

-- The stripes that a fragment begins and ends in.
unfoldable pub first_stripe : ℕ → Fragment → ℕ
unfolding rr_storage_pointer
first_stripe stripe_size f = (rr_storage_pointer f.pointer).1 / stripe_size

unfoldable pub last_stripe : ℕ → Fragment → ℕ
unfolding rr_storage_pointer
last_stripe stripe_size f = sub64 (add64 (rr_storage_pointer f.pointer).1 f.size) 1 / stripe_size

-- The number of rounds of a loop from the first to the last stripe.
abbrev pub stripe_rounds : ℕ → Fragment → ℕ
stripe_rounds stripe_size f = suc (last_stripe stripe_size f) - first_stripe stripe_size f

-- The inner loop of `extract_refcounts`, for `n` stripes from `id` on.
unfoldable pub count_stripes : ℕ → ℕ → List Refcount → List Refcount
unfolding count_one
count_stripes zero id rs = rs
count_stripes (suc n) id rs = count_stripes n (suc id) (count_one id rs)

-- The storage of a fragment, as a key of the outer map: a `uint16_t`.
unfoldable pub storage_key : Fragment → ℕ
unfolding rr_storage_pointer
storage_key f = (rr_storage_pointer f.pointer).0 % 2 ^ 16

-- The outer loop: `counts` is the map from storages to the counts of their stripes.
unfoldable pub count_fragments : ℕ → (ℕ → List Refcount) → List Fragment → ℕ → List Refcount
unfolding count_stripes storage_key
count_fragments stripe_size counts [] = counts
count_fragments stripe_size counts (f ∷ fs) =
    count_fragments stripe_size
      (λ k.
        if k == storage_key f
        then count_stripes (stripe_rounds stripe_size f) (first_stripe stripe_size f) (counts k)
        else counts k)
      fs

-- The entries of the first `n` storages from `k` on.
abbrev pub entries : (ℕ → List Refcount) → ℕ → ℕ → List (List Refcount)
entries counts k zero = []
entries counts k (suc n) = counts k ∷ entries counts (suc k) n

-- Every storage that has stripes counted is one of the group.
abbrev pub are_known : ℕ → ℕ → List Fragment → Bool
are_known storages stripe_size [] = true
are_known storages stripe_size (f ∷ fs) =
    (stripe_rounds stripe_size f == 0 || ltb (storage_key f) storages)
    && are_known storages stripe_size fs

-- The counts of each storage; `none` is a write outside of the vector.
unfoldable pub extract_refcounts : ℕ → ℕ → Address → Option (List (List Refcount))
unfolding count_fragments
extract_refcounts storages stripe_size addr =
    if are_known storages stripe_size addr.fragments
    then some (entries (count_fragments stripe_size (λ k. []) addr.fragments) 0 storages)
    else none

-- `rejected_stripes`: the stripes of all storages together.
abbrev pub has_stripe : ℕ → List Refcount → Bool
has_stripe id [] = false
has_stripe id (r ∷ rs) = r.stripe_id == id || has_stripe id rs

abbrev pub rejected_stripes : List (List Refcount) → List Refcount
rejected_stripes [] = []
rejected_stripes (rs ∷ rss) = rs ++ rejected_stripes rss

-- The inner loop of `compute_rejected_address`.
unfoldable pub has_overlap : ℕ → ℕ → List Refcount → Bool
has_overlap zero id rejected = false
has_overlap (suc n) id rejected = has_stripe id rejected || has_overlap n (suc id) rejected

unfoldable pub rejected_from : ℕ → List Refcount → List Fragment → List Fragment
unfolding has_overlap
rejected_from stripe_size rejected [] = []
rejected_from stripe_size rejected (f ∷ fs) =
    let rest = rejected_from stripe_size rejected fs in
    if has_overlap (stripe_rounds stripe_size f) (first_stripe stripe_size f) rejected
    then f ∷ rest
    else rest

unfoldable pub rejected_address : ℕ → List Refcount → Address → Address
unfolding rejected_from
rejected_address stripe_size [] original = empty_address
rejected_address stripe_size (r ∷ rs) original = record {
  fragments = rejected_from stripe_size (r ∷ rs) original.fragments;
}

unfoldable pub compute_rejected_address : ℕ → List (List Refcount) → Address → Address
unfolding rejected_address
compute_rejected_address stripe_size rejected original =
    rejected_address stripe_size (rejected_stripes rejected) original
