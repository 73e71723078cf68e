-- ===== src/Storage/EcDataView/Counts.antt =====
-- `extract_refcounts` and `compute_rejected_address` of `src/storage/group/ec_data_view.cpp`: the
-- stripes of a group are counted by its own pointers, for all storages together.
use uh_core.Base.{ℕ, suc, ◌-◌, ◌/◌, ◌%◌, List, [], ◌∷◌, if◌then◌else◌, add128, sub128, word}
use uh_core.Types.Fragment.{Fragment}
use uh_core.Types.Address.{Address, empty_address}
use uh_core.Pointers.{get_group_pointer}
use uh_core.Storage.RefCounter.{Refcount}
use uh_core.Storage.RrDataView.{count_stripes, has_overlap, rejected_stripes}

module _ (stripe_size : ℕ) where
  unfoldable pub ec_first_stripe : Fragment → ℕ
  unfolding get_group_pointer
  ec_first_stripe f = get_group_pointer f.pointer / stripe_size % word

  unfoldable pub ec_last_stripe : Fragment → ℕ
  unfolding get_group_pointer add128 sub128
  ec_last_stripe f = sub128 (add128 (get_group_pointer f.pointer) f.size) 1 / stripe_size % word

  -- The number of rounds of a loop from the first to the last stripe.
  abbrev pub ec_stripe_rounds : Fragment → ℕ
  ec_stripe_rounds f = suc (ec_last_stripe f) - ec_first_stripe f

  unfoldable pub ec_count_fragments : List Refcount → List Fragment → List Refcount
  unfolding count_stripes
  ec_count_fragments rs [] = rs
  ec_count_fragments rs (f ∷ fs) =
      ec_count_fragments (count_stripes (ec_stripe_rounds f) (ec_first_stripe f) rs) fs

  unfoldable pub ec_extract_refcounts : Address → List Refcount
  unfolding ec_count_fragments
  ec_extract_refcounts addr = ec_count_fragments [] addr.fragments

  unfoldable pub ec_rejected_from : List Refcount → List Fragment → List Fragment
  unfolding has_overlap
  ec_rejected_from rejected [] = []
  ec_rejected_from rejected (f ∷ fs) =
      let rest = ec_rejected_from rejected fs in
      if has_overlap (ec_stripe_rounds f) (ec_first_stripe f) rejected then f ∷ rest else rest

  -- With no stripe rejected the address is empty at once.
  unfoldable pub ec_rejected_address : List Refcount → Address → Address
  unfolding ec_rejected_from
  ec_rejected_address [] original = empty_address
  ec_rejected_address (r ∷ rs) original = record {
    fragments = ec_rejected_from (r ∷ rs) original.fragments;
  }

  unfoldable pub ec_compute_rejected_address : List (List Refcount) → Address → Address
  unfolding ec_rejected_address
  ec_compute_rejected_address rejected original =
      ec_rejected_address (rejected_stripes rejected) original
