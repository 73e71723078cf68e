-- ===== src/Dedup/Set.antt =====
-- What `src/deduplicator/fragmentation.cpp` calls of `fragment_set`: its three updates.
use uh_core.Base.{ℕ, Bool, Option, List}
use uh_core.Types.Fragment.{Fragment}

pub record FragmentSet : Type 1 where
  pub Set : Type 0
  pub Hint : Type 0
  -- `insert(pointer, data, header, hint)`
  pub insert : Set → ℕ → List ℕ → Bool → Option Hint → Set
  pub mark_deduplication : Set → Fragment → Set
  -- `erase(set_element, header)`
  pub erase : Set → Fragment → Bool → Set
