-- ===== src/Dedup/Deduplicate.antt =====
-- `deduplicate` of `src/deduplicator/interfaces/local_deduplicator.cpp`: the search, the link of what
-- storage holds, and the two flushes.
pub mod Service
pub mod Flushes
pub mod Upload
mod Tests
use uh_core.Base.{ℕ, Option, none, some, List, if◌then◌else◌, length}
use uh_core.Base.Result.{and_then, Result, ok, throws}
use uh_core.Types.Address.{Address, empty_address, is_empty}
use uh_core.Dedup.Set.{FragmentSet}
use uh_core.Dedup.Fragmentation.{
  Fragmentation, new_fragmentation, make_address, get_stored_fragments,
}
use uh_core.Dedup.Flush.{flush_storage}
use uh_core.Dedup.Reject.{handle_rejected_fragments, flush_fragment_set}
use uh_core.Dedup.Search.{Response, SearchConfig, search}

pub record DedupeResponse : Type 0 where
  pub effective_size : ℕ
  pub addr : Address

-- `G` is the state of the storage service, of which `link` and `write` are operations. What the
-- fragment set holds after an exception is not kept.
module _ (set : FragmentSet) {G : Type 0} (link : G → Address → G × Result Address)
    (write : G → List ℕ → List ℕ → G × Result Address) (blank : ℕ → List ℕ) where
  open set use {Set, Hint}

  -- The second half: both flushes, and the response.
  unfoldable pub store_upload :
      G → Set → Fragmentation Hint → G × Option (Result (Set × DedupeResponse))
  unfolding flush_storage flush_fragment_set make_address
  store_upload g s fr =
      let flushed = flush_storage write blank g fr in
      (
        flushed.0,
        and_then flushed.1 λ done. elim (flush_fragment_set set done s) [
          | none ↦ none
          | some (fr', s') ↦
              some
                (ok (s', record { effective_size = fr'.effective_size; addr = make_address fr' }))
        ],
      )

  -- Takes note of what `link` has rejected, and goes on.
  unfoldable pub after_link :
      Set → Fragmentation Hint → G × Result Address → G × Option (Result (Set × DedupeResponse))
  unfolding store_upload is_empty handle_rejected_fragments
  after_link s fr (g, throws e) = (g, some (throws e))
  after_link s fr (g, ok rejected) =
      let kept = handle_rejected_fragments set rejected fr s in
      if is_empty rejected then store_upload g s fr else store_upload g kept.1 kept.0

  -- The first half is the search; its fuel is a round for each byte.
  unfoldable pub deduplicate :
      SearchConfig
      → (Set → List ℕ → Set × Response Hint)
      → (ℕ → ℕ → Result (List ℕ))
      → G
      → Set
      → List ℕ
      → G × Option (Result (Set × DedupeResponse))
  unfolding after_link search get_stored_fragments is_empty
  deduplicate config find read g s bytes =
      elim (search config find read (length bytes) s new_fragmentation 0 bytes) [
        | none ↦ (g, none)
        | some (throws e) ↦ (g, some (throws e))
        | some (ok (s', fr)) ↦
            let known = get_stored_fragments fr in
            after_link s' fr (if is_empty known then (g, ok empty_address) else link g known)
      ]
