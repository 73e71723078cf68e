-- ===== src/Dedup/Reject.antt =====
-- `handle_rejected_fragments` and `flush_fragment_set` of `src/deduplicator/fragmentation.cpp`.
use uh_core.Base.{
  ℕ, suc, ◌&&◌, Option, none, some, List, [], ◌∷◌, ◌==◌, if◌then◌else◌, length, take, drop, add64,
}
use uh_core.Types.Fragment.{Fragment}
use uh_core.Types.Address.{Address}
use uh_core.Dedup.Set.{FragmentSet}
use uh_core.Dedup.Fragmentation.{unstored, DdFragment, Fragmentation, is_stored}

-- The scan of the rejected fragments from `last_frag_pos` on; `i` is the index of the first one.
unfoldable pub find_rejected : ℕ → ℕ → ℕ → List Fragment → Option ℕ
find_rejected pointer size i [] = none
find_rejected pointer size i (r ∷ rs) =
    if r.pointer == pointer && r.size == size then some i else find_rejected pointer size (suc i) rs

-- `frag.addr.fragments[0]`; `none` is a read beyond the end.
abbrev pub first_fragment : List Fragment → Option Fragment
first_fragment [] = none
first_fragment (f ∷ fs) = some f

module _ (set : FragmentSet) where
  open set use {Set, Hint, insert, mark_deduplication, erase}

  -- The variables of the loop of `handle_rejected_fragments` after it: the fragments, the bytes
  -- added to both sizes, and the set.
  pub record Rejection : Type 0 where
    pub frags : List (DdFragment Hint)
    pub effective_size : ℕ
    pub unstored_size : ℕ
    pub elements : Set

  -- A rejected fragment is to be stored anew.
  abbrev pub as_unstored : DdFragment Hint → DdFragment Hint
  as_unstored f = record f { type = unstored; stored_pointer = 0; hint = none }

  -- The loop of `handle_rejected_fragments`.
  unfoldable pub reject_loop : List Fragment → ℕ → ℕ → ℕ → Set → List (DdFragment Hint) → Rejection
  unfolding find_rejected
  reject_loop rejected last effective unstored_bytes s [] = record {
    frags = [];
    effective_size = effective;
    unstored_size = unstored_bytes;
    elements = s;
  }
  reject_loop rejected last effective unstored_bytes s (f ∷ fs) =
      let kept = reject_loop rejected last effective unstored_bytes s fs in
      let found = find_rejected f.stored_pointer f.stored_size last (drop last rejected) in
      let result : Rejection = elim found [
        | none ↦ record kept { frags = f ∷ kept.frags }
        | some i ↦
            let n = length f.payload in
            let s' =
              erase s (record { pointer = f.stored_pointer; size = f.stored_size }) f.header in
            let rest =
              reject_loop rejected (suc i) (add64 effective n) (add64 unstored_bytes n) s' fs in
            record rest { frags = as_unstored f ∷ rest.frags }
      ] in
      if is_stored f.type then result else record kept { frags = f ∷ kept.frags }

  unfoldable pub handle_rejected_fragments :
      Address → Fragmentation Hint → Set → Fragmentation Hint × Set
  unfolding reject_loop
  handle_rejected_fragments addr fr s =
      let r = reject_loop addr.fragments 0 fr.effective_size fr.unstored_size s fr.frags in
      (
        record fr {
          frags = r.frags;
          effective_size = r.effective_size;
          unstored_size = r.unstored_size;
        },
        r.elements,
      )

  unfoldable pub flush_fragments_internal : Set → List (DdFragment Hint) → Option Set
  flush_fragments_internal s [] = some s
  flush_fragments_internal s (f ∷ fs) =
      let marked =
        flush_fragments_internal
          (mark_deduplication s (record { pointer = f.stored_pointer; size = f.stored_size })) fs in
      let inserted : Option Set = elim (first_fragment f.addr.fragments) [
        | none ↦ none
        | some a ↦
            flush_fragments_internal (insert s a.pointer (take a.size f.payload) f.header f.hint) fs
      ] in
      if is_stored f.type then marked else inserted

  unfoldable pub flush_fragment_set : Fragmentation Hint → Set → Option (Fragmentation Hint × Set)
  unfolding flush_fragments_internal
  flush_fragment_set fr s =
      let flushed : Option (Fragmentation Hint × Set) = elim (flush_fragments_internal s fr.frags) [
        | none ↦ none
        | some s' ↦ some (record fr { unstored_size = 0 }, s')
      ] in
      if fr.unstored_size == 0 then some (fr, s) else flushed
