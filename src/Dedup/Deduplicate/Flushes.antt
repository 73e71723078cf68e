-- ===== src/Dedup/Deduplicate/Flushes.antt =====
-- `flush_fragment_set` of `src/deduplicator/fragmentation.cpp` after a flush of the storage: the set takes
-- every fragment.
use uh_core.Base.{
  ℕ, ◌≤◌, ◌<◌, ◌≡◌, refl, ap, ◌∙◌, true, false, inl, inr, some, List, [], ◌∷◌, arith, ◌==◌,
  Bool-cases, length, take, drop, length-append, length-take, length-drop,
}
use uh_core.Types.Fragment.{Fragment}
use uh_core.Types.Address.Bytes.{list_bytes}
use uh_core.Dedup.Set.{FragmentSet}
use uh_core.Dedup.Fragmentation.{DdFragment, Fragmentation, is_stored, make_address}
use uh_core.Dedup.Flush.Place.{unstored_bytes, IsPlaced}
use uh_core.Dedup.Flush.Content.{AllHaveData}
use uh_core.Dedup.Reject.{first_fragment, flush_fragments_internal, flush_fragment_set}

some_first :
    (fs : List Fragment)
    → 0 < length (list_bytes fs)
    → (a : Fragment) × (first_fragment fs ≡ some a)
some_first [] h = absurd (omega arith)
some_first (f ∷ fs) h = (f, refl)

module _ (set : FragmentSet) where
  -- Placed fragments with data have an address each, so that the set takes them all.
  pub placed_flushes :
      (bs : List ℕ) (fs gs : List (DdFragment set.Hint)) (s : set.Set)
      → IsPlaced bs fs gs
      → AllHaveData fs
      → length (unstored_bytes fs) ≤ length bs
      → (s' : set.Set) × (flush_fragments_internal set s gs ≡ some s')
  unfolding flush_fragments_internal
  placed_flushes bs [] [] s p full e = (s, refl)
  placed_flushes bs [] (g ∷ gs) s p full e = absurd p
  placed_flushes bs (f ∷ fs) [] s p full e = absurd p
  placed_flushes bs (f ∷ fs) (g ∷ gs) s p full e = elim (Bool-cases (is_stored f.type)) [
    | inl known ↦
        let here = rw known at p in
        let same : is_stored g.type ≡ true = ap (λ x. is_stored x.type) here.0 ∙ known in
        let (s', run) =
          placed_flushes bs fs gs
            (set.mark_deduplication s (record { pointer = g.stored_pointer; size = g.stored_size }))
            here.1 full.1 (rw known at e) in
        (s', rw same run)
    | inr new ↦
        let here = rw new at p in
        let n = length f.payload in
        let e' = rw new at e in
        let both = length-append f.payload (unstored_bytes fs) in
        let same : is_stored g.type ≡ false = ap (λ x. is_stored x.type) here.0 ∙ new in
        let (a, first) = some_first g.addr.fragments (
          omega (
            arith,
            full.0,
            ap length here.1,
            length-append (list_bytes f.addr.fragments) (take n bs),
            length-take n bs,
          )) in
        let (s', run) =
          placed_flushes (drop n bs) fs gs
            (set.insert s a.pointer (take a.size g.payload) g.header g.hint) here.2 full.1
            (omega (arith, length-drop n bs)) in
        (s', rw (same, first) run)
  ]

  pub set_flushes :
      (fr : Fragmentation set.Hint) (s s' : set.Set)
      → flush_fragments_internal set s fr.frags ≡ some s'
      → (done : Fragmentation set.Hint) × (t : set.Set) × (flush_fragment_set set fr s
          ≡ some (done, t))
        × (make_address done ≡ make_address fr)
  unfolding flush_fragment_set make_address
  set_flushes fr s s' run = elim (Bool-cases (fr.unstored_size == 0)) [
    | inl nothing ↦ (fr, s, rw nothing, refl)
    | inr some_left ↦ (record fr { unstored_size = 0 }, s', rw (some_left, run), refl)
  ]
