-- ===== src/Dedup/Ready.antt =====
-- `push_stored` and `push_unstored` of `src/deduplicator/fragmentation.cpp`: the upload
-- afterwards.
use uh_core.Base.{
  ℕ, ◌+◌, ◌<◌, ◌≡◌, refl, ap, sym, ◌∙◌, Bool, inl, inr, Option, List, [], ◌∷◌, ◌++◌, map, arith,
  Bool-cases, length, length-append, append-nil, append_assoc, add64_exact, word,
}
use uh_core.Types.Fragment.{span}
use uh_core.Dedup.Fragmentation.{
  DdFragment, Fragmentation, new_fragmentation, is_stored, push_stored, push_unstored,
}
use uh_core.Dedup.Flush.Place.{unstored_bytes}
use uh_core.Dedup.Flush.Content.{payloads, AllFresh, AllStored, IsReady}

module _ {H : Type 0} where
  unstored_bytes-append :
      (xs ys : List (DdFragment H))
      → unstored_bytes (xs ++ ys) ≡ unstored_bytes xs ++ unstored_bytes ys
  unstored_bytes-append [] ys = refl
  unstored_bytes-append (x ∷ xs) ys = elim (Bool-cases (is_stored x.type)) [
    | inl known ↦ rw known (unstored_bytes-append xs ys)
    | inr new ↦ rw (new, unstored_bytes-append xs ys, append_assoc)
  ]

  payloads-append : (xs ys : List (DdFragment H)) → payloads (xs ++ ys) ≡ payloads xs ++ payloads ys
  payloads-append [] ys = refl
  payloads-append (x ∷ xs) ys = rw (payloads-append xs ys, append_assoc)

  AllFresh-append : (xs ys : List (DdFragment H)) → AllFresh xs → AllFresh ys → AllFresh (xs ++ ys)
  AllFresh-append [] ys h k = k
  AllFresh-append (x ∷ xs) ys h k = (h.0, AllFresh-append xs ys h.1 k)

  module _ (content : ℕ → ℕ) where
    AllStored-append :
        (xs ys : List (DdFragment H))
        → AllStored content xs
        → AllStored content ys
        → AllStored content (xs ++ ys)
    AllStored-append [] ys h k = k
    AllStored-append (x ∷ xs) ys h k = (h.0, AllStored-append xs ys h.1 k)

    pub new-IsReady : IsReady content (new_fragmentation {H = H})
    new-IsReady = record { counted = refl; small = omega arith; fresh = tt; held = tt }

    -- Pushing a fragment that storage holds keeps the upload ready and appends its data.
    pub push_stored-IsReady :
        (fr : Fragmentation H) (pointer size : ℕ) (bytes : List ℕ) (header : Bool)
        → IsReady content fr
        → map content (span pointer size) ≡ bytes
        → IsReady content (push_stored fr pointer size bytes header)
          × (payloads (push_stored fr pointer size bytes header).frags ≡ payloads fr.frags ++ bytes)
    unfolding push_stored
    push_stored-IsReady fr pointer size [] header r h = (r, sym (append-nil _))
    push_stored-IsReady fr pointer size (b ∷ bs) header r h = (
      record {
        counted = r.counted ∙ ap length (sym (unstored_bytes-append fr.frags _ ∙ append-nil _));
        small = r.small;
        fresh = AllFresh-append fr.frags _ r.fresh (refl, tt);
        held = AllStored-append fr.frags _ r.held (h, tt);
      },
      payloads-append fr.frags _ ∙ ap (λ x. payloads fr.frags ++ x) (append-nil (b ∷ bs)),
    )

    -- Pushing new data keeps the upload ready and appends the data, where the sizes stay words.
    pub push_unstored-IsReady :
        (fr : Fragmentation H) (bytes : List ℕ) (header : Bool) (hint : Option H)
        → IsReady content fr
        → fr.unstored_size + length bytes < word
        → IsReady content (push_unstored fr bytes header hint)
          × (payloads (push_unstored fr bytes header hint).frags ≡ payloads fr.frags ++ bytes)
    unfolding push_unstored
    push_unstored-IsReady fr bytes header hint r w =
        let both : unstored_bytes (push_unstored fr bytes header hint).frags
            ≡ unstored_bytes fr.frags ++ bytes =
          unfold push_unstored in
          unstored_bytes-append fr.frags _
          ∙ ap (λ x. unstored_bytes fr.frags ++ x) (append-nil bytes) in
        (
          record {
            counted = omega (
              arith,
              r.counted,
              add64_exact fr.unstored_size (length bytes) w,
              ap length both,
              length-append (unstored_bytes fr.frags) bytes,
            );
            small = omega (arith, add64_exact fr.unstored_size (length bytes) w);
            fresh = AllFresh-append fr.frags _ r.fresh (refl, tt);
            held = AllStored-append fr.frags _ r.held (tt, tt);
          },
          payloads-append fr.frags _ ∙ ap (λ x. payloads fr.frags ++ x) (append-nil bytes),
        )
