-- ===== src/Dedup/Flush/Place.antt =====
-- `compute_unstored_addresses` of `src/deduplicator/fragmentation.cpp`: the addresses of the
-- unstored fragments, against the bytes of the buffer.
use uh_core.Base.{
  ℕ, ◌≤◌, ◌<◌, ◌≡◌, refl, ap, false, inl, inr, some, List, [], ◌∷◌, ◌++◌, arith, if◌then◌else◌,
  Bool-cases, leb, leb→le, length, take, drop, length-append, length-drop, word,
}
use uh_core.Base.Result.{ok, throws, runtime_error}
use uh_core.Types.Address.{Address}
use uh_core.Types.Address.Bytes.{list_bytes}
use uh_core.Dedup.Fragmentation.{DdFragment, is_stored}
use uh_core.Dedup.Flush.{Cursor, fill, fill_fuel, compute_from}
use uh_core.Dedup.Flush.Refill.{left_bytes, BufferIsValid, CursorIsValid}
use uh_core.Dedup.Flush.Fill.{IsFilled, fill_whole, fill_short}

module _ {H : Type 0} where
  -- The data of the unstored fragments, in order.
  abbrev pub unstored_bytes : List (DdFragment H) → List ℕ
  unstored_bytes [] = []
  unstored_bytes (f ∷ fs) =
      if is_stored f.type then unstored_bytes fs else f.payload ++ unstored_bytes fs

  -- The fragments after the addresses are computed: the unstored ones have taken the pointers
  -- `bs` in order, as many as they have bytes; nothing else changed.
  abbrev pub IsPlaced : List ℕ → List (DdFragment H) → List (DdFragment H) → Type 0
  IsPlaced bs [] [] = Unit {0}
  IsPlaced bs [] (g ∷ gs) = ⊥
  IsPlaced bs (f ∷ fs) [] = ⊥
  IsPlaced bs (f ∷ fs) (g ∷ gs) =
      if is_stored f.type
      then (g ≡ f) × IsPlaced bs fs gs
      else (g ≡ record f { addr = g.addr })
        × (list_bytes g.addr.fragments ≡ list_bytes f.addr.fragments ++ take (length f.payload) bs)
        × IsPlaced (drop (length f.payload) bs) fs gs

  module _ (buffer : Address) (b : BufferIsValid buffer) where
    -- One unstored fragment in front of the others.
    place_unstored :
        (c d : Cursor) (f : DdFragment H) (addr : Address) (fs gs : List (DdFragment H))
        → is_stored f.type ≡ false
        → fill (fill_fuel buffer (length f.payload)) buffer c f.addr 0 (length f.payload)
          ≡ some (ok (d, addr))
        → IsFilled buffer c f.addr (length f.payload) d addr
        → compute_from buffer d fs ≡ some (ok gs)
        → IsPlaced (left_bytes buffer d) fs gs
        → (compute_from buffer c (f ∷ fs) ≡ some (ok (record f { addr = addr } ∷ gs)))
          × IsPlaced (left_bytes buffer c) (f ∷ fs) (record f { addr = addr } ∷ gs)
    unfolding compute_from
    place_unstored c d f addr fs gs new filled l run placed =
        (rw (new, filled, run), rw new (refl, l.placed, rw l.behind at placed))

    -- With enough bytes before the cursor, the loop over the fragments places them all.
    pub compute_from-IsPlaced :
        (c : Cursor) (fs : List (DdFragment H))
        → CursorIsValid buffer c
        → length (unstored_bytes fs) < word
        → length (unstored_bytes fs) ≤ length (left_bytes buffer c)
        → (gs : List (DdFragment H)) × ((compute_from buffer c fs ≡ some (ok gs))
            × IsPlaced (left_bytes buffer c) fs gs)
    unfolding compute_from
    compute_from-IsPlaced c [] v w e = ([], (refl, tt))
    compute_from-IsPlaced c (f ∷ fs) v w e = elim (Bool-cases (is_stored f.type)) [
      | inl known ↦
          let (gs, (run, placed)) = compute_from-IsPlaced c fs v (rw known at w) (rw known at e) in
          (f ∷ gs, (rw (known, run), rw known (refl, placed)))
      | inr new ↦
          let n = length f.payload in
          let w' = rw new at w in
          let e' = rw new at e in
          let both = length-append f.payload (unstored_bytes fs) in
          let (d, addr, filled, l) = fill_whole buffer c f.addr n b v (omega arith) (omega arith) in
          let (gs, (run, placed)) =
            compute_from-IsPlaced d fs l.valid (omega arith)
              (omega (arith, ap length l.behind, length-drop n (left_bytes buffer c))) in
          (record f { addr = addr } ∷ gs, place_unstored c d f addr fs gs new filled l run placed)
    ]

    -- With too few bytes before the cursor, it throws.
    pub compute_from_short :
        (c : Cursor) (fs : List (DdFragment H))
        → CursorIsValid buffer c
        → length (unstored_bytes fs) < word
        → length (left_bytes buffer c) < length (unstored_bytes fs)
        → compute_from buffer c fs ≡ some (throws runtime_error)
    unfolding compute_from
    compute_from_short c [] v w e = absurd (omega arith)
    compute_from_short c (f ∷ fs) v w e = elim (Bool-cases (is_stored f.type)) [
      | inl known ↦ rw (known, compute_from_short c fs v (rw known at w) (rw known at e))
      | inr new ↦
          let n = length f.payload in
          let w' = rw new at w in
          let e' = rw new at e in
          let both = length-append f.payload (unstored_bytes fs) in
          elim (Bool-cases (leb n (length (left_bytes buffer c)))) [
            | inr few ↦ rw (
              new,
              fill_short (fill_fuel buffer n) buffer c f.addr 0 n b v (omega arith) (omega arith)
                  (ground arith),
            )
            | inl enough ↦
                let (d, addr, filled, l) =
                  fill_whole buffer c f.addr n b v (omega arith)
                    (omega (arith, leb→le _ _ enough)) in
                rw (
                  new,
                  filled,
                  compute_from_short d fs l.valid (omega arith) (
                      omega (
                        arith,
                        leb→le _ _ enough,
                        ap length l.behind,
                        length-drop n (left_bytes buffer c),
                      )),
                )
          ]
    ]
