-- ===== src/Dedup/Flush/Buffer.antt =====
-- `unstored_to_buffer` of `src/deduplicator/fragmentation.cpp`: the buffer and the offsets,
-- against the unstored data.
use uh_core.Base.{
  ℕ, ◌+◌, ◌<◌, ◌≤◌, ◌≡◌, ap, ap₂, sym, ◌∙◌, true, false, inl, inr, some, List, [], ◌∷◌, ◌++◌, arith,
  if◌then◌else◌, Bool-cases, leb, length, take, drop, length-append, length-take, length-drop,
  append_assoc, append-nil, take_of_length-le, take-append_self, add64, add64_exact, word,
}
use uh_core.Dedup.Fragmentation.{DdFragment, is_stored}
use uh_core.Dedup.Flush.{copy_at, to_buffer_from}
use uh_core.Dedup.Flush.Place.{unstored_bytes}

-- A copy inside the buffer: what was before it stays.
copy_at_front :
    (buffer : List ℕ) (offs : ℕ) (bytes : List ℕ)
    → offs + length bytes ≤ length buffer
    → (b : List ℕ) × (copy_at buffer offs bytes ≡ some b)
      × (length b ≡ length buffer)
      × (take (offs + length bytes) b ≡ take offs buffer ++ bytes)
unfolding copy_at
copy_at_front buffer offs bytes h =
    let front = take offs buffer ++ bytes in
    let back = drop (offs + length bytes) buffer in
    let test : leb (offs + length bytes) (length buffer) ≡ true = ground arith in
    let len : length front ≡ offs + length bytes =
      omega (arith, length-append (take offs buffer) bytes, length-take offs buffer) in
    let regroup : take offs buffer ++ (bytes ++ back) ≡ front ++ back =
      sym (append_assoc (take offs buffer) bytes back) in
    (
      take offs buffer ++ (bytes ++ back),
      rw test,
      ap length regroup
          ∙ omega (arith, length-append front back, length-drop (offs + length bytes) buffer),
      ap₂ take (sym len) regroup ∙ take-append_self front back,
    )

module _ {H : Type 0} where
  -- The offsets of the unstored fragments in the buffer.
  abbrev pub offsets_from : ℕ → List (DdFragment H) → List ℕ
  offsets_from offs [] = []
  offsets_from offs (f ∷ fs) =
      if is_stored f.type
      then offsets_from offs fs
      else offs ∷ offsets_from (offs + length f.payload) fs

  pub to_buffer_from_lem :
      (buffer : List ℕ) (offs : ℕ) (fs : List (DdFragment H))
      → length buffer ≡ offs + length (unstored_bytes fs)
      → length buffer < word
      → to_buffer_from buffer offs fs
        ≡ some (take offs buffer ++ unstored_bytes fs, offsets_from offs fs)
  unfolding to_buffer_from
  to_buffer_from_lem buffer offs [] e w =
      rw (append-nil, take_of_length-le offs buffer (omega arith))
  to_buffer_from_lem buffer offs (f ∷ fs) e w = elim (Bool-cases (is_stored f.type)) [
    | inl known ↦ rw (known, to_buffer_from_lem buffer offs fs (rw known at e) w)
    | inr new ↦
        let n = length f.payload in
        let both = length-append f.payload (unstored_bytes fs) in
        let e' = rw new at e in
        let (b, copied, same, front) = copy_at_front buffer offs f.payload (omega arith) in
        let moved : add64 offs n ≡ offs + n = add64_exact offs n (omega arith) in
        let rest = to_buffer_from_lem b (offs + n) fs (omega arith) (omega arith) in
        place buffer b offs f fs new copied moved rest front
  ]
    where
      place :
          (buffer b : List ℕ) (offs : ℕ) (f : DdFragment H) (fs : List (DdFragment H))
          → is_stored f.type ≡ false
          → copy_at buffer offs f.payload ≡ some b
          → add64 offs (length f.payload) ≡ offs + length f.payload
          → to_buffer_from b (offs + length f.payload) fs
            ≡ some (
              take (offs + length f.payload) b ++ unstored_bytes fs,
              offsets_from (offs + length f.payload) fs,
            )
          → take (offs + length f.payload) b ≡ take offs buffer ++ f.payload
          → to_buffer_from buffer offs (f ∷ fs)
            ≡ some (take offs buffer ++ unstored_bytes (f ∷ fs), offsets_from offs (f ∷ fs))
      place buffer b offs f fs new copied moved rest front =
          rw (new, copied, moved, rest, front, append_assoc)
