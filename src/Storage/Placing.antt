-- ===== src/Storage/Placing.antt =====
-- `compute_address` of the data views in `src/storage/group`: the fragments of data that was written
-- in one piece, by the offsets at which they begin. `place` gives the pointer for an offset.
use uh_core.Base.{
  ℕ, ◌+◌, ◌-◌, ◌≤◌, ◌<◌, ◌≡◌, ap, ◌∙◌, List, [], ◌∷◌, ◌++◌, arith, sub64, sub64_exact, word, wide,
}
use uh_core.Types.Fragment.{Fragment, span, span-append}
use uh_core.Types.Address.Bytes.{list_bytes, total, AllFit, IsValid}

-- The loop over the offsets.
unfoldable pub fragments_from : (ℕ → ℕ) → ℕ → List ℕ → List Fragment
fragments_from place size [] = []
fragments_from place size (o ∷ []) = record { pointer = place o; size = sub64 size o } ∷ []
fragments_from place size (o ∷ next ∷ os) =
    record { pointer = place o; size = sub64 next o } ∷ fragments_from place size (next ∷ os)

-- Offsets that increase and stay inside the data.
abbrev pub AreOffsets : ℕ → List ℕ → Type 0
AreOffsets size [] = Unit {0}
AreOffsets size (o ∷ []) = o ≤ size
AreOffsets size (o ∷ next ∷ os) = (o ≤ next) × AreOffsets size (next ∷ os)

AreOffsets-le : (size o : ℕ) (os : List ℕ) → AreOffsets size (o ∷ os) → o ≤ size
AreOffsets-le size o [] h = h
AreOffsets-le size o (next ∷ os) h = omega (arith, AreOffsets-le size next os h.1)

module _ (place : ℕ → ℕ) (size : ℕ) (small : size < word) (fits : place size < wide)
    (step : (o next : ℕ) → o ≤ next → next ≤ size → place next ≡ place o + (next - o)) where
  -- What the fragments from one offset on are.
  record IsCovered (o : ℕ) (fs : List Fragment) : Type 0 where
    covers : list_bytes fs ≡ span (place o) (size - o)
    inside : AllFit fs
    amount : total fs ≡ size - o

  -- A fragment up to `next` in front of what begins there.
  cover :
      (o next : ℕ) (fs : List Fragment)
      → o ≤ next
      → next ≤ size
      → IsCovered next fs
      → IsCovered o (record { pointer = place o; size = sub64 next o } ∷ fs)
  cover o next fs h k c =
      let room : sub64 next o ≡ next - o = sub64_exact next o h (omega arith) in
      let whole : (next - o) + (size - next) ≡ size - o = omega arith in
      let forth = step o next h k in
      let last = step next size k (omega arith) in
      rw room (record {
        covers =
            ap (λ x. span (place o) (next - o) ++ x)
              (c.covers ∙ ap (λ (p : ℕ). span p (size - next)) forth)
            ∙ span-append (place o) (next - o) (size - next)
            ∙ ap (span (place o)) whole;
        inside = (omega (arith, forth, last), c.inside);
        amount = omega (arith, c.amount);
      })

  nothing_left : IsCovered size []
  nothing_left =
      let none_left : size - size ≡ 0 = omega arith in
      record { covers = rw none_left; inside = tt; amount = omega arith }

  fragments_from-IsCovered :
      (o : ℕ) (os : List ℕ)
      → AreOffsets size (o ∷ os)
      → IsCovered o (fragments_from place size (o ∷ os))
  unfolding fragments_from
  fragments_from-IsCovered o [] h = cover o size [] h (omega arith) nothing_left
  fragments_from-IsCovered o (next ∷ os) h =
      cover o next (fragments_from place size (next ∷ os)) h.0 (AreOffsets-le size next os h.1)
        (fragments_from-IsCovered next os h.1)

  -- Offsets that begin with 0, increase and stay inside the data give a valid address that covers
  -- all of it.
  pub fragments_from-IsValid :
      (os : List ℕ)
      → AreOffsets size (0 ∷ os)
      → IsValid (record { fragments = fragments_from place size (0 ∷ os) })
        × (list_bytes (fragments_from place size (0 ∷ os)) ≡ span (place 0) size)
  fragments_from-IsValid os h =
      let c = fragments_from-IsCovered 0 os h in
      let all : size - 0 ≡ size = omega arith in
      (
        record { fits = c.inside; small = omega (arith, c.amount) },
        c.covers ∙ ap (span (place 0)) all,
      )
