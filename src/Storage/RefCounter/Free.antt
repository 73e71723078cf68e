-- ===== src/Storage/RefCounter/Free.antt =====
-- `free_stripes` of `src/storage/reference_counter.cpp`: the calls of the callback, and the byte
-- ranges of the stripes.
use uh_core.Base.{
  ℕ, ◌+◌, ◌-◌, ◌*◌, ◌%◌, ◌≤◌, ◌<◌, ◌≡◌, refl, sym, ap, ◌∙◌, inl, inr, List, [], ◌∷◌, ◌++◌, arith,
  append_assoc, ◌==◌, ==_iff, Bool-cases, word, add64, sub64, add64_exact, sub64_exact,
}
use uh_core.Base.Result.{Result, ok}
use uh_core.Types.Fragment.{span, span-append}
use uh_core.Storage.RefCounter.{add_freed, free_range, free_loop, free_stripes}

-- A byte range, as the callback takes it.
pub record ByteRange : Type 0 where
  pub offset : ℕ
  pub size : ℕ

-- The bytes of a list of ranges.
abbrev pub range_bytes : List ByteRange → List ℕ
range_bytes [] = []
range_bytes (c ∷ cs) = span c.offset c.size ++ range_bytes cs

module _ (stripe_size : ℕ) where
  -- The bytes of a list of stripes.
  abbrev pub stripe_bytes : List ℕ → List ℕ
  stripe_bytes [] = []
  stripe_bytes (id ∷ ids) = span (id * stripe_size) stripe_size ++ stripe_bytes ids

  -- No stripe ends beyond 64 bits.
  abbrev pub AllInside : List ℕ → Type 0
  AllInside [] = Unit {0}
  AllInside (id ∷ ids) = (id + 1 < word) × ((id + 1) * stripe_size < word) × AllInside ids

module _ {D : Type 0} (cb : D → ℕ → ℕ → D × Result ℕ) where
  -- One call for each range, until one throws; the sum of what the calls freed.
  abbrev pub free_all : D → ℕ → List ByteRange → D × Result ℕ
  free_all d freed [] = (d, ok freed)
  free_all d freed (c ∷ cs) =
      add_freed (cb d c.offset c.size) λ d' n. free_all d' (add64 freed n) cs

  module _ (stripe_size : ℕ) where
    abbrev stripes_from : ℕ → ℕ → List ℕ
    stripes_from start end = span (start * stripe_size) ((end - start + 1) * stripe_size)

    free_range_exact :
        (d : D) (start end : ℕ)
        → start ≤ end
        → end + 1 < word
        → (end + 1) * stripe_size < word
        → free_range cb stripe_size d start end
          ≡ cb d (start * stripe_size) ((end - start + 1) * stripe_size)
    unfolding free_range
    free_range_exact d start end h k l =
        let less : sub64 end start ≡ end - start = sub64_exact end start h (omega arith) in
        let one : add64 (end - start) 1 ≡ end - start + 1 =
          add64_exact (end - start) 1 (omega arith) in
        let n = end - start + 1 in
        let sum : start + n ≡ end + 1 = omega arith in
        let scaled = ap (λ (t : ℕ). t * stripe_size) sum in
        let first : start * stripe_size % word ≡ start * stripe_size = omega arith in
        let all : n * stripe_size % word ≡ n * stripe_size = omega arith in
        rw (less, one, first, all)

    stripes_longer :
        (start end : ℕ)
        → start ≤ end
        → stripes_from start (end + 1)
          ≡ stripes_from start end ++ span ((end + 1) * stripe_size) stripe_size
    stripes_longer start end h =
        let n = end - start + 1 in
        let sum : start + n ≡ end + 1 = omega arith in
        let begin : (end + 1) * stripe_size ≡ start * stripe_size + n * stripe_size =
          omega (arith, ap (λ (t : ℕ). t * stripe_size) sum) in
        let more : end + 1 - start + 1 ≡ n + 1 = omega arith in
        let size : (n + 1) * stripe_size ≡ n * stripe_size + stripe_size = omega arith in
        rw (more, begin, size)
          (sym (span-append (start * stripe_size) (n * stripe_size) stripe_size))

    stripes_single : (id : ℕ) → stripes_from id id ≡ span (id * stripe_size) stripe_size
    stripes_single id =
        ap (span (id * stripe_size))
          (let one : id - id + 1 ≡ 1 = omega arith in rw one (omega arith))

    -- The calls for the stripes from `start` to `end` and those that follow.
    free_loop_ranges :
        (start end : ℕ) (ids : List ℕ)
        → start ≤ end
        → end + 1 < word
        → (end + 1) * stripe_size < word
        → AllInside stripe_size ids
        → (calls : List ByteRange) × ((d : D) (freed : ℕ)
            → free_loop cb stripe_size d start end freed ids ≡ free_all d freed calls)
          × (range_bytes calls ≡ stripes_from start end ++ stripe_bytes stripe_size ids)
    unfolding free_loop
    free_loop_ranges start end [] h k l inside = (
      record { offset = start * stripe_size; size = (end - start + 1) * stripe_size } ∷ [],
      λ d freed.
          ap (λ r. add_freed r (λ d' n. (d', ok (add64 freed n))))
            (free_range_exact d start end h k l),
      refl,
    )
    free_loop_ranges start end (id ∷ ids) h k l inside = elim (Bool-cases (id == add64 end 1)) [
      | inl next ↦
          let here : id ≡ end + 1 = (==_iff id (add64 end 1)).0 next ∙ add64_exact end 1 k in
          let (calls, run, bytes) =
            free_loop_ranges start id ids (omega arith) inside.0 inside.1 inside.2 in
          (
            calls,
            λ d freed. rw next (run d freed),
            bytes
                ∙ rw here (ap (λ l. l ++ stripe_bytes stripe_size ids) (stripes_longer start end h))
                ∙ append_assoc (stripes_from start end) (span (id * stripe_size) stripe_size)
                    (stripe_bytes stripe_size ids),
          )
      | inr gap ↦
          let (calls, run, bytes) =
            free_loop_ranges id id ids (omega arith) inside.0 inside.1 inside.2 in
          (
            record { offset = start * stripe_size; size = (end - start + 1) * stripe_size } ∷ calls,
            λ d freed.
                rw (gap, free_range_exact d start end h k l)
                  (λ i.
                    add_freed (cb d (start * stripe_size) ((end - start + 1) * stripe_size))
                      (λ d' n. run d' (add64 freed n) i)),
            ap (λ l. stripes_from start end ++ l)
                (bytes ∙ ap (λ l. l ++ stripe_bytes stripe_size ids) (stripes_single id)),
          )
    ]

    -- `free_stripes` frees the stripes of its list in order and nothing else: it makes a sequence of
    -- calls of the callback, stopping at the first that throws and adding up what they freed, whose
    -- byte ranges in order are the bytes of the stripes. No stripe ends beyond 64 bits.
    pub free_stripes_ranges :
        (ids : List ℕ)
        → AllInside stripe_size ids
        → (calls : List ByteRange) × ((d : D)
            → free_stripes cb stripe_size d ids ≡ free_all d 0 calls)
          × (range_bytes calls ≡ stripe_bytes stripe_size ids)
    unfolding free_stripes
    free_stripes_ranges [] inside = ([], λ d. refl, refl)
    free_stripes_ranges (id ∷ ids) inside =
        let (calls, run, bytes) =
          free_loop_ranges id id ids (omega arith) inside.0 inside.1 inside.2 in
        (
          calls,
          λ d. run d 0,
          bytes ∙ ap (λ l. l ++ stripe_bytes stripe_size ids) (stripes_single id),
        )
