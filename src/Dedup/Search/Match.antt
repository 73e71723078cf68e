-- ===== src/Dedup/Search/Match.antt =====
-- `match_size` of `src/deduplicator/interfaces/local_deduplicator.cpp`, against what storage
-- holds.
use uh_core.Base.{
  ℕ, ◌+◌, ◌≤◌, ◌<◌, max, ◌≡◌, refl, ap, ap₂, sym, ◌∙◌, false, inl, inr, Option, none, some, List,
  [], ◌∷◌, ◌++◌, map, arith, ltb, ltb→lt, not-ltb→le, le→not-ltb, ◌==◌, ==_iff, if◌then◌else◌,
  Bool-cases, length, take, drop, map-take, take_add, length-drop, add64, add64_exact, word,
}
use uh_core.Base.Result.{Result, ok}
use uh_core.Types.Fragment.{Fragment, span, take-span}
use uh_core.Dedup.Search.{largest_common_prefix, match_size}

-- The two lists agree as far as `largest_common_prefix` counts, and neither is shorter.
pub largest_common_prefix_lem :
    (xs ys : List ℕ)
    → (take (largest_common_prefix xs ys) xs ≡ take (largest_common_prefix xs ys) ys)
      × (largest_common_prefix xs ys ≤ length xs)
      × (largest_common_prefix xs ys ≤ length ys)
unfolding largest_common_prefix
largest_common_prefix_lem [] ys = (refl, omega arith, omega arith)
largest_common_prefix_lem (x ∷ xs) [] = (refl, omega arith, omega arith)
largest_common_prefix_lem (x ∷ xs) (y ∷ ys) =
    let (same, left, right) = largest_common_prefix_lem xs ys in
    elim (Bool-cases (x == y)) [
      | inl equal ↦ rw equal (ap₂ ◌∷◌ ((==_iff x y).0 equal) same, omega arith, omega arith)
      | inr differ ↦ rw differ (refl, omega arith, omega arith)
    ]

module _ (content : ℕ → ℕ) (read : ℕ → ℕ → Result (List ℕ)) where
  -- What storage holds at a pointer.
  abbrev pub held_at : ℕ → ℕ → List ℕ
  held_at p n = map content (span p n)

  -- What the code relies on for a fragment that the set yields: its prefix is what storage holds
  -- at its pointer, and reading the fragment yields at least the prefix, and what storage holds.
  -- The cache may yield more than was asked for.
  pub record IsNeighbour (f : Fragment) (prefix : List ℕ) : Type 0 where
    pub complete : List ℕ
    pub reads : read f.pointer f.size ≡ ok complete
    pub known : prefix ≡ held_at f.pointer (length prefix)
    pub whole : complete ≡ held_at f.pointer (length complete)
    pub covers : length prefix ≤ length complete

  abbrev pub IsCandidate : Option (Fragment × List ℕ) → Type 0
  IsCandidate none = Unit {0}
  IsCandidate (some (f, prefix)) = IsNeighbour f prefix

  -- What a match of `n` bytes promises.
  abbrev pub IsMatch : List ℕ → ℕ → Option (Fragment × List ℕ) → Type 0
  IsMatch bytes n none = n ≡ 0
  IsMatch bytes n (some (f, prefix)) = (n ≤ length bytes) × (take n bytes ≡ held_at f.pointer n)

  take-held :
      (p k : ℕ) (bs : List ℕ) → bs ≡ held_at p (length bs) → k ≤ length bs → take k bs ≡ held_at p k
  take-held p k bs e h =
      ap (take k) e
      ∙ sym (map-take content k (span p (length bs)))
      ∙ ap (map content) (take-span k p (length bs) ∙ ap (span p) (omega arith))

  -- The part of the prefix that agrees.
  prefix_match :
      (bytes : List ℕ) (f : Fragment) (prefix : List ℕ)
      → IsNeighbour f prefix
      → take (largest_common_prefix prefix bytes) bytes
        ≡ held_at f.pointer (largest_common_prefix prefix bytes)
  prefix_match bytes f prefix k =
      let (same, left, right) = largest_common_prefix_lem prefix bytes in
      sym same ∙ take-held f.pointer (largest_common_prefix prefix bytes) prefix k.known left

  -- The agreement of the whole, where the prefix agrees to its end.
  whole_match :
      (bytes : List ℕ) (f : Fragment) (prefix : List ℕ) (k : IsNeighbour f prefix) (c n : ℕ)
      → c ≤ length k.complete
      → take c bytes ≡ held_at f.pointer c
      → n ≤ length (drop c k.complete)
      → take n (drop c bytes) ≡ take n (drop c k.complete)
      → take (c + n) bytes ≡ held_at f.pointer (c + n)
  whole_match bytes f prefix k c n inside front fits back =
      sym (take_add c n bytes)
      ∙ ap₂ ◌++◌ (front ∙ sym (take-held f.pointer c k.complete k.whole inside)) back
      ∙ take_add c n k.complete
      ∙ take-held f.pointer (c + n) k.complete k.whole (omega (arith, length-drop c k.complete))

  -- `match_size` succeeds, and its bytes of the data are held in storage at the fragment's pointer,
  -- also where the match goes on beyond the prefix.
  pub match_size-IsMatch :
      (bytes : List ℕ) (near : Option (Fragment × List ℕ))
      → length bytes < word
      → IsCandidate near
      → (n : ℕ) × (match_size read bytes near ≡ ok n) × IsMatch bytes n near
  unfolding match_size
  match_size-IsMatch bytes none w k = (0, refl, refl)
  match_size-IsMatch bytes (some (f, prefix)) w k =
      let c = largest_common_prefix prefix bytes in
      let common = largest_common_prefix_lem prefix bytes in
      let front = prefix_match bytes f prefix k in
      elim (Bool-cases (ltb c (length prefix))) [
        | inl part ↦ (c, rw part, (common.2, front))
        | inr all ↦
            let n = largest_common_prefix (drop c bytes) (drop c k.complete) in
            let (same, left, right) =
              largest_common_prefix_lem (drop c bytes) (drop c k.complete) in
            let inside : ltb (length k.complete) c ≡ false =
              le→not-ltb (length k.complete) c (omega (arith, common.1, k.covers)) in
            let fits : c + n ≤ length bytes = omega (arith, common.2, left, length-drop c bytes) in
            let exact : add64 c n ≡ c + n = add64_exact c n (omega arith) in
            (
              c + n,
              rw (all, k.reads, inside, exact),
              (
                fits,
                whole_match bytes f prefix k c n (omega (arith, common.1, k.covers)) front right
                    same,
              ),
            )
      ]

  -- The candidate that the code takes is there, and matches as many bytes as it says.
  pub chosen_lem :
      (bytes : List ℕ) (low high : Option (Fragment × List ℕ)) (m n : ℕ)
      → IsMatch bytes m low
      → IsMatch bytes n high
      → 0 < max m n
      → (f : Fragment) × (prefix : List ℕ) × ((if ltb n m then low else high) ≡ some (f, prefix))
        × IsMatch bytes (max m n) (some (f, prefix))
  chosen_lem bytes low high m n l h pos = elim (Bool-cases (ltb n m)) [
    | inl lower ↦
        let same : max m n ≡ m = omega (arith, ltb→lt n m lower) in
        rw (lower, same) (there low m l (omega arith))
    | inr upper ↦
        let same : max m n ≡ n = omega (arith, not-ltb→le n m upper) in
        rw (upper, same) (there high n h (omega arith))
  ]
    where
      there :
          (near : Option (Fragment × List ℕ)) (k : ℕ)
          → IsMatch bytes k near
          → 0 < k
          → (f : Fragment) × (prefix : List ℕ) × (near ≡ some (f, prefix))
            × IsMatch bytes k (some (f, prefix))
      there none k e p = absurd (omega arith)
      there (some (f, prefix)) k e p = (f, prefix, refl, e)
