-- ===== src/Storage/EcDataView/Read/Buffer.antt =====
-- The buffer of `read_address` of `src/storage/group/ec_data_view.cpp`: what was read is what
-- `target` says, wherever a piece was copied.
use uh_core.Base.{
  ℕ, suc, ◌+◌, ◌*◌, ◌/◌, ◌%◌, ◌≤◌, ◌<◌, ◌==◌, ◌≡◌, refl, ap, sym, ◌∙◌, ◌⊎◌, inl, inr, Bool,
  Bool-cases, true, false, ◌&&◌, if◌then◌else◌, none, some, List, [], ◌∷◌, map, length, arith,
  ==_iff, word,
}
use uh_core.Base.Result.{Result, ok, throws, Failure}
use uh_core.Storage.EcDataView.Read.{
  Piece, Pieces, Buffer, copy_to, copy_all, has_key, try_read, read_from_storages,
}

abbrev pub IsCovered : Piece → ℕ → Type 0
IsCovered p n = (p.offset ≤ n) × (n < p.offset + p.size)

abbrev pub Covers : List Piece → ℕ → Type 0
Covers [] n = ⊥
Covers (p ∷ ps) n = IsCovered p n ⊎ Covers ps n

abbrev pub CoversMap : Pieces → ℕ → Type 0
CoversMap [] n = ⊥
CoversMap ((id, ps) ∷ m) n = Covers ps n ⊎ CoversMap m n

-- A piece that ends in the chunk in which it begins.
abbrev pub AllInChunk : ℕ → List Piece → Type 0
AllInChunk chunk [] = Unit {0}
AllInChunk chunk (p ∷ ps) = (p.pointer % chunk + p.size ≤ chunk) × AllInChunk chunk ps

module _ (target : ℕ → ℕ) where
  abbrev pub IsRight : Buffer → ℕ → Type 0
  IsRight buffer n = buffer n ≡ target n

  -- These bytes are the target from `offset` on.
  abbrev pub AreRight : ℕ → List ℕ → Type 0
  AreRight offset [] = Unit {0}
  AreRight offset (b ∷ bs) = (b ≡ target offset) × AreRight (suc offset) bs

  pub copy_to-IsRight :
      (buffer : Buffer) (offset : ℕ) (bs : List ℕ) (n : ℕ)
      → AreRight offset bs
      → IsRight buffer n
      → IsRight (copy_to buffer offset bs) n
  unfolding copy_to
  copy_to-IsRight buffer offset [] n r h = h
  copy_to-IsRight buffer offset (b ∷ bs) n (r, rs) h = elim (Bool-cases (n == offset)) [
    | inl here ↦ rw here (r ∙ ap target (sym ((==_iff n offset).0 here)))
    | inr other ↦ rw other (copy_to-IsRight buffer (suc offset) bs n rs h)
  ]

  pub copy_to-covers :
      (buffer : Buffer) (offset : ℕ) (bs : List ℕ) (n : ℕ)
      → AreRight offset bs
      → offset ≤ n
      → n < offset + length bs
      → IsRight (copy_to buffer offset bs) n
  unfolding copy_to
  copy_to-covers buffer offset [] n r low high = absurd (omega arith)
  copy_to-covers buffer offset (b ∷ bs) n (r, rs) low high = elim (Bool-cases (n == offset)) [
    | inl here ↦ rw here (r ∙ ap target (sym ((==_iff n offset).0 here)))
    | inr other ↦ rw other (copy_to-covers buffer (suc offset) bs n rs (ground arith) (omega arith))
  ]

module _ (chunk shards : ℕ) (target : ℕ → ℕ) where
  -- `slice` gives the bytes of a piece.
  module _ (slice : Piece → List ℕ) where
    abbrev pub AllGood : List Piece → Type 0
    AllGood [] = Unit {0}
    AllGood (p ∷ ps) =
        (AreRight target p.offset (slice p)
          × (length (slice p) ≡ p.size)
          × (p.pointer % chunk + p.size ≤ chunk)
          × ((p.pointer / chunk + 1) * (chunk * shards) ≤ word))
        × AllGood ps

    pub AllGood-AllInChunk : (ps : List Piece) → AllGood ps → AllInChunk chunk ps
    AllGood-AllInChunk [] good = tt
    AllGood-AllInChunk (p ∷ ps) ((r, size, inside, small), good) =
        (inside, AllGood-AllInChunk ps good)

    pub copy_all-IsRight :
        (buffer : Buffer) (ps : List Piece) (n : ℕ)
        → AllGood ps
        → IsRight target buffer n ⊎ Covers ps n
        → IsRight target (copy_all buffer ps (map slice ps)) n
    unfolding copy_all
    copy_all-IsRight buffer [] n good (inl h) = h
    copy_all-IsRight buffer [] n good (inr c) = elim c [ ]
    copy_all-IsRight buffer (p ∷ ps) n ((r, size, inside, small), good) (inl h) =
        copy_all-IsRight (copy_to buffer p.offset (slice p)) ps n good
          (inl (copy_to-IsRight target buffer p.offset (slice p) n r h))
    copy_all-IsRight buffer (p ∷ ps) n ((r, size, inside, small), good) (inr (inl (low, high))) =
        copy_all-IsRight (copy_to buffer p.offset (slice p)) ps n good
          (inl (copy_to-covers target buffer p.offset (slice p) n r low (omega arith)))
    copy_all-IsRight buffer (p ∷ ps) n ((r, size, inside, small), good) (inr (inr c)) =
        copy_all-IsRight (copy_to buffer p.offset (slice p)) ps n good (inr c)

  -- What storage `id` holds for a piece.
  module _ (slices : ℕ → Piece → List ℕ) where
    abbrev pub AllGoodMap : Pieces → Type 0
    AllGoodMap [] = Unit {0}
    AllGoodMap ((id, ps) ∷ m) = (id < shards) × AllGood (slices id) ps × AllGoodMap m

    module _ (usable up : ℕ → Bool) (ask : ℕ → List Piece → Result (List (List ℕ)))
        (error : Failure)
        (honest : (id : ℕ) (ps : List Piece)
          → AllInChunk chunk ps
          → ask id ps ≡ (if up id then ok (map (slices id) ps) else throws error)) where
      try_read-up :
          (id : ℕ) (ps : List Piece)
          → AllGood (slices id) ps
          → (usable id && up id) ≡ true
          → try_read usable ask id ps ≡ some (map (slices id) ps)
      try_read-up id ps good e =
          let u : usable id ≡ true = ground arith in
          let v : up id ≡ true = ground arith in
          rw (u, honest id ps (AllGood-AllInChunk (slices id) ps good), v) refl

      try_read-down :
          (id : ℕ) (ps : List Piece)
          → AllGood (slices id) ps
          → (usable id && up id) ≡ false
          → try_read usable ask id ps ≡ none
      try_read-down id ps good e = elim (Bool-cases (usable id)) [
        | inr u ↦ rw u refl
        | inl u ↦
            let v : up id ≡ false = ground arith in
            rw (u, honest id ps (AllGood-AllInChunk (slices id) ps good), v) refl
      ]

      -- What the first reads do: what they do not bring is left in `failed`.
      pub record IsRead (buffer : Buffer) (m : Pieces) (buffer' : Buffer) (failed : Pieces)
          : Type 0 where
        pub keeps : (n : ℕ) → IsRight target buffer n → IsRight target buffer' n
        pub covers : (n : ℕ) → CoversMap m n → IsRight target buffer' n ⊎ CoversMap failed n
        pub good : AllGoodMap failed
        pub dead : (i : ℕ) → has_key i failed ≡ true → (usable i && up i) ≡ false

      pub read_from_storages-IsRead :
          (buffer : Buffer) (m : Pieces)
          → AllGoodMap m
          → IsRead buffer m
              (read_from_storages usable ask buffer m).0
              (read_from_storages usable ask buffer m).1
      unfolding read_from_storages
      read_from_storages-IsRead buffer [] good = record {
        keeps = λ n h. h;
        covers = λ n c. elim c [ ];
        good = tt;
        dead = λ i e. absurd (ground arith);
      }
      read_from_storages-IsRead buffer ((id, ps) ∷ m) (known, good, goods) =
          elim (Bool-cases (usable id && up id)) [
            | inl alive ↦
                let rest =
                  read_from_storages-IsRead (copy_all buffer ps (map (slices id) ps)) m goods in
                rw (try_read-up id ps good alive, read_from_storages)
                  (record {
                    keeps =
                        λ n h. rest.keeps n (copy_all-IsRight (slices id) buffer ps n good (inl h));
                    covers = λ n c. elim c [
                      | inl here ↦
                          inl (
                            rest.keeps n (copy_all-IsRight (slices id) buffer ps n good (inr here)))
                      | inr later ↦ rest.covers n later
                    ];
                    good = rest.good;
                    dead = rest.dead;
                  })
            | inr down ↦
                let rest = read_from_storages-IsRead buffer m goods in
                rw (try_read-down id ps good down, read_from_storages)
                  (record {
                    keeps = rest.keeps;
                    covers = λ n c. elim c [
                      | inl here ↦ inr (inl here)
                      | inr later ↦ elim (rest.covers n later) [
                        | inl right ↦ inl right
                        | inr left ↦ inr (inr left)
                      ]
                    ];
                    good = (known, good, rest.good);
                    dead = λ i e. elim (Bool-cases (id == i)) [
                      | inl same ↦
                          ap (λ (t : ℕ). usable t && up t) (sym ((==_iff id i).0 same)) ∙ down
                      | inr other ↦ rest.dead i (ground arith)
                    ];
                  })
          ]
