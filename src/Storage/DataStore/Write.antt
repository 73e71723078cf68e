-- ===== src/Storage/DataStore/Write.antt =====
-- The whole of `write` in `src/storage/default_data_store.cpp`, and the `read` of what it wrote.
use uh_core.Base.{
  ℕ, suc, ◌+◌, ◌*◌, ◌≤◌, ◌<◌, max, ◌≡◌, refl, ap, ap₂, sym, ◌∙◌, ◌⊎◌, inl, inr, true, some, List,
  [], ◌∷◌, ◌++◌, map, arith, ◌==◌, length, length-append, add64, add64_exact, word,
}
use uh_core.Base.Result.{ok, and_then}
use uh_core.Types.Fragment.{span}
use uh_core.Storage.DataStore.{
  nth, overlay, FileSystem, StoreConfig, DataStore, Allocation, allocate_files, write_buffers,
  total_size, write, read,
}
use uh_core.Storage.DataStore.Overlay.{
  overlay_inside, overlay_before, overlay_behind, overlay-append,
}
use uh_core.Storage.DataStore.Flat.{flat, IsUniform, IsLaid}
use uh_core.Storage.DataStore.Grow.{IsGrown, allocate_files-IsGrown}
use uh_core.Storage.DataStore.Refine.{write_buffer-IsLaid, read-flat}

-- The bytes of all buffers.
abbrev pub joined : List (List ℕ) → List ℕ
joined [] = []
joined (b ∷ bs) = b ++ joined bs

map-span-nth :
    (g : ℕ → ℕ) (p : ℕ) (xs : List ℕ)
    → ((i : ℕ) → i < length xs → g (p + i) ≡ nth xs i)
    → map g (span p (length xs)) ≡ xs
map-span-nth g p [] h = refl
map-span-nth g p (x ∷ xs) h =
    ap₂ ◌∷◌ (ap g (omega arith) ∙ h 0 (omega arith))
      (map-span-nth g (suc p) xs λ i k. ap g (omega arith) ∙ h (suc i) (omega arith))

module _ (fs : FileSystem) (config : StoreConfig) where
  total_size-joined :
      (acc : ℕ) (buffers : List (List ℕ))
      → acc + length (joined buffers) < word
      → total_size fs config acc buffers ≡ acc + length (joined buffers)
  total_size-joined acc [] w = omega arith
  total_size-joined acc (b ∷ bs) w =
      let both = length-append b (joined bs) in
      rw (add64_exact acc (length b) (omega arith))
        (total_size-joined (acc + length b) bs (omega arith) ∙ omega arith)

  module _ (some_bytes : 0 < config.max_file_size) (small : config.max_file_size < word) where
    pub IsLaid-append :
        (st mid last : DataStore fs) (p : ℕ) (xs ys : List ℕ)
        → IsLaid fs config some_bytes small st p xs mid
        → IsLaid fs config some_bytes small mid (p + length xs) ys last
        → IsLaid fs config some_bytes small st p (xs ++ ys) last
    IsLaid-append st mid last p xs ys a b = record {
      uniform = b.uniform;
      count = b.count ∙ a.count;
      offset = b.offset ∙ a.offset;
      laid =
          λ j. b.laid j ∙ overlay-append (flat fs config st) (flat fs config mid) p xs ys j a.laid;
    }

    write_buffers-IsLaid :
        (st : DataStore fs) (p : ℕ) (buffers : List (List ℕ))
        → IsUniform fs config st
        → p + length (joined buffers) ≤ length st.files * config.max_file_size
        → p + length (joined buffers) < word
        → (st' : DataStore fs) × (write_buffers fs config st p buffers ≡ some (ok st'))
          × IsLaid fs config some_bytes small st p (joined buffers) st'
    unfolding write_buffers
    write_buffers-IsLaid st p [] uniform inside w = (
      st,
      refl,
      record { uniform = uniform; count = refl; offset = refl; laid = λ j. ground arith },
    )
    write_buffers-IsLaid st p (b ∷ bs) uniform inside w =
        let both = length-append b (joined bs) in
        let (mid, run, a) =
          write_buffer-IsLaid fs config some_bytes small (length b) st p b (omega arith) uniform
            (omega arith) (omega arith) in
        let files = ap (λ (n : ℕ). n * config.max_file_size) a.count in
        let (last, more, c) =
          write_buffers-IsLaid mid (p + length b) bs a.uniform (omega (arith, files))
            (omega arith) in
        (last, rw (run, and_then, more), IsLaid-append st mid last p b (joined bs) a c)

    -- What a `write` yields: reading the allocation gives the buffers, one after the other, every
    -- other byte of the old files is as before, and the write offset is not before the allocation's
    -- end.
    pub record IsStored (st : DataStore fs) (a : Allocation) (bytes : List ℕ) (st' : DataStore fs)
        : Type 0 where
      pub uniform : IsUniform fs config st'
      pub reads : read fs config a.size st' a.offset a.size ≡ some (ok bytes)
      pub kept :
          (j : ℕ)
          → j < length st.files * config.max_file_size
          → (j < a.offset) ⊎ (a.offset + a.size ≤ j)
          → flat fs config st' j ≡ flat fs config st j
      pub offset : st'.write_offset ≡ max st.write_offset (a.offset + a.size)

    write_runs :
        (st mid : DataStore fs) (a : Allocation) (buffers : List (List ℕ))
        → length (joined buffers) ≡ a.size
        → a.offset + a.size < word
        → write_buffers fs config (allocate_files fs config st a.offset a.size) a.offset buffers
          ≡ some (ok mid)
        → write fs config st a buffers
          ≡ some (
              ok (record mid {
                write_offset = max mid.write_offset (a.offset + a.size);
                used_space = add64 mid.used_space a.size;
              }))
    unfolding write
    write_runs st mid a buffers amount w run =
        let all = total_size-joined 0 buffers (omega arith) in
        let test : (total_size fs config 0 buffers == a.size) ≡ true = ground arith in
        let end : add64 a.offset a.size ≡ a.offset + a.size =
          add64_exact a.offset a.size (omega arith) in
        rw (test, run, end)

    -- A `write` of as many bytes as were allocated succeeds on a store whose files have the size of
    -- the configuration. Afterwards `read` of the allocation gives the buffers one after the other,
    -- every other byte of the old files is as before, the files still have their size, and the write
    -- offset is raised to the end of the allocation where it lay before it. The allocation ends below
    -- 2^64 - 1.
    pub write-IsStored :
        (st : DataStore fs) (a : Allocation) (buffers : List (List ℕ))
        → IsUniform fs config st
        → length (joined buffers) ≡ a.size
        → a.offset + a.size + 1 < word
        → (st' : DataStore fs) × (write fs config st a buffers ≡ some (ok st'))
          × IsStored st a (joined buffers) st'
    write-IsStored st a buffers uniform amount w =
        let grown = allocate_files fs config st a.offset a.size in
        let g : IsGrown fs config some_bytes small st (a.offset + a.size) grown =
          allocate_files-IsGrown fs config some_bytes small st a.offset a.size uniform w in
        let (mid, run, l) =
          write_buffers-IsLaid grown a.offset buffers g.uniform (omega (arith, g.room))
            (omega arith) in
        let files = ap (λ (n : ℕ). n * config.max_file_size) l.count in
        let st' : DataStore fs = record mid {
          write_offset = max mid.write_offset (a.offset + a.size);
          used_space = add64 mid.used_space a.size;
        } in
        (
          st',
          write_runs st mid a buffers amount (omega arith) run,
          record {
            uniform = l.uniform;
            reads =
                read-flat fs config some_bytes small a.size st' a.offset a.size (omega arith)
                  l.uniform (omega (arith, files, g.room)) (omega arith)
                ∙ ap (λ x. some (ok x))
                    (ap (λ (n : ℕ). map (flat fs config st') (span a.offset n)) (sym amount)
                      ∙ map-span-nth (flat fs config st') a.offset (joined buffers) λ i h.
                        l.laid (a.offset + i)
                        ∙ overlay_inside (flat fs config grown) a.offset (joined buffers)
                            (a.offset + i) (omega arith) (omega arith)
                        ∙ ap (nth (joined buffers)) (omega arith));
            kept = λ j h outside.
                l.laid j
                ∙ outside_kept (flat fs config grown) a.offset (joined buffers) j
                    (elim outside [ inl before ↦ inl before | inr behind ↦ inr (omega arith) ])
                ∙ g.kept j h;
            offset = ap (λ (n : ℕ). max n (a.offset + a.size)) (l.offset ∙ g.offset);
          },
        )
      where
        outside_kept :
            (view : ℕ → ℕ) (p : ℕ) (bytes : List ℕ) (j : ℕ)
            → (j < p) ⊎ (p + length bytes ≤ j)
            → overlay view p bytes j ≡ view j
        outside_kept view p bytes j (inl before) = overlay_before view p bytes j before
        outside_kept view p bytes j (inr behind) = overlay_behind view p bytes j behind
