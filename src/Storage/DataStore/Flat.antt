-- ===== src/Storage/DataStore/Flat.antt =====
-- The abstract view of `src/storage/default_data_store.cpp`: one sequence of bytes, and what one
-- round of the loop of `write` does to it.
use native.Mathlib.Nat.{mod-lt, div-lt_iff_lt-mul}
use uh_core.Base.{
  ℕ, suc, ◌+◌, ◌-◌, ◌*◌, ◌/◌, ◌%◌, ◌≤◌, ◌<◌, min, ◌≡◌, refl, ap, sym, ◌∙◌, false, inl, inr, Option,
  none, some, List, ◌∷◌, arith, ltb, ◌==◌, ==_iff, Bool-cases, length, take, drop, length-take,
  get_elem?, drop-get_elem?, set_elem, length-set_elem, get_elem?-set_elem_self,
  get_elem?-set_elem_other, add64, sub64, add64_exact, sub64_exact, word,
}
use uh_core.Base.Result.{ok}
use uh_core.Storage.DataStore.{
  nth, overlay, FileSystem, StoreConfig, DataFile, DataStore, file_write, file_location,
  write_buffer,
}
use uh_core.Storage.DataStore.Overlay.{
  overlay_inside, overlay_before, overlay_behind, same_file, file_place,
}

overlay_moved :
    (view view' : ℕ → ℕ) (p q j i : ℕ) (bytes : List ℕ)
    → j + q ≡ p + i
    → view' i ≡ view j
    → overlay view' q bytes i ≡ overlay view p bytes j
overlay_moved view view' p q j i bytes place same = elim (Bool-cases (ltb i q)) [
  | inl before ↦
      overlay_before view' q bytes i (ground arith)
      ∙ same
      ∙ sym (overlay_before view p bytes j (ground arith))
  | inr later ↦ elim (Bool-cases (ltb i (q + length bytes))) [
    | inl inside ↦
        overlay_inside view' q bytes i (ground arith) (ground arith)
        ∙ ap (nth bytes) (ground arith)
        ∙ sym (overlay_inside view p bytes j (ground arith) (ground arith))
    | inr behind ↦
        overlay_behind view' q bytes i (ground arith)
        ∙ same
        ∙ sym (overlay_behind view p bytes j (ground arith))
  ]
]

module _ (fs : FileSystem) (config : StoreConfig) where
  open fs use {File, byte, byte-pwrite}

  abbrev pub file_byte : Option (DataFile fs) → ℕ → ℕ
  file_byte none offset = 0
  file_byte (some f) offset = byte f.file offset

  -- The byte at a pointer of the storage.
  abbrev pub flat : DataStore fs → ℕ → ℕ
  flat st p = file_byte (get_elem? st.files (p / config.max_file_size)) (p % config.max_file_size)

  -- All files have the size of the configuration.
  abbrev pub IsUniform : DataStore fs → Type 0
  IsUniform st =
      (i : ℕ) (f : DataFile fs) → get_elem? st.files i ≡ some f → f.filesize ≡ config.max_file_size

  module _ (some_bytes : 0 < config.max_file_size) (small : config.max_file_size < word) where
    -- A pointer that is in one of the files.
    pub IsInside-location :
        (st : DataStore fs) (p : ℕ)
        → p < length st.files * config.max_file_size
        → (f : DataFile fs) × (get_elem? st.files (p / config.max_file_size) ≡ some f)
          × (file_location fs config st p
              ≡ ok (p / config.max_file_size, f, p % config.max_file_size))
    unfolding file_location
    IsInside-location st p h =
        let (f, found, rest) =
          drop-get_elem? st.files (p / config.max_file_size) ((div-lt_iff_lt-mul some_bytes).1 h) in
        (f, found, rw (found, file_location))

    -- One file replaced.
    abbrev pub replaced : DataStore fs → ℕ → DataFile fs → DataStore fs
    replaced st p f' = record st { files = set_elem st.files (p / config.max_file_size) f' }

    pub flat-replaced :
        (st : DataStore fs) (p : ℕ) (f f' : DataFile fs) (bytes : List ℕ)
        → get_elem? st.files (p / config.max_file_size) ≡ some f
        → p / config.max_file_size < length st.files
        → length bytes ≤ config.max_file_size - p % config.max_file_size
        → ((i : ℕ) → byte f'.file i ≡ overlay (byte f.file) (p % config.max_file_size) bytes i)
        → (j : ℕ) → flat (replaced st p f') j ≡ overlay (flat st) p bytes j
    flat-replaced st p f f' bytes found inside fits law j =
        elim (Bool-cases (p / config.max_file_size == j / config.max_file_size)) [
          | inl same ↦
              let eq : p / config.max_file_size ≡ j / config.max_file_size =
                (==_iff (p / config.max_file_size) (j / config.max_file_size)).0 same in
              let old : get_elem? st.files (j / config.max_file_size) ≡ some f =
                ap (get_elem? st.files) (sym eq) ∙ found in
              let new : get_elem? (replaced st p f').files (j / config.max_file_size) ≡ some f' =
                ap (get_elem? (replaced st p f').files) (sym eq)
                ∙ get_elem?-set_elem_self st.files (p / config.max_file_size) f' inside in
              ap (λ o. file_byte o (j % config.max_file_size)) new
              ∙ law (j % config.max_file_size)
              ∙ overlay_moved (flat st) (byte f.file) p (p % config.max_file_size) j
                  (j % config.max_file_size) bytes
                  (file_place config.max_file_size some_bytes p j (sym eq))
                  (ap (λ o. file_byte o (j % config.max_file_size)) (sym old))
          | inr differ ↦
              let new : flat (replaced st p f') j ≡ flat st j =
                ap (λ o. file_byte o (j % config.max_file_size))
                  (get_elem?-set_elem_other st.files (p / config.max_file_size)
                    (j / config.max_file_size) f' λ e. ground arith) in
              elim (Bool-cases (ltb j p)) [
                | inl before ↦ new ∙ sym (overlay_before (flat st) p bytes j (ground arith))
                | inr later ↦ elim (Bool-cases (ltb j (p + length bytes))) [
                  | inl within ↦
                      let at_p =
                        same_file config.max_file_size some_bytes p j (ground arith)
                          (ground arith) in
                      absurd (ground arith)
                  | inr behind ↦ new ∙ sym (overlay_behind (flat st) p bytes j (ground arith))
                ]
              ]
        ]

    -- What a write does: the bytes are laid over the view, and no file is added or changes its size.
    pub record IsLaid (st : DataStore fs) (p : ℕ) (bytes : List ℕ) (st' : DataStore fs)
        : Type 0 where
      pub uniform : IsUniform st'
      pub count : length st'.files ≡ length st.files
      pub offset : st'.write_offset ≡ st.write_offset
      pub laid : (j : ℕ) → flat st' j ≡ overlay (flat st) p bytes j

    pub IsUniform-replaced :
        (st : DataStore fs) (p : ℕ) (f' : DataFile fs)
        → IsUniform st
        → p / config.max_file_size < length st.files
        → f'.filesize ≡ config.max_file_size
        → IsUniform (replaced st p f')
    IsUniform-replaced st p f' uniform inside size i f e =
        elim (Bool-cases (p / config.max_file_size == i)) [
          | inl same ↦
              let eq : p / config.max_file_size ≡ i =
                (==_iff (p / config.max_file_size) i).0 same in
              let new : get_elem? (replaced st p f').files i ≡ some f' =
                ap (get_elem? (replaced st p f').files) (sym eq)
                ∙ get_elem?-set_elem_self st.files (p / config.max_file_size) f' inside in
              let there : some f' ≡ some f = sym new ∙ e in cc
          | inr differ ↦ uniform i f (
              sym (
                get_elem?-set_elem_other st.files (p / config.max_file_size) i f'
                  λ eq. ground arith)
              ∙ e)
        ]

    -- The file after one round of the loop.
    abbrev pub round_file : DataFile fs → ℕ → List ℕ → ℕ → DataFile fs
    round_file f p bytes t = record f {
      file = fs.pwrite f.file (p % config.max_file_size) (take t bytes);
      used = add64 f.used t;
    }

    pub round-IsLaid :
        (st : DataStore fs) (p : ℕ) (f : DataFile fs) (bytes : List ℕ) (t : ℕ)
        → get_elem? st.files (p / config.max_file_size) ≡ some f
        → IsUniform st
        → p / config.max_file_size < length st.files
        → t ≤ config.max_file_size - p % config.max_file_size
        → IsLaid st p (take t bytes) (replaced st p (round_file f p bytes t))
    round-IsLaid st p f bytes t found uniform inside fits = record {
      uniform =
          IsUniform-replaced st p (round_file f p bytes t) uniform inside
            (uniform (p / config.max_file_size) f found);
      count = length-set_elem st.files (p / config.max_file_size) (round_file f p bytes t);
      offset = refl;
      laid =
          flat-replaced st p f (round_file f p bytes t) (take t bytes) found inside
            (omega (arith, length-take t bytes))
            (byte-pwrite f.file (p % config.max_file_size) (take t bytes));
    }

    pub round_runs :
        (k : ℕ) (st : DataStore fs) (p : ℕ) (f : DataFile fs) (b : ℕ) (bs : List ℕ) (t : ℕ)
        → t ≡ min (config.max_file_size - p % config.max_file_size) (suc (length bs))
        → get_elem? st.files (p / config.max_file_size) ≡ some f
        → f.filesize ≡ config.max_file_size
        → p + t < word
        → write_buffer fs config (suc k) st p (b ∷ bs)
          ≡ write_buffer fs config k
              (replaced st p (round_file f p (b ∷ bs) t))
              (p + t)
              (drop t (b ∷ bs))
    unfolding write_buffer file_location file_write
    round_runs k st p f b bs t amount found size w =
        let less = mod-lt p some_bytes in
        let room : sub64 config.max_file_size (p % config.max_file_size)
            ≡ config.max_file_size - p % config.max_file_size =
          sub64_exact config.max_file_size (p % config.max_file_size) (omega arith) small in
        let test : (t == 0) ≡ false = ground arith in
        let moved : add64 p t ≡ p + t = add64_exact p t w in
        rw (found, file_location, size, room, sym amount, test, moved)
