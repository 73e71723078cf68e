-- ===== src/Storage/DataStore/Grow.antt =====
-- `allocate_files` of `src/storage/default_data_store.cpp`.
use native.Mathlib.Nat.{div-le_self, div-lt_iff_lt-mul}
use uh_core.Base.{
  ℕ, zero, suc, ◌+◌, ◌-◌, ◌*◌, ◌/◌, ◌%◌, ◌≤◌, ◌<◌, ◌≡◌, refl, ap, ◌∙◌, inl, inr, some, List, [],
  ◌∷◌, ◌++◌, arith, leb, Bool-cases, length, length-append, get_elem?, add64, sub64, add64_exact,
  sub64_exact, word,
}
use uh_core.Storage.DataStore.{
  FileSystem, StoreConfig, DataFile, DataStore, new_files, allocate_files,
}
use uh_core.Storage.DataStore.Flat.{file_byte, flat, IsUniform}

get_elem?-append_left :
    {A : Type 0} (xs ys : List A) (i : ℕ) → i < length xs → get_elem? (xs ++ ys) i ≡ get_elem? xs i
get_elem?-append_left [] ys i h = absurd (omega arith)
get_elem?-append_left (x ∷ xs) ys zero h = refl
get_elem?-append_left (x ∷ xs) ys (suc i) h = get_elem?-append_left xs ys i (omega arith)

module _ (fs : FileSystem) (config : StoreConfig) where
  length-new_files : (n : ℕ) → length (new_files fs config n) ≡ n
  unfolding new_files
  length-new_files zero = refl
  length-new_files (suc n) = ap suc (length-new_files n)

  new_files_size :
      (n i : ℕ) (f : DataFile fs)
      → get_elem? (new_files fs config n) i ≡ some f
      → f.filesize ≡ config.max_file_size
  unfolding new_files
  new_files_size zero i f e = cc
  new_files_size (suc n) zero f e = cc
  new_files_size (suc n) (suc i) f e = new_files_size n i f e

  files_size :
      (xs : List (DataFile fs)) (n : ℕ)
      → ((i : ℕ) (f : DataFile fs) → get_elem? xs i ≡ some f → f.filesize ≡ config.max_file_size)
      → (i : ℕ) (f : DataFile fs) → get_elem? (xs ++ new_files fs config n) i ≡ some f
      → f.filesize ≡ config.max_file_size
  files_size [] n h i f e = new_files_size n i f e
  files_size (x ∷ xs) n h zero f e = h 0 f e
  files_size (x ∷ xs) n h (suc i) f e = files_size xs n (λ k g. h (suc k) g) i f e

  module _ (some_bytes : 0 < config.max_file_size) (small : config.max_file_size < word) where
    -- What `allocate_files` yields: room for the allocation, and the old bytes.
    pub record IsGrown (st : DataStore fs) (last : ℕ) (st' : DataStore fs) : Type 0 where
      pub uniform : IsUniform fs config st'
      pub room : last < length st'.files * config.max_file_size
      pub kept :
          (j : ℕ)
          → j < length st.files * config.max_file_size
          → flat fs config st' j ≡ flat fs config st j
      pub offset : st'.write_offset ≡ st.write_offset

    pub allocate_files-IsGrown :
        (st : DataStore fs) (offset size : ℕ)
        → IsUniform fs config st
        → offset + size + 1 < word
        → IsGrown st (offset + size) (allocate_files fs config st offset size)
    unfolding allocate_files
    allocate_files-IsGrown st offset size uniform w =
        let sum : add64 offset size ≡ offset + size = add64_exact offset size (omega arith) in
        let q = (offset + size) / config.max_file_size in
        let few : q ≤ offset + size = div-le_self (offset + size) config.max_file_size in
        let required : add64 q 1 ≡ q + 1 = add64_exact q 1 (omega arith) in
        elim (Bool-cases (leb (q + 1) (length st.files))) [
          | inl enough ↦
              rw (sum, required, enough)
                (record {
                  uniform = uniform;
                  room = (div-lt_iff_lt-mul some_bytes).0 (ground arith);
                  kept = λ j h. refl;
                  offset = refl;
                })
          | inr more ↦
              let n : sub64 (q + 1) (length st.files) ≡ q + 1 - length st.files =
                sub64_exact (q + 1) (length st.files) (ground arith) (omega arith) in
              let files = st.files ++ new_files fs config (q + 1 - length st.files) in
              let count : length files ≡ q + 1 =
                length-append st.files (new_files fs config (q + 1 - length st.files))
                ∙ ground (arith, length-new_files (q + 1 - length st.files)) in
              rw (sum, required, more, n)
                (record {
                  uniform = files_size st.files (q + 1 - length st.files) uniform;
                  room = (div-lt_iff_lt-mul some_bytes).0 (omega (arith, count));
                  kept = λ j h.
                      ap (λ o. file_byte fs config o (j % config.max_file_size))
                        (get_elem?-append_left st.files
                          (new_files fs config (q + 1 - length st.files)) (j / config.max_file_size)
                          ((div-lt_iff_lt-mul some_bytes).1 h));
                  offset = refl;
                })
        ]
