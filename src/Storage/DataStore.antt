-- ===== src/Storage/DataStore.antt =====
-- `src/storage/default_data_store.cpp` and `data_file.cpp`: the bytes of a storage lie in files of one
-- size. The files of the operating system are a parameter, whose calls do not fail here; locks,
-- atomics, metadata and `fsync` are left out. What an exception leaves
-- behind is not kept.
pub mod Overlay
pub mod Flat
pub mod Refine
pub mod Grow
pub mod Write
pub mod Allocate
pub mod Delete
mod Tests
use uh_core.Base.{
  ℕ, zero, suc, ◌+◌, ◌*◌, ◌/◌, ◌%◌, ◌<◌, ◌≤◌, min, max, ◌≡◌, refl, Bool, Option, none, some, List,
  [], ◌∷◌, ◌++◌, map, ◌-◌, ◌&&◌, Bool, true, ltb, leb, ◌==◌, if◌then◌else◌, length, take, drop,
  get_elem?, set_elem, add64, sub64,
}
use uh_core.Base.Result.{
  and_then, Result, ok, throws, runtime_error, out_of_range, invalid_argument, ◌>>=◌,
}
use uh_core.Types.Fragment.{span}

-- The byte at a place of a list, 0 outside.
abbrev pub nth : List ℕ → ℕ → ℕ
nth [] i = 0
nth (b ∷ bs) zero = b
nth (b ∷ bs) (suc i) = nth bs i

-- The bytes of a view with a list laid over them from a place on.
abbrev pub overlay : (ℕ → ℕ) → ℕ → List ℕ → ℕ → ℕ
overlay view offset bytes j =
    if leb offset j && ltb j (offset + length bytes) then nth bytes (j - offset) else view j

-- What the code relies on, of files: `pwrite`, and `fallocate` with `FALLOC_FL_PUNCH_HOLE`. `byte`
-- is what `pread` gets to see.
pub record FileSystem : Type 1 where
  pub File : Type 0
  pub new_file : File
  pub byte : File → ℕ → ℕ
  pub pwrite : File → ℕ → List ℕ → File
  pub punch : File → ℕ → ℕ → File
  pub byte-pwrite :
      (f : File) (offset : ℕ) (bytes : List ℕ) (j : ℕ)
      → byte (pwrite f offset bytes) j ≡ overlay (byte f) offset bytes j
  pub byte-punch :
      (f : File) (offset n j : ℕ)
      → byte (punch f offset n) j ≡ overlay (byte f) offset (map (λ i. 0) (span 0 n)) j

pub record StoreConfig : Type 0 where
  pub max_file_size : ℕ
  pub max_data_store_size : ℕ

pub record Allocation : Type 0 where
  pub offset : ℕ
  pub size : ℕ

-- The sum of `allocate`: the start of the allocation.
abbrev pub aligned : ℕ → ℕ → ℕ
aligned offset alignment =
    if offset % alignment == 0 then offset else add64 offset (sub64 alignment (offset % alignment))

module _ (fs : FileSystem) where
  open fs use {File, new_file, byte, pwrite, punch}

  -- `data_file`: the file, and its counter of used bytes.
  pub record DataFile : Type 0 where
    pub file : File
    pub used : ℕ
    pub filesize : ℕ

  unfoldable pub file_write : DataFile → ℕ → List ℕ → DataFile × ℕ
  file_write f offset buffer =
      let size = min (sub64 f.filesize offset) (length buffer) in
      (record f { file = pwrite f.file offset (take size buffer); used = add64 f.used size }, size)

  unfoldable pub file_read : DataFile → ℕ → ℕ → List ℕ
  file_read f offset n = map (byte f.file) (span offset (min (sub64 f.filesize offset) n))

  unfoldable pub file_release : DataFile → ℕ → ℕ → DataFile × ℕ
  file_release f offset size =
      let count = min (sub64 f.filesize offset) size in
      (record f { file = punch f.file offset count; used = sub64 f.used count }, count)

  pub record DataStore : Type 0 where
    pub files : List DataFile
    pub write_offset : ℕ
    pub used_space : ℕ

  module _ (config : StoreConfig) where
    -- `allocate`: the new write offset, and the space.
    unfoldable pub allocate : DataStore → ℕ → ℕ → Result (DataStore × Allocation)
    allocate st size alignment =
        let start = aligned st.write_offset alignment in
        if alignment == 0
        then throws invalid_argument
        else if size == 0
        then throws invalid_argument
        else if ltb (sub64 config.max_data_store_size start) size
        then throws runtime_error
        else ok
            (record st { write_offset = add64 start size }, record { offset = start; size = size })

    -- Files from the end on, as many as are asked for.
    unfoldable pub new_files : ℕ → List DataFile
    new_files zero = []
    new_files (suc n) =
        record { file = new_file; used = 0; filesize = config.max_file_size } ∷ new_files n

    unfoldable pub allocate_files : DataStore → ℕ → ℕ → DataStore
    unfolding new_files
    allocate_files st offset size =
        let required = add64 (add64 offset size / config.max_file_size) 1 in
        if leb required (length st.files)
        then st
        else record st { files = st.files ++ new_files (sub64 required (length st.files)) }

    -- `file_location`: the index of the file, the file, and the offset in it.
    unfoldable pub file_location : DataStore → ℕ → Result (ℕ × DataFile × ℕ)
    file_location st pointer = elim (get_elem? st.files (pointer / config.max_file_size)) [
      | none ↦ throws out_of_range
      | some f ↦ ok (pointer / config.max_file_size, f, pointer % config.max_file_size)
    ]

    -- The `while` loop of `write` over one buffer, with fuel: the store, and the pointer behind the
    -- bytes. The `break` leads to the exception.
    unfoldable pub write_buffer : ℕ → DataStore → ℕ → List ℕ → Option (Result (DataStore × ℕ))
    unfolding file_location file_write
    write_buffer k st p [] = some (ok (st, p))
    write_buffer zero st p (b ∷ bs) = none
    write_buffer (suc k) st p (b ∷ bs) = and_then (some (file_location st p)) λ loc.
        let written = file_write loc.1 loc.2 (b ∷ bs) in
        let rest =
          write_buffer k (record st { files = set_elem st.files loc.0 written.0 })
            (add64 p written.1) (drop written.1 (b ∷ bs)) in
        if written.1 == 0 then some (throws runtime_error) else rest

    -- The loop over the buffers; the fuel is a round for each byte.
    unfoldable pub write_buffers : DataStore → ℕ → List (List ℕ) → Option (Result DataStore)
    unfolding write_buffer
    write_buffers st p [] = some (ok st)
    write_buffers st p (b ∷ bs) =
        and_then (write_buffer (length b) st p b) λ done. write_buffers done.0 done.1 bs

    abbrev pub total_size : ℕ → List (List ℕ) → ℕ
    total_size acc [] = acc
    total_size acc (b ∷ bs) = total_size (add64 acc (length b)) bs

    -- `write`, up to the reference counts.
    unfoldable pub write : DataStore → Allocation → List (List ℕ) → Option (Result DataStore)
    unfolding allocate_files write_buffers
    write st a buffers =
        let run =
          and_then (write_buffers (allocate_files st a.offset a.size) a.offset buffers) λ done.
            some (
              ok (record done {
                write_offset = max done.write_offset (add64 a.offset a.size);
                used_space = add64 done.used_space a.size;
              })) in
        if total_size 0 buffers == a.size then run else some (throws runtime_error)

    -- The loop of `read`, with fuel: the bytes that were read.
    unfoldable pub read : ℕ → DataStore → ℕ → ℕ → Option (Result (List ℕ))
    unfolding file_location file_read
    read k st p zero = some (ok [])
    read zero st p (suc n) = none
    read (suc k) st p (suc n) = and_then (some (file_location st p)) λ loc.
        let bytes = file_read loc.1 loc.2 (suc n) in
        let rest =
          and_then (read k st (add64 p (length bytes)) (suc n - length bytes))
            λ more. some (ok (bytes ++ more)) in
        if length bytes == 0 then some (ok []) else rest

    -- The loop of `internal_delete` over `n` bytes, with fuel: the store, and the number of bytes
    -- released.
    unfoldable pub release : ℕ → DataStore → ℕ → ℕ → Option (Result (DataStore × ℕ))
    release k st p zero = some (ok (st, 0))
    release zero st p (suc n) = none
    release (suc k) st p (suc n) = and_then (some (file_location st p)) λ loc.
        let released = file_release loc.1 loc.2 (suc n) in
        let rest =
          and_then
            (release k (record st { files = set_elem st.files loc.0 released.0 })
              (add64 p released.1) (suc n - released.1))
            λ done. some (ok (done.0, add64 released.1 done.1)) in
        if released.1 == 0 then some (ok (st, 0)) else rest

    -- The callback of the reference counter: the store, and the number of bytes released.
    unfoldable pub internal_delete : DataStore → ℕ → ℕ → Option (Result (DataStore × ℕ))
    unfolding release
    internal_delete st offset size =
        let n = min size (sub64 st.write_offset offset) in
        let run = and_then (release n st offset n) λ done.
          some (ok (record (done.0) { used_space = sub64 done.0.used_space done.1 }, done.1)) in
        if leb st.write_offset offset then some (throws out_of_range) else run
