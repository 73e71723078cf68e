-- ===== src/Storage/DataStore/Tests.antt =====
-- `src/storage/default_data_store.cpp` on concrete values: two files of four bytes.
use uh_core.Base.{
  min, ◌-◌, zero, suc, get_elem?, ℕ, ◌+◌, ◌≤◌, ◌<◌, ◌≡◌, ◌⊎◌, refl, some, List, [], ◌∷◌, map, arith,
  add64, sub64,
}
use uh_core.Base.Result.{ok, throws, runtime_error, out_of_range}
use uh_core.Types.Fragment.{span}
use uh_core.Storage.DataStore.{
  internal_delete, overlay, FileSystem, StoreConfig, DataFile, DataStore, Allocation, aligned,
  allocate, write, read,
}
use uh_core.Storage.DataStore.Flat.{flat, IsUniform}
use uh_core.Storage.DataStore.Write.{joined, IsStored, write-IsStored}
use uh_core.Storage.DataStore.Refine.{read-flat}
use uh_core.Storage.DataStore.Delete.{IsDeleted, internal_delete-IsDeleted}
use uh_core.Storage.DataStore.Allocate.{IsAllocated, allocate-IsAllocated, allocate_beyond}

-- Files as functions from offsets to bytes.
abbrev function_files : FileSystem
function_files = record {
  File = ℕ → ℕ;
  new_file = λ j. 0;
  byte = λ f j. f j;
  pwrite = λ f offset bytes. overlay f offset bytes;
  punch = λ f offset n. overlay f offset (map (λ i. 0) (span 0 n));
  byte-pwrite = λ f offset bytes j. refl;
  byte-punch = λ f offset n j. refl;
}

abbrev small_files : StoreConfig
small_files = record { max_file_size = 4; max_data_store_size = 10 }

abbrev one_file : DataStore function_files
one_file = record {
  files = record { file = λ j. 9; used = 3; filesize = 4 } ∷ [];
  write_offset = 3;
  used_space = 3;
}

one_file-IsUniform : IsUniform function_files small_files one_file
one_file-IsUniform i f e = size i f e
  where
    size :
        (i : ℕ) (f : DataFile function_files) → get_elem? one_file.files i ≡ some f → f.filesize ≡ 4
    size zero f e = cc
    size (suc i) f e = cc

-- Four bytes from offset 3 on, in two buffers: a second file is needed.
abbrev space : Allocation
space = record { offset = 3; size = 4 }

abbrev buffers : List (List ℕ)
buffers = (1 ∷ 2 ∷ 3 ∷ []) ∷ (4 ∷ []) ∷ []

write-IsStored_example :
    (st' : DataStore function_files) × (write function_files small_files one_file space buffers
      ≡ some (ok st'))
    × IsStored function_files small_files
        (omega arith)
        (omega arith)
        one_file
        space
        (joined buffers)
        st'
write-IsStored_example =
    write-IsStored function_files small_files (omega arith) (omega arith) one_file space buffers
      one_file-IsUniform refl (omega arith)

read-flat_example :
    read function_files small_files 3 one_file 1 3
    ≡ some (ok (map (flat function_files small_files one_file) (span 1 3)))
read-flat_example =
    read-flat function_files small_files (omega arith) (omega arith) 3 one_file 1 3 (omega arith)
      one_file-IsUniform (omega arith) (omega arith)

allocate-IsAllocated_example :
    ((allocate function_files small_files one_file 5 4 ≡ throws runtime_error)
      × (10 < aligned 3 4 + 5))
    ⊎ ((st' : DataStore function_files) × (a : Allocation) × (allocate function_files small_files
            one_file 5 4
          ≡ ok (st', a))
        × IsAllocated function_files small_files one_file 5 4 st' a
        × (a.offset + 5 ≤ 10))
allocate-IsAllocated_example =
    allocate-IsAllocated function_files small_files one_file 5 4 (omega arith) (omega arith)
      (omega arith) (omega arith) (unfold add64 sub64 in omega arith)

-- With an alignment of 16 the space begins at 16, although there are 10 bytes in all.
allocate_beyond_example :
    (st' : DataStore function_files) × (a : Allocation) × (allocate function_files small_files
        one_file 5 16
      ≡ ok (st', a))
    × IsAllocated function_files small_files one_file 5 16 st' a
    × (10 < a.offset)
allocate_beyond_example =
    allocate_beyond function_files small_files one_file 5 16 (omega arith) (omega arith)
      (omega arith) (unfold add64 sub64 in omega arith)

internal_delete-IsDeleted_example :
    ((3 ≤ 1)
      × (internal_delete function_files small_files one_file 1 9 ≡ some (throws out_of_range)))
    ⊎ ((1 < 3)
        × (last : DataStore function_files) × (internal_delete function_files small_files one_file 1
              9
            ≡ some (ok (last, min 9 (3 - 1))))
        × IsDeleted function_files small_files
            (omega arith)
            (omega arith)
            one_file
            1
            (min 9 (3 - 1))
            last)
internal_delete-IsDeleted_example =
    internal_delete-IsDeleted function_files small_files (omega arith) (omega arith) one_file 1 9
      one_file-IsUniform (omega arith) (omega arith)
