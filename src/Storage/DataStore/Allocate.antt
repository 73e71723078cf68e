-- ===== src/Storage/DataStore/Allocate.antt =====
-- `allocate` of `src/storage/default_data_store.cpp`.
use native.Mathlib.Nat.{mod-lt, mod-eq_of_lt, mul-add-mod_self_right, div-add-mod'}
use uh_core.Base.{
  ℕ, suc, ◌+◌, ◌-◌, ◌*◌, ◌/◌, ◌%◌, ◌≤◌, ◌<◌, ◌≡◌, refl, ap, sym, ◌∙◌, ◌⊎◌, inl, inr, false, arith,
  ltb, ◌==◌, ==_iff, if◌then◌else◌, Bool-cases, ltb→lt, not-ltb→le, add64, sub64, add64_exact,
  sub64_exact, sub64_wraps, word,
}
use uh_core.Base.Result.{ok, throws, runtime_error}
use uh_core.Storage.DataStore.{FileSystem, StoreConfig, DataStore, Allocation, aligned, allocate}

multiple_mod : (q n : ℕ) → 0 < n → q * n % n ≡ 0
multiple_mod q n h =
    let sum : q * n + 0 ≡ q * n = omega arith in
    ap (λ (t : ℕ). t % n) (sym sum) ∙ mul-add-mod_self_right q n 0 ∙ mod-eq_of_lt h

-- The start of an allocation is the next multiple of the alignment.
aligned_lem :
    (offset alignment : ℕ)
    → 0 < alignment
    → offset + alignment < word
    → (aligned offset alignment % alignment ≡ 0)
      × (offset ≤ aligned offset alignment)
      × (aligned offset alignment < offset + alignment)
aligned_lem offset n pos w =
    let r = offset % n in
    let less : r < n = mod-lt offset pos in
    elim (Bool-cases (r == 0)) [
      | inl none_left ↦ rw none_left ((==_iff r 0).0 none_left, omega arith, omega arith)
      | inr some_left ↦
          let some_more : 0 < r = ground arith in
          let gap : sub64 n r ≡ n - r = sub64_exact n r (omega arith) (omega arith) in
          let sum : add64 offset (n - r) ≡ offset + (n - r) =
            add64_exact offset (n - r) (omega arith) in
          let whole = div-add-mod' offset n in
          let next : offset + (n - r) ≡ suc (offset / n) * n = omega arith in
          rw (some_left, gap, sum)
            (
              ap (λ (t : ℕ). t % n) next ∙ multiple_mod (suc (offset / n)) n pos,
              omega arith,
              omega arith,
            )
    ]

module _ (fs : FileSystem) (config : StoreConfig) where
  -- What a successful allocation is.
  pub record IsAllocated (st : DataStore fs) (size alignment : ℕ) (st' : DataStore fs)
      (a : Allocation) : Type 0 where
    pub multiple : a.offset % alignment ≡ 0
    pub behind : st.write_offset ≤ a.offset
    pub near : a.offset < st.write_offset + alignment
    pub amount : a.size ≡ size
    pub end : st'.write_offset ≡ a.offset + size
    pub files : st'.files ≡ st.files

  allocate_runs :
      (st : DataStore fs) (size alignment : ℕ)
      → 0 < alignment
      → 0 < size
      → allocate fs config st size alignment ≡ (
          if ltb (sub64 config.max_data_store_size (aligned st.write_offset alignment)) size
          then throws runtime_error
          else ok (
            record st { write_offset = add64 (aligned st.write_offset alignment) size },
            record { offset = aligned st.write_offset alignment; size = size },
          ))
  unfolding allocate
  allocate_runs st size alignment pos some_size =
      let first : (alignment == 0) ≡ false = ground arith in
      let second : (size == 0) ≡ false = ground arith in rw (first, second)

  allocate_succeeds :
      (st : DataStore fs) (size alignment : ℕ)
      → 0 < alignment
      → 0 < size
      → st.write_offset + alignment + size < word
      → ltb (sub64 config.max_data_store_size (aligned st.write_offset alignment)) size ≡ false
      → (st' : DataStore fs) × (a : Allocation) × (allocate fs config st size alignment
          ≡ ok (st', a))
        × (a.offset ≡ aligned st.write_offset alignment)
        × IsAllocated st size alignment st' a
  allocate_succeeds st size alignment pos some_size w enough =
      let (multiple, behind, near) = aligned_lem st.write_offset alignment pos (omega arith) in
      let sum : add64 (aligned st.write_offset alignment) size
          ≡ aligned st.write_offset alignment + size =
        add64_exact (aligned st.write_offset alignment) size (omega arith) in
      (
        record st { write_offset = add64 (aligned st.write_offset alignment) size },
        record { offset = aligned st.write_offset alignment; size = size },
        allocate_runs st size alignment pos some_size ∙ rw enough refl,
        refl,
        record {
          multiple = multiple;
          behind = behind;
          near = near;
          amount = refl;
          end = sum;
          files = refl;
        },
      )

  -- Where the next multiple of the alignment lies inside the capacity, `allocate` throws if and only
  -- if less than `size` bytes are left behind it. Else the space begins at that multiple, which is
  -- less than the alignment behind the write offset, and ends at the new write offset, inside the
  -- capacity. The size and the alignment are positive, and the numbers stay below 2^64.
  pub allocate-IsAllocated :
      (st : DataStore fs) (size alignment : ℕ)
      → 0 < alignment
      → 0 < size
      → st.write_offset + alignment + size < word
      → config.max_data_store_size < word
      → aligned st.write_offset alignment ≤ config.max_data_store_size
      → ((allocate fs config st size alignment ≡ throws runtime_error)
          × (config.max_data_store_size < aligned st.write_offset alignment + size))
        ⊎ ((st' : DataStore fs) × (a : Allocation) × (allocate fs config st size alignment
              ≡ ok (st', a))
            × IsAllocated st size alignment st' a
            × (a.offset + size ≤ config.max_data_store_size))
  allocate-IsAllocated st size alignment pos some_size w cap inside =
      let start = aligned st.write_offset alignment in
      let left : sub64 config.max_data_store_size start ≡ config.max_data_store_size - start =
        sub64_exact config.max_data_store_size start inside cap in
      elim (Bool-cases (ltb (sub64 config.max_data_store_size start) size)) [
        | inl short ↦ inl (
          allocate_runs st size alignment pos some_size ∙ rw short refl,
          omega (arith, left, ltb→lt _ _ short),
        )
        | inr enough ↦
            let (st', a, run, place, allocated) =
              allocate_succeeds st size alignment pos some_size w enough in
            inr (st', a, run, allocated, omega (arith, left, place, not-ltb→le _ _ enough))
      ]

  -- Where the next multiple of the alignment lies behind the capacity, `allocate` does not throw: the
  -- difference wraps around, and space behind the capacity is handed out. The write offset itself may
  -- lie inside the capacity. The size and the alignment are positive, and the numbers stay below 2^64.
  pub allocate_beyond :
      (st : DataStore fs) (size alignment : ℕ)
      → 0 < alignment
      → 0 < size
      → st.write_offset + alignment + size < word
      → config.max_data_store_size < aligned st.write_offset alignment
      → (st' : DataStore fs) × (a : Allocation) × (allocate fs config st size alignment
          ≡ ok (st', a))
        × IsAllocated st size alignment st' a
        × (config.max_data_store_size < a.offset)
  allocate_beyond st size alignment pos some_size w outside =
      let start = aligned st.write_offset alignment in
      let (multiple, behind, near) = aligned_lem st.write_offset alignment pos (omega arith) in
      let left : sub64 config.max_data_store_size start
          ≡ config.max_data_store_size + word - start =
        sub64_wraps config.max_data_store_size start outside (omega arith) in
      let enough : ltb (sub64 config.max_data_store_size start) size ≡ false =
        rw left (ground arith) in
      let (st', a, run, place, allocated) =
        allocate_succeeds st size alignment pos some_size w enough in
      (st', a, run, allocated, omega (arith, place))
