-- ===== src/Storage/DataStore/Delete.antt =====
-- `internal_delete` of `src/storage/default_data_store.cpp`, on the flat view of the store.
use native.Mathlib.Nat.{mod-lt, div-lt_iff_lt-mul}
use uh_core.Base.{
  leb→le, Bool-cases, ◌⊎◌, inl, inr, ℕ, zero, suc, ◌+◌, ◌-◌, ◌*◌, ◌/◌, ◌%◌, ◌≤◌, ◌<◌, min, ◌≡◌,
  refl, ap, sym, ◌∙◌, false, Option, some, List, ◌∷◌, ◌++◌, map, arith, ◌==◌, leb, length,
  length-map, length-set_elem, set_elem, get_elem?, add64, sub64, add64_exact, sub64_exact, word,
}
use uh_core.Base.Result.{Result, ok, throws, out_of_range, and_then}
use uh_core.Types.Fragment.{span, length-span}
use uh_core.Storage.DataStore.{
  FileSystem, StoreConfig, DataFile, DataStore, file_location, file_release, release,
  internal_delete,
}
use uh_core.Storage.DataStore.Flat.{
  IsUniform, IsLaid, IsInside-location, IsUniform-replaced, flat-replaced, replaced,
}
use uh_core.Storage.DataStore.Write.{IsLaid-append}

abbrev pub zeros : ℕ → List ℕ
zeros n = map (λ i. 0) (span 0 n)

length-zeros : (n : ℕ) → length (zeros n) ≡ n
length-zeros n = length-map (λ i. 0) (span 0 n) ∙ length-span 0 n

zeros_shift : (p q n : ℕ) → map {B = ℕ} (λ i. 0) (span p n) ≡ map {B = ℕ} (λ i. 0) (span q n)
zeros_shift p q zero = refl
zeros_shift p q (suc n) = ap (◌∷◌ 0) (zeros_shift (suc p) (suc q) n)

zeros_add : (m n : ℕ) → zeros m ++ zeros n ≡ zeros (m + n)
zeros_add zero n = ap zeros (omega arith)
zeros_add (suc m) n =
    let sum : suc m + n ≡ suc (m + n) = omega arith in
    rw sum (
      ap (◌∷◌ 0)
        (ap (λ x. x ++ zeros n) (zeros_shift 1 0 m) ∙ zeros_add m n ∙ zeros_shift 0 1 (m + n)))

module _ (fs : FileSystem) (config : StoreConfig) (some_bytes : 0 < config.max_file_size)
    (small : config.max_file_size < word) where
  -- The file after one round of the loop.
  abbrev punched : DataFile fs → ℕ → ℕ → DataFile fs
  punched f p t = record f {
    file = fs.punch f.file (p % config.max_file_size) t;
    used = sub64 f.used t;
  }

  abbrev after_round : DataStore fs → ℕ → DataFile fs → ℕ → DataStore fs
  after_round st p f t = replaced fs config some_bytes small st p (punched f p t)

  release_round :
      (st : DataStore fs) (p : ℕ) (f : DataFile fs) (t : ℕ)
      → get_elem? st.files (p / config.max_file_size) ≡ some f
      → IsUniform fs config st
      → p / config.max_file_size < length st.files
      → t ≤ config.max_file_size - p % config.max_file_size
      → IsLaid fs config some_bytes small st p (zeros t) (after_round st p f t)
  release_round st p f t found uniform inside fits = record {
    uniform =
        IsUniform-replaced fs config some_bytes small st p (punched f p t) uniform inside
          (uniform (p / config.max_file_size) f found);
    count = length-set_elem st.files (p / config.max_file_size) (punched f p t);
    offset = refl;
    laid =
        flat-replaced fs config some_bytes small st p f (punched f p t) (zeros t) found inside
          (omega (arith, length-zeros t)) (fs.byte-punch f.file (p % config.max_file_size) t);
  }

  release_file :
      (f : DataFile fs) (p n t : ℕ)
      → t ≡ min (config.max_file_size - p % config.max_file_size) (suc n)
      → f.filesize ≡ config.max_file_size
      → file_release fs f (p % config.max_file_size) (suc n) ≡ (punched f p t, t)
  unfolding file_release
  release_file f p n t amount size =
      let less = mod-lt p some_bytes in
      let room : sub64 config.max_file_size (p % config.max_file_size)
          ≡ config.max_file_size - p % config.max_file_size =
        sub64_exact config.max_file_size (p % config.max_file_size) (omega arith) small in
      rw (size, room, sym amount)

  release_step :
      (k : ℕ) (st : DataStore fs) (p i o n t : ℕ) (f f' : DataFile fs)
      → file_location fs config st p ≡ ok (i, f, o)
      → file_release fs f o (suc n) ≡ (f', t)
      → (t == 0) ≡ false
      → release fs config (suc k) st p (suc n)
        ≡ and_then
            (release fs config k
              (record st { files = set_elem st.files i f' })
              (add64 p t)
              (suc n - t))
            λ done. some (ok (done.0, add64 t done.1))
  unfolding release
  release_step k st p i o n t f f' loc released test = rw (loc, released, test)

  release_runs :
      (k : ℕ) (st : DataStore fs) (p : ℕ) (f : DataFile fs) (n t m : ℕ) (last : DataStore fs)
      → t ≡ min (config.max_file_size - p % config.max_file_size) (suc n)
      → file_location fs config st p ≡ ok (p / config.max_file_size, f, p % config.max_file_size)
      → f.filesize ≡ config.max_file_size
      → p + t < word
      → t + m < word
      → release fs config k (after_round st p f t) (p + t) (suc n - t) ≡ some (ok (last, m))
      → release fs config (suc k) st p (suc n) ≡ some (ok (last, t + m))
  release_runs k st p f n t m last amount loc size w v run =
      let less = mod-lt p some_bytes in
      let test : (t == 0) ≡ false = ground arith in
      let moved : add64 p t ≡ p + t = add64_exact p t w in
      let sum : add64 t m ≡ t + m = add64_exact t m v in
      release_step k st p (p / config.max_file_size) (p % config.max_file_size) n t f
        (punched f p t) loc (release_file f p n t amount size) test
      ∙ rw (moved, run, and_then, sum) refl

  release-IsLaid :
      (k : ℕ) (st : DataStore fs) (p n : ℕ)
      → n ≤ k
      → IsUniform fs config st
      → p + n ≤ length st.files * config.max_file_size
      → p + n < word
      → (last : DataStore fs) × (release fs config k st p n ≡ some (ok (last, n)))
        × IsLaid fs config some_bytes small st p (zeros n) last
        × (last.used_space ≡ st.used_space)
  unfolding release
  release-IsLaid k st p zero fuel uniform inside w = (
    st,
    refl,
    record { uniform = uniform; count = refl; offset = refl; laid = λ j. ground arith },
    refl,
  )
  release-IsLaid zero st p (suc n) fuel uniform inside w = absurd (omega arith)
  release-IsLaid (suc k) st p (suc n) fuel uniform inside w =
      let here : p < length st.files * config.max_file_size = omega arith in
      let (f, found, loc) = IsInside-location fs config some_bytes small st p here in
      let less = mod-lt p some_bytes in
      let t = min (config.max_file_size - p % config.max_file_size) (suc n) in
      let a =
        release_round st p f t found uniform ((div-lt_iff_lt-mul some_bytes).1 here)
          (omega arith) in
      let files = ap (λ (c : ℕ). c * config.max_file_size) a.count in
      let (last, run, rest, same) =
        release-IsLaid k (after_round st p f t) (p + t) (suc n - t) (omega arith) a.uniform
          (omega (arith, files)) (omega arith) in
      let sum : t + (suc n - t) ≡ suc n = omega arith in
      let moved : IsLaid fs config some_bytes small (after_round st p f t) (p + length (zeros t))
          (zeros (suc n - t)) last =
        rw (length-zeros t) rest in
      let both : IsLaid fs config some_bytes small st p (zeros t ++ zeros (suc n - t)) last =
        IsLaid-append fs config some_bytes small st (after_round st p f t) last p (zeros t)
          (zeros (suc n - t)) a moved in
      (
        last,
        release_runs k st p f n t (suc n - t) last refl loc
              (uniform (p / config.max_file_size) f found) (omega arith) (omega arith) run
            ∙ ap (λ (m : ℕ). some (ok (last, m))) sum,
        rw (zeros_add t (suc n - t), sum) at both,
        same,
      )

  delete_runs :
      (st last : DataStore fs) (offset size n : ℕ)
      → leb st.write_offset offset ≡ false
      → release fs config
          (min size (sub64 st.write_offset offset))
          st
          offset
          (min size (sub64 st.write_offset offset))
        ≡ some (ok (last, n))
      → internal_delete fs config st offset size
        ≡ some (ok (record last { used_space = sub64 last.used_space n }, n))
  unfolding internal_delete
  delete_runs st last offset size n before run = rw (before, run, and_then)

  -- What is left after `internal_delete`.
  pub record IsDeleted (st : DataStore fs) (offset n : ℕ) (last : DataStore fs) : Type 0 where
    pub laid : IsLaid fs config some_bytes small st offset (zeros n) last
    pub used : last.used_space ≡ sub64 st.used_space n

  -- The callback of the reference counter. Behind the write offset it throws; else it releases the
  -- bytes up to the write offset, at most `size`, and returns their number: they read as zeros
  -- afterwards, every other byte of the store and the write offset are as before, and the used space
  -- falls by that number. The files have the size of the configuration, hold the bytes before the
  -- write offset, and the write offset is below 2^64.
  pub internal_delete-IsDeleted :
      (st : DataStore fs) (offset size : ℕ)
      → IsUniform fs config st
      → st.write_offset ≤ length st.files * config.max_file_size
      → st.write_offset < word
      → ((st.write_offset ≤ offset)
          × (internal_delete fs config st offset size ≡ some (throws out_of_range)))
        ⊎ ((offset < st.write_offset)
            × (last : DataStore fs) × (internal_delete fs config st offset size
                ≡ some (ok (last, min size (st.write_offset - offset))))
            × IsDeleted st offset (min size (st.write_offset - offset)) last)
  unfolding internal_delete
  internal_delete-IsDeleted st offset size uniform inside w =
      elim (Bool-cases (leb st.write_offset offset)) [
        | inl behind ↦ inl (leb→le st.write_offset offset behind, rw behind)
        | inr before ↦
            let less : offset < st.write_offset = ground arith in
            let left : sub64 st.write_offset offset ≡ st.write_offset - offset =
              sub64_exact st.write_offset offset (omega arith) w in
            let n = min size (st.write_offset - offset) in
            let (last, run, laid, same) =
              release-IsLaid n st offset n (omega arith) uniform (omega arith) (omega arith) in
            let run' : release fs config (min size (sub64 st.write_offset offset)) st offset
                  (min size (sub64 st.write_offset offset))
                ≡ some (ok (last, n)) =
              run_min left run in
            inr (
              less,
              record last { used_space = sub64 last.used_space n },
              delete_runs st last offset size n before run',
              record {
                laid = record {
                  uniform = laid.uniform;
                  count = laid.count;
                  offset = laid.offset;
                  laid = laid.laid;
                };
                used = ap (λ (u : ℕ). sub64 u n) same;
              },
            )
      ]
    where
      run_min :
          {a b : ℕ} {o : Option (Result (DataStore fs × ℕ))}
          → a ≡ b
          → release fs config (min size b) st offset (min size b) ≡ o
          → release fs config (min size a) st offset (min size a) ≡ o
      run_min e run = ap (λ (k : ℕ). release fs config (min size k) st offset (min size k)) e ∙ run
