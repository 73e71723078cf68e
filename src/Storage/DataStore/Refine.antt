-- ===== src/Storage/DataStore/Refine.antt =====
-- The loops of `write` and `read` in `src/storage/default_data_store.cpp`, on the flat view of the
-- store.
use native.Mathlib.Nat.{mod-lt, div-lt_iff_lt-mul}
use uh_core.Base.{
  ℕ, zero, suc, ◌+◌, ◌-◌, ◌*◌, ◌/◌, ◌%◌, ◌≤◌, ◌<◌, min, ◌≡◌, refl, ap, ap₂, sym, ◌∙◌, false, some,
  List, [], ◌∷◌, ◌++◌, map, arith, ◌==◌, length, take, drop, length-take, length-drop, length-map,
  get_elem?, add64, sub64, add64_exact, sub64_exact, word,
}
use mathlib.Core.List.{map-append}
use uh_core.Base.Result.{ok}
use uh_core.Types.Fragment.{span, length-span, span-append}
use uh_core.Storage.DataStore.{
  overlay, FileSystem, StoreConfig, DataFile, DataStore, file_read, file_location, write_buffer,
  read,
}
use uh_core.Storage.DataStore.Overlay.{overlay-append, same_file}
use uh_core.Storage.DataStore.Flat.{
  file_byte, flat, IsUniform, IsLaid, IsInside-location, round-IsLaid, round_runs, round_file,
  replaced,
}

take-drop : (n : ℕ) (xs : List ℕ) → take n xs ++ drop n xs ≡ xs
take-drop zero xs = refl
take-drop (suc n) [] = refl
take-drop (suc n) (x ∷ xs) = ap (◌∷◌ x) (take-drop n xs)

module _ (fs : FileSystem) (config : StoreConfig) (some_bytes : 0 < config.max_file_size)
    (small : config.max_file_size < word) where
  IsLaid-both :
      (st mid last : DataStore fs) (p t : ℕ) (bytes : List ℕ)
      → t ≤ length bytes
      → IsLaid fs config some_bytes small st p (take t bytes) mid
      → IsLaid fs config some_bytes small mid (p + t) (drop t bytes) last
      → IsLaid fs config some_bytes small st p bytes last
  IsLaid-both st mid last p t bytes h a b =
      let len : length (take t bytes) ≡ t = omega (arith, length-take t bytes) in
      record {
        uniform = b.uniform;
        count = b.count ∙ a.count;
        offset = b.offset ∙ a.offset;
        laid = λ j.
            b.laid j
            ∙ ap (λ (n : ℕ). overlay (flat fs config mid) (p + n) (drop t bytes) j) (sym len)
            ∙ overlay-append (flat fs config st) (flat fs config mid) p (take t bytes)
                (drop t bytes) j a.laid
            ∙ ap (λ x. overlay (flat fs config st) p x j) (take-drop t bytes);
      }

  -- A buffer that ends inside the files is written on fuel for a round a byte.
  pub write_buffer-IsLaid :
      (k : ℕ) (st : DataStore fs) (p : ℕ) (bytes : List ℕ)
      → length bytes ≤ k
      → IsUniform fs config st
      → p + length bytes ≤ length st.files * config.max_file_size
      → p + length bytes < word
      → (st' : DataStore fs) × (write_buffer fs config k st p bytes
          ≡ some (ok (st', p + length bytes)))
        × IsLaid fs config some_bytes small st p bytes st'
  unfolding write_buffer
  write_buffer-IsLaid k st p [] fuel uniform inside w =
      let same : p + 0 ≡ p = omega arith in
      (
        st,
        rw same refl,
        record {
          uniform = uniform;
          count = refl;
          offset = refl;
          laid = λ j. sym (overlay_nothing (flat fs config st) j);
        },
      )
    where
      overlay_nothing : (view : ℕ → ℕ) (j : ℕ) → overlay view p [] j ≡ view j
      overlay_nothing view j = ground arith
  write_buffer-IsLaid zero st p (b ∷ bs) fuel uniform inside w = absurd (omega arith)
  write_buffer-IsLaid (suc k) st p (b ∷ bs) fuel uniform inside w =
      let here : p < length st.files * config.max_file_size = omega arith in
      let (f, found, loc) = IsInside-location fs config some_bytes small st p here in
      let t = min (config.max_file_size - p % config.max_file_size) (suc (length bs)) in
      let less = mod-lt p some_bytes in
      let mid =
        replaced fs config some_bytes small st p
          (round_file fs config some_bytes small f p (b ∷ bs) t) in
      let a =
        round-IsLaid fs config some_bytes small st p f (b ∷ bs) t found uniform
          ((div-lt_iff_lt-mul some_bytes).1 here) (omega arith) in
      let room : p + t + length (drop t (b ∷ bs)) ≡ p + suc (length bs) =
        omega (arith, length-drop t (b ∷ bs)) in
      let files = ap (λ (n : ℕ). n * config.max_file_size) a.count in
      let (st', run, rest) =
        write_buffer-IsLaid k mid (p + t) (drop t (b ∷ bs)) (omega (arith, length-drop t (b ∷ bs)))
          a.uniform (omega (arith, files)) (omega arith) in
      (
        st',
        round_runs fs config some_bytes small k st p f b bs t refl found
              (uniform (p / config.max_file_size) f found) (omega arith)
            ∙ run
            ∙ ap (λ (n : ℕ). some (ok (st', n))) room,
        IsLaid-both st mid st' p t (b ∷ bs) (omega arith) a rest,
      )

  -- What one file holds is what the view holds.
  read_same :
      (st : DataStore fs) (p : ℕ) (f : DataFile fs) (i t : ℕ)
      → get_elem? st.files (p / config.max_file_size) ≡ some f
      → i + t ≤ config.max_file_size - p % config.max_file_size
      → map (fs.byte f.file) (span (p % config.max_file_size + i) t)
        ≡ map (flat fs config st) (span (p + i) t)
  read_same st p f i zero found h = refl
  read_same st p f i (suc t) found h =
      let place = same_file config.max_file_size some_bytes p (p + i) (omega arith) (omega arith) in
      let old : get_elem? st.files ((p + i) / config.max_file_size) ≡ some f =
        ap (get_elem? st.files) place.0 ∙ found in
      let offset : (p + i) % config.max_file_size ≡ p % config.max_file_size + i =
        place.1 ∙ omega arith in
      let next : p + suc i ≡ suc (p + i) = omega arith in
      let next' : p % config.max_file_size + suc i ≡ suc (p % config.max_file_size + i) =
        omega arith in
      ap₂ ◌∷◌ (sym (ap₂ (λ o (n : ℕ). file_byte fs config o n) old offset))
        (rw (next, next') at (read_same st p f (suc i) t found (omega arith)))

  -- One round of the loop of `read`.
  read_file :
      (st : DataStore fs) (p : ℕ) (f : DataFile fs) (n : ℕ)
      → get_elem? st.files (p / config.max_file_size) ≡ some f
      → f.filesize ≡ config.max_file_size
      → file_read fs f (p % config.max_file_size) (suc n)
        ≡ map
            (flat fs config st)
            (span p (min (config.max_file_size - p % config.max_file_size) (suc n)))
  unfolding file_read
  read_file st p f n found size =
      let less = mod-lt p some_bytes in
      let room : sub64 config.max_file_size (p % config.max_file_size)
          ≡ config.max_file_size - p % config.max_file_size =
        sub64_exact config.max_file_size (p % config.max_file_size) (omega arith) small in
      let front : p % config.max_file_size + 0 ≡ p % config.max_file_size = omega arith in
      let start : p + 0 ≡ p = omega arith in
      let t = min (config.max_file_size - p % config.max_file_size) (suc n) in
      rw (size, room) (rw (front, start) at (read_same st p f 0 t found (omega arith)))

  read_runs :
      (k : ℕ) (st : DataStore fs) (p n t : ℕ) (f : DataFile fs)
      → file_location fs config st p ≡ ok (p / config.max_file_size, f, p % config.max_file_size)
      → file_read fs f (p % config.max_file_size) (suc n) ≡ map (flat fs config st) (span p t)
      → length (map (flat fs config st) (span p t)) ≡ t
      → (t == 0) ≡ false
      → add64 p t ≡ p + t
      → read fs config k st (p + t) (suc n - t)
        ≡ some (ok (map (flat fs config st) (span (p + t) (suc n - t))))
      → read fs config (suc k) st p (suc n)
        ≡ some (
            ok (
              map (flat fs config st) (span p t)
              ++ map (flat fs config st) (span (p + t) (suc n - t))))
  unfolding read
  read_runs k st p n t f loc got len test moved rest = rw (loc, got, len, test, moved, rest)

  -- A read that ends inside the files yields what the view holds, on fuel for a round a byte.
  pub read-flat :
      (k : ℕ) (st : DataStore fs) (p n : ℕ)
      → n ≤ k
      → IsUniform fs config st
      → p + n ≤ length st.files * config.max_file_size
      → p + n < word
      → read fs config k st p n ≡ some (ok (map (flat fs config st) (span p n)))
  unfolding read
  read-flat k st p zero fuel uniform inside w = refl
  read-flat zero st p (suc n) fuel uniform inside w = absurd (omega arith)
  read-flat (suc k) st p (suc n) fuel uniform inside w =
      let here : p < length st.files * config.max_file_size = omega arith in
      let (f, found, loc) = IsInside-location fs config some_bytes small st p here in
      let less = mod-lt p some_bytes in
      let t = min (config.max_file_size - p % config.max_file_size) (suc n) in
      let got : file_read fs f (p % config.max_file_size) (suc n)
          ≡ map (flat fs config st) (span p t) =
        read_file st p f n found (uniform (p / config.max_file_size) f found) in
      let len : length (map (flat fs config st) (span p t)) ≡ t =
        length-map (flat fs config st) (span p t) ∙ length-span p t in
      let test : (t == 0) ≡ false = ground arith in
      let moved : add64 p t ≡ p + t = add64_exact p t (omega arith) in
      let rest =
        read-flat k st (p + t) (suc n - t) (omega arith) uniform (omega arith) (omega arith) in
      let sum : t + (suc n - t) ≡ suc n = omega arith in
      read_runs k st p n t f loc got len test moved rest
      ∙ ap (λ x. some (ok x))
          (sym (map-append (flat fs config st) (span p t) (span (p + t) (suc n - t)))
            ∙ ap (map (flat fs config st)) (span-append p t (suc n - t) ∙ ap (span p) sum))
