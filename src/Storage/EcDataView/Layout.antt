-- ===== src/Storage/EcDataView/Layout.antt =====
-- Where the bytes of a `write` of `src/storage/group/ec_data_view.cpp` are, against the pointers of
-- `src/common/utils/pointer_traits.h`.
use native.Mathlib.Nat.{mod-lt, mul-le-mul_left, div-add-mod', div-lt_iff_lt-mul}
use uh_core.Base.{
  ℕ, zero, suc, ◌+◌, ◌-◌, ◌*◌, ◌/◌, ◌%◌, ◌≤◌, ◌<◌, ◌≡◌, refl, ap, ◌∙◌, some, List, arith, length,
  take, drop, get_elem?, length-append, length-take, length-drop, get_elem?-append_lt,
  get_elem?-append_add, get_elem?-take, get_elem?-drop, drop-drop, word, wide, ◌==◌, Bool-cases,
  inl, inr,
}
use uh_core.Pointers.{ec_storage_pointer}
use uh_core.Storage.EcDataView.Stripes.{
  div_ceil, zeros, padded, stripes, split_buffer, or_empty, nth, storage_buffer, buffers_from,
  storage_buffers,
}

length-zeros : (n : ℕ) → length (zeros n) ≡ n
length-zeros zero = refl
length-zeros (suc n) = ap suc (length-zeros n)

length-padded : (n : ℕ) (xs : List ℕ) → length xs ≤ n → length (padded n xs) ≡ n
length-padded n xs h =
    omega (arith, length-append xs (zeros (n - length xs)), length-zeros (n - length xs))

next_chunk : (j chunk : ℕ) → chunk + j * chunk ≡ suc j * chunk
next_chunk j chunk = omega arith

-- Chunk `j` of a stripe.
nth-split_buffer :
    (chunk n : ℕ) (stripe : List ℕ) (j : ℕ)
    → j < n
    → nth (split_buffer chunk n stripe) j ≡ take chunk (drop (j * chunk) stripe)
unfolding split_buffer
nth-split_buffer chunk zero stripe j h = absurd (omega arith)
nth-split_buffer chunk (suc n) stripe zero h =
    let none_left : 0 * chunk ≡ 0 = omega arith in rw none_left refl
nth-split_buffer chunk (suc n) stripe (suc j) h =
    nth-split_buffer chunk n (drop chunk stripe) j (omega arith)
    ∙ ap (take chunk) (drop-drop (j * chunk) chunk stripe)
    ∙ ap (λ (t : ℕ). take chunk (drop t stripe)) (next_chunk j chunk)

module _ (chunk shards : ℕ) where
  -- A byte of a stripe in the chunk that holds it.
  chunk-byte :
      (stripe : List ℕ) (j r : ℕ)
      → r < chunk
      → j < shards
      → get_elem? (nth (split_buffer chunk shards stripe) j) r ≡ get_elem? stripe (chunk * j + r)
  chunk-byte stripe j r hr hj = rw (nth-split_buffer chunk shards stripe j hj) (
      get_elem?-take chunk (drop (j * chunk) stripe) r hr
      ∙ get_elem?-drop (j * chunk) stripe r
      ∙ ap (get_elem? stripe) (omega arith))

  length-chunk :
      (stripe : List ℕ) (j : ℕ)
      → j < shards
      → length stripe ≡ chunk * shards
      → length (nth (split_buffer chunk shards stripe) j) ≡ chunk
  length-chunk stripe j hj e = rw (nth-split_buffer chunk shards stripe j hj) (
      let room : j * chunk + chunk ≤ chunk * shards = grind arith in
      omega (arith, length-take chunk (drop (j * chunk) stripe), length-drop (j * chunk) stripe))

  -- A byte of the data, from which stripe `q` chunk `j` holds it at place `r`.
  storage_buffer-byte :
      (n : ℕ) (bytes : List ℕ) (q j r : ℕ)
      → r < chunk
      → j < shards
      → length bytes ≤ n * (chunk * shards)
      → q * (chunk * shards) + (chunk * j + r) < length bytes
      → get_elem?
          (storage_buffer (split_buffer chunk shards) j (stripes (chunk * shards) n bytes))
          (q * chunk + r)
        ≡ get_elem? bytes (q * (chunk * shards) + (chunk * j + r))
  unfolding stripes storage_buffer
  storage_buffer-byte zero bytes q j r hr hj whole inside = absurd (omega arith)
  storage_buffer-byte (suc n) bytes zero j r hr hj whole inside =
      let stripe = take (chunk * shards) bytes in
      let full =
        length-padded (chunk * shards) stripe (omega (arith, length-take (chunk * shards) bytes)) in
      let size = length-chunk (padded (chunk * shards) stripe) j hj full in
      let place : chunk * j + r < chunk * shards = grind arith in
      let left : 0 * chunk + r ≡ r = omega arith in
      let right : 0 * (chunk * shards) + (chunk * j + r) ≡ chunk * j + r = omega arith in
      rw (left, right)
        (get_elem?-append_lt (nth (split_buffer chunk shards (padded (chunk * shards) stripe)) j) _
            r (omega (arith, size))
          ∙ chunk-byte (padded (chunk * shards) stripe) j r hr hj
          ∙ get_elem?-append_lt stripe _ (chunk * j + r)
              (omega (arith, length-take (chunk * shards) bytes))
          ∙ get_elem?-take (chunk * shards) bytes (chunk * j + r) place)
  storage_buffer-byte (suc n) bytes (suc q) j r hr hj whole inside =
      let stripe = take (chunk * shards) bytes in
      let full =
        length-padded (chunk * shards) stripe (omega (arith, length-take (chunk * shards) bytes)) in
      let size = length-chunk (padded (chunk * shards) stripe) j hj full in
      let left : suc q * chunk + r ≡ chunk + (q * chunk + r) = omega arith in
      let right : suc q * (chunk * shards) + (chunk * j + r)
          ≡ chunk * shards + (q * (chunk * shards) + (chunk * j + r)) =
        omega arith in
      rw (left, right)
        (get_elem?-append_add (nth (split_buffer chunk shards (padded (chunk * shards) stripe)) j) _
            chunk (q * chunk + r) size
          ∙ storage_buffer-byte n (drop (chunk * shards) bytes) q j r hr hj
              (omega (arith, length-drop (chunk * shards) bytes))
              (omega (arith, length-drop (chunk * shards) bytes))
          ∙ get_elem?-drop (chunk * shards) bytes (q * (chunk * shards) + (chunk * j + r)))

div_ceil_enough : (x y : ℕ) → 0 < y → x ≤ div_ceil x y * y
unfolding div_ceil
div_ceil_enough x y h =
    let whole = div-add-mod' x y in
    let rest : x % y < y = mod-lt x h in
    elim (Bool-cases (x % y == 0)) [
      | inl even ↦ rw even (ground arith)
      | inr odd ↦ rw odd (omega arith)
    ]

get_elem?-buffers_from :
    (views : List ℕ → List (List ℕ)) (k n j : ℕ) (ss : List (List ℕ))
    → j < n
    → get_elem? (buffers_from views k n ss) j ≡ some (storage_buffer views (k + j) ss)
get_elem?-buffers_from views k zero j ss h = absurd (omega arith)
get_elem?-buffers_from views k (suc n) zero ss h =
    let same : k + 0 ≡ k = omega arith in rw same refl
get_elem?-buffers_from views k (suc n) (suc j) ss h =
    let same : k + suc j ≡ suc k + j = omega arith in
    rw same (get_elem?-buffers_from views (suc k) n j ss (omega arith))

length-buffers_from :
    (views : List ℕ → List (List ℕ)) (k n : ℕ) (ss : List (List ℕ))
    → length (buffers_from views k n ss) ≡ n
length-buffers_from views k zero ss = refl
length-buffers_from views k (suc n) ss = ap suc (length-buffers_from views (suc k) n ss)

zero_add : (j : ℕ) → 0 + j ≡ j
zero_add j = omega arith

module _ (encode : List (List ℕ) → List (List ℕ)) (chunk shards parity : ℕ) (some_chunk : 0 < chunk)
    (some_shard : 0 < shards) where
  data_shard :
      (bytes : List ℕ) (j : ℕ)
      → j < shards
      → nth (storage_buffers encode shards parity chunk (chunk * shards) bytes) j
        ≡ storage_buffer
            (split_buffer chunk shards)
            j
            (stripes (chunk * shards) (div_ceil (length bytes) (chunk * shards)) bytes)
  unfolding storage_buffers
  data_shard bytes j h =
      let ss = stripes (chunk * shards) (div_ceil (length bytes) (chunk * shards)) bytes in
      let views = split_buffer chunk shards in
      ap or_empty (
        get_elem?-append_lt (buffers_from views 0 shards ss)
          (buffers_from (λ s. encode (views s)) 0 parity ss) j
          (omega (arith, length-buffers_from views 0 shards ss))
        ∙ get_elem?-buffers_from views 0 shards j ss h)
      ∙ ap (λ (t : ℕ). storage_buffer views t ss) (zero_add j)

  -- Byte `i` of the data that a `write` spreads is what the buffer of the storage that
  -- `get_storage_pointer` names for `i` holds at the storage pointer that it names: for stripes of
  -- whole chunks, at least one data shard, and less than 2^64 bytes of data.
  pub storage_buffers-get_storage_pointer :
      (bytes : List ℕ) (i : ℕ)
      → i < length bytes
      → length bytes < word
      → chunk * shards < word
      → ((ec_storage_pointer i chunk (chunk * shards)).0 < shards)
        × (get_elem?
              (nth
                (storage_buffers encode shards parity chunk (chunk * shards) bytes)
                (ec_storage_pointer i chunk (chunk * shards)).0)
              (ec_storage_pointer i chunk (chunk * shards)).1
            ≡ get_elem? bytes i)
  unfolding ec_storage_pointer
  storage_buffers-get_storage_pointer bytes i inside small fits =
      let size : 0 < chunk * shards = grind arith in
      let m = i % (chunk * shards) in
      let q = i / (chunk * shards) in
      let j = m / chunk in
      let r = m % chunk in
      let hm : m < chunk * shards = mod-lt i size in
      let hr : r < chunk = mod-lt m some_chunk in
      let hj : j < shards = (div-lt_iff_lt-mul some_chunk).1 (omega arith) in
      let whole : q * (chunk * shards) + m ≡ i = div-add-mod' i (chunk * shards) in
      let parts : j * chunk + r ≡ m = div-add-mod' m chunk in
      let cast : m % word ≡ m = omega arith in
      let below : q * chunk ≤ q * (chunk * shards) =
        mul-le-mul_left q (let one : chunk ≤ chunk * shards = grind arith in one) in
      let pointer : (q * chunk % wide + (m - j * chunk)) % word ≡ q * chunk + r = omega arith in
      let place : q * (chunk * shards) + (chunk * j + r) ≡ i = omega arith in
      rw (cast, pointer)
        (
          hj,
          rw (data_shard bytes j hj) (
              storage_buffer-byte chunk shards (div_ceil (length bytes) (chunk * shards)) bytes q j
                r hr hj (div_ceil_enough (length bytes) (chunk * shards) size) (omega arith)
              ∙ ap (get_elem? bytes) place),
        )
