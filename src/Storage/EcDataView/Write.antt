-- ===== src/Storage/EcDataView/Write.antt =====
-- `write` of `src/storage/group/ec_data_view.cpp` as a whole: the address that a client gets, and
-- where the storages hold the bytes that it names.
use native.Mathlib.Nat.{mul-mod_left, mul_assoc}
use uh_core.Base.{
  ℕ, suc, ◌+◌, ◌-◌, ◌*◌, ◌%◌, ◌≤◌, ◌<◌, ◌≡◌, refl, ap, ◌∙◌, ◌==◌, Bool, true, false, some, List, [],
  ◌∷◌, arith, leb, length, get_elem?, add64, ◌⊎◌, inl, inr, sym, zero, word,
}
use uh_core.Base.Result.{Result, Failure, ok, throws}
use uh_core.Types.Fragment.{span}
use uh_core.Types.Address.{Address}
use uh_core.Types.Address.Bytes.{bytes, IsValid}
use uh_core.Pointers.{ec_storage_pointer}
use uh_core.Storage.RefCounter.{Refcount}
use uh_core.Storage.Placing.{fragments_from, AreOffsets}
use uh_core.Storage.EcDataView.Stripes.{div_ceil, nth}
use uh_core.Storage.EcDataView.Layout.{storage_buffers-get_storage_pointer}
use uh_core.Storage.EcDataView.Service.{EcGroup, all_there, ec_compute_address, written, ec_write}
use uh_core.Storage.EcDataView.Place.{ec_storage_pointer-stripes, placed}
use uh_core.Storage.EcDataView.StoreAll.{stored_by, ec_write_runs}

module _ (chunk shards parity storages : ℕ) where
  -- A group whose stripes are whole chunks.
  abbrev pub group : EcGroup
  group = record {
    data_shards = shards;
    parity_shards = parity;
    storages = storages;
    chunk_size = chunk;
    stripe_size = chunk * shards;
  }

-- Bytes stand in the memory of a storage from a pointer on.
abbrev pub Holds : (ℕ → ℕ) → ℕ → List ℕ → Type 0
Holds memory offset buffer = (k x : ℕ) → get_elem? buffer k ≡ some x → memory (offset + k) ≡ x

-- Byte `i` of the contents, at the place that `get_storage_pointer` names for the pointer of that
-- byte: a data storage, a pointer from the allocated one on, and there in the memory.
abbrev pub IsSpread : (ℕ → ℕ → ℕ) → ℕ → ℕ → ℕ → List ℕ → ℕ → Type 0
IsSpread memory chunk shards o contents i =
    let place = ec_storage_pointer (o * (chunk * shards) + i) chunk (chunk * shards) in
    (place.0 < shards)
    × (o * chunk ≤ place.1)
    × (get_elem? contents i ≡ some (memory place.0 place.1))

get_elem?_found : (xs : List ℕ) (i : ℕ) → i < length xs → (x : ℕ) × (get_elem? xs i ≡ some x)
get_elem?_found [] i h = absurd (omega arith)
get_elem?_found (x ∷ xs) zero h = (x, refl)
get_elem?_found (x ∷ xs) (suc i) h = get_elem?_found xs i (omega arith)

module _ (encode : List (List ℕ) → List (List ℕ)) (allocate : ℕ → ℕ → ℕ → Result ℕ)
    (store : ℕ → ℕ → List ℕ → List Refcount → Result (Unit {0}))
    (chunk shards parity storages : ℕ) where
  -- Byte `i` of the contents is in the buffer of the storage that its pointer belongs to.
  abbrev IsGiven : ℕ → List ℕ → List ℕ → ℕ → Type 0
  IsGiven o contents offsets i =
      let place = ec_storage_pointer (o * (chunk * shards) + i) chunk (chunk * shards) in
      (place.0 < shards)
      × (o * chunk ≤ place.1)
      × (get_elem?
            (nth
              (written encode allocate store (group chunk shards parity storages) contents offsets
                (o * chunk)).buffers
              place.0)
            (place.1 - o * chunk)
          ≡ get_elem? contents i)

  ec_compute_address_exact :
      (o size : ℕ) (offsets : List ℕ)
      → o * (chunk * shards) < word
      → ec_compute_address (group chunk shards parity storages) offsets size (o * chunk) ≡ record {
        fragments = fragments_from (λ (x : ℕ). add64 (o * (chunk * shards)) x) size offsets;
      }
  unfolding ec_compute_address
  ec_compute_address_exact o size offsets h =
      ap (λ (b : ℕ). record { fragments = fragments_from (λ (x : ℕ). add64 b x) size offsets })
        (base o h)
    where
      base :
          (o : ℕ) → o * (chunk * shards) < word → o * chunk * shards % word ≡ o * (chunk * shards)
      base o h = omega (arith, mul_assoc o chunk shards)

module _ (encode : List (List ℕ) → List (List ℕ)) (allocate : ℕ → ℕ → ℕ → Result ℕ)
    (store : ℕ → ℕ → List ℕ → List Refcount → Result (Unit {0})) (chunk shards parity storages : ℕ)
    (some_chunk : 0 < chunk) (some_shard : 0 < shards) (small_stripe : chunk * shards < word) where
  given :
      (o : ℕ) (contents offsets : List ℕ) (i : ℕ)
      → i < length contents
      → o * (chunk * shards) + length contents < word
      → IsGiven encode allocate store chunk shards parity storages o contents offsets i
  given o contents offsets i inside fits =
      let moved = ec_storage_pointer-stripes chunk shards some_chunk some_shard o i (omega arith) in
      let (known, byte) =
        storage_buffers-get_storage_pointer encode chunk shards parity some_chunk some_shard
          contents i inside (omega arith) small_stripe in
      let back : o * chunk + (ec_storage_pointer i chunk (chunk * shards)).1 - o * chunk
          ≡ (ec_storage_pointer i chunk (chunk * shards)).1 =
        omega arith in
      rw (moved, back) (known, omega arith, byte)

  -- Where every data storage holds what it was given, the byte is in its memory.
  spread :
      (memory : ℕ → ℕ → ℕ) (clients : List Bool) (o : ℕ) (contents offsets : List ℕ) (i : ℕ)
      → shards ≤ length clients
      → ((n : ℕ)
          → n < length clients
          → Holds (memory n) (o * chunk) (
              nth
                (written encode allocate store
                  (group chunk shards parity storages)
                  contents
                  offsets
                  (o * chunk)).buffers
                n))
      → i < length contents
      → o * (chunk * shards) + length contents < word
      → IsSpread memory chunk shards o contents i
  spread memory clients o contents offsets i enough held inside fits =
      let place = ec_storage_pointer (o * (chunk * shards) + i) chunk (chunk * shards) in
      let (known, behind, byte) = given o contents offsets i inside fits in
      let (x, found) = get_elem?_found contents i inside in
      let there = held place.0 (omega arith) (place.1 - o * chunk) x (byte ∙ found) in
      let back : o * chunk + (place.1 - o * chunk) ≡ place.1 = omega arith in
      (known, behind, found ∙ ap (λ (y : ℕ). some y) (sym there ∙ ap (memory place.0) back))

  -- Where the group is healthy, the leader one of its storages, every storage there, and the
  -- allocation succeeds, `write` throws what the write of some storage has thrown, or every storage
  -- has written its part and the answer is a valid address. It covers as many bytes as were written,
  -- from stripe `o` on where the leader allocated chunk `o`, and every byte of the contents stands in
  -- the memory of the storage, and at the pointer, that `get_storage_pointer` names for its pointer.
  -- A storage that has written its part without an exception holds it in its memory from the
  -- allocated pointer on. There is a storage for every data shard; the offsets begin with 0, increase
  -- and stay inside the contents, which end below 2^64.
  pub ec_write-IsSpread :
      (memory : ℕ → ℕ → ℕ) (leader o : ℕ) (clients : List Bool) (contents os : List ℕ)
      → leb storages leader ≡ false
      → get_elem? clients leader ≡ some true
      → all_there clients ≡ true
      → shards ≤ length clients
      → allocate leader (div_ceil (length contents) (chunk * shards) * chunk % word) chunk
        ≡ ok (o * chunk)
      → ((n : ℕ)
          → n < length clients
          → stored_by encode allocate store
              (group chunk shards parity storages)
              o
              contents
              (0 ∷ os)
              n
            ≡ ok tt
          → Holds (memory n) (o * chunk) (
              nth
                (written encode allocate store
                  (group chunk shards parity storages)
                  contents
                  (0 ∷ os)
                  (o * chunk)).buffers
                n))
      → AreOffsets (length contents) (0 ∷ os)
      → o * (chunk * shards) + length contents < word
      → ((e : Failure) × (n : ℕ) × (ec_write encode allocate store
              (group chunk shards parity storages)
              true
              (some leader)
              clients
              contents
              (0 ∷ os)
            ≡ some (throws e))
          × (n < length clients)
          × (stored_by encode allocate store
                (group chunk shards parity storages)
                o
                contents
                (0 ∷ os)
                n
              ≡ throws e))
        ⊎ ((a : Address) × (ec_write encode allocate store
                (group chunk shards parity storages)
                true
                (some leader)
                clients
                contents
                (0 ∷ os)
              ≡ some (ok a))
            × IsValid a
            × (bytes a ≡ span (o * (chunk * shards)) (length contents))
            × ((n : ℕ)
                → n < length clients
                → stored_by encode allocate store
                    (group chunk shards parity storages)
                    o
                    contents
                    (0 ∷ os)
                    n
                  ≡ ok tt)
            × ((i : ℕ) → i < length contents → IsSpread memory chunk shards o contents i))
  ec_write-IsSpread memory leader o clients contents os known there all enough offset holds are
        fits =
      let (valid, covers) = placed (o * (chunk * shards)) (length contents) os fits are in
      let same =
        ec_compute_address_exact encode allocate store chunk shards parity storages o
          (length contents) (0 ∷ os) (omega arith) in
      let aligned : (o * chunk % chunk == 0) ≡ true = rw (mul-mod_left o chunk) refl in
      elim (ec_write_runs encode allocate store (group chunk shards parity storages) leader o
        clients contents (0 ∷ os) known there all offset aligned) [
          | inl failed ↦ inl failed
          | inr (run, each) ↦ inr (
            ec_compute_address (group chunk shards parity storages) (0 ∷ os) (length contents)
                (o * chunk),
            run,
            rw same valid,
            rw same covers,
            each,
            λ i h.
                spread memory clients o contents (0 ∷ os) i enough (λ n k. holds n k (each n k)) h
                  fits,
          )
        ]
