-- ===== src/Storage/EcDataView/Tests.antt =====
-- `src/storage/group/ec_data_view.cpp` on a group of two data shards and one parity shard, with
-- chunks of two bytes.
use uh_core.Base.{
  ℕ, zero, suc, ◌+◌, ◌-◌, ◌*◌, ◌<◌, ◌≡◌, refl, ap, sym, ◌∙◌, ◌⊎◌, Option, none, get_elem?, Bool,
  true, some, List, [], ◌∷◌, length, arith, add128, sub128,
}
use uh_core.Base.Result.{Result, Failure, ok, throws}
use uh_core.Types.Fragment.{span}
use uh_core.Types.Address.{Address, append}
use uh_core.Types.Address.Bytes.{bytes, IsValid}
use uh_core.Storage.RefCounter.{Refcount}
use uh_core.Storage.RefCounter.Increment.{counted}
use uh_core.Storage.RrDataView.Rejected.{keep, meets_any}
use uh_core.Storage.EcDataView.{
  align_up_next, split_rest, split_fragment, aligned_from, get_aligned_address,
}
use uh_core.Storage.EcDataView.Split.{get_aligned_address-bytes}
use uh_core.Storage.EcDataView.Pieces.{AllInside}
use uh_core.Storage.EcDataView.Stripes.{
  div_ceil, nth, storage_buffers, stripes, split_buffer, storage_buffer,
}
use uh_core.Storage.EcDataView.Counts.{ec_extract_refcounts}
use uh_core.Storage.EcDataView.Service.{EcGroup, written, ec_write, ec_link}
use uh_core.Storage.EcDataView.Link.{answers, ec_lies_in, ec_references, ec_link-keep}
use uh_core.Storage.EcDataView.StoreAll.{stored_by}
use uh_core.Storage.EcDataView.Write.{group, Holds, IsSpread, ec_write-IsSpread}

-- Bytes 3 to 8, with chunks of four bytes.
abbrev crossing : Address
crossing = record { fragments = record { pointer = 3; size = 6 } ∷ [] }

split_crossing :
    get_aligned_address 4 crossing
    ≡ some (record {
      fragments =
          record { pointer = 3; size = 1 }
          ∷ record { pointer = 4; size = 4 }
          ∷ record { pointer = 8; size = 1 }
          ∷ [];
    })
unfolding get_aligned_address aligned_from split_fragment split_rest align_up_next append add128
    sub128
split_crossing = refl

get_aligned_address-bytes_example :
    (a : Address) × (get_aligned_address 4 crossing ≡ some a)
    × (bytes a ≡ bytes crossing)
    × AllInside 4 a.fragments
get_aligned_address-bytes_example =
    get_aligned_address-bytes 4 (omega arith) crossing (omega arith, tt) (omega arith)

abbrev contents : List ℕ
contents = 1 ∷ 2 ∷ 3 ∷ 4 ∷ 5 ∷ []

-- A parity shard that repeats the first chunk.
abbrev repeated : List (List ℕ) → List (List ℕ)
repeated views = nth views 0 ∷ []

-- The last stripe is filled up with zeros.
buffers_of_contents :
    storage_buffers repeated 2 1 2 4 contents
    ≡ (1 ∷ 2 ∷ 5 ∷ 0 ∷ []) ∷ (3 ∷ 4 ∷ 0 ∷ 0 ∷ []) ∷ (1 ∷ 2 ∷ 5 ∷ 0 ∷ []) ∷ []
unfolding storage_buffers stripes split_buffer storage_buffer div_ceil
buffers_of_contents = refl

abbrev third_chunk : ℕ → ℕ → ℕ → Result ℕ
third_chunk leader size alignment = ok 6

abbrev stored : ℕ → ℕ → List ℕ → List Refcount → Result (Unit {0})
stored storage offset buffer refcounts = ok tt

abbrev clients : List Bool
clients = true ∷ true ∷ true ∷ []

abbrev small_group : EcGroup
small_group = group 2 2 1 3

-- What the storages hold afterwards: the chunks from pointer 6 on.
abbrev part_of : ℕ → List ℕ
part_of zero = 1 ∷ 2 ∷ 5 ∷ 0 ∷ []
part_of (suc zero) = 3 ∷ 4 ∷ 0 ∷ 0 ∷ []
part_of (suc (suc n)) = 1 ∷ 2 ∷ 5 ∷ 0 ∷ []

abbrev or_zero : Option ℕ → ℕ
or_zero none = 0
or_zero (some x) = x

abbrev memory : ℕ → ℕ → ℕ
memory n p = or_zero (get_elem? (part_of n) (p - 6))

parts :
    (n : ℕ)
    → n < 3
    → nth (written repeated third_chunk stored small_group contents (0 ∷ 3 ∷ []) 6).buffers n
      ≡ part_of n
unfolding storage_buffers stripes split_buffer storage_buffer div_ceil
parts zero h = refl
parts (suc zero) h = refl
parts (suc (suc zero)) h = refl
parts (suc (suc (suc n))) h = absurd (omega arith)

held :
    (n : ℕ)
    → n < 3
    → Holds
        (memory n)
        6
        (nth (written repeated third_chunk stored small_group contents (0 ∷ 3 ∷ []) 6).buffers n)
held n h k x e =
    let back : 6 + k - 6 ≡ k = omega arith in
    let found = ap (λ (b : List ℕ). get_elem? b k) (sym (parts n h)) ∙ e in rw (back, found) refl

ec_write-IsSpread_example :
    ((e : Failure) × (n : ℕ) × (ec_write repeated third_chunk stored small_group true
          (some 1)
          clients
          contents
          (0 ∷ 3 ∷ [])
        ≡ some (throws e))
      × (n < 3)
      × (stored_by repeated third_chunk stored small_group 3 contents (0 ∷ 3 ∷ []) n ≡ throws e))
    ⊎ ((a : Address) × (ec_write repeated third_chunk stored small_group true
            (some 1)
            clients
            contents
            (0 ∷ 3 ∷ [])
          ≡ some (ok a))
        × IsValid a
        × (bytes a ≡ span (3 * (2 * 2)) (length contents))
        × ((n : ℕ)
            → n < 3
            → stored_by repeated third_chunk stored small_group 3 contents (0 ∷ 3 ∷ []) n ≡ ok tt)
        × ((i : ℕ) → i < length contents → IsSpread memory 2 2 3 contents i))
ec_write-IsSpread_example =
    ec_write-IsSpread repeated third_chunk stored 2 2 1 3 (omega arith) (omega arith) (omega arith)
      memory 1 3 clients contents (3 ∷ []) refl refl refl (omega arith) refl (λ n h wrote. held n h)
      (omega arith) (omega arith)

-- Every storage rejects the stripe of its own place.
abbrev rejects : ℕ → List Refcount
rejects n = record { stripe_id = n; count = 1 } ∷ []

abbrev link : ℕ → List Refcount → Result (List Refcount)
link n refcounts = ok (rejects n)

ec_link-keep_example :
    (a : Address) × (ec_link small_group clients link crossing ≡ some (ok a))
    × (a.fragments
        ≡ keep (λ f. meets_any (ec_lies_in 4 f) (answers rejects 0 clients)) crossing.fragments)
    × ((j : ℕ) → counted j (ec_extract_refcounts 4 crossing) ≡ ec_references 4 crossing.fragments j)
ec_link-keep_example =
    ec_link-keep small_group clients link rejects crossing refl (λ n h. refl) (omega arith)
      (omega arith, omega arith, omega arith, tt) (omega arith)
