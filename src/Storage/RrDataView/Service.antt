-- ===== src/Storage/RrDataView/Service.antt =====
-- The requests of `src/storage/group/rr_data_view.cpp` to its storages. `storages` says for each
-- storage of the group whether there is a client.
use uh_core.Base.{
  ℕ, zero, suc, ◌≡◌, refl, Bool, true, false, ◌==◌, if◌then◌else◌, Option, none, some, List, [],
  ◌∷◌, length, get_elem?, add64,
}
use uh_core.Base.Result.{Result, ok, throws, Failure, runtime_error, out_of_range, ◌>>=◌}
use uh_core.Types.Address.{Address}
use uh_core.Pointers.{rr_storage_pointer}
use uh_core.Storage.RefCounter.{Refcount}
use uh_core.Storage.Fanout.{run_for_all, accumulate}
use uh_core.Storage.RrDataView.{compute_address, extract_refcounts, compute_rejected_address}

-- `refcounts_by_storage[i]`
abbrev pub counts_of : Option (List Refcount) → List Refcount
counts_of none = []
counts_of (some rs) = rs

-- A call of storage `i`, which throws where there is no client.
abbrev pub ask_storage {ℓ} :
    {A : Type ℓ} → (ℕ → List Refcount → Result A) → List (List Refcount) → ℕ → Bool → Result A
ask_storage ask refcounts i true = ask i (counts_of (get_elem? refcounts i))
ask_storage ask refcounts i false = throws runtime_error

module _ (group stripe_size : ℕ) (storages : List Bool) where
  -- `none` is an access outside of the vector of counts.
  abbrev pub stored_at :
      (ℕ → ℕ → List ℕ → List Refcount → Result (Unit {0}))
      → List ℕ
      → Address
      → ℕ
      → ℕ
      → Option (List Refcount)
      → Option (Result Address)
  stored_at store bytes addr id offset none = none
  stored_at store bytes addr id offset (some rs) =
      some (store id offset bytes rs >>= λ done. ok addr)

  abbrev pub counted_at : ℕ → Option (List (List Refcount)) → Option (List Refcount)
  counted_at id none = none
  counted_at id (some refcounts) = get_elem? refcounts id

  abbrev pub rr_written :
      (ℕ → ℕ → List ℕ → List Refcount → Result (Unit {0}))
      → List ℕ
      → List ℕ
      → ℕ
      → Result ℕ
      → Option (Result Address)
  rr_written store bytes offsets id (throws e) = some (throws e)
  rr_written store bytes offsets id (ok offset) =
      let addr = compute_address group offsets (length bytes) id offset in
      stored_at store bytes addr id offset
        (counted_at id (extract_refcounts (length storages) stripe_size addr))

  abbrev pub write_to :
      (ℕ → ℕ → Result ℕ)
      → (ℕ → ℕ → List ℕ → List Refcount → Result (Unit {0}))
      → List ℕ
      → List ℕ
      → Result ℕ
      → Option (Result Address)
  write_to allocate store bytes offsets (throws e) = some (throws e)
  write_to allocate store bytes offsets (ok id) =
      rr_written store bytes offsets id (allocate id (length bytes))

  -- `balanced` is what the load balancer gives: the storage for the data.
  unfoldable pub rr_write :
      Result ℕ
      → (ℕ → ℕ → Result ℕ)
      → (ℕ → ℕ → List ℕ → List Refcount → Result (Unit {0}))
      → List ℕ
      → List ℕ
      → Option (Result Address)
  unfolding compute_address extract_refcounts
  rr_write balanced allocate store bytes offsets = write_to allocate store bytes offsets balanced

module _ (stripe_size : ℕ) (storages : List Bool) where
  -- `none` is a call through a null pointer.
  abbrev pub read_at :
      (ℕ → ℕ → ℕ → Result (List ℕ)) → Option Bool → ℕ × ℕ → ℕ → Option (Result (List ℕ))
  read_at ask none place size = some (throws out_of_range)
  read_at ask (some false) place size = none
  read_at ask (some true) (id, pointer) size = some (ask id pointer size)

  unfoldable pub rr_read : (ℕ → ℕ → ℕ → Result (List ℕ)) → ℕ → ℕ → Option (Result (List ℕ))
  unfolding rr_storage_pointer
  rr_read ask pointer size =
      let place = rr_storage_pointer pointer in
      if size == 0
      then some (throws runtime_error)
      else read_at ask (get_elem? storages place.0) place size

  -- The storages that are there add up what they use.
  unfoldable pub used_from : (ℕ → Result ℕ) → ℕ → ℕ → List Bool → Result ℕ
  unfolding add64
  used_from used i acc [] = ok acc
  used_from used i acc (false ∷ ss) = used_from used (suc i) acc ss
  used_from used i acc (true ∷ ss) = used i >>= λ n. used_from used (suc i) (add64 acc n) ss

  unfoldable pub rr_get_used_space : (ℕ → Result ℕ) → Result ℕ
  unfolding used_from
  rr_get_used_space used = used_from used 0 0 storages

  abbrev pub rr_linked :
      (ℕ → List Refcount → Result (List Refcount))
      → Address
      → Option (List (List Refcount))
      → Option (Result Address)
  rr_linked link addr none = none
  rr_linked link addr (some refcounts) = some (
      run_for_all (ask_storage link refcounts) 0 storages >>= λ rejected.
      ok (compute_rejected_address stripe_size rejected addr))

  unfoldable pub rr_link :
      (ℕ → List Refcount → Result (List Refcount)) → Address → Option (Result Address)
  unfolding run_for_all extract_refcounts compute_rejected_address
  rr_link link addr = rr_linked link addr (extract_refcounts (length storages) stripe_size addr)

  abbrev pub rr_unlinked :
      (ℕ → List Refcount → Result ℕ) → Option (List (List Refcount)) → Option (Result ℕ)
  rr_unlinked unlink none = none
  rr_unlinked unlink (some refcounts) =
      some
        (run_for_all (ask_storage unlink refcounts) 0 storages >>= λ freed. ok (accumulate 0 freed))

  unfoldable pub rr_unlink : (ℕ → List Refcount → Result ℕ) → Address → Option (Result ℕ)
  unfolding run_for_all extract_refcounts accumulate
  rr_unlink unlink addr = rr_unlinked unlink (extract_refcounts (length storages) stripe_size addr)

module _ {ℓ} {A : Type ℓ} where
  -- Where a client is missing, calls of all storages throw.
  ask_storage_throws :
      (ask : ℕ → List Refcount → Result A) (refcounts : List (List Refcount)) (storages : List Bool)
      (i n : ℕ)
      → get_elem? storages n ≡ some false
      → (e : Failure) × (run_for_all (ask_storage ask refcounts) i storages ≡ throws e)
  unfolding run_for_all
  ask_storage_throws ask refcounts [] i n missing = absurd cc
  ask_storage_throws ask refcounts (false ∷ ss) i n missing = (runtime_error, refl)
  ask_storage_throws ask refcounts (true ∷ ss) i zero missing = absurd cc
  ask_storage_throws ask refcounts (true ∷ ss) i (suc n) missing =
      go (ask i (counts_of (get_elem? refcounts i)))
        (ask_storage_throws ask refcounts ss (suc i) n missing)
    where
      go :
          (r : Result A)
          → ((e : Failure) × (run_for_all (ask_storage ask refcounts) (suc i) ss ≡ throws e))
          → (e : Failure) × ((r >>= λ b.
                run_for_all (ask_storage ask refcounts) (suc i) ss >>= λ bs. ok (b ∷ bs))
              ≡ throws e)
      go (throws e) later = (e, refl)
      go (ok a) (e, later) = (e, rw later refl)

-- Where a storage of the group has no client, `link` and `unlink` throw, whatever the others answer:
-- for an address whose storages are all of the group.
pub link-unlink_throw :
    (stripe_size : ℕ) (storages : List Bool) (link : ℕ → List Refcount → Result (List Refcount))
    (unlink : ℕ → List Refcount → Result ℕ) (addr : Address) (refcounts : List (List Refcount))
    (n : ℕ)
    → extract_refcounts (length storages) stripe_size addr ≡ some refcounts
    → get_elem? storages n ≡ some false
    → ((e : Failure) × (rr_link stripe_size storages link addr ≡ some (throws e)))
      × ((e : Failure) × (rr_unlink stripe_size storages unlink addr ≡ some (throws e)))
unfolding rr_link rr_unlink
link-unlink_throw stripe_size storages link unlink addr refcounts n counts missing =
    let (e, linking) = ask_storage_throws link refcounts storages 0 n missing in
    let (e', unlinking) = ask_storage_throws unlink refcounts storages 0 n missing in
    ((e, rw (counts, linking) refl), (e', rw (counts, unlinking) refl))
