-- ===== src/Dedup/Flush/Outcome.antt =====
-- `flush_storage` of `src/deduplicator/fragmentation.cpp`: the outcome of a flush, and the address
-- of the upload after it.
use uh_core.Base.{
  ℕ, ◌≡◌, refl, ap, sym, ◌∙◌, ◌⊎◌, true, false, inl, inr, some, List, [], ◌++◌, map, arith, ◌==◌,
  ==_iff, Bool-cases, length, length-map,
}
use uh_core.Base.Result.{Result, Failure, ok, throws}
use uh_core.Types.Address.{Address}
use uh_core.Types.Address.Bytes.{bytes}
use uh_core.Dedup.Fragmentation.{DdFragment, Fragmentation, make_address}
use uh_core.Dedup.Flush.{
  first_cursor, compute_from, compute_unstored_addresses, unstored_to_buffer, flush_storage,
  to_buffer_from,
}
use uh_core.Dedup.Flush.Refill.{BufferIsValid}
use uh_core.Dedup.Flush.Place.{unstored_bytes, IsPlaced, compute_from-IsPlaced}
use uh_core.Dedup.Flush.Buffer.{offsets_from, to_buffer_from_lem}
use uh_core.Dedup.Flush.Content.{payloads, IsReady, length-eq-nil, IsPlaced-self, placed_content}

module _ (content : ℕ → ℕ) where
  -- What the code relies on, of a write: an address under which storage holds what was written.
  abbrev pub IsWritten : Result Address → List ℕ → Type 0
  IsWritten (throws e) buffer = Unit {0}
  IsWritten (ok a) buffer = BufferIsValid a × (map content (bytes a) ≡ buffer)

  module _ {H G : Type 0} (write : G → List ℕ → List ℕ → G × Result Address) (blank : ℕ → List ℕ)
      (blank_length : (n : ℕ) → length (blank n) ≡ n) where
    -- The answer of the write that the flush of an upload makes.
    abbrev pub answer : G → Fragmentation H → Result Address
    answer g fr = (write g (unstored_bytes fr.frags) (fr.offsets ++ offsets_from 0 fr.frags)).1

    -- A flushed upload: its unstored fragments have taken addresses that hold their data.
    pub record IsFlushed (g : G) (fr done : Fragmentation H) : Type 0 where
      pub taken : List ℕ
      pub runs : (flush_storage write blank g fr).1 ≡ some (ok done)
      pub held : map content taken ≡ unstored_bytes fr.frags
      pub placed : IsPlaced taken fr.frags done.frags

    copied :
        (fr : Fragmentation H)
        → IsReady content fr
        → to_buffer_from (blank fr.unstored_size) 0 fr.frags
          ≡ some (unstored_bytes fr.frags, offsets_from 0 fr.frags)
    copied fr r =
        let n = fr.unstored_size in
        to_buffer_from_lem (blank n) 0 fr.frags (blank_length n ∙ r.counted ∙ omega arith)
          (omega (arith, blank_length n, r.small))

    flush_runs :
        (g : G) (fr : Fragmentation H) (a : Address) (gs : List (DdFragment H))
        → (fr.unstored_size == 0) ≡ false
        → to_buffer_from (blank fr.unstored_size) 0 fr.frags
          ≡ some (unstored_bytes fr.frags, offsets_from 0 fr.frags)
        → answer g fr ≡ ok a
        → compute_from a first_cursor fr.frags ≡ some (ok gs)
        → (flush_storage write blank g fr).1
          ≡ some (
              ok (record fr {
                frags = gs;
                offsets = fr.offsets ++ offsets_from 0 fr.frags;
                buffer_address = a;
              }))
    unfolding flush_storage unstored_to_buffer compute_unstored_addresses
    flush_runs g fr a gs some_left buffered written run = rw (some_left, buffered, written, run)

    -- What a flush of unstored data leaves behind is what its write does.
    pub flush_storage_state :
        (g : G) (fr : Fragmentation H)
        → IsReady content fr
        → (fr.unstored_size == 0) ≡ false
        → (flush_storage write blank g fr).0
          ≡ (write g (unstored_bytes fr.frags) (fr.offsets ++ offsets_from 0 fr.frags)).0
    unfolding flush_storage unstored_to_buffer
    flush_storage_state g fr r some_left = rw (some_left, copied fr r) refl

    flush_throws :
        (g : G) (fr : Fragmentation H) (e : Failure)
        → (fr.unstored_size == 0) ≡ false
        → to_buffer_from (blank fr.unstored_size) 0 fr.frags
          ≡ some (unstored_bytes fr.frags, offsets_from 0 fr.frags)
        → answer g fr ≡ throws e
        → (flush_storage write blank g fr).1 ≡ some (throws e)
    unfolding flush_storage unstored_to_buffer
    flush_throws g fr e some_left buffered failed = rw (some_left, buffered, failed)

    flush_sends :
        (g : G) (fr : Fragmentation H) (a : Address)
        → IsReady content fr
        → (fr.unstored_size == 0) ≡ false
        → answer g fr ≡ ok a
        → BufferIsValid a
        → map content (bytes a) ≡ unstored_bytes fr.frags
        → (done : Fragmentation H) × IsFlushed g fr done
    flush_sends g fr a r some_left written v held =
        let count = ap length held in
        let read = length-map content (bytes a) in
        let (gs, (run, placed)) =
          compute_from-IsPlaced a v first_cursor fr.frags
            (record { frag = tt; inside = omega arith }) (omega (arith, r.counted, r.small))
            (omega arith) in
        (
          _,
          record {
            taken = bytes a;
            runs = flush_runs g fr a gs some_left (copied fr r) written run;
            held = held;
            placed = placed;
          },
        )

    pub flush_nothing :
        (g : G) (fr : Fragmentation H)
        → IsReady content fr
        → (fr.unstored_size == 0) ≡ true
        → IsFlushed g fr fr
    unfolding flush_storage
    flush_nothing g fr r none_left =
        let zero_size = (==_iff fr.unstored_size 0).0 none_left in
        let nothing =
          length-eq-nil (unstored_bytes fr.frags) (omega (arith, r.counted, zero_size)) in
        record {
          taken = [];
          runs = rw none_left;
          held = sym nothing;
          placed = IsPlaced-self fr.frags nothing;
        }

    -- Flushing an upload that is ready throws what the write throws, or succeeds.
    pub flush_storage-IsFlushed :
        (g : G) (fr : Fragmentation H)
        → IsReady content fr
        → IsWritten (answer g fr) (unstored_bytes fr.frags)
        → ((e : Failure) × (answer g fr ≡ throws e)
            × ((flush_storage write blank g fr).1 ≡ some (throws e)))
          ⊎ ((done : Fragmentation H) × IsFlushed g fr done)
    flush_storage-IsFlushed g fr r w = elim (Bool-cases (fr.unstored_size == 0)) [
      | inl none_left ↦ inr (fr, flush_nothing g fr r none_left)
      | inr some_left ↦ answered some_left (answer g fr) refl w
    ]
      where
        answered :
            (fr.unstored_size == 0) ≡ false
            → (o : Result Address) → answer g fr ≡ o
            → IsWritten o (unstored_bytes fr.frags)
            → ((e : Failure) × (answer g fr ≡ throws e)
                × ((flush_storage write blank g fr).1 ≡ some (throws e)))
              ⊎ ((done : Fragmentation H) × IsFlushed g fr done)
        answered some_left (throws e) failed w =
            inl (e, failed, flush_throws g fr e some_left (copied fr r) failed)
        answered some_left (ok a) written w = inr (flush_sends g fr a r some_left written w.0 w.1)

    -- After a flush, the address that `make_address` yields reads as the data of the upload.
    pub make_address_content :
        (g : G) (fr done : Fragmentation H)
        → IsReady content fr
        → IsFlushed g fr done
        → map content (bytes (make_address done)) ≡ payloads fr.frags
    unfolding make_address
    make_address_content g fr done r f =
        placed_content content f.taken fr.frags done.frags f.placed r.fresh r.held f.held

    -- Flushing an upload succeeds, and the address that `make_address` then yields reads as the
    -- data of the upload, fragment after fragment: for an upload that is ready, and a storage
    -- service that answers the write with a valid address under which it holds the buffer.
    pub make_address-flush_storage :
        (g : G) (fr : Fragmentation H) (a : Address)
        → IsReady content fr
        → answer g fr ≡ ok a
        → IsWritten (ok a) (unstored_bytes fr.frags)
        → (done : Fragmentation H) × ((flush_storage write blank g fr).1 ≡ some (ok done))
          × (map content (bytes (make_address done)) ≡ payloads fr.frags)
    make_address-flush_storage g fr a r written w =
        elim (flush_storage-IsFlushed g fr r (rw written w)) [
          | inl (e, failed, run) ↦ absurd (ground arith)
          | inr (done, f) ↦ (done, f.runs, make_address_content g fr done r f)
        ]
