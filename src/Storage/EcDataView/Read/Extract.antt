-- ===== src/Storage/EcDataView/Read/Extract.antt =====
-- `extract_node_address_map` of `src/storage/group/impl/address_utils.cpp` on fragments that each
-- lie inside one chunk.
use native.Mathlib.Nat.{mul-add-div_right, div-eq_of_lt}
use uh_core.Base.{
  ℕ, ◌+◌, ◌-◌, ◌*◌, ◌/◌, ◌≤◌, ◌<◌, ◌==◌, ◌≡◌, refl, ap, ◌∙◌, ◌⊎◌, inl, inr, Bool-cases, true, false,
  List, [], ◌∷◌, if◌then◌else◌, arith, ltb, leb, lt→ltb, word, length, sub128, add128, add64_exact,
  add128_exact, sub128_exact,
}
use uh_core.Base.Result.{ok, throws, runtime_error}
use uh_core.Types.Fragment.{Fragment}
use uh_core.Types.Address.Bytes.{total}
use uh_core.Storage.EcDataView.Pieces.{AllInside}
use uh_core.Storage.EcDataView.Split.{AllSmall}
use uh_core.Storage.EcDataView.Write.{group}
use uh_core.Storage.EcDataView.Read.{
  Piece, Pieces, add_piece, checked_pointer, extract_from, are_data,
}
use uh_core.Storage.EcDataView.Read.Buffer.{CoversMap, AllGood}
use uh_core.Storage.EcDataView.Read.Stripe.{
  byte_at, byte_at-place, Place, pointer-Place, ec_storage_pointer-place, slices, slices_good,
  fragment_fits,
}
use uh_core.Storage.EcDataView.Read.AddPiece.{
  IsGoodMap, Spells, add_piece-covers, add_piece-IsGoodMap, are_data-add_piece,
}

module _ (chunk shards parity storages : ℕ) (some_chunk : 0 < chunk) (some_shard : 0 < shards)
    (enough : shards ≤ storages) where
  pub checked_pointer-place :
      (s j r : ℕ)
      → j < shards
      → r < chunk
      → s * (chunk * shards) + (chunk * j + r) < word
      → checked_pointer
          (group chunk shards parity storages)
          (s * (chunk * shards) + (chunk * j + r))
        ≡ ok (j, s * chunk + r)
  unfolding checked_pointer
  checked_pointer-place s j r hj hr small =
      let known : leb storages j ≡ false = ground arith in
      let place = ec_storage_pointer-place chunk shards some_chunk some_shard s j r hj hr small in
      ap (λ (place : ℕ × ℕ). if leb storages place.0 then throws runtime_error else ok place) place
      ∙ rw known refl

  -- Both ends of a fragment are in the storage of its first byte.
  checked_pointer-ends :
      (f : Fragment) (l : Place chunk shards f.pointer)
      → l.rest + f.size ≤ chunk
      → 0 < f.size
      → f.pointer + f.size ≤ word
      → let g = group chunk shards parity storages in
        (checked_pointer g f.pointer ≡ ok (l.storage, l.stripe * chunk + l.rest))
        × (checked_pointer g (sub128 (add128 f.pointer f.size) 1)
            ≡ ok (l.storage, l.stripe * chunk + (l.rest + f.size - 1)))
  checked_pointer-ends f l fits nonempty small =
      let first : f.pointer ≡ l.stripe * (chunk * shards) + (chunk * l.storage + l.rest) = l.sum in
      let end = add128_exact f.pointer f.size (omega arith) in
      let back = sub128_exact (f.pointer + f.size) 1 (omega arith) (omega arith) in
      let last : f.pointer + f.size - 1
          ≡ l.stripe * (chunk * shards) + (chunk * l.storage + (l.rest + f.size - 1)) =
        omega (arith, first) in
      (
        ap (checked_pointer (group chunk shards parity storages)) first
            ∙ checked_pointer-place l.stripe l.storage l.rest l.known l.inside
                (omega (arith, first)),
        ap (checked_pointer (group chunk shards parity storages))
              (ap (λ (t : ℕ). sub128 t 1) end ∙ back ∙ last)
            ∙ checked_pointer-place l.stripe l.storage (l.rest + f.size - 1) l.known (omega arith)
                (omega (arith, last)),
      )

  abbrev entry : (f : Fragment) → Place chunk shards f.pointer → ℕ → Piece
  entry f l offset = record { pointer = l.stripe * chunk + l.rest; size = f.size; offset = offset }

  extract_from-round :
      (f : Fragment) (fs : List Fragment) (offset : ℕ) (m : Pieces)
      (l : Place chunk shards f.pointer)
      → l.rest + f.size ≤ chunk
      → 0 < f.size
      → f.pointer + f.size ≤ word
      → offset + f.size < word
      → extract_from (group chunk shards parity storages) offset m (f ∷ fs)
        ≡ extract_from
            (group chunk shards parity storages)
            (offset + f.size)
            (add_piece l.storage (entry f l offset) m)
            fs
  unfolding extract_from
  extract_from-round f fs offset m l fits nonempty small room =
      let (first, last) = checked_pointer-ends f l fits nonempty small in
      let same : l.storage == l.storage ≡ true = ground arith in
      rw (first, last, same, add64_exact offset f.size room) refl

  module _ (code : ℕ → ℕ → List ℕ) (target : ℕ → ℕ)
      (full : (stripe i : ℕ) → length (code stripe i) ≡ chunk) where
    entry-IsGood :
        (f : Fragment) (l : Place chunk shards f.pointer) (offset : ℕ)
        → l.rest + f.size ≤ chunk
        → f.pointer + f.size + chunk * shards ≤ word
        → ((i : ℕ)
            → i < f.size
            → target (offset + i) ≡ byte_at chunk shards some_chunk some_shard code (f.pointer + i))
        → AllGood chunk shards target
            (slices chunk shards some_chunk some_shard code l.storage)
            (entry f l offset ∷ [])
    entry-IsGood f l offset fits small spells =
        let (right, size, inside) =
          slices_good chunk shards some_chunk some_shard code target l.stripe l.storage l.rest
            f.size offset full l.inside fits
            λ i h.
              spells i h
              ∙ ap (byte_at chunk shards some_chunk some_shard code) (moved i)
              ∙ byte_at-place chunk shards some_chunk some_shard code l.stripe l.storage
                  (l.rest + i) l.known (omega (arith, fits, h)) in
        let stripe : (l.stripe * chunk + l.rest) / chunk ≡ l.stripe =
          mul-add-div_right some_chunk l.stripe l.rest ∙ omega (arith, div-eq_of_lt l.inside) in
        let bound : (l.stripe + 1) * (chunk * shards) ≤ word = omega (arith, l.sum) in
        ((right, size, inside, rw stripe bound), tt)
      where
        moved :
            (i : ℕ)
            → f.pointer + i ≡ l.stripe * (chunk * shards) + (chunk * l.storage + (l.rest + i))
        moved i = omega (arith, l.sum)

    -- What the loop makes of fragments that follow each other in the buffer from `offset` on.
    pub record IsExtracted (offset : ℕ) (m : Pieces) (fs : List Fragment) : Type 0 where
      pub entries : Pieces
      pub result : extract_from (group chunk shards parity storages) offset m fs ≡ ok entries
      pub good : IsGoodMap chunk shards some_chunk some_shard code target entries
      pub are_known : are_data (group chunk shards parity storages) entries ≡ true
      pub covers :
          (n : ℕ) → CoversMap m n ⊎ ((offset ≤ n) × (n < offset + total fs)) → CoversMap entries n

    pub extract_from-IsExtracted :
        (offset : ℕ) (m : Pieces) (fs : List Fragment)
        → AllInside chunk fs
        → AllSmall (chunk * shards) fs
        → Spells chunk shards some_chunk some_shard code target offset fs
        → offset + total fs < word
        → IsGoodMap chunk shards some_chunk some_shard code target m
        → are_data (group chunk shards parity storages) m ≡ true
        → IsExtracted offset m fs
    extract_from-IsExtracted offset m [] inside small spells room good known = record {
      entries = m;
      result = unfold extract_from in refl;
      good = good;
      are_known = known;
      covers = λ n c. elim c [ inl here ↦ here | inr (low, high) ↦ absurd (omega arith) ];
    }
    extract_from-IsExtracted offset m (f ∷ fs) (i, inside) (nonempty, s, small) (here, spells) room
          good known =
        let l = pointer-Place chunk shards some_chunk some_shard f.pointer in
        let fits = fragment_fits chunk shards some_chunk some_shard code f l i nonempty in
        let p = entry f l offset in
        let entry_good = entry-IsGood f l offset fits s here in
        let m' = add_piece l.storage p m in
        let rest =
          extract_from-IsExtracted (offset + f.size) m' fs inside small spells (omega arith)
            (add_piece-IsGoodMap chunk shards some_chunk some_shard code target l.storage p m
              l.known entry_good good)
            (are_data-add_piece (group chunk shards parity storages) l.storage p m
              (lt→ltb l.storage shards l.known) known) in
        record {
          entries = rest.entries;
          result =
              extract_from-round f fs offset m l fits nonempty (omega arith) (omega arith)
              ∙ rest.result;
          good = rest.good;
          are_known = rest.are_known;
          covers = λ n c. rest.covers n (elim c [
            | inl old ↦ inl (add_piece-covers l.storage p m n (inr old))
            | inr (low, high) ↦ elim (Bool-cases (ltb n (offset + f.size))) [
              | inl first ↦ inl (add_piece-covers l.storage p m n (inl (low, ground arith)))
              | inr later ↦ inr (ground arith, omega arith)
            ]
          ]);
        }
