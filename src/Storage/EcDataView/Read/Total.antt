-- ===== src/Storage/EcDataView/Read/Total.antt =====
-- `read_address` of `src/storage/group/ec_data_view.cpp` from the address to the bytes, in the group
-- with id 0.
use uh_core.Base.{
  ℕ, ◌*◌, ◌≤◌, ◌<◌, ◌≡◌, refl, ap, sym, ◌∙◌, inr, Bool, true, ◌&&◌, if◌then◌else◌, some, List, [],
  map, arith, length, word,
}
use uh_core.Base.Result.{Result, ok, throws, Failure}
use uh_core.Types.Address.{Address, data_size}
use uh_core.Types.Address.Bytes.{bytes, total, length-list_bytes}
use uh_core.Storage.EcDataView.{get_aligned_address}
use uh_core.Storage.EcDataView.Pieces.{AllRoom}
use uh_core.Storage.EcDataView.Split.{AllSmall, get_aligned_address-AllSmall}
use uh_core.Storage.EcDataView.Write.{group}
use uh_core.Storage.EcDataView.Read.{
  Piece, Pieces, Buffer, count_true, tests, are_data, read_from_storages, extract_from, read_pieces,
  read_address,
}
use uh_core.Storage.EcDataView.Read.Buffer.{
  AllInChunk, CoversMap, IsRight, read_from_storages-IsRead,
}
use uh_core.Storage.EcDataView.Read.Stripe.{slices, byte_of, byte_at}
use uh_core.Storage.EcDataView.Read.AddPiece.{IsGoodMap}
use uh_core.Storage.EcDataView.Read.Extract.{extract_from-IsExtracted}
use uh_core.Storage.EcDataView.Read.Spelled.{wanted, wanted-Spells}
use uh_core.Storage.EcDataView.Read.Recover.{codes, Agrees}
use uh_core.Storage.EcDataView.Read.Whole.{reconstruct-right}

module _ (chunk data_shards parity storages : ℕ) (some_chunk : 0 < chunk)
    (some_shard : 0 < data_shards) (enough : data_shards ≤ storages) (code : ℕ → ℕ → List ℕ)
    (full : (stripe i : ℕ) → length (code stripe i) ≡ chunk) (usable up : ℕ → Bool)
    (ask : ℕ → List Piece → Result (List (List ℕ)))
    (recover : List (List ℕ) → List Bool → Result (List (List ℕ))) (error : Failure)
    (honest : (id : ℕ) (ps : List Piece)
      → AllInChunk chunk ps
      → ask id ps ≡ (
          if up id
          then ok (map (slices chunk data_shards some_chunk some_shard code id) ps)
          else throws error))
    (repairs : (stripe : ℕ) (views : List (List ℕ)) (valid : List Bool)
      → length views ≡ storages
      → Agrees (code stripe) 0 views valid
      → data_shards ≤ count_true valid
      → recover views valid ≡ ok (codes (code stripe) 0 storages)) where
  module _ (target : ℕ → ℕ) where
    -- What the first reads leave is recovered.
    read_pieces-IsRight :
        (buffer : Buffer) (m : Pieces)
        → IsGoodMap chunk data_shards some_chunk some_shard code target m
        → are_data (group chunk data_shards parity storages) m ≡ true
        → data_shards ≤ count_true (tests (λ i. usable i && up i) 0 storages)
        → (b : Buffer) × (read_pieces
              (group chunk data_shards parity storages)
              usable
              ask
              recover
              0
              buffer
              m
            ≡ ok b)
          × ((n : ℕ) → CoversMap m n → IsRight target b n)
    read_pieces-IsRight buffer m good known left =
        let read =
          read_from_storages-IsRead chunk data_shards target
            (slices chunk data_shards some_chunk some_shard code) usable up ask error honest buffer
            m good in
        let (b, failed) = read_from_storages usable ask buffer m in
        let filled =
          reconstruct-right chunk data_shards parity storages some_chunk some_shard enough code
            target full usable up ask recover error honest repairs b failed read.good read.dead
            left in
        (filled.filled, rw known filled.result, λ n c. filled.right n (read.covers n c))

  read_address-round :
      (addr aligned : Address) (buffer b : Buffer) (m : Pieces)
      → get_aligned_address chunk addr ≡ some aligned
      → extract_from (group chunk data_shards parity storages) 0 [] aligned.fragments ≡ ok m
      → read_pieces (group chunk data_shards parity storages) usable ask recover 0 buffer m ≡ ok b
      → read_address (group chunk data_shards parity storages) usable ask recover 0 addr buffer
        ≡ some (ok (data_size addr, b))
  unfolding read_address
  read_address-round addr aligned buffer b m split read done =
      rw (split, read_address) (rw (read, done) refl)

  -- In the group with id 0, where as many storages are usable and answer as a stripe has data
  -- shards, `read_address` gives the size of the address, and every byte of the address is in the
  -- buffer at its place, whether its storage gave it or it was recovered. A storage that answers
  -- gives the bytes of its shard of every stripe for pieces that lie inside chunks. From views that
  -- hold the shards of a stripe wherever they are valid, as many of them valid as there are data
  -- shards, the Reed-Solomon code makes the shards of the stripe. Shards have a chunk of bytes; the
  -- fragments are not empty, end a stripe below 2^64 and have less than 2^64 bytes together.
  pub read_address_recovers :
      (addr : Address) (buffer : Buffer)
      → chunk < word
      → AllRoom chunk addr.fragments
      → AllSmall (chunk * data_shards) addr.fragments
      → total addr.fragments < word
      → data_shards ≤ count_true (tests (λ i. usable i && up i) 0 storages)
      → (b : Buffer) × (read_address
            (group chunk data_shards parity storages)
            usable
            ask
            recover
            0
            addr
            buffer
          ≡ some (ok (data_size addr, b)))
        × ((n : ℕ)
            → n < length (bytes addr)
            → b n ≡ byte_at chunk data_shards some_chunk some_shard code (byte_of (bytes addr) n))
  read_address_recovers addr buffer small room below sum left =
      let (aligned, split, same, inside, kept) =
        get_aligned_address-AllSmall chunk some_chunk addr room small in
      let amount : total aligned.fragments ≡ total addr.fragments =
        sym (length-list_bytes aligned.fragments)
        ∙ ap (λ (l : List ℕ). length l) same
        ∙ length-list_bytes addr.fragments in
      let target = wanted chunk data_shards some_chunk some_shard code (bytes aligned) in
      let read =
        extract_from-IsExtracted chunk data_shards parity storages some_chunk some_shard enough code
          target full 0 [] aligned.fragments inside (kept (chunk * data_shards) below)
          (wanted-Spells chunk data_shards some_chunk some_shard code [] aligned.fragments)
          (omega (arith, amount, sum)) tt refl in
      let (b, done, right) =
        read_pieces-IsRight target buffer read.entries read.good read.are_known left in
      (
        b,
        read_address-round addr aligned buffer b read.entries split read.result done,
        λ n h.
            right n (
              read.covers n
                (inr (omega arith, omega (arith, h, amount, length-list_bytes addr.fragments))))
            ∙ ap (λ (l : List ℕ). wanted chunk data_shards some_chunk some_shard code l n) same,
      )
