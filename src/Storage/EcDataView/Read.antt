-- ===== src/Storage/EcDataView/Read.antt =====
-- `read_address` of `src/storage/group/ec_data_view.cpp` and `extract_node_address_map` of
-- `src/storage/group/impl/address_utils.cpp`. A buffer is a function from places to bytes. A map is
-- a list of its entries, in the order in which the keys first appear.
pub mod Buffer
pub mod AddPiece
pub mod Extract
pub mod Stripe
pub mod Stripes
pub mod Spelled
pub mod Recover
pub mod Shards
pub mod Whole
pub mod Total
mod Tests
use uh_core.Base.{
  ℕ, zero, suc, ◌+◌, ◌-◌, ◌*◌, ◌/◌, ◌%◌, ◌==◌, leb, ltb, Bool, true, false, not, ◌&&◌, ◌||◌,
  if◌then◌else◌, Option, none, some, List, [], ◌∷◌, ◌++◌, take, drop, length, get_elem?, add64,
  add128, sub128, word,
}
use uh_core.Base.Result.{Result, ok, throws, runtime_error, out_of_range, ◌>>=◌}
use uh_core.Types.Fragment.{Fragment}
use uh_core.Types.Address.{Address, data_size}
use uh_core.Pointers.{ec_storage_pointer, ec_global_pointer}
use uh_core.Storage.EcDataView.{get_aligned_address}
use uh_core.Storage.EcDataView.Stripes.{zeros, nth}
use uh_core.Storage.EcDataView.Service.{EcGroup}

-- A fragment of a storage, and where its bytes go in the buffer of the client.
pub record Piece : Type 0 where
  pub pointer : ℕ
  pub size : ℕ
  pub offset : ℕ

abbrev pub Pieces : Type 0
Pieces = List (ℕ × List Piece)

abbrev pub Buffer : Type 0
Buffer = ℕ → ℕ

-- `map[key].push_back(p)`
unfoldable pub add_piece : ℕ → Piece → Pieces → Pieces
add_piece key p [] = (key, p ∷ []) ∷ []
add_piece key p ((k, ps) ∷ m) =
    let later = (k, ps) ∷ add_piece key p m in if k == key then (k, ps ++ p ∷ []) ∷ m else later

-- The bytes are copied to `offset`.
unfoldable pub copy_to : Buffer → ℕ → List ℕ → Buffer
copy_to buffer offset [] n = buffer n
copy_to buffer offset (b ∷ bs) n = if n == offset then b else copy_to buffer (suc offset) bs n

unfoldable pub copy_all : Buffer → List Piece → List (List ℕ) → Buffer
unfolding copy_to
copy_all buffer [] bytes = buffer
copy_all buffer (p ∷ ps) [] = buffer
copy_all buffer (p ∷ ps) (bs ∷ bytes) = copy_all (copy_to buffer p.offset bs) ps bytes

abbrev pub has_key : ℕ → Pieces → Bool
has_key i [] = false
has_key i ((id, ps) ∷ m) = id == i || has_key i m

abbrev pub count_true : List Bool → ℕ
count_true [] = 0
count_true (b ∷ bs) = (if b then 1 else 0) + count_true bs

-- A test of the `n` storages from `i` on.
abbrev pub tests : (ℕ → Bool) → ℕ → ℕ → List Bool
tests p i zero = []
tests p i (suc n) = p i ∷ tests p (suc i) n

-- Reads pieces from a storage: `usable` says that there is a client and that its state is
-- ASSIGNED, and `ask` is `read_address` of the storage, with the bytes of each piece.
module _ (usable : ℕ → Bool) (ask : ℕ → List Piece → Result (List (List ℕ))) where
  abbrev pub try_read : ℕ → List Piece → Option (List (List ℕ))
  try_read id ps =
      let asked : Option (List (List ℕ)) = elim (ask id ps) [
        | ok bytes ↦ some bytes
        | throws e ↦ none
      ] in
      if usable id then asked else none

  -- `read_from_storages`: the buffer, and the entries whose storage did not give their bytes.
  unfoldable pub read_from_storages : Buffer → Pieces → Buffer × Pieces
  unfolding copy_all
  read_from_storages buffer [] = (buffer, [])
  read_from_storages buffer ((id, ps) ∷ m) = elim (try_read id ps) [
    | some bytes ↦ read_from_storages (copy_all buffer ps bytes) m
    | none ↦ let (b, failed) = read_from_storages buffer m in (b, (id, ps) ∷ failed)
  ]

module _ (g : EcGroup) where
  -- `get_storage_pointer` of the view, which wants a storage of the group.
  unfoldable pub checked_pointer : ℕ → Result (ℕ × ℕ)
  unfolding ec_storage_pointer
  checked_pointer pointer =
      let place = ec_storage_pointer pointer g.chunk_size g.stripe_size in
      if leb g.storages place.0 then throws runtime_error else ok place

  -- The loop of `extract_node_address_map`.
  unfoldable pub extract_from : ℕ → Pieces → List Fragment → Result Pieces
  unfolding checked_pointer add_piece add64 add128 sub128
  extract_from offset m [] = ok m
  extract_from offset m (f ∷ fs) = checked_pointer f.pointer >>= λ first.
      checked_pointer (sub128 (add128 f.pointer f.size) 1) >>= λ last.
      if first.0 == last.0
      then extract_from (add64 offset f.size)
          (add_piece first.0 (record { pointer = first.1; size = f.size; offset = offset }) m) fs
      else throws out_of_range

  -- The ids of the storages of the address, which must hold data.
  abbrev pub are_data : Pieces → Bool
  are_data [] = true
  are_data ((id, ps) ∷ m) = ltb id g.data_shards && are_data m

  -- The entry of one storage, by stripes: with global pointers in place of the storage's own.
  unfoldable pub add_stripes : ℕ → ℕ → List Piece → Pieces → Pieces
  unfolding add_piece ec_global_pointer
  add_stripes group_id id [] m = m
  add_stripes group_id id (p ∷ ps) m =
      let pointer = ec_global_pointer p.pointer group_id id g.chunk_size g.stripe_size in
      add_stripes group_id id ps (
        add_piece (pointer / g.stripe_size % word)
          (record { pointer = pointer; size = p.size; offset = p.offset }) m)

  unfoldable pub get_stripe_ids : ℕ → Pieces → Pieces → Pieces
  unfolding add_stripes
  get_stripe_ids group_id [] m = m
  get_stripe_ids group_id ((id, ps) ∷ failed) m =
      get_stripe_ids group_id failed (add_stripes group_id id ps m)

  -- The chunk of a stripe, as a storage holds it.
  abbrev pub chunk_piece : ℕ → Piece
  chunk_piece stripe = record {
    pointer = g.chunk_size * stripe % word;
    size = g.chunk_size;
    offset = 0;
  }

  -- What comes of the call that reads a chunk: the shard, and whether it is valid.
  abbrev pub shard_of : Result (List (List ℕ)) → List ℕ × Bool
  shard_of (ok (bytes ∷ rest)) = (bytes, true)
  shard_of (ok []) = (zeros g.chunk_size, true)
  shard_of (throws e) = (zeros g.chunk_size, false)

  module _ (usable : ℕ → Bool) (ask : ℕ → List Piece → Result (List (List ℕ)))
      (recover : List (List ℕ) → List Bool → Result (List (List ℕ))) where
    abbrev pub read_shard : (ℕ → Bool) → ℕ → ℕ → List ℕ × Bool
    read_shard alive stripe i =
        if alive i then shard_of (ask i (chunk_piece stripe ∷ [])) else (zeros g.chunk_size, false)

    abbrev pub shards : (ℕ → Bool) → ℕ → ℕ → ℕ → List (List ℕ)
    shards alive stripe i zero = []
    shards alive stripe i (suc n) = (read_shard alive stripe i).0 ∷ shards alive stripe (suc i) n

    abbrev pub stats : (ℕ → Bool) → ℕ → List Bool
    stats alive stripe = tests (λ i. (read_shard alive stripe i).1) 0 g.storages

    -- The last loop over a stripe: the recovered bytes go to the buffer.
    unfoldable pub copy_recovered : Buffer → List (List ℕ) → List Piece → Result Buffer
    unfolding checked_pointer copy_to
    copy_recovered buffer chunks [] = ok buffer
    copy_recovered buffer chunks (p ∷ ps) = checked_pointer p.pointer >>= λ place.
        copy_recovered
          (copy_to buffer p.offset
            (take p.size (drop (place.1 % g.chunk_size) (nth chunks place.0))))
          chunks ps

    unfoldable pub recover_stripe : (ℕ → Bool) → Buffer → ℕ → List Piece → Result Buffer
    unfolding copy_recovered
    recover_stripe alive buffer stripe ps =
        if ltb (count_true (stats alive stripe)) g.data_shards
        then throws runtime_error
        else (recover (shards alive stripe 0 g.storages) (stats alive stripe) >>= λ chunks.
            copy_recovered buffer chunks ps)

    unfoldable pub recover_stripes : (ℕ → Bool) → Buffer → Pieces → Result Buffer
    unfolding recover_stripe
    recover_stripes alive buffer [] = ok buffer
    recover_stripes alive buffer ((stripe, ps) ∷ m) =
        recover_stripe alive buffer stripe ps >>= λ b. recover_stripes alive b m

    -- The storages that are left for the recovery.
    abbrev pub is_alive : Pieces → ℕ → Bool
    is_alive failed i = usable i && not (has_key i failed)

    abbrev pub reconstruct : ℕ → Buffer × Pieces → Result Buffer
    reconstruct group_id (buffer, []) = ok buffer
    reconstruct group_id (buffer, (id, ps) ∷ failed) =
        if ltb (count_true (tests (is_alive ((id, ps) ∷ failed)) 0 g.storages)) g.data_shards
        then throws runtime_error
        else recover_stripes (is_alive ((id, ps) ∷ failed)) buffer
            (get_stripe_ids group_id ((id, ps) ∷ failed) [])

    abbrev pub read_pieces : ℕ → Buffer → Pieces → Result Buffer
    read_pieces group_id buffer m =
        if are_data m
        then reconstruct group_id (read_from_storages usable ask buffer m)
        else throws runtime_error

    -- The number of bytes and the buffer; `none` is a loop that ran out of fuel.
    unfoldable pub read_address : ℕ → Address → Buffer → Option (Result (ℕ × Buffer))
    unfolding get_aligned_address extract_from read_from_storages recover_stripes get_stripe_ids
        data_size
    read_address group_id addr buffer = elim (get_aligned_address g.chunk_size addr) [
      | none ↦ none
      | some aligned ↦ some (
          extract_from 0 [] aligned.fragments >>= λ m.
          read_pieces group_id buffer m >>= λ b. ok (data_size addr, b))
    ]
