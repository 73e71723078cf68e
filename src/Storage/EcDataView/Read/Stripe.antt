-- ===== src/Storage/EcDataView/Read/Stripe.antt =====
-- The bytes of an erasure-coded group of `src/storage/group/ec_data_view.cpp`, by stripe, storage
-- and place in the chunk.
use native.Mathlib.Nat.{
  mod-lt, div-add-mod', div-lt_iff_lt-mul, mul-add-div_right, mul-add-mod_self_right, mod-eq_of_lt,
  div-eq_of_lt, le-div_iff_mul-le,
}
use uh_core.Base.{
  ℕ, zero, suc, ◌+◌, ◌*◌, ◌/◌, ◌%◌, ◌≤◌, ◌<◌, ◌≡◌, refl, ap, sym, ◌∙◌, some, List, [], ◌∷◌, arith,
  take, drop, length, length-take, length-drop, get_elem?, get_elem?-take, get_elem?-drop, word,
}
use uh_core.Types.Fragment.{Fragment}
use uh_core.Pointers.{ec_storage_pointer}
use uh_core.Pointers.ErasureCoding.{chunk_index, stripe_place, stripe_index}
use uh_core.Storage.EcDataView.Place.{ec_storage_pointer_parts}
use uh_core.Storage.EcDataView.Pieces.{IsInside}
use uh_core.Storage.EcDataView.Read.{Piece}
use uh_core.Storage.EcDataView.Read.Buffer.{AreRight}

-- The byte at a place; 0 behind the end.
abbrev pub byte_of : List ℕ → ℕ → ℕ
byte_of [] i = 0
byte_of (b ∷ bs) zero = b
byte_of (b ∷ bs) (suc i) = byte_of bs i

get_elem?-byte_of : (bs : List ℕ) (i : ℕ) → i < length bs → get_elem? bs i ≡ some (byte_of bs i)
get_elem?-byte_of [] i h = absurd (omega arith)
get_elem?-byte_of (b ∷ bs) zero h = refl
get_elem?-byte_of (b ∷ bs) (suc i) h = get_elem?-byte_of bs i (omega arith)

module _ (target : ℕ → ℕ) where
  pub AreRight-of_elements :
      (offset : ℕ) (bs : List ℕ)
      → ((i : ℕ) → i < length bs → get_elem? bs i ≡ some (target (offset + i)))
      → AreRight target offset bs
  AreRight-of_elements offset [] all = tt
  AreRight-of_elements offset (b ∷ bs) all =
      let first = all 0 (omega arith) in
      let start : offset + 0 ≡ offset = omega arith in
      (
        some_injective b (target offset) (rw start at first),
        AreRight-of_elements (suc offset) bs
            λ i h. all (suc i) (omega (arith, h)) ∙ ap (λ (t : ℕ). some (target t)) (moved i),
      )
    where
      some_injective : (a c : ℕ) → some a ≡ some c → a ≡ c
      some_injective a c e = cc

      moved : (i : ℕ) → offset + suc i ≡ suc offset + i
      moved i = omega arith

-- The place of a byte of the group.
pub record Place (chunk shards x : ℕ) : Type 0 where
  pub stripe : ℕ
  pub storage : ℕ
  pub rest : ℕ
  pub known : storage < shards
  pub inside : rest < chunk
  pub sum : x ≡ stripe * (chunk * shards) + (chunk * storage + rest)

module _ (chunk shards : ℕ) (some_chunk : 0 < chunk) (some_shard : 0 < shards) where
  pub pointer-Place : (x : ℕ) → Place chunk shards x
  pointer-Place x =
      let size : 0 < chunk * shards = grind arith in
      let m = x % (chunk * shards) in
      let hm : m < chunk * shards = mod-lt x size in
      record {
        stripe = x / (chunk * shards);
        storage = m / chunk;
        rest = m % chunk;
        known = (div-lt_iff_lt-mul some_chunk).1 (omega arith);
        inside = mod-lt m some_chunk;
        sum = omega (arith, div-add-mod' x (chunk * shards), div-add-mod' m chunk);
      }

  chunk_rest : (r s : ℕ) → r < chunk → (chunk * s + r) % chunk ≡ r
  chunk_rest r s hr =
      ap (λ (t : ℕ). (t + r) % chunk) (swap s) ∙ mul-add-mod_self_right s chunk r ∙ mod-eq_of_lt hr
    where
      swap : (s : ℕ) → chunk * s ≡ s * chunk
      swap s = omega arith

  pub ec_storage_pointer-place :
      (s j r : ℕ)
      → j < shards
      → r < chunk
      → s * (chunk * shards) + (chunk * j + r) < word
      → ec_storage_pointer (s * (chunk * shards) + (chunk * j + r)) chunk (chunk * shards)
        ≡ (j, s * chunk + r)
  ec_storage_pointer-place s j r hj hr small =
      rw
        (
          ec_storage_pointer_parts chunk shards some_chunk some_shard
              (s * (chunk * shards) + (chunk * j + r)) small,
          stripe_place chunk shards some_chunk s r j hr hj,
          stripe_index chunk shards some_chunk s r j hr hj,
          chunk_index chunk shards some_chunk r j hr,
          chunk_rest r j hr,
        )
        refl

  module _ (code : ℕ → ℕ → List ℕ) where
    -- What storage `id` holds for a piece within a chunk.
    abbrev pub slices : ℕ → Piece → List ℕ
    slices id p = take p.size (drop (p.pointer % chunk) (code (p.pointer / chunk) id))

    -- The byte of the group at a pointer.
    abbrev pub byte_at : ℕ → ℕ
    byte_at x =
        byte_of (code (x / (chunk * shards)) (x % (chunk * shards) / chunk))
          (x % (chunk * shards) % chunk)

    pub byte_at-place :
        (s j r : ℕ)
        → j < shards
        → r < chunk
        → byte_at (s * (chunk * shards) + (chunk * j + r)) ≡ byte_of (code s j) r
    byte_at-place s j r hj hr =
        rw
          (
            stripe_place chunk shards some_chunk s r j hr hj,
            stripe_index chunk shards some_chunk s r j hr hj,
            chunk_index chunk shards some_chunk r j hr,
            chunk_rest r j hr,
          )
          refl

    pub slices_good :
        (target : ℕ → ℕ) (s j r size offset : ℕ)
        → ((a b : ℕ) → length (code a b) ≡ chunk)
        → r < chunk
        → r + size ≤ chunk
        → ((i : ℕ) → i < size → target (offset + i) ≡ byte_of (code s j) (r + i))
        → let p : Piece = record { pointer = s * chunk + r; size = size; offset = offset } in
          AreRight target offset (slices j p)
          × (length (slices j p) ≡ size)
          × ((s * chunk + r) % chunk + size ≤ chunk)
    slices_good target s j r size offset full hr fits same =
        let rest : (s * chunk + r) % chunk ≡ r =
          mul-add-mod_self_right s chunk r ∙ mod-eq_of_lt hr in
        let stripe : (s * chunk + r) / chunk ≡ s =
          mul-add-div_right some_chunk s r ∙ omega (arith, div-eq_of_lt hr) in
        let bytes = drop r (code s j) in
        let room = length-drop r (code s j) in
        let amount : length (take size bytes) ≡ size =
          omega (arith, length-take size bytes, room, full s j) in
        rw (rest, stripe)
          (
            AreRight-of_elements target offset (take size bytes) λ i h.
                get_elem?-take size bytes i (omega (arith, h, amount))
                ∙ get_elem?-drop r (code s j) i
                ∙ get_elem?-byte_of (code s j) (r + i) (omega (arith, h, amount, full s j))
                ∙ ap some (sym (same i (omega (arith, h, amount)))),
            amount,
            fits,
          )

    -- A fragment inside a chunk has all its bytes in one storage, one behind the other.
    pub fragment_fits :
        (f : Fragment) (l : Place chunk shards f.pointer)
        → IsInside chunk f
        → 0 < f.size
        → l.rest + f.size ≤ chunk
    fragment_fits f l (q, low, high) nonempty =
        let i : ℕ = l.stripe * shards + l.storage in
        let place : f.pointer ≡ i * chunk + l.rest = omega (arith, l.sum) in
        let index : f.pointer / chunk ≡ i =
          ap (λ (t : ℕ). t / chunk) place
          ∙ mul-add-div_right some_chunk i l.rest
          ∙ omega (arith, div-eq_of_lt l.inside) in
        let below : q ≤ f.pointer / chunk = (le-div_iff_mul-le some_chunk).1 low in
        let above : f.pointer / chunk < q + 1 = (div-lt_iff_lt-mul some_chunk).1 (omega arith) in
        let same : q ≡ i = omega arith in
        let end : f.pointer + f.size ≤ (i + 1) * chunk = rw (sym same) high in omega arith
