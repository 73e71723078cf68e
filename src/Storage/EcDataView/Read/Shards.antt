-- ===== src/Storage/EcDataView/Read/Shards.antt =====
-- The shards of a stripe in `read_address` of `src/storage/group/ec_data_view.cpp`: those that are
-- read from the storages that are left are what was stored, and there are enough of them.
use native.Mathlib.Nat.{mul-add-div_right, mul-add-mod_self_right, mod-eq_of_lt, div-eq_of_lt}
use uh_core.Base.{
  ℕ, zero, suc, ◌+◌, ◌*◌, ◌/◌, ◌%◌, ◌≤◌, ◌<◌, ◌≡◌, refl, ap, ◌∙◌, inl, inr, Bool, Bool-cases, true,
  false, ◌&&◌, if◌then◌else◌, List, [], ◌∷◌, map, arith, length, take_of_length-le, word,
}
use uh_core.Base.Result.{Result, ok, throws, Failure}
use uh_core.Storage.EcDataView.Write.{group}
use uh_core.Storage.EcDataView.Read.{Piece, tests, read_shard, shards, chunk_piece}
use uh_core.Storage.EcDataView.Read.Buffer.{AllInChunk}
use uh_core.Storage.EcDataView.Read.Stripe.{slices}
use uh_core.Storage.EcDataView.Read.Recover.{Agrees}

module _ (chunk data_shards parity storages : ℕ) (some_chunk : 0 < chunk)
    (some_shard : 0 < data_shards) (code : ℕ → ℕ → List ℕ)
    (full : (stripe i : ℕ) → length (code stripe i) ≡ chunk) (usable up : ℕ → Bool)
    (ask : ℕ → List Piece → Result (List (List ℕ)))
    (recover : List (List ℕ) → List Bool → Result (List (List ℕ))) (error : Failure)
    (honest : (id : ℕ) (ps : List Piece)
      → AllInChunk chunk ps
      → ask id ps ≡ (
          if up id
          then ok (map (slices chunk data_shards some_chunk some_shard code id) ps)
          else throws error)) where
  slices-chunk_piece :
      (stripe i : ℕ)
      → (stripe + 1) * (chunk * data_shards) ≤ word
      → let p = chunk_piece (group chunk data_shards parity storages) stripe in
        (p.pointer % chunk + chunk ≤ chunk)
        × (slices chunk data_shards some_chunk some_shard code i p ≡ code stripe i)
  slices-chunk_piece stripe i small =
      let more : (stripe + 1) * chunk ≤ (stripe + 1) * chunk * data_shards = grind arith in
      let below : chunk * stripe < word = omega (arith, more) in
      let pointer : chunk * stripe % word ≡ stripe * chunk + 0 = omega (arith, below) in
      let index : (stripe * chunk + 0) / chunk ≡ stripe =
        mul-add-div_right some_chunk stripe 0 ∙ omega (arith, div-eq_of_lt some_chunk) in
      let rest : (stripe * chunk + 0) % chunk ≡ 0 =
        mul-add-mod_self_right stripe chunk 0 ∙ mod-eq_of_lt some_chunk in
      rw (pointer, index, rest)
        (omega arith, take_of_length-le chunk (code stripe i) (omega (arith, full stripe i)))

  module _ (alive : ℕ → Bool) (stripe : ℕ)
      (small : (stripe + 1) * (chunk * data_shards) ≤ word) where
    abbrev shard : ℕ → List ℕ × Bool
    shard = read_shard (group chunk data_shards parity storages) usable ask recover alive stripe

    -- A shard is valid where the storage is alive and answers.
    shard-up : (i : ℕ) → alive i ≡ true → up i ≡ true → shard i ≡ (code stripe i, true)
    shard-up i a u =
        let (inside, bytes) = slices-chunk_piece stripe i small in
        rw
          (
            a,
            honest i (chunk_piece (group chunk data_shards parity storages) stripe ∷ [])
                (inside, tt),
            u,
            bytes,
          )
          refl

    shard-down : (i : ℕ) → (alive i && up i) ≡ false → (shard i).1 ≡ false
    shard-down i d = elim (Bool-cases (alive i)) [
      | inr a ↦ rw a refl
      | inl a ↦
          let (inside, bytes) = slices-chunk_piece stripe i small in
          let u : up i ≡ false = ground arith in
          rw
            (
              a,
              honest i (chunk_piece (group chunk data_shards parity storages) stripe ∷ [])
                  (inside, tt),
              u,
            )
            refl
    ]

    shard-right : (i : ℕ) → (shard i).1 ≡ true → (shard i).0 ≡ code stripe i
    shard-right i valid = elim (Bool-cases (alive i && up i)) [
      | inl e ↦ rw (shard-up i (ground arith) (ground arith)) refl
      | inr e ↦ absurd (ground (arith, shard-down i e))
    ]

    pub shards-Agrees :
        (i n : ℕ)
        → Agrees
            (code stripe)
            i
            (shards (group chunk data_shards parity storages) usable ask recover alive stripe i n)
            (tests (λ i. (shard i).1) i n)
    shards-Agrees i zero = tt
    shards-Agrees i (suc n) = (shard-right i, shards-Agrees (suc i) n)

    pub length-shards :
        (i n : ℕ)
        → length
            (shards (group chunk data_shards parity storages) usable ask recover alive stripe i n)
          ≡ n
    length-shards i zero = refl
    length-shards i (suc n) = ap suc (length-shards (suc i) n)

    pub valid-of_up : (i : ℕ) → (alive i && up i) ≡ true → (shard i).1 ≡ true
    valid-of_up i e = rw (shard-up i (ground arith) (ground arith)) refl
