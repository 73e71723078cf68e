-- ===== src/Storage/EcDataView/Read/Stripes.antt =====
-- `get_stripe_ids` of `src/storage/group/ec_data_view.cpp` in the group with id 0: the pieces that a
-- storage did not give, by stripes.
use Prim.Native.Nat.{bit_or}
use native.Mathlib.Nat.{mod-lt}
use uh_core.Base.{
  ℕ, ◌+◌, ◌*◌, ◌/◌, ◌%◌, ◌^◌, ◌≤◌, ◌<◌, ◌==◌, ◌≡◌, refl, ap, sym, ◌∙◌, ◌⊎◌, inl, inr, Bool-cases,
  List, [], ◌∷◌, ◌++◌, arith, take, drop, length, ==_iff, word,
}
use uh_core.Base.Bits.{bit_or_disjoint}
use uh_core.Pointers.{shl, ec_global_pointer}
use uh_core.Pointers.ErasureCoding.{chunk_place, stripe_index, ec_group_pointer_sum}
use uh_core.Storage.EcDataView.Write.{group}
use uh_core.Storage.EcDataView.Read.{Piece, Pieces, add_piece, add_stripes, get_stripe_ids}
use uh_core.Storage.EcDataView.Read.Buffer.{AreRight, Covers, CoversMap, AllGood}
use uh_core.Storage.EcDataView.Read.Stripe.{slices}
use uh_core.Storage.EcDataView.Read.AddPiece.{IsGoodMap, add_piece-covers}

module _ (chunk shards : ℕ) (code : ℕ → ℕ → List ℕ) (target : ℕ → ℕ) where
  -- A piece of a stripe, with a pointer of the group.
  pub record IsOfStripe (stripe : ℕ) (p : Piece) : Type 0 where
    pub storage : ℕ
    pub rest : ℕ
    pub known : storage < shards
    pub inside : rest < chunk
    pub place : p.pointer ≡ stripe * (chunk * shards) + (chunk * storage + rest)
    pub right : AreRight target p.offset (take p.size (drop rest (code stripe storage)))
    pub amount : length (take p.size (drop rest (code stripe storage))) ≡ p.size

  abbrev pub AllOfStripe : ℕ → List Piece → Type 0
  AllOfStripe stripe [] = Unit {0}
  AllOfStripe stripe (p ∷ ps) = IsOfStripe stripe p × AllOfStripe stripe ps

  -- Every stripe ends below 2^64.
  abbrev pub IsStripeMap : Pieces → Type 0
  IsStripeMap [] = Unit {0}
  IsStripeMap ((stripe, ps) ∷ m) =
      ((stripe + 1) * (chunk * shards) ≤ word) × AllOfStripe stripe ps × IsStripeMap m

  AllOfStripe-append :
      (stripe : ℕ) (ps qs : List Piece)
      → AllOfStripe stripe ps
      → AllOfStripe stripe qs
      → AllOfStripe stripe (ps ++ qs)
  AllOfStripe-append stripe [] qs g h = h
  AllOfStripe-append stripe (p ∷ ps) qs (g, gs) h = (g, AllOfStripe-append stripe ps qs gs h)

  add_piece-IsStripeMap :
      (stripe : ℕ) (p : Piece) (m : Pieces)
      → (stripe + 1) * (chunk * shards) ≤ word
      → IsOfStripe stripe p
      → IsStripeMap m
      → IsStripeMap (add_piece stripe p m)
  unfolding add_piece
  add_piece-IsStripeMap stripe p [] h g tt = (h, (g, tt), tt)
  add_piece-IsStripeMap stripe p ((k, ps) ∷ m) h g (small, goods, rest) =
      elim (Bool-cases (k == stripe)) [
        | inl same ↦
            let e : stripe ≡ k = sym ((==_iff k stripe).0 same) in
            let new : IsOfStripe k p = rw (sym e) g in
            rw same (small, AllOfStripe-append k ps (p ∷ []) goods (new, tt), rest)
        | inr other ↦ rw other (small, goods, add_piece-IsStripeMap stripe p m h g rest)
      ]

module _ (chunk shards : ℕ) (some_chunk : 0 < chunk) where
  -- In the group 0, a pointer of a storage is packed without a prefix.
  ec_global_pointer_sum :
      (p id : ℕ)
      → id < shards
      → (p / chunk + 1) * (chunk * shards) ≤ word
      → ec_global_pointer p 0 id chunk (chunk * shards)
        ≡ p / chunk * (chunk * shards) + (chunk * id + p % chunk)
  unfolding ec_global_pointer
  ec_global_pointer_sum p id known small =
      let x = p / chunk * (chunk * shards) + (chunk * id + p % chunk) in
      let place = chunk_place chunk shards some_chunk (p % chunk) id (mod-lt p some_chunk) known in
      let below : x < 2 ^ 96 = omega (arith, place) in
      ap (bit_or (shl 0 96)) (ec_group_pointer_sum chunk shards some_chunk p id known (omega arith))
      ∙ bit_or_disjoint 96 0 x below
      ∙ omega arith

  stripe_of :
      (p id : ℕ)
      → id < shards
      → (p / chunk + 1) * (chunk * shards) ≤ word
      → ec_global_pointer p 0 id chunk (chunk * shards) / (chunk * shards) % word ≡ p / chunk
  stripe_of p id known small =
      let index =
        stripe_index chunk shards some_chunk (p / chunk) (p % chunk) id (mod-lt p some_chunk)
          known in
      let some_bytes : 0 < chunk * shards = grind arith in
      let below : p / chunk < word = grind arith in
      ap (λ (x : ℕ). x / (chunk * shards) % word) (ec_global_pointer_sum p id known small)
      ∙ ap (λ (x : ℕ). x % word) index
      ∙ omega (arith, below)

  module _ (parity storages : ℕ) (code : ℕ → ℕ → List ℕ) (target : ℕ → ℕ)
      (some_shard : 0 < shards) where
    -- A piece of storage `id`, as one of its stripe.
    abbrev moved : ℕ → Piece → Piece
    moved id p = record {
      pointer = ec_global_pointer p.pointer 0 id chunk (chunk * shards);
      size = p.size;
      offset = p.offset;
    }

    moved-IsOfStripe :
        (id : ℕ) (p : Piece)
        → id < shards
        → AllGood chunk shards target (slices chunk shards some_chunk some_shard code id) (p ∷ [])
        → IsOfStripe chunk shards code target (p.pointer / chunk) (moved id p)
    moved-IsOfStripe id p known ((right, amount, inside, small), tt) = record {
      storage = id;
      rest = p.pointer % chunk;
      known = known;
      inside = mod-lt p.pointer some_chunk;
      place = ec_global_pointer_sum p.pointer id known small;
      right = right;
      amount = amount;
    }

    add_stripes-round :
        (id : ℕ) (p : Piece) (ps : List Piece) (m : Pieces)
        → id < shards
        → (p.pointer / chunk + 1) * (chunk * shards) ≤ word
        → add_stripes (group chunk shards parity storages) 0 id (p ∷ ps) m
          ≡ add_stripes
              (group chunk shards parity storages)
              0
              id
              ps
              (add_piece (p.pointer / chunk) (moved id p) m)
    unfolding add_stripes
    add_stripes-round id p ps m known small = rw (stripe_of p.pointer id known small) refl

    -- What the pieces of one storage leave: the map stays one of stripes, and covers them.
    record IsMoved (ps : List Piece) (m m' : Pieces) : Type 0 where
      good : IsStripeMap chunk shards code target m'
      covers : (n : ℕ) → Covers ps n ⊎ CoversMap m n → CoversMap m' n

    add_stripes-IsMoved :
        (id : ℕ) (ps : List Piece) (m : Pieces)
        → id < shards
        → AllGood chunk shards target (slices chunk shards some_chunk some_shard code id) ps
        → IsStripeMap chunk shards code target m
        → IsMoved ps m (add_stripes (group chunk shards parity storages) 0 id ps m)
    add_stripes-IsMoved id [] m known good stripes =
        unfold add_stripes in
        record {
          good = stripes;
          covers = λ n c. elim c [ inl none_here ↦ elim none_here [ ] | inr old ↦ old ];
        }
    add_stripes-IsMoved id (p ∷ ps) m known ((right, amount, inside, small), good) stripes =
        let here : AllGood chunk shards target (slices chunk shards some_chunk some_shard code id)
            (p ∷ []) =
          ((right, amount, inside, small), tt) in
        let rest =
          add_stripes-IsMoved id ps (add_piece (p.pointer / chunk) (moved id p) m) known good (
            add_piece-IsStripeMap chunk shards code target (p.pointer / chunk) (moved id p) m small
              (moved-IsOfStripe id p known here) stripes) in
        rw (add_stripes-round id p ps m known small) (record {
          good = rest.good;
          covers = λ n c. rest.covers n (elim c [
            | inl new ↦ elim new [
              | inl first ↦ inr (add_piece-covers (p.pointer / chunk) (moved id p) m n (inl first))
              | inr later ↦ inl later
            ]
            | inr old ↦ inr (add_piece-covers (p.pointer / chunk) (moved id p) m n (inr old))
          ]);
        })

    pub get_stripe_ids-IsStripeMap :
        (failed m : Pieces)
        → IsGoodMap chunk shards some_chunk some_shard code target failed
        → IsStripeMap chunk shards code target m
        → let m' = get_stripe_ids (group chunk shards parity storages) 0 failed m in
          IsStripeMap chunk shards code target m'
          × ((n : ℕ) → CoversMap failed n ⊎ CoversMap m n → CoversMap m' n)
    unfolding get_stripe_ids
    get_stripe_ids-IsStripeMap [] m good stripes =
        (stripes, λ n c. elim c [ inl none_here ↦ elim none_here [ ] | inr old ↦ old ])
    get_stripe_ids-IsStripeMap ((id, ps) ∷ failed) m (known, good, goods) stripes =
        let g = group chunk shards parity storages in
        let here = add_stripes-IsMoved id ps m known good stripes in
        let (kept, covers) =
          get_stripe_ids-IsStripeMap failed (add_stripes g 0 id ps m) goods here.good in
        (
          kept,
          λ n c. covers n (elim c [
            | inl new ↦ elim new [
              | inl first ↦ inr (here.covers n (inl first))
              | inr later ↦ inl later
            ]
            | inr old ↦ inr (here.covers n (inr old))
          ]),
        )
