-- ===== src/Storage/EcDataView/Read/AddPiece.antt =====
-- The map that `extract_node_address_map` of `src/storage/group/impl/address_utils.cpp` builds: what a
-- piece that is added leaves true of it.
use uh_core.Base.{
  ℕ, ◌+◌, ◌<◌, ◌==◌, ◌≡◌, refl, sym, ◌⊎◌, inl, inr, Bool-cases, true, List, [], ◌∷◌, ◌++◌, arith,
  ltb, ==_iff,
}
use uh_core.Types.Fragment.{Fragment}
use uh_core.Storage.EcDataView.Service.{EcGroup}
use uh_core.Storage.EcDataView.Read.{Piece, Pieces, add_piece, are_data}
use uh_core.Storage.EcDataView.Read.Buffer.{IsCovered, Covers, CoversMap, AllGood, AllGoodMap}
use uh_core.Storage.EcDataView.Read.Stripe.{byte_at, slices}

Covers-last : (ps : List Piece) (p : Piece) (n : ℕ) → IsCovered p n → Covers (ps ++ p ∷ []) n
Covers-last [] p n c = inl c
Covers-last (p' ∷ ps) p n c = inr (Covers-last ps p n c)

Covers-append : (ps qs : List Piece) (n : ℕ) → Covers ps n → Covers (ps ++ qs) n
Covers-append [] qs n c = elim c [ ]
Covers-append (p ∷ ps) qs n (inl c) = inl c
Covers-append (p ∷ ps) qs n (inr c) = inr (Covers-append ps qs n c)

pub add_piece-covers :
    (id : ℕ) (p : Piece) (m : Pieces) (n : ℕ)
    → IsCovered p n ⊎ CoversMap m n
    → CoversMap (add_piece id p m) n
unfolding add_piece
add_piece-covers id p [] n (inl c) = inl (inl c)
add_piece-covers id p [] n (inr c) = elim c [ ]
add_piece-covers id p ((k, ps) ∷ m) n c = elim (Bool-cases (k == id)) [
  | inl same ↦ rw same (elim c [
    | inl new ↦ inl (Covers-last ps p n new)
    | inr old ↦ elim old [
      | inl here ↦ inl (Covers-append ps (p ∷ []) n here)
      | inr later ↦ inr later
    ]
  ])
  | inr other ↦ rw other (elim c [
    | inl new ↦ inr (add_piece-covers id p m n (inl new))
    | inr old ↦ elim old [
      | inl here ↦ inl here
      | inr later ↦ inr (add_piece-covers id p m n (inr later))
    ]
  ])
]

module _ (chunk shards : ℕ) (some_chunk : 0 < chunk) (some_shard : 0 < shards)
    (code : ℕ → ℕ → List ℕ) (target : ℕ → ℕ) where
  -- What the storages hold for the pieces of a map is the target.
  abbrev pub IsGoodMap : Pieces → Type 0
  IsGoodMap m = AllGoodMap chunk shards target (slices chunk shards some_chunk some_shard code) m

  abbrev IsGoodEntry : ℕ → List Piece → Type 0
  IsGoodEntry id ps =
      AllGood chunk shards target (slices chunk shards some_chunk some_shard code id) ps

  IsGoodEntry-append :
      (id : ℕ) (ps qs : List Piece)
      → IsGoodEntry id ps
      → IsGoodEntry id qs
      → IsGoodEntry id (ps ++ qs)
  IsGoodEntry-append id [] qs g h = h
  IsGoodEntry-append id (p ∷ ps) qs (g, gs) h = (g, IsGoodEntry-append id ps qs gs h)

  pub add_piece-IsGoodMap :
      (id : ℕ) (p : Piece) (m : Pieces)
      → id < shards
      → IsGoodEntry id (p ∷ [])
      → IsGoodMap m
      → IsGoodMap (add_piece id p m)
  unfolding add_piece
  add_piece-IsGoodMap id p [] h g tt = (h, g, tt)
  add_piece-IsGoodMap id p ((k, ps) ∷ m) h g (known, goods, rest) = elim (Bool-cases (k == id)) [
    | inl same ↦
        let e : id ≡ k = sym ((==_iff k id).0 same) in
        let new : IsGoodEntry k (p ∷ []) = rw (sym e) g in
        rw same (known, IsGoodEntry-append k ps (p ∷ []) goods new, rest)
    | inr other ↦ rw other (known, goods, add_piece-IsGoodMap id p m h g rest)
  ]

  -- The target from `offset` on is what the group holds for the fragments.
  abbrev pub Spells : ℕ → List Fragment → Type 0
  Spells offset [] = Unit {0}
  Spells offset (f ∷ fs) =
      ((i : ℕ)
        → i < f.size
        → target (offset + i) ≡ byte_at chunk shards some_chunk some_shard code (f.pointer + i))
      × Spells (offset + f.size) fs

module _ (g : EcGroup) where
  pub are_data-add_piece :
      (id : ℕ) (p : Piece) (m : Pieces)
      → ltb id g.data_shards ≡ true
      → are_data g m ≡ true
      → are_data g (add_piece id p m) ≡ true
  unfolding add_piece
  are_data-add_piece id p [] h k = rw h refl
  are_data-add_piece id p ((i, ps) ∷ m) h k = elim (Bool-cases (i == id)) [
    | inl same ↦ rw same k
    | inr other ↦
        let here : ltb i g.data_shards ≡ true = ground arith in
        let later : are_data g m ≡ true = ground arith in
        rw (other, here) (are_data-add_piece id p m h later)
  ]
