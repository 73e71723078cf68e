-- ===== src/Storage/EcDataView/Read/Recover.antt =====
-- The recovery in `read_address` of `src/storage/group/ec_data_view.cpp`: a stripe is read from the
-- storages that are left, and what was missing is copied from the recovered chunks.
use native.Mathlib.Nat.{mul-add-mod_self_right, mod-eq_of_lt}
use uh_core.Base.{
  ℕ, zero, suc, ◌+◌, ◌*◌, ◌%◌, ◌≤◌, ◌<◌, ◌≡◌, refl, ap, ◌∙◌, ◌⊎◌, inl, inr, Bool, Bool-cases, true,
  List, [], ◌∷◌, arith, take, drop, word,
}
use uh_core.Base.Result.{Result, ok}
use uh_core.Pointers.ErasureCoding.{chunk_place}
use uh_core.Storage.EcDataView.Stripes.{nth}
use uh_core.Storage.EcDataView.Write.{group}
use uh_core.Storage.EcDataView.Read.{
  Piece, Buffer, copy_to, count_true, tests, copy_recovered, checked_pointer,
}
use uh_core.Storage.EcDataView.Read.Buffer.{Covers, IsRight, copy_to-IsRight, copy_to-covers}
use uh_core.Storage.EcDataView.Read.Extract.{checked_pointer-place}
use uh_core.Storage.EcDataView.Read.Stripes.{IsOfStripe, AllOfStripe}

module _ (code : ℕ → List ℕ) where
  -- The shards of a stripe, from that of storage `i` on.
  abbrev pub codes : ℕ → ℕ → List (List ℕ)
  codes i zero = []
  codes i (suc n) = code i ∷ codes (suc i) n

  -- The views hold the shards of the stripe where they are valid.
  abbrev pub Agrees : ℕ → List (List ℕ) → List Bool → Type 0
  Agrees i [] [] = Unit {0}
  Agrees i (v ∷ vs) (b ∷ bs) = ((b ≡ true) → v ≡ code i) × Agrees (suc i) vs bs
  Agrees i [] (b ∷ bs) = ⊥
  Agrees i (v ∷ vs) [] = ⊥

  nth-codes : (i n j : ℕ) → j < n → nth (codes i n) j ≡ code (i + j)
  nth-codes i zero j h = absurd (omega arith)
  nth-codes i (suc n) zero h = ap code (omega arith)
  nth-codes i (suc n) (suc j) h = nth-codes (suc i) n j (omega arith) ∙ ap code (omega arith)

pub count_true_mono :
    (p q : ℕ → Bool)
    → ((i : ℕ) → p i ≡ true → q i ≡ true)
    → (i n : ℕ) → count_true (tests p i n) ≤ count_true (tests q i n)
count_true_mono p q h i zero = omega arith
count_true_mono p q h i (suc n) = elim (Bool-cases (p i)) [
  | inl e ↦ rw (e, h i e) (omega (arith, count_true_mono p q h (suc i) n))
  | inr e ↦ rw e (ground (arith, count_true_mono p q h (suc i) n))
]

module _ (chunk shards parity storages : ℕ) (some_chunk : 0 < chunk) (some_shard : 0 < shards)
    (enough : shards ≤ storages) (code : ℕ → ℕ → List ℕ) (target : ℕ → ℕ) (usable : ℕ → Bool)
    (ask : ℕ → List Piece → Result (List (List ℕ)))
    (recover : List (List ℕ) → List Bool → Result (List (List ℕ))) where
  -- A buffer that has kept what was right, and has what the pieces cover.
  pub record IsFilled (buffer : Buffer) (c : ℕ → Type 0) (r : Result Buffer) : Type 0 where
    pub filled : Buffer
    pub result : r ≡ ok filled
    pub right : (n : ℕ) → IsRight target buffer n ⊎ c n → IsRight target filled n

  copy_recovered-round :
      (stripe : ℕ) (p : Piece) (ps : List Piece) (buffer : Buffer)
      (o : IsOfStripe chunk shards code target stripe p)
      → (stripe + 1) * (chunk * shards) ≤ word
      → copy_recovered
          (group chunk shards parity storages)
          usable
          ask
          recover
          buffer
          (codes (code stripe) 0 storages)
          (p ∷ ps)
        ≡ copy_recovered
            (group chunk shards parity storages)
            usable
            ask
            recover
            (copy_to buffer p.offset (take p.size (drop o.rest (code stripe o.storage))))
            (codes (code stripe) 0 storages)
            ps
  unfolding copy_recovered
  copy_recovered-round stripe p ps buffer o small =
      let inside : stripe * (chunk * shards) + (chunk * o.storage + o.rest) < word =
        omega (arith, chunk_place chunk shards some_chunk o.rest o.storage o.inside o.known) in
      let place =
        ap (checked_pointer (group chunk shards parity storages)) o.place
        ∙ checked_pointer-place chunk shards parity storages some_chunk some_shard enough stripe
            o.storage o.rest o.known o.inside inside in
      let rest : (stripe * chunk + o.rest) % chunk ≡ o.rest =
        mul-add-mod_self_right stripe chunk o.rest ∙ mod-eq_of_lt o.inside in
      let shard : nth (codes (code stripe) 0 storages) o.storage ≡ code stripe o.storage =
        nth-codes (code stripe) 0 storages o.storage (omega (arith, o.known))
        ∙ ap (code stripe) (omega arith) in
      rw (place, rest, shard) refl

  pub copy_recovered-IsFilled :
      (stripe : ℕ) (ps : List Piece) (buffer : Buffer)
      → AllOfStripe chunk shards code target stripe ps
      → (stripe + 1) * (chunk * shards) ≤ word
      → IsFilled buffer (Covers ps) (
          copy_recovered
            (group chunk shards parity storages)
            usable
            ask
            recover
            buffer
            (codes (code stripe) 0 storages)
            ps)
  copy_recovered-IsFilled stripe [] buffer all small = record {
    filled = buffer;
    result = unfold copy_recovered in refl;
    right = λ n c. elim c [ inl right ↦ right | inr none_here ↦ elim none_here [ ] ];
  }
  copy_recovered-IsFilled stripe (p ∷ ps) buffer (o, all) small =
      let bytes = take p.size (drop o.rest (code stripe o.storage)) in
      let rest = copy_recovered-IsFilled stripe ps (copy_to buffer p.offset bytes) all small in
      record {
        filled = rest.filled;
        result = copy_recovered-round stripe p ps buffer o small ∙ rest.result;
        right = λ n c. rest.right n (elim c [
          | inl right ↦ inl (copy_to-IsRight target buffer p.offset bytes n o.right right)
          | inr new ↦ elim new [
            | inl (low, high) ↦ inl (
                copy_to-covers target buffer p.offset bytes n o.right low (omega (arith, o.amount)))
            | inr later ↦ inr later
          ]
        ]);
      }
