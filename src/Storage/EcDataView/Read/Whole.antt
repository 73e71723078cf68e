-- ===== src/Storage/EcDataView/Read/Whole.antt =====
-- `read_address` of `src/storage/group/ec_data_view.cpp` as a whole, in the group with id 0: it
-- gives the bytes that were stored as long as as many storages answer as a stripe has data shards.
use uh_core.Base.{
  ℕ, ◌+◌, ◌*◌, ◌≤◌, ◌<◌, ◌≡◌, refl, inl, inr, Bool, Bool-cases, true, false, ◌&&◌, if◌then◌else◌,
  List, [], ◌∷◌, map, arith, length, word, le→not-ltb,
}
use uh_core.Base.Result.{Result, ok, throws, Failure}
use uh_core.Storage.EcDataView.Write.{group}
use uh_core.Storage.EcDataView.Read.{
  Piece, Pieces, Buffer, count_true, tests, has_key, read_shard, shards, stats, is_alive,
  recover_stripe, recover_stripes, reconstruct, get_stripe_ids,
}
use uh_core.Storage.EcDataView.Read.Buffer.{AllInChunk, Covers, CoversMap}
use uh_core.Storage.EcDataView.Read.Stripe.{slices}
use uh_core.Storage.EcDataView.Read.AddPiece.{IsGoodMap}
use uh_core.Storage.EcDataView.Read.Stripes.{AllOfStripe, IsStripeMap, get_stripe_ids-IsStripeMap}
use uh_core.Storage.EcDataView.Read.Recover.{
  codes, Agrees, count_true_mono, IsFilled, copy_recovered-IsFilled,
}
use uh_core.Storage.EcDataView.Read.Shards.{shards-Agrees, length-shards, valid-of_up}

module _ (chunk data_shards parity storages : ℕ) (some_chunk : 0 < chunk)
    (some_shard : 0 < data_shards) (enough : data_shards ≤ storages) (code : ℕ → ℕ → List ℕ)
    (target : ℕ → ℕ) (full : (stripe i : ℕ) → length (code stripe i) ≡ chunk) (usable up : ℕ → Bool)
    (ask : ℕ → List Piece → Result (List (List ℕ)))
    (recover : List (List ℕ) → List Bool → Result (List (List ℕ))) (error : Failure)
    (honest : (id : ℕ) (ps : List Piece)
      → AllInChunk chunk ps
      → ask id ps ≡ (
          if up id
          then ok (map (slices chunk data_shards some_chunk some_shard code id) ps)
          else throws error))
    (repairs : (stripe : ℕ) (views : List (List ℕ)) (valid : List Bool)
      → length views ≡ storages
      → Agrees (code stripe) 0 views valid
      → data_shards ≤ count_true valid
      → recover views valid ≡ ok (codes (code stripe) 0 storages)) where
  -- A buffer that has what the pieces cover, besides what it had.
  abbrev IsFilledWith : Buffer → (ℕ → Type 0) → Result Buffer → Type 0
  IsFilledWith =
      IsFilled chunk data_shards parity storages some_chunk some_shard enough code target usable ask
        recover

  module _ (alive : ℕ → Bool)
      (left : data_shards ≤ count_true (tests (λ i. alive i && up i) 0 storages)) where
    recover_stripe-IsFilled :
        (buffer : Buffer) (stripe : ℕ) (ps : List Piece)
        → (stripe + 1) * (chunk * data_shards) ≤ word
        → AllOfStripe chunk data_shards code target stripe ps
        → IsFilledWith buffer (Covers ps) (
            recover_stripe
              (group chunk data_shards parity storages)
              usable
              ask
              recover
              alive
              buffer
              stripe
              ps)
    unfolding recover_stripe
    recover_stripe-IsFilled buffer stripe ps small all =
        let g = group chunk data_shards parity storages in
        let more =
          count_true_mono (λ i. alive i && up i)
            (λ i. (read_shard g usable ask recover alive stripe i).1)
            (valid-of_up chunk data_shards parity storages some_chunk some_shard code full usable up
              ask recover error honest alive stripe small)
            0 storages in
        let valid : data_shards ≤ count_true (stats g usable ask recover alive stripe) =
          omega (arith, left, more) in
        let chunks =
          repairs stripe (shards g usable ask recover alive stripe 0 storages)
            (stats g usable ask recover alive stripe)
            (length-shards chunk data_shards parity storages some_chunk some_shard code full usable
              up ask recover error honest alive stripe small 0 storages)
            (shards-Agrees chunk data_shards parity storages some_chunk some_shard code full usable
              up ask recover error honest alive stripe small 0 storages)
            valid in
        let filled =
          copy_recovered-IsFilled chunk data_shards parity storages some_chunk some_shard enough
            code target usable ask recover stripe ps buffer all small in
        record {
          filled = filled.filled;
          result =
              rw
                (
                  le→not-ltb (count_true (stats g usable ask recover alive stripe)) data_shards
                      valid,
                  chunks,
                )
                filled.result;
          right = filled.right;
        }

    recover_stripes-IsFilled :
        (buffer : Buffer) (m : Pieces)
        → IsStripeMap chunk data_shards code target m
        → IsFilledWith buffer (CoversMap m) (
            recover_stripes
              (group chunk data_shards parity storages)
              usable
              ask
              recover
              alive
              buffer
              m)
    unfolding recover_stripes
    recover_stripes-IsFilled buffer [] good = record {
      filled = buffer;
      result = refl;
      right = λ n c. elim c [ inl right ↦ right | inr none_here ↦ elim none_here [ ] ];
    }
    recover_stripes-IsFilled buffer ((stripe, ps) ∷ m) (small, all, good) =
        let first = recover_stripe-IsFilled buffer stripe ps small all in
        let rest = recover_stripes-IsFilled first.filled m good in
        record {
          filled = rest.filled;
          result = rw first.result rest.result;
          right = λ n c. rest.right n (elim c [
            | inl right ↦ inl (first.right n (inl right))
            | inr new ↦ elim new [
              | inl here ↦ inl (first.right n (inr here))
              | inr later ↦ inr later
            ]
          ]);
        }

  pub reconstruct-right :
      (buffer : Buffer) (failed : Pieces)
      → IsGoodMap chunk data_shards some_chunk some_shard code target failed
      → ((i : ℕ) → has_key i failed ≡ true → (usable i && up i) ≡ false)
      → data_shards ≤ count_true (tests (λ i. usable i && up i) 0 storages)
      → IsFilledWith buffer (CoversMap failed) (
          reconstruct
            (group chunk data_shards parity storages)
            usable
            ask
            recover
            0
            (buffer, failed))
  reconstruct-right buffer [] good dead left = record {
    filled = buffer;
    result = refl;
    right = λ n c. elim c [ inl right ↦ right | inr none_here ↦ elim none_here [ ] ];
  }
  reconstruct-right buffer ((id, ps) ∷ rest) good dead left =
      let g = group chunk data_shards parity storages in
      let failed = (id, ps) ∷ rest in
      let alive = is_alive g usable ask recover failed in
      let answering =
        count_true_mono (λ i. usable i && up i) (λ i. alive i && up i) (alive_up failed dead) 0
          storages in
      let living =
        count_true_mono (λ i. usable i && up i) alive
          (λ i e. ground (arith, alive_up failed dead i e)) 0 storages in
      let (stripes, covers) =
        get_stripe_ids-IsStripeMap chunk data_shards some_chunk parity storages code target
          some_shard failed [] good tt in
      let filled =
        recover_stripes-IsFilled alive (omega (arith, left, answering)) buffer
          (get_stripe_ids g 0 failed []) stripes in
      let many : data_shards ≤ count_true (tests alive 0 storages) = omega (arith, left, living) in
      record {
        filled = filled.filled;
        result =
            rw (le→not-ltb (count_true (tests alive 0 storages)) data_shards many) filled.result;
        right = λ n c.
            filled.right n (elim c [ inl right ↦ inl right | inr new ↦ inr (covers n (inl new)) ]);
      }
    where
      alive_up :
          (failed : Pieces)
          → ((i : ℕ) → has_key i failed ≡ true → (usable i && up i) ≡ false)
          → (i : ℕ) → (usable i && up i) ≡ true
          → (is_alive (group chunk data_shards parity storages) usable ask recover failed i && up i)
            ≡ true
      alive_up failed dead i e = elim (Bool-cases (has_key i failed)) [
        | inl failed_too ↦ absurd (ground (arith, dead i failed_too))
        | inr there ↦ ground arith
      ]
