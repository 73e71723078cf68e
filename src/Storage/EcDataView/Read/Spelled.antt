-- ===== src/Storage/EcDataView/Read/Spelled.antt =====
-- The bytes that `read_address` of `src/storage/group/ec_data_view.cpp` owes to its client.
use uh_core.Base.{
  ℕ, zero, suc, ◌+◌, ◌<◌, ◌≡◌, refl, ap, ◌∙◌, List, [], ◌∷◌, ◌++◌, arith, length, length-append,
  append_assoc,
}
use uh_core.Types.Fragment.{Fragment, frag_bytes, span, length-span}
use uh_core.Types.Address.Bytes.{list_bytes}
use uh_core.Storage.EcDataView.Read.Stripe.{byte_of, byte_at}
use uh_core.Storage.EcDataView.Read.AddPiece.{Spells}

byte_of-append_first :
    (xs ys : List ℕ) (i : ℕ) → i < length xs → byte_of (xs ++ ys) i ≡ byte_of xs i
byte_of-append_first [] ys i h = absurd (omega arith)
byte_of-append_first (x ∷ xs) ys zero h = refl
byte_of-append_first (x ∷ xs) ys (suc i) h = byte_of-append_first xs ys i (omega arith)

byte_of-append_second : (xs ys : List ℕ) (i : ℕ) → byte_of (xs ++ ys) (length xs + i) ≡ byte_of ys i
byte_of-append_second [] ys i = ap (byte_of ys) (omega arith)
byte_of-append_second (x ∷ xs) ys i =
    let sum : suc (length xs) + i ≡ suc (length xs + i) = omega arith in
    ap (byte_of (x ∷ xs ++ ys)) sum ∙ byte_of-append_second xs ys i

byte_of-span : (p n i : ℕ) → i < n → byte_of (span p n) i ≡ p + i
byte_of-span p zero i h = absurd (omega arith)
byte_of-span p (suc n) zero h = omega arith
byte_of-span p (suc n) (suc i) h = byte_of-span (suc p) n i (omega arith) ∙ omega arith

module _ (chunk shards : ℕ) (some_chunk : 0 < chunk) (some_shard : 0 < shards)
    (code : ℕ → ℕ → List ℕ) where
  -- What the group holds for byte `n` of an address.
  abbrev pub wanted : List ℕ → ℕ → ℕ
  wanted pointers n = byte_at chunk shards some_chunk some_shard code (byte_of pointers n)

  pub wanted-Spells :
      (done : List ℕ) (fs : List Fragment)
      → Spells chunk shards some_chunk some_shard code
          (wanted (done ++ list_bytes fs))
          (length done)
          fs
  wanted-Spells done [] = tt
  wanted-Spells done (f ∷ fs) =
      let rest = list_bytes fs in
      let later = wanted-Spells (done ++ frag_bytes f) fs in
      let assoc : (done ++ frag_bytes f) ++ list_bytes fs
          ≡ done ++ (frag_bytes f ++ list_bytes fs) =
        append_assoc done (frag_bytes f) rest in
      let size : length (done ++ frag_bytes f) ≡ length done + f.size =
        length-append done (frag_bytes f)
        ∙ ap (λ (n : ℕ). length done + n) (length-span f.pointer f.size) in
      (
        λ i h. ap (byte_at chunk shards some_chunk some_shard code) (
            byte_of-append_second done (frag_bytes f ++ rest) i
            ∙ byte_of-append_first (frag_bytes f) rest i
                (omega (arith, h, length-span f.pointer f.size))
            ∙ byte_of-span f.pointer f.size i h),
        rw (assoc, size) at later,
      )
