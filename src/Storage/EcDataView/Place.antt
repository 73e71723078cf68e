-- ===== src/Storage/EcDataView/Place.antt =====
-- Where a `write` of `src/storage/group/ec_data_view.cpp` puts a byte, and the fragments that a client
-- gets.
use native.Mathlib.Nat.{div-add-mod', mul-add-mod_self_right, mul-add-div_right, mul-le-mul_left}
use uh_core.Base.{
  ℕ, ◌+◌, ◌-◌, ◌*◌, ◌/◌, ◌%◌, ◌≤◌, ◌<◌, ◌≡◌, refl, ap, ap₂, ◌∙◌, List, ◌∷◌, arith, add64,
  add64_exact, word, wide,
}
use uh_core.Types.Fragment.{span}
use uh_core.Types.Address.Bytes.{list_bytes, IsValid}
use uh_core.Pointers.{ec_storage_pointer}
use uh_core.Storage.Placing.{fragments_from, AreOffsets, fragments_from-IsValid}

module _ (chunk shards : ℕ) (some_chunk : 0 < chunk) (some_shard : 0 < shards) where
  -- The place of a byte of the group, without wrap-around.
  pub ec_storage_pointer_parts :
      (x : ℕ)
      → x < word
      → ec_storage_pointer x chunk (chunk * shards) ≡ (
        x % (chunk * shards) / chunk,
        x / (chunk * shards) * chunk + x % (chunk * shards) % chunk,
      )
  unfolding ec_storage_pointer
  ec_storage_pointer_parts x small =
      let whole = div-add-mod' x (chunk * shards) in
      let m = x % (chunk * shards) in
      let parts = div-add-mod' m chunk in
      let cast : m % word ≡ m = omega arith in
      let below : x / (chunk * shards) * chunk ≤ x / (chunk * shards) * (chunk * shards) =
        mul-le-mul_left (x / (chunk * shards))
          (let one : chunk ≤ chunk * shards = grind arith in one) in
      let pointer : (x / (chunk * shards) * chunk % wide + (m - m / chunk * chunk)) % word
          ≡ x / (chunk * shards) * chunk + m % chunk =
        omega arith in
      rw (cast, pointer) refl

  -- Whole stripes in front move the place by as many chunks.
  pub ec_storage_pointer-stripes :
      (o i : ℕ)
      → o * (chunk * shards) + i < word
      → ec_storage_pointer (o * (chunk * shards) + i) chunk (chunk * shards) ≡ (
        (ec_storage_pointer i chunk (chunk * shards)).0,
        o * chunk + (ec_storage_pointer i chunk (chunk * shards)).1,
      )
  ec_storage_pointer-stripes o i small =
      let size : 0 < chunk * shards = grind arith in
      let there = ec_storage_pointer_parts (o * (chunk * shards) + i) small in
      let here = ec_storage_pointer_parts i (omega arith) in
      let rest = mul-add-mod_self_right o (chunk * shards) i in
      let stripe = mul-add-div_right size o i in
      rw (there, here, rest, stripe) (ap₂ (λ (a b : ℕ). (a, b)) refl (omega arith))

-- The fragments of contents that begin at `base`.
pub placed :
    (base size : ℕ) (os : List ℕ)
    → base + size < word
    → AreOffsets size (0 ∷ os)
    → IsValid (record { fragments = fragments_from (λ (o : ℕ). add64 base o) size (0 ∷ os) })
      × (list_bytes (fragments_from (λ (o : ℕ). add64 base o) size (0 ∷ os)) ≡ span base size)
placed base size os fits are =
    let exact = λ (o : ℕ) (h : o ≤ size). add64_exact base o (omega (arith, h)) in
    let (valid, covers) =
      fragments_from-IsValid (λ (o : ℕ). add64 base o) size (omega arith)
        (omega (arith, exact size (omega arith)))
        (λ o next h k. omega (arith, exact o (omega arith), exact next k)) os are in
    let start : base + 0 ≡ base = omega arith in
    (valid, covers ∙ ap (λ (p : ℕ). span p size) (exact 0 (omega arith) ∙ start))
