-- ===== src/Pointers/ErasureCoding.antt =====
-- Erasure-coded pointers of `src/common/utils/pointer_traits.h`: the storages of a group hold the
-- chunks of a stripe in turn.
use native.Mathlib.Nat.{
  mod-lt, mod-eq_of_lt, mul-add-mod_self_right, mul-add-div, mul-add-div_right, div-eq_of_lt,
  div-add-mod',
}
use uh_core.Base.{ℕ, ◌+◌, ◌*◌, ◌/◌, ◌%◌, ◌^◌, ◌≤◌, ◌<◌, ◌≡◌, refl, ap₂, ◌∙◌, arith, word, add128}
use uh_core.Base.Bits.{bit_or_disjoint}
use uh_core.Pointers.{
  ec_group_pointer, ec_global_pointer, ec_storage_pointer, get_group_id, get_group_pointer,
}

-- A group of `shards` data storages, each with `chunk` bytes of a stripe.
module _ (chunk shards : ℕ) (some_chunk : 0 < chunk) where
  pub chunk_place : (r s : ℕ) → r < chunk → s < shards → chunk * s + r < chunk * shards
  chunk_place r s hr hs = grind arith

  pub chunk_index : (r s : ℕ) → r < chunk → (chunk * s + r) / chunk ≡ s
  chunk_index r s hr = mul-add-div some_chunk s r ∙ omega (arith, div-eq_of_lt hr)

  pub stripe_place :
      (q r s : ℕ)
      → r < chunk
      → s < shards
      → (q * (chunk * shards) + (chunk * s + r)) % (chunk * shards) ≡ chunk * s + r
  stripe_place q r s hr hs =
      mul-add-mod_self_right q (chunk * shards) (chunk * s + r)
      ∙ mod-eq_of_lt (chunk_place r s hr hs)

  pub stripe_index :
      (q r s : ℕ)
      → r < chunk
      → s < shards
      → (q * (chunk * shards) + (chunk * s + r)) / (chunk * shards) ≡ q
  stripe_index q r s hr hs =
      mul-add-div_right (omega (arith, chunk_place r s hr hs)) q (chunk * s + r)
      ∙ omega (arith, div-eq_of_lt (chunk_place r s hr hs))

  -- The group pointer as a sum: whole stripes, chunks of the stripe, bytes of the chunk.
  pub ec_group_pointer_sum :
      (p s : ℕ)
      → s < shards
      → (p / chunk + 1) * (chunk * shards) ≤ 2 ^ 96
      → ec_group_pointer p s chunk (chunk * shards)
        ≡ p / chunk * (chunk * shards) + (chunk * s + p % chunk)
  unfolding ec_group_pointer add128
  ec_group_pointer_sum p s hs fits =
      omega (arith, chunk_place (p % chunk) s (mod-lt p some_chunk) hs)

  -- A storage pointer that is packed for an erasure-coded group and unpacked through
  -- `get_group_pointer` comes back with its storage id, and the group id with it: `shards` storages
  -- of `chunk` bytes per stripe, as long as the group's stripes fit its 96 bits.
  pub ec_round_trip :
      (p g s : ℕ)
      → s < shards
      → p < word
      → g < 2 ^ 32
      → chunk * shards < word
      → (p / chunk + 1) * (chunk * shards) ≤ 2 ^ 96
      → (ec_storage_pointer
            (get_group_pointer (ec_global_pointer p g s chunk (chunk * shards)))
            chunk
            (chunk * shards)
          ≡ (s, p))
        × (get_group_id (ec_global_pointer p g s chunk (chunk * shards)) ≡ g)
  unfolding ec_storage_pointer get_group_pointer ec_global_pointer get_group_id
  ec_round_trip p g s hs hp hg small fits =
      let r = p % chunk in
      let q = p / chunk in
      let hr : r < chunk = mod-lt p some_chunk in
      let place = chunk_place r s hr hs in
      let x = q * (chunk * shards) + (chunk * s + r) in
      let below : x < 2 ^ 96 = omega arith in
      let group : g * 2 ^ 96 % 2 ^ 128 ≡ g * 2 ^ 96 = omega arith in
      let packed = bit_or_disjoint 96 g x below in
      let unpacked : (g * 2 ^ 96 + x) % 2 ^ 96 ≡ x = omega arith in
      let inside : (chunk * s + r) % word ≡ chunk * s + r = omega arith in
      let whole : q * chunk + r ≡ p = div-add-mod' p chunk in
      rw (ec_group_pointer_sum p s hs fits, group, packed, unpacked)
        (
          rw (stripe_place q r s hr hs, stripe_index q r s hr hs, inside, chunk_index r s hr)
              (ap₂ (λ a b. (a, b)) refl (omega arith)),
          omega arith,
        )
