-- ===== src/Storage/Overlap.antt =====
-- The stripes of a storage that a run of bytes lies in, without division: the loops over stripes of
-- `src/storage/group/rr_data_view.cpp` and `src/storage/group/ec_data_view.cpp` are compared with it.
use native.Mathlib.Nat.{div-lt_iff_lt-mul, le-div_iff_mul-le}
use uh_core.Base.{
  ℕ, suc, ◌+◌, ◌-◌, ◌*◌, ◌/◌, ◌≤◌, ◌<◌, ◌≡◌, Bool, ◌&&◌, inl, inr, arith, ltb, leb, Bool-cases,
}

-- Whether stripe `j`, which is bytes `j * stripe_size` to `(j + 1) * stripe_size`, has a byte in
-- common with the `size` bytes from `start` on.
abbrev pub overlaps : ℕ → ℕ → ℕ → ℕ → Bool
overlaps stripe_size start size j =
    ltb start (suc j * stripe_size) && ltb (j * stripe_size) (start + size)

pub div-overlaps :
    (stripe_size start size j : ℕ)
    → 0 < stripe_size
    → 0 < size
    → (leb (start / stripe_size) j && leb j ((start + size - 1) / stripe_size))
      ≡ overlaps stripe_size start size j
div-overlaps stripe_size start size j pos full =
    let low = div-lt_iff_lt-mul {k = stripe_size} {x = start} {y = suc j} pos in
    let high = le-div_iff_mul-le {k = stripe_size} {x = j} {y = start + size - 1} pos in
    elim (Bool-cases (ltb start (suc j * stripe_size))) [
      | inl a ↦ elim (Bool-cases (ltb (j * stripe_size) (start + size))) [
        | inl b ↦
            let x : start / stripe_size < suc j = low.1 (ground arith) in
            let y : j ≤ (start + size - 1) / stripe_size = high.1 (ground arith) in ground arith
        | inr b ↦ elim (Bool-cases (leb j ((start + size - 1) / stripe_size))) [
          | inl c ↦
              let y : j * stripe_size ≤ start + size - 1 = high.0 (ground arith) in ground arith
          | inr c ↦ ground arith
        ]
      ]
      | inr a ↦ elim (Bool-cases (leb (start / stripe_size) j)) [
        | inl c ↦ let x : start < suc j * stripe_size = low.0 (ground arith) in ground arith
        | inr c ↦ ground arith
      ]
    ]
