-- ===== src/Http/Ranges.antt =====
-- `apply_range` of `src/entrypoint/http/range.cpp`, in the bytes that the addresses stand for.
use uh_core.Base.{
  ℕ, zero, suc, length, Bool-cases, inl, inr, ◌-◌, ◌<◌, ◌≤◌, ◌≡◌, refl, ap, sym, ◌∙◌, ◌==◌, true,
  List, [], ◌∷◌, ◌++◌, append-nil, append_assoc, take, drop, word, arith,
}
use uh_core.Types.Fragment.{Fragment}
use uh_core.Types.Address.{Address, append, range, size, empty_address}
use uh_core.Types.Address.Bytes.{bytes, IsValid, list_bytes, bytes-append}
use uh_core.Types.Address.Range.{range-bytes}
use uh_core.Http.{ByteRange, apply_ranges, apply_range}

-- What the ranges cut from a text, one behind the other.
abbrev pub slices : List ByteRange → List ℕ → List ℕ
slices [] text = []
slices (r ∷ ranges) text = take (r.end - r.start) (drop r.start text) ++ slices ranges text

abbrev pub AllForward : List ByteRange → Type 0
AllForward [] = Unit {0}
AllForward (r ∷ ranges) = ((r.start ≤ r.end) × (r.end < word)) × AllForward ranges

apply_ranges-bytes :
    (addr : Address) (ranges : List ByteRange) (rv : Address)
    → IsValid addr
    → AllForward ranges
    → bytes (apply_ranges addr ranges rv) ≡ bytes rv ++ slices ranges (bytes addr)
unfolding apply_ranges
apply_ranges-bytes addr [] rv v f = sym (append-nil (bytes rv))
apply_ranges-bytes addr (r ∷ ranges) rv v ((ordered, small), f) =
    apply_ranges-bytes addr ranges (append rv (range addr r.start r.end)) v f
    ∙ ap (λ t. t ++ slices ranges (bytes addr))
        ((bytes-append rv (range addr r.start r.end)).0
          ∙ ap (◌++◌ (bytes rv)) (range-bytes addr r.start r.end v ordered small))
    ∙ append_assoc (bytes rv) (take (r.end - r.start) (drop r.start (bytes addr)))
        (slices ranges (bytes addr))

slices_of_empty : (ranges : List ByteRange) → slices ranges [] ≡ []
slices_of_empty [] = refl
slices_of_empty (r ∷ ranges) = empty r.start (r.end - r.start) ∙ slices_of_empty ranges
  where
    empty : (m n : ℕ) → take n (drop m []) ++ slices ranges [] ≡ slices ranges []
    empty zero zero = refl
    empty zero (suc n) = refl
    empty (suc m) zero = refl
    empty (suc m) (suc n) = refl

no_fragments : (fs : List Fragment) → (length fs == 0) ≡ true → list_bytes fs ≡ []
no_fragments [] e = refl
no_fragments (g ∷ fs) e = absurd (ground arith)

bytes_of_empty : (addr : Address) → (size addr == 0) ≡ true → bytes addr ≡ []
unfolding size
bytes_of_empty addr e = no_fragments addr.fragments e

-- The address that `apply_range` yields stands for what the ranges cut from the bytes of a valid
-- address, one behind the other, also where they overlap or the address has no fragment: for ranges
-- that do not end before they start, with ends below 2^64.
pub apply_range-bytes :
    (addr : Address) (ranges : List ByteRange)
    → IsValid addr
    → AllForward ranges
    → bytes (apply_range addr ranges) ≡ slices ranges (bytes addr)
unfolding apply_range
apply_range-bytes addr ranges v f = elim (Bool-cases (size addr == 0)) [
  | inl nothing ↦ rw nothing (
      bytes_of_empty addr nothing
      ∙ sym (ap (slices ranges) (bytes_of_empty addr nothing) ∙ slices_of_empty ranges))
  | inr other ↦ rw other (apply_ranges-bytes addr ranges empty_address v f)
]
