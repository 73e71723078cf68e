-- ===== src/Base/Bits.antt =====
-- The bitwise or of the native numbers, where the two operands have no bit in common.
use Prim.Native.Nat.{
  ℕ, zero, suc, ◌+◌, ◌*◌, ◌/◌, ◌%◌, ◌^◌, ◌≤◌, ◌<◌, max, bit_or, digits, bit_or-bitwise,
}
use mathlib.Core.Path.{◌≡◌, refl, ap}
use native.Mathlib.Nat.{pow-suc}
use native.Mathlib.Omega.{arith}

-- The digits of an or, with fuel: the recursion that the native operation stands for.
abbrev fueled_or : ℕ → ℕ → ℕ → ℕ
fueled_or = digits (λ rest. rest) max

fueled_or_irrelevant : (n m a b : ℕ) → a ≤ n → a ≤ m → fueled_or n a b ≡ fueled_or m a b
fueled_or_irrelevant zero zero a b p q = refl
fueled_or_irrelevant zero (suc m) zero b p q = refl
fueled_or_irrelevant zero (suc m) (suc a) b p q = absurd (omega arith)
fueled_or_irrelevant (suc n) zero zero b p q = refl
fueled_or_irrelevant (suc n) zero (suc a) b p q = absurd (omega arith)
fueled_or_irrelevant (suc n) (suc m) zero b p q = refl
fueled_or_irrelevant (suc n) (suc m) (suc a) b p q =
    omega (arith, fueled_or_irrelevant n m (suc a / 2) (b / 2) (omega arith) (omega arith))

bit_or_low : (a b : ℕ) → bit_or a b ≡ bit_or (a / 2) (b / 2) * 2 + max (a % 2) (b % 2)
bit_or_low zero b = omega (arith, bit_or-bitwise 0 b, bit_or-bitwise 0 (b / 2))
bit_or_low (suc a) b = omega (
  arith,
  bit_or-bitwise (suc a) b,
  bit_or-bitwise (suc a / 2) (b / 2),
  fueled_or_irrelevant a (suc a / 2) (suc a / 2) (b / 2) (omega arith) (omega arith),
)

bit_or-zero_below : (n a : ℕ) → a ≤ n → bit_or a 0 ≡ a
bit_or-zero_below n zero h = refl
bit_or-zero_below zero (suc a) h = absurd (omega arith)
bit_or-zero_below (suc n) (suc a) h =
    omega (arith, bit_or_low (suc a) 0, bit_or-zero_below n (suc a / 2) (omega arith))

-- `(q << k) | r` is a sum where `r` has at most `k` bits.
pub bit_or_disjoint : (k q r : ℕ) → r < 2 ^ k → bit_or (q * 2 ^ k) r ≡ q * 2 ^ k + r
bit_or_disjoint zero q r h =
    let none : r ≡ 0 = omega arith in
    rw none (omega (arith, bit_or-zero_below (q * 1) (q * 1) (omega arith)))
bit_or_disjoint (suc k) q r h =
    let double : q * 2 ^ suc k ≡ 2 * (q * 2 ^ k) =
      omega (arith, ap (λ (t : ℕ). q * t) (pow-suc 2 k)) in
    ground (
      arith,
      bit_or_low (q * 2 ^ suc k) r,
      double,
      pow-suc 2 k,
      bit_or_disjoint k q (r / 2) (omega (arith, pow-suc 2 k)),
    )
