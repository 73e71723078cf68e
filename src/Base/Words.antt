-- ===== src/Base/Words.antt =====
-- Unsigned machine words: `std::size_t` has 64 bits, a global pointer has 128.
use Prim.Native.Nat.{ℕ, ◌+◌, ◌-◌, ◌%◌, ◌^◌, ◌≤◌, ◌<◌}
use mathlib.Core.Path.{◌≡◌}
use native.Mathlib.Omega.{arith}

abbrev pub word : ℕ
word = 2 ^ 64

abbrev pub wide : ℕ
wide = 2 ^ 128

-- `a + b` and `a - b` on `std::size_t`.
unfoldable pub add64 : ℕ → ℕ → ℕ
add64 a b = (a + b) % word

unfoldable pub sub64 : ℕ → ℕ → ℕ
sub64 a b = (a + word - b) % word

-- `a + b` on `uint128_t`.
unfoldable pub add128 : ℕ → ℕ → ℕ
add128 a b = (a + b) % wide

-- `a - b` on `uint128_t`.
unfoldable pub sub128 : ℕ → ℕ → ℕ
sub128 a b = (a + wide - b) % wide

pub sub128_exact : (a b : ℕ) → b ≤ a → a < wide → sub128 a b ≡ a - b
unfolding sub128
sub128_exact a b h k = omega arith

pub add64_exact : (a b : ℕ) → a + b < word → add64 a b ≡ a + b
unfolding add64
add64_exact a b h = omega arith

pub sub64_exact : (a b : ℕ) → b ≤ a → a < word → sub64 a b ≡ a - b
unfolding sub64
sub64_exact a b h k = omega arith

-- A difference below zero wraps around.
pub sub64_wraps : (a b : ℕ) → a < b → b < word → sub64 a b ≡ a + word - b
unfolding sub64
sub64_wraps a b h k = omega arith

pub add128_exact : (a b : ℕ) → a + b < wide → add128 a b ≡ a + b
unfolding add128
add128_exact a b h = omega arith

pub add64-lt : (a b : ℕ) → add64 a b < word
unfolding add64
add64-lt a b = omega arith

-- Sums may be reduced step by step.
pub add64_fold : (a b c : ℕ) → (add64 a b + c) % word ≡ (a + (b + c)) % word
unfolding add64
add64_fold a b c = omega arith
