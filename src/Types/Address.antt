-- ===== src/Types/Address.antt =====
-- `src/common/types/address.h`: an address is a sequence of fragments.
pub mod Bytes
pub mod Range
pub mod Backwards
use uh_core.Base.{
  ℕ, zero, suc, ◌+◌, ◌≡◌, refl, Bool, true, false, Option, none, some, List, [], ◌∷◌, ◌++◌, ltb,
  if◌then◌else◌, length, get_elem?, add64, sub64,
}
use uh_core.Types.Fragment.{Fragment, subfrag}

pub record Address : Type 0 where
  pub fragments : List Fragment

abbrev pub empty_address : Address
empty_address = record { fragments = [] }

unfoldable pub push : Address → Fragment → Address
push a f = record { fragments = a.fragments ++ f ∷ [] }

unfoldable pub emplace_back : Address → ℕ → ℕ → Address
unfolding push
emplace_back a p s = push a (record { pointer = p; size = s })

-- `fragments[i]`; out of range there is no fragment to return.
unfoldable pub get : Address → ℕ → Option Fragment
get a i = get_elem? a.fragments i

unfoldable pub append : Address → Address → Address
append a b = record { fragments = a.fragments ++ b.fragments }

-- The accumulation of `data_size`, from an accumulator.
unfoldable pub data_size_from : ℕ → List Fragment → ℕ
data_size_from acc [] = acc
data_size_from acc (f ∷ fs) = data_size_from (add64 acc f.size) fs

unfoldable pub data_size : Address → ℕ
unfolding data_size_from
data_size a = data_size_from 0 a.fragments

unfoldable pub size : Address → ℕ
size a = length a.fragments

is_nil : List Fragment → Bool
is_nil [] = true
is_nil (f ∷ fs) = false

unfoldable pub is_empty : Address → Bool
unfolding is_nil
is_empty a = is_nil a.fragments

pub is_empty_lem : (a : Address) → is_empty a ≡ true → a.fragments ≡ []
unfolding is_empty
is_empty_lem a e = nil a.fragments e
  where
    nil : (fs : List Fragment) → is_nil fs ≡ true → fs ≡ []
    nil [] e = refl
    nil (f ∷ fs) e = cc

-- The second loop of `range`: `ptr` is the offset at which the next fragment begins.
unfoldable pub range_rest : ℕ → ℕ → List Fragment → List Fragment
range_rest end ptr [] = []
range_rest end ptr (f ∷ fs) =
    let g = subfrag f 0 (sub64 end ptr) in
    let rest = g ∷ range_rest end (add64 ptr g.size) fs in if ltb ptr end then rest else []

-- The first loop, which looks for the fragment that holds `start`, and the code behind it.
unfoldable pub range_find : ℕ → ℕ → ℕ → List Fragment → List Fragment
unfolding range_rest
range_find start end ptr [] = []
range_find start end ptr (f ∷ fs) =
    let g = subfrag f (sub64 start ptr) (sub64 end ptr) in
    let onward = range_find start end (add64 ptr f.size) fs in
    if ltb start (add64 ptr f.size) then g ∷ range_rest end (add64 start g.size) fs else onward

unfoldable pub range : Address → ℕ → ℕ → Address
unfolding range_find
range a start end = record { fragments = range_find start end 0 a.fragments }
