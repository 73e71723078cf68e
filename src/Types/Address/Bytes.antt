-- ===== src/Types/Address/Bytes.antt =====
-- The bytes that an address stands for: the abstract view of `src/common/types/address.h`.
use uh_core.Base.{
  ℕ, ◌+◌, ◌<◌, ◌≡◌, refl, ◌∙◌, List, [], ◌∷◌, ◌++◌, arith, append_assoc, length, length-append,
  add64_exact, word, wide,
}
use uh_core.Types.Fragment.{Fragment, frag_bytes, length-span}
use uh_core.Types.Address.{Address, append, data_size_from, data_size, size}

abbrev pub list_bytes : List Fragment → List ℕ
list_bytes [] = []
list_bytes (f ∷ fs) = frag_bytes f ++ list_bytes fs

abbrev pub bytes : Address → List ℕ
bytes a = list_bytes a.fragments

-- The sum of the sizes, as a plain number.
abbrev pub total : List Fragment → ℕ
total [] = 0
total (f ∷ fs) = f.size + total fs

-- Every fragment ends below the top of the pointer space.
abbrev pub AllFit : List Fragment → Type 0
AllFit [] = Unit {0}
AllFit (f ∷ fs) = (f.pointer + f.size < wide) × AllFit fs

-- An address whose sizes add up within `std::size_t` and whose fragments fit the pointer space.
pub record IsValid (a : Address) : Type 0 where
  pub fits : AllFit a.fragments
  pub small : total a.fragments < word

pub length-list_bytes : (fs : List Fragment) → length (list_bytes fs) ≡ total fs
length-list_bytes [] = refl
length-list_bytes (f ∷ fs) = omega (
  arith,
  length-append (frag_bytes f) (list_bytes fs),
  length-span f.pointer f.size,
  length-list_bytes fs,
)

pub list_bytes-append :
    (xs ys : List Fragment) → list_bytes (xs ++ ys) ≡ list_bytes xs ++ list_bytes ys
list_bytes-append [] ys = refl
list_bytes-append (x ∷ xs) ys = simp (list_bytes-append xs ys, append_assoc)

pub total-append : (xs ys : List Fragment) → total (xs ++ ys) ≡ total xs + total ys
total-append [] ys = omega arith
total-append (x ∷ xs) ys = omega (arith, total-append xs ys)

pub data_size_from-total :
    (acc : ℕ) (fs : List Fragment) → acc + total fs < word → data_size_from acc fs ≡ acc + total fs
unfolding data_size_from
data_size_from-total acc [] h = omega arith
data_size_from-total acc (f ∷ fs) h =
    rw (add64_exact acc f.size (omega arith))
      (data_size_from-total (acc + f.size) fs (omega arith) ∙ omega arith)

-- `data_size` counts the bytes of a valid address: its accumulator does not wrap.
pub data_size-length : (a : Address) → IsValid a → data_size a ≡ length (bytes a)
unfolding data_size
data_size-length a v = omega (
  arith,
  data_size_from-total 0 a.fragments (omega (arith, v.small)),
  length-list_bytes a.fragments,
  v.small,
)

-- `append` puts the bytes and the fragments of both addresses one after the other.
pub bytes-append :
    (a b : Address)
    → (bytes (append a b) ≡ bytes a ++ bytes b) × (size (append a b) ≡ size a + size b)
unfolding append size
bytes-append a b =
    (list_bytes-append a.fragments b.fragments, length-append a.fragments b.fragments)
