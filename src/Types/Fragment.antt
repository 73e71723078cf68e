-- ===== src/Types/Fragment.antt =====
-- `src/common/types/fragment.h`: a run of `size` bytes that begins at a global pointer.
use uh_core.Base.{
  ℕ, zero, suc, ◌+◌, ◌-◌, ◌≤◌, ◌<◌, min, ◌≡◌, refl, ap, ap₂, ◌∙◌, List, [], ◌∷◌, ◌++◌, arith, leb,
  leb→le, Bool-cases, inl, inr, if◌then◌else◌, length, take, drop, sub64, add128, sub64_exact,
  add128_exact, word, wide,
}

pub record Fragment : Type 0 where
  pub pointer : ℕ
  pub size : ℕ

abbrev pub empty_fragment : Fragment
empty_fragment = record { pointer = 0; size = 0 }

unfoldable pub subfrag : Fragment → ℕ → ℕ → Fragment
subfrag f start end =
    if leb end start
    then empty_fragment
    else record { pointer = add128 f.pointer start; size = sub64 (min f.size end) start }

-- The `n` consecutive byte pointers from `p` on.
abbrev pub span : ℕ → ℕ → List ℕ
span p zero = []
span p (suc n) = p ∷ span (suc p) n

-- The bytes that a fragment stands for, by their global pointers.
abbrev pub frag_bytes : Fragment → List ℕ
frag_bytes f = span f.pointer f.size

pub length-span : (p n : ℕ) → length (span p n) ≡ n
length-span p zero = refl
length-span p (suc n) = ap suc (length-span (suc p) n)

pub take-span : (k p n : ℕ) → take k (span p n) ≡ span p (min k n)
take-span zero p n = let nothing : min 0 n ≡ 0 = omega arith in rw nothing
take-span (suc k) p zero = let nothing : min (suc k) 0 ≡ 0 = omega arith in rw nothing
take-span (suc k) p (suc n) =
    let same : min (suc k) (suc n) ≡ suc (min k n) = omega arith in
    rw same (ap (◌∷◌ p) (take-span k (suc p) n))

pub drop-span : (k p n : ℕ) → drop k (span p n) ≡ span (p + k) (n - k)
drop-span zero p n = ap₂ span (omega arith) (omega arith)
drop-span (suc k) p zero = let nothing : 0 - suc k ≡ 0 = omega arith in rw nothing
drop-span (suc k) p (suc n) = drop-span k (suc p) n ∙ ap₂ span (omega arith) (omega arith)

pub span-append : (p m n : ℕ) → span p m ++ span (p + m) n ≡ span p (m + n)
span-append p zero n = ap₂ span (omega arith) (omega arith)
span-append p (suc m) n =
    let here : p + suc m ≡ suc p + m = omega arith in
    let sum : suc m + n ≡ suc (m + n) = omega arith in
    rw (here, sum) (ap (◌∷◌ p) (span-append (suc p) m n))

-- Between its own ends `subfrag` neither wraps nor reads outside the fragment.
pub subfrag-inside :
    (f : Fragment) (start end : ℕ)
    → f.pointer + f.size < wide
    → f.size < word
    → start ≤ f.size
    → frag_bytes (subfrag f start end) ≡ take (end - start) (drop start (frag_bytes f))
unfolding subfrag
subfrag-inside f start end fits small inside =
    rw (drop-span, take-span)
      (elim (Bool-cases (leb end start)) [
        | inl empty ↦ rw (empty, leb→le end start empty, nothing (leb→le end start empty))
        | inr some ↦ rw some (
            ap₂ span (add128_exact f.pointer start (ground arith))
              (sub64_exact (min f.size end) start (ground arith) (ground arith) ∙ ground arith))
      ])
  where
    nothing : end ≤ start → min (end - start) (f.size - start) ≡ 0
    nothing h = omega arith
