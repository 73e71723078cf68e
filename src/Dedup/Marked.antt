-- ===== src/Dedup/Marked.antt =====
-- The fragments of an upload that a `link` rejects, of `src/deduplicator/fragmentation.cpp`: what the
-- upload is with them marked as unstored.
use uh_core.Base.{
  ℕ, ◌+◌, ◌≤◌, ◌≡◌, refl, ap, Bool, true, false, inl, inr, none, List, [], ◌∷◌, ◌++◌, map, arith,
  Bool-cases, ◌&&◌, if◌then◌else◌, length, length-append,
}
use uh_core.Types.Fragment.{Fragment, span}
use uh_core.Dedup.Fragmentation.{unstored, DdFragment, is_stored}
use uh_core.Dedup.Flush.Place.{unstored_bytes}
use uh_core.Dedup.Flush.Content.{payloads, AllFresh, AllHaveData, AllStored}

pub unstored_bytes_le :
    {H : Type 0} (fs : List (DdFragment H)) → length (unstored_bytes fs) ≤ length (payloads fs)
unstored_bytes_le [] = omega arith
unstored_bytes_le (f ∷ fs) =
    let all = length-append f.payload (payloads fs) in
    let ih = unstored_bytes_le fs in
    elim (Bool-cases (is_stored f.type)) [
      | inl known ↦ rw known (omega arith)
      | inr new ↦ rw new (omega (arith, length-append f.payload (unstored_bytes fs)))
    ]

-- Whether a fragment of an upload is a stored one that is rejected.
abbrev pub is_rejected : {H : Type 0} → (Fragment → Bool) → DdFragment H → Bool
is_rejected hit f =
    is_stored f.type && hit (record { pointer = f.stored_pointer; size = f.stored_size })

-- The bytes of the rejected fragments.
abbrev pub rejected_bytes : {H : Type 0} → (Fragment → Bool) → List (DdFragment H) → List ℕ
rejected_bytes hit [] = []
rejected_bytes hit (f ∷ fs) =
    if is_rejected hit f then f.payload ++ rejected_bytes hit fs else rejected_bytes hit fs

-- The fragments, where those that are rejected are to be stored anew.
abbrev pub marked : {H : Type 0} → (Fragment → Bool) → List (DdFragment H) → List (DdFragment H)
marked hit [] = []
marked hit (f ∷ fs) =
    (if is_rejected hit f then record f { type = unstored; stored_pointer = 0; hint = none } else f)
    ∷ marked hit fs

-- Every stored fragment that is not rejected is found in storage.
abbrev pub AllKept : {H : Type 0} → (ℕ → ℕ) → (Fragment → Bool) → List (DdFragment H) → Type 0
AllKept content hit [] = Unit {0}
AllKept content hit (f ∷ fs) =
    (is_stored f.type ≡ true
      → hit (record { pointer = f.stored_pointer; size = f.stored_size }) ≡ false
      → map content (span f.stored_pointer f.stored_size) ≡ f.payload)
    × AllKept content hit fs

module _ {H : Type 0} where
  pub payloads-marked :
      (hit : Fragment → Bool) (fs : List (DdFragment H)) → payloads (marked hit fs) ≡ payloads fs
  payloads-marked hit [] = refl
  payloads-marked hit (f ∷ fs) = elim (Bool-cases (is_rejected hit f)) [
    | inl gone ↦ rw gone (ap (λ x. f.payload ++ x) (payloads-marked hit fs))
    | inr here ↦ rw here (ap (λ x. f.payload ++ x) (payloads-marked hit fs))
  ]

  pub unstored_bytes-marked :
      (hit : Fragment → Bool) (fs : List (DdFragment H))
      → length (unstored_bytes (marked hit fs))
        ≡ length (unstored_bytes fs) + length (rejected_bytes hit fs)
  unstored_bytes-marked hit [] = refl
  unstored_bytes-marked hit (f ∷ fs) =
      let ih = unstored_bytes-marked hit fs in
      let a = length-append f.payload (unstored_bytes (marked hit fs)) in
      let b = length-append f.payload (unstored_bytes fs) in
      let c = length-append f.payload (rejected_bytes hit fs) in
      elim (Bool-cases (is_stored f.type)) [
        | inr new ↦ rw (new, new) (omega (arith, ih, a, b))
        | inl known ↦
            elim (Bool-cases (hit (record { pointer = f.stored_pointer; size = f.stored_size }))) [
              | inl gone ↦ rw (known, gone) (omega (arith, ih, a, c))
              | inr here ↦ rw (known, here, known) ih
            ]
      ]

  pub AllFresh-marked :
      (hit : Fragment → Bool) (fs : List (DdFragment H)) → AllFresh fs → AllFresh (marked hit fs)
  AllFresh-marked hit [] h = tt
  AllFresh-marked hit (f ∷ fs) h = elim (Bool-cases (is_rejected hit f)) [
    | inl gone ↦ rw gone (h.0, AllFresh-marked hit fs h.1)
    | inr here ↦ rw here (h.0, AllFresh-marked hit fs h.1)
  ]

  pub AllHaveData-marked :
      (hit : Fragment → Bool) (fs : List (DdFragment H))
      → AllHaveData fs
      → AllHaveData (marked hit fs)
  AllHaveData-marked hit [] h = tt
  AllHaveData-marked hit (f ∷ fs) h = elim (Bool-cases (is_rejected hit f)) [
    | inl gone ↦ rw gone (h.0, AllHaveData-marked hit fs h.1)
    | inr here ↦ rw here (h.0, AllHaveData-marked hit fs h.1)
  ]

  pub AllStored-marked :
      (content : ℕ → ℕ) (hit : Fragment → Bool) (fs : List (DdFragment H))
      → AllKept content hit fs
      → AllStored content (marked hit fs)
  AllStored-marked content hit [] h = tt
  AllStored-marked content hit (f ∷ fs) h = elim (Bool-cases (is_stored f.type)) [
    | inr new ↦ rw (new, new) (tt, AllStored-marked content hit fs h.1)
    | inl known ↦
        elim (Bool-cases (hit (record { pointer = f.stored_pointer; size = f.stored_size }))) [
          | inl gone ↦ rw (known, gone) (tt, AllStored-marked content hit fs h.1)
          | inr here ↦ rw (known, here, known) (h.0 known here, AllStored-marked content hit fs h.1)
        ]
  ]
