-- ===== src/Dedup/Deduplicate/Service.antt =====
-- What `deduplicate` of `src/deduplicator/interfaces/local_deduplicator.cpp` relies on, of the storage
-- service, and how stored data gets through a `link` and a `write`.
use uh_core.Base.{
  ℕ, zero, suc, ◌+◌, ◌≤◌, ◌<◌, ◌≡◌, refl, ap, ap₂, ◌∙◌, true, false, inl, inr, List, [], ◌∷◌, map,
  arith, Bool, Bool-cases,
}
use uh_core.Base.Result.{Result, ok}
use uh_core.Types.Fragment.{Fragment, span}
use uh_core.Types.Address.{Address}
use uh_core.Storage.RrDataView.Rejected.{keep}
use uh_core.Dedup.Fragmentation.{DdFragment, is_stored, stored_from}
use uh_core.Dedup.Flush.Content.{AllStored}
use uh_core.Dedup.Flush.Outcome.{IsWritten}
use uh_core.Dedup.Marked.{marked, AllKept}

-- Every byte that a fragment stands for has a property.
abbrev pub AllBytes : (ℕ → Type 0) → Fragment → Type 0
AllBytes P f = (p : ℕ) → f.pointer ≤ p → p < f.pointer + f.size → P p

-- Every fragment that is not rejected has a property.
abbrev pub AllLinked : (Fragment → Bool) → (Fragment → Type 0) → List Fragment → Type 0
AllLinked hit P [] = Unit {0}
AllLinked hit P (f ∷ fs) = (hit f ≡ false → P f) × AllLinked hit P fs

-- The promises of the storage service: `content` is what storage holds in a state, and `Held` says
-- which bytes are referenced, so that they are not given up or written over.
pub record IsService {G : Type 0} (link : G → Address → G × Result Address)
    (write : G → List ℕ → List ℕ → G × Result Address) (content : G → ℕ → ℕ) (Held : G → ℕ → Type 0)
    : Type 0 where
  -- A write throws, or storage holds what was written afterwards.
  pub written : (g : G) (b os : List ℕ) → IsWritten (content (write g b os).0) (write g b os).1 b
  -- A write does not touch what is referenced.
  pub untouched :
      (g : G) (b os : List ℕ) (p : ℕ) → Held g p → content (write g b os).0 p ≡ content g p
  -- A `link` that answers gives back some of the fragments, in order. The bytes of the others are
  -- referenced then, and are what they were; of those that come back nothing is promised.
  pub linked :
      (g : G) (a rejected : Address)
      → (link g a).1 ≡ ok rejected
      → (hit : Fragment → Bool) × (rejected.fragments ≡ keep hit a.fragments)
        × AllLinked hit
            (AllBytes (λ p. Held (link g a).0 p × (content (link g a).0 p ≡ content g p)))
            a.fragments

pub map-span :
    (c c' : ℕ → ℕ) (p n : ℕ)
    → AllBytes (λ q. c' q ≡ c q) (record { pointer = p; size = n })
    → map c' (span p n) ≡ map c (span p n)
map-span c c' p zero same = refl
map-span c c' p (suc n) same =
    ap₂ ◌∷◌ (same p (omega arith) (omega arith))
      (map-span c c' (suc p) n λ q low high. same q (omega arith) (omega arith))

module _ {H : Type 0} where
  -- The bytes of every stored fragment have a property.
  abbrev pub AllHeld : (ℕ → Type 0) → List (DdFragment H) → Type 0
  AllHeld P [] = Unit {0}
  AllHeld P (f ∷ fs) =
      (is_stored f.type ≡ true
        → AllBytes P (record { pointer = f.stored_pointer; size = f.stored_size }))
      × AllHeld P fs

  -- What is held keeps its data.
  pub AllStored-AllHeld :
      (P : ℕ → Type 0) (c c' : ℕ → ℕ) (fs : List (DdFragment H))
      → ((p : ℕ) → P p → c' p ≡ c p)
      → AllHeld P fs
      → AllStored c fs
      → AllStored c' fs
  AllStored-AllHeld P c c' [] frame held st = tt
  AllStored-AllHeld P c c' (f ∷ fs) frame held st = elim (Bool-cases (is_stored f.type)) [
    | inr new ↦ rw new (tt, AllStored-AllHeld P c c' fs frame held.1 st.1)
    | inl known ↦
        let here : map c (span f.stored_pointer f.stored_size) ≡ f.payload = rw known at st.0 in
        rw known (
          map-span c c' f.stored_pointer f.stored_size
                (λ q low high. frame q (held.0 known q low high))
              ∙ here,
          AllStored-AllHeld P c c' fs frame held.1 st.1,
        )
  ]

  module _ (P : ℕ → Type 0) (c c' : ℕ → ℕ) (hit : Fragment → Bool) where
    -- What is not rejected is held afterwards, with its data.
    pub AllKept-AllLinked :
        (fs : List (DdFragment H))
        → AllLinked hit (AllBytes (λ p. P p × (c' p ≡ c p))) (stored_from fs)
        → AllStored c fs
        → AllKept c' hit fs × AllHeld P (marked hit fs)
    unfolding stored_from
    AllKept-AllLinked [] safe st = (tt, tt)
    AllKept-AllLinked (f ∷ fs) safe st = elim (Bool-cases (is_stored f.type)) [
      | inr new ↦
          let rest = AllKept-AllLinked fs (rw new at safe) st.1 in
          (
            (λ known. absurd (ground arith), rest.0),
            rw (new, new) (λ known. absurd (ground arith), rest.1),
          )
      | inl known ↦
          let here : map c (span f.stored_pointer f.stored_size) ≡ f.payload = rw known at st.0 in
          let safe' = rw known at safe in
          let rest = AllKept-AllLinked fs safe'.1 st.1 in
          let this : Fragment = record { pointer = f.stored_pointer; size = f.stored_size } in
          (
            (
              λ k miss.
                  map-span c c' f.stored_pointer f.stored_size
                    (λ q low high. (safe'.0 miss q low high).1)
                  ∙ here,
              rest.0,
            ),
            elim (Bool-cases (hit this)) [
              | inl gone ↦ rw (known, gone) (λ e. absurd (ground arith), rest.1)
              | inr stays ↦ rw (known, stays) (λ e q low high. (safe'.0 stays q low high).0, rest.1)
            ],
          )
    ]

  -- Where nothing comes back, nothing is marked.
  pub marked_nothing :
      (hit : Fragment → Bool) (fs : List (DdFragment H))
      → keep hit (stored_from fs) ≡ []
      → marked hit fs ≡ fs
  unfolding stored_from
  marked_nothing hit [] e = refl
  marked_nothing hit (f ∷ fs) e = elim (Bool-cases (is_stored f.type)) [
    | inr new ↦ rw new (ap (◌∷◌ f) (marked_nothing hit fs (rw new at e)))
    | inl known ↦
        elim (Bool-cases (hit (record { pointer = f.stored_pointer; size = f.stored_size }))) [
          | inl gone ↦ absurd (cons_nil _ _ (rw (known, gone) at e))
          | inr stays ↦
              rw (known, stays) (ap (◌∷◌ f) (marked_nothing hit fs (rw (known, stays) at e)))
        ]
  ]
    where
      cons_nil : (g : Fragment) (gs : List Fragment) → (g ∷ gs) ≡ [] → ⊥
      cons_nil g gs e = cc
