-- ===== src/Dedup/Flush/Content.antt =====
-- `make_address` of `src/deduplicator/fragmentation.cpp`: what the address of placed fragments reads
-- as.
use uh_core.Base.{
  ℕ, ◌<◌, ◌≡◌, refl, ap, ap₂, sym, ◌∙◌, true, false, inl, inr, List, [], ◌∷◌, ◌++◌, map, arith,
  if◌then◌else◌, Bool-cases, length, take, drop, map-take, map-drop, take-append_self,
  drop-append_self, append-nil, word,
}
use mathlib.Core.List.{map-append, append-eq-nil_iff}
use uh_core.Types.Fragment.{Fragment, span}
use uh_core.Types.Address.Bytes.{list_bytes, list_bytes-append}
use uh_core.Dedup.Fragmentation.{
  FragmentType, stored, unstored, DdFragment, Fragmentation, is_stored, fragment_address,
  make_address_from,
}
use uh_core.Dedup.Flush.Place.{unstored_bytes, IsPlaced}

reads_append :
    (content : ℕ → ℕ) (xs ys : List Fragment)
    → map content (list_bytes (xs ++ ys))
      ≡ map content (list_bytes xs) ++ map content (list_bytes ys)
reads_append content xs ys = ap (map content) (list_bytes-append xs ys) ∙ map-append content _ _

pub length-eq-nil : (xs : List ℕ) → length xs ≡ 0 → xs ≡ []
length-eq-nil [] h = refl
length-eq-nil (x ∷ xs) h = absurd (omega arith)

module _ {H : Type 0} where
  -- All data of the upload, in order.
  abbrev pub payloads : List (DdFragment H) → List ℕ
  payloads [] = []
  payloads (f ∷ fs) = f.payload ++ payloads fs

  -- No fragment has an address of its own yet.
  abbrev pub AllFresh : List (DdFragment H) → Type 0
  AllFresh [] = Unit {0}
  AllFresh (f ∷ fs) = (f.addr.fragments ≡ []) × AllFresh fs

  -- Every fragment of an upload has data.
  abbrev pub AllHaveData : List (DdFragment H) → Type 0
  AllHaveData [] = Unit {0}
  AllHaveData (f ∷ fs) = (0 < length f.payload) × AllHaveData fs

  pub AllHaveData-append :
      (xs ys : List (DdFragment H)) → AllHaveData xs → AllHaveData ys → AllHaveData (xs ++ ys)
  AllHaveData-append [] ys h k = k
  AllHaveData-append (x ∷ xs) ys h k = (h.0, AllHaveData-append xs ys h.1 k)

  -- Every fragment that is said to be stored is found in storage.
  abbrev pub AllStored : (ℕ → ℕ) → List (DdFragment H) → Type 0
  AllStored content [] = Unit {0}
  AllStored content (f ∷ fs) =
      (if is_stored f.type
        then map content (span f.stored_pointer f.stored_size) ≡ f.payload
        else Unit {0})
      × AllStored content fs

  fragment_address_stored :
      (t : FragmentType) (f : DdFragment H)
      → is_stored t ≡ true
      → fragment_address t f ≡ record { pointer = f.stored_pointer; size = f.stored_size } ∷ []
  unfolding fragment_address
  fragment_address_stored stored f h = refl
  fragment_address_stored unstored f h = cc

  fragment_address_unstored :
      (t : FragmentType) (f : DdFragment H)
      → is_stored t ≡ false
      → fragment_address t f ≡ f.addr.fragments
  unfolding fragment_address
  fragment_address_unstored stored f h = cc
  fragment_address_unstored unstored f h = refl

  -- Where there is no unstored data, the fragments are placed as they are.
  pub IsPlaced-self : (fs : List (DdFragment H)) → unstored_bytes fs ≡ [] → IsPlaced [] fs fs
  IsPlaced-self [] e = tt
  IsPlaced-self (f ∷ fs) e = elim (Bool-cases (is_stored f.type)) [
    | inl known ↦ rw known (refl, IsPlaced-self fs (rw known at e))
    | inr new ↦
        let both = append-eq-nil_iff.0 (rw new at e) in
        placed_first f fs new both.0 (IsPlaced-self fs both.1)
  ]
    where
      placed_first :
          (f : DdFragment H) (fs : List (DdFragment H))
          → is_stored f.type ≡ false
          → f.payload ≡ []
          → IsPlaced [] fs fs
          → IsPlaced [] (f ∷ fs) (f ∷ fs)
      placed_first f fs new no_bytes rest = rw (new, no_bytes) (refl, sym (append-nil _), rest)

  module _ (content : ℕ → ℕ) where
    reads_stored :
        (f g : DdFragment H)
        → is_stored f.type ≡ true
        → g ≡ f
        → map content (span f.stored_pointer f.stored_size) ≡ f.payload
        → map content (list_bytes (fragment_address g.type g)) ≡ f.payload
    reads_stored f g known same held =
        ap (λ x. map content (list_bytes (fragment_address x.type x))) same
        ∙ rw (fragment_address_stored f.type f known, append-nil) held

    reads_unstored :
        (f g : DdFragment H) (bs rest : List ℕ)
        → is_stored f.type ≡ false
        → g ≡ record f { addr = g.addr }
        → f.addr.fragments ≡ []
        → list_bytes g.addr.fragments ≡ list_bytes f.addr.fragments ++ take (length f.payload) bs
        → map content bs ≡ f.payload ++ rest
        → map content (list_bytes (fragment_address g.type g)) ≡ f.payload
    reads_unstored f g bs rest new same fresh placed e =
        ap (λ x. map content (list_bytes (fragment_address x.type x))) same
        ∙ rw (fragment_address_unstored f.type (record f { addr = g.addr }) new, placed, fresh)
            (map-take content (length f.payload) bs
              ∙ ap (take (length f.payload)) e
              ∙ take-append_self f.payload rest)

    -- The address of placed fragments reads as their data.
    pub placed_content :
        (bs : List ℕ) (fs gs : List (DdFragment H))
        → IsPlaced bs fs gs
        → AllFresh fs
        → AllStored content fs
        → map content bs ≡ unstored_bytes fs
        → map content (list_bytes (make_address_from gs)) ≡ payloads fs
    unfolding make_address_from
    placed_content bs [] [] p fr st e = refl
    placed_content bs [] (g ∷ gs) p fr st e = absurd p
    placed_content bs (f ∷ fs) [] p fr st e = absurd p
    placed_content bs (f ∷ fs) (g ∷ gs) p fr st e =
        reads_append content (fragment_address g.type g) (make_address_from gs)
        ∙ elim (Bool-cases (is_stored f.type)) [
          | inl known ↦
              let here = rw known at p in
              ap₂ ◌++◌ (reads_stored f g known here.0 (rw known at st.0))
                (placed_content bs fs gs here.1 fr.1 st.1 (rw known at e))
          | inr new ↦
              let here = rw new at p in
              let e' = rw new at e in
              ap₂ ◌++◌ (reads_unstored f g bs (unstored_bytes fs) new here.0 fr.0 here.1 e') (
                placed_content (drop (length f.payload) bs) fs gs here.2 fr.1 st.1 (
                  map-drop content (length f.payload) bs
                  ∙ ap (drop (length f.payload)) e'
                  ∙ drop-append_self f.payload (unstored_bytes fs)))
        ]

    -- What an upload must be before its storage is flushed: the counter of unstored bytes is right,
    -- no fragment has an address of its own yet, and the stored ones are found in storage.
    pub record IsReady (fr : Fragmentation H) : Type 0 where
      pub counted : fr.unstored_size ≡ length (unstored_bytes fr.frags)
      pub small : fr.unstored_size < word
      pub fresh : AllFresh fr.frags
      pub held : AllStored content fr.frags
