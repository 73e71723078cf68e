-- ===== src/Storage/RrDataView/Rejected.antt =====
-- `compute_rejected_address` of `src/storage/group/rr_data_view.cpp`: which fragments a `link` gives
-- back.
use uh_core.Base.{
  ℕ, zero, suc, ◌+◌, ◌%◌, ◌≤◌, ◌<◌, ◌≡◌, refl, ap, sym, ◌∙◌, ◌↔◌, ◌++◌, ◌||◌, ==_iff, word, Bool,
  true, false, inl, inr, List, [], ◌∷◌, arith, ◌==◌, if◌then◌else◌, Bool-cases,
}
use uh_core.Types.Fragment.{Fragment}
use uh_core.Types.Address.{Address}
use uh_core.Storage.RefCounter.{Refcount}
use uh_core.Storage.RrDataView.{
  has_stripe, rejected_stripes, has_overlap, rejected_from, rejected_address,
  compute_rejected_address, first_stripe, stripe_rounds,
}
use uh_core.Storage.RrDataView.Count.{AreRuns, reaches, lies_in, reaches-lies_in}

abbrev pub keep : (Fragment → Bool) → List Fragment → List Fragment
keep p [] = []
keep p (f ∷ fs) = if p f then f ∷ keep p fs else keep p fs

-- The loop over `n` stripes from `id` on finds what there is to find.
pub has_overlap-finds :
    (n id j : ℕ) (rejected : List Refcount)
    → id ≤ j
    → j < id + n
    → has_stripe j rejected ≡ true
    → has_overlap n id rejected ≡ true
unfolding has_overlap
has_overlap-finds zero id j rejected h k e = absurd (omega arith)
has_overlap-finds (suc n) id j rejected h k e = elim (Bool-cases (id == j)) [
  | inl here ↦ ground arith
  | inr later ↦
      let rest = has_overlap-finds n (suc id) j rejected (ground arith) (omega arith) e in
      ground arith
]

pub has_overlap-found :
    (n id : ℕ) (rejected : List Refcount)
    → has_overlap n id rejected ≡ true
    → (j : ℕ) × (id ≤ j) × (j < id + n) × (has_stripe j rejected ≡ true)
unfolding has_overlap
has_overlap-found zero id rejected e = cc
has_overlap-found (suc n) id rejected e = elim (Bool-cases (has_stripe id rejected)) [
  | inl here ↦ (id, omega arith, omega arith, here)
  | inr later ↦
      let (j, h, k, found) = has_overlap-found n (suc id) rejected (rw later at e) in
      (j, omega arith, omega arith, found)
]

-- Whether some of the rejected stripes is one of those that `near` accepts.
abbrev pub meets : (ℕ → Bool) → List Refcount → Bool
meets near [] = false
meets near (r ∷ rs) = near r.stripe_id || meets near rs

-- The same for the answers of several storages.
abbrev pub meets_any : (ℕ → Bool) → List (List Refcount) → Bool
meets_any near [] = false
meets_any near (rs ∷ rss) = meets near rs || meets_any near rss

meets-append :
    (near : ℕ → Bool) (rs ss : List Refcount)
    → meets near (rs ++ ss) ≡ (meets near rs || meets near ss)
meets-append near [] ss = refl
meets-append near (r ∷ rs) ss = let rest = meets-append near rs ss in ground arith

pub meets-rejected_stripes :
    (near : ℕ → Bool) (rss : List (List Refcount))
    → meets near (rejected_stripes rss) ≡ meets_any near rss
meets-rejected_stripes near [] = refl
meets-rejected_stripes near (rs ∷ rss) =
    meets-append near rs (rejected_stripes rss)
    ∙ ap (λ (b : Bool). meets near rs || b) (meets-rejected_stripes near rss)

pub meets_found :
    (near : ℕ → Bool) (rs : List Refcount)
    → meets near rs ≡ true
    → (j : ℕ) × (near j ≡ true) × (has_stripe j rs ≡ true)
meets_found near [] e = absurd (ground arith)
meets_found near (r ∷ rs) e = elim (Bool-cases (near r.stripe_id)) [
  | inl here ↦ (r.stripe_id, here, ground arith)
  | inr other ↦
      let (j, close, found) = meets_found near rs (ground arith) in (j, close, ground arith)
]

pub meets_finds :
    (near : ℕ → Bool) (rs : List Refcount) (j : ℕ)
    → near j ≡ true
    → has_stripe j rs ≡ true
    → meets near rs ≡ true
meets_finds near [] j close e = absurd (ground arith)
meets_finds near (r ∷ rs) j close e = elim (Bool-cases (r.stripe_id == j)) [
  | inl here ↦
      let same : near r.stripe_id ≡ true = ap near ((==_iff r.stripe_id j).0 here) ∙ close in
      ground arith
  | inr other ↦ let rest = meets_finds near rs j close (ground arith) in ground arith
]

module _ (stripe_size : ℕ) where
  -- The loop over the stripes of one fragment.
  abbrev pub is_hit : List Refcount → Fragment → Bool
  is_hit rejected f =
      has_overlap (stripe_rounds stripe_size f) (first_stripe stripe_size f) rejected

  is_hit_iff :
      (rejected : List Refcount) (f : Fragment)
      → (is_hit rejected f ≡ true)
        ↔ ((j : ℕ) × (reaches stripe_size f j ≡ true) × (has_stripe j rejected ≡ true))
  is_hit_iff rejected f = (
    λ e.
        let (j, h, k, found) =
          has_overlap-found (stripe_rounds stripe_size f) (first_stripe stripe_size f) rejected e in
        (j, ground arith, found),
    λ s.
        has_overlap-finds (stripe_rounds stripe_size f) (first_stripe stripe_size f) s.0 rejected
          (ground (arith, s.1)) (ground (arith, s.1)) s.2,
  )

  rejected_from-keep :
      (rejected : List Refcount) (fs : List Fragment)
      → rejected_from stripe_size rejected fs ≡ keep (is_hit rejected) fs
  unfolding rejected_from
  rejected_from-keep rejected [] = refl
  rejected_from-keep rejected (f ∷ fs) = rw (rejected_from-keep rejected fs)

  keep_nothing : (fs : List Fragment) → keep (is_hit []) fs ≡ []
  keep_nothing [] = refl
  keep_nothing (f ∷ fs) = elim (Bool-cases (is_hit [] f)) [
    | inl hit ↦ let (j, h, found) = (is_hit_iff [] f).0 hit in cc
    | inr miss ↦ rw miss (keep_nothing fs)
  ]

  -- Whether a fragment has bytes in a stripe that is rejected.
  is_hit-meets :
      (rejected : List Refcount) (f : Fragment)
      → 0 < stripe_size
      → 0 < f.size
      → f.pointer % word + f.size ≤ word
      → is_hit rejected f ≡ meets (lies_in stripe_size f) rejected
  is_hit-meets rejected f pos full fits =
      let (from, to) = is_hit_iff rejected f in
      let same = λ (j : ℕ). reaches-lies_in stripe_size f j pos full fits in
      elim (Bool-cases (is_hit rejected f)) [
        | inl hit ↦
            let (j, close, found) = from hit in
            hit ∙ sym (meets_finds (lies_in stripe_size f) rejected j (sym (same j) ∙ close) found)
        | inr miss ↦ elim (Bool-cases (meets (lies_in stripe_size f) rejected)) [
          | inl met ↦
              let (j, close, found) = meets_found (lies_in stripe_size f) rejected met in
              to (j, same j ∙ close, found) ∙ sym met
          | inr apart ↦ miss ∙ sym apart
        ]
      ]

  keep-meets :
      (rejected : List Refcount) (fs : List Fragment)
      → 0 < stripe_size
      → AreRuns fs
      → keep (is_hit rejected) fs ≡ keep (λ f. meets (lies_in stripe_size f) rejected) fs
  keep-meets rejected [] pos runs = refl
  keep-meets rejected (f ∷ fs) pos runs =
      rw (is_hit-meets rejected f pos runs.0 runs.1, keep-meets rejected fs pos runs.2) refl

  rejected_address-keep :
      (rejected : List Refcount) (original : Address)
      → (rejected_address stripe_size rejected original).fragments
        ≡ keep (is_hit rejected) original.fragments
  unfolding rejected_address
  rejected_address-keep [] original = sym (keep_nothing original.fragments)
  rejected_address-keep (r ∷ rs) original = rejected_from-keep (r ∷ rs) original.fragments

  any_stripe :
      (rejected : List (List Refcount)) (fs : List Fragment)
      → keep (λ f. meets (lies_in stripe_size f) (rejected_stripes rejected)) fs
        ≡ keep (λ f. meets_any (lies_in stripe_size f) rejected) fs
  any_stripe rejected [] = refl
  any_stripe rejected (f ∷ fs) =
      rw (meets-rejected_stripes (lies_in stripe_size f) rejected, any_stripe rejected fs) refl

  -- From the rejected stripes that the storages answer with, `compute_rejected_address` yields
  -- exactly the fragments of the address, in order, that have bytes in a stripe whose id some
  -- storage has rejected. Which storage that was plays no part: it need not be the storage of the
  -- fragment. The stripes are not empty, and no fragment is empty or wraps around in its storage.
  pub compute_rejected_address-keep :
      (rejected : List (List Refcount)) (original : Address)
      → 0 < stripe_size
      → AreRuns original.fragments
      → (compute_rejected_address stripe_size rejected original).fragments
        ≡ keep (λ f. meets_any (lies_in stripe_size f) rejected) original.fragments
  unfolding compute_rejected_address
  compute_rejected_address-keep rejected original pos runs =
      rejected_address-keep (rejected_stripes rejected) original
      ∙ keep-meets (rejected_stripes rejected) original.fragments pos runs
      ∙ any_stripe rejected original.fragments
