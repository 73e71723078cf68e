-- ===== src/Storage/EcDataView/Link.antt =====
-- `link` of `src/storage/group/ec_data_view.cpp`: the counts that the storages are given, and the
-- fragments that come back.
use native.Mathlib.Nat.{div-lt_iff_lt-mul}
use uh_core.Storage.Overlap.{overlaps, div-overlaps}
use uh_core.Pointers.{get_group_pointer}
use uh_core.Base.{
  ℕ, suc, ◌+◌, ◌-◌, ◌*◌, ◌/◌, ◌%◌, ◌^◌, add128, sub128, ◌≤◌, ◌<◌, ◌≡◌, refl, sym, ◌∙◌, ◌↔◌, Bool,
  Bool-cases, true, ◌&&◌, inl, inr, some, List, [], ◌∷◌, arith, leb, length, word,
}
use uh_core.Base.Result.{Result, ok}
use uh_core.Types.Fragment.{Fragment}
use uh_core.Types.Address.{Address}
use uh_core.Storage.RefCounter.{Refcount}
use uh_core.Storage.RefCounter.Increment.{counted}
use uh_core.Storage.Fanout.{run_for_all}
use uh_core.Storage.RrDataView.{has_stripe, rejected_stripes, has_overlap, count_stripes}
use uh_core.Storage.RrDataView.Count.{one_if, count_stripes-IsCounted}
use uh_core.Storage.RrDataView.Rejected.{
  meets, meets_any, meets_found, meets_finds, meets-rejected_stripes, keep, has_overlap-finds,
  has_overlap-found,
}
use uh_core.Storage.EcDataView.Counts.{
  ec_first_stripe, ec_last_stripe, ec_stripe_rounds, ec_count_fragments, ec_extract_refcounts,
  ec_rejected_from, ec_rejected_address, ec_compute_rejected_address,
}
use uh_core.Storage.EcDataView.Service.{EcGroup, all_there, ec_link}

module _ (stripe_size : ℕ) where
  -- The stripes that the loops visit for a fragment.
  abbrev ec_reaches : Fragment → ℕ → Bool
  ec_reaches f j = leb (ec_first_stripe stripe_size f) j && leb j (ec_last_stripe stripe_size f)

  -- The number of fragments for which the loops visit a stripe.
  abbrev ec_visits : List Fragment → ℕ → ℕ
  ec_visits [] j = 0
  ec_visits (f ∷ fs) j = one_if (ec_reaches f j) + ec_visits fs j

  -- No fragment is empty or reaches beyond the group, and its stripes have numbers below 2^64.
  abbrev pub AreInGroup : List Fragment → Type 0
  AreInGroup [] = Unit {0}
  AreInGroup (f ∷ fs) =
      (0 < f.size)
      × (f.pointer % 2 ^ 96 + f.size ≤ 2 ^ 96)
      × (f.pointer % 2 ^ 96 + f.size ≤ word * stripe_size)
      × AreInGroup fs

  -- Whether a fragment has bytes in a stripe of its group: a pointer inside of the group is the low
  -- 96 bits.
  abbrev pub ec_lies_in : Fragment → ℕ → Bool
  ec_lies_in f j = overlaps stripe_size (f.pointer % 2 ^ 96) f.size j

  -- The number of fragments that have bytes in a stripe.
  abbrev pub ec_references : List Fragment → ℕ → ℕ
  ec_references [] j = 0
  ec_references (f ∷ fs) j = one_if (ec_lies_in f j) + ec_references fs j

  ec_reaches-ec_lies_in :
      (f : Fragment) (j : ℕ)
      → 0 < stripe_size
      → 0 < f.size
      → f.pointer % 2 ^ 96 + f.size ≤ 2 ^ 96
      → f.pointer % 2 ^ 96 + f.size ≤ word * stripe_size
      → ec_reaches f j ≡ ec_lies_in f j
  unfolding ec_first_stripe ec_last_stripe get_group_pointer
  ec_reaches-ec_lies_in f j pos full fits few =
      let start = f.pointer % 2 ^ 96 in
      let stop : sub128 (add128 start f.size) 1 ≡ start + f.size - 1 =
        unfold sub128 add128 in omega arith in
      let first : start / stripe_size < word =
        (div-lt_iff_lt-mul {k = stripe_size} {x = start} {y = word} pos).1 (omega arith) in
      let last : (start + f.size - 1) / stripe_size < word =
        (div-lt_iff_lt-mul {k = stripe_size} {x = start + f.size - 1} {y = word} pos).1
          (omega arith) in
      let cast : start / stripe_size % word ≡ start / stripe_size = omega arith in
      let cast' : (start + f.size - 1) / stripe_size % word ≡ (start + f.size - 1) / stripe_size =
        omega arith in
      rw (stop, cast, cast') (div-overlaps stripe_size start f.size j pos full)

  ec_visits-ec_references :
      (fs : List Fragment) (j : ℕ)
      → 0 < stripe_size
      → AreInGroup fs
      → ec_visits fs j ≡ ec_references fs j
  ec_visits-ec_references [] j pos runs = refl
  ec_visits-ec_references (f ∷ fs) j pos runs =
      rw
        (
          ec_reaches-ec_lies_in f j pos runs.0 runs.1 runs.2,
          ec_visits-ec_references fs j pos runs.3,
        )
        refl

  counted-ec_count_fragments :
      (rs : List Refcount) (fs : List Fragment) (j : ℕ)
      → ((i : ℕ) → counted i rs + length fs < word)
      → counted j (ec_count_fragments stripe_size rs fs) ≡ counted j rs + ec_visits fs j
  unfolding ec_count_fragments
  counted-ec_count_fragments rs [] j room = omega arith
  counted-ec_count_fragments rs (f ∷ fs) j room =
      let n = ec_stripe_rounds stripe_size f in
      let id = ec_first_stripe stripe_size f in
      let one = count_stripes-IsCounted n id rs λ i later. omega (arith, room i) in
      let rest =
        counted-ec_count_fragments (count_stripes n id rs) fs j
          λ i. ground (arith, one.more i, room i) in
      ground (arith, rest, one.more j)

  abbrev is_hit : List Refcount → Fragment → Bool
  is_hit rejected f =
      has_overlap (ec_stripe_rounds stripe_size f) (ec_first_stripe stripe_size f) rejected

  is_hit_iff :
      (rejected : List Refcount) (f : Fragment)
      → (is_hit rejected f ≡ true)
        ↔ ((j : ℕ) × (ec_reaches f j ≡ true) × (has_stripe j rejected ≡ true))
  is_hit_iff rejected f = (
    λ e.
        let (j, h, k, found) =
          has_overlap-found (ec_stripe_rounds stripe_size f) (ec_first_stripe stripe_size f)
            rejected e in
        (j, ground arith, found),
    λ s.
        has_overlap-finds (ec_stripe_rounds stripe_size f) (ec_first_stripe stripe_size f) s.0
          rejected (ground (arith, s.1)) (ground (arith, s.1)) s.2,
  )

  ec_rejected_from-keep :
      (rejected : List Refcount) (fs : List Fragment)
      → ec_rejected_from stripe_size rejected fs ≡ keep (is_hit rejected) fs
  unfolding ec_rejected_from
  ec_rejected_from-keep rejected [] = refl
  ec_rejected_from-keep rejected (f ∷ fs) = rw (ec_rejected_from-keep rejected fs)

  keep_nothing : (fs : List Fragment) → [] ≡ keep (is_hit []) fs
  keep_nothing [] = refl
  keep_nothing (f ∷ fs) = elim (Bool-cases (is_hit [] f)) [
    | inl hit ↦ let (j, h, found) = (is_hit_iff [] f).0 hit in cc
    | inr miss ↦ rw miss (keep_nothing fs)
  ]

  ec_rejected_address-keep :
      (rejected : List Refcount) (original : Address)
      → (ec_rejected_address stripe_size rejected original).fragments
        ≡ keep (is_hit rejected) original.fragments
  unfolding ec_rejected_address
  ec_rejected_address-keep [] original = keep_nothing original.fragments
  ec_rejected_address-keep (r ∷ rs) original = ec_rejected_from-keep (r ∷ rs) original.fragments

  is_hit-meets :
      (rejected : List Refcount) (f : Fragment)
      → ((j : ℕ) → ec_reaches f j ≡ ec_lies_in f j)
      → is_hit rejected f ≡ meets (ec_lies_in f) rejected
  is_hit-meets rejected f same =
      let (from, to) = is_hit_iff rejected f in
      elim (Bool-cases (is_hit rejected f)) [
        | inl hit ↦
            let (j, close, found) = from hit in
            hit ∙ sym (meets_finds (ec_lies_in f) rejected j (sym (same j) ∙ close) found)
        | inr miss ↦ elim (Bool-cases (meets (ec_lies_in f) rejected)) [
          | inl met ↦
              let (j, close, found) = meets_found (ec_lies_in f) rejected met in
              to (j, same j ∙ close, found) ∙ sym met
          | inr apart ↦ miss ∙ sym apart
        ]
      ]

  keep-meets :
      (rejected : List (List Refcount)) (fs : List Fragment)
      → 0 < stripe_size
      → AreInGroup fs
      → keep (is_hit (rejected_stripes rejected)) fs
        ≡ keep (λ f. meets_any (ec_lies_in f) rejected) fs
  keep-meets rejected [] pos runs = refl
  keep-meets rejected (f ∷ fs) pos runs =
      rw
        (
          is_hit-meets (rejected_stripes rejected) f
              λ j. ec_reaches-ec_lies_in f j pos runs.0 runs.1 runs.2,
          meets-rejected_stripes (ec_lies_in f) rejected,
          keep-meets rejected fs pos runs.3,
        )
        refl

-- The answers of storages that all answer.
abbrev pub answers : (ℕ → List Refcount) → ℕ → List Bool → List (List Refcount)
answers rejects i [] = []
answers rejects i (s ∷ ss) = rejects i ∷ answers rejects (suc i) ss

run_for_all-answers :
    (ask : ℕ → Bool → Result (List Refcount)) (rejects : ℕ → List Refcount) (i : ℕ) (ss : List Bool)
    → ((n : ℕ) (there : Bool) → n < i + length ss → ask n there ≡ ok (rejects n))
    → run_for_all ask i ss ≡ ok (answers rejects i ss)
unfolding run_for_all
run_for_all-answers ask rejects i [] all = refl
run_for_all-answers ask rejects i (s ∷ ss) all =
    rw
      (
        all i s (omega arith),
        run_for_all-answers ask rejects (suc i) ss (λ n there h. all n there (omega arith)),
      )
      refl

-- Where every storage of the group is there and answers, `link` gives back the fragments of the
-- address, in order, that have bytes in a stripe that some storage rejects. What each storage is
-- asked for counts for every stripe the fragments of the address that have bytes in it. The stripes
-- are not empty, and no fragment is empty, reaches beyond the group or lies in a stripe whose number
-- is not below 2^64; the address has less than 2^64 fragments.
pub ec_link-keep :
    (g : EcGroup) (storages : List Bool) (link : ℕ → List Refcount → Result (List Refcount))
    (rejects : ℕ → List Refcount) (addr : Address)
    → all_there storages ≡ true
    → ((n : ℕ)
        → n < length storages
        → link n (ec_extract_refcounts g.stripe_size addr) ≡ ok (rejects n))
    → 0 < g.stripe_size
    → AreInGroup g.stripe_size addr.fragments
    → length addr.fragments < word
    → (a : Address) × (ec_link g storages link addr ≡ some (ok a))
      × (a.fragments
          ≡ keep
              (λ f. meets_any (ec_lies_in g.stripe_size f) (answers rejects 0 storages))
              addr.fragments)
      × ((j : ℕ)
          → counted j (ec_extract_refcounts g.stripe_size addr)
            ≡ ec_references g.stripe_size addr.fragments j)
unfolding ec_link ec_compute_rejected_address
ec_link-keep g storages link rejects addr there answer pos runs small =
    let refcounts = ec_extract_refcounts g.stripe_size addr in
    let rejected = rejected_stripes (answers rejects 0 storages) in
    let run =
      run_for_all-answers (λ i s. link i refcounts) rejects 0 storages
        λ n s h. answer n (omega (arith, h)) in
    (
      ec_compute_rejected_address g.stripe_size (answers rejects 0 storages) addr,
      rw (there, run) refl,
      ec_rejected_address-keep g.stripe_size rejected addr
          ∙ keep-meets g.stripe_size (answers rejects 0 storages) addr.fragments pos runs,
      λ j.
          unfold ec_extract_refcounts in
          omega (
            arith,
            counted-ec_count_fragments g.stripe_size [] addr.fragments j (λ i. omega arith),
            ec_visits-ec_references g.stripe_size addr.fragments j pos runs,
          ),
    )
