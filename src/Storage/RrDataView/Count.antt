-- ===== src/Storage/RrDataView/Count.antt =====
-- `extract_refcounts` of `src/storage/group/rr_data_view.cpp`: the counts of each storage and
-- stripe, against the fragments that reach into it.
use uh_core.Base.{
  ℕ, zero, suc, ◌+◌, ◌-◌, ◌/◌, ◌%◌, ◌^◌, ◌≤◌, ◌<◌, ◌≡◌, refl, ap, ◌∙◌, Bool, true, false, inl, inr,
  ◌&&◌, some, List, [], ◌∷◌, arith, ltb, leb, ◌==◌, ==_iff, if◌then◌else◌, Bool-cases, length,
  get_elem?, add64, sub64, add64_exact, word,
}
use uh_core.Types.Fragment.{Fragment}
use uh_core.Types.Address.{Address}
use uh_core.Pointers.{rr_storage_pointer}
use uh_core.Storage.Overlap.{overlaps, div-overlaps}
use uh_core.Storage.RefCounter.{Refcount}
use uh_core.Storage.RefCounter.Increment.{counted}
use uh_core.Storage.RefCounter.DecrementLoop.{AllPositive}
use uh_core.Storage.RrDataView.{
  count_one, count_stripes, count_fragments, first_stripe, last_stripe, stripe_rounds, storage_key,
  entries, are_known, extract_refcounts,
}

abbrev pub one_if : Bool → ℕ
one_if b = if b then 1 else 0

counted-count_one :
    (id j : ℕ) (rs : List Refcount)
    → counted id rs + 1 < word
    → counted j (count_one id rs) ≡ counted j rs + one_if (id == j)
unfolding count_one
counted-count_one id j [] w = omega arith
counted-count_one id j (r ∷ rs) w = elim (Bool-cases (id == r.stripe_id)) [
  | inl same ↦
      let key : r.stripe_id ≡ id = omega (arith, (==_iff id r.stripe_id).0 same) in
      let here : (r.stripe_id == id) ≡ true = (==_iff r.stripe_id id).1 key in
      let w' = rw here at w in
      let exact : add64 r.count 1 ≡ r.count + 1 = add64_exact r.count 1 (omega arith) in
      rw (same, exact, key)
        (elim (Bool-cases (id == j)) [
          | inl hit ↦ rw hit (omega arith)
          | inr miss ↦ rw miss (omega arith)
        ])
  | inr differ ↦
      let other : (r.stripe_id == id) ≡ false = ground arith in
      let w' = rw other at w in
      elim (Bool-cases (ltb id r.stripe_id)) [
        | inl before ↦ rw (differ, before) (omega arith)
        | inr behind ↦ rw (differ, behind) (omega (arith, counted-count_one id j rs (omega arith)))
      ]
]

count_one-AllPositive :
    (id : ℕ) (rs : List Refcount)
    → counted id rs + 1 < word
    → AllPositive rs
    → AllPositive (count_one id rs)
unfolding count_one
count_one-AllPositive id [] w pos = (omega arith, tt)
count_one-AllPositive id (r ∷ rs) w pos = elim (Bool-cases (id == r.stripe_id)) [
  | inl same ↦
      let key : r.stripe_id ≡ id = omega (arith, (==_iff id r.stripe_id).0 same) in
      let here : (r.stripe_id == id) ≡ true = (==_iff r.stripe_id id).1 key in
      let w' = rw here at w in
      let exact : add64 r.count 1 ≡ r.count + 1 = add64_exact r.count 1 (omega arith) in
      rw (same, exact) (omega arith, pos.1)
  | inr differ ↦
      let other : (r.stripe_id == id) ≡ false = ground arith in
      let w' = rw other at w in
      elim (Bool-cases (ltb id r.stripe_id)) [
        | inl before ↦ rw (differ, before) (omega arith, pos)
        | inr behind ↦ rw (differ, behind) (pos.0, count_one-AllPositive id rs (omega arith) pos.1)
      ]
]

-- What a loop over `n` stripes from `id` on does.
pub record IsCounted (n id : ℕ) (rs rs' : List Refcount) : Type 0 where
  pub more : (j : ℕ) → counted j rs' ≡ counted j rs + one_if (leb id j && ltb j (id + n))
  pub positive : AllPositive rs → AllPositive rs'

pub count_stripes-IsCounted :
    (n id : ℕ) (rs : List Refcount)
    → ((j : ℕ) → id ≤ j → counted j rs + 1 < word)
    → IsCounted n id rs (count_stripes n id rs)
unfolding count_stripes
count_stripes-IsCounted zero id rs room = record { more = λ j. ground arith; positive = λ pos. pos }
count_stripes-IsCounted (suc n) id rs room =
    let first = λ (j : ℕ). counted-count_one id j rs (room id (omega arith)) in
    let rest =
      count_stripes-IsCounted n (suc id) (count_one id rs)
        λ j later. ground (arith, first j, room j) in
    record {
      more = λ j. ground (arith, rest.more j, first j);
      positive = λ pos. rest.positive (count_one-AllPositive id rs (room id (omega arith)) pos);
    }

-- Storage pointers do not wrap around inside of a fragment that is not empty.
abbrev pub AreRuns : List Fragment → Type 0
AreRuns [] = Unit {0}
AreRuns (f ∷ fs) = (0 < f.size) × (f.pointer % word + f.size ≤ word) × AreRuns fs

-- Every fragment lies in one of the first `storages` storages.
abbrev pub AreWithin : ℕ → List Fragment → Type 0
AreWithin storages [] = Unit {0}
AreWithin storages (f ∷ fs) = (f.pointer / 2 ^ 64 % 2 ^ 16 < storages) × AreWithin storages fs

module _ (stripe_size : ℕ) where
  -- The stripes that the loops visit for a fragment.
  abbrev pub reaches : Fragment → ℕ → Bool
  reaches f j = leb (first_stripe stripe_size f) j && leb j (last_stripe stripe_size f)

  -- Whether a fragment has bytes in a stripe of its storage: the storage pointer is the low word.
  abbrev pub lies_in : Fragment → ℕ → Bool
  lies_in f j = overlaps stripe_size (f.pointer % word) f.size j

  pub reaches-lies_in :
      (f : Fragment) (j : ℕ)
      → 0 < stripe_size
      → 0 < f.size
      → f.pointer % word + f.size ≤ word
      → reaches f j ≡ lies_in f j
  unfolding first_stripe last_stripe rr_storage_pointer
  reaches-lies_in f j pos full fits =
      let start = f.pointer % word in
      let last : sub64 (add64 start f.size) 1 ≡ start + f.size - 1 =
        unfold sub64 add64 in omega arith in
      rw last (div-overlaps stripe_size start f.size j pos full)

  -- The stripes that are counted for storage `k`.
  abbrev visits : List Fragment → ℕ → ℕ → ℕ
  visits [] k j = 0
  visits (f ∷ fs) k j = one_if (k == storage_key f && reaches f j) + visits fs k j

  -- The number of fragments of storage `k`, which bits 64 to 79 of a pointer name, that have bytes
  -- in stripe `j`.
  abbrev pub references : List Fragment → ℕ → ℕ → ℕ
  references [] k j = 0
  references (f ∷ fs) k j =
      one_if (k == f.pointer / 2 ^ 64 % 2 ^ 16 && lies_in f j) + references fs k j

  visits-references :
      (fs : List Fragment) (k j : ℕ)
      → 0 < stripe_size
      → AreRuns fs
      → visits fs k j ≡ references fs k j
  unfolding storage_key rr_storage_pointer
  visits-references [] k j pos runs = refl
  visits-references (f ∷ fs) k j pos runs =
      let key : f.pointer / 2 ^ 64 % 2 ^ 32 % 2 ^ 16 ≡ f.pointer / 2 ^ 64 % 2 ^ 16 = omega arith in
      rw (key, reaches-lies_in f j pos runs.0 runs.1, visits-references fs k j pos runs.2) refl

  AreWithin-are_known :
      (storages : ℕ) (fs : List Fragment)
      → AreWithin storages fs
      → are_known storages stripe_size fs ≡ true
  unfolding storage_key rr_storage_pointer
  AreWithin-are_known storages [] within = refl
  AreWithin-are_known storages (f ∷ fs) within =
      let key : f.pointer / 2 ^ 64 % 2 ^ 32 % 2 ^ 16 ≡ f.pointer / 2 ^ 64 % 2 ^ 16 = omega arith in
      let here : ltb (storage_key f) storages ≡ true = ground (arith, key, within.0) in
      rw (here, AreWithin-are_known storages fs within.1) (ground arith)

  -- What the outer loop does to the counts of one storage.
  record IsExtracted (counts : ℕ → List Refcount) (fs : List Fragment) (k : ℕ) (rs : List Refcount)
      : Type 0 where
    more : (j : ℕ) → counted j rs ≡ counted j (counts k) + visits fs k j
    positive : AllPositive (counts k) → AllPositive rs

  count_fragments-IsExtracted :
      (counts : ℕ → List Refcount) (fs : List Fragment) (k : ℕ)
      → ((j : ℕ) → counted j (counts k) + length fs < word)
      → IsExtracted counts fs k (count_fragments stripe_size counts fs k)
  unfolding count_fragments
  count_fragments-IsExtracted counts [] k room = record {
    more = λ j. omega arith;
    positive = λ pos. pos;
  }
  count_fragments-IsExtracted counts (f ∷ fs) k room =
      let n = stripe_rounds stripe_size f in
      let id = first_stripe stripe_size f in
      let step =
        λ (i : ℕ). if i == storage_key f then count_stripes n id (counts i) else counts i in
      let one = count_stripes-IsCounted n id (counts k) λ j later. omega (arith, room j) in
      elim (Bool-cases (k == storage_key f)) [
        | inl here ↦
            let now : step k ≡ count_stripes n id (counts k) = rw here in
            let rest =
              count_fragments-IsExtracted step fs k
                λ j. rw here (ground (arith, one.more j, room j)) in
            record {
              more = λ j. ground (arith, rest.more j, ap (counted j) now, one.more j);
              positive = λ pos. rest.positive (rw here (one.positive pos));
            }
        | inr other ↦
            let now : step k ≡ counts k = rw other in
            let rest =
              count_fragments-IsExtracted step fs k λ j. rw other (omega (arith, room j)) in
            record {
              more = λ j. ground (arith, rest.more j, ap (counted j) now);
              positive = λ pos. rest.positive (rw other pos);
            }
      ]

  get_elem?-entries :
      (counts : ℕ → List Refcount) (k n i : ℕ)
      → i < n
      → get_elem? (entries counts k n) i ≡ some (counts (k + i))
  get_elem?-entries counts k zero i h = absurd (omega arith)
  get_elem?-entries counts k (suc n) zero h = ap (λ (t : ℕ). some (counts t)) (omega arith)
  get_elem?-entries counts k (suc n) (suc i) h =
      get_elem?-entries counts (suc k) n i (omega arith)
      ∙ ap (λ (t : ℕ). some (counts t)) (omega arith)

  -- The counts that are extracted from an address whose fragments lie in the storages of the group:
  -- for every storage of the group the number of its fragments that have bytes in a stripe, and no
  -- entry with the count 0. The stripes are not empty, no fragment is empty or wraps around in its
  -- storage, and the number of fragments is below 2^64.
  pub extract_refcounts-references :
      (storages : ℕ) (addr : Address)
      → 0 < stripe_size
      → AreRuns addr.fragments
      → AreWithin storages addr.fragments
      → length addr.fragments < word
      → (all : List (List Refcount)) × (extract_refcounts storages stripe_size addr ≡ some all)
        × ((k : ℕ)
            → k < storages
            → (rs : List Refcount) × (get_elem? all k ≡ some rs)
              × AllPositive rs
              × ((j : ℕ) → counted j rs ≡ references addr.fragments k j))
  unfolding extract_refcounts
  extract_refcounts-references storages addr pos runs within small =
      let counts = count_fragments stripe_size (λ k. []) addr.fragments in
      (
        entries counts 0 storages,
        rw (AreWithin-are_known storages addr.fragments within),
        λ k h.
            let e = count_fragments-IsExtracted (λ k. []) addr.fragments k λ j. omega arith in
            (
              counts k,
              get_elem?-entries counts 0 storages k h
                  ∙ ap (λ (t : ℕ). some (counts t)) (omega arith),
              e.positive tt,
              λ j.
                  let same = visits-references addr.fragments k j pos runs in
                  omega (arith, e.more j, same),
            ),
      )
