-- ===== src/Dedup/Deduplicate/Tests.antt =====
-- A request to `src/deduplicator/interfaces/local_deduplicator.cpp` over a service that keeps bytes in
-- a row.
use uh_core.Base.{
  add64, sub64, add128, ℕ, zero, suc, ◌+◌, ◌<◌, ◌≡◌, refl, ap, sym, ◌∙◌, Bool, some, List, [], ◌∷◌,
  ◌++◌, map, arith, length, length-map, ltb, ◌==◌, ◌||◌, ◌&&◌, if◌then◌else◌, Bool-cases, inl, inr,
  word,
}
use uh_core.Base.Result.{Result, ok, throws, bad_request}
use uh_core.Types.Fragment.{Fragment, span, length-span}
use uh_core.Types.Address.{Address}
use uh_core.Storage.RrDataView.Rejected.{keep}
use uh_core.Dedup.Fragmentation.{push_stored, push_unstored}
use uh_core.Dedup.Set.{FragmentSet}
use uh_core.Dedup.Flush.Outcome.{IsWritten}
use uh_core.Dedup.Search.{Response, SearchConfig}
use uh_core.Dedup.Search.Match.{IsCandidate}
use uh_core.Dedup.Deduplicate.{deduplicate}
use uh_core.Dedup.Deduplicate.Service.{IsService, AllLinked, AllBytes}
use uh_core.Dedup.Deduplicate.Upload.{IsAnswer, deduplicate-IsAnswer}

-- The state is the bytes that are there, from pointer 0 on; behind them storage reads as zeros.
abbrev byte_at : List ℕ → ℕ → ℕ
byte_at [] p = 0
byte_at (x ∷ xs) zero = x
byte_at (x ∷ xs) (suc p) = byte_at xs p

abbrev IsThere : List ℕ → ℕ → Type 0
IsThere g p = p < length g

-- A write puts the buffer behind all that is there. An empty one, or one for which there is no room,
-- is refused.
abbrev row_write : List ℕ → List ℕ → List ℕ → List ℕ × Result Address
row_write g b os =
    if ltb 0 (length b) && ltb (length g + length b) word
    then (g ++ b, ok (record { fragments = record { pointer = length g; size = length b } ∷ [] }))
    else (g, throws bad_request)

-- A `link` gives back what is not there, and fragments that begin at 50.
abbrev comes_back : List ℕ → Fragment → Bool
comes_back g f = f.pointer == 50 || ltb (length g) (f.pointer + f.size)

abbrev row_link : List ℕ → Address → List ℕ × Result Address
row_link g a = (g, ok (record { fragments = keep (comes_back g) a.fragments }))

byte_at-append : (g b : List ℕ) (p : ℕ) → p < length g → byte_at (g ++ b) p ≡ byte_at g p
byte_at-append [] b p h = absurd (omega arith)
byte_at-append (x ∷ g) b zero h = refl
byte_at-append (x ∷ g) b (suc p) h = byte_at-append g b p (omega arith)

map-suc :
    (x : ℕ) (b : List ℕ) (p n : ℕ)
    → map (byte_at (x ∷ b)) (span (suc p) n) ≡ map (byte_at b) (span p n)
map-suc x b p zero = refl
map-suc x b p (suc n) = ap (◌∷◌ (byte_at b p)) (map-suc x b (suc p) n)

whole : (b : List ℕ) → map (byte_at b) (span 0 (length b)) ≡ b
whole [] = refl
whole (x ∷ b) = ap (◌∷◌ x) (map-suc x b 0 (length b) ∙ whole b)

behind : (g b : List ℕ) → map (byte_at (g ++ b)) (span (length g) (length b)) ≡ b
behind [] b = whole b
behind (x ∷ g) b = map-suc x (g ++ b) (length g) (length b) ∙ behind g b

append_nothing : (b : List ℕ) → b ++ [] ≡ b
append_nothing [] = refl
append_nothing (x ∷ b) = ap (◌∷◌ x) (append_nothing b)

row_write-IsWritten :
    (g b os : List ℕ) → IsWritten (byte_at (row_write g b os).0) (row_write g b os).1 b
row_write-IsWritten g b os =
    elim (Bool-cases (ltb 0 (length b) && ltb (length g + length b) word)) [
      | inr refused ↦ rw refused tt
      | inl taken ↦ rw taken (
        record { fits = (ground arith, tt); small = ground arith; short = omega arith },
        ap (map (byte_at (g ++ b))) (append_nothing (span (length g) (length b))) ∙ behind g b,
      )
    ]

row_write-untouched :
    (g b os : List ℕ) (p : ℕ) → IsThere g p → byte_at (row_write g b os).0 p ≡ byte_at g p
row_write-untouched g b os p there =
    elim (Bool-cases (ltb 0 (length b) && ltb (length g + length b) word)) [
      | inl taken ↦ rw taken (byte_at-append g b p there)
      | inr refused ↦ rw refused refl
    ]

all_there :
    (g : List ℕ) (fs : List Fragment)
    → AllLinked (comes_back g) (AllBytes (λ p. IsThere g p × (byte_at g p ≡ byte_at g p))) fs
all_there g [] = tt
all_there g (f ∷ fs) = (λ stays p low high. (ground arith, refl), all_there g fs)

row-IsService : IsService row_link row_write byte_at IsThere
row-IsService = record {
  written = row_write-IsWritten;
  untouched = row_write-untouched;
  linked = λ g a rejected run. (
    comes_back g,
    sym (ap (λ (r : Result Address). fragments_of r) run),
    all_there g a.fragments,
  );
}
  where
    fragments_of : Result Address → List Fragment
    fragments_of (ok a) = a.fragments
    fragments_of (throws e) = []

-- A set that keeps nothing but always finds the fragments of four bytes at 40 and 50.
abbrev two_set : FragmentSet
two_set = record {
  Set = Unit {0};
  Hint = ℕ;
  insert = λ s p b header hint. s;
  mark_deduplication = λ s f. s;
  erase = λ s f header. s;
}

abbrev two_find : Unit {0} → List ℕ → Unit {0} × Response ℕ
two_find s bytes = (
  s,
  record {
    low = some (record { pointer = 40; size = 4 }, 40 ∷ 41 ∷ []);
    high = some (record { pointer = 50; size = 4 }, 50 ∷ 51 ∷ []);
    hint = some 1;
  },
)

abbrev row_read : ℕ → ℕ → Result (List ℕ)
row_read p n = ok (span p n)

-- 60 bytes are there, each of which is its pointer.
abbrev sixty : List ℕ
sixty = span 0 60

two_find-IsCandidate :
    (s : Unit {0}) (part : List ℕ)
    → IsCandidate (byte_at sixty) row_read (two_find s part).1.low
      × IsCandidate (byte_at sixty) row_read (two_find s part).1.high
two_find-IsCandidate s part = (
  record { complete = span 40 4; reads = refl; known = refl; whole = refl; covers = omega arith },
  record { complete = span 50 4; reads = refl; known = refl; whole = refl; covers = omega arith },
)

abbrev blank : ℕ → List ℕ
blank n = map (λ p. 0) (span 0 n)

length-blank : (n : ℕ) → length (blank n) ≡ n
length-blank n = length-map (λ p. 0) (span 0 n) ∙ length-span 0 n

abbrev limits : SearchConfig
limits = record { min_fragment_size = 2; max_fragment_size = 8 }

abbrev request : List ℕ
request = 50 ∷ 51 ∷ 52 ∷ 40 ∷ 41 ∷ 42 ∷ 7 ∷ 8 ∷ 9 ∷ []

-- Two runs of three bytes are found in storage. One is rejected, and written with the rest.
deduplicates :
    (deduplicate two_set row_link row_write blank limits two_find row_read sixty tt request).1
    ≡ some (
        ok (
          tt,
          record {
            effective_size = 6;
            addr = record {
              fragments =
                  record { pointer = 60; size = 3 }
                  ∷ record { pointer = 40; size = 3 }
                  ∷ record { pointer = 63; size = 3 }
                  ∷ [];
            };
          },
        ))
unfolding deduplicate add64 push_unstored push_stored sub64 add128
deduplicates = refl

deduplicate-IsAnswer_example :
    IsAnswer two_set row_link row_write blank byte_at sixty request
      (deduplicate two_set row_link row_write blank limits two_find row_read sixty tt request)
deduplicate-IsAnswer_example =
    deduplicate-IsAnswer two_set row_link row_write blank byte_at sixty length-blank IsThere
      row-IsService limits two_find row_read tt request (omega arith) two_find-IsCandidate
      (omega arith)
