-- ===== src/Dedup/Tests.antt =====
-- An upload of `src/deduplicator/fragmentation.cpp` on concrete values.
use uh_core.Base.{
  add64, sub64, add128, ℕ, ◌+◌, ◌≡◌, refl, Bool, true, false, none, some, List, [], ◌∷◌, ◌++◌, map,
  arith, length, length-map, ◌==◌, ◌&&◌, if◌then◌else◌, Bool-cases, inl, inr, sym, ◌∙◌,
}
use uh_core.Base.Result.{Result, ok, throws, bad_request}
use uh_core.Types.Fragment.{Fragment, span, length-span}
use uh_core.Types.Address.{Address}
use uh_core.Types.Address.Bytes.{bytes}
use uh_core.Dedup.Fragmentation.{
  Fragmentation, new_fragmentation, push_stored, push_unstored, make_address, get_stored_fragments,
  stored_from,
}
use uh_core.Dedup.Set.{FragmentSet}
use uh_core.Dedup.Flush.{flush_storage}
use uh_core.Dedup.Flush.Refill.{BufferIsValid}
use uh_core.Dedup.Flush.Content.{payloads, IsReady}
use uh_core.Dedup.Flush.Outcome.{IsWritten, make_address-flush_storage}
use uh_core.Dedup.Ready.{new-IsReady, push_stored-IsReady, push_unstored-IsReady}
use uh_core.Dedup.Reject.{handle_rejected_fragments}
use uh_core.Dedup.Marked.{AllKept}
use uh_core.Dedup.Rejected.{IsHandled, handle_rejected_fragments-IsHandled}
use uh_core.Dedup.Search.{Response, SearchConfig, match_size, search}
use uh_core.Dedup.Search.Match.{IsCandidate, IsMatch, match_size-IsMatch}
use uh_core.Dedup.Search.Content.{IsExtended, search-IsExtended}
use uh_core.Dedup.Deduplicate.{deduplicate}

-- Storage that holds at every pointer the pointer itself.
abbrev identity : ℕ → ℕ
identity p = p

abbrev known : Fragmentation ℕ
known = push_stored new_fragmentation 50 2 (50 ∷ 51 ∷ []) true

abbrev upload : Fragmentation ℕ
upload = push_unstored known (7 ∷ 8 ∷ 9 ∷ []) false none

stored_upload-IsReady :
    IsReady identity known × (payloads known.frags ≡ payloads {H = ℕ} [] ++ 50 ∷ 51 ∷ [])
stored_upload-IsReady =
    push_stored-IsReady identity new_fragmentation 50 2 (50 ∷ 51 ∷ []) true (new-IsReady identity)
      refl

full_upload-IsReady :
    IsReady identity upload × (payloads upload.frags ≡ payloads known.frags ++ 7 ∷ 8 ∷ 9 ∷ [])
full_upload-IsReady =
    push_unstored-IsReady identity known (7 ∷ 8 ∷ 9 ∷ []) false none stored_upload-IsReady.0
      (unfold push_stored in omega arith)

-- The service splits what it is given into two fragments.
abbrev split_address : Address
split_address = record {
  fragments = record { pointer = 7; size = 2 } ∷ record { pointer = 9; size = 1 } ∷ [];
}

abbrev zeros : ℕ → List ℕ
zeros n = map (λ p. 0) (span 0 n)

length-zeros : (n : ℕ) → length (zeros n) ≡ n
length-zeros n = length-map (λ p. 0) (span 0 n) ∙ length-span 0 n

-- It knows a single place for data, that of the bytes 7, 8 and 9.
abbrev is_789 : List ℕ → Bool
is_789 [] = false
is_789 (x ∷ []) = false
is_789 (x ∷ y ∷ []) = false
is_789 (x ∷ y ∷ z ∷ []) = x == 7 && (y == 8 && z == 9)
is_789 (x ∷ y ∷ z ∷ w ∷ ws) = false

is_789_lem : (b : List ℕ) → is_789 b ≡ true → b ≡ 7 ∷ 8 ∷ 9 ∷ []
is_789_lem [] e = cc
is_789_lem (x ∷ []) e = cc
is_789_lem (x ∷ y ∷ []) e = cc
is_789_lem (x ∷ y ∷ z ∷ []) e = ground arith
is_789_lem (x ∷ y ∷ z ∷ w ∷ ws) e = cc

abbrev one_write : ℕ → List ℕ → List ℕ → ℕ × Result Address
one_write g buffer offsets = (g + 1, if is_789 buffer then ok split_address else throws bad_request)

split-BufferIsValid : BufferIsValid split_address
split-BufferIsValid = record {
  fits = (omega arith, (omega arith, tt));
  small = omega arith;
  short = omega arith;
}

one_write-IsWritten : (g : ℕ) (b os : List ℕ) → IsWritten identity (one_write g b os).1 b
one_write-IsWritten g b os = elim (Bool-cases (is_789 b)) [
  | inl known_bytes ↦ rw known_bytes (split-BufferIsValid, sym (is_789_lem b known_bytes))
  | inr others ↦ rw others tt
]

-- The service rejects nothing.
abbrev one_link : ℕ → Address → ℕ × Result Address
one_link g a = (g + 1, ok (record { fragments = [] }))

-- A set that keeps nothing but always finds the fragment of four bytes at 50, by two of them.
abbrev one_set : FragmentSet
one_set = record {
  Set = Unit {0};
  Hint = ℕ;
  insert = λ s p b header hint. s;
  mark_deduplication = λ s f. s;
  erase = λ s f header. s;
}

abbrev at_50 : Fragment
at_50 = record { pointer = 50; size = 4 }

abbrev one_find : Unit {0} → List ℕ → Unit {0} × Response ℕ
one_find s bytes = (s, record { low = some (at_50, 50 ∷ 51 ∷ []); high = none; hint = some 1 })

abbrev identity_read : ℕ → ℕ → Result (List ℕ)
identity_read p n = ok (span p n)

one_find-IsCandidate :
    (s : Unit {0}) (part : List ℕ)
    → IsCandidate identity identity_read (one_find s part).1.low
      × IsCandidate identity identity_read (one_find s part).1.high
one_find-IsCandidate s part = (
  record { complete = span 50 4; reads = refl; known = refl; whole = refl; covers = omega arith },
  tt,
)

abbrev limits : SearchConfig
limits = record { min_fragment_size = 2; max_fragment_size = 8 }

abbrev request : List ℕ
request = 50 ∷ 51 ∷ 52 ∷ 7 ∷ 8 ∷ 9 ∷ []

-- Three bytes are found in storage, and three are written.
deduplicates :
    (deduplicate one_set one_link one_write zeros limits one_find identity_read 0 tt request).1
    ≡ some (
        ok (
          tt,
          record {
            effective_size = 3;
            addr = record {
              fragments = record { pointer = 50; size = 3 } ∷ split_address.fragments;
            };
          },
        ))
unfolding deduplicate add64 push_unstored push_stored sub64 add128
deduplicates = refl

make_address-flush_storage_example :
    (done : Fragmentation ℕ) × ((flush_storage one_write zeros 0 upload).1 ≡ some (ok done))
    × (map identity (bytes (make_address done)) ≡ payloads upload.frags)
make_address-flush_storage_example =
    make_address-flush_storage identity one_write zeros length-zeros 0 upload split_address
      full_upload-IsReady.0 (unfold push_unstored push_stored in refl)
      (unfold push_unstored push_stored in (split-BufferIsValid, refl))

-- The fragment at 50 comes back.
abbrev at_fifty : Fragment → Bool
at_fifty f = f.pointer == 50

upload-AllKept : AllKept identity at_fifty upload.frags
upload-AllKept =
    unfold push_unstored push_stored in (λ known miss. absurd cc, (λ known miss. absurd cc, tt))

handle_rejected_fragments-IsHandled_example : IsHandled one_set identity at_fifty upload tt (
    handle_rejected_fragments one_set
      (record { fragments = record { pointer = 50; size = 2 } ∷ [] })
      upload
      tt)
handle_rejected_fragments-IsHandled_example =
    handle_rejected_fragments-IsHandled one_set identity identity at_fifty
      (record { fragments = record { pointer = 50; size = 2 } ∷ [] }) upload tt
      full_upload-IsReady.0 upload-AllKept
      (unfold push_unstored push_stored get_stored_fragments stored_from in refl)
      (unfold push_unstored push_stored add64 in omega arith)
      (unfold push_unstored push_stored in omega arith)

match_size-IsMatch_example :
    (n : ℕ) × (match_size identity_read request (some (at_50, 50 ∷ 51 ∷ [])) ≡ ok n)
    × IsMatch identity identity_read request n (some (at_50, 50 ∷ 51 ∷ []))
match_size-IsMatch_example =
    match_size-IsMatch identity identity_read request (some (at_50, 50 ∷ 51 ∷ [])) (omega arith)
      (one_find-IsCandidate tt []).0

search-IsExtended_example :
    (s' : Unit {0}) × (fr' : Fragmentation ℕ) × (search limits one_find identity_read 6 tt
        new_fragmentation 0 request
      ≡ some (ok (s', fr')))
    × IsExtended identity limits new_fragmentation request fr'
search-IsExtended_example =
    search-IsExtended identity limits one_find identity_read (omega arith) one_find-IsCandidate 6 tt
      new_fragmentation 0 request (omega arith) (new-IsReady identity) (omega arith)
