-- ===== src/Dedup/Search.antt =====
-- The search of `deduplicate` in `src/deduplicator/interfaces/local_deduplicator.cpp`: the data is
-- cut into fragments that storage holds already and fragments that are new.
pub mod Match
pub mod Content
use uh_core.Base.{
  ℕ, zero, suc, min, max, Option, none, some, List, [], ◌∷◌, ltb, ◌==◌, if◌then◌else◌, length, take,
  drop, add64,
}
use uh_core.Base.Result.{and_then, Result, ok, throws, out_of_range, ◌>>=◌}
use uh_core.Types.Fragment.{Fragment}
use uh_core.Dedup.Fragmentation.{Fragmentation, push_stored, push_unstored}

-- `fragment_set::response`: the lexicographic neighbours, each with its prefix.
pub record Response (H : Type 0) : Type 0 where
  pub low : Option (Fragment × List ℕ)
  pub high : Option (Fragment × List ℕ)
  pub hint : Option H

unfoldable pub largest_common_prefix : List ℕ → List ℕ → ℕ
largest_common_prefix [] ys = 0
largest_common_prefix (x ∷ xs) [] = 0
largest_common_prefix (x ∷ xs) (y ∷ ys) =
    let rest = largest_common_prefix xs ys in if x == y then suc rest else 0

-- `read` is `storage::global::cache::read`. `data.substr(common)` and the same of the fragment
-- throw where `common` lies beyond the end.
unfoldable pub match_size :
    (ℕ → ℕ → Result (List ℕ)) → List ℕ → Option (Fragment × List ℕ) → Result ℕ
unfolding largest_common_prefix
match_size read bytes none = ok 0
match_size read bytes (some (f, prefix)) =
    let common = largest_common_prefix prefix bytes in
    let whole = read f.pointer f.size >>= λ complete.
    if ltb (length complete) common
    then throws out_of_range
    else ok (add64 common (largest_common_prefix (drop common bytes) (drop common complete))) in
    if ltb common (length prefix) then ok common else whole

-- `deduplicator_config`, as far as the search reads it.
pub record SearchConfig : Type 0 where
  pub min_fragment_size : ℕ
  pub max_fragment_size : ℕ

module _ {S H : Type 0} (config : SearchConfig) (find : S → List ℕ → S × Response H)
    (read : ℕ → ℕ → Result (List ℕ)) where
  -- The `while` loop, with fuel; `s` is the fragment set, whose `find` may change it. `none` means
  -- that the fuel ran out, or that an empty `std::optional` was read.
  unfoldable pub search :
      ℕ → S → Fragmentation H → ℕ → List ℕ → Option (Result (S × Fragmentation H))
  unfolding match_size
  search k s fr offset [] = some (ok (s, fr))
  search zero s fr offset (b ∷ bs) = none
  search (suc k) s fr offset (b ∷ bs) =
      let found = find s (b ∷ bs) in
      and_then (some (match_size read (b ∷ bs) found.1.low)) λ match_low.
        and_then (some (match_size read (b ∷ bs) found.1.high)) λ match_high.
          let size = max match_low match_high in
          let chosen = if ltb match_high match_low then found.1.low else found.1.high in
          let as_stored : Option (Result (S × Fragmentation H)) = elim chosen [
            | none ↦ none
            | some (frag, prefix) ↦
                search k found.0
                  (push_stored fr frag.pointer size (take size (b ∷ bs)) (offset == 0))
                  (add64 offset size) (drop size (b ∷ bs))
          ] in
          let n = min (length (b ∷ bs)) config.max_fragment_size in
          let as_new =
            search k found.0 (push_unstored fr (take n (b ∷ bs)) (offset == 0) found.1.hint)
              (add64 offset n) (drop n (b ∷ bs)) in
          if ltb config.min_fragment_size size then as_stored else as_new
