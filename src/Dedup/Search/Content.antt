-- ===== src/Dedup/Search/Content.antt =====
-- The search loop of `src/deduplicator/interfaces/local_deduplicator.cpp`: the upload that it
-- builds.
use uh_core.Base.{
  ℕ, zero, suc, ◌+◌, ◌≤◌, ◌<◌, min, max, ◌≡◌, refl, ap, sym, ◌∙◌, Bool, inl, inr, Option, some,
  List, [], ◌∷◌, ◌++◌, map, arith, ltb, ltb→lt, ◌==◌, Bool-cases, append-nil, append_assoc, length,
  take, drop, length-append, length-take, length-drop, add64, add64-lt, if◌then◌else◌, word,
}
use uh_core.Base.Result.{Result, ok}
use uh_core.Types.Fragment.{span}
use uh_core.Dedup.Fragmentation.{DdFragment, Fragmentation, is_stored, push_stored, push_unstored}
use uh_core.Dedup.Flush.Content.{payloads, AllHaveData, AllHaveData-append, IsReady}
use uh_core.Dedup.Ready.{push_stored-IsReady, push_unstored-IsReady}
use uh_core.Dedup.Marked.{unstored_bytes_le}
use uh_core.Dedup.Search.{Response, SearchConfig, search}
use uh_core.Dedup.Search.Match.{IsCandidate, match_size-IsMatch, chosen_lem}

take-drop : (n : ℕ) (xs : List ℕ) → take n xs ++ drop n xs ≡ xs
take-drop zero xs = refl
take-drop (suc n) [] = refl
take-drop (suc n) (x ∷ xs) = ap (◌∷◌ x) (take-drop n xs)

module _ {H : Type 0} where
  -- The sizes of fragments: a stored one is longer than `min_fragment_size` and refers to as many
  -- bytes as it stands for, a new one has 1 to `max_fragment_size` bytes.
  abbrev pub AllWithin : SearchConfig → List (DdFragment H) → Type 0
  AllWithin config [] = Unit {0}
  AllWithin config (f ∷ fs) =
      (if is_stored f.type
        then (config.min_fragment_size < length f.payload) × (f.stored_size ≡ length f.payload)
        else (0 < length f.payload) × (length f.payload ≤ config.max_fragment_size))
      × AllWithin config fs

  AllWithin-append :
      (config : SearchConfig) (xs ys : List (DdFragment H))
      → AllWithin config xs
      → AllWithin config ys
      → AllWithin config (xs ++ ys)
  AllWithin-append config [] ys h k = k
  AllWithin-append config (x ∷ xs) ys h k = (h.0, AllWithin-append config xs ys h.1 k)

  stored_within :
      (config : SearchConfig) (fr : Fragmentation H) (p n : ℕ) (bytes : List ℕ) (header : Bool)
      → n ≡ length bytes
      → config.min_fragment_size < n
      → AllWithin config fr.frags
      → AllWithin config (push_stored fr p n bytes header).frags
  unfolding push_stored
  stored_within config fr p n [] header e pos h = h
  stored_within config fr p n (b ∷ bs) header e pos h =
      AllWithin-append config fr.frags _ h ((omega arith, e), tt)

  unstored_within :
      (config : SearchConfig) (fr : Fragmentation H) (bytes : List ℕ) (header : Bool)
      (hint : Option H)
      → 0 < length bytes
      → length bytes ≤ config.max_fragment_size
      → AllWithin config fr.frags
      → AllWithin config (push_unstored fr bytes header hint).frags
  unfolding push_unstored
  unstored_within config fr bytes header hint pos short h =
      AllWithin-append config fr.frags _ h ((pos, short), tt)

  stored_effective :
      (fr : Fragmentation H) (p n : ℕ) (bytes : List ℕ) (header : Bool)
      → (push_stored fr p n bytes header).effective_size ≡ fr.effective_size
  unfolding push_stored
  stored_effective fr p n [] header = refl
  stored_effective fr p n (b ∷ bs) header = refl

  unstored_effective :
      (fr : Fragmentation H) (bytes : List ℕ) (header : Bool) (hint : Option H)
      → (push_unstored fr bytes header hint).effective_size < word
  unfolding push_unstored
  unstored_effective fr bytes header hint = add64-lt fr.effective_size (length bytes)

  stored_full :
      (fr : Fragmentation H) (p n : ℕ) (bytes : List ℕ) (header : Bool)
      → AllHaveData fr.frags
      → AllHaveData (push_stored fr p n bytes header).frags
  unfolding push_stored
  stored_full fr p n [] header h = h
  stored_full fr p n (b ∷ bs) header h = AllHaveData-append fr.frags _ h (omega arith, tt)

  unstored_full :
      (fr : Fragmentation H) (bytes : List ℕ) (header : Bool) (hint : Option H)
      → 0 < length bytes
      → AllHaveData fr.frags
      → AllHaveData (push_unstored fr bytes header hint).frags
  unfolding push_unstored
  unstored_full fr bytes header hint pos h = AllHaveData-append fr.frags _ h (pos, tt)

  module _ (content : ℕ → ℕ) (config : SearchConfig) where
    -- What an upload has become after `bytes` were added to it.
    pub record IsExtended (fr : Fragmentation H) (bytes : List ℕ) (fr' : Fragmentation H)
        : Type 0 where
      pub ready : IsReady content fr'
      pub full : AllHaveData fr.frags → AllHaveData fr'.frags
      pub added : payloads fr'.frags ≡ payloads fr.frags ++ bytes
      pub within : AllWithin config fr.frags → AllWithin config fr'.frags
      pub effective : fr.effective_size < word → fr'.effective_size < word

    push_stored-IsExtended :
        (fr : Fragmentation H) (bytes : List ℕ) (p n : ℕ) (header : Bool)
        → IsReady content fr
        → config.min_fragment_size < n
        → n ≤ length bytes
        → take n bytes ≡ map content (span p n)
        → IsExtended fr (take n bytes) (push_stored fr p n (take n bytes) header)
    push_stored-IsExtended fr bytes p n header r good inside held =
        let exact : n ≡ length (take n bytes) = omega (arith, length-take n bytes) in
        let pushed = push_stored-IsReady content fr p n (take n bytes) header r (sym held) in
        record {
          ready = pushed.0;
          full = stored_full fr p n (take n bytes) header;
          added = pushed.1;
          within = stored_within config fr p n (take n bytes) header exact good;
          effective = λ h. rw (stored_effective fr p n (take n bytes) header) h;
        }

    push_unstored-IsExtended :
        (fr : Fragmentation H) (bytes : List ℕ) (n : ℕ) (header : Bool) (hint : Option H)
        → IsReady content fr
        → 0 < n
        → n ≤ length bytes
        → n ≤ config.max_fragment_size
        → length (payloads fr.frags) + length bytes < word
        → IsExtended fr (take n bytes) (push_unstored fr (take n bytes) header hint)
    push_unstored-IsExtended fr bytes n header hint r pos inside short w =
        let taken = length-take n bytes in
        let pushed =
          push_unstored-IsReady content fr (take n bytes) header hint r
            (omega (arith, r.counted, unstored_bytes_le fr.frags)) in
        record {
          ready = pushed.0;
          full = unstored_full fr (take n bytes) header hint (omega arith);
          added = pushed.1;
          within = unstored_within config fr (take n bytes) header hint (omega arith) (omega arith);
          effective = λ h. unstored_effective fr (take n bytes) header hint;
        }

    -- Two extensions, of the two parts of the data.
    extend :
        (fr mid last : Fragmentation H) (n : ℕ) (bytes : List ℕ)
        → IsExtended fr (take n bytes) mid
        → IsExtended mid (drop n bytes) last
        → IsExtended fr bytes last
    extend fr mid last n bytes a b = record {
      ready = b.ready;
      full = λ h. b.full (a.full h);
      within = λ h. b.within (a.within h);
      effective = λ h. b.effective (a.effective h);
      added =
          b.added
          ∙ ap (λ x. x ++ drop n bytes) a.added
          ∙ append_assoc (payloads fr.frags) (take n bytes) (drop n bytes)
          ∙ ap (λ x. payloads fr.frags ++ x) (take-drop n bytes);
    }

    -- The room that is left after the first part.
    room :
        (fr mid : Fragmentation H) (n : ℕ) (bytes : List ℕ)
        → IsExtended fr (take n bytes) mid
        → length (payloads fr.frags) + length bytes < word
        → length (payloads mid.frags) + length (drop n bytes) < word
    room fr mid n bytes a w = omega (
      arith,
      ap length a.added,
      length-append (payloads fr.frags) (take n bytes),
      length-take n bytes,
      length-drop n bytes,
    )

    -- What the code relies on, of the fragment set: the neighbours that it finds are held in storage.
    module _ {S : Type 0} (find : S → List ℕ → S × Response H) (read : ℕ → ℕ → Result (List ℕ))
        (progress : 0 < config.max_fragment_size)
        (consistent : (s : S) (bytes : List ℕ)
          → IsCandidate content read (find s bytes).1.low
            × IsCandidate content read (find s bytes).1.high) where
      -- The search succeeds on fuel for one round a byte, whatever the set finds among what storage
      -- holds, and adds all data to the upload, which stays ready and whose fragments stay with
      -- data. Where that held before, every fragment is more than `min_fragment_size` bytes that
      -- storage holds, or 1 to `max_fragment_size` bytes of new data, and the effective size is
      -- below 2^64. `max_fragment_size` is positive and the data of the upload stays below 2^64
      -- bytes.
      pub search-IsExtended :
          (k : ℕ) (s : S) (fr : Fragmentation H) (offset : ℕ) (bytes : List ℕ)
          → length bytes ≤ k
          → IsReady content fr
          → length (payloads fr.frags) + length bytes < word
          → (s' : S) × (fr' : Fragmentation H) × (search config find read k s fr offset bytes
              ≡ some (ok (s', fr')))
            × IsExtended fr bytes fr'
      unfolding search
      search-IsExtended k s fr offset [] fuel r w = (
        s,
        fr,
        refl,
        record {
          ready = r;
          full = λ h. h;
          added = sym (append-nil (payloads fr.frags));
          within = λ h. h;
          effective = λ h. h;
        },
      )
      search-IsExtended zero s fr offset (b ∷ bs) fuel r w = absurd (omega arith)
      search-IsExtended (suc k) s fr offset (b ∷ bs) fuel r w =
          let all = b ∷ bs in
          let found = find s all in
          let near = consistent s all in
          let (ml, low, is_low) =
            match_size-IsMatch content read all found.1.low (omega arith) near.0 in
          let (mh, high, is_high) =
            match_size-IsMatch content read all found.1.high (omega arith) near.1 in
          let n = max ml mh in
          let header = offset == 0 in
          elim (Bool-cases (ltb config.min_fragment_size n)) [
            | inl good ↦
                let pos : 0 < n = omega (arith, ltb→lt config.min_fragment_size n good) in
                let (f, prefix, chosen, match) =
                  chosen_lem content read all found.1.low found.1.high ml mh is_low is_high pos in
                let mid = push_stored fr f.pointer n (take n all) header in
                let step =
                  push_stored-IsExtended fr all f.pointer n header r
                    (ltb→lt config.min_fragment_size n good) match.0 match.1 in
                let (s', fr', run, rest) =
                  search-IsExtended k found.0 mid (add64 offset n) (drop n all)
                    (omega (arith, length-drop n all)) step.ready (room fr mid n all step w) in
                (s', fr', rw (low, high, good, chosen, run), extend fr mid fr' n all step rest)
            | inr short ↦
                let t = min (length all) config.max_fragment_size in
                let mid = push_unstored fr (take t all) header found.1.hint in
                let step =
                  push_unstored-IsExtended fr all t header found.1.hint r (omega arith)
                    (omega arith) (omega arith) w in
                let (s', fr', run, rest) =
                  search-IsExtended k found.0 mid (add64 offset t) (drop t all)
                    (omega (arith, length-drop t all)) step.ready (room fr mid t all step w) in
                (s', fr', rw (low, high, short, run), extend fr mid fr' t all step rest)
          ]
