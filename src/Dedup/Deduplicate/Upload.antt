-- ===== src/Dedup/Deduplicate/Upload.antt =====
-- `deduplicate` of `src/deduplicator/interfaces/local_deduplicator.cpp`: the response, against the
-- data of the request.
use uh_core.Base.{
  ℕ, ◌≤◌, ◌<◌, ◌≡◌, refl, ap, sym, ◌∙◌, Bool, ◌++◌, ◌⊎◌, true, inl, inr, Option, some, List, [],
  ◌∷◌, map, arith, ◌==◌, if◌then◌else◌, Bool-cases, length, length-map, word,
}
use uh_core.Base.Result.{and_then, Result, Failure, ok, throws}
use uh_core.Types.Fragment.{Fragment}
use uh_core.Types.Address.{Address, empty_address, is_empty, is_empty_lem}
use uh_core.Types.Address.Bytes.{bytes}
use uh_core.Dedup.Set.{FragmentSet}
use uh_core.Dedup.Fragmentation.{
  Fragmentation, new_fragmentation, make_address, get_stored_fragments,
}
use uh_core.Dedup.Flush.{flush_storage}
use uh_core.Dedup.Flush.Place.{unstored_bytes}
use uh_core.Dedup.Flush.Content.{payloads, AllHaveData, IsReady}
use uh_core.Dedup.Flush.Outcome.{
  IsFlushed, flush_nothing, flush_storage_state, flush_storage-IsFlushed, make_address_content,
}
use uh_core.Dedup.Ready.{new-IsReady}
use uh_core.Dedup.Reject.{flush_fragment_set, handle_rejected_fragments}
use uh_core.Dedup.Marked.{marked, AllHaveData-marked, AllStored-marked}
use uh_core.Dedup.Rejected.{handle_rejected_fragments-IsHandled}
use uh_core.Dedup.Deduplicate.Service.{
  IsService, AllBytes, AllLinked, AllHeld, AllStored-AllHeld, AllKept-AllLinked, marked_nothing,
}
use uh_core.Dedup.Flush.Buffer.{offsets_from}
use uh_core.Storage.RrDataView.Rejected.{keep}
use uh_core.Dedup.Search.{Response, SearchConfig, search}
use uh_core.Dedup.Search.Match.{IsCandidate}
use uh_core.Dedup.Search.Content.{search-IsExtended}
use uh_core.Dedup.Deduplicate.{DedupeResponse, store_upload, after_link, deduplicate}
use uh_core.Dedup.Deduplicate.Flushes.{placed_flushes, set_flushes}

module _ (set : FragmentSet) where
  module _ {G : Type 0} (link : G → Address → G × Result Address)
      (write : G → List ℕ → List ℕ → G × Result Address) (blank : ℕ → List ℕ)
      (content : G → ℕ → ℕ) where
    -- The state in which a request finds the service, and the states that a `link` leads to.
    abbrev pub IsNext : G → G → Type 0
    IsNext start g = (g ≡ start) ⊎ ((a : Address) × (g ≡ (link start a).0))

    -- Where an exception comes from: the storage service threw it, from a `link` in the state in which
    -- the request found it, or from a write in that state or after a `link`.
    abbrev pub IsServiceFailure : G → Failure → Type 0
    IsServiceFailure start e =
        ((a : Address) × ((link start a).1 ≡ throws e))
        ⊎ ((g : G) × (b os : List ℕ) × IsNext start g × ((write g b os).1 ≡ throws e))

    -- What a request for `all` ends in: a failure of the storage service, or a response whose address
    -- reads as `all` in the state that the service is left in.
    abbrev pub IsAnswer : G → List ℕ → G × Option (Result (set.Set × DedupeResponse)) → Type 0
    IsAnswer start all ended =
        ((e : Failure) × (ended.1 ≡ some (throws e)) × IsServiceFailure start e)
        ⊎ ((s : set.Set) × (response : DedupeResponse) × (ended.1 ≡ some (ok (s, response)))
            × (map (content ended.0) (bytes response.addr) ≡ all))

    module _ (start : G) (blank_length : (n : ℕ) → length (blank n) ≡ n) (Held : G → ℕ → Type 0)
        (service : IsService link write content Held) where
      store_runs :
          (g : G) (s t : set.Set) (fr done fr' : Fragmentation set.Hint)
          → (flush_storage write blank g fr).1 ≡ some (ok done)
          → flush_fragment_set set done s ≡ some (fr', t)
          → (store_upload set link write blank g s fr).1
            ≡ some (ok (t, record { effective_size = fr'.effective_size; addr = make_address fr' }))
      unfolding store_upload
      store_runs g s t fr done fr' sent run = rw (sent, and_then, run)

      store_state :
          (g : G) (s : set.Set) (fr : Fragmentation set.Hint)
          → (store_upload set link write blank g s fr).0 ≡ (flush_storage write blank g fr).0
      unfolding store_upload
      store_state g s fr = refl

      -- A flush that has gone well is followed by a response, in a state `g'` of the service.
      answers :
          (g g' : G) (s : set.Set) (fr done : Fragmentation set.Hint)
          → (store_upload set link write blank g s fr).0 ≡ g'
          → IsReady (content g') fr
          → AllHaveData fr.frags
          → IsFlushed (content g') write blank blank_length g fr done
          → IsAnswer start (payloads fr.frags) (store_upload set link write blank g s fr)
      answers g g' s fr done state r full f =
          let count = ap length f.held in
          let enough : length (unstored_bytes fr.frags) ≤ length f.taken =
            omega (arith, length-map (content g') f.taken) in
          let (s', flushed) =
            placed_flushes set f.taken fr.frags done.frags s f.placed full enough in
          let (fr', t, run, same) = set_flushes set done s s' flushed in
          let reads : map (content g') (bytes (make_address fr')) ≡ payloads fr.frags =
            ap (λ a. map (content g') (bytes a)) same
            ∙ make_address_content (content g') write blank blank_length g fr done r f in
          inr (
            t,
            record { effective_size = fr'.effective_size; addr = make_address fr' },
            store_runs g s t fr done fr' f.runs run,
            ap (λ (h : G). map (content h) (bytes (make_address fr'))) state ∙ reads,
          )

      store_upload-IsAnswer :
          (g : G) (s : set.Set) (fr : Fragmentation set.Hint)
          → IsReady (content g) fr
          → AllHeld (Held g) fr.frags
          → IsNext start g
          → AllHaveData fr.frags
          → IsAnswer start (payloads fr.frags) (store_upload set link write blank g s fr)
      store_upload-IsAnswer g s fr r held next full = elim (Bool-cases (fr.unstored_size == 0)) [
        | inl none_left ↦
            answers g g s fr fr (store_state g s fr ∙ (unfold flush_storage in rw none_left refl)) r
              full (flush_nothing (content g) write blank blank_length g fr r none_left)
        | inr some_left ↦
            let b = unstored_bytes fr.frags in
            let os = fr.offsets ++ offsets_from 0 fr.frags in
            let g' = (write g b os).0 in
            let state =
              store_state g s fr
              ∙ flush_storage_state (content g) write blank blank_length g fr r some_left in
            let r' : IsReady (content g') fr = record {
              counted = r.counted;
              small = r.small;
              fresh = r.fresh;
              held =
                  AllStored-AllHeld (Held g) (content g) (content g') fr.frags
                    (service.untouched g b os) held r.held;
            } in
            elim (flush_storage-IsFlushed (content g') write blank blank_length g fr r'
              (service.written g b os)) [
                | inl (e, failed, run) ↦
                    inl (e, store_fails g s fr e run, inr (g, b, os, next, failed))
                | inr (done, f) ↦ answers g g' s fr done state r' full f
              ]
      ]
        where
          store_fails :
              (g : G) (s : set.Set) (fr : Fragmentation set.Hint) (e : Failure)
              → (flush_storage write blank g fr).1 ≡ some (throws e)
              → (store_upload set link write blank g s fr).1 ≡ some (throws e)
          store_fails g s fr e run = unfold store_upload in rw run refl

      -- What a `link` of the stored fragments of an upload has led to: from the storage `before`.
      abbrev IsLinked : (ℕ → ℕ) → Fragmentation set.Hint → G → Address → Type 0
      IsLinked before fr g rejected =
          (hit : Fragment → Bool) × (rejected.fragments
            ≡ keep hit (get_stored_fragments fr).fragments)
          × AllLinked hit (AllBytes (λ p. Held g p × (content g p ≡ before p)))
              (get_stored_fragments fr).fragments

      rejected-IsAnswer :
          (before : ℕ → ℕ) (s : set.Set) (fr : Fragmentation set.Hint) (g : G) (rejected : Address)
          → IsReady before fr
          → AllHaveData fr.frags
          → fr.effective_size < word
          → length (payloads fr.frags) < word
          → IsLinked before fr g rejected
          → IsNext start g
          → IsAnswer start
              (payloads fr.frags)
              (after_link set link write blank s fr (g, ok rejected))
      unfolding after_link get_stored_fragments
      rejected-IsAnswer before s fr g rejected r full small w (hit, shape, safe) next =
          let (kept, held) =
            AllKept-AllLinked (Held g) before (content g) hit fr.frags safe r.held in
          let out = handle_rejected_fragments set rejected fr s in
          let done =
            handle_rejected_fragments-IsHandled set before (content g) hit rejected fr s r kept
              shape small w in
          elim (Bool-cases (is_empty rejected)) [
            | inl none_rejected ↦
                let empty : rejected.fragments ≡ [] = is_empty_lem rejected none_rejected in
                let same : marked hit fr.frags ≡ fr.frags =
                  marked_nothing hit fr.frags (sym shape ∙ empty) in
                let ready : IsReady (content g) fr = record {
                  counted = r.counted;
                  small = r.small;
                  fresh = r.fresh;
                  held = rw (sym same) (AllStored-marked (content g) hit fr.frags kept);
                } in
                rw none_rejected (store_upload-IsAnswer g s fr ready (rw same at held) next full)
            | inr some_rejected ↦
                let answer =
                  store_upload-IsAnswer g out.1 out.0 done.ready (rw done.frags held) next
                    (rw done.frags (AllHaveData-marked hit fr.frags full)) in
                rw some_rejected (rw done.same at answer)
          ]

      linked-IsAnswer :
          (s : set.Set) (fr : Fragmentation set.Hint)
          → IsReady (content start) fr
          → AllHaveData fr.frags
          → fr.effective_size < word
          → length (payloads fr.frags) < word
          → (o : G × Result Address) → link start (get_stored_fragments fr) ≡ o
          → IsAnswer start (payloads fr.frags) (after_link set link write blank s fr o)
      unfolding after_link
      linked-IsAnswer s fr r full small w (g', throws e) run =
          inl (e, refl, inl (get_stored_fragments fr, ap (λ x. x.1) run))
      linked-IsAnswer s fr r full small w (g', ok rejected) run =
          let promise =
            service.linked start (get_stored_fragments fr) rejected (ap (λ x. x.1) run) in
          rejected-IsAnswer (content start) s fr g' rejected r full small w (rw run at promise)
            (inr (get_stored_fragments fr, ap (λ x. x.0) (sym run)))

      after_link-IsAnswer :
          (s : set.Set) (fr : Fragmentation set.Hint)
          → IsReady (content start) fr
          → AllHaveData fr.frags
          → fr.effective_size < word
          → length (payloads fr.frags) < word
          → IsAnswer start (payloads fr.frags) (
              after_link set link write blank s fr (
                if is_empty (get_stored_fragments fr)
                then (start, ok empty_address)
                else link start (get_stored_fragments fr)))
      after_link-IsAnswer s fr r full small w =
          elim (Bool-cases (is_empty (get_stored_fragments fr))) [
            | inl nothing ↦ rw nothing (
                rejected-IsAnswer (content start) s fr start empty_address r full small w
                  (unlinked fr start nothing) (inl refl))
            | inr some_known ↦
                rw some_known
                  (linked-IsAnswer s fr r full small w (link start (get_stored_fragments fr)) refl)
          ]
        where
          nothing_hit : (P : Fragment → Type 0) (fs : List Fragment) → AllLinked (λ f. true) P fs
          nothing_hit P [] = tt
          nothing_hit P (f ∷ fs) = (λ e. absurd (ground arith), nothing_hit P fs)

          unlinked :
              (fr : Fragmentation set.Hint) (g : G)
              → is_empty (get_stored_fragments fr) ≡ true
              → IsLinked (content g) fr g empty_address
          unlinked fr g nothing = (
            λ f. true,
            sym (ap (keep λ f. true) (is_empty_lem (get_stored_fragments fr) nothing)),
            nothing_hit _ (get_stored_fragments fr).fragments,
          )

      deduplicate_runs :
          (config : SearchConfig) (find : set.Set → List ℕ → set.Set × Response set.Hint)
          (read : ℕ → ℕ → Result (List ℕ)) (g : G) (s s' : set.Set) (all : List ℕ)
          (fr : Fragmentation set.Hint)
          → search config find read (length all) s new_fragmentation 0 all ≡ some (ok (s', fr))
          → deduplicate set link write blank config find read g s all
            ≡ after_link set link write blank s' fr (
                if is_empty (get_stored_fragments fr)
                then (g, ok empty_address)
                else link g (get_stored_fragments fr))
      unfolding deduplicate
      deduplicate_runs config find read g s s' all fr run = rw (run, deduplicate)

      -- The whole of `deduplicate`, over a storage service that keeps its promises in every state: a
      -- write throws, or the service holds what was written and what is referenced afterwards, and a
      -- `link` references the fragments that it does not give back, as they are. Where the fragment
      -- set yields what storage holds at the start, a request of less than 2^64 bytes ends. It fails
      -- only with an exception that the service threw from a `link` at the start, or from a write at
      -- the start or after a `link`; else the address in the response reads as the data of the request
      -- in the state that the service is left in. The service may reject what it will and lose what it
      -- has rejected; `max_fragment_size` is positive.
      pub deduplicate-IsAnswer :
          (config : SearchConfig) (find : set.Set → List ℕ → set.Set × Response set.Hint)
          (read : ℕ → ℕ → Result (List ℕ)) (s : set.Set) (all : List ℕ)
          → 0 < config.max_fragment_size
          → ((t : set.Set) (part : List ℕ)
              → IsCandidate (content start) read (find t part).1.low
                × IsCandidate (content start) read (find t part).1.high)
          → length all < word
          → IsAnswer start all (deduplicate set link write blank config find read start s all)
      deduplicate-IsAnswer config find read s all progress consistent w =
          let (s', fr, run, e) =
            search-IsExtended (content start) config find read progress consistent (length all) s
              new_fragmentation 0 all (omega arith) (new-IsReady (content start)) (omega arith) in
          let small : length (payloads fr.frags) < word = omega (arith, ap length e.added) in
          let answer =
            after_link-IsAnswer s' fr e.ready (e.full tt) (e.effective (omega arith)) small in
          rw (deduplicate_runs config find read start s s' all fr run) (rw e.added at answer)
