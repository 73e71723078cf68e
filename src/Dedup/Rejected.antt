-- ===== src/Dedup/Rejected.antt =====
-- `handle_rejected_fragments` of `src/deduplicator/fragmentation.cpp`: the upload afterwards.
use uh_core.Base.{
  ℕ, zero, suc, ◌+◌, ◌%◌, ◌<◌, ◌≡◌, refl, ap, ap₂, sym, ◌∙◌, Bool, true, false, inl, inr, none,
  some, List, [], ◌∷◌, ◌++◌, arith, Bool-cases, ◌==◌, ==_iff, ◌&&◌, if◌then◌else◌, length, drop,
  length-append, add64, add64_exact, add64_fold, add64-lt, word,
}
use uh_core.Types.Fragment.{Fragment}
use uh_core.Types.Address.{Address}
use uh_core.Storage.RrDataView.Rejected.{keep}
use uh_core.Dedup.Set.{FragmentSet}
use uh_core.Dedup.Fragmentation.{
  DdFragment, Fragmentation, is_stored, stored_from, get_stored_fragments,
}
use uh_core.Dedup.Flush.Place.{unstored_bytes}
use uh_core.Dedup.Flush.Content.{payloads, IsReady}
use uh_core.Dedup.Marked.{
  unstored_bytes_le, is_rejected, rejected_bytes, marked, AllKept, payloads-marked,
  unstored_bytes-marked, AllFresh-marked, AllStored-marked,
}
use uh_core.Dedup.Reject.{
  find_rejected, Rejection, as_unstored, reject_loop, handle_rejected_fragments,
}

-- A fragment that is not rejected is not among those that come back.
not_found :
    (hit : Fragment → Bool) (p n i : ℕ) (gs : List Fragment)
    → hit (record { pointer = p; size = n }) ≡ false
    → find_rejected p n i (keep hit gs) ≡ none
unfolding find_rejected
not_found hit p n i [] miss = refl
not_found hit p n i (g ∷ gs) miss = elim (Bool-cases (hit g)) [
  | inr other ↦ rw other (not_found hit p n i gs miss)
  | inl gone ↦ elim (Bool-cases (g.pointer == p && g.size == n)) [
    | inl same ↦ absurd (
        let q : g.pointer ≡ p = ground arith in
        let m : g.size ≡ n = ground arith in
        let e : hit g ≡ hit (record { pointer = p; size = n }) =
          ap₂ (λ (a b : ℕ). hit (record { pointer = a; size = b })) q m in
        true_false (sym gone ∙ e ∙ miss))
    | inr apart ↦ rw (gone, apart) (not_found hit p n (suc i) gs miss)
  ]
]
  where
    true_false : true ≡ false → ⊥
    true_false e = cc

-- The scan finds what it looks for where it begins.
find_first :
    (p n i : ℕ) (gs : List Fragment)
    → find_rejected p n i (record { pointer = p; size = n } ∷ gs) ≡ some i
unfolding find_rejected
find_first p n i gs =
    let a : (p == p) ≡ true = (==_iff p p).1 refl in
    let b : (n == n) ≡ true = (==_iff n n).1 refl in rw (a, b) refl

drop-suc : (k : ℕ) (xs : List Fragment) → drop (suc k) xs ≡ drop 1 (drop k xs)
drop-suc zero xs = refl
drop-suc (suc k) [] = refl
drop-suc (suc k) (x ∷ xs) = drop-suc k xs

module _ (set : FragmentSet) where
  -- The set without the rejected fragments, erased in order.
  abbrev pub erased : (Fragment → Bool) → List (DdFragment set.Hint) → set.Set → set.Set
  erased hit [] s = s
  erased hit (f ∷ fs) s = erased hit fs (
      if is_rejected hit f
      then set.erase s (record { pointer = f.stored_pointer; size = f.stored_size }) f.header
      else s)

  -- What the loop yields.
  record IsMarked (hit : Fragment → Bool) (fs : List (DdFragment set.Hint)) (e n : ℕ) (s : set.Set)
      (r : Rejection set) : Type 0 where
    frags : r.frags ≡ marked hit fs
    effective : r.effective_size ≡ (e + length (rejected_bytes hit fs)) % word
    regained : r.unstored_size ≡ n + length (rejected_bytes hit fs)
    elements : r.elements ≡ erased hit fs s

  reject_loop-IsMarked :
      (hit : Fragment → Bool) (rejected : List Fragment) (last e n : ℕ) (s : set.Set)
      (fs : List (DdFragment set.Hint))
      → drop last rejected ≡ keep hit (stored_from fs)
      → e < word
      → n + length (rejected_bytes hit fs) < word
      → IsMarked hit fs e n s (reject_loop set rejected last e n s fs)
  unfolding reject_loop stored_from
  reject_loop-IsMarked hit rejected last e n s [] shape small w = record {
    frags = refl;
    effective = omega arith;
    regained = omega arith;
    elements = refl;
  }
  reject_loop-IsMarked hit rejected last e n s (f ∷ fs) shape small w =
      elim (Bool-cases (is_stored f.type)) [
        | inr new ↦
            let r =
              reject_loop-IsMarked hit rejected last e n s fs (rw new at shape) small
                (rw new at w) in
            rw new (record {
              frags = rw new (ap (◌∷◌ f) r.frags);
              effective = rw new r.effective;
              regained = rw new r.regained;
              elements = rw new r.elements;
            })
        | inl known ↦
            let this : Fragment = record { pointer = f.stored_pointer; size = f.stored_size } in
            elim (Bool-cases (hit this)) [
              | inr here ↦
                  let shape' = rw (known, here) at shape in
                  let r =
                    reject_loop-IsMarked hit rejected last e n s fs shape' small
                      (rw (known, here) at w) in
                  let absent : find_rejected f.stored_pointer f.stored_size last
                        (drop last rejected)
                      ≡ none =
                    ap (find_rejected f.stored_pointer f.stored_size last) shape'
                    ∙ not_found hit f.stored_pointer f.stored_size last (stored_from fs) here in
                  rw (known, absent)
                    (record {
                      frags = rw (known, here) (ap (◌∷◌ f) r.frags);
                      effective = rw (known, here) r.effective;
                      regained = rw (known, here) r.regained;
                      elements = rw (known, here) r.elements;
                    })
              | inl gone ↦
                  let len = length f.payload in
                  let shape' : drop last rejected ≡ this ∷ keep hit (stored_from fs) =
                    rw (known, gone) at shape in
                  let all = length-append f.payload (rejected_bytes hit fs) in
                  let w' : n + length (f.payload ++ rejected_bytes hit fs) < word =
                    rw (known, gone) at w in
                  let found : find_rejected f.stored_pointer f.stored_size last (drop last rejected)
                      ≡ some last =
                    ap (find_rejected f.stored_pointer f.stored_size last) shape'
                    ∙ find_first f.stored_pointer f.stored_size last (keep hit (stored_from fs)) in
                  let exact : add64 n len ≡ n + len = add64_exact n len (omega arith) in
                  let next : drop (suc last) rejected ≡ keep hit (stored_from fs) =
                    drop-suc last rejected ∙ ap (drop 1) shape' in
                  let r =
                    reject_loop-IsMarked hit rejected (suc last) (add64 e len) (n + len)
                      (set.erase s this f.header) fs next (add64-lt e len) (omega arith) in
                  rw (known, found, exact)
                    (record {
                      frags = rw (known, gone) (ap (◌∷◌ (as_unstored set f)) r.frags);
                      effective =
                          rw (known, gone)
                            (r.effective
                              ∙ add64_fold e len (length (rejected_bytes hit fs))
                              ∙ ap (λ (k : ℕ). (e + k) % word) (sym all));
                      regained = rw (known, gone) (omega (arith, r.regained, all));
                      elements = rw (known, gone) r.elements;
                    })
            ]
      ]

  -- What `handle_rejected_fragments` makes of an upload and of the fragment set, where `hit` tells
  -- the rejected fragments.
  pub record IsHandled (content : ℕ → ℕ) (hit : Fragment → Bool) (fr : Fragmentation set.Hint)
      (s : set.Set) (out : Fragmentation set.Hint × set.Set) : Type 0 where
    pub frags : out.0.frags ≡ marked hit fr.frags
    pub effective :
        out.0.effective_size ≡ (fr.effective_size + length (rejected_bytes hit fr.frags)) % word
    pub regained : out.0.unstored_size ≡ fr.unstored_size + length (rejected_bytes hit fr.frags)
    pub elements : out.1 ≡ erased hit fr.frags s
    pub ready : IsReady content out.0
    pub same : payloads out.0.frags ≡ payloads fr.frags

  -- Where a `link` gives back those of the stored fragments of an upload that `hit` accepts, in
  -- order, the stored fragments that `hit` accepts are to be stored anew afterwards, every other
  -- fragment is as it was, and exactly they are erased from the fragment set. Their bytes are added
  -- to the unstored and, modulo 2^64, to the effective size, and the data of the upload is the same.
  -- An upload that was ready stays ready, where storage has changed from `before` to `content` and
  -- holds the data of the stored fragments that are not rejected. The effective size and the length
  -- of the data are below 2^64.
  pub handle_rejected_fragments-IsHandled :
      (before content : ℕ → ℕ) (hit : Fragment → Bool) (addr : Address)
      (fr : Fragmentation set.Hint) (s : set.Set)
      → IsReady before fr
      → AllKept content hit fr.frags
      → addr.fragments ≡ keep hit (get_stored_fragments fr).fragments
      → fr.effective_size < word
      → length (payloads fr.frags) < word
      → IsHandled content hit fr s (handle_rejected_fragments set addr fr s)
  unfolding handle_rejected_fragments get_stored_fragments
  handle_rejected_fragments-IsHandled before content hit addr fr s r held shape small w =
      let done = reject_loop set addr.fragments 0 fr.effective_size fr.unstored_size s fr.frags in
      let count = unstored_bytes-marked hit fr.frags in
      let few = unstored_bytes_le (marked hit fr.frags) in
      let kept = payloads-marked hit fr.frags in
      let sum : fr.unstored_size + length (rejected_bytes hit fr.frags) < word =
        omega (arith, r.counted, count, few, ap length kept) in
      let m =
        reject_loop-IsMarked hit addr.fragments 0 fr.effective_size fr.unstored_size s fr.frags
          shape small sum in
      record {
        frags = m.frags;
        effective = m.effective;
        regained = m.regained;
        elements = m.elements;
        ready = record {
          counted =
              omega
                (arith, r.counted, count, m.regained, ap (λ x. length (unstored_bytes x)) m.frags);
          small = omega (arith, m.regained, sum);
          fresh = rw m.frags (AllFresh-marked hit fr.frags r.fresh);
          held = rw m.frags (AllStored-marked content hit fr.frags held);
        };
        same = ap payloads m.frags ∙ kept;
      }
