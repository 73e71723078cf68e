-- ===== src/Storage/EcDataView/Pieces.antt =====
-- `split_fragment` of `src/storage/group/ec_data_view.cpp`: the pieces
-- stand for the same bytes, none is empty unless the fragment is, and none goes on into a second chunk.
use native.Mathlib.Nat.{div-le_self, div-mul-le_self, lt-div-mul-add}
use uh_core.Base.{
  ℕ, zero, suc, ◌+◌, ◌-◌, ◌*◌, ◌/◌, ◌%◌, ◌^◌, ◌≤◌, ◌<◌, min, ◌≡◌, refl, ap, sym, ◌∙◌, inl, inr,
  some, List, [], ◌∷◌, ◌++◌, arith, ltb, lt→ltb, le→not-ltb, Bool-cases, wide, word, add128, sub128,
  add128_exact, sub128_exact,
}
use uh_core.Types.Fragment.{Fragment, span, span-append}
use uh_core.Types.Address.Bytes.{list_bytes}
use uh_core.Storage.EcDataView.{align_up_next, consed, split_rest, split_fragment}

module _ (chunk : ℕ) where
  -- Within one chunk.
  abbrev pub IsInside : Fragment → Type 0
  IsInside f = (q : ℕ) × (q * chunk ≤ f.pointer) × (f.pointer + f.size ≤ (q + 1) * chunk)

  abbrev pub AllInside : List Fragment → Type 0
  AllInside [] = Unit {0}
  AllInside (f ∷ fs) = IsInside f × AllInside fs

  -- Every fragment ends a chunk below the top of the pointer space.
  abbrev pub AllRoom : List Fragment → Type 0
  AllRoom [] = Unit {0}
  AllRoom (f ∷ fs) = (f.pointer + f.size + chunk < wide) × AllRoom fs

  abbrev pub AllUpTo : ℕ → List Fragment → Type 0
  AllUpTo end [] = Unit {0}
  AllUpTo end (f ∷ fs) = (f.pointer + f.size ≤ end) × AllUpTo end fs

  abbrev pub AllFilled : List Fragment → Type 0
  AllFilled [] = Unit {0}
  AllFilled (f ∷ fs) = (0 < f.size) × AllFilled fs

  -- What the loop yields from `current` on.
  abbrev pub IsSplit : ℕ → ℕ → List Fragment → Type 0
  IsSplit current end fs =
      (list_bytes fs ≡ span current (end - current)) × AllInside fs × AllUpTo end fs

module _ (chunk : ℕ) (some_chunk : 0 < chunk) where
  split_rest-done : (fuel end : ℕ) → 0 < fuel → split_rest chunk fuel end end ≡ some []
  unfolding split_rest
  split_rest-done zero end h = absurd (omega arith)
  split_rest-done (suc fuel) end h = rw (le→not-ltb end end (omega arith)) refl

  -- One round, up to `next`.
  split_rest-round :
      (fuel current end next : ℕ)
      → current < end
      → next ≡ min (current + chunk) end
      → end + chunk < wide
      → chunk < word
      → split_rest chunk (suc fuel) current end
        ≡ consed
            (record { pointer = current; size = next - current })
            (split_rest chunk fuel next end)
  unfolding split_rest
  split_rest-round fuel current end next more e fits small =
      let reach = add128_exact current chunk (omega arith) in
      let size : sub128 (min (add128 current chunk) end) current ≡ next - current = rw reach (
        sub128_exact (min (current + chunk) end) current (omega arith) (omega arith)
        ∙ omega arith) in
      let cast : (next - current) % 2 ^ 64 ≡ next - current = omega arith in
      let forth : add128 current (next - current) ≡ next =
        add128_exact current (next - current) (omega arith) ∙ omega arith in
      rw (lt→ltb current end more, size, cast, forth) refl

  -- A piece up to `next` in front of those from there on.
  IsSplit-cons :
      (q current next end : ℕ) (fs : List Fragment)
      → q * chunk ≤ current
      → next ≤ (q + 1) * chunk
      → current ≤ next
      → next ≤ end
      → IsSplit chunk next end fs
      → IsSplit chunk current end (record { pointer = current; size = next - current } ∷ fs)
  IsSplit-cons q current next end fs low high h k (covers, inside, up) =
      let sum : current + (next - current) ≡ next = omega arith in
      let whole : next - current + (end - next) ≡ end - current = omega arith in
      (
        ap (◌++◌ (span current (next - current)))
              (covers ∙ ap (λ (p : ℕ). span p (end - next)) (sym sum))
            ∙ span-append current (next - current) (end - next)
            ∙ ap (span current) whole,
        ((q, low, rw sum high), inside),
        (rw sum k, up),
      )

  IsSplit-nil : (end : ℕ) → IsSplit chunk end end []
  IsSplit-nil end = let none_left : end - end ≡ 0 = omega arith in (rw none_left refl, tt, tt)

  split_rest-IsSplit :
      (fuel q current end : ℕ)
      → current ≡ q * chunk
      → current ≤ end
      → end < current + fuel
      → end + chunk < wide
      → chunk < word
      → (fs : List Fragment) × (split_rest chunk fuel current end ≡ some fs)
        × IsSplit chunk current end fs
        × AllFilled chunk fs
  split_rest-IsSplit zero q current end place order enough fits small = absurd (omega arith)
  split_rest-IsSplit (suc fuel) q current end place order enough fits small =
      elim (Bool-cases (ltb current end)) [
        | inr stop ↦
            let same : current ≡ end = ground arith in
            rw same ([], split_rest-done (suc fuel) end (omega arith), IsSplit-nil end, tt)
        | inl go ↦ elim (Bool-cases (ltb end (current + chunk))) [
          | inl last ↦ (
            record { pointer = current; size = end - current } ∷ [],
            split_rest-round fuel current end end (ground arith) (ground arith) fits small
                ∙ ap (consed _) (split_rest-done fuel end (ground arith)),
            IsSplit-cons q current end end [] (omega (arith, place)) (ground (arith, place)) order
                (omega arith) (IsSplit-nil end),
            (ground arith, tt),
          )
          | inr more ↦
              let next : current + chunk ≡ suc q * chunk = ground (arith, place) in
              let (fs, e, split, filled) =
                split_rest-IsSplit fuel (suc q) (current + chunk) end next (ground arith)
                  (omega arith) fits small in
              (
                record { pointer = current; size = current + chunk - current } ∷ fs,
                split_rest-round fuel current end (current + chunk) (ground arith) (ground arith)
                      fits small
                    ∙ ap (consed _) e,
                IsSplit-cons q current (current + chunk) end fs (omega (arith, place))
                    (omega (arith, place)) (omega arith) (ground arith) split,
                (omega (arith, some_chunk), filled),
              )
        ]
      ]

  align_up_next_exact : (p : ℕ) → p + chunk < wide → align_up_next p chunk ≡ (p / chunk + 1) * chunk
  unfolding align_up_next
  align_up_next_exact p fits =
      let below = div-mul-le_self p chunk in
      let bound : p / chunk + 1 < wide = omega (arith, div-le_self p chunk) in
      rw (add128_exact (p / chunk) 1 bound) (omega (arith, below))

  -- The first piece, up to `next`.
  split_fragment-first :
      (pointer size next : ℕ)
      → next ≡ min ((pointer / chunk + 1) * chunk) (pointer + size)
      → pointer + size + chunk < wide
      → chunk < word
      → split_fragment chunk pointer size
        ≡ consed
            (record { pointer = pointer; size = next - pointer })
            (split_rest chunk (suc size) next (pointer + size))
  unfolding split_fragment
  split_fragment-first pointer size next e fits small =
      let end = add128_exact pointer size (omega arith) in
      let up = align_up_next_exact pointer (omega arith) in
      let low = div-mul-le_self pointer chunk in
      let high = lt-div-mul-add {a = pointer} some_chunk in
      let amount : sub128 (min (align_up_next pointer chunk) (add128 pointer size)) pointer
          ≡ next - pointer =
        rw (end, up)
          (sub128_exact (min ((pointer / chunk + 1) * chunk) (pointer + size)) pointer
              (omega (arith, high)) (omega arith)
            ∙ omega arith) in
      let cast : (next - pointer) % 2 ^ 64 ≡ next - pointer = omega (arith, low) in
      let forth : add128 pointer (next - pointer) ≡ next =
        add128_exact pointer (next - pointer) (omega (arith, high)) ∙ omega (arith, high) in
      rw (amount, cast, forth, end) refl

  pub split_fragment-IsSplit :
      (pointer size : ℕ)
      → pointer + size + chunk < wide
      → chunk < word
      → (fs : List Fragment) × (split_fragment chunk pointer size ≡ some fs)
        × IsSplit chunk pointer (pointer + size) fs
        × (0 < size → AllFilled chunk fs)
  split_fragment-IsSplit pointer size fits small =
      let q = pointer / chunk in
      let low = div-mul-le_self pointer chunk in
      let high = lt-div-mul-add {a = pointer} some_chunk in
      let border : (q + 1) * chunk ≡ q * chunk + chunk = omega arith in
      elim (Bool-cases (ltb (pointer + size) ((q + 1) * chunk))) [
        | inl last ↦ (
          record { pointer = pointer; size = pointer + size - pointer } ∷ [],
          split_fragment-first pointer size (pointer + size) (ground arith) fits small
              ∙ ap (consed _) (split_rest-done (suc size) (pointer + size) (omega arith)),
          IsSplit-cons q pointer (pointer + size) (pointer + size) [] low (ground arith)
              (omega arith) (omega arith) (IsSplit-nil (pointer + size)),
          λ nonempty. (omega (arith, nonempty), tt),
        )
        | inr more ↦
            let next = (q + 1) * chunk in
            let (fs, e, split, filled) =
              split_rest-IsSplit (suc size) (q + 1) next (pointer + size) refl (ground arith)
                (omega (arith, high)) fits small in
            (
              record { pointer = pointer; size = next - pointer } ∷ fs,
              split_fragment-first pointer size next (ground arith) fits small ∙ ap (consed _) e,
              IsSplit-cons q pointer next (pointer + size) fs low (omega arith)
                  (omega (arith, high)) (ground arith) split,
              λ nonempty. (omega (arith, high), filled),
            )
      ]
