-- ===== src/Strings/Split.antt =====
-- `split` and `join` of `src/common/utils/strings.h`.
use uh_core.Base.{
  ℕ, ◌≡◌, ◌≢◌, refl, ap, ap₂, sym, ◌∙◌, Bool, true, false, inl, inr, List, [], ◌∷◌, ◌++◌,
  append-nil, arith, ◌==◌, ==_iff, if◌then◌else◌, Bool-cases,
}
use uh_core.Strings.{add_front, split_from, split, join_rest, join}

-- Whether a character occurs.
abbrev pub occurs : ℕ → List ℕ → Bool
occurs d [] = false
occurs d (c ∷ cs) = if c == d then true else occurs d cs

abbrev pub AllAvoid : ℕ → List (List ℕ) → Type 0
AllAvoid d [] = Unit {0}
AllAvoid d (p ∷ ps) = (occurs d p ≡ false) × AllAvoid d ps

join-add_front :
    (d c : ℕ) (ps : List (List ℕ)) → join (d ∷ []) (add_front c ps) ≡ c ∷ join (d ∷ []) ps
unfolding join
join-add_front d c [] = refl
join-add_front d c (p ∷ ps) = refl

-- An empty piece in front of others.
join-empty_first :
    (d : ℕ) (cs : List ℕ)
    → join (d ∷ []) ([] ∷ split_from d cs) ≡ d ∷ join (d ∷ []) (split_from d cs)
unfolding join split_from
join-empty_first d [] = refl
join-empty_first d (c ∷ cs) = elim (Bool-cases (c == d)) [
  | inl here ↦ rw here refl
  | inr other ↦ rw other (front c (split_from d cs))
]
  where
    front :
        (c : ℕ) (ps : List (List ℕ))
        → join (d ∷ []) ([] ∷ add_front c ps) ≡ d ∷ join (d ∷ []) (add_front c ps)
    front c [] = refl
    front c (p ∷ ps) = refl

join-split_from : (d : ℕ) (cs : List ℕ) → join (d ∷ []) (split_from d cs) ≡ cs
unfolding split_from
join-split_from d [] = unfold join in refl
join-split_from d (c ∷ cs) = elim (Bool-cases (c == d)) [
  | inl here ↦
      rw here (join-empty_first d cs ∙ ap₂ ◌∷◌ (sym ((==_iff c d).0 here)) (join-split_from d cs))
  | inr other ↦ rw other (join-add_front d c (split_from d cs) ∙ ap (◌∷◌ c) (join-split_from d cs))
]

-- Splitting a text at a delimiter and joining the pieces with it gives the text back.
pub join-split : (d : ℕ) (cs : List ℕ) → join (d ∷ []) (split d cs) ≡ cs
unfolding split
join-split d [] = unfold join in refl
join-split d (c ∷ cs) = join-split_from d (c ∷ cs)

-- A piece without the delimiter, alone or in front of the delimiter.
split_from-alone : (d : ℕ) (p : List ℕ) → occurs d p ≡ false → split_from d p ≡ p ∷ []
unfolding split_from
split_from-alone d [] h = refl
split_from-alone d (c ∷ cs) h = elim (Bool-cases (c == d)) [
  | inl here ↦ absurd (ground arith)
  | inr other ↦ rw (other, split_from-alone d cs (rw other at h))
]

split_from-front :
    (d : ℕ) (p rest : List ℕ)
    → occurs d p ≡ false
    → split_from d (p ++ d ∷ rest) ≡ p ∷ split_from d rest
unfolding split_from
split_from-front d [] rest h = let same : (d == d) ≡ true = ground arith in rw same
split_from-front d (c ∷ cs) rest h = elim (Bool-cases (c == d)) [
  | inl here ↦ absurd (ground arith)
  | inr other ↦ rw (other, split_from-front d cs rest (rw other at h))
]

split_from-join :
    (d : ℕ) (p : List ℕ) (ps : List (List ℕ))
    → occurs d p ≡ false
    → AllAvoid d ps
    → split_from d (p ++ join_rest (d ∷ []) ps) ≡ p ∷ ps
unfolding join_rest
split_from-join d p [] h k = rw append-nil (split_from-alone d p h)
split_from-join d p (q ∷ ps) h k =
    split_from-front d p (q ++ join_rest (d ∷ []) ps) h
    ∙ ap (◌∷◌ p) (split_from-join d q ps k.0 k.1)

-- Joining pieces that do not hold the delimiter and splitting the text gives the pieces back: for
-- one piece at least, and not for a single empty one, which `split` takes for no piece.
pub split-join :
    (d : ℕ) (p : List ℕ) (ps : List (List ℕ))
    → AllAvoid d (p ∷ ps)
    → (p ∷ ps) ≢ [] ∷ []
    → split d (join (d ∷ []) (p ∷ ps)) ≡ p ∷ ps
unfolding split join join_rest
split-join d [] [] h some_text = absurd (some_text refl)
split-join d [] (q ∷ ps) h some_text = split_from-join d [] (q ∷ ps) h.0 h.1
split-join d (c ∷ cs) ps h some_text = split_from-join d (c ∷ cs) ps h.0 h.1
