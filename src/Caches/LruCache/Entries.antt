-- ===== src/Caches/LruCache/Entries.antt =====
-- What a list of nodes of `src/common/caches/lru_cache.h` stands for: the entries, the one that was
-- used last at the end.
use uh_core.Base.{
  ℕ, suc, ◌==◌, ◌≡◌, refl, ap, ap₂, ◌∙◌, ◌⊎◌, inl, inr, Bool-cases, true, false, if◌then◌else◌,
  Option, none, some, List, [], ◌∷◌, ◌++◌, arith, length, ==_iff,
}
use uh_core.Caches.LruCache.{Node, value_at, set_value, splice_last}
use uh_core.Caches.LruCache.Linked.{iterator_of, key_of, name_of, occurs, IsLinked}

module _ {ℓ} {V : Type ℓ} where
  abbrev pub entries : List (Node V) → List (ℕ × V)
  entries [] = []
  entries (n ∷ ns) = (n.key, n.value) ∷ entries ns

  abbrev pub entry : ℕ → List (ℕ × V) → Option V
  entry key [] = none
  entry key ((k, v) ∷ es) = if k == key then some v else entry key es

  -- The entries but for the first of a key.
  abbrev pub without : ℕ → List (ℕ × V) → List (ℕ × V)
  without key [] = []
  without key ((k, v) ∷ es) = if k == key then es else (k, v) ∷ without key es

  pub entries-append : (ms ns : List (Node V)) → entries (ms ++ ns) ≡ entries ms ++ entries ns
  entries-append [] ns = refl
  entries-append (m ∷ ms) ns = ap (◌∷◌ (m.key, m.value)) (entries-append ms ns)

  pub length-entries : (ns : List (Node V)) → length (entries ns) ≡ length ns
  length-entries [] = refl
  length-entries (n ∷ ns) = ap suc (length-entries ns)

  pub iterator_of-occurs :
      (key it : ℕ) (ns : List (Node V)) → iterator_of key ns ≡ some it → occurs name_of it ns ≡ true
  iterator_of-occurs key it [] e = absurd cc
  iterator_of-occurs key it (n ∷ ns) e = elim (Bool-cases (n.key == key)) [
    | inl here ↦
        let same : n.iterator ≡ it = injected n.iterator (rw here at e) in
        let equal : (n.iterator == it) ≡ true = (==_iff n.iterator it).1 same in rw equal refl
    | inr other ↦ let later = iterator_of-occurs key it ns (rw other at e) in ground (arith, later)
  ]
    where
      injected : (i : ℕ) → some i ≡ some it → i ≡ it
      injected i e = cc

  -- The node of a key is the first of the list, or it is a later one, whose iterator is another.
  abbrev Located : Node V → List (Node V) → ℕ → ℕ → Type 0
  Located n ns key it =
      (((n.key == key) ≡ true) × ((n.iterator == it) ≡ true))
      ⊎ (((n.key == key) ≡ false) × ((n.iterator == it) ≡ false) × (iterator_of key ns ≡ some it))

  IsLinked-Located :
      (n : Node V) (ns : List (Node V)) (key it : ℕ)
      → IsLinked (n ∷ ns)
      → iterator_of key (n ∷ ns) ≡ some it
      → Located n ns key it
  IsLinked-Located n ns key it (k, name, linked) e = elim (Bool-cases (n.key == key)) [
    | inl here ↦ inl (here, (==_iff n.iterator it).1 (injected n.iterator (rw here at e)))
    | inr other ↦
        let later : iterator_of key ns ≡ some it = rw other at e in
        let there = iterator_of-occurs key it ns later in
        elim (Bool-cases (n.iterator == it)) [
          | inl same ↦
              let gone : occurs name_of it ns ≡ false =
                rw ((==_iff n.iterator it).0 same) at name in
              absurd (ground (arith, gone, there))
          | inr apart ↦ inr (other, apart, later)
        ]
  ]
    where
      injected : (i : ℕ) → some i ≡ some it → i ≡ it
      injected i e = cc

  module _ (key it : ℕ) where
    pub value_at-entry :
        (ns : List (Node V))
        → IsLinked ns
        → iterator_of key ns ≡ some it
        → value_at it ns ≡ entry key (entries ns)
    value_at-entry [] linked e = refl
    value_at-entry (n ∷ ns) (k, name, linked) e =
        elim (IsLinked-Located n ns key it (k, name, linked) e) [
          | inl (here, same) ↦ rw (here, same) refl
          | inr (other, apart, later) ↦ rw (other, apart) (value_at-entry ns linked later)
        ]

    pub entries-splice_last :
        (ns : List (Node V)) (v : V)
        → IsLinked ns
        → iterator_of key ns ≡ some it
        → entry key (entries ns) ≡ some v
        → entries (splice_last it ns) ≡ without key (entries ns) ++ (key, v) ∷ []
    entries-splice_last [] v linked e there = absurd cc
    entries-splice_last (n ∷ ns) v (k, name, linked) e there =
        elim (IsLinked-Located n ns key it (k, name, linked) e) [
          | inl (here, same) ↦
              let value : n.value ≡ v = injected n.value (rw here at there) in
              rw (here, same)
                (entries-append ns (n ∷ [])
                  ∙ ap₂ (λ (a : ℕ) (b : V). entries ns ++ (a, b) ∷ []) ((==_iff n.key key).0 here)
                      value)
          | inr (other, apart, later) ↦
              rw (other, apart)
                (ap (◌∷◌ (n.key, n.value))
                  (entries-splice_last ns v linked later (rw other at there)))
        ]
      where
        injected : (u : V) → some u ≡ some v → u ≡ v
        injected u e = cc

    pub entry-set_value :
        (ns : List (Node V)) (v : V)
        → IsLinked ns
        → iterator_of key ns ≡ some it
        → entry key (entries (set_value it v ns)) ≡ some v
    entry-set_value [] v linked e = absurd cc
    entry-set_value (n ∷ ns) v (k, name, linked) e =
        elim (IsLinked-Located n ns key it (k, name, linked) e) [
          | inl (here, same) ↦ rw (same, here) refl
          | inr (other, apart, later) ↦ rw (apart, other) (entry-set_value ns v linked later)
        ]

    pub without-set_value :
        (ns : List (Node V)) (v : V)
        → IsLinked ns
        → iterator_of key ns ≡ some it
        → without key (entries (set_value it v ns)) ≡ without key (entries ns)
    without-set_value [] v linked e = refl
    without-set_value (n ∷ ns) v (k, name, linked) e =
        elim (IsLinked-Located n ns key it (k, name, linked) e) [
          | inl (here, same) ↦ rw (same, here) refl
          | inr (other, apart, later) ↦
              rw (apart, other) (ap (◌∷◌ (n.key, n.value)) (without-set_value ns v linked later))
        ]

  pub entry-none :
      (key : ℕ) (ns : List (Node V)) → occurs key_of key ns ≡ false → entry key (entries ns) ≡ none
  entry-none key [] h = refl
  entry-none key (n ∷ ns) h =
      let other : (n.key == key) ≡ false = ground arith in
      let later : occurs key_of key ns ≡ false = ground arith in rw other (entry-none key ns later)

  pub entry-some :
      (key it : ℕ) (ns : List (Node V))
      → iterator_of key ns ≡ some it
      → (v : V) × (entry key (entries ns) ≡ some v)
  entry-some key it [] e = absurd cc
  entry-some key it (n ∷ ns) e = elim (Bool-cases (n.key == key)) [
    | inl here ↦ (n.value, rw here refl)
    | inr other ↦ let (v, f) = entry-some key it ns (rw other at e) in (v, rw other f)
  ]

  value_at-snoc :
      (it : ℕ) (ns : List (Node V)) (n : Node V)
      → occurs name_of it ns ≡ false
      → (n.iterator == it) ≡ true
      → value_at it (ns ++ n ∷ []) ≡ some n.value
  value_at-snoc it [] n h e = rw e refl
  value_at-snoc it (m ∷ ns) n h e =
      let other : (m.iterator == it) ≡ false = ground arith in
      let later : occurs name_of it ns ≡ false = ground arith in
      rw other (value_at-snoc it ns n later e)

  pub value_at-splice_last :
      (it : ℕ) (ns : List (Node V)) → IsLinked ns → value_at it (splice_last it ns) ≡ value_at it ns
  value_at-splice_last it [] linked = refl
  value_at-splice_last it (n ∷ ns) (k, name, linked) = elim (Bool-cases (n.iterator == it)) [
    | inl here ↦
        let gone : occurs name_of it ns ≡ false = rw ((==_iff n.iterator it).0 here) at name in
        rw here (value_at-snoc it ns n gone here)
    | inr other ↦ rw (other, other) (value_at-splice_last it ns linked)
  ]
