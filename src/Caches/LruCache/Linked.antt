-- ===== src/Caches/LruCache/Linked.antt =====
-- The list of nodes of `src/common/caches/lru_cache.h`: keys and iterators occur once, and a splice
-- changes only the order.
use uh_core.Base.{
  ℕ, suc, ◌==◌, ◌≡◌, refl, ap, ◌∙◌, inl, inr, Bool, Bool-cases, false, ◌||◌, if◌then◌else◌, Option,
  none, some, List, [], ◌∷◌, ◌++◌, arith, length, length-append, ==_iff,
}
use uh_core.Caches.LruCache.{Node, set_value, splice_last}

abbrev pub or_else : Option ℕ → Option ℕ → Option ℕ
or_else none o = o
or_else (some i) o = some i

pub or_else-none : (o : Option ℕ) → or_else o none ≡ o
or_else-none none = refl
or_else-none (some i) = refl

module _ {ℓ} {V : Type ℓ} where
  -- The iterator of the node of a key.
  abbrev pub iterator_of : ℕ → List (Node V) → Option ℕ
  iterator_of key [] = none
  iterator_of key (n ∷ ns) = if n.key == key then some n.iterator else iterator_of key ns

  abbrev pub key_of : Node V → ℕ
  key_of n = n.key

  abbrev pub name_of : Node V → ℕ
  name_of n = n.iterator

  -- Whether a key or an iterator occurs.
  abbrev pub occurs : (Node V → ℕ) → ℕ → List (Node V) → Bool
  occurs f x [] = false
  occurs f x (n ∷ ns) = f n == x || occurs f x ns

  abbrev pub IsLinked : List (Node V) → Type 0
  IsLinked [] = Unit {0}
  IsLinked (n ∷ ns) =
      (occurs key_of n.key ns ≡ false) × (occurs name_of n.iterator ns ≡ false) × IsLinked ns

  pub iterator_of-none :
      (key : ℕ) (ns : List (Node V)) → occurs key_of key ns ≡ false → iterator_of key ns ≡ none
  iterator_of-none key [] h = refl
  iterator_of-none key (n ∷ ns) h =
      let other : (n.key == key) ≡ false = ground arith in
      let later : occurs key_of key ns ≡ false = ground arith in
      rw other (iterator_of-none key ns later)

  pub iterator_of-absent :
      (key : ℕ) (ns : List (Node V)) → iterator_of key ns ≡ none → occurs key_of key ns ≡ false
  iterator_of-absent key [] h = refl
  iterator_of-absent key (n ∷ ns) h = elim (Bool-cases (n.key == key)) [
    | inl here ↦ absurd (some_none n.iterator (rw here at h))
    | inr other ↦ rw other (iterator_of-absent key ns (rw other at h))
  ]
    where
      some_none : (i : ℕ) → some i ≡ none → ⊥
      some_none i e = cc

  pub iterator_of-snoc :
      (key : ℕ) (ns : List (Node V)) (n : Node V)
      → iterator_of key (ns ++ n ∷ []) ≡ or_else (iterator_of key ns) (iterator_of key (n ∷ []))
  iterator_of-snoc key [] n = refl
  iterator_of-snoc key (m ∷ ns) n = elim (Bool-cases (m.key == key)) [
    | inl here ↦ rw here refl
    | inr other ↦ rw other (iterator_of-snoc key ns n)
  ]

  pub occurs-snoc :
      (f : Node V → ℕ) (x : ℕ) (ns : List (Node V)) (n : Node V)
      → occurs f x (ns ++ n ∷ []) ≡ (f n == x || occurs f x ns)
  occurs-snoc f x [] n = refl
  occurs-snoc f x (m ∷ ns) n = ground (arith, occurs-snoc f x ns n)

  pub IsLinked-snoc :
      (ns : List (Node V)) (n : Node V)
      → IsLinked ns
      → occurs key_of n.key ns ≡ false
      → occurs name_of n.iterator ns ≡ false
      → IsLinked (ns ++ n ∷ [])
  IsLinked-snoc [] n linked k i = (refl, refl, tt)
  IsLinked-snoc (m ∷ ns) n (key, it, linked) k i = (
    ground (arith, occurs-snoc key_of m.key ns n),
    ground (arith, occurs-snoc name_of m.iterator ns n),
    IsLinked-snoc ns n linked (ground arith) (ground arith),
  )

  pub occurs-splice_last :
      (f : Node V → ℕ) (x it : ℕ) (ns : List (Node V))
      → occurs f x (splice_last it ns) ≡ occurs f x ns
  occurs-splice_last f x it [] = refl
  occurs-splice_last f x it (n ∷ ns) = elim (Bool-cases (n.iterator == it)) [
    | inl here ↦ rw here (occurs-snoc f x ns n)
    | inr other ↦ rw other (ap (λ (b : Bool). f n == x || b) (occurs-splice_last f x it ns))
  ]

  pub splice_last-IsLinked :
      (it : ℕ) (ns : List (Node V)) → IsLinked ns → IsLinked (splice_last it ns)
  splice_last-IsLinked it [] linked = tt
  splice_last-IsLinked it (n ∷ ns) (key, name, linked) = elim (Bool-cases (n.iterator == it)) [
    | inl here ↦ rw here (IsLinked-snoc ns n linked key name)
    | inr other ↦ rw other (
      occurs-splice_last key_of n.key it ns ∙ key,
      occurs-splice_last name_of n.iterator it ns ∙ name,
      splice_last-IsLinked it ns linked,
    )
  ]

  pub iterator_of-splice_last :
      (key it : ℕ) (ns : List (Node V))
      → IsLinked ns
      → iterator_of key (splice_last it ns) ≡ iterator_of key ns
  iterator_of-splice_last key it [] linked = refl
  iterator_of-splice_last key it (n ∷ ns) (k, name, linked) = elim (Bool-cases (n.iterator == it)) [
    | inl here ↦ rw here (iterator_of-snoc key ns n ∙ moved)
    | inr other ↦ rw other (
        ap (λ (o : Option ℕ). if n.key == key then some n.iterator else o)
          (iterator_of-splice_last key it ns linked))
  ]
    where
      moved : or_else (iterator_of key ns) (iterator_of key (n ∷ [])) ≡ iterator_of key (n ∷ ns)
      moved = elim (Bool-cases (n.key == key)) [
        | inl same ↦
            let gone : occurs key_of key ns ≡ false = rw ((==_iff n.key key).0 same) at k in
            rw (same, iterator_of-none key ns gone) refl
        | inr other ↦ rw other (or_else-none (iterator_of key ns))
      ]

  pub length-splice_last : (it : ℕ) (ns : List (Node V)) → length (splice_last it ns) ≡ length ns
  length-splice_last it [] = refl
  length-splice_last it (n ∷ ns) = elim (Bool-cases (n.iterator == it)) [
    | inl here ↦ rw here (omega (arith, length-append ns (n ∷ [])))
    | inr other ↦ rw other (ap suc (length-splice_last it ns))
  ]

  -- The node with an iterator gets another value: keys and iterators stay.
  pub occurs_key-set_value :
      (x it : ℕ) (v : V) (ns : List (Node V))
      → occurs key_of x (set_value it v ns) ≡ occurs key_of x ns
  occurs_key-set_value x it v [] = refl
  occurs_key-set_value x it v (n ∷ ns) = elim (Bool-cases (n.iterator == it)) [
    | inl here ↦ rw here refl
    | inr other ↦ rw other (ap (λ (b : Bool). n.key == x || b) (occurs_key-set_value x it v ns))
  ]

  pub occurs_name-set_value :
      (x it : ℕ) (v : V) (ns : List (Node V))
      → occurs name_of x (set_value it v ns) ≡ occurs name_of x ns
  occurs_name-set_value x it v [] = refl
  occurs_name-set_value x it v (n ∷ ns) = elim (Bool-cases (n.iterator == it)) [
    | inl here ↦ rw here refl
    | inr other ↦
        rw other (ap (λ (b : Bool). n.iterator == x || b) (occurs_name-set_value x it v ns))
  ]

  pub set_value-IsLinked :
      (it : ℕ) (v : V) (ns : List (Node V)) → IsLinked ns → IsLinked (set_value it v ns)
  set_value-IsLinked it v [] linked = tt
  set_value-IsLinked it v (n ∷ ns) (key, name, linked) = elim (Bool-cases (n.iterator == it)) [
    | inl here ↦ rw here (key, name, linked)
    | inr other ↦ rw other (
      occurs_key-set_value n.key it v ns ∙ key,
      occurs_name-set_value n.iterator it v ns ∙ name,
      set_value-IsLinked it v ns linked,
    )
  ]

  pub iterator_of-set_value :
      (key it : ℕ) (v : V) (ns : List (Node V))
      → iterator_of key (set_value it v ns) ≡ iterator_of key ns
  iterator_of-set_value key it v [] = refl
  iterator_of-set_value key it v (n ∷ ns) = elim (Bool-cases (n.iterator == it)) [
    | inl here ↦ rw here refl
    | inr other ↦ rw other (
        ap (λ (o : Option ℕ). if n.key == key then some n.iterator else o)
          (iterator_of-set_value key it v ns))
  ]

  pub length-set_value :
      (it : ℕ) (v : V) (ns : List (Node V)) → length (set_value it v ns) ≡ length ns
  length-set_value it v [] = refl
  length-set_value it v (n ∷ ns) = elim (Bool-cases (n.iterator == it)) [
    | inl here ↦ rw here refl
    | inr other ↦ rw other (ap suc (length-set_value it v ns))
  ]
