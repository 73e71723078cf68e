-- ===== src/Caches/LruCache/Agree.antt =====
-- `src/common/caches/lru_cache.h`: the map and the list agree in every cache.
use uh_core.Base.{
  ℕ, suc, ◌<◌, ◌≤◌, ◌==◌, ◌≡◌, refl, ap, sym, ◌∙◌, inl, inr, Bool-cases, true, false, none, some,
  List, [], ◌∷◌, ◌++◌, arith, length, length-append, ==_iff,
}
use uh_core.Caches.LruCache.{
  Node, LruCache, emplace, erase, set_value, splice_last, lru_cache, with_list,
}
use uh_core.Caches.LruCache.Linked.{
  iterator_of, key_of, name_of, occurs, IsLinked, iterator_of-none, iterator_of-absent,
  iterator_of-snoc, IsLinked-snoc, occurs-snoc, occurs-splice_last, splice_last-IsLinked,
  iterator_of-splice_last, length-splice_last, occurs_name-set_value, set_value-IsLinked,
  iterator_of-set_value, length-set_value, or_else-none,
}

module _ {ℓ} {V : Type ℓ} where
  -- The map and the list of a cache agree.
  pub record IsLruCache (c : LruCache V) : Type 0 where
    pub linked : IsLinked c.lru_list
    pub found : (key : ℕ) → c.map.find key ≡ iterator_of key c.lru_list
    pub counted : c.map.size ≡ length c.lru_list
    pub fresh : (it : ℕ) → occurs name_of it c.lru_list ≡ true → it < c.next
    pub some_room : 0 < c.capacity
    pub bounded : c.map.size ≤ c.capacity

  with_list-IsLruCache :
      (c : LruCache V) (ns : List (Node V))
      → IsLruCache c
      → IsLinked ns
      → ((key : ℕ) → iterator_of key ns ≡ iterator_of key c.lru_list)
      → length ns ≡ length c.lru_list
      → ((it : ℕ) → occurs name_of it ns ≡ occurs name_of it c.lru_list)
      → IsLruCache (with_list c ns)
  with_list-IsLruCache c ns good linked found length_same names = record {
    linked = linked;
    found = λ key. good.found key ∙ sym (found key);
    counted = good.counted ∙ sym length_same;
    fresh = λ it e. good.fresh it (sym (names it) ∙ e);
    some_room = good.some_room;
    bounded = good.bounded;
  }

  pub splice_last-IsLruCache :
      (c : LruCache V) (it : ℕ)
      → IsLruCache c
      → IsLruCache (with_list c (splice_last it c.lru_list))
  splice_last-IsLruCache c it good =
      with_list-IsLruCache c (splice_last it c.lru_list) good
        (splice_last-IsLinked it c.lru_list good.linked)
        (λ key. iterator_of-splice_last key it c.lru_list good.linked)
        (length-splice_last it c.lru_list) (λ x. occurs-splice_last name_of x it c.lru_list)

  pub set_value-IsLruCache :
      (c : LruCache V) (it : ℕ) (v : V)
      → IsLruCache c
      → IsLruCache (with_list c (set_value it v c.lru_list))
  set_value-IsLruCache c it v good =
      with_list-IsLruCache c (set_value it v c.lru_list) good
        (set_value-IsLinked it v c.lru_list good.linked)
        (λ key. iterator_of-set_value key it v c.lru_list) (length-set_value it v c.lru_list)
        (λ x. occurs_name-set_value x it v c.lru_list)

  abbrev pub popped : LruCache V → Node V → List (Node V) → LruCache V
  popped c n ns = record {
    map = erase n.key c.map;
    lru_list = ns;
    capacity = c.capacity;
    next = c.next;
  }

  pub popped-IsLruCache :
      (c : LruCache V) (n : Node V) (ns : List (Node V))
      → c.lru_list ≡ n ∷ ns
      → IsLruCache c
      → IsLruCache (popped c n ns) × (suc (popped c n ns).map.size ≡ c.map.size)
  unfolding erase
  popped-IsLruCache c n ns e good =
      let linked : IsLinked (n ∷ ns) = rw e at good.linked in
      let first : c.map.find n.key ≡ some n.iterator =
        good.found n.key ∙ ap (iterator_of n.key) e ∙ head in
      let counted : c.map.size ≡ suc (length ns) =
        good.counted ∙ ap (λ (l : List (Node V)). length l) e in
      let size : (popped c n ns).map.size ≡ length ns = rw first (omega (arith, counted)) in
      (
        record {
          linked = linked.2;
          found = λ key. elim (Bool-cases (key == n.key)) [
            | inl same ↦
                let gone : occurs key_of key ns ≡ false =
                  rw (sym ((==_iff key n.key).0 same)) at linked.0 in
                rw same (sym (iterator_of-none key ns gone))
            | inr other ↦
                let apart : (n.key == key) ≡ false = ground arith in
                rw other (good.found key ∙ ap (iterator_of key) e ∙ rw apart refl)
          ];
          counted = size;
          fresh = λ it h. good.fresh it (ap (occurs name_of it) e ∙ ground (arith, h));
          some_room = good.some_room;
          bounded = omega (arith, size, counted, good.bounded);
        },
        omega (arith, size, counted),
      )
    where
      head : iterator_of n.key (n ∷ ns) ≡ some n.iterator
      head = let same : (n.key == n.key) ≡ true = ground arith in rw same refl

  abbrev pub pushed : LruCache V → ℕ → V → LruCache V
  pushed c key value = record {
    map = emplace key c.next c.map;
    lru_list = c.lru_list ++ record { iterator = c.next; key = key; value = value } ∷ [];
    capacity = c.capacity;
    next = suc c.next;
  }

  pub pushed-IsLruCache :
      (c : LruCache V) (key : ℕ) (value : V)
      → c.map.size < c.capacity
      → c.map.find key ≡ none
      → IsLruCache c
      → IsLruCache (pushed c key value)
  unfolding emplace
  pushed-IsLruCache c key value room new good =
      let n : Node V = record { iterator = c.next; key = key; value = value } in
      let none_there : iterator_of key c.lru_list ≡ none = sym (good.found key) ∙ new in
      let absent = iterator_of-absent key c.lru_list none_there in
      record {
        linked = IsLinked-snoc c.lru_list n good.linked absent unused;
        found = λ k. elim (Bool-cases (k == key)) [
          | inl same ↦
              let back : (key == k) ≡ true = ground arith in
              let none_yet : iterator_of k c.lru_list ≡ none =
                rw (sym ((==_iff k key).0 same)) at none_there in
              rw same (sym (iterator_of-snoc k c.lru_list n ∙ rw (none_yet, back) refl))
          | inr other ↦
              let apart : (key == k) ≡ false = ground arith in
              rw other (
                good.found k
                ∙ sym (
                    iterator_of-snoc k c.lru_list n
                    ∙ rw apart (or_else-none (iterator_of k c.lru_list))))
        ];
        counted = omega (arith, good.counted, length-append c.lru_list (n ∷ []));
        fresh = λ it h. elim (Bool-cases (c.next == it)) [
          | inl same ↦ ground arith
          | inr other ↦
              let before = good.fresh it (ground (arith, h, occurs-snoc name_of it c.lru_list n)) in
              omega (arith, before)
        ];
        some_room = good.some_room;
        bounded = omega (arith, room);
      }
    where
      unused : occurs name_of c.next c.lru_list ≡ false
      unused = elim (Bool-cases (occurs name_of c.next c.lru_list)) [
        | inl there ↦ absurd (omega (arith, good.fresh c.next there))
        | inr gone ↦ gone
      ]

  pub popped-find :
      (c : LruCache V) (n : Node V) (ns : List (Node V)) (key : ℕ)
      → c.map.find key ≡ none
      → (popped c n ns).map.find key ≡ none
  unfolding erase
  popped-find c n ns key e = elim (Bool-cases (key == n.key)) [
    | inl same ↦ rw same refl
    | inr other ↦ rw other e
  ]

  pub lru_cache-IsLruCache : (capacity : ℕ) → 0 < capacity → IsLruCache (lru_cache {V = V} capacity)
  unfolding lru_cache
  lru_cache-IsLruCache capacity h = record {
    linked = tt;
    found = λ key. refl;
    counted = refl;
    fresh = λ it e. absurd (ground arith);
    some_room = h;
    bounded = omega arith;
  }
