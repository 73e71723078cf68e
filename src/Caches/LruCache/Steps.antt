-- ===== src/Caches/LruCache/Steps.antt =====
-- One call of `src/common/caches/lru_cache.h` against a list of entries in the order of their use.
use uh_core.Base.{
  ℕ, ◌≡◌, refl, ap, sym, ◌∙◌, inl, inr, Bool-cases, true, leb, if◌then◌else◌, Option, none, some,
  List, [], ◌∷◌, ◌++◌, arith, length, drop,
}
use uh_core.Caches.LruCache.{
  Node, LruCache, set_value, splice_last, with_list, put_at, put, get_at, get,
}
use uh_core.Caches.LruCache.Linked.{iterator_of, iterator_of-absent, iterator_of-set_value}
use uh_core.Caches.LruCache.Entries.{
  entries, entry, without, entries-append, length-entries, value_at-entry, entries-splice_last,
  entry-set_value, without-set_value, entry-none, entry-some, value_at-splice_last,
}
use uh_core.Caches.LruCache.Agree.{
  IsLruCache, splice_last-IsLruCache, set_value-IsLruCache, popped, popped-IsLruCache, popped-find,
  pushed, pushed-IsLruCache,
}

module _ {ℓ} {V : Type ℓ} where
  -- A new entry is the last; where there is no room, the first goes.
  abbrev pub recent_room : Option V → ℕ → ℕ → List (ℕ × V) → List (ℕ × V)
  recent_room (some old) capacity key es = without key es
  recent_room none capacity key es = if leb capacity (length es) then drop 1 es else es

  abbrev pub recent_put : ℕ → ℕ → V → List (ℕ × V) → List (ℕ × V)
  recent_put capacity key value es = recent_room (entry key es) capacity key es ++ (key, value) ∷ []

  abbrev pub recent_touch : Option V → ℕ → List (ℕ × V) → List (ℕ × V)
  recent_touch (some v) key es = without key es ++ (key, v) ∷ []
  recent_touch none key es = es

  -- A call on a cache and on the entries it stands for.
  get_at-recent :
      (o : Option ℕ) (key : ℕ) (c : LruCache V)
      → c.map.find key ≡ o
      → IsLruCache c
      → ((get_at o c).0 ≡ entry key (entries c.lru_list))
        × (entries (get_at o c).1.lru_list
            ≡ recent_touch (entry key (entries c.lru_list)) key (entries c.lru_list))
        × IsLruCache (get_at o c).1
        × ((get_at o c).1.capacity ≡ c.capacity)
  get_at-recent none key c e good =
      let gone : entry key (entries c.lru_list) ≡ none =
        entry-none key c.lru_list (iterator_of-absent key c.lru_list (sym (good.found key) ∙ e)) in
      rw gone (refl, refl, good, refl)
  get_at-recent (some it) key c e good =
      let there : iterator_of key c.lru_list ≡ some it = sym (good.found key) ∙ e in
      let (v, old) = entry-some key it c.lru_list there in
      (
        value_at-splice_last it c.lru_list good.linked
            ∙ value_at-entry key it c.lru_list good.linked there,
        rw old (entries-splice_last key it c.lru_list v good.linked there old),
        splice_last-IsLruCache c it good,
        refl,
      )

  pub get-recent :
      (key : ℕ) (c : LruCache V)
      → IsLruCache c
      → ((get key c).0 ≡ entry key (entries c.lru_list))
        × (entries (get key c).1.lru_list
            ≡ recent_touch (entry key (entries c.lru_list)) key (entries c.lru_list))
        × IsLruCache (get key c).1
        × ((get key c).1.capacity ≡ c.capacity)
  unfolding get
  get-recent key c good = get_at-recent (c.map.find key) key c refl good

  -- What a step to another cache keeps.
  pub record IsPut (c : LruCache V) (key : ℕ) (value : V) (o : Option (LruCache V)) : Type ℓ where
    pub next : LruCache V
    pub done : o ≡ some next
    pub same : entries next.lru_list ≡ recent_put c.capacity key value (entries c.lru_list)
    pub good : IsLruCache next
    pub capacity : next.capacity ≡ c.capacity

  put_at-old :
      (it key : ℕ) (value : V) (c : LruCache V)
      → c.map.find key ≡ some it
      → IsLruCache c
      → IsPut c key value (put_at (some it) key value c)
  put_at-old it key value c e good =
      let there : iterator_of key c.lru_list ≡ some it = sym (good.found key) ∙ e in
      let ns = set_value it value c.lru_list in
      let set = set_value-IsLruCache c it value good in
      let after : iterator_of key ns ≡ some it =
        iterator_of-set_value key it value c.lru_list ∙ there in
      let (v, old) = entry-some key it c.lru_list there in
      record {
        next = with_list c (splice_last it ns);
        done = refl;
        same = rw old (
            entries-splice_last key it ns value set.linked after
              (entry-set_value key it c.lru_list value good.linked there)
            ∙ ap (λ es. es ++ (key, value) ∷ [])
                (without-set_value key it c.lru_list value good.linked there));
        good = splice_last-IsLruCache (with_list c ns) it set;
        capacity = refl;
      }

  put_at-full :
      (key : ℕ) (value : V) (c : LruCache V) (l : List (Node V))
      → c.lru_list ≡ l
      → c.map.find key ≡ none
      → leb c.capacity c.map.size ≡ true
      → IsLruCache c
      → IsPut c key value (put_at none key value c)
  put_at-full key value c [] el e is_full good =
      let empty : c.map.size ≡ 0 = good.counted ∙ ap (λ (l : List (Node V)). length l) el in
      absurd (ground (arith, good.some_room))
  put_at-full key value c (n ∷ ns) el e is_full good =
      let (popped_good, less) = popped-IsLruCache c n ns el good in
      let gone =
        entry-none key c.lru_list (iterator_of-absent key c.lru_list (sym (good.found key) ∙ e)) in
      let size : length (entries c.lru_list) ≡ c.map.size =
        length-entries c.lru_list ∙ sym good.counted in
      let rest : drop 1 (entries c.lru_list) ≡ entries ns =
        ap (λ (l : List (Node V)). drop 1 (entries l)) el in
      record {
        next = pushed (popped c n ns) key value;
        done = rw (is_full, el) refl;
        same = rw (gone, size, is_full, rest) (entries-append ns _);
        good =
            pushed-IsLruCache (popped c n ns) key value (omega (arith, less, good.bounded))
              (popped-find c n ns key e) popped_good;
        capacity = refl;
      }

  put_at-new :
      (key : ℕ) (value : V) (c : LruCache V)
      → c.map.find key ≡ none
      → IsLruCache c
      → IsPut c key value (put_at none key value c)
  put_at-new key value c e good =
      let absent = iterator_of-absent key c.lru_list (sym (good.found key) ∙ e) in
      let gone = entry-none key c.lru_list absent in
      let size : length (entries c.lru_list) ≡ c.map.size =
        length-entries c.lru_list ∙ sym good.counted in
      elim (Bool-cases (leb c.capacity c.map.size)) [
        | inr room ↦ record {
          next = pushed c key value;
          done = rw room refl;
          same = rw (gone, size, room) (entries-append c.lru_list _);
          good = pushed-IsLruCache c key value (ground arith) e good;
          capacity = refl;
        }
        | inl is_full ↦ put_at-full key value c c.lru_list refl e is_full good
      ]

  pub put-recent :
      (key : ℕ) (value : V) (c : LruCache V) → IsLruCache c → IsPut c key value (put key value c)
  unfolding put
  put-recent key value c good = go (c.map.find key) refl
    where
      go : (o : Option ℕ) → c.map.find key ≡ o → IsPut c key value (put_at o key value c)
      go none e = put_at-new key value c e good
      go (some it) e = put_at-old it key value c e good
