-- ===== src/Caches/LruCache.antt =====
-- `src/common/caches/lru_cache.h`, with keys that are numbers, as those of the cache of
-- `src/storage/global/cache.h`. An iterator of the list is the name that its node got when it was
-- pushed. The lock, which every operation holds from begin to end, is not part of the state.
pub mod Linked
pub mod Entries
pub mod Agree
pub mod Steps
pub mod Recent
mod Tests
use uh_core.Base.{
  ℕ, zero, suc, ◌+◌, ◌-◌, ◌==◌, leb, Bool, true, false, ◌||◌, if◌then◌else◌, Option, none, some,
  List, [], ◌∷◌, ◌++◌,
}

pub record Node {ℓ} (V : Type ℓ) : Type ℓ where
  pub iterator : ℕ
  pub key : ℕ
  pub value : V

-- `m_map`: what `find` gives for a key, and the number of keys.
pub record Index : Type 0 where
  pub find : ℕ → Option ℕ
  pub size : ℕ

-- `next` is the name of the next node.
pub record LruCache {ℓ} (V : Type ℓ) : Type ℓ where
  pub map : Index
  pub lru_list : List (Node V)
  pub capacity : ℕ
  pub next : ℕ

-- `emplace_hint` for a key that is not there.
unfoldable pub emplace : ℕ → ℕ → Index → Index
emplace key it m = record { find = λ k. if k == key then some it else m.find k; size = suc m.size }

abbrev pub one_less : Option ℕ → ℕ → ℕ
one_less none n = n
one_less (some it) n = n - 1

unfoldable pub erase : ℕ → Index → Index
erase key m = record {
  find = λ k. if k == key then none else m.find k;
  size = one_less (m.find key) m.size;
}

module _ {ℓ} {V : Type ℓ} where
  -- `it->value`
  abbrev pub value_at : ℕ → List (Node V) → Option V
  value_at it [] = none
  value_at it (n ∷ ns) = if n.iterator == it then some n.value else value_at it ns

  -- `it->value = value`
  abbrev pub set_value : ℕ → V → List (Node V) → List (Node V)
  set_value it value [] = []
  set_value it value (n ∷ ns) =
      if n.iterator == it
      then record { iterator = n.iterator; key = n.key; value = value } ∷ ns
      else n ∷ set_value it value ns

  -- `splice` of a node to the end of its own list.
  abbrev pub splice_last : ℕ → List (Node V) → List (Node V)
  splice_last it [] = []
  splice_last it (n ∷ ns) = if n.iterator == it then ns ++ n ∷ [] else n ∷ splice_last it ns

  unfoldable pub lru_cache : ℕ → LruCache V
  lru_cache capacity = record {
    map = record { find = λ k. none; size = 0 };
    lru_list = [];
    capacity = capacity;
    next = 0;
  }

  abbrev pub with_list : LruCache V → List (Node V) → LruCache V
  with_list c ns = record { map = c.map; lru_list = ns; capacity = c.capacity; next = c.next }

  -- The removal of the first node; `front` of an empty list is not defined.
  abbrev pub pop_first : LruCache V → List (Node V) → Option (LruCache V)
  pop_first c [] = none
  pop_first c (n ∷ ns) =
      some (record { map = erase n.key c.map; lru_list = ns; capacity = c.capacity; next = c.next })

  abbrev pub push_last : ℕ → V → Option (LruCache V) → Option (LruCache V)
  push_last key value none = none
  push_last key value (some c) = some (record {
    map = emplace key c.next c.map;
    lru_list = c.lru_list ++ record { iterator = c.next; key = key; value = value } ∷ [];
    capacity = c.capacity;
    next = suc c.next;
  })

  abbrev pub put_at : Option ℕ → ℕ → V → LruCache V → Option (LruCache V)
  put_at (some it) key value c = some (with_list c (splice_last it (set_value it value c.lru_list)))
  put_at none key value c =
      push_last key value (if leb c.capacity c.map.size then pop_first c c.lru_list else some c)

  unfoldable pub put : ℕ → V → LruCache V → Option (LruCache V)
  put key value c = put_at (c.map.find key) key value c

  abbrev pub get_at : Option ℕ → LruCache V → Option V × LruCache V
  get_at (some it) c = let ns = splice_last it c.lru_list in (value_at it ns, with_list c ns)
  get_at none c = (none, c)

  unfoldable pub get : ℕ → LruCache V → Option V × LruCache V
  get key c = get_at (c.map.find key) c

-- A call of the cache.
pub data Call {ℓ} (V : Type ℓ) : Type ℓ where
  put_call : ℕ → V → Call V
  get_call : ℕ → Call V

module _ {ℓ} {V : Type ℓ} where
  abbrev pub answered :
      Option V → Option (List (Option V) × LruCache V) → Option (List (Option V) × LruCache V)
  answered v none = none
  answered v (some (vs, c)) = some (v ∷ vs, c)

  -- The answers to a sequence of calls, and the cache behind them; `none` is a step that is not
  -- defined.
  unfoldable pub calls : List (Call V) → Option (LruCache V) → Option (List (Option V) × LruCache V)
  unfolding put get
  calls ops none = none
  calls [] (some c) = some ([], c)
  calls (put_call key value ∷ ops) (some c) = calls ops (put key value c)
  calls (get_call key ∷ ops) (some c) = answered (get key c).0 (calls ops (some (get key c).1))
