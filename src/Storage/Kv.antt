-- ===== src/Storage/Kv.antt =====
-- The key-value store (LMDB) that `src/storage/reference_counter.cpp` keeps its counters in: what
-- the code relies on, inside one transaction. An aborted transaction leaves the old store.
use uh_core.Base.{ℕ, ◌≡◌, refl, Option, none, some, ◌==◌, if◌then◌else◌}

pub record KvStore : Type 1 where
  pub Store : Type 0
  pub get : Store → ℕ → Option ℕ
  pub put : Store → ℕ → ℕ → Store
  pub del : Store → ℕ → Store
  pub get-put : (s : Store) (k v j : ℕ) → get (put s k v) j ≡ (if k == j then some v else get s j)
  pub get-del : (s : Store) (k j : ℕ) → get (del s k) j ≡ (if k == j then none else get s j)

-- A store that meets these laws: a function from keys to values.
abbrev pub map_store : KvStore
map_store = record {
  Store = ℕ → Option ℕ;
  get = λ s k. s k;
  put = λ s k v j. if k == j then some v else s j;
  del = λ s k j. if k == j then none else s j;
  get-put = λ s k v j. refl;
  get-del = λ s k j. refl;
}
