-- ===== src/Caches/LruCache/Tests.antt =====
-- `src/common/caches/lru_cache.h` with room for two entries.
use uh_core.Base.{ℕ, ◌≤◌, ◌≡◌, refl, none, some, List, [], ◌∷◌, arith}
use uh_core.Caches.LruCache.{LruCache, lru_cache, put, Call, put_call, get_call, calls}
use uh_core.Caches.LruCache.Entries.{entries}
use uh_core.Caches.LruCache.Recent.{calls-recent_calls}

-- The third key drives out the second, since the first was asked for after it.
abbrev three_keys : List (Call ℕ)
three_keys =
    put_call 1 10 ∷ put_call 2 20 ∷ get_call 1 ∷ put_call 3 30 ∷ get_call 2 ∷ get_call 1 ∷ []

calls-recent_calls_example :
    (c : LruCache ℕ) × (calls three_keys (some (lru_cache 2))
      ≡ some (some 10 ∷ none ∷ some 10 ∷ [], c))
    × (entries c.lru_list ≡ (3, 30) ∷ (1, 10) ∷ [])
    × (c.map.size ≤ 2)
calls-recent_calls_example = calls-recent_calls 2 three_keys (omega arith)

-- A cache without any room has no first node to remove.
put_without_room : put {V = ℕ} 1 10 (lru_cache 0) ≡ none
unfolding put lru_cache
put_without_room = refl
