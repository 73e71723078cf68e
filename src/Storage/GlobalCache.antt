-- ===== src/Storage/GlobalCache.antt =====
-- `src/storage/global/cache.cpp`: reads of the storage service through the cache of
-- `src/common/caches/lru_cache.h`. `read_fragment` is `read` that waits; their metrics and traces are
-- not part of the model.
pub mod Served
mod Tests
use uh_core.Base.{
  ℕ, ◌==◌, leb, Bool, true, false, if◌then◌else◌, Option, none, some, List, [], ◌∷◌, length,
}
use uh_core.Base.Result.{Result, ok, throws, runtime_error}
use uh_core.Caches.LruCache.{LruCache, put, get}

abbrev pub SharedBuffer : Type 0
SharedBuffer = List ℕ

-- A buffer that is long enough.
abbrev pub hit : ℕ → Option SharedBuffer → Option SharedBuffer
hit size none = none
hit size (some b) = if leb size (length b) then some b else none

abbrev pub with_cache :
    SharedBuffer
    → Option (LruCache SharedBuffer)
    → Option (Result (SharedBuffer × LruCache SharedBuffer))
with_cache b none = none
with_cache b (some c) = some (ok (b, c))

abbrev pub fetched :
    ℕ
    → Result SharedBuffer
    → LruCache SharedBuffer
    → Option (Result (SharedBuffer × LruCache SharedBuffer))
fetched pointer (throws e) c = some (throws e)
fetched pointer (ok b) c = with_cache b (put pointer b c)

-- `view` is `read` of the storage service.
module _ (view : ℕ → ℕ → Result SharedBuffer) where
  abbrev pub served :
      Option SharedBuffer
      → ℕ
      → ℕ
      → LruCache SharedBuffer
      → Option (Result (SharedBuffer × LruCache SharedBuffer))
  served (some b) pointer size c = some (ok (b, c))
  served none pointer size c = fetched pointer (view pointer size) c

  -- `none` is a step of the cache that is not defined.
  unfoldable pub read :
      ℕ → ℕ → LruCache SharedBuffer → Option (Result (SharedBuffer × LruCache SharedBuffer))
  unfolding put get
  read pointer size c =
      if size == 0
      then some (throws runtime_error)
      else served (hit size (get pointer c).0) pointer size (get pointer c).1
