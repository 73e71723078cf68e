-- ===== src/Storage/GlobalCache/Tests.antt =====
-- `src/storage/global/cache.cpp` in front of a service whose byte at a pointer is the pointer.
use uh_core.Base.{ℕ, refl, arith}
use uh_core.Base.Result.{Result, ok}
use uh_core.Caches.LruCache.{lru_cache}
use uh_core.Caches.LruCache.Agree.{lru_cache-IsLruCache}
use uh_core.Storage.GlobalCache.{SharedBuffer, read}
use uh_core.Storage.GlobalCache.Served.{bytes_at, IsServed, read-IsServed}

abbrev itself : ℕ → ℕ
itself n = n

abbrev service : ℕ → ℕ → Result SharedBuffer
service pointer size = ok (bytes_at itself pointer size)

read-IsServed_example : IsServed itself 5 3 (read service 5 3 (lru_cache 2))
unfolding lru_cache
read-IsServed_example =
    read-IsServed itself service (λ pointer size. refl) 5 3 (lru_cache 2) (omega arith)
      (lru_cache-IsLruCache 2 (omega arith)) tt
