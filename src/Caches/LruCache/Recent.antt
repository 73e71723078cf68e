-- ===== src/Caches/LruCache/Recent.antt =====
-- Sequences of calls of `src/common/caches/lru_cache.h` against a list of entries in the order of
-- their use.
use uh_core.Base.{ℕ, ◌<◌, ◌≤◌, ◌≡◌, refl, ap, ap₂, ◌∙◌, Option, some, List, [], ◌∷◌, arith}
use uh_core.Caches.LruCache.{LruCache, lru_cache, get, Call, put_call, get_call, answered, calls}
use uh_core.Caches.LruCache.Entries.{entries, entry}
use uh_core.Caches.LruCache.Agree.{IsLruCache, lru_cache-IsLruCache}
use uh_core.Caches.LruCache.Steps.{recent_put, recent_touch, get-recent, put-recent}

module _ {ℓ} {V : Type ℓ} where
  abbrev pub recent_calls : ℕ → List (Call V) → List (ℕ × V) → List (Option V) × List (ℕ × V)
  recent_calls capacity [] es = ([], es)
  recent_calls capacity (put_call key value ∷ ops) es =
      recent_calls capacity ops (recent_put capacity key value es)
  recent_calls capacity (get_call key ∷ ops) es =
      let (vs, rest) = recent_calls capacity ops (recent_touch (entry key es) key es) in
      (entry key es ∷ vs, rest)

  -- The cache behind a sequence of calls, and what the calls answer.
  record IsAnswered (capacity : ℕ) (ops : List (Call V)) (c : LruCache V) : Type ℓ where
    last : LruCache V
    done : calls ops (some c) ≡ some ((recent_calls capacity ops (entries c.lru_list)).0, last)
    same : entries last.lru_list ≡ (recent_calls capacity ops (entries c.lru_list)).1
    good : IsLruCache last
    kept : last.capacity ≡ capacity

  calls-IsAnswered :
      (capacity : ℕ) (ops : List (Call V)) (c : LruCache V)
      → c.capacity ≡ capacity
      → IsLruCache c
      → IsAnswered capacity ops c
  unfolding calls
  calls-IsAnswered capacity [] c k good = record {
    last = c;
    done = refl;
    same = refl;
    good = good;
    kept = k;
  }
  calls-IsAnswered capacity (put_call key value ∷ ops) c k good =
      let step = put-recent key value c good in
      let rest = calls-IsAnswered capacity ops step.next (step.capacity ∙ k) step.good in
      let entries_next : entries step.next.lru_list
          ≡ recent_put capacity key value (entries c.lru_list) =
        step.same ∙ ap (λ (n : ℕ). recent_put n key value (entries c.lru_list)) k in
      record {
        last = rest.last;
        done =
            ap (calls ops) step.done
            ∙ rest.done
            ∙ ap (λ (es : List (ℕ × V)). some ((recent_calls capacity ops es).0, rest.last))
                entries_next;
        same =
            rest.same ∙ ap (λ (es : List (ℕ × V)). (recent_calls capacity ops es).1) entries_next;
        good = rest.good;
        kept = rest.kept;
      }
  calls-IsAnswered capacity (get_call key ∷ ops) c k good =
      let (value, touched, next_good, same_capacity) = get-recent key c good in
      let rest = calls-IsAnswered capacity ops (get key c).1 (same_capacity ∙ k) next_good in
      record {
        last = rest.last;
        done =
            ap (answered (get key c).0) rest.done
            ∙ ap₂
                (λ (v : Option V) (es : List (ℕ × V)).
                  some (v ∷ (recent_calls capacity ops es).0, rest.last))
                value touched;
        same = rest.same ∙ ap (λ (es : List (ℕ × V)). (recent_calls capacity ops es).1) touched;
        good = rest.good;
        kept = rest.kept;
      }

  -- Whatever is put and asked for, a cache with room for an entry answers as the list of entries
  -- does that keeps the ones used last. It stands for that list, and holds no more than its capacity.
  pub calls-recent_calls :
      (capacity : ℕ) (ops : List (Call V))
      → 0 < capacity
      → (c : LruCache V) × (calls ops (some (lru_cache capacity))
          ≡ some ((recent_calls capacity ops []).0, c))
        × (entries c.lru_list ≡ (recent_calls capacity ops []).1)
        × (c.map.size ≤ capacity)
  unfolding lru_cache
  calls-recent_calls capacity ops h =
      let r =
        calls-IsAnswered capacity ops (lru_cache capacity) refl (lru_cache-IsLruCache capacity h) in
      (r.last, r.done, r.same, omega (arith, r.good.bounded, r.kept))
