-- ===== src/Storage/GlobalCache/Served.antt =====
-- What `src/storage/global/cache.cpp` gives to its clients: bytes of the storage service, also where
-- they come from the cache.
use uh_core.Base.{
  ℕ, zero, suc, ◌<◌, ◌≤◌, ◌==◌, ◌≡◌, refl, ap, ap₂, sym, ◌∙◌, inl, inr, Bool-cases, false, leb,
  Option, none, some, List, [], ◌∷◌, ◌++◌, map, arith, length, length-map, take, take_of_length-le,
  drop, ==_iff,
}
use uh_core.Base.Result.{Result, ok}
use uh_core.Types.Fragment.{span, length-span}
use uh_core.Caches.LruCache.{LruCache, get}
use uh_core.Caches.LruCache.Entries.{entries, entry, without}
use uh_core.Caches.LruCache.Agree.{IsLruCache}
use uh_core.Caches.LruCache.Steps.{recent_room, recent_touch, get-recent, put-recent}
use uh_core.Storage.GlobalCache.{SharedBuffer, hit, fetched, served, read}

-- The bytes from a pointer on.
abbrev pub bytes_at : (ℕ → ℕ) → ℕ → ℕ → List ℕ
bytes_at memory pointer size = map memory (span pointer size)

-- Every entry holds the bytes from its pointer on.
abbrev pub AllOf : (ℕ → ℕ) → List (ℕ × SharedBuffer) → Type 0
AllOf memory [] = Unit {0}
AllOf memory ((p, b) ∷ es) = (b ≡ bytes_at memory p (length b)) × AllOf memory es

module _ (memory : ℕ → ℕ) where
  length-bytes_at : (p n : ℕ) → length (bytes_at memory p n) ≡ n
  length-bytes_at p n = length-map memory (span p n) ∙ length-span p n

  take-bytes_at : (p n m : ℕ) → n ≤ m → take n (bytes_at memory p m) ≡ bytes_at memory p n
  take-bytes_at p zero m h = refl
  take-bytes_at p (suc n) zero h = absurd (omega arith)
  take-bytes_at p (suc n) (suc m) h = ap (◌∷◌ (memory p)) (take-bytes_at (suc p) n m (omega arith))

  AllOf-snoc :
      (es : List (ℕ × SharedBuffer)) (p : ℕ) (b : SharedBuffer)
      → AllOf memory es
      → b ≡ bytes_at memory p (length b)
      → AllOf memory (es ++ (p, b) ∷ [])
  AllOf-snoc [] p b all e = (e, tt)
  AllOf-snoc ((q, c) ∷ es) p b (h, all) e = (h, AllOf-snoc es p b all e)

  without-AllOf :
      (p : ℕ) (es : List (ℕ × SharedBuffer)) → AllOf memory es → AllOf memory (without p es)
  without-AllOf p [] all = tt
  without-AllOf p ((q, c) ∷ es) (h, all) = elim (Bool-cases (q == p)) [
    | inl same ↦ rw same all
    | inr other ↦ rw other (h, without-AllOf p es all)
  ]

  drop-AllOf : (es : List (ℕ × SharedBuffer)) → AllOf memory es → AllOf memory (drop 1 es)
  drop-AllOf [] all = tt
  drop-AllOf ((q, c) ∷ es) (h, all) = all

  entry-AllOf :
      (p : ℕ) (es : List (ℕ × SharedBuffer)) (b : SharedBuffer)
      → AllOf memory es
      → entry p es ≡ some b
      → b ≡ bytes_at memory p (length b)
  entry-AllOf p [] b all e = absurd cc
  entry-AllOf p ((q, c) ∷ es) b (h, all) e = elim (Bool-cases (q == p)) [
    | inl same ↦
        let e' : c ≡ b = injected c (rw same at e) in
        sym e'
        ∙ h
        ∙ ap₂ (λ (x : ℕ) (d : SharedBuffer). bytes_at memory x (length d)) ((==_iff q p).0 same) e'
    | inr other ↦ entry-AllOf p es b all (rw other at e)
  ]
    where
      injected : (d : SharedBuffer) → some d ≡ some b → d ≡ b
      injected d e = cc

  recent_room-AllOf :
      (o : Option SharedBuffer) (capacity p : ℕ) (es : List (ℕ × SharedBuffer))
      → AllOf memory es
      → AllOf memory (recent_room o capacity p es)
  recent_room-AllOf (some b) capacity p es all = without-AllOf p es all
  recent_room-AllOf none capacity p es all = elim (Bool-cases (leb capacity (length es))) [
    | inl h ↦ rw h (drop-AllOf es all)
    | inr h ↦ rw h all
  ]

  recent_touch-AllOf :
      (p : ℕ) (es : List (ℕ × SharedBuffer)) (o : Option SharedBuffer)
      → entry p es ≡ o
      → AllOf memory es
      → AllOf memory (recent_touch o p es)
  recent_touch-AllOf p es none e all = all
  recent_touch-AllOf p es (some b) e all =
      AllOf-snoc (without p es) p b (without-AllOf p es all) (entry-AllOf p es b all e)

  -- An answer that begins with the bytes asked for, and a cache that still tells the truth.
  pub record IsServed (pointer size : ℕ)
      (o : Option (Result (SharedBuffer × LruCache SharedBuffer))) : Type 0 where
    pub buffer : SharedBuffer
    pub next : LruCache SharedBuffer
    pub done : o ≡ some (ok (buffer, next))
    pub start : take size buffer ≡ bytes_at memory pointer size
    pub good : IsLruCache next
    pub all : AllOf memory (entries next.lru_list)

  module _ (view : ℕ → ℕ → Result SharedBuffer)
      (honest : (pointer size : ℕ) → view pointer size ≡ ok (bytes_at memory pointer size)) where
    fetched-IsServed :
        (pointer size : ℕ) (c : LruCache SharedBuffer)
        → IsLruCache c
        → AllOf memory (entries c.lru_list)
        → IsServed pointer size (fetched pointer (view pointer size) c)
    fetched-IsServed pointer size c good all =
        let b = bytes_at memory pointer size in
        let n = length-bytes_at pointer size in
        let step = put-recent pointer b c good in
        record {
          buffer = b;
          next = step.next;
          done = rw (honest pointer size, step.done) refl;
          start = take_of_length-le size b (omega (arith, n));
          good = step.good;
          all =
              let known : b ≡ bytes_at memory pointer (length b) =
                ap (bytes_at memory pointer) (sym n) in
              rw step.same (
                AllOf-snoc
                  (recent_room (entry pointer (entries c.lru_list)) c.capacity pointer
                    (entries c.lru_list))
                  pointer b
                  (recent_room-AllOf (entry pointer (entries c.lru_list)) c.capacity pointer
                    (entries c.lru_list) all)
                  known);
        }

    served-IsServed :
        (o : Option SharedBuffer) (pointer size : ℕ) (c : LruCache SharedBuffer)
        → ((b : SharedBuffer) → o ≡ some b → b ≡ bytes_at memory pointer (length b))
        → IsLruCache c
        → AllOf memory (entries c.lru_list)
        → IsServed pointer size (served view (hit size o) pointer size c)
    served-IsServed none pointer size c known good all = fetched-IsServed pointer size c good all
    served-IsServed (some b) pointer size c known good all =
        elim (Bool-cases (leb size (length b))) [
          | inr short ↦ rw short (fetched-IsServed pointer size c good all)
          | inl long ↦ rw long (record {
            buffer = b;
            next = c;
            done = refl;
            start =
                ap (take size) (known b refl)
                ∙ take-bytes_at pointer size (length b) (ground arith);
            good = good;
            all = all;
          })
        ]

    -- A read of at least one byte gives a buffer that begins with the bytes asked for, and leaves a
    -- cache whose map and list agree and that holds nothing but bytes of the service: for a cache
    -- that was like that before, and a service that gives the bytes of a fixed memory.
    pub read-IsServed :
        (pointer size : ℕ) (c : LruCache SharedBuffer)
        → 0 < size
        → IsLruCache c
        → AllOf memory (entries c.lru_list)
        → IsServed pointer size (read view pointer size c)
    unfolding read
    read-IsServed pointer size c some_bytes good all =
        let (value, touched, kept, capacity) = get-recent pointer c good in
        let busy : (size == 0) ≡ false = ground arith in
        rw busy (
          served-IsServed (get pointer c).0 pointer size (get pointer c).1
            (λ b e. entry-AllOf pointer (entries c.lru_list) b all (sym value ∙ e)) kept
            (rw touched (
              recent_touch-AllOf pointer (entries c.lru_list) (entry pointer (entries c.lru_list))
                refl all)))
