-- ===== src/Dedup/Flush/Refill.antt =====
-- The cursor of `compute_unstored_addresses` in `src/deduplicator/fragmentation.cpp`: which bytes of
-- the buffer's address it has before it, and how `refill` moves it.
use uh_core.Base.{
  ℕ, zero, suc, ◌+◌, ◌-◌, ◌≤◌, ◌<◌, ◌≡◌, refl, sym, ap, ◌∙◌, ◌⊎◌, inl, inr, true, false, Option,
  none, some, List, [], ◌∷◌, ◌++◌, arith, leb, ==_iff, Bool-cases, leb→le, length, take, drop,
  append-nil, length-drop, drop-drop, drop_of_length-le, take-append_le, drop-append_le,
  drop-get_elem?, get_elem?, add64, add64_exact, word, wide,
}
use uh_core.Base.Result.{ok, throws, runtime_error}
use uh_core.Types.Fragment.{Fragment, span, frag_bytes, length-span, take-span, drop-span}
use uh_core.Types.Address.{Address, get, size as address_size}
use uh_core.Types.Address.Bytes.{list_bytes, list_bytes-append, total, AllFit}
use uh_core.Dedup.Flush.{Cursor, needs_next, refill}

-- The bytes of the current storage fragment that are left.
abbrev pub current_bytes : Option Fragment → ℕ → List ℕ
current_bytes none offset = []
current_bytes (some f) offset = drop offset (frag_bytes f)

-- All bytes that a cursor has before it.
abbrev pub left_bytes : Address → Cursor → List ℕ
left_bytes buffer c =
    current_bytes c.storage_frag c.offset ++ list_bytes (drop c.id buffer.fragments)

abbrev pub FragIsValid : Option Fragment → ℕ → Type 0
FragIsValid none offset = Unit {0}
FragIsValid (some f) offset = (offset ≤ f.size) × (f.size < word) × (f.pointer + f.size < wide)

pub record BufferIsValid (buffer : Address) : Type 0 where
  pub fits : AllFit buffer.fragments
  pub small : total buffer.fragments < word
  pub short : length buffer.fragments + 1 < word

pub record CursorIsValid (buffer : Address) (c : Cursor) : Type 0 where
  pub frag : FragIsValid c.storage_frag c.offset
  pub inside : c.id ≤ length buffer.fragments

AllFit-get_elem? :
    (fs : List Fragment) (i : ℕ) (f : Fragment)
    → AllFit fs
    → total fs < word
    → get_elem? fs i ≡ some f
    → FragIsValid (some f) 0
AllFit-get_elem? [] i f fits small e = absurd (ground arith)
AllFit-get_elem? (g ∷ fs) zero f fits small e = ground arith
AllFit-get_elem? (g ∷ fs) (suc i) f fits small e = AllFit-get_elem? fs i f fits.1 (omega arith) e

-- What `refill` yields: a current fragment, with the same bytes before the cursor. Either it has
-- bytes left, or the cursor moved on.
pub record IsLoaded (buffer : Address) (c : Cursor) (f : Fragment) (d : Cursor) : Type 0 where
  pub current : d.storage_frag ≡ some f
  pub frag : FragIsValid (some f) d.offset
  pub inside : d.id ≤ length buffer.fragments
  pub same :
      drop d.offset (frag_bytes f) ++ list_bytes (drop d.id buffer.fragments) ≡ left_bytes buffer c
  pub progress : ((d.id ≡ c.id) × (d.offset < f.size)) ⊎ (c.id < d.id)

-- The next storage fragment, where there is one.
refill_next :
    (buffer : Address) (c : Cursor)
    → BufferIsValid buffer
    → current_bytes c.storage_frag c.offset ≡ []
    → needs_next c.storage_frag c.offset ≡ true
    → c.id < length buffer.fragments
    → (f : Fragment) × (d : Cursor) × (refill buffer c ≡ ok (f, d)) × IsLoaded buffer c f d
unfolding refill address_size get
refill_next buffer c v used needs before =
    let (f, found, rest) = drop-get_elem? buffer.fragments c.id before in
    let moved : add64 c.id 1 ≡ suc c.id =
      add64_exact c.id 1 (omega (arith, v.short)) ∙ omega arith in
    let below : leb (length buffer.fragments) c.id ≡ false = ground arith in
    (
      f,
      record { storage_frag = some f; offset = 0; id = suc c.id },
      rw (needs, below, found, moved),
      record {
        current = refl;
        frag = AllFit-get_elem? buffer.fragments c.id f v.fits v.small found;
        inside = before;
        same = rw (used, rest);
        progress = inr (omega arith);
      },
    )

used_up :
    (o : Option Fragment) (offset : ℕ) → needs_next o offset ≡ true → current_bytes o offset ≡ []
used_up none offset h = refl
used_up (some f) offset h =
    drop_of_length-le offset (frag_bytes f)
      (omega (arith, (==_iff offset f.size).0 h, length-span f.pointer f.size))

refill_current :
    (buffer : Address) (c : Cursor) (o : Option Fragment)
    → c.storage_frag ≡ o
    → CursorIsValid buffer c
    → needs_next o c.offset ≡ false
    → (f : Fragment) × (d : Cursor) × (refill buffer c ≡ ok (f, d)) × IsLoaded buffer c f d
unfolding refill
refill_current buffer c none e v busy = cc
refill_current buffer c (some f) e v busy =
    let valid : FragIsValid (some f) c.offset = rw e at v.frag in
    (
      f,
      record c { storage_frag = some f },
      rw (e, busy),
      record {
        current = refl;
        frag = valid;
        inside = v.inside;
        same = rw e;
        progress = inl (refl, ground arith);
      },
    )

-- `refill` yields a current fragment, or throws where no byte is left.
pub refill_lem :
    (buffer : Address) (c : Cursor)
    → BufferIsValid buffer
    → CursorIsValid buffer c
    → ((f : Fragment) × (d : Cursor) × (refill buffer c ≡ ok (f, d)) × IsLoaded buffer c f d)
      ⊎ ((refill buffer c ≡ throws runtime_error) × (left_bytes buffer c ≡ []))
refill_lem buffer c b v = elim (Bool-cases (needs_next c.storage_frag c.offset)) [
  | inr busy ↦ inl (refill_current buffer c c.storage_frag refl v busy)
  | inl needs ↦
      let used = used_up c.storage_frag c.offset needs in
      elim (Bool-cases (leb (length buffer.fragments) c.id)) [
        | inr before ↦ inl (refill_next buffer c b used needs (ground arith))
        | inl done ↦
            let nothing : drop c.id buffer.fragments ≡ [] =
              drop_of_length-le c.id buffer.fragments (leb→le _ _ done) in
            inr (unfold refill address_size in rw (needs, done), rw (used, nothing))
      ]
]

-- A step of the loop: the address grows by the bytes that the cursor moves over.
pub step_bytes :
    (buffer : Address) (c d : Cursor) (f : Fragment) (addr : Address) (n : ℕ)
    → IsLoaded buffer c f d
    → n ≤ f.size - d.offset
    → (list_bytes (addr.fragments ++ record { pointer = f.pointer + d.offset; size = n } ∷ [])
        ≡ list_bytes addr.fragments ++ take n (left_bytes buffer c))
      × (drop (d.offset + n) (frag_bytes f) ++ list_bytes (drop d.id buffer.fragments)
          ≡ drop n (left_bytes buffer c))
step_bytes buffer c d f addr n l small =
    let len : n ≤ length (drop d.offset (frag_bytes f)) =
      omega (arith, length-drop d.offset (frag_bytes f), length-span f.pointer f.size) in
    let cut : take n (left_bytes buffer c) ≡ span (f.pointer + d.offset) n =
      ap (take n) (sym l.same)
      ∙ take-append_le n _ _ len
      ∙ rw (drop-span, take-span) (ap (span (f.pointer + d.offset)) (omega arith)) in
    (
      list_bytes-append addr.fragments _
          ∙ ap (λ x. list_bytes addr.fragments ++ x) (rw cut (append-nil _)),
      sym (
          ap (drop n) (sym l.same)
          ∙ drop-append_le n _ _ len
          ∙ ap (λ x. x ++ list_bytes (drop d.id buffer.fragments))
              (drop-drop n d.offset (frag_bytes f))),
    )
