-- ===== src/Dedup/Flush/Fill.antt =====
-- The `while` loop of `compute_unstored_addresses` in `src/deduplicator/fragmentation.cpp`, over
-- one fragment.
use uh_core.Base.{
  ℕ, zero, suc, ◌+◌, ◌-◌, ◌≤◌, ◌<◌, min, ◌≡◌, ap, ◌∙◌, inl, inr, true, false, some, [], ◌∷◌, ◌++◌,
  arith, ltb, Bool-cases, ltb→lt, lt→ltb, not-ltb→le, le→not-ltb, length, take, drop, append_assoc,
  append-nil, length-append, length-drop, take_add, drop-drop, add64, sub64, add128, add64_exact,
  sub64_exact, add128_exact, word,
}
use uh_core.Base.Result.{ok, throws, runtime_error}
use uh_core.Types.Fragment.{Fragment, frag_bytes, length-span}
use uh_core.Types.Address.{Address, push}
use uh_core.Types.Address.Bytes.{list_bytes}
use uh_core.Dedup.Flush.{Cursor, refill, fill, fill_fuel}
use uh_core.Dedup.Flush.Refill.{
  left_bytes, BufferIsValid, CursorIsValid, IsLoaded, refill_lem, step_bytes,
}

-- What the loop yields: the bytes up to `size` are dealt out, and the cursor is behind them.
pub record IsFilled (buffer : Address) (c : Cursor) (addr : Address) (n : ℕ) (d : Cursor)
    (addr' : Address) : Type 0 where
  pub valid : CursorIsValid buffer d
  pub placed :
      list_bytes addr'.fragments ≡ list_bytes addr.fragments ++ take n (left_bytes buffer c)
  pub behind : left_bytes buffer d ≡ drop n (left_bytes buffer c)

-- What one round of the loop does: it deals out `t` bytes, and the measure falls.
record IsRound (buffer : Address) (c : Cursor) (addr : Address) (done size t : ℕ) (d : Cursor)
    (addr' : Address) : Type 0 where
  runs : (k : ℕ) → fill (suc k) buffer c addr done size ≡ fill k buffer d addr' (done + t) size
  valid : CursorIsValid buffer d
  left : left_bytes buffer d ≡ drop t (left_bytes buffer c)
  placed : list_bytes addr'.fragments ≡ list_bytes addr.fragments ++ take t (left_bytes buffer c)
  bounded : done + t ≤ size
  available : t ≤ length (left_bytes buffer c)
  smaller :
      (size - (done + t)) + (length buffer.fragments - d.id)
      < (size - done) + (length buffer.fragments - c.id)

-- One round of the loop on a loaded fragment, with its words exact.
module _ (buffer : Address) (c : Cursor) (f : Fragment) (d : Cursor) (addr : Address)
    (done size : ℕ) (loaded : refill buffer c ≡ ok (f, d)) (l : IsLoaded buffer c f d)
    (more : done < size) (small : size < word) where
  abbrev taken : ℕ
  taken = min (f.size - d.offset) (size - done)

  abbrev next_cursor : Cursor
  next_cursor = record d { offset = d.offset + taken }

  abbrev next_addr : Address
  next_addr = record {
    fragments = addr.fragments ++ record { pointer = f.pointer + d.offset; size = taken } ∷ [];
  }

  fill_step :
      (k : ℕ)
      → fill (suc k) buffer c addr done size
        ≡ fill k buffer next_cursor next_addr (done + taken) size
  unfolding fill push
  fill_step k =
      let test : ltb done size ≡ true = ground arith in
      let room : sub64 f.size d.offset ≡ f.size - d.offset =
        sub64_exact f.size d.offset (omega (arith, l.frag)) (omega (arith, l.frag)) in
      let want : sub64 size done ≡ size - done = sub64_exact size done (omega arith) small in
      let place : add128 f.pointer d.offset ≡ f.pointer + d.offset =
        add128_exact f.pointer d.offset (omega (arith, l.frag)) in
      let moved : add64 d.offset taken ≡ d.offset + taken =
        add64_exact d.offset taken (omega (arith, l.frag)) in
      let more_done : add64 done taken ≡ done + taken = add64_exact done taken (omega arith) in
      let inside : ltb f.size (d.offset + taken) ≡ false =
        le→not-ltb f.size (d.offset + taken) (omega (arith, l.frag)) in
      rw (test, loaded, room, want, place, moved, more_done, inside)

  next_valid : CursorIsValid buffer next_cursor
  next_valid = record {
    frag = rw l.current (omega (arith, l.frag), l.frag.1, l.frag.2);
    inside = l.inside;
  }

  next_left : left_bytes buffer next_cursor ≡ drop taken (left_bytes buffer c)
  next_left = rw l.current (step_bytes buffer c d f addr taken l (omega arith)).1

  next_placed :
      list_bytes next_addr.fragments ≡ list_bytes addr.fragments ++ take taken (left_bytes buffer c)
  next_placed = (step_bytes buffer c d f addr taken l (omega arith)).0

  -- The measure of the loop falls.
  next_smaller :
      (size - (done + taken)) + (length buffer.fragments - d.id)
      < (size - done) + (length buffer.fragments - c.id)
  next_smaller = elim l.progress [
    | inl (same, some_left) ↦ omega (arith, l.inside)
    | inr on ↦ omega (arith, l.inside)
  ]

  fill-IsRound : IsRound buffer c addr done size taken next_cursor next_addr
  fill-IsRound = record {
    runs = fill_step;
    valid = next_valid;
    left = next_left;
    placed = next_placed;
    bounded = omega arith;
    available = omega (
      arith,
      ap length l.same,
      length-append (drop d.offset (frag_bytes f)) (list_bytes (drop d.id buffer.fragments)),
      length-drop d.offset (frag_bytes f),
      length-span f.pointer f.size,
    );
    smaller = next_smaller;
  }

-- With enough bytes before the cursor the loop deals out exactly what the fragment needs.
pub fill-IsFilled :
    (k : ℕ) (buffer : Address) (c : Cursor) (addr : Address) (done size : ℕ)
    → BufferIsValid buffer
    → CursorIsValid buffer c
    → done ≤ size
    → size < word
    → (size - done) + (length buffer.fragments - c.id) < k
    → size - done ≤ length (left_bytes buffer c)
    → (d : Cursor) × (addr' : Address) × (fill k buffer c addr done size ≡ some (ok (d, addr')))
      × IsFilled buffer c addr (size - done) d addr'
fill-IsFilled zero buffer c addr done size b v h w m e = absurd (omega arith)
fill-IsFilled (suc k) buffer c addr done size b v h w m e = elim (Bool-cases (ltb done size)) [
  | inr end ↦
      let none_left : size - done ≡ 0 = omega (arith, not-ltb→le done size end) in
      (
        c,
        addr,
        unfold fill in rw end,
        record { valid = v; placed = rw (none_left, append-nil); behind = rw none_left },
      )
  | inl more ↦ elim (refill_lem buffer c b v) [
    | inr (failed, nothing) ↦ absurd (omega (arith, ltb→lt done size more, ap length nothing))
    | inl (f, d, loaded, l) ↦
        let lt = ltb→lt done size more in
        let t = taken buffer c f d addr done size loaded l lt w in
        let r = fill-IsRound buffer c f d addr done size loaded l lt w in
        let (d', addr', run, filled) =
          fill-IsFilled k buffer (next_cursor buffer c f d addr done size loaded l lt w)
            (next_addr buffer c f d addr done size loaded l lt w) (done + t) size b r.valid
            r.bounded w (omega (arith, r.smaller))
            (omega (arith, ap length r.left, length-drop t (left_bytes buffer c))) in
        let sum : t + (size - (done + t)) ≡ size - done = omega (arith, r.bounded) in
        (
          d',
          addr',
          r.runs k ∙ run,
          record {
            valid = filled.valid;
            placed = filled.placed ∙ rw (r.placed, r.left, append_assoc, take_add, sum);
            behind = filled.behind ∙ rw (r.left, drop-drop, sum);
          },
        )
  ]
]

-- With too few bytes before the cursor the loop throws.
pub fill_short :
    (k : ℕ) (buffer : Address) (c : Cursor) (addr : Address) (done size : ℕ)
    → BufferIsValid buffer
    → CursorIsValid buffer c
    → size < word
    → (size - done) + (length buffer.fragments - c.id) < k
    → length (left_bytes buffer c) < size - done
    → fill k buffer c addr done size ≡ some (throws runtime_error)
fill_short zero buffer c addr done size b v w m e = absurd (omega arith)
fill_short (suc k) buffer c addr done size b v w m e =
    let lt : done < size = omega arith in
    elim (refill_lem buffer c b v) [
      | inr (failed, nothing) ↦ unfold fill in rw (lt→ltb done size lt, failed)
      | inl (f, d, loaded, l) ↦
          let t = taken buffer c f d addr done size loaded l lt w in
          let r = fill-IsRound buffer c f d addr done size loaded l lt w in
          r.runs k
          ∙ fill_short k buffer (next_cursor buffer c f d addr done size loaded l lt w)
              (next_addr buffer c f d addr done size loaded l lt w) (done + t) size b r.valid w
              (omega (arith, r.smaller))
              (omega (
                arith,
                r.bounded,
                r.available,
                ap length r.left,
                length-drop t (left_bytes buffer c),
              ))
    ]

-- The loop over a whole fragment of `n` bytes, with the fuel that the code's loop is given.
pub fill_whole :
    (buffer : Address) (c : Cursor) (addr : Address) (n : ℕ)
    → BufferIsValid buffer
    → CursorIsValid buffer c
    → n < word
    → n ≤ length (left_bytes buffer c)
    → (d : Cursor) × (addr' : Address) × (fill (fill_fuel buffer n) buffer c addr 0 n
        ≡ some (ok (d, addr')))
      × IsFilled buffer c addr n d addr'
fill_whole buffer c addr n b v w e =
    let (d, addr', run, l) =
      fill-IsFilled (fill_fuel buffer n) buffer c addr 0 n b v (omega arith) w (omega arith)
        (omega arith) in
    let whole : n - 0 ≡ n = omega arith in
    (
      d,
      addr',
      run,
      record {
        valid = l.valid;
        placed =
            l.placed ∙ ap (λ k. list_bytes addr.fragments ++ take k (left_bytes buffer c)) whole;
        behind = l.behind ∙ ap (λ k. drop k (left_bytes buffer c)) whole;
      },
    )
