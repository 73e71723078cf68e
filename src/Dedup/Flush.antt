-- ===== src/Dedup/Flush.antt =====
-- `flush_storage` of `src/deduplicator/fragmentation.cpp`: the unstored fragments are written as
-- one buffer, and the address of the buffer is dealt out to them.
pub mod Refill
pub mod Fill
pub mod Place
pub mod Buffer
pub mod Content
pub mod Outcome
use uh_core.Base.{
  ℕ, zero, suc, ◌+◌, min, Bool, true, Option, none, some, List, [], ◌∷◌, ◌++◌, leb, ltb, ◌==◌,
  if◌then◌else◌, length, take, drop, add64, sub64, add128,
}
use uh_core.Base.Result.{and_then, Result, ok, throws, runtime_error, out_of_range}
use uh_core.Types.Fragment.{Fragment}
use uh_core.Types.Address.{Address, push, get, size}
use uh_core.Dedup.Fragmentation.{DdFragment, Fragmentation, is_stored}

-- The place in the buffer's address that `compute_unstored_addresses` has reached.
pub record Cursor : Type 0 where
  pub storage_frag : Option Fragment
  pub offset : ℕ
  pub id : ℕ

abbrev pub needs_next : Option Fragment → ℕ → Bool
needs_next none offset = true
needs_next (some f) offset = offset == f.size

-- A cursor on a storage fragment, which there is in every call.
abbrev pub load : Option Fragment → Cursor → Result (Fragment × Cursor)
load none c = throws runtime_error
load (some f) c = ok (f, record c { storage_frag = some f })

-- Takes the next storage fragment where the current one is used up.
unfoldable pub refill : Address → Cursor → Result (Fragment × Cursor)
unfolding size get
refill buffer c =
    if needs_next c.storage_frag c.offset
    then (if leb (size buffer) c.id
        then throws runtime_error
        else load (get buffer c.id) (record c { offset = 0; id = add64 c.id 1 }))
    else load c.storage_frag c

-- The `while` loop of `compute_unstored_addresses` over one fragment of `size` bytes, with fuel;
-- `done` is `dd_frag_offset`. `none` means that the fuel ran out.
unfoldable pub fill : ℕ → Address → Cursor → Address → ℕ → ℕ → Option (Result (Cursor × Address))
unfolding refill push
fill zero buffer c addr done size = none
fill (suc k) buffer c addr done size =
    if ltb done size
    then elim (refill buffer c) [
      | throws e ↦ some (throws e)
      | ok (f, d) ↦
          let n = min (sub64 f.size d.offset) (sub64 size done) in
          let addr' = push addr (record { pointer = add128 f.pointer d.offset; size = n }) in
          let d' = record d { offset = add64 d.offset n } in
          let rest = fill k buffer d' addr' (add64 done n) size in
          if ltb f.size d'.offset then some (throws out_of_range) else rest
    ]
    else some (ok (c, addr))

-- Enough rounds for one fragment: each takes a byte or moves on to the next storage fragment.
abbrev pub fill_fuel : Address → ℕ → ℕ
fill_fuel buffer size = size + length buffer.fragments + 1

abbrev pub first_cursor : Cursor
first_cursor = record { storage_frag = none; offset = 0; id = 0 }

module _ {H : Type 0} where
  -- The `for` loop of `compute_unstored_addresses`.
  unfoldable pub compute_from :
      Address → Cursor → List (DdFragment H) → Option (Result (List (DdFragment H)))
  unfolding fill
  compute_from buffer c [] = some (ok [])
  compute_from buffer c (f ∷ fs) =
      let skipped = and_then (compute_from buffer c fs) λ gs. some (ok (f ∷ gs)) in
      let placed =
        and_then (fill (fill_fuel buffer (length f.payload)) buffer c f.addr 0 (length f.payload))
          λ filled.
            and_then (compute_from buffer filled.0 fs)
              λ gs. some (ok (record f { addr = filled.1 } ∷ gs)) in
      if is_stored f.type then skipped else placed

  unfoldable pub compute_unstored_addresses : Fragmentation H → Option (Result (Fragmentation H))
  unfolding compute_from
  compute_unstored_addresses fr =
      and_then (compute_from fr.buffer_address first_cursor fr.frags)
        λ fs. some (ok (record fr { frags = fs }))

-- `memcpy` into a buffer; `none` is a write outside of it.
unfoldable pub copy_at : List ℕ → ℕ → List ℕ → Option (List ℕ)
copy_at buffer offs bytes =
    if leb (offs + length bytes) (length buffer)
    then some (take offs buffer ++ (bytes ++ drop (offs + length bytes) buffer))
    else none

module _ {H : Type 0} where
  -- The loop of `unstored_to_buffer`: the buffer and the offsets of the fragments.
  unfoldable pub to_buffer_from : List ℕ → ℕ → List (DdFragment H) → Option (List ℕ × List ℕ)
  unfolding copy_at
  to_buffer_from buffer offs [] = some (buffer, [])
  to_buffer_from buffer offs (f ∷ fs) =
      let skipped = to_buffer_from buffer offs fs in
      let copied : Option (List ℕ × List ℕ) = elim (copy_at buffer offs f.payload) [
        | none ↦ none
        | some b ↦ elim (to_buffer_from b (add64 offs (length f.payload)) fs) [
          | none ↦ none
          | some (b', os) ↦ some (b', offs ∷ os)
        ]
      ] in
      if is_stored f.type then skipped else copied

  -- `blank` is the new buffer of `m_unstored_size` bytes, whose content is arbitrary.
  unfoldable pub unstored_to_buffer :
      (ℕ → List ℕ) → Fragmentation H → Option (List ℕ × Fragmentation H)
  unfolding to_buffer_from
  unstored_to_buffer blank fr = elim (to_buffer_from (blank fr.unstored_size) 0 fr.frags) [
    | none ↦ none
    | some (b, os) ↦ some (b, record fr { offsets = fr.offsets ++ os })
  ]

  -- `write` is the storage service: its new state, and the address or an exception.
  unfoldable pub flush_storage :
      {G : Type 0}
      → (G → List ℕ → List ℕ → G × Result Address)
      → (ℕ → List ℕ)
      → G
      → Fragmentation H
      → G × Option (Result (Fragmentation H))
  unfolding unstored_to_buffer compute_unstored_addresses
  flush_storage {G} write blank g fr =
      let nothing : G × Option (Result (Fragmentation H)) = (g, some (ok fr)) in
      let sent : G × Option (Result (Fragmentation H)) = elim (unstored_to_buffer blank fr) [
        | none ↦ (g, none)
        | some (b, fr') ↦
            let written = write g b fr'.offsets in
            (
              written.0,
              and_then (some written.1)
                  λ a. compute_unstored_addresses (record fr' { buffer_address = a }),
            )
      ] in
      if fr.unstored_size == 0 then nothing else sent
