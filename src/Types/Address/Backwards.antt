-- ===== src/Types/Address/Backwards.antt =====
-- `address::range` in `src/common/types/address.h` on reversed bounds.
use uh_core.Base.{
  true, false, ℕ, ◌+◌, ◌-◌, ◌≤◌, ◌<◌, ◌≡◌, refl, ap, ◌∙◌, List, [], ◌∷◌, ◌++◌, arith, ltb,
  le→not-ltb, lt→ltb, length, drop, take_of_length-le, add64, sub64, add64_exact, sub64_exact,
  sub64_wraps, word, wide, append-nil, length-drop,
}
use uh_core.Types.Fragment.{Fragment, subfrag, frag_bytes, length-span, subfrag-inside}
use uh_core.Types.Address.{range_rest, range_find, range}
use uh_core.Types.Address.Bytes.{list_bytes, bytes, total}
use uh_core.Types.Address.Range.{size-subfrag}

range_rest_past : (end ptr : ℕ) (fs : List Fragment) → end ≤ ptr → range_rest end ptr fs ≡ []
unfolding range_rest
range_rest_past end ptr [] h = refl
range_rest_past end ptr (f ∷ fs) h = rw (le→not-ltb ptr end h)

-- The loop on reversed bounds: `end` lies before the fragment that holds `start`.
range_find_backwards :
    (start end ptr : ℕ) (before : List Fragment) (f : Fragment) (after : List Fragment)
    → ptr + total before + f.size < word
    → f.pointer + f.size < wide
    → ptr + total before ≤ start
    → start < ptr + total before + f.size
    → end < ptr + total before
    → list_bytes (range_find start end ptr (before ++ f ∷ after))
      ≡ drop (start - (ptr + total before)) (frag_bytes f)
unfolding range_find
range_find_backwards start end ptr [] f after small fit p h b =
    let step : add64 ptr f.size ≡ ptr + f.size = add64_exact ptr f.size (omega arith) in
    let here : ltb start (ptr + f.size) ≡ true = lt→ltb start (ptr + f.size) (omega arith) in
    let left : sub64 start ptr ≡ start - ptr = sub64_exact start ptr (omega arith) (omega arith) in
    let far = end + word - ptr in
    let right : sub64 end ptr ≡ far = sub64_wraps end ptr (omega arith) (omega arith) in
    let size : (subfrag f (start - ptr) far).size ≡ f.size - (start - ptr) =
      size-subfrag f (start - ptr) far (omega arith) (omega arith) (omega arith) ∙ omega arith in
    let moved : add64 start (subfrag f (start - ptr) far).size ≡ ptr + f.size =
      rw size (add64_exact start (f.size - (start - ptr)) (omega arith) ∙ omega arith) in
    let offset : start - (ptr + 0) ≡ start - ptr = omega arith in
    rw
      (
        step,
        here,
        left,
        right,
        moved,
        range_rest_past end (ptr + f.size) after (omega arith),
        offset,
        append-nil,
      )
      (subfrag-inside f (start - ptr) far fit (omega arith) (omega arith)
        ∙ take_of_length-le _ _
            (omega (arith, length-drop (start - ptr) (frag_bytes f), length-span f.pointer f.size)))
range_find_backwards start end ptr (g ∷ before) f after small fit p h b =
    let step : add64 ptr g.size ≡ ptr + g.size = add64_exact ptr g.size (omega arith) in
    let later : ltb start (ptr + g.size) ≡ false = le→not-ltb start (ptr + g.size) (omega arith) in
    rw (step, later)
      (range_find_backwards start end (ptr + g.size) before f after (omega arith) fit (omega arith)
          (omega arith) (omega arith)
        ∙ ap (λ k. drop k (frag_bytes f)) (omega arith))

-- Reversed bounds that lie in different fragments do not give an empty range: where `end` lies
-- before the fragment that holds `start`, `range` yields the bytes of that fragment from `start` to
-- the fragment's end, and this is at least one byte.
pub range_backwards :
    (before : List Fragment) (f : Fragment) (after : List Fragment) (start end : ℕ)
    → total before + f.size < word
    → f.pointer + f.size < wide
    → total before ≤ start
    → start < total before + f.size
    → end < total before
    → (bytes (range (record { fragments = before ++ f ∷ after }) start end)
        ≡ drop (start - total before) (frag_bytes f))
      × (0 < length (drop (start - total before) (frag_bytes f)))
unfolding range
range_backwards before f after start end small fit p h b = (
  range_find_backwards start end 0 before f after (omega arith) fit (omega arith) (omega arith)
        (omega arith)
      ∙ ap (λ k. drop k (frag_bytes f)) (omega arith),
  omega (arith, length-drop (start - total before) (frag_bytes f), length-span f.pointer f.size),
)
