-- ===== src/Types/Address/Range.antt =====
-- `address::range` in `src/common/types/address.h`, against the bytes of the address.
use uh_core.Base.{
  ℕ, ◌+◌, ◌-◌, ◌≤◌, ◌<◌, min, ◌≡◌, sym, ap, ap₂, ◌∙◌, List, [], ◌∷◌, ◌++◌, inl, inr, arith, ltb,
  ltb→lt, not-ltb→le, Bool-cases, length, take, drop, take-append, drop-append, drop_of_length-le,
  add64, sub64, add64_exact, sub64_exact, word, wide, add128, take-nil, drop-nil, length-drop,
  length-take,
}
use uh_core.Types.Fragment.{Fragment, subfrag, frag_bytes, length-span, subfrag-inside}
use uh_core.Types.Address.{Address, range_rest, range_find, range, data_size}
use uh_core.Types.Address.Bytes.{
  list_bytes, bytes, total, AllFit, IsValid, length-list_bytes, data_size-length,
}

pub size-subfrag :
    (f : Fragment) (start end : ℕ)
    → start ≤ f.size
    → f.size < word
    → start ≤ end
    → (subfrag f start end).size ≡ min f.size end - start
unfolding subfrag sub64
size-subfrag f start end h k l = ground arith

-- The rest of a range: what is left of the bytes up to `end`.
range_rest-bytes :
    (end ptr : ℕ) (fs : List Fragment)
    → AllFit fs
    → ptr + total fs < word
    → end < word
    → list_bytes (range_rest end ptr fs) ≡ take (end - ptr) (list_bytes fs)
unfolding range_rest
range_rest-bytes end ptr [] fit small e = sym (take-nil (end - ptr))
range_rest-bytes end ptr (f ∷ fs) fit small e = elim (Bool-cases (ltb ptr end)) [
  | inl more ↦
      let before = ltb→lt ptr end more in
      let m = min f.size (end - ptr) in
      let near : sub64 end ptr ≡ end - ptr = sub64_exact end ptr (omega arith) e in
      let cut : (subfrag f 0 (end - ptr)).size ≡ m =
        size-subfrag f 0 (end - ptr) (omega arith) (omega arith) (omega arith) ∙ omega arith in
      let moved : add64 ptr (subfrag f 0 (end - ptr)).size ≡ ptr + m =
        rw cut (add64_exact ptr m (omega arith)) in
      rw (more, near, moved, take-append, length-span)
        (ap₂ ◌++◌
          (subfrag-inside f 0 (end - ptr) fit.0 (omega arith) (omega arith)
            ∙ ap (λ k. take k (frag_bytes f)) (omega arith))
          (range_rest-bytes end (ptr + m) fs fit.1 (omega arith) e
            ∙ ap (λ k. take k (list_bytes fs)) (omega arith)))
  | inr done ↦ let past : end - ptr ≡ 0 = omega (arith, not-ltb→le ptr end done) in rw (done, past)
]

-- From the fragment that begins at `ptr` on: the bytes from `start` up to `end`.
range_find-bytes :
    (start end ptr : ℕ) (fs : List Fragment)
    → AllFit fs
    → ptr + total fs < word
    → ptr ≤ start
    → start ≤ end
    → end < word
    → list_bytes (range_find start end ptr fs)
      ≡ take (end - start) (drop (start - ptr) (list_bytes fs))
unfolding range_find
range_find-bytes start end ptr [] fit small p l e = rw (drop-nil, take-nil)
range_find-bytes start end ptr (f ∷ fs) fit small p l e =
    let step : add64 ptr f.size ≡ ptr + f.size = add64_exact ptr f.size (omega arith) in
    elim (Bool-cases (ltb start (ptr + f.size))) [
      | inl here ↦
          let within = ltb→lt start (ptr + f.size) here in
          let m = min f.size (end - ptr) - (start - ptr) in
          let left : sub64 start ptr ≡ start - ptr = sub64_exact start ptr p (omega arith) in
          let right : sub64 end ptr ≡ end - ptr = sub64_exact end ptr (omega arith) e in
          let cut : (subfrag f (start - ptr) (end - ptr)).size ≡ m =
            size-subfrag f (start - ptr) (end - ptr) (omega arith) (omega arith) (omega arith) in
          let moved : add64 start (subfrag f (start - ptr) (end - ptr)).size ≡ start + m =
            rw cut (add64_exact start m (omega arith)) in
          let front : start - ptr - f.size ≡ 0 = omega arith in
          rw
            (
              step, here, left, right, moved, drop-append, take-append, length-drop, length-span,
              front,
            )
            (ap₂ ◌++◌
              (subfrag-inside f (start - ptr) (end - ptr) fit.0 (omega arith) (omega arith)
                ∙ ap (λ k. take k (drop (start - ptr) (frag_bytes f))) (omega arith))
              (range_rest-bytes end (start + m) fs fit.1 (omega arith) e
                ∙ ap (λ k. take k (list_bytes fs)) (omega arith)))
      | inr later ↦
          let beyond = not-ltb→le start (ptr + f.size) later in
          let skipped : drop (start - ptr) (frag_bytes f) ≡ [] =
            drop_of_length-le _ (frag_bytes f) (omega (arith, length-span f.pointer f.size)) in
          rw (step, later, drop-append, length-span, skipped)
            (range_find-bytes start end (ptr + f.size) fs fit.1 (omega arith) beyond l e
              ∙ ap (λ k. take (end - start) (drop k (list_bytes fs))) (omega arith))
    ]

-- For `start ≤ end`, `range` yields exactly the bytes of the address from offset `start` up to
-- offset `end`, or up to the end of the address if that comes first, in their order.
pub range-bytes :
    (a : Address) (start end : ℕ)
    → IsValid a
    → start ≤ end
    → end < word
    → bytes (range a start end) ≡ take (end - start) (drop start (bytes a))
unfolding range
range-bytes a start end v l e =
    range_find-bytes start end 0 a.fragments v.fits (omega (arith, v.small)) (omega arith) l e
    ∙ ap (λ k. take (end - start) (drop k (bytes a))) (omega arith)

subfrag-fits :
    (f : Fragment) (start end : ℕ)
    → f.pointer + f.size < wide
    → f.size < word
    → start ≤ f.size
    → (subfrag f start end).pointer + (subfrag f start end).size < wide
unfolding subfrag add128 sub64
subfrag-fits f start end h k l = ground arith

range_rest-AllFit :
    (end ptr : ℕ) (fs : List Fragment)
    → AllFit fs
    → total fs < word
    → AllFit (range_rest end ptr fs)
unfolding range_rest
range_rest-AllFit end ptr [] fit small = tt
range_rest-AllFit end ptr (f ∷ fs) fit small = elim (Bool-cases (ltb ptr end)) [
  | inl more ↦ rw more (
    subfrag-fits f 0 (sub64 end ptr) fit.0 (omega arith) (omega arith),
    range_rest-AllFit end (add64 ptr (subfrag f 0 (sub64 end ptr)).size) fs fit.1 (omega arith),
  )
  | inr done ↦ rw done tt
]

range_find-AllFit :
    (start end ptr : ℕ) (fs : List Fragment)
    → AllFit fs
    → ptr + total fs < word
    → ptr ≤ start
    → AllFit (range_find start end ptr fs)
unfolding range_find
range_find-AllFit start end ptr [] fit small p = tt
range_find-AllFit start end ptr (f ∷ fs) fit small p =
    let step : add64 ptr f.size ≡ ptr + f.size = add64_exact ptr f.size (omega arith) in
    elim (Bool-cases (ltb start (ptr + f.size))) [
      | inl here ↦
          let within = ltb→lt start (ptr + f.size) here in
          let left : sub64 start ptr ≡ start - ptr = sub64_exact start ptr p (omega arith) in
          rw (step, here, left)
            (
              subfrag-fits f (start - ptr) (sub64 end ptr) fit.0 (omega arith) (omega arith),
              range_rest-AllFit end _ fs fit.1 (omega arith),
            )
      | inr later ↦
          rw (step, later)
            (range_find-AllFit start end (ptr + f.size) fs fit.1 (omega arith)
              (not-ltb→le start (ptr + f.size) later))
    ]

-- The size of the range, in plain numbers.
length-range :
    (a : Address) (start end : ℕ)
    → IsValid a
    → start ≤ end
    → end < word
    → length (bytes (range a start end)) ≡ min (end - start) (data_size a - start)
length-range a start end v l e =
    rw (range-bytes a start end v l e, length-take, length-drop, data_size-length a v)

-- For `start ≤ end`, the address that `range` yields is valid again, and its `data_size` is the
-- length of the range, cut at the end of the address.
pub range-IsValid :
    (a : Address) (start end : ℕ)
    → IsValid a
    → start ≤ end
    → end < word
    → IsValid (range a start end)
      × (data_size (range a start end) ≡ min (end - start) (data_size a - start))
range-IsValid a start end v l e =
    let valid : IsValid (range a start end) = record {
      fits =
          unfold range in
          range_find-AllFit start end 0 a.fragments v.fits (omega (arith, v.small)) (omega arith);
      small =
          omega (
            arith,
            length-range a start end v l e,
            length-list_bytes (range a start end).fragments,
          );
    } in
    (valid, data_size-length _ valid ∙ length-range a start end v l e)
