-- ===== src/Http/Header.antt =====
-- The `Range` header of `src/entrypoint/http/range.cpp`: `parse_range_header` reads what
-- `range::to_string` writes.
use uh_core.Base.{
  ℕ, zero, suc, ◌-◌, ◌<◌, ◌==◌, ◌≡◌, ◌≢◌, refl, ap, sym, ◌∙◌, false, Option, some, List, [], ◌∷◌,
  ◌++◌, map, arith, length, length-append, take, drop, word, add64, sub64, add64_exact, sub64_exact,
}
use uh_core.Base.Result.{ok}
use uh_core.Strings.{join}
use uh_core.Strings.Split.{occurs, AllAvoid, split-join}
use uh_core.Policy.Matchers.{codes}
use uh_core.Http.{
  ByteRange, to_decimal, range_to_string, dash, find_char, one_later, stoull, parse_spec_at,
  parse_range_spec, parse_specs, parse_range_header,
}
use uh_core.Http.Decimal.{AllDigits, to_decimal-AllDigits, length-decimal, stoull-to_decimal}

take_front : (xs ys : List ℕ) → take (length xs) (xs ++ ys) ≡ xs
take_front [] ys = refl
take_front (x ∷ xs) ys = ap (◌∷◌ x) (take_front xs ys)

drop_front : (xs : List ℕ) (c : ℕ) (ys : List ℕ) → drop (suc (length xs)) (xs ++ c ∷ ys) ≡ ys
drop_front [] c ys = refl
drop_front (x ∷ xs) c ys = drop_front xs c ys

find_char-dash :
    (xs ys : List ℕ) → AllDigits xs → find_char dash (xs ++ dash ∷ ys) ≡ some (length xs)
unfolding find_char
find_char-dash [] ys all = refl
find_char-dash (x ∷ xs) ys (digit, all) =
    let other : (x == dash) ≡ false = ground arith in
    rw other (ap one_later (find_char-dash xs ys all))

-- A number, a dash, and a number.
parse_spec_at-numbers :
    (n a b size : ℕ) (xs ys : List ℕ)
    → length xs ≡ suc n
    → 0 < length ys
    → stoull xs ≡ ok a
    → stoull ys ≡ ok b
    → parse_spec_at (some (suc n)) (xs ++ dash ∷ ys) size
      ≡ ok (record { start = a; end = add64 b 1 })
parse_spec_at-numbers n a b size xs ys e h first second =
    let amount = length-append xs (dash ∷ ys) in
    let inner : (suc n == length (xs ++ dash ∷ ys) - 1) ≡ false = ground (arith, amount, e, h) in
    let front : take (suc n) (xs ++ dash ∷ ys) ≡ xs = rw (sym e) (take_front xs (dash ∷ ys)) in
    let back : drop (suc (suc n)) (xs ++ dash ∷ ys) ≡ ys = rw (sym e) (drop_front xs dash ys) in
    rw (inner, front, back, first, second) refl

parse_range_spec-numbers :
    (a b size : ℕ) (xs ys : List ℕ)
    → AllDigits xs
    → 0 < length xs
    → 0 < length ys
    → stoull xs ≡ ok a
    → stoull ys ≡ ok b
    → parse_range_spec (xs ++ dash ∷ ys) size ≡ ok (record { start = a; end = add64 b 1 })
unfolding parse_range_spec
parse_range_spec-numbers a b size xs ys digits some_first some_second first second =
    ap (λ (o : Option ℕ). parse_spec_at o (xs ++ dash ∷ ys) size) (find_char-dash xs ys digits)
    ∙ go (length xs) refl some_first
  where
    go :
        (k : ℕ)
        → length xs ≡ k
        → 0 < k
        → parse_spec_at (some k) (xs ++ dash ∷ ys) size ≡ ok (record { start = a; end = add64 b 1 })
    go zero e h = absurd (omega arith)
    go (suc n) e h = parse_spec_at-numbers n a b size xs ys e some_second first second

parse_range_spec-range_to_string :
    (r : ByteRange) (max : ℕ)
    → r.start < word
    → 0 < r.end
    → r.end < word
    → parse_range_spec (range_to_string r) max ≡ ok r
unfolding range_to_string
parse_range_spec-range_to_string r max small some_end fits =
    let last = sub64_exact r.end 1 (omega arith) (omega arith) in
    let next : add64 (r.end - 1) 1 ≡ r.end =
      add64_exact (r.end - 1) 1 (omega arith) ∙ omega arith in
    rw last (
      parse_range_spec-numbers r.start (r.end - 1) max (to_decimal (suc r.start) r.start [])
        (to_decimal (suc (r.end - 1)) (r.end - 1) [])
        (to_decimal-AllDigits (suc r.start) r.start [] tt) (length-decimal r.start)
        (length-decimal (r.end - 1)) (stoull-to_decimal r.start small)
        (stoull-to_decimal (r.end - 1) (omega arith))
      ∙ ap (λ (e : ℕ). ok (record { start = r.start; end = e })) next)

-- No end is 0, and all numbers are below 2^64.
abbrev pub AreRanges : List ByteRange → Type 0
AreRanges [] = Unit {0}
AreRanges (r ∷ rs) = ((r.start < word) × (0 < r.end) × (r.end < word)) × AreRanges rs

parse_specs-range_to_string :
    (rs : List ByteRange) (max : ℕ)
    → AreRanges rs
    → parse_specs (map range_to_string rs) max ≡ ok rs
unfolding parse_specs
parse_specs-range_to_string [] max all = refl
parse_specs-range_to_string (r ∷ rs) max ((small, some_end, fits), all) =
    rw
      (
        parse_range_spec-range_to_string r max small some_end fits,
        parse_specs-range_to_string rs max all,
      )
      refl

occurs-digits : (xs : List ℕ) → AllDigits xs → occurs 44 xs ≡ false
occurs-digits [] all = refl
occurs-digits (x ∷ xs) (digit, all) =
    let other : (x == 44) ≡ false = ground arith in rw other (occurs-digits xs all)

occurs-numbers :
    (xs ys : List ℕ) → AllDigits xs → AllDigits ys → occurs 44 (xs ++ dash ∷ ys) ≡ false
occurs-numbers [] ys all all' = occurs-digits ys all'
occurs-numbers (x ∷ xs) ys (digit, all) all' =
    let other : (x == 44) ≡ false = ground arith in rw other (occurs-numbers xs ys all all')

range_to_string-AllAvoid : (rs : List ByteRange) → AllAvoid 44 (map range_to_string rs)
unfolding range_to_string
range_to_string-AllAvoid [] = tt
range_to_string-AllAvoid (r ∷ rs) = (
  occurs-numbers (to_decimal (suc r.start) r.start [])
      (to_decimal (suc (sub64 r.end 1)) (sub64 r.end 1) [])
      (to_decimal-AllDigits (suc r.start) r.start [] tt)
      (to_decimal-AllDigits (suc (sub64 r.end 1)) (sub64 r.end 1) [] tt),
  range_to_string-AllAvoid rs,
)

range_to_string_is_text : (r : ByteRange) (ts : List (List ℕ)) → (range_to_string r ∷ ts) ≢ [] ∷ []
unfolding range_to_string
range_to_string_is_text r ts e =
    go (to_decimal (suc r.start) r.start []) (to_decimal (suc (sub64 r.end 1)) (sub64 r.end 1) []) e
  where
    go : (xs ys : List ℕ) → ((xs ++ dash ∷ ys) ∷ ts) ≡ [] ∷ [] → ⊥
    go [] ys e = cc
    go (x ∷ xs) ys e = cc

-- The header that lists ranges as `range_to_string` writes them is read as these ranges, whatever the size
-- of the object: for one range at least, ends that are not 0, and numbers below 2^64.
pub parse_range_header-range_to_string :
    (r : ByteRange) (rs : List ByteRange) (max : ℕ)
    → AreRanges (r ∷ rs)
    → parse_range_header (codes "bytes=" ++ join (44 ∷ []) (map range_to_string (r ∷ rs))) max
      ≡ ok (r ∷ rs)
unfolding parse_range_header find_char
parse_range_header-range_to_string r rs max all =
    ap (λ (specs : List (List ℕ)). parse_specs specs max)
      (split-join 44 (range_to_string r) (map range_to_string rs)
        (range_to_string-AllAvoid (r ∷ rs)) (range_to_string_is_text r (map range_to_string rs)))
    ∙ parse_specs-range_to_string (r ∷ rs) max all
