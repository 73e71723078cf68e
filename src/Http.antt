-- ===== src/Http.antt =====
-- `src/entrypoint/http/range.h` and `range.cpp`: the ranges of a request, from
-- the text of its header to the bytes of an address.
use uh_core.Base.{
  ℕ, zero, suc, ◌+◌, ◌-◌, ◌*◌, ◌/◌, ◌%◌, ◌==◌, ltb, leb, Bool, true, false, not, ◌&&◌, ◌||◌,
  if◌then◌else◌, Option, none, some, List, [], ◌∷◌, ◌++◌, length, take, drop, add64, sub64, word,
}
use uh_core.Base.Result.{Result, ok, throws, bad_request, invalid_argument, out_of_range, ◌>>=◌}
use uh_core.Strings.{split, lowercase}
use uh_core.Policy.Matchers.{codes, texts_equal}
use uh_core.Types.Address.{Address, append, empty_address, range, size}
pub mod Ranges
pub mod Decimal
pub mod Header
mod Tests

pub record ByteRange : Type 0 where
  pub start : ℕ
  pub end : ℕ

-- The loop of `apply_range`.
unfoldable pub apply_ranges : Address → List ByteRange → Address → Address
apply_ranges addr [] rv = rv
apply_ranges addr (r ∷ ranges) rv = apply_ranges addr ranges (append rv (range addr r.start r.end))

unfoldable pub apply_range : Address → List ByteRange → Address
apply_range addr ranges = if size addr == 0 then addr else apply_ranges addr ranges empty_address

unfoldable pub range_length : ByteRange → ℕ
unfolding sub64
range_length r = if ltb r.end r.start then 0 else sub64 r.end r.start

-- `std::to_string`: the digits of a number in front of a text; a number has fewer digits than it
-- counts, and one more.
unfoldable pub to_decimal : ℕ → ℕ → List ℕ → List ℕ
to_decimal zero n text = text
to_decimal (suc fuel) n text =
    let more = to_decimal fuel (n / 10) ((48 + n % 10) ∷ text) in
    if ltb n 10 then (48 + n) ∷ text else more

abbrev pub dash : ℕ
dash = 45

-- `range::to_string`
unfoldable pub range_to_string : ByteRange → List ℕ
unfolding to_decimal sub64
range_to_string r =
    let last = sub64 r.end 1 in
    to_decimal (suc r.start) r.start [] ++ dash ∷ to_decimal (suc last) last []

abbrev pub is_digit : ℕ → Bool
is_digit c = leb 48 c && leb c 57

abbrev pub is_space : ℕ → Bool
is_space c = c == 32 || leb 9 c && leb c 13

-- The value of the digits at the begin of a text, behind digits of value `v`.
unfoldable pub leading_digits : ℕ → List ℕ → ℕ
leading_digits v [] = v
leading_digits v (c ∷ cs) =
    let more = leading_digits (v * 10 + (c - 48)) cs in if is_digit c then more else v

abbrev pub skip_spaces : List ℕ → List ℕ
skip_spaces [] = []
skip_spaces (c ∷ cs) = if is_space c then skip_spaces cs else c ∷ cs

-- A negative number wraps.
abbrev pub in_range : Bool → ℕ → Result ℕ
in_range negative v =
    if leb word v then throws out_of_range else ok (if negative then sub64 0 v else v)

-- A number behind its sign.
abbrev pub number : Bool → List ℕ → Result ℕ
number negative [] = throws invalid_argument
number negative (c ∷ cs) =
    if is_digit c then in_range negative (leading_digits 0 (c ∷ cs)) else throws invalid_argument

abbrev pub signed : List ℕ → Result ℕ
signed [] = throws invalid_argument
signed (c ∷ cs) =
    if c == dash then number true cs else if c == 43 then number false cs else number false (c ∷ cs)

-- `std::stoull`
unfoldable pub stoull : List ℕ → Result ℕ
unfolding leading_digits sub64
stoull text = signed (skip_spaces text)

abbrev pub one_later : Option ℕ → Option ℕ
one_later none = none
one_later (some n) = some (suc n)

-- `find`
unfoldable pub find_char : ℕ → List ℕ → Option ℕ
find_char c [] = none
find_char c (d ∷ ds) = if d == c then some 0 else one_later (find_char c ds)

-- Whatever is thrown becomes a bad request.
abbrev pub or_bad_request : Result ByteRange → Result ByteRange
or_bad_request (ok r) = ok r
or_bad_request (throws e) = throws bad_request

abbrev pub parse_spec_at : Option ℕ → List ℕ → ℕ → Result ByteRange
parse_spec_at none spec size = throws bad_request
parse_spec_at (some zero) spec size =
    or_bad_request (stoull (drop 1 spec) >>= λ b. ok (record { start = sub64 size b; end = size }))
parse_spec_at (some (suc n)) spec size =
    if suc n == length spec - 1
    then or_bad_request
        (stoull (take (length spec - 1) spec) >>= λ b. ok (record { start = b; end = size }))
    else or_bad_request (
        stoull (take (suc n) spec) >>= λ from.
        stoull (drop (suc (suc n)) spec) >>= λ to. ok (record { start = from; end = add64 to 1 }))

unfoldable pub parse_range_spec : List ℕ → ℕ → Result ByteRange
unfolding stoull find_char add64
parse_range_spec spec size = parse_spec_at (find_char dash spec) spec size

unfoldable pub parse_specs : List (List ℕ) → ℕ → Result (List ByteRange)
unfolding parse_range_spec
parse_specs [] max = ok []
parse_specs (spec ∷ specs) max =
    parse_range_spec spec max >>= λ r. parse_specs specs max >>= λ rs. ok (r ∷ rs)

abbrev pub parse_header_at : Option ℕ → List ℕ → ℕ → Result (List ByteRange)
parse_header_at none header max = throws bad_request
parse_header_at (some equals) header max =
    if texts_equal (lowercase (take equals header)) (codes "bytes")
    then parse_specs (split 44 (drop (suc equals) header)) max
    else throws bad_request

unfoldable pub parse_range_header : List ℕ → ℕ → Result (List ByteRange)
unfolding parse_specs lowercase split
parse_range_header header max = parse_header_at (find_char 61 header) header max
