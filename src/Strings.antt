-- ===== src/Strings.antt =====
-- `src/common/utils/strings.h` and `strings.cpp`. A `char` is its code from 0 to 255, and the
-- functions of the C library are those of the "C" locale.
pub mod Split
pub mod Hex
pub mod Case
pub mod Trim
pub mod Uri
mod Tests
use Prim.Native.Nat.{bit_or}
use uh_core.Base.{
  Option, none, some, take, drop, ℕ, zero, suc, ◌+◌, ◌-◌, ◌*◌, ◌/◌, ◌%◌, ◌^◌, Bool, true, false,
  not, ◌&&◌, ◌||◌, List, [], ◌∷◌, ◌++◌, map, leb, ltb, ◌==◌, if◌then◌else◌, length,
}
use uh_core.Base.Result.{Result, ok, throws, invalid_argument, ◌>>=◌}

-- The pieces before the next delimiter and after it.
abbrev pub add_front : ℕ → List (List ℕ) → List (List ℕ)
add_front c [] = (c ∷ []) ∷ []
add_front c (piece ∷ pieces) = (c ∷ piece) ∷ pieces

-- The pieces of text that is left, of which there is at least one.
unfoldable pub split_from : ℕ → List ℕ → List (List ℕ)
split_from delimiter [] = [] ∷ []
split_from delimiter (c ∷ cs) =
    let rest = split_from delimiter cs in if c == delimiter then [] ∷ rest else add_front c rest

-- `std::ranges::views::split`: an empty range has no piece.
unfoldable pub split : ℕ → List ℕ → List (List ℕ)
unfolding split_from
split delimiter [] = []
split delimiter (c ∷ cs) = split_from delimiter (c ∷ cs)

-- The loop of `join` behind the first element.
unfoldable pub join_rest : List ℕ → List (List ℕ) → List ℕ
join_rest delimiter [] = []
join_rest delimiter (e ∷ es) = delimiter ++ (e ++ join_rest delimiter es)

unfoldable pub join : List ℕ → List (List ℕ) → List ℕ
unfolding join_rest
join delimiter [] = []
join delimiter (e ∷ es) = e ++ join_rest delimiter es

-- `tolower` of the C library.
abbrev pub tolower : ℕ → ℕ
tolower c = if leb 65 c && leb c 90 then c + 32 else c

unfoldable pub lowercase : List ℕ → List ℕ
lowercase s = map tolower s

-- The loop of `equals_nocase`, on strings of one length.
unfoldable pub equal_nocase_from : List ℕ → List ℕ → Bool
equal_nocase_from [] ys = true
equal_nocase_from (a ∷ xs) [] = true
equal_nocase_from (a ∷ xs) (b ∷ ys) =
    if tolower a == tolower b then equal_nocase_from xs ys else false

unfoldable pub equals_nocase : List ℕ → List ℕ → Bool
unfolding equal_nocase_from
equals_nocase a b = if length a == length b then equal_nocase_from a b else false

-- `hexChars[n]`
abbrev pub hex_char : ℕ → ℕ
hex_char n = if ltb n 10 then 48 + n else 87 + n

-- `to_hex` of one byte, and of a buffer.
unfoldable pub to_hex_byte : ℕ → List ℕ
to_hex_byte value = hex_char (value / 16 % 16) ∷ hex_char (value % 16) ∷ []

unfoldable pub to_hex : List ℕ → List ℕ
unfolding to_hex_byte
to_hex [] = []
to_hex (b ∷ bs) = to_hex_byte b ++ to_hex bs

-- `isxdigit` of the C library.
abbrev pub isxdigit : ℕ → Bool
isxdigit c = leb 48 c && leb c 57 || (leb 65 c && leb c 70 || leb 97 c && leb c 102)

abbrev pub xvalue : ℕ → ℕ
xvalue ch = if leb 97 ch && leb ch 102 then ch - 97 + 10 else ch - 48

-- The loop of `unhex`: the cast to `char` keeps the low eight bits.
unfoldable pub unhex_from : List ℕ → Result (List ℕ)
unhex_from [] = ok []
unhex_from (c ∷ []) = ok []
unhex_from (c ∷ d ∷ cs) =
    let rest = unhex_from cs in
    if not (isxdigit c) || not (isxdigit d)
    then throws invalid_argument
    else rest >>= λ rv. ok (bit_or (xvalue c * 2 ^ 8) (xvalue d) % 256 ∷ rv)

unfoldable pub unhex : List ℕ → Result (List ℕ)
unfolding unhex_from
unhex s =
    let decoded = unhex_from (map tolower s) in
    if length s % 2 == 0 then decoded else throws invalid_argument

-- `chars.find(c) != npos`
abbrev pub contains : List ℕ → ℕ → Bool
contains [] c = false
contains (x ∷ xs) c = if x == c then true else contains xs c

unfoldable pub find_first_not_of : List ℕ → List ℕ → Option ℕ
find_first_not_of chars [] = none
find_first_not_of chars (c ∷ cs) =
    let later : Option ℕ = elim (find_first_not_of chars cs) [
      | none ↦ none
      | some i ↦ some (suc i)
    ] in
    if contains chars c then later else some 0

unfoldable pub find_last_not_of : List ℕ → List ℕ → Option ℕ
find_last_not_of chars [] = none
find_last_not_of chars (c ∷ cs) = elim (find_last_not_of chars cs) [
  | some i ↦ some (suc i)
  | none ↦ if contains chars c then none else some 0
]

-- What `s.substr(start)` and `s.substr(0, end + 1)` are, and the empty string for `npos`.
abbrev pub from_first : Option ℕ → List ℕ → List ℕ
from_first none s = []
from_first (some start) s = drop start s

abbrev pub to_last : Option ℕ → List ℕ → List ℕ
to_last none s = []
to_last (some end) s = take (suc end) s

unfoldable pub ltrim : List ℕ → List ℕ → List ℕ
ltrim s chars = from_first (find_first_not_of chars s) s

unfoldable pub rtrim : List ℕ → List ℕ → List ℕ
rtrim s chars = to_last (find_last_not_of chars s) s

unfoldable pub trim : List ℕ → List ℕ → List ℕ
unfolding ltrim rtrim
trim s chars = ltrim (rtrim s chars) chars

-- The characters that `uri_encode` leaves as they are.
abbrev pub is_unreserved : ℕ → Bool
is_unreserved c =
    leb 65 c && leb c 90
    || (leb 97 c && leb c 122
        || (leb 48 c && leb c 57 || (c == 45 || (c == 46 || (c == 95 || c == 126)))))

-- `hexChars[n]` of `to_hexu`.
abbrev pub hexu_char : ℕ → ℕ
hexu_char n = if ltb n 10 then 48 + n else 55 + n

unfoldable pub uri_encode : List ℕ → List ℕ → List ℕ
uri_encode [] also_encode = []
uri_encode (c ∷ cs) also_encode =
    let rest = uri_encode cs also_encode in
    if is_unreserved c || contains also_encode c
    then c ∷ rest
    else 37 ∷ hexu_char (c / 16 % 16) ∷ hexu_char (c % 16) ∷ rest
