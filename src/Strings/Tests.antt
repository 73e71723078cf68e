-- ===== src/Strings/Tests.antt =====
-- `src/common/utils/strings.h` and `strings.cpp` on concrete strings.
use uh_core.Base.{ℕ, ◌%◌, ◌≡◌, refl, List, [], ◌∷◌, map, arith}
use uh_core.Base.Result.{ok}
use uh_core.Strings.{split, to_hex, unhex, find_first_not_of, find_last_not_of, trim, uri_encode}
use uh_core.Strings.Hex.{unhex-to_hex}
use uh_core.Strings.Uri.{percent_decode, percent_decode-uri_encode}

-- `a,b,`
abbrev listed : List ℕ
listed = 97 ∷ 44 ∷ 98 ∷ 44 ∷ []

-- The text behind the last delimiter is a piece, empty here.
split_listed : split 44 listed ≡ (97 ∷ []) ∷ (98 ∷ []) ∷ [] ∷ []
unfolding split
split_listed = refl

-- The bytes 255 and 16 come back as 15 and 0.
unhex-to_hex_example : unhex (to_hex (255 ∷ 16 ∷ [])) ≡ ok (map (λ b. b % 16) (255 ∷ 16 ∷ []))
unhex-to_hex_example = unhex-to_hex (255 ∷ 16 ∷ [])

trim_blanks : trim (32 ∷ 98 ∷ 32 ∷ []) (32 ∷ []) ≡ 98 ∷ []
unfolding trim find_first_not_of find_last_not_of
trim_blanks = refl

-- `/%`, where the slash stays as it is.
percent_decode-uri_encode_example :
    percent_decode (uri_encode (47 ∷ 37 ∷ []) (47 ∷ [])) ≡ 47 ∷ 37 ∷ []
percent_decode-uri_encode_example =
    percent_decode-uri_encode (47 ∷ 37 ∷ []) (47 ∷ []) (omega arith, (omega arith, tt)) refl
