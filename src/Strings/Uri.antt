-- ===== src/Strings/Uri.antt =====
-- `uri_encode` of `src/common/utils/strings.cpp`, against the decoding of percent signs.
use native.Mathlib.Nat.{mod-lt}
use uh_core.Base.{
  ℕ, ◌+◌, ◌*◌, ◌/◌, ◌%◌, ◌-◌, ◌<◌, ◌≡◌, refl, ap, ap₂, sym, ◌∙◌, true, false, ◌||◌, inl, inr, List,
  [], ◌∷◌, arith, ltb, ◌==◌, ==_iff, if◌then◌else◌, Bool-cases,
}
use uh_core.Strings.{contains, is_unreserved, hexu_char, uri_encode}

-- The value of an upper case hexadecimal digit.
abbrev pub digit_value : ℕ → ℕ
digit_value c = if ltb c 58 then c - 48 else c - 55

-- What percent signs stand for.
unfoldable pub percent_decode : List ℕ → List ℕ
percent_decode [] = []
percent_decode (c ∷ []) = c ∷ []
percent_decode (c ∷ d ∷ []) = c ∷ d ∷ []
percent_decode (c ∷ d ∷ e ∷ cs) =
    let plain = c ∷ percent_decode (d ∷ e ∷ cs) in
    let coded = (digit_value d * 16 + digit_value e) ∷ percent_decode cs in
    if c == 37 then coded else plain

abbrev pub AllBytes : List ℕ → Type 0
AllBytes [] = Unit {0}
AllBytes (c ∷ cs) = (c < 256) × AllBytes cs

decode_plain :
    (c : ℕ) (cs : List ℕ) → (c == 37) ≡ false → percent_decode (c ∷ cs) ≡ c ∷ percent_decode cs
unfolding percent_decode
decode_plain c [] h = refl
decode_plain c (d ∷ []) h = refl
decode_plain c (d ∷ e ∷ cs) h = rw h

digit_value-hexu_char : (n : ℕ) → n < 16 → digit_value (hexu_char n) ≡ n
digit_value-hexu_char n h = ground arith

decode_coded :
    (c : ℕ) (cs : List ℕ)
    → c < 256
    → percent_decode (37 ∷ hexu_char (c / 16 % 16) ∷ hexu_char (c % 16) ∷ cs)
      ≡ c ∷ percent_decode cs
unfolding percent_decode
decode_coded c cs h =
    let high = digit_value-hexu_char (c / 16 % 16) (mod-lt (c / 16) (omega arith)) in
    let low = digit_value-hexu_char (c % 16) (mod-lt c (omega arith)) in
    ap₂ ◌∷◌ (omega (arith, high, low)) refl

-- Decoding what `uri_encode` yields gives the text back: for a text of bytes, and an `also_encode`
-- without a percent sign.
pub percent_decode-uri_encode :
    (s also_encode : List ℕ)
    → AllBytes s
    → contains also_encode 37 ≡ false
    → percent_decode (uri_encode s also_encode) ≡ s
unfolding uri_encode
percent_decode-uri_encode [] also bytes h = unfold percent_decode in refl
percent_decode-uri_encode (c ∷ cs) also bytes h =
    let rest = percent_decode-uri_encode cs also bytes.1 h in
    elim (Bool-cases (is_unreserved c || contains also c)) [
      | inl stays ↦
          let other : (c == 37) ≡ false = not_percent c stays in
          rw stays (decode_plain c (uri_encode cs also) other ∙ ap (◌∷◌ c) rest)
      | inr coded ↦ rw coded (decode_coded c (uri_encode cs also) bytes.0 ∙ ap (◌∷◌ c) rest)
    ]
  where
    not_percent : (c : ℕ) → (is_unreserved c || contains also c) ≡ true → (c == 37) ≡ false
    not_percent c e = elim (Bool-cases (c == 37)) [
      | inr other ↦ other
      | inl percent ↦
          let coded : contains also 37 ≡ true =
            ap (λ (t : ℕ). is_unreserved t || contains also t) (sym ((==_iff c 37).0 percent))
            ∙ e in
          cc
    ]
