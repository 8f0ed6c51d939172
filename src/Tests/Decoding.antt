-- ===== src/Tests/Decoding.antt =====
-- The decoders of http/http_decode.c on short strings.
use xxx.Prelude.{
  all_below-lt, ℕ, List, ◌≤◌, ◌<◌, ◌≡◌, refl, Bool, true, false, ◌&&◌, Option, none, some, [], ◌∷◌,
  arith, ◌==◌, leb, length, get_or,
}
use xxx.Decode.Digit.{to_digit, starts_nocase}
use xxx.Decode.Escape.{
  is_xdigit, x2c_digit, simple_escape, hex_escape, octal_escape, unescape, escape_round,
  escape_loop, escape_decode,
}
use xxx.Decode.Escape.Bounds.{escape_decode-total}
use xxx.Decode.Escape.RoundTrip.{escape, escape_decode-escape}
use xxx.Decode.Percent.{
  xx_decode, percent_combine, combine_loop, decode_type, decode_as, decode_backward, string_decode,
}
use xxx.Decode.Percent.Stray.{string_decode-stray}
use xxx.Decode.Percent.RoundTrip.{encode, string_decode-encode}

-- "%41%2541+" in one pass, and with % combined; the last with a 0 in front of the buffer.
decode_runs :
    (string_decode true 0 (37 ∷ 52 ∷ 49 ∷ 37 ∷ 50 ∷ 53 ∷ 52 ∷ 49 ∷ 43 ∷ [])
      ≡ 65 ∷ 37 ∷ 52 ∷ 49 ∷ 32 ∷ [])
    × (string_decode false 0 (37 ∷ 50 ∷ 53 ∷ 52 ∷ 49 ∷ []) ≡ 65 ∷ [])
    × (string_decode false 48 (37 ∷ 117 ∷ 48 ∷ []) ≡ 37 ∷ 117 ∷ 48 ∷ [])
unfolding string_decode decode_backward combine_loop percent_combine decode_type decode_as xx_decode
    starts_nocase to_digit
decode_runs = (refl, refl, refl)

-- The digits 0 to 9 and a to f.
abbrev hex : ℕ → ℕ
hex d =
    get_or (48 ∷ 49 ∷ 50 ∷ 51 ∷ 52 ∷ 53 ∷ 54 ∷ 55 ∷ 56 ∷ 57 ∷ 97 ∷ 98 ∷ 99 ∷ 100 ∷ 101 ∷ 102 ∷ []) d
      48

abbrev lower : ℕ → Bool
lower b = leb b'a' b && leb b b'z'

abbrev is_digit : Option ℕ → ℕ → Bool
is_digit none d = false
is_digit (some e) d = e == d

is_digit-eq : (o : Option ℕ) (d : ℕ) → is_digit o d ≡ true → o ≡ some d
is_digit-eq none d h = ground arith
is_digit-eq (some e) d h = ground arith

hex_digit : (d : ℕ) → d < 16 → to_digit (hex d) ≡ some d
unfolding to_digit
hex_digit d lt =
    is_digit-eq (to_digit (hex d)) d
      (all_below-lt 16 (λ e. is_digit (to_digit (hex e)) e) d refl lt)

-- "a b", whose space travels as %20.
string_decode-encode_example :
    string_decode true 0 (encode hex lower (97 ∷ 32 ∷ 98 ∷ [])) ≡ 97 ∷ 32 ∷ 98 ∷ []
string_decode-encode_example =
    string_decode-encode hex lower 0 hex_digit refl refl (97 ∷ 32 ∷ 98 ∷ []) (omega arith)

string_decode-stray_example :
    string_decode true 0 (37 ∷ 117 ∷ 48 ∷ []) ≡ string_decode true 48 (37 ∷ 117 ∷ 48 ∷ [])
string_decode-stray_example = string_decode-stray true 0 48 (37 ∷ 117 ∷ 48 ∷ [])

-- "a\n\x41\101" and a backslash at the end; "\q" stays as it is.
escape_runs :
    (escape_decode (97 ∷ 92 ∷ 110 ∷ 92 ∷ 120 ∷ 52 ∷ 49 ∷ 92 ∷ 49 ∷ 48 ∷ 49 ∷ 92 ∷ [])
      ≡ some (97 ∷ 10 ∷ 65 ∷ 65 ∷ 92 ∷ []))
    × (escape_decode (92 ∷ 113 ∷ []) ≡ some (92 ∷ 113 ∷ []))
unfolding escape_decode escape_loop escape_round unescape simple_escape hex_escape octal_escape
escape_runs = (refl, refl)

abbrev is_digit_of : ℕ → Bool
is_digit_of d = is_xdigit (hex d) && x2c_digit (hex d) == d

is_digit_of-both :
    (d : ℕ) → is_digit_of d ≡ true → (is_xdigit (hex d) ≡ true) × (x2c_digit (hex d) ≡ d)
is_digit_of-both d h = (ground arith, ground arith)

escape_digit : (d : ℕ) → d < 16 → (is_xdigit (hex d) ≡ true) × (x2c_digit (hex d) ≡ d)
unfolding x2c_digit
escape_digit d lt = is_digit_of-both d (all_below-lt 16 (λ e. is_digit_of e) d refl lt)

-- "a\b", whose backslash is written \x5c.
escape_decode-escape_example :
    escape_decode (escape hex lower (97 ∷ 92 ∷ 98 ∷ [])) ≡ some (97 ∷ 92 ∷ 98 ∷ [])
escape_decode-escape_example =
    escape_decode-escape hex lower escape_digit refl (97 ∷ 92 ∷ 98 ∷ []) (omega arith)

escape_decode-total_example :
    (out : List ℕ) × (escape_decode (92 ∷ 49 ∷ 92 ∷ []) ≡ some out) × (length out ≤ 3)
escape_decode-total_example = escape_decode-total (92 ∷ 49 ∷ 92 ∷ [])
