-- ===== src/Decode/Percent/Stray.antt =====
-- The byte in front of `out_string` that `_http_string_decode_type_backward` may read.
use xxx.Prelude.{
  ℕ, ◌≡◌, refl, ◌&&◌, ◌||◌, inl, inr, Bool, true, false, Option, none, some, List, [], ◌∷◌, arith,
  ◌==◌, ap, sym, ◌∙◌, if◌then◌else◌, Bool-cases, length,
}
use xxx.Decode.Digit.{to_lower, starts_nocase, u-digit}
use xxx.Decode.Percent.{
  at_least, StringType, no_percent, percent_xx, xx_decode, combine_loop, decode_type, decode_as,
  decode_if, decode_backward, decode_byte, decode_loop, string_decode,
}

xx_decode-u : (b c : ℕ) → to_lower b ≡ b'u' → xx_decode (b ∷ c ∷ []) ≡ none
unfolding xx_decode
xx_decode-u b c h = rw (u-digit b h, xx_decode)

-- The ways through `decode_type` for three bytes.
abbrev three : Bool → Bool → Bool → Bool → Option StringType
three x u f two =
    if x
    then some no_percent
    else if u
    then some no_percent
    else if f
    then some no_percent
    else if two
    then some percent_xx
    else none

-- Where the byte behind the % is no digit, nothing is decoded.
decode_if-three :
    (x u f two : Bool) (a b c : ℕ)
    → xx_decode (b ∷ c ∷ []) ≡ none
    → decode_if (three x u f two) (a ∷ b ∷ c ∷ []) ≡ a ∷ b ∷ c ∷ []
unfolding decode_if decode_as
decode_if-three true u f two a b c h = refl
decode_if-three false true f two a b c h = refl
decode_if-three false false true two a b c h = refl
decode_if-three false false false true a b c h = rw h
decode_if-three false false false false a b c h = refl

decode_if-u :
    (stray a b c : ℕ) (tmp_len : Option ℕ)
    → to_lower b ≡ b'u'
    → decode_if (decode_type stray (a ∷ b ∷ c ∷ []) tmp_len) (a ∷ b ∷ c ∷ []) ≡ a ∷ b ∷ c ∷ []
unfolding decode_if decode_type
decode_if-u stray a b c tmp_len h =
    decode_if-three ((b == b'x' || b == b'X') && at_least 3 tmp_len)
      (starts_nocase (b'%' ∷ b'u' ∷ b'0' ∷ b'0' ∷ []) (a ∷ b ∷ c ∷ stray ∷ [])
        && at_least 5 tmp_len)
      (starts_nocase (b'%' ∷ b'u' ∷ b'f' ∷ b'f' ∷ []) (a ∷ b ∷ c ∷ stray ∷ [])
        && at_least 5 tmp_len)
      (at_least 2 tmp_len) a b c (xx_decode-u b c h)

-- `decode_type` reads past the begin of a string of three bytes. If the byte there completes the
-- text %u00, the two bytes behind the % are no hexadecimal number, so nothing is decoded either way.
decode_if-stray :
    (before after : ℕ) (s : List ℕ) (tmp_len : Option ℕ)
    → decode_if (decode_type before s tmp_len) s ≡ decode_if (decode_type after s tmp_len) s
unfolding decode_if decode_type starts_nocase
decode_if-stray before after [] tmp_len = refl
decode_if-stray before after (a ∷ []) tmp_len = refl
decode_if-stray before after (a ∷ b ∷ []) tmp_len = refl
decode_if-stray before after (a ∷ b ∷ c ∷ []) tmp_len = elim (Bool-cases (to_lower b == b'u')) [
  | inl h ↦
      decode_if-u before a b c tmp_len (ground arith)
      ∙ sym (decode_if-u after a b c tmp_len (ground arith))
  | inr h ↦ rw h
]
decode_if-stray before after (a ∷ b ∷ c ∷ d ∷ r) tmp_len = refl

decode_backward-stray :
    (before after : ℕ) (s : List ℕ) (tmp_len : Option ℕ)
    → decode_backward before s tmp_len ≡ decode_backward after s tmp_len
unfolding decode_backward
decode_backward-stray before after s none =
    decode_if-stray before after (combine_loop (length s) s) none
decode_backward-stray before after s (some n) = decode_if-stray before after s (some n)

decode_byte-stray :
    (one : Bool) (before after c : ℕ) (r : List ℕ × ℕ)
    → decode_byte one before c r ≡ decode_byte one after c r
unfolding decode_byte
decode_byte-stray one before after c (out, tmp_len) =
    rw (decode_backward-stray before after (c ∷ out) (if one then some tmp_len else none))

decode_loop-stray :
    (one : Bool) (before after : ℕ) (in_string : List ℕ)
    → decode_loop one before in_string ≡ decode_loop one after in_string
unfolding decode_loop
decode_loop-stray one before after [] = refl
decode_loop-stray one before after (c ∷ cs) =
    ap (decode_byte one before c) (decode_loop-stray one before after cs)
    ∙ decode_byte-stray one before after c (decode_loop one after cs)

-- `_http_string_decode_type_backward` may read the byte in front of `out_string`. The decoded
-- string does not depend on it, in either mode.
pub string_decode-stray :
    (one : Bool) (before after : ℕ) (in_string : List ℕ)
    → string_decode one before in_string ≡ string_decode one after in_string
unfolding string_decode
string_decode-stray one before after in_string =
    ap (λ (r : List ℕ × ℕ). r.0) (decode_loop-stray one before after in_string)
