-- ===== src/Decode/Percent.antt =====
-- `_http_string_decode` and what it calls. The input is read from its end to its begin, and
-- `out_string` grows at its end; here it is a list whose head is the byte stored last,
-- `string[string_len - 1]`, so it reads in the order of the input. `string_len -= k` is `drop k`.
pub mod Bounds
pub mod RoundTrip
pub mod Stray
use xxx.Prelude.{
  ℕ, zero, suc, ◌+◌, ◌*◌, ◌%◌, Bool, true, false, ◌&&◌, ◌||◌, Option, none, some, List, [], ◌∷◌,
  ◌++◌, leb, ◌==◌, if◌then◌else◌, length, drop,
}
use xxx.Decode.Digit.{to_digit, starts_nocase}

-- `_http_percent_xx_decode_backward`: `none` where it returns 0. Otherwise `string[string_len - 2]`
-- has its new value and the caller takes the byte behind it away.
unfoldable pub xx_decode : List ℕ → Option (List ℕ)
xx_decode [] = none
xx_decode (c1 ∷ []) = none
xx_decode (c1 ∷ c2 ∷ r) = elim (to_digit c1) [
  | none ↦ none
  | some digit1 ↦ elim (to_digit c2) [
    | none ↦ none
    | some digit2 ↦
        if digit1 == 0 && digit2 == 0 then none else some ((digit1 * 16 % 256 + digit2) % 256 ∷ r)
  ]
]

-- A digit as the `u_int8_t` that it is added to: -1 is 255.
digit_byte : Option ℕ → ℕ
digit_byte none = 255
digit_byte (some d) = d

-- `_http_percent_FFxx_decode_backward`
unfoldable pub ffxx_decode : List ℕ → Option (List ℕ)
unfolding digit_byte
ffxx_decode [] = none
ffxx_decode (c1 ∷ []) = none
ffxx_decode (c1 ∷ c2 ∷ r) =
    let digit1 = (digit_byte (to_digit c1) + 2) % 256 in
    some ((digit1 * 16 % 256 + digit_byte (to_digit c2)) % 256 ∷ r)

-- `_http_percent_combine`: `none` where it returns 0. The patterns stand in the order of the list.
unfoldable pub percent_combine : List ℕ → Option (List ℕ)
percent_combine s =
    if starts_nocase (b'%' ∷ b'u' ∷ b'0' ∷ b'0' ∷ b'2' ∷ b'5' ∷ []) s
    then some (b'%' ∷ drop 6 s)
    else if starts_nocase (b'%' ∷ b'x' ∷ b'2' ∷ b'5' ∷ []) s
    then some (b'%' ∷ drop 4 s)
    else if starts_nocase (b'%' ∷ b'2' ∷ b'5' ∷ []) s
    then some (b'%' ∷ drop 3 s)
    else none

-- The loop of step 1. A round shortens the string, so its length is fuel enough.
unfoldable pub combine_loop : ℕ → List ℕ → List ℕ
combine_loop zero s = s
combine_loop (suc fuel) s = elim (percent_combine s) [ none ↦ s | some s' ↦ combine_loop fuel s' ]

-- The values of `string_type`. The `IGNORANCE_` ones are never assigned.
pub data StringType : Type 0 where
  no_percent percent_xx percent_u00xx percent_xyy percent_uffxx : StringType

-- `tmp_len >= k || tmp_len == -1`, where `none` is -1.
at_least : ℕ → Option ℕ → Bool
at_least k none = true
at_least k (some tmp_len) = leb k tmp_len

-- Steps 2 to 4 of `_http_string_decode_type_backward`; `none` is -1. For a string of three bytes
-- `string[*string_len - 4]` lies before the buffer: `stray` is the byte that is found there.
unfoldable pub decode_type : ℕ → List ℕ → Option ℕ → Option StringType
unfolding at_least
decode_type stray [] tmp_len = some no_percent
decode_type stray (a ∷ []) tmp_len = some no_percent
decode_type stray (a ∷ b ∷ []) tmp_len = some no_percent
decode_type stray (a ∷ b ∷ c ∷ r) tmp_len =
    let s = a ∷ b ∷ c ∷ r in
    if (b == b'x' || b == b'X') && at_least 3 tmp_len
    then (if leb (length s) 3 then some no_percent else some percent_xyy)
    else if starts_nocase (b'%' ∷ b'u' ∷ b'0' ∷ b'0' ∷ []) (s ++ stray ∷ []) && at_least 5 tmp_len
    then (if leb (length s) 5 then some no_percent else some percent_u00xx)
    else if starts_nocase (b'%' ∷ b'u' ∷ b'f' ∷ b'f' ∷ []) (s ++ stray ∷ []) && at_least 5 tmp_len
    then (if leb (length s) 5 then some no_percent else some percent_uffxx)
    else if at_least 2 tmp_len
    then some percent_xx
    else none

-- `string_len` goes back to what it was where nothing was decoded.
or_keep : Option (List ℕ) → List ℕ → List ℕ
or_keep none s = s
or_keep (some s') s = s'

-- The `switch` of `_http_string_decode_backward`.
unfoldable pub decode_as : StringType → List ℕ → List ℕ
unfolding or_keep
decode_as no_percent s = s
decode_as percent_xx s = or_keep (xx_decode (drop 1 s)) s
decode_as percent_u00xx s = or_keep (xx_decode (drop 4 s)) s
decode_as percent_uffxx s = or_keep (ffxx_decode (drop 4 s)) s
decode_as percent_xyy s = or_keep (xx_decode (drop 2 s)) s

-- Step 1 runs where `tmp_len` is -1.
combine : Option ℕ → List ℕ → List ℕ
combine none s = combine_loop (length s) s
combine (some tmp_len) s = s

-- Step 2 runs where the type is not -1.
pub decode_if : Option StringType → List ℕ → List ℕ
decode_if none s = s
decode_if (some t) s = decode_as t s

-- `_http_string_decode_backward`, with step 1 of the type's function.
unfoldable pub decode_backward : ℕ → List ℕ → Option ℕ → List ℕ
unfolding combine decode_if
decode_backward stray s tmp_len =
    let s' = combine tmp_len s in decode_if (decode_type stray s' tmp_len) s'

-- One round of the loop of `_http_string_decode`, from `out_string` and `tmp_len`;
-- `one` is `decode_flag == ONLY_ONE_DECODE`.
pub decode_byte : Bool → ℕ → ℕ → List ℕ × ℕ → List ℕ × ℕ
decode_byte one stray c (out, tmp_len) =
    if c == b'%'
    then (
      decode_backward stray (c ∷ out) (if one then some tmp_len else none),
      if one then 0 else tmp_len,
    )
    else if c == b'+'
    then (b' ' ∷ out, tmp_len)
    else (c ∷ out, if one then tmp_len + 1 else tmp_len)

-- The loop of `_http_string_decode`, over the bytes of `in_string` from the last to the first.
pub decode_loop : Bool → ℕ → List ℕ → List ℕ × ℕ
unfolding decode_byte
decode_loop one stray [] = ([], 0)
decode_loop one stray (c ∷ cs) = decode_byte one stray c (decode_loop one stray cs)

-- `_http_string_decode`: `out_string`, from its last byte to its first.
unfoldable pub string_decode : Bool → ℕ → List ℕ → List ℕ
unfolding decode_loop
string_decode one stray in_string = (decode_loop one stray in_string).0
