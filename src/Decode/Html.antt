-- ===== src/Decode/Html.antt =====
-- `_http_html_entities_decode_inplace` of http/http_decode.c, which undoes HTML entities. The loop
-- reads at `i` and writes at `d`; here the argument is the input from `i` on and the result the bytes
-- written. The number that `strtol` reads from the digits of an entity, as an `unsigned char`, is the
-- argument `value` of the functions, for a base and the text from the first digit on.
pub mod Bounds
pub mod RoundTrip
use xxx.Prelude.{
  ℕ, zero, suc, ◌+◌, ◌-◌, ◌==◌, Bool, true, false, ◌&&◌, ◌||◌, Option, none, some, List, [], ◌∷◌,
  ◌++◌, leb, ltb, if◌then◌else◌, ◌>>=◌, length, take, drop,
}
use xxx.Decode.Digit.{starts_nocase}
use xxx.Decode.Escape.{is_xdigit}

-- `isdigit` and `isalnum` of the C locale.
abbrev pub is_digit : ℕ → Bool
is_digit c = leb b'0' c && leb c b'9'

abbrev pub is_alnum : ℕ → Bool
is_alnum c = is_digit c || leb b'a' c && leb c b'z' || leb b'A' c && leb c b'Z'

-- `while((j < input_len)&&(test(input[j]))) j++;`: how far it goes, and the input from there on.
unfoldable pub run : (ℕ → Bool) → List ℕ → ℕ × List ℕ
run test [] = (0, [])
run test (c ∷ cs) = let (n, rest) = run test cs in if test c then (suc n, rest) else (0, c ∷ cs)

-- The semicolon is skipped if it is there.
abbrev pub skip_semicolon : List ℕ → List ℕ
skip_semicolon [] = []
skip_semicolon (c ∷ cs) = if c == b';' then cs else c ∷ cs

-- The entities that have a name.
unfoldable pub named : List ℕ → Option ℕ
named x =
    if starts_nocase (b'q' ∷ b'u' ∷ b'o' ∷ b't' ∷ []) x
    then some 34
    else if starts_nocase (b'a' ∷ b'm' ∷ b'p' ∷ []) x
    then some b'&'
    else if starts_nocase (b'l' ∷ b't' ∷ []) x
    then some b'<'
    else if starts_nocase (b'g' ∷ b't' ∷ []) x
    then some b'>'
    else if starts_nocase (b'n' ∷ b'b' ∷ b's' ∷ b'p' ∷ []) x
    then some 32
    else none

-- What a round does: it writes a byte and goes on behind the entity, or copies some bytes.
pub data Round : Type 0 where
  put : ℕ → List ℕ → Round
  copy : ℕ → Round

-- An entity by its number, for the digits that begin at `x`.
unfoldable pub numeric : (value : ℕ → List ℕ → ℕ) → ℕ → (ℕ → Bool) → ℕ → List ℕ → Round
unfolding run
numeric value base test skipped x =
    let (n, rest) = run test x in
    if n == 0 then copy skipped else put (value base x) (skip_semicolon rest)

unfoldable pub by_name : List ℕ → Round
unfolding run named
by_name x =
    let (n, rest) = run is_alnum x in
    if n == 0
    then copy 1
    else (elim (named x) [ none ↦ copy (suc n) | some b ↦ put b (skip_semicolon rest) ])

-- A round at an ampersand.
unfoldable pub entity : (value : ℕ → List ℕ → ℕ) → List ℕ → Round
unfolding numeric by_name
entity value [] = copy 1
entity value (c ∷ []) = if c == b'#' then copy 2 else by_name (c ∷ [])
entity value (c ∷ d ∷ x) =
    if c == b'#'
    then if d == b'x' || d == b'X'
      then numeric value 16 is_xdigit 3 x
      else numeric value 10 is_digit 2 (d ∷ x)
    else by_name (c ∷ d ∷ x)

unfoldable pub round : (value : ℕ → List ℕ → ℕ) → ℕ → List ℕ → Round
unfolding entity
round value c rest = if c == b'&' then entity value rest else copy 1

abbrev pub min : ℕ → ℕ → ℕ
min a b = if leb a b then a else b

-- The loop, for `room`, the number `input_len - count`; `none` means that the fuel ran out.
unfoldable pub html_loop : (value : ℕ → List ℕ → ℕ) → ℕ → ℕ → List ℕ → Option (List ℕ)
unfolding round
html_loop value zero room input = none
html_loop value (suc fuel) room [] = some []
html_loop value (suc fuel) zero (c ∷ rest) = some []
html_loop value (suc fuel) (suc room) (c ∷ rest) = elim (round value c rest) [
  | put b more ↦ (do out ← html_loop value fuel room more; some (b ∷ out))
  | copy n ↦
      let k = min n (suc room) in
      (do
        out ← html_loop value fuel (suc room - k) (drop k (c ∷ rest))
        some (take k (c ∷ rest) ++ out))
]

abbrev pub max_decode_len : ℕ
max_decode_len = 16384

-- `_http_html_entities_decode_inplace`: a round reads at least one byte, so the length is fuel
-- enough.
unfoldable pub html_decode : (value : ℕ → List ℕ → ℕ) → List ℕ → Option (List ℕ)
html_decode value input =
    if ltb max_decode_len (length input)
    then some []
    else html_loop value (suc (length input)) (length input) input
