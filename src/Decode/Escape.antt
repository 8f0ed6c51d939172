-- ===== src/Decode/Escape.antt =====
-- `_http_escape_decode_inplace` of http/http_decode.c, which undoes backslash escapes. The loop
-- reads at `i` and writes at `d`; here the argument is the input from `i` on and the result the
-- bytes written. The result is never ahead of the input (Escape.Bounds), so a write never changes
-- a byte that is still to be read.
pub mod Bounds
pub mod RoundTrip
use Prim.Native.Nat.{bit_and}
use xxx.Prelude.{
  ℕ, zero, suc, ◌+◌, ◌-◌, ◌*◌, ◌%◌, Bool, true, false, ◌&&◌, ◌||◌, Option, none, some, List, [],
  ◌∷◌, ◌++◌, leb, ◌==◌, if◌then◌else◌, ◌>>=◌, length,
}

-- The `switch`; `none` is -1.
unfoldable pub simple_escape : ℕ → Option ℕ
simple_escape c =
    if c == b'a'
    then some 7
    else if c == b'b'
    then some 8
    else if c == b'f'
    then some 12
    else if c == b'n'
    then some 10
    else if c == b'r'
    then some 13
    else if c == b't'
    then some 9
    else if c == b'v'
    then some 11
    else if c == 92 || c == b'?' || c == 39 || c == 34
    then some c
    else none

-- `isxdigit` of the C locale.
abbrev pub is_xdigit : ℕ → Bool
is_xdigit c = leb b'0' c && leb c b'9' || leb b'a' c && leb c b'f' || leb b'A' c && leb c b'F'

-- The value of a digit in `x2c`, an `unsigned char`.
unfoldable pub x2c_digit : ℕ → ℕ
x2c_digit c =
    if leb b'A' c then (bit_and c 0xdf + 256 - b'A' + 10) % 256 else (c + 256 - b'0') % 256

-- `x2c`
unfoldable pub x2c : ℕ → ℕ → ℕ
unfolding x2c_digit
x2c c1 c2 = (x2c_digit c1 * 16 % 256 + x2c_digit c2) % 256

-- `ISODIGIT`
abbrev pub is_odigit : ℕ → Bool
is_odigit c = leb b'0' c && leb c b'7'

-- Two hexadecimal digits behind the x: the character, and the input behind them.
unfoldable pub hex_escape : List ℕ → Option (ℕ × List ℕ)
unfolding x2c
hex_escape [] = none
hex_escape (c1 ∷ []) = none
hex_escape (c1 ∷ c2 ∷ r) = if is_xdigit c1 && is_xdigit c2 then some (x2c c1 c2, r) else none

-- Up to `rounds` octal digits, with the value of those before.
unfoldable pub octal_escape : ℕ → ℕ → List ℕ → ℕ × List ℕ
octal_escape zero value input = (value, input)
octal_escape (suc rounds) value [] = (value, [])
octal_escape (suc rounds) value (c ∷ r) =
    let rest = octal_escape rounds (value * 8 + (c - b'0')) r in
    if is_odigit c then rest else (value, c ∷ r)

-- What stands behind a backslash: the character it means and the input behind it, or -1.
unfoldable pub unescape : ℕ → List ℕ → Option (ℕ × List ℕ)
unfolding simple_escape hex_escape octal_escape
unescape c r = elim (simple_escape c) [
  | some x ↦ some (x, r)
  | none ↦
      if c == b'x' || c == b'X'
      then hex_escape r
      else if is_odigit c
      then some (octal_escape 3 0 (c ∷ r))
      else none
]

-- A round: the bytes that it writes, and the input behind those that it reads.
unfoldable pub escape_round : ℕ → ℕ → List ℕ → List ℕ × List ℕ
unfolding unescape
escape_round c b r =
    if c == 92
    then (elim (unescape b r) [ none ↦ (c ∷ b ∷ [], r) | some (x, rest) ↦ (x % 256 ∷ [], rest) ])
    else (c ∷ [], b ∷ r)

-- The loop; `none` means that the fuel ran out.
unfoldable pub escape_loop : ℕ → List ℕ → Option (List ℕ)
unfolding escape_round
escape_loop zero input = none
escape_loop (suc fuel) [] = some []
escape_loop (suc fuel) (c ∷ []) = some (c ∷ [])
escape_loop (suc fuel) (c ∷ b ∷ r) =
    let (out, rest) = escape_round c b r in (do more ← escape_loop fuel rest; some (out ++ more))

-- `_http_escape_decode_inplace`: a round reads at least one byte, so the length is fuel enough.
unfoldable pub escape_decode : List ℕ → Option (List ℕ)
unfolding escape_loop
escape_decode input = escape_loop (suc (length input)) input
