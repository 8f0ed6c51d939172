-- ===== src/Decode/Escape/Bounds.antt =====
-- `_http_escape_decode_inplace` ends, and writes no more bytes than it reads.
use xxx.Prelude.{
  ℕ, zero, suc, ◌+◌, ◌-◌, ◌*◌, ◌≤◌, ◌<◌, ◌≡◌, refl, inl, inr, true, some, List, [], ◌∷◌, ◌++◌,
  arith, Option-cases, length, length-append,
}
use xxx.Decode.Escape.{
  hex_escape, octal_escape, unescape, escape_round, escape_loop, escape_decode, is_odigit,
}

octal_escape-le :
    (rounds value : ℕ) (input : List ℕ) → length (octal_escape rounds value input).1 ≤ length input
unfolding octal_escape
octal_escape-le zero value input = omega arith
octal_escape-le (suc rounds) value [] = omega arith
octal_escape-le (suc rounds) value (c ∷ r) =
    ground (arith, octal_escape-le rounds (value * 8 + (c - b'0')) r)

hex_escape-le :
    (r : List ℕ) (x : ℕ) (rest : List ℕ) → hex_escape r ≡ some (x, rest) → length rest ≤ length r
unfolding hex_escape
hex_escape-le [] x rest e = ground arith
hex_escape-le (c1 ∷ []) x rest e = ground arith
hex_escape-le (c1 ∷ c2 ∷ r) x rest e = ground arith

octal-first :
    (c : ℕ) (r : List ℕ) → is_odigit c ≡ true → length (octal_escape 3 0 (c ∷ r)).1 ≤ length r
unfolding octal_escape
octal-first c r d = rw d (octal_escape-le 2 (0 * 8 + (c - b'0')) r)

unescape-le :
    (c : ℕ) (r : List ℕ) (x : ℕ) (rest : List ℕ)
    → unescape c r ≡ some (x, rest)
    → length rest ≤ length r
unfolding unescape
unescape-le c r x rest e = ground (arith, hex_escape-le r x rest, octal-first c r)

-- A round reads at least one byte more than it leaves, and at least as many as it writes.
escape_round-le :
    (c b : ℕ) (r : List ℕ)
    → (length (escape_round c b r).0 + length (escape_round c b r).1 ≤ suc (suc (length r)))
      × (length (escape_round c b r).1 ≤ suc (length r))
unfolding escape_round
escape_round-le c b r = elim (Option-cases (unescape b r)) [
  | inl e ↦ ground arith
  | inr ((x, rest), e) ↦ ground (arith, unescape-le b r x rest e)
]

escape_loop-total :
    (fuel : ℕ) (input : List ℕ)
    → length input < fuel
    → (out : List ℕ) × (escape_loop fuel input ≡ some out) × (length out ≤ length input)
unfolding escape_loop
escape_loop-total zero input h = absurd (omega arith)
escape_loop-total (suc fuel) [] h = ([], refl, omega arith)
escape_loop-total (suc fuel) (c ∷ []) h = (c ∷ [], refl, omega arith)
escape_loop-total (suc fuel) (c ∷ b ∷ r) h =
    let read = escape_round-le c b r in
    let (more, e, le) = escape_loop-total fuel (escape_round c b r).1 (omega arith) in
    ((escape_round c b r).0 ++ more, rw e, omega (arith, length-append (escape_round c b r).0 more))

-- On every input `_http_escape_decode_inplace` ends, and what it writes is at most as long as what it
-- reads.
pub escape_decode-total :
    (input : List ℕ)
    → (out : List ℕ) × (escape_decode input ≡ some out) × (length out ≤ length input)
unfolding escape_decode
escape_decode-total input = escape_loop-total (suc (length input)) input (omega arith)
