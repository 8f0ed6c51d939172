-- ===== src/Decode/Escape/RoundTrip.antt =====
-- What is written with backslash escapes, `_http_escape_decode_inplace` reads back.
use xxx.Prelude.{
  ℕ, zero, suc, ◌/◌, ◌%◌, ◌<◌, ◌≡◌, refl, Bool, true, false, inl, inr, some, List, [], ◌∷◌, arith,
  ◌==◌, if◌then◌else◌, ap, ◌∙◌, Bool-cases, length, AreBytes,
}
use xxx.Decode.Escape.{
  is_xdigit, x2c_digit, x2c, hex_escape, unescape, simple_escape, escape_round, escape_loop,
  escape_decode,
}

-- A byte as it is, or by a backslash, an x and its hexadecimal digits.
unfoldable pub escape : (hex : ℕ → ℕ) (plain : ℕ → Bool) → List ℕ → List ℕ
escape hex plain [] = []
escape hex plain (b ∷ bs) =
    if plain b
    then b ∷ escape hex plain bs
    else b'\\' ∷ b'x' ∷ hex (b / 16) ∷ hex (b % 16) ∷ escape hex plain bs

-- A byte that is no backslash is copied.
escape_loop-plain :
    (fuel c : ℕ) (rest out : List ℕ)
    → (c == 92) ≡ false
    → escape_loop fuel rest ≡ some out
    → escape_loop (suc fuel) (c ∷ rest) ≡ some (c ∷ out)
unfolding escape_loop escape_round
escape_loop-plain zero c rest out ne e = ground arith
escape_loop-plain (suc fuel) c [] out ne e = ground arith
escape_loop-plain (suc fuel) c (b ∷ r) out ne e = rw (ne, e)

-- Two hexadecimal digits behind \x are one byte.
escape_loop-hex :
    (fuel h1 h2 : ℕ) (rest out : List ℕ)
    → is_xdigit h1 ≡ true
    → is_xdigit h2 ≡ true
    → escape_loop fuel rest ≡ some out
    → escape_loop (suc fuel) (92 ∷ 120 ∷ h1 ∷ h2 ∷ rest) ≡ some (x2c h1 h2 % 256 ∷ out)
unfolding escape_loop escape_round unescape simple_escape hex_escape
escape_loop-hex fuel h1 h2 rest out d1 d2 e = rw (d1, d2, e)

x2c-halves :
    (h1 h2 b : ℕ) → x2c_digit h1 ≡ b / 16 → x2c_digit h2 ≡ b % 16 → b < 256 → x2c h1 h2 % 256 ≡ b
unfolding x2c
x2c-halves h1 h2 b e1 e2 small = rw (e1, e2) (omega arith)

module _ (hex : ℕ → ℕ) (plain : ℕ → Bool)
    (hex_digit : (d : ℕ) → d < 16 → (is_xdigit (hex d) ≡ true) × (x2c_digit (hex d) ≡ d))
    (plain_backslash : plain 92 ≡ false) where
  plain-ne : (b : ℕ) → plain b ≡ true → (b == 92) ≡ false
  plain-ne b p = elim (Bool-cases (b == 92)) [
    | inl eq ↦ (let same : b ≡ 92 = ground arith in ground (arith, ap plain same))
    | inr ne ↦ ne
  ]

  escape_loop-escape :
      (fuel : ℕ) (bs : List ℕ)
      → AreBytes bs
      → length (escape hex plain bs) < fuel
      → escape_loop fuel (escape hex plain bs) ≡ some bs
  unfolding escape escape_loop
  escape_loop-escape zero bs h lt = absurd (omega arith)
  escape_loop-escape (suc fuel) [] h lt = refl
  escape_loop-escape (suc fuel) (b ∷ bs) h lt = elim (Bool-cases (plain b)) [
    | inl p ↦ rw p (
        escape_loop-plain fuel b (escape hex plain bs) bs (plain-ne b p)
          (escape_loop-escape fuel bs h.1 (ground arith)))
    | inr q ↦
        (let (d1, e1) = hex_digit (b / 16) (omega arith) in
          let (d2, e2) = hex_digit (b % 16) (omega arith) in
          rw q (
            escape_loop-hex fuel (hex (b / 16)) (hex (b % 16)) (escape hex plain bs) bs d1 d2
              (escape_loop-escape fuel bs h.1 (ground arith))
            ∙ ap (λ (c : ℕ). some (c ∷ bs)) (x2c-halves _ _ b e1 e2 h.0)))
  ]

  -- Whatever bytes are written, each as it is or by \x and two hexadecimal digits, the backslash
  -- always by its digits: `_http_escape_decode_inplace` gives exactly those bytes back.
  pub escape_decode-escape :
      (bs : List ℕ) → AreBytes bs → escape_decode (escape hex plain bs) ≡ some bs
  unfolding escape_decode
  escape_decode-escape bs h =
      escape_loop-escape (suc (length (escape hex plain bs))) bs h (omega arith)
