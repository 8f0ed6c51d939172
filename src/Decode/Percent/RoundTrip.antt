-- ===== src/Decode/Percent/RoundTrip.antt =====
-- What a client encodes by %XY, one pass of `_http_string_decode` decodes.
use xxx.Prelude.{
  ℕ, ◌+◌, ◌*◌, ◌/◌, ◌%◌, ◌<◌, ◌≤◌, ◌≡◌, refl, Bool, true, false, inl, inr, none, some, List, [],
  ◌∷◌, arith, ◌==◌, ap, sym, ◌∙◌, if◌then◌else◌, Bool-cases,
}
use xxx.Decode.Digit.{to_digit, to_lower, starts_nocase, u-digit}
use xxx.Decode.Percent.{
  percent_xx, xx_decode, decode_type, decode_as, decode_if, or_keep, decode_backward, decode_byte,
  decode_loop, string_decode,
}

-- A byte in the encoded text: as it is, or by the hexadecimal digits `hex` of its two halves.
unfoldable pub encode_byte : (hex : ℕ → ℕ) (plain : ℕ → Bool) → ℕ → List ℕ → List ℕ
encode_byte hex plain b rest =
    if plain b then b ∷ rest else b'%' ∷ hex (b / 16) ∷ hex (b % 16) ∷ rest

unfoldable pub encode : (hex : ℕ → ℕ) (plain : ℕ → Bool) → List ℕ → List ℕ
unfolding encode_byte
encode hex plain [] = []
encode hex plain (b ∷ bs) = encode_byte hex plain b (encode hex plain bs)

-- Bytes other than NUL.
abbrev pub AllBytes : List ℕ → Type 0
AllBytes [] = Unit
AllBytes (b ∷ bs) = (0 < b) × (b < 256) × AllBytes bs

-- A hexadecimal digit is no special character.
record Ordinary (c : ℕ) : Type 0 where
  not_percent : (c == b'%') ≡ false
  not_plus : (c == b'+') ≡ false
  not_x : (c == b'x') ≡ false
  not_upper_x : (c == b'X') ≡ false
  not_u : (to_lower c == b'u') ≡ false

digit-ne : (c k d : ℕ) → to_digit c ≡ some d → to_digit k ≡ none → (c == k) ≡ false
digit-ne c k d h e = elim (Bool-cases (c == k)) [
  | inl eq ↦ (let same : c ≡ k = ground arith in ground (arith, ap to_digit same))
  | inr ne ↦ ne
]

digit-Ordinary : (c d : ℕ) → to_digit c ≡ some d → Ordinary c
unfolding to_digit
digit-Ordinary c d h = record {
  not_percent = digit-ne c b'%' d h refl;
  not_plus = digit-ne c b'+' d h refl;
  not_x = digit-ne c b'x' d h refl;
  not_upper_x = digit-ne c b'X' d h refl;
  not_u = elim (Bool-cases (to_lower c == b'u')) [
    | inl e ↦ (let none_some : none ≡ some d = sym (u-digit c (ground arith)) ∙ h in cc)
    | inr e ↦ e
  ];
}

decode_type-digits :
    (stray h1 h2 tmp_len : ℕ) (r : List ℕ)
    → Ordinary h1
    → 2 ≤ tmp_len
    → decode_type stray (b'%' ∷ h1 ∷ h2 ∷ r) (some tmp_len) ≡ some percent_xx
unfolding decode_type starts_nocase
decode_type-digits stray h1 h2 tmp_len r o room =
    rw (o.not_x, o.not_upper_x, o.not_u) (ground arith)

xx_decode-digits :
    (h1 h2 d1 d2 : ℕ) (r : List ℕ)
    → to_digit h1 ≡ some d1
    → to_digit h2 ≡ some d2
    → 0 < d1 + d2
    → xx_decode (h1 ∷ h2 ∷ r) ≡ some ((d1 * 16 % 256 + d2) % 256 ∷ r)
unfolding xx_decode
xx_decode-digits h1 h2 d1 d2 r e1 e2 pos = ground arith

-- The digits before which a % stands are decoded, whatever follows.
decode_backward-digits :
    (stray h1 h2 d1 d2 tmp_len : ℕ) (r : List ℕ)
    → to_digit h1 ≡ some d1
    → to_digit h2 ≡ some d2
    → 0 < d1 + d2
    → 2 ≤ tmp_len
    → decode_backward stray (b'%' ∷ h1 ∷ h2 ∷ r) (some tmp_len) ≡ (d1 * 16 % 256 + d2) % 256 ∷ r
unfolding decode_backward decode_if decode_as or_keep
decode_backward-digits stray h1 h2 d1 d2 tmp_len r e1 e2 pos room =
    rw
      (
        decode_type-digits stray h1 h2 tmp_len r (digit-Ordinary h1 d1 e1) room,
        xx_decode-digits h1 h2 d1 d2 r e1 e2 pos,
      )
      refl

decode_byte-plain :
    (stray c tmp_len : ℕ) (out : List ℕ)
    → (c == b'%') ≡ false
    → (c == b'+') ≡ false
    → decode_byte true stray c (out, tmp_len) ≡ (c ∷ out, tmp_len + 1)
unfolding decode_byte
decode_byte-plain stray c tmp_len out e1 e2 = rw (e1, e2)

decode_byte-digits :
    (stray h1 h2 b tmp_len : ℕ) (r : List ℕ)
    → to_digit h1 ≡ some (b / 16)
    → to_digit h2 ≡ some (b % 16)
    → 0 < b
    → b < 256
    → 2 ≤ tmp_len
    → decode_byte true stray b'%' (h1 ∷ h2 ∷ r, tmp_len) ≡ (b ∷ r, 0)
unfolding decode_byte
decode_byte-digits stray h1 h2 b tmp_len r e1 e2 pos small room =
    ap (λ (s : List ℕ). (s, 0))
      (decode_backward-digits stray h1 h2 (b / 16) (b % 16) tmp_len r e1 e2 (omega arith) room
        ∙ ap (λ (c : ℕ). c ∷ r) (omega arith))

module _ (hex : ℕ → ℕ) (plain : ℕ → Bool) (stray : ℕ)
    (hex_digit : (d : ℕ) → d < 16 → to_digit (hex d) ≡ some d) (plain_percent : plain b'%' ≡ false)
    (plain_plus : plain b'+' ≡ false) where
  plain-ne : (k b : ℕ) → plain b ≡ true → plain k ≡ false → (b == k) ≡ false
  plain-ne k b p e = elim (Bool-cases (b == k)) [
    | inl eq ↦ (let same : b ≡ k = ground arith in ground (arith, ap plain same))
    | inr ne ↦ ne
  ]

  -- The state of the loop when it has read the encoding of `bs`.
  decode_loop-encode :
      (bs : List ℕ)
      → AllBytes bs
      → (k : ℕ) × (decode_loop true stray (encode hex plain bs) ≡ (bs, k))
  unfolding decode_loop encode
  decode_loop-encode [] h = (0, refl)
  decode_loop-encode (b ∷ bs) h = elim (Bool-cases (plain b)) [
    | inl p ↦
        (let (k, ih) = decode_loop-encode bs h.2 in
          (
            k + 1,
            rw (p, encode_byte)
                (rw ih (
                  decode_byte-plain stray b k bs (plain-ne b'%' b p plain_percent)
                    (plain-ne b'+' b p plain_plus))),
          ))
    | inr q ↦
        (let (k, ih) = decode_loop-encode bs h.2 in
          let e1 = hex_digit (b / 16) (omega arith) in
          let e2 = hex_digit (b % 16) (omega arith) in
          let o1 = digit-Ordinary _ _ e1 in
          let o2 = digit-Ordinary _ _ e2 in
          (
            0,
            rw (q, encode_byte)
                (rw
                  (
                    ih,
                    decode_byte-plain stray (hex (b % 16)) k bs o2.not_percent o2.not_plus,
                    decode_byte-plain stray (hex (b / 16)) (k + 1) (hex (b % 16) ∷ bs)
                        o1.not_percent o1.not_plus,
                  )
                  (decode_byte-digits stray (hex (b / 16)) (hex (b % 16)) b (k + 1 + 1) bs e1 e2 h.0
                    h.1 (omega arith))),
          ))
  ]

  -- Whatever bytes other than NUL a client sends, whichever of them it encodes by a % and two
  -- hexadecimal digits (all % and + among them), and in whichever case it writes the digits: one
  -- pass of `_http_string_decode` in the mode `ONLY_ONE_DECODE` gives exactly those bytes back.
  pub string_decode-encode :
      (bs : List ℕ) → AllBytes bs → string_decode true stray (encode hex plain bs) ≡ bs
  unfolding string_decode
  string_decode-encode bs h = let (k, e) = decode_loop-encode bs h in ap (λ (r : List ℕ × ℕ). r.0) e
