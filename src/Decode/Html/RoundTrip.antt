-- ===== src/Decode/Html/RoundTrip.antt =====
-- What is written with the named entities, `_http_html_entities_decode_inplace` reads back.
use xxx.Prelude.{
  ap, ◌∙◌, ◌⊎◌, ℕ, zero, suc, ◌-◌, ◌≡◌, ◌≤◌, ◌<◌, refl, ◌==◌, false, Option, some, List, [], ◌∷◌,
  ◌++◌, ltb, if◌then◌else◌, ◌>>=◌, length, take, drop, arith, Bool-cases, inl, inr,
}
use xxx.Decode.Digit.{starts_nocase}
use xxx.Decode.Html.{
  run, named, Round, put, copy, by_name, entity, round, min, html_loop, html_decode, max_decode_len,
}

-- A text in HTML: the ampersand, the angles and the quotation mark by their names.
unfoldable pub encode : List ℕ → List ℕ
encode [] = []
encode (b ∷ bs) =
    if b == b'&'
    then b'&' ∷ b'a' ∷ b'm' ∷ b'p' ∷ b';' ∷ encode bs
    else if b == b'<'
    then b'&' ∷ b'l' ∷ b't' ∷ b';' ∷ encode bs
    else if b == b'>'
    then b'&' ∷ b'g' ∷ b't' ∷ b';' ∷ encode bs
    else if b == 34
    then b'&' ∷ b'q' ∷ b'u' ∷ b'o' ∷ b't' ∷ b';' ∷ encode bs
    else b ∷ encode bs

module _ (value : ℕ → List ℕ → ℕ) where
  abbrev after : ℕ → ℕ → List ℕ → Round → Option (List ℕ)
  after fuel room input r = elim r [
    | put b more ↦ (do out ← html_loop value fuel room more; some (b ∷ out))
    | copy n ↦
        let k = min n (suc room) in
        (do out ← html_loop value fuel (suc room - k) (drop k input); some (take k input ++ out))
  ]

  html_loop-end : (fuel room : ℕ) → html_loop value (suc fuel) room (encode []) ≡ some []
  unfolding html_loop encode
  html_loop-end fuel room = refl

  html_loop-put :
      (fuel room c b : ℕ) (rest more bs : List ℕ)
      → round value c rest ≡ put b more
      → html_loop value fuel room more ≡ some bs
      → html_loop value (suc fuel) (suc room) (c ∷ rest) ≡ some (b ∷ bs)
  unfolding html_loop
  html_loop-put fuel room c b rest more bs e h = ap (after fuel room (c ∷ rest)) e ∙ rw h refl

  html_loop-plain :
      (fuel room c : ℕ) (rest bs : List ℕ)
      → (c == b'&') ≡ false
      → html_loop value fuel room rest ≡ some bs
      → html_loop value (suc fuel) (suc room) (c ∷ rest) ≡ some (c ∷ bs)
  unfolding html_loop round
  html_loop-plain fuel room c rest bs e h =
      let single : round value c rest ≡ copy 1 = rw e refl in
      let one : min 1 (suc room) ≡ 1 = ground arith in
      let left : suc room - 1 ≡ room = omega arith in
      ap (after fuel room (c ∷ rest)) single
      ∙ ap
          (λ (k : ℕ). (do
            out ← html_loop value fuel (suc room - k) (drop k (c ∷ rest))
            some (take k (c ∷ rest) ++ out)))
          one
      ∙ rw (left, h) refl

  abbrev Written : ℕ → List ℕ → List ℕ → Type 0
  Written b bs text =
      ((c : ℕ) × (rest : List ℕ) × (text ≡ c ∷ rest)
        × (round value c rest ≡ put b (encode bs))
        × (length (encode bs) ≤ length rest))
      ⊎ ((text ≡ b ∷ encode bs) × ((b == b'&') ≡ false))

  entity-Written :
      (b d : ℕ) (rest bs other : List ℕ)
      → (round value b'&' rest ≡ put d (encode bs)) × (length (encode bs) ≤ length rest)
      → ((b == d) ≡ false → Written b bs other)
      → Written b bs (if b == d then b'&' ∷ rest else other)
  entity-Written b d rest bs other (e, le) h = elim (Bool-cases (b == d)) [
    | inl same ↦
        (let eq : d ≡ b = ground arith in
          inl (b'&', rest, rw same refl, e ∙ ap (λ x. put x (encode bs)) eq, le))
    | inr differ ↦ rw differ (h differ)
  ]

  encode-Written : (b : ℕ) (bs : List ℕ) → Written b bs (encode (b ∷ bs))
  unfolding encode round entity by_name run named starts_nocase
  encode-Written b bs =
      entity-Written b b'&' _ bs _ (refl, omega arith)
        (λ plain.
          entity-Written b b'<' _ bs _ (refl, omega arith)
            (λ _.
              entity-Written b b'>' _ bs _ (refl, omega arith)
                (λ _. entity-Written b 34 _ bs _ (refl, omega arith) (λ _. inr (refl, plain)))))

  html_loop-Written :
      (b : ℕ) (bs text : List ℕ) (fuel room : ℕ)
      → Written b bs text
      → length text < suc fuel
      → length text ≤ suc room
      → (length (encode bs) < fuel
          → length (encode bs) ≤ room
          → html_loop value fuel room (encode bs) ≡ some bs)
      → html_loop value (suc fuel) (suc room) text ≡ some (b ∷ bs)
  html_loop-Written b bs text fuel room (inl (c, rest, e, r, le)) lt lr ih =
      let len : length text ≡ suc (length rest) = ap length e in
      ap (html_loop value (suc fuel) (suc room)) e
      ∙ html_loop-put fuel room c b rest (encode bs) bs r (ih (omega arith) (omega arith))
  html_loop-Written b bs text fuel room (inr (e, plain)) lt lr ih =
      let len : length text ≡ suc (length (encode bs)) = ap length e in
      ap (html_loop value (suc fuel) (suc room)) e
      ∙ html_loop-plain fuel room b (encode bs) bs plain (ih (omega arith) (omega arith))

  length-encode : (b : ℕ) (bs text : List ℕ) → Written b bs text → 1 ≤ length text
  length-encode b bs text (inl (c, rest, e, r, le)) =
      let len : length text ≡ suc (length rest) = ap length e in omega arith
  length-encode b bs text (inr (e, plain)) =
      let len : length text ≡ suc (length (encode bs)) = ap length e in omega arith

  html_loop-encode :
      (bs : List ℕ) (fuel room : ℕ)
      → length (encode bs) < fuel
      → length (encode bs) ≤ room
      → html_loop value fuel room (encode bs) ≡ some bs
  html_loop-encode bs zero room lt le = absurd (omega arith)
  html_loop-encode [] (suc fuel) room lt le = html_loop-end fuel room
  html_loop-encode (b ∷ bs) (suc fuel) zero lt le =
      absurd (omega (arith, length-encode b bs _ (encode-Written b bs)))
  html_loop-encode (b ∷ bs) (suc fuel) (suc room) lt le =
      html_loop-Written b bs (encode (b ∷ bs)) fuel room (encode-Written b bs) lt le
        (html_loop-encode bs fuel room)

-- Where a text with its ampersands, angles and quotation marks written by name is not longer than
-- `MAX_DECODE_LEN`, `_http_html_entities_decode_inplace` gives the text back.
pub html_decode-encode :
    (value : ℕ → List ℕ → ℕ) (bs : List ℕ)
    → length (encode bs) ≤ max_decode_len
    → html_decode value (encode bs) ≡ some bs
unfolding html_decode
html_decode-encode value bs le =
    let short : ltb max_decode_len (length (encode bs)) ≡ false = ground arith in
    rw short (
      html_loop-encode value bs (suc (length (encode bs))) (length (encode bs)) (omega arith)
        (omega arith))
