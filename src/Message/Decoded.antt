-- ===== src/Message/Decoded.antt =====
-- `http_set_str` of http/http_basic.c with the decoder that it calls, `http_decode_string`.
use xxx.Prelude.{
  ℕ, zero, suc, ◌+◌, ◌≡◌, ◌≤◌, ◌<◌, refl, true, false, Option, none, some, List, [], ◌∷◌,
  if◌then◌else◌, length, ltb, set, arith, ap, ◌∙◌,
}
use xxx.Head.{Flag}
use xxx.Message.{Str, need_decode, or_raw, set_str}
use xxx.Decode.Full.{Result, decoded, too_long, nothing, fault, no_end, decode_string}
use xxx.Decode.Full.Bounds.{decode_string-total}

-- The bytes in `buf`, as many as the call returns; none for 0 and -1.
abbrev pub returned : Result → Option (List ℕ)
returned (decoded out) = some out
returned too_long = some []
returned nothing = some []
returned fault = none
returned no_end = none

-- The call of `http_decode_string` with `buf`.
unfoldable pub decode_buf : (value : ℕ → List ℕ → ℕ) (stray : ℕ) → Flag → List ℕ → Option (List ℕ)
decode_buf value stray flag raw = returned (decode_string value stray 8192 raw flag)

abbrev pub block_of : List ℕ → Str
block_of text = record {
  p = some (record { bytes = text; room = length text + 1 });
  len = length text;
}

set_end : (n : ℕ) (xs : List ℕ) → length xs ≤ n → set xs n 0 ≡ xs
set_end n [] le = refl
set_end zero (x ∷ xs) le = absurd (omega arith)
set_end (suc n) (x ∷ xs) le = ap (λ (r : List ℕ). x ∷ r) (set_end n xs (omega arith))

abbrev finished : List ℕ → List ℕ → Option Str
finished text raw =
    if ltb (length text) (length raw)
    then none
    else some (record {
      p = some (record { bytes = set text (length raw) 0; room = length text + 1 });
      len = length text;
    })

finished-whole :
    (text raw : List ℕ) → length text ≡ length raw → finished text raw ≡ some (block_of text)
finished-whole text raw e =
    let fits : ltb (length text) (length raw) ≡ false = ground arith in
    rw (fits, set_end (length raw) text (omega arith)) refl

finished-short : (text raw : List ℕ) → length text < length raw → finished text raw ≡ none
finished-short text raw lt =
    let short : ltb (length text) (length raw) ≡ true = ground arith in rw short refl

set_str-finished :
    (decode : Flag → List ℕ → Option (List ℕ)) (flag : Flag) (str : Str) (b : ℕ) (raw out : List ℕ)
    → need_decode flag ≡ true
    → decode flag (b ∷ raw) ≡ some out
    → set_str decode flag str (b ∷ raw) ≡ finished (or_raw out (b ∷ raw)) (b ∷ raw)
unfolding set_str
set_str-finished decode flag str b raw out n e = rw (n, e) refl

-- A text of 1 to 8191 bytes with an encoding mark is decoded to one that is at most as long. If the
-- decoded text is shorter and not empty, `http_set_str` writes behind the block that it has
-- allocated; if it is empty, the text itself is stored; if it is as long, it is stored.
pub set_str-decoded :
    (value : ℕ → List ℕ → ℕ) (stray : ℕ) (flag : Flag) (str : Str) (raw : List ℕ)
    → need_decode flag ≡ true
    → 0 < length raw
    → length raw < 8192
    → (out : List ℕ) × (decode_string value stray 8192 raw flag ≡ decoded out)
      × (length out ≤ length raw)
      × (0 < length out
          → length out < length raw
          → set_str (decode_buf value stray) flag str raw ≡ none)
      × (length out ≡ 0 → set_str (decode_buf value stray) flag str raw ≡ some (block_of raw))
      × (length out ≡ length raw
          → set_str (decode_buf value stray) flag str raw ≡ some (block_of out))
unfolding decode_buf
set_str-decoded value stray flag str [] n pos lt = absurd (omega arith)
set_str-decoded value stray flag str (b ∷ raw) n pos lt =
    let (out, e, le) = decode_string-total value stray 8192 (b ∷ raw) flag pos lt (omega arith) in
    let stored = set_str-finished (decode_buf value stray) flag str b raw out n (ap returned e) in
    let (short, empty, whole) = cases out le stored in (out, e, le, short, empty, whole)
  where
    cases :
        (out : List ℕ)
        → length out ≤ length (b ∷ raw)
        → set_str (decode_buf value stray) flag str (b ∷ raw)
          ≡ finished (or_raw out (b ∷ raw)) (b ∷ raw)
        → (0 < length out
            → length out < length (b ∷ raw)
            → set_str (decode_buf value stray) flag str (b ∷ raw) ≡ none)
          × (length out ≡ 0
              → set_str (decode_buf value stray) flag str (b ∷ raw) ≡ some (block_of (b ∷ raw)))
          × (length out ≡ length (b ∷ raw)
              → set_str (decode_buf value stray) flag str (b ∷ raw) ≡ some (block_of out))
    cases [] le stored = (
      (λ p lt'. absurd (omega arith)),
      (λ z. stored ∙ finished-whole (b ∷ raw) (b ∷ raw) refl),
      (λ z. absurd (omega arith)),
    )
    cases (c ∷ out) le stored = (
      (λ p lt'. stored ∙ finished-short (c ∷ out) (b ∷ raw) lt'),
      (λ z. absurd (omega arith)),
      (λ z. stored ∙ finished-whole (c ∷ out) (b ∷ raw) z),
    )
