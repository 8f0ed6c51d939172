-- ===== src/Message/Append.antt =====
-- Strings that grow piece by piece, and strings that are stored decoded.
use xxx.Prelude.{
  ℕ, suc, ◌+◌, ◌≡◌, ◌≤◌, ◌<◌, refl, true, false, Option, none, some, List, [], ◌∷◌, ◌++◌,
  if◌then◌else◌, ◌>>=◌, length, leb, ltb, set, take, arith, length-append, Bool-cases, inl, inr, ap,
}
use xxx.Head.{Flag}
use xxx.Message.{Str, null_str, need_decode, set_str, set_str_no_null, max_append, append_str}

-- `http_append_str` for each of some pieces.
abbrev pub append_all : Str → List (List ℕ) → Option Str
append_all str [] = some str
append_all str (raw ∷ pieces) = do s ← append_str str raw; append_all s pieces

-- What is kept: a piece with which the text would reach 4096 bytes is left out.
abbrev pub kept : List ℕ → List (List ℕ) → List ℕ
kept text [] = text
kept text (raw ∷ pieces) =
    kept (if ltb (length text + length raw) max_append then text ++ raw else text) pieces

-- A string that has been appended to, and its text.
abbrev pub text_str : List ℕ → Str
text_str text = record {
  p = some (record { bytes = text; room = max_append + 1 });
  len = length text;
}

take-length : (xs : List ℕ) → take (length xs) xs ≡ xs
take-length [] = refl
take-length (x ∷ xs) = ap (λ (r : List ℕ). x ∷ r) (take-length xs)

pub append_str-text :
    (text raw : List ℕ)
    → append_str (text_str text) raw
      ≡ some (text_str (if ltb (length text + length raw) max_append then text ++ raw else text))
unfolding append_str
append_str-text text raw = elim (Bool-cases (ltb (length text + length raw) max_append)) [
  | inl fits ↦
      (let small : leb (max_append + 1) (length text + length raw) ≡ false = ground arith in
        rw (fits, small, take-length text, length-append text raw) refl)
  | inr full ↦ rw full refl
]

append_all-text :
    (text : List ℕ) (pieces : List (List ℕ))
    → append_all (text_str text) pieces ≡ some (text_str (kept text pieces))
append_all-text text [] = refl
append_all-text text (raw ∷ pieces) = rw (append_str-text text raw) (
    append_all-text (if ltb (length text + length raw) max_append then text ++ raw else text)
      pieces)

-- A string that `http_append_str` makes piece by piece is the first piece, with the further pieces
-- as long as the text stays below 4096 bytes; but a first piece of more than 4096 bytes is written
-- behind the end of the block.
pub append_all-kept :
    (first : List ℕ) (pieces : List (List ℕ))
    → (length first ≤ max_append
        → append_all null_str (first ∷ pieces) ≡ some (text_str (kept first pieces)))
      × (max_append < length first → append_all null_str (first ∷ pieces) ≡ none)
unfolding append_str set_str_no_null
append_all-kept first pieces = elim (Bool-cases (ltb max_append (length first))) [
  | inl long ↦ ((λ le. absurd (ground arith)), (λ lt. rw long refl))
  | inr short ↦ ((λ le. rw short (append_all-text first pieces)), (λ lt. absurd (ground arith)))
]

set-length : (xs : List ℕ) (v : ℕ) → set xs (length xs) v ≡ xs
set-length [] v = refl
set-length (x ∷ xs) v = ap (λ (r : List ℕ). x ∷ r) (set-length xs v)

pub set_str-raw :
    (decode : Flag → List ℕ → Option (List ℕ)) (flag : Flag) (str : Str) (b : ℕ) (raw : List ℕ)
    → need_decode flag ≡ false
    → set_str decode flag str (b ∷ raw)
      ≡ some (record {
        p = some (record { bytes = b ∷ raw; room = length (b ∷ raw) + 1 });
        len = length (b ∷ raw);
      })
unfolding set_str
set_str-raw decode flag str b raw n =
    let same : ltb (suc (length raw)) (suc (length raw)) ≡ false = ground arith in
    rw (n, same, set-length raw 0) refl

-- `http_set_str` with a decoding that makes the text shorter, but not empty, writes a NUL behind the
-- block that it has allocated; without decoding, it stores the text.
pub set_str_lem :
    (decode : Flag → List ℕ → Option (List ℕ)) (flag : Flag) (str : Str) (raw text : List ℕ)
    → (need_decode flag ≡ true
        → decode flag raw ≡ some text
        → 0 < length text
        → length text < length raw
        → set_str decode flag str raw ≡ none)
      × (need_decode flag ≡ false
          → 0 < length raw
          → set_str decode flag str raw
            ≡ some (record {
              p = some (record { bytes = raw; room = length raw + 1 });
              len = length raw;
            }))
unfolding set_str
set_str_lem decode flag str [] text =
    ((λ n d p lt. absurd (omega arith)), (λ n p. absurd (omega arith)))
set_str_lem decode flag str (b ∷ raw) [] =
    ((λ n d p lt. absurd (omega arith)), (λ n p. set_str-raw decode flag str b raw n))
set_str_lem decode flag str (b ∷ raw) (c ∷ text) =
    ((λ n d p lt. ground arith), (λ n p. set_str-raw decode flag str b raw n))
