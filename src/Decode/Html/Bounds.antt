-- ===== src/Decode/Html/Bounds.antt =====
-- `_http_html_entities_decode_inplace` ends, and writes no more bytes than it reads.
use xxx.Prelude.{
  ℕ, zero, suc, ◌+◌, ◌-◌, ◌≡◌, ◌≤◌, ◌<◌, refl, ◌==◌, Bool, false, ◌||◌, Option, none, some, List,
  [], ◌∷◌, ◌++◌, ltb, if◌then◌else◌, ◌>>=◌, length, length-append, take, drop, arith, Bool-cases,
  inl, inr, length-take,
}
use xxx.Decode.Escape.{is_xdigit}
use xxx.Decode.Html.{
  run, skip_semicolon, named, Round, put, copy, numeric, by_name, entity, round, min, html_loop,
  html_decode, max_decode_len, is_alnum, is_digit,
}

run-length : (test : ℕ → Bool) (x : List ℕ) → (run test x).0 + length (run test x).1 ≡ length x
unfolding run
run-length test [] = omega arith
run-length test (c ∷ cs) = ground (arith, run-length test cs)

skip_semicolon-le : (x : List ℕ) → length (skip_semicolon x) ≤ length x
skip_semicolon-le [] = omega arith
skip_semicolon-le (c ∷ cs) = ground arith

-- A round at the byte before `n` others reads that byte at least.
abbrev Reads : ℕ → Round → Type 0
Reads n (put b more) = length more ≤ n
Reads n (copy k) = (0 < k) × (k ≤ suc n)

numeric-Reads :
    (value : ℕ → List ℕ → ℕ) (base : ℕ) (test : ℕ → Bool) (skipped n : ℕ) (x : List ℕ)
    → 0 < skipped
    → skipped ≤ suc n
    → length x ≤ n
    → Reads n (numeric value base test skipped x)
unfolding numeric
numeric-Reads value base test skipped n x pos le fits = elim (Bool-cases ((run test x).0 == 0)) [
  | inl e ↦ rw e (pos, le)
  | inr e ↦ rw e (omega (arith, run-length test x, skip_semicolon-le (run test x).1))
]

by_name-Reads : (x : List ℕ) → Reads (length x) (by_name x)
unfolding by_name
by_name-Reads x = elim (Bool-cases ((run is_alnum x).0 == 0)) [
  | inl e ↦ rw e (omega arith)
  | inr e ↦ rw e (named_case (named x))
]
  where
    named_case :
        (o : Option ℕ)
        → Reads (length x) (elim o [
          | none ↦ copy (suc (run is_alnum x).0)
          | some b ↦ put b (skip_semicolon (run is_alnum x).1)
        ])
    named_case none = omega (arith, run-length is_alnum x)
    named_case (some b) = omega (arith, run-length is_alnum x, skip_semicolon-le (run is_alnum x).1)

entity-Reads : (value : ℕ → List ℕ → ℕ) (x : List ℕ) → Reads (length x) (entity value x)
unfolding entity
entity-Reads value [] = omega arith
entity-Reads value (c ∷ []) = elim (Bool-cases (c == b'#')) [
  | inl e ↦ rw e (omega arith)
  | inr e ↦ rw e (by_name-Reads (c ∷ []))
]
entity-Reads value (c ∷ d ∷ x) = elim (Bool-cases (c == b'#')) [
  | inl e ↦ elim (Bool-cases (d == b'x' || d == b'X')) [
    | inl h ↦
        rw (e, h)
          (numeric-Reads value 16 is_xdigit 3 (length (c ∷ d ∷ x)) x (omega arith) (omega arith)
            (omega arith))
    | inr h ↦
        rw (e, h)
          (numeric-Reads value 10 is_digit 2 (length (c ∷ d ∷ x)) (d ∷ x) (omega arith)
            (omega arith) (omega arith))
  ]
  | inr e ↦ rw e (by_name-Reads (c ∷ d ∷ x))
]

round-Reads :
    (value : ℕ → List ℕ → ℕ) (c : ℕ) (rest : List ℕ) → Reads (length rest) (round value c rest)
unfolding round
round-Reads value c rest = elim (Bool-cases (c == b'&')) [
  | inl e ↦ rw e (entity-Reads value rest)
  | inr e ↦ rw e (omega arith)
]

length-drop : (n : ℕ) (xs : List ℕ) → length (drop n xs) ≡ length xs - n
length-drop zero xs = omega arith
length-drop (suc n) [] = omega arith
length-drop (suc n) (x ∷ xs) = omega (arith, length-drop n xs)

-- The loop ends with at most `room` bytes.
abbrev Ends : ℕ → Option (List ℕ) → Type 0
Ends room none = ⊥
Ends room (some out) = length out ≤ room

Ends-cons :
    (b room : ℕ) (o : Option (List ℕ)) → Ends room o → Ends (suc room) (do out ← o; some (b ∷ out))
Ends-cons b room none h = absurd h
Ends-cons b room (some out) h = omega arith

Ends-append :
    (xs : List ℕ) (m room : ℕ) (o : Option (List ℕ))
    → length xs + m ≤ room
    → Ends m o
    → Ends room (do out ← o; some (xs ++ out))
Ends-append xs m room none le h = absurd h
Ends-append xs m room (some out) le h = omega (arith, length-append xs out)

html_loop-Ends :
    (value : ℕ → List ℕ → ℕ) (fuel room : ℕ) (input : List ℕ)
    → length input < fuel
    → length input ≤ room
    → Ends room (html_loop value fuel room input)
unfolding html_loop
html_loop-Ends value zero room input lt le = absurd (omega arith)
html_loop-Ends value (suc fuel) room [] lt le = omega arith
html_loop-Ends value (suc fuel) zero (c ∷ rest) lt le = omega arith
html_loop-Ends value (suc fuel) (suc room) (c ∷ rest) lt le =
    go (round value c rest) (round-Reads value c rest)
      (λ room' more h h'. html_loop-Ends value fuel room' more h h')
  where
    go :
        (r : Round)
        → Reads (length rest) r
        → ((room' : ℕ) (more : List ℕ)
            → length more < fuel
            → length more ≤ room'
            → Ends room' (html_loop value fuel room' more))
        → Ends (suc room) (elim r [
          | put b more ↦ (do out ← html_loop value fuel room more; some (b ∷ out))
          | copy n ↦ (do
            out ←
                html_loop value fuel
                  (suc room - min n (suc room))
                  (drop (min n (suc room)) (c ∷ rest))
            some (take (min n (suc room)) (c ∷ rest) ++ out))
        ])
    go (put b more) h ih = Ends-cons b room _ (ih room more (omega arith) (omega arith))
    go (copy n) (pos, fits) ih =
        let k : min n (suc room) ≡ n = ground arith in
        let len = length-drop n (c ∷ rest) in
        rw k (
          Ends-append (take n (c ∷ rest)) (suc room - n) (suc room) _
            (omega (arith, length-take n (c ∷ rest) fits))
            (ih (suc room - n) (drop n (c ∷ rest)) (omega arith) (omega arith)))

-- On every input that is not longer than `MAX_DECODE_LEN`, `_http_html_entities_decode_inplace` ends,
-- and what it writes is at most as long as what it reads.
pub html_decode-total :
    (value : ℕ → List ℕ → ℕ) (input : List ℕ)
    → length input ≤ max_decode_len
    → (out : List ℕ) × (html_decode value input ≡ some out) × (length out ≤ length input)
unfolding html_decode
html_decode-total value input le =
    let short : ltb max_decode_len (length input) ≡ false = ground arith in
    ended (html_loop value (suc (length input)) (length input) input) short
      (html_loop-Ends value (suc (length input)) (length input) input (omega arith) (omega arith))
  where
    ended :
        (o : Option (List ℕ))
        → ltb max_decode_len (length input) ≡ false
        → Ends (length input) o
        → (out : List ℕ) × ((if ltb max_decode_len (length input) then some [] else o) ≡ some out)
          × (length out ≤ length input)
    ended none short h = absurd h
    ended (some out) short h = (out, rw short refl, h)
