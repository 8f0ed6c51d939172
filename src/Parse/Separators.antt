-- ===== src/Parse/Separators.antt =====
-- How many separators `parse_coo` and `parse_ra` count.
use xxx.Prelude.{
  ℕ, zero, suc, ◌+◌, ◌-◌, ◌==◌, ◌≡◌, ◌≤◌, ◌<◌, ◌⊎◌, ltb, Option, inl, inr, refl, true, false, none,
  some, List, [], ◌∷◌, ◌++◌, if◌then◌else◌, length, take, drop, arith, ap, ◌∙◌, sym, length-append,
  Bool-cases,
}
use xxx.Text.{strlstr}
use xxx.Text.Find.{lacks, strlstr-hit, strlstr-miss}
use xxx.Parse.Pointers.{drop-append, slice-append}
use xxx.Message.{Str, null_str, max_append, append_str, set_str_no_null}
use xxx.Message.Append.{text_str, append_str-text}
use xxx.Parse.{Info}
use xxx.Parse.Counts.{count_loop, count, parse_coo, parse_ra}

abbrev occurrences : ℕ → List ℕ → ℕ
occurrences c [] = 0
occurrences c (x ∷ xs) = if x == c then suc (occurrences c xs) else occurrences c xs

-- The byte stands among the first `n`, or not.
abbrev Split : ℕ → ℕ → List ℕ → Type 0
Split c n mem =
    ((w : List ℕ) × (rest : List ℕ) × (mem ≡ w ++ c ∷ rest) × (lacks c w ≡ true) × (length w < n))
    ⊎ ((w : List ℕ) × (rest : List ℕ) × (mem ≡ w ++ rest) × (lacks c w ≡ true) × (length w ≡ n))

mem-Split : (c n : ℕ) (mem : List ℕ) → n ≤ length mem → Split c n mem
mem-Split c zero mem le = inr ([], mem, refl, refl, refl)
mem-Split c (suc n) [] le = absurd (omega arith)
mem-Split c (suc n) (x ∷ mem) le = elim (Bool-cases (x == c)) [
  | inl here ↦
      (let same : x ≡ c = ground arith in inl ([], mem, ap (λ y. y ∷ mem) same, refl, omega arith))
  | inr other ↦ (elim (mem-Split c n mem (omega arith)) [
    | inl (w, rest, e, h, lt) ↦
        inl (x ∷ w, rest, ap (λ (r : List ℕ). x ∷ r) e, rw other h, omega arith)
    | inr (w, rest, e, h, len) ↦
        inr (x ∷ w, rest, ap (λ (r : List ℕ). x ∷ r) e, rw other h, ap suc len)
  ])
]

occurrences-hit :
    (c : ℕ) (w rest : List ℕ) (n : ℕ)
    → lacks c w ≡ true
    → length w ≤ n
    → occurrences c (take (suc n) (w ++ c ∷ rest)) ≡ suc (occurrences c (take (n - length w) rest))
occurrences-hit c [] rest n h le =
    let same : (c == c) ≡ true = ground arith in
    let all : n - 0 ≡ n = omega arith in rw (same, all) refl
occurrences-hit c (x ∷ w) rest zero h le = absurd (omega arith)
occurrences-hit c (x ∷ w) rest (suc n) h le =
    let other : (x == c) ≡ false = ground arith in
    let left : suc n - suc (length w) ≡ n - length w = omega arith in
    rw (other, left) (occurrences-hit c w rest n (ground arith) (omega arith))

occurrences-miss :
    (c : ℕ) (w rest : List ℕ) → lacks c w ≡ true → occurrences c (take (length w) (w ++ rest)) ≡ 0
occurrences-miss c [] rest h = refl
occurrences-miss c (x ∷ w) rest h =
    let other : (x == c) ≡ false = ground arith in
    rw other (occurrences-miss c w rest (ground arith))

count_loop-hit :
    (fuel c : ℕ) (x : ℕ) (mem : List ℕ) (n k m : ℕ)
    → strlstr mem (suc n) (c ∷ []) ≡ some (some k)
    → count_loop fuel c (drop k mem) (suc n - suc k) ≡ some m
    → count_loop (suc fuel) c (x ∷ mem) (suc n) ≡ some (suc m)
unfolding count_loop
count_loop-hit fuel c x mem n k m e h = rw e (rw h refl)

count_loop-none :
    (fuel c : ℕ) (x : ℕ) (mem : List ℕ) (n : ℕ)
    → strlstr mem (suc n) (c ∷ []) ≡ some none
    → count_loop (suc fuel) c (x ∷ mem) (suc n) ≡ some 0
unfolding count_loop
count_loop-none fuel c x mem n e = rw e refl

count_loop-occurrences :
    (fuel c : ℕ) (x : ℕ) (mem : List ℕ) (n : ℕ)
    → n < fuel
    → n ≤ length mem
    → count_loop fuel c (x ∷ mem) n ≡ some (occurrences c (take n mem))
unfolding count_loop
count_loop-occurrences zero c x mem n lt le = absurd (omega arith)
count_loop-occurrences (suc fuel) c x mem zero lt le = refl
count_loop-occurrences (suc fuel) c x mem (suc n) lt le = elim (mem-Split c (suc n) mem le) [
  | inl (w, rest, e, h, short) ↦
      (let k = length w in
        let len : length mem ≡ k + suc (length rest) = ap length e ∙ length-append w (c ∷ rest) in
        let left : suc n - suc k ≡ n - k = omega arith in
        let found : strlstr mem (suc n) (c ∷ []) ≡ some (some k) =
          ap (λ t. strlstr t (suc n) (c ∷ [])) e ∙ strlstr-hit c w rest (suc n) h short in
        let rest_at : drop k mem ≡ c ∷ rest = ap (drop k) e ∙ drop-append w (c ∷ rest) in
        let more : count_loop fuel c (drop k mem) (suc n - suc k)
            ≡ some (occurrences c (take (n - k) rest)) =
          ap (λ t. count_loop fuel c t (suc n - suc k)) rest_at
          ∙ ap (count_loop fuel c (c ∷ rest)) left
          ∙ count_loop-occurrences fuel c c rest (n - k) (omega arith) (omega arith) in
        count_loop-hit fuel c x mem n k (occurrences c (take (n - k) rest)) found more
        ∙ ap some (
            sym (
              ap (λ t. occurrences c (take (suc n) t)) e
              ∙ occurrences-hit c w rest n h (omega arith))))
  | inr (w, rest, e, h, len) ↦
      (let found : strlstr mem (suc n) (c ∷ []) ≡ some none =
          ap (λ t. strlstr t (suc n) (c ∷ [])) e
          ∙ strlstr-miss c w rest (suc n) h (omega arith) (omega arith) in
        let empty : occurrences c (take (suc n) mem) ≡ 0 =
          ap (λ t. occurrences c (take (suc n) t)) e
          ∙ ap (λ k. occurrences c (take k (w ++ rest))) (sym len)
          ∙ occurrences-miss c w rest h in
        count_loop-none fuel c x mem n found ∙ ap some (sym empty))
]

count-occurrences :
    (sep x : ℕ) (from : List ℕ) (len : ℕ)
    → len ≤ length from
    → count sep (x ∷ from) len ≡ some (suc (occurrences sep (take len from)))
unfolding count
count-occurrences sep x from len le =
    rw (count_loop-occurrences (suc len) sep x from len (omega arith) le) refl

take-append_byte :
    (value rest : List ℕ) (b : ℕ) → take (suc (length value)) (value ++ b ∷ rest) ≡ value ++ b ∷ []
take-append_byte [] rest b = refl
take-append_byte (x ∷ value) rest b = ap (λ (r : List ℕ). x ∷ r) (take-append_byte value rest b)

-- The separators that are counted for the value `x ∷ value` with the byte `b` behind it.
abbrev pub counted_in : ℕ → List ℕ → ℕ → ℕ
counted_in sep value b = suc (occurrences sep (value ++ b ∷ []))

count-counted_in :
    (sep x b : ℕ) (value rest : List ℕ)
    → count sep (x ∷ (value ++ b ∷ rest)) (suc (length value)) ≡ some (counted_in sep value b)
count-counted_in sep x b value rest =
    count-occurrences sep x (value ++ b ∷ rest) (suc (length value))
      (omega (arith, length-append value (b ∷ rest)))
    ∙ ap (λ t. some (suc (occurrences sep t))) (take-append_byte value rest b)

-- The cookies of the fields before, NULL if there were none, and with those of one field more.
abbrev pub cookie_str : Option (List ℕ) → Str
cookie_str none = null_str
cookie_str (some text) = text_str text

abbrev pub with_cookie : Option (List ℕ) → List ℕ → List ℕ
with_cookie none w = w
with_cookie (some text) w = if ltb (length text + length w) max_append then text ++ w else text

append_str-with_cookie :
    (old : Option (List ℕ)) (w : List ℕ)
    → length w ≤ max_append
    → append_str (cookie_str old) w ≡ some (text_str (with_cookie old w))
unfolding append_str set_str_no_null
append_str-with_cookie none w le =
    let short : ltb max_append (length w) ≡ false = ground arith in rw short refl
append_str-with_cookie (some text) w le = append_str-text text w

-- For a value of one to 4096 bytes with the byte `b` behind it, and cookies that are NULL or that
-- `http_append_str` has made, `parse_coo` stores the value as the first cookies, or appends it to
-- those there are if they stay below 4096 bytes, and stores as their number one more than there are
-- semicolons in the value and the byte behind it, the first byte left out; `parse_ra` stores one more
-- than there are commas in the same bytes as the number of ranges. Nothing else is changed.
pub parse_coo-counted_in :
    (x b : ℕ) (value rest : List ℕ) (old : Option (List ℕ)) (info : Info)
    → info.str.cookie ≡ cookie_str old
    → length value < max_append
    → (parse_coo (x ∷ (value ++ b ∷ rest)) (suc (length value)) info
        ≡ some (record info {
          str = record info.str { cookie = text_str (with_cookie old (x ∷ value)) };
          http_int = record info.http_int { header_cookie_num = counted_in b';' value b };
        }))
      × (parse_ra (x ∷ (value ++ b ∷ rest)) (suc (length value)) info
          ≡ some (record info {
            http_int = record info.http_int { header_range_num = counted_in b',' value b };
          }))
unfolding parse_coo parse_ra
parse_coo-counted_in x b value rest old info e le =
    let raw = slice-append (x ∷ value) (b ∷ rest) in
    let stored : append_str info.str.cookie (x ∷ value)
        ≡ some (text_str (with_cookie old (x ∷ value))) =
      ap (λ s. append_str s (x ∷ value)) e ∙ append_str-with_cookie old (x ∷ value) (omega arith) in
    (
      rw (raw, stored, count-counted_in b';' x b value rest) refl,
      rw (count-counted_in b',' x b value rest) refl,
    )
