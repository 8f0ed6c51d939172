-- ===== src/Body/Line.antt =====
-- `http_read_line`, and the end of a line.
use xxx.Prelude.{
  ℕ, zero, suc, ◌+◌, ◌-◌, ◌≤◌, ◌<◌, ◌≡◌, refl, ◌==◌, Bool, true, false, ◌&&◌, ◌||◌, Option, none,
  some, List, [], ◌∷◌, ◌++◌, ◌>>=◌, length, length-append, drop, ap, arith, ltb,
}
use xxx.Text.{starts, strlstr}
use xxx.Text.Search.{Found, find_loop-Found}
use xxx.Body.{cache_size, read_line}

-- Whether CR LF stands in a line.
abbrev pub has_crlf : List ℕ → Bool
has_crlf [] = false
has_crlf (a ∷ []) = false
has_crlf (a ∷ b ∷ r) = a == 13 && b == 10 || has_crlf (b ∷ r)

abbrev crlf : List ℕ
crlf = 13 ∷ 10 ∷ []

has_crlf-of_found :
    (line : List ℕ) (k : ℕ)
    → starts crlf (drop k (line ++ 0 ∷ [])) ≡ some true
    → has_crlf line ≡ true
unfolding starts
has_crlf-of_found [] zero e = ground arith
has_crlf-of_found [] (suc zero) e = ground arith
has_crlf-of_found [] (suc (suc k)) e = ground arith
has_crlf-of_found (a ∷ []) zero e = ground arith
has_crlf-of_found (a ∷ []) (suc k) e = has_crlf-of_found [] k e
has_crlf-of_found (a ∷ b ∷ r) zero e = ground arith
has_crlf-of_found (a ∷ b ∷ r) (suc k) e = ground (arith, has_crlf-of_found (b ∷ r) k e)

has_crlf-of_none :
    (line : List ℕ) (n : ℕ)
    → length line ≤ suc n
    → Found crlf (line ++ 0 ∷ []) n none
    → has_crlf line ≡ false
unfolding starts
has_crlf-of_none [] n le h = refl
has_crlf-of_none (a ∷ []) n le h = refl
has_crlf-of_none (a ∷ b ∷ r) zero le h = absurd (omega arith)
has_crlf-of_none (a ∷ b ∷ r) (suc n) le h = ground (
  arith,
  h 0 (omega arith),
  has_crlf-of_none (b ∷ r) n (omega arith) (λ i lt. h (suc i) (omega arith)),
)

-- What a line is for `http_read_line`.
abbrev pub read : List ℕ → Bool → List ℕ × Option (List ℕ)
read line true = ([], some line)
read line false = (line, none)

abbrev as_read : List ℕ → Option ℕ → List ℕ × Option (List ℕ)
as_read line r = elim r [ none ↦ (line, none) | some k ↦ ([], some line) ]

Found-has_crlf :
    (line : List ℕ) (n : ℕ) (r : Option ℕ)
    → length line ≤ suc n
    → Found crlf (line ++ 0 ∷ []) n r
    → as_read line r ≡ read line (has_crlf line)
Found-has_crlf line n none le h = rw (has_crlf-of_none line n le h)
Found-has_crlf line n (some k) le h = rw (has_crlf-of_found line k h.1)

strlstr-crlf :
    (line : List ℕ)
    → 0 < length line
    → (do found ← strlstr (line ++ 0 ∷ []) (length line) crlf; some (as_read line found))
      ≡ some (read line (has_crlf line))
unfolding strlstr
strlstr-crlf line pos =
    let (r, e, found) =
      find_loop-Found (suc (length line - 2)) crlf (line ++ 0 ∷ []) (omega arith)
        (omega (arith, length-append line (0 ∷ []))) in
    rw e (ap some (Found-has_crlf line (suc (length line - 2)) r (omega arith) found))

-- `http_read_line` keeps what it is given until the line has its CR LF, and then returns the whole
-- line, as long as the line has fewer than 512 bytes; at 512 bytes it writes behind `cache_buf`.
pub read_line_lem :
    (cache bytes : List ℕ)
    → 0 < length bytes
    → (length cache + length bytes < cache_size
        → read_line cache bytes ≡ some (read (cache ++ bytes) (has_crlf (cache ++ bytes))))
      × (length cache + length bytes ≡ cache_size → read_line cache bytes ≡ none)
unfolding read_line
read_line_lem cache bytes pos =
    let len = length-append cache bytes in
    (
      (λ room.
          (let small : ltb cache_size (length (cache ++ bytes)) ≡ false = ground arith in
            let not_full : (length (cache ++ bytes) == cache_size) ≡ false = ground arith in
            rw (small, not_full) (strlstr-crlf (cache ++ bytes) (omega arith)))),
      (λ full. ground arith),
    )
