-- ===== src/Tests/Scanning.antt =====
-- The search for the end of a header (http/http.c) on short streams.
use xxx.Prelude.{ℕ, ◌≤◌, ◌≡◌, refl, ◌⊎◌, false, some, List, [], ◌∷◌, reverse, arith, ◌==◌, take}
use xxx.Scan.{s_http_parse}
use xxx.Scan.Match.{ends_header, s_http_parse_lem, s_http_parse-first}

-- "a\r\n\r\nb"
abbrev stream : List ℕ
stream = 97 ∷ 13 ∷ 10 ∷ 13 ∷ 10 ∷ 98 ∷ []

-- The byte behind the header is not consumed, and a repeated CR loses nothing.
parse_stream :
    (s_http_parse 0 stream ≡ some (5, 4)) × (s_http_parse 0 (13 ∷ 13 ∷ 10 ∷ []) ≡ some (3, 2))
unfolding s_http_parse
parse_stream = (refl, refl)

s_http_parse_lem_example :
    (n : ℕ) × (t : ℕ) × (s_http_parse 0 stream ≡ some (n, t))
    × (n ≤ 6)
    × (ends_header (reverse (take n stream)) ≡ (t == 4))
    × ((t ≡ 4) ⊎ (n ≡ 6))
s_http_parse_lem_example = s_http_parse_lem stream

s_http_parse-first_example : ends_header (10 ∷ 13 ∷ 97 ∷ []) ≡ false
s_http_parse-first_example = s_http_parse-first stream 3 parse_stream.0 (omega arith)

half : s_http_parse 0 (97 ∷ 13 ∷ []) ≡ some (2, 1)
unfolding s_http_parse
half = refl
