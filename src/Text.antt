-- ===== src/Text.antt =====
-- The string helpers of http/http_basic.c. A buffer is the list of its bytes from the pointer on;
-- `none` is a read behind its end.
pub mod Search
pub mod Find
pub mod Strip
use mathlib.Core.Option
use xxx.Prelude.{
  ℕ, zero, suc, ◌+◌, ◌-◌, ◌==◌, Bool, true, false, ◌&&◌, ◌||◌, Option, none, some, List, [], ◌∷◌,
  leb, ltb, if◌then◌else◌, ◌>>=◌, take, reverse, length,
}
use xxx.Decode.Digit.{to_lower}

-- `memcmp (mem, pattern, n) == 0` for a pattern of `n` bytes, which reads all of them.
unfoldable pub starts : List ℕ → List ℕ → Option Bool
starts [] mem = some true
starts (p ∷ ps) [] = none
starts (p ∷ ps) (c ∷ mem) = do rest ← starts ps mem; some (c == p && rest)

abbrev pub or_else : Bool → Option (Option ℕ) → Option (Option ℕ)
or_else true rest = some (some 0)
or_else false rest = rest

-- The loop of `strlstr`, with the rounds that are left: the offset of the match.
unfoldable pub find_loop : ℕ → List ℕ → List ℕ → Option (Option ℕ)
unfolding starts
find_loop zero pattern mem = some none
find_loop (suc rounds) pattern [] = do found ← starts pattern []; or_else found none
find_loop (suc rounds) pattern (c ∷ mem) =
    let rest = (do r ← find_loop rounds pattern mem; some (Option.map suc r)) in
    (do found ← starts pattern (c ∷ mem); or_else found rest)

-- `strlstr`: even a `src` that is shorter than the pattern is compared once.
unfoldable pub strlstr : List ℕ → ℕ → List ℕ → Option (Option ℕ)
unfolding find_loop
strlstr src slen pattern = find_loop (suc (slen - length pattern)) pattern src

-- `isspace` of the C locale, or a colon.
abbrev pub is_blank : ℕ → Bool
is_blank c = c == b' ' || leb 9 c && leb c 13 || c == b':'

-- The first loop of `strlstrip`.
unfoldable pub strip_left : List ℕ → List ℕ
strip_left [] = []
strip_left (c ∷ cs) = if is_blank c then strip_left cs else c ∷ cs

-- `strlstrip`: what is left between the two pointers.
unfoldable pub strlstrip : List ℕ → List ℕ
unfolding strip_left
strlstrip s = reverse (strip_left (reverse (strip_left s)))

-- `http_char2num`
unfoldable pub char2num : ℕ → ℕ
char2num c =
    if leb b'a' c && leb c b'z' then c - b'a' else if leb b'A' c && leb c b'Z' then c - b'A' else 26

-- `strlcpy2` with pointers that are not NULL: what it writes before the NUL. For a `dlen` of 0 the
-- number `dlen - 1` wraps round, and all is copied.
unfoldable pub strlcpy2 : ℕ → List ℕ → List ℕ
strlcpy2 dlen src = if ltb 0 dlen && ltb (dlen - 1) (length src) then take (dlen - 1) src else src
