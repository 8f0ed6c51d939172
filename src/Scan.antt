-- ===== src/Scan.antt =====
-- The search for the end of a message header, `s_http_parse` of http/http.c: the bytes of the
-- stream are compared with CR LF CR LF, and the part matched so far is kept in `local->state`
-- from one buffer to the next.
pub mod Match
use xxx.Prelude.{ℕ, ◌+◌, Option, none, some, List, [], ◌∷◌, ◌==◌, if◌then◌else◌, ◌>>=◌, get_elem?}

-- `jump_buf`, with the NUL that ends the C string.
abbrev pub jump_buf : List ℕ
jump_buf = 13 ∷ 10 ∷ 13 ∷ 10 ∷ 0 ∷ []

-- `jump_buf_len`
abbrev pub jump_buf_len : ℕ
jump_buf_len = 4

-- The two comparisons that the loop makes for a byte. A read past the NUL is a fault.
pub advance : ℕ → ℕ → Option ℕ
advance c lstate = do
  a ← get_elem? jump_buf lstate
  let s = if a == c then lstate + 1 else 0
  b ← get_elem? jump_buf s
  some (if b == c then s + 1 else s)

-- The loop, from `local->state` over the bytes of the buffer: the number of bytes consumed, which
-- the function returns, and the new `local->state`.
unfoldable pub s_http_parse : ℕ → List ℕ → Option (ℕ × ℕ)
unfolding advance
s_http_parse lstate [] = some (0, lstate)
s_http_parse lstate (c ∷ cs) = do
  s ← advance c lstate
  if s == jump_buf_len then some (1, s) else (do (n, t) ← s_http_parse s cs; some (n + 1, t))
