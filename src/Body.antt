-- ===== src/Body.antt =====
-- The body of a message in chunks, http/http_body.c. `strtol (cache_buf, NULL, 16)`, converted to an
-- `int`, is the argument `size` of the functions: the number that the bytes of a line stand for.
pub mod Line
pub mod Stream
pub mod Message
use xxx.Prelude.{
  ℕ, zero, suc, ◌+◌, ◌-◌, ◌^◌, ◌==◌, Bool, true, false, ◌&&◌, Option, none, some, List, [], ◌∷◌,
  ◌++◌, leb, ltb, if◌then◌else◌, ◌>>=◌, length, drop, ℤ, pos, negsuc,
}
use xxx.Text.{strlstr}

-- The fields of `local_t` that the chunks use. The first `cache_buf_len` bytes of `cache_buf` are
-- `cache`, behind which stands a NUL. `fin` is `chunk_flag == HTTP_CHUNK_FIN`.
pub record Local : Type 0 where
  pub un_recv : ℤ
  pub fin : Bool
  pub cache : List ℕ

-- `sizeof (local->cache_buf)`
abbrev pub cache_size : ℕ
cache_size = 512

-- `http_read_line`: the new `cache`, and the line with its CR LF, or -1; the line stays in
-- `cache_buf` for `strtol`. The outer `none` is the write of a NUL behind `cache_buf`.
unfoldable pub read_line : List ℕ → List ℕ → Option (List ℕ × Option (List ℕ))
read_line cache bytes =
    let line = cache ++ bytes in
    if ltb cache_size (length line)
    then some (cache, none)
    else if length line == cache_size
    then none
    else (do
      found ← strlstr (line ++ 0 ∷ []) (length line) (13 ∷ 10 ∷ [])
      some (elim found [ none ↦ (line, none) | some k ↦ ([], some line) ]))

-- `un_recv_chunked_len + 2` as an `int`, for the size of a chunk that is not negative.
abbrev pub with_crlf : ℕ → ℤ
with_crlf n = if ltb (n + 2) (2 ^ 31) then pos (n + 2) else negsuc (2 ^ 32 - (n + 2) - 1)

-- What the size of a chunk does, and whether the loop goes on.
unfoldable pub start_chunk : Local → ℤ → Local × Bool
start_chunk s (negsuc n) = (record s { un_recv = negsuc n }, false)
start_chunk s (pos n) =
    if n == 0
    then (record s { un_recv = pos 2; fin = true }, true)
    else (record s { un_recv = with_crlf n }, true)

-- The end of a round of `recv_chunk`, for what `http_read_line` did.
unfoldable pub end_line : (size : List ℕ → ℤ) → Local → List ℕ × Option (List ℕ) → Local × Bool
unfolding start_chunk
end_line size s (cache, none) = (record s { cache = cache }, true)
end_line size s (cache, some line) = start_chunk (record s { cache = cache }) (size line)

-- A round that reads a byte of the line with the size.
unfoldable pub line_byte : (size : List ℕ → ℤ) → Local → ℕ → Option (Local × Bool)
unfolding end_line
line_byte size s b = do r ← read_line s.cache (b ∷ []); some (end_line size s r)

-- `un_recv_chunked_len` where it is positive.
abbrev pub left : ℤ → ℕ
left (pos n) = n
left (negsuc n) = 0

-- The loop of `recv_chunk` over the bytes at `chunked_point`, with fuel.
unfoldable pub recv_loop : (size : List ℕ → ℤ) → ℕ → Local → List ℕ → Option Local
unfolding line_byte
recv_loop size zero s input = none
recv_loop size (suc fuel) s [] = some s
recv_loop size (suc fuel) s (b ∷ input) =
    let n = left s.un_recv in
    let skipped =
      recv_loop size fuel (record s { un_recv = pos 0; fin = false }) (drop n (b ∷ input)) in
    let read = (do
      (s', more) ← line_byte size s b
      elim more [ true ↦ recv_loop size fuel s' input | false ↦ some s' ]) in
    if ltb 0 n
    then if ltb (length (b ∷ input)) n
      then some (record s { un_recv = pos (n - length (b ∷ input)) })
      else if s.fin
      then some (record s { un_recv = pos 0 })
      else skipped
    else read

-- `recv_chunk`: the new fields, and whether `http_set_state` sets the state `HTTP_STATE_NONE`. A
-- round reads at least one byte, so the length is fuel enough.
unfoldable pub recv_chunk : (size : List ℕ → ℤ) → Local → List ℕ → Option (Local × Bool)
unfolding recv_loop
recv_chunk size s input = do
  s' ← recv_loop size (suc (length input)) s input
  some (s', s'.fin && (elim s'.un_recv [ pos n ↦ n == 0 | negsuc n ↦ false ]))
