-- ===== src/Parse/Counts.antt =====
-- `parse_coo` and `parse_ra` of http/http_header.c, which count separators.
use xxx.Prelude.{ℕ, zero, suc, ◌-◌, Option, none, some, List, [], ◌∷◌, ◌>>=◌, drop}
use xxx.Message.{append_str}
use xxx.Text.{strlstr}
use xxx.Parse.{Info, slice}

-- The loop, from `start` to `len` bytes on: how often it counts. `none` is a read behind the buffer,
-- or a loop that has not ended within its fuel.
unfoldable pub count_loop : ℕ → ℕ → List ℕ → ℕ → Option ℕ
count_loop zero sep start len = none
count_loop (suc fuel) sep start zero = some 0
count_loop (suc fuel) sep start (suc len) = do
  found ← strlstr (drop 1 start) (suc len) (sep ∷ [])
  elim found [
    | none ↦ some 0
    | some k ↦ (do n ← count_loop fuel sep (drop (suc k) start) (suc len - suc k); some (suc n))
  ]

-- `cnt`: a round moves `start` by at least one byte, so the length is fuel enough.
unfoldable pub count : ℕ → List ℕ → ℕ → Option ℕ
unfolding count_loop
count sep from len = do n ← count_loop (suc len) sep from len; some (suc n)

unfoldable pub parse_coo : List ℕ → ℕ → Info → Option Info
unfolding count
parse_coo from len info = do
  raw ← slice from len
  s ← append_str info.str.cookie raw
  cnt ← count 59 from len
  some (record info {
    str = record info.str { cookie = s };
    http_int = record info.http_int { header_cookie_num = cnt };
  })

unfoldable pub parse_ra : List ℕ → ℕ → Info → Option Info
unfolding count
parse_ra from len info = do
  cnt ← count 44 from len
  some (record info { http_int = record info.http_int { header_range_num = cnt } })
