-- ===== src/Tests/Heads.antt =====
-- Heads, the tables of names, strings and accessors.
use xxx.Text.{char2num}
use xxx.Prelude.{false, ℕ, ◌≡◌, refl, true, none, some, List, [], ◌∷◌, arith}
use xxx.Text.{strlstr, strlstrip}
use xxx.Head.{head_lines, no_flag}
use xxx.Head.Lines.{calls, join, head_lines-join}
use xxx.Head.Bounds.{AreInside, head_lines-AreInside}
use xxx.Fields.{
  same_nocase, codes, match_header, match_method, parse_conl, method_post, method_connect,
}
use xxx.Fields.Search.{match_header-find, matches}
use xxx.Fields.Methods.{match_method-find}
use xxx.Message.{Str, null_str, Strs, Logic}

-- "a:b" CR LF "c%" CR LF, and the empty line.
abbrev two_lines : List (List ℕ)
two_lines = (b'a' ∷ b':' ∷ b'b' ∷ []) ∷ (b'c' ∷ b'%' ∷ []) ∷ []

head_run :
    head_lines (join two_lines (13 ∷ 10 ∷ []))
    ≡ record { begin = some 0; split = some 1; end = 3; flag = no_flag }
      ∷ record { begin = some 5; split = some 1; end = 7; flag = record no_flag { url = true } }
      ∷ []
unfolding head_lines
head_run = refl

head_lines-join_example : head_lines (join two_lines (13 ∷ 10 ∷ [])) ≡ calls none 0 two_lines
head_lines-join_example = head_lines-join two_lines (refl, (refl, tt))

head_lines-AreInside_example : AreInside 5 (head_lines (b'a' ∷ 13 ∷ b':' ∷ 13 ∷ 10 ∷ []))
head_lines-AreInside_example = head_lines-AreInside (b'a' ∷ 13 ∷ b':' ∷ 13 ∷ 10 ∷ [])

text_runs :
    (strlstr (b'a' ∷ b'b' ∷ b'b' ∷ []) 3 (b'b' ∷ []) ≡ some (some 1))
    × (strlstrip (b' ' ∷ b'a' ∷ b':' ∷ b' ' ∷ []) ≡ b'a' ∷ [])
unfolding strlstr strlstrip
text_runs = (refl, refl)

match_header-find_example : match_header (codes "Content-Length: 5") 14 ≡ some (some parse_conl)
unfolding same_nocase
match_header-find_example =
    match_header-find (codes "Content-Length: 5") 14 (omega arith) (omega arith)

match_method-find_example :
    (matches (codes "copy") (codes "POST /") 4 ≡ false
      → match_method (codes "POST /") 4 ≡ some (some method_post))
    × (matches (codes "copy") (codes "POST /") 4 ≡ true
        → match_method (codes "POST /") 4 ≡ some (some method_connect))
unfolding same_nocase
match_method-find_example = match_method-find (codes "POST /") 4 (omega arith) (omega arith)

copy_run : match_method (codes "COPY /") 4 ≡ some (some method_connect)
unfolding match_method same_nocase char2num
copy_run = refl

abbrev a_host : Str
a_host = record { p = some (record { bytes = codes "a.b"; room = 4 }); len = 3 }

abbrev strs : Strs
strs = record {
  raw_url = null_str;
  url = null_str;
  url_and_arg = null_str;
  host = a_host;
  agent = null_str;
  auth = null_str;
  auth_user = null_str;
  auth_pass = null_str;
  reference = null_str;
  location = null_str;
  content_type = null_str;
  retcode = null_str;
  boundary = null_str;
  cookie = null_str;
}

abbrev request : Logic
request = record {
  state_0 = 0;
  state_1 = 0;
  dir = 0;
  method = 2;
  content_type = 0;
  is_chunked = 0;
  is_closed = 0;
}
