-- ===== src/Tests/Paths.antt =====
-- Paths, HTML entities and whole strings, decoded by http/http_decode.c.
use xxx.Prelude.{ℕ, List, ◌≤◌, ◌<◌, ◌≡◌, refl, true, none, some, [], ◌∷◌, arith, length}
use xxx.Fields.{codes}
use xxx.Head.{Flag}
use xxx.Message.{null_str, set_str}
use xxx.Message.Decoded.{decode_buf, block_of, set_str-decoded}
use xxx.Decode.Path.{decode_path, ok, error, as_string, path_loop}
use xxx.Decode.Path.Segments.{resolve}
use xxx.Decode.Path.Resolve.{decode_path-resolve}
use xxx.Decode.Path.Canonical.{IsCanonical, decode_path-IsCanonical}
use xxx.Decode.Digit.{starts_nocase, to_digit}
use xxx.Decode.Html.{html_decode, html_loop, round, entity, numeric, by_name, run, named}
use xxx.Decode.Full.{decoded, decode_string, rounds, html_pass, escape_pass, url_pass}
use xxx.Decode.Full
use xxx.Text.{strlcpy2}
use xxx.Decode.Escape.{escape_decode}
use xxx.Decode.Percent.{string_decode, decode_backward, decode_type, decode_as, xx_decode}
use xxx.Decode.Full.Bounds.{decode_string-total}

path_runs :
    (decode_path (codes "/a/./b//../c") ≡ some (ok (codes "/a/c")))
    × (decode_path (codes "/aaa/../") ≡ some (ok (codes "/")))
    × (decode_path (codes "/a/..") ≡ some error)
    × (decode_path (codes "/../a") ≡ some error)
unfolding decode_path path_loop
path_runs = (refl, refl, refl, refl)

decode_path-resolve_example :
    decode_path (codes "/a/../b")
    ≡ some (as_string (resolve [] (codes "a") (codes ".." ∷ codes "b" ∷ [])))
decode_path-resolve_example = decode_path-resolve b'/' (codes "a/../b") refl refl (omega arith)

decode_path-IsCanonical_example : IsCanonical (codes "/b")
unfolding decode_path path_loop
decode_path-IsCanonical_example =
    decode_path-IsCanonical b'/' (codes "a/../b") (codes "/b") refl refl (omega arith) refl

-- The number of the entity is taken to be 65.
abbrev value : ℕ → List ℕ → ℕ
value base x = 65

html_runs : html_decode value (codes "a&lt;&#x41;b&") ≡ some (codes "a<Ab&")
unfolding html_decode html_loop round entity numeric by_name run named starts_nocase
html_runs = refl

abbrev all_marks : Flag
all_marks = record { url = true; html = true; escape = true }

-- "%26lt;" gives "&lt;" in the first round and "<" in the second.
string_runs : decode_string value 0 8192 (codes "%26lt;") all_marks ≡ decoded (codes "<")
unfolding decode_string rounds xxx.Decode.Full.round html_pass html_decode html_loop escape_pass
    escape_decode url_pass string_decode decode_backward decode_type starts_nocase decode_as
    xx_decode to_digit strlcpy2
string_runs = refl

decode_string-total_example :
    (out : List ℕ) × (decode_string value 0 8192 (codes "%26lt;") all_marks ≡ decoded out)
    × (length out ≤ 6)
decode_string-total_example =
    decode_string-total value 0 8192 (codes "%26lt;") all_marks (omega arith) (omega arith)
      (omega arith)

set_str-decoded_example :
    (out : List ℕ) × (decode_string value 0 8192 (codes "%41") all_marks ≡ decoded out)
    × (length out ≤ 3)
    × (0 < length out
        → length out < 3
        → set_str (decode_buf value 0) all_marks null_str (codes "%41") ≡ none)
    × (length out ≡ 0
        → set_str (decode_buf value 0) all_marks null_str (codes "%41")
          ≡ some (block_of (codes "%41")))
    × (length out ≡ 3
        → set_str (decode_buf value 0) all_marks null_str (codes "%41") ≡ some (block_of out))
set_str-decoded_example =
    set_str-decoded value 0 all_marks null_str (codes "%41") refl (omega arith) (omega arith)
