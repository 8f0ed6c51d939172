-- ===== src/Tests/Requests.antt =====
-- Whole heads, parsed by http/http_header.c.
use xxx.Prelude.{ℕ, List, ◌≡◌, ◌++◌, refl, Option, none, some, [], ◌∷◌, arith, pos, ◌>>=◌}
use xxx.Fields.{codes}
use xxx.Message.{get_http_str}
use xxx.Head.{no_flag}
use xxx.Parse.{Libc, Info}
use xxx.Text.{strip_left}
use xxx.Fields.{same_nocase, parse_ho}
use xxx.Message.{set_state}
use xxx.Message.Decoded.{block_of}
use xxx.Prelude.{length}
use xxx.Parse
use xxx.Parse.{strip, set_text}
use xxx.Head.{head_lines}
use xxx.Text.{strlstr, strlstrip, char2num}
use xxx.Fields.{match_method, match_header}
use xxx.Message.{set_str, append_str}
use xxx.Message.Decoded.{decode_buf}
use xxx.Args.{
  parse_args, next_arg, parse_loop, parse_byte, collect, equals_sign, append_arg, decode_arg,
  finish_args,
}
use xxx.Parse.Line.{
  parse_lines, parse_method, parse_url, parse_question, init, parse_split, parse_field, call,
}
use xxx.Parse.Response.{response_text, parse_retcode-blank}
use xxx.Parse.Line.{
  parse_retcode, parse_head, parse_line, called, longest, started, counted, no_ints, no_strs,
}
use xxx.Parse.Field.{field_line, field_text, parse_line-field}
use xxx.Parse.Separators.{parse_coo-counted_in}
use xxx.Message.Append.{text_str}
use xxx.Parse.Counts.{parse_coo, parse_ra}
use xxx.Parse.Content.{parse_cont}
use xxx.Parse.Boundary.{content_text, with_boundary, parse_cont-boundary}
use xxx.Parse.Head.{
  Request, IsRequest, Field, IsField, fields_bytes, parse_request, parse_fields, parse_head-request,
}

abbrev libc : Libc
libc = record { entity = λ base x. 65; stray = 0; number = λ x. pos 12; base64 = λ x. (x, 0) }

abbrev info : Info
info = record {
  boundary_cnt = 0;
  data_flag = 0;
  logic = record {
    state_0 = 0;
    state_1 = 0;
    dir = 0;
    method = 0;
    content_type = 0;
    is_chunked = 0;
    is_closed = 0;
  };
  http_int = no_ints;
  str = no_strs;
  arg = record { before = []; cur = none; max_num = 32 };
  tmp_flag = no_flag;
}

abbrev first_line : Request
first_line = record {
  method = codes "GET";
  path = codes "/p";
  query = some (codes "a=b");
  version = codes "HTTP/1.1";
}

abbrev host : Field
host = record { name = codes "Host"; blanks = codes " "; value = codes "h.org" }

abbrev bytes : List ℕ
bytes = codes "GET /p?a=b HTTP/1.1" ++ 13 ∷ 10 ∷ codes "Host: h.org" ++ 13 ∷ 10 ∷ 13 ∷ 10 ∷ []

abbrev seen : Option Info → List ℕ × List ℕ × List ℕ × ℕ
seen none = ([], [], [], 0)
seen (some i) = (
  get_http_str i.str.host,
  get_http_str i.str.url,
  get_http_str i.str.url_and_arg,
  i.logic.method,
)

head_run : seen (parse_head libc bytes 0 info) ≡ (codes "h.org", codes "/p", codes "/p?a=b", 2)
unfolding parse_head parse_lines head_lines parse_line parse_method strlstr strip match_method
    strip_left char2num strlstrip parse_url set_text set_str parse_question parse_args started init
    next_arg parse_loop parse_byte collect equals_sign append_arg decode_arg append_str finish_args
    parse_split parse_field call xxx.Parse.parse_ho match_header same_nocase decode_buf set_state
head_run = refl

first_line-IsRequest : IsRequest first_line
unfolding strip_left
first_line-IsRequest = record {
  long = omega arith;
  method_trimmed = (refl, refl);
  no_blank = refl;
  url_trimmed = (refl, refl);
  some_path = omega arith;
  path_clean = refl;
  eight = refl;
  version_clean = refl;
  plain = refl;
}

host-IsField : IsField host
unfolding strip_left
host-IsField = record {
  long = omega arith;
  name_trimmed = (refl, refl);
  no_colon = refl;
  blank = refl;
  value_trimmed = (refl, refl);
}

parse_head-request_example : parse_head libc bytes 0 info ≡ (do
  i ←
      parse_request libc first_line
        (codes "" ++ 13 ∷ 10 ∷ fields_bytes (host ∷ []))
        (started 36 0 info)
  j ← parse_fields libc (host ∷ []) (counted i)
  some (record j { logic = set_state j.logic 1 }))
unfolding same_nocase
parse_head-request_example =
    parse_head-request libc first_line (host ∷ []) info first_line-IsRequest (host-IsField, tt)
      (refl, (refl, tt)) refl

parse_line-field_example :
    parse_line libc
      (codes "x" ++ field_text (codes "Host") (codes " ") (codes "h.org") (13 ∷ 10 ∷ []))
      0
      1
      (field_line (codes "x") (codes "Host") (codes " ") (codes "h.org") no_flag)
      info
    ≡ called libc (some parse_ho) (codes "h.org" ++ 13 ∷ 10 ∷ []) 5 (longest 11 info)
unfolding same_nocase
parse_line-field_example =
    parse_line-field libc 0 0 (codes "x") (codes "Host") (codes " ") (codes "h.org") (13 ∷ 10 ∷ [])
      no_flag info (omega arith) host-IsField.name_trimmed refl host-IsField.value_trimmed

parse_coo-counted_in_example :
    (parse_coo (codes "a;b;c\r\n") 5 info
      ≡ some (record info {
        str = record info.str { cookie = text_str (codes "a;b;c") };
        http_int = record info.http_int { header_cookie_num = 3 };
      }))
    × (parse_ra (codes "a;b;c\r\n") 5 info
        ≡ some (record info { http_int = record info.http_int { header_range_num = 1 } }))
parse_coo-counted_in_example =
    parse_coo-counted_in b'a' 13 (codes ";b;c") (10 ∷ []) none info refl (omega arith)

parse_cont-boundary_example :
    parse_cont libc
      (content_text (codes "multipart/form-data") (codes " ") (codes "--B") (13 ∷ 10 ∷ []))
      (length (content_text (codes "multipart/form-data") (codes " ") (codes "--B") []))
      info
    ≡ some (
        with_boundary
          (record info {
            str = record info.str {
              content_type =
                  block_of
                    (content_text (codes "multipart/form-data") (codes " ") (codes "--B") []);
            };
            logic = record info.logic { content_type = 4 };
          })
          (codes "--B"))
parse_cont-boundary_example =
    parse_cont-boundary libc (codes "multipart/form-data") (codes " ") (codes "--B") (13 ∷ 10 ∷ [])
      info refl refl refl (omega arith) refl (omega arith)

parse_retcode-blank_example :
    parse_retcode libc (response_text (codes "HTTP/1.1") (codes "200") (codes "OK")) 15 info
    ≡ some (record info {
      http_int = record info.http_int { retcode = 12 };
      str = record info.str { retcode = block_of (codes "200 ") };
    })
parse_retcode-blank_example =
    parse_retcode-blank libc (codes "HTTP/1.1") (codes "200") (codes "OK") 15 info refl refl refl
      (omega arith)
