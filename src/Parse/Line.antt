-- ===== src/Parse/Line.antt =====
-- `http_parse_line` of http/http_header.c and `http_parse_head` of http/http.c: the first line of a
-- message and its fields, read from a buffer in which a line is given by offsets.
use xxx.Prelude.{
  ℕ, suc, ◌+◌, ◌-◌, ◌%◌, ◌^◌, ◌==◌, Bool, true, Option, none, some, List, [], ◌∷◌, if◌then◌else◌,
  ◌>>=◌, length, ltb, drop, ℤ, pos, negsuc,
}
use xxx.Head.{no_flag, Line, head_lines}
use xxx.Message.{null_str, Strs, Ints, set_state}
use xxx.Text.{strlstr}
use xxx.Fields.{
  Method, method_get, method_post, method_head, method_option, method_put, method_connect,
  method_delete, method_trace, method_webdav, Parser, match_header, match_method,
}
use xxx.Args.{with_cur, parse_args, Parse}
use xxx.Parse.{
  Libc, Info, slice, strip, set_text, parse_us, parse_ho, parse_lo, parse_re, parse_conl, parse_tr,
  parse_conn,
}
use xxx.Parse.Auth.{parse_au}
use xxx.Parse.Content.{parse_cont}
use xxx.Parse.Counts.{parse_coo, parse_ra}

-- `HTTP_METHOD_GET` and so on; 1 is `HTTP_METHOD_NA`.
abbrev pub method_number : Option Method → ℕ
method_number none = 1
method_number (some method_get) = 2
method_number (some method_post) = 3
method_number (some method_head) = 4
method_number (some method_option) = 5
method_number (some method_put) = 6
method_number (some method_connect) = 7
method_number (some method_delete) = 8
method_number (some method_trace) = 9
method_number (some method_webdav) = 10

abbrev pub url_end : Option ℕ → ℕ → ℕ → ℕ
url_end none off len = len
url_end (some q) off len = q - off

-- `arg->cur=NULL` behind the arguments of a URL, and the counters that they change.
abbrev pub close_args : Info → Parse → Info
close_args info p = record info {
  arg = record p.ctl { before = with_cur p.ctl; cur = none };
  http_int = record info.http_int { url_arg_len = p.url_arg_len; url_arg_cnt = p.url_arg_cnt };
}

-- An `int` as a `u_int16_t`.
abbrev pub to_u16 : ℤ → ℕ
to_u16 (pos n) = n % 2 ^ 16
to_u16 (negsuc n) = 2 ^ 16 - 1 - n % 2 ^ 16

abbrev pub longest : ℕ → Info → Info
longest len info =
    if ltb info.http_int.max_header_line_len len
    then record info { http_int = record info.http_int { max_header_line_len = len } }
    else info

-- `info->http_int.header_line_num++`
abbrev pub counted : Info → Info
counted info = record info {
  http_int = record info.http_int { header_line_num = info.http_int.header_line_num + 1 };
}

-- Behind the name of a known method there is to be more than one byte.
abbrev pub then_url : Option Method → Bool → Option Info → Option Info → Option Info
then_url none long url info = url
then_url (some m) long url info = if long then url else info

module _ (e : Libc) where
  -- The arguments behind the question mark at `question`, up to the end of the URL.
  unfoldable pub parse_question : Option ℕ → List ℕ → ℕ → Info → Option Info
  parse_question none from end info = some info
  parse_question (some q) from end info = do
    args ← slice (drop (suc q) from) (end - suc q)
    (ret, p) ←
        parse_args e.entity e.stray true (info.logic.state_0 == 3) args info.arg
          info.http_int.url_arg_len info.http_int.url_arg_cnt
    some (close_args info p)

  -- `http_myparse_method`: the URL, in front of a blank and the version.
  unfoldable pub parse_url : List ℕ → ℕ → Info → Option Info
  parse_url from len info = do
    (off, begin, mylen) ← strip from (len - 9)
    (off', begin', mylen') ← strip begin mylen
    raw_url ← set_text e (record info { tmp_flag = no_flag }) info.str.raw_url begin' mylen'
    url_and_arg ← set_text e info info.str.url_and_arg begin' mylen'
    question ← strlstr from len (b'?' ∷ [])
    url ← set_text e info info.str.url begin' (url_end question (off + off') mylen')
    parse_question question from (off + off' + mylen') (record info {
      str = record info.str { raw_url = raw_url; url_and_arg = url_and_arg; url = url };
    })

  -- `parse_method`; its result -1 for a method without a URL is not used.
  unfoldable pub parse_method : List ℕ → ℕ → Info → Option Info
  parse_method from len info = do
    found ← strlstr from len (b' ' ∷ [])
    elim found [
      | none ↦ some info
      | some k ↦ (do
        (off, begin, name_len) ← strip from k
        let rest = len - off
        method ← match_method begin name_len
        let info' = record info { logic = record info.logic { method = method_number method } }
        let url = parse_url (drop (suc name_len) begin) (rest - name_len - 1) info'
        then_url method (ltb (suc name_len) rest) url (some info'))
    ]

  unfoldable pub parse_retcode : List ℕ → ℕ → Info → Option Info
  parse_retcode from len info = if ltb len 8 then some info else (do
    let begin = drop 8 from
    let info' = record info {
      http_int = record info.http_int { retcode = to_u16 (e.number begin) };
    }
    end ← strlstr (drop 9 from) (len - 8) (b' ' ∷ [])
    elim end [
      | none ↦ some info'
      | some k ↦ (do
        s ← set_text e info' info.str.retcode (drop 9 from) (suc k)
        some (record info' { str = record info.str { retcode = s } }))
    ])

  -- The functions that `http_match_header_table` calls. `parse_ac`, `parse_ace`, `parse_cone`,
  -- `parse_set`, `parse_xp`, `parse_xpb`, `parse_xa` and `parse_xf` do nothing.
  unfoldable pub call : Parser → List ℕ → ℕ → Info → Option Info
  call Parser.parse_au value len info = parse_au e value len info
  call Parser.parse_ac value len info = some info
  call Parser.parse_ace value len info = some info
  call Parser.parse_conl value len info = parse_conl e value len info
  call Parser.parse_cont value len info = parse_cont e value len info
  call Parser.parse_conn value len info = some (parse_conn value info)
  call Parser.parse_cone value len info = some info
  call Parser.parse_coo value len info = parse_coo value len info
  call Parser.parse_ho value len info = parse_ho e value len info
  call Parser.parse_lo value len info = parse_lo e value len info
  call Parser.parse_re value len info = parse_re e value len info
  call Parser.parse_ra value len info = parse_ra value len info
  call Parser.parse_set value len info = some info
  call Parser.parse_tr value len info = some (parse_tr info)
  call Parser.parse_us value len info = parse_us e value len info
  call Parser.parse_xp value len info = some info
  call Parser.parse_xpb value len info = some info
  call Parser.parse_xa value len info = some info
  call Parser.parse_xf value len info = some info

  abbrev pub called : Option Parser → List ℕ → ℕ → Info → Option Info
  called none value len info = some info
  called (some f) value len info = call f value len info

  -- `http_match_header_table`, for a name; no parser is called for an unknown one.
  unfoldable pub parse_field : List ℕ → ℕ → List ℕ → ℕ → Info → Option Info
  parse_field name name_len value value_len info = do
    parser ← match_header name name_len
    called parser value value_len info

  -- A line that is not the first one. A `split` before the line is one of an earlier line: the length
  -- of the name is negative then, which no length in the table is.
  unfoldable pub parse_split : List ℕ → ℕ → Option ℕ → ℕ → Info → Option Info
  parse_split bytes begin none end info = some info
  parse_split bytes begin (some split) end info =
      if ltb split begin then some (longest (end - begin) info) else (do
        (off, name, name_len) ← strip (drop begin bytes) (split - begin)
        (off', value, value_len) ← strip (drop split bytes) (end - split)
        parse_field name name_len value value_len (longest (end - begin) info))

  -- `http_parse_line`, for the direction and the number of the line; a `begin` that is NULL is a
  -- fault.
  unfoldable pub parse_line : List ℕ → ℕ → ℕ → Line → Info → Option Info
  parse_line bytes dir num line info = elim line.begin [
    | none ↦ none
    | some begin ↦
        if num == 0
        then if dir == 0
          then parse_method (drop begin bytes) (line.end - begin) info
          else parse_retcode (drop begin bytes) (line.end - begin) info
        else parse_split bytes begin line.split line.end info
  ]

  -- The calls of `http_parse_line`, from the number of the next line on.
  unfoldable pub parse_lines : List ℕ → ℕ → ℕ → List Line → Info → Option Info
  parse_lines bytes dir num [] info = some info
  parse_lines bytes dir num (line ∷ lines) info = do
    info' ← parse_line bytes dir num line (record info { tmp_flag = line.flag })
    parse_lines bytes dir (suc num) lines (counted info')

abbrev pub no_ints : Ints
no_ints = record {
  retcode = 0;
  header_len = 0;
  content_len = pos 0;
  max_header_line_len = 0;
  body_len = 0;
  url_arg_len = 0;
  url_arg_cnt = 0;
  header_line_num = 0;
  header_cookie_num = 0;
  header_range_num = 0;
}

abbrev pub no_strs : Strs
no_strs = record {
  raw_url = null_str;
  url = null_str;
  url_and_arg = null_str;
  host = null_str;
  agent = null_str;
  auth = null_str;
  auth_user = null_str;
  auth_pass = null_str;
  reference = null_str;
  location = null_str;
  content_type = null_str;
  retcode = null_str;
  boundary = null_str;
  cookie = null_str;
}

-- `http_init`, which finds a pool.
unfoldable pub init : Info → Info
init info = record info {
  http_int = no_ints;
  str = no_strs;
  arg = record { before = []; cur = none; max_num = 32 };
}

-- The message at the begin of the loop of `http_parse_head`.
unfoldable pub started : ℕ → ℕ → Info → Info
started len dir info =
    let fresh = init info in
    record fresh {
      logic = record info.logic { dir = dir };
      http_int = record fresh.http_int { header_len = fresh.http_int.header_len + len };
    }

-- `http_parse_head`, for the direction.
unfoldable pub parse_head : (e : Libc) → List ℕ → ℕ → Info → Option Info
parse_head e bytes dir info = do
  info' ← parse_lines e bytes dir 0 (head_lines bytes) (started (length bytes) dir info)
  some (record info' { logic = set_state info'.logic 1 })
