-- ===== src/Parse/Content.antt =====
-- `parse_cont` of http/http_header.c: the type of the content, with its parameters.
use xxx.Prelude.{
  ℕ, zero, suc, ◌+◌, ◌-◌, ◌==◌, Bool, ◌||◌, ◌&&◌, Option, none, some, List, [], ◌∷◌, if◌then◌else◌,
  ◌>>=◌, length, leb, ltb, take, drop, get_elem?,
}
use Prim.Native.String.{String}
use xxx.Text.{strlstr}
use xxx.Fields.{same_nocase, codes}
use xxx.Parse.{Libc, Info, set_text}

-- `HTTP_TYPE_NA` and so on.
pub data ContentType : Type 0 where
  na mr soap xml multiform html formenc plain amf css js mix_xml : ContentType
  common_js text_js rpc rss_xml xhtml_xml message : ContentType

abbrev pub type_number : ContentType → ℕ
type_number na = 0
type_number mr = 1
type_number soap = 2
type_number xml = 3
type_number multiform = 4
type_number html = 5
type_number formenc = 6
type_number plain = 7
type_number amf = 8
type_number css = 9
type_number js = 10
type_number mix_xml = 11
type_number common_js = 12
type_number text_js = 13
type_number rpc = 14
type_number rss_xml = 15
type_number xhtml_xml = 16
type_number message = 17

abbrev entry : String → ContentType → List ℕ × ContentType
entry name id = (codes name, id)

-- `http_content_type_table`; `name_len` is the length of `name` in each entry.
abbrev pub content_type_table : List (List ℕ × ContentType)
content_type_table =
    entry "text/xml" xml
    ∷ entry "application/xml" xml
    ∷ entry "application/rss xml" rss_xml
    ∷ entry "application/soap xml" soap
    ∷ entry "application/xhtml xml" xhtml_xml
    ∷ entry "multipart/related" mr
    ∷ entry "multipart/form-data" multiform
    ∷ entry "text/html" html
    ∷ entry "application/x-www-form-urlencoded" formenc
    ∷ entry "text/plain" plain
    ∷ entry "application/x-amf" amf
    ∷ entry "text/css" css
    ∷ entry "application/x-javascript" js
    ∷ entry "application/javascript" common_js
    ∷ entry "text/javascript" text_js
    ∷ entry "multipart/x-mixed-replace" mix_xml
    ∷ entry "message/http" message
    ∷ entry "application/rpc" rpc
    ∷ []

abbrev pub ends_type : ℕ → Bool
ends_type c = c == b';' || c == 13 || c == 0 || c == b' '

-- The loop of `http_get_content_type` over the table.
unfoldable pub match_type : List (List ℕ × ContentType) → List ℕ → ℕ → Option ContentType
match_type [] begin len = some na
match_type ((name, id) ∷ types) begin len =
    let rest = match_type types begin len in
    if ltb len (length name)
    then rest
    else if same_nocase name begin
    then (do c ← get_elem? begin (length name); if ends_type c then some id else rest)
    else rest

-- `http_get_content_type`
unfoldable pub get_content_type : List ℕ → ℕ → Info → Option Info
unfolding match_type
get_content_type begin len info = do
  id ← match_type content_type_table begin len
  some (record info { logic = record info.logic { content_type = type_number id } })

-- The hyphens at the begin of a boundary.
unfoldable pub hyphens : List ℕ → ℕ
hyphens [] = 0
hyphens (c ∷ cs) = if c == b'-' then suc (hyphens cs) else 0

module _ (e : Libc) where
  -- `get_post_boundary`
  unfoldable pub get_post_boundary : List ℕ → ℕ → Info → Option Info
  unfolding hyphens set_text
  get_post_boundary begin len info = do
    s ← set_text e info info.str.boundary begin len
    some (record info {
      str = record info.str { boundary = s };
      boundary_cnt = info.boundary_cnt + hyphens (take len begin) + 2;
    })

  -- `parse_table_parsing`
  unfoldable pub parse_table_parsing : List ℕ → ℕ → Info → Option Info
  unfolding get_content_type
  parse_table_parsing begin len info =
      if leb 9 len && same_nocase (codes "boundary=") begin
      then get_post_boundary (drop 9 begin) (len - 9) info
      else if leb 5 len && same_nocase (codes "type=") begin
      then get_content_type (drop 5 begin) (len - 5) info
      else some info

-- The loop that skips blanks, up to `len` bytes; it reads the byte behind them, too.
unfoldable pub skip_blank : List ℕ → ℕ → Option (List ℕ × ℕ)
skip_blank [] len = none
skip_blank (c ∷ cs) zero = some (c ∷ cs, 0)
skip_blank (c ∷ cs) (suc len) =
    if c == b' ' || c == 9 then skip_blank cs len else some (c ∷ cs, suc len)

abbrev pub or_end : Option ℕ → ℕ → ℕ
or_end none len = len
or_end (some k) len = k

module _ (e : Libc) where
  -- The loop over the parameters, from `begin` to `len` bytes on; `none` is also a loop that has not
  -- ended within its fuel.
  unfoldable pub params_loop : ℕ → List ℕ → ℕ → Info → Option Info
  unfolding skip_blank
  params_loop zero begin len info = none
  params_loop (suc fuel) begin len info = if len == 0 || leb 4096 len then some info else (do
    found ← strlstr begin len (b';' ∷ [])
    let n = or_end found len
    (begin', n') ← skip_blank begin n
    info' ← parse_table_parsing e begin' n' info
    params_loop fuel (drop (suc n) begin) (len - suc n) info')

  -- `http_parse_content_type`: each round goes behind a semicolon, so the length is fuel enough.
  unfoldable pub parse_content_type : List ℕ → ℕ → Info → Option Info
  unfolding get_content_type
  parse_content_type begin len info = do
    found ← strlstr begin len (b';' ∷ [])
    let n = or_end found len
    info' ← get_content_type begin n info
    (if info'.logic.content_type == 0
        then some info'
        else params_loop (suc len) (drop (suc n) begin) (len - suc n) info')

  -- `parse_cont`
  unfoldable pub parse_cont : List ℕ → ℕ → Info → Option Info
  unfolding set_text
  parse_cont from len info = do
    s ← set_text e info info.str.content_type from len
    parse_content_type from len (record info { str = record info.str { content_type = s } })
