-- ===== src/Message.antt =====
-- The data of a message, `http_t` of http/http.h, with the string functions of http/http_basic.c and
-- the accessors of http/http_api.c. A string owns a block of the message's pool: `room` bytes, of
-- which the first `len` are `bytes`. `none` is a write behind the block.
pub mod Append
pub mod Access
pub mod Decoded
use xxx.Prelude.{
  ℕ, zero, suc, ◌+◌, ◌==◌, Bool, true, false, ◌&&◌, ◌||◌, Option, none, some, List, [], ◌∷◌, ◌++◌,
  if◌then◌else◌, ◌>>=◌, length, leb, ltb, set, take, ℤ, pos,
}
use xxx.Head.{Flag}

pub record Block : Type 0 where
  pub bytes : List ℕ
  pub room : ℕ

-- `x_str_t`; `none` is NULL. `max_len` is not used.
pub record Str : Type 0 where
  pub p : Option Block
  pub len : ℕ

abbrev pub null_str : Str
null_str = record { p = none; len = 0 }

-- `GET_NEED_DECODE`
abbrev pub need_decode : Flag → Bool
need_decode f = f.url || f.html || f.escape

-- The text that `http_set_str` stores: what `http_decode_string` returns, if it is not empty.
abbrev pub or_raw : List ℕ → List ℕ → List ℕ
or_raw [] raw = raw
or_raw (b ∷ bs) raw = b ∷ bs

-- `http_set_str`, for `http_decode_string` with a buffer of 8192 bytes. The NUL is written at the
-- length of the text before it was decoded.
unfoldable pub set_str :
    (decode : Flag → List ℕ → Option (List ℕ)) → Flag → Str → List ℕ → Option Str
set_str decode flag str [] = some str
set_str decode flag str (b ∷ raw) = do
  out ← (if need_decode flag then decode flag (b ∷ raw) else some [])
  let text = or_raw out (b ∷ raw)
  let stored : Str = record {
    p = some (record { bytes = set text (length (b ∷ raw)) 0; room = length text + 1 });
    len = length text;
  }
  (if ltb (length text) (length (b ∷ raw)) then none else some stored)

-- `http_set_str_no_null`, for `max_len`.
unfoldable pub set_str_no_null : List ℕ → ℕ → Option Str
set_str_no_null raw max_len =
    if ltb max_len (length raw)
    then none
    else some (record { p = some (record { bytes = raw; room = max_len + 1 }); len = length raw })

abbrev pub max_append : ℕ
max_append = 4096

-- The end of `http_append_str`, for a string that has a block.
pub append_block : Str → Block → List ℕ → Option Str
append_block str block raw =
    if ltb (str.len + length raw) max_append
    then if leb block.room (str.len + length raw)
      then none
      else some (record {
        p = some (record block { bytes = take str.len block.bytes ++ raw });
        len = str.len + length raw;
      })
    else some str

-- `http_append_str`
unfoldable pub append_str : Str → List ℕ → Option Str
unfolding append_block set_str_no_null
append_str str raw = elim str.p [
  | none ↦ set_str_no_null raw max_append
  | some block ↦ append_block str block raw
]

-- `logic_t`
pub record Logic : Type 0 where
  pub state_0 : ℕ
  pub state_1 : ℕ
  pub dir : ℕ
  pub method : ℕ
  pub content_type : ℕ
  pub is_chunked : ℕ
  pub is_closed : ℕ

-- `http_int_t`
pub record Ints : Type 0 where
  pub retcode : ℕ
  pub header_len : ℕ
  pub content_len : ℤ
  pub max_header_line_len : ℕ
  pub body_len : ℕ
  pub url_arg_len : ℕ
  pub url_arg_cnt : ℕ
  pub header_line_num : ℕ
  pub header_cookie_num : ℕ
  pub header_range_num : ℕ

-- `http_str_t`
pub record Strs : Type 0 where
  pub raw_url : Str
  pub url : Str
  pub url_and_arg : Str
  pub host : Str
  pub agent : Str
  pub auth : Str
  pub auth_user : Str
  pub auth_pass : Str
  pub reference : Str
  pub location : Str
  pub content_type : Str
  pub retcode : Str
  pub boundary : Str
  pub cookie : Str

-- The indices `HTTP_STR_RAW_URL` and so on, and any other number.
pub data StrIndex : Type 0 where
  str_raw_url str_url str_url_and_arg str_host str_cookie str_agent str_auth str_user : StrIndex
  str_passwd str_refer str_location str_content_type str_retcode str_other : StrIndex

-- `_get_http_str`: the bytes of the C string before its NUL.
abbrev pub get_http_str : Str → List ℕ
get_http_str s = elim s.p [ none ↦ [] | some b ↦ b.bytes ]

-- `http_get_str`
unfoldable pub get_str : Strs → StrIndex → List ℕ
get_str s str_host = get_http_str s.host
get_str s str_cookie = get_http_str s.cookie
get_str s str_url_and_arg = get_http_str s.url_and_arg
get_str s str_url = get_http_str s.url
get_str s str_agent = get_http_str s.agent
get_str s str_auth = get_http_str s.auth
get_str s str_user = get_http_str s.auth_user
get_str s str_passwd = get_http_str s.auth_pass
get_str s str_refer = get_http_str s.reference
get_str s str_location = get_http_str s.location
get_str s str_raw_url = get_http_str s.raw_url
get_str s str_content_type = get_http_str s.content_type
get_str s str_retcode = get_http_str s.retcode
get_str s str_other = []

-- `http_get_str_len`
unfoldable pub get_str_len : Strs → StrIndex → ℕ
get_str_len s str_host = s.host.len
get_str_len s str_cookie = s.cookie.len
get_str_len s str_url_and_arg = s.url_and_arg.len
get_str_len s str_url = s.url.len
get_str_len s str_agent = s.agent.len
get_str_len s str_auth = s.auth.len
get_str_len s str_user = s.auth_user.len
get_str_len s str_passwd = s.auth_pass.len
get_str_len s str_refer = s.reference.len
get_str_len s str_location = s.location.len
get_str_len s str_raw_url = s.raw_url.len
get_str_len s str_content_type = s.content_type.len
get_str_len s str_retcode = s.retcode.len
get_str_len s str_other = 0

-- The indices of `http_get_logic`, and any other number.
pub data LogicIndex : Type 0 where
  logic_state logic_method logic_is_closed logic_content_type logic_is_chunked logic_other :
      LogicIndex

-- `http_get_logic`; `none` is -1.
unfoldable pub get_logic : Logic → LogicIndex → Option ℕ
get_logic l logic_method = some l.method
get_logic l logic_is_closed = some l.is_closed
get_logic l logic_content_type = some l.content_type
get_logic l logic_state = if l.dir == 0 then some l.state_0 else some l.state_1
get_logic l logic_is_chunked = some l.is_chunked
get_logic l logic_other = none

-- `http_set_state`
unfoldable pub set_state : Logic → ℕ → Logic
set_state l state =
    if l.dir == 0 then record l { state_0 = state } else record l { state_1 = state }
