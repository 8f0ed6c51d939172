-- ===== src/Args.antt =====
-- http/http_arg.c: the arguments of a URL or a body, taken from pieces of data. `none` is a fault: a
-- read behind the data, a write behind a block of a string, or a fault of the decoder. `value` and
-- `stray` are those of Decode/Full.
pub mod Words
pub mod Pairs
use xxx.Prelude.{
  ℕ, zero, suc, ◌+◌, ◌==◌, Bool, true, false, ◌&&◌, ◌||◌, not, Option, none, some, List, [], ◌∷◌,
  if◌then◌else◌, ◌>>=◌, length, leb, ltb, take,
}
use xxx.Head.{Flag, no_flag}
use xxx.Message.{Block, Str, null_str, need_decode, append_str}
use xxx.Message.Decoded.{decode_buf}

-- `http_arg_t`
pub record Arg : Type 0 where
  pub name : Str
  pub value : Str
  pub complete_flag : Bool
  pub arg_flag : Bool
  pub decode_flag : Flag

-- An entry of `arg` that is not used yet: `http_init` writes zeros.
abbrev pub unused : Arg
unused = record {
  name = null_str;
  value = null_str;
  complete_flag = false;
  arg_flag = false;
  decode_flag = no_flag;
}

-- `http_arg_ctrl_t`: `cur` points to the last entry in use; `before` holds the others, the last one
-- first. Together they are `num`.
pub record Ctrl : Type 0 where
  pub before : List Arg
  pub cur : Option Arg
  pub max_num : ℕ

abbrev pub with_cur : Ctrl → List Arg
with_cur ctl = elim ctl.cur [ none ↦ ctl.before | some a ↦ a ∷ ctl.before ]

-- `arg->cur=http_get_empty_arg(info)`
unfoldable pub next_arg : Ctrl → Ctrl
next_arg ctl =
    let used = with_cur ctl in
    if leb ctl.max_num (length used)
    then record ctl { before = used; cur = none }
    else record ctl { before = used; cur = some unused }

-- `http_decode_arg` on one of the two strings.
unfoldable pub decode_str : (value : ℕ → List ℕ → ℕ) (stray : ℕ) → Flag → Str → Option Str
decode_str value stray flag str = elim str.p [
  | none ↦ some str
  | some block ↦ (do
    out ← decode_buf value stray flag (take str.len block.bytes)
    some (
        if ltb 0 (length out) && ltb (length out) str.len
        then record { p = some (record block { bytes = out }); len = length out }
        else str))
]

-- `http_decode_arg`
unfoldable pub decode_arg : (value : ℕ → List ℕ → ℕ) (stray : ℕ) → Arg → Option Arg
decode_arg value stray a =
    if need_decode a.decode_flag
    then (do
      n ← decode_str value stray a.decode_flag a.name
      v ← decode_str value stray a.decode_flag a.value
      some (record a { name = n; value = v }))
    else some a

-- `http_append_arg`, for the bytes of a piece; there are none for a NULL.
unfoldable pub append_arg : (value : ℕ → List ℕ → ℕ) (stray : ℕ) → List ℕ → Arg → Option Arg
append_arg value stray [] a = some a
append_arg value stray (b ∷ raw) a =
    if a.arg_flag
    then (do v ← append_str a.value (b ∷ raw); decode_arg value stray (record a { value = v }))
    else (do n ← append_str a.name (b ∷ raw); decode_arg value stray (record a { name = n }))

-- What `_http_parse_args` keeps: `tmp_data`, as the data from there on, `tmp_len`, and two counters
-- of the message.
pub record Parse : Type 0 where
  pub ctl : Ctrl
  pub tmp_data : Option (List ℕ)
  pub tmp_len : ℕ
  pub url_arg_len : ℕ
  pub url_arg_cnt : ℕ

-- The piece at `tmp_data`.
abbrev pub piece : Option (List ℕ) → ℕ → Option (List ℕ)
piece none n = some []
piece (some from) n = if ltb (length from) n then none else some (take n from)

-- A byte that belongs to a piece.
unfoldable pub collect : Bool → List ℕ → Parse → Parse
collect in_url begin p = record p {
  tmp_data = elim p.tmp_data [ none ↦ some begin | some from ↦ some from ];
  tmp_len = p.tmp_len + 1;
  url_arg_len = if in_url then p.url_arg_len + 1 else p.url_arg_len;
}

-- The loop goes on, or the call returns -1.
pub data Step : Type 0 where
  go_on : Parse → Step
  refused : Parse → Step

abbrev pub or_refused : Parse → Step
or_refused p = elim p.ctl.cur [ none ↦ refused p | some a ↦ go_on p ]

abbrev pub flagged : Flag → Arg → Parse → Parse
flagged flag a p = record p { ctl = record p.ctl { cur = some (record a { decode_flag = flag }) } }

-- A `&`, which ends the argument `a`.
unfoldable pub ampersand : (value : ℕ → List ℕ → ℕ) (stray : ℕ) → Bool → Arg → Parse → Option Step
ampersand value stray in_url a p = do
  raw ← piece p.tmp_data p.tmp_len
  a' ← append_arg value stray raw a
  let ended = record p.ctl { cur = some (record a' { complete_flag = true }) }
  some (
      or_refused (record p {
        ctl = next_arg ended;
        tmp_data = none;
        tmp_len = 0;
        url_arg_cnt = if in_url then p.url_arg_cnt + 1 else p.url_arg_cnt;
      }))

-- A `=`, which ends the name; in a value it counts as a byte of the piece.
unfoldable pub equals_sign : (value : ℕ → List ℕ → ℕ) (stray : ℕ) → Arg → Parse → Option Step
equals_sign value stray a p =
    if a.arg_flag then some (go_on (record p { tmp_len = p.tmp_len + 1 })) else (do
      raw ← piece p.tmp_data p.tmp_len
      a' ← append_arg value stray raw a
      a'' ← append_arg value stray (0 ∷ []) a'
      let named = record p.ctl { cur = some (record a'' { arg_flag = true }) }
      some (go_on (record p { ctl = named; tmp_data = none; tmp_len = 0 })))

-- The body of the loop at the first byte of `begin`, for the argument `a` that `cur` points to.
unfoldable pub parse_byte :
    (value : ℕ → List ℕ → ℕ) (stray : ℕ) → Bool → ℕ → List ℕ → Arg → Parse → Option Step
parse_byte value stray in_url b begin a p =
    if b == b'%' || b == b'+'
    then some (go_on (collect in_url begin (flagged (record a.decode_flag { url = true }) a p)))
    else if b == b'\\'
    then some (go_on (collect in_url begin (flagged (record a.decode_flag { escape = true }) a p)))
    else if b == b'&'
    then ampersand value stray in_url a p
    else if b == b'='
    then equals_sign value stray a p
    else some (go_on (collect in_url begin p))

-- `_http_parse_args` behind the loop; `idle` says that the state of the message is
-- `HTTP_STATE_NONE`.
unfoldable pub finish_args :
    (value : ℕ → List ℕ → ℕ) (stray : ℕ) → Bool → Bool → Arg → Parse → Option (ℕ × Parse)
finish_args value stray in_url idle a p = do
  raw ← piece p.tmp_data p.tmp_len
  a' ← append_arg value stray raw a
  (if in_url || idle
      then (do
        a'' ← append_arg value stray (0 ∷ []) a'
        some (
          0,
          record p {
            ctl = record p.ctl { cur = some (record a'' { complete_flag = true }) };
            url_arg_cnt = if in_url then p.url_arg_cnt + 1 else p.url_arg_cnt;
          },
        ))
      else some (0, record p { ctl = record p.ctl { cur = some a' } }))

abbrev pub at_cur : Parse → (Arg → Option (ℕ × Parse)) → Option (ℕ × Parse)
at_cur p f = elim p.ctl.cur [ none ↦ some (1, p) | some a ↦ f a ]

abbrev pub after_step : Option Step → (Parse → Option (ℕ × Parse)) → Option (ℕ × Parse)
after_step none f = none
after_step (some (refused p)) f = some (1, p)
after_step (some (go_on p)) f = f p

-- The loop, and what follows it; 1 stands for -1.
unfoldable pub parse_loop :
    (value : ℕ → List ℕ → ℕ) (stray : ℕ) → Bool → Bool → List ℕ → Parse → Option (ℕ × Parse)
parse_loop value stray in_url idle [] p = at_cur p (λ a. finish_args value stray in_url idle a p)
parse_loop value stray in_url idle (b ∷ begin) p = at_cur p (λ a.
    after_step (parse_byte value stray in_url b (b ∷ begin) a p)
      (λ p'. parse_loop value stray in_url idle begin p'))

-- `_http_parse_args`, from the arguments and the counters of the message.
unfoldable pub parse_args :
    (value : ℕ → List ℕ → ℕ) (stray : ℕ) → Bool → Bool → List ℕ → Ctrl → ℕ → ℕ → Option (ℕ × Parse)
parse_args value stray in_url idle begin ctl arg_len arg_cnt =
    let start : Ctrl = elim ctl.cur [ none ↦ next_arg ctl | some a ↦ ctl ] in
    let p : Parse = record {
      ctl = start;
      tmp_data = none;
      tmp_len = 0;
      url_arg_len = arg_len;
      url_arg_cnt = arg_cnt;
    } in
    at_cur p (λ a. parse_loop value stray in_url idle begin p)
