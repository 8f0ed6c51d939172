-- ===== src/Parse/Auth.antt =====
-- `parse_au` of http/http_header.c, the field Authorization.
use xxx.Prelude.{
  ℕ, ◌-◌, ◌==◌, ◌||◌, not, Option, none, some, List, if◌then◌else◌, ◌>>=◌, ltb, take, drop,
}
use xxx.Message.{Str, set_str}
use xxx.Message.Decoded.{decode_buf}
use xxx.Text.{strlstrip}
use xxx.Fields.{same_nocase, codes}
use xxx.Parse.{Libc, Info, strip, set_text, to_colon}

module _ (e : Libc) where
  -- `b64_decode` in the block of `auth`; a pointer that is NULL is a fault.
  unfoldable pub decode_base64 : Str → Option Str
  decode_base64 s = elim s.p [
    | none ↦ none
    | some block ↦
        let (bytes, flag) = e.base64 (take s.len block.bytes) in
        some (record {
          p = some (record block { bytes = bytes });
          len = if ltb 0 flag then flag else s.len;
        })
  ]

  -- The user and the password in the text of `auth`.
  unfoldable pub set_user : List ℕ → Info → Option Info
  set_user text info = elim (to_colon text) [
    | none ↦ some info
    | some (user, pass) ↦ (do
      u ← set_str (decode_buf e.entity e.stray) info.tmp_flag info.str.auth_user user
      p ← set_str (decode_buf e.entity e.stray) info.tmp_flag info.str.auth_pass pass
      some (record info { str = record info.str { auth_user = u; auth_pass = p } }))
  ]

  unfoldable pub parse_basic : List ℕ → ℕ → Info → Option Info
  parse_basic from len info = if len == 0 then some info else (do
    s ← set_text e info info.str.auth from len
    auth ← decode_base64 s
    let info' = record info { str = record info.str { auth = auth } }
    elim auth.p [
      | none ↦ none
      | some block ↦ set_user (strlstrip (take auth.len block.bytes)) info'
    ])

  unfoldable pub parse_au : List ℕ → ℕ → Info → Option Info
  parse_au from len info =
      if same_nocase (codes "Digest") from
        || same_nocase (codes "Negotiate") from
        || same_nocase (codes "NTLM") from
      then (do
        s ← set_text e info info.str.auth from len
        some (record info { data_flag = 0; str = record info.str { auth = s } }))
      else if not (same_nocase (codes "Basic") from)
      then some info
      else (do (off, from', len') ← strip (drop 5 from) (len - 5); parse_basic from' len' info)
