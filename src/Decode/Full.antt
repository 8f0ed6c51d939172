-- ===== src/Decode/Full.antt =====
-- `http_decode_string` of http/http_decode.c, which undoes the encodings that a string is marked
-- with, again and again for up to 16 rounds. A list holds the bytes of `tmp_buf` or `out_string`
-- before the NUL that ends them. `value` is the number that `strtol` reads, as in Decode/Html, and
-- `stray` the byte in front of `out_string`, as in Decode/Percent.
pub mod Bounds
use xxx.Prelude.{
  ℕ, zero, suc, ◌==◌, Bool, true, false, ◌||◌, not, Option, none, some, List, [], ◌∷◌, leb, ltb,
  if◌then◌else◌, length,
}
use xxx.Text.{strlcpy2}
use xxx.Head.{Flag}
use xxx.Decode.Percent.{string_decode}
use xxx.Decode.Escape.{escape_decode}
use xxx.Decode.Html.{html_decode}

-- What a call gives: the decoded string; -1; 0 with `out_string` as it was; a write behind
-- `tmp_buf` or `out_string`; or a loop of a decoder that has not ended within its fuel.
pub data Result : Type 0 where
  decoded : List ℕ → Result
  too_long nothing fault no_end : Result

-- The state between the decoders of a round, `flag` and `tmp_buf`, or the end of the call.
pub data Pass : Type 0 where
  next : Bool → List ℕ → Pass
  stop : Result → Pass

-- `MAX_DECODE_LEN`, the size of `tmp_buf`.
abbrev pub tmp_size : ℕ
tmp_size = 16384

abbrev pub and_then : Pass → (Bool → List ℕ → Pass) → Pass
and_then (next flag tmp) f = f flag tmp
and_then (stop r) f = stop r

-- A decoder that works in `tmp_buf`, of which `new` is the result: the NUL, and the new length.
abbrev pub in_place : Bool → Option (List ℕ) → List ℕ → Pass
in_place flag none tmp = stop no_end
in_place flag (some new) tmp =
    if leb tmp_size (length new)
    then stop fault
    else next (flag || not (length new == length tmp)) new

-- The decoder of percent signs works from `tmp_buf` to `out_string`, which is copied back.
abbrev pub copied_back : ℕ → List ℕ → Pass
copied_back max_url_out_len new =
    if leb max_url_out_len (length new) then stop fault else next true (strlcpy2 tmp_size new)

unfoldable pub html_pass : (value : ℕ → List ℕ → ℕ) → Flag → Bool → List ℕ → Pass
html_pass value need flag tmp =
    if need.html then in_place flag (html_decode value tmp) tmp else next flag tmp

unfoldable pub escape_pass : Flag → Bool → List ℕ → Pass
escape_pass need flag tmp =
    if need.escape then in_place flag (escape_decode tmp) tmp else next flag tmp

-- A string of up to two bytes, `in_len` at the call, is copied.
unfoldable pub url_pass : (stray : ℕ) (max_url_out_len in_len : ℕ) → Flag → Bool → List ℕ → Pass
url_pass stray max_url_out_len in_len need flag tmp =
    if need.url
    then copied_back max_url_out_len
        (if ltb 2 in_len then string_decode true stray tmp else strlcpy2 max_url_out_len tmp)
    else next flag tmp

-- A round up to the copy to `out_string`.
unfoldable pub round :
    (value : ℕ → List ℕ → ℕ) (stray : ℕ) (max_url_out_len in_len : ℕ) → Flag → List ℕ → Pass
round value stray max_url_out_len in_len need tmp =
    and_then (and_then (html_pass value need false tmp) (escape_pass need))
      (url_pass stray max_url_out_len in_len need)

-- The loop, from `cnt`, `out_string` and `tmp_buf`.
unfoldable pub rounds :
    (value : ℕ → List ℕ → ℕ) (stray : ℕ) (max_url_out_len in_len : ℕ)
    → Flag
    → ℕ
    → List ℕ
    → List ℕ
    → Result
rounds value stray max_url_out_len in_len need zero out tmp = decoded out
rounds value stray max_url_out_len in_len need (suc cnt) out tmp =
    elim (round value stray max_url_out_len in_len need tmp) [
      | next flag tmp' ↦
          let out' = strlcpy2 max_url_out_len tmp' in
          let more = rounds value stray max_url_out_len in_len need cnt out' tmp' in
          if flag then more else decoded out'
      | stop r ↦ r
    ]

-- `http_decode_string`; the NUL behind a string of `MAX_DECODE_LEN` bytes does not fit in `tmp_buf`.
unfoldable pub decode_string : (value : ℕ → List ℕ → ℕ) (stray : ℕ) → ℕ → List ℕ → Flag → Result
decode_string value stray max_url_out_len in_string need =
    if ltb max_url_out_len (length in_string) || length in_string == 0
    then nothing
    else if ltb tmp_size (length in_string)
    then too_long
    else if length in_string == tmp_size
    then fault
    else rounds value stray max_url_out_len (length in_string) need 16 [] in_string
