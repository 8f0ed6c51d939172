-- ===== src/Parse.antt =====
-- The lines of a head, http/http_header.c: the state that they are parsed into, and the parsers of
-- fields that set a string or a flag. A pointer into the buffer is the list of the bytes from it to
-- the end of the buffer; `none` is a read behind it, a write behind a block of a string, or a fault
-- of a decoder.
pub mod Auth
pub mod Content
pub mod Types
pub mod Counts
pub mod Line
pub mod Pointers
pub mod Field
pub mod Request
pub mod Separators
pub mod Boundary
pub mod Head
pub mod Response
use xxx.Prelude.{
  ℕ, zero, suc, ◌+◌, ◌-◌, ◌%◌, ◌^◌, ◌==◌, Bool, true, false, ◌&&◌, ◌||◌, not, Option, none, some,
  List, [], ◌∷◌, if◌then◌else◌, ◌>>=◌, length, leb, ltb, take, drop, ℤ, pos, negsuc,
}
use xxx.Head.{Flag, no_flag}
use xxx.Message.{Str, Logic, Ints, Strs, set_str, append_str}
use xxx.Message.Decoded.{decode_buf}
use xxx.Args.{Ctrl}
use xxx.Text.{strip_left, strlstrip}
use xxx.Fields.{same_nocase, codes}

-- What the functions use of the C library and of the copy of a library in base64.c: `entity` is the
-- number that `strtol` reads from an HTML entity, for a base, and `stray` the byte in front of a
-- buffer, both as in Decode/Full; `number` is what `strtol` with the base 10 and `atoi` read from the
-- bytes at a pointer, as an `int`; `base64` is what `b64_decode` of a text into
-- its own block leaves there, and what it returns, with 0 for -1.
pub record Libc : Type 0 where
  pub entity : ℕ → List ℕ → ℕ
  pub stray : ℕ
  pub number : List ℕ → ℤ
  pub base64 : List ℕ → List ℕ × ℕ

-- The parts of `http_t` that the lines of a head change; `boundary_cnt` and `data_flag` are of
-- `local`.
pub record Info : Type 0 where
  pub boundary_cnt : ℕ
  pub data_flag : ℕ
  pub logic : Logic
  pub http_int : Ints
  pub str : Strs
  pub arg : Ctrl
  pub tmp_flag : Flag

-- The bytes from a pointer up to another, `len` further on.
abbrev pub slice : List ℕ → ℕ → Option (List ℕ)
slice from len = if ltb (length from) len then none else some (take len from)

-- `strlstrip` on the pointers to `from` and `len` further on: how far the first one moves, and the
-- new ones.
unfoldable pub strip : List ℕ → ℕ → Option (ℕ × List ℕ × ℕ)
strip from len = do
  between ← slice from len
  let off = len - length (strip_left between)
  some (off, drop off from, length (strlstrip between))

module _ (e : Libc) where
  -- `http_set_str` with the bytes at a pointer; for a length of 0 it returns at once.
  unfoldable pub set_text : Info → Str → List ℕ → ℕ → Option Str
  set_text info str from len = do
    raw ← slice from len
    set_str (decode_buf e.entity e.stray) info.tmp_flag str raw

  -- `parse_us`, `parse_ho`, `parse_lo` and `parse_re`.
  unfoldable pub parse_us : List ℕ → ℕ → Info → Option Info
  unfolding set_text
  parse_us from len info = do
    s ← set_text info info.str.agent from len
    some (record info { str = record info.str { agent = s } })

  unfoldable pub parse_ho : List ℕ → ℕ → Info → Option Info
  unfolding set_text
  parse_ho from len info = do
    s ← set_text info info.str.host from len
    some (record info { str = record info.str { host = s } })

  unfoldable pub parse_lo : List ℕ → ℕ → Info → Option Info
  unfolding set_text
  parse_lo from len info = do
    s ← set_text info info.str.location from len
    some (record info { str = record info.str { location = s } })

  unfoldable pub parse_re : List ℕ → ℕ → Info → Option Info
  unfolding set_text
  parse_re from len info = do
    s ← set_text info info.str.reference from len
    some (record info { str = record info.str { reference = s } })

  -- `parse_conl`: `buf` has 24 bytes; a longer text is refused.
  unfoldable pub parse_conl : List ℕ → ℕ → Info → Option Info
  parse_conl from len info = if ltb 23 len then some info else (do
    buf ← slice from len
    some (record info { http_int = record info.http_int { content_len = e.number buf } }))

-- `parse_tr`
unfoldable pub parse_tr : Info → Info
parse_tr info = record info { logic = record info.logic { is_chunked = 1 } }

abbrev pub is_positive : ℤ → Bool
is_positive (pos n) = ltb 0 n
is_positive (negsuc n) = false

-- `parse_conn`; `strncasecmp` compares the bytes at the pointer, whatever the length is.
unfoldable pub parse_conn : List ℕ → Info → Info
parse_conn from info =
    if same_nocase (codes "close") from
    then if info.logic.dir == 1 && not (is_positive info.http_int.content_len)
      then record info { logic = record info.logic { is_closed = 1 } }
      else info
    else record info { logic = record info.logic { is_closed = 0 } }

-- The end of `parse_au`, for the text between the pointers: the name up to the colon, and the rest.
abbrev pub to_colon : List ℕ → Option (List ℕ × List ℕ)
to_colon [] = none
to_colon (c ∷ cs) =
    if c == b':'
    then some ([], cs)
    else elim (to_colon cs) [ none ↦ none | some (u, p) ↦ some (c ∷ u, p) ]
