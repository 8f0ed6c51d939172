-- ===== src/Decode/Path.antt =====
-- `http_decode_path` of http/http_decode.c, which collapses a path in place. The loop reads at `is`
-- and writes at `id`, which is never ahead; here `out` holds the bytes before `id`, the last one
-- first, and `input` those from `is` to the NUL at the end.
pub mod Segments
pub mod Rounds
pub mod Resolve
pub mod Canonical
use xxx.Prelude.{
  ℕ, zero, suc, ◌+◌, ◌==◌, Bool, true, false, ◌&&◌, ◌||◌, Option, none, some, List, [], ◌∷◌, ◌++◌,
  if◌then◌else◌, length, leb, ltb, reverse,
}

abbrev pub max_decode_len : ℕ
max_decode_len = 16384

abbrev pub is_slash : ℕ → Bool
is_slash c = c == b'/' || c == b'\\'

-- 0 with the bytes before `id`, or -1.
pub data Result : Type 0 where
  ok : List ℕ → Result
  error : Result

-- `while(is < ls)`: a name, up to the slash or the end.
unfoldable pub copy : List ℕ → List ℕ → List ℕ × List ℕ
copy out [] = (out, [])
copy out (c ∷ input) = if is_slash c then (out, c ∷ input) else copy (c ∷ out) input

-- `while(id > 0 && s[--id] != '/')`: what is left from the slash on, or nothing.
unfoldable pub back : List ℕ → List ℕ
back [] = []
back (c ∷ out) = if c == b'/' then c ∷ out else back out

-- What the tests for names of dots find at `is`.
pub data Dots : Type 0 where
  dot_slash dot_end dots_end dots_slash no_dots : Dots

unfoldable pub look : List ℕ → Dots
look (c ∷ d ∷ e ∷ input) =
    if c == b'.'
    then if is_slash d
      then dot_slash
      else if d == 0
      then dot_end
      else if d == b'.'
      then (if e == 0 then dots_end else if is_slash e then dots_slash else no_dots)
      else no_dots
    else no_dots
look (c ∷ d ∷ []) =
    if c == b'.'
    then (if is_slash d then dot_slash else if d == 0 then dot_end else no_dots)
    else no_dots
look (c ∷ []) = no_dots
look [] = no_dots

abbrev pub tail : List ℕ → List ℕ
tail [] = []
tail (c ∷ cs) = cs

-- The loop, with fuel. At `s[is] == '\0'` it ends; a slash behind a slash is ignored.
unfoldable pub path_loop : ℕ → Bool → List ℕ → List ℕ → Option Result
unfolding copy back look
path_loop zero slashseen out input = none
path_loop (suc fuel) slashseen out [] = some (ok (reverse out))
path_loop (suc fuel) slashseen out (c ∷ input) =
    let skip = path_loop fuel true out input in
    let slash = path_loop fuel true (b'/' ∷ out) input in
    let here = path_loop fuel true out (tail input) in
    let at_end = path_loop fuel false (if ltb 1 (length out) then tail out else out) input in
    let up_end = path_loop fuel false (tail (back (tail out))) (tail input) in
    let up = path_loop fuel true (back (tail out)) (tail (tail input)) in
    let name = path_loop fuel false (copy out (c ∷ input)).0 (copy out (c ∷ input)).1 in
    if c == 0
    then some (ok (reverse out))
    else if is_slash c
    then (if slashseen then skip else slash)
    else elim (look (c ∷ input)) [
      | dot_slash ↦ here
      | dot_end ↦ at_end
      | dots_end ↦
          if leb (length out) 1
          then some error
          else if leb (length (back (tail out))) 1
          then some error
          else up_end
      | dots_slash ↦
          if leb (length out) 1
          then some error
          else if length (back (tail out)) == 0
          then some error
          else up
      | no_dots ↦ name
    ]

-- The bytes of a C string before its NUL.
abbrev pub c_string : List ℕ → List ℕ
c_string [] = []
c_string (c ∷ cs) = if c == 0 then [] else c ∷ c_string cs

abbrev pub as_string : Result → Result
as_string (ok s) = ok (c_string s)
as_string error = error

abbrev pub strings : Option Result → Option Result
strings none = none
strings (some r) = some (as_string r)

-- `http_decode_path` on a string of `s_len` bytes: the new string.
unfoldable pub decode_path : List ℕ → Option Result
decode_path s =
    if ltb max_decode_len (length s) || length s == 0
    then some (ok (c_string s))
    else strings (path_loop (suc (suc (length s))) false [] (s ++ 0 ∷ []))
