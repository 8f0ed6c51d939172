-- ===== src/Head.antt =====
-- The head of a message: `http_parse_head` of http/http.c with the states of http/http_table.c. It
-- cuts the head into lines and calls `http_parse_line` for each. Pointers into the buffer are
-- offsets from its first byte; `none` is NULL.
pub mod Lines
pub mod Bounds
use xxx.Prelude.{
  ℕ, zero, suc, ◌+◌, ◌-◌, ◌==◌, Bool, true, false, Option, none, some, List, [], ◌∷◌, if◌then◌else◌,
}

-- `HTTP_HEADER_STATE_CHAR0` and so on.
pub data State : Type 0 where
  char0 char1 charn r1 n1 r2 n2 : State

-- The columns of `http_header_state`.
pub data Class : Type 0 where
  other cr lf : Class

-- `http_header_state`, as `http_init_header_state` fills it.
abbrev pub next_state : State → Class → State
next_state char0 other = char1
next_state char0 cr = char0
next_state char0 lf = char0
next_state char1 other = charn
next_state char1 cr = r1
next_state char1 lf = charn
next_state charn other = charn
next_state charn cr = r1
next_state charn lf = charn
next_state r1 other = char1
next_state r1 cr = r1
next_state r1 lf = n1
next_state n1 other = char1
next_state n1 cr = r2
next_state n1 lf = n1
next_state r2 other = r2
next_state r2 cr = r2
next_state r2 lf = n2
next_state n2 other = char1
next_state n2 cr = n2
next_state n2 lf = n2

abbrev pub class : ℕ → Class
class b = if b == 13 then cr else if b == 10 then lf else other

-- The bits of a decode flag.
pub record Flag : Type 0 where
  pub url : Bool
  pub html : Bool
  pub escape : Bool

abbrev pub no_flag : Flag
no_flag = record { url = false; html = false; escape = false }

-- What the loop notes of a line while it reads it: `flag`, `tmp_flag` and `split`.
pub record Notes : Type 0 where
  pub flag : Flag
  pub tmp_flag : Bool
  pub split : Option ℕ

-- The arguments of a call of `http_parse_line`, and `tmp_flag` of the message at the call.
pub record Line : Type 0 where
  pub begin : Option ℕ
  pub split : Option ℕ
  pub end : ℕ
  pub flag : Flag

-- What the first `switch` notes of a byte at `pos`, beside the state.
unfoldable pub note : Notes → ℕ → ℕ → Notes
note m pos b =
    if b == b'%'
    then record m { flag = record m.flag { url = true } }
    else if b == b'&'
    then record m { flag = record m.flag { html = true } }
    else if b == b'\\'
    then record m { flag = record m.flag { escape = true } }
    else if b == b':'
    then (if m.tmp_flag then m else record m { split = some pos; tmp_flag = true })
    else m

abbrev pub emit : Option Line → List Line → List Line
emit none ls = ls
emit (some l) ls = l ∷ ls

-- The line that ends before `pos`, where the LF stands.
abbrev pub line_at : Option ℕ → Notes → ℕ → Line
line_at begin m pos = record { begin = begin; split = m.split; end = pos - 1; flag = m.flag }

abbrev pub clear : Notes → Notes
clear m = record m { flag = no_flag; tmp_flag = false }

-- The second `switch`, for the new state: the state, `begin`, the notes, and the line that is
-- complete, if there is one.
unfoldable pub act : State → Option ℕ → Notes → ℕ → State × Option ℕ × Notes × Option Line
act char0 begin m pos = (char0, begin, m, none)
act char1 begin m pos = (char1, some pos, m, none)
act charn begin m pos = (charn, begin, m, none)
act r1 begin m pos = (r1, begin, m, none)
act n1 begin m pos = (char0, begin, clear m, some (line_at begin m pos))
act r2 begin m pos = (r2, begin, m, none)
act n2 begin m pos = (n2, begin, m, none)

-- The loop from the byte at `pos` on: the calls of `http_parse_line`, in their order.
unfoldable pub head_loop : State → Option ℕ → Notes → ℕ → List ℕ → List Line
unfolding note act
head_loop st begin m pos [] = []
head_loop st begin m pos (b ∷ bytes) =
    let (st', begin', m', line) = act (next_state st (class b)) begin (note m pos b) pos in
    emit line (head_loop st' begin' m' (suc pos) bytes)

abbrev pub blank : Notes
blank = record { flag = no_flag; tmp_flag = false; split = none }

-- `http_parse_head`: its calls of `http_parse_line`.
unfoldable pub head_lines : List ℕ → List Line
unfolding head_loop
head_lines bytes = head_loop char0 none blank 0 bytes
