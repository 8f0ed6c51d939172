-- ===== src/Parse/Field.antt =====
-- A line that holds a field.
use xxx.Prelude.{
  ℕ, suc, ◌+◌, ◌-◌, ◌≡◌, ◌≤◌, ◌<◌, refl, ◌==◌, true, false, some, List, [], ◌∷◌, ◌++◌, length, ltb,
  drop, arith, ◌∙◌, length-append,
}
use xxx.Head.{Flag, Line}
use xxx.Text.Strip.{all_blank, IsTrimmed}
use xxx.Fields.{header_calls}
use xxx.Fields.Search.{find, match_header-find}
use xxx.Parse.{Libc, Info}
use xxx.Parse.Pointers.{strip-append, drop-append, drop-append_both}
use xxx.Parse.Line.{called, parse_field, longest, parse_split, parse_line}

-- A line `name: value` at an offset, with blanks behind the colon.
abbrev pub field_line : List ℕ → List ℕ → List ℕ → List ℕ → Flag → Line
field_line before name bs value flag = record {
  begin = some (length before);
  split = some (length before + length name);
  end = length before + length name + 1 + length bs + length value;
  flag = flag;
}

abbrev pub field_text : List ℕ → List ℕ → List ℕ → List ℕ → List ℕ
field_text name bs value rest = name ++ b':' ∷ (bs ++ (value ++ rest))

parse_line-suc :
    (e : Libc) (bytes : List ℕ) (dir num : ℕ) (line : Line) (begin : ℕ) (info : Info)
    → line.begin ≡ some begin
    → parse_line e bytes dir (suc num) line info
      ≡ parse_split e bytes begin line.split line.end info
unfolding parse_line
parse_line-suc e bytes dir num line begin info at =
    let later : (suc num == 0) ≡ false = ground arith in rw (at, later) refl

-- A line that is not the first one, with a name of at least three characters, a colon and a value,
-- which begin and end with no blank: `http_parse_line` calls the parser that is registered for the
-- name, in upper or lower case, with the value without the blanks behind the colon; for an unknown
-- name it only notes the length of the line.
pub parse_line-field :
    (e : Libc) (dir num : ℕ) (before name bs value rest : List ℕ) (flag : Flag) (info : Info)
    → 3 ≤ length name
    → IsTrimmed name
    → all_blank bs ≡ true
    → IsTrimmed value
    → parse_line e
        (before ++ field_text name bs value rest)
        dir
        (suc num)
        (field_line before name bs value flag)
        info
      ≡ called e
          (find (field_text name bs value rest) (length name) header_calls)
          (value ++ rest)
          (length value)
          (longest (length name + 1 + length bs + length value) info)
unfolding parse_split parse_field
parse_line-field e dir num before name bs value rest flag info le trimmed blank trimmed' =
    let colon = b':' ∷ (bs ++ (value ++ rest)) in
    let text = name ++ colon in
    let a = length before in
    let n = length name in
    let v = length bs + length value in
    let behind : ltb (a + n) a ≡ false = ground arith in
    let at_name : drop a (before ++ text) ≡ text = drop-append before text in
    let at_colon : drop (a + n) (before ++ text) ≡ colon = drop-append_both before name colon in
    let to_colon : a + n - a ≡ n = omega arith in
    let to_end : a + n + 1 + length bs + length value - (a + n) ≡ 1 + v = omega arith in
    let whole : a + n + 1 + length bs + length value - a ≡ n + 1 + length bs + length value =
      omega arith in
    let long : n < length text = omega (arith, length-append name colon) in
    parse_line-suc e (before ++ text) dir num (field_line before name bs value flag) a info refl
    ∙ rw
        (
          behind,
          at_name,
          at_colon,
          to_colon,
          to_end,
          whole,
          strip-append [] name colon n refl trimmed (omega arith),
          strip-append (b':' ∷ bs) value rest (1 + v) blank trimmed' (omega arith),
          match_header-find text n le long,
        )
        refl
