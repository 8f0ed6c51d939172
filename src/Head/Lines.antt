-- ===== src/Head/Lines.antt =====
-- The lines of a well-formed head are found as they are.
use xxx.Prelude.{
  ℕ, suc, ◌+◌, ◌-◌, ◌==◌, ◌≡◌, refl, Bool, true, false, ◌&&◌, ◌||◌, Option, none, some, List, [],
  ◌∷◌, ◌++◌, if◌then◌else◌, length, arith, ap, ◌∙◌, not,
}
use xxx.Head.{
  State, char0, char1, charn, r1, n1, r2, n2, Notes, Line, note, act, no_flag, head_loop,
  head_lines, next_state, class, other, cr, Flag, clear, line_at,
}

-- No CR and no LF among the bytes.
abbrev pub is_plain : List ℕ → Bool
is_plain [] = true
is_plain (b ∷ bs) = not (b == 13) && not (b == 10) && is_plain bs

-- What the loop notes of the bytes of a line.
abbrev pub note_all : Notes → ℕ → List ℕ → Notes
note_all m pos [] = m
note_all m pos (b ∷ bs) = note_all (note m pos b) (suc pos) bs

class-other : (b : ℕ) → (not (b == 13) && not (b == 10)) ≡ true → class b ≡ other
class-other b h = ground arith

-- Behind the first byte of a line, before its CR.
abbrev in_line : State → Bool
in_line char1 = true
in_line charn = true
in_line _ = false

next-in_line :
    (st : State) → in_line st ≡ true → (next_state st other ≡ charn) × (next_state st cr ≡ r1)
next-in_line char1 h = (refl, refl)
next-in_line charn h = (refl, refl)
next-in_line char0 h = cc
next-in_line r1 h = cc
next-in_line n1 h = cc
next-in_line r2 h = cc
next-in_line n2 h = cc

-- From there the line ends at its CR LF.
head_loop-line :
    (st : State) (begin : Option ℕ) (m : Notes) (pos : ℕ) (bs rest : List ℕ)
    → in_line st ≡ true
    → is_plain bs ≡ true
    → head_loop st begin m pos (bs ++ 13 ∷ 10 ∷ rest)
      ≡ line_at begin (note_all m pos bs) (pos + suc (length bs))
        ∷ head_loop char0 begin (clear (note_all m pos bs)) (pos + suc (suc (length bs))) rest
unfolding head_loop act
head_loop-line st begin m pos [] rest h plain =
    let one : pos + 1 ≡ suc pos = omega arith in
    let two : pos + 2 ≡ suc (suc pos) = omega arith in
    rw ((next-in_line st h).1) (rw (one, two) refl)
head_loop-line st begin m pos (b ∷ bs) rest h plain =
    let this : class b ≡ other = class-other b (ground arith) in
    let end : suc pos + suc (length bs) ≡ pos + suc (suc (length bs)) = omega arith in
    let behind : suc pos + suc (suc (length bs)) ≡ pos + suc (suc (suc (length bs))) =
      omega arith in
    rw (this, (next-in_line st h).0)
      (head_loop-line charn begin (note m pos b) (suc pos) bs rest refl (ground arith)
        ∙ rw (end, behind) refl)

-- The first colon of a line, from `pos` on.
abbrev pub first_colon : ℕ → List ℕ → Option ℕ
first_colon pos [] = none
first_colon pos (b ∷ bs) = if b == b':' then some pos else first_colon (suc pos) bs

abbrev pub has : ℕ → List ℕ → Bool
has c [] = false
has c (b ∷ bs) = b == c || has c bs

-- The decodings that a line needs.
abbrev pub flag_of : List ℕ → Flag
flag_of bs = record { url = has b'%' bs; html = has b'&' bs; escape = has b'\\' bs }

abbrev pub or_last : Option ℕ → Option ℕ → Option ℕ
or_last none last = last
or_last (some k) last = some k

note_all-split :
    (m : Notes) (pos : ℕ) (bs : List ℕ)
    → (note_all m pos bs).split
      ≡ (if m.tmp_flag then m.split else or_last (first_colon pos bs) m.split)
unfolding note
note_all-split m pos [] = ground arith
note_all-split m pos (b ∷ bs) = ground (arith, note_all-split (note m pos b) (suc pos) bs)

note_all-flag :
    (m : Notes) (pos : ℕ) (bs : List ℕ)
    → ((note_all m pos bs).flag.url ≡ (m.flag.url || has b'%' bs))
      × ((note_all m pos bs).flag.html ≡ (m.flag.html || has b'&' bs))
      × ((note_all m pos bs).flag.escape ≡ (m.flag.escape || has b'\\' bs))
unfolding note
note_all-flag m pos [] = ground arith
note_all-flag m pos (b ∷ bs) = ground (arith, note_all-flag (note m pos b) (suc pos) bs)

-- A head: lines that are not empty and have neither CR nor LF, each with a CR LF behind.
abbrev pub AreLines : List (List ℕ) → Type 0
AreLines [] = Unit
AreLines ([] ∷ ls) = ⊥
AreLines ((b ∷ bs) ∷ ls) = (is_plain (b ∷ bs) ≡ true) × AreLines ls

abbrev pub join : List (List ℕ) → List ℕ → List ℕ
join [] rest = rest
join (l ∷ ls) rest = l ++ 13 ∷ 10 ∷ join ls rest

-- The calls of `http_parse_line` for such a head, from `pos` on: each line from its first byte to
-- its CR, with the decodings that its bytes need. `split` is its first colon; a line without one
-- has the `split` of the line before.
abbrev pub calls : Option ℕ → ℕ → List (List ℕ) → List Line
calls last pos [] = []
calls last pos (l ∷ ls) =
    let split = or_last (first_colon pos l) last in
    record { begin = some pos; split = split; end = pos + length l; flag = flag_of l }
    ∷ calls split (pos + suc (suc (length l))) ls

abbrev fresh : Option ℕ → Notes
fresh last = record { flag = no_flag; tmp_flag = false; split = last }

head_loop-join :
    (begin last : Option ℕ) (pos : ℕ) (ls : List (List ℕ))
    → AreLines ls
    → head_loop char0 begin (fresh last) pos (join ls (13 ∷ 10 ∷ [])) ≡ calls last pos ls
unfolding head_loop act
head_loop-join begin last pos [] h = refl
head_loop-join begin last pos ([] ∷ ls) h = absurd h
head_loop-join begin last pos ((b ∷ bs) ∷ ls) h =
    let this : class b ≡ other = class-other b (ground arith) in
    let end : suc pos + suc (length bs) - 1 ≡ pos + suc (length bs) = omega arith in
    let behind : suc pos + suc (suc (length bs)) ≡ pos + suc (suc (suc (length bs))) =
      omega arith in
    let m = note_all (fresh last) pos (b ∷ bs) in
    let split : m.split ≡ or_last (first_colon pos (b ∷ bs)) last =
      note_all-split (fresh last) pos (b ∷ bs) in
    let flag : m.flag ≡ flag_of (b ∷ bs) =
      ground (arith, note_all-flag (fresh last) pos (b ∷ bs)) in
    rw this (
      head_loop-line char1 (some pos) (note (fresh last) pos b) (suc pos) bs
        (join ls (13 ∷ 10 ∷ [])) refl (ground arith)
      ∙ rw (end, behind, split, flag)
          (ap
            (λ (rest : List Line).
              record {
                begin = some pos;
                split = or_last (first_colon pos (b ∷ bs)) last;
                end = pos + suc (length bs);
                flag = flag_of (b ∷ bs);
              }
              ∷ rest)
            (head_loop-join (some pos) (or_last (first_colon pos (b ∷ bs)) last)
              (pos + suc (suc (suc (length bs)))) ls h.1)))

-- `http_parse_head` calls `http_parse_line` for exactly the lines of a well-formed head, in their
-- order, each with the pointers to its first byte and its CR.
pub head_lines-join :
    (ls : List (List ℕ)) → AreLines ls → head_lines (join ls (13 ∷ 10 ∷ [])) ≡ calls none 0 ls
unfolding head_lines
head_lines-join ls h = head_loop-join none none 0 ls h
