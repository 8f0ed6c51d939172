-- ===== src/Head/Bounds.antt =====
-- The pointers that `http_parse_head` hands out point into the head.
use xxx.Prelude.{
  ℕ, suc, ◌+◌, ◌≡◌, ◌⊎◌, inl, inr, ◌<◌, ◌≤◌, Option, none, some, List, [], ◌∷◌, length, arith,
}
use xxx.Head.{
  State, char0, char1, charn, r1, n1, r2, n2, Notes, Line, note, act, emit, head_loop, head_lines,
  next_state, class, blank,
}

abbrev pub Below : Option ℕ → ℕ → Type 0
Below none n = Unit
Below (some k) n = k < n

-- The line is not empty, and it lies with its `split` in the first `n` bytes.
abbrev pub IsInside : ℕ → Line → Type 0
IsInside n l = (k : ℕ) × (l.begin ≡ some k) × (k < l.end) × (l.end < n) × Below l.split n

abbrev pub AreInside : ℕ → List Line → Type 0
AreInside n [] = Unit
AreInside n (l ∷ ls) = IsInside n l × AreInside n ls

-- What `begin` is before the byte at `pos`, in each state.
abbrev Begun : State → Option ℕ → ℕ → Type 0
Begun char0 begin pos = Unit
Begun char1 begin pos = (k : ℕ) × (begin ≡ some k) × (k < pos)
Begun charn begin pos = (k : ℕ) × (begin ≡ some k) × (k < pos)
Begun r1 begin pos = (k : ℕ) × (begin ≡ some k) × (suc k < pos)
Begun _ begin pos = ⊥

Below-mono : (o : Option ℕ) (m n : ℕ) → Below o m → m ≤ n → Below o n
Below-mono none m n h le = tt
Below-mono (some k) m n h le = omega arith

note-split :
    (m : Notes) (pos b : ℕ) → ((note m pos b).split ≡ m.split) ⊎ ((note m pos b).split ≡ some pos)
unfolding note
note-split m pos b = ground arith

note-Below : (m : Notes) (pos b : ℕ) → Below m.split pos → Below (note m pos b).split (suc pos)
note-Below m pos b h = elim (note-split m pos b) [
  | inl e ↦ rw e (Below-mono m.split pos (suc pos) h (omega arith))
  | inr e ↦ rw e (omega arith)
]

act-Begun :
    (st : State) (begin : Option ℕ) (m : Notes) (pos b : ℕ)
    → Begun st begin pos
    → Below m.split (suc pos)
    → (let r = act (next_state st (class b)) begin m pos in
        Begun r.0 r.1 (suc pos) × Below r.2.split (suc pos) × AreInside (suc pos) (emit r.3 []))
unfolding act
act-Begun char0 begin m pos b h s = ground arith
act-Begun char1 begin m pos b (k, e, lt) s = ground arith
act-Begun charn begin m pos b (k, e, lt) s = ground arith
act-Begun r1 begin m pos b (k, e, lt) s = ground arith
act-Begun n1 begin m pos b h s = absurd h
act-Begun r2 begin m pos b h s = absurd h
act-Begun n2 begin m pos b h s = absurd h

IsInside-mono : (m n : ℕ) (l : Line) → IsInside m l → m ≤ n → IsInside n l
IsInside-mono m n l (k, e, lt, end, split) le =
    (k, e, lt, omega arith, Below-mono l.split m n split le)

AreInside-emit :
    (m n : ℕ) (o : Option Line) (ls : List Line)
    → m ≤ n
    → AreInside m (emit o [])
    → AreInside n ls
    → AreInside n (emit o ls)
AreInside-emit m n none ls le h rest = rest
AreInside-emit m n (some l) ls le h rest = (IsInside-mono m n l h.0 le, rest)

head_loop-AreInside :
    (st : State) (begin : Option ℕ) (m : Notes) (pos n : ℕ) (bytes : List ℕ)
    → pos + length bytes ≡ n
    → Begun st begin pos
    → Below m.split pos
    → AreInside n (head_loop st begin m pos bytes)
unfolding head_loop
head_loop-AreInside st begin m pos n [] e h s = tt
head_loop-AreInside st begin m pos n (b ∷ bytes) e h s =
    let r = act (next_state st (class b)) begin (note m pos b) pos in
    let (begun, split, line) = act-Begun st begin (note m pos b) pos b h (note-Below m pos b s) in
    AreInside-emit (suc pos) n _ _ (omega arith) line
      (head_loop-AreInside r.0 r.1 r.2 (suc pos) n bytes (omega arith) begun split)

-- Whatever the bytes of a head are, each call of `http_parse_line` that `http_parse_head` makes is
-- for a line that is not empty and lies inside the head with its CR, and `split` is NULL or points
-- into the head.
pub head_lines-AreInside : (bytes : List ℕ) → AreInside (length bytes) (head_lines bytes)
unfolding head_lines
head_lines-AreInside bytes =
    head_loop-AreInside char0 none blank 0 (length bytes) bytes (omega arith) tt tt
