-- ===== src/Decode/Path/Resolve.antt =====
-- `http_decode_path` resolves a path.
use xxx.Prelude.{
  ℕ, zero, suc, ◌+◌, ◌==◌, ◌≡◌, ◌≤◌, ◌<◌, refl, Bool, true, false, none, some, List, [], ◌∷◌, ◌++◌,
  length, reverse, arith, ap, ◌∙◌, sym, inl, inr, leb, ltb, length-append,
}
use mathlib.Core.List.{append_assoc, reverse-cons}
use xxx.Decode.Path.{
  is_slash, ok, error, path_loop, c_string, as_string, decode_path, max_decode_len, strings,
}
use xxx.Decode.Path.Segments.{
  split, Kind, empty, dot, dots, name, kind, written, unslashed, finish, enter, resolve, is_name,
  no_nul, back-written, copy-name, copy-end, look-name, split-Cases, Cases,
}
use xxx.Decode.Path.Rounds.{
  step-nul, step-slash, step-name, step-dot, step-dot_end, step-dots, step-dots_end,
}

c_string-nul : (s : List ℕ) → c_string (s ++ 0 ∷ []) ≡ c_string s
c_string-nul [] = refl
c_string-nul (c ∷ s) = ground (arith, c_string-nul s)

abbrev Clean : List (List ℕ) → Type 0
Clean [] = Unit
Clean (s ∷ ss) = (is_name s ≡ true) × Clean ss

length-written : (ss : List (List ℕ)) → 0 < length (written ss)
length-written [] = omega arith
length-written (s ∷ ss) = omega arith

written-cons : (s : List ℕ) (ss : List (List ℕ)) → leb (length (written (s ∷ ss))) 1 ≡ false
written-cons s ss = ground (arith, length-append (reverse s) (written ss), length-written ss)

-- The names of one and of two dots.
kind-dot : (s : List ℕ) → kind s ≡ dot → s ≡ b'.' ∷ []
kind-dot [] e = cc
kind-dot (c ∷ []) e = ground arith
kind-dot (c ∷ d ∷ []) e = ground arith
kind-dot (c ∷ d ∷ f ∷ s) e = cc

kind-dots : (s : List ℕ) → kind s ≡ dots → s ≡ b'.' ∷ b'.' ∷ []
kind-dots [] e = cc
kind-dots (c ∷ []) e = ground arith
kind-dots (c ∷ d ∷ []) e = ground arith
kind-dots (c ∷ d ∷ f ∷ s) e = cc

kind-empty : (s : List ℕ) → kind s ≡ empty → s ≡ []
kind-empty [] e = refl
kind-empty (c ∷ []) e = ground arith
kind-empty (c ∷ d ∷ []) e = ground arith
kind-empty (c ∷ d ∷ f ∷ s) e = cc

finish-empty :
    (fuel : ℕ) (ss : List (List ℕ))
    → path_loop (suc fuel) true (written ss) (0 ∷ []) ≡ some (finish ss [] empty)
finish-empty fuel ss = step-nul fuel true (written ss) []

finish-dot :
    (fuel : ℕ) (ss : List (List ℕ))
    → path_loop (suc (suc fuel)) true (written ss) (b'.' ∷ 0 ∷ [])
      ≡ some (finish ss (b'.' ∷ []) dot)
finish-dot fuel [] = step-dot_end (suc fuel) (written []) ∙ step-nul fuel false (written []) []
finish-dot fuel (s ∷ ss) =
    let long : ltb 1 (length (written (s ∷ ss))) ≡ true = ground (arith, written-cons s ss) in
    step-dot_end (suc fuel) (written (s ∷ ss))
    ∙ rw long (step-nul fuel false (unslashed (s ∷ ss)) [])

finish-dots :
    (fuel : ℕ) (ss : List (List ℕ))
    → Clean ss
    → path_loop (suc (suc fuel)) true (written ss) (b'.' ∷ b'.' ∷ 0 ∷ [])
      ≡ some (finish ss (b'.' ∷ b'.' ∷ []) dots)
finish-dots fuel [] h = step-dots_end (suc fuel) (written [])
finish-dots fuel (s ∷ []) h =
    step-dots_end (suc fuel) (written (s ∷ [])) ∙ rw (written-cons s [], back-written s [] h.0) refl
finish-dots fuel (s ∷ t ∷ ss) h =
    step-dots_end (suc fuel) (written (s ∷ t ∷ ss))
    ∙ rw (written-cons s (t ∷ ss), back-written s (t ∷ ss) h.0, written-cons t ss)
        (step-nul fuel false (unslashed (t ∷ ss)) [])

name-first :
    (s : List ℕ)
    → is_name s ≡ true
    → kind s ≡ name
    → (c : ℕ) × (r : List ℕ) × (s ≡ c ∷ r) × (is_name (c ∷ []) ≡ true)
name-first [] h k = absurd (ground arith)
name-first (c ∷ r) h k = (c, r, refl, ground arith)

finish-name :
    (fuel : ℕ) (seen : Bool) (s out : List ℕ)
    → is_name s ≡ true
    → kind s ≡ name
    → strings (path_loop (suc (suc fuel)) seen out (s ++ 0 ∷ []))
      ≡ some (as_string (ok (reverse (reverse s ++ out))))
unfolding path_loop
finish-name fuel seen [] out h k = absurd (ground arith)
finish-name fuel seen (c ∷ r) out h k =
    ap strings (
      step-name (suc fuel) seen c out (r ++ 0 ∷ []) (ground arith) (look-name (c ∷ r) [] 0 h k refl)
      ∙ ap (λ (t : List ℕ × List ℕ). path_loop (suc fuel) false t.0 t.1) (copy-end (c ∷ r) out h))
    ∙ ap (λ t. some (ok t))
        (ap c_string (reverse-cons 0 (reverse (c ∷ r) ++ out))
          ∙ c_string-nul (reverse (reverse (c ∷ r) ++ out)))

-- The end of a path.
run-finish :
    (fuel : ℕ) (ss : List (List ℕ)) (s : List ℕ)
    → Clean ss
    → is_name s ≡ true
    → (k : Kind) → kind s ≡ k
    → strings (path_loop (suc (suc fuel)) true (written ss) (s ++ 0 ∷ []))
      ≡ some (as_string (finish ss s k))
run-finish fuel ss s clean h empty k = rw (kind-empty s k) (ap strings (finish-empty (suc fuel) ss))
run-finish fuel ss s clean h dot k = rw (kind-dot s k) (ap strings (finish-dot fuel ss))
run-finish fuel ss s clean h dots k = rw (kind-dots s k) (ap strings (finish-dots fuel ss clean))
run-finish fuel ss s clean h name k = finish-name fuel true s (written ss) h k

-- A name and the slash behind it take one round or two.
run-name :
    (fuel : ℕ) (ss : List (List ℕ)) (s : List ℕ) (c : ℕ) (rest : List ℕ)
    → is_name s ≡ true
    → kind s ≡ name
    → is_slash c ≡ true
    → path_loop (suc (suc fuel)) true (written ss) (s ++ c ∷ rest)
      ≡ path_loop fuel true (written (s ∷ ss)) rest
run-name fuel ss [] c rest h k e = absurd (ground arith)
run-name fuel ss (d ∷ r) c rest h k e =
    step-name (suc fuel) true d (written ss) (r ++ c ∷ rest) (ground arith)
      (look-name (d ∷ r) rest c h k (ground arith))
    ∙ ap (λ (t : List ℕ × List ℕ). path_loop (suc fuel) false t.0 t.1)
        (copy-name (d ∷ r) (written ss) rest c h e)
    ∙ (step-slash fuel c (reverse (d ∷ r) ++ written ss) rest e).1

-- On what is left of a path, with fuel enough, the loop resolves it.
abbrev Resolves : ℕ → Type 0
Resolves n =
    (fuel : ℕ) (ss : List (List ℕ)) (cs : List ℕ)
    → length cs < n
    → length cs + 2 ≤ fuel
    → Clean ss
    → no_nul cs ≡ true
    → strings (path_loop fuel true (written ss) (cs ++ 0 ∷ []))
      ≡ some (as_string (resolve ss (split cs).0 (split cs).1))

run-enter :
    (n fuel : ℕ) (ss : List (List ℕ)) (s : List ℕ) (c : ℕ) (rest : List ℕ)
    → Resolves n
    → length (s ++ c ∷ rest) < suc n
    → length (s ++ c ∷ rest) ≤ fuel
    → Clean ss
    → is_name s ≡ true
    → is_slash c ≡ true
    → no_nul rest ≡ true
    → (k : Kind) → kind s ≡ k
    → strings (path_loop (suc (suc fuel)) true (written ss) (s ++ c ∷ (rest ++ 0 ∷ [])))
      ≡ some (
          as_string (elim (enter ss s k) [
            | none ↦ error
            | some t ↦ resolve t (split rest).0 (split rest).1
          ]))
run-enter n fuel ss s c rest ih lt le clean h e plain empty k =
    let len = length-append s (c ∷ rest) in
    rw (kind-empty s k) (
      ap strings ((step-slash (suc fuel) c (written ss) (rest ++ 0 ∷ []) e).0)
      ∙ ih (suc fuel) ss rest (omega arith) (omega arith) clean plain)
run-enter n fuel ss s c rest ih lt le clean h e plain dot k =
    let len = length-append s (c ∷ rest) in
    rw (kind-dot s k) (
      ap strings (step-dot (suc fuel) c (written ss) (rest ++ 0 ∷ []) e)
      ∙ ih (suc fuel) ss rest (omega arith) (omega arith) clean plain)
run-enter n fuel [] s c rest ih lt le clean h e plain dots k =
    rw (kind-dots s k) (ap strings (step-dots (suc fuel) c (written []) (rest ++ 0 ∷ []) e))
run-enter n fuel (t ∷ ss) s c rest ih lt le clean h e plain dots k =
    let len = length-append s (c ∷ rest) in
    let some_left : (length (written ss) == 0) ≡ false = ground (arith, length-written ss) in
    rw (kind-dots s k) (
      ap strings (
        step-dots (suc fuel) c (written (t ∷ ss)) (rest ++ 0 ∷ []) e
        ∙ rw (written-cons t ss, back-written t ss clean.0, some_left) refl)
      ∙ ih (suc fuel) ss rest (omega arith) (omega arith) clean.1 plain)
run-enter n fuel ss s c rest ih lt le clean h e plain name k =
    let len = length-append s (c ∷ rest) in
    let (d, r, first, ok_d) = name-first s h k in
    ap strings (run-name fuel ss s c (rest ++ 0 ∷ []) h k e)
    ∙ ih fuel (s ∷ ss) rest (omega arith) (omega (arith, ap length first)) (h, clean) plain

resolve-pair :
    (ss : List (List ℕ)) {p q : List ℕ × List (List ℕ)}
    → p ≡ q
    → resolve ss p.0 p.1 ≡ resolve ss q.0 q.1
resolve-pair ss e = ap (λ (p : List ℕ × List (List ℕ)). resolve ss p.0 p.1) e

Resolves-suc :
    (n fuel : ℕ) (ss : List (List ℕ)) (cs : List ℕ)
    → Resolves n
    → length cs < suc n
    → length cs ≤ fuel
    → Clean ss
    → Cases cs
    → strings (path_loop (suc (suc fuel)) true (written ss) (cs ++ 0 ∷ []))
      ≡ some (as_string (resolve ss (split cs).0 (split cs).1))
unfolding resolve
Resolves-suc n fuel ss cs ih lt le clean (s, h, inl (e, f)) =
    ap (λ (r : List ℕ). strings (path_loop (suc (suc fuel)) true (written ss) (r ++ 0 ∷ []))) e
    ∙ run-finish fuel ss s clean h (kind s) refl
    ∙ ap (λ r. some (as_string r)) (sym (resolve-pair ss f))
Resolves-suc n fuel ss cs ih lt le clean (s, h, inr (c, rest, slash, plain, e, f)) =
    let len = ap length e in
    ap (λ (r : List ℕ). strings (path_loop (suc (suc fuel)) true (written ss) (r ++ 0 ∷ []))) e
    ∙ ap (λ (r : List ℕ). strings (path_loop (suc (suc fuel)) true (written ss) r))
        (append_assoc s (c ∷ rest) (0 ∷ []))
    ∙ run-enter n fuel ss s c rest ih (omega (arith, len)) (omega (arith, len)) clean h slash plain
        (kind s) refl
    ∙ ap (λ r. some (as_string r)) (sym (resolve-pair ss f))

all-Resolves : (n : ℕ) → Resolves n
all-Resolves zero fuel ss cs lt le clean plain = absurd (omega arith)
all-Resolves (suc n) zero ss cs lt le clean plain = absurd (omega arith)
all-Resolves (suc n) (suc zero) ss cs lt le clean plain = absurd (omega arith)
all-Resolves (suc n) (suc (suc fuel)) ss cs lt le clean plain =
    Resolves-suc n fuel ss cs (all-Resolves n) lt (omega arith) clean (split-Cases cs plain)

-- For a path that starts with a slash and holds no NUL, within the length that is decoded,
-- `http_decode_path` ends, and gives the path that its names lead to from the root: an empty name
-- and a single dot stay where they are, two dots lead up, which fails at the root, and a last name
-- of two dots fails also where only one directory is above it.
pub decode_path-resolve :
    (c : ℕ) (cs : List ℕ)
    → is_slash c ≡ true
    → no_nul cs ≡ true
    → length (c ∷ cs) ≤ max_decode_len
    → decode_path (c ∷ cs) ≡ some (as_string (resolve [] (split cs).0 (split cs).1))
unfolding decode_path
decode_path-resolve c cs h plain le =
    let short : ltb max_decode_len (length (c ∷ cs)) ≡ false = ground arith in
    let some_bytes : (length (c ∷ cs) == 0) ≡ false = ground arith in
    rw (short, some_bytes)
      (ap strings ((step-slash (suc (length (c ∷ cs))) c [] (cs ++ 0 ∷ []) h).1)
        ∙ all-Resolves (suc (length cs)) (suc (length (c ∷ cs))) [] cs (omega arith) (omega arith)
            tt plain)
