-- ===== src/Text/Find.antt =====
-- `strlstr` with a pattern of one byte.
use xxx.Prelude.{
  ℕ, zero, suc, ◌-◌, ◌==◌, ◌≡◌, ◌≤◌, ◌<◌, refl, Bool, true, false, not, ◌&&◌, none, some, List, [],
  ◌∷◌, ◌++◌, length, arith,
}
use xxx.Text.{starts, find_loop, strlstr}

abbrev pub lacks : ℕ → List ℕ → Bool
lacks c [] = true
lacks c (x ∷ xs) = not (x == c) && lacks c xs

find_loop-hit :
    (c : ℕ) (w rest : List ℕ) (rounds : ℕ)
    → lacks c w ≡ true
    → length w < rounds
    → find_loop rounds (c ∷ []) (w ++ c ∷ rest) ≡ some (some (length w))
unfolding find_loop starts
find_loop-hit c w rest zero h lt = absurd (omega arith)
find_loop-hit c [] rest (suc rounds) h lt = ground arith
find_loop-hit c (x ∷ w) rest (suc rounds) h lt =
    let other : (x == c) ≡ false = ground arith in
    let ih = find_loop-hit c w rest rounds (ground arith) (omega arith) in rw (other, ih) refl

find_loop-miss :
    (c : ℕ) (w rest : List ℕ) (rounds : ℕ)
    → lacks c w ≡ true
    → rounds ≤ length w
    → find_loop rounds (c ∷ []) (w ++ rest) ≡ some none
unfolding find_loop starts
find_loop-miss c w rest zero h le = refl
find_loop-miss c [] rest (suc rounds) h le = absurd (omega arith)
find_loop-miss c (x ∷ w) rest (suc rounds) h le =
    let other : (x == c) ≡ false = ground arith in
    let ih = find_loop-miss c w rest rounds (ground arith) (omega arith) in rw (other, ih) refl

-- The first place of the byte, among the first `n`.
pub strlstr-hit :
    (c : ℕ) (w rest : List ℕ) (n : ℕ)
    → lacks c w ≡ true
    → length w < n
    → strlstr (w ++ c ∷ rest) n (c ∷ []) ≡ some (some (length w))
unfolding strlstr
strlstr-hit c w rest n h lt = find_loop-hit c w rest (suc (n - 1)) h (omega arith)

-- No place of the byte; at least one is looked at.
pub strlstr-miss :
    (c : ℕ) (w rest : List ℕ) (n : ℕ)
    → lacks c w ≡ true
    → 0 < n
    → n ≤ length w
    → strlstr (w ++ rest) n (c ∷ []) ≡ some none
unfolding strlstr
strlstr-miss c w rest n h pos le = find_loop-miss c w rest (suc (n - 1)) h (omega arith)
