-- ===== src/Parse/Pointers.antt =====
-- Slices of a buffer, and `strlstrip` on the pointers of one.
use mathlib.Core.List.{append_assoc}
use xxx.Prelude.{
  ℕ, ◌+◌, ◌-◌, ◌≡◌, refl, true, false, some, List, [], ◌∷◌, ◌++◌, length, ltb, take, drop, arith,
  ap, ◌∙◌, sym, length-append,
}
use xxx.Text.Strip.{all_blank, IsTrimmed, strip_left-append, strlstrip-append}
use xxx.Parse.{slice, strip}

pub take-append : (xs ys : List ℕ) → take (length xs) (xs ++ ys) ≡ xs
take-append [] ys = refl
take-append (x ∷ xs) ys = ap (λ (r : List ℕ). x ∷ r) (take-append xs ys)

pub drop-append : (xs ys : List ℕ) → drop (length xs) (xs ++ ys) ≡ ys
drop-append [] ys = refl
drop-append (x ∷ xs) ys = drop-append xs ys

pub drop-append_both : (xs ys zs : List ℕ) → drop (length xs + length ys) (xs ++ (ys ++ zs)) ≡ zs
drop-append_both xs ys zs =
    ap (λ k. drop k (xs ++ (ys ++ zs))) (sym (length-append xs ys))
    ∙ ap (drop (length (xs ++ ys))) (sym (append_assoc xs ys zs))
    ∙ drop-append (xs ++ ys) zs

pub slice-append : (w rest : List ℕ) → slice (w ++ rest) (length w) ≡ some w
slice-append w rest =
    let fits : ltb (length (w ++ rest)) (length w) ≡ false = ground (arith, length-append w rest) in
    rw (fits, take-append w rest) refl

-- A text with blanks in front of it.
pub strip-append :
    (bs w rest : List ℕ) (n : ℕ)
    → all_blank bs ≡ true
    → IsTrimmed w
    → n ≡ length bs + length w
    → strip (bs ++ (w ++ rest)) n ≡ some (length bs, w ++ rest, length w)
unfolding strip
strip-append bs w rest n h trimmed e =
    let len : n ≡ length (bs ++ w) = omega (arith, e, length-append bs w) in
    let all : slice (bs ++ (w ++ rest)) n ≡ some (bs ++ w) =
      ap (slice (bs ++ (w ++ rest))) len
      ∙ ap (λ t. slice t (length (bs ++ w))) (sym (append_assoc bs w rest))
      ∙ slice-append (bs ++ w) rest in
    let off : n - length w ≡ length bs = omega arith in
    rw
      (
        all,
        strip_left-append bs w h trimmed.0,
        strlstrip-append bs w h trimmed,
        off,
        drop-append bs (w ++ rest),
      )
      refl
