-- ===== src/Decode/Path/Segments.antt =====
-- What the names of a path mean: a stack of directories.
use xxx.Prelude.{
  ℕ, ◌==◌, ◌≡◌, refl, Bool, true, false, ◌&&◌, ◌||◌, not, Option, none, some, List, [], ◌∷◌, ◌++◌,
  if◌then◌else◌, reverse, arith, ap, ◌∙◌, ◌⊎◌, inl, inr, Bool-cases,
}
use mathlib.Core.List.{reverse-cons, reverse_aux, reverse_aux-eq}
use xxx.Decode.Path.{is_slash, Result, ok, error, copy, back, look, no_dots}

abbrev pub head_of : List ℕ × List (List ℕ) → List ℕ
head_of s = s.0

-- The first name of a path, and the further ones, each behind a slash.
abbrev pub split : List ℕ → List ℕ × List (List ℕ)
split [] = ([], [])
split (c ∷ cs) =
    if is_slash c then ([], (split cs).0 ∷ (split cs).1) else (c ∷ (split cs).0, (split cs).1)

-- The kinds of names.
pub data Kind : Type 0 where
  empty dot dots name : Kind

abbrev pub kind : List ℕ → Kind
kind [] = empty
kind (c ∷ []) = if c == b'.' then dot else name
kind (c ∷ d ∷ []) = if c == b'.' && d == b'.' then dots else name
kind (c ∷ d ∷ e ∷ s) = name

-- A directory, the last name first, as bytes from the end; it ends in a slash.
abbrev pub written : List (List ℕ) → List ℕ
written [] = b'/' ∷ []
written (s ∷ ss) = b'/' ∷ (reverse s ++ written ss)

-- The same without the slash at the end, except for the root.
abbrev pub unslashed : List (List ℕ) → List ℕ
unslashed [] = b'/' ∷ []
unslashed (s ∷ ss) = reverse s ++ written ss

-- The directory above, for the last name of a path; the root and what lies in it have none.
abbrev pub above : List (List ℕ) → Option (List ℕ)
above [] = none
above (s ∷ []) = none
above (s ∷ t ∷ ss) = some (unslashed (t ∷ ss))

abbrev pub from_end : Option (List ℕ) → Result
from_end none = error
from_end (some s) = ok (reverse s)

-- The last name.
abbrev pub finish : List (List ℕ) → List ℕ → Kind → Result
finish ss s empty = ok (reverse (written ss))
finish ss s dot = ok (reverse (unslashed ss))
finish ss s dots = from_end (above ss)
finish ss s name = ok (reverse (reverse s ++ written ss))

-- A name before a slash: the new directory.
abbrev pub enter : List (List ℕ) → List ℕ → Kind → Option (List (List ℕ))
enter ss s empty = some ss
enter ss s dot = some ss
enter [] s dots = none
enter (t ∷ ss) s dots = some ss
enter ss s name = some (s ∷ ss)

-- A path, from a directory on.
unfoldable pub resolve : List (List ℕ) → List ℕ → List (List ℕ) → Result
resolve ss s [] = finish ss s (kind s)
resolve ss s (t ∷ more) = elim (enter ss s (kind s)) [
  | none ↦ error
  | some ss' ↦ resolve ss' t more
]

-- Neither NUL nor a slash.
abbrev pub is_name : List ℕ → Bool
is_name [] = true
is_name (c ∷ cs) = not (c == 0) && not (is_slash c) && is_name cs

abbrev pub no_nul : List ℕ → Bool
no_nul [] = true
no_nul (c ∷ cs) = not (c == 0) && no_nul cs

abbrev pub AreNames : List (List ℕ) → Type 0
AreNames [] = Unit
AreNames (s ∷ ss) = (is_name s ≡ true) × (kind s ≡ name) × AreNames ss

-- Behind a name without a slash, `back` finds the slash before it.
back-append : (s out : List ℕ) → is_name s ≡ true → back (s ++ b'/' ∷ out) ≡ b'/' ∷ out
unfolding back
back-append [] out h = refl
back-append (c ∷ s) out h = ground (arith, back-append s out)

is_name-append : (s t : List ℕ) → is_name (s ++ t) ≡ (is_name s && is_name t)
is_name-append [] t = refl
is_name-append (c ∷ s) t = ground (arith, is_name-append s t)

is_name-reverse : (s : List ℕ) → is_name (reverse s) ≡ is_name s
is_name-reverse [] = refl
is_name-reverse (c ∷ s) =
    ap is_name (reverse-cons c s)
    ∙ ground (arith, is_name-append (reverse s) (c ∷ []), is_name-reverse s)

-- `back` leaves a directory for the one above it.
pub back-written :
    (s : List ℕ) (ss : List (List ℕ))
    → is_name s ≡ true
    → back (reverse s ++ written ss) ≡ written ss
back-written s [] h = back-append (reverse s) [] (is_name-reverse s ∙ h)
back-written s (t ∷ ss) h =
    back-append (reverse s) (reverse t ++ written ss) (is_name-reverse s ∙ h)

copy-plain :
    (s out rest : List ℕ) → is_name s ≡ true → copy out (s ++ rest) ≡ copy (reverse_aux s out) rest
unfolding copy
copy-plain [] out rest h = refl
copy-plain (c ∷ s) out rest h =
    let plain : is_slash c ≡ false = ground arith in
    rw plain (copy-plain s (c ∷ out) rest (ground arith))

-- `copy` takes a name.
pub copy-name :
    (s out rest : List ℕ) (c : ℕ)
    → is_name s ≡ true
    → is_slash c ≡ true
    → copy out (s ++ c ∷ rest) ≡ (reverse s ++ out, c ∷ rest)
unfolding copy
copy-name s out rest c h e = copy-plain s out (c ∷ rest) h ∙ rw (e, reverse_aux-eq s out) refl

pub copy-end :
    (s out : List ℕ) → is_name s ≡ true → copy out (s ++ 0 ∷ []) ≡ (0 ∷ (reverse s ++ out), [])
unfolding copy
copy-end s out h = copy-plain s out (0 ∷ []) h ∙ rw (reverse_aux-eq s out) refl

pub look-name :
    (s rest : List ℕ) (x : ℕ)
    → is_name s ≡ true
    → kind s ≡ name
    → (x == 0 || is_slash x) ≡ true
    → look (s ++ x ∷ rest) ≡ no_dots
unfolding look
look-name [] rest x h k e = cc
look-name (c ∷ []) [] x h k e = ground arith
look-name (c ∷ []) (r ∷ rest) x h k e = ground arith
look-name (c ∷ d ∷ []) rest x h k e = ground arith
look-name (c ∷ d ∷ f ∷ s) rest x h k e = ground arith

-- A path is a name, with or without a slash and a path behind it.
abbrev pub Cases : List ℕ → Type 0
Cases cs =
    (s : List ℕ) × (is_name s ≡ true)
    × (((cs ≡ s) × (split cs ≡ (s, [])))
        ⊎ ((c : ℕ) × (rest : List ℕ) × (is_slash c ≡ true)
            × (no_nul rest ≡ true)
            × (cs ≡ s ++ c ∷ rest)
            × (split cs ≡ (s, (split rest).0 ∷ (split rest).1))))

pub split-Cases : (cs : List ℕ) → no_nul cs ≡ true → Cases cs
split-Cases [] h = ([], refl, inl (refl, refl))
split-Cases (c ∷ cs) h = elim (Bool-cases (is_slash c)) [
  | inl slash ↦ ([], refl, inr (c, cs, slash, ground arith, refl, rw slash refl))
  | inr plain ↦
      (let (s, ok_s, more) = split-Cases cs (ground arith) in
        (
          c ∷ s,
          ground arith,
          elim more [
            | inl (e, f) ↦ inl (ap (λ (r : List ℕ). c ∷ r) e, rw (plain, f) refl)
            | inr (d, rest, slash, clean, e, f) ↦
                inr (d, rest, slash, clean, ap (λ (r : List ℕ). c ∷ r) e, rw (plain, f) refl)
          ],
        ))
]
