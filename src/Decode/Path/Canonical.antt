-- ===== src/Decode/Path/Canonical.antt =====
-- What `http_decode_path` returns is a path without empty names and names of dots.
use xxx.Prelude.{
  ℕ, ◌≡◌, ◌≤◌, refl, true, ◌&&◌, Option, none, some, List, [], ◌∷◌, ◌++◌, length, reverse, arith,
  ap, ◌∙◌, sym, ◌⊎◌, inl, inr, Bool-cases,
}
use mathlib.Core.List.{append_assoc, append-nil, reverse-cons, reverse-append, reverse-reverse}
use xxx.Decode.Path.{is_slash, Result, ok, error, c_string, as_string, decode_path, max_decode_len}
use xxx.Decode.Path.Segments.{
  split, Kind, empty, dot, dots, name, kind, written, unslashed, finish, enter, resolve, is_name,
  no_nul, AreNames,
}
use xxx.Decode.Path.Resolve.{decode_path-resolve}

-- The directory of some names, the last one first, and the path of the last name itself.
abbrev pub dir : List (List ℕ) → List ℕ
dir [] = b'/' ∷ []
dir (s ∷ ss) = dir ss ++ (s ++ b'/' ∷ [])

abbrev pub file : List (List ℕ) → List ℕ
file [] = b'/' ∷ []
file (s ∷ ss) = dir ss ++ s

-- Each name is without slash and NUL, not empty, and not one of one or two dots.
abbrev pub IsCanonical : List ℕ → Type 0
IsCanonical p = (ss : List (List ℕ)) × AreNames ss × ((p ≡ dir ss) ⊎ (p ≡ file ss))

reverse-written : (ss : List (List ℕ)) → reverse (written ss) ≡ dir ss
reverse-written [] = refl
reverse-written (s ∷ ss) =
    reverse-cons b'/' (reverse s ++ written ss)
    ∙ ap (λ (r : List ℕ). r ++ b'/' ∷ [])
        (reverse-append (reverse s) (written ss)
          ∙ ap (λ (r : List ℕ). reverse (written ss) ++ r) (reverse-reverse s)
          ∙ ap (λ (r : List ℕ). r ++ s) (reverse-written ss))
    ∙ append_assoc (dir ss) s (b'/' ∷ [])

reverse-unslashed : (ss : List (List ℕ)) → reverse (unslashed ss) ≡ file ss
reverse-unslashed [] = refl
reverse-unslashed (s ∷ ss) =
    reverse-append (reverse s) (written ss)
    ∙ ap (λ (r : List ℕ). reverse (written ss) ++ r) (reverse-reverse s)
    ∙ ap (λ (r : List ℕ). r ++ s) (reverse-written ss)

c_string-append : (s t : List ℕ) → no_nul s ≡ true → c_string (s ++ t) ≡ s ++ c_string t
c_string-append [] t h = refl
c_string-append (c ∷ s) t h = ground (arith, c_string-append s t)

no_nul-append : (s t : List ℕ) → no_nul (s ++ t) ≡ (no_nul s && no_nul t)
no_nul-append [] t = refl
no_nul-append (c ∷ s) t = ground (arith, no_nul-append s t)

is_name-no_nul : (s : List ℕ) → is_name s ≡ true → no_nul s ≡ true
is_name-no_nul [] h = refl
is_name-no_nul (c ∷ s) h = ground (arith, is_name-no_nul s)

dir-no_nul : (ss : List (List ℕ)) → AreNames ss → no_nul (dir ss) ≡ true
dir-no_nul [] h = refl
dir-no_nul (s ∷ ss) h =
    let one = is_name-no_nul s h.0 in
    let more = dir-no_nul ss h.2 in
    no_nul-append (dir ss) (s ++ b'/' ∷ []) ∙ rw (more, no_nul-append s (b'/' ∷ []), one) refl

file-no_nul : (ss : List (List ℕ)) → AreNames ss → no_nul (file ss) ≡ true
file-no_nul [] h = refl
file-no_nul (s ∷ ss) h =
    no_nul-append (dir ss) s ∙ rw (dir-no_nul ss h.2, is_name-no_nul s h.0) refl

c_string-id : (s : List ℕ) → no_nul s ≡ true → c_string s ≡ s
c_string-id s h = ap c_string (sym (append-nil s)) ∙ c_string-append s [] h ∙ append-nil s

-- A result that is an error, or canonical.
abbrev Fine : Result → Type 0
Fine error = Unit
Fine (ok p) = IsCanonical p

dir-Fine : (ss : List (List ℕ)) → AreNames ss → Fine (as_string (ok (reverse (written ss))))
dir-Fine ss h =
    (ss, h, inl (ap c_string (reverse-written ss) ∙ c_string-id (dir ss) (dir-no_nul ss h)))

file-Fine : (ss : List (List ℕ)) → AreNames ss → Fine (as_string (ok (reverse (unslashed ss))))
file-Fine ss h =
    (ss, h, inr (ap c_string (reverse-unslashed ss) ∙ c_string-id (file ss) (file-no_nul ss h)))

finish-Fine :
    (ss : List (List ℕ)) (s : List ℕ) (k : Kind)
    → AreNames ss
    → is_name s ≡ true
    → kind s ≡ k
    → Fine (as_string (finish ss s k))
finish-Fine ss s empty h e f = dir-Fine ss h
finish-Fine ss s dot h e f = file-Fine ss h
finish-Fine [] s dots h e f = tt
finish-Fine (t ∷ []) s dots h e f = tt
finish-Fine (t ∷ u ∷ ss) s dots h e f = file-Fine (u ∷ ss) h.2
finish-Fine ss s name h e f = file-Fine (s ∷ ss) (e, f, h)

abbrev Entered : Option (List (List ℕ)) → Type 0
Entered none = Unit
Entered (some ss) = AreNames ss

enter-AreNames :
    (ss : List (List ℕ)) (s : List ℕ) (k : Kind)
    → AreNames ss
    → is_name s ≡ true
    → kind s ≡ k
    → Entered (enter ss s k)
enter-AreNames ss s empty h e f = h
enter-AreNames ss s dot h e f = h
enter-AreNames [] s dots h e f = tt
enter-AreNames (t ∷ ss) s dots h e f = h.2
enter-AreNames ss s name h e f = (e, f, h)

abbrev AllNames : List (List ℕ) → Type 0
AllNames [] = Unit
AllNames (s ∷ ss) = (is_name s ≡ true) × AllNames ss

resolve-Fine :
    (ss : List (List ℕ)) (s : List ℕ) (more : List (List ℕ))
    → AreNames ss
    → is_name s ≡ true
    → AllNames more
    → Fine (as_string (resolve ss s more))
unfolding resolve
resolve-Fine ss s [] h e all = finish-Fine ss s (kind s) h e refl
resolve-Fine ss s (t ∷ more) h e all =
    go (enter ss s (kind s)) (enter-AreNames ss s (kind s) h e refl)
      (λ ss' h'. resolve-Fine ss' t more h' all.0 all.1)
  where
    go :
        (o : Option (List (List ℕ)))
        → Entered o
        → ((ss' : List (List ℕ)) → AreNames ss' → Fine (as_string (resolve ss' t more)))
        → Fine (as_string (elim o [ none ↦ error | some ss' ↦ resolve ss' t more ]))
    go none h' ih = tt
    go (some ss') h' ih = ih ss' h'

split-AllNames :
    (cs : List ℕ) → no_nul cs ≡ true → (is_name (split cs).0 ≡ true) × AllNames (split cs).1
split-AllNames [] h = (refl, tt)
split-AllNames (c ∷ cs) h = elim (Bool-cases (is_slash c)) [
  | inl slash ↦ rw slash (refl, split-AllNames cs (ground arith))
  | inr plain ↦
      (let (one, more) = split-AllNames cs (ground arith) in rw plain (ground arith, more))
]

-- Where `http_decode_path` succeeds on a path that starts with a slash, without NUL and within the
-- length that is decoded, its result is canonical: slashes alone between names, none of them empty
-- or of one or two dots.
pub decode_path-IsCanonical :
    (c : ℕ) (cs p : List ℕ)
    → is_slash c ≡ true
    → no_nul cs ≡ true
    → length (c ∷ cs) ≤ max_decode_len
    → decode_path (c ∷ cs) ≡ some (ok p)
    → IsCanonical p
decode_path-IsCanonical c cs p h plain le e =
    let (one, more) = split-AllNames cs plain in
    let fine = resolve-Fine [] (split cs).0 (split cs).1 tt one more in
    let same : as_string (resolve [] (split cs).0 (split cs).1) ≡ ok p =
      ground (arith, decode_path-resolve c cs h plain le) in
    rw same at fine
