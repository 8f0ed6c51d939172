-- ===== src/Parse/Types.antt =====
-- The type that `http_get_content_type` finds in a value.
use xxx.Prelude.{
  ℕ, ◌==◌, ◌≡◌, ◌≤◌, refl, Bool, true, false, ◌&&◌, ◌||◌, Option, some, List, [], ◌∷◌, ◌++◌,
  if◌then◌else◌, length, ltb, arith, get_elem?, Bool-cases, inl, inr,
}
use xxx.Decode.Digit.{to_lower}
use xxx.Text.Find.{lacks}
use xxx.Fields.{same_nocase}
use xxx.Parse.Content.{ContentType, na, match_type, ends_type}

-- The text is this name, in any case, with nothing or a blank, a CR or a NUL behind it.
abbrev pub is_type : List ℕ → List ℕ → Bool
is_type [] [] = true
is_type [] (c ∷ t) = c == b' ' || c == 13 || c == 0
is_type (k ∷ name) [] = false
is_type (k ∷ name) (c ∷ t) = to_lower c == to_lower k && is_type name t

-- The first type whose name the text is.
abbrev pub find_type : List (List ℕ × ContentType) → List ℕ → ContentType
find_type [] t = na
find_type ((name, id) ∷ types) t = if is_type name t then id else find_type types t

is_type-longer : (name t : List ℕ) → ltb (length t) (length name) ≡ true → is_type name t ≡ false
is_type-longer [] t h = ground arith
is_type-longer (k ∷ name) [] h = refl
is_type-longer (k ∷ name) (c ∷ t) h = ground (arith, is_type-longer name t)

-- The byte behind the name decides for a text that a semicolon follows.
is_type-ends_type :
    (name t rest : List ℕ)
    → lacks b';' t ≡ true
    → length name ≤ length t
    → (c : ℕ) × ((get_elem? (t ++ b';' ∷ rest) (length name) ≡ some c)
        × ((same_nocase name (t ++ b';' ∷ rest) && ends_type c) ≡ is_type name t))
unfolding same_nocase
is_type-ends_type [] [] rest h le = (b';', (refl, refl))
is_type-ends_type [] (c ∷ t) rest h le = (c, (refl, ground arith))
is_type-ends_type (k ∷ name) [] rest h le = absurd (omega arith)
is_type-ends_type (k ∷ name) (c ∷ t) rest h le =
    let (d, (e, r)) = is_type-ends_type name t rest (ground arith) (omega arith) in
    (d, (e, ground arith))

some-if :
    (b : Bool) (r : Option ContentType) (x y : ContentType)
    → r ≡ some y
    → (if b then some x else r) ≡ some (if b then x else y)
some-if true r x y e = refl
some-if false r x y e = e

-- For a text without a semicolon in front of one, the loop finds the type that the text names.
pub match_type-find_type :
    (types : List (List ℕ × ContentType)) (t rest : List ℕ)
    → lacks b';' t ≡ true
    → match_type types (t ++ b';' ∷ rest) (length t) ≡ some (find_type types t)
unfolding match_type
match_type-find_type [] t rest h = refl
match_type-find_type ((name, id) ∷ types) t rest h =
    let begin = t ++ b';' ∷ rest in
    let later = match_type-find_type types t rest h in
    elim (Bool-cases (ltb (length t) (length name))) [
      | inl long ↦ let no = is_type-longer name t long in rw (long, no) later
      | inr short ↦
          let (c, (e, r)) = is_type-ends_type name t rest h (ground arith) in
          elim (Bool-cases (same_nocase name begin)) [
            | inl here ↦
                let end : ends_type c ≡ is_type name t = ground arith in
                rw (short, here, e, end)
                  (some-if (is_type name t) (match_type types begin (length t)) id
                    (find_type types t) later)
            | inr other ↦
                let no : is_type name t ≡ false = ground arith in rw (short, other, no) later
          ]
    ]
