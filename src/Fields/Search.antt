-- ===== src/Fields/Search.antt =====
-- The tables find what a search through all names finds.
use xxx.Prelude.{
  ℕ, zero, suc, ◌+◌, ◌*◌, ◌==◌, ◌≡◌, ◌⊎◌, ◌≤◌, ◌<◌, refl, Bool, true, false, ◌&&◌, Option, none,
  some, List, [], ◌∷◌, if◌then◌else◌, length, get_elem?, arith, ap, ◌∙◌, Bool-cases, inl, inr,
  ==_iff, drop, get_elem?-of_lt,
}
use xxx.Decode.Digit.{to_lower}
use xxx.Text.{char2num}
use xxx.Fields.{
  Entry, fill, empty_table, same_nocase, clean_str_cmp, ends_name, match_row, table_mix,
  header_place, method_place, or_zero, header_calls, match_header,
}
use xxx.Fields.Rows.{row_of, numbered, fill-row_of}

-- A name of `n` characters is the key, in upper or lower case, and a separator stands behind it.
abbrev pub matches : List ℕ → List ℕ → ℕ → Bool
matches key name n =
    length key == n
    && same_nocase key name
    && (elim (get_elem? name n) [ none ↦ false | some c ↦ ends_name c ])

clean_str_cmp-matches :
    (name key : List ℕ) (n : ℕ)
    → n < length name
    → length key ≡ n
    → clean_str_cmp name n key ≡ some (matches key name n)
unfolding clean_str_cmp
clean_str_cmp-matches name key n lt e =
    let (c, at) = get_elem?-of_lt name n lt in
    let at_key : get_elem? name (length key) ≡ some c = ap (get_elem? name) e ∙ at in ground arith

drop-get_elem? :
    {A : Type 0} (xs : List A) (i : ℕ)
    → ((get_elem? xs i ≡ none) × (drop i xs ≡ []))
      ⊎ ((x : A) × (get_elem? xs i ≡ some x) × (drop i xs ≡ x ∷ drop (suc i) xs))
drop-get_elem? [] zero = inl (refl, refl)
drop-get_elem? [] (suc i) = inl (refl, refl)
drop-get_elem? (x ∷ xs) zero = inr (x, refl, refl)
drop-get_elem? (x ∷ xs) (suc i) = drop-get_elem? xs i

drop-of_le : {A : Type 0} (xs : List A) (i : ℕ) → length xs ≤ i → drop i xs ≡ []
drop-of_le [] zero h = refl
drop-of_le [] (suc i) h = refl
drop-of_le (x ∷ xs) zero h = absurd (omega arith)
drop-of_le (x ∷ xs) (suc i) h = drop-of_le xs i (omega arith)

if_some :
    {A : Type 0} (b : Bool) (x y : Option A)
    → (if b then some x else some y) ≡ some (if b then x else y)
if_some true x y = refl
if_some false x y = refl

module _ {V : Type 0} where
  -- The first entry of a list whose key matches.
  abbrev pub find : List ℕ → ℕ → List (Entry V × ℕ) → Option V
  find name n [] = none
  find name n ((e, num) ∷ calls) = if matches e.key name n then some e.value else find name n calls

  abbrev find_in : List ℕ → ℕ → List (Entry V) → Option V
  find_in name n [] = none
  find_in name n (e ∷ es) = if matches e.key name n then some e.value else find_in name n es

  match_row-none :
      (rounds : ℕ) (row : ℕ → Option (Entry V)) (i : ℕ) (name : List ℕ) (n : ℕ)
      → row i ≡ none
      → match_row (suc rounds) i row name n ≡ some none
  unfolding match_row
  match_row-none rounds row i name n e = rw (e, match_row) refl

  match_row-some :
      (rounds : ℕ) (row : ℕ → Option (Entry V)) (i : ℕ) (name : List ℕ) (n : ℕ) (e : Entry V)
      → n < length name
      → row i ≡ some e
      → match_row (suc rounds) i row name n ≡ (
          if matches e.key name n then some (some e.value) else match_row rounds (suc i) row name n)
  unfolding match_row
  match_row-some rounds row i name n e lt here = elim (Bool-cases (length e.key == n)) [
    | inl fits ↦
        rw (here, match_row)
          (ground (arith, fits, clean_str_cmp-matches name e.key n lt (ground arith)))
    | inr misfit ↦ rw (here, match_row) (ground (arith, misfit))
  ]

  match_row-find :
      (rounds : ℕ) (row : ℕ → Option (Entry V)) (es : List (Entry V)) (i : ℕ) (name : List ℕ)
      (n : ℕ)
      → n < length name
      → ((j : ℕ) → row j ≡ get_elem? es j)
      → length es ≤ i + rounds
      → match_row rounds i row name n ≡ some (find_in name n (drop i es))
  unfolding match_row
  match_row-find zero row es i name n lt same h = rw (drop-of_le es i (omega arith)) refl
  match_row-find (suc rounds) row es i name n lt same h = elim (drop-get_elem? es i) [
    | inl (gone, end) ↦ match_row-none rounds row i name n (same i ∙ gone) ∙ rw end refl
    | inr (e, at, rest) ↦
        match_row-some rounds row i name n e lt (same i ∙ at)
        ∙ rw (rest, match_row-find rounds row es (suc i) name n lt same (omega arith))
            (if_some (matches e.key name n) (some e.value) (find_in name n (drop (suc i) es)))
  ]

  -- A name that matches stands in the row of its key.
  find_in-row_of :
      (place : List ℕ → ℕ) (name : List ℕ) (n r : ℕ) (calls : List (Entry V × ℕ))
      → ((e : Entry V) → matches e.key name n ≡ true → r ≡ place e.key)
      → find_in name n (row_of place r calls) ≡ find name n calls
  find_in-row_of place name n r [] h = refl
  find_in-row_of place name n r ((e, num) ∷ calls) h = elim (Bool-cases (matches e.key name n)) [
    | inl hit ↦
        (let here : (r == place e.key) ≡ true = (==_iff r (place e.key)).1 (h e hit) in
          rw (here, hit) refl)
    | inr miss ↦ rw miss (elim (Bool-cases (r == place e.key)) [
      | inl here ↦ rw (here, miss) (find_in-row_of place name n r calls h)
      | inr there ↦ rw there (find_in-row_of place name n r calls h)
    ])
  ]

char2num-nocase : (a x : ℕ) → (to_lower x == to_lower a) ≡ true → char2num x ≡ char2num a
unfolding char2num
char2num-nocase a x h = ground arith

same_place3 :
    (key name : List ℕ) (n r : ℕ)
    → 3 ≤ n
    → header_place name ≡ some r
    → matches key name n ≡ true
    → r ≡ or_zero (header_place key)
unfolding header_place same_nocase
same_place3 (a ∷ b ∷ c ∷ key) (x ∷ y ∷ z ∷ name) n r le e h =
    let p = char2num-nocase a x (ground arith) in
    let q = char2num-nocase b y (ground arith) in
    let s = char2num-nocase c z (ground arith) in ground arith
same_place3 (a ∷ b ∷ c ∷ key) (x ∷ y ∷ []) n r le e h = ground arith
same_place3 (a ∷ b ∷ c ∷ key) (x ∷ []) n r le e h = ground arith
same_place3 (a ∷ b ∷ c ∷ key) [] n r le e h = ground arith
same_place3 (a ∷ b ∷ []) name n r le e h = ground arith
same_place3 (a ∷ []) name n r le e h = ground arith
same_place3 [] name n r le e h = ground arith

pub same_place2 :
    (key name : List ℕ) (n r : ℕ)
    → 2 ≤ n
    → method_place name ≡ some r
    → matches key name n ≡ true
    → r ≡ or_zero (method_place key)
unfolding method_place same_nocase
same_place2 (a ∷ b ∷ key) (x ∷ y ∷ name) n r le e h =
    let p = char2num-nocase a x (ground arith) in
    let q = char2num-nocase b y (ground arith) in ground arith
same_place2 (a ∷ b ∷ key) (x ∷ []) n r le e h = ground arith
same_place2 (a ∷ b ∷ key) [] n r le e h = ground arith
same_place2 (a ∷ []) name n r le e h = ground arith
same_place2 [] name n r le e h = ground arith

-- What the two tables have in common.
pub match_row-filled :
    {V : Type 0} (place : List ℕ → Option ℕ) (calls : List (Entry V × ℕ)) (name : List ℕ) (n r : ℕ)
    → numbered (λ key. or_zero (place key)) table_mix [] calls ≡ true
    → n < length name
    → ((e : Entry V) → matches e.key name n ≡ true → r ≡ or_zero (place e.key))
    → match_row table_mix 0 (fill (λ key. or_zero (place key)) empty_table calls r) name n
      ≡ some (find name n calls)
match_row-filled place calls name n r ok lt h =
    let at = λ (key : List ℕ). or_zero (place key) in
    let (row, le) = fill-row_of at table_mix calls ok r in
    match_row-find table_mix (fill at empty_table calls r) (row_of at r calls) 0 name n lt row
      (omega arith)
    ∙ ap some (find_in-row_of at name n r calls h)

header_place-of_lt : (name : List ℕ) → 2 < length name → (r : ℕ) × (header_place name ≡ some r)
unfolding header_place
header_place-of_lt (a ∷ b ∷ c ∷ name) h = ((char2num a * 27 + char2num b) * 27 + char2num c, refl)
header_place-of_lt (a ∷ b ∷ []) h = absurd (omega arith)
header_place-of_lt (a ∷ []) h = absurd (omega arith)
header_place-of_lt [] h = absurd (omega arith)

pub method_place-of_lt : (name : List ℕ) → 1 < length name → (r : ℕ) × (method_place name ≡ some r)
unfolding method_place
method_place-of_lt (a ∷ b ∷ name) h = (char2num a * 27 + char2num b, refl)
method_place-of_lt (a ∷ []) h = absurd (omega arith)
method_place-of_lt [] h = absurd (omega arith)

-- For a name of at least three characters with a byte behind it, `http_match_header_table` calls the
-- parser that a search through all registered names finds: the one whose name is the same in upper
-- or lower case, if a separator stands behind it, and none if there is no such name.
pub match_header-find :
    (name : List ℕ) (n : ℕ)
    → 3 ≤ n
    → n < length name
    → match_header name n ≡ some (find name n header_calls)
unfolding match_header
match_header-find name n le lt =
    let (r, e) = header_place-of_lt name (omega arith) in
    rw e (
      match_row-filled header_place header_calls name n r (unfold header_place char2num in refl) lt
        (λ entry h. same_place3 entry.key name n r le e h))
