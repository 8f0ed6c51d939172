-- ===== src/Fields/Methods.antt =====
-- The method that the search of `parse_method` sets.
use xxx.Prelude.{
  ℕ, ◌≡◌, ◌≤◌, ◌<◌, refl, true, false, Option, none, some, List, [], ◌∷◌, length, arith, ap, ◌∙◌,
  Bool-cases, inl, inr,
}
use xxx.Text.{char2num}
use xxx.Fields.{
  Entry, fill, empty_table, method_place, or_zero, method_calls, match_method, first_value, Method,
  method_connect, method_get, method_webdav, codes,
}
use xxx.Fields.Search.{matches, find, match_row-filled, method_place-of_lt, same_place2}

-- The row of a key that matches begins with the value of its call, for each of some calls.
abbrev FirstValues : (ℕ → Option Method) → List ℕ → ℕ → List (Entry Method × ℕ) → Type 0
FirstValues first name n [] = Unit
FirstValues first name n ((e, num) ∷ calls) =
    (matches e.key name n ≡ true → first (or_zero (method_place e.key)) ≡ some e.value)
    × FirstValues first name n calls

first_value-find :
    (first : ℕ → Option Method) (name : List ℕ) (n r : ℕ) (calls : List (Entry Method × ℕ))
    (v : Method)
    → ((e : Entry Method) → matches e.key name n ≡ true → r ≡ or_zero (method_place e.key))
    → FirstValues first name n calls
    → find name n calls ≡ some v
    → first r ≡ some v
first_value-find first name n r [] v h each e = cc
first_value-find first name n r ((e, num) ∷ calls) v h each f =
    elim (Bool-cases (matches e.key name n)) [
      | inl hit ↦
          (let here : some e.value ≡ some v = rw hit at f in ap first (h e hit) ∙ each.0 hit ∙ here)
      | inr miss ↦
          (let rest : find name n calls ≡ some v = rw miss at f in
            first_value-find first name n r calls v h each.1 rest)
    ]

abbrev method_row : ℕ → ℕ → Option (Entry Method)
method_row = fill (λ key. or_zero (method_place key)) empty_table method_calls

match_method-first :
    (name : List ℕ) (n r : ℕ)
    → 2 ≤ n
    → n < length name
    → method_place name ≡ some r
    → match_method name n ≡ some (first_value (method_row r) (find name n method_calls))
unfolding match_method
match_method-first name n r le lt e =
    rw
      (
        e,
        match_row-filled method_place method_calls name n r (unfold method_place char2num in refl)
            lt (λ entry h. same_place2 entry.key name n r le e h),
      )
      refl

-- Only COPY is not the first entry of its row with another method there.
method_calls-FirstValues :
    (name : List ℕ) (n : ℕ)
    → matches (codes "copy") name n ≡ false
    → FirstValues (λ k. first_value (method_row k) (some method_get)) name n method_calls
unfolding first_value fill method_place char2num
method_calls-FirstValues name n other = (
  (λ h. refl),
  (
    (λ h. cc),
    (
      (λ h. refl),
      (
        (λ h. refl),
        (
          (λ h. refl),
          (
            (λ h. refl),
            (
              (λ h. refl),
              (
                (λ h. refl),
                (
                  (λ h. refl),
                  (
                    (λ h. refl),
                    ((λ h. refl), ((λ h. refl), ((λ h. refl), ((λ h. refl), ((λ h. refl), tt))))),
                  ),
                ),
              ),
            ),
          ),
        ),
      ),
    ),
  ),
)

first_value-found :
    (name : List ℕ) (n r : ℕ) (o : Option Method)
    → find name n method_calls ≡ o
    → ((e : Entry Method) → matches e.key name n ≡ true → r ≡ or_zero (method_place e.key))
    → matches (codes "copy") name n ≡ false
    → first_value (method_row r) o ≡ o
unfolding first_value
first_value-found name n r none f h other = refl
first_value-found name n r (some v) f h other =
    first_value-find (λ k. first_value (method_row k) (some method_get)) name n r method_calls v h
      (method_calls-FirstValues name n other) f

find-copy :
    (name : List ℕ) (n : ℕ)
    → matches (codes "copy") name n ≡ true
    → (v : Method) × (find name n method_calls ≡ some v)
find-copy name n h = elim (Bool-cases (matches (codes "connect") name n)) [
  | inl hit ↦ (method_connect, rw hit refl)
  | inr miss ↦ (method_webdav, rw (miss, h) refl)
]

first_value-copy :
    (r : ℕ) (o : Option Method) (v : Method)
    → r ≡ or_zero (method_place (codes "copy"))
    → o ≡ some v
    → first_value (method_row r) o ≡ some method_connect
unfolding first_value fill method_place char2num
first_value-copy r o v place e =
    ap (λ k. first_value (method_row k) o) place
    ∙ ap (first_value (method_row (or_zero (method_place (codes "copy"))))) e

-- `parse_method` for a name of at least two characters with a byte behind it sets the method that a
-- search through all registered names finds, or none if there is no such name; but for the name COPY
-- it sets `HTTP_METHOD_CONNECT`, the method of the first entry of its row.
pub match_method-find :
    (name : List ℕ) (n : ℕ)
    → 2 ≤ n
    → n < length name
    → (matches (codes "copy") name n ≡ false
        → match_method name n ≡ some (find name n method_calls))
      × (matches (codes "copy") name n ≡ true → match_method name n ≡ some (some method_connect))
unfolding match_method
match_method-find name n le lt =
    let (r, e) = method_place-of_lt name (omega arith) in
    let first = match_method-first name n r le lt e in
    let placed = λ (entry : Entry Method) (h : matches entry.key name n ≡ true).
      same_place2 entry.key name n r le e h in
    (
      (λ other.
          first
          ∙ ap some (first_value-found name n r (find name n method_calls) refl placed other)),
      (λ copy.
          let (v, found) = find-copy name n copy in
          first
          ∙ ap some (
              first_value-copy r (find name n method_calls) v
                (placed (record { key = codes "copy"; value = method_webdav }) copy) found)),
    )
