-- ===== src/Fields/Rows.antt =====
-- What the rows of a table hold after the calls that fill it.
use xxx.Prelude.{
  ℕ, zero, suc, ◌==◌, ◌≡◌, ◌≤◌, ◌<◌, refl, Bool, true, ◌&&◌, some, List, [], ◌∷◌, ◌++◌,
  if◌then◌else◌, length, get_elem?, ltb, arith, ap, ◌∙◌, sym, Bool-cases, inl, inr, length-append,
}
use mathlib.Core.List.{append_assoc, append-nil}
use xxx.Fields.{Entry, Table, write, fill, empty_table}

get_elem?-snoc :
    {A : Type 0} (xs : List A) (v : A) (i : ℕ)
    → get_elem? (xs ++ v ∷ []) i ≡ (if i == length xs then some v else get_elem? xs i)
get_elem?-snoc [] v zero = refl
get_elem?-snoc [] v (suc i) = ground arith
get_elem?-snoc (x ∷ xs) v zero = ground arith
get_elem?-snoc (x ∷ xs) v (suc i) = ground (arith, get_elem?-snoc xs v i)

module _ {V : Type 0} (place : List ℕ → ℕ) where
  -- The entries of a row among the calls, in their order.
  abbrev pub row_of : ℕ → List (Entry V × ℕ) → List (Entry V)
  row_of r [] = []
  row_of r ((e, num) ∷ calls) = if r == place e.key then e ∷ row_of r calls else row_of r calls

  row_of-append :
      (r : ℕ) (xs ys : List (Entry V × ℕ)) → row_of r (xs ++ ys) ≡ row_of r xs ++ row_of r ys
  row_of-append r [] ys = refl
  row_of-append r ((e, num) ∷ xs) ys = ground (arith, row_of-append r xs ys)

  -- Each call uses the next free entry of its row, and no row has more than `mix` entries.
  abbrev pub numbered : ℕ → List (Entry V × ℕ) → List (Entry V × ℕ) → Bool
  numbered mix before [] = true
  numbered mix before ((e, num) ∷ calls) =
      num == length (row_of (place e.key) before)
      && ltb num mix
      && numbered mix (before ++ (e, num) ∷ []) calls

  abbrev Filled : ℕ → Table V → List (Entry V × ℕ) → Type 0
  Filled mix t calls =
      (r : ℕ) → ((i : ℕ) → t r i ≡ get_elem? (row_of r calls) i) × (length (row_of r calls) ≤ mix)

  Filled-write :
      (mix : ℕ) (t : Table V) (before : List (Entry V × ℕ)) (e : Entry V) (num : ℕ)
      → num ≡ length (row_of (place e.key) before)
      → num < mix
      → Filled mix t before
      → Filled mix (write t (place e.key) num e) (before ++ (e, num) ∷ [])
  unfolding write
  Filled-write mix t before e num free small h r = elim (Bool-cases (r == place e.key)) [
    | inl here ↦
        (let row : row_of r (before ++ (e, num) ∷ []) ≡ row_of r before ++ e ∷ [] =
            row_of-append r before ((e, num) ∷ []) ∙ rw here refl in
          let same : r ≡ place e.key = ground arith in
          let count : num ≡ length (row_of r before) =
            free ∙ ap (λ k. length (row_of k before)) (sym same) in
          (
            (λ i.
                rw (here, row)
                  (ground (arith, count, get_elem?-snoc (row_of r before) e i, (h r).0 i))),
            rw row (omega (arith, count, length-append (row_of r before) (e ∷ []))),
          ))
    | inr elsewhere ↦
        (let row : row_of r (before ++ (e, num) ∷ []) ≡ row_of r before =
            row_of-append r before ((e, num) ∷ []) ∙ rw elsewhere (append-nil (row_of r before)) in
          ((λ i. rw (elsewhere, row) ((h r).0 i)), rw row (h r).1))
  ]

  fill-Filled :
      (mix : ℕ) (t : Table V) (before calls : List (Entry V × ℕ))
      → numbered mix before calls ≡ true
      → Filled mix t before
      → Filled mix (fill place t calls) (before ++ calls)
  unfolding fill
  fill-Filled mix t before [] h f = rw (append-nil before) f
  fill-Filled mix t before ((e, num) ∷ calls) h f =
      let free : num ≡ length (row_of (place e.key) before) = ground arith in
      let small : num < mix = ground arith in
      rw (← append_assoc before ((e, num) ∷ []) calls) (
        fill-Filled mix (write t (place e.key) num e) (before ++ (e, num) ∷ []) calls (ground arith)
          (Filled-write mix t before e num free small f))

  -- From an empty table, each row holds its entries in the order of the calls.
  pub fill-row_of :
      (mix : ℕ) (calls : List (Entry V × ℕ))
      → numbered mix [] calls ≡ true
      → (r : ℕ)
      → ((i : ℕ) → fill place empty_table calls r i ≡ get_elem? (row_of r calls) i)
        × (length (row_of r calls) ≤ mix)
  fill-row_of mix calls h = fill-Filled mix empty_table [] calls h (λ r. ((λ i. refl), omega arith))
