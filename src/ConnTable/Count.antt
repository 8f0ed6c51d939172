-- ===== src/ConnTable/Count.antt =====
-- The number of free entries of a table.
use xxx.Prelude.{
  ℕ, zero, suc, ◌<◌, ◌≡◌, refl, Option, none, some, List, [], ◌∷◌, arith, length, get_elem?, set,
  replicate,
}
use xxx.ConnTable.{Connection}

abbrev pub free_entries : List (Option Connection) → ℕ
free_entries [] = 0
free_entries (none ∷ t) = suc (free_entries t)
free_entries (some s ∷ t) = free_entries t

pub free_entries-replicate : (n : ℕ) → free_entries (replicate n none) ≡ n
free_entries-replicate zero = refl
free_entries-replicate (suc n) = omega (arith, free_entries-replicate n)

-- Filling a free entry.
pub free_entries-fill :
    (t : List (Option Connection)) (i : ℕ) (s : Connection)
    → get_elem? t i ≡ some none
    → suc (free_entries (set t i (some s))) ≡ free_entries t
free_entries-fill [] i s e = ground arith
free_entries-fill (none ∷ t) zero s e = refl
free_entries-fill (some r ∷ t) zero s e = ground arith
free_entries-fill (none ∷ t) (suc i) s e = omega (arith, free_entries-fill t i s e)
free_entries-fill (some r ∷ t) (suc i) s e = free_entries-fill t i s e

-- Clearing a used entry.
pub free_entries-clear :
    (t : List (Option Connection)) (i : ℕ) (s : Connection)
    → get_elem? t i ≡ some (some s)
    → free_entries (set t i none) ≡ suc (free_entries t)
free_entries-clear [] i s e = ground arith
free_entries-clear (none ∷ t) zero s e = ground arith
free_entries-clear (some r ∷ t) zero s e = refl
free_entries-clear (none ∷ t) (suc i) s e = omega (arith, free_entries-clear t i s e)
free_entries-clear (some r ∷ t) (suc i) s e = free_entries-clear t i s e

-- Where a free entry is counted, there is one.
pub free_entry :
    (t : List (Option Connection))
    → 0 < free_entries t
    → (i : ℕ) × (get_elem? t i ≡ some none) × (i < length t)
free_entry [] h = absurd (omega arith)
free_entry (none ∷ t) h = (0, refl, omega arith)
free_entry (some s ∷ t) h = let (i, e, l) = free_entry t h in (suc i, e, omega arith)
