-- ===== src/Tests/Connections.antt =====
-- A connection table (http/connection.c) of two entries.
use xxx.Prelude.{ℕ, zero, suc, ◌≡◌, refl, Option, none, some, [], ◌∷◌, arith, get_elem?}
use xxx.ConnTable.{Connection, connection_magic, Table, add, del, error}
use xxx.ConnTable.Ops.{IsEntry, IsValid, Added, Deleted, add-Added, add-full, del-Deleted}

abbrev fresh : Connection
fresh = record { id = 0; magic = 0 }

abbrev used : Connection
used = record { id = 1; magic = connection_magic }

-- The entry 1 is in use, and the search goes on at the end of the table.
abbrev one_used : Table
one_used = record { table = none ∷ some used ∷ []; max = 2; nfreed = 1; freeid = 2 }

one_used-IsValid : IsValid one_used
one_used-IsValid = record { size = refl; counted = refl; start = omega arith; entries = all }
  where
    all : (id : ℕ) (x : Option Connection) → get_elem? one_used.table id ≡ some x → IsEntry id x
    all zero none e = tt
    all zero (some s) e = cc
    all (suc zero) none e = tt
    all (suc zero) (some s) e = ground arith
    all (suc (suc id)) x e = ground arith

add-Added_example : Added one_used (add one_used fresh)
add-Added_example = add-Added fresh one_used-IsValid (omega arith)

add-full_example : add (record one_used { nfreed = 0 }) fresh ≡ some error
add-full_example = add-full (record one_used { nfreed = 0 }) fresh refl

del-Deleted_example : Deleted one_used 1 used (del one_used 1)
del-Deleted_example = del-Deleted 1 used one_used-IsValid refl
