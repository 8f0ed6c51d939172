-- ===== src/ConnTable/Ops.antt =====
-- The operations of the connection table keep its invariant and do what they promise.
use xxx.Prelude.{
  ℕ, zero, suc, ◌+◌, ◌-◌, ◌≤◌, ◌<◌, ◌≡◌, refl, ◌≢◌, sym, ap, ◌∙◌, Option, none, some, List, arith,
  length, get_elem?, get_elem?-set_self, get_elem?-set_ne, get_elem?-lt, length-set,
  length-replicate, set, replicate, ◌==◌, if◌then◌else◌,
}
use mathlib.Core.Path.{subst}
use native.Mathlib.Decide.{ℕ_discrete}
use xxx.ConnTable.{
  Connection, connection_magic, Table, alloc, Result, ok, error, get_free_id, store, add, entry,
  check_magic, find, clear, del,
}
use xxx.ConnTable.Count.{
  free_entries, free_entries-replicate, free_entries-fill, free_entries-clear, free_entry,
}
use xxx.ConnTable.Search.{Found, get_free_id-Found}

-- An entry that is in use knows its id and carries the magic number.
abbrev pub IsEntry : ℕ → Option Connection → Type 0
IsEntry id none = Unit {0}
IsEntry id (some s) = (s.id ≡ id) × (s.magic ≡ connection_magic)

-- `max` entries, `nfreed` of them free, and `freeid` within the table or at its end.
pub record IsValid (t : Table) : Type 0 where
  pub size : length t.table ≡ t.max
  pub counted : free_entries t.table ≡ t.nfreed
  pub start : t.freeid ≤ t.max
  pub entries : (id : ℕ) (x : Option Connection) → get_elem? t.table id ≡ some x → IsEntry id x

-- What `connection_table_add` does to a table that is not full.
pub record Added (t : Table) (r : Option (Result (Table × Connection))) : Type 0 where
  pub after : Table
  pub id : ℕ
  pub run : r ≡ some (ok (after, record { id = id; magic = connection_magic }))
  pub was_free : get_elem? t.table id ≡ some none
  pub stored : find after id ≡ some (some (record { id = id; magic = connection_magic }))
  pub others : (j : ℕ) → id ≢ j → get_elem? after.table j ≡ get_elem? t.table j
  pub count : suc after.nfreed ≡ t.nfreed
  pub valid : IsValid after

get_elem?-replicate :
    (n i : ℕ) {x : Option Connection} → get_elem? (replicate n none) i ≡ some x → x ≡ none
get_elem?-replicate zero i e = ground arith
get_elem?-replicate (suc n) zero e = ground arith
get_elem?-replicate (suc n) (suc i) e = get_elem?-replicate n i e

-- The table that `connection_table_alloc` makes.
abbrev pub empty : ℕ → Table
empty max = record { table = replicate max none; max = max; nfreed = max; freeid = 0 }

empty-IsValid : (max : ℕ) → IsValid (empty max)
empty-IsValid max = record {
  size = length-replicate max none;
  counted = free_entries-replicate max;
  start = omega arith;
  entries = λ id x e. rw (get_elem?-replicate max id e) tt;
}

-- `connection_table_alloc` refuses a size of 0 and otherwise gives a valid table whose entries are
-- all free.
pub alloc_lem :
    (max : ℕ) → (alloc max ≡ (if max == 0 then none else some (empty max))) × IsValid (empty max)
unfolding alloc
alloc_lem max = (ground arith, empty-IsValid max)

set-entries :
    (t : List (Option Connection)) (i : ℕ) (v : Option Connection)
    → ((id : ℕ) (x : Option Connection) → get_elem? t id ≡ some x → IsEntry id x)
    → i < length t
    → IsEntry i v
    → (id : ℕ) (x : Option Connection) → get_elem? (set t i v) id ≡ some x
    → IsEntry id x
set-entries t i v all lt good id x e = elim (ℕ_discrete i id) [
  | yes same ↦
      let vx : v ≡ x = cc (get_elem?-set_self t i v lt, ap (get_elem? (set t i v)) same) in
      subst (λ k. IsEntry k x) same (subst (IsEntry i) vx good)
  | no ne ↦ all id x (sym (get_elem?-set_ne t v ne) ∙ e)
]

find-set_self :
    (t : Table) (i : ℕ) (freeid nfreed : ℕ)
    → i < t.max
    → i < length t.table
    → let s : Connection = record { id = i; magic = connection_magic } in
      find (record t { table = set t.table i (some s); nfreed = nfreed; freeid = freeid }) i
      ≡ some (some s)
unfolding find entry check_magic
find-set_self t i freeid nfreed within lt = ground (arith, get_elem?-set_self t.table i (some s) lt)
  where
    s : Connection
    s = record { id = i; magic = connection_magic }

add-store :
    {t : Table} (s : Connection)
    → IsValid t
    → 0 < t.nfreed
    → Found t (get_free_id t)
    → Added t (add t s)
unfolding add store
add-store {t} s v room f =
    let lt = get_elem?-lt t.table f.id none f.free in
    let v' : Connection = record { id = f.id; magic = connection_magic } in
    let fill = free_entries-fill t.table f.id v' f.free in
    record {
      after = record t {
        table = set t.table f.id (some v');
        nfreed = t.nfreed - 1;
        freeid = f.id + 1;
      };
      id = f.id;
      run = rw f.run (ground arith);
      was_free = f.free;
      stored = find-set_self t f.id (f.id + 1) (t.nfreed - 1) f.within lt;
      others = λ j ne. get_elem?-set_ne t.table (some v') ne;
      count = omega arith;
      valid = record {
        size = length-set t.table f.id (some v') ∙ v.size;
        counted = omega (arith, v.counted);
        start = omega (arith, f.within);
        entries = set-entries t.table f.id (some v') v.entries lt (refl, refl);
      };
    }

-- On a valid table that is not full, `connection_table_add` succeeds: the loop ends, the connection
-- gets the id of an entry that was free, `connection_table_find` finds it there, no other entry
-- changes, `nfreed` goes down by one and the table stays valid.
pub add-Added : {t : Table} (s : Connection) → IsValid t → 0 < t.nfreed → Added t (add t s)
add-Added {t} s v room =
    let (j, free, lt) = free_entry t.table (omega (arith, v.counted)) in
    add-store s v room (get_free_id-Found t j v.size v.start (omega (arith, v.size)) free)

-- On a table with no free entry it reports the error.
pub add-full : (t : Table) (s : Connection) → t.nfreed ≡ 0 → add t s ≡ some error
unfolding add
add-full t s e = ground arith

-- What `connection_table_del` does to an entry that is in use.
pub record Deleted (t : Table) (id : ℕ) (s : Connection) (r : Option (Result (Table × Connection)))
    : Type 0 where
  pub after : Table
  pub run : r ≡ some (ok (after, record s { magic = 0 }))
  pub gone : find after id ≡ some none
  pub others : (j : ℕ) → id ≢ j → get_elem? after.table j ≡ get_elem? t.table j
  pub count : after.nfreed ≡ suc t.nfreed
  pub valid : IsValid after

del-clear :
    (t : Table) (id : ℕ) (s : Connection)
    → id < t.max
    → get_elem? t.table id ≡ some (some s)
    → del t id
      ≡ some (
          ok (
            record t { table = set t.table id none; nfreed = t.nfreed + 1 },
            record s { magic = 0 },
          ))
unfolding del entry clear
del-clear t id s within e = ground arith

find-clear :
    (t : Table) (id nfreed : ℕ)
    → id < length t.table
    → find (record t { table = set t.table id none; nfreed = nfreed }) id ≡ some none
unfolding find entry check_magic
find-clear t id nfreed lt = ground (arith, get_elem?-set_self t.table id none lt)

-- Deleting the id of an entry in use succeeds on a valid table: the entry is free afterwards, no
-- other changes, `nfreed` goes up by one, the connection's magic number is wiped and the table
-- stays valid.
pub del-Deleted :
    {t : Table} (id : ℕ) (s : Connection)
    → IsValid t
    → get_elem? t.table id ≡ some (some s)
    → Deleted t id s (del t id)
del-Deleted {t} id s v used =
    let lt = get_elem?-lt t.table id (some s) used in
    record {
      after = record t { table = set t.table id none; nfreed = t.nfreed + 1 };
      run = del-clear t id s (omega (arith, v.size)) used;
      gone = find-clear t id (t.nfreed + 1) lt;
      others = λ j ne. get_elem?-set_ne t.table none ne;
      count = omega arith;
      valid = record {
        size = length-set t.table id none ∙ v.size;
        counted = omega (arith, v.counted, free_entries-clear t.table id s used);
        start = v.start;
        entries = set-entries t.table id none v.entries lt tt;
      };
    }

find-entry : (x : Option Connection) (id : ℕ) → IsEntry id x → check_magic x ≡ some x
unfolding check_magic
find-entry none id h = refl
find-entry (some s) id h = ground arith

-- On a valid table neither the bounds nor the assertion of `connection_table_find` fail: it returns
-- the entry of an id within the table, and NULL for any other id.
pub find_lem :
    {t : Table} (id : ℕ) (x : Option Connection)
    → IsValid t
    → get_elem? t.table id ≡ some x
    → (find t id ≡ some x) × (find t (t.max + id) ≡ some none)
unfolding find entry check_magic
find_lem {t} id x v e =
    let lt = get_elem?-lt t.table id x e in
    let size = v.size in (ground (arith, find-entry x id (v.entries id x e)), outside)
  where
    outside : find t (t.max + id) ≡ some none
    outside = ground arith
