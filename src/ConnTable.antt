-- ===== src/ConnTable.antt =====
-- The connection table of a work thread, http/connection.c. The calls of
-- `connection_table_lock` and `connection_table_unlock` that enclose the operations make each of
-- them one step.
pub mod Count
pub mod Search
pub mod Ops
use xxx.Prelude.{
  ℕ, zero, suc, ◌+◌, ◌-◌, Option, none, some, List, ltb, leb, ◌==◌, if◌then◌else◌, ◌>>=◌, get_elem?,
  set, replicate, length,
}

-- `connection_t`: the fields that the table writes, `id` and `magic`.
pub record Connection : Type 0 where
  pub id : ℕ
  pub magic : ℕ

abbrev pub connection_magic : ℕ
connection_magic = 0x87654321

-- `connection_table_t`. An entry of `table` is NULL, `none`, or a connection.
pub record Table : Type 0 where
  pub table : List (Option Connection)
  pub max : ℕ
  pub nfreed : ℕ
  pub freeid : ℕ

-- `connection_table_alloc`, where the two calls of malloc succeed; `none` is NULL.
pub alloc : ℕ → Option Table
alloc max =
    if ltb max 1
    then none
    else some (record { table = replicate max none; max = max; nfreed = max; freeid = 0 })

-- What `_st_get_free_id` returns: an id with the new `freeid`, or -1.
pub data FreeId : Type 0 where
  found : (id freeid : ℕ) → FreeId
  no_id : FreeId

-- `if (id >= (int)st->max) id = 0;`
pub wrap : Table → ℕ → ℕ
wrap t id = if leb t.max id then 0 else id

-- A round at the entry `id`, whose value is given, with what the rounds behind it return.
pub look : Table → ℕ → Option FreeId → Option (Option Connection) → Option FreeId
look t id rest none = none
look t id rest (some none) = some (found id (id + 1))
look t id rest (some (some s)) = if id + 1 == t.freeid then some no_id else rest

-- The loop of `_st_get_free_id`. The outer `none` is a read outside the table, or a loop that has
-- run through its fuel.
pub free_id_loop : ℕ → Table → ℕ → Option FreeId
unfolding wrap look
free_id_loop zero t id = none
free_id_loop (suc fuel) t id =
    look t (wrap t id) (free_id_loop fuel t (wrap t id + 1)) (get_elem? t.table (wrap t id))

-- `_st_get_free_id`: the loop visits each entry at most once from `freeid` to the end of the table,
-- and once more from its begin.
pub get_free_id : Table → Option FreeId
unfolding free_id_loop
get_free_id t = free_id_loop (t.max + t.max + 1) t t.freeid

-- The result of an operation: 0 with the new state, or -1.
pub data Result (A : Type 0) : Type 0 where
  ok : A → Result A
  error : Result A

-- The end of `connection_table_add`, for what the search returned.
pub store : Table → Connection → FreeId → Result (Table × Connection)
store t s no_id = error
store t s (found id freeid) =
    let s' : Connection = record { id = id; magic = connection_magic } in
    ok (record t { table = set t.table id (some s'); nfreed = t.nfreed - 1; freeid = freeid }, s')

-- `connection_table_add`: the new table, and the connection that has its id now.
pub add : Table → Connection → Option (Result (Table × Connection))
unfolding get_free_id store
add t s = if ltb t.nfreed 1 then some error else (do r ← get_free_id t; some (store t s r))

-- The entry that `connection_table_find` and `connection_table_del` read; the `none` inside is NULL.
-- An id outside the table (a negative one too) is refused, as if the entry were free.
pub entry : Table → ℕ → Option (Option Connection)
entry t id = if leb t.max id then some none else get_elem? t.table id

-- `assert(s->magic == _connection_MAGIC)`: `none` is the end of the program.
pub check_magic : Option Connection → Option (Option Connection)
check_magic none = some none
check_magic (some s) = if s.magic == connection_magic then some (some s) else none

-- `connection_table_find`
pub find : Table → ℕ → Option (Option Connection)
unfolding entry check_magic
find t id = entry t id >>= check_magic

-- The end of `connection_table_del`, for the entry.
pub clear : Table → ℕ → Option Connection → Result (Table × Connection)
clear t id none = error
clear t id (some s) =
    ok (record t { table = set t.table id none; nfreed = t.nfreed + 1 }, record s { magic = 0 })

-- `connection_table_del`. Beside the table it returns the connection, whose `magic` is 0 now.
pub del : Table → ℕ → Option (Result (Table × Connection))
unfolding entry clear
del t id = do s ← entry t id; some (clear t id s)
