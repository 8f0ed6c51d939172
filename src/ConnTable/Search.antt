-- ===== src/ConnTable/Search.antt =====
-- `_st_get_free_id` finds a free entry wherever there is one.
use xxx.Prelude.{
  ℕ, zero, suc, ◌+◌, ◌-◌, ◌≤◌, ◌<◌, ◌≡◌, ◌≢◌, inl, inr, ◌⊎◌, false, Option, none, some, arith,
  length, get_elem?, get_elem?-of_lt, ap, ◌==◌,
}
use native.Mathlib.Decide.{ℕ_discrete, dec_lt}
use xxx.ConnTable.{Connection, Table, FreeId, found, wrap, look, free_id_loop, get_free_id}

-- What the search returns: a free entry, and where to go on the next time.
pub record Found (t : Table) (r : Option FreeId) : Type 0 where
  pub id : ℕ
  pub run : r ≡ some (found id (id + 1))
  pub free : get_elem? t.table id ≡ some none
  pub within : id < t.max

-- One round at an entry that is not the end of the search.
visit :
    (fuel : ℕ) (t : Table) (id i : ℕ) (x : Option Connection)
    → wrap t id ≡ i
    → i < t.max
    → get_elem? t.table i ≡ some x
    → (x ≢ none → (i + 1 == t.freeid) ≡ false)
    → (x ≢ none → Found t (free_id_loop fuel t (i + 1)))
    → Found t (free_id_loop (suc fuel) t id)
unfolding free_id_loop look
visit fuel t id i none here within e apart rest = record {
  id = i;
  run = rw (free_id_loop, here, e);
  free = e;
  within = within;
}
visit fuel t id i (some s) here within e apart rest =
    let busy : some s ≢ none = λ p. cc in rw (free_id_loop, here, e, apart busy) (rest busy)

wrap-lt : (t : Table) (id : ℕ) → id < t.max → wrap t id ≡ id
unfolding wrap
wrap-lt t id h = ground arith

wrap-end : (t : Table) (id : ℕ) → t.max ≤ id → wrap t id ≡ 0
unfolding wrap
wrap-end t id h = ground arith

-- From `id`, with a free entry `j` at or behind it and `freeid` not between them.
ahead :
    (fuel : ℕ) (t : Table) (id j : ℕ)
    → length t.table ≡ t.max
    → get_elem? t.table j ≡ some none
    → id ≤ j
    → j < t.max
    → j < id + fuel
    → (t.freeid ≤ id) ⊎ (j < t.freeid)
    → Found t (free_id_loop fuel t id)
ahead zero t id j size free lo hi enough apart = absurd (omega arith)
ahead (suc fuel) t id j size free lo hi enough apart =
    let (x, e) = get_elem?-of_lt t.table id (omega arith) in
    let next = λ (lt : id < j).
      ahead fuel t (id + 1) j size free (omega arith) hi (omega arith) (ground arith) in
    visit fuel t id id x (wrap-lt t id (omega arith)) (omega arith) e
      (λ ne. let lt : id < j = strict x e ne in ground arith) (λ ne. next (strict x e ne))
  where
    strict : (x : Option Connection) → get_elem? t.table id ≡ some x → x ≢ none → id < j
    strict x e ne = elim (ℕ_discrete id j) [
      | yes same ↦ absurd (ne (ground (arith, ap (get_elem? t.table) same)))
      | no apart' ↦ omega arith
    ]

-- From `id` behind `freeid`, with a free entry `j` in front of `freeid`: round the end of the table.
around :
    (fuel k : ℕ) (t : Table) (id j : ℕ)
    → length t.table ≡ t.max
    → get_elem? t.table j ≡ some none
    → j < t.freeid
    → t.freeid ≤ id
    → j < t.max
    → id + k ≡ t.max
    → k + t.max < fuel
    → Found t (free_id_loop fuel t id)
around zero k t id j size free lt le hi end enough = absurd (omega arith)
around (suc fuel) zero t id j size free lt le hi end enough =
    let (x, e) = get_elem?-of_lt t.table 0 (omega arith) in
    elim (ℕ_discrete j 0) [
      | yes first ↦
          visit fuel t id 0 x (wrap-end t id (omega arith)) (omega arith) e
            (λ ne. absurd (ne (ground (arith, ap (get_elem? t.table) first))))
            (λ ne. absurd (ne (ground (arith, ap (get_elem? t.table) first))))
      | no later ↦
          visit fuel t id 0 x (wrap-end t id (omega arith)) (omega arith) e (λ ne. ground arith)
            (λ ne. ahead fuel t (0 + 1) j size free (omega arith) hi (omega arith) (inr lt))
    ]
around (suc fuel) (suc k) t id j size free lt le hi end enough =
    let (x, e) = get_elem?-of_lt t.table id (omega arith) in
    visit fuel t id id x (wrap-lt t id (omega arith)) (omega arith) e (λ ne. ground arith)
      (λ ne. around fuel k t (id + 1) j size free lt (omega arith) hi (omega arith) (omega arith))

-- Where an entry is free, `_st_get_free_id` returns the id of a free entry, from any `freeid` within
-- the table.
pub get_free_id-Found :
    (t : Table) (j : ℕ)
    → length t.table ≡ t.max
    → t.freeid ≤ t.max
    → j < t.max
    → get_elem? t.table j ≡ some none
    → Found t (get_free_id t)
unfolding get_free_id
get_free_id-Found t j size start hi free = elim (dec_lt j t.freeid) [
  | yes p ↦
      around (t.max + t.max + 1) (t.max - t.freeid) t t.freeid j size free p (omega arith) hi
        (omega arith) (omega arith)
  | no p ↦
      ahead (t.max + t.max + 1) t t.freeid j size free (omega arith) hi (omega arith)
        (inl (omega arith))
]
