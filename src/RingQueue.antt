-- ===== src/RingQueue.antt =====
-- The ring buffer of http/queue.c. An object of `objsize` bytes is a value of a type; `memcpy` of an
-- object sets a slot. The mutex makes each operation one step. `malloc` does not fail.
pub mod Order
pub mod Ops
use xxx.Prelude.{
  ℕ, zero, suc, ◌+◌, ◌%◌, ◌==◌, Bool, true, false, Option, none, some, List, length, replicate, set,
  get_elem?, if◌then◌else◌, ◌>>=◌,
}

-- `queue_t`: the objects behind `pBase`, and the two indices.
pub record Queue (A : Type 0) : Type 0 where
  pub slots : List A
  pub front : ℕ
  pub rear : ℕ
  pub maxsize : ℕ

module _ {A : Type 0} where
  -- `Createqueue`, for what `malloc` left in the objects.
  pub create : ℕ → A → Queue A
  create max fresh = record { slots = replicate max fresh; front = 0; rear = 0; maxsize = max }

  -- `Fullqueue`
  pub is_full : Queue A → Bool
  is_full q = q.front == (q.rear + 1) % q.maxsize

  -- `Emptyqueue`
  pub is_empty : Queue A → Bool
  is_empty q = q.front == q.rear

  -- `_Enqueue`: the new queue, and whether the value was taken (0) or not (-1).
  unfoldable pub enqueue : Queue A → A → Queue A × Bool
  unfolding is_full
  enqueue q val =
      if is_full q
      then (q, false)
      else (record q { slots = set q.slots q.rear val; rear = (q.rear + 1) % q.maxsize }, true)

  -- `_Dequeue`: the new queue, and the slot that the pointer names; `none` is NULL.
  unfoldable pub dequeue : Queue A → Queue A × Option ℕ
  unfolding is_empty
  dequeue q =
      if is_empty q
      then (q, none)
      else (record q { front = (q.front + 1) % q.maxsize }, some q.front)

  -- The loop of `Traversequeue` from `i`: the number of rounds; `none` means that the fuel ran out.
  pub traverse_loop : ℕ → Queue A → ℕ → Option ℕ
  traverse_loop zero q i = none
  traverse_loop (suc fuel) q i =
      let rest = (do n ← traverse_loop fuel q (i + 1); some (suc n)) in
      if i % q.maxsize == q.rear then some 0 else rest

  -- `Traversequeue`
  unfoldable pub traverse : Queue A → Option ℕ
  unfolding traverse_loop
  traverse q = traverse_loop (suc q.maxsize) q q.front
