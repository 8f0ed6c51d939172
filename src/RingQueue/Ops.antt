-- ===== src/RingQueue/Ops.antt =====
-- The ring queue is a bounded queue: first in, first out.
use xxx.Prelude.{
  ℕ, zero, suc, ◌+◌, ◌%◌, ◌≤◌, ◌<◌, ◌≡◌, refl, true, false, none, some, List, [], ◌∷◌, ◌++◌, arith,
  length, get_elem?, get_elem?-set_ne, length-set, length-replicate, sym, ◌∙◌, ap, Bool-cases, ◌⊎◌,
  inl, inr, ◌==◌, ==_iff,
}
use native.Mathlib.Nat.{mod-eq_of_lt, mod-add-mod}
use xxx.RingQueue.{Queue, create, is_full, is_empty, enqueue, dequeue, traverse_loop, traverse}
use xxx.RingQueue.Order.{Holds, Holds-append, Holds-length, next-lt, next-cases}

module _ {A : Type 0} where
  -- The queue holds the objects `xs`, the first to leave in front.
  pub record IsQueue (q : Queue A) (xs : List A) : Type 0 where
    pub front_lt : q.front < q.maxsize
    pub rear_lt : q.rear < q.maxsize
    pub size : length q.slots ≡ q.maxsize
    pub objects : Holds q.slots q.maxsize q.front q.rear xs

  -- `Createqueue` with room for at least one slot makes an empty queue.
  pub create-IsQueue : (max : ℕ) (fresh : A) → 0 < max → IsQueue (create max fresh) []
  unfolding create
  create-IsQueue max fresh h = record {
    front_lt = h;
    rear_lt = h;
    size = length-replicate max fresh;
    objects = refl;
  }

  -- A full queue holds one object less than it has slots, and no other queue does.
  is_full-length :
      (q : Queue A) (xs : List A)
      → IsQueue q xs
      → (is_full q ≡ true → suc (length xs) ≡ q.maxsize)
        × (is_full q ≡ false → suc (length xs) < q.maxsize)
  unfolding is_full
  is_full-length q xs h =
      let (below, above) =
        Holds-length q.slots q.maxsize q.front q.rear xs h.front_lt h.rear_lt h.objects in
      let split = next-cases q.maxsize q.rear h.rear_lt in
      ((λ e. ground (arith, below, above, split)), (λ e. ground (arith, below, above, split)))

  enqueue-room :
      (q : Queue A) (xs : List A) (v : A)
      → IsQueue q xs
      → is_full q ≡ false
      → IsQueue (enqueue q v).0 (xs ++ v ∷ []) × ((enqueue q v).1 ≡ true)
  unfolding enqueue
  enqueue-room q xs v h room = (
    rw room (record {
      front_lt = h.front_lt;
      rear_lt = next-lt q.maxsize q.rear h.rear_lt;
      size = length-set q.slots q.rear v ∙ h.size;
      objects =
          Holds-append q.slots q.maxsize q.front q.rear xs v h.front_lt h.rear_lt h.size
            (unfold is_full in (λ e. ground (arith, e))) h.objects;
    }),
    rw room,
  )

  -- `Enqueue` on a queue with fewer objects than one less than its slots puts the object behind the
  -- others; on any other it returns -1 and leaves the queue as it is.
  pub enqueue-IsQueue :
      (q : Queue A) (xs : List A) (v : A)
      → IsQueue q xs
      → (suc (length xs) < q.maxsize
          → IsQueue (enqueue q v).0 (xs ++ v ∷ []) × ((enqueue q v).1 ≡ true))
        × (suc (length xs) ≡ q.maxsize → enqueue q v ≡ (q, false))
        × (suc (length xs) ≤ q.maxsize)
  unfolding enqueue
  enqueue-IsQueue q xs v h = elim (Bool-cases (is_full q)) [
    | inl full ↦
        (let last = (is_full-length q xs h).0 full in
          ((λ lt. absurd (omega arith)), (λ e. rw full), omega arith))
    | inr room ↦
        (let more = (is_full-length q xs h).1 room in
          ((λ lt. enqueue-room q xs v h room), (λ e. absurd (omega arith)), omega arith))
  ]

  dequeue-cases :
      (q : Queue A) (xs : List A)
      → IsQueue q xs
      → Holds q.slots q.maxsize q.front q.rear xs
      → ((xs ≡ []) × (dequeue q ≡ (q, none)))
        ⊎ ((x : A) × (rest : List A) × (p : ℕ) × (xs ≡ x ∷ rest)
            × ((dequeue q).1 ≡ some p)
            × (get_elem? q.slots p ≡ some x)
            × ((dequeue q).0.slots ≡ q.slots)
            × IsQueue (dequeue q).0 rest)
  unfolding dequeue is_empty
  dequeue-cases q [] h e = inl (refl, ground arith)
  dequeue-cases q (x ∷ xs) h (ne, e, rest) =
      let taken : (q.front == q.rear) ≡ false = ground arith in
      inr (
        x,
        xs,
        q.front,
        refl,
        rw taken,
        e,
        rw taken,
        rw taken (record {
          front_lt = next-lt q.maxsize q.front h.front_lt;
          rear_lt = h.rear_lt;
          size = h.size;
          objects = rest;
        }),
      )

  -- `Dequeue` returns NULL exactly on an empty queue, which it leaves as it is; else the first
  -- object, which the other objects follow in their order.
  pub dequeue-IsQueue :
      (q : Queue A) (xs : List A)
      → IsQueue q xs
      → ((xs ≡ []) × (dequeue q ≡ (q, none)))
        ⊎ ((x : A) × (rest : List A) × (p : ℕ) × (xs ≡ x ∷ rest)
            × ((dequeue q).1 ≡ some p)
            × (get_elem? q.slots p ≡ some x)
            × ((dequeue q).0.slots ≡ q.slots)
            × IsQueue (dequeue q).0 rest)
  unfolding dequeue
  dequeue-IsQueue q xs h = dequeue-cases q xs h h.objects

  -- The object that `Dequeue` has handed out last stands in slot `p`, before `front`.
  abbrev Held : Queue A → ℕ → Type 0
  Held q p = (q.rear < q.maxsize) × ((p + 1) % q.maxsize ≡ q.front)

  abbrev pub enqueue_all : Queue A → List A → Queue A
  enqueue_all q [] = q
  enqueue_all q (v ∷ vs) = enqueue_all (enqueue q v).0 vs

  enqueue-Held :
      (q : Queue A) (v : A) (p : ℕ)
      → Held q p
      → Held (enqueue q v).0 p × (get_elem? (enqueue q v).0.slots p ≡ get_elem? q.slots p)
  unfolding enqueue is_full
  enqueue-Held q v p (lt, e) = elim (Bool-cases (is_full q)) [
    | inl full ↦ rw full ((lt, e), refl)
    | inr room ↦ rw room (
      (next-lt q.maxsize q.rear lt, e),
      get_elem?-set_ne q.slots v (λ same. cc (
        (==_iff q.front ((q.rear + 1) % q.maxsize)).1
            (sym e ∙ ap (λ k. (k + 1) % q.maxsize) (sym same)),
        room,
      )),
    )
  ]

  enqueue_all-Held :
      (q : Queue A) (vs : List A) (p : ℕ)
      → Held q p
      → get_elem? (enqueue_all q vs).slots p ≡ get_elem? q.slots p
  enqueue_all-Held q [] p h = refl
  enqueue_all-Held q (v ∷ vs) p h =
      let (held, same) = enqueue-Held q v p h in enqueue_all-Held (enqueue q v).0 vs p held ∙ same

  -- The object that a `Dequeue` returned stays as it is through any `Enqueue`s that follow before
  -- the next `Dequeue`, although it lies in the ring still.
  pub dequeue-enqueue_all :
      (q : Queue A) (xs : List A) (p : ℕ) (vs : List A)
      → IsQueue q xs
      → (dequeue q).1 ≡ some p
      → get_elem? (enqueue_all (dequeue q).0 vs).slots p ≡ get_elem? q.slots p
  unfolding dequeue
  dequeue-enqueue_all q xs p vs h e = elim (Bool-cases (is_empty q)) [
    | inl none_left ↦ absurd (ground arith)
    | inr taken ↦
        (let first : q.front ≡ p = ground arith in
          rw taken (
            enqueue_all-Held (record q { front = (q.front + 1) % q.maxsize }) vs p
              (h.rear_lt, ap (λ k. (k + 1) % q.maxsize) (sym first))))
  ]

  traverse_loop-length :
      (fuel : ℕ) (q : Queue A) (i : ℕ) (xs : List A)
      → length xs < fuel
      → Holds q.slots q.maxsize (i % q.maxsize) q.rear xs
      → traverse_loop fuel q i ≡ some (length xs)
  unfolding traverse_loop
  traverse_loop-length zero q i xs lt h = absurd (omega arith)
  traverse_loop-length (suc fuel) q i [] lt h = rw ((==_iff _ _).1 h)
  traverse_loop-length (suc fuel) q i (x ∷ xs) lt (ne, e, h) =
      let more =
        traverse_loop-length fuel q (i + 1) xs (omega arith) (rw (← mod-add-mod i q.maxsize 1) h) in
      let go : (i % q.maxsize == q.rear) ≡ false = ground arith in rw (go, more)

  -- The loop of `Traversequeue` ends, after as many rounds as there are objects.
  pub traverse-length : (q : Queue A) (xs : List A) → IsQueue q xs → traverse q ≡ some (length xs)
  unfolding traverse
  traverse-length q xs h =
      traverse_loop-length (suc q.maxsize) q q.front xs
        (ground
          (arith, Holds-length q.slots q.maxsize q.front q.rear xs h.front_lt h.rear_lt h.objects))
        (rw (mod-eq_of_lt h.front_lt) h.objects)
