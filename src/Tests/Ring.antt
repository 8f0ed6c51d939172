-- ===== src/Tests/Ring.antt =====
-- The ring queue with three slots.
use xxx.Prelude.{ℕ, ◌≤◌, ◌<◌, ◌≡◌, refl, true, false, some, List, [], ◌∷◌, arith, get_elem?}
use xxx.RingQueue.{Queue, enqueue, dequeue, traverse}
use xxx.RingQueue.Ops.{IsQueue, enqueue-IsQueue, dequeue-enqueue_all, enqueue_all}

-- Two objects, 5 and 6, behind an old one in slot 1.
abbrev two : Queue ℕ
two = record { slots = 6 ∷ 9 ∷ 5 ∷ []; front = 2; rear = 1; maxsize = 3 }

abbrev objects : List ℕ
objects = 5 ∷ 6 ∷ []

abbrev one : Queue ℕ
one = record { slots = 6 ∷ 9 ∷ 5 ∷ []; front = 2; rear = 0; maxsize = 3 }

two-IsQueue : IsQueue two objects
two-IsQueue = record {
  front_lt = omega arith;
  rear_lt = omega arith;
  size = refl;
  objects = ((omega arith), refl, ((omega arith), refl, refl));
}

one-IsQueue : IsQueue one (5 ∷ [])
one-IsQueue = record {
  front_lt = omega arith;
  rear_lt = omega arith;
  size = refl;
  objects = (omega arith, refl, refl);
}

ring_runs :
    ((enqueue one 7).0.slots ≡ 7 ∷ 9 ∷ 5 ∷ [])
    × ((enqueue two 7).1 ≡ false)
    × ((dequeue two).1 ≡ some 2)
    × (traverse two ≡ some 2)
unfolding enqueue dequeue traverse
ring_runs = (refl, refl, refl, refl)

enqueue-IsQueue_example :
    (2 < 3 → IsQueue (enqueue one 7).0 (5 ∷ 7 ∷ []) × ((enqueue one 7).1 ≡ true))
    × (◌≡◌ {A = ℕ} 2 3 → enqueue one 7 ≡ (one, false))
    × (2 ≤ 3)
enqueue-IsQueue_example = enqueue-IsQueue one (5 ∷ []) 7 one-IsQueue

dequeue-enqueue_all_example : get_elem? (enqueue_all (dequeue two).0 (7 ∷ 8 ∷ [])).slots 2 ≡ some 5
unfolding dequeue
dequeue-enqueue_all_example = dequeue-enqueue_all two objects 2 (7 ∷ 8 ∷ []) two-IsQueue refl
