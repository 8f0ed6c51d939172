-- ===== src/Tests/Packets.antt =====
-- Packet queues (http/packet.c) over a heap of three packets.
use xxx.Prelude.{◌≡◌, refl, some, true, false, [], ◌∷◌, arith, ◌==◌, if◌then◌else◌}
use xxx.PacketQueue.{Ptr, null, Heap, Queue, pktq_in, pktq_out, pktq_join}
use xxx.PacketQueue.Chain.{has}
use xxx.PacketQueue.Ops.{IsQueue, pktq_in-IsQueue, pktq_out-IsQueue, pktq_join-IsQueue}

-- 1 leads to 2, and 2 and 3 lead nowhere.
abbrev heap : Heap
heap p = if p == 1 then 2 else 0

abbrev two : Queue
two = record { len = 2; head = 1; tail = 2 }

abbrev one : Queue
one = record { len = 1; head = 3; tail = 3 }

two-IsQueue : IsQueue heap two (1 ∷ 2 ∷ [])
two-IsQueue = record {
  chain = (refl, omega arith, refl, (refl, omega arith, refl, refl));
  count = refl;
  end = refl;
}

one-IsQueue : IsQueue heap one (3 ∷ [])
one-IsQueue = record { chain = (refl, omega arith, refl, refl); count = refl; end = refl }

apart : (a : Ptr) → has a (1 ∷ 2 ∷ []) ≡ true → has a (3 ∷ []) ≡ false
apart a i = ground arith

pktq_in-IsQueue_example :
    (g : Heap) × (q' : Queue) × (pktq_in heap two 3 ≡ some (g, q')) × IsQueue g q' (1 ∷ 2 ∷ 3 ∷ [])
pktq_in-IsQueue_example =
    pktq_in-IsQueue (1 ∷ 2 ∷ []) 3 two-IsQueue (omega arith) refl (omega arith)

pktq_out-IsQueue_example :
    (g : Heap) × (q' : Queue) × (pktq_out heap two ≡ (g, q', 1))
    × IsQueue g q' (2 ∷ [])
    × (g 1 ≡ null)
pktq_out-IsQueue_example = pktq_out-IsQueue 1 (2 ∷ []) two-IsQueue

pktq_join-IsQueue_example :
    (g : Heap) × (dq' : Queue) × (sq' : Queue) × (pktq_join heap two one ≡ (g, dq', sq'))
    × IsQueue g dq' (1 ∷ 2 ∷ 3 ∷ [])
    × IsQueue g sq' []
pktq_join-IsQueue_example =
    pktq_join-IsQueue (1 ∷ 2 ∷ []) (3 ∷ []) two-IsQueue one-IsQueue apart (omega arith)
