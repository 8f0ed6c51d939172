-- ===== src/PacketQueue.antt =====
-- The packet queues of http/packet.c: singly linked lists of packets through the field `next`, with
-- a head, a tail and a length. A pointer is a number, and 0 is NULL. The heap gives the `next` of
-- each packet; the operations touch no other field.
pub mod Chain
pub mod Ops
use xxx.Prelude.{
  ℕ, ◌+◌, ◌-◌, ◌%◌, ◌^◌, Bool, true, false, ◌||◌, Option, none, some, ◌==◌, if◌then◌else◌, ltb,
}

abbrev pub Ptr : Type 0
Ptr = ℕ

abbrev pub null : Ptr
null = 0

-- The field `next` of the packet at each address.
abbrev pub Heap : Type 0
Heap = Ptr → Ptr

-- `p->next = v`
unfoldable pub write : Heap → Ptr → Ptr → Heap
write h p v a = if a == p then v else h a

-- `pktq_t`; `len` is a `u_int32_t`.
pub record Queue : Type 0 where
  pub len : ℕ
  pub head : Ptr
  pub tail : Ptr

abbrev pub u32_mod : ℕ
u32_mod = 2 ^ 32

-- `pktq_in` of a queue that is not NULL. `none` is the result -1; a write through a NULL tail is no
-- case of its own, since the invariant excludes it.
pub pktq_in : Heap → Queue → Ptr → Option (Heap × Queue)
pktq_in h q pkt =
    if pkt == null
    then none
    else let h1 = write h pkt null in
      some (
        if q.len == 0 then h1 else write h1 q.tail pkt,
        record {
          len = (q.len + 1) % u32_mod;
          head = if q.len == 0 then pkt else q.head;
          tail = pkt;
        },
      )

-- `pktq_out`: the packet, or NULL where the queue is empty.
pub pktq_out : Heap → Queue → Heap × Queue × Ptr
pktq_out h q =
    if q.len == 0
    then (h, q, null)
    else let pkt = q.head in
      (
        write h pkt null,
        record { len = q.len - 1; head = h pkt; tail = if q.len == 1 then null else q.tail },
        pkt,
      )

-- `pktq_join` of two queues that are not NULL and not the same one: the new heap, `dq` and `sq`.
pub pktq_join : Heap → Queue → Queue → Heap × Queue × Queue
pktq_join h dq sq = if ltb sq.len 1 then (h, dq, sq) else (
  if ltb 0 dq.len then write h dq.tail sq.head else h,
  record {
    len = (dq.len + sq.len) % u32_mod;
    head = if ltb 0 dq.len then dq.head else sq.head;
    tail = sq.tail;
  },
  record { len = 0; head = null; tail = null },
)
