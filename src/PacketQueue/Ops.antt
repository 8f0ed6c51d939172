-- ===== src/PacketQueue/Ops.antt =====
-- The operations on packet queues, as operations on the lists of their packets.
use xxx.Prelude.{
  ◌+◌, ◌-◌, ◌<◌, ◌≡◌, refl, ◌≢◌, true, false, some, List, [], ◌∷◌, ◌++◌, arith, ◌==◌, if◌then◌else◌,
  length, length-append, inl, inr, Bool-cases, sym, ap, ◌%◌, ◌∙◌,
}
use mathlib.Core.Path.{subst}
use mathlib.Core.List.{append-nil}
use xxx.PacketQueue.{Ptr, null, Heap, write, Queue, u32_mod, pktq_in, pktq_out, pktq_join}
use xxx.PacketQueue.Chain.{has, Chain, last_or, Chain-write, Chain-append}

-- The queue `q` holds the packets `xs`, from the head to the tail.
pub record IsQueue (h : Heap) (q : Queue) (xs : List Ptr) : Type 0 where
  pub chain : Chain h q.head null xs
  pub count : q.len ≡ length xs
  pub end : q.tail ≡ last_or null xs

last_or-append : (d : Ptr) (xs ys : List Ptr) → last_or d (xs ++ ys) ≡ last_or (last_or d xs) ys
last_or-append d [] ys = refl
last_or-append d (x ∷ xs) ys = last_or-append x xs ys

write_self : (h : Heap) (p v : Ptr) → write h p v p ≡ v
unfolding write
write_self h p v = ground arith

-- `pktq_in` of a packet that is not in the queue puts it behind the others.
pub pktq_in-IsQueue :
    {h : Heap} {q : Queue} (xs : List Ptr) (pkt : Ptr)
    → IsQueue h q xs
    → pkt ≢ null
    → has pkt xs ≡ false
    → length xs + 1 < u32_mod
    → (g : Heap) × (q' : Queue) × (pktq_in h q pkt ≡ some (g, q')) × IsQueue g q' (xs ++ pkt ∷ [])
unfolding pktq_in
pktq_in-IsQueue {h} {q} [] pkt is ne out small = (
  write h pkt null,
  record { len = (q.len + 1) % u32_mod; head = pkt; tail = pkt },
  ground arith,
  record {
    chain = (refl, ne, refl, write_self h pkt null);
    count = omega (arith, is.count);
    end = refl;
  },
)
pktq_in-IsQueue {h} {q} (d ∷ xs) pkt is ne out small =
    let h1 = write h pkt null in
    (
      write h1 q.tail pkt,
      record { len = (q.len + 1) % u32_mod; head = q.head; tail = pkt },
      ground arith,
      record {
        chain =
            subst (λ t. Chain (write h1 t pkt) q.head null ((d ∷ xs) ++ pkt ∷ [])) (sym is.end)
              (Chain-append h1 q.head pkt null d xs (pkt ∷ []) (λ a i. single a (ground arith))
                (Chain-write h q.head null pkt null (d ∷ xs) out is.chain) (ground arith)
                (refl, ne, refl, write_self h pkt null));
        count = omega (arith, is.count, length-append (d ∷ xs) (pkt ∷ []));
        end = sym (last_or-append d xs (pkt ∷ []));
      },
    )
  where
    single : (a : Ptr) → has a (d ∷ xs) ≡ true → has a (pkt ∷ []) ≡ false
    single a i = elim (Bool-cases (a == pkt)) [
      | inl e ↦ (let same : a ≡ pkt = ground arith in cc (ap (λ (b : Ptr). has b (d ∷ xs)) same))
      | inr e ↦ rw e
    ]

-- `pktq_out` takes the first packet away and unlinks it, and leaves the others.
pub pktq_out-IsQueue :
    {h : Heap} {q : Queue} (x : Ptr) (xs : List Ptr)
    → IsQueue h q (x ∷ xs)
    → (g : Heap) × (q' : Queue) × (pktq_out h q ≡ (g, q', x)) × IsQueue g q' xs × (g x ≡ null)
unfolding pktq_out
pktq_out-IsQueue {h} {q} x xs is = (
  write h q.head null,
  record { len = q.len - 1; head = h q.head; tail = if q.len == 1 then null else q.tail },
  ground (arith, is.chain.0, is.count),
  record {
    chain = rw is.chain.0 (Chain-write h (h x) null x null xs is.chain.2 is.chain.3);
    count = omega (arith, is.count);
    end = last_of xs is.count is.end;
  },
  rw is.chain.0 (write_self h x null),
)
  where
    last_of :
        (xs : List Ptr)
        → q.len ≡ length (x ∷ xs)
        → q.tail ≡ last_or x xs
        → (if q.len == 1 then null else q.tail) ≡ last_or null xs
    last_of [] n e = ground arith
    last_of (y ∷ xs) n e = ground arith

-- On an empty queue `pktq_out` returns NULL and changes nothing.
pub pktq_out-empty : {h : Heap} {q : Queue} → IsQueue h q [] → pktq_out h q ≡ (h, q, null)
unfolding pktq_out
pktq_out-empty is = ground arith

-- `pktq_join` of two queues that share no packet puts the second behind the first, and leaves the
-- second empty.
pub pktq_join-IsQueue :
    {h : Heap} {dq sq : Queue} (xs ys : List Ptr)
    → IsQueue h dq xs
    → IsQueue h sq ys
    → ((a : Ptr) → has a xs ≡ true → has a ys ≡ false)
    → length xs + length ys < u32_mod
    → (g : Heap) × (dq' : Queue) × (sq' : Queue) × (pktq_join h dq sq ≡ (g, dq', sq'))
      × IsQueue g dq' (xs ++ ys)
      × IsQueue g sq' []
unfolding pktq_join
pktq_join-IsQueue {h} {dq} {sq} xs [] d s apart small =
    (h, dq, sq, ground arith, rw append-nil d, s)
pktq_join-IsQueue {h} {dq} {sq} [] (y ∷ ys) d s apart small = (
  h,
  record { len = (dq.len + sq.len) % u32_mod; head = sq.head; tail = sq.tail },
  record { len = 0; head = null; tail = null },
  ground arith,
  record { chain = s.chain; count = omega (arith, d.count, s.count); end = s.end },
  record { chain = refl; count = refl; end = refl },
)
pktq_join-IsQueue {h} {dq} {sq} (x ∷ xs) (y ∷ ys) d s apart small = (
  write h dq.tail sq.head,
  record { len = (dq.len + sq.len) % u32_mod; head = dq.head; tail = sq.tail },
  record { len = 0; head = null; tail = null },
  ground arith,
  record {
    chain =
        subst (λ t. Chain (write h t sq.head) dq.head null ((x ∷ xs) ++ y ∷ ys)) (sym d.end)
          (Chain-append h dq.head sq.head null x xs (y ∷ ys) (λ a i. apart a (ground arith)) d.chain
            (apart x (ground arith)) s.chain);
    count = omega (arith, d.count, s.count, length-append (x ∷ xs) (y ∷ ys));
    end = s.end ∙ sym (last_or-append x xs (y ∷ ys));
  },
  record { chain = refl; count = refl; end = refl },
)
