-- ===== src/Mempool/Get.antt =====
-- `mempool_get`: the nodes it hands out.
use xxx.Prelude.{
  ◌>>=◌, ℕ, suc, ◌==◌, ◌^◌, ◌≡◌, ◌≢◌, ◌<◌, Bool, true, false, some, List, [], ◌∷◌, length,
  if◌then◌else◌, arith, ap, ◌∙◌, Bool-cases, inl, inr,
}
use xxx.Mempool.{Links, update, Pool, handed, add32, sub32, take_node, mempool_get, alloc_cache}
use xxx.Mempool.Chains.{mem, pop-IsChain, mem-ne}
use xxx.Mempool.Regions.{inside, count, count-out, count-set, count-le}
use xxx.Mempool.Invariant.{IsCache, IsPool, IsGiven}
use xxx.Mempool.Caches.{nodes_of, alloc_cache-IsPool, nodes_of-length}

add32-suc : (k : ℕ) → k < 2 ^ 16 → add32 k 1 ≡ suc k
add32-suc k h = omega arith

sub32-suc : (a k : ℕ) → a ≡ suc k → a < 2 ^ 32 → sub32 a 1 ≡ k
sub32-suc a k e h = omega arith

-- `nused` of every cache `c`, if the node that is handed out is in the cache `d`.
taken-count :
    (u : ℕ → Bool) (nused : ℕ → ℕ) (n c d x : ℕ)
    → n < 2 ^ 16
    → nused c ≡ count u n (suc c)
    → u x ≡ false
    → inside (suc d) n x ≡ true
    → (inside (suc c) n x ≡ true → d ≡ c)
    → update nused d (add32 (nused d) 1) c ≡ count (update u x true) n (suc c)
taken-count u nused n c d x small h unused i own = elim (Bool-cases (c == d)) [
  | inl e ↦
      let q : c ≡ d = ground arith in
      let i' : inside (suc c) n x ≡ true = ap (λ k. inside (suc k) n x) q ∙ i in
      let nq = ap nused q in
      let set = count-set u n (suc c) x true i' in
      let le = count-le (update u x true) n (suc c) in
      let carry = add32-suc (nused d) (ground arith) in ground arith
  | inr e ↦
      let out : inside (suc c) n x ≡ false = elim (Bool-cases (inside (suc c) n x)) [
        | inl t ↦ let q = own t in ground arith
        | inr f ↦ f
      ] in
      let same = count-out u n (suc c) x true out in ground arith
]

-- A node that is handed out is counted by the cache it is in and by no other.
taken-IsCache :
    (op : Pool) (x : ℕ) (fs cs : List ℕ) (l : Links) (n c : ℕ)
    → IsPool op (x ∷ fs) cs
    → IsCache op (x ∷ fs) c
    → IsCache (record (handed op x l) { nfreed = n }) fs c
taken-IsCache op x fs cs l n c p k = record {
  behind = k.behind;
  bound = k.bound;
  counted =
      let (unused, (_, ins)) = p.free x (ground arith) in
      let (_, small) = p.size in
      taken-count op.is_used op.nused op.incsize c (op.cache x) x small k.counted unused ins
        (k.owned x);
  owned = k.owned;
  listed = λ y i u. let m = k.listed y i in ground arith;
}

-- Taking the first free node off the list.
pub take_node-IsPool :
    (op : Pool) (x : ℕ) (fs cs : List ℕ)
    → IsPool op (x ∷ fs) cs
    → (op' : Pool) × ((take_node op ≡ some (x, op')) × IsGiven op cs x op' fs cs)
unfolding take_node
take_node-IsPool op x fs cs p =
    let (l, (e, ch)) = pop-IsChain op.node_list x fs p.nodes in
    let (unused, (in_cs, ins)) = p.free x (ground arith) in
    let (_, d) = p.nodes in
    (
      _,
      (
        ap (λ r. r >>= (λ (node, l'). some (node, handed op node l'))) e,
        record {
          pool = record {
            nodes = ch;
            caches = p.caches;
            freed = sub32-suc op.nfreed (length fs) p.freed p.small;
            free = λ y m.
                let (f, n) = p.free y (ground arith) in
                let ne = mem-ne x y fs (ground arith) m in (ground arith, n);
            live = λ c m. taken-IsCache op x fs cs l (sub32 op.nfreed 1) c p (p.live c m);
            brk_pos = p.brk_pos;
            small = let k = sub32-suc op.nfreed (length fs) p.freed p.small in ground arith;
            size = p.size;
          };
          given = ((in_cs, ins), ground arith);
          kept = λ y (here, u).
              let ne : (y == x) ≡ false = elim (Bool-cases (y == x)) [
                | inl e' ↦ let q : y ≡ x = ground arith in let uq = ap op.is_used q in ground arith
                | inr e' ↦ e'
              ] in
              (ground arith, (here, ground arith));
        },
      ),
    )

take_node-IsGiven :
    (op : Pool) (fs cs : List ℕ)
    → 0 < length fs
    → IsPool op fs cs
    → (x : ℕ) × ((op' : Pool) × ((fs' : List ℕ) × ((take_node op ≡ some (x, op'))
            × IsGiven op cs x op' fs' cs)))
take_node-IsGiven op [] cs pos p = absurd (omega arith)
take_node-IsGiven op (x ∷ fs) cs pos p =
    let (op', r) = take_node-IsPool op x fs cs p in (x, (op', (fs, r)))

mempool_get-empty : (op : Pool) → op.nfreed ≡ 0 → mempool_get true op ≡ take_node (alloc_cache op)
unfolding mempool_get
mempool_get-empty op e =
    let z : (op.nfreed == 0) ≡ true = ground arith in
    ap (λ b. if b then take_node (alloc_cache op) else take_node op) z

pub mempool_get-full : (op : Pool) (mem : Bool) → op.nfreed ≢ 0 → mempool_get mem op ≡ take_node op
unfolding mempool_get
mempool_get-full op mem h =
    let z : (op.nfreed == 0) ≡ false = ground arith in
    ap (λ b. if b then (if mem then take_node (alloc_cache op) else some (0, op)) else take_node op)
      z

-- `mempool_get` on a well-formed pool, if `malloc` succeeds, hands out a node that is not in use,
-- marks it used, keeps each node in use, and leaves the pool well formed; no assertion fails and no
-- NULL is followed.
pub mempool_get-IsPool :
    (op : Pool) (fs cs : List ℕ)
    → IsPool op fs cs
    → (x : ℕ) × ((op' : Pool) × ((fs' : List ℕ) × ((cs' : List ℕ) × ((mempool_get true op
                ≡ some (x, op'))
              × IsGiven op cs x op' fs' cs'))))
mempool_get-IsPool op [] cs p =
    let (p', kept) = alloc_cache-IsPool op cs p in
    let (pos, _) = p.size in
    let len = nodes_of-length op in
    let (x, (op', (fs', (e, g)))) =
      take_node-IsGiven (alloc_cache op) (nodes_of op) (op.brk ∷ cs) (ground arith) p' in
    (
      x,
      (
        op',
        (
          fs',
          (
            op.brk ∷ cs,
            (
              mempool_get-empty op p.freed ∙ e,
              record { pool = g.pool; given = g.given; kept = λ y u. g.kept y (kept y u) },
            ),
          ),
        ),
      ),
    )
mempool_get-IsPool op (x ∷ fs) cs p =
    let (op', (e, g)) = take_node-IsPool op x fs cs p in
    (x, (op', (fs, (cs, (mempool_get-full op true (let f = p.freed in omega arith) ∙ e, g)))))
