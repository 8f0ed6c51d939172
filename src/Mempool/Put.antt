-- ===== src/Mempool/Put.antt =====
-- `_op_put_node`: a used node is put back.
use xxx.Prelude.{
  ℕ, suc, ◌+◌, ◌*◌, ◌==◌, ◌≡◌, ◌<◌, ◌^◌, refl, Bool, true, false, ◌&&◌, not, Option, none, some,
  List, ◌∷◌, if◌then◌else◌, arith, ap, ◌∙◌, ltb, Bool-cases, inl, inr,
}
use mathlib.Core.Path.{subst}
use xxx.Mempool.{update, Pool, sub32, free_cache, put_first, put_node}
use xxx.Mempool.Chains.{mem, push-IsChain}
use xxx.Mempool.Regions.{inside, count, count-out, count-set, count-le}
use xxx.Mempool.Release.{free_cache-IsPool}
use xxx.Mempool.Invariant.{IsCache, IsNode, IsPool, IsUsed, IsReturned}

sub32-pred : (k n : ℕ) → k ≡ suc n → k < 2 ^ 32 → sub32 k 1 ≡ n
sub32-pred k n e h = omega arith

-- `nused` of every cache `c`, if the node that is put back is in the cache `d`.
put_first-count :
    (u : ℕ → Bool) (nused : ℕ → ℕ) (n c d x : ℕ)
    → n < 2 ^ 16
    → nused c ≡ count u n (suc c)
    → u x ≡ true
    → inside (suc d) n x ≡ true
    → (inside (suc c) n x ≡ true → d ≡ c)
    → update nused d (sub32 (nused d) 1) c ≡ count (update u x false) n (suc c)
put_first-count u nused n c d x small h used i own = elim (Bool-cases (c == d)) [
  | inl e ↦
      let q : c ≡ d = ground arith in
      let i' : inside (suc c) n x ≡ true = ap (λ k. inside (suc k) n x) q ∙ i in
      let nq = ap nused q in
      let set = count-set u n (suc c) x false i' in
      let le = count-le u n (suc c) in
      let carry =
        sub32-pred (nused d) (count (update u x false) n (suc c)) (ground arith) (ground arith) in
      ground arith
  | inr e ↦
      let out : inside (suc c) n x ≡ false = elim (Bool-cases (inside (suc c) n x)) [
        | inl t ↦ let q = own t in ground arith
        | inr f ↦ f
      ] in
      let same = count-out u n (suc c) x false out in ground arith
]

used-mem :
    (op : Pool) (fs cs : List ℕ) (x : ℕ) → IsPool op fs cs → op.is_used x ≡ true → mem x fs ≡ false
used-mem op fs cs x p u = elim (Bool-cases (mem x fs)) [
  | inl m ↦ let f = p.free x m in ground arith
  | inr m ↦ m
]

put_first-IsCache :
    (op : Pool) (fs cs : List ℕ) (x c : ℕ)
    → IsPool op fs cs
    → IsUsed op cs x
    → IsCache op fs c
    → IsCache (put_first op x) (x ∷ fs) c
put_first-IsCache op fs cs x c p ((m, i), u) k =
    let (_, small) = p.size in
    record {
      behind = k.behind;
      bound = k.bound;
      counted =
          put_first-count op.is_used op.nused op.incsize c (op.cache x) x small k.counted u i
            (k.owned x);
      owned = k.owned;
      listed = λ y j v. let l = k.listed y j in ground arith;
    }

put_first-IsPool :
    (op : Pool) (fs cs : List ℕ) (x : ℕ)
    → IsPool op fs cs
    → IsUsed op cs x
    → op.nfreed + 1 < 2 ^ 32
    → IsPool (put_first op x) (x ∷ fs) cs
put_first-IsPool op fs cs x p ((m, i), u) room =
    let freed = p.freed in
    record {
      nodes = push-IsChain op.node_list x fs (ground arith) (used-mem op fs cs x p u) p.nodes;
      caches = p.caches;
      freed = omega arith;
      free = λ y n. elim (Bool-cases (x == y)) [
        | inl e ↦
            let q : x ≡ y = ground arith in (ground arith, subst (λ w. IsNode op cs w) q (m, i))
        | inr e ↦ let (f, here) = p.free y (ground arith) in (ground arith, here)
      ];
      live = λ c n. put_first-IsCache op fs cs x c p ((m, i), u) (p.live c n);
      brk_pos = p.brk_pos;
      small = omega arith;
      size = p.size;
    }

-- What `put_node` does with the node back on the list.
release : Pool → ℕ → Option Pool
unfolding free_cache
release op c =
    if op.nused c == 0 && ltb (2 * op.incsize) op.nfreed then free_cache op c else some op

put_node-release :
    (op : Pool) (x : ℕ)
    → op.is_used x ≡ true
    → put_node op x ≡ release (put_first op x) (op.cache x)
unfolding put_node release
put_node-release op x u = ap (λ b. if not b then none else release (put_first op x) (op.cache x)) u

release-IsPool :
    (op : Pool) (fs cs : List ℕ) (c : ℕ)
    → IsPool op fs cs
    → mem c cs ≡ true
    → (op' : Pool) × ((fs' : List ℕ) × ((cs' : List ℕ) × ((release op c ≡ some op')
            × (IsPool op' fs' cs'
                × ((op'.is_used ≡ op.is_used) × ((x : ℕ) → IsUsed op cs x → IsUsed op' cs' x))))))
unfolding release
release-IsPool op fs cs c p m =
    elim (Bool-cases (op.nused c == 0 && ltb (2 * op.incsize) op.nfreed)) [
      | inl e ↦
          let (op', (fs', (cs', (f, r)))) = free_cache-IsPool op fs cs c p m (ground arith) in
          (op', (fs', (cs', (ap (λ b. if b then free_cache op c else some op) e ∙ f, r))))
      | inr e ↦ (
        op,
        (fs, (cs, (ap (λ b. if b then free_cache op c else some op) e, (p, (refl, λ x u. u))))),
      )
    ]

-- `_op_put_node` with a node in use puts it back, whether or not that frees its cache: no assertion
-- fails, the pool stays well formed, and the other nodes in use stay so.
pub put_node-IsPool :
    (op : Pool) (fs cs : List ℕ) (x : ℕ)
    → IsPool op fs cs
    → IsUsed op cs x
    → op.nfreed + 1 < 2 ^ 32
    → (op' : Pool) × ((fs' : List ℕ) × ((cs' : List ℕ) × ((put_node op x ≡ some op')
            × IsReturned op cs x op' fs' cs')))
put_node-IsPool op fs cs x p (n, u) room =
    let (m, i) = n in
    let (op', (fs', (cs', (e, (p', (same, kept)))))) =
      release-IsPool (put_first op x) (x ∷ fs) cs (op.cache x)
        (put_first-IsPool op fs cs x p (n, u) room) m in
    (
      op',
      (
        fs',
        (
          cs',
          (
            put_node-release op x u ∙ e,
            record {
              pool = p';
              is_free = ap (λ f. f x) same ∙ ground arith;
              kept = λ y (n', u') ne. kept y (n', ground arith);
            },
          ),
        ),
      ),
    )
