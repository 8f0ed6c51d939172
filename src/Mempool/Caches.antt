-- ===== src/Mempool/Caches.antt =====
-- A new cache of a pool without free nodes.
use xxx.Prelude.{
  ℕ, zero, suc, ◌+◌, ◌==◌, ◌^◌, ◌≡◌, ◌<◌, refl, Bool, true, false, ◌||◌, List, [], ◌∷◌, length,
  arith, ap, ◌∙◌, sym, Bool-cases, inl, inr,
}
use mathlib.Core.Path.{subst}
use xxx.Mempool.{update, push, Pool, add32, alloc_cache, empty_pool, mempool_alloc}
use xxx.Mempool.Chains.{mem, push-IsChain}
use xxx.Mempool.Regions.{
  inside, count, pushed, push_all, fill_range, push_all-IsChain, fill_range-in, fill_range-out,
  mem-pushed, length-pushed, add_nodes_lem,
}
use xxx.Mempool.Invariant.{IsCache, IsNode, IsPool, IsUsed, IsNode-at}

count-ext :
    (u v : ℕ → Bool) (n node : ℕ)
    → ((x : ℕ) → inside node n x ≡ true → u x ≡ v x)
    → count u n node ≡ count v n node
count-ext u v zero node h = refl
count-ext u v (suc n) node h =
    ground (arith, h node (ground arith), count-ext u v n (suc node) (λ x i. h x (ground arith)))

count-none :
    (u : ℕ → Bool) (n node : ℕ)
    → ((x : ℕ) → inside node n x ≡ true → u x ≡ false)
    → count u n node ≡ 0
count-none u zero node h = refl
count-none u (suc n) node h =
    ground (arith, h node (ground arith), count-none u n (suc node) (λ x i. h x (ground arith)))

-- `_op_alloc_cache` without its loop.
abbrev grown : Pool → Pool
grown op =
    let c = op.brk in
    record op {
      node_list = push_all op.incsize (suc c) op.node_list;
      cache = fill_range op.incsize (suc c) c op.cache;
      is_used = fill_range op.incsize (suc c) false op.is_used;
      cache_list = push op.cache_list c;
      pool = update op.pool c (suc c);
      nused = update op.nused c 0;
      nalloced = add32 op.nalloced op.incsize;
      nfreed = add32 op.nfreed op.incsize;
      brk = suc c + op.incsize;
    }

grown_lem : (op : Pool) → alloc_cache op ≡ grown op
unfolding alloc_cache
grown_lem op =
    let finish : Pool → Pool = λ op'. record op' {
      cache_list = push op'.cache_list op.brk;
      pool = update op'.pool op.brk (suc op.brk);
      nused = update op'.nused op.brk 0;
      nalloced = add32 op'.nalloced op.incsize;
      nfreed = add32 op'.nfreed op.incsize;
      brk = suc op.brk + op.incsize;
    } in
    ap finish (add_nodes_lem op.incsize (suc op.brk) op.brk op)

abbrev pub nodes_of : Pool → List ℕ
nodes_of op = pushed op.incsize (suc op.brk) []

new-IsCache : (op : Pool) → IsCache (grown op) (nodes_of op) op.brk
new-IsCache op =
    let n = op.incsize in
    let c = op.brk in
    let none_used =
      count-none (fill_range n (suc c) false op.is_used) n (suc c)
        (fill_range-in n (suc c) false op.is_used) in
    record {
      behind = ground arith;
      bound = ground arith;
      counted = ground arith;
      owned = fill_range-in n (suc c) c op.cache;
      listed = λ x i u. mem-pushed n (suc c) x [] ∙ ap (λ b. b || false) i;
    }

old-IsCache : (op : Pool) (c : ℕ) → IsCache op [] c → IsCache (grown op) (nodes_of op) c
old-IsCache op c k =
    let n = op.incsize in
    let b = k.bound in
    let own = k.behind in
    let counted = k.counted in
    let far : (x : ℕ) → inside (suc c) n x ≡ true → inside (suc op.brk) n x ≡ false =
      λ x i. ground arith in
    let used : (x : ℕ) → inside (suc c) n x ≡ true → (grown op).is_used x ≡ op.is_used x =
      λ x i. fill_range-out n (suc op.brk) false op.is_used x (far x i) in
    let all_used = count-ext (grown op).is_used op.is_used n (suc c) used in
    record {
      behind = ground arith;
      bound = ground arith;
      counted = ground arith;
      owned = λ x i. fill_range-out n (suc op.brk) op.brk op.cache x (far x i) ∙ k.owned x i;
      listed = λ x i u. let m = k.listed x i (sym (used x i) ∙ u) in cc;
    }

-- The nodes that there were are in their caches still, used or not.
grown-IsNode :
    (op : Pool) (cs : List ℕ) (x : ℕ)
    → IsPool op [] cs
    → IsNode op cs x
    → IsNode (grown op) (op.brk ∷ cs) x × ((grown op).is_used x ≡ op.is_used x)
grown-IsNode op cs x p (m, i) =
    let b = (p.live (op.cache x) m).bound in
    let far : inside (suc op.brk) op.incsize x ≡ false = ground arith in
    let e = fill_range-out op.incsize (suc op.brk) op.brk op.cache x far in
    let u = fill_range-out op.incsize (suc op.brk) false op.is_used x far in
    (IsNode-at (grown op) (op.brk ∷ cs) x (op.cache x) e (ground arith) i, u)

fresh : (op : Pool) (fs cs : List ℕ) → IsPool op fs cs → mem op.brk cs ≡ false
fresh op fs cs p = elim (Bool-cases (mem op.brk cs)) [
  | inl m ↦ let b = (p.live op.brk m).bound in ground arith
  | inr m ↦ m
]

grown-IsPool :
    (op : Pool) (cs : List ℕ) → IsPool op [] cs → IsPool (grown op) (nodes_of op) (op.brk ∷ cs)
grown-IsPool op cs p =
    let n = op.incsize in
    let (pos, small) = p.size in
    let freed = p.freed in
    let len = length-pushed n (suc op.brk) [] in
    record {
      nodes = push_all-IsChain n (suc op.brk) op.node_list [] (ground arith) refl p.nodes;
      caches = push-IsChain op.cache_list op.brk cs p.brk_pos (fresh op [] cs p) p.caches;
      freed = ground arith;
      free = λ x m.
          let i : inside (suc op.brk) n x ≡ true = ground (arith, mem-pushed n (suc op.brk) x []) in
          (
            fill_range-in n (suc op.brk) false op.is_used x i,
            IsNode-at (grown op) (op.brk ∷ cs) x op.brk
                (fill_range-in n (suc op.brk) op.brk op.cache x i) (ground arith) i,
          );
      live = λ c m. elim (Bool-cases (c == op.brk)) [
        | inl e ↦
            let q : op.brk ≡ c = ground arith in
            subst (λ k. IsCache (grown op) (nodes_of op) k) q (new-IsCache op)
        | inr e ↦ old-IsCache op c (p.live c (ground arith))
      ];
      brk_pos = ground arith;
      small = ground arith;
      size = p.size;
    }

-- `_op_alloc_cache` keeps the pool well formed, and each node that has been handed out.
pub alloc_cache-IsPool :
    (op : Pool) (cs : List ℕ)
    → IsPool op [] cs
    → IsPool (alloc_cache op) (nodes_of op) (op.brk ∷ cs)
      × ((x : ℕ) → IsUsed op cs x → IsUsed (alloc_cache op) (op.brk ∷ cs) x)
alloc_cache-IsPool op cs p =
    subst
      (λ op'.
        IsPool op' (nodes_of op) (op.brk ∷ cs)
        × ((x : ℕ) → IsUsed op cs x → IsUsed op' (op.brk ∷ cs) x))
      (sym (grown_lem op))
      (
        grown-IsPool op cs p,
        λ x (here, u). let (n, same) = grown-IsNode op cs x p here in (n, same ∙ u),
      )

-- There are nodes in it.
pub nodes_of-length : (op : Pool) → length (nodes_of op) ≡ op.incsize
nodes_of-length op = let l = length-pushed op.incsize (suc op.brk) [] in ground arith

empty_pool-IsPool : (incsize : ℕ) → incsize < 2 ^ 16 → IsPool (empty_pool incsize) [] []
empty_pool-IsPool incsize small = record {
  nodes = (refl, refl);
  caches = (refl, refl);
  freed = refl;
  free = λ x m. cc;
  live = λ x m. cc;
  brk_pos = omega arith;
  small = omega arith;
  size = ground arith;
}

-- A new pool is well formed, with the nodes of its first cache free.
pub mempool_alloc-IsPool :
    (incsize : ℕ)
    → incsize < 2 ^ 16
    → IsPool (mempool_alloc incsize) (nodes_of (empty_pool incsize)) (1 ∷ [])
unfolding mempool_alloc
mempool_alloc-IsPool incsize small =
    let (p, _) = alloc_cache-IsPool (empty_pool incsize) [] (empty_pool-IsPool incsize small) in p
