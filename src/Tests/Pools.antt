-- ===== src/Tests/Pools.antt =====
-- A memory pool of http/mempool.c with two nodes in each cache.
use xxx.Prelude.{
  ℕ, ◌≡◌, ◌≢◌, ◌+◌, ◌<◌, ◌^◌, refl, true, false, Option, none, some, List, [], ◌∷◌, arith, sym, ◌∙◌,
}
use xxx.Mempool.{Pool, mempool_alloc, mempool_get, put_node}
use xxx.Mempool.Chains.{mem}
use xxx.Mempool.Invariant.{IsPool, IsGiven, IsReturned}
use xxx.Mempool.Caches.{mempool_alloc-IsPool}
use xxx.Mempool.Get.{mempool_get-IsPool, take_node-IsPool, mempool_get-full}
use xxx.Mempool.Put.{put_node-IsPool}
use xxx.Mempool.Runs.{start, got, Reached-mempool_get, Reached-put_node, some-injective}
use mathlib.Core.Path.{subst}

abbrev pool_of : Option (ℕ × Pool) → Pool
pool_of none = mempool_alloc 2
pool_of (some (x, op)) = op

-- The pool after one `mempool_get`.
abbrev pool1 : Pool
pool1 = pool_of (mempool_get true (mempool_alloc 2))

-- The nodes behind the first cache are 2 and 3, and the last one is got first.
get1 : mempool_get true (mempool_alloc 2) ≡ some (3, pool1)
unfolding mempool_get mempool_alloc
get1 = refl

-- An increment of 65536 leaves the pool without nodes, and NULL is followed.
get_empty : mempool_get true (mempool_alloc 65536) ≡ none
unfolding mempool_get mempool_alloc
get_empty = refl

nodes_left : (mempool_alloc 2).nfreed ≢ 0
unfolding mempool_alloc
nodes_left = omega arith

fresh-IsPool : IsPool (mempool_alloc 2) (3 ∷ 2 ∷ []) (1 ∷ [])
fresh-IsPool = mempool_alloc-IsPool 2 (omega arith)

mempool_get-IsPool_example :
    (x : ℕ) × ((op' : Pool) × ((fs' : List ℕ) × ((cs' : List ℕ) × ((mempool_get true
                (mempool_alloc 2)
              ≡ some (x, op'))
            × IsGiven (mempool_alloc 2) (1 ∷ []) x op' fs' cs'))))
mempool_get-IsPool_example = mempool_get-IsPool (mempool_alloc 2) (3 ∷ 2 ∷ []) (1 ∷ []) fresh-IsPool

Reached-mempool_get_example :
    (x : ℕ) × ((op' : Pool) × ((mempool_get true pool1 ≡ some (x, op'))
        × ((x ≢ 0) × (mem x (3 ∷ []) ≡ false))))
Reached-mempool_get_example =
    Reached-mempool_get 2 pool1 (3 ∷ []) (omega arith) (got true 3 start get1)

room1 : pool1.nfreed + 1 < 2 ^ 32
unfolding mempool_get mempool_alloc
room1 = omega arith

Reached-put_node_example : (op' : Pool) × (put_node pool1 3 ≡ some op')
Reached-put_node_example =
    Reached-put_node 2 pool1 (3 ∷ []) 3 (omega arith) (got true 3 start get1) room1 refl

given1 : IsGiven (mempool_alloc 2) (1 ∷ []) 3 pool1 (2 ∷ []) (1 ∷ [])
given1 =
    let (op, (e, g)) = take_node-IsPool (mempool_alloc 2) 3 (2 ∷ []) (1 ∷ []) fresh-IsPool in
    let full = mempool_get-full (mempool_alloc 2) true nodes_left in
    let q : (3, op) ≡ (3, pool1) = some-injective (sym e ∙ sym full ∙ get1) in
    subst (λ (r : ℕ × Pool). IsGiven (mempool_alloc 2) (1 ∷ []) 3 r.1 (2 ∷ []) (1 ∷ [])) q g

put_node-IsPool_example :
    (op' : Pool) × ((fs' : List ℕ) × ((cs' : List ℕ) × ((put_node pool1 3 ≡ some op')
          × IsReturned pool1 (1 ∷ []) 3 op' fs' cs')))
put_node-IsPool_example = put_node-IsPool pool1 (2 ∷ []) (1 ∷ []) 3 given1.pool given1.given room1
