-- ===== src/Mempool.antt =====
-- http/mempool.c: a pool of memory units of one size, taken from caches of `incsize` units. An address
-- is a number, 0 is NULL, and one unit of memory with its header takes one address; `brk` is the
-- first address that `malloc` has not given out yet. `none` is an assertion that fails or a write
-- through NULL. The magic numbers, which are those of the pool in each of its nodes and caches, are
-- left out, and so is the lock, which makes each operation one step.
pub mod Chains
pub mod Cuts
pub mod Regions
pub mod Invariant
pub mod Caches
pub mod Get
pub mod Removal
pub mod Release
pub mod Put
pub mod Runs
use xxx.Prelude.{
  ℕ, zero, suc, ◌+◌, ◌-◌, ◌*◌, ◌%◌, ◌^◌, ◌==◌, Bool, true, false, ◌&&◌, not, Option, none, some,
  if◌then◌else◌, ◌>>=◌, ltb,
}

-- Where a pointer to a pointer points: to the head of the list, or to `next` of an element.
pub data Link : Type 0 where
  null head : Link
  next_of : ℕ → Link

-- A list of elements that `next` and `pprev` link, with its head.
pub record Links : Type 0 where
  pub first : ℕ
  pub next : ℕ → ℕ
  pub pprev : ℕ → Link

abbrev pub update : {A : Type 0} → (ℕ → A) → ℕ → A → ℕ → A
update f x a y = if y == x then a else f y

-- A write through a pointer to a pointer.
abbrev pub write_link : Links → Link → ℕ → Option Links
write_link l null x = none
write_link l head x = some (record l { first = x })
write_link l (next_of y) x = some (record l { next = update l.next y x })

-- `if (list) list->pprev = &node->next; node->pprev = &list; node->next = list; list = node;`
unfoldable pub push : Links → ℕ → Links
push l x =
    let pprev = if l.first == 0 then l.pprev else update l.pprev l.first (next_of x) in
    record { first = x; next = update l.next x l.first; pprev = update pprev x head }

-- The first element, taken off; NULL is followed if there is none.
unfoldable pub pop : Links → Option (ℕ × Links)
pop l =
    let x = l.first in
    let y = l.next x in
    let pprev = if y == 0 then l.pprev else update l.pprev y head in
    if x == 0
    then none
    else some (x, record { first = y; next = update l.next x 0; pprev = update pprev x null })

-- `if (node->next) node->next->pprev = node->pprev; *node->pprev = node->next;`
unfoldable pub unlink : Links → ℕ → Option Links
unlink l x =
    let y = l.next x in
    let pprev = if y == 0 then l.pprev else update l.pprev y (l.pprev x) in
    write_link (record l { pprev = pprev }) (l.pprev x) y

abbrev pub is_null : Link → Bool
is_null null = true
is_null head = false
is_null (next_of y) = false

-- `mempool_t` with the fields of its nodes and caches: `cache` and `is_used` of a node, `pool` and
-- `nused` of a cache.
pub record Pool : Type 0 where
  pub incsize : ℕ
  pub node_list : Links
  pub cache_list : Links
  pub cache : ℕ → ℕ
  pub is_used : ℕ → Bool
  pub pool : ℕ → ℕ
  pub nused : ℕ → ℕ
  pub nalloced : ℕ
  pub nfreed : ℕ
  pub brk : ℕ

abbrev pub u32_mod : ℕ
u32_mod = 2 ^ 32

abbrev pub add32 : ℕ → ℕ → ℕ
add32 a b = (a + b) % u32_mod

abbrev pub sub32 : ℕ → ℕ → ℕ
sub32 a b = (a + u32_mod - b) % u32_mod

-- The loop of `_op_alloc_cache` over the nodes that are left, from the one at `node` on.
unfoldable pub add_nodes : ℕ → ℕ → ℕ → Pool → Pool
unfolding push
add_nodes zero node c op = op
add_nodes (suc n) node c op = add_nodes n (suc node) c (record op {
  node_list = push op.node_list node;
  cache = update op.cache node c;
  is_used = update op.is_used node false;
})

-- `_op_alloc_cache`, if `malloc` succeeds: the cache, and behind it its nodes.
unfoldable pub alloc_cache : Pool → Pool
unfolding add_nodes push
alloc_cache op =
    let c = op.brk in
    let op' = add_nodes op.incsize (suc c) c op in
    record op' {
      cache_list = push op'.cache_list c;
      pool = update op'.pool c (suc c);
      nused = update op'.nused c 0;
      nalloced = add32 op'.nalloced op.incsize;
      nfreed = add32 op'.nfreed op.incsize;
      brk = suc c + op.incsize;
    }

-- The loop of `_op_free_cache` over the nodes that are left.
unfoldable pub remove_nodes : ℕ → ℕ → Pool → Option Pool
unfolding unlink
remove_nodes zero node op = some op
remove_nodes (suc n) node op = do
  l ←
      (if op.is_used node
        then none
        else if is_null (op.node_list.pprev node)
        then none
        else unlink op.node_list node)
  remove_nodes n (suc node) (record op { node_list = l })

-- `cache->pprev = NULL; cache->next = NULL;`
abbrev pub clear_links : Links → ℕ → Links
clear_links l x = record l { next = update l.next x 0; pprev = update l.pprev x null }

abbrev pub shrunk : Pool → Pool
shrunk op = record op {
  nalloced = sub32 op.nalloced op.incsize;
  nfreed = sub32 op.nfreed op.incsize;
}

-- `_op_free_cache`
unfoldable pub free_cache : Pool → ℕ → Option Pool
unfolding remove_nodes unlink
free_cache op c =
    if not (op.nused c == 0) then none else if is_null (op.cache_list.pprev c) then none else (do
      l ← unlink op.cache_list c
      op' ← remove_nodes op.incsize (op.pool c) (record op { cache_list = clear_links l c })
      some (shrunk op'))

-- The pool with a node put back on the list.
abbrev pub put_first : Pool → ℕ → Pool
put_first op node =
    let c = op.cache node in
    record op {
      node_list = push op.node_list node;
      is_used = update op.is_used node false;
      nfreed = add32 op.nfreed 1;
      nused = update op.nused c (sub32 (op.nused c) 1);
    }

-- `_op_put_node`
unfoldable pub put_node : Pool → ℕ → Option Pool
unfolding push free_cache
put_node op node =
    let op' = put_first op node in
    let c = op'.cache node in
    if not (op.is_used node)
    then none
    else if op'.nused c == 0 && ltb (2 * op'.incsize) op'.nfreed
    then free_cache op' c
    else some op'

-- The pool with the first node taken off the list, which leaves the list `l`.
abbrev pub handed : Pool → ℕ → Links → Pool
handed op node l =
    let c = op.cache node in
    record op {
      node_list = l;
      is_used = update op.is_used node true;
      nused = update op.nused c (add32 (op.nused c) 1);
      nfreed = sub32 op.nfreed 1;
    }

-- What `mempool_get` does once the list is not empty.
unfoldable pub take_node : Pool → Option (ℕ × Pool)
unfolding pop
take_node op = do (node, l) ← pop op.node_list; some (node, handed op node l)

-- `mempool_get`; `mem` says whether `malloc` succeeds, and the node 0 is NULL.
unfoldable pub mempool_get : Bool → Pool → Option (ℕ × Pool)
unfolding take_node alloc_cache
mempool_get mem op =
    if op.nfreed == 0
    then (if mem then take_node (alloc_cache op) else some (0, op))
    else take_node op

abbrev pub no_links : Links
no_links = record { first = 0; next = λ x. 0; pprev = λ x. null }

-- The pool that `mempool_alloc` sets up, with an increment of `incsize`; `op->incsize` has 16 bits.
abbrev pub empty_pool : ℕ → Pool
empty_pool incsize = record {
  incsize = (if incsize == 0 then 1000 else incsize) % 2 ^ 16;
  node_list = no_links;
  cache_list = no_links;
  cache = λ x. 0;
  is_used = λ x. false;
  pool = λ x. 0;
  nused = λ x. 0;
  nalloced = 0;
  nfreed = 0;
  brk = 1;
}

-- `mempool_alloc`, for `malloc` that succeeds.
unfoldable pub mempool_alloc : ℕ → Pool
unfolding alloc_cache
mempool_alloc incsize = alloc_cache (empty_pool incsize)
