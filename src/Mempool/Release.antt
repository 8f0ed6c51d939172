-- ===== src/Mempool/Release.antt =====
-- `_op_free_cache`: a cache without used nodes is released.
use xxx.Prelude.{
  ℕ, suc, ◌+◌, ◌==◌, ◌≡◌, ◌<◌, ◌^◌, refl, true, false, ◌&&◌, not, Option, none, some, List, length,
  if◌then◌else◌, ◌>>=◌, arith, ap, ◌∙◌, sym, Bool-cases, inl, inr,
}
use xxx.Mempool.{
  head, Links, unlink, is_null, Pool, sub32, remove_nodes, clear_links, shrunk, free_cache,
}
use xxx.Mempool.Chains.{mem, IsChain, mem-ne, IsSegment-frame}
use xxx.Mempool.Regions.{inside, count-zero}
use xxx.Mempool.Removal.{unlink-mem, linked, remove_nodes-mem}
use xxx.Mempool.Invariant.{IsCache, IsNode, IsPool, IsUsed}

clear_links-IsChain :
    (l : Links) (x : ℕ) (xs : List ℕ)
    → mem x xs ≡ false
    → IsChain l xs
    → IsChain (clear_links l x) xs
clear_links-IsChain l x xs out (s, d) = (
  IsSegment-frame l (clear_links l x) head xs refl
      (λ y m. let ne = mem-ne x y xs out m in (ground arith, ground arith)) s,
  d,
)

free_cache-some :
    (op op' : Pool) (c : ℕ) (l : Links)
    → op.nused c ≡ 0
    → op.pool c ≡ suc c
    → unlink op.cache_list c ≡ some l
    → remove_nodes op.incsize (suc c) (record op { cache_list = clear_links l c }) ≡ some op'
    → free_cache op c ≡ some (shrunk op')
unfolding free_cache
free_cache-some op op' c l u b e r =
    let ne = linked op.cache_list l c (op.cache_list.pprev c) e refl in
    let z : not (op.nused c == 0) ≡ false = ground arith in
    let rest : ℕ → Option Links → Option Pool = λ start r. r >>= (λ l'.
      remove_nodes op.incsize start (record op { cache_list = clear_links l' c })
      >>= (λ op2. some (shrunk op2))) in
    ap
      (λ b.
        if b
        then none
        else if is_null (op.cache_list.pprev c)
        then none
        else rest (op.pool c) (unlink op.cache_list c))
      z
    ∙ ap (λ b. if b then none else rest (op.pool c) (unlink op.cache_list c)) ne
    ∙ ap (λ k. rest k (unlink op.cache_list c)) b
    ∙ ap (rest (suc c)) e
    ∙ ap (λ r. r >>= (λ op2. some (shrunk op2))) r

sub32-plus : (a n k : ℕ) → a ≡ n + k → a < 2 ^ 32 → sub32 a n ≡ k
sub32-plus a n k e h = omega arith

-- A node in another cache than `c` is not one of the nodes of `c`.
elsewhere :
    (op : Pool) (fs : List ℕ) (c d x : ℕ)
    → IsCache op fs c
    → (d == c) ≡ false
    → op.cache x ≡ d
    → inside (suc c) op.incsize x ≡ false
elsewhere op fs c d x k ne e = elim (Bool-cases (inside (suc c) op.incsize x)) [
  | inl i ↦ let q = k.owned x i in ground arith
  | inr o ↦ o
]

-- What is in a cache without used nodes is not used.
used-elsewhere :
    (op : Pool) (fs cs : List ℕ) (c x : ℕ)
    → IsCache op fs c
    → op.nused c ≡ 0
    → IsUsed op cs x
    → (op.cache x == c) ≡ false
used-elsewhere op fs cs c x k z ((m, i), u) = elim (Bool-cases (op.cache x == c)) [
  | inl e ↦
      let q : c ≡ op.cache x = ground arith in
      let f =
        count-zero op.is_used op.incsize (suc c) x (sym k.counted ∙ z)
          (ap (λ d. inside (suc d) op.incsize x) q ∙ i) in
      ground arith
  | inr e ↦ e
]

abbrev rest : Pool → Links → Links → Pool
rest op l lc = shrunk (record op { node_list = l; cache_list = lc })

-- The pool without the cache `c` and its nodes, by what is left in its lists.
module _ (op : Pool) (fs cs fs' cs' : List ℕ) (c : ℕ) (l lc : Links) (p : IsPool op fs cs)
    (m : mem c cs ≡ true) (z : op.nused c ≡ 0) (nodes : IsChain l fs') (caches : IsChain lc cs')
    (left : (y : ℕ) → mem y fs' ≡ mem y fs && not (inside (suc c) op.incsize y))
    (left_caches : (d : ℕ) → mem d cs' ≡ mem d cs && not (d == c))
    (len : length fs ≡ op.incsize + length fs') where
  rest-IsNode : (x : ℕ) → (op.cache x == c) ≡ false → IsNode op cs x → IsNode (rest op l lc) cs' x
  rest-IsNode x ne (here, i) = (left_caches (op.cache x) ∙ ground arith, i)

  rest-IsCache : (d : ℕ) → (d == c) ≡ false → IsCache op fs d → IsCache (rest op l lc) fs' d
  rest-IsCache d ne k = record {
    behind = k.behind;
    bound = k.bound;
    counted = k.counted;
    owned = k.owned;
    listed = λ x i u.
        let out = elsewhere op fs c d x (p.live c m) ne (k.owned x i) in
        let here = k.listed x i u in left x ∙ ground arith;
  }

  rest-IsPool : IsPool (rest op l lc) fs' cs'
  rest-IsPool =
      let shrunk_to = sub32-plus op.nfreed op.incsize (length fs') (p.freed ∙ len) p.small in
      let small = p.small in
      let freed = p.freed in
      record {
        nodes = nodes;
        caches = caches;
        freed = shrunk_to;
        free = λ x n.
            let e = left x in
            let (u, (here, i)) = p.free x (ground arith) in
            let ne : (op.cache x == c) ≡ false = elim (Bool-cases (op.cache x == c)) [
              | inl t ↦
                  let q : op.cache x ≡ c = ground arith in
                  let i' : inside (suc c) op.incsize x ≡ true =
                    ap (λ d. inside (suc d) op.incsize x) (sym q) ∙ i in
                  ground arith
              | inr f ↦ f
            ] in
            (u, rest-IsNode x ne (here, i));
        live =
            λ d n. let e = left_caches d in rest-IsCache d (ground arith) (p.live d (ground arith));
        brk_pos = p.brk_pos;
        small = ground arith;
        size = p.size;
      }

  rest-kept : (x : ℕ) → IsUsed op cs x → IsUsed (rest op l lc) cs' x
  rest-kept x (n, u) = (rest-IsNode x (used-elsewhere op fs cs c x (p.live c m) z (n, u)) n, u)

-- `_op_free_cache` on a cache without used nodes: it and its nodes are taken off the lists, and what
-- is left is well formed, with each used node.
pub free_cache-IsPool :
    (op : Pool) (fs cs : List ℕ) (c : ℕ)
    → IsPool op fs cs
    → mem c cs ≡ true
    → op.nused c ≡ 0
    → (op' : Pool) × ((fs' : List ℕ) × ((cs' : List ℕ) × ((free_cache op c ≡ some op')
            × (IsPool op' fs' cs'
                × ((op'.is_used ≡ op.is_used) × ((x : ℕ) → IsUsed op cs x → IsUsed op' cs' x))))))
free_cache-IsPool op fs cs c p m z =
    let k = p.live c m in
    let (lc, (cs', (e, (ch, (left_caches, _))))) = unlink-mem op.cache_list c cs p.caches m in
    let none_used : (x : ℕ) → inside (suc c) op.incsize x ≡ true → op.is_used x ≡ false =
      λ x i. count-zero op.is_used op.incsize (suc c) x (sym k.counted ∙ z) i in
    let (l, (fs', (r, (nodes, (left, len))))) =
      remove_nodes-mem op.incsize (suc c) (record op { cache_list = clear_links lc c }) fs p.nodes
        (λ x i. (k.listed x i (none_used x i), none_used x i)) in
    let caches = clear_links-IsChain lc c cs' (left_caches c ∙ ground arith) ch in
    (
      _,
      (
        fs',
        (
          cs',
          (
            free_cache-some op _ c lc z k.behind e r,
            (
              rest-IsPool op fs cs fs' cs' c l (clear_links lc c) p m z nodes caches left
                  left_caches len,
              (
                refl,
                rest-kept op fs cs fs' cs' c l (clear_links lc c) p m z nodes caches left
                    left_caches len,
              ),
            ),
          ),
        ),
      ),
    )
