-- ===== src/Mempool/Removal.antt =====
-- The loop of `_op_free_cache`, which takes the nodes of a cache off the list of free nodes.
use xxx.Prelude.{
  ℕ, zero, suc, ◌+◌, ◌==◌, ◌≡◌, refl, true, false, ◌&&◌, not, Option, none, some, List, [], ◌∷◌,
  ◌++◌, length, if◌then◌else◌, ◌>>=◌, arith, ap, ◌∙◌, sym, Bool-cases, inl, inr,
}
use mathlib.Core.Path.{subst}
use xxx.Mempool.{
  Link, null, head, next_of, Links, update, write_link, unlink, is_null, Pool, remove_nodes,
}
use xxx.Mempool.Chains.{mem, nodup, IsChain}
use xxx.Mempool.Cuts.{unlink-IsChain, mem-front}
use xxx.Mempool.Regions.{inside}

pub mem-split :
    (x : ℕ) (fs : List ℕ) → mem x fs ≡ true → (xs : List ℕ) × ((ys : List ℕ) × (fs ≡ xs ++ x ∷ ys))
mem-split x [] m = cc
mem-split x (y ∷ fs) m = elim (Bool-cases (y == x)) [
  | inl e ↦ let q : y ≡ x = ground arith in ([], (fs, ap (λ z. z ∷ fs) q))
  | inr e ↦ let (xs, (ys, s)) = mem-split x fs (ground arith) in (y ∷ xs, (ys, ap (λ zs. y ∷ zs) s))
]

pub mem-removed :
    (x y : ℕ) (xs ys : List ℕ)
    → nodup (xs ++ x ∷ ys) ≡ true
    → mem y (xs ++ ys) ≡ mem y (xs ++ x ∷ ys) && not (y == x)
mem-removed x y [] ys d = elim (Bool-cases (y == x)) [
  | inl e ↦ let q : x ≡ y = ground arith in let m = ap (λ z. mem z ys) q in ground arith
  | inr e ↦ ground arith
]
mem-removed x y (z ∷ xs) ys d =
    let (_, out) = mem-front z xs (x ∷ ys) (ground arith) in
    ground (arith, mem-removed x y xs ys (ground arith))

pub length-removed : (x : ℕ) (xs ys : List ℕ) → length (xs ++ x ∷ ys) ≡ suc (length (xs ++ ys))
length-removed x [] ys = refl
length-removed x (z ∷ xs) ys = ground (arith, length-removed x xs ys)

unlink-null : (l : Links) (x : ℕ) → l.pprev x ≡ null → unlink l x ≡ none
unfolding unlink
unlink-null l x e =
    let y = l.next x in
    ap (λ k. write_link (record l { pprev = if y == 0 then l.pprev else update l.pprev y k }) k y) e

-- An element of the list has a link to it.
pub linked :
    (l l' : Links) (x : ℕ) (k : Link) → unlink l x ≡ some l' → l.pprev x ≡ k → is_null k ≡ false
linked l l' x null e b = let n = unlink-null l x b in cc
linked l l' x head e b = refl
linked l l' x (next_of y) e b = refl

-- `unlink` at an element, by the elements that are left.
pub unlink-mem :
    (l : Links) (x : ℕ) (fs : List ℕ)
    → IsChain l fs
    → mem x fs ≡ true
    → (l' : Links) × ((fs' : List ℕ) × ((unlink l x ≡ some l')
          × (IsChain l' fs'
              × (((y : ℕ) → mem y fs' ≡ mem y fs && not (y == x))
                  × (length fs ≡ suc (length fs'))))))
unlink-mem l x fs ch m =
    let (xs, (ys, s)) = mem-split x fs m in
    let ch' = subst (λ zs. IsChain l zs) s ch in
    let (l', (e, c)) = unlink-IsChain l x xs ys ch' in
    let (_, d) = ch' in
    (
      l',
      (
        xs ++ ys,
        (
          e,
          (
            c,
            (
              λ y. mem-removed x y xs ys d ∙ ap (λ zs. mem y zs && not (y == x)) (sym s),
              ap length s ∙ length-removed x xs ys,
            ),
          ),
        ),
      ),
    )

remove_nodes-suc :
    (n node : ℕ) (op : Pool) (l : Links)
    → op.is_used node ≡ false
    → unlink op.node_list node ≡ some l
    → remove_nodes (suc n) node op ≡ remove_nodes n (suc node) (record op { node_list = l })
unfolding remove_nodes
remove_nodes-suc n node op l u e =
    let ne = linked op.node_list l node (op.node_list.pprev node) e refl in
    let next : Option Links → Option Pool =
      λ r. r >>= (λ l'. remove_nodes n (suc node) (record op { node_list = l' })) in
    ap
      (λ b. next (
        if b
        then none
        else if is_null (op.node_list.pprev node)
        then none
        else unlink op.node_list node))
      u
    ∙ ap (λ b. next (if b then none else unlink op.node_list node)) ne
    ∙ ap next e

-- The loop takes `n` nodes off the list, if all of them are free.
pub remove_nodes-mem :
    (n node : ℕ) (op : Pool) (fs : List ℕ)
    → IsChain op.node_list fs
    → ((x : ℕ) → inside node n x ≡ true → (mem x fs ≡ true) × (op.is_used x ≡ false))
    → (l : Links) × ((fs' : List ℕ) × ((remove_nodes n node op ≡ some (record op { node_list = l }))
          × (IsChain l fs'
              × (((y : ℕ) → mem y fs' ≡ mem y fs && not (inside node n y))
                  × (length fs ≡ n + length fs')))))
unfolding remove_nodes
remove_nodes-mem zero node op fs ch h =
    (op.node_list, (fs, (refl, (ch, (λ y. ground arith, ground arith)))))
remove_nodes-mem (suc n) node op fs ch h =
    let (m, u) = h node (ground arith) in
    let (l1, (fs1, (e, (ch1, (mem1, len1))))) = unlink-mem op.node_list node fs ch m in
    let (l2, (fs2, (e2, (ch2, (mem2, len2))))) =
      remove_nodes-mem n (suc node) (record op { node_list = l1 }) fs1 ch1
        (λ x i. let (a, b) = h x (ground arith) in (mem1 x ∙ ground arith, b)) in
    let left : (y : ℕ) → mem y fs2 ≡ mem y fs && not (inside node (suc n) y) =
      λ y. let a = mem1 y in let b = mem2 y in ground arith in
    (l2, (fs2, (remove_nodes-suc n node op l1 u e ∙ e2, (ch2, (left, ground arith)))))
