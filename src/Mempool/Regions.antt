-- ===== src/Mempool/Regions.antt =====
-- The nodes of a cache, which lie side by side, and the counters of them.
use xxx.Prelude.{
  ℕ, zero, suc, ◌+◌, ◌==◌, ◌≡◌, ◌≢◌, ◌≤◌, refl, Bool, true, false, ◌&&◌, ◌||◌, List, [], ◌∷◌,
  length, if◌then◌else◌, arith, ap, ◌∙◌, sym, ltb, leb, Bool-cases, inl, inr,
}
use xxx.Mempool.{Links, update, push, add_nodes, Pool}
use xxx.Mempool.Chains.{mem, IsChain, push-IsChain}

-- One of the `n` units from `node` on.
abbrev pub inside : ℕ → ℕ → ℕ → Bool
inside node n x = leb node x && ltb x (node + n)

abbrev pub bit : Bool → ℕ
bit b = if b then 1 else 0

-- How many of the `n` nodes from `node` on are used.
abbrev pub count : (ℕ → Bool) → ℕ → ℕ → ℕ
count u zero node = 0
count u (suc n) node = bit (u node) + count u n (suc node)

pub count-out :
    (u : ℕ → Bool) (n node x : ℕ) (b : Bool)
    → inside node n x ≡ false
    → count (update u x b) n node ≡ count u n node
count-out u zero node x b out = refl
count-out u (suc n) node x b out = ground (arith, count-out u n (suc node) x b (ground arith))

pub count-set :
    (u : ℕ → Bool) (n node x : ℕ) (b : Bool)
    → inside node n x ≡ true
    → count (update u x b) n node + bit (u x) ≡ count u n node + bit b
count-set u zero node x b h = ground arith
count-set u (suc n) node x b h = elim (Bool-cases (node == x)) [
  | inl e ↦
      let q : node ≡ x = ground arith in
      let uq = ap u q in ground (arith, count-out u n (suc node) x b (ground arith))
  | inr e ↦ ground (arith, count-set u n (suc node) x b (ground arith))
]

pub count-le : (u : ℕ → Bool) (n node : ℕ) → count u n node ≤ n
count-le u zero node = ground arith
count-le u (suc n) node = ground (arith, count-le u n (suc node))

pub count-zero :
    (u : ℕ → Bool) (n node x : ℕ) → count u n node ≡ 0 → inside node n x ≡ true → u x ≡ false
count-zero u zero node x h i = ground arith
count-zero u (suc n) node x h i = elim (Bool-cases (node == x)) [
  | inl e ↦ let q : node ≡ x = ground arith in let uq = ap u q in ground arith
  | inr e ↦ count-zero u n (suc node) x (ground arith) (ground arith)
]

-- All elements are below a bound.
abbrev pub below : ℕ → List ℕ → Bool
below b [] = true
below b (x ∷ xs) = ltb x b && below b xs

below-suc : (b : ℕ) (xs : List ℕ) → below b xs ≡ true → below (suc b) xs ≡ true
below-suc b [] h = refl
below-suc b (x ∷ xs) h = ground (arith, below-suc b xs)

below-mem : (b : ℕ) (xs : List ℕ) → below b xs ≡ true → mem b xs ≡ false
below-mem b [] h = refl
below-mem b (x ∷ xs) h = ground (arith, below-mem b xs)

-- The list with `n` nodes from `node` on pushed one after the other.
abbrev pub pushed : ℕ → ℕ → List ℕ → List ℕ
pushed zero node xs = xs
pushed (suc n) node xs = pushed n (suc node) (node ∷ xs)

abbrev pub push_all : ℕ → ℕ → Links → Links
push_all zero node l = l
push_all (suc n) node l = push_all n (suc node) (push l node)

-- The function with `n` nodes from `node` on mapped to one value.
abbrev pub fill_range : {A : Type 0} → ℕ → ℕ → A → (ℕ → A) → ℕ → A
fill_range zero node a f = f
fill_range (suc n) node a f = fill_range n (suc node) a (update f node a)

pub push_all-IsChain :
    (n node : ℕ) (l : Links) (xs : List ℕ)
    → node ≢ 0
    → below node xs ≡ true
    → IsChain l xs
    → IsChain (push_all n node l) (pushed n node xs)
push_all-IsChain zero node l xs pos b c = c
push_all-IsChain (suc n) node l xs pos b c =
    push_all-IsChain n (suc node) (push l node) (node ∷ xs) (ground arith)
      (ground (arith, below-suc node xs)) (push-IsChain l node xs pos (below-mem node xs b) c)

fill_range-inside :
    {A : Type 0} (n node : ℕ) (a : A) (f : ℕ → A) (x : ℕ)
    → fill_range n node a f x ≡ (if inside node n x then a else f x)
fill_range-inside zero node a f x =
    let out : inside node 0 x ≡ false = ground arith in sym (ap (λ b. if b then a else f x) out)
fill_range-inside (suc n) node a f x = elim (Bool-cases (x == node)) [
  | inl e ↦ fill_range-inside n (suc node) a (update f node a) x ∙ ground arith
  | inr e ↦ fill_range-inside n (suc node) a (update f node a) x ∙ ground arith
]

pub fill_range-in :
    {A : Type 0} (n node : ℕ) (a : A) (f : ℕ → A) (x : ℕ)
    → inside node n x ≡ true
    → fill_range n node a f x ≡ a
fill_range-in n node a f x i = fill_range-inside n node a f x ∙ ap (λ b. if b then a else f x) i

pub fill_range-out :
    {A : Type 0} (n node : ℕ) (a : A) (f : ℕ → A) (x : ℕ)
    → inside node n x ≡ false
    → fill_range n node a f x ≡ f x
fill_range-out n node a f x i = fill_range-inside n node a f x ∙ ap (λ b. if b then a else f x) i

pub mem-pushed :
    (n node x : ℕ) (xs : List ℕ) → mem x (pushed n node xs) ≡ inside node n x || mem x xs
mem-pushed zero node x xs = ground arith
mem-pushed (suc n) node x xs = ground (arith, mem-pushed n (suc node) x (node ∷ xs))

pub length-pushed : (n node : ℕ) (xs : List ℕ) → length (pushed n node xs) ≡ n + length xs
length-pushed zero node xs = ground arith
length-pushed (suc n) node xs = ground (arith, length-pushed n (suc node) (node ∷ xs))

pub add_nodes_lem :
    (n node c : ℕ) (op : Pool)
    → add_nodes n node c op ≡ record op {
      node_list = push_all n node op.node_list;
      cache = fill_range n node c op.cache;
      is_used = fill_range n node false op.is_used;
    }
unfolding add_nodes
add_nodes_lem zero node c op = refl
add_nodes_lem (suc n) node c op = add_nodes_lem n (suc node) c _
