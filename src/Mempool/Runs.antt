-- ===== src/Mempool/Runs.antt =====
-- Runs of a pool: `mempool_get` and `mempool_put` in any order, and the nodes that are out.
use xxx.Prelude.{
  ℕ, ◌+◌, ◌==◌, ◌^◌, ◌≡◌, ◌≢◌, ◌<◌, ◌⊎◌, refl, Bool, true, false, Option, none, some, List, [], ◌∷◌,
  ◌++◌, if◌then◌else◌, arith, ap, ◌∙◌, sym, Bool-cases, inl, inr,
}
use mathlib.Core.Path.{subst}
use xxx.Mempool.{Pool, mempool_get, put_node, mempool_alloc, take_node}
use xxx.Mempool.Chains.{mem, nodup}
use xxx.Mempool.Cuts.{nodup-cut, mem-cut}
use xxx.Mempool.Removal.{mem-removed}
use xxx.Mempool.Invariant.{IsPool, IsUsed, IsGiven, IsReturned}
use xxx.Mempool.Caches.{mempool_alloc-IsPool}
use xxx.Mempool.Get.{mempool_get-IsPool, mempool_get-full}
use xxx.Mempool.Put.{put_node-IsPool}

-- The pools that `mempool_alloc` and then `mempool_get` and `mempool_put` reach, each with the nodes
-- that have been got and not put back, the last one first.
pub data Reached (incsize : ℕ) : Pool → List ℕ → Type 0 where
  start : Reached incsize (mempool_alloc incsize) []
  got :
      {op op' : Pool} {us : List ℕ} (avail : Bool) (x : ℕ)
      → Reached incsize op us
      → mempool_get avail op ≡ some (x, op')
      → Reached incsize op' (if x == 0 then us else x ∷ us)
  put_back :
      {op op' : Pool} (xs ys : List ℕ) (x : ℕ)
      → Reached incsize op (xs ++ x ∷ ys)
      → op.nfreed + 1 < 2 ^ 32
      → put_node op x ≡ some op'
      → Reached incsize op' (xs ++ ys)

from_some : {A : Type 0} → A → Option A → A
from_some d none = d
from_some d (some x) = x

pub some-injective : {A : Type 0} {x y : A} → some x ≡ some y → x ≡ y
unfolding from_some
some-injective {x = x} e = ap (from_some x) e

mempool_get-none : (op : Pool) → op.nfreed ≡ 0 → mempool_get false op ≡ some (0, op)
unfolding mempool_get
mempool_get-none op e =
    let z : (op.nfreed == 0) ≡ true = ground arith in
    ap (λ b. if b then some (0, op) else take_node op) z

mempool_get-true-cases :
    (op op' : Pool) (fs cs : List ℕ) (x : ℕ)
    → IsPool op fs cs
    → mempool_get true op ≡ some (x, op')
    → (fs' : List ℕ) × ((cs' : List ℕ) × IsGiven op cs x op' fs' cs')
mempool_get-true-cases op op' fs cs x p e =
    let (x0, (op0, (fs', (cs', (e0, g))))) = mempool_get-IsPool op fs cs p in
    let q : (x0, op0) ≡ (x, op') = some-injective (sym e0 ∙ e) in
    (fs', (cs', subst (λ (r : ℕ × Pool). IsGiven op cs r.0 r.1 fs' cs') q g))

-- What `mempool_get` gives: NULL and the pool as it was, or a node that was not in use.
mempool_get-cases :
    (op op' : Pool) (fs cs : List ℕ) (avail : Bool) (x : ℕ)
    → IsPool op fs cs
    → mempool_get avail op ≡ some (x, op')
    → ((x ≡ 0) × (op ≡ op')) ⊎ ((fs' : List ℕ) × ((cs' : List ℕ) × IsGiven op cs x op' fs' cs'))
mempool_get-cases op op' fs cs true x p e = inr (mempool_get-true-cases op op' fs cs x p e)
mempool_get-cases op op' fs cs false x p e = elim (Bool-cases (op.nfreed == 0)) [
  | inl z ↦
      let q : (0, op) ≡ (x, op') = some-injective (sym (mempool_get-none op (ground arith)) ∙ e) in
      inl (sym (ap (λ (r : ℕ × Pool). r.0) q), ap (λ (r : ℕ × Pool). r.1) q)
  | inr z ↦
      let full = λ (m : Bool). mempool_get-full op m (ground arith) in
      inr (mempool_get-true-cases op op' fs cs x p (full true ∙ sym (full false) ∙ e))
]

mem-middle : (x : ℕ) (xs ys : List ℕ) → mem x (xs ++ x ∷ ys) ≡ true
mem-middle x [] ys = ground arith
mem-middle x (y ∷ xs) ys = ground (arith, mem-middle x xs ys)

-- The nodes are in use, and no two of them are the same.
abbrev AreOut : Pool → List ℕ → List ℕ → Type 0
AreOut op cs us = (nodup us ≡ true) × ((y : ℕ) → mem y us ≡ true → IsUsed op cs y)

-- A node that is got is not out yet.
given-mem :
    (op op' : Pool) (cs us fs' cs' : List ℕ) (x : ℕ)
    → AreOut op cs us
    → IsGiven op cs x op' fs' cs'
    → (x ≢ 0) × (mem x us ≡ false)
given-mem op op' cs us fs' cs' x (d, out) g =
    let ((_, i), _) = g.given in
    (
      ground arith,
      elim (Bool-cases (mem x us)) [
        | inl m ↦ let (ne, _) = g.kept x (out x m) in absurd (ne refl)
        | inr m ↦ m
      ],
    )

given-AreOut :
    (op op' : Pool) (cs us fs' cs' : List ℕ) (x : ℕ)
    → AreOut op cs us
    → IsGiven op cs x op' fs' cs'
    → AreOut op' cs' (if x == 0 then us else x ∷ us)
given-AreOut op op' cs us fs' cs' x (d, out) g =
    let (pos, new) = given-mem op op' cs us fs' cs' x (d, out) g in
    let z : (x == 0) ≡ false = ground arith in
    subst (λ b. AreOut op' cs' (if b then us else x ∷ us)) (sym z)
      (
        ground arith,
        λ y m. elim (Bool-cases (x == y)) [
          | inl e ↦ let q : x ≡ y = ground arith in subst (λ w. IsUsed op' cs' w) q g.given
          | inr e ↦ let (_, u) = g.kept y (out y (ground arith)) in u
        ],
      )

put_first-AreOut :
    (op op' : Pool) (cs xs ys fs' cs' : List ℕ) (x : ℕ)
    → AreOut op cs (xs ++ x ∷ ys)
    → IsReturned op cs x op' fs' cs'
    → AreOut op' cs' (xs ++ ys)
put_first-AreOut op op' cs xs ys fs' cs' x (d, out) r = (
  nodup-cut x xs ys d,
  λ y m. let e = mem-removed x y xs ys d in r.kept y (out y (mem-cut y x xs ys m)) (ground arith),
)

-- Each pool that is reached is well formed, and the nodes that are out are used nodes of it.
Reached-AreOut :
    (incsize : ℕ) (op : Pool) (us : List ℕ)
    → incsize < 2 ^ 16
    → Reached incsize op us
    → (fs : List ℕ) × ((cs : List ℕ) × (IsPool op fs cs × AreOut op cs us))
Reached-AreOut incsize op us small start =
    (_, (_, (mempool_alloc-IsPool incsize small, (refl, λ y m. cc))))
Reached-AreOut incsize op us small (got {op = op0} {us = us0} avail x r e) =
    let (fs, (cs, (p, out))) = Reached-AreOut incsize op0 us0 small r in
    elim (mempool_get-cases op0 op fs cs avail x p e) [
      | inl (z, same) ↦
          let z' : (x == 0) ≡ true = ground arith in
          (
            fs,
            (
              cs,
              subst (λ b. IsPool op fs cs × AreOut op cs (if b then us0 else x ∷ us0)) (sym z')
                  (subst (λ k. IsPool k fs cs × AreOut k cs us0) same (p, out)),
            ),
          )
      | inr (fs', (cs', g)) ↦ (fs', (cs', (g.pool, given-AreOut op0 op cs us0 fs' cs' x out g)))
    ]
Reached-AreOut incsize op us small (put_back {op = op0} xs ys x r room e) =
    let (fs, (cs, (p, (d, out)))) = Reached-AreOut incsize op0 (xs ++ x ∷ ys) small r in
    let (op1, (fs', (cs', (e1, g)))) =
      put_node-IsPool op0 fs cs x p (out x (mem-middle x xs ys)) room in
    let q : op1 ≡ op = some-injective (sym e1 ∙ e) in
    let g' = subst (λ k. IsReturned op0 cs x k fs' cs') q g in
    (fs', (cs', (g'.pool, put_first-AreOut op0 op cs xs ys fs' cs' x (d, out) g')))

-- In every pool that is reached from one with an increment below 65536, `mempool_get` gives a node
-- that is not out, if `malloc` succeeds.
pub Reached-mempool_get :
    (incsize : ℕ) (op : Pool) (us : List ℕ)
    → incsize < 2 ^ 16
    → Reached incsize op us
    → (x : ℕ) × ((op' : Pool) × ((mempool_get true op ≡ some (x, op'))
          × ((x ≢ 0) × (mem x us ≡ false))))
Reached-mempool_get incsize op us small r =
    let (fs, (cs, (p, out))) = Reached-AreOut incsize op us small r in
    let (x, (op', (fs', (cs', (e, g))))) = mempool_get-IsPool op fs cs p in
    (x, (op', (e, given-mem op op' cs us fs' cs' x out g)))

-- In every pool that is reached from one with an increment below 65536, `_op_put_node` takes back each node that is out, with no assertion
-- failing, as long as one more free node can be counted in 32 bits.
pub Reached-put_node :
    (incsize : ℕ) (op : Pool) (us : List ℕ) (x : ℕ)
    → incsize < 2 ^ 16
    → Reached incsize op us
    → op.nfreed + 1 < 2 ^ 32
    → mem x us ≡ true
    → (op' : Pool) × (put_node op x ≡ some op')
Reached-put_node incsize op us x small r room m =
    let (fs, (cs, (p, (d, out)))) = Reached-AreOut incsize op us small r in
    let (op', (_, (_, (e, _)))) = put_node-IsPool op fs cs x p (out x m) room in (op', e)
