-- ===== src/Mempool/Invariant.antt =====
-- The state of a pool between two of its operations.
use xxx.Prelude.{ℕ, suc, ◌+◌, ◌≡◌, ◌≢◌, ◌<◌, ◌^◌, true, false, List, length, ap, ◌∙◌}
use xxx.Mempool.{Pool}
use xxx.Mempool.Chains.{mem, IsChain}
use xxx.Mempool.Regions.{inside, count}

-- A live cache: it counts its used nodes, and those that are not used are on the list of free nodes.
pub record IsCache (op : Pool) (fs : List ℕ) (c : ℕ) : Type 0 where
  pub behind : op.pool c ≡ suc c
  pub bound : c + op.incsize < op.brk
  pub counted : op.nused c ≡ count op.is_used op.incsize (suc c)
  pub owned : (x : ℕ) → inside (suc c) op.incsize x ≡ true → op.cache x ≡ c
  pub listed : (x : ℕ) → inside (suc c) op.incsize x ≡ true → op.is_used x ≡ false → mem x fs ≡ true

-- The node lies in the live cache that it names.
abbrev pub IsNode : Pool → List ℕ → ℕ → Type 0
IsNode op cs x = (mem (op.cache x) cs ≡ true) × (inside (suc (op.cache x)) op.incsize x ≡ true)

-- `fs` are the free nodes and `cs` the caches of the pool, each in the order of its list.
pub record IsPool (op : Pool) (fs cs : List ℕ) : Type 0 where
  pub nodes : IsChain op.node_list fs
  pub caches : IsChain op.cache_list cs
  pub freed : op.nfreed ≡ length fs
  pub free : (x : ℕ) → mem x fs ≡ true → (op.is_used x ≡ false) × IsNode op cs x
  pub live : (c : ℕ) → mem c cs ≡ true → IsCache op fs c
  pub brk_pos : op.brk ≢ 0
  pub small : op.nfreed < 2 ^ 32
  pub size : (0 < op.incsize) × (op.incsize < 2 ^ 16)

-- The node has been handed out.
abbrev pub IsUsed : Pool → List ℕ → ℕ → Type 0
IsUsed op cs x = IsNode op cs x × (op.is_used x ≡ true)

pub IsNode-at :
    (op : Pool) (cs : List ℕ) (x c : ℕ)
    → op.cache x ≡ c
    → mem c cs ≡ true
    → inside (suc c) op.incsize x ≡ true
    → IsNode op cs x
IsNode-at op cs x c e m i = (ap (λ k. mem k cs) e ∙ m, ap (λ k. inside (suc k) op.incsize x) e ∙ i)

-- From the pool `op` with the caches `cs`, the node `x` has been handed out.
pub record IsGiven (op : Pool) (cs : List ℕ) (x : ℕ) (op' : Pool) (fs' cs' : List ℕ) : Type 0 where
  pub pool : IsPool op' fs' cs'
  pub given : IsUsed op' cs' x
  pub kept : (y : ℕ) → IsUsed op cs y → (y ≢ x) × IsUsed op' cs' y

-- The pool `op'` has each used node of `op` but `x`, which is free in it.
pub record IsReturned (op : Pool) (cs : List ℕ) (x : ℕ) (op' : Pool) (fs' cs' : List ℕ)
    : Type 0 where
  pub pool : IsPool op' fs' cs'
  pub is_free : op'.is_used x ≡ false
  pub kept : (y : ℕ) → IsUsed op cs y → y ≢ x → IsUsed op' cs' y
