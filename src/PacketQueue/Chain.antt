-- ===== src/PacketQueue/Chain.antt =====
-- Chains of packets in the heap.
use xxx.Prelude.{◌≡◌, refl, ◌≢◌, Bool, true, false, ◌||◌, List, [], ◌∷◌, ◌++◌, arith, ◌==◌}
use xxx.PacketQueue.{Ptr, null, Heap, write}

abbrev pub has : Ptr → List Ptr → Bool
has a [] = false
has a (x ∷ xs) = a == x || has a xs

-- From `p` the `next` pointers lead through the packets `xs`, none of them NULL or twice, to `stop`.
abbrev pub Chain : Heap → Ptr → Ptr → List Ptr → Type 0
Chain h p stop [] = p ≡ stop
Chain h p stop (x ∷ xs) = (p ≡ x) × (x ≢ null) × (has x xs ≡ false) × Chain h (h x) stop xs

-- The last packet, or `d` where there is none.
abbrev pub last_or : Ptr → List Ptr → Ptr
last_or d [] = d
last_or d (x ∷ xs) = last_or x xs

pub has-last_or : (d : Ptr) (xs : List Ptr) → (d == last_or d xs || has (last_or d xs) xs) ≡ true
has-last_or d [] = ground arith
has-last_or d (x ∷ xs) = ground (arith, has-last_or x xs)

pub has-append : (a : Ptr) (xs ys : List Ptr) → has a (xs ++ ys) ≡ (has a xs || has a ys)
has-append a [] ys = refl
has-append a (x ∷ xs) ys = ground (arith, has-append a xs ys)

-- A write outside a chain leaves it as it is.
pub Chain-write :
    (h : Heap) (p stop a v : Ptr) (xs : List Ptr)
    → has a xs ≡ false
    → Chain h p stop xs
    → Chain (write h a v) p stop xs
unfolding write
Chain-write h p stop a v [] out c = c
Chain-write h p stop a v (x ∷ xs) out c =
    let same : write h a v x ≡ h x = ground arith in
    (c.0, c.1, c.2, rw same (Chain-write h (h x) stop a v xs (ground arith) c.3))

-- Two chains that share no packet are joined where the last packet of the first leads to the second.
pub Chain-append :
    (h : Heap) (p q stop d : Ptr) (xs ys : List Ptr)
    → ((a : Ptr) → has a xs ≡ true → has a ys ≡ false)
    → Chain h p null (d ∷ xs)
    → has d ys ≡ false
    → Chain h q stop ys
    → Chain (write h (last_or d xs) q) p stop ((d ∷ xs) ++ ys)
unfolding write
Chain-append h p q stop d [] ys apart c out e =
    let hit : write h d q d ≡ q = ground arith in
    (c.0, c.1, out, rw hit (Chain-write h q stop d q ys out e))
Chain-append h p q stop d (x ∷ xs) ys apart c out e =
    let miss : write h (last_or x xs) q d ≡ h d = ground (arith, has-last_or x xs) in
    let apart_x : has x ys ≡ false = apart x (ground arith) in
    (
      c.0,
      c.1,
      rw (has-append d (x ∷ xs) ys, c.2) out,
      rw miss (Chain-append h (h d) q stop x xs ys (λ a i. apart a (ground arith)) c.3 apart_x e),
    )
