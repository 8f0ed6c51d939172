-- ===== src/RingQueue/Order.antt =====
-- The objects of a ring queue in the order in which they leave it.
use xxx.Prelude.{
  ℕ, suc, ◌+◌, ◌%◌, ◌≤◌, ◌<◌, ◌≡◌, ◌≢◌, ◌⊎◌, inl, inr, some, List, [], ◌∷◌, ◌++◌, arith, length,
  set, ◌==◌, Bool-cases, get_elem?, get_elem?-set_ne, get_elem?-set_self, sym, ◌∙◌, ap,
}
use native.Mathlib.Nat.{mod-eq_of_lt, mod_self}

-- The slot behind slot `i` of `max`.
pub next-cases :
    (max i : ℕ)
    → i < max
    → ((suc i < max) × ((i + 1) % max ≡ suc i)) ⊎ ((suc i ≡ max) × ((i + 1) % max ≡ 0))
next-cases max i h = elim (Bool-cases (suc i == max)) [
  | inl e ↦ inr (ground arith, ap (λ n. n % max) (ground arith) ∙ mod_self max)
  | inr e ↦ inl (ground arith, mod-eq_of_lt (ground arith) ∙ ground arith)
]

pub next-lt : (max i : ℕ) → i < max → (i + 1) % max < max
next-lt max i h = grind arith

pub next-inj : (max i j : ℕ) → i < max → j < max → (i + 1) % max ≡ (j + 1) % max → i ≡ j
next-inj max i j h k e = ground (arith, next-cases max i h, next-cases max j k)

module _ {A : Type 0} where
  -- From slot `i` the slots up to `rear` hold the objects `xs`.
  abbrev pub Holds : List A → ℕ → ℕ → ℕ → List A → Type 0
  Holds slots max i rear [] = i ≡ rear
  Holds slots max i rear (x ∷ xs) =
      (i ≢ rear) × (get_elem? slots i ≡ some x) × Holds slots max ((i + 1) % max) rear xs

  -- A value at `rear` is the new last object, if the slot behind is not taken.
  pub Holds-append :
      (slots : List A) (max i rear : ℕ) (xs : List A) (v : A)
      → i < max
      → rear < max
      → length slots ≡ max
      → i ≢ (rear + 1) % max
      → Holds slots max i rear xs
      → Holds (set slots rear v) max i ((rear + 1) % max) (xs ++ v ∷ [])
  Holds-append slots max i rear [] v hi hr len free h =
      (free, rw h (get_elem?-set_self slots rear v (omega arith)), ap (λ k. (k + 1) % max) h)
  Holds-append slots max i rear (x ∷ xs) v hi hr len free (ne, e, h) = (
    free,
    get_elem?-set_ne slots v (λ p. ne (sym p)) ∙ e,
    Holds-append slots max ((i + 1) % max) rear xs v (next-lt max i hi) hr len
        (λ p. ne (next-inj max i rear hi hr p)) h,
  )

  -- How many objects there are.
  pub Holds-length :
      (slots : List A) (max i rear : ℕ) (xs : List A)
      → i < max
      → rear < max
      → Holds slots max i rear xs
      → (i ≤ rear → i + length xs ≡ rear) × (rear < i → i + length xs ≡ rear + max)
  Holds-length slots max i rear [] hi hr h = ((λ le. omega arith), (λ lt. absurd (omega arith)))
  Holds-length slots max i rear (x ∷ xs) hi hr (ne, e, h) = ground (
    arith,
    next-cases max i hi,
    Holds-length slots max ((i + 1) % max) rear xs (next-lt max i hi) hr h,
  )
