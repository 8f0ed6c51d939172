-- ===== src/Mempool/Chains.antt =====
-- Lists that `next` and `pprev` link.
use xxx.Prelude.{
  ℕ, ◌==◌, ◌≡◌, ◌≢◌, refl, Bool, true, false, ◌&&◌, ◌||◌, not, some, List, [], ◌∷◌, arith, ◌∙◌,
}
use xxx.Mempool.{Link, null, head, next_of, Links, update, push, pop}

abbrev pub mem : ℕ → List ℕ → Bool
mem x [] = false
mem x (y ∷ ys) = y == x || mem x ys

abbrev pub nodup : List ℕ → Bool
nodup [] = true
nodup (x ∷ xs) = not (mem x xs) && nodup xs

-- What a pointer to a pointer points to.
abbrev pub at : Links → Link → ℕ
at l null = 0
at l head = l.first
at l (next_of x) = l.next x

-- From a link on, the elements are these.
abbrev pub IsSegment : Links → Link → List ℕ → Type 0
IsSegment l k [] = at l k ≡ 0
IsSegment l k (x ∷ xs) = (at l k ≡ x) × (x ≢ 0) × (l.pprev x ≡ k) × IsSegment l (next_of x) xs

abbrev pub IsChain : Links → List ℕ → Type 0
IsChain l xs = IsSegment l head xs × (nodup xs ≡ true)

pub IsSegment-frame :
    (l l' : Links) (k : Link) (xs : List ℕ)
    → at l' k ≡ at l k
    → ((x : ℕ) → mem x xs ≡ true → (l'.next x ≡ l.next x) × (l'.pprev x ≡ l.pprev x))
    → IsSegment l k xs
    → IsSegment l' k xs
IsSegment-frame l l' k [] e h s = e ∙ s
IsSegment-frame l l' k (x ∷ xs) e h (here, pos, back, s) =
    let (n, p) = h x (ground arith) in
    (
      e ∙ here,
      pos,
      p ∙ back,
      IsSegment-frame l l' (next_of x) xs n (λ y m. h y (ground (arith, m))) s,
    )

pub mem-ne : (x y : ℕ) (xs : List ℕ) → mem x xs ≡ false → mem y xs ≡ true → (y == x) ≡ false
mem-ne x y [] h m = cc
mem-ne x y (z ∷ xs) h m = ground (arith, mem-ne x y xs)

push-keeps :
    (l : Links) (x z y : ℕ)
    → l.first ≡ y
    → (z == x) ≡ false
    → (z == y) ≡ false
    → ((push l x).next z ≡ l.next z) × ((push l x).pprev z ≡ l.pprev z)
unfolding push
push-keeps l x z y here a b = ground arith

pub push-IsChain :
    (l : Links) (x : ℕ) (xs : List ℕ)
    → x ≢ 0
    → mem x xs ≡ false
    → IsChain l xs
    → IsChain (push l x) (x ∷ xs)
unfolding push
push-IsChain l x [] pos out (s, d) = ground arith
push-IsChain l x (y ∷ ys) pos out ((here, ypos, back, s), d) =
    let l' = push l x in
    let to_y : l'.next x ≡ y = ground arith in
    let head_x : l'.pprev x ≡ head = ground arith in
    let back_y : l'.pprev y ≡ next_of x = ground arith in
    let next_y : l'.next y ≡ l.next y = ground arith in
    let keep = λ (z : ℕ) (m : mem z ys ≡ true).
      push-keeps l x z y here (mem-ne x z ys (ground arith) m) (mem-ne y z ys (ground arith) m) in
    (
      (refl, pos, head_x, (to_y, ypos, back_y, IsSegment-frame l l' (next_of y) ys next_y keep s)),
      ground arith,
    )

pub pop-IsChain :
    (l : Links) (x : ℕ) (ys : List ℕ)
    → IsChain l (x ∷ ys)
    → (l' : Links) × ((pop l ≡ some (x, l')) × IsChain l' ys)
unfolding pop
pop-IsChain l x [] ((here, pos, back, s), d) = (
  record { first = 0; next = update l.next x 0; pprev = update l.pprev x null },
  (ground arith, (refl, refl)),
)
pop-IsChain l x (y ∷ ys) ((here, pos, back, (to_y, ypos, back_y, s)), d) =
    let l' : Links = record {
      first = y;
      next = update l.next x 0;
      pprev = update (update l.pprev y head) x null;
    } in
    let keep : (z : ℕ) → mem z ys ≡ true → (l'.next z ≡ l.next z) × (l'.pprev z ≡ l.pprev z) =
      λ z m.
        let a = mem-ne x z ys (ground arith) m in
        let b = mem-ne y z ys (ground arith) m in ground arith in
    let seg = IsSegment-frame l l' (next_of y) ys (ground arith) keep s in
    (l', (ground arith, ((refl, ypos, ground arith, seg), ground arith)))
