-- ===== src/Mempool/Cuts.antt =====
-- An element taken out of the middle of a linked list.
use xxx.Prelude.{
  ℕ, ◌==◌, ◌≡◌, ◌≢◌, refl, Bool, true, false, not, some, List, [], ◌∷◌, ◌++◌, if◌then◌else◌, arith,
  ap, ◌∙◌,
}
use xxx.Mempool.{Link, null, head, next_of, Links, update, write_link, unlink}
use xxx.Mempool.Chains.{mem, nodup, at, IsSegment, IsChain, IsSegment-frame, mem-ne}

-- The link behind the last of the elements.
abbrev last_link : Link → List ℕ → Link
last_link k [] = k
last_link k (x ∷ xs) = last_link (next_of x) xs

abbrev IsRun : Links → Link → List ℕ → Type 0
IsRun l k [] = Unit
IsRun l k (x ∷ xs) = (at l k ≡ x) × (x ≢ 0) × (l.pprev x ≡ k) × IsRun l (next_of x) xs

abbrev same : Link → Link → Bool
same null null = true
same head head = true
same (next_of x) (next_of y) = y == x
same j k = false

-- The link is not one of these elements.
abbrev apart : Link → List ℕ → Bool
apart null xs = false
apart head xs = true
apart (next_of x) xs = not (mem x xs)

abbrev set : Links → Link → ℕ → Links
set l null x = l
set l head x = record l { first = x }
set l (next_of y) x = record l { next = update l.next y x }

write_link-set :
    (l : Links) (k : Link) (x : ℕ) (xs : List ℕ)
    → apart k xs ≡ true
    → write_link l k x ≡ some (set l k x)
write_link-set l null x xs a = cc
write_link-set l head x xs a = refl
write_link-set l (next_of y) x xs a = refl

at-set : (l : Links) (k : Link) (x : ℕ) (xs : List ℕ) → apart k xs ≡ true → at (set l k x) k ≡ x
at-set l null x xs a = cc
at-set l head x xs a = refl
at-set l (next_of y) x xs a = ground arith

at-set-same : (l : Links) (j k : Link) (x : ℕ) → same j k ≡ false → at (set l j x) k ≡ at l k
at-set-same l null k x a = refl
at-set-same l head null x a = refl
at-set-same l head head x a = cc
at-set-same l head (next_of y) x a = refl
at-set-same l (next_of y) null x a = refl
at-set-same l (next_of y) head x a = refl
at-set-same l (next_of y) (next_of z) x a = ground arith

pprev-set : (l : Links) (k : Link) (x : ℕ) → (set l k x).pprev ≡ l.pprev
pprev-set l null x = refl
pprev-set l head x = refl
pprev-set l (next_of y) x = refl

same-next_of :
    (x : ℕ) (k : Link) (xs : List ℕ)
    → apart k (x ∷ xs) ≡ true
    → (same (next_of x) k ≡ false) × (apart k xs ≡ true)
same-next_of x null xs a = cc
same-next_of x head xs a = (refl, refl)
same-next_of x (next_of y) xs a = ground arith

same-last_link :
    (j k : Link) (xs : List ℕ)
    → same j k ≡ false
    → apart k xs ≡ true
    → same (last_link j xs) k ≡ false
same-last_link j k [] d a = d
same-last_link j k (x ∷ xs) d a =
    let (d', a') = same-next_of x k xs a in same-last_link (next_of x) k xs d' a'

IsRun-IsSegment :
    (l : Links) (k : Link) (xs ys : List ℕ)
    → IsSegment l k (xs ++ ys)
    → IsRun l k xs × IsSegment l (last_link k xs) ys
IsRun-IsSegment l k [] ys s = (tt, s)
IsRun-IsSegment l k (x ∷ xs) ys (here, pos, back, s) =
    let (r, s') = IsRun-IsSegment l (next_of x) xs ys s in ((here, pos, back, r), s')

IsSegment-run :
    (l : Links) (k : Link) (xs ys : List ℕ)
    → IsRun l k xs
    → IsSegment l (last_link k xs) ys
    → IsSegment l k (xs ++ ys)
IsSegment-run l k [] ys r s = s
IsSegment-run l k (x ∷ xs) ys (here, pos, back, r) s =
    (here, pos, back, IsSegment-run l (next_of x) xs ys r s)

-- A run does not read the link behind its last element.
IsRun-set :
    (l : Links) (k : Link) (x : ℕ) (xs : List ℕ)
    → apart k xs ≡ true
    → nodup xs ≡ true
    → IsRun l k xs
    → IsRun (set l (last_link k xs) x) k xs
IsRun-set l k x [] a d r = tt
IsRun-set l k x (y ∷ ys) a d (here, pos, back, r) =
    let (d', a') = same-next_of y k ys a in
    let far = same-last_link (next_of y) k ys d' a' in
    let j = last_link (next_of y) ys in
    (
      at-set-same l j k x far ∙ here,
      pos,
      ap (λ f. f y) (pprev-set l j x) ∙ back,
      IsRun-set l (next_of y) x ys (ground arith) (ground arith) r,
    )

-- Nor does it read `pprev` of what is no element of it.
IsRun-pprev :
    (l : Links) (k j : Link) (x : ℕ) (xs : List ℕ)
    → mem x xs ≡ false
    → IsRun l k xs
    → IsRun (record l { pprev = update l.pprev x j }) k xs
IsRun-pprev l k j x [] a r = tt
IsRun-pprev l null j x (y ∷ ys) a (here, pos, back, r) =
    (here, pos, ground arith, IsRun-pprev l (next_of y) j x ys (ground arith) r)
IsRun-pprev l head j x (y ∷ ys) a (here, pos, back, r) =
    (here, pos, ground arith, IsRun-pprev l (next_of y) j x ys (ground arith) r)
IsRun-pprev l (next_of z) j x (y ∷ ys) a (here, pos, back, r) =
    (here, pos, ground arith, IsRun-pprev l (next_of y) j x ys (ground arith) r)

pub mem-cut : (z x : ℕ) (xs ys : List ℕ) → mem z (xs ++ ys) ≡ true → mem z (xs ++ x ∷ ys) ≡ true
mem-cut z x [] ys m = ground arith
mem-cut z x (y ∷ xs) ys m = ground (arith, mem-cut z x xs ys)

pub nodup-cut : (x : ℕ) (xs ys : List ℕ) → nodup (xs ++ x ∷ ys) ≡ true → nodup (xs ++ ys) ≡ true
nodup-cut x [] ys d = ground arith
nodup-cut x (y ∷ xs) ys d = ground (arith, nodup-cut x xs ys, mem-cut y x xs ys)

pub mem-front :
    (z : ℕ) (xs ys : List ℕ) → mem z (xs ++ ys) ≡ false → (mem z xs ≡ false) × (mem z ys ≡ false)
mem-front z [] ys m = (refl, m)
mem-front z (x ∷ xs) ys m = ground (arith, mem-front z xs ys)

-- No element is in front of itself.
nodup-front :
    (x : ℕ) (xs ys : List ℕ)
    → nodup (xs ++ x ∷ ys) ≡ true
    → (nodup xs ≡ true) × ((mem x xs ≡ false) × (mem x ys ≡ false))
nodup-front x [] ys d = (refl, (refl, ground arith))
nodup-front x (y ∷ xs) ys d =
    ground (arith, nodup-front x xs ys, mem-front y xs (x ∷ ys) (ground arith))

-- The link in front of an element is not one behind it.
apart-last_link :
    (k : Link) (xs ys : List ℕ)
    → apart k ys ≡ true
    → nodup (xs ++ ys) ≡ true
    → apart (last_link k xs) ys ≡ true
apart-last_link k [] ys a d = a
apart-last_link k (x ∷ xs) ys a d =
    let (_, out) = mem-front x xs ys (ground arith) in
    apart-last_link (next_of x) xs ys (ground arith) (ground arith)

apart-same :
    (k : Link) (z : ℕ) (xs : List ℕ)
    → apart k xs ≡ true
    → mem z xs ≡ true
    → same k (next_of z) ≡ false
apart-same null z xs a m = refl
apart-same head z xs a m = refl
apart-same (next_of y) z xs a m = mem-ne y z xs (ground arith) m

unlink-at :
    (l : Links) (x y : ℕ) (k : Link)
    → l.pprev x ≡ k
    → l.next x ≡ y
    → unlink l x
      ≡ write_link (record l { pprev = if y == 0 then l.pprev else update l.pprev y k }) k y
unfolding unlink
unlink-at l x y k back n = cc

not_zero : (x : ℕ) → x ≢ 0 → (x == 0) ≡ false
not_zero x h = ground arith

-- `unlink` at the first element behind a run.
unlink-IsSegment :
    (l : Links) (x : ℕ) (xs ys : List ℕ)
    → IsRun l head xs
    → IsSegment l (last_link head xs) (x ∷ ys)
    → nodup (xs ++ x ∷ ys) ≡ true
    → (l' : Links) × ((unlink l x ≡ some l') × IsSegment l' head (xs ++ ys))
unlink-IsSegment l x xs [] r (here, pos, back, to_nil) d =
    let k = last_link head xs in
    let a = apart-last_link head xs (x ∷ []) refl d in
    let (d', (_, _)) = nodup-front x xs [] d in
    (
      set l k 0,
      (
        unlink-at l x 0 k back to_nil ∙ write_link-set l k 0 (x ∷ []) a,
        IsSegment-run (set l k 0) head xs [] (IsRun-set l head 0 xs refl d' r)
            (at-set l k 0 (x ∷ []) a),
      ),
    )
unlink-IsSegment l x xs (y ∷ ys) r (here, pos, back, (to_y, ypos, back_y, s)) d =
    let k = last_link head xs in
    let l1 : Links = record l { pprev = update l.pprev y k } in
    let l' = set l1 k y in
    let a = apart-last_link head xs (x ∷ y ∷ ys) refl d in
    let (_, a') = same-next_of x k (y ∷ ys) a in
    let (d', (_, _)) = nodup-front x xs (y ∷ ys) d in
    let d1 = nodup-cut x xs (y ∷ ys) d in
    let (_, (out, out')) = nodup-front y xs ys d1 in
    let keep : (z : ℕ) → mem z (y ∷ ys) ≡ true → l'.next z ≡ l.next z =
      λ z m. at-set-same l1 k (next_of z) y (apart-same k z (y ∷ ys) a' m) in
    let back' : (z : ℕ) → (z == y) ≡ false → l'.pprev z ≡ l.pprev z =
      λ z m. ap (λ f. f z) (pprev-set l1 k y) ∙ ground arith in
    let back_y' : l'.pprev y ≡ k = ap (λ f. f y) (pprev-set l1 k y) ∙ ground arith in
    let behind =
      IsSegment-frame l l' (next_of y) ys (keep y (ground arith))
        (λ z m. (keep z (ground arith), back' z (mem-ne y z ys out' m))) s in
    (
      l',
      (
        unlink-at l x y k back to_y
            ∙ ap
                (λ b.
                  write_link (record l { pprev = if b then l.pprev else update l.pprev y k }) k y)
                (not_zero y ypos)
            ∙ write_link-set l1 k y (y ∷ ys) a',
        IsSegment-run l' head xs (y ∷ ys)
            (IsRun-set l1 head y xs refl d' (IsRun-pprev l head k y xs out r))
            (at-set l1 k y (y ∷ ys) a', ypos, back_y', behind),
      ),
    )

-- `unlink` takes one element out of a list and keeps the others, in their order.
pub unlink-IsChain :
    (l : Links) (x : ℕ) (xs ys : List ℕ)
    → IsChain l (xs ++ x ∷ ys)
    → (l' : Links) × ((unlink l x ≡ some l') × IsChain l' (xs ++ ys))
unlink-IsChain l x xs ys (s, d) =
    let (r, s') = IsRun-IsSegment l head xs (x ∷ ys) s in
    let (l', (e, s1)) = unlink-IsSegment l x xs ys r s' d in (l', (e, (s1, nodup-cut x xs ys d)))
