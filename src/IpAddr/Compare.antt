-- ===== src/IpAddr/Compare.antt =====
-- Conversion between the families, and `ip_addr_compare`.
use xxx.Prelude.{==_iff, false, ap, ◌∙◌, ℕ, ◌≡◌, refl, some, List, [], ◌∷◌, arith, drop}
use xxx.IpAddr.{
  Family, inet, inet6, other, IpAddr, be32, ip_addr_v4_to_v6, ip_addr_v6_to_v4, Sign, below, same,
  above, compare_word, memcmp, compare_converted, ip_addr_compare,
}

-- An IPv4 address comes back from IPv6 as it was.
pub v6_to_v4-v4_to_v6 :
    (a b c d : ℕ) (rest : List ℕ) (old : IpAddr)
    → let v4 : IpAddr = record { family = inet; bytes = a ∷ b ∷ c ∷ d ∷ rest } in
      (v6 : IpAddr) × (ip_addr_v4_to_v6 v4 ≡ some v6)
      × (ip_addr_v6_to_v4 v6 old
          ≡ some (record { family = inet; bytes = a ∷ b ∷ c ∷ d ∷ drop 4 old.bytes }))
unfolding ip_addr_v4_to_v6 ip_addr_v6_to_v4
v6_to_v4-v4_to_v6 a b c d rest old = (_, refl, refl)

abbrev pub opposite : Sign → Sign
opposite below = above
opposite same = same
opposite above = below

pub compare_word-opposite : (l r : ℕ) → compare_word l r ≡ opposite (compare_word r l)
unfolding compare_word
compare_word-opposite l r = ground arith

memcmp-opposite : (xs ys : List ℕ) → memcmp xs ys ≡ opposite (memcmp ys xs)
unfolding memcmp
memcmp-opposite [] [] = refl
memcmp-opposite [] (y ∷ ys) = refl
memcmp-opposite (x ∷ xs) [] = refl
memcmp-opposite (x ∷ xs) (y ∷ ys) = ground (arith, memcmp-opposite xs ys)

pub compare_word_refl : (l : ℕ) → compare_word l l ≡ same
unfolding compare_word
compare_word_refl l = ground arith

pub memcmp_refl : (xs : List ℕ) → memcmp xs xs ≡ same
unfolding memcmp
memcmp_refl [] = refl
memcmp_refl (x ∷ xs) = ground (arith, memcmp_refl xs)

-- Within a family the comparison is antisymmetric, and an address is the same as itself.
pub ip_addr_compare-opposite :
    (family : Family) (xs ys : List ℕ)
    → let ip1 : IpAddr = record { family = family; bytes = xs } in
      let ip2 : IpAddr = record { family = family; bytes = ys } in
      (ip_addr_compare ip1 ip2 ≡ opposite (ip_addr_compare ip2 ip1))
      × (ip_addr_compare ip1 ip1 ≡ same)
unfolding ip_addr_compare
ip_addr_compare-opposite inet xs ys =
    (compare_word-opposite (be32 xs) (be32 ys), compare_word_refl (be32 xs))
ip_addr_compare-opposite inet6 xs ys = (memcmp-opposite xs ys, memcmp_refl xs)
ip_addr_compare-opposite (other n) xs ys =
    rw ((==_iff n n).1 refl) (memcmp-opposite xs ys, memcmp_refl xs)

converted-family :
    (v4 v6 : IpAddr) → v4.family ≡ inet → ip_addr_v4_to_v6 v4 ≡ some v6 → v6.family ≡ inet6
unfolding ip_addr_v4_to_v6
converted-family v4 v6 e conv = ground arith

compare-converted :
    (v4 v6 : IpAddr)
    → v4.family ≡ inet
    → v6.family ≡ inet6
    → ip_addr_compare v6 v4 ≡ compare_converted (ip_addr_v4_to_v6 v4) false v6.bytes
unfolding ip_addr_compare
compare-converted v4 v6 e f = rw (e, f)

compare-below :
    (v4 v6 : IpAddr) → v4.family ≡ inet → v6.family ≡ inet6 → ip_addr_compare v4 v6 ≡ below
unfolding ip_addr_compare ip_addr_v4_to_v6
compare-below v4 v6 e f = rw (e, f)

-- Across the families `ip_addr_compare` is not antisymmetric: an IPv4 address compares below every address of another family,
-- even below its own IPv6 form, while that form compares the same as the address.
pub ip_addr_compare-mixed :
    (v4 v6 : IpAddr)
    → v4.family ≡ inet
    → ip_addr_v4_to_v6 v4 ≡ some v6
    → (ip_addr_compare v4 v6 ≡ below) × (ip_addr_compare v6 v4 ≡ same)
unfolding compare_converted
ip_addr_compare-mixed v4 v6 e conv =
    let f = converted-family v4 v6 e conv in
    (
      compare-below v4 v6 e f,
      compare-converted v4 v6 e f
          ∙ ap (λ o. compare_converted o false v6.bytes) conv
          ∙ memcmp_refl v6.bytes,
    )
