-- ===== src/IpAddr/Mask.antt =====
-- `ip_addr_apply_mask` clears whole bytes only.
use xxx.Prelude.{
  ℕ, zero, suc, ◌+◌, ◌-◌, ◌/◌, ◌%◌, ◌≤◌, ◌<◌, ◌≡◌, refl, ◌⊎◌, inl, inr, true, false, ◌||◌, ltb,
  List, [], ◌∷◌, ◌++◌, arith, length, length-set, set, take, replicate, ap, ◌∙◌, get_or, ◌==◌, leb,
}
use native.Mathlib.Decide.{ℕ_discrete}
use Prim.Native.Nat.{bit_and}
use xxx.IpAddr.{
  inet, inet6, IpAddr, ok, fault, zero_loop, mask_partial, mask_bytes, ip_addr_apply_mask,
}

zero_loop-suc : (n i x : ℕ) (xs : List ℕ) → zero_loop n (suc i) (x ∷ xs) ≡ x ∷ zero_loop n i xs
unfolding zero_loop
zero_loop-suc zero i x xs = refl
zero_loop-suc (suc n) i x xs = zero_loop-suc n (suc i) x (set xs i 0)

-- The loop that zeroes the rest of the address.
zero_loop_lem :
    (i n : ℕ) (xs : List ℕ) → i + n ≡ length xs → zero_loop n i xs ≡ take i xs ++ replicate n 0
unfolding zero_loop
zero_loop_lem zero zero [] e = refl
zero_loop_lem zero zero (x ∷ xs) e = absurd (omega arith)
zero_loop_lem zero (suc n) [] e = absurd (omega arith)
zero_loop_lem zero (suc n) (x ∷ xs) e =
    zero_loop-suc n 0 0 xs ∙ ap (λ (l : List ℕ). 0 ∷ l) (zero_loop_lem zero n xs (omega arith))
zero_loop_lem (suc i) n [] e = absurd (omega arith)
zero_loop_lem (suc i) n (x ∷ xs) e =
    zero_loop-suc n i x xs ∙ ap (λ (l : List ℕ). x ∷ l) (zero_loop_lem i n xs (omega arith))

take-set : (i j v : ℕ) (xs : List ℕ) → i ≤ j → take i (set xs j v) ≡ take i xs
take-set zero j v xs h = refl
take-set (suc i) j v [] h = refl
take-set (suc i) zero v (x ∷ xs) h = absurd (omega arith)
take-set (suc i) (suc j) v (x ∷ xs) h = ap (λ (l : List ℕ). x ∷ l) (take-set i j v xs (omega arith))

mask_bytes_lem :
    (bytes : List ℕ) (cidr : ℕ)
    → length bytes ≡ 16
    → cidr ≤ 120
    → mask_bytes bytes cidr ≡ ok (take ((cidr + 7) / 8) bytes ++ replicate (16 - (cidr + 7) / 8) 0)
unfolding mask_bytes
mask_bytes_lem bytes cidr size small = elim (ℕ_discrete (cidr % 8) 0) [
  | yes h ↦
      let e : (cidr + 7) / 8 ≡ cidr / 8 = omega arith in
      let t : (cidr % 8 == 0) ≡ true = ground arith in
      rw (t, e) (ap ok (zero_loop_lem (cidr / 8) (16 - cidr / 8) bytes (omega arith)))
  | no h ↦
      let k = cidr / 8 + 1 in
      let e : (cidr + 7) / 8 ≡ k = omega arith in
      let t : (cidr % 8 == 0) ≡ false = ground arith in
      let u : leb 16 k ≡ false = ground arith in
      let v = bit_and (get_or bytes k 0) (get_or mask_partial (cidr % 8) 0) in
      rw (t, u, e)
        (ap ok (
          zero_loop_lem k (16 - k) (set bytes k v) (omega (arith, length-set bytes k v))
          ∙ ap (λ (l : List ℕ). l ++ replicate (16 - k) 0) (take-set k k v bytes (omega arith))))
]

-- Applying an IPv4 mask of 1 to 31 bits, or an IPv6 mask of 1 to 120 bits, keeps every byte that the
-- mask touches as it is, and clears the bytes behind it. Of a byte that the mask covers in part,
-- the host bits stay: the byte masked is the next one, which is cleared anyway.
pub ip_addr_apply_mask_lem :
    (ip : IpAddr) (cidr : ℕ)
    → length ip.bytes ≡ 16
    → 0 < cidr
    → ((ip.family ≡ inet) × (cidr ≤ 31)) ⊎ ((ip.family ≡ inet6) × (cidr ≤ 120))
    → ip_addr_apply_mask ip cidr
      ≡ ok (take ((cidr + 7) / 8) ip.bytes ++ replicate (16 - (cidr + 7) / 8) 0)
unfolding ip_addr_apply_mask
ip_addr_apply_mask_lem ip cidr size pos (inl (v4, small)) =
    let t : (cidr == 0 || ltb 31 cidr) ≡ false = ground arith in
    rw (v4, t) (mask_bytes_lem ip.bytes cidr size (omega arith))
ip_addr_apply_mask_lem ip cidr size pos (inr (v6, small)) =
    let t : (cidr == 0 || ltb 128 cidr) ≡ false = ground arith in
    rw (v6, t) (mask_bytes_lem ip.bytes cidr size small)

-- An IPv6 mask of 121 to 127 bits makes it write behind the address.
pub ip_addr_apply_mask-fault :
    (ip : IpAddr) (cidr : ℕ)
    → ip.family ≡ inet6
    → 120 < cidr
    → cidr < 128
    → ip_addr_apply_mask ip cidr ≡ fault
unfolding ip_addr_apply_mask mask_bytes
ip_addr_apply_mask-fault ip cidr v6 lo hi =
    let t : (cidr == 0 || ltb 128 cidr) ≡ false = ground arith in
    let u : (cidr % 8 == 0) ≡ false = ground arith in
    let w : leb 16 (cidr / 8 + 1) ≡ true = ground arith in rw (v6, t, u, w)
