-- ===== src/IpAddr/Order.antt =====
-- Masks and ports of http/ip_addr.c, and their comparisons.
use xxx.Prelude.{
  ℕ, Bool, false, ◌&&◌, ◌+◌, ◌-◌, ◌%◌, ◌^◌, ◌≤◌, ◌≡◌, refl, true, ltb, ◌==◌, if◌then◌else◌, ap, ◌∙◌,
  sym, some, arith,
}
use xxx.IpAddr.{
  IpAddr, inet, inet6, other, be32, all_zero, Sign, below, same, above, ip_addr_compare,
  compare_word, ip_mask_match,
}
use xxx.IpAddr.Compare.{opposite, ip_addr_compare-opposite, compare_word-opposite}
use xxx.IpAddr.Network.{same_family_refl}

-- `ip_mask_t`: the address, and the field `cidr`.
pub record IpMask : Type 0 where
  pub addr : IpAddr
  pub cidr : ℕ

-- `ip_port_t`: the address, and the port in network order.
pub record IpPort : Type 0 where
  pub addr : IpAddr
  pub port : ℕ

-- `if (ret) return ret;` and what follows it.
abbrev pub then_by : Sign → Sign → Sign
then_by below next = below
then_by same next = next
then_by above next = above

-- The sign of a difference of two `u_int32_t` as an `int`.
pub difference : ℕ → ℕ → Sign
difference x y =
    let d = (x + 2 ^ 32 - y) % 2 ^ 32 in
    if d == 0 then same else if ltb d (2 ^ 31) then above else below

-- `ip_mask_compare` of two different objects.
unfoldable pub ip_mask_compare : IpMask → IpMask → Sign
unfolding difference
ip_mask_compare mask1 mask2 =
    then_by (ip_addr_compare mask1.addr mask2.addr) (difference mask1.cidr mask2.cidr)

-- `ip_mask_is_wildcard`
unfoldable pub ip_mask_is_wildcard : IpMask → Bool
ip_mask_is_wildcard mask = mask.cidr == 0 && (elim mask.addr.family [
  | inet ↦ be32 mask.addr.bytes == 0
  | inet6 ↦ all_zero mask.addr.bytes
  | other n ↦ false
])

-- `ip_port_compare` of two different objects, for the function `ntohs` of the C library, whose
-- results are short enough for their difference to be an `int`.
unfoldable pub ip_port_compare : (ntohs : ℕ → ℕ) → IpPort → IpPort → Sign
ip_port_compare ntohs ip1 ip2 =
    then_by (ip_addr_compare ip1.addr ip2.addr) (compare_word (ntohs ip1.port) (ntohs ip2.port))

then_by-opposite : (s t : Sign) → then_by (opposite s) (opposite t) ≡ opposite (then_by s t)
then_by-opposite below t = refl
then_by-opposite same t = refl
then_by-opposite above t = refl

difference-opposite : (x y : ℕ) → x ≤ 128 → y ≤ 128 → difference x y ≡ opposite (difference y x)
unfolding difference
difference-opposite x y h k = ground arith

difference-same : (x y : ℕ) → x ≤ 128 → y ≤ 128 → difference x y ≡ same → x ≡ y
unfolding difference
difference-same x y h k e = ground arith

then_by-same : (s t : Sign) → then_by s t ≡ same → (s ≡ same) × (t ≡ same)
then_by-same below t e = (e, ground arith)
then_by-same same t e = (refl, e)
then_by-same above t e = (e, ground arith)

same_addr :
    (a b : IpAddr) → a.family ≡ b.family → ip_addr_compare a b ≡ opposite (ip_addr_compare b a)
same_addr a b e =
    ap (λ f. ip_addr_compare (record { family = f; bytes = a.bytes }) b) e
    ∙ (ip_addr_compare-opposite b.family a.bytes b.bytes).0
    ∙ ap (λ f. opposite (ip_addr_compare b (record { family = f; bytes = a.bytes }))) (sym e)

-- For masks of one family and at most 128 bits each, `ip_mask_compare` gives opposite results in
-- the two orders, and finds no difference only if it finds none between the addresses and the
-- lengths are the same.
pub ip_mask_compare-opposite :
    (mask1 mask2 : IpMask)
    → mask1.addr.family ≡ mask2.addr.family
    → mask1.cidr ≤ 128
    → mask2.cidr ≤ 128
    → (ip_mask_compare mask1 mask2 ≡ opposite (ip_mask_compare mask2 mask1))
      × (ip_mask_compare mask1 mask2 ≡ same
          → (ip_addr_compare mask1.addr mask2.addr ≡ same) × (mask1.cidr ≡ mask2.cidr))
unfolding ip_mask_compare
ip_mask_compare-opposite mask1 mask2 e h k = (
  rw (same_addr mask1.addr mask2.addr e, difference-opposite mask1.cidr mask2.cidr h k)
      (then_by-opposite _ _),
  (λ s. (let (a, c) = then_by-same _ _ s in (a, difference-same mask1.cidr mask2.cidr h k c))),
)

-- For ports of addresses of one family, `ip_port_compare` gives opposite results in the two orders.
pub ip_port_compare-opposite :
    (ntohs : ℕ → ℕ) (ip1 ip2 : IpPort)
    → ip1.addr.family ≡ ip2.addr.family
    → ip_port_compare ntohs ip1 ip2 ≡ opposite (ip_port_compare ntohs ip2 ip1)
unfolding ip_port_compare
ip_port_compare-opposite ntohs ip1 ip2 e =
    rw (same_addr ip1.addr ip2.addr e, compare_word-opposite (ntohs ip1.port) (ntohs ip2.port))
      (then_by-opposite _ _)

-- A mask for which `ip_mask_is_wildcard` holds matches every address of its family.
pub wildcard-match :
    (mask : IpMask) (ip : IpAddr)
    → ip_mask_is_wildcard mask ≡ true
    → mask.addr.family ≡ ip.family
    → ip_mask_match mask.addr mask.cidr ip ≡ some true
unfolding ip_mask_is_wildcard ip_mask_match
wildcard-match mask ip w e =
    let zero_cidr : mask.cidr ≡ 0 = ground arith in rw (e, same_family_refl, zero_cidr) refl
