-- ===== src/IpAddr.antt =====
-- Addresses and masks of http/ip_addr.c. An address is its bytes in network order, so `ntohl` of a
-- field `s_addr` is the big-endian number of its four bytes. A pointer argument that is NULL, which
-- the functions refuse first of all, is not part of the model.
pub mod Cidr
pub mod Compare
pub mod Mask
pub mod Network
pub mod Order
use Prim.Native.Nat.{bit_and, compare, Ordering}
use xxx.Prelude.{
  ℕ, zero, suc, ◌+◌, ◌-◌, ◌*◌, ◌/◌, ◌%◌, ◌^◌, Bool, true, false, ◌&&◌, ◌||◌, Option, none, some,
  List, [], ◌∷◌, ◌++◌, ltb, leb, ◌==◌, if◌then◌else◌, get_or, set, take, drop, replicate,
}

pub data Family : Type 0 where
  inet inet6 : Family
  other : ℕ → Family

-- `ip_addr_t`: the family, and the 16 bytes of the union.
pub record IpAddr : Type 0 where
  pub family : Family
  pub bytes : List ℕ

-- `_s_mask_partial`
abbrev pub mask_partial : List ℕ
mask_partial = 0x00 ∷ 0x80 ∷ 0xc0 ∷ 0xe0 ∷ 0xf0 ∷ 0xf8 ∷ 0xfc ∷ 0xfe ∷ 0xff ∷ []

-- `ip4_cidr_to_mask`, for the function `htonl` of the C library.
pub ip4_cidr_to_mask : (htonl : ℕ → ℕ) → ℕ → ℕ
ip4_cidr_to_mask htonl cidr =
    if cidr == 0 || ltb 32 cidr then 0 else htonl (2 ^ 32 - 1 - (2 ^ (32 - cidr) - 1))

-- The loop of `ip4_mask_to_cidr`, with the rounds that are left: the first set bit from `i` on.
pub lowest_bit : ℕ → ℕ → ℕ → ℕ
lowest_bit zero i mask = i
lowest_bit (suc rounds) i mask = if mask / 2 ^ i % 2 == 1 then i else lowest_bit rounds (i + 1) mask

-- `ip4_mask_to_cidr`
pub ip4_mask_to_cidr : (ntohl : ℕ → ℕ) → ℕ → ℕ
unfolding lowest_bit
ip4_mask_to_cidr ntohl mask = 32 - lowest_bit 32 0 (ntohl mask)

-- What a function that changes an address returns: 0 with the address, -1, or a write outside it.
pub data Result : Type 0 where
  ok : List ℕ → Result
  error : Result
  fault : Result

-- `for (i = start; i < 16; ++i) ptr[i] = 0;` with the rounds that are left.
pub zero_loop : ℕ → ℕ → List ℕ → List ℕ
zero_loop zero i bytes = bytes
zero_loop (suc rounds) i bytes = zero_loop rounds (suc i) (set bytes i 0)

-- The bodies of `_ip4_apply_mask` and `_ip6_apply_mask`, which are the same behind their guards.
pub mask_bytes : List ℕ → ℕ → Result
unfolding zero_loop
mask_bytes bytes cidr =
    let whole = cidr / 8 in
    let partial = cidr % 8 in
    let masked = bit_and (get_or bytes (whole + 1) 0) (get_or mask_partial partial 0) in
    if partial == 0
    then ok (zero_loop (16 - whole) whole bytes)
    else if leb 16 (whole + 1)
    then fault
    else ok (zero_loop (16 - (whole + 1)) (whole + 1) (set bytes (whole + 1) masked))

-- `ip_addr_apply_mask`
pub ip_addr_apply_mask : IpAddr → ℕ → Result
unfolding mask_bytes
ip_addr_apply_mask ip cidr = elim ip.family [
  | inet ↦ if cidr == 0 || ltb 31 cidr then error else mask_bytes ip.bytes cidr
  | inet6 ↦ if cidr == 0 || ltb 128 cidr then error else mask_bytes ip.bytes cidr
  | other n ↦ error
]

-- `ip_addr_v4_to_v6`; `none` is -1.
unfoldable pub ip_addr_v4_to_v6 : IpAddr → Option IpAddr
ip_addr_v4_to_v6 v4 = elim v4.family [
  | inet ↦ some (record { family = inet6; bytes = replicate 10 0 ++ 0xff ∷ 0xff ∷ take 4 v4.bytes })
  | inet6 ↦ none
  | other n ↦ none
]

-- `ntohl` of four bytes.
abbrev pub be32 : List ℕ → ℕ
be32 b = ((get_or b 0 0 * 256 + get_or b 1 0) * 256 + get_or b 2 0) * 256 + get_or b 3 0

abbrev pub all_zero : List ℕ → Bool
all_zero [] = true
all_zero (b ∷ bs) = b == 0 && all_zero bs

-- `IP_ADDR_IS_V4MAPPED`, with the macros of the system's headers that it uses.
pub is_v4mapped : IpAddr → Bool
is_v4mapped ip = elim ip.family [
  | inet ↦ false
  | inet6 ↦
      all_zero (take 10 ip.bytes) && get_or ip.bytes 10 0 == 0xff && get_or ip.bytes 11 0 == 0xff
      || all_zero (take 12 ip.bytes) && ltb 1 (be32 (drop 12 ip.bytes))
  | other n ↦ false
]

-- `ip_addr_v6_to_v4`: the new value of `*v4`, whose other bytes stay; `none` is -1.
pub ip_addr_v6_to_v4 : IpAddr → IpAddr → Option IpAddr
unfolding is_v4mapped
ip_addr_v6_to_v4 v6 v4 =
    if is_v4mapped v6
    then some (record { family = inet; bytes = take 4 (drop 12 v6.bytes) ++ drop 4 v4.bytes })
    else none

-- The sign of a comparison's result.
pub data Sign : Type 0 where
  below same above : Sign

unfoldable pub compare_word : ℕ → ℕ → Sign
compare_word lv rv = if lv == rv then same else if ltb lv rv then below else above

-- `memcmp` of two objects of the same size.
pub memcmp : List ℕ → List ℕ → Sign
memcmp [] ys = same
memcmp (x ∷ xs) [] = same
memcmp (x ∷ xs) (y ∷ ys) = if x == y then memcmp xs ys else if ltb x y then below else above

-- The end of `ip_addr_compare`, for addresses of different families of which one is `AF_INET`: the
-- converted address `v6` is compared with `bytes`, in the order of the source.
pub compare_converted : Option IpAddr → Bool → List ℕ → Sign
compare_converted none left bytes = below
compare_converted (some v6) true bytes = memcmp v6.bytes bytes
compare_converted (some v6) false bytes = memcmp bytes v6.bytes

-- `ip_addr_compare` of two different objects.
unfoldable pub ip_addr_compare : IpAddr → IpAddr → Sign
unfolding compare_converted compare_word
ip_addr_compare ip1 ip2 = elim ip1.family [
  | inet ↦ elim ip2.family [
    | inet ↦ compare_word (be32 ip1.bytes) (be32 ip2.bytes)
    | _ ↦ compare_converted (ip_addr_v4_to_v6 ip2) true ip2.bytes
  ]
  | inet6 ↦ elim ip2.family [
    | inet ↦ compare_converted (ip_addr_v4_to_v6 ip2) false ip1.bytes
    | inet6 ↦ memcmp ip1.bytes ip2.bytes
    | other n ↦ below
  ]
  | other k ↦ elim ip2.family [
    | inet ↦ compare_converted (ip_addr_v4_to_v6 ip2) false ip1.bytes
    | inet6 ↦ below
    | other n ↦ if k == n then memcmp ip1.bytes ip2.bytes else below
  ]
]

abbrev pub same_family : Family → Family → Bool
same_family inet inet = true
same_family inet6 inet6 = true
same_family (other m) (other n) = m == n
same_family _ _ = false

abbrev pub is_same : Sign → Bool
is_same same = true
is_same _ = false

-- `ip_mask_match`, for the address and the field `cidr` of the mask; `none` is a read behind the
-- address.
unfoldable pub ip_mask_match : IpAddr → ℕ → IpAddr → Option Bool
unfolding memcmp
ip_mask_match mask cidr ip =
    let whole = cidr / 8 in
    let partial_mask = get_or mask_partial (cidr % 8) 0 in
    let masked = λ (bytes : List ℕ). bit_and (get_or bytes whole 0) partial_mask in
    if same_family mask.family ip.family
    then if cidr == 0
      then some true
      else if ltb 16 whole
      then none
      else if is_same (memcmp (take whole mask.bytes) (take whole ip.bytes))
      then if leb 16 whole then none else some (masked mask.bytes == masked ip.bytes)
      else some false
    else some false
