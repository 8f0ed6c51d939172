-- ===== src/Tests/Addresses.antt =====
-- Addresses and masks of http/ip_addr.c.
use xxx.Prelude.{
  ℕ, Bool, true, false, ◌↔◌, ◌^◌, ◌<◌, ◌≡◌, refl, inl, some, [], ◌∷◌, ◌++◌, arith, replicate,
}
use xxx.IpAddr.{
  inet, inet6, IpAddr, ok, ip_addr_apply_mask, ip_addr_v4_to_v6, below, above, ip_addr_compare,
  compare_word, ip_mask_match,
}
use xxx.IpAddr.Network.{SameNetwork, ip_mask_match_lem}
use xxx.IpAddr.Order.{IpMask, ip_mask_compare, ip_mask_is_wildcard, ip_port_compare}
use xxx.IpAddr.Mask.{ip_addr_apply_mask_lem}

-- 10.255.255.1
abbrev v4 : IpAddr
v4 = record { family = inet; bytes = 10 ∷ 255 ∷ 255 ∷ 1 ∷ replicate 12 0 }

abbrev v6 : IpAddr
v6 = record { family = inet6; bytes = replicate 10 0 ++ 255 ∷ 255 ∷ 10 ∷ 255 ∷ 255 ∷ 1 ∷ [] }

converted : ip_addr_v4_to_v6 v4 ≡ some v6
unfolding ip_addr_v4_to_v6
converted = refl

-- A machine whose numbers are in network order.
turn : (x : ℕ) → x < 2 ^ 32 → x ≡ x
turn x lt = refl

-- 12 bits of 10.255.255.1 should be 10.240.0.0.
ip_addr_apply_mask_lem_example : ip_addr_apply_mask v4 12 ≡ ok (10 ∷ 255 ∷ replicate 14 0)
ip_addr_apply_mask_lem_example =
    ip_addr_apply_mask_lem v4 12 refl (omega arith) (inl (refl, omega arith))

-- 10.240.0.0
abbrev net : IpAddr
net = record { family = inet; bytes = 10 ∷ 240 ∷ replicate 14 0 }

match_runs :
    (ip_mask_match net 12 v4 ≡ some true)
    × (ip_mask_match net 16 v4 ≡ some false)
    × (ip_mask_match net 12 v6 ≡ some false)
unfolding ip_mask_match
match_runs = (refl, refl, refl)

ip_mask_match_lem_example :
    (b : Bool) × (ip_mask_match net 12 v4 ≡ some b) × ((b ≡ true) ↔ SameNetwork 12 net v4)
ip_mask_match_lem_example =
    ip_mask_match_lem net v4 12 refl refl (omega arith) (omega arith) (omega arith)

abbrev net12 : IpMask
net12 = record { addr = net; cidr = 12 }

abbrev net16 : IpMask
net16 = record { addr = net; cidr = 16 }

mask_runs :
    (ip_mask_compare net12 net16 ≡ below)
    × (ip_mask_is_wildcard net12 ≡ false)
    × (ip_port_compare
          (λ p. p)
          (record { addr = v4; port = 80 })
          (record { addr = net; port = 443 })
        ≡ above)
unfolding ip_mask_compare ip_mask_is_wildcard ip_port_compare ip_addr_compare compare_word
mask_runs = (refl, refl, refl)
