-- ===== src/IpAddr/Cidr.antt =====
-- Masks and their lengths.
use xxx.Prelude.{
  all_below, all_below-lt, ℕ, ◌+◌, ◌-◌, ◌^◌, ◌≤◌, ◌<◌, ◌≡◌, refl, true, Bool, ◌&&◌, ◌||◌, false,
  ltb, arith, ◌==◌, ap, ◌∙◌,
}
use mathlib.Core.Path.{subst}
use xxx.IpAddr.{ip4_cidr_to_mask, lowest_bit, ip4_mask_to_cidr}

abbrev mask_of : ℕ → ℕ
mask_of cidr = 2 ^ 32 - 1 - (2 ^ (32 - cidr) - 1)

abbrev good : ℕ → Bool
good cidr = (32 - lowest_bit 32 0 (mask_of cidr) == cidr) && ltb (mask_of cidr) (2 ^ 32)

good_table : all_below 32 (λ d. good (d + 1)) ≡ true
unfolding lowest_bit
good_table = refl

good-all : (cidr : ℕ) → 0 < cidr → cidr ≤ 32 → good cidr ≡ true
good-all cidr pos small =
    let e : cidr - 1 + 1 ≡ cidr = omega arith in
    subst (λ c. good c ≡ true) e
      (all_below-lt 32 (λ d. good (d + 1)) (cidr - 1) good_table (omega arith))

mask_to_cidr_lem :
    (ntohl : ℕ → ℕ) (m : ℕ) → ip4_mask_to_cidr ntohl m ≡ 32 - lowest_bit 32 0 (ntohl m)
unfolding ip4_mask_to_cidr
mask_to_cidr_lem ntohl m = refl

cidr_to_mask :
    (htonl ntohl : ℕ → ℕ) (cidr : ℕ)
    → 0 < cidr
    → cidr ≤ 32
    → ip4_mask_to_cidr ntohl (ip4_cidr_to_mask htonl cidr)
      ≡ 32 - lowest_bit 32 0 (ntohl (htonl (mask_of cidr)))
unfolding ip4_cidr_to_mask
cidr_to_mask htonl ntohl cidr pos small =
    let t : (cidr == 0 || ltb 32 cidr) ≡ false = ground arith in
    rw t (mask_to_cidr_lem ntohl (htonl (mask_of cidr)))

-- For any pair of functions that turn a 32-bit number over and back, as `htonl` and `ntohl` do: the
-- mask of a length from 1 to 32 has that length.
pub mask_to_cidr-cidr_to_mask :
    (htonl ntohl : ℕ → ℕ) (cidr : ℕ)
    → ((x : ℕ) → x < 2 ^ 32 → ntohl (htonl x) ≡ x)
    → 0 < cidr
    → cidr ≤ 32
    → ip4_mask_to_cidr ntohl (ip4_cidr_to_mask htonl cidr) ≡ cidr
mask_to_cidr-cidr_to_mask htonl ntohl cidr turn pos small =
    let g = good-all cidr pos small in
    let lt : mask_of cidr < 2 ^ 32 = ground arith in
    cidr_to_mask htonl ntohl cidr pos small
    ∙ ap (λ (m : ℕ). 32 - lowest_bit 32 0 m) (turn (mask_of cidr) lt)
    ∙ ground arith
