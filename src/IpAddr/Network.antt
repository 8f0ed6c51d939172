-- ===== src/IpAddr/Network.antt =====
-- `ip_mask_match` compares networks.
use xxx.Prelude.{
  ℕ, zero, suc, ◌-◌, ◌*◌, ◌/◌, ◌%◌, ◌^◌, ◌<◌, ◌≡◌, refl, inl, inr, Bool, true, ltb, length-take,
  some, none, List, [], ◌∷◌, arith, length, take, ap, ◌∙◌, sym, get_or, ◌==◌, Bool-cases, all_below,
  all_below-lt, ==_iff, AreBytes, Option-cases, ◌↔◌,
}
use native.Mathlib.Nat.{eq_of_mul-eq-mul_right}
use Prim.Native.Nat.{bit_and}
use xxx.IpAddr.Compare.{memcmp_refl}
use xxx.IpAddr.{
  inet, inet6, other, Family, IpAddr, mask_partial, memcmp, is_same, same_family, ip_mask_match,
}

abbrev masks : ℕ → ℕ → Bool
masks p b = bit_and b (get_or mask_partial p 0) == b / 2 ^ (8 - p) * 2 ^ (8 - p)

abbrev masks_all : ℕ → Bool
masks_all p = all_below 256 (masks p)

-- A partial mask clears the bits behind the first `p`.
partial_mask_lem : (p b : ℕ) → p < 8 → b < 256 → masks p b ≡ true
partial_mask_lem p b h lt = all_below-lt 256 (masks p) b (all_below-lt 8 masks_all p refl h) lt

-- What the masked bytes have in common is their first `p` bits.
masked-eq :
    (p x y : ℕ)
    → p < 8
    → x < 256
    → y < 256
    → bit_and x (get_or mask_partial p 0) ≡ bit_and y (get_or mask_partial p 0)
    → x / 2 ^ (8 - p) ≡ y / 2 ^ (8 - p)
masked-eq p x y h lx ly e =
    let mx = (==_iff _ _).0 (partial_mask_lem p x h lx) in
    let my = (==_iff _ _).0 (partial_mask_lem p y h ly) in
    let room : ltb 0 (2 ^ (8 - p)) ≡ true = all_below-lt 8 (λ q. ltb 0 (2 ^ (8 - q))) p refl h in
    eq_of_mul-eq-mul_right (2 ^ (8 - p)) (ground (arith, room)) _ _ (sym mx ∙ e ∙ my)

eq-masked :
    (p x y : ℕ)
    → p < 8
    → x < 256
    → y < 256
    → x / 2 ^ (8 - p) ≡ y / 2 ^ (8 - p)
    → bit_and x (get_or mask_partial p 0) ≡ bit_and y (get_or mask_partial p 0)
eq-masked p x y h lx ly e =
    let mx = (==_iff _ _).0 (partial_mask_lem p x h lx) in
    let my = (==_iff _ _).0 (partial_mask_lem p y h ly) in
    mx ∙ ap (λ (q : ℕ). q * 2 ^ (8 - p)) e ∙ sym my

memcmp-is_same : (xs ys : List ℕ) → length xs ≡ length ys → is_same (memcmp xs ys) ≡ true → xs ≡ ys
unfolding memcmp
memcmp-is_same [] [] e h = refl
memcmp-is_same [] (y ∷ ys) e h = absurd (omega arith)
memcmp-is_same (x ∷ xs) [] e h = absurd (omega arith)
memcmp-is_same (x ∷ xs) (y ∷ ys) e h = grind (arith, memcmp-is_same xs ys)

same_family-eq : (f g : Family) → same_family f g ≡ true → f ≡ g
same_family-eq inet inet h = refl
same_family-eq inet inet6 h = ground arith
same_family-eq inet (other n) h = ground arith
same_family-eq inet6 inet h = ground arith
same_family-eq inet6 inet6 h = refl
same_family-eq inet6 (other n) h = ground arith
same_family-eq (other m) inet h = ground arith
same_family-eq (other m) inet6 h = ground arith
same_family-eq (other m) (other n) h = let e : m ≡ n = ground arith in ap other e

pub same_family_refl : (f : Family) → same_family f f ≡ true
same_family_refl inet = refl
same_family_refl inet6 = refl
same_family_refl (other n) = ground arith

small-div : (x y : ℕ) → x < 256 → y < 256 → x / 256 ≡ y / 256
small-div x y h k = omega arith

AreBytes-get_or : (bs : List ℕ) (i : ℕ) → AreBytes bs → get_or bs i 0 < 256
AreBytes-get_or [] i h = omega arith
AreBytes-get_or (b ∷ bs) zero h = h.0
AreBytes-get_or (b ∷ bs) (suc i) h = AreBytes-get_or bs i h.1

-- The addresses have their first `cidr` bits in common: the whole bytes, and in the byte behind
-- them the `cidr % 8` bits on the left.
pub record SameNetwork (cidr : ℕ) (mask ip : IpAddr) : Type 0 where
  pub family : mask.family ≡ ip.family
  pub whole : take (cidr / 8) mask.bytes ≡ take (cidr / 8) ip.bytes
  pub part :
      get_or mask.bytes (cidr / 8) 0 / 2 ^ (8 - cidr % 8)
      ≡ get_or ip.bytes (cidr / 8) 0 / 2 ^ (8 - cidr % 8)

module _ (mask ip : IpAddr) (cidr : ℕ) (mask_length : length mask.bytes ≡ 16)
    (ip_length : length ip.bytes ≡ 16) (mask_small : AreBytes mask.bytes)
    (ip_small : AreBytes ip.bytes) (short : cidr < 128) where
  whole-eq :
      is_same (memcmp (take (cidr / 8) mask.bytes) (take (cidr / 8) ip.bytes)) ≡ true
      → take (cidr / 8) mask.bytes ≡ take (cidr / 8) ip.bytes
  whole-eq h =
      memcmp-is_same _ _
        (length-take (cidr / 8) mask.bytes (omega arith)
          ∙ sym (length-take (cidr / 8) ip.bytes (omega arith)))
        h

  match-SameNetwork : ip_mask_match mask cidr ip ≡ some true → SameNetwork cidr mask ip
  unfolding ip_mask_match
  match-SameNetwork h = elim (Bool-cases (cidr == 0)) [
    | inl z ↦
        (let zero_cidr : cidr ≡ 0 = ground arith in
          record {
            family = same_family-eq _ _ (ground arith);
            whole = rw zero_cidr refl;
            part =
                rw zero_cidr
                  (small-div _ _ (AreBytes-get_or _ 0 mask_small) (AreBytes-get_or _ 0 ip_small));
          })
    | inr z ↦ record {
      family = same_family-eq _ _ (ground arith);
      whole = whole-eq (ground arith);
      part =
          masked-eq (cidr % 8) _ _ (omega arith) (AreBytes-get_or _ (cidr / 8) mask_small)
            (AreBytes-get_or _ (cidr / 8) ip_small) ((==_iff _ _).0 (ground arith));
    }
  ]

  SameNetwork-match : SameNetwork cidr mask ip → ip_mask_match mask cidr ip ≡ some true
  unfolding ip_mask_match
  SameNetwork-match s =
      let bits =
        eq-masked (cidr % 8) _ _ (omega arith) (AreBytes-get_or _ (cidr / 8) mask_small)
          (AreBytes-get_or _ (cidr / 8) ip_small) s.part in
      rw (s.family, same_family_refl, s.whole, memcmp_refl, bits) (ground arith)

  match-total : (b : Bool) × (ip_mask_match mask cidr ip ≡ some b)
  unfolding ip_mask_match
  match-total = elim (Option-cases (ip_mask_match mask cidr ip)) [
    | inl e ↦ absurd (ground arith)
    | inr (b, e) ↦ (b, e)
  ]

  -- For addresses of 16 bytes and a mask shorter than 128 bits `ip_mask_match` reads inside the
  -- addresses only, and its result is true exactly if the address is of the family of the mask and
  -- their first `cidr` bits are the same.
  pub ip_mask_match_lem :
      (b : Bool) × (ip_mask_match mask cidr ip ≡ some b) × ((b ≡ true) ↔ SameNetwork cidr mask ip)
  ip_mask_match_lem =
      let (b, e) = match-total in
      (
        b,
        e,
        (
          (λ h. match-SameNetwork (e ∙ ap some h)),
          (λ s. (let t : some b ≡ some true = sym e ∙ SameNetwork-match s in ground arith)),
        ),
      )

-- For a mask of 128 bits and an address equal to the one of the mask, `ip_mask_match` goes on to
-- read the byte behind the address.
pub ip_mask_match-fault : (ip : IpAddr) → ip_mask_match ip 128 ip ≡ none
unfolding ip_mask_match
ip_mask_match-fault ip = rw (same_family_refl ip.family, memcmp_refl) refl
