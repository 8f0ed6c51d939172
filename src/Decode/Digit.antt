-- ===== src/Decode/Digit.antt =====
-- Characters: hexadecimal digits, and the comparison of C strings without regard to case.
use Prim.Native.Nat.{bit_or}
use xxx.Prelude.{
  ℕ, ◌+◌, ◌-◌, ◌≡◌, ◌⊎◌, inl, inr, arith, Bool, true, false, ◌&&◌, Option, none, some, List, [],
  ◌∷◌, leb, ◌==◌, if◌then◌else◌,
}

-- `_http_character_to_digit`; `none` is -1.
unfoldable pub to_digit : ℕ → Option ℕ
to_digit ch =
    let tmp = bit_or ch 0x20 in
    if leb b'a' tmp && leb tmp b'f'
    then some (tmp - b'a' + 0xa)
    else if leb b'0' tmp && leb tmp b'9'
    then some (tmp - b'0')
    else none

-- `tolower` of the C locale.
abbrev pub to_lower : ℕ → ℕ
to_lower c = if leb b'A' c && leb c b'Z' then c + 32 else c

-- `strncasecmp (p, s, n) == 0` for a lower-case `p` of `n` characters, none of them NUL.
unfoldable pub starts_nocase : List ℕ → List ℕ → Bool
starts_nocase [] s = true
starts_nocase (p ∷ ps) [] = false
starts_nocase (p ∷ ps) (c ∷ s) = to_lower c == p && starts_nocase ps s

-- The letter u is no hexadecimal digit.
pub u-digit : (b : ℕ) → to_lower b ≡ b'u' → to_digit b ≡ none
unfolding to_digit
u-digit b h = elim upper-or-lower [ inl e ↦ rw e | inr e ↦ rw e ]
  where
    upper-or-lower : (b ≡ 85) ⊎ (b ≡ 117)
    upper-or-lower = ground arith
