-- ===== src/Decode/Path/Rounds.antt =====
-- The rounds of `http_decode_path`.
use xxx.Prelude.{
  ℕ, suc, ◌==◌, ◌≡◌, refl, Bool, true, false, some, List, [], ◌∷◌, if◌then◌else◌, length, reverse,
  arith, leb, ltb,
}
use xxx.Decode.Path.{is_slash, ok, error, copy, back, look, no_dots, tail, path_loop}
use xxx.Decode.Path.Segments.{is_name}

-- One round of the loop.
pub step-nul :
    (fuel : ℕ) (seen : Bool) (out input : List ℕ)
    → path_loop (suc fuel) seen out (0 ∷ input) ≡ some (ok (reverse out))
unfolding path_loop
step-nul fuel seen out input = refl

pub step-slash :
    (fuel c : ℕ) (out input : List ℕ)
    → is_slash c ≡ true
    → (path_loop (suc fuel) true out (c ∷ input) ≡ path_loop fuel true out input)
      × (path_loop (suc fuel) false out (c ∷ input) ≡ path_loop fuel true (b'/' ∷ out) input)
unfolding path_loop
step-slash fuel c out input h =
    let plain : (c == 0) ≡ false = ground arith in (rw (plain, h) refl, rw (plain, h) refl)

pub step-name :
    (fuel : ℕ) (seen : Bool) (c : ℕ) (out input : List ℕ)
    → is_name (c ∷ []) ≡ true
    → look (c ∷ input) ≡ no_dots
    → path_loop (suc fuel) seen out (c ∷ input)
      ≡ path_loop fuel false (copy out (c ∷ input)).0 (copy out (c ∷ input)).1
unfolding path_loop
step-name fuel seen c out input h e = ground (arith, e)

pub step-dot :
    (fuel c : ℕ) (out input : List ℕ)
    → is_slash c ≡ true
    → path_loop (suc fuel) true out (b'.' ∷ c ∷ input) ≡ path_loop fuel true out input
unfolding path_loop look
step-dot fuel c out [] h = rw h refl
step-dot fuel c out (d ∷ input) h = rw h refl

pub step-dot_end :
    (fuel : ℕ) (out : List ℕ)
    → path_loop (suc fuel) true out (b'.' ∷ 0 ∷ [])
      ≡ path_loop fuel false (if ltb 1 (length out) then tail out else out) (0 ∷ [])
unfolding path_loop look
step-dot_end fuel out = refl

pub step-dots :
    (fuel c : ℕ) (out input : List ℕ)
    → is_slash c ≡ true
    → path_loop (suc fuel) true out (b'.' ∷ b'.' ∷ c ∷ input) ≡ (
        if leb (length out) 1
        then some error
        else if length (back (tail out)) == 0
        then some error
        else path_loop fuel true (back (tail out)) input)
unfolding path_loop look
step-dots fuel c out input h = let plain : (c == 0) ≡ false = ground arith in rw (plain, h) refl

pub step-dots_end :
    (fuel : ℕ) (out : List ℕ)
    → path_loop (suc fuel) true out (b'.' ∷ b'.' ∷ 0 ∷ []) ≡ (
        if leb (length out) 1
        then some error
        else if leb (length (back (tail out))) 1
        then some error
        else path_loop fuel false (tail (back (tail out))) (0 ∷ []))
unfolding path_loop look
step-dots_end fuel out = refl
