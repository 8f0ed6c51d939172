-- ===== src/Text/Search.antt =====
-- What `strlstr` finds.
use xxx.Prelude.{
  ℕ, zero, suc, ◌+◌, ◌-◌, ◌≤◌, ◌<◌, ◌≡◌, refl, ◌==◌, Bool, true, false, ◌&&◌, Option, none, some,
  List, [], ◌∷◌, length, drop, arith,
}
use mathlib.Core.Option
use xxx.Text.{starts, find_loop, strlstr}

pub starts-total :
    (pattern mem : List ℕ)
    → length pattern ≤ length mem
    → (b : Bool) × (starts pattern mem ≡ some b)
unfolding starts
starts-total [] mem h = (true, refl)
starts-total (p ∷ ps) [] h = absurd (omega arith)
starts-total (p ∷ ps) (c ∷ mem) h =
    let (b, e) = starts-total ps mem (omega arith) in (c == p && b, rw e)

-- No match starts at one of the first `n` bytes, or else `Found` tells where the first one starts.
abbrev pub Found : List ℕ → List ℕ → ℕ → Option ℕ → Type 0
Found pattern mem n none = (i : ℕ) → i < n → starts pattern (drop i mem) ≡ some false
Found pattern mem n (some k) =
    (k < n)
    × (starts pattern (drop k mem) ≡ some true)
    × ((i : ℕ) → i < k → starts pattern (drop i mem) ≡ some false)

Found-suc :
    (pattern mem : List ℕ) (n c : ℕ) (r : Option ℕ)
    → starts pattern (c ∷ mem) ≡ some false
    → Found pattern mem n r
    → Found pattern (c ∷ mem) (suc n) (Option.map suc r)
Found-suc pattern mem n c none e h = later
  where
    later : (i : ℕ) → i < suc n → starts pattern (drop i (c ∷ mem)) ≡ some false
    later zero lt = e
    later (suc i) lt = h i (omega arith)
Found-suc pattern mem n c (some k) e (lt, at, h) = (omega arith, at, later)
  where
    later : (i : ℕ) → i < suc k → starts pattern (drop i (c ∷ mem)) ≡ some false
    later zero lt = e
    later (suc i) lt = h i (omega arith)

pub find_loop-Found :
    (rounds : ℕ) (pattern mem : List ℕ)
    → 0 < length pattern
    → rounds + length pattern ≤ suc (length mem)
    → (r : Option ℕ) × (find_loop rounds pattern mem ≡ some r) × Found pattern mem rounds r
unfolding find_loop
find_loop-Found zero pattern mem pos h = (none, refl, (λ i lt. absurd (omega arith)))
find_loop-Found (suc rounds) pattern [] pos h = absurd (omega arith)
find_loop-Found (suc rounds) pattern (c ∷ mem) pos h =
    let (r, e, found) = find_loop-Found rounds pattern mem pos (omega arith) in
    let (b, s) = starts-total pattern (c ∷ mem) (omega arith) in split r e found b s
  where
    split :
        (r : Option ℕ)
        → find_loop rounds pattern mem ≡ some r
        → Found pattern mem rounds r
        → (b : Bool) → starts pattern (c ∷ mem) ≡ some b
        → (r' : Option ℕ) × (find_loop (suc rounds) pattern (c ∷ mem) ≡ some r')
          × Found pattern (c ∷ mem) (suc rounds) r'
    split r e found true s = (some 0, rw s, (omega arith, s, (λ i lt. absurd (omega arith))))
    split r e found false s =
        (Option.map suc r, rw (s, e), Found-suc pattern mem rounds c r s found)

-- For a pattern that is not empty and no longer than the `slen` bytes, `strlstr` reads these bytes
-- only, and finds the first place among them where the pattern stands, if there is one.
pub strlstr-Found :
    (src : List ℕ) (slen : ℕ) (pattern : List ℕ)
    → 0 < length pattern
    → length pattern ≤ slen
    → slen ≤ length src
    → (r : Option ℕ) × (strlstr src slen pattern ≡ some r)
      × Found pattern src (suc (slen - length pattern)) r
unfolding strlstr
strlstr-Found src slen pattern pos fits h =
    find_loop-Found (suc (slen - length pattern)) pattern src pos (omega arith)
