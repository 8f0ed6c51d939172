-- ===== src/Text/Strip.antt =====
-- `strlstrip` of a text with blanks around it.
use mathlib.Core.List.{reverse-reverse}
use xxx.Prelude.{ℕ, ◌≡◌, Bool, true, ◌&&◌, List, [], ◌∷◌, ◌++◌, reverse, arith, ap, ◌∙◌}
use xxx.Text.{is_blank, strip_left, strlstrip}

abbrev pub all_blank : List ℕ → Bool
all_blank [] = true
all_blank (c ∷ cs) = is_blank c && all_blank cs

-- No blank at the begin and none at the end.
abbrev pub IsTrimmed : List ℕ → Type 0
IsTrimmed w = (strip_left w ≡ w) × (strip_left (reverse w) ≡ reverse w)

pub strip_left-append :
    (bs w : List ℕ) → all_blank bs ≡ true → strip_left w ≡ w → strip_left (bs ++ w) ≡ w
unfolding strip_left
strip_left-append [] w h t = t
strip_left-append (b ∷ bs) w h t =
    let blank : is_blank b ≡ true = ground arith in
    rw blank (strip_left-append bs w (ground arith) t)

pub strlstrip-append : (bs w : List ℕ) → all_blank bs ≡ true → IsTrimmed w → strlstrip (bs ++ w) ≡ w
unfolding strlstrip
strlstrip-append bs w h (left, right) =
    ap (λ r. reverse (strip_left (reverse r))) (strip_left-append bs w h left)
    ∙ ap reverse right
    ∙ reverse-reverse w
