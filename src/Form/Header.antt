-- ===== src/Form/Header.antt =====
-- The header of a part of a form.
use xxx.Prelude.{
  ℕ, ◌+◌, ◌-◌, ◌==◌, ◌≡◌, ◌<◌, refl, Bool, true, false, ◌&&◌, not, Option, none, some, List, [],
  ◌∷◌, ◌++◌, if◌then◌else◌, length, ltb, arith, ap, ◌∙◌, sym, take, length-append,
}
use xxx.Text.{strlcpy2}
use xxx.Head.Lines.{is_plain}
use xxx.Form.{FormState, with_cache, header_state, wait_line, behind_byte, wait_header}

-- The lines of a header, none of them empty, each with its CR LF, and the empty line behind them.
abbrev pub lines_bytes : List (List ℕ) → List ℕ
lines_bytes [] = 13 ∷ 10 ∷ []
lines_bytes (l ∷ ls) = l ++ 13 ∷ 10 ∷ lines_bytes ls

abbrev pub AreLines : List (List ℕ) → Type 0
AreLines [] = Unit
AreLines (l ∷ ls) = (0 < length l) × ((is_plain l ≡ true) × AreLines ls)

-- A byte that fits.
pub with_cache-fits :
    (local : FormState) (c : ℕ)
    → length local.cache_buf < 511
    → with_cache local (c ∷ []) ≡ local.cache_buf ++ c ∷ []
unfolding strlcpy2
with_cache-fits local c h =
    let n = length local.cache_buf in
    let e : (ltb 0 (512 - n) && ltb (512 - n - 1) 1) ≡ false = ground arith in
    ap (λ b. local.cache_buf ++ (if b then take (512 - n - 1) (c ∷ []) else c ∷ [])) e

-- The state with this cache, in this state of the header.
abbrev goes : FormState → List ℕ → ℕ → FormState
goes local cache st = record local { cache_buf = cache; form_header_state = st }

wait_header-step :
    (local : FormState) (cache : List ℕ) (st c : ℕ) (cs : List ℕ)
    → length cache < 511
    → (header_state st c == 4) ≡ false
    → wait_header (goes local cache st) (c ∷ cs)
      ≡ wait_header (goes local (cache ++ c ∷ []) (header_state st c)) cs
unfolding wait_line wait_header
wait_header-step local cache st c cs h e =
    let l = goes local cache st in
    let next : Bool → List ℕ → Option (List ℕ) × FormState =
      λ b text. if b then (some text, goes l [] 0) else (none, goes l text (header_state st c)) in
    let out =
      ap (λ b. next b (with_cache l (c ∷ []))) e ∙ ap (next false) (with_cache-fits l c h) in
    ap (λ r. behind_byte r cs (wait_header r.1 cs)) out

wait_header-end :
    (local : FormState) (cache cs : List ℕ)
    → length cache < 511
    → wait_header (goes local cache 3) (10 ∷ cs) ≡ (some (cache ++ 10 ∷ [], cs), goes local [] 0)
unfolding wait_line wait_header header_state
wait_header-end local cache cs h =
    ap (λ text. (some (text, cs), goes local [] 0)) (with_cache-fits (goes local cache 3) 10 h)

header_state-plain : (st b : ℕ) → (not (b == 13) && not (b == 10)) ≡ true → header_state st b ≡ 0
unfolding header_state
header_state-plain st b h = ground arith

pub append_cons : (xs ys : List ℕ) (x : ℕ) → (xs ++ x ∷ []) ++ ys ≡ xs ++ x ∷ ys
append_cons [] ys x = refl
append_cons (z ∷ xs) ys x = ap (λ zs. z ∷ zs) (append_cons xs ys x)

append_assoc : (xs ys zs : List ℕ) → (xs ++ ys) ++ zs ≡ xs ++ (ys ++ zs)
append_assoc [] ys zs = refl
append_assoc (x ∷ xs) ys zs = ap (λ ws. x ∷ ws) (append_assoc xs ys zs)

pub append_nil : (xs : List ℕ) → xs ++ [] ≡ xs
append_nil [] = refl
append_nil (x ∷ xs) = ap (λ ys. x ∷ ys) (append_nil xs)

-- A byte behind which the header goes on.
wait_header-byte :
    (local : FormState) (cache : List ℕ) (st st' c : ℕ) (cs : List ℕ)
    → length cache < 511
    → header_state st c ≡ st'
    → (st' == 4) ≡ false
    → wait_header (goes local cache st) (c ∷ cs) ≡ wait_header (goes local (cache ++ c ∷ []) st') cs
wait_header-byte local cache st st' c cs h e n =
    wait_header-step local cache st c cs h (ap (λ k. k == 4) e ∙ n)
    ∙ ap (λ k. wait_header (goes local (cache ++ c ∷ []) k) cs) e

wait_header-plain :
    (local : FormState) (cache bs rest : List ℕ)
    → length cache + length bs < 511
    → is_plain bs ≡ true
    → wait_header (goes local cache 0) (bs ++ rest) ≡ wait_header (goes local (cache ++ bs) 0) rest
wait_header-plain local cache [] rest h p =
    ap (λ cs. wait_header (goes local cs 0) rest) (sym (append_nil cache))
wait_header-plain local cache (b ∷ bs) rest h p =
    let len = length-append cache (b ∷ []) in
    wait_header-byte local cache 0 0 b (bs ++ rest) (omega arith)
      (header_state-plain 0 b (ground arith)) refl
    ∙ wait_header-plain local (cache ++ b ∷ []) bs rest (omega arith) (ground arith)
    ∙ ap (λ cs. wait_header (goes local cs 0) rest) (append_cons cache bs b)

wait_header-crlf :
    (local : FormState) (cache rest : List ℕ)
    → length cache < 510
    → wait_header (goes local cache 0) (13 ∷ 10 ∷ rest)
      ≡ wait_header (goes local (cache ++ 13 ∷ 10 ∷ []) 2) rest
unfolding header_state
wait_header-crlf local cache rest h =
    let len = length-append cache (13 ∷ []) in
    wait_header-byte local cache 0 1 13 (10 ∷ rest) (omega arith) refl refl
    ∙ wait_header-byte local (cache ++ 13 ∷ []) 1 2 10 rest (omega arith) refl refl
    ∙ ap (λ cs. wait_header (goes local cs 2) rest) (append_cons cache (10 ∷ []) 13)

-- A line of the header, behind the label or another line.
wait_header-line :
    (local : FormState) (cache : List ℕ) (st b : ℕ) (bs rest : List ℕ)
    → length cache + length bs + 2 < 511
    → is_plain (b ∷ bs) ≡ true
    → wait_header (goes local cache st) (b ∷ (bs ++ 13 ∷ 10 ∷ rest))
      ≡ wait_header (goes local (cache ++ b ∷ (bs ++ 13 ∷ 10 ∷ [])) 2) rest
wait_header-line local cache st b bs rest h p =
    let len = length-append cache (b ∷ []) in
    let len' = length-append (cache ++ b ∷ []) bs in
    wait_header-byte local cache st 0 b (bs ++ 13 ∷ 10 ∷ rest) (omega arith)
      (header_state-plain st b (ground arith)) refl
    ∙ wait_header-plain local (cache ++ b ∷ []) bs (13 ∷ 10 ∷ rest) (omega arith) (ground arith)
    ∙ wait_header-crlf local ((cache ++ b ∷ []) ++ bs) rest (omega arith)
    ∙ ap (λ cs. wait_header (goes local cs 2) rest)
        (append_assoc (cache ++ b ∷ []) bs (13 ∷ 10 ∷ [])
          ∙ append_cons cache (bs ++ (13 ∷ 10 ∷ [])) b)

-- A line and then the rest of the header.
wait_header-rest :
    (local : FormState) (cache : List ℕ) (st b : ℕ) (bs : List ℕ) (ls : List (List ℕ))
    (rest : List ℕ)
    → length cache + length bs + 2 < 511
    → is_plain (b ∷ bs) ≡ true
    → wait_header (goes local (cache ++ b ∷ (bs ++ 13 ∷ 10 ∷ [])) 2) (lines_bytes ls ++ rest)
      ≡ (some ((cache ++ b ∷ (bs ++ 13 ∷ 10 ∷ [])) ++ lines_bytes ls, rest), goes local [] 0)
    → wait_header (goes local cache st) (lines_bytes ((b ∷ bs) ∷ ls) ++ rest)
      ≡ (some (cache ++ lines_bytes ((b ∷ bs) ∷ ls), rest), goes local [] 0)
wait_header-rest local cache st b bs ls rest h p later =
    let bytes = lines_bytes ls in
    let line = b ∷ (bs ++ 13 ∷ 10 ∷ []) in
    let whole : (cache ++ line) ++ bytes ≡ cache ++ lines_bytes ((b ∷ bs) ∷ ls) =
      append_assoc cache line bytes
      ∙ ap (λ w. cache ++ b ∷ w) (append_assoc bs (13 ∷ 10 ∷ []) bytes) in
    ap (λ w. wait_header (goes local cache st) (b ∷ w)) (append_assoc bs (13 ∷ 10 ∷ bytes) rest)
    ∙ wait_header-line local cache st b bs (bytes ++ rest) h p
    ∙ later
    ∙ ap (λ cs. (some (cs, rest), goes local [] 0)) whole

-- The lines and the empty line behind another line.
wait_header-lines :
    (local : FormState) (cache : List ℕ) (ls : List (List ℕ)) (rest : List ℕ)
    → AreLines ls
    → length cache + length (lines_bytes ls) < 512
    → wait_header (goes local cache 2) (lines_bytes ls ++ rest)
      ≡ (some (cache ++ lines_bytes ls, rest), goes local [] 0)
unfolding header_state
wait_header-lines local cache [] rest all h =
    let len = length-append cache (13 ∷ []) in
    wait_header-byte local cache 2 3 13 (10 ∷ rest) (omega arith) refl refl
    ∙ wait_header-end local (cache ++ 13 ∷ []) rest (omega arith)
    ∙ ap (λ cs. (some (cs, rest), goes local [] 0)) (append_cons cache (10 ∷ []) 13)
wait_header-lines local cache ([] ∷ ls) rest (pos, all) h = absurd (omega arith)
wait_header-lines local cache ((b ∷ bs) ∷ ls) rest (pos, (p, all)) h =
    let line = b ∷ (bs ++ 13 ∷ 10 ∷ []) in
    let len = length-append bs (13 ∷ 10 ∷ lines_bytes ls) in
    let len1 = length-append cache line in
    let len2 = length-append bs (13 ∷ 10 ∷ []) in
    let later = wait_header-lines local (cache ++ line) ls rest all (omega arith) in
    wait_header-rest local cache 2 b bs ls rest (omega arith) p later

-- Behind a label, with an empty cache and `form_header_state` 0, the CR LF that ends its line and a
-- header of lines that are not empty, no more than 511 bytes together, are found
-- whole; the wait ends in the state that it began in, and the bytes behind the header are left.
pub wait_header-lines_bytes :
    (local : FormState) (ls : List (List ℕ)) (rest : List ℕ)
    → local.cache_buf ≡ []
    → local.form_header_state ≡ 0
    → AreLines ls
    → length (lines_bytes ls) + 2 < 512
    → wait_header local (13 ∷ 10 ∷ (lines_bytes ls ++ rest))
      ≡ (some (13 ∷ 10 ∷ lines_bytes ls, rest), local)
wait_header-lines_bytes local ls rest e st all h =
    let bytes = 13 ∷ 10 ∷ (lines_bytes ls ++ rest) in
    let same : local ≡ goes local [] 0 =
      ap (λ cs. goes local cs local.form_header_state) e ∙ ap (goes local []) st in
    ap (λ l. wait_header l bytes) same
    ∙ wait_header-crlf local [] (lines_bytes ls ++ rest) (omega arith)
    ∙ wait_header-lines local (13 ∷ 10 ∷ []) ls rest all (omega arith)
    ∙ ap (λ l. (some (13 ∷ 10 ∷ lines_bytes ls, rest), l)) (sym same)
