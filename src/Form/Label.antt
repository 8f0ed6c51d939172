-- ===== src/Form/Label.antt =====
-- The label in front of a part of a form.
use xxx.Prelude.{
  ℕ, zero, suc, ◌+◌, ◌==◌, ◌≡◌, ◌<◌, refl, Bool, true, false, ◌&&◌, ◌||◌, not, some, List, [], ◌∷◌,
  ◌++◌, if◌then◌else◌, length, drop, arith, ap, ◌∙◌, sym, length-append, replicate,
}
use xxx.Form.{
  FormState, same_bytes, count_dashes, wait_label, label_byte, find_label, label_begin, label_run,
  label_null,
}
use xxx.Form.Header.{with_cache-fits, append_cons}

abbrev pub no_dash : List ℕ → Bool
no_dash [] = true
no_dash (c ∷ cs) = not (c == b'-') && no_dash cs

same_bytes_refl : (xs : List ℕ) → same_bytes xs xs ≡ true
same_bytes_refl [] = refl
same_bytes_refl (x ∷ xs) = ground (arith, same_bytes_refl xs)

-- The state in the middle of a label.
abbrev in_label : FormState → List ℕ → ℕ → ℕ → FormState
in_label local cache num st = record local { cache_buf = cache; label_num = num; label_state = st }

count_dashes-name :
    (local : FormState) (cache : List ℕ) (num st c : ℕ)
    → (c == b'-') ≡ false
    → (st == label_begin || st == label_run) ≡ true
    → count_dashes (in_label local cache num st) c ≡ in_label local cache 0 label_run
unfolding count_dashes
count_dashes-name local cache num st c d b =
    let next = λ (k : ℕ). if k == local.label_dashes then label_begin else st in
    ap
      (λ t.
        if t
        then in_label local cache (num + 1) (next (num + 1))
        else in_label local cache 0
            (if st == label_begin || st == label_run then label_run else label_null))
      d
    ∙ ap (λ t. in_label local cache 0 (if t then label_run else label_null)) b

wait_label-fits :
    (local : FormState) (cache str : List ℕ) (c : ℕ)
    → length cache < 511
    → wait_label (in_label local cache 0 label_run) c str ≡ (
        if length (cache ++ c ∷ []) + local.label_dashes == length str
        then (
          same_bytes (cache ++ c ∷ []) (drop local.label_dashes str),
          in_label local [] 0 label_null,
        )
        else (false, in_label local (cache ++ c ∷ []) 0 label_run))
unfolding wait_label
wait_label-fits local cache str c h =
    let l = in_label local cache 0 label_run in
    let next : List ℕ → Bool × FormState = λ text.
      if length text + local.label_dashes == length str
      then (same_bytes text (drop local.label_dashes str), in_label local [] 0 label_null)
      else (false, in_label local text 0 label_run) in
    ap next (with_cache-fits l c h)

-- A byte of the name, which is no dash.
label_byte-name :
    (local : FormState) (cache str : List ℕ) (num st c : ℕ)
    → length cache < 511
    → (c == b'-') ≡ false
    → (st == label_begin || st == label_run) ≡ true
    → label_byte (in_label local cache num st) str c ≡ (
        if length (cache ++ c ∷ []) + local.label_dashes == length str
        then (
          same_bytes (cache ++ c ∷ []) (drop local.label_dashes str),
          in_label local [] 0 label_null,
        )
        else (false, in_label local (cache ++ c ∷ []) 0 label_run))
unfolding label_byte
label_byte-name local cache str num st c h d b =
    let next : FormState → Bool × FormState =
      λ l. if l.label_state == label_run then wait_label l c str else (false, l) in
    ap next (count_dashes-name local cache num st c d b) ∙ wait_label-fits local cache str c h

-- A dash in front of the name.
label_byte-dash :
    (local : FormState) (str : List ℕ) (num st : ℕ) (t : Bool)
    → (st == label_run) ≡ false
    → (num + 1 == local.label_dashes) ≡ t
    → label_byte (in_label local [] num st) str b'-'
      ≡ (false, in_label local [] (num + 1) (if t then label_begin else st))
unfolding label_byte count_dashes
label_byte-dash local str num st t h e =
    let next : FormState → Bool × FormState =
      λ l. if l.label_state == label_run then wait_label l b'-' str else (false, l) in
    let dashed : Bool → FormState =
      λ b. in_label local [] (num + 1) (if b then label_begin else st) in
    let waits : ((if t then label_begin else st) == label_run) ≡ false = ground arith in
    ap (λ b. next (dashed b)) e
    ∙ ap (λ b. if b then wait_label (dashed t) b'-' str else (false, dashed t)) waits

find_label-byte :
    (local local' : FormState) (str : List ℕ) (c : ℕ) (cs : List ℕ)
    → label_byte local str c ≡ (false, local')
    → find_label local str (c ∷ cs) ≡ find_label local' str cs
unfolding find_label
find_label-byte local local' str c cs e =
    ap (λ (r : Bool × FormState). if r.0 then (some cs, r.1) else find_label r.1 str cs) e

find_label-last :
    (local local' : FormState) (str : List ℕ) (c : ℕ) (cs : List ℕ)
    → label_byte local str c ≡ (true, local')
    → find_label local str (c ∷ cs) ≡ (some cs, local')
unfolding find_label
find_label-last local local' str c cs e =
    ap (λ (r : Bool × FormState). if r.0 then (some cs, r.1) else find_label r.1 str cs) e

-- The name, or what is left of it.
find_label-name :
    (local : FormState) (cache str : List ℕ) (num st c : ℕ) (cs rest : List ℕ)
    → length cache + length cs < 511
    → no_dash (c ∷ cs) ≡ true
    → (st == label_begin || st == label_run) ≡ true
    → drop local.label_dashes str ≡ cache ++ c ∷ cs
    → length str ≡ local.label_dashes + (length cache + suc (length cs))
    → find_label (in_label local cache num st) str (c ∷ (cs ++ rest))
      ≡ (some rest, in_label local [] 0 label_null)
find_label-name local cache str num st c [] rest h p b e n =
    let len = length-append cache (c ∷ []) in
    let full : (length (cache ++ c ∷ []) + local.label_dashes == length str) ≡ true =
      ground arith in
    let same = ap (same_bytes (cache ++ c ∷ [])) e ∙ same_bytes_refl (cache ++ c ∷ []) in
    find_label-last _ _ str c rest (
      label_byte-name local cache str num st c (omega arith) (ground arith) b
      ∙ ap
          (λ t.
            if t
            then (
              same_bytes (cache ++ c ∷ []) (drop local.label_dashes str),
              in_label local [] 0 label_null,
            )
            else (false, in_label local (cache ++ c ∷ []) 0 label_run))
          full
      ∙ ap (λ t. (t, in_label local [] 0 label_null)) same)
find_label-name local cache str num st c (d ∷ ds) rest h p b e n =
    let len = length-append cache (c ∷ []) in
    let more : (length (cache ++ c ∷ []) + local.label_dashes == length str) ≡ false =
      ground arith in
    find_label-byte _ _ str c (d ∷ (ds ++ rest)) (
      label_byte-name local cache str num st c (omega arith) (ground arith) b
      ∙ ap
          (λ t.
            if t
            then (
              same_bytes (cache ++ c ∷ []) (drop local.label_dashes str),
              in_label local [] 0 label_null,
            )
            else (false, in_label local (cache ++ c ∷ []) 0 label_run))
          more)
    ∙ find_label-name local (cache ++ c ∷ []) str 0 label_run d ds rest (omega arith) (ground arith)
        refl (e ∙ sym (append_cons cache (d ∷ ds) c)) (omega arith)

-- The dashes that are left.
find_label-dashes :
    (local : FormState) (str rest : List ℕ) (num st n : ℕ)
    → (st == label_run) ≡ false
    → num + suc n ≡ local.label_dashes
    → find_label (in_label local [] num st) str (replicate (suc n) b'-' ++ rest)
      ≡ find_label (in_label local [] local.label_dashes label_begin) str rest
find_label-dashes local str rest num st zero h e =
    let last : (num + 1 == local.label_dashes) ≡ true = ground arith in
    find_label-byte _ _ str b'-' rest (label_byte-dash local str num st true h last)
    ∙ ap (λ k. find_label (in_label local [] k label_begin) str rest) e
find_label-dashes local str rest num st (suc n) h e =
    let more : (num + 1 == local.label_dashes) ≡ false = ground arith in
    find_label-byte _ _ str b'-' (replicate (suc n) b'-' ++ rest)
      (label_byte-dash local str num st false h more)
    ∙ find_label-dashes local str rest (num + 1) st n h (omega arith)

drop-replicate : (n x : ℕ) (xs : List ℕ) → drop n (replicate n x ++ xs) ≡ xs
drop-replicate zero x xs = refl
drop-replicate (suc n) x xs = drop-replicate n x xs

length-label : (n c : ℕ) (cs : List ℕ) → length (replicate n b'-' ++ c ∷ cs) ≡ n + suc (length cs)
length-label zero c cs = ground arith
length-label (suc n) c cs = ground (arith, length-label n c cs)

-- A label of as many dashes as are counted for it, at least one, and a name without dashes of one to
-- 511 bytes is found at its last byte. The wait begins with an empty cache, no dash counted, and in
-- any state but LABEL_STATE_RUN, also the 0 of a new `local_t`; it ends so in LABEL_STATE_NULL, and
-- the bytes behind the label are left.
pub find_label-replicate :
    (local : FormState) (n c : ℕ) (cs rest : List ℕ)
    → local.cache_buf ≡ []
    → local.label_num ≡ 0
    → (local.label_state == label_run) ≡ false
    → local.label_dashes ≡ suc n
    → no_dash (c ∷ cs) ≡ true
    → length cs < 511
    → find_label local
        (replicate (suc n) b'-' ++ c ∷ cs)
        (replicate (suc n) b'-' ++ c ∷ (cs ++ rest))
      ≡ (some rest, record local { label_state = label_null })
find_label-replicate local n c cs rest empty zero_num state k p h =
    let str = replicate (suc n) b'-' ++ c ∷ cs in
    let bytes = replicate (suc n) b'-' ++ c ∷ (cs ++ rest) in
    let st = local.label_state in
    let cut = ap (λ m. drop m str) k ∙ drop-replicate (suc n) b'-' (c ∷ cs) in
    let long = length-label n c cs in
    let same : local ≡ in_label local [] 0 st =
      ap (λ xs. in_label local xs local.label_num st) empty
      ∙ ap (λ m. in_label local [] m st) zero_num in
    ap (λ l. find_label l str bytes) same
    ∙ find_label-dashes local str (c ∷ (cs ++ rest)) 0 st n state (omega arith)
    ∙ find_label-name local [] str local.label_dashes label_begin c cs rest (omega arith) p refl cut
        (omega arith)
    ∙ ap (λ l. (some rest, record l { label_state = label_null })) (sym same)
