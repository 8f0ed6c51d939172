-- ===== src/Form.antt =====
-- http/http_form.c: the states of `http_parse_form` in front of a part and in its header. The result
-- `true` of the wait for a label, and the text in that of the wait for a line, are the values other
-- than -1; the text is what `cache_buf` holds then.
pub mod Header
pub mod Label
use mathlib.Core.Option
use xxx.Prelude.{
  ℕ, zero, suc, ◌+◌, ◌-◌, ◌==◌, Bool, true, false, ◌&&◌, ◌||◌, not, Option, none, some, List, [],
  ◌∷◌, ◌++◌, if◌then◌else◌, length, drop, take, ◌>>=◌,
}
use xxx.Text.{strlstr, strlcpy2}

-- The members of `local_t` for a form; `cache_buf` is its first `cache_buf_len` bytes.
pub record FormState : Type 0 where
  pub cache_buf : List ℕ
  pub form_header_state : ℕ
  pub label_num : ℕ
  pub label_state : ℕ
  pub label_dashes : ℕ

abbrev pub label_begin : ℕ
label_begin = 1

abbrev pub label_run : ℕ
label_run = 2

abbrev pub label_null : ℕ
label_null = 3

-- The cache of 512 bytes with what still fits in it.
abbrev pub with_cache : FormState → List ℕ → List ℕ
with_cache local bytes = local.cache_buf ++ strlcpy2 (512 - length local.cache_buf) bytes

abbrev pub same_bytes : List ℕ → List ℕ → Bool
same_bytes [] [] = true
same_bytes (x ∷ xs) (y ∷ ys) = x == y && same_bytes xs ys
same_bytes xs ys = false

-- `http_wait_label_str` with one byte.
unfoldable pub wait_label : FormState → ℕ → List ℕ → Bool × FormState
wait_label local c str =
    let cache = with_cache local (c ∷ []) in
    if length cache + local.label_dashes == length str
    then (
      same_bytes cache (drop local.label_dashes str),
      record local { cache_buf = []; label_state = label_null },
    )
    else (false, record local { cache_buf = cache })

-- The switch on a byte in the states HTTP_FORM_BEGIN and HTTP_FORM_BODY.
unfoldable pub count_dashes : FormState → ℕ → FormState
count_dashes local c =
    let num = local.label_num + 1 in
    if c == b'-'
    then record local {
      label_num = num;
      label_state = if num == local.label_dashes then label_begin else local.label_state;
    }
    else record local {
      label_num = 0;
      label_state =
          if local.label_state == label_begin || local.label_state == label_run
          then label_run
          else label_null;
    }

-- One byte in the state HTTP_FORM_BEGIN: whether the label is complete.
unfoldable pub label_byte : FormState → List ℕ → ℕ → Bool × FormState
unfolding count_dashes wait_label
label_byte local str c =
    let local' = count_dashes local c in
    if local'.label_state == label_run then wait_label local' c str else (false, local')

-- The rounds of `http_parse_form` in the state HTTP_FORM_BEGIN: the bytes behind the label, or
-- nothing if it does not end in the data.
unfoldable pub find_label : FormState → List ℕ → List ℕ → Option (List ℕ) × FormState
unfolding label_byte
find_label local str [] = (none, local)
find_label local str (c ∷ cs) =
    let r = label_byte local str c in
    let rest = find_label r.1 str cs in if r.0 then (some cs, r.1) else rest

-- `form_header_state` behind a byte, 4 at the end of the header.
unfoldable pub header_state : ℕ → ℕ → ℕ
header_state st c =
    if c == 13
    then if st == 0 then 1 else if st == 2 then 3 else st
    else if c == 10
    then if st == 1 then 2 else if st == 3 then 4 else st
    else 0

-- `http_wait_line_str` with one byte.
unfoldable pub wait_line : FormState → ℕ → Option (List ℕ) × FormState
unfolding header_state
wait_line local c =
    let cache = with_cache local (c ∷ []) in
    let st = header_state local.form_header_state c in
    if st == 4
    then (some cache, record local { cache_buf = []; form_header_state = 0 })
    else (none, record local { cache_buf = cache; form_header_state = st })

-- Behind a byte of the header, with the bytes that follow and what their rounds would give.
abbrev pub behind_byte :
    Option (List ℕ) × FormState
    → List ℕ
    → Option (List ℕ × List ℕ) × FormState
    → Option (List ℕ × List ℕ) × FormState
behind_byte (none, local) cs rest = rest
behind_byte (some text, local) cs rest = (some (text, cs), local)

-- The rounds of `http_parse_form` in the state HTTP_FORM_HEADER: the header with the bytes behind it,
-- or nothing if it goes on behind the data.
unfoldable pub wait_header : FormState → List ℕ → Option (List ℕ × List ℕ) × FormState
unfolding wait_line
wait_header local [] = (none, local)
wait_header local (c ∷ cs) = let r = wait_line local c in behind_byte r cs (wait_header r.1 cs)

-- The text up to the next quote, for a buffer of `max` bytes.
unfoldable pub to_quote : List ℕ → ℕ → ℕ → Option (Option (List ℕ))
unfolding strlstr
to_quote begin len max = do
  end ← strlstr begin len (b'"' ∷ [])
  some (Option.map (λ n. strlcpy2 max (take n begin)) end)

abbrev pub behind_label : List ℕ → ℕ → ℕ → ℕ → Option ℕ → Option (Option (List ℕ))
behind_label bytes len size max none = some none
behind_label bytes len size max (some k) = to_quote (drop (k + size) bytes) (len - (k + size)) max

-- `http_get_form_lable_value`: what is between the label and the next quote.
unfoldable pub get_value : List ℕ → ℕ → List ℕ → ℕ → Option (Option (List ℕ))
unfolding to_quote strlstr
get_value bytes len label max = do
  found ← strlstr bytes len label
  behind_label bytes len (length label) max found
