-- ===== src/Args/Words.antt =====
-- Names and values in a query: the rounds of `_http_parse_args`.
use xxx.Prelude.{
  ℕ, suc, ◌+◌, ◌≡◌, ◌≤◌, ◌<◌, refl, ◌==◌, Bool, true, false, ◌&&◌, ◌||◌, not, Option, none, some,
  List, [], ◌∷◌, ◌++◌, length, leb, ltb, take, arith, ap, ◌∙◌, length-append, sym,
}
use mathlib.Core.List.{append-nil, append_assoc}
use xxx.Head.{no_flag}
use xxx.Message.{null_str, max_append, append_str, set_str_no_null}
use xxx.Message.Append.{text_str, append_str-text}
use xxx.Args.{
  Arg, unused, next_arg, decode_arg, append_arg, Parse, piece, collect, go_on, ampersand,
  equals_sign, parse_byte, finish_args, after_step, parse_loop,
}

abbrev pub is_plain : ℕ → Bool
is_plain b = not (b == b'%' || b == b'+') && not (b == b'\\') && not (b == b'&') && not (b == b'=')

abbrev pub all_plain : List ℕ → Bool
all_plain [] = true
all_plain (b ∷ bs) = is_plain b && all_plain bs

-- Bytes without a meaning of their own, at least one and fewer than 4095.
abbrev pub IsWord : List ℕ → Type 0
IsWord w = (all_plain w ≡ true) × (0 < length w) × (length w + 1 < max_append)

abbrev pub named : List ℕ → Arg
named n = record unused { name = text_str (n ++ 0 ∷ []); arg_flag = true }

-- An argument that is stored; the last one has a NUL behind its value, too.
abbrev pub stored : List ℕ → List ℕ → Arg
stored n v = record {
  name = text_str (n ++ 0 ∷ []);
  value = text_str v;
  complete_flag = true;
  arg_flag = true;
  decode_flag = no_flag;
}

append_str-null : (w : List ℕ) → length w ≤ max_append → append_str null_str w ≡ some (text_str w)
unfolding append_str set_str_no_null
append_str-null w le = let short : ltb max_append (length w) ≡ false = ground arith in rw short refl

append_str-more :
    (w raw : List ℕ)
    → length w + length raw < max_append
    → append_str (text_str w) raw ≡ some (text_str (w ++ raw))
append_str-more w raw lt =
    let fits : ltb (length w + length raw) max_append ≡ true = ground arith in
    append_str-text w raw ∙ rw fits refl

take-append : (xs ys : List ℕ) → take (length xs) (xs ++ ys) ≡ xs
take-append [] ys = refl
take-append (x ∷ xs) ys = ap (λ (r : List ℕ). x ∷ r) (take-append xs ys)

piece-append : (w rest : List ℕ) → piece (some (w ++ rest)) (length w) ≡ some w
piece-append w rest =
    let fits : ltb (length (w ++ rest)) (length w) ≡ false = ground (arith, length-append w rest) in
    rw (fits, take-append w rest) refl

abbrev pub state : List Arg → Arg → ℕ → Option (List ℕ) → ℕ → ℕ → ℕ → Parse
state before a max_num tmp_data tmp_len url_arg_len url_arg_cnt = record {
  ctl = record { before = before; cur = some a; max_num = max_num };
  tmp_data = tmp_data;
  tmp_len = tmp_len;
  url_arg_len = url_arg_len;
  url_arg_cnt = url_arg_cnt;
}

module _ (value : ℕ → List ℕ → ℕ) (stray : ℕ) (idle : Bool) where
  parse_byte-plain :
      (b : ℕ) (begin : List ℕ) (a : Arg) (p : Parse)
      → is_plain b ≡ true
      → parse_byte value stray true b begin a p ≡ some (go_on (collect true begin p))
  unfolding parse_byte
  parse_byte-plain b begin a p h =
      let percent : (b == b'%' || b == b'+') ≡ false = ground arith in
      let backslash : (b == b'\\') ≡ false = ground arith in
      let ampersand : (b == b'&') ≡ false = ground arith in
      let equals_sign : (b == b'=') ≡ false = ground arith in
      rw (percent, backslash, ampersand, equals_sign) refl

  abbrev pub loop : List ℕ → Parse → Option (ℕ × Parse)
  loop begin p = parse_loop value stray true idle begin p

  counted :
      (before : List Arg) (a : Arg) (m : ℕ) (rest : List ℕ) (from : Option (List ℕ))
      (n n' len len' cnt : ℕ)
      → n ≡ n'
      → len ≡ len'
      → loop rest (state before a m from n len cnt) ≡ loop rest (state before a m from n' len' cnt)
  counted before a m rest from n n' len len' cnt e f =
      ap (λ k. loop rest (state before a m from k len cnt)) e
      ∙ ap (λ k. loop rest (state before a m from n' k cnt)) f

  -- The bytes of a word are collected.
  loop-more :
      (before : List Arg) (a : Arg) (m : ℕ) (w rest from : List ℕ) (n len cnt : ℕ)
      → all_plain w ≡ true
      → loop (w ++ rest) (state before a m (some from) n len cnt)
        ≡ loop rest (state before a m (some from) (n + length w) (len + length w) cnt)
  unfolding parse_loop collect
  loop-more before a m [] rest from n len cnt h =
      counted before a m rest (some from) n (n + 0) len (len + 0) cnt (omega arith) (omega arith)
  loop-more before a m (b ∷ w) rest from n len cnt h =
      ap (λ o. after_step o (λ p'. loop (w ++ rest) p'))
        (parse_byte-plain b (b ∷ (w ++ rest)) a (state before a m (some from) n len cnt)
          (ground arith))
      ∙ loop-more before a m w rest from (n + 1) (len + 1) cnt (ground arith)
      ∙ counted before a m rest (some from) (n + 1 + length w) (n + suc (length w))
          (len + 1 + length w) (len + suc (length w)) cnt (omega arith) (omega arith)

  loop-word :
      (before : List Arg) (a : Arg) (m : ℕ) (w rest : List ℕ) (len cnt : ℕ)
      → IsWord w
      → loop (w ++ rest) (state before a m none 0 len cnt)
        ≡ loop rest (state before a m (some (w ++ rest)) (length w) (len + length w) cnt)
  unfolding parse_loop collect
  loop-word before a m [] rest len cnt (h, pos, lt) = absurd (omega arith)
  loop-word before a m (b ∷ w) rest len cnt (h, pos, lt) =
      ap (λ o. after_step o (λ p'. loop (w ++ rest) p'))
        (parse_byte-plain b (b ∷ (w ++ rest)) a (state before a m none 0 len cnt) (ground arith))
      ∙ loop-more before a m w rest (b ∷ (w ++ rest)) (0 + 1) (len + 1) cnt (ground arith)
      ∙ counted before a m rest (some (b ∷ (w ++ rest))) (0 + 1 + length w) (suc (length w))
          (len + 1 + length w) (len + suc (length w)) cnt (omega arith) (omega arith)

  append_arg-name :
      (w : List ℕ)
      → IsWord w
      → append_arg value stray w unused ≡ some (record unused { name = text_str w })
  unfolding append_arg decode_arg
  append_arg-name [] (h, pos, lt) = absurd (omega arith)
  append_arg-name (b ∷ w) (h, pos, lt) = rw (append_str-null (b ∷ w) (omega arith)) refl

  append_arg-nul :
      (w : List ℕ)
      → IsWord w
      → append_arg value stray (0 ∷ []) (record unused { name = text_str w })
        ≡ some (record unused { name = text_str (w ++ 0 ∷ []) })
  unfolding append_arg decode_arg
  append_arg-nul w (h, pos, lt) = rw (append_str-more w (0 ∷ []) (omega arith)) refl

  append_arg-value :
      (n w : List ℕ)
      → IsWord w
      → append_arg value stray w (named n) ≡ some (record (named n) { value = text_str w })
  unfolding append_arg decode_arg
  append_arg-value n [] (h, pos, lt) = absurd (omega arith)
  append_arg-value n (b ∷ w) (h, pos, lt) = rw (append_str-null (b ∷ w) (omega arith)) refl

  append_arg-end :
      (n w : List ℕ)
      → IsWord w
      → append_arg value stray (0 ∷ []) (record (named n) { value = text_str w })
        ≡ some (record (named n) { value = text_str (w ++ 0 ∷ []) })
  unfolding append_arg decode_arg
  append_arg-end n w (h, pos, lt) = rw (append_str-more w (0 ∷ []) (omega arith)) refl

  -- A name with its equals sign.
  pub loop-name :
      (before : List Arg) (m : ℕ) (w rest : List ℕ) (len cnt : ℕ)
      → IsWord w
      → loop (w ++ b'=' ∷ rest) (state before unused m none 0 len cnt)
        ≡ loop rest (state before (named w) m none 0 (len + length w) cnt)
  unfolding parse_loop parse_byte equals_sign
  loop-name before m w rest len cnt word =
      loop-word before unused m w (b'=' ∷ rest) len cnt word
      ∙ rw (piece-append w (b'=' ∷ rest), append_arg-name w word, append_arg-nul w word) refl

  -- A value with the ampersand behind it.
  pub loop-value :
      (before : List Arg) (m : ℕ) (n w rest : List ℕ) (len cnt : ℕ)
      → IsWord w
      → suc (length before) < m
      → loop (w ++ b'&' ∷ rest) (state before (named n) m none 0 len cnt)
        ≡ loop rest (state (stored n w ∷ before) unused m none 0 (len + length w) (cnt + 1))
  unfolding parse_loop parse_byte ampersand next_arg
  loop-value before m n w rest len cnt word lt =
      let free : leb m (suc (length before)) ≡ false = ground arith in
      loop-word before (named n) m w (b'&' ∷ rest) len cnt word
      ∙ rw (piece-append w (b'&' ∷ rest), append_arg-value n w word, free) refl

  -- The last value.
  pub loop-last :
      (before : List Arg) (m : ℕ) (n w : List ℕ) (len cnt : ℕ)
      → IsWord w
      → loop w (state before (named n) m none 0 len cnt)
        ≡ some (
          0,
          state before
              (stored n (w ++ 0 ∷ []))
              m
              (some (w ++ []))
              (length w)
              (len + length w)
              (cnt + 1),
        )
  unfolding parse_loop finish_args
  loop-last before m n w len cnt word =
      ap (λ r. loop r (state before (named n) m none 0 len cnt)) (sym (append-nil w))
      ∙ loop-word before (named n) m w [] len cnt word
      ∙ rw (piece-append w [], append_arg-value n w word, append_arg-end n w word) refl

  append_arg-long :
      (n w : List ℕ) (b : ℕ)
      → length (b ∷ w) ≤ max_append
      → append_arg value stray (b ∷ w) (named n)
        ≡ some (record (named n) { value = text_str (b ∷ w) })
  unfolding append_arg decode_arg
  append_arg-long n w b le = rw (append_str-null (b ∷ w) le) refl

  -- The ampersand behind a piece whose length is one too many.
  loop-ampersand :
      (before : List Arg) (m : ℕ) (n w rest : List ℕ) (b k len cnt : ℕ)
      → k ≡ suc (suc (length w))
      → length w + 2 ≤ max_append
      → suc (length before) < m
      → loop (b'&' ∷ rest) (state before (named n) m (some (b ∷ (w ++ b'&' ∷ rest))) k len cnt)
        ≡ loop rest (state (stored n (b ∷ (w ++ b'&' ∷ [])) ∷ before) unused m none 0 len (cnt + 1))
  unfolding parse_loop parse_byte ampersand next_arg
  loop-ampersand before m n w rest b k len cnt size le lt =
      let free : leb m (suc (length before)) ≡ false = ground arith in
      let whole = b ∷ (w ++ b'&' ∷ []) in
      let text : b ∷ (w ++ b'&' ∷ rest) ≡ whole ++ rest =
        ap (λ (r : List ℕ). b ∷ r) (sym (append_assoc w (b'&' ∷ []) rest)) in
      let all : k ≡ length whole = omega (arith, length-append w (b'&' ∷ [])) in
      let cut : piece (some (b ∷ (w ++ b'&' ∷ rest))) k ≡ some whole =
        ap (λ t. piece (some t) k) text
        ∙ ap (piece (some (whole ++ rest))) all
        ∙ piece-append whole rest in
      rw (cut, append_arg-long n (w ++ b'&' ∷ []) b (omega (arith, all, size)), free) refl

  -- A value behind two equals signs, with the ampersand behind it.
  pub loop-late :
      (before : List Arg) (m : ℕ) (n w rest : List ℕ) (len cnt : ℕ)
      → IsWord w
      → suc (length before) < m
      → loop (b'=' ∷ (w ++ b'&' ∷ rest)) (state before (named n) m none 0 len cnt)
        ≡ loop rest
            (state (stored n (w ++ b'&' ∷ []) ∷ before) unused m none 0 (len + length w) (cnt + 1))
  unfolding parse_loop parse_byte equals_sign collect
  loop-late before m n [] rest len cnt (h, pos, room) lt = absurd (omega arith)
  loop-late before m n (b ∷ w) rest len cnt (h, pos, room) lt =
      let begin = b ∷ (w ++ b'&' ∷ rest) in
      let sum : len + 1 + length w ≡ len + suc (length w) = omega arith in
      ap (λ o. after_step o (λ p'. loop (w ++ b'&' ∷ rest) p'))
        (parse_byte-plain b begin (named n) (state before (named n) m none 1 len cnt)
          (ground arith))
      ∙ loop-more before (named n) m w (b'&' ∷ rest) begin (0 + 1 + 1) (len + 1) cnt (ground arith)
      ∙ loop-ampersand before m n w rest b (0 + 1 + 1 + length w) (len + 1 + length w) cnt
          (omega arith) (omega arith) lt
      ∙ ap
          (λ k.
            loop rest
              (state (stored n (b ∷ (w ++ b'&' ∷ [])) ∷ before) unused m none 0 k (cnt + 1)))
          sum
