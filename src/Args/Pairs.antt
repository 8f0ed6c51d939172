-- ===== src/Args/Pairs.antt =====
-- Queries of names and values.
use xxx.Prelude.{
  ℕ, suc, ◌+◌, ◌≡◌, ◌≤◌, refl, Bool, true, false, Option, none, some, List, [], ◌∷◌, ◌++◌, length,
  leb, arith, ◌∙◌,
}
use xxx.Args.{Arg, unused, with_cur, next_arg, Parse, parse_args}
use xxx.Args.Words.{IsWord, stored, state, loop, loop-name, loop-value, loop-last, loop-late}

-- A name with its value.
pub record Pair : Type 0 where
  pub name : List ℕ
  pub value : List ℕ

abbrev pub IsPair : Pair → Type 0
IsPair q = IsWord q.name × IsWord q.value

abbrev pub ArePairs : List Pair → Type 0
ArePairs [] = Unit
ArePairs (q ∷ qs) = IsPair q × ArePairs qs

abbrev pub query : Pair → List Pair → List ℕ
query q [] = q.name ++ b'=' ∷ q.value
query q (r ∷ more) = q.name ++ b'=' ∷ (q.value ++ b'&' ∷ query r more)

-- The arguments behind some others, the last one first.
abbrev pub stored_all : List Arg → Pair → List Pair → List Arg
stored_all args q [] = stored q.name (q.value ++ 0 ∷ []) ∷ args
stored_all args q (r ∷ more) = stored_all (stored q.name q.value ∷ args) r more

module _ (value : ℕ → List ℕ → ℕ) (stray : ℕ) (idle : Bool) where
  abbrev Stores : ℕ → Pair → List Pair → List Arg → ℕ → Option (ℕ × Parse) → Type 0
  Stores m q more before cnt r =
      (p : Parse) × (r ≡ some (0, p))
      × (with_cur p.ctl ≡ stored_all before q more)
      × (p.url_arg_cnt ≡ cnt + suc (length more))

  loop-query :
      (before : List Arg) (m : ℕ) (q : Pair) (more : List Pair) (len cnt : ℕ)
      → IsPair q
      → ArePairs more
      → length before + suc (length more) ≤ m
      → Stores m q more before cnt
          (loop value stray idle (query q more) (state before unused m none 0 len cnt))
  loop-query before m q [] len cnt (name, value') pairs le = (
    state before (stored q.name (q.value ++ 0 ∷ [])) m (some (q.value ++ [])) (length q.value)
        (len + length q.name + length q.value) (cnt + 1),
    loop-name value stray idle before m q.name q.value len cnt name
        ∙ loop-last value stray idle before m q.name q.value (len + length q.name) cnt value',
    refl,
    refl,
  )
  loop-query before m q (r ∷ more) len cnt (name, value') (pair, pairs) le =
      let (p, e, args, count) =
        loop-query (stored q.name q.value ∷ before) m r more (len + length q.name + length q.value)
          (cnt + 1) pair pairs (omega arith) in
      (
        p,
        loop-name value stray idle before m q.name (q.value ++ b'&' ∷ query r more) len cnt name
            ∙ loop-value value stray idle before m q.name q.value (query r more)
                (len + length q.name) cnt value' (omega arith)
            ∙ e,
        args,
        omega arith,
      )

-- For the arguments of a URL, names with values of one and more bytes without a meaning of their
-- own, each shorter than 4095, and no more of them than there are entries, `_http_parse_args` on a
-- message without arguments ends with 0: it stores each name, with a NUL behind it, and its value,
-- and counts the arguments; behind the last value it stores a NUL, too.
pub parse_args-query :
    (value : ℕ → List ℕ → ℕ) (stray : ℕ) (idle : Bool) (max_num : ℕ) (q : Pair) (more : List Pair)
    (arg_len arg_cnt : ℕ)
    → IsPair q
    → ArePairs more
    → suc (length more) ≤ max_num
    → (p : Parse) × (parse_args value stray true idle
          (query q more)
          (record { before = []; cur = none; max_num = max_num })
          arg_len
          arg_cnt
        ≡ some (0, p))
      × (with_cur p.ctl ≡ stored_all [] q more)
      × (p.url_arg_cnt ≡ arg_cnt + suc (length more))
unfolding parse_args next_arg
parse_args-query value stray idle max_num q more arg_len arg_cnt pair pairs le =
    let free : leb max_num 0 ≡ false = ground arith in
    rw free (loop-query value stray idle [] max_num q more arg_len arg_cnt pair pairs (omega arith))

-- For the arguments of a URL, at least two, names with values of one and more bytes without a meaning
-- of their own, each shorter than 4095, and no more of them than there are entries, of which the first
-- has a second equals sign behind the one that ends its name, `_http_parse_args` on a message without
-- arguments ends with 0: it loses the second equals sign, and stores the ampersand behind the first
-- value as the last byte of that value. It stores the other arguments as they are, the last one with
-- a NUL behind its value, and counts all.
pub parse_args-late :
    (value : ℕ → List ℕ → ℕ) (stray : ℕ) (idle : Bool) (max_num : ℕ) (late q : Pair)
    (more : List Pair) (arg_len arg_cnt : ℕ)
    → IsPair late
    → IsPair q
    → ArePairs more
    → suc (suc (length more)) ≤ max_num
    → (p : Parse) × (parse_args value stray true idle
          (late.name ++ b'=' ∷ b'=' ∷ (late.value ++ b'&' ∷ query q more))
          (record { before = []; cur = none; max_num = max_num })
          arg_len
          arg_cnt
        ≡ some (0, p))
      × (with_cur p.ctl ≡ stored_all (stored late.name (late.value ++ b'&' ∷ []) ∷ []) q more)
      × (p.url_arg_cnt ≡ arg_cnt + suc (suc (length more)))
unfolding parse_args next_arg
parse_args-late value stray idle max_num late q more arg_len arg_cnt (name, value') pair pairs le =
    let free : leb max_num 0 ≡ false = ground arith in
    let behind = arg_len + length late.name in
    let (p, e, args, count) =
      loop-query value stray idle (stored late.name (late.value ++ b'&' ∷ []) ∷ []) max_num q more
        (behind + length late.value) (arg_cnt + 1) pair pairs (omega arith) in
    (
      p,
      rw free (
          loop-name value stray idle [] max_num late.name
            (b'=' ∷ (late.value ++ b'&' ∷ query q more)) arg_len arg_cnt name
          ∙ loop-late value stray idle [] max_num late.name late.value (query q more) behind arg_cnt
              value' (omega arith)
          ∙ e),
      args,
      omega arith,
    )
