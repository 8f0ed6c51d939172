-- ===== src/Parse/Response.antt =====
-- The first line of a response.
use mathlib.Core.List.{append_assoc}
use xxx.Prelude.{
  ℕ, suc, ◌+◌, ◌-◌, ◌≡◌, ◌<◌, refl, true, false, some, List, [], ◌∷◌, ◌++◌, length, ltb, drop,
  arith, ap, ◌∙◌, sym, length-append,
}
use xxx.Text.{strlstr}
use xxx.Text.Find.{lacks, strlstr-hit}
use xxx.Message.{need_decode}
use xxx.Message.Decoded.{block_of}
use xxx.Parse.{Libc, Info, set_text}
use xxx.Parse.Pointers.{drop-append, drop-append_both}
use xxx.Parse.Request.{set_text-plain}
use xxx.Parse.Line.{to_u16, parse_retcode}

abbrev pub response_text : List ℕ → List ℕ → List ℕ → List ℕ
response_text version code rest = version ++ b' ' ∷ (code ++ b' ' ∷ rest)

-- For the first line of a response, a version of eight bytes, a blank, a code and a blank, with no
-- sign of an encoding: `parse_retcode` sets the number that `atoi` reads behind the version, and
-- stores as the text of the code the code with the blank behind it.
pub parse_retcode-blank :
    (e : Libc) (version code rest : List ℕ) (len : ℕ) (info : Info)
    → length version ≡ 8
    → lacks b' ' code ≡ true
    → need_decode info.tmp_flag ≡ false
    → length version + 1 + length code < len
    → parse_retcode e (response_text version code rest) len info
      ≡ some (record info {
        http_int = record info.http_int {
          retcode = to_u16 (e.number (b' ' ∷ (code ++ b' ' ∷ rest)));
        };
        str = record info.str { retcode = block_of (code ++ b' ' ∷ []) };
      })
unfolding parse_retcode
parse_retcode-blank e version code rest len info eight clean plain lt =
    let text = response_text version code rest in
    let after = code ++ b' ' ∷ rest in
    let long : ltb len 8 ≡ false = ground arith in
    let at_blank : drop 8 text ≡ b' ' ∷ after =
      ap (λ k. drop k text) (sym eight) ∙ drop-append version (b' ' ∷ after) in
    let nine : 9 ≡ length version + 1 = omega arith in
    let at_code : drop 9 text ≡ after =
      ap (λ k. drop k text) nine ∙ drop-append_both version (b' ' ∷ []) after in
    let hit : strlstr after (len - 8) (b' ' ∷ []) ≡ some (some (length code)) =
      strlstr-hit b' ' code rest (len - 8) clean (omega arith) in
    let info' = record info {
      http_int = record info.http_int { retcode = to_u16 (e.number (b' ' ∷ after)) };
    } in
    let size : suc (length code) ≡ length (code ++ b' ' ∷ []) =
      omega (arith, length-append code (b' ' ∷ [])) in
    let stored : set_text e info' info.str.retcode after (suc (length code))
        ≡ some (block_of (code ++ b' ' ∷ [])) =
      ap (λ t. set_text e info' info.str.retcode t (suc (length code)))
        (sym (append_assoc code (b' ' ∷ []) rest))
      ∙ ap (set_text e info' info.str.retcode ((code ++ b' ' ∷ []) ++ rest)) size
      ∙ set_text-plain e info' info.str.retcode (code ++ b' ' ∷ []) rest plain (omega arith) in
    rw (long, at_code, hit, at_code, at_blank, stored) refl
