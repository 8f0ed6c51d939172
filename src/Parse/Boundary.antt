-- ===== src/Parse/Boundary.antt =====
-- The type of a form and its boundary.
use mathlib.Core.List.{append_assoc}
use xxx.Prelude.{
  ℕ, zero, suc, ◌+◌, ◌-◌, ◌≡◌, ◌<◌, refl, ◌==◌, Bool, true, false, ◌&&◌, ◌||◌, none, some, List, [],
  ◌∷◌, ◌++◌, if◌then◌else◌, length, leb, drop, arith, ap, ◌∙◌, sym, length-append,
}
use xxx.Text.{strlstr}
use xxx.Text.Find.{lacks, strlstr-hit, strlstr-miss}
use xxx.Message.{need_decode}
use xxx.Message.Decoded.{block_of}
use xxx.Fields.{codes}
use xxx.Parse.{Libc, Info, set_text}
use xxx.Parse.Pointers.{take-append, drop-append_both}
use xxx.Parse.Request.{set_text-plain, lacks-append}
use xxx.Parse.Types.{find_type, match_type-find_type}
use xxx.Parse.Content.{
  ContentType, type_number, content_type_table, get_content_type, hyphens, get_post_boundary,
  parse_table_parsing, skip_blank, params_loop, parse_content_type, parse_cont,
}

-- Blanks and tabs.
abbrev pub all_space : List ℕ → Bool
all_space [] = true
all_space (c ∷ cs) = (c == b' ' || c == 9) && all_space cs

-- A type, blanks, and the parameter with the boundary.
abbrev pub boundary_text : List ℕ → List ℕ → List ℕ
boundary_text boundary rest = codes "boundary=" ++ (boundary ++ rest)

abbrev pub content_text : List ℕ → List ℕ → List ℕ → List ℕ → List ℕ
content_text t sp boundary rest = t ++ b';' ∷ (sp ++ boundary_text boundary rest)

skip_blank-append :
    (sp boundary rest : List ℕ) (m : ℕ)
    → all_space sp ≡ true
    → 0 < m
    → skip_blank (sp ++ boundary_text boundary rest) (length sp + m)
      ≡ some (boundary_text boundary rest, m)
unfolding skip_blank
skip_blank-append [] boundary rest zero h pos = absurd (omega arith)
skip_blank-append [] boundary rest (suc m) h pos =
    let same : 0 + suc m ≡ suc m = omega arith in rw same refl
skip_blank-append (c ∷ sp) boundary rest m h pos =
    let next : suc (length sp) + m ≡ suc (length sp + m) = omega arith in
    let blank : (c == b' ' || c == 9) ≡ true = ground arith in
    rw (next, blank) (skip_blank-append sp boundary rest m (ground arith) pos)

lacks-space : (sp : List ℕ) → all_space sp ≡ true → lacks b';' sp ≡ true
lacks-space [] h = refl
lacks-space (c ∷ sp) h = ground (arith, lacks-space sp)

-- The boundary, and the hyphens that the lines between the parts begin with.
abbrev pub with_boundary : Info → List ℕ → Info
with_boundary info boundary = record info {
  str = record info.str { boundary = block_of boundary };
  boundary_cnt = info.boundary_cnt + hyphens boundary + 2;
}

-- What is stored for a type; the parameters are read only if it is not `HTTP_TYPE_NA`.
abbrev pub with_type : ContentType → Info → List ℕ → Info
with_type id info boundary =
    let typed = record info { logic = record info.logic { content_type = type_number id } } in
    if type_number id == 0 then typed else with_boundary typed boundary

some-if_same :
    {A : Type 0} (b : Bool) (x y : A) → (if b then some x else some y) ≡ some (if b then x else y)
some-if_same true x y = refl
some-if_same false x y = refl

module _ (e : Libc) where
  parse_table_parsing-boundary :
      (boundary rest : List ℕ) (m : ℕ) (info : Info)
      → need_decode info.tmp_flag ≡ false
      → 0 < length boundary
      → m ≡ 9 + length boundary
      → parse_table_parsing e (boundary_text boundary rest) m info
        ≡ some (with_boundary info boundary)
  unfolding parse_table_parsing xxx.Fields.same_nocase get_post_boundary
  parse_table_parsing-boundary boundary rest m info plain pos len =
      let long : leb 9 m ≡ true = ground arith in
      let left : m - 9 ≡ length boundary = omega arith in
      rw
        (
          long,
          left,
          set_text-plain e info info.str.boundary boundary rest plain pos,
          take-append boundary rest,
        )
        refl

  params_loop-boundary :
      (fuel : ℕ) (sp boundary rest : List ℕ) (n : ℕ) (info : Info)
      → need_decode info.tmp_flag ≡ false
      → 0 < length boundary
      → all_space sp ≡ true
      → lacks b';' boundary ≡ true
      → n ≡ length sp + (9 + length boundary)
      → n < 4096
      → params_loop e (suc (suc fuel)) (sp ++ boundary_text boundary rest) n info
        ≡ some (with_boundary info boundary)
  unfolding params_loop
  params_loop-boundary fuel sp boundary rest n info plain pos blank clean len lt =
      let on : (n == 0 || leb 4096 n) ≡ false = ground arith in
      let whole = sp ++ (codes "boundary=" ++ boundary) in
      let assoc : sp ++ boundary_text boundary rest ≡ whole ++ rest =
        sym (append_assoc sp (codes "boundary=" ++ boundary) rest) in
      let size : length whole ≡ n =
        omega (arith, length-append sp (codes "boundary=" ++ boundary), len) in
      let miss : strlstr (sp ++ boundary_text boundary rest) n (b';' ∷ []) ≡ some none =
        ap (λ t. strlstr t n (b';' ∷ [])) assoc
        ∙ strlstr-miss b';' whole rest n
            (lacks-append b';' sp (codes "boundary=" ++ boundary) (lacks-space sp blank) clean)
            (omega arith) (omega arith) in
      let skip : skip_blank (sp ++ boundary_text boundary rest) n
          ≡ some (boundary_text boundary rest, 9 + length boundary) =
        ap (skip_blank (sp ++ boundary_text boundary rest)) len
        ∙ skip_blank-append sp boundary rest (9 + length boundary) blank (omega arith) in
      let done : n - suc n ≡ 0 = omega arith in
      rw
        (
          on,
          miss,
          skip,
          parse_table_parsing-boundary boundary rest (9 + length boundary) info plain pos refl,
          done,
        )
        refl

  parse_content_type-boundary :
      (t sp boundary rest : List ℕ) (n : ℕ) (info : Info)
      → need_decode info.tmp_flag ≡ false
      → lacks b';' t ≡ true
      → all_space sp ≡ true
      → 0 < length boundary
      → lacks b';' boundary ≡ true
      → n ≡ length t + 1 + length sp + 9 + length boundary
      → n < 4096
      → parse_content_type e (content_text t sp boundary rest) n info
        ≡ some (with_type (find_type content_type_table t) info boundary)
  unfolding parse_content_type get_content_type
  parse_content_type-boundary t sp boundary rest n info plain whole blank pos clean len lt =
      let text = content_text t sp boundary rest in
      let tail = sp ++ boundary_text boundary rest in
      let k = length t in
      let id = find_type content_type_table t in
      let found = match_type-find_type content_type_table t tail whole in
      let hit : strlstr text n (b';' ∷ []) ≡ some (some k) =
        strlstr-hit b';' t tail n whole (omega arith) in
      let next : suc k ≡ k + 1 = omega arith in
      let behind : drop (suc k) text ≡ tail =
        ap (λ j. drop j text) next ∙ drop-append_both t (b';' ∷ []) tail in
      let fuel : suc n ≡ suc (suc (n - 1)) = omega arith in
      let info' = record info { logic = record info.logic { content_type = type_number id } } in
      let params =
        ap (λ f. params_loop e f tail (n - suc k) info') fuel
        ∙ params_loop-boundary (n - 1) sp boundary rest (n - suc k) info' plain pos blank clean
            (omega arith) (omega arith) in
      rw (hit, found, behind, params)
        (some-if_same (type_number id == 0) info' (with_boundary info' boundary))

-- For a value of Content-Type with one parameter, a boundary of at least one byte, behind a semicolon
-- and blanks, without a further semicolon or signs of an encoding and shorter than 4096 bytes,
-- `parse_cont` stores the value and the number of the first type of the table whose name, in any
-- case, stands in front of the semicolon, with nothing or a blank, a CR or a NUL behind it, and
-- `HTTP_TYPE_NA` if there is none. Only if there is one, it stores the boundary, too, and adds the
-- hyphens at the begin of the boundary and two to `boundary_cnt`.
pub parse_cont-boundary :
    (e : Libc) (t sp boundary rest : List ℕ) (info : Info)
    → need_decode info.tmp_flag ≡ false
    → lacks b';' t ≡ true
    → all_space sp ≡ true
    → 0 < length boundary
    → lacks b';' boundary ≡ true
    → length (content_text t sp boundary []) < 4096
    → parse_cont e (content_text t sp boundary rest) (length (content_text t sp boundary [])) info
      ≡ some (
          with_type
            (find_type content_type_table t)
            (record info {
              str = record info.str { content_type = block_of (content_text t sp boundary []) };
            })
            boundary)
unfolding parse_cont
parse_cont-boundary e t sp boundary rest info plain whole blank pos clean lt =
    let value = content_text t sp boundary [] in
    let text : content_text t sp boundary rest ≡ value ++ rest = simp append_assoc in
    let len : length value ≡ length t + 1 + length sp + 9 + length boundary = omega (
      arith,
      length-append t (b';' ∷ (sp ++ boundary_text boundary [])),
      length-append sp (boundary_text boundary []),
      length-append boundary [],
    ) in
    let stored : set_text e info info.str.content_type (content_text t sp boundary rest)
          (length value)
        ≡ some (block_of value) =
      ap (λ x. set_text e info info.str.content_type x (length value)) text
      ∙ set_text-plain e info info.str.content_type value rest plain (omega arith) in
    rw stored (
      parse_content_type-boundary e t sp boundary rest (length value)
        (record info { str = record info.str { content_type = block_of value } }) plain whole blank
        pos clean len lt)
