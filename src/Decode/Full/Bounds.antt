-- ===== src/Decode/Full/Bounds.antt =====
-- The bounds of `http_decode_string`.
use xxx.Prelude.{
  ℕ, zero, suc, ◌≡◌, ◌≤◌, ◌<◌, refl, ◌==◌, Bool, true, false, ◌||◌, Option, some, List, [], leb,
  ltb, if◌then◌else◌, length, take, arith, Bool-cases, inl, inr, length-take, ◌-◌, ◌&&◌,
}
use xxx.Text.{strlcpy2}
use xxx.Head.{Flag}
use xxx.Decode.Percent.{string_decode}
use xxx.Decode.Percent.Bounds.{length-string_decode}
use xxx.Decode.Escape.{escape_decode}
use xxx.Decode.Escape.Bounds.{escape_decode-total}
use xxx.Decode.Html.{html_decode}
use xxx.Decode.Html.Bounds.{html_decode-total}
use xxx.Decode.Full.{
  Result, decoded, Pass, next, stop, tmp_size, and_then, in_place, copied_back, html_pass,
  escape_pass, url_pass, round, rounds, decode_string,
}

-- A pass that goes on, with at most `n` bytes.
abbrev GoesOn : ℕ → Pass → Type 0
GoesOn n (next flag tmp) = length tmp ≤ n
GoesOn n (stop r) = ⊥

abbrev Ends : ℕ → Result → Type 0
Ends n r = (out : List ℕ) × (r ≡ decoded out) × (length out ≤ n)

length-strlcpy2 : (dlen : ℕ) (src : List ℕ) → length (strlcpy2 dlen src) ≤ length src
unfolding strlcpy2
length-strlcpy2 dlen src = elim (Bool-cases (ltb 0 dlen && ltb (dlen - 1) (length src))) [
  | inl cut ↦
      (let shorter : dlen - 1 ≤ length src = ground arith in
        let len : length (take (dlen - 1) src) ≤ length src =
          omega (arith, length-take (dlen - 1) src shorter) in
        rw cut len)
  | inr whole ↦ rw whole (omega arith)
]

module _ (n : ℕ) (lt : n < tmp_size) where
  in_place-GoesOn :
      (flag : Bool) (o : Option (List ℕ)) (tmp new : List ℕ)
      → o ≡ some new
      → length new ≤ length tmp
      → length tmp ≤ n
      → GoesOn n (in_place flag o tmp)
  in_place-GoesOn flag o tmp new e shorter le =
      let fits : leb tmp_size (length new) ≡ false = ground arith in rw (e, fits) (omega arith)

  html_pass-GoesOn :
      (value : ℕ → List ℕ → ℕ) (need : Flag) (flag : Bool) (tmp : List ℕ)
      → length tmp ≤ n
      → GoesOn n (html_pass value need flag tmp)
  unfolding html_pass
  html_pass-GoesOn value need flag tmp le =
      let (new, e, shorter) = html_decode-total value tmp (omega arith) in
      elim need.html
        as (λ b.
          GoesOn n (if b then in_place flag (html_decode value tmp) tmp else next flag tmp)) [
            | true ↦ in_place-GoesOn flag (html_decode value tmp) tmp new e shorter le
            | false ↦ le
          ]

  escape_pass-GoesOn :
      (need : Flag) (flag : Bool) (tmp : List ℕ)
      → length tmp ≤ n
      → GoesOn n (escape_pass need flag tmp)
  unfolding escape_pass
  escape_pass-GoesOn need flag tmp le =
      let (new, e, shorter) = escape_decode-total tmp in
      elim need.escape
        as (λ b. GoesOn n (if b then in_place flag (escape_decode tmp) tmp else next flag tmp)) [
          | true ↦ in_place-GoesOn flag (escape_decode tmp) tmp new e shorter le
          | false ↦ le
        ]

  module _ (stray max_url_out_len in_len : ℕ) (room : n < max_url_out_len) where
    copied_back-GoesOn :
        (new : List ℕ) → length new ≤ n → GoesOn n (copied_back max_url_out_len new)
    copied_back-GoesOn new le =
        let fits : leb max_url_out_len (length new) ≡ false = ground arith in
        rw fits (omega (arith, length-strlcpy2 tmp_size new))

    url_pass-GoesOn :
        (need : Flag) (flag : Bool) (tmp : List ℕ)
        → length tmp ≤ n
        → GoesOn n (url_pass stray max_url_out_len in_len need flag tmp)
    unfolding url_pass
    url_pass-GoesOn need flag tmp le =
        let new =
          if ltb 2 in_len then string_decode true stray tmp else strlcpy2 max_url_out_len tmp in
        let shorter : length new ≤ length tmp =
          ground
            (arith, length-string_decode true stray tmp, length-strlcpy2 max_url_out_len tmp) in
        elim need.url
          as (λ b. GoesOn n (if b then copied_back max_url_out_len new else next flag tmp)) [
            | true ↦ copied_back-GoesOn new (omega arith)
            | false ↦ le
          ]

    and_then-GoesOn :
        (p : Pass) (f : Bool → List ℕ → Pass)
        → GoesOn n p
        → ((flag : Bool) (tmp : List ℕ) → length tmp ≤ n → GoesOn n (f flag tmp))
        → GoesOn n (and_then p f)
    and_then-GoesOn (next flag tmp) f le h = h flag tmp le
    and_then-GoesOn (stop r) f le h = absurd le

    round-GoesOn :
        (value : ℕ → List ℕ → ℕ) (need : Flag) (tmp : List ℕ)
        → length tmp ≤ n
        → GoesOn n (round value stray max_url_out_len in_len need tmp)
    unfolding round
    round-GoesOn value need tmp le =
        and_then-GoesOn _ (url_pass stray max_url_out_len in_len need)
          (and_then-GoesOn _ (escape_pass need) (html_pass-GoesOn value need false tmp le)
            (escape_pass-GoesOn need))
          (url_pass-GoesOn need)

    rounds-Ends :
        (value : ℕ → List ℕ → ℕ) (need : Flag) (cnt : ℕ) (out tmp : List ℕ)
        → length out ≤ n
        → length tmp ≤ n
        → Ends n (rounds value stray max_url_out_len in_len need cnt out tmp)
    unfolding rounds
    rounds-Ends value need zero out tmp short le = (out, refl, short)
    rounds-Ends value need (suc cnt) out tmp short le =
        go (round value stray max_url_out_len in_len need tmp) (round-GoesOn value need tmp le)
          (rounds-Ends value need cnt)
      where
        go :
            (p : Pass)
            → GoesOn n p
            → ((out' tmp' : List ℕ)
                → length out' ≤ n
                → length tmp' ≤ n
                → Ends n (rounds value stray max_url_out_len in_len need cnt out' tmp'))
            → Ends n (elim p [
              | next flag tmp' ↦
                  let out' = strlcpy2 max_url_out_len tmp' in
                  let more = rounds value stray max_url_out_len in_len need cnt out' tmp' in
                  if flag then more else decoded out'
              | stop r ↦ r
            ])
        go (stop r) h ih = absurd h
        go (next true tmp') h ih =
            ih (strlcpy2 max_url_out_len tmp') tmp'
              (omega (arith, length-strlcpy2 max_url_out_len tmp')) h
        go (next false tmp') h ih = (
          strlcpy2 max_url_out_len tmp',
          refl,
          omega (arith, length-strlcpy2 max_url_out_len tmp'),
        )

-- For a string that is not empty and leaves room for a NUL in `tmp_buf` and in `out_string`,
-- `http_decode_string` ends, without a NUL written behind one of these buffers, whatever it has to
-- decode, and what it writes is at most as long as what it reads. The byte in front of `out_string`,
-- which it may read, is `stray`, and may be any.
pub decode_string-total :
    (value : ℕ → List ℕ → ℕ) (stray max_url_out_len : ℕ) (in_string : List ℕ) (need : Flag)
    → 0 < length in_string
    → length in_string < max_url_out_len
    → length in_string < tmp_size
    → (out : List ℕ) × (decode_string value stray max_url_out_len in_string need ≡ decoded out)
      × (length out ≤ length in_string)
unfolding decode_string
decode_string-total value stray max_url_out_len in_string need pos room lt =
    let starts : (ltb max_url_out_len (length in_string) || length in_string == 0) ≡ false =
      ground arith in
    let fits : ltb tmp_size (length in_string) ≡ false = ground arith in
    let differ : (length in_string == tmp_size) ≡ false = ground arith in
    rw (starts, fits, differ)
      (rounds-Ends (length in_string) lt stray max_url_out_len (length in_string) room value need 16
        [] in_string (omega arith) (omega arith))
