-- ===== src/Decode/Percent/Bounds.antt =====
-- `_http_string_decode` writes no more bytes than it reads.
use xxx.Prelude.{
  ℕ, zero, suc, ◌≤◌, ◌<◌, ◌≡◌, refl, inl, inr, Bool, true, false, Option, none, some, List, [], ◌∷◌,
  arith, Option-cases, length, drop,
}
use xxx.Decode.Percent.{
  or_keep, xx_decode, ffxx_decode, percent_combine, combine_loop, StringType, no_percent,
  percent_xx, percent_u00xx, percent_xyy, percent_uffxx, decode_type, decode_as, decode_backward,
  decode_byte, decode_loop, string_decode,
}
use xxx.Decode.Digit.{starts_nocase}

length-drop : (k : ℕ) (s : List ℕ) → length (drop k s) ≤ length s
length-drop zero s = omega arith
length-drop (suc k) [] = omega arith
length-drop (suc k) (x ∷ s) = omega (arith, length-drop k s)

length-xx_decode :
    (s t : List ℕ) → length s ≤ length t → length (or_keep (xx_decode s) t) ≤ length t
unfolding or_keep xx_decode
length-xx_decode [] t h = omega arith
length-xx_decode (c1 ∷ []) t h = omega arith
length-xx_decode (c1 ∷ c2 ∷ r) t h = ground arith

length-ffxx_decode :
    (s t : List ℕ) → length s ≤ length t → length (or_keep (ffxx_decode s) t) ≤ length t
unfolding or_keep ffxx_decode
length-ffxx_decode [] t h = omega arith
length-ffxx_decode (c1 ∷ []) t h = omega arith
length-ffxx_decode (c1 ∷ c2 ∷ r) t h = omega arith

starts_nocase-length : (p s : List ℕ) → starts_nocase p s ≡ true → length p ≤ length s
unfolding starts_nocase
starts_nocase-length [] s e = omega arith
starts_nocase-length (a ∷ p) [] e = ground arith
starts_nocase-length (a ∷ p) (c ∷ s) e = ground (arith, starts_nocase-length p s)

length-percent_combine :
    (s : List ℕ) {s' : List ℕ} → percent_combine s ≡ some s' → length s' < length s
unfolding percent_combine
length-percent_combine s e = ground (
  arith,
  starts_nocase-length (b'%' ∷ b'u' ∷ b'0' ∷ b'0' ∷ b'2' ∷ b'5' ∷ []) s,
  starts_nocase-length (b'%' ∷ b'x' ∷ b'2' ∷ b'5' ∷ []) s,
  starts_nocase-length (b'%' ∷ b'2' ∷ b'5' ∷ []) s,
  length-drop 6 s,
  length-drop 4 s,
  length-drop 3 s,
)

length-combine_loop : (fuel : ℕ) (s : List ℕ) → length (combine_loop fuel s) ≤ length s
unfolding combine_loop
length-combine_loop zero s = omega arith
length-combine_loop (suc fuel) s = elim (Option-cases (percent_combine s)) [
  | inl e ↦ rw (e, combine_loop) (omega arith)
  | inr (s', e) ↦
      rw (e, combine_loop) (omega (arith, length-combine_loop fuel s', length-percent_combine s e))
]

percent_combine-nil : percent_combine [] ≡ none
unfolding percent_combine starts_nocase
percent_combine-nil = refl

-- The loop ends by its own test: the fuel, the length of the string, is enough.
combine_loop-done :
    (fuel : ℕ) (s : List ℕ) → length s ≤ fuel → percent_combine (combine_loop fuel s) ≡ none
unfolding combine_loop
combine_loop-done zero [] h = percent_combine-nil
combine_loop-done zero (x ∷ s) h = absurd (omega arith)
combine_loop-done (suc fuel) s h = elim (Option-cases (percent_combine s)) [
  | inl e ↦ rw (e, combine_loop) e
  | inr (s', e) ↦
      rw (e, combine_loop) (combine_loop-done fuel s' (omega (arith, length-percent_combine s e)))
]

length-decode_as : (t : StringType) (s : List ℕ) → length (decode_as t s) ≤ length s
unfolding decode_as
length-decode_as no_percent s = omega arith
length-decode_as percent_xx s = length-xx_decode (drop 1 s) s (length-drop 1 s)
length-decode_as percent_u00xx s = length-xx_decode (drop 4 s) s (length-drop 4 s)
length-decode_as percent_xyy s = length-xx_decode (drop 2 s) s (length-drop 2 s)
length-decode_as percent_uffxx s = length-ffxx_decode (drop 4 s) s (length-drop 4 s)

length-decode_backward :
    (stray : ℕ) (s : List ℕ) (tmp_len : Option ℕ)
    → length (decode_backward stray s tmp_len) ≤ length s
unfolding decode_backward
length-decode_backward stray s none =
    let s' = combine_loop (length s) s in
    elim (Option-cases (decode_type stray s' none)) [
      | inl e ↦ rw (e, decode_backward) (length-combine_loop (length s) s)
      | inr (t, e) ↦
          rw (e, decode_backward)
            (omega (arith, length-decode_as t s', length-combine_loop (length s) s))
    ]
length-decode_backward stray s (some n) = elim (Option-cases (decode_type stray s (some n))) [
  | inl e ↦ rw (e, decode_backward) (omega arith)
  | inr (t, e) ↦ rw (e, decode_backward) (length-decode_as t s)
]

-- A round adds at most one byte to `out_string`.
length-decode_byte :
    (one : Bool) (stray c : ℕ) (out : List ℕ) (tmp_len : ℕ)
    → length (decode_byte one stray c (out, tmp_len)).0 ≤ suc (length out)
unfolding decode_byte
length-decode_byte true stray c out tmp_len =
    ground (arith, length-decode_backward stray (c ∷ out) (some tmp_len))
length-decode_byte false stray c out tmp_len =
    ground (arith, length-decode_backward stray (c ∷ out) none)

-- The decoded string is at most as long as the input, in either mode: `out_string` needs no more
-- room than `in_string` takes.
pub length-string_decode :
    (one : Bool) (stray : ℕ) (in_string : List ℕ)
    → length (string_decode one stray in_string) ≤ length in_string
unfolding string_decode
length-string_decode one stray [] = omega arith
length-string_decode one stray (c ∷ cs) = omega (
  arith,
  length-decode_byte one stray c (decode_loop one stray cs).0 (decode_loop one stray cs).1,
  length-string_decode one stray cs,
)
