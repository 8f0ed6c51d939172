-- ===== src/Scan/Match.antt =====
-- `s_http_parse` stops just behind the first CR LF CR LF of the stream, and does not depend on how
-- the stream is cut into buffers.
use xxx.Prelude.{
  ℕ, zero, suc, ◌+◌, ◌≤◌, ◌<◌, ◌≡◌, refl, ◌≢◌, ◌⊎◌, inl, inr, Bool, true, false, ◌&&◌, some, none,
  List, [], ◌∷◌, ◌++◌, reverse, sym, ap, reverse_aux, arith, ◌==◌, if◌then◌else◌, Option-cases,
  ◌>>=◌, length, take,
}
use native.Mathlib.Decide.{ℕ_discrete}
use xxx.Scan.{advance, s_http_parse}

-- `h` begins with the bytes of `p`.
abbrev starts : List ℕ → List ℕ → Bool
starts [] h = true
starts (p ∷ ps) [] = false
starts (p ∷ ps) (c ∷ h) = c == p && starts ps h

-- A stream, given from its last byte to its first, ends with CR LF CR LF.
unfoldable pub ends_header : List ℕ → Bool
ends_header h = starts (10 ∷ 13 ∷ 10 ∷ 13 ∷ []) h

-- How many bytes of CR LF CR LF a stream ends with, given from its last byte to its first.
unfoldable pub matched : List ℕ → ℕ
unfolding ends_header
matched h =
    if ends_header h
    then 4
    else if starts (13 ∷ 10 ∷ 13 ∷ []) h
    then 3
    else if starts (10 ∷ 13 ∷ []) h
    then 2
    else if starts (13 ∷ []) h
    then 1
    else 0

advance-matched :
    (c : ℕ) (h : List ℕ) → matched h ≢ 4 → advance c (matched h) ≡ some (matched (c ∷ h))
unfolding advance matched
advance-matched c [] e = ground arith
advance-matched c (x ∷ []) e = ground arith
advance-matched c (x ∷ y ∷ []) e = ground arith
advance-matched c (x ∷ y ∷ z ∷ h) e = ground arith

matched-ends : (h : List ℕ) → (matched h == 4) ≡ ends_header h
unfolding matched
matched-ends h = ground arith

-- What a call returns when it is entered with the bytes `h` behind it.
record Parsed (h cs : List ℕ) (n t : ℕ) : Type 0 where
  run : s_http_parse (matched h) cs ≡ some (n, t)
  within : n ≤ length cs
  state : t ≡ matched (reverse_aux (take n cs) h)
  least : (m : ℕ) → 0 < m → m < n → ends_header (reverse_aux (take m cs) h) ≡ false
  stops : t ≢ 4 → n ≡ length cs

Parsed-cons :
    (c : ℕ) {h cs : List ℕ} {n t : ℕ}
    → matched h ≢ 4
    → matched (c ∷ h) ≢ 4
    → Parsed (c ∷ h) cs n t
    → Parsed h (c ∷ cs) (suc n) t
unfolding s_http_parse
Parsed-cons c {h} {cs} {n} {t} e ne p = record {
  run = rw (advance-matched c h e, go) (rw p.run (ap (λ k. some (k, t)) (omega arith)));
  within = omega (arith, p.within);
  state = p.state;
  least = λ m pos lt. earlier m pos lt;
  stops = λ k. omega (arith, p.stops k);
}
  where
    go : (matched (c ∷ h) == 4) ≡ false
    go = ground arith

    earlier : (m : ℕ) → 0 < m → m < suc n → ends_header (reverse_aux (take m (c ∷ cs)) h) ≡ false
    earlier zero pos lt = absurd (omega arith)
    earlier (suc zero) pos lt = ground (arith, matched-ends (c ∷ h))
    earlier (suc (suc m)) pos lt = p.least (suc m) (omega arith) (omega arith)

Parsed-hit :
    (c : ℕ) {h : List ℕ} (cs : List ℕ) → matched h ≢ 4 → matched (c ∷ h) ≡ 4 → Parsed h (c ∷ cs) 1 4
unfolding s_http_parse
Parsed-hit c {h} cs e hit = record {
  run = rw (advance-matched c h e, hit);
  within = omega arith;
  state = sym hit;
  least = λ m pos lt. absurd (omega arith);
  stops = λ k. absurd (k refl);
}

parse-total : (cs h : List ℕ) → matched h ≢ 4 → (n : ℕ) × (t : ℕ) × Parsed h cs n t
unfolding s_http_parse
parse-total [] h e = (
  0,
  matched h,
  record {
    run = refl;
    within = omega arith;
    state = refl;
    least = λ m pos lt. absurd (omega arith);
    stops = λ k. refl;
  },
)
parse-total (c ∷ cs) h e = elim (ℕ_discrete (matched (c ∷ h)) 4) [
  | yes hit ↦ (1, 4, Parsed-hit c cs e hit)
  | no ne ↦ let (n, t, p) = parse-total cs (c ∷ h) ne in (suc n, t, Parsed-cons c e ne p)
]

-- From a fresh connection (`local->state` 0), `s_http_parse` never reads outside `jump_buf`, and
-- returns a count within the buffer. The bytes that it counts end with CR LF CR LF exactly when
-- the new state is 4; otherwise the whole buffer is consumed.
pub s_http_parse_lem :
    (stream : List ℕ)
    → (n : ℕ) × (t : ℕ) × (s_http_parse 0 stream ≡ some (n, t))
      × (n ≤ length stream)
      × (ends_header (reverse (take n stream)) ≡ (t == 4))
      × ((t ≡ 4) ⊎ (n ≡ length stream))
unfolding matched
s_http_parse_lem stream =
    let (n, t, p) = parse-total stream [] (omega arith) in
    (n, t, p.run, p.within, rw p.state (sym (matched-ends (reverse (take n stream)))), last n t p)
  where
    last : (n t : ℕ) → Parsed [] stream n t → (t ≡ 4) ⊎ (n ≡ length stream)
    last n t p = elim (ℕ_discrete t 4) [ yes e ↦ inl e | no ne ↦ inr (p.stops ne) ]

-- No shorter part of the buffer ends with CR LF CR LF: `s_http_parse` finds the first one.
pub s_http_parse-first :
    (stream : List ℕ) {n t : ℕ} (m : ℕ)
    → s_http_parse 0 stream ≡ some (n, t)
    → m < n
    → ends_header (reverse (take m stream)) ≡ false
unfolding matched
s_http_parse-first stream zero run lt = refl
s_http_parse-first stream {n} (suc m) run lt =
    let (n', t', p) = parse-total stream [] (omega arith) in
    p.least (suc m) (omega arith) (same n' t' p)
  where
    same : (n' t' : ℕ) → Parsed [] stream n' t' → suc m < n'
    same n' t' p = ground (arith, p.run)

-- Cutting the stream changes nothing: where the first buffer ends before the header does, the
-- second call goes on from the state that the first one left.
pub s_http_parse-append :
    (lstate : ℕ) (stream more : List ℕ) {n t : ℕ}
    → s_http_parse lstate stream ≡ some (n, t)
    → t ≢ 4
    → s_http_parse lstate (stream ++ more) ≡ (do (k, u) ← s_http_parse t more; some (n + k, u))
unfolding s_http_parse
s_http_parse-append lstate [] more {n} {t} run ne = elim (Option-cases (s_http_parse lstate more)) [
  | inl e ↦ ground arith
  | inr (r, e) ↦ ground arith
]
s_http_parse-append lstate (c ∷ cs) more {n} {t} run ne = elim (Option-cases (advance c lstate)) [
  | inl e ↦ ground arith
  | inr (s, e) ↦ elim (ℕ_discrete s 4) [
    | yes hit ↦ ground arith
    | no miss ↦ elim (Option-cases (s_http_parse s cs)) [
      | inl e' ↦ ground arith
      | inr ((k, u), e') ↦ elim (Option-cases (s_http_parse t more)) [
        | inl e'' ↦ ground (arith, s_http_parse-append s cs more e')
        | inr (r, e'') ↦ ground (arith, s_http_parse-append s cs more e')
      ]
    ]
  ]
]

-- After the header, `local->state` is 4. A call from there starts afresh, unless the next byte is
-- NUL: then it reads past the end of `jump_buf`.
pub s_http_parse-again :
    (c : ℕ) (cs : List ℕ)
    → s_http_parse 4 (c ∷ cs) ≡ (if c == 0 then none else s_http_parse 0 (c ∷ cs))
unfolding s_http_parse
s_http_parse-again c cs = ground arith
