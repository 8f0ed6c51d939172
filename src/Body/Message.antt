-- ===== src/Body/Message.antt =====
-- Whole messages in chunks.
use xxx.Prelude.{
  ℕ, suc, ◌+◌, ◌^◌, ◌<◌, ◌≡◌, refl, ◌==◌, Bool, true, false, ◌&&◌, some, List, [], ◌∷◌, ◌++◌,
  length, length-append, drop, ap, sym, ◌∙◌, arith, ltb, ℤ, pos, not,
}
use xxx.Body.{Local, cache_size, end_line, start_chunk, line_byte, recv_chunk}
use xxx.Body.Line.{has_crlf, read_line_lem}
use xxx.Body.Stream.{step, run, run-skipped, skipped, recv_chunk-run, and_then, result}
use mathlib.Core.List.{append_assoc, append-nil}

abbrev pub no_cr : List ℕ → Bool
no_cr [] = true
no_cr (b ∷ bs) = not (b == 13) && no_cr bs

has_crlf-no_cr : (xs : List ℕ) (b : ℕ) → no_cr xs ≡ true → has_crlf (xs ++ b ∷ []) ≡ false
has_crlf-no_cr [] b h = refl
has_crlf-no_cr (x ∷ []) b h = ground arith
has_crlf-no_cr (x ∷ y ∷ xs) b h = ground (arith, has_crlf-no_cr (y ∷ xs) b)

has_crlf-end : (xs : List ℕ) → has_crlf (xs ++ 13 ∷ 10 ∷ []) ≡ true
has_crlf-end [] = refl
has_crlf-end (x ∷ []) = ground arith
has_crlf-end (x ∷ y ∷ xs) = ground (arith, has_crlf-end (y ∷ xs))

no_cr-append : (xs ys : List ℕ) → no_cr (xs ++ ys) ≡ (no_cr xs && no_cr ys)
no_cr-append [] ys = refl
no_cr-append (x ∷ xs) ys = ground (arith, no_cr-append xs ys)

drop-behind :
    (bytes rest : List ℕ) → drop (suc (suc (length bytes))) (bytes ++ 13 ∷ 10 ∷ rest) ≡ rest
drop-behind [] rest = refl
drop-behind (b ∷ bytes) rest = drop-behind bytes rest

-- A chunk: the line with its size, without the CR LF, and the bytes.
pub record Chunk : Type 0 where
  pub line : List ℕ
  pub bytes : List ℕ

abbrev pub encode : Chunk → List ℕ → List ℕ
encode c rest = c.line ++ 13 ∷ 10 ∷ (c.bytes ++ 13 ∷ 10 ∷ rest)

abbrev pub encode_all : List Chunk → List ℕ → List ℕ
encode_all [] rest = rest
encode_all (c ∷ cs) rest = encode c (encode_all cs rest)

-- Between two chunks of a message.
abbrev pub ready : Local
ready = record { un_recv = pos 0; fin = false; cache = [] }

-- Behind the last CR LF of a message.
abbrev pub done : Local
done = record { un_recv = pos 0; fin = true; cache = [] }

-- Behind the line of the last chunk, with so many of the bytes of its CR LF still to come.
abbrev pub waiting : ℕ → Local
waiting n = record { un_recv = pos n; fin = true; cache = [] }

module _ (size : List ℕ → ℤ) where
  -- The line is short and has the size of the chunk, which is not empty.
  pub record IsChunk (c : Chunk) : Type 0 where
    pub no_cr_line : no_cr c.line ≡ true
    pub short : length c.line + 2 < cache_size
    pub sized : size (c.line ++ 13 ∷ 10 ∷ []) ≡ pos (length c.bytes)
    pub not_empty : 0 < length c.bytes
    pub fits : length c.bytes + 2 < 2 ^ 31

  abbrev reading : List ℕ → Local
  reading cache = record { un_recv = pos 0; fin = false; cache = cache }

  step-more :
      (cache : List ℕ) (b : ℕ)
      → length cache + 1 < cache_size
      → has_crlf (cache ++ b ∷ []) ≡ false
      → step size (reading cache) b ≡ some (reading (cache ++ b ∷ []), true)
  unfolding step line_byte end_line
  step-more cache b room e = rw ((read_line_lem cache (b ∷ []) (omega arith)).0 room, e) refl

  step-end :
      (cache : List ℕ) (b : ℕ)
      → length cache + 1 < cache_size
      → has_crlf (cache ++ b ∷ []) ≡ true
      → step size (reading cache) b ≡ some (start_chunk ready (size (cache ++ b ∷ [])))
  unfolding step line_byte end_line
  step-end cache b room e = rw ((read_line_lem cache (b ∷ []) (omega arith)).0 room, e) refl

  -- A line up to its CR LF.
  run-line :
      (cache line rest : List ℕ)
      → no_cr (cache ++ line) ≡ true
      → length (cache ++ line) + 2 < cache_size
      → run size (reading cache) (line ++ 13 ∷ 10 ∷ rest)
        ≡ and_then size
            (λ t. run size t rest)
            (some (start_chunk ready (size ((cache ++ line) ++ 13 ∷ 10 ∷ []))))
  unfolding run
  run-line cache [] rest h room =
      let plain : cache ++ [] ≡ cache = append-nil cache in
      let cr =
        step-more cache 13 (omega (arith, ap length plain))
          (has_crlf-no_cr cache 13 (ap no_cr (sym plain) ∙ h)) in
      let lf =
        step-end (cache ++ 13 ∷ []) 10
          (omega (arith, ap length plain, length-append cache (13 ∷ [])))
          (ap has_crlf (append_assoc cache (13 ∷ []) (10 ∷ [])) ∙ has_crlf-end cache) in
      rw cr (rw lf (rw (append_assoc cache (13 ∷ []) (10 ∷ []), plain) refl))
  run-line cache (b ∷ line) rest h room =
      let all : (cache ++ b ∷ []) ++ line ≡ cache ++ b ∷ line = append_assoc cache (b ∷ []) line in
      let more =
        step-more cache b (omega (arith, length-append cache (b ∷ line)))
          (has_crlf-no_cr cache b (ground (arith, h, no_cr-append cache (b ∷ line)))) in
      rw more (
        run-line (cache ++ b ∷ []) line rest (ap no_cr all ∙ h) (omega (arith, ap length all))
        ∙ ap
            (λ l.
              and_then size (λ t. run size t rest)
                (some (start_chunk ready (size (l ++ 13 ∷ 10 ∷ [])))))
            all)

  -- The bytes of a chunk and the CR LF behind them.
  run-bytes :
      (n : ℕ) (bytes rest : List ℕ)
      → length bytes ≡ n
      → run size
          (record { un_recv = pos (suc (suc n)); fin = false; cache = [] })
          (bytes ++ 13 ∷ 10 ∷ rest)
        ≡ run size ready rest
  unfolding skipped
  run-bytes n bytes rest e =
      let len = length-append bytes (13 ∷ 10 ∷ rest) in
      let long : ltb (length (bytes ++ 13 ∷ 10 ∷ rest)) (suc (suc n)) ≡ false = ground arith in
      run-skipped size (suc n) false [] (bytes ++ 13 ∷ 10 ∷ rest)
      ∙ rw long (
          ap (run size ready) (
            ap (λ k. drop (suc (suc k)) (bytes ++ 13 ∷ 10 ∷ rest)) (sym e)
            ∙ drop-behind bytes rest))

  run-chunk :
      (c : Chunk) (rest : List ℕ) → IsChunk c → run size ready (encode c rest) ≡ run size ready rest
  unfolding start_chunk
  run-chunk c rest h =
      let filled : (length c.bytes == 0) ≡ false = ground (arith, h.not_empty) in
      let small : ltb (length c.bytes + 2) (2 ^ 31) ≡ true = ground (arith, h.fits) in
      let two : length c.bytes + 2 ≡ suc (suc (length c.bytes)) = omega arith in
      run-line [] c.line (c.bytes ++ 13 ∷ 10 ∷ rest) h.no_cr_line h.short
      ∙ rw (h.sized, filled, small, two) (run-bytes (length c.bytes) c.bytes rest refl)

  abbrev pub AreChunks : List Chunk → Type 0
  AreChunks [] = Unit
  AreChunks (c ∷ cs) = IsChunk c × AreChunks cs

  run-chunks :
      (cs : List Chunk) (rest : List ℕ)
      → AreChunks cs
      → run size ready (encode_all cs rest) ≡ run size ready rest
  run-chunks [] rest h = refl
  run-chunks (c ∷ cs) rest h = run-chunk c (encode_all cs rest) h.0 ∙ run-chunks cs rest h.1

  -- The last chunk, of size 0, whose line is `line`.
  abbrev pub IsLast : List ℕ → Type 0
  IsLast line =
      (no_cr line ≡ true) × (length line + 2 < cache_size) × (size (line ++ 13 ∷ 10 ∷ []) ≡ pos 0)

  run-last :
      (line rest : List ℕ)
      → IsLast line
      → run size ready (line ++ 13 ∷ 10 ∷ 13 ∷ 10 ∷ rest) ≡ some (done, false)
  unfolding start_chunk
  run-last line rest (h, short, zero_size) =
      run-line [] line (13 ∷ 10 ∷ rest) h short
      ∙ rw zero_size
          (run-skipped size 1 true [] (13 ∷ 10 ∷ rest) ∙ (unfold skipped in ground arith))

  run-last_line :
      (line : List ℕ) → IsLast line → run size ready (line ++ 13 ∷ 10 ∷ []) ≡ some (waiting 2, true)
  unfolding start_chunk run
  run-last_line line (h, short, zero_size) = run-line [] line [] h short ∙ rw zero_size refl

  run-last_cr :
      (line : List ℕ)
      → IsLast line
      → run size ready (line ++ 13 ∷ 10 ∷ 13 ∷ []) ≡ some (waiting 1, true)
  unfolding start_chunk
  run-last_cr line (h, short, zero_size) =
      run-line [] line (13 ∷ []) h short
      ∙ rw zero_size (run-skipped size 1 true [] (13 ∷ []) ∙ (unfold skipped in refl))

  -- `recv_chunk` finds the end of a message: on the chunks alone it goes on, ready for the next
  -- one; on the chunks with the line of the last one, whose size is 0, it waits for the two bytes of
  -- the CR LF behind it, and with the first of these for the second; with both the message has ended,
  -- whatever follows. The message is a new one; each line has fewer than 510 characters and no CR,
  -- each chunk at least one byte and a size for which the `int` does not overflow.
  pub recv_chunk-message :
      (cs : List Chunk) (line rest : List ℕ)
      → AreChunks cs
      → IsLast line
      → (recv_chunk size ready (encode_all cs []) ≡ some (ready, false))
        × ((recv_chunk size ready (encode_all cs (line ++ 13 ∷ 10 ∷ [])) ≡ some (waiting 2, false))
            × ((recv_chunk size ready (encode_all cs (line ++ 13 ∷ 10 ∷ 13 ∷ []))
                  ≡ some (waiting 1, false))
                × (recv_chunk size ready (encode_all cs (line ++ 13 ∷ 10 ∷ 13 ∷ 10 ∷ rest))
                    ≡ some (done, true))))
  unfolding run
  recv_chunk-message cs line rest h last =
      let found = λ (tail : List ℕ).
        recv_chunk-run size ready (encode_all cs tail) ∙ ap (result size) (run-chunks cs tail h) in
      (
        found [],
        (
          found (line ++ 13 ∷ 10 ∷ []) ∙ ap (result size) (run-last_line line last),
          (
            found (line ++ 13 ∷ 10 ∷ 13 ∷ []) ∙ ap (result size) (run-last_cr line last),
            found (line ++ 13 ∷ 10 ∷ 13 ∷ 10 ∷ rest) ∙ ap (result size) (run-last line rest last),
          ),
        ),
      )

  -- The state that a message leaves makes the first byte of the next one its end as well.
  pub recv_chunk-again :
      (b : ℕ)
      → recv_chunk size done (b ∷ [])
        ≡ some (record { un_recv = pos 0; fin = true; cache = b ∷ [] }, true)
  unfolding run step line_byte end_line
  recv_chunk-again b =
      recv_chunk-run size done (b ∷ [])
      ∙ rw ((read_line_lem [] (b ∷ []) (omega arith)).0 (omega arith)) refl
