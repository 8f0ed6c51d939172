-- ===== src/Body/Stream.antt =====
-- `recv_chunk` reads a stream byte by byte, in whatever pieces it comes.
use xxx.Prelude.{
  ℕ, zero, suc, ◌-◌, ◌≤◌, ◌<◌, ◌≡◌, refl, ◌==◌, Bool, true, false, ◌&&◌, Option, none, some, List,
  [], ◌∷◌, ◌++◌, ltb, if◌then◌else◌, ◌>>=◌, length, drop, ℤ, pos, negsuc, arith, Option-cases, inl,
  inr, ap, ◌∙◌, sym,
}
use xxx.Body.{read_line, end_line, start_chunk, Local, left, line_byte, recv_loop, recv_chunk}

module _ (size : List ℕ → ℤ) where
  -- A byte of the stream: in a chunk and the CR LF behind it, one more is received; else it belongs
  -- to the line with the size. The flag tells whether the message goes on.
  unfoldable pub step : Local → ℕ → Option (Local × Bool)
  step s b =
      let n = left s.un_recv in
      if n == 0
      then line_byte size s b
      else if n == 1
      then some (record s { un_recv = pos 0 }, (if s.fin then false else true))
      else some (record s { un_recv = pos (n - 1) }, true)

  -- The stream byte by byte, up to the end of the message.
  unfoldable pub run : Local → List ℕ → Option (Local × Bool)
  unfolding step
  run s [] = some (s, true)
  run s (b ∷ input) = do
    (s', more) ← step s b
    elim more [ true ↦ run s' input | false ↦ some (s', false) ]

  -- What `recv_chunk` does at once with a chunk of which `suc n` bytes are missing.
  unfoldable pub skipped : ℕ → Local → List ℕ → Option (Local × Bool)
  unfolding run
  skipped n s input =
      if ltb (length input) (suc n)
      then some (record s { un_recv = pos (suc n - length input) }, true)
      else if s.fin
      then some (record s { un_recv = pos 0 }, false)
      else run (record s { un_recv = pos 0; fin = false }) (drop (suc n) input)

  pub run-skipped :
      (n : ℕ) (fin : Bool) (cache input : List ℕ)
      → (let s : Local = record { un_recv = pos (suc n); fin = fin; cache = cache } in
          run s input ≡ skipped n s input)
  unfolding run skipped step
  run-skipped n fin cache [] = ground arith
  run-skipped zero true cache (b ∷ input) = ground arith
  run-skipped zero false cache (b ∷ input) = ground arith
  run-skipped (suc n) fin cache (b ∷ input) = ground (arith, run-skipped n fin cache input)

  length-drop-le : (n : ℕ) (input : List ℕ) → length (drop n input) ≤ length input
  length-drop-le zero input = omega arith
  length-drop-le (suc n) [] = omega arith
  length-drop-le (suc n) (b ∷ input) = omega (arith, length-drop-le n input)

  abbrev pub fields : Option (Local × Bool) → Option Local
  fields r = do (s', more) ← r; some s'

  go_on :
      (o : Option (Local × Bool)) (f : Local → Option Local) (g : Local → Option (Local × Bool))
      → ((t : Local) → f t ≡ fields (g t))
      → (do (t, more) ← o; elim more [ true ↦ f t | false ↦ some t ])
        ≡ fields (do (t, more) ← o; elim more [ true ↦ g t | false ↦ some (t, false) ])
  go_on none f g h = refl
  go_on (some (t, true)) f g h = h t
  go_on (some (t, false)) f g h = refl

  -- The two rounds of the loop, for a shorter input on which it is known to agree.
  abbrev Agrees : ℕ → ℕ → Type 0
  Agrees fuel n =
      (t : Local) (input : List ℕ)
      → length input ≤ n
      → recv_loop size fuel t input ≡ fields (run t input)

  loop-line :
      (fuel : ℕ) (s : Local) (b : ℕ) (input : List ℕ)
      → left s.un_recv ≡ 0
      → Agrees fuel (length input)
      → recv_loop size (suc fuel) s (b ∷ input) ≡ fields (run s (b ∷ input))
  unfolding recv_loop run
  loop-line fuel s b input e ih =
      rw (e, step)
        (go_on (line_byte size s b) (λ t. recv_loop size fuel t input) (λ t. run t input)
          (λ t. ih t input (omega arith)))

  loop-chunk :
      (fuel n : ℕ) (fin : Bool) (cache : List ℕ) (b : ℕ) (input : List ℕ)
      → Agrees fuel (length input)
      → (let s : Local = record { un_recv = pos (suc n); fin = fin; cache = cache } in
          recv_loop size (suc fuel) s (b ∷ input) ≡ fields (run s (b ∷ input)))
  unfolding recv_loop
  loop-chunk fuel n fin cache b input ih = rw (run-skipped n fin cache (b ∷ input)) (
      unfold skipped in
      (ground (
        arith,
        ih (record { un_recv = pos 0; fin = false; cache = cache }) (drop n input)
            (length-drop-le n input),
      )))

  by_length :
      (fuel : ℕ) (un_recv : ℤ) (fin : Bool) (cache : List ℕ) (b : ℕ) (input : List ℕ)
      → Agrees fuel (length input)
      → (let s : Local = record { un_recv = un_recv; fin = fin; cache = cache } in
          recv_loop size (suc fuel) s (b ∷ input) ≡ fields (run s (b ∷ input)))
  by_length fuel (pos zero) fin cache b input ih =
      loop-line fuel (record { un_recv = pos zero; fin = fin; cache = cache }) b input refl ih
  by_length fuel (pos (suc n)) fin cache b input ih = loop-chunk fuel n fin cache b input ih
  by_length fuel (negsuc n) fin cache b input ih =
      loop-line fuel (record { un_recv = negsuc n; fin = fin; cache = cache }) b input refl ih

  recv_loop-run : (fuel n : ℕ) → n < fuel → Agrees fuel n
  unfolding recv_loop run
  recv_loop-run zero n lt s input le = absurd (omega arith)
  recv_loop-run (suc fuel) n lt s [] le = refl
  recv_loop-run (suc fuel) n lt s (b ∷ input) le =
      by_length fuel s.un_recv s.fin s.cache b input
        (λ t rest h. recv_loop-run fuel (length input) (omega arith) t rest h)

  -- Whether a state is the end of a message for `recv_chunk`.
  abbrev pub ended : Local → Bool
  ended s = s.fin && (elim s.un_recv [ pos n ↦ n == 0 | negsuc n ↦ false ])

  abbrev pub result : Option (Local × Bool) → Option (Local × Bool)
  result r = do t ← fields r; some (t, ended t)

  pub recv_chunk-run : (s : Local) (input : List ℕ) → recv_chunk size s input ≡ result (run s input)
  unfolding recv_chunk
  recv_chunk-run s input =
      rw (recv_loop-run (suc (length input)) (length input) (omega arith) s input (omega arith))
        refl

  abbrev pub and_then :
      (Local → Option (Local × Bool)) → Option (Local × Bool) → Option (Local × Bool)
  and_then f o = do (t, more) ← o; elim more [ true ↦ f t | false ↦ some (t, false) ]

  pub run-append :
      (s : Local) (xs ys : List ℕ) → run s (xs ++ ys) ≡ and_then (λ t. run t ys) (run s xs)
  unfolding run
  run-append s [] ys = refl
  run-append s (b ∷ xs) ys = after (step s b) (λ t. run-append t xs ys)
    where
      after :
          (o : Option (Local × Bool))
          → ((t : Local) → run t (xs ++ ys) ≡ and_then (λ u. run u ys) (run t xs))
          → and_then (λ t. run t (xs ++ ys)) o
            ≡ and_then (λ u. run u ys) (and_then (λ t. run t xs) o)
      after none ih = refl
      after (some (t, true)) ih = ih t
      after (some (t, false)) ih = refl

  -- In such a state the loop stops: the last CR LF is there, or the size was negative.
  abbrev over : Local → Bool
  over s = elim s.un_recv [ pos n ↦ s.fin && n == 0 | negsuc n ↦ true ]

  start_chunk-over : (s : Local) (n : ℤ) (t : Local) → start_chunk s n ≡ (t, false) → over t ≡ true
  unfolding start_chunk
  start_chunk-over s (pos n) t e = ground arith
  start_chunk-over s (negsuc n) t e = ground arith

  end_line-over :
      (s : Local) (r : List ℕ × Option (List ℕ)) (t : Local)
      → end_line size s r ≡ (t, false)
      → over t ≡ true
  unfolding end_line
  end_line-over s (cache, none) t e = absurd (ground arith)
  end_line-over s (cache, some line) t e =
      start_chunk-over (record s { cache = cache }) (size line) t e

  step-over : (s : Local) (b : ℕ) (t : Local) → step s b ≡ some (t, false) → over t ≡ true
  unfolding step line_byte
  step-over s b t e = elim (Option-cases (read_line s.cache (b ∷ []))) [
    | inl none_read ↦ ground arith
    | inr (r, read) ↦ ground (arith, end_line-over s r t)
  ]

  run-over :
      (s : Local) (input : List ℕ) (t : Local) → run s input ≡ some (t, false) → over t ≡ true
  unfolding run
  run-over s [] t e = absurd (ground arith)
  run-over s (b ∷ input) t e = elim (Option-cases (step s b)) [
    | inl none_read ↦ absurd (ground arith)
    | inr ((u, more), here) ↦ ground (arith, step-over s b u, run-over u input t)
  ]

  -- Where the pieces of the stream are cut makes no difference to `recv_chunk`: if a piece neither
  -- ends the message nor holds a size that is negative, then the next piece, read in the state that
  -- it leaves, gives the result of both in one.
  pub recv_chunk-append :
      (s t : Local) (n : ℕ) (xs ys : List ℕ)
      → recv_chunk size s xs ≡ some (t, false)
      → t.un_recv ≡ pos n
      → recv_chunk size s (xs ++ ys) ≡ recv_chunk size t ys
  recv_chunk-append s t n xs ys e known =
      recv_chunk-run s (xs ++ ys)
      ∙ ap result (run-append s xs ys ∙ rest)
      ∙ sym (recv_chunk-run t ys)
    where
      stopped : result (run s xs) ≡ some (t, false)
      stopped = sym (recv_chunk-run s xs) ∙ e

      resumed :
          (u : Local) (more : Bool)
          → run s xs ≡ some (u, more)
          → u ≡ t
          → ended u ≡ false
          → and_then (λ v. run v ys) (run s xs) ≡ run t ys
      resumed u true read same open_still = rw (read, same) refl
      resumed u false read same open_still =
          absurd (ground (arith, run-over s xs u read, ap (λ (v : Local). v.un_recv) same, known))

      rest : and_then (λ u. run u ys) (run s xs) ≡ run t ys
      rest = elim (Option-cases (run s xs)) [
        | inl none_read ↦ absurd (ground (arith, stopped))
        | inr ((u, more), read) ↦
            resumed u more read (ground (arith, stopped)) (ground (arith, stopped))
      ]
