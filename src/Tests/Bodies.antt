-- ===== src/Tests/Bodies.antt =====
-- Bodies in chunks. The size of a line is here the value of its first character.
use xxx.Prelude.{
  ℕ, ◌-◌, ◌<◌, ◌≡◌, refl, true, false, none, some, List, [], ◌∷◌, arith, ℤ, pos, get_or,
}
use xxx.Text.{strlstr}
use xxx.Body.{read_line, recv_chunk}
use xxx.Body.Line.{read_line_lem}
use xxx.Body.Stream.{recv_chunk-append}
use xxx.Body.Message.{Chunk, ready, done, encode_all, waiting, recv_chunk-message, recv_chunk-again}

abbrev first_digit : List ℕ → ℤ
first_digit line = pos (get_or line 0 0 - 48)

abbrev abc : Chunk
abc = record { line = b'3' ∷ []; bytes = b'a' ∷ b'b' ∷ b'c' ∷ [] }

body_runs :
    (recv_chunk first_digit ready (b'3' ∷ 13 ∷ 10 ∷ b'a' ∷ [])
      ≡ some (record { un_recv = pos 4; fin = false; cache = [] }, false))
    × (recv_chunk first_digit ready (b'0' ∷ 13 ∷ 10 ∷ 13 ∷ 10 ∷ []) ≡ some (done, true))
unfolding recv_chunk read_line strlstr
body_runs = (refl, refl)

read_line_lem_example :
    (3 < 512 → read_line (b'3' ∷ 13 ∷ []) (10 ∷ []) ≡ some ([], some (b'3' ∷ 13 ∷ 10 ∷ [])))
    × (◌≡◌ {A = ℕ} 3 512 → read_line (b'3' ∷ 13 ∷ []) (10 ∷ []) ≡ none)
read_line_lem_example = read_line_lem (b'3' ∷ 13 ∷ []) (10 ∷ []) (omega arith)

recv_chunk-append_example :
    recv_chunk first_digit ready (b'3' ∷ 13 ∷ 10 ∷ b'a' ∷ b'b' ∷ [])
    ≡ recv_chunk first_digit (record { un_recv = pos 4; fin = false; cache = [] }) (b'b' ∷ [])
unfolding recv_chunk read_line strlstr
recv_chunk-append_example =
    recv_chunk-append first_digit ready (record { un_recv = pos 4; fin = false; cache = [] }) 4
      (b'3' ∷ 13 ∷ 10 ∷ b'a' ∷ []) (b'b' ∷ []) refl refl

recv_chunk-message_example :
    (recv_chunk first_digit ready (encode_all (abc ∷ []) []) ≡ some (ready, false))
    × ((recv_chunk first_digit ready (encode_all (abc ∷ []) (b'0' ∷ 13 ∷ 10 ∷ []))
          ≡ some (waiting 2, false))
        × ((recv_chunk first_digit ready (encode_all (abc ∷ []) (b'0' ∷ 13 ∷ 10 ∷ 13 ∷ []))
              ≡ some (waiting 1, false))
            × (recv_chunk first_digit ready (encode_all (abc ∷ []) (b'0' ∷ 13 ∷ 10 ∷ 13 ∷ 10 ∷ []))
                ≡ some (done, true))))
recv_chunk-message_example =
    recv_chunk-message first_digit (abc ∷ []) (b'0' ∷ []) []
      (
        record {
          no_cr_line = refl;
          short = omega arith;
          sized = refl;
          not_empty = omega arith;
          fits = omega arith;
        },
        tt,
      )
      (refl, omega arith, refl)

recv_chunk-again_example :
    recv_chunk first_digit done (b'3' ∷ [])
    ≡ some (record { un_recv = pos 0; fin = true; cache = b'3' ∷ [] }, true)
recv_chunk-again_example = recv_chunk-again first_digit b'3'
