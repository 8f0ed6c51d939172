-- ===== src/Tests/Queries.antt =====
-- Queries taken apart by http/http_arg.c.
use xxx.Prelude.{ℕ, List, ◌+◌, ◌≡◌, refl, true, false, none, some, [], ◌∷◌, arith}
use xxx.Fields.{codes}
use xxx.Args.{with_cur, parse_args, Ctrl, Parse}
use xxx.Args.Words.{stored}
use xxx.Args.Pairs.{Pair, query, stored_all, parse_args-query, parse_args-late}

abbrev value : ℕ → List ℕ → ℕ
value base x = 65

abbrev ctl : Ctrl
ctl = record { before = []; cur = none; max_num = 32 }

abbrev first_pair : Pair
first_pair = record { name = codes "a"; value = codes "b" }

abbrev last_pair : Pair
last_pair = record { name = codes "cd"; value = codes "e" }

abbrev more_pairs : List Pair
more_pairs = last_pair ∷ []

parse_args-query_example :
    (p : Parse) × (parse_args value 0 true false (query first_pair more_pairs) ctl 0 0
      ≡ some (0, p))
    × (with_cur p.ctl ≡ stored_all [] first_pair more_pairs)
    × (p.url_arg_cnt ≡ 0 + 2)
parse_args-query_example =
    parse_args-query value 0 false 32 first_pair more_pairs 0 0
      ((refl, omega arith, omega arith), (refl, omega arith, omega arith))
      (((refl, omega arith, omega arith), (refl, omega arith, omega arith)), tt) (omega arith)

parse_args-late_example :
    (p : Parse) × (parse_args value 0 true false (codes "a==b&cd=e") ctl 0 0 ≡ some (0, p))
    × (with_cur p.ctl ≡ stored_all (stored (codes "a") (codes "b&") ∷ []) last_pair [])
    × (p.url_arg_cnt ≡ 2)
parse_args-late_example =
    parse_args-late value 0 false 32 first_pair last_pair [] 0 0
      ((refl, omega arith, omega arith), (refl, omega arith, omega arith))
      ((refl, omega arith, omega arith), (refl, omega arith, omega arith)) tt (omega arith)
