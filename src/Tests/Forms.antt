-- ===== src/Tests/Forms.antt =====
-- The header of a part of a form, as http/http_form.c waits for it.
use xxx.Prelude.{ℕ, ◌≡◌, ◌++◌, refl, some, List, [], ◌∷◌, arith}
use xxx.Fields.{codes}
use xxx.Text.{strlcpy2}
use xxx.Form.Label.{find_label-replicate}
use xxx.Form.{find_label, FormState, wait_header, get_value}
use xxx.Form.Header.{lines_bytes, wait_header-lines_bytes}

abbrev at_label : FormState
at_label = record {
  cache_buf = [];
  form_header_state = 0;
  label_num = 0;
  label_state = 3;
  label_dashes = 4;
}

-- `local_t` as `memset` leaves it, with the dashes of a boundary counted.
abbrev new_form : FormState
new_form = record {
  cache_buf = [];
  form_header_state = 0;
  label_num = 0;
  label_state = 0;
  label_dashes = 4;
}

-- Two lines as a browser sends them.
abbrev part_lines : List (List ℕ)
part_lines = codes "a: name=\"f\"" ∷ codes "b: c" ∷ []

wait_header-lines_bytes_example :
    wait_header at_label (13 ∷ 10 ∷ (lines_bytes part_lines ++ codes "v"))
    ≡ (some (13 ∷ 10 ∷ lines_bytes part_lines, codes "v"), at_label)
wait_header-lines_bytes_example =
    wait_header-lines_bytes at_label part_lines (codes "v") refl refl
      (omega arith, (refl, (omega arith, (refl, tt)))) (omega arith)

value_of_name :
    get_value (lines_bytes part_lines) 21 (codes "name=\"") 512 ≡ some (some (codes "f"))
unfolding get_value strlcpy2
value_of_name = refl

-- The first label of a form, with the boundary `--xy` behind two dashes more.
find_label-replicate_example :
    find_label new_form (codes "----xy") (codes "----xy\r\n")
    ≡ (some (13 ∷ 10 ∷ []), record new_form { label_state = 3 })
find_label-replicate_example =
    find_label-replicate new_form 3 b'x' (b'y' ∷ []) (13 ∷ 10 ∷ []) refl refl refl refl refl
      (omega arith)
