-- ===== src/Fields.antt =====
-- The tables of http/http_header.c and http/http_table.c, which find the parser of a header field
-- and the number of a method by the first characters of a name. A name is the list of the bytes from
-- its first one to the end of the buffer; `none` is a read behind it.
pub mod Rows
pub mod Search
pub mod Methods
use Prim.Native.Char.{code}
use Prim.Native.String.{String}
use xxx.Prelude.{
  ℕ, zero, suc, ◌+◌, ◌*◌, ◌==◌, Bool, true, false, ◌&&◌, ◌||◌, Option, none, some, List, [], ◌∷◌,
  if◌then◌else◌, ◌>>=◌, length, get_elem?, ltb, not,
}
use xxx.Decode.Digit.{to_lower}
use xxx.Text.{char2num}

-- The bytes of a C string in the source.
abbrev pub codes : String → List ℕ
codes String.[] = []
codes (String.◌∷◌ c s) = code c ∷ codes s

-- `strncasecmp (s, key, n) == 0` for a `key` of `n` characters, none of them NUL.
unfoldable pub same_nocase : List ℕ → List ℕ → Bool
same_nocase [] s = true
same_nocase (k ∷ ks) [] = false
same_nocase (k ∷ ks) (c ∷ s) = to_lower c == to_lower k && same_nocase ks s

abbrev pub ends_name : ℕ → Bool
ends_name c = c == b' ' || c == b':' || c == 13 || c == 9 || c == 0

-- `http_clean_str_cmp (dst, dst_len, src, strlen (src)) == 0`
unfoldable pub clean_str_cmp : List ℕ → ℕ → List ℕ → Option Bool
unfolding same_nocase
clean_str_cmp dst dst_len src =
    if ltb dst_len (length src)
    then some false
    else if not (same_nocase src dst)
    then some false
    else (do c ← get_elem? dst (length src); some (ends_name c))

-- An entry that is in use: `key`, whose length is `keylen`, and `func` or `value`.
pub record Entry (V : Type 0) : Type 0 where
  pub key : List ℕ
  pub value : V

-- A row of a table is found by its place in memory; `none` is an entry with a `keylen` of 0.
abbrev pub Table : Type 0 → Type 0
Table V = ℕ → ℕ → Option (Entry V)

module _ {V : Type 0} where
  -- The writes of `http_set_header_table` and `set_method_table`.
  pub write : Table V → ℕ → ℕ → Entry V → Table V
  write t row num e r n = if r == row && n == num then some e else t r n

  -- Calls of these, each with its `num`, in their order; `place` is the row of a key.
  unfoldable pub fill : (place : List ℕ → ℕ) → Table V → List (Entry V × ℕ) → Table V
  unfolding write
  fill place t [] = t
  fill place t ((e, num) ∷ calls) = fill place (write t (place e.key) num e) calls

  -- The loop of `http_match_header_table` and of `parse_method` over a row, with the rounds that are
  -- left: what it finds.
  unfoldable pub match_row : ℕ → ℕ → (ℕ → Option (Entry V)) → List ℕ → ℕ → Option (Option V)
  match_row zero i row name name_len = some none
  match_row (suc rounds) i row name name_len =
      let rest = match_row rounds (suc i) row name name_len in
      elim (row i) [
        | none ↦ some none
        | some e ↦ if not (length e.key == name_len) then rest else (do
          same ← clean_str_cmp name name_len e.key
          elim same [ true ↦ some (some e.value) | false ↦ rest ])
      ]

-- `MAX_HEAD_TABLE_MIX`, and `MAX_METHOD_TABLE_MIX`
abbrev pub table_mix : ℕ
table_mix = 5

-- `http_header[c0][c1][c2]`
unfoldable pub header_place : List ℕ → Option ℕ
header_place name = do
  a ← get_elem? name 0
  b ← get_elem? name 1
  c ← get_elem? name 2
  some ((char2num a * 27 + char2num b) * 27 + char2num c)

-- `http_methods[c0][c1]`
unfoldable pub method_place : List ℕ → Option ℕ
method_place name = do
  a ← get_elem? name 0
  b ← get_elem? name 1
  some (char2num a * 27 + char2num b)

abbrev pub or_zero : Option ℕ → ℕ
or_zero none = 0
or_zero (some n) = n

-- The parsers of fields.
pub data Parser : Type 0 where
  parse_au parse_ac parse_ace parse_conl parse_cont parse_conn parse_cone parse_coo : Parser
  parse_ho parse_lo parse_re parse_ra parse_set parse_tr parse_us parse_xp parse_xpb : Parser
  parse_xa parse_xf : Parser

abbrev field : String → Parser → ℕ → Entry Parser × ℕ
field name func num = (record { key = codes name; value = func }, num)

-- The calls of `http_set_header_table` in `http_init_header_table`.
abbrev pub header_calls : List (Entry Parser × ℕ)
header_calls =
    field "authorization" parse_au 0
    ∷ field "Accept" parse_ac 0
    ∷ field "Accept-Encoding" parse_ace 1
    ∷ field "content-length" parse_conl 0
    ∷ field "content-type" parse_cont 1
    ∷ field "Connection" parse_conn 2
    ∷ field "content-Encoding" parse_cone 3
    ∷ field "cookie" parse_coo 0
    ∷ field "host" parse_ho 0
    ∷ field "location" parse_lo 0
    ∷ field "Referer" parse_re 0
    ∷ field "range" parse_ra 0
    ∷ field "set-cookie" parse_set 0
    ∷ field "transfer-encoding" parse_tr 0
    ∷ field "User-Agent" parse_us 0
    ∷ field "x-pad" parse_xp 0
    ∷ field "x-powered-by" parse_xpb 1
    ∷ field "X-AspNet-Version" parse_xa 0
    ∷ field "X-Forwarded-For" parse_xf 0
    ∷ []

-- `HTTP_METHOD_GET` and so on.
pub data Method : Type 0 where
  method_get method_post method_head method_option method_put method_connect : Method
  method_delete method_trace method_webdav : Method

abbrev method : String → Method → ℕ → Entry Method × ℕ
method name value num = (record { key = codes name; value = value }, num)

-- The calls of `set_method_table` in `http_init_method_table`.
abbrev pub method_calls : List (Entry Method × ℕ)
method_calls =
    method "connect" method_connect 0
    ∷ method "copy" method_webdav 1
    ∷ method "DELETE" method_delete 0
    ∷ method "head" method_head 0
    ∷ method "get" method_get 0
    ∷ method "lock" method_webdav 0
    ∷ method "mkcol" method_webdav 0
    ∷ method "move" method_webdav 0
    ∷ method "OPTIONS" method_option 0
    ∷ method "post" method_post 0
    ∷ method "put" method_put 0
    ∷ method "PROPFIND" method_webdav 0
    ∷ method "PROPPATCH" method_webdav 1
    ∷ method "TRACE" method_trace 0
    ∷ method "UNLOCK" method_webdav 0
    ∷ []

abbrev pub empty_table : {V : Type 0} → Table V
empty_table row num = none

-- `http_match_header_table`: the parser that it calls; the inner `none` is `parse_unknown`, or none.
unfoldable pub match_header : List ℕ → ℕ → Option (Option Parser)
unfolding fill match_row header_place clean_str_cmp
match_header name name_len = do
  row ← header_place name
  match_row table_mix 0 (fill (λ key. or_zero (header_place key)) empty_table header_calls row) name
      name_len

-- `table->value`, the value of the first entry of a row.
unfoldable pub first_value : {V : Type 0} → (ℕ → Option (Entry V)) → Option V → Option V
first_value row none = none
first_value row (some v) = elim (row 0) [ none ↦ none | some e ↦ some e.value ]

-- The search of `parse_method` with the method that it sets; the inner `none` is `HTTP_METHOD_NA`, or
-- no method.
unfoldable pub match_method : List ℕ → ℕ → Option (Option Method)
unfolding fill match_row method_place clean_str_cmp first_value
match_method name name_len = do
  place ← method_place name
  let row = fill (λ key. or_zero (method_place key)) empty_table method_calls place
  found ← match_row table_mix 0 row name name_len
  some (first_value row found)
