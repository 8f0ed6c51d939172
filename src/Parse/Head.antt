-- ===== src/Parse/Head.antt =====
-- The head of a request: its first line and its fields.
use mathlib.Core.List.{append_assoc, map}
use xxx.Prelude.{
  ℕ, suc, ◌+◌, ◌≡◌, ◌≤◌, ◌<◌, refl, ◌==◌, true, false, Option, none, some, List, [], ◌∷◌, ◌++◌,
  ◌>>=◌, length, arith, ap, ◌∙◌, length-append,
}
use xxx.Head.{Line}
use xxx.Head.Lines.{AreLines, join, calls, first_colon, flag_of, or_last, head_lines-join}
use xxx.Text.Find.{lacks}
use xxx.Text.Strip.{all_blank, IsTrimmed}
use xxx.Message.{need_decode, set_state}
use xxx.Fields.{header_calls, method_calls, codes}
use xxx.Fields.Search.{find, matches}
use xxx.Parse.{Libc, Info}
use xxx.Parse.Line.{called, longest, counted, started, parse_line, parse_lines, parse_head}
use xxx.Parse.Field.{field_line, field_text, parse_line-field}
use xxx.Parse.Request.{
  url_text, with_args, with_urls, with_method, request_text, parse_line-request,
}

-- A field of a head.
pub record Field : Type 0 where
  pub name : List ℕ
  pub blanks : List ℕ
  pub value : List ℕ

abbrev pub field_bytes : Field → List ℕ
field_bytes f = f.name ++ b':' ∷ (f.blanks ++ f.value)

-- A name of at least three characters and a value, which begin and end with no blank.
pub record IsField (f : Field) : Type 0 where
  pub long : 3 ≤ length f.name
  pub name_trimmed : IsTrimmed f.name
  pub no_colon : lacks b':' f.name ≡ true
  pub blank : all_blank f.blanks ≡ true
  pub value_trimmed : IsTrimmed f.value

abbrev pub AreFields : List Field → Type 0
AreFields [] = Unit
AreFields (f ∷ fs) = IsField f × AreFields fs

abbrev pub crlf : List ℕ
crlf = 13 ∷ 10 ∷ []

abbrev pub fields_bytes : List Field → List ℕ
fields_bytes fs = join (map field_bytes fs) crlf

-- What the parsers that are registered for the names make of the values, one after the other.
abbrev pub parse_fields : Libc → List Field → Info → Option Info
parse_fields e [] info = some info
parse_fields e (f ∷ fs) info = do
  let rest = 13 ∷ 10 ∷ fields_bytes fs
  info' ←
      called e (find (field_text f.name f.blanks f.value rest) (length f.name) header_calls)
        (f.value ++ rest) (length f.value)
        (longest (length f.name + 1 + length f.blanks + length f.value)
          (record info { tmp_flag = flag_of (field_bytes f) }))
  parse_fields e fs (counted info')

first_colon-name :
    (pos : ℕ) (name rest : List ℕ)
    → lacks b':' name ≡ true
    → first_colon pos (name ++ b':' ∷ rest) ≡ some (pos + length name)
first_colon-name pos [] rest h = ap some (omega arith)
first_colon-name pos (c ∷ name) rest h =
    let other : (c == b':') ≡ false = ground arith in
    let next : suc pos + length name ≡ pos + suc (length name) = omega arith in
    rw other (first_colon-name (suc pos) name rest (ground arith) ∙ ap some next)

bind_ext :
    {A B : Type 0} (o : Option A) (f g : A → Option B)
    → ((a : A) → f a ≡ g a)
    → (o >>= f) ≡ (o >>= g)
bind_ext none f g h = refl
bind_ext (some a) f g h = h a

bind_assoc :
    {A B C : Type 0} (o : Option A) (f : A → Option B) (g : B → Option C)
    → ((o >>= f) >>= g) ≡ (o >>= λ a. f a >>= g)
bind_assoc none f g = refl
bind_assoc (some a) f g = refl

line-field :
    (before : List ℕ) (f : Field) (last : Option ℕ)
    → IsField f
    → ◌≡◌ {A = Line}
        (record {
          begin = some (length before);
          split = or_last (first_colon (length before) (field_bytes f)) last;
          end = length before + length (field_bytes f);
          flag = flag_of (field_bytes f);
        })
        (field_line before f.name f.blanks f.value (flag_of (field_bytes f)))
line-field before f last ok =
    let split = first_colon-name (length before) f.name (f.blanks ++ f.value) ok.no_colon in
    let end : length before + length (field_bytes f)
        ≡ length before + length f.name + 1 + length f.blanks + length f.value =
      omega (
        arith,
        length-append f.name (b':' ∷ (f.blanks ++ f.value)),
        length-append f.blanks f.value,
      ) in
    rw (split, end) refl

parse_lines-fields :
    (e : Libc) (before : List ℕ) (fs : List Field) (num : ℕ) (last : Option ℕ) (info : Info)
    → AreFields fs
    → parse_lines e
        (before ++ fields_bytes fs)
        0
        (suc num)
        (calls last (length before) (map field_bytes fs))
        info
      ≡ parse_fields e fs info
unfolding parse_lines
parse_lines-fields e before [] num last info h = refl
parse_lines-fields e before (f ∷ fs) num last info (ok, h) =
    let rest = 13 ∷ 10 ∷ fields_bytes fs in
    let flag = flag_of (field_bytes f) in
    let bytes = before ++ fields_bytes (f ∷ fs) in
    let text : bytes ≡ before ++ field_text f.name f.blanks f.value rest = simp append_assoc in
    let before' = before ++ (field_bytes f ++ crlf) in
    let split = or_last (first_colon (length before) (field_bytes f)) last in
    let more : bytes ≡ before' ++ fields_bytes fs = simp append_assoc in
    let pos : length before + suc (suc (length (field_bytes f))) ≡ length before' =
      omega
        (arith, length-append before (field_bytes f ++ crlf), length-append (field_bytes f) crlf) in
    let info' = record info { tmp_flag = flag } in
    let this =
      ap (λ l. parse_line e bytes 0 (suc num) l info') (line-field before f last ok)
      ∙ ap (λ t. parse_line e t 0 (suc num) (field_line before f.name f.blanks f.value flag) info')
          text
      ∙ parse_line-field e 0 num before f.name f.blanks f.value rest flag info' ok.long
          ok.name_trimmed ok.blank ok.value_trimmed in
    let others = λ (text : List ℕ) (at : ℕ) (i : Info).
      parse_lines e text 0 (suc (suc num)) (calls split at (map field_bytes fs)) (counted i) in
    ap (λ o. o >>= others bytes (length before + suc (suc (length (field_bytes f))))) this
    ∙ bind_ext _ (others bytes (length before + suc (suc (length (field_bytes f)))))
        (λ i. parse_fields e fs (counted i))
        (λ i.
          ap (λ t. others t (length before + suc (suc (length (field_bytes f)))) i) more
          ∙ ap (λ k. others (before' ++ fields_bytes fs) k i) pos
          ∙ parse_lines-fields e before' fs (suc num) split (counted i) h)

-- The first line of a request.
pub record Request : Type 0 where
  pub method : List ℕ
  pub path : List ℕ
  pub query : Option (List ℕ)
  pub version : List ℕ

abbrev pub url_of : Request → List ℕ
url_of q = url_text q.path q.query

abbrev pub request_bytes : Request → List ℕ
request_bytes q = q.method ++ b' ' ∷ (url_of q ++ b' ' ∷ q.version)

-- A method of at least two characters, a URL with a path and a version of eight characters, with
-- blanks only between them, no question mark but the one before the arguments, and no sign of an
-- encoding.
pub record IsRequest (q : Request) : Type 0 where
  pub long : 2 ≤ length q.method
  pub method_trimmed : IsTrimmed q.method
  pub no_blank : lacks b' ' q.method ≡ true
  pub url_trimmed : IsTrimmed (url_of q)
  pub some_path : 0 < length q.path
  pub path_clean : lacks b'?' q.path ≡ true
  pub eight : length q.version ≡ 8
  pub version_clean : lacks b'?' q.version ≡ true
  pub plain : need_decode (flag_of (request_bytes q)) ≡ false

-- The first line, for what follows it in the head.
abbrev pub parse_request : Libc → Request → List ℕ → Info → Option Info
parse_request e q rest info = with_args e q.query (
    with_urls
      (with_method (record info { tmp_flag = flag_of (request_bytes q) })
        (find (request_text q.method (url_of q) q.version rest) (length q.method) method_calls))
      (url_of q) q.path)

abbrev in_head : Info → Info
in_head info = record info { logic = set_state info.logic 1 }

-- A head of a request line and fields, each with a CR LF behind and neither CR nor LF inside. The
-- request line is a method of at least two characters other than COPY, a URL and a version of eight
-- characters, with a blank between them: the method has no blank inside, method and URL have no
-- blank or colon at their ends, and the path of the URL is not empty; there is no question mark
-- in the path and the version, and nowhere a percent sign, an `&` or a backslash. Each field is a name of
-- at least three characters without a colon, a colon, blanks, and a value; name and value have no
-- blank or colon at their ends. Then `http_parse_head` for the direction 0 parses the request line in
-- the message as `http_init` leaves it, with the length of the head and the direction set and the rest
-- of `logic_t`, `boundary_cnt` and `data_flag` kept: it sets the method, the URL with and without the
-- arguments, and the arguments. Then it calls for each field, in their order, the parser that is
-- registered for its name, with its value without blanks, and at last sets the state of the message
-- to HTTP_STATE_HEAD.
pub parse_head-request :
    (e : Libc) (q : Request) (fs : List Field) (info : Info)
    → IsRequest q
    → AreFields fs
    → AreLines (request_bytes q ∷ map field_bytes fs)
    → matches
        (codes "copy")
        (request_text q.method (url_of q) q.version (13 ∷ 10 ∷ fields_bytes fs))
        (length q.method)
      ≡ false
    → parse_head e (join (request_bytes q ∷ map field_bytes fs) crlf) 0 info ≡ (do
      i ←
          parse_request e q
            (13 ∷ 10 ∷ fields_bytes fs)
            (started (length (join (request_bytes q ∷ map field_bytes fs) crlf)) 0 info)
      j ← parse_fields e fs (counted i)
      some (in_head j))
unfolding parse_head parse_lines
parse_head-request e q fs info ok fields lines other =
    let r = request_bytes q in
    let rest = 13 ∷ 10 ∷ fields_bytes fs in
    let bytes = join (r ∷ map field_bytes fs) crlf in
    let text : bytes ≡ request_text q.method (url_of q) q.version rest = simp append_assoc in
    let more : bytes ≡ (r ++ crlf) ++ fields_bytes fs = simp append_assoc in
    let pos : 0 + suc (suc (length r)) ≡ length (r ++ crlf) = omega (arith, length-append r crlf) in
    let end : length r ≡ 0 + length q.method + length (url_of q) + 10 = omega (
      arith,
      length-append q.method (b' ' ∷ (url_of q ++ b' ' ∷ q.version)),
      length-append (url_of q) (b' ' ∷ q.version),
      ok.eight,
    ) in
    let start = started (length bytes) 0 info in
    let line : Line = record {
      begin = some 0;
      split = or_last (first_colon 0 r) none;
      end = 0 + length r;
      flag = flag_of r;
    } in
    let info' = record start { tmp_flag = flag_of r } in
    let this : parse_line e bytes 0 0 line info' ≡ parse_request e q rest start =
      ap (λ t. parse_line e t 0 0 line info') text
      ∙ parse_line-request e [] q.method q.path q.query q.version rest line info' ok.long
          ok.method_trimmed ok.no_blank ok.url_trimmed ok.some_path ok.path_clean ok.eight
          ok.version_clean ok.plain other refl (omega arith) in
    let split = or_last (first_colon 0 r) none in
    let tail = λ (t : List ℕ) (at : ℕ) (i : Info).
      parse_lines e t 0 1 (calls split at (map field_bytes fs)) (counted i) in
    let run = λ (ls : List Line). (do i ← parse_lines e bytes 0 0 ls start; some (in_head i)) in
    let each =
      bind_ext (parse_request e q rest start) (tail bytes (0 + suc (suc (length r))))
        (λ i. parse_fields e fs (counted i))
        (λ i.
          ap (λ t. tail t (0 + suc (suc (length r))) i) more
          ∙ ap (λ k. tail ((r ++ crlf) ++ fields_bytes fs) k i) pos
          ∙ parse_lines-fields e (r ++ crlf) fs 0 split (counted i) fields) in
    ap run (head_lines-join (r ∷ map field_bytes fs) lines)
    ∙ ap (λ o. (o >>= tail bytes (0 + suc (suc (length r)))) >>= λ i. some (in_head i)) this
    ∙ ap (λ o. o >>= λ i. some (in_head i)) each
    ∙ bind_assoc (parse_request e q rest start) (λ i. parse_fields e fs (counted i))
        (λ i. some (in_head i))
