-- ===== src/Parse/Request.antt =====
-- The first line of a request.
use mathlib.Core.List.{append_assoc}
use xxx.Prelude.{
  ℕ, suc, ◌+◌, ◌-◌, ◌≡◌, ◌≤◌, ◌<◌, refl, ◌==◌, Bool, true, false, Option, none, some, List, [], ◌∷◌,
  ◌++◌, ◌>>=◌, length, ltb, drop, arith, ap, ◌∙◌, sym, length-append,
}
use xxx.Head.{no_flag, Line}
use xxx.Text.{strlstr}
use xxx.Text.Find.{lacks, strlstr-hit, strlstr-miss}
use xxx.Text.Strip.{IsTrimmed}
use xxx.Message.{Str, need_decode}
use xxx.Message.Append.{set_str-raw}
use xxx.Message.Decoded.{decode_buf, block_of}
use xxx.Fields.{Method, method_calls, codes}
use xxx.Fields.Search.{find, matches}
use xxx.Fields.Methods.{match_method-find}
use xxx.Args.{parse_args}
use xxx.Parse.{Libc, Info, slice, strip, set_text}
use xxx.Parse.Pointers.{strip-append, drop-append, slice-append, drop-append_both}
use xxx.Parse.Line.{
  method_number, close_args, parse_question, parse_url, parse_method, parse_line, then_url,
}

pub set_text-plain :
    (e : Libc) (info : Info) (str : Str) (w rest : List ℕ)
    → need_decode info.tmp_flag ≡ false
    → 0 < length w
    → set_text e info str (w ++ rest) (length w) ≡ some (block_of w)
unfolding set_text
set_text-plain e info str [] rest n pos = absurd (omega arith)
set_text-plain e info str (b ∷ w) rest n pos =
    rw (slice-append (b ∷ w) rest)
      (set_str-raw (decode_buf e.entity e.stray) info.tmp_flag str b w n)

-- The URL strings of a message.
abbrev pub with_urls : Info → List ℕ → List ℕ → Info
with_urls info url path = record info {
  str = record info.str { raw_url = block_of url; url_and_arg = block_of url; url = block_of path };
}

module _ (e : Libc) (url version rest : List ℕ) (info : Info) (trimmed : IsTrimmed url)
    (pos : 0 < length url) (eight : length version ≡ 8)
    (plain : need_decode info.tmp_flag ≡ false) where
  abbrev after : List ℕ
  after = b' ' ∷ (version ++ rest)

  strip-url : (n : ℕ) → n ≡ length url → strip (url ++ after) n ≡ some (0, url ++ after, length url)
  strip-url n same = strip-append [] url after n refl trimmed (omega (arith, same))

  parse_url-path :
      lacks b'?' (url ++ b' ' ∷ version) ≡ true
      → parse_url e (url ++ after) (length url + 9) info ≡ some (with_urls info url url)
  unfolding parse_url parse_question
  parse_url-path none_left =
      let len : length (url ++ b' ' ∷ version) ≡ length url + 9 =
        omega (arith, length-append url (b' ' ∷ version)) in
      let miss : strlstr (url ++ after) (length url + 9) (b'?' ∷ []) ≡ some none =
        ap (λ t. strlstr t (length url + 9) (b'?' ∷ []))
          (sym (append_assoc url (b' ' ∷ version) rest))
        ∙ strlstr-miss b'?' (url ++ b' ' ∷ version) rest (length url + 9) none_left (omega arith)
            (omega arith) in
      let bytes : length url + 9 - 9 ≡ length url = omega arith in
      rw
        (
          bytes,
          strip-url (length url) refl,
          strip-url (length url) refl,
          miss,
          set_text-plain e (record info { tmp_flag = no_flag }) info.str.raw_url url after refl pos,
          set_text-plain e info info.str.url_and_arg url after plain pos,
          set_text-plain e info info.str.url url after plain pos,
        )
        refl

  parse_url-query :
      (path query : List ℕ)
      → url ≡ path ++ b'?' ∷ query
      → lacks b'?' path ≡ true
      → 0 < length path
      → parse_url e (url ++ after) (length url + 9) info ≡ (do
        (ret, p) ←
            parse_args e.entity e.stray true
              (info.logic.state_0 == 3)
              query
              info.arg
              info.http_int.url_arg_len
              info.http_int.url_arg_cnt
        some (close_args (with_urls info url path) p))
  unfolding parse_url parse_question
  parse_url-query path query same first some_path =
      let text : url ++ after ≡ path ++ b'?' ∷ (query ++ after) =
        ap (λ t. t ++ after) same ∙ append_assoc path (b'?' ∷ query) after in
      let len : length url ≡ length path + suc (length query) =
        ap length same ∙ length-append path (b'?' ∷ query) in
      let hit : strlstr (url ++ after) (length url + 9) (b'?' ∷ []) ≡ some (some (length path)) =
        ap (λ t. strlstr t (length url + 9) (b'?' ∷ [])) text
        ∙ strlstr-hit b'?' path (query ++ after) (length url + 9) first (omega arith) in
      let offset : length path - (0 + 0) ≡ length path = omega arith in
      let set_path : set_text e info info.str.url (url ++ after) (length path - (0 + 0))
          ≡ some (block_of path) =
        ap (λ k. set_text e info info.str.url (url ++ after) k) offset
        ∙ ap (λ t. set_text e info info.str.url t (length path)) text
        ∙ set_text-plain e info info.str.url path (b'?' ∷ (query ++ after)) plain some_path in
      let next : suc (length path) ≡ length path + 1 = omega arith in
      let left : 0 + 0 + length url - suc (length path) ≡ length query = omega arith in
      let args : slice (drop (suc (length path)) (url ++ after))
            (0 + 0 + length url - suc (length path))
          ≡ some query =
        ap (λ k. slice (drop (suc (length path)) (url ++ after)) k) left
        ∙ ap (λ k. slice (drop k (url ++ after)) (length query)) next
        ∙ ap (λ t. slice (drop (length path + 1) t) (length query)) text
        ∙ ap (λ t. slice t (length query)) (drop-append_both path (b'?' ∷ []) (query ++ after))
        ∙ slice-append query after in
      let bytes : length url + 9 - 9 ≡ length url = omega arith in
      rw
        (
          bytes,
          strip-url (length url) refl,
          strip-url (length url) refl,
          hit,
          set_text-plain e (record info { tmp_flag = no_flag }) info.str.raw_url url after refl pos,
          set_text-plain e info info.str.url_and_arg url after plain pos,
          set_path,
          args,
        )
        refl

pub lacks-append :
    (c : ℕ) (xs ys : List ℕ) → lacks c xs ≡ true → lacks c ys ≡ true → lacks c (xs ++ ys) ≡ true
lacks-append c [] ys h k = k
lacks-append c (x ∷ xs) ys h k = ground (arith, lacks-append c xs ys)

-- A URL: a path, with a question mark and arguments behind it or without.
abbrev pub url_text : List ℕ → Option (List ℕ) → List ℕ
url_text path none = path
url_text path (some query) = path ++ b'?' ∷ query

-- What `_http_parse_args` makes of the arguments.
abbrev pub with_args : Libc → Option (List ℕ) → Info → Option Info
with_args e none info = some info
with_args e (some query) info = do
  (ret, p) ←
      parse_args e.entity e.stray true (info.logic.state_0 == 3) query info.arg
        info.http_int.url_arg_len info.http_int.url_arg_cnt
  some (close_args info p)

parse_url-url_text :
    (e : Libc) (path : List ℕ) (query : Option (List ℕ)) (version rest : List ℕ) (info : Info)
    → IsTrimmed (url_text path query)
    → 0 < length path
    → lacks b'?' path ≡ true
    → length version ≡ 8
    → lacks b'?' version ≡ true
    → need_decode info.tmp_flag ≡ false
    → parse_url e
        (url_text path query ++ b' ' ∷ (version ++ rest))
        (length (url_text path query) + 9)
        info
      ≡ with_args e query (with_urls info (url_text path query) path)
parse_url-url_text e path none version rest info trimmed pos first eight clean plain =
    parse_url-path e path version rest info trimmed pos eight plain
      (lacks-append b'?' path (b' ' ∷ version) first clean)
parse_url-url_text e path (some query) version rest info trimmed pos first eight clean plain =
    parse_url-query e (path ++ b'?' ∷ query) version rest info trimmed
      (omega (arith, length-append path (b'?' ∷ query))) eight plain path query refl first pos

abbrev pub with_method : Info → Option Method → Info
with_method info method = record info {
  logic = record info.logic { method = method_number method };
}

-- The text of a request line, from the method on.
abbrev pub request_text : List ℕ → List ℕ → List ℕ → List ℕ → List ℕ
request_text method url version rest = method ++ b' ' ∷ (url ++ b' ' ∷ (version ++ rest))

then_url-long :
    (o : Option Method) (long : Bool) (url info : Option Info)
    → long ≡ true
    → then_url o long url info ≡ url
then_url-long none long url info h = refl
then_url-long (some m) long url info h = rw h refl

parse_method-url :
    (e : Libc) (method url version rest : List ℕ) (n : ℕ) (info : Info)
    → 2 ≤ length method
    → IsTrimmed method
    → lacks b' ' method ≡ true
    → length version ≡ 8
    → matches (codes "copy") (request_text method url version rest) (length method) ≡ false
    → n ≡ length method + length url + 10
    → parse_method e (request_text method url version rest) n info
      ≡ parse_url e (url ++ b' ' ∷ (version ++ rest)) (length url + 9) (
          with_method info
            (find (request_text method url version rest) (length method) method_calls))
unfolding parse_method
parse_method-url e method url version rest n info two trimmed one eight other len =
    let text = request_text method url version rest in
    let after = url ++ b' ' ∷ (version ++ rest) in
    let k = length method in
    let long : k < length text = omega (arith, length-append method (b' ' ∷ after)) in
    let hit : strlstr text n (b' ' ∷ []) ≡ some (some k) =
      strlstr-hit b' ' method after n one (omega arith) in
    let name = strip-append [] method (b' ' ∷ after) k refl trimmed (omega arith) in
    let found = (match_method-find text k two long).0 other in
    let next : suc k ≡ k + 1 = omega arith in
    let behind : drop (suc k) text ≡ after =
      ap (λ j. drop j text) next ∙ drop-append_both method (b' ' ∷ []) after in
    let left : n - 0 - k - 1 ≡ length url + 9 = omega arith in
    let more : ltb (suc k) (n - 0) ≡ true = ground arith in
    let found_method = find text k method_calls in
    let url = parse_url e after (length url + 9) (with_method info found_method) in
    rw (hit, name, found, behind, left)
      (then_url-long found_method (ltb (suc k) (n - 0)) url (some (with_method info found_method))
        more)

-- The first line of a request, at an offset: a method of at least two characters but COPY, a URL
-- without blanks at its ends and a version of eight characters, without signs of an encoding and with
-- no question mark before the arguments. `http_parse_line` sets the method that a search through all
-- registered names finds, the URL with its arguments, twice, and the path, and hands the arguments to
-- `_http_parse_args`, if there are any.
pub parse_line-request :
    (e : Libc) (before method path : List ℕ) (query : Option (List ℕ)) (version rest : List ℕ)
    (line : Line) (info : Info)
    → 2 ≤ length method
    → IsTrimmed method
    → lacks b' ' method ≡ true
    → IsTrimmed (url_text path query)
    → 0 < length path
    → lacks b'?' path ≡ true
    → length version ≡ 8
    → lacks b'?' version ≡ true
    → need_decode info.tmp_flag ≡ false
    → matches
        (codes "copy")
        (request_text method (url_text path query) version rest)
        (length method)
      ≡ false
    → line.begin ≡ some (length before)
    → line.end ≡ length before + length method + length (url_text path query) + 10
    → parse_line e (before ++ request_text method (url_text path query) version rest) 0 0 line info
      ≡ with_args e query (
          with_urls
            (with_method info (
              find
                (request_text method (url_text path query) version rest)
                (length method)
                method_calls))
            (url_text path query)
            path)
unfolding parse_line
parse_line-request e before method path query version rest line info two trimmed one trimmed' pos
      first eight clean plain other at end =
    let text = request_text method (url_text path query) version rest in
    let found = find text (length method) method_calls in
    let from : drop (length before) (before ++ text) ≡ text = drop-append before text in
    let len : line.end - length before ≡ length method + length (url_text path query) + 10 =
      omega arith in
    rw (at, from)
      (parse_method-url e method (url_text path query) version rest (line.end - length before) info
          two trimmed one eight other len
        ∙ parse_url-url_text e path query version rest (with_method info found) trimmed' pos first
            eight clean plain)
