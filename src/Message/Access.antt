-- ===== src/Message/Access.antt =====
-- The accessors of a message.
use xxx.Prelude.{ℕ, ◌==◌, ◌≡◌, ◌≢◌, refl, some, length, arith}
use xxx.Message.{
  Str, Strs, StrIndex, str_raw_url, str_url, str_url_and_arg, str_host, str_cookie, str_agent,
  str_auth, str_user, str_passwd, str_refer, str_location, str_content_type, str_retcode, str_other,
  get_str, get_str_len, get_http_str, Logic, LogicIndex, logic_state, logic_method, logic_is_closed,
  logic_content_type, logic_is_chunked, logic_other, get_logic, set_state,
}

-- The length of a string is that of its bytes, and of NULL it is 0.
abbrev pub IsStr : Str → Type 0
IsStr s = length (get_http_str s) ≡ s.len

pub record AreStrs (s : Strs) : Type 0 where
  pub raw_url : IsStr s.raw_url
  pub url : IsStr s.url
  pub url_and_arg : IsStr s.url_and_arg
  pub host : IsStr s.host
  pub agent : IsStr s.agent
  pub auth : IsStr s.auth
  pub auth_user : IsStr s.auth_user
  pub auth_pass : IsStr s.auth_pass
  pub reference : IsStr s.reference
  pub location : IsStr s.location
  pub content_type : IsStr s.content_type
  pub retcode : IsStr s.retcode
  pub cookie : IsStr s.cookie

-- For every index, `http_get_str_len` gives the length of the text that `http_get_str` gives, if the
-- lengths of the strings of the message are right.
pub get_str-get_str_len :
    (s : Strs) (i : StrIndex) → AreStrs s → length (get_str s i) ≡ get_str_len s i
unfolding get_str get_str_len
get_str-get_str_len s str_raw_url h = h.raw_url
get_str-get_str_len s str_url h = h.url
get_str-get_str_len s str_url_and_arg h = h.url_and_arg
get_str-get_str_len s str_host h = h.host
get_str-get_str_len s str_cookie h = h.cookie
get_str-get_str_len s str_agent h = h.agent
get_str-get_str_len s str_auth h = h.auth
get_str-get_str_len s str_user h = h.auth_user
get_str-get_str_len s str_passwd h = h.auth_pass
get_str-get_str_len s str_refer h = h.reference
get_str-get_str_len s str_location h = h.location
get_str-get_str_len s str_content_type h = h.content_type
get_str-get_str_len s str_retcode h = h.retcode
get_str-get_str_len s str_other h = refl

-- What `http_set_state` sets is the state that `http_get_logic` gives; the state of the other
-- direction, and every other value that it gives, stay as they are.
pub get_logic-set_state :
    (l : Logic) (state dir : ℕ) (i : LogicIndex)
    → (get_logic (set_state l state) logic_state ≡ some state)
      × (i ≢ logic_state → get_logic (set_state l state) i ≡ get_logic l i)
      × ((l.dir == 0) ≢ (dir == 0)
          → get_logic (record (set_state l state) { dir = dir }) logic_state
            ≡ get_logic (record l { dir = dir }) logic_state)
unfolding get_logic set_state
get_logic-set_state l state dir i = (ground arith, others i, (λ ne. ground arith))
  where
    others : (i : LogicIndex) → i ≢ logic_state → get_logic (set_state l state) i ≡ get_logic l i
    others logic_state ne = absurd (ne refl)
    others logic_method ne = ground arith
    others logic_is_closed ne = ground arith
    others logic_content_type ne = ground arith
    others logic_is_chunked ne = ground arith
    others logic_other ne = refl
