-- ===== src/Tests/Servers.antt =====
-- Requests to the server and records of its log.
use traicr.Prelude.Keys.{lookup}
use traicr.Prelude.{
  ℕ, zero, suc, ◌+◌, ◌≡◌, refl, ap, ◌↔◌, true, false, ◌&&◌, none, some, List, [], ◌∷◌, arith, ltb,
  ◌==◌, if◌then◌else◌, length, Text, codes, text_eq, contains_byte,
}
use traicr.Domain.{pos}
use traicr.Server.Auth.{
  Outside, Application, Request, passed, api, browser, login, login_form, session, session_value,
  set_session, accepted_parts, split_dots, expires_later, sign, valid_form, valid_token, csrf,
  form_value, origin_of, own_origin, is_read, dot,
}
use traicr.Server.Auth.Sessions.{IsPlain, set_session-session}
use traicr.Server.Auth.Authorized.{IsBearer, IsOwnForm, changes-IsAuthorized, login-IsAuthorized}
use traicr.Server.Logs.{LogRecord, newest_first}
use traicr.Server.Logs.Cut.{matching}
use traicr.Server.Logs.Pages.{read_pages}
use traicr.Server.Logs.Newest.{new_buffer, record_all, number, newest, read_pages-newest}

abbrev log_record : ℕ → LogRecord (Unit {0})
log_record at = record {
  seq = 0;
  time = [];
  level_name = codes "info";
  message = codes "m";
  attrs = tt;
  level = pos 0;
  at = at;
}

abbrev log : List (LogRecord (Unit {0}))
log = log_record 5 ∷ log_record 6 ∷ log_record 7 ∷ []

read_pages-newest_example :
    read_pages 1001 (record_all log (new_buffer (codes "i"))) (pos 0) 6 0 1
    ≡ matching (pos 0) 6 0 (newest_first (newest (number 0 log)))
read_pages-newest_example =
    read_pages-newest 1000 (codes "i") log (pos 0) 6 1 (omega arith) (omega arith)

-- Numbers are written in unary, and a MAC is two letters before its text without the dots.
abbrev unary : ℕ → Text
unary zero = []
unary (suc n) = b'1' ∷ unary n

abbrev no_dots : Text → Text
no_dots [] = []
no_dots (b ∷ t) = if b == dot then no_dots t else b ∷ no_dots t

abbrev outside : Outside
outside = record {
  hmac = λ key value. codes "mm";
  sha256 = λ t. t;
  parse_int = λ t. some (pos (length t));
  format_int = unary;
  query_escape = λ t. t;
  parse_referrer = λ t. none;
}

length-unary : (n : ℕ) → length (unary n) ≡ n
length-unary zero = refl
length-unary (suc n) = ap suc (length-unary n)

unary-plain : (n : ℕ) → contains_byte dot (unary n) ≡ false
unfolding contains_byte
unary-plain zero = refl
unary-plain (suc n) = unary-plain n

outside-IsPlain : IsPlain outside
outside-IsPlain = record {
  parse_format = λ n. ap (λ x. some (pos x)) (length-unary n);
  format_plain = unary-plain;
  hmac_plain = λ key value. unfold contains_byte in refl;
}

abbrev app : Application
app = record { admin_token = codes "admin"; secure_cookies = true; now = 10 }

login_plain : contains_byte dot (codes "login") ≡ false
unfolding contains_byte
login_plain = refl

set_session-session_example :
    session_value outside
      (record app { now = 20 })
      (some (set_session outside app (codes "login") (codes "login")))
      (codes "session")
    ≡ (if text_eq (codes "login") (codes "session") && ltb 20 (10 + 86400)
        then set_session outside app (codes "login") (codes "login")
        else [])
set_session-session_example =
    set_session-session outside app (codes "login") (codes "login") 20 (codes "session")
      outside-IsPlain login_plain login_plain

-- A login at second 10, with a cookie that expires at second 11.
abbrev request : Request
request = record {
  method = codes "POST";
  uri = codes "/login";
  host = codes "h";
  tls = false;
  authorization = codes "Bearer admin";
  origin = codes "https://h";
  referrer = [];
  fetch_site = codes "same-origin";
  cookie = some (codes "login.11111111111.r.mm");
  next = [];
  form = some ((codes "csrf", codes "mm") ∷ (codes "token", codes "admin") ∷ []);
}

changes-IsAuthorized_example :
    ((api outside app request ≡ passed) ↔ IsBearer outside app request)
    × ((browser outside app request ≡ passed) ↔ IsOwnForm outside app (codes "session") request)
changes-IsAuthorized_example = changes-IsAuthorized outside app request request_changes
  where
    request_changes : is_read (codes "POST") ≡ false
    request_changes = unfold is_read text_eq in refl

request_signed :
    accepted_parts outside app (codes "login") (split_dots (codes "login.11111111111.r.mm")) ≡ true
unfolding accepted_parts split_dots expires_later sign text_eq
request_signed = refl

login_sets :
    (login outside app (codes "r") request).1
    ≡ some (set_session outside app (codes "session") (codes "r"))
unfolding login login_form valid_token valid_form session session_value csrf form_value origin_of
    own_origin sign accepted_parts split_dots expires_later text_eq lookup
login_sets = refl

login-IsAuthorized_example :
    IsOwnForm outside app (codes "login") request
    × (set_session outside app (codes "session") (codes "r")
        ≡ set_session outside app (codes "session") (codes "r"))
    × (fields : List (Text × Text)) × (request.form ≡ some fields)
    × (codes "admin" ≡ form_value (codes "token") fields)
login-IsAuthorized_example =
    login-IsAuthorized outside app (codes "r") request
      (set_session outside app (codes "session") (codes "r")) login_sets
