-- ===== src/Server/Auth.antt =====
-- internal/server/auth.go: who may read and who may change. HMAC in base64, SHA-256, the random text, the URL parser and
-- `strconv` are parameters; the comparisons in constant time are equality.
pub mod Authorized
pub mod Live
pub mod Sessions
use traicr.Prelude.Keys.{lookup}
use traicr.Prelude.{
  ℕ, zero, suc, ◌+◌, ◌-◌, ◌*◌, ◌/◌, ◌%◌, ◌^◌, ◌≤◌, ◌<◌, min, max, ◌≡◌, refl, sym, ap, ◌∙◌, ◌≢◌, ◌↔◌,
  ◌⊎◌, inl, inr, Bool, true, false, not, ◌&&◌, ◌||◌, Option, none, some, List, [], ◌∷◌, ◌++◌, map,
  arith, ltb, leb, ◌==◌, if◌then◌else◌, ltb→lt, leb→le, ==_iff, Bool-cases, Option-cases, length,
  get_elem?, take, drop, slice, length-append, length-take, length-drop, take-append-drop,
  take_whole, length-ne-nil, Member, here, there, Member-append_left, Member-append_right, All,
  All-append, All-members, append_nil, append_assoc, Text, codes, text_eq, text_eq_iff,
  text_eq_refl, text_eq-ne, text_leb, text_leb_refl, text_leb_trans, text_leb_total,
  text_leb_antisym, has_prefix, contains_byte, count_byte, Result, ok, err, ok-injective,
  Result-cases, bind-eq-ok, refuse_if, refuse_if-eq-ok, ◌>>=◌, ◌>>◌,
}
use traicr.Domain.{ℤ, pos, negsuc}

pub record Outside : Type 0 where
  pub hmac : Text → Text → Text
  pub sha256 : Text → Text
  pub parse_int : Text → Option ℤ
  pub format_int : ℕ → Text
  pub query_escape : Text → Text
  pub parse_referrer : Text → Option (Text × Text)

-- The configuration and the clock, in Unix seconds.
pub record Application : Type 0 where
  pub admin_token : Text
  pub secure_cookies : Bool
  pub now : ℕ

-- What the handlers read of a request; `form` is missing when it cannot be parsed or is too large.
pub record Request : Type 0 where
  pub method : Text
  pub uri : Text
  pub host : Text
  pub tls : Bool
  pub authorization : Text
  pub origin : Text
  pub referrer : Text
  pub fetch_site : Text
  pub cookie : Option Text
  pub next : Text
  pub form : Option (List (Text × Text))

-- What a handler does: the next handler runs, a page is shown, or the answer is a redirect or an error; the cookie that it sets, if any.
pub data Response : Type 0 where
  passed shown : Response
  redirect : Text → Response
  refused : ℕ → Text → Response

abbrev pub dot : ℕ
dot = b'.'

-- `strings.Split(value, ".")`
unfoldable pub split_dots : Text → List Text
split_dots [] = [] ∷ []
split_dots (b ∷ value) =
    let rest = split_dots value in
    if b == dot
    then [] ∷ rest
    else elim rest [ [] ↦ (b ∷ []) ∷ [] | part ∷ parts ↦ (b ∷ part) ∷ parts ]

-- `strings.HasPrefix(next, prefix)` and `strings.CutPrefix`.
unfoldable pub cut_prefix : Text → Text → Option Text
cut_prefix value [] = some value
cut_prefix [] (b ∷ prefix) = none
cut_prefix (a ∷ value) (b ∷ prefix) =
    let rest = cut_prefix value prefix in if a == b then rest else none

unfoldable pub is_read : Text → Bool
is_read method = text_eq method (codes "GET") || text_eq method (codes "HEAD")

-- `ParseInt` gives an expiry that is still to come.
unfoldable pub expires_later : ℕ → Option ℤ → Bool
expires_later now none = false
expires_later now (some (negsuc n)) = false
expires_later now (some (pos n)) = ltb now n

-- `strings.ContainsAny(next, "\\\t\r\n")`
unfoldable pub leaves_path : Text → Bool
leaves_path next =
    contains_byte 92 next || contains_byte 9 next || contains_byte 13 next || contains_byte 10 next

-- `afterLogin`
unfoldable pub after_login : Text → Text
after_login next =
    if not (has_prefix next (codes "/"))
      || has_prefix next (codes "//")
      || has_prefix next (codes "/login")
      || leaves_path next
    then codes "/"
    else next

-- `r.PostForm.Get(name)`
unfoldable pub form_value : Text → List (Text × Text) → Text
form_value name form = elim (lookup name form) [ none ↦ [] | some value ↦ value ]

module _ (out : Outside) where
  -- `loginURL`
  unfoldable pub login_url : Request → Text
  login_url r =
      if not (is_read r.method) || text_eq r.uri (codes "/")
      then codes "/login"
      else codes "/login?next=" ++ out.query_escape r.uri

  module _ (app : Application) where
    -- `sign`
    unfoldable pub sign : Text → Text
    sign value = out.hmac app.admin_token value

    -- `validToken`
    unfoldable pub valid_token : Text → Bool
    valid_token token = text_eq (out.sha256 app.admin_token) (out.sha256 token)

    -- The four parts of a cookie, from `parts[0] != purpose` on.
    unfoldable pub accepted_parts : Text → List Text → Bool
    accepted_parts purpose (p ∷ e ∷ n ∷ s ∷ []) =
        text_eq p purpose
        && expires_later app.now (out.parse_int e)
        && text_eq s (sign (p ++ (dot ∷ (e ++ (dot ∷ n)))))
    accepted_parts purpose _ = false

    unfoldable pub session_value : Option Text → Text → Text
    session_value none purpose = []
    session_value (some value) purpose =
        if accepted_parts purpose (split_dots value) then value else []

    -- `session`
    unfoldable pub session : Request → Text → Text
    session r purpose = session_value r.cookie purpose

    -- `setSession`: the value of the cookie, with this random text.
    unfoldable pub set_session : Text → Text → Text
    set_session purpose random =
        let value = purpose ++ (dot ∷ (out.format_int (app.now + 86400) ++ (dot ∷ random))) in
        value ++ (dot ∷ sign value)

    -- `csrf`
    unfoldable pub csrf : Request → Text
    csrf r = elim r.cookie [ none ↦ [] | some value ↦ sign (codes "csrf:" ++ value) ]

    -- The origin that the request names: its header, or that of the page it came from.
    unfoldable pub origin_of : Request → Text
    origin_of r =
        if not (text_eq r.origin []) then r.origin else elim (out.parse_referrer r.referrer) [
          | none ↦ []
          | some (scheme, host) ↦ if text_eq host [] then [] else scheme ++ (codes "://" ++ host)
        ]

    unfoldable pub own_origin : Request → Text
    own_origin r =
        (if app.secure_cookies || r.tls then codes "https" else codes "http")
        ++ (codes "://" ++ r.host)

    -- `validForm`; the answer is the error.
    unfoldable pub valid_form : Request → Option Response
    valid_form r = elim r.form [
      | none ↦ some (refused 400 (codes "invalid_form"))
      | some form ↦
          if not (text_eq (origin_of r) (own_origin r))
            || text_eq r.fetch_site (codes "cross-site")
            || not (text_eq (form_value (codes "csrf") form) (csrf r))
            || text_eq (form_value (codes "csrf") form) []
          then some (refused 403 (codes "csrf"))
          else none
    ]

    unfoldable pub bearer_valid : Request → Bool
    bearer_valid r = elim (cut_prefix r.authorization (codes "Bearer ")) [
      | none ↦ false
      | some token ↦ valid_token token
    ]

    -- `api`
    unfoldable pub api : Request → Response
    api r =
        if bearer_valid r || (is_read r.method && not (text_eq (session r (codes "session")) []))
        then passed
        else refused 401 (codes "unauthorized")

    -- `browser`
    unfoldable pub browser : Request → Response
    browser r =
        if text_eq (session r (codes "session")) []
        then redirect (login_url r)
        else if is_read r.method
        then passed
        else elim (valid_form r) [ none ↦ passed | some refusal ↦ refusal ]

    -- `loginPage`: the answer, and the cookie that is set.
    unfoldable pub login_page : Text → Request → Response × Option Text
    login_page random r =
        if not (text_eq (session r (codes "session")) [])
        then (redirect (after_login r.next), none)
        else if text_eq (session r (codes "login")) []
        then (shown, some (set_session (codes "login") random))
        else (shown, none)

    -- `csrfAPI`: the token, and the cookie that is set.
    unfoldable pub csrf_api : Text → Request → Text × Option Text
    csrf_api random r = elim r.cookie [
      | some value ↦ (csrf r, none)
      | none ↦
          let value = set_session (codes "login") random in
          (csrf (record r { cookie = some value }), some value)
    ]

    unfoldable pub login_form : Text → List (Text × Text) → Response × Option Text
    login_form random form =
        if not (valid_token (form_value (codes "token") form))
        then (refused 401 (codes "unauthorized"), none)
        else (
          redirect (after_login (form_value (codes "next") form)),
          some (set_session (codes "session") random),
        )

    -- `login`
    unfoldable pub login : Text → Request → Response × Option Text
    login random r =
        if text_eq (session r (codes "login")) []
        then (refused 403 (codes "login_expired"), none)
        else elim (valid_form r) [
          | some refusal ↦ (refusal, none)
          | none ↦ elim r.form [
            | none ↦ (refused 400 (codes "invalid_form"), none)
            | some form ↦ login_form random form
          ]
        ]

  -- `logout`: the cookie is emptied.
  abbrev logout : Response × Option Text
  logout = (redirect (codes "/login"), some [])
