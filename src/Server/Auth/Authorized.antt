-- ===== src/Server/Auth/Authorized.antt =====
-- Who may change something.
use traicr.Prelude.{
  ◌≡◌, refl, ap, ◌∙◌, ◌≢◌, ◌↔◌, inl, inr, true, false, none, some, List, [], ◌∷◌, ◌++◌, arith,
  Bool-cases, Option-cases, Text, codes, text_eq, text_eq_iff, text_eq-ne,
}
use traicr.Server.Auth.{
  Outside, Application, Request, Response, passed, cut_prefix, is_read, sign, valid_token,
  accepted_parts, split_dots, session_value, session, set_session, csrf, form_value, origin_of,
  own_origin, valid_form, bearer_valid, api, browser, login_form, login,
}
use traicr.Server.Auth.Live.{
  IsLive, accepted-IsLive, IsLive-accepted, IsSameOrigin, origin-IsSameOrigin, IsSameOrigin-origin,
}

module _ (out : Outside) (app : Application) where
  -- The request carries a cookie for the purpose, and a form of this server that holds the token that belongs to that cookie.
  pub record IsOwnForm (purpose : Text) (r : Request) : Type 0 where
    pub cookie : Text
    pub carried : r.cookie ≡ some cookie
    pub signed : IsLive out app purpose cookie
    pub fields : List (Text × Text)
    pub parsed : r.form ≡ some fields
    pub token :
        form_value (codes "csrf") fields ≡ out.hmac app.admin_token (codes "csrf:" ++ cookie)
    pub present : form_value (codes "csrf") fields ≢ []
    pub same_origin : IsSameOrigin out app r
    pub not_cross : r.fetch_site ≢ codes "cross-site"

  session_lem :
      (r : Request) (purpose : Text)
      → text_eq (session out app r purpose) [] ≡ false
      → (cookie : Text) × (r.cookie ≡ some cookie)
        × (accepted_parts out app purpose (split_dots cookie) ≡ true)
  unfolding session session_value
  session_lem r purpose h = elim (Option-cases r.cookie) [
    | inl missing ↦ absurd (unfold text_eq in (ground arith))
    | inr (cookie, carried) ↦
        elim (Bool-cases (accepted_parts out app purpose (split_dots cookie))) [
          | inl good ↦ (cookie, carried, good)
          | inr bad ↦ absurd (unfold text_eq in (ground arith))
        ]
  ]

  own_form_lem :
      (r : Request) (purpose : Text)
      → text_eq (session out app r purpose) [] ≡ false
      → valid_form out app r ≡ none
      → IsOwnForm purpose r
  unfolding valid_form csrf sign
  own_form_lem r purpose s h =
      let (cookie, carried, signed) = session_lem r purpose s in
      elim (Option-cases r.form) [
        | inl missing ↦ absurd (ground arith)
        | inr (fields, parsed) ↦
            let origin : text_eq (origin_of out app r) (own_origin out app r) ≡ true =
              ground arith in
            let site : text_eq r.fetch_site (codes "cross-site") ≡ false = ground arith in
            let token : text_eq (form_value (codes "csrf") fields) (csrf out app r) ≡ true =
              ground arith in
            let present : text_eq (form_value (codes "csrf") fields) [] ≡ false = ground arith in
            let value : csrf out app r ≡ out.hmac app.admin_token (codes "csrf:" ++ cookie) =
              rw (csrf, carried, sign) refl in
            record {
              cookie = cookie;
              carried = carried;
              signed = accepted-IsLive out app purpose cookie signed;
              fields = fields;
              parsed = parsed;
              token = (text_eq_iff _ _).0 token ∙ value;
              present = text_eq-ne _ _ present;
              same_origin = origin-IsSameOrigin out app r origin;
              not_cross = text_eq-ne _ _ site;
            }
      ]

  cut_prefix_lem :
      (value prefix rest : Text) → cut_prefix value prefix ≡ some rest → value ≡ prefix ++ rest
  unfolding cut_prefix
  cut_prefix_lem value [] rest h = cc
  cut_prefix_lem [] (b ∷ prefix) rest h = cc
  cut_prefix_lem (a ∷ value) (b ∷ prefix) rest h = ground (arith, cut_prefix_lem value prefix rest)

  -- The request names the admin token as its bearer token, up to SHA-256.
  pub record IsBearer (r : Request) : Type 0 where
    pub token : Text
    pub named : r.authorization ≡ codes "Bearer " ++ token
    pub known : out.sha256 app.admin_token ≡ out.sha256 token

  bearer_lem : (r : Request) → bearer_valid out app r ≡ true → IsBearer r
  unfolding bearer_valid valid_token
  bearer_lem r h = elim (Option-cases (cut_prefix r.authorization (codes "Bearer "))) [
    | inl missing ↦ absurd (ground arith)
    | inr (token, cut) ↦
        let known : text_eq (out.sha256 app.admin_token) (out.sha256 token) ≡ true = ground arith in
        record {
          token = token;
          named = cut_prefix_lem r.authorization (codes "Bearer ") token cut;
          known = (text_eq_iff _ _).0 known;
        }
  ]

  cut_prefix_append : (prefix rest : Text) → cut_prefix (prefix ++ rest) prefix ≡ some rest
  unfolding cut_prefix
  cut_prefix_append [] rest = refl
  cut_prefix_append (b ∷ prefix) rest = ground (arith, cut_prefix_append prefix rest)

  IsBearer-api : (r : Request) → IsBearer r → api out app r ≡ passed
  unfolding api bearer_valid valid_token
  IsBearer-api r b =
      let cut : cut_prefix r.authorization (codes "Bearer ") ≡ some b.token =
        ap (λ x. cut_prefix x (codes "Bearer ")) b.named
        ∙ cut_prefix_append (codes "Bearer ") b.token in
      let known : text_eq (out.sha256 app.admin_token) (out.sha256 b.token) ≡ true =
        (text_eq_iff _ _).1 b.known in
      rw (api, bearer_valid, cut, valid_token, known) refl

  IsOwnForm-browser : (r : Request) → IsOwnForm (codes "session") r → browser out app r ≡ passed
  unfolding browser valid_form session session_value csrf sign
  IsOwnForm-browser r f =
      let signed = IsLive-accepted out app (codes "session") f.cookie f.signed in
      let some_cookie : text_eq f.cookie [] ≡ false =
        cookie_full (codes "session") f.cookie signed in
      let origin : text_eq (origin_of out app r) (own_origin out app r) ≡ true =
        IsSameOrigin-origin out app r f.same_origin in
      let site : text_eq r.fetch_site (codes "cross-site") ≡ false =
        ne-text_eq r.fetch_site (codes "cross-site") f.not_cross in
      let token : text_eq (form_value (codes "csrf") f.fields)
            (out.hmac app.admin_token (codes "csrf:" ++ f.cookie))
          ≡ true =
        (text_eq_iff _ _).1 f.token in
      let present : text_eq (form_value (codes "csrf") f.fields) [] ≡ false =
        ne-text_eq _ _ f.present in
      let has_session : session out app r (codes "session") ≡ f.cookie =
        rw (session, f.carried, session_value, signed) refl in
      let token' : text_eq (form_value (codes "csrf") f.fields) (csrf out app r) ≡ true =
        rw (csrf, f.carried, sign) token in
      let fine : valid_form out app r ≡ none =
        rw (valid_form, f.parsed, origin, site, token', present) refl in
      let in_session : text_eq (session out app r (codes "session")) [] ≡ false =
        ap (λ x. text_eq x []) has_session ∙ some_cookie in
      ground (arith, fine, in_session)
    where
      ne-text_eq : (a b : Text) → a ≢ b → text_eq a b ≡ false
      ne-text_eq a b h = ground (arith, (text_eq_iff a b).0)

      cookie_full :
          (purpose cookie : Text)
          → accepted_parts out app purpose (split_dots cookie) ≡ true
          → text_eq cookie [] ≡ false
      cookie_full purpose [] h = absurd (unfold split_dots accepted_parts in (ground arith))
      cookie_full purpose (b ∷ cookie) h = unfold text_eq in refl

  api_lem : (r : Request) → is_read r.method ≡ false → api out app r ≡ passed → IsBearer r
  unfolding api
  api_lem r write h = bearer_lem r (ground arith)

  valid_form_lem :
      (r : Request) (refusal : Response) → valid_form out app r ≡ some refusal → refusal ≢ passed
  unfolding valid_form
  valid_form_lem r refusal h e = elim (Option-cases r.form) [
    | inl missing ↦ ground arith
    | inr (fields, parsed) ↦ ground arith
  ]

  browser_lem :
      (r : Request)
      → is_read r.method ≡ false
      → browser out app r ≡ passed
      → IsOwnForm (codes "session") r
  unfolding browser
  browser_lem r write h = elim (Bool-cases (text_eq (session out app r (codes "session")) [])) [
    | inl missing ↦ absurd (ground arith)
    | inr good ↦ elim (Option-cases (valid_form out app r)) [
      | inl fine ↦ own_form_lem r (codes "session") good fine
      | inr (refusal, bad) ↦ absurd (valid_form_lem r refusal bad (ground arith))
    ]
  ]

  login_lem :
      (random : Text) (r : Request) (value : Text)
      → (login out app random r).1 ≡ some value
      → IsOwnForm (codes "login") r
        × (value ≡ set_session out app (codes "session") random)
        × (fields : List (Text × Text)) × (r.form ≡ some fields)
        × (out.sha256 app.admin_token ≡ out.sha256 (form_value (codes "token") fields))
  unfolding login login_form valid_token
  login_lem random r value h = elim (Bool-cases (text_eq (session out app r (codes "login")) [])) [
    | inl missing ↦ absurd (ground arith)
    | inr good ↦ elim (Option-cases (valid_form out app r)) [
      | inr (refusal, bad) ↦ absurd (ground arith)
      | inl fine ↦ elim (Option-cases r.form) [
        | inl missing ↦ absurd (ground arith)
        | inr (fields, parsed) ↦
            let known : text_eq (out.sha256 app.admin_token)
                  (out.sha256 (form_value (codes "token") fields))
                ≡ true =
              ground arith in
            (
              own_form_lem r (codes "login") good fine,
              ground arith,
              fields,
              parsed,
              (text_eq_iff _ _).0 known,
            )
      ]
    ]
  ]

-- A request that is not GET or HEAD gets to an API handler exactly when it names the admin token as its bearer token, up to SHA-256, and to a
-- page handler exactly when it carries a session cookie that was signed and has not expired and a form with the token that belongs to this cookie, sent from
-- this server's own origin and not across sites.
pub changes-IsAuthorized :
    (out : Outside) (app : Application) (r : Request)
    → is_read r.method ≡ false
    → ((api out app r ≡ passed) ↔ IsBearer out app r)
      × ((browser out app r ≡ passed) ↔ IsOwnForm out app (codes "session") r)
changes-IsAuthorized out app r write = (
  (api_lem out app r write, IsBearer-api out app r),
  (browser_lem out app r write, IsOwnForm-browser out app r),
)

-- A login that sets a cookie sets a session cookie, and it does so only for a form of this server with the token that belongs to a login cookie that
-- was signed and has not expired, in which the admin token stands, up to SHA-256.
pub login-IsAuthorized :
    (out : Outside) (app : Application) (random : Text) (r : Request) (value : Text)
    → (login out app random r).1 ≡ some value
    → IsOwnForm out app (codes "login") r
      × (value ≡ set_session out app (codes "session") random)
      × (fields : List (Text × Text)) × (r.form ≡ some fields)
      × (out.sha256 app.admin_token ≡ out.sha256 (form_value (codes "token") fields))
login-IsAuthorized = login_lem
