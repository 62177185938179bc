-- ===== src/Server/Auth/Sessions.antt =====
-- The cookies that `setSession` gives and `session` accepts.
use traicr.Prelude.{
  ℕ, ◌+◌, ◌≡◌, refl, ap, ◌∙◌, false, ◌&&◌, some, [], ◌∷◌, ◌++◌, arith, ltb, ◌==◌, if◌then◌else◌,
  append_assoc, Text, text_eq, text_eq_refl, contains_byte,
}
use traicr.Domain.{pos}
use traicr.Server.Auth.{
  Outside, Application, dot, split_dots, expires_later, sign, accepted_parts, session_value,
  set_session,
}

split_append :
    (a rest : Text)
    → contains_byte dot a ≡ false
    → split_dots (a ++ (dot ∷ rest)) ≡ a ∷ split_dots rest
unfolding split_dots contains_byte
split_append [] rest h = refl
split_append (b ∷ a) rest h =
    let other : (b == dot) ≡ false = ground arith in
    let later : contains_byte dot a ≡ false = ground arith in
    rw (split_dots, other, split_append a rest later) refl

split_last : (a : Text) → contains_byte dot a ≡ false → split_dots a ≡ a ∷ []
unfolding split_dots contains_byte
split_last [] h = refl
split_last (b ∷ a) h =
    let other : (b == dot) ≡ false = ground arith in
    let later : contains_byte dot a ≡ false = ground arith in
    rw (split_dots, other, split_last a later) refl

pub cookie_parts :
    (p e n s : Text)
    → contains_byte dot p ≡ false
    → contains_byte dot e ≡ false
    → contains_byte dot n ≡ false
    → contains_byte dot s ≡ false
    → split_dots ((p ++ (dot ∷ (e ++ (dot ∷ n)))) ++ (dot ∷ s)) ≡ p ∷ e ∷ n ∷ s ∷ []
cookie_parts p e n s hp he hn hs =
    ap split_dots (
      append_assoc p (dot ∷ (e ++ (dot ∷ n))) (dot ∷ s)
      ∙ ap (λ x. p ++ (dot ∷ x)) (append_assoc e (dot ∷ n) (dot ∷ s)))
    ∙ split_append p (e ++ (dot ∷ (n ++ (dot ∷ s)))) hp
    ∙ ap (λ x. p ∷ x) (split_append e (n ++ (dot ∷ s)) he)
    ∙ ap (λ x. p ∷ e ∷ x) (split_append n s hn)
    ∙ ap (λ x. p ∷ e ∷ n ∷ x) (split_last s hs)

-- What `strconv`, base64 and `rand.Text` promise.
pub record IsPlain (out : Outside) : Type 0 where
  pub parse_format : (n : ℕ) → out.parse_int (out.format_int n) ≡ some (pos n)
  pub format_plain : (n : ℕ) → contains_byte dot (out.format_int n) ≡ false
  pub hmac_plain : (key value : Text) → contains_byte dot (out.hmac key value) ≡ false

-- A cookie that was set for a purpose is accepted under the same admin token for that purpose and no other, at every
-- time before a day has passed and at none after it; then the session is the cookie's value, and otherwise there is none.
pub set_session-session :
    (out : Outside) (app : Application) (purpose random : Text) (later : ℕ) (other : Text)
    → IsPlain out
    → contains_byte dot purpose ≡ false
    → contains_byte dot random ≡ false
    → session_value out
        (record app { now = later })
        (some (set_session out app purpose random))
        other
      ≡ (if text_eq purpose other && ltb later (app.now + 86400)
          then set_session out app purpose random
          else [])
unfolding session_value set_session accepted_parts expires_later sign
set_session-session out app purpose random later other plain hp hn =
    let e = out.format_int (app.now + 86400) in
    let value = purpose ++ (dot ∷ (e ++ (dot ∷ random))) in
    let parts =
      cookie_parts purpose e random (out.hmac app.admin_token value) hp
        (plain.format_plain (app.now + 86400)) hn (plain.hmac_plain app.admin_token value) in
    let parsed = plain.parse_format (app.now + 86400) in
    let same = text_eq_refl (out.hmac app.admin_token value) in
    rw (session_value, set_session, sign, parts, accepted_parts, parsed, expires_later, same)
      (ground arith)
