-- ===== src/Server/Auth/Live.antt =====
-- What the checks of auth.go stand for: a cookie that was signed and has not expired, and a request from this server's own pages.
use traicr.Prelude.{
  Option, ℕ, ◌<◌, ◌≡◌, refl, sym, ap, ◌∙◌, ◌≢◌, ◌⊎◌, inl, inr, true, false, none, some, List, [],
  ◌∷◌, ◌++◌, arith, ltb, ◌==◌, Bool-cases, Option-cases, append_assoc, All, Text, codes, text_eq,
  text_eq_iff, text_eq_refl, text_eq-ne, contains_byte,
}
use mathlib.Core.Path.{subst}
use traicr.Domain.{ℤ, pos, negsuc}
use traicr.Server.Auth.{
  Outside, Application, Request, dot, split_dots, expires_later, sign, accepted_parts, origin_of,
  own_origin,
}
use traicr.Server.Auth.Sessions.{cookie_parts}

abbrev join_dots : List Text → Text
join_dots [] = []
join_dots (p ∷ []) = p
join_dots (p ∷ q ∷ parts) = p ++ (dot ∷ join_dots (q ∷ parts))

abbrev Plain : Text → Type 0
Plain p = contains_byte dot p ≡ false

-- The parts make up the text, and no dot is left in them.
record IsSplit (value : Text) (parts : List Text) : Type 0 where
  whole : value ≡ join_dots parts
  plain : All Plain parts

split_dots-IsSplit :
    (value : Text)
    → (p : Text) × (ps : List Text) × (split_dots value ≡ p ∷ ps) × IsSplit value (p ∷ ps)
unfolding split_dots contains_byte
split_dots-IsSplit [] = ([], [], refl, record { whole = refl; plain = (refl, tt) })
split_dots-IsSplit (b ∷ value) =
    let (p, ps, e, s) = split_dots-IsSplit value in
    elim (Bool-cases (b == dot)) [
      | inl d ↦
          let same : b ≡ dot = ground arith in
          (
            [],
            p ∷ ps,
            rw (d, e) refl,
            record {
              whole = ap (λ x. x ∷ value) same ∙ ap (λ x. dot ∷ x) s.whole;
              plain = (refl, s.plain);
            },
          )
      | inr f ↦ (
        b ∷ p,
        ps,
        rw (f, e) refl,
        record {
          whole = ap (λ x. b ∷ x) s.whole ∙ grown b p ps;
          plain = (rw f s.plain.0, s.plain.1);
        },
      )
    ]
  where
    grown : (b : ℕ) (p : Text) (ps : List Text) → b ∷ join_dots (p ∷ ps) ≡ join_dots ((b ∷ p) ∷ ps)
    grown b p [] = refl
    grown b p (q ∷ ps) = refl

module _ (out : Outside) (app : Application) where
  -- A cookie for a purpose that was signed with the admin token and has not expired.
  pub record IsLive (purpose cookie : Text) : Type 0 where
    pub expiry : Text
    pub nonce : Text
    pub until : ℕ
    pub signed :
        cookie
        ≡ (purpose ++ (dot ∷ (expiry ++ (dot ∷ nonce))))
          ++ (dot ∷ out.hmac app.admin_token (purpose ++ (dot ∷ (expiry ++ (dot ∷ nonce)))))
    pub parsed : out.parse_int expiry ≡ some (pos until)
    pub live : app.now < until
    pub plain :
        Plain purpose
        × Plain expiry
        × Plain nonce
        × Plain (out.hmac app.admin_token (purpose ++ (dot ∷ (expiry ++ (dot ∷ nonce)))))

  accepted_lem :
      (purpose value : Text) (parts : List Text)
      → IsSplit value parts
      → accepted_parts out app purpose parts ≡ true
      → IsLive purpose value
  unfolding accepted_parts sign expires_later
  accepted_lem purpose value [] s h = absurd (ground arith)
  accepted_lem purpose value (p ∷ []) s h = absurd (ground arith)
  accepted_lem purpose value (p ∷ e ∷ []) s h = absurd (ground arith)
  accepted_lem purpose value (p ∷ e ∷ n ∷ []) s h = absurd (ground arith)
  accepted_lem purpose value (p ∷ e ∷ n ∷ m ∷ []) s h =
      let purpose_is : text_eq p purpose ≡ true = ground arith in
      let mac_is : text_eq m (out.hmac app.admin_token (p ++ (dot ∷ (e ++ (dot ∷ n))))) ≡ true =
        ground arith in
      let later : expires_later app.now (out.parse_int e) ≡ true = ground arith in
      let (plain_p, (plain_e, (plain_n, (plain_m, _)))) = s.plain in
      let mac = (text_eq_iff _ _).0 mac_is in
      let (until, parsed, live) = expiry_lem (out.parse_int e) later in
      let result : IsLive p value = record {
        expiry = e;
        nonce = n;
        until = until;
        signed =
            s.whole
            ∙ ap (λ x. p ++ (dot ∷ (e ++ (dot ∷ (n ++ (dot ∷ x)))))) mac
            ∙ sym (
                append_assoc p (dot ∷ (e ++ (dot ∷ n))) _
                ∙ ap (λ x. p ++ (dot ∷ x)) (append_assoc e (dot ∷ n) _));
        parsed = parsed;
        live = live;
        plain = (plain_p, plain_e, plain_n, subst Plain mac plain_m);
      } in
      subst (λ x. IsLive x value) ((text_eq_iff p purpose).0 purpose_is) result
    where
      expiry_lem :
          (z : Option ℤ)
          → expires_later app.now z ≡ true
          → (until : ℕ) × (z ≡ some (pos until)) × (app.now < until)
      expiry_lem none h = absurd (ground arith)
      expiry_lem (some (negsuc n)) h = absurd (ground arith)
      expiry_lem (some (pos n)) h = (n, refl, ground arith)
  accepted_lem purpose value (p ∷ e ∷ n ∷ m ∷ x ∷ parts) s h = absurd (ground arith)

  -- What the check accepts is live, and the other way round.
  pub accepted-IsLive :
      (purpose cookie : Text)
      → accepted_parts out app purpose (split_dots cookie) ≡ true
      → IsLive purpose cookie
  accepted-IsLive purpose cookie h =
      let (p, ps, e, s) = split_dots-IsSplit cookie in
      accepted_lem purpose cookie (p ∷ ps) s (ap (accepted_parts out app purpose) (sym e) ∙ h)

  pub IsLive-accepted :
      (purpose cookie : Text)
      → IsLive purpose cookie
      → accepted_parts out app purpose (split_dots cookie) ≡ true
  unfolding accepted_parts sign expires_later
  IsLive-accepted purpose cookie l =
      let (a, b, c, d) = l.plain in
      let parts = ap split_dots l.signed ∙ cookie_parts purpose l.expiry l.nonce _ a b c d in
      let before : ltb app.now l.until ≡ true = ground (arith, l.live) in
      rw (parts, accepted_parts, l.parsed, expires_later, before, text_eq_refl purpose)
        (text_eq_refl _)

  -- The scheme by which this server is reached: with TLS in front of it or on it, or without.
  abbrev pub Secure : Request → Text → Type 0
  Secure r scheme =
      ((app.secure_cookies ≡ true) × (scheme ≡ codes "https"))
      ⊎ ((r.tls ≡ true) × (scheme ≡ codes "https"))
      ⊎ ((app.secure_cookies ≡ false) × (r.tls ≡ false) × (scheme ≡ codes "http"))

  -- The page that sent the request is of this scheme and of the host that the request names.
  pub record IsSameOrigin (r : Request) : Type 0 where
    pub scheme : Text
    pub secure : Secure r scheme
    pub named :
        ((r.origin ≢ []) × (r.origin ≡ scheme ++ (codes "://" ++ r.host)))
        ⊎ ((r.origin ≡ [])
            × (s : Text) × (host : Text) × (out.parse_referrer r.referrer ≡ some (s, host))
            × (host ≢ [])
            × (s ++ (codes "://" ++ host) ≡ scheme ++ (codes "://" ++ r.host)))

  own_origin_lem :
      (r : Request)
      → (scheme : Text) × (own_origin out app r ≡ scheme ++ (codes "://" ++ r.host))
        × ((b : ℕ) × (rest : Text) × (scheme ≡ b ∷ rest))
        × Secure r scheme
  unfolding own_origin
  own_origin_lem r = elim (Bool-cases app.secure_cookies) [
    | inl s ↦ (codes "https", rw s refl, (_, _, refl), inl (s, refl))
    | inr s ↦ elim (Bool-cases r.tls) [
      | inl t ↦ (codes "https", rw (s, t) refl, (_, _, refl), inr (inl (t, refl)))
      | inr t ↦ (codes "http", rw (s, t) refl, (_, _, refl), inr (inr (s, t, refl)))
    ]
  ]

  origin_lem :
      (r : Request) (scheme : Text)
      → ((b : ℕ) × (rest : Text) × (scheme ≡ b ∷ rest))
      → origin_of out app r ≡ scheme ++ (codes "://" ++ r.host)
      → ((r.origin ≢ []) × (r.origin ≡ scheme ++ (codes "://" ++ r.host)))
        ⊎ ((r.origin ≡ [])
            × (s : Text) × (host : Text) × (out.parse_referrer r.referrer ≡ some (s, host))
            × (host ≢ [])
            × (s ++ (codes "://" ++ host) ≡ scheme ++ (codes "://" ++ r.host)))
  unfolding origin_of
  origin_lem r scheme (b, rest, full) h = elim (Bool-cases (text_eq r.origin [])) [
    | inr given ↦ inl (text_eq-ne _ _ given, sym (rw given refl) ∙ h)
    | inl absent ↦ elim (Option-cases (out.parse_referrer r.referrer)) [
      | inl none_there ↦
          absurd (empty_origin scheme b rest full (sym (rw (absent, none_there) refl) ∙ h))
      | inr ((s, host), referred) ↦ elim (Bool-cases (text_eq host [])) [
        | inl no_host ↦
            absurd (empty_origin scheme b rest full (sym (rw (absent, referred, no_host) refl) ∙ h))
        | inr host_given ↦ inr (
          (text_eq_iff _ _).0 absent,
          s,
          host,
          referred,
          text_eq-ne _ _ host_given,
          sym (rw (absent, referred, host_given) refl) ∙ h,
        )
      ]
    ]
  ]
    where
      empty_origin :
          (scheme : Text) (b : ℕ) (rest : Text)
          → scheme ≡ b ∷ rest
          → [] ≢ scheme ++ (codes "://" ++ r.host)
      empty_origin scheme b rest e h = let bad = h ∙ ap (λ x. x ++ (codes "://" ++ r.host)) e in cc

  pub origin-IsSameOrigin :
      (r : Request) → text_eq (origin_of out app r) (own_origin out app r) ≡ true → IsSameOrigin r
  origin-IsSameOrigin r h =
      let (scheme, own, full, secure) = own_origin_lem r in
      record {
        scheme = scheme;
        secure = secure;
        named = origin_lem r scheme full ((text_eq_iff _ _).0 h ∙ own);
      }

  scheme_unique : (r : Request) (a b : Text) → Secure r a → Secure r b → a ≡ b
  scheme_unique r a b (inl (s, x)) (inl (t, y)) = x ∙ sym y
  scheme_unique r a b (inl (s, x)) (inr (inl (t, y))) = x ∙ sym y
  scheme_unique r a b (inl (s, x)) (inr (inr (t, u, y))) = cc
  scheme_unique r a b (inr (inl (s, x))) (inl (t, y)) = x ∙ sym y
  scheme_unique r a b (inr (inl (s, x))) (inr (inl (t, y))) = x ∙ sym y
  scheme_unique r a b (inr (inl (s, x))) (inr (inr (t, u, y))) = cc
  scheme_unique r a b (inr (inr (s, v, x))) (inl (t, y)) = cc
  scheme_unique r a b (inr (inr (s, v, x))) (inr (inl (t, y))) = cc
  scheme_unique r a b (inr (inr (s, v, x))) (inr (inr (t, u, y))) = x ∙ sym y

  pub IsSameOrigin-origin :
      (r : Request) → IsSameOrigin r → text_eq (origin_of out app r) (own_origin out app r) ≡ true
  unfolding origin_of
  IsSameOrigin-origin r o =
      let (scheme, own, full, secure) = own_origin_lem r in
      let same = scheme_unique r o.scheme scheme o.secure secure in
      let sent : origin_of out app r ≡ o.scheme ++ (codes "://" ++ r.host) = elim o.named [
        | inl (given, named) ↦
            let given_there : text_eq r.origin [] ≡ false =
              ground (arith, (text_eq_iff r.origin []).0, given) in
            rw given_there named
        | inr (absent, s, host, referred, given, named) ↦
            let none_there : text_eq r.origin [] ≡ true = (text_eq_iff r.origin []).1 absent in
            let has_host : text_eq host [] ≡ false =
              ground (arith, (text_eq_iff host []).0, given) in
            rw (none_there, referred, has_host) named
      ] in
      (text_eq_iff _ _).1 (sent ∙ ap (λ x. x ++ (codes "://" ++ r.host)) same ∙ sym own)
