-- ===== src/Oidc/Service/Flow.antt =====
-- libraries/dbal/production/src/oidc/oidc_service.cpp: a request that was validated, the code that
-- was issued for it, and its exchange.
use dbal.Prelude.{
  ℕ, ◌+◌, ◌<◌, ◌≡◌, refl, sym, ap, ◌∙◌, subst, String, true, false, Option, none, some, List, [],
  str_eq, eq_iff, is_empty, has_value, codes, Bool-cases, inl, inr,
}
use dbal.Result.{Result, ok, err, validation_error, reject_if, find_or}
use dbal.Listing.{filter_list}
use dbal.Oidc.Client.{IsLawful, matches}
use dbal.Oidc.AuthCodes.{AuthorizationCode, RedeemedCode, code_schema, redeem}
use dbal.Oidc.AuthCodes.Single.{redeem-issue_code, granted}
use dbal.Oidc.Clients.{OauthClient, Clients, get_client}
use dbal.Oidc.Scopes.{scope_contains}
use dbal.Oidc.Pkce.{verify_s256, verify_s256-true, is_valid_code_verifier_format}
use dbal.Oidc.Service.{
  Service, State, CallReadings, OidcSession, TokenResponse, AuthorizeRequest, session_schema,
  validate_for, validate_authorize,
}
use dbal.Oidc.Service.Tokens.{
  IdToken, AccessToken, IdTokenClaims, AccessTokenClaims, issue_id_token, issue_access_token,
}
use dbal.Oidc.Service.Sessions.{
  created_session, create_session, session_row, authorization_code_request,
  issue_authorization_code,
}
use dbal.Oidc.Service.Exchange.{
  both_signed, sign_tokens, with_refresh, issue_refresh, offline, in_session, granted_by,
  after_redeem, exchange_code, first_request, code_id_claims, code_access_claims,
}

-- The exchange succeeds, and grants the scope.
abbrev pub Grants : {x : Service} → String → Result TokenResponse × State x → Type 0
Grants scope r = (resp : TokenResponse) × (r.0 ≡ ok resp) × (resp.scope ≡ scope)

-- The library signs every token.
pub record Signs (x : Service) : Type 0 where
  pub id : (t : IdToken) → has_value (x.sign_id t) ≡ true
  pub access : (t : AccessToken) → has_value (x.sign_access t) ≡ true

verifier-is_empty :
    (verifier : String)
    → is_valid_code_verifier_format (codes verifier) ≡ true
    → is_empty verifier ≡ false
unfolding is_valid_code_verifier_format
verifier-is_empty verifier h = elim (Bool-cases (is_empty verifier)) [
  | inr e ↦ e
  | inl e ↦
      let empty : verifier ≡ "" = (eq_iff verifier "").0 e in
      absurd (cc (subst (λ (v : String). is_valid_code_verifier_format (codes v) ≡ true) empty h))
]

both_signed-ok :
    (client : OauthClient) (scope : String) (a b : Option String)
    → has_value a ≡ true
    → has_value b ≡ true
    → (resp : TokenResponse) × (both_signed client scope a b ≡ ok resp) × (resp.scope ≡ scope)
both_signed-ok client scope none b ha hb = absurd (cc ha)
both_signed-ok client scope (some a) none ha hb = absurd (cc hb)
both_signed-ok client scope (some a) (some b) ha hb = (_, refl, refl)

-- A request that is valid is of a client that is registered.
validate_authorize-registered :
    (clients : Clients) (req req' : AuthorizeRequest) (response_type : String)
    → validate_authorize clients req response_type ≡ ok req'
    → (client : OauthClient) × (get_client clients req.client_id ≡ some client)
unfolding validate_authorize
validate_authorize-registered clients req req' response_type h =
    by_client (get_client clients req.client_id) h refl
  where
    by_client :
        (o : Option OauthClient)
        → elim o [
          | none ↦ err (validation_error "invalid_client: unknown client_id")
          | some client ↦ validate_for client req response_type
        ]
          ≡ ok req'
        → get_client clients req.client_id ≡ o
        → (client : OauthClient) × (get_client clients req.client_id ≡ some client)
    by_client none e same = absurd (cc e)
    by_client (some client) e same = (client, same)

module _ (x : Service) (signs : Signs x) (k : CallReadings) where
  sign_tokens-ok :
      (n : ℕ) (client : OauthClient) (scope : String) (id : IdTokenClaims)
      (access : AccessTokenClaims)
      → (resp : TokenResponse) × (sign_tokens x k n client scope id access ≡ ok resp)
        × (resp.scope ≡ scope)
  unfolding sign_tokens issue_id_token issue_access_token
  sign_tokens-ok n client scope id access =
      both_signed-ok client scope _ _ (signs.id _) (signs.access _)

  with_refresh-Grants :
      (resp : TokenResponse) (r : Result String × x.refresh_tokens.State) (s : State x)
      → Grants resp.scope (with_refresh x k resp r s)
  with_refresh-Grants resp (ok raw, ts) s = (record resp { refresh_token = raw }, refl, refl)
  with_refresh-Grants resp (err e, ts) s = (resp, refl, refl)

  offline-Grants :
      (client : OauthClient) (rc : RedeemedCode) (resp : TokenResponse) (s : State x)
      → Grants resp.scope (offline x k client rc (ok resp) s)
  offline-Grants client rc resp s = elim (Bool-cases (scope_contains rc.scope "offline_access")) [
    | inl e ↦ rw e (with_refresh-Grants resp (issue_refresh x k 8 client (first_request rc) s) s)
    | inr e ↦ rw e (resp, refl, refl)
  ]

  in_session-Grants :
      (client : OauthClient) (rc : RedeemedCode) (r : Result String × State x) (sid : String)
      → r.0 ≡ ok sid
      → Grants rc.scope (in_session x k client rc r)
  in_session-Grants client rc (err e, s) sid h = absurd (cc h)
  in_session-Grants client rc (ok other, s) sid h =
      let (resp, signed, scope) =
        sign_tokens-ok 6 client rc.scope (code_id_claims client rc other (k.clock 5))
          (code_access_claims client rc (x.user_role rc.user_id)) in
      let (resp', result, scope') = offline-Grants client rc resp s in
      (
        resp',
        ap (λ (o : Result TokenResponse). (offline x k client rc o s).0) signed ∙ result,
        scope' ∙ scope,
      )

  created_session-ok :
      (r : Result OidcSession × x.sessions.State) (row : OidcSession) (s : State x)
      → r.0 ≡ ok row
      → is_empty row.id ≡ false
      → (created_session x r s).0 ≡ ok row.id
  created_session-ok (err e, ss) row s h some_id = absurd (cc h)
  created_session-ok (ok made, ss) row s h some_id =
      let same : row ≡ made = cc h in
      subst (λ (m : OidcSession). (created_session x (ok m, ss) s).0 ≡ ok row.id) same
        (rw some_id refl)

  after_redeem-granted :
      (client : OauthClient) (redirect verifier : String)
      (r : Result RedeemedCode × x.auth_codes.State) (rc : RedeemedCode) (s : State x)
      → r.0 ≡ ok rc
      → after_redeem x k client redirect verifier r s
        ≡ granted_by x k client redirect verifier rc (record s { auth_codes = r.1 })
  after_redeem-granted client redirect verifier (err e, cs) rc s h = absurd (cc h)
  after_redeem-granted client redirect verifier (ok other, cs) rc s h =
      let same : other ≡ rc = cc h in
      ap
        (λ (g : RedeemedCode).
          granted_by x k client redirect verifier g (record s { auth_codes = cs }))
        same

  module _ (rows : x.sessions.State → List OidcSession)
      (lawful : IsLawful session_schema x.sessions rows) where
    create_session-ok :
        (n : ℕ) (user tenant client : String) (s : State x)
        → (sid : String) × ((create_session x k n user tenant client s).0 ≡ ok sid)
    unfolding create_session
    create_session-ok n user tenant client s =
        let new = session_row user tenant client (k.clock n) (k.clock (n + 1)) (k.clock (n + 2)) in
        let (id, some_id, created, after) = lawful.creates new s.sessions in
        (
          id,
          created_session-ok (x.sessions.create_entity new s.sessions)
              (session_schema.with_id id new) s created some_id,
        )

    granted_by-Grants :
        (client : OauthClient) (redirect verifier : String) (rc : RedeemedCode) (s : State x)
        → rc.redirect_uri ≡ redirect
        → verify_s256 x.derive_challenge (codes verifier) (codes rc.code_challenge) ≡ true
        → Grants rc.scope (granted_by x k client redirect verifier rc s)
    unfolding reject_if
    granted_by-Grants client redirect verifier rc s same verified =
        let well =
          verify_s256-true x.derive_challenge (codes verifier) (codes rc.code_challenge) verified in
        let bound : str_eq rc.redirect_uri redirect ≡ true =
          (eq_iff rc.redirect_uri redirect).1 same in
        let (sid, made) = create_session-ok 2 rc.user_id rc.tenant_id rc.client_id s in
        rw bound (
          rw (verifier-is_empty verifier well.0)
            (rw verified (in_session-Grants client rc _ sid made)))

    -- The code that is issued for a request that was validated is exchanged by its client within 60
    -- seconds, with its redirect URI and a verifier that fits its challenge, for tokens with the scope
    -- of the request, on entity clients that behave as documented, where no code has the hash of the
    -- new one and every token is signed.
    pub exchange_code-issue_authorization_code :
        (code_rows : x.auth_codes.State → List AuthorizationCode)
        (code_lawful : IsLawful code_schema x.auth_codes code_rows) (req : AuthorizeRequest)
        (response_type user tenant verifier : String) (k0 : CallReadings) (s : State x)
        → validate_authorize x.clients req response_type ≡ ok req
        → filter_list
            (matches code_schema "codeHash" (x.sha256 (k0.fresh 0)))
            (code_rows s.auth_codes)
          ≡ []
        → k.clock 0 < k0.clock 0 + 60
        → verify_s256 x.derive_challenge (codes verifier) (codes req.code_challenge) ≡ true
        → Grants req.scope (
            exchange_code x k
              (k0.fresh 0)
              req.redirect_uri
              req.client_id
              verifier
              (issue_authorization_code x k0 req user tenant s).1)
    unfolding exchange_code find_or issue_authorization_code authorization_code_request
    exchange_code-issue_authorization_code code_rows code_lawful req response_type user tenant
          verifier k0 s valid unused early verified =
        let (client, registered) =
          validate_authorize-registered x.clients req req response_type valid in
        let asked = authorization_code_request req user tenant in
        let s1 = (issue_authorization_code x k0 req user tenant s).1 in
        let took =
          redeem x.auth_codes x.sha256 (k0.fresh 0) req.client_id (k.clock 0) (k.clock 1)
            s1.auth_codes in
        let redeems =
          redeem-issue_code x.auth_codes x.sha256 code_rows code_lawful (k0.fresh 0) asked 60
            (k0.clock 0) (k0.clock 1) (k.clock 0) (k.clock 1) s.auth_codes unused early in
        rw registered (
          subst (λ (o : Result TokenResponse × State x). Grants req.scope o)
            (sym (
              after_redeem-granted client req.redirect_uri verifier took (granted asked) s1
                redeems))
            (granted_by-Grants client req.redirect_uri verifier (granted asked)
              (record s1 { auth_codes = took.1 }) refl verified))
