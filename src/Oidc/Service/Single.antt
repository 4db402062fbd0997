-- ===== src/Oidc/Service/Single.antt =====
-- libraries/dbal/production/src/oidc/oidc_service.cpp: what an exchange that succeeds has checked,
-- and a code that is exchanged again.
use dbal.Prelude.{
  ℕ, ◌≡◌, refl, sym, ap, ◌∙◌, String, Bool, true, false, Option, none, some, List, not, eq_iff,
  codes, Bool-cases, inl, inr,
}
use dbal.Result.{Result, ok, err, reject_if-ok, find_or, find_or-ok}
use dbal.Oidc.Client.{IsLawful}
use dbal.Oidc.AuthCodes.{AuthorizationCode, RedeemedCode, code_schema, redeem, already_used}
use dbal.Oidc.AuthCodes.Single.{redeem-once}
use dbal.Oidc.Clients.{OauthClient, get_client}
use dbal.Oidc.Scopes.{scope_contains}
use dbal.Oidc.Pkce.{verify_s256-true, is_valid_code_verifier_format}
use dbal.Oidc.Service.{Service, State, CallReadings, OidcSession, TokenResponse}
use dbal.Oidc.Service.Tokens.{IdTokenClaims, AccessTokenClaims}
use dbal.Oidc.Service.Sessions.{created_session, create_session}
use dbal.Oidc.Service.Exchange.{
  both_signed, sign_tokens, with_refresh, issue_refresh, offline, in_session, after_redeem,
  exchange_code, first_request, code_id_claims, code_access_claims,
}

pub not-false : (b : Bool) → not b ≡ false → b ≡ true
not-false true h = refl
not-false false h = absurd (cc h)

-- What an exchange that succeeds has established of the code.
pub record IsGranted (x : Service) (k : CallReadings) (raw redirect client_id verifier : String)
    (s : State x) (resp : TokenResponse) (s' : State x) : Type 0 where
  pub grant : RedeemedCode
  pub redeems :
      redeem x.auth_codes x.sha256 raw client_id (k.clock 0) (k.clock 1) s.auth_codes
      ≡ (ok grant, s'.auth_codes)
  pub same_redirect : grant.redirect_uri ≡ redirect
  pub well_formed : is_valid_code_verifier_format (codes verifier) ≡ true
  pub derives : x.derive_challenge (codes verifier) ≡ codes grant.code_challenge
  pub same_scope : resp.scope ≡ grant.scope

module _ (x : Service) (k : CallReadings) where
  with_refresh-codes :
      (resp : TokenResponse) (r : Result String × x.refresh_tokens.State) (s : State x)
      → (with_refresh x k resp r s).1.auth_codes ≡ s.auth_codes
  with_refresh-codes resp (ok raw, ts) s = refl
  with_refresh-codes resp (err e, ts) s = refl

  with_refresh-scope :
      (resp resp' : TokenResponse) (r : Result String × x.refresh_tokens.State) (s s' : State x)
      → with_refresh x k resp r s ≡ (ok resp', s')
      → resp'.scope ≡ resp.scope
  with_refresh-scope resp resp' (ok raw, ts) s s' h = cc h
  with_refresh-scope resp resp' (err e, ts) s s' h = cc h

  granted_state : RedeemedCode → x.auth_codes.State → Result RedeemedCode × x.auth_codes.State
  granted_state rc c = (ok rc, c)

  pub both_signed-scope :
      (client : OauthClient) (scope : String) (a b : Option String) (resp : TokenResponse)
      → both_signed client scope a b ≡ ok resp
      → resp.scope ≡ scope
  both_signed-scope client scope none b resp h = absurd (cc h)
  both_signed-scope client scope (some a) none resp h = absurd (cc h)
  both_signed-scope client scope (some a) (some b) resp h = cc h

  created_session-codes :
      (r : Result OidcSession × x.sessions.State) (s : State x)
      → (created_session x r s).1.auth_codes ≡ s.auth_codes
  created_session-codes (ok row, ss) s = refl
  created_session-codes (err e, ss) s = refl

  pub create_session-codes :
      (n : ℕ) (user tenant client : String) (s : State x)
      → (create_session x k n user tenant client s).1.auth_codes ≡ s.auth_codes
  unfolding create_session
  create_session-codes n user tenant client s = created_session-codes _ s

  offline-codes :
      (client : OauthClient) (rc : RedeemedCode) (r : Result TokenResponse) (s : State x)
      → (offline x k client rc r s).1.auth_codes ≡ s.auth_codes
  offline-codes client rc (err e) s = refl
  offline-codes client rc (ok resp) s =
      elim (Bool-cases (scope_contains rc.scope "offline_access")) [
        | inl e ↦ rw e (with_refresh-codes resp (issue_refresh x k 8 client (first_request rc) s) s)
        | inr e ↦ rw e refl
      ]

  in_session-codes :
      (client : OauthClient) (rc : RedeemedCode) (r : Result String × State x)
      → (in_session x k client rc r).1.auth_codes ≡ r.1.auth_codes
  in_session-codes client rc (err e, s) = refl
  in_session-codes client rc (ok sid, s) = offline-codes client rc _ s

  offline-scope :
      (client : OauthClient) (rc : RedeemedCode) (id : IdTokenClaims) (access : AccessTokenClaims)
      (s s' : State x) (resp : TokenResponse) (r : Result TokenResponse)
      → sign_tokens x k 6 client rc.scope id access ≡ r
      → offline x k client rc r s ≡ (ok resp, s')
      → resp.scope ≡ rc.scope
  unfolding sign_tokens
  offline-scope client rc id access s s' resp (err e) signed h = absurd (cc h)
  offline-scope client rc id access s s' resp (ok first) signed h =
      let scope = both_signed-scope client rc.scope _ _ first signed in
      elim (Bool-cases (scope_contains rc.scope "offline_access")) [
        | inl e ↦
            with_refresh-scope first resp (issue_refresh x k 8 client (first_request rc) s) s s'
              (rw e at h)
            ∙ scope
        | inr e ↦ cc (rw e at h, scope)
      ]

  in_session-scope :
      (client : OauthClient) (rc : RedeemedCode) (r : Result String × State x) (s' : State x)
      (resp : TokenResponse)
      → in_session x k client rc r ≡ (ok resp, s')
      → resp.scope ≡ rc.scope
  in_session-scope client rc (err e, s) s' resp h = absurd (cc h)
  in_session-scope client rc (ok sid, s) s' resp h =
      offline-scope client rc (code_id_claims client rc sid (k.clock 5))
        (code_access_claims client rc (x.user_role rc.user_id)) s s' resp _ refl h

  module _ (raw redirect client_id verifier : String) where
    after_redeem-ok :
        (client : OauthClient) (r : Result RedeemedCode × x.auth_codes.State) (s s' : State x)
        (resp : TokenResponse)
        → redeem x.auth_codes x.sha256 raw client_id (k.clock 0) (k.clock 1) s.auth_codes ≡ r
        → after_redeem x k client redirect verifier r s ≡ (ok resp, s')
        → IsGranted x k raw redirect client_id verifier s resp s'
    unfolding granted_state
    after_redeem-ok client (err e, cs) s s' resp took h = absurd (cc h)
    after_redeem-ok client (ok rc, cs) s s' resp took h =
        let at = record s { auth_codes = cs } in
        let (one, h1) = reject_if-ok _ _ at _ h in
        let (two, h2) = reject_if-ok _ _ at _ h1 in
        let (three, h3) = reject_if-ok _ _ at _ h2 in
        let (well, derives) =
          verify_s256-true x.derive_challenge (codes verifier) (codes rc.code_challenge)
            (not-false _ three) in
        let made = create_session x k 2 rc.user_id rc.tenant_id rc.client_id at in
        let kept : s'.auth_codes ≡ cs =
          sym (ap (λ (o : Result TokenResponse × State x). o.1.auth_codes) h3)
          ∙ in_session-codes client rc made
          ∙ create_session-codes 2 rc.user_id rc.tenant_id rc.client_id at in
        record {
          grant = rc;
          redeems = took ∙ ap (λ (c : x.auth_codes.State). granted_state rc c) (sym kept);
          same_redirect = (eq_iff rc.redirect_uri redirect).0 (not-false _ one);
          well_formed = well;
          derives = derives;
          same_scope = in_session-scope client rc made s' resp h3;
        }

    -- An exchange of a code that succeeds redeemed it, for the redirect URI that was bound to it
    -- and a verifier that derives its challenge, and grants its scope.
    pub exchange_code-IsGranted :
        (s s' : State x) (resp : TokenResponse)
        → exchange_code x k raw redirect client_id verifier s ≡ (ok resp, s')
        → IsGranted x k raw redirect client_id verifier s resp s'
    unfolding exchange_code
    exchange_code-IsGranted s s' resp h =
        let (client, registered, h') = find_or-ok (get_client x.clients client_id) _ s _ h in
        after_redeem-ok client _ s s' resp refl h'

  -- A code that was exchanged is not exchanged again for any redirect URI and verifier: the exchange
  -- fails and changes nothing, on an entity client that behaves as documented.
  pub exchange_code-once :
      (rows : x.auth_codes.State → List AuthorizationCode)
      (lawful : IsLawful code_schema x.auth_codes rows) (raw redirect client_id verifier : String)
      (s s' : State x) (resp : TokenResponse)
      → exchange_code x k raw redirect client_id verifier s ≡ (ok resp, s')
      → (k' : CallReadings) (redirect' verifier' : String)
      → exchange_code x k' raw redirect' client_id verifier' s' ≡ (err already_used, s')
  unfolding exchange_code find_or
  exchange_code-once rows lawful raw redirect client_id verifier s s' resp h k' redirect'
        verifier' =
      let g = exchange_code-IsGranted raw redirect client_id verifier s s' resp h in
      let (client, registered, rest) = find_or-ok (get_client x.clients client_id) _ s _ h in
      let again =
        redeem-once x.auth_codes x.sha256 rows lawful raw client_id (k.clock 0) (k.clock 1)
          (k'.clock 0) (k'.clock 1) s.auth_codes g.redeems in
      rw registered (
        ap
          (λ (r : Result RedeemedCode × x.auth_codes.State).
            after_redeem x k' client redirect' verifier' r s')
          again)
