-- ===== src/Oidc/Service/Exchange.antt =====
-- libraries/dbal/production/src/oidc/oidc_service.cpp: exchangeCode, exchangeRefreshToken and
-- revokeRefreshToken. The readings of a call are numbered in their order.
use dbal.Prelude.{
  ℕ, suc, String, Bool, Option, none, some, not, str_eq, is_empty, codes, if◌then◌else◌,
}
use dbal.Result.{Result, ok, err, validation_error, reject_if, find_or}
use dbal.Oidc.AuthCodes.{RedeemedCode, redeem}
use dbal.Oidc.RefreshTokens.{RefreshTokenRequest, RotatedRefreshToken, issue, rotate, revoke}
use dbal.Oidc.Clients.{OauthClient, get_client}
use dbal.Oidc.Scopes.{scope_contains}
use dbal.Oidc.Pkce.{verify_s256}
use dbal.Oidc.Service.{Service, State, CallReadings, TokenResponse, internal_fault}
use dbal.Oidc.Service.Tokens.{IdTokenClaims, AccessTokenClaims, issue_id_token, issue_access_token}
use dbal.Oidc.Service.Sessions.{create_session}

abbrev pub role_of : Result String → String
role_of (ok role) = role
role_of (err e) = "user"

-- The response before a refresh token is there.
abbrev pub response : String → String → OauthClient → String → TokenResponse
response id_token access_token client scope = record {
  access_token = access_token;
  id_token = id_token;
  refresh_token = "";
  token_type = "Bearer";
  expires_in = client.access_token_ttl_seconds;
  scope = scope;
}

-- The two signatures; an exception of either ends both.
abbrev pub both_signed : OauthClient → String → Option String → Option String → Result TokenResponse
both_signed client scope (some id) (some access) = ok (response id access client scope)
both_signed client scope _ _ = err (internal_fault "token signing failed")

unfoldable pub code_id_claims : OauthClient → RedeemedCode → String → ℕ → IdTokenClaims
code_id_claims client rc sid auth = record {
  subject = rc.user_id;
  audience = rc.client_id;
  sid = sid;
  tenant_id = rc.tenant_id;
  auth_time = auth;
  nonce = rc.nonce;
  ttl_seconds = client.id_token_ttl_seconds;
}

unfoldable pub code_access_claims : OauthClient → RedeemedCode → Result String → AccessTokenClaims
code_access_claims client rc role = record {
  subject = rc.user_id;
  audience = rc.client_id;
  tenant_id = rc.tenant_id;
  scope = rc.scope;
  role = role_of role;
  ttl_seconds = client.access_token_ttl_seconds;
}

unfoldable pub refresh_id_claims : OauthClient → RotatedRefreshToken → ℕ → IdTokenClaims
refresh_id_claims client rt auth = record {
  subject = rt.user_id;
  audience = rt.client_id;
  sid = "";
  tenant_id = rt.tenant_id;
  auth_time = auth;
  nonce = none;
  ttl_seconds = client.id_token_ttl_seconds;
}

unfoldable pub refresh_access_claims :
    OauthClient → RotatedRefreshToken → Result String → AccessTokenClaims
refresh_access_claims client rt role = record {
  subject = rt.user_id;
  audience = rt.client_id;
  tenant_id = rt.tenant_id;
  scope = rt.scope;
  role = role_of role;
  ttl_seconds = client.access_token_ttl_seconds;
}

-- A code that starts a chain of refresh tokens leaves the family empty.
abbrev pub first_request : RedeemedCode → RefreshTokenRequest
first_request rc = record {
  client_id = rc.client_id;
  user_id = rc.user_id;
  tenant_id = rc.tenant_id;
  scope = rc.scope;
  family_id = "";
  parent_id = none;
}

abbrev pub next_request : RotatedRefreshToken → RefreshTokenRequest
next_request rt = record {
  client_id = rt.client_id;
  user_id = rt.user_id;
  tenant_id = rt.tenant_id;
  scope = rt.scope;
  family_id = rt.family_id;
  parent_id = some rt.token_id;
}

module _ (x : Service) (k : CallReadings) where
  -- The tokens with the claims; `n` and `j` are the readings that were made before.
  unfoldable pub sign_tokens :
      ℕ → OauthClient → String → IdTokenClaims → AccessTokenClaims → Result TokenResponse
  unfolding issue_id_token issue_access_token
  sign_tokens n client scope id access =
      both_signed client scope (issue_id_token x.sign_id x.kid x.issuer (k.clock n) (k.fresh 0) id)
        (issue_access_token x.sign_access x.kid x.issuer (k.clock (suc n)) (k.fresh 1) access)

  -- A refresh token that cannot be issued is only logged.
  abbrev pub with_refresh :
      TokenResponse
      → Result String × x.refresh_tokens.State
      → State x
      → Result TokenResponse × State x
  with_refresh resp (ok raw, ts) s =
      (ok (record resp { refresh_token = raw }), record s { refresh_tokens = ts })
  with_refresh resp (err e, ts) s = (ok resp, record s { refresh_tokens = ts })

  abbrev pub issue_refresh :
      ℕ → OauthClient → RefreshTokenRequest → State x → Result String × x.refresh_tokens.State
  issue_refresh n client req s =
      issue x.refresh_tokens x.sha256 (k.fresh 2) (k.fresh 3) req client.refresh_token_ttl_seconds
        (k.clock n) (k.clock (suc n)) s.refresh_tokens

  abbrev pub offline :
      OauthClient → RedeemedCode → Result TokenResponse → State x → Result TokenResponse × State x
  offline client rc (err e) s = (err e, s)
  offline client rc (ok resp) s =
      if scope_contains rc.scope "offline_access"
      then with_refresh resp (issue_refresh 8 client (first_request rc) s) s
      else (ok resp, s)

  -- What follows the creation of the session.
  abbrev pub in_session :
      OauthClient → RedeemedCode → Result String × State x → Result TokenResponse × State x
  in_session client rc (err e, s) = (err e, s)
  in_session client rc (ok sid, s) =
      offline client rc
        (sign_tokens 6 client rc.scope (code_id_claims client rc sid (k.clock 5))
          (code_access_claims client rc (x.user_role rc.user_id)))
        s

  -- What follows the redemption of the code.
  abbrev pub granted_by :
      OauthClient → String → String → RedeemedCode → State x → Result TokenResponse × State x
  granted_by client redirect verifier rc s =
      reject_if (not (str_eq rc.redirect_uri redirect))
        (validation_error "invalid_grant: redirect_uri mismatch") s
        (reject_if (is_empty verifier) (validation_error "invalid_grant: code_verifier required") s
          (reject_if
            (not (verify_s256 x.derive_challenge (codes verifier) (codes rc.code_challenge)))
            (validation_error "invalid_grant: PKCE verification failed") s
            (in_session client rc (create_session x k 2 rc.user_id rc.tenant_id rc.client_id s))))

  abbrev pub after_redeem :
      OauthClient
      → String
      → String
      → Result RedeemedCode × x.auth_codes.State
      → State x
      → Result TokenResponse × State x
  after_redeem client redirect verifier (err e, cs) s = (err e, record s { auth_codes = cs })
  after_redeem client redirect verifier (ok rc, cs) s =
      granted_by client redirect verifier rc (record s { auth_codes = cs })

  unfoldable pub exchange_code :
      String → String → String → String → State x → Result TokenResponse × State x
  unfolding find_or get_client redeem reject_if verify_s256 create_session code_id_claims
      code_access_claims sign_tokens scope_contains issue
  exchange_code raw redirect client_id verifier s =
      find_or (get_client x.clients client_id)
        (validation_error "invalid_client: unknown client_id") s
        (λ client.
          after_redeem client redirect verifier
            (redeem x.auth_codes x.sha256 raw client_id (k.clock 0) (k.clock 1) s.auth_codes) s)

  abbrev pub next_refresh :
      OauthClient
      → RotatedRefreshToken
      → Result TokenResponse
      → State x
      → Result TokenResponse × State x
  next_refresh client rt (err e) s = (err e, s)
  next_refresh client rt (ok resp) s =
      with_refresh resp (issue_refresh 5 client (next_request rt) s) s

  -- What follows the rotation of the token.
  abbrev pub after_rotate :
      OauthClient
      → Result RotatedRefreshToken × x.refresh_tokens.State
      → State x
      → Result TokenResponse × State x
  after_rotate client (err e, ts) s = (err e, record s { refresh_tokens = ts })
  after_rotate client (ok rt, ts) s =
      next_refresh client rt
        (sign_tokens 3 client rt.scope (refresh_id_claims client rt (k.clock 2))
          (refresh_access_claims client rt (x.user_role rt.user_id)))
        (record s { refresh_tokens = ts })

  unfoldable pub exchange_refresh_token : String → String → State x → Result TokenResponse × State x
  unfolding find_or get_client rotate refresh_id_claims refresh_access_claims sign_tokens issue
  exchange_refresh_token raw client_id s =
      find_or (get_client x.clients client_id)
        (validation_error "invalid_client: unknown client_id") s
        (λ client.
          after_rotate client
            (rotate x.refresh_tokens x.sha256 raw client_id (k.clock 0) (k.clock 1)
              s.refresh_tokens)
            s)

unfoldable pub revoke_refresh_token : (x : Service) → String → ℕ → State x → Result Bool × State x
unfolding revoke
revoke_refresh_token x raw now s =
    let (r, ts) = revoke x.refresh_tokens x.sha256 raw now s.refresh_tokens in
    (r, record s { refresh_tokens = ts })
