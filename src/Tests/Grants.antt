-- ===== src/Tests/Grants.antt =====
-- libraries/dbal/production/src/oidc/oidc_service.cpp, clients/oauth_client_config.cpp: the theorems
-- on a service whose clients hold their rows in lists.
use dbal.Prelude.{
  ◌≡◌, refl, ap, String, true, false, none, some, [], ◌∷◌, is_empty, ◌==◌, if◌then◌else◌, arith,
  inl, inr,
}
use dbal.Prelude.Texts.{holds}
use dbal.Result.{ok, err, is_ok, find_or, reject_if}
use dbal.Listing.{filter_list}
use dbal.Oidc.Client.Memory.{memory, memory-IsLawful}
use dbal.Oidc.AuthCodes.{code_schema, already_used, code_row, redeem, redeem_row, redeemed_of}
use dbal.Oidc.RefreshTokens.{
  RefreshToken, token_schema, token_row, rotate, rotate_row, rotated_of, issue,
}
use dbal.Oidc.Scopes.{segments, scope_tokens, all_held, scope_contains}
use dbal.Oidc.Pkce.{
  all_bytes, is_valid_code_verifier_format, is_valid_code_challenge_format, differences,
  timing_safe_equal, verify_s256,
}
use dbal.Oidc.Clients.{
  OauthClient, ClientNode, Clients, load, load_clients, load_node, checked_client, client_of,
  any_not_s256, get_client, is_valid_redirect_uri, is_scope_allowed,
}
use dbal.Oidc.Clients.Loaded.{load-IsAccepted, IsAccepted}
use dbal.Oidc.Service.{
  Service, State, CallReadings, OidcSession, TokenResponse, AuthorizeRequest, session_schema,
  validate_for, validate_authorize,
}
use dbal.Oidc.Service.Tokens.{issue_id_token, issue_access_token}
use dbal.Oidc.Service.Sessions.{
  session_row, create_session, lookup_browser_session, revoke_browser_session,
  lookup-revoke_browser_session, issue_authorization_code, authorization_code_request,
}
use dbal.Oidc.Service.Exchange.{
  sign_tokens, exchange_code, exchange_refresh_token, code_id_claims, code_access_claims,
  refresh_id_claims, refresh_access_claims,
}
use dbal.Oidc.Service.Single.{IsGranted, exchange_code-IsGranted, exchange_code-once}
use dbal.Oidc.Service.Flow.{Grants, exchange_code-issue_authorization_code}
use dbal.Oidc.Service.Refresh.{IsCarried, exchange_refresh_token-IsCarried}
use dbal.Store.Ids.{generate_id}
use dbal.Map.{insert, lookup}

abbrev node : ClientNode
node = record {
  client_id = some "app";
  client_name = none;
  token_endpoint_auth_method = none;
  grant_types = none;
  response_types = none;
  redirect_uris = some ("https://app/cb" ∷ []);
  post_logout_redirect_uris = none;
  require_pkce = none;
  pkce_methods = some ("S256" ∷ []);
  scope = some "openid offline_access";
  access_token_ttl_seconds = none;
  refresh_token_ttl_seconds = some 100;
  id_token_ttl_seconds = none;
}

abbrev client : OauthClient
client = record {
  client_id = "app";
  client_name = "app";
  token_endpoint_auth_method = "none";
  grant_types = [];
  response_types = [];
  redirect_uris = "https://app/cb" ∷ [];
  post_logout_redirect_uris = [];
  require_pkce = true;
  pkce_methods = "S256" ∷ [];
  scope = "openid offline_access";
  access_token_ttl_seconds = 900;
  refresh_token_ttl_seconds = 100;
  id_token_ttl_seconds = 900;
}

abbrev clients : Clients
clients = ("app", client) ∷ []

load-IsAccepted_example : (client.client_id ≡ "app") × IsAccepted client
unfolding load load_clients load_node checked_client client_of any_not_s256 insert get_client lookup
load-IsAccepted_example =
    load-IsAccepted "clients.json" (some (node ∷ [])) clients refl "app" client refl

abbrev identity : String → String
identity s = s

-- A service whose hashes and signatures are the texts themselves.
abbrev service : Service
service = record {
  auth_codes = memory code_schema;
  refresh_tokens = memory token_schema;
  sessions = memory session_schema;
  sha256 = identity;
  derive_challenge = λ t. t;
  user_role = λ user. ok "admin";
  sign_id = λ t. some t.subject;
  sign_access = λ t. some t.role;
  clients = clients;
  kid = "kid";
  issuer = "https://issuer";
}

abbrev nothing : State service
nothing = record { auth_codes = []; refresh_tokens = []; sessions = [] }

abbrev first : CallReadings
first = record { clock = λ n. n; fresh = λ n. "code" }

abbrev second : CallReadings
second = record { clock = λ n. 30; fresh = λ n. if n == 2 then "token" else "family" }

abbrev challenge : String
challenge = "abcdefghijklmnopqrstuvwxyz0123456789-_ABCDE"

abbrev request : AuthorizeRequest
request = record {
  client_id = "app";
  redirect_uri = "https://app/cb";
  scope = "openid offline_access";
  state = "";
  code_challenge = challenge;
  code_challenge_method = "S256";
  nonce = none;
}

abbrev issued : State service
issued = record nothing {
  auth_codes =
      record (code_row "code" (authorization_code_request request "user" "tenant") 60 0 1) {
        id = "row_0";
      }
      ∷ [];
}

exchange_code-issue_authorization_code_example : Grants "openid offline_access" (
    exchange_code service second "code" "https://app/cb" "app" challenge
      (issue_authorization_code service first request "user" "tenant" nothing).1)
unfolding validate_authorize validate_for get_client lookup is_valid_redirect_uri holds
    is_valid_code_challenge_format all_bytes is_scope_allowed scope_tokens segments all_held
    filter_list verify_s256 is_valid_code_verifier_format timing_safe_equal differences
exchange_code-issue_authorization_code_example =
    exchange_code-issue_authorization_code service (record { id = λ t. refl; access = λ t. refl })
      second (λ rows. rows) (memory-IsLawful session_schema) (λ rows. rows)
      (memory-IsLawful code_schema) request "code" "user" "tenant" challenge first nothing refl refl
      (omega arith) refl

abbrev granted_response : TokenResponse
granted_response = record {
  access_token = "admin";
  id_token = "user";
  refresh_token = "token";
  token_type = "Bearer";
  expires_in = 900;
  scope = "openid offline_access";
}

abbrev exchanged : State service
exchanged = (exchange_code service second "code" "https://app/cb" "app" challenge issued).1

code_exchanges :
    exchange_code service second "code" "https://app/cb" "app" challenge issued
    ≡ (ok granted_response, exchanged)
unfolding exchange_code find_or reject_if get_client lookup redeem redeem_row redeemed_of
    filter_list code_row verify_s256 is_valid_code_verifier_format all_bytes timing_safe_equal
    differences create_session session_row generate_id sign_tokens issue_id_token issue_access_token
    code_id_claims code_access_claims scope_contains segments holds issue token_row
    authorization_code_request
code_exchanges = refl

exchange_code-IsGranted_example :
    IsGranted service second "code" "https://app/cb" "app" challenge issued granted_response
      exchanged
exchange_code-IsGranted_example =
    exchange_code-IsGranted service second "code" "https://app/cb" "app" challenge issued exchanged
      granted_response code_exchanges

exchange_code-once_example :
    exchange_code service first "code" "https://other" "app" "" exchanged
    ≡ (err already_used, exchanged)
exchange_code-once_example =
    exchange_code-once service second (λ rows. rows) (memory-IsLawful code_schema) "code"
      "https://app/cb" "app" challenge issued exchanged granted_response code_exchanges first
      "https://other" ""

abbrev refresh_token : RefreshToken
refresh_token = record {
  id = "row_0";
  token_hash = "old";
  family_id = "family";
  client_id = "app";
  user_id = "user";
  tenant_id = "tenant";
  scope = "openid offline_access";
  parent_id = none;
  revoked_at = none;
  expires_at = 100;
  created_at = 0;
}

abbrev refreshable : State service
refreshable = record nothing { refresh_tokens = refresh_token ∷ [] }

abbrev refreshed : State service
refreshed = (exchange_refresh_token service second "old" "app" refreshable).1

token_refreshes :
    exchange_refresh_token service second "old" "app" refreshable ≡ (ok granted_response, refreshed)
unfolding exchange_refresh_token find_or get_client lookup rotate rotate_row rotated_of filter_list
    sign_tokens issue_id_token issue_access_token refresh_id_claims refresh_access_claims issue
    token_row
token_refreshes = refl

exchange_refresh_token-IsCarried_example :
    IsCarried service second "old" "app" 120 121 refreshable granted_response refreshed
unfolding get_client lookup filter_list
exchange_refresh_token-IsCarried_example =
    exchange_refresh_token-IsCarried service second (λ rows. rows) (memory-IsLawful token_schema)
      "old" "app" client 120 121 refreshable refreshed granted_response refl refl
      (λ t m. elim m [
        | inl e ↦ ap (λ (k : RefreshToken). is_empty k.family_id) e
        | inr n ↦ absurd n
      ])
      (omega arith) token_refreshes

abbrev browser_session : OidcSession
browser_session = record (session_row "user" "tenant" "__browser_session__" 0 0 0) { id = "row_0" }

lookup-revoke_browser_session_example :
    is_ok (
      lookup_browser_session service 6 "row_0"
        (revoke_browser_session service 5 "row_0"
          (record nothing { sessions = browser_session ∷ [] })).1)
    ≡ false
lookup-revoke_browser_session_example =
    lookup-revoke_browser_session service (λ rows. rows) (memory-IsLawful session_schema) 5 6
      "row_0" (record nothing { sessions = browser_session ∷ [] })

scope_tokens_spaces : scope_tokens " openid  email" ≡ "openid" ∷ "email" ∷ []
unfolding scope_tokens segments
scope_tokens_spaces = refl
