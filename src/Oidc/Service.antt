-- ===== src/Oidc/Service.antt =====
-- libraries/dbal/production/src/oidc/oidc_service.cpp, oidc_service.hpp: the authorization code
-- flow over the stores of codes, refresh tokens and sessions.
pub mod Tokens
pub mod Sessions
pub mod Exchange
pub mod Single
pub mod Flow
pub mod Refresh
use Prim.Native.Char.{code}
use dbal.Prelude.{
  ℕ, String, ◌<>◌, Bool, false, Option, none, some, not, str_eq, codes, ◌==◌, ◌||◌, if◌then◌else◌,
  List, [], ◌∷◌,
}
use dbal.Result.{Result, ok, err, Error, validation_error, unauthorized_code, internal_error}
use dbal.Bql.Lexer.{Text}
use dbal.Oidc.Client.{Client, Schema}
use dbal.Oidc.AuthCodes.{AuthorizationCode}
use dbal.Oidc.RefreshTokens.{RefreshToken}
use dbal.Oidc.Clients.{OauthClient, Clients, get_client, is_valid_redirect_uri, is_scope_allowed}
use dbal.Oidc.Pkce.{is_valid_code_challenge_format}
use dbal.Oidc.Service.Tokens.{IdToken, AccessToken}

pub record OidcSession : Type 0 where
  pub id : String
  pub user_id : String
  pub tenant_id : String
  pub client_id : String
  pub auth_time : ℕ
  pub revoked_at : Option ℕ
  pub expires_at : ℕ
  pub created_at : ℕ

abbrev pub session_schema : Schema OidcSession
session_schema = record {
  id = λ r. r.id;
  field = λ f r. if str_eq f "clientId" then r.client_id else "";
  assign = λ f t r. if str_eq f "revokedAt" then record r { revoked_at = some t } else r;
  with_id = λ id r. record r { id = id };
}

pub record AuthorizeRequest : Type 0 where
  pub client_id : String
  pub redirect_uri : String
  pub scope : String
  pub state : String
  pub code_challenge : String
  pub code_challenge_method : String
  pub nonce : Option String

pub record BrowserSession : Type 0 where
  pub user_id : String
  pub tenant_id : String

pub record TokenResponse : Type 0 where
  pub access_token : String
  pub id_token : String
  pub refresh_token : String
  pub token_type : String
  pub expires_in : ℕ
  pub scope : String

-- What the service calls: the three kinds of entity, the hash of the stores, the derivation of a
-- PKCE challenge, the role of a user, and the signature of a token, which is `none` where the
-- library throws. The configuration and the key are fields of the service.
pub record Service : Type 1 where
  pub auth_codes : Client AuthorizationCode
  pub refresh_tokens : Client RefreshToken
  pub sessions : Client OidcSession
  pub sha256 : String → String
  pub derive_challenge : Text → Text
  pub user_role : String → Result String
  pub sign_id : IdToken → Option String
  pub sign_access : AccessToken → Option String
  pub clients : Clients
  pub kid : String
  pub issuer : String

-- The rows of the three kinds of entity.
pub record State (x : Service) : Type 0 where
  pub auth_codes : x.auth_codes.State
  pub refresh_tokens : x.refresh_tokens.State
  pub sessions : x.sessions.State

-- The readings of the clock and of `generate_token` in a call, in their order.
pub record CallReadings : Type 0 where
  pub clock : ℕ → ℕ
  pub fresh : ℕ → String

abbrev pub unauthorized : String → Error
unauthorized m = record { code = unauthorized_code; message = m }

abbrev pub internal_fault : String → Error
internal_fault m = record { code = internal_error; message = m }

abbrev pub browser_session_client_id : String
browser_session_client_id = "__browser_session__"

unfoldable pub has_char : ℕ → String → Bool
has_char n String.[] = false
has_char n (String.◌∷◌ c s) = code c == n || has_char n s

pub record DiscoveryDocument : Type 0 where
  pub issuer : String
  pub authorization_endpoint : String
  pub token_endpoint : String
  pub userinfo_endpoint : String
  pub jwks_uri : String
  pub end_session_endpoint : String
  pub response_types_supported : List String
  pub grant_types_supported : List String
  pub subject_types_supported : List String
  pub id_token_signing_alg_values_supported : List String
  pub scopes_supported : List String
  pub token_endpoint_auth_methods_supported : List String
  pub code_challenge_methods_supported : List String

unfoldable pub discovery_document : String → DiscoveryDocument
discovery_document issuer = record {
  issuer = issuer;
  authorization_endpoint = issuer <> "/oidc/authorize";
  token_endpoint = issuer <> "/oidc/token";
  userinfo_endpoint = issuer <> "/oidc/userinfo";
  jwks_uri = issuer <> "/oidc/jwks.json";
  end_session_endpoint = issuer <> "/oidc/logout";
  response_types_supported = "code" ∷ [];
  grant_types_supported = "authorization_code" ∷ "refresh_token" ∷ [];
  subject_types_supported = "public" ∷ [];
  id_token_signing_alg_values_supported = "RS256" ∷ [];
  scopes_supported = "openid" ∷ "profile" ∷ "email" ∷ "offline_access" ∷ [];
  token_endpoint_auth_methods_supported = "none" ∷ [];
  code_challenge_methods_supported = "S256" ∷ [];
}

-- The checks on a request of the client that is registered.
unfoldable pub validate_for : OauthClient → AuthorizeRequest → String → Result AuthorizeRequest
unfolding is_valid_redirect_uri is_valid_code_challenge_format is_scope_allowed
validate_for client req response_type =
    if not (is_valid_redirect_uri client req.redirect_uri)
    then err (validation_error "invalid_request: redirect_uri not registered for this client")
    else if not (str_eq response_type "code")
    then err (validation_error "unsupported_response_type")
    else if not (str_eq req.code_challenge_method "S256")
    then err (validation_error "invalid_request: code_challenge_method must be S256")
    else if not (is_valid_code_challenge_format (codes req.code_challenge))
    then err (validation_error "invalid_request: malformed code_challenge")
    else if not (is_scope_allowed client req.scope)
    then err (validation_error "invalid_scope")
    else ok req

-- The arguments but the response type are those of the request, which is returned as it came.
unfoldable pub validate_authorize : Clients → AuthorizeRequest → String → Result AuthorizeRequest
unfolding get_client validate_for
validate_authorize clients req response_type = elim (get_client clients req.client_id) [
  | none ↦ err (validation_error "invalid_client: unknown client_id")
  | some client ↦ validate_for client req response_type
]
