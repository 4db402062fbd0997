-- ===== src/Oidc/Service/Tokens.antt =====
-- libraries/dbal/production/src/oidc/tokens/token_issuer.cpp, token_issuer.hpp: the tokens that are
-- signed. The signature is jwt-cpp's: an argument, `none` where it throws.
use dbal.Prelude.{ℕ, ◌+◌, String, Option}

pub record IdTokenClaims : Type 0 where
  pub subject : String
  pub audience : String
  pub sid : String
  pub tenant_id : String
  pub auth_time : ℕ
  pub nonce : Option String
  pub ttl_seconds : ℕ

pub record AccessTokenClaims : Type 0 where
  pub subject : String
  pub audience : String
  pub tenant_id : String
  pub scope : String
  pub role : String
  pub ttl_seconds : ℕ

-- What the builder holds when it signs.
pub record IdToken : Type 0 where
  pub type : String
  pub key_id : String
  pub issuer : String
  pub subject : String
  pub audience : String
  pub issued_at : ℕ
  pub expires_at : ℕ
  pub id : String
  pub sid : String
  pub tenant_id : String
  pub auth_time : ℕ
  pub nonce : Option String

pub record AccessToken : Type 0 where
  pub type : String
  pub key_id : String
  pub issuer : String
  pub subject : String
  pub audience : String
  pub issued_at : ℕ
  pub expires_at : ℕ
  pub id : String
  pub tenant_id : String
  pub scope : String
  pub role : String

-- `jti` is what `generate_token` returns.
unfoldable pub issue_id_token :
    (IdToken → Option String) → String → String → ℕ → String → IdTokenClaims → Option String
issue_id_token sign kid issuer now jti claims = sign (record {
  type = "JWT";
  key_id = kid;
  issuer = issuer;
  subject = claims.subject;
  audience = claims.audience;
  issued_at = now;
  expires_at = now + claims.ttl_seconds;
  id = jti;
  sid = claims.sid;
  tenant_id = claims.tenant_id;
  auth_time = claims.auth_time;
  nonce = claims.nonce;
})

unfoldable pub issue_access_token :
    (AccessToken → Option String) → String → String → ℕ → String → AccessTokenClaims → Option String
issue_access_token sign kid issuer now jti claims = sign (record {
  type = "JWT";
  key_id = kid;
  issuer = issuer;
  subject = claims.subject;
  audience = claims.audience;
  issued_at = now;
  expires_at = now + claims.ttl_seconds;
  id = jti;
  tenant_id = claims.tenant_id;
  scope = claims.scope;
  role = claims.role;
})
