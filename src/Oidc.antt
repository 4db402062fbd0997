-- ===== src/Oidc.antt =====
-- libraries/dbal/production/src/oidc/tokens: refresh tokens and authorization codes over the entity
-- client.
pub mod Client
pub mod RefreshTokens
pub mod AuthCodes
pub mod Scopes
pub mod Pkce
pub mod Clients
pub mod Service
