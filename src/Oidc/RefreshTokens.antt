-- ===== src/Oidc/RefreshTokens.antt =====
-- libraries/dbal/production/src/oidc/tokens/refresh_token_store.cpp, refresh_token_store.hpp: the
-- rotation of refresh tokens and the detection of reuse. The clock is read twice in some
-- operations: `now` is the first reading and `later` the one behind it.
pub mod Sweep
pub mod Reuse
pub mod Rotation
use dbal.Prelude.{
  ℕ, ◌+◌, String, Bool, true, false, Option, none, some, List, [], ◌∷◌, leb, not, str_eq, is_empty,
  has_value, if◌then◌else◌, ◌||◌,
}
use dbal.Result.{Result, ok, err, Error, not_found, validation_error}
use dbal.Oidc.Client.{Client, Schema}

pub record RefreshToken : Type 0 where
  pub id : String
  pub token_hash : String
  pub family_id : String
  pub client_id : String
  pub user_id : String
  pub tenant_id : String
  pub scope : String
  pub parent_id : Option String
  pub revoked_at : Option ℕ
  pub expires_at : ℕ
  pub created_at : ℕ

abbrev pub token_schema : Schema RefreshToken
token_schema = record {
  id = λ r. r.id;
  field = λ f r.
      if str_eq f "tokenHash"
      then r.token_hash
      else if str_eq f "familyId"
      then r.family_id
      else "";
  assign = λ f t r. if str_eq f "revokedAt" then record r { revoked_at = some t } else r;
  with_id = λ id r. record r { id = id };
}

pub record RefreshTokenRequest : Type 0 where
  pub client_id : String
  pub user_id : String
  pub tenant_id : String
  pub scope : String
  pub family_id : String
  pub parent_id : Option String

pub record RotatedRefreshToken : Type 0 where
  pub token_id : String
  pub client_id : String
  pub user_id : String
  pub tenant_id : String
  pub scope : String
  pub family_id : String

abbrev pub is_revoked : RefreshToken → Bool
is_revoked r = has_value r.revoked_at

-- The row of a new token; its id is left to the database.
unfoldable pub token_row : String → String → RefreshTokenRequest → ℕ → ℕ → ℕ → RefreshToken
token_row hash family req ttl now later = record {
  id = "";
  token_hash = hash;
  family_id = if is_empty req.family_id then family else req.family_id;
  client_id = req.client_id;
  user_id = req.user_id;
  tenant_id = req.tenant_id;
  scope = req.scope;
  parent_id = req.parent_id;
  revoked_at = none;
  expires_at = now + ttl;
  created_at = later;
}

unfoldable pub rotated_of : RefreshToken → RotatedRefreshToken
rotated_of r = record {
  token_id = r.id;
  client_id = r.client_id;
  user_id = r.user_id;
  tenant_id = r.tenant_id;
  scope = r.scope;
  family_id = r.family_id;
}

abbrev pub reuse_detected : Error
reuse_detected =
    validation_error "invalid_grant: refresh token reuse detected — token family revoked"

-- `sha256` is the hash of security/crypto/sha256.hpp.
module _ (c : Client RefreshToken) (sha256 : String → String) where
  open c use {State, list_entities, create_entity, update_entity}

  -- What an issue returns for the token that `generate_token` gave.
  abbrev pub issued_token : String → Result RefreshToken × State → Result String × State
  issued_token raw (ok row, s) = (ok raw, s)
  issued_token raw (err e, s) = (err e, s)

  -- `raw` and `family` are what `generate_token` returns.
  unfoldable pub issue :
      String → String → RefreshTokenRequest → ℕ → ℕ → ℕ → State → Result String × State
  unfolding token_row
  issue raw family req ttl now later s =
      issued_token raw (create_entity (token_row (sha256 raw) family req ttl now later) s)

  -- The loop of `revokeFamily`; the result of an update is only logged.
  unfoldable pub revoke_each : ℕ → List RefreshToken → State → State
  revoke_each now [] s = s
  revoke_each now (row ∷ rows) s =
      revoke_each now rows (
        if is_revoked row || is_empty row.id then s else (update_entity row.id "revokedAt" now s).1)

  unfoldable pub revoke_family : ℕ → String → State → State
  revoke_family now family s = elim (list_entities "familyId" family 1000 s) [
    | ok rows ↦ revoke_each now rows s
    | err e ↦ s
  ]

  -- What a rotation returns after the update that marks the token as consumed.
  abbrev pub consumed :
      RefreshToken → Result RefreshToken × State → Result RotatedRefreshToken × State
  consumed row (ok x, s) = (ok (rotated_of row), s)
  consumed row (err e, s) = (err e, s)

  unfoldable pub rotate_row :
      String → ℕ → ℕ → RefreshToken → State → Result RotatedRefreshToken × State
  unfolding rotated_of revoke_family
  rotate_row client now later row s =
      if not (str_eq row.client_id client)
      then (err (validation_error "invalid_grant: client_id mismatch"), s)
      else if is_revoked row
      then (err reuse_detected, revoke_family now row.family_id s)
      else if leb row.expires_at now
      then (err (validation_error "invalid_grant: refresh token expired"), s)
      else consumed row (update_entity row.id "revokedAt" later s)

  abbrev pub rotate_first :
      String → ℕ → ℕ → List RefreshToken → State → Result RotatedRefreshToken × State
  rotate_first client now later [] s = (err (not_found "invalid_grant: refresh token not found"), s)
  rotate_first client now later (row ∷ rows) s = rotate_row client now later row s

  unfoldable pub rotate : String → String → ℕ → ℕ → State → Result RotatedRefreshToken × State
  unfolding rotate_row
  rotate raw client now later s = elim (list_entities "tokenHash" (sha256 raw) 1 s) [
    | ok rows ↦ rotate_first client now later rows s
    | err e ↦ (err e, s)
  ]

  abbrev pub revoke_first : ℕ → List RefreshToken → State → Result Bool × State
  revoke_first now [] s = (ok true, s)
  revoke_first now (row ∷ rows) s =
      if is_revoked row
      then (ok true, s)
      else let (r, s') = update_entity row.id "revokedAt" now s in
        elim r [ ok x ↦ (ok true, s') | err e ↦ (err e, s') ]

  unfoldable pub revoke : String → ℕ → State → Result Bool × State
  revoke raw now s = elim (list_entities "tokenHash" (sha256 raw) 1 s) [
    | ok rows ↦ revoke_first now rows s
    | err e ↦ (err e, s)
  ]
