-- ===== src/Oidc/AuthCodes.antt =====
-- libraries/dbal/production/src/oidc/tokens/auth_code_store.cpp, auth_code_store.hpp: authorization
-- codes. `now` and `later` are the two readings of the clock.
pub mod Single
use dbal.Prelude.{
  ℕ, ◌+◌, String, Bool, Option, none, some, List, [], ◌∷◌, leb, not, str_eq, has_value,
  if◌then◌else◌,
}
use dbal.Result.{Result, ok, err, Error, not_found, validation_error}
use dbal.Oidc.Client.{Client, Schema}

pub record AuthorizationCode : Type 0 where
  pub id : String
  pub code_hash : String
  pub client_id : String
  pub user_id : String
  pub tenant_id : String
  pub redirect_uri : String
  pub code_challenge : String
  pub code_challenge_method : String
  pub scope : String
  pub nonce : Option String
  pub expires_at : ℕ
  pub consumed_at : Option ℕ
  pub created_at : ℕ

abbrev pub code_schema : Schema AuthorizationCode
code_schema = record {
  id = λ r. r.id;
  field = λ f r. if str_eq f "codeHash" then r.code_hash else "";
  assign = λ f t r. if str_eq f "consumedAt" then record r { consumed_at = some t } else r;
  with_id = λ id r. record r { id = id };
}

pub record AuthorizationCodeRequest : Type 0 where
  pub client_id : String
  pub user_id : String
  pub tenant_id : String
  pub redirect_uri : String
  pub code_challenge : String
  pub code_challenge_method : String
  pub scope : String
  pub nonce : Option String

pub record RedeemedCode : Type 0 where
  pub client_id : String
  pub user_id : String
  pub tenant_id : String
  pub redirect_uri : String
  pub code_challenge : String
  pub code_challenge_method : String
  pub scope : String
  pub nonce : Option String

abbrev pub is_consumed : AuthorizationCode → Bool
is_consumed r = has_value r.consumed_at

-- The row of a new code; its id is left to the database.
unfoldable pub code_row : String → AuthorizationCodeRequest → ℕ → ℕ → ℕ → AuthorizationCode
code_row hash req ttl now later = record {
  id = "";
  code_hash = hash;
  client_id = req.client_id;
  user_id = req.user_id;
  tenant_id = req.tenant_id;
  redirect_uri = req.redirect_uri;
  code_challenge = req.code_challenge;
  code_challenge_method = req.code_challenge_method;
  scope = req.scope;
  nonce = req.nonce;
  expires_at = now + ttl;
  consumed_at = none;
  created_at = later;
}

unfoldable pub redeemed_of : AuthorizationCode → RedeemedCode
redeemed_of r = record {
  client_id = r.client_id;
  user_id = r.user_id;
  tenant_id = r.tenant_id;
  redirect_uri = r.redirect_uri;
  code_challenge = r.code_challenge;
  code_challenge_method = r.code_challenge_method;
  scope = r.scope;
  nonce = r.nonce;
}

abbrev pub already_used : Error
already_used = validation_error "invalid_grant: authorization code already used"

-- `sha256` is the hash of security/crypto/sha256.hpp.
module _ (c : Client AuthorizationCode) (sha256 : String → String) where
  open c use {State, list_entities, create_entity, update_entity}

  -- What an issue returns for the code that `generate_token` gave.
  abbrev pub issued_code : String → Result AuthorizationCode × State → Result String × State
  issued_code raw (ok row, s) = (ok raw, s)
  issued_code raw (err e, s) = (err e, s)

  unfoldable pub issue_code :
      String → AuthorizationCodeRequest → ℕ → ℕ → ℕ → State → Result String × State
  unfolding code_row
  issue_code raw req ttl now later s =
      issued_code raw (create_entity (code_row (sha256 raw) req ttl now later) s)

  -- What a redemption returns after the update that marks the code as consumed.
  abbrev pub redeemed :
      AuthorizationCode → Result AuthorizationCode × State → Result RedeemedCode × State
  redeemed row (ok x, s) = (ok (redeemed_of row), s)
  redeemed row (err e, s) = (err e, s)

  unfoldable pub redeem_row :
      String → ℕ → ℕ → AuthorizationCode → State → Result RedeemedCode × State
  unfolding redeemed_of
  redeem_row client now later row s =
      if not (str_eq row.client_id client)
      then (err (validation_error "invalid_grant: client_id mismatch"), s)
      else if is_consumed row
      then (err already_used, s)
      else if leb row.expires_at now
      then (err (validation_error "invalid_grant: authorization code expired"), s)
      else redeemed row (update_entity row.id "consumedAt" later s)

  abbrev pub redeem_first :
      String → ℕ → ℕ → List AuthorizationCode → State → Result RedeemedCode × State
  redeem_first client now later [] s =
      (err (not_found "invalid_grant: authorization code not found"), s)
  redeem_first client now later (row ∷ rows) s = redeem_row client now later row s

  unfoldable pub redeem : String → String → ℕ → ℕ → State → Result RedeemedCode × State
  unfolding redeem_row
  redeem raw client now later s = elim (list_entities "codeHash" (sha256 raw) 1 s) [
    | ok rows ↦ redeem_first client now later rows s
    | err e ↦ (err e, s)
  ]
