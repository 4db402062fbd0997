-- ===== src/Tests/Oidc.antt =====
-- libraries/dbal/production/src/oidc/tokens: the theorems on a client that holds its rows in a list.
use dbal.Prelude.{◌≡◌, refl, ap, String, true, none, some, [], ◌∷◌, is_empty, arith, inl, inr}
use dbal.Result.{ok, err}
use dbal.Listing.{filter_list}
use dbal.Oidc.Client.Memory.{memory, memory-IsLawful}
use dbal.Oidc.RefreshTokens.{
  RefreshToken, token_schema, is_revoked, revoke_each, rotate, rotated_of, reuse_detected,
}
use dbal.Oidc.RefreshTokens.Reuse.{rotate-reuse}
use dbal.Oidc.AuthCodes.{
  AuthorizationCode, AuthorizationCodeRequest, code_schema, redeem, redeemed_of, code_row,
}

abbrev token : RefreshToken
token = record {
  id = "row_1";
  token_hash = "raw";
  family_id = "family";
  client_id = "app";
  user_id = "user";
  tenant_id = "tenant";
  scope = "openid";
  parent_id = none;
  revoked_at = none;
  expires_at = 100;
  created_at = 0;
}

abbrev spent : RefreshToken
spent = record token { revoked_at = some 11 }

abbrev child : RefreshToken
child = record token { id = "row_2"; token_hash = "next"; parent_id = some "row_1" }

abbrev swept : RefreshToken
swept = record child { revoked_at = some 20 }

abbrev identity : String → String
identity s = s

token_rotates :
    rotate (memory token_schema) identity "raw" "app" 10 11 (token ∷ child ∷ [])
    ≡ (ok (rotated_of token), spent ∷ child ∷ [])
unfolding rotate rotated_of filter_list
token_rotates = refl

rotate-reuse_example :
    ((rotate (memory token_schema) identity "raw" "app" 20 21 (spent ∷ child ∷ [])).0
      ≡ err reuse_detected)
    × (is_revoked swept ≡ true)
unfolding rotate rotated_of filter_list revoke_each
rotate-reuse_example =
    rotate-reuse (memory token_schema) identity (λ rows. rows) (memory-IsLawful token_schema) "raw"
      "app" 10 11 20 21 (token ∷ child ∷ []) {t = rotated_of token} {s' = spent ∷ child ∷ []}
      token_rotates (omega arith)
      (λ r m. elim m [
        | inl e ↦ ap (λ (k : RefreshToken). is_empty k.id) e
        | inr (inl e) ↦ ap (λ (k : RefreshToken). is_empty k.id) e
        | inr (inr n) ↦ absurd n
      ])
      swept (inr (inl refl)) refl

abbrev request : AuthorizationCodeRequest
request = record {
  client_id = "app";
  user_id = "user";
  tenant_id = "tenant";
  redirect_uri = "https://app/cb";
  code_challenge = "challenge";
  code_challenge_method = "S256";
  scope = "openid";
  nonce = some "n";
}

abbrev code : AuthorizationCode
code = record (code_row "raw" request 60 0 1) { id = "row_0" }

abbrev used : AuthorizationCode
used = record code { consumed_at = some 51 }

code_redeems :
    redeem (memory code_schema) identity "raw" "app" 50 51 (code ∷ [])
    ≡ (ok (redeemed_of code), used ∷ [])
unfolding redeem redeemed_of filter_list code_row
code_redeems = refl
