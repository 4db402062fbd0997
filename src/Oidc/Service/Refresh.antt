-- ===== src/Oidc/Service/Refresh.antt =====
-- libraries/dbal/production/src/oidc/oidc_service.cpp: the refresh token that an exchange returns.
use dbal.Prelude.{
  ℕ, ◌+◌, ◌<◌, ◌≡◌, refl, sym, ap, ◌∙◌, subst, String, false, some, List, [], eq_iff, is_empty,
  Member,
}
use dbal.Result.{Result, ok, err, find_or}
use dbal.Listing.{filter_list}
use dbal.Oidc.Client.{IsLawful, matches}
use dbal.Oidc.RefreshTokens.{RefreshToken, RotatedRefreshToken, token_schema, rotate, rotated_of}
use dbal.Oidc.RefreshTokens.Rotation.{
  rotate-took, unused-marked, issue-adds, rotate-appended, carried,
}
use dbal.Oidc.Clients.{OauthClient, get_client}
use dbal.Oidc.Service.{Service, State, CallReadings, TokenResponse}
use dbal.Oidc.Service.Exchange.{
  sign_tokens, with_refresh, issue_refresh, next_refresh, next_request, after_rotate,
  exchange_refresh_token, refresh_id_claims, refresh_access_claims,
}
use dbal.Oidc.Service.Single.{both_signed-scope}

-- The exchange rotated a token, and the token that it returns rotates to the same grant.
pub record IsCarried (x : Service) (k : CallReadings) (raw client_id : String) (now later : ℕ)
    (s : State x) (resp : TokenResponse) (s' : State x) : Type 0 where
  pub taken : RotatedRefreshToken
  pub rotates :
      (rotate x.refresh_tokens x.sha256 raw client_id (k.clock 0) (k.clock 1) s.refresh_tokens).0
      ≡ ok taken
  pub same_scope : resp.scope ≡ taken.scope
  pub next_id : String
  pub next_rotates :
      (rotate x.refresh_tokens x.sha256 resp.refresh_token client_id now later s'.refresh_tokens).0
      ≡ ok (record taken { token_id = next_id })

carried-same :
    (id family client_id : String) (rt : RotatedRefreshToken)
    → is_empty rt.family_id ≡ false
    → carried id family (next_request rt) ≡ record rt { token_id = id }
carried-same id family client_id rt h = rw h refl

module _ (x : Service) (k : CallReadings) where
  sign_tokens-scope :
      (client : OauthClient) (rt : RotatedRefreshToken) (resp : TokenResponse)
      → sign_tokens x k 3 client rt.scope
          (refresh_id_claims client rt (k.clock 2))
          (refresh_access_claims client rt (x.user_role rt.user_id))
        ≡ ok resp
      → resp.scope ≡ rt.scope
  unfolding sign_tokens
  sign_tokens-scope client rt resp h = both_signed-scope x k client rt.scope _ _ resp h

  -- A refresh token that is issued is in the response.
  next_refresh-ok :
      (client : OauthClient) (rt : RotatedRefreshToken) (o : Result TokenResponse) (s s' : State x)
      (resp : TokenResponse) (ts : x.refresh_tokens.State)
      → issue_refresh x k 5 client (next_request rt) s ≡ (ok (k.fresh 2), ts)
      → next_refresh x k client rt o s ≡ (ok resp, s')
      → (first : TokenResponse) × (o ≡ ok first)
        × (resp.scope ≡ first.scope)
        × (resp.refresh_token ≡ k.fresh 2)
        × (s'.refresh_tokens ≡ ts)
  next_refresh-ok client rt (err e) s s' resp ts made h = absurd (cc h)
  next_refresh-ok client rt (ok first) s s' resp ts made h =
      let e =
        sym (ap (λ (i : Result String × x.refresh_tokens.State). with_refresh x k first i s) made)
        ∙ h in
      let same : record first { refresh_token = k.fresh 2 } ≡ resp = cc e in
      (
        first,
        refl,
        sym (ap (λ (r : TokenResponse). r.scope) same),
        sym (ap (λ (r : TokenResponse). r.refresh_token) same),
        sym (ap (λ (r : Result TokenResponse × State x). r.1.refresh_tokens) e),
      )

  module _ (rows : x.refresh_tokens.State → List RefreshToken)
      (lawful : IsLawful token_schema x.refresh_tokens rows) where
    after_rotate-IsCarried :
        (raw client_id : String) (client : OauthClient) (now later : ℕ) (s s' : State x)
        (resp : TokenResponse) (r : Result RotatedRefreshToken × x.refresh_tokens.State)
        → filter_list
            (matches token_schema "tokenHash" (x.sha256 (k.fresh 2)))
            (rows s.refresh_tokens)
          ≡ []
        → ((t : RefreshToken) → Member t (rows s.refresh_tokens) → is_empty t.family_id ≡ false)
        → now < k.clock 5 + client.refresh_token_ttl_seconds
        → rotate x.refresh_tokens x.sha256 raw client_id (k.clock 0) (k.clock 1) s.refresh_tokens
          ≡ r
        → after_rotate x k client r s ≡ (ok resp, s')
        → IsCarried x k raw client_id now later s resp s'
    unfolding rotated_of
    after_rotate-IsCarried raw client_id client now later s s' resp (err e, ts) unused families
          early rotated h =
        absurd (cc h)
    after_rotate-IsCarried raw client_id client now later s s' resp (ok rt, ts) unused families
          early rotated h =
        let (row, m, is_client, is_row, marked_rows) =
          rotate-took x.refresh_tokens x.sha256 rows lawful raw client_id (k.clock 0) (k.clock 1)
            s.refresh_tokens rotated in
        let s1 = record s { refresh_tokens = ts } in
        let (id, ts', made, there) =
          issue-adds x.refresh_tokens x.sha256 rows lawful (k.fresh 2) (k.fresh 3) (next_request rt)
            client.refresh_token_ttl_seconds (k.clock 5) (k.clock 6) ts in
        let (first, signed, scope, raw', after) =
          next_refresh-ok client rt _ s1 s' resp ts' made h in
        let unused' =
          ap
            (λ (l : List RefreshToken).
              filter_list (matches token_schema "tokenHash" (x.sha256 (k.fresh 2))) l)
            marked_rows
          ∙ unused-marked x.refresh_tokens x.sha256 rows lawful (k.fresh 2) row.id (k.clock 1)
              (rows s.refresh_tokens) unused in
        let next =
          rotate-appended x.refresh_tokens x.sha256 rows lawful (k.fresh 2) (k.fresh 3) id
            (next_request rt) client.refresh_token_ttl_seconds (k.clock 5) (k.clock 6) now later
            (rows ts) ts' unused' there early in
        let same_client : rt.client_id ≡ client_id =
          ap (λ (t : RotatedRefreshToken). t.client_id) is_row
          ∙ (eq_iff row.client_id client_id).0 is_client in
        let family : is_empty rt.family_id ≡ false =
          ap (λ (t : RotatedRefreshToken). is_empty t.family_id) is_row ∙ families row m in
        record {
          taken = rt;
          rotates = ap (λ (o : Result RotatedRefreshToken × x.refresh_tokens.State). o.0) rotated;
          same_scope = scope ∙ sign_tokens-scope client rt first signed;
          next_id = id;
          next_rotates =
              rw (raw', after)
                (subst
                  (λ (c : String).
                    (rotate x.refresh_tokens x.sha256 (k.fresh 2) c now later ts').0
                    ≡ ok (record rt { token_id = id }))
                  same_client
                  (next
                    ∙ ap (λ (t : RotatedRefreshToken). ok t)
                        (carried-same id (k.fresh 3) client_id rt family)));
        }

    -- A refresh token that was exchanged was rotated, the response has the scope of its grant, and the
    -- refresh token in it is rotated by the same client, before it expires, to the same client, user,
    -- tenant, scope and family, on an entity client that behaves as documented, where no token has the
    -- hash of the new one and all tokens have a family.
    pub exchange_refresh_token-IsCarried :
        (raw client_id : String) (client : OauthClient) (now later : ℕ) (s s' : State x)
        (resp : TokenResponse)
        → get_client x.clients client_id ≡ some client
        → filter_list
            (matches token_schema "tokenHash" (x.sha256 (k.fresh 2)))
            (rows s.refresh_tokens)
          ≡ []
        → ((t : RefreshToken) → Member t (rows s.refresh_tokens) → is_empty t.family_id ≡ false)
        → now < k.clock 5 + client.refresh_token_ttl_seconds
        → exchange_refresh_token x k raw client_id s ≡ (ok resp, s')
        → IsCarried x k raw client_id now later s resp s'
    unfolding exchange_refresh_token find_or
    exchange_refresh_token-IsCarried raw client_id client now later s s' resp registered unused
          families early h =
        after_rotate-IsCarried raw client_id client now later s s' resp _ unused families early refl
          (rw registered at h)
