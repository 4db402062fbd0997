-- ===== src/Oidc/Service/Sessions.antt =====
-- libraries/dbal/production/src/oidc/oidc_service.cpp: sessions, and the codes that are issued to
-- them. `k` has the readings of a call, and `n` is the number of those before it.
use dbal.Prelude.{
  ℕ, ◌+◌, ◌*◌, ◌≡◌, refl, sym, ap, ◌∙◌, subst, String, ◌<>◌, Bool, true, false, none, List, leb,
  not, str_eq, eq_iff, is_empty, has_value, if◌then◌else◌, map, Member, inl, inr, Bool-cases, arith,
}
use dbal.Result.{Result, ok, err, not_found, is_ok}
use dbal.Oidc.Client.{IsLawful, assigned}
use dbal.Oidc.Client.Rows.{Member-map}
use dbal.Oidc.AuthCodes.{AuthorizationCodeRequest, issue_code}
use dbal.Oidc.Service.{
  Service, State, CallReadings, OidcSession, AuthorizeRequest, BrowserSession, session_schema,
  internal_fault, unauthorized, browser_session_client_id, has_char,
}

unfoldable pub session_row : String → String → String → ℕ → ℕ → ℕ → OidcSession
session_row user tenant client auth expires created = record {
  id = "";
  user_id = user;
  tenant_id = tenant;
  client_id = client;
  auth_time = auth;
  revoked_at = none;
  expires_at = expires + 12 * 3600;
  created_at = created;
}

abbrev pub session_id : OidcSession → Result String
session_id row =
    if is_empty row.id
    then err (internal_fault "OidcSession created but no id returned")
    else ok row.id

unfoldable pub authorization_code_request :
    AuthorizeRequest → String → String → AuthorizationCodeRequest
authorization_code_request req user tenant = record {
  client_id = req.client_id;
  user_id = user;
  tenant_id = tenant;
  redirect_uri = req.redirect_uri;
  code_challenge = req.code_challenge;
  code_challenge_method = req.code_challenge_method;
  scope = req.scope;
  nonce = req.nonce;
}

abbrev pub is_revoked_session : OidcSession → Bool
is_revoked_session row = has_value row.revoked_at

abbrev pub browser_session_of : OidcSession → BrowserSession
browser_session_of row = record { user_id = row.user_id; tenant_id = row.tenant_id }

-- The checks of `lookupBrowserSession` on the row of the id.
unfoldable pub session_for : ℕ → OidcSession → Result BrowserSession
session_for now row =
    if not (str_eq row.client_id browser_session_client_id)
    then err (not_found "no such session")
    else if is_revoked_session row
    then err (unauthorized "session revoked")
    else if leb row.expires_at now
    then err (unauthorized "session expired")
    else if is_empty row.user_id
    then err (not_found "no such session")
    else ok (browser_session_of row)

abbrev pub redirect_location : AuthorizeRequest → String → String
redirect_location req code =
    req.redirect_uri
    <> (if has_char 63 req.redirect_uri then "&" else "?")
    <> "code="
    <> code
    <> (if is_empty req.state then "" else "&state=" <> req.state)

module _ (x : Service) where
  -- What a creation of a session returns.
  abbrev pub created_session :
      Result OidcSession × x.sessions.State → State x → Result String × State x
  created_session (ok row, ss) s = (session_id row, record s { sessions = ss })
  created_session (err e, ss) s = (err e, record s { sessions = ss })

  unfoldable pub create_session :
      CallReadings → ℕ → String → String → String → State x → Result String × State x
  unfolding session_row
  create_session k n user tenant client s =
      created_session
        (x.sessions.create_entity
          (session_row user tenant client (k.clock n) (k.clock (n + 1)) (k.clock (n + 2)))
          s.sessions)
        s

  unfoldable pub create_browser_session :
      CallReadings → String → String → State x → Result String × State x
  unfolding create_session
  create_browser_session k user tenant s =
      create_session k 0 user tenant browser_session_client_id s

  unfoldable pub lookup_browser_session : ℕ → String → State x → Result BrowserSession
  unfolding session_for
  lookup_browser_session now sid s = elim (x.sessions.get_entity sid s.sessions) [
    | err e ↦ err (not_found "no such session")
    | ok row ↦ session_for now row
  ]

  abbrev pub revoked_session :
      Result OidcSession × x.sessions.State → State x → Result Bool × State x
  revoked_session (ok row, ss) s = (ok true, record s { sessions = ss })
  revoked_session (err e, ss) s = (err e, record s { sessions = ss })

  unfoldable pub revoke_browser_session : ℕ → String → State x → Result Bool × State x
  revoke_browser_session now sid s =
      revoked_session (x.sessions.update_entity sid "revokedAt" now s.sessions) s

  abbrev pub issued_to : Result String × x.auth_codes.State → State x → Result String × State x
  issued_to (r, cs) s = (r, record s { auth_codes = cs })

  unfoldable pub issue_authorization_code :
      CallReadings → AuthorizeRequest → String → String → State x → Result String × State x
  unfolding authorization_code_request
  issue_authorization_code k req user tenant s =
      issued_to
        (issue_code x.auth_codes x.sha256 (k.fresh 0) (authorization_code_request req user tenant)
          60 (k.clock 0) (k.clock 1) s.auth_codes)
        s

  abbrev pub redirect_with : AuthorizeRequest → Result String × State x → Result String × State x
  redirect_with req (ok code, s) = (ok (redirect_location req code), s)
  redirect_with req (err e, s) = (err e, s)

  unfoldable pub build_authorize_redirect :
      CallReadings → AuthorizeRequest → String → String → State x → Result String × State x
  unfolding issue_authorization_code
  build_authorize_redirect k req user tenant s =
      redirect_with req (issue_authorization_code k req user tenant s)

  -- A session that was found is a row with the id.
  module _ (rows : x.sessions.State → List OidcSession)
      (lawful : IsLawful session_schema x.sessions rows) where
    found_session :
        (now : ℕ) (sid : String) (s : State x) (b : BrowserSession)
        → lookup_browser_session now sid s ≡ ok b
        → (row : OidcSession) × Member row (rows s.sessions)
          × (row.id ≡ sid)
          × (session_for now row ≡ ok b)
    unfolding lookup_browser_session
    found_session now sid s b h = by_row (x.sessions.get_entity sid s.sessions) refl h
      where
        by_row :
            (o : Result OidcSession)
            → x.sessions.get_entity sid s.sessions ≡ o
            → elim o [ err e ↦ err (not_found "no such session") | ok row ↦ session_for now row ]
              ≡ ok b
            → (row : OidcSession) × Member row (rows s.sessions)
              × (row.id ≡ sid)
              × (session_for now row ≡ ok b)
        by_row (err e) same h' = absurd (cc h')
        by_row (ok row) same h' =
            let (m, at_id) = lawful.gets sid s.sessions row same in (row, m, at_id, h')

    -- The revoked row of the id, and each other row as it was.
    revoked_row :
        (now : ℕ) (sid : String) (r : OidcSession)
        → (assigned session_schema sid "revokedAt" now r).id ≡ sid
        → is_revoked_session (assigned session_schema sid "revokedAt" now r) ≡ true
    revoked_row now sid r h = ground (arith, eq_iff r.id sid)

    revoked_state :
        (r : Result OidcSession × x.sessions.State) (s : State x)
        → (revoked_session r s).1.sessions ≡ r.1
    revoked_state (ok row, ss) s = refl
    revoked_state (err e, ss) s = refl

    session_for-revoked :
        (now : ℕ) (row : OidcSession) (b : BrowserSession)
        → session_for now row ≡ ok b
        → (is_revoked_session row ≡ false)
          × (leb row.expires_at now ≡ false)
          × (row.client_id ≡ browser_session_client_id)
          × (browser_session_of row ≡ b)
    unfolding session_for
    session_for-revoked now row b h =
        elim (Bool-cases (str_eq row.client_id browser_session_client_id)) [
          | inr e ↦ absurd (cc (rw e at h))
          | inl e ↦
              let h1 = rw e at h in
              elim (Bool-cases (is_revoked_session row)) [
                | inl e2 ↦ absurd (cc (rw e2 at h1))
                | inr e2 ↦
                    let h2 = rw e2 at h1 in
                    elim (Bool-cases (leb row.expires_at now)) [
                      | inl e3 ↦ absurd (cc (rw e3 at h2))
                      | inr e3 ↦
                          let h3 = rw e3 at h2 in
                          elim (Bool-cases (is_empty row.user_id)) [
                            | inl e4 ↦ absurd (cc (rw e4 at h3))
                            | inr e4 ↦ (
                              e2,
                              e3,
                              (eq_iff row.client_id browser_session_client_id).0 e,
                              cc (rw e4 at h3),
                            )
                          ]
                    ]
              ]
        ]

    -- After a browser session is revoked, no lookup of it succeeds, at any time, on an entity client
    -- that behaves as documented.
    pub lookup-revoke_browser_session :
        (now now' : ℕ) (sid : String) (s : State x)
        → is_ok (lookup_browser_session now' sid (revoke_browser_session now sid s).1) ≡ false
    unfolding revoke_browser_session
    lookup-revoke_browser_session now now' sid s =
        by_result (lookup_browser_session now' sid (revoke_browser_session now sid s).1) refl
      where
        by_result :
            (o : Result BrowserSession)
            → lookup_browser_session now' sid (revoke_browser_session now sid s).1 ≡ o
            → is_ok o ≡ false
        by_result (err e) h = refl
        by_result (ok b) h =
            let (row, m, at_id, found) =
              found_session now' sid (revoke_browser_session now sid s).1 b h in
            let after : rows (revoke_browser_session now sid s).1.sessions
                ≡ map (assigned session_schema sid "revokedAt" now) (rows s.sessions) =
              ap rows (revoked_state (x.sessions.update_entity sid "revokedAt" now s.sessions) s)
              ∙ lawful.updates sid "revokedAt" now s.sessions in
            let (old, mo, same) =
              Member-map (assigned session_schema sid "revokedAt" now) row (rows s.sessions)
                (subst (λ (k : List OidcSession). Member row k) after m) in
            let gone : is_revoked_session row ≡ true =
              ap is_revoked_session same
              ∙ revoked_row now sid old (sym (ap (λ (k : OidcSession). k.id) same) ∙ at_id) in
            absurd (cc (gone, (session_for-revoked now' row b found).0))
