-- ===== src/Oidc/RefreshTokens/Rotation.antt =====
-- libraries/dbal/production/src/oidc/tokens/refresh_token_store.cpp: the token that a rotation took,
-- and the rotation of a token that was issued.
use dbal.Prelude.{
  ℕ, ◌+◌, ◌<◌, ◌≡◌, refl, sym, ap, ◌∙◌, subst, String, Bool, true, false, List, [], ◌∷◌, ◌++◌, map,
  leb, str_eq, eq_refl, is_empty, arith, length-take, take, Member, inl, if◌then◌else◌,
}
use dbal.Result.{Result, ok, err, is_ok}
use dbal.Listing.{filter_list}
use dbal.Listing.Sorting.{Member-filter_list}
use dbal.Oidc.Client.{Client, IsLawful, matches}
use dbal.Oidc.Client.Rows.{filter-map, filter-append_one, Member-append_one}
use dbal.Oidc.RefreshTokens.{
  RefreshToken, RefreshTokenRequest, RotatedRefreshToken, token_schema, is_revoked, rotated_of,
  token_row, issued_token, issue, consumed, rotate_row, rotate_first, rotate,
}
use dbal.Oidc.RefreshTokens.Reuse.{rotate-found, rotate_first-ok}
use dbal.Oidc.RefreshTokens.Sweep.{marked, marked-hash}

-- The family of a token that is issued.
abbrev pub family_for : String → RefreshTokenRequest → String
family_for family req = if is_empty req.family_id then family else req.family_id

-- The fields of a request, as a rotation returns them.
abbrev pub carried : String → String → RefreshTokenRequest → RotatedRefreshToken
carried id family req = record {
  token_id = id;
  client_id = req.client_id;
  user_id = req.user_id;
  tenant_id = req.tenant_id;
  scope = req.scope;
  family_id = family_for family req;
}

take_one-Member : {A : Type 0} (xs : List A) (x : A) → take 1 xs ≡ x ∷ [] → Member x xs
take_one-Member [] x h = absurd (cc h)
take_one-Member (y ∷ ys) x h = inl (cc h)

module _ (c : Client RefreshToken) (sha256 : String → String) (rows : c.State → List RefreshToken)
    (lawful : IsLawful token_schema c rows) where
  hashed : String → RefreshToken → Bool
  hashed raw = matches token_schema "tokenHash" (sha256 raw)

  -- A rotation that succeeds took a token of the client, and has marked it.
  pub rotate-took :
      (raw client : String) (now later : ℕ) (s : c.State) {t : RotatedRefreshToken} {s' : c.State}
      → rotate c sha256 raw client now later s ≡ (ok t, s')
      → (row : RefreshToken) × Member row (rows s)
        × (str_eq row.client_id client ≡ true)
        × (t ≡ rotated_of row)
        × (rows s' ≡ map (marked row.id later) (rows s))
  unfolding hashed
  rotate-took raw client now later s {t} {s'} h =
      let (row, found, is_client, is_row, after) =
        rotate_first-ok c sha256 rows lawful client now later
          (take 1 (filter_list (hashed raw) (rows s))) s
          (omega (arith, length-take 1 (filter_list (hashed raw) (rows s))))
          (sym (rotate-found c sha256 rows lawful raw client now later s) ∙ h) in
      let m =
        (Member-filter_list (hashed raw) row (rows s)).0
          (take_one-Member (filter_list (hashed raw) (rows s)) row found) in
      (row, m.0, is_client, is_row, ap rows after ∙ lawful.updates row.id "revokedAt" later s)

  -- A mark does not change which tokens have a hash.
  pub unused-marked :
      (raw id : String) (t : ℕ) (rs : List RefreshToken)
      → filter_list (matches token_schema "tokenHash" (sha256 raw)) rs ≡ []
      → filter_list (matches token_schema "tokenHash" (sha256 raw)) (map (marked id t) rs) ≡ []
  unfolding hashed
  unused-marked raw id t rs h =
      filter-map (hashed raw) (marked id t) rs (λ r. ground (arith, marked-hash id t r))
      ∙ ap (map (marked id t)) h

  pub issued-ok :
      (raw : String) (r : Result RefreshToken × c.State) {row : RefreshToken}
      → r.0 ≡ ok row
      → issued_token c sha256 raw r ≡ (ok raw, r.1)
  issued-ok raw (ok x, s1) h = refl
  issued-ok raw (err e, s1) h = absurd (cc h)

  -- A token that is issued is there under an id, beside the other tokens.
  pub issue-adds :
      (raw family : String) (req : RefreshTokenRequest) (ttl now later : ℕ) (s : c.State)
      → (id : String) × (s' : c.State) × (issue c sha256 raw family req ttl now later s
          ≡ (ok raw, s'))
        × (rows s'
            ≡ rows s ++ record (token_row (sha256 raw) family req ttl now later) { id = id } ∷ [])
  unfolding issue
  issue-adds raw family req ttl now later s =
      let new = token_row (sha256 raw) family req ttl now later in
      let (id, some_id, created, after) = lawful.creates new s in
      (id, (c.create_entity new s).1, issued-ok raw (c.create_entity new s) created, after)

  consumed-is_ok :
      (row : RefreshToken) (r : Result RefreshToken × c.State)
      → is_ok r.0 ≡ true
      → (consumed c sha256 row r).0 ≡ ok (rotated_of row)
  consumed-is_ok row (ok x, s1) h = refl
  consumed-is_ok row (err e, s1) h = cc h

  rotate_row-fresh :
      (now later : ℕ) (row : RefreshToken) (s : c.State)
      → is_revoked row ≡ false
      → now < row.expires_at
      → Member row (rows s)
      → (rotate_row c sha256 row.client_id now later row s).0 ≡ ok (rotated_of row)
  unfolding rotate_row
  rotate_row-fresh now later row s fresh early m =
      let unexpired : leb row.expires_at now ≡ false = ground arith in
      rw (eq_refl row.client_id) (
        rw fresh (
          rw unexpired (
            consumed-is_ok row (c.update_entity row.id "revokedAt" later s)
              (lawful.finds row "revokedAt" later s m))))

  -- A token that stands alone with its hash behind the others is rotated before it expires.
  pub rotate-appended :
      (raw family id : String) (req : RefreshTokenRequest) (ttl now later now' later' : ℕ)
      (rs : List RefreshToken) (s : c.State)
      → filter_list (matches token_schema "tokenHash" (sha256 raw)) rs ≡ []
      → rows s ≡ rs ++ record (token_row (sha256 raw) family req ttl now later) { id = id } ∷ []
      → now' < now + ttl
      → (rotate c sha256 raw req.client_id now' later' s).0 ≡ ok (carried id family req)
  unfolding hashed token_row rotated_of
  rotate-appended raw family id req ttl now later now' later' rs s unused there early =
      let row = record (token_row (sha256 raw) family req ttl now later) { id = id } in
      let found : take 1 (filter_list (hashed raw) (rows s)) ≡ row ∷ [] =
        ap (λ (l : List RefreshToken). take 1 (filter_list (hashed raw) l)) there
        ∙ ap (take 1) (filter-append_one (hashed raw) rs row unused (eq_refl (sha256 raw))) in
      ap (λ (o : Result RotatedRefreshToken × c.State). o.0)
        (rotate-found c sha256 rows lawful raw req.client_id now' later' s
          ∙ ap (λ (l : List RefreshToken). rotate_first c sha256 req.client_id now' later' l s)
              found)
      ∙ rotate_row-fresh now' later' row s refl early
          (subst (λ (l : List RefreshToken). Member row l) (sym there) (Member-append_one rs row))
