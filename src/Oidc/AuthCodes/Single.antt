-- ===== src/Oidc/AuthCodes/Single.antt =====
-- libraries/dbal/production/src/oidc/tokens/auth_code_store.cpp: a code that was issued, redeemed
-- and presented again.
use dbal.Prelude.{
  ℕ, ◌+◌, ◌≤◌, ◌<◌, ◌≡◌, refl, sym, ap, ◌∙◌, subst, String, Bool, true, false, some, List, [], ◌∷◌,
  map, leb, str_eq, eq_refl, arith, length, take, length-take, Member, Bool-cases, inl, inr,
}
use dbal.Result.{Result, ok, err, is_ok}
use dbal.Listing.{filter_list}
use dbal.Oidc.Client.{Client, IsLawful, matches, assigned}
use dbal.Oidc.Client.Rows.{filter-append_one, Member-append_one, filter-map, take-map}
use dbal.Oidc.AuthCodes.{
  AuthorizationCode, AuthorizationCodeRequest, RedeemedCode, code_schema, is_consumed, code_row,
  redeemed_of, redeemed, already_used, issued_code, issue_code, redeem_row, redeem_first, redeem,
}

abbrev marked : String → ℕ → AuthorizationCode → AuthorizationCode
marked id time = assigned code_schema id "consumedAt" time

marked-hash :
    (id : String) (t : ℕ) (r : AuthorizationCode) → (marked id t r).code_hash ≡ r.code_hash
marked-hash id t r = ground arith

marked_self : (t : ℕ) (r : AuthorizationCode) → marked r.id t r ≡ record r { consumed_at = some t }
marked_self t r = rw (eq_refl r.id) refl

-- The fields of a request, as a redemption returns them.
abbrev pub granted : AuthorizationCodeRequest → RedeemedCode
granted req = record {
  client_id = req.client_id;
  user_id = req.user_id;
  tenant_id = req.tenant_id;
  redirect_uri = req.redirect_uri;
  code_challenge = req.code_challenge;
  code_challenge_method = req.code_challenge_method;
  scope = req.scope;
  nonce = req.nonce;
}

module _ (c : Client AuthorizationCode) (sha256 : String → String)
    (rows : c.State → List AuthorizationCode) (lawful : IsLawful code_schema c rows) where
  hashed : String → AuthorizationCode → Bool
  hashed raw = matches code_schema "codeHash" (sha256 raw)

  redeemed-ok :
      (row : AuthorizationCode) (r : Result AuthorizationCode × c.State) {t : RedeemedCode}
      {s' : c.State}
      → redeemed c sha256 row r ≡ (ok t, s')
      → s' ≡ r.1
  redeemed-ok row (ok x, s1) h = cc
  redeemed-ok row (err e, s1) h = cc

  redeem_row-ok :
      (client : String) (now later : ℕ) (row : AuthorizationCode) (s : c.State) {t : RedeemedCode}
      {s' : c.State}
      → redeem_row c sha256 client now later row s ≡ (ok t, s')
      → (str_eq row.client_id client ≡ true)
        × (s' ≡ (c.update_entity row.id "consumedAt" later s).1)
  unfolding redeem_row
  redeem_row-ok client now later row s {t} {s'} h =
      elim (Bool-cases (str_eq row.client_id client)) [
        | inr e ↦ absurd (ground arith)
        | inl e ↦ elim (Bool-cases (is_consumed row)) [
          | inl e2 ↦ absurd (ground arith)
          | inr e2 ↦ elim (Bool-cases (leb row.expires_at now)) [
            | inl e3 ↦ absurd (ground arith)
            | inr e3 ↦
                let h' = rw e at (rw e2 at (rw e3 at h)) in
                (e, redeemed-ok row (c.update_entity row.id "consumedAt" later s) h')
          ]
        ]
      ]

  redeem_row-consumed :
      (client : String) (now later : ℕ) (row : AuthorizationCode) (s : c.State)
      → str_eq row.client_id client ≡ true
      → is_consumed row ≡ true
      → redeem_row c sha256 client now later row s ≡ (err already_used, s)
  unfolding redeem_row
  redeem_row-consumed client now later row s e used = rw e (rw used refl)

  redeem_first-ok :
      (client : String) (now later : ℕ) (found : List AuthorizationCode) (s : c.State)
      {t : RedeemedCode} {s' : c.State}
      → length found ≤ 1
      → redeem_first c sha256 client now later found s ≡ (ok t, s')
      → (row : AuthorizationCode) × (found ≡ row ∷ [])
        × (str_eq row.client_id client ≡ true)
        × (s' ≡ (c.update_entity row.id "consumedAt" later s).1)
  redeem_first-ok client now later [] s one h = absurd (cc)
  redeem_first-ok client now later (row ∷ []) s one h =
      let r = redeem_row-ok client now later row s h in (row, refl, r.0, r.1)
  redeem_first-ok client now later (row ∷ more ∷ rest) s one h = absurd (omega arith)

  -- What a redemption does is what it does with the first code of the hash.
  redeem-found :
      (raw client : String) (now later : ℕ) (s : c.State)
      → redeem c sha256 raw client now later s
        ≡ redeem_first c sha256 client now later (take 1 (filter_list (hashed raw) (rows s))) s
  unfolding redeem hashed
  redeem-found raw client now later s = rw (lawful.lists "codeHash" (sha256 raw) 1 s, redeem) refl

  hashed-marked :
      (raw id : String) (t : ℕ) (r : AuthorizationCode) → hashed raw (marked id t r) ≡ hashed raw r
  unfolding hashed
  hashed-marked raw id t r = ground (arith, marked-hash id t r)

  -- A code that was redeemed is not redeemed again by the client: the redemption fails and changes
  -- nothing, on an entity client that behaves as documented.
  pub redeem-once :
      (raw client : String) (now later now' later' : ℕ) (s : c.State) {t : RedeemedCode}
      {s' : c.State}
      → redeem c sha256 raw client now later s ≡ (ok t, s')
      → redeem c sha256 raw client now' later' s' ≡ (err already_used, s')
  redeem-once raw client now later now' later' s {t} {s'} h =
      let (row, found, is_client, after) =
        redeem_first-ok client now later (take 1 (filter_list (hashed raw) (rows s))) s
          (omega (arith, length-take 1 (filter_list (hashed raw) (rows s))))
          (sym (redeem-found raw client now later s) ∙ h) in
      let m = marked row.id later in
      let left : rows s' ≡ map m (rows s) =
        ap rows after ∙ lawful.updates row.id "consumedAt" later s in
      let found' : take 1 (filter_list (hashed raw) (rows s')) ≡ m row ∷ [] =
        ap (λ (rs : List AuthorizationCode). take 1 (filter_list (hashed raw) rs)) left
        ∙ ap (take 1) (filter-map (hashed raw) m (rows s) (hashed-marked raw row.id later))
        ∙ take-map 1 m (filter_list (hashed raw) (rows s))
        ∙ ap (map m) found in
      redeem-found raw client now' later' s'
      ∙ ap (λ (rs : List AuthorizationCode). redeem_first c sha256 client now' later' rs s') found'
      ∙ redeem_row-consumed client now' later' (m row) s'
          (subst (λ (k : AuthorizationCode). str_eq k.client_id client ≡ true)
            (sym (marked_self later row)) is_client)
          (ap is_consumed (marked_self later row))

  issued-state :
      (raw : String) (r : Result AuthorizationCode × c.State) → (issued_code c sha256 raw r).1 ≡ r.1
  issued-state raw (ok x, s1) = refl
  issued-state raw (err e, s1) = refl

  redeemed-is_ok :
      (row : AuthorizationCode) (r : Result AuthorizationCode × c.State)
      → is_ok r.0 ≡ true
      → (redeemed c sha256 row r).0 ≡ ok (redeemed_of row)
  redeemed-is_ok row (ok x, s1) h = refl
  redeemed-is_ok row (err e, s1) h = cc

  redeem_row-fresh :
      (now later : ℕ) (row : AuthorizationCode) (s : c.State)
      → is_consumed row ≡ false
      → now < row.expires_at
      → Member row (rows s)
      → (redeem_row c sha256 row.client_id now later row s).0 ≡ ok (redeemed_of row)
  unfolding redeem_row
  redeem_row-fresh now later row s fresh early m =
      let unexpired : leb row.expires_at now ≡ false = ground arith in
      rw (eq_refl row.client_id) (
        rw fresh (
          rw unexpired (
            redeemed-is_ok row (c.update_entity row.id "consumedAt" later s)
              (lawful.finds row "consumedAt" later s m))))

  -- A code that was issued, where no code has its hash, is redeemed by its client before it expires,
  -- with the fields of the request, on an entity client that behaves as documented.
  pub redeem-issue_code :
      (raw : String) (req : AuthorizationCodeRequest) (ttl now later now' later' : ℕ) (s : c.State)
      → filter_list (matches code_schema "codeHash" (sha256 raw)) (rows s) ≡ []
      → now' < now + ttl
      → (redeem c sha256 raw req.client_id now' later'
          (issue_code c sha256 raw req ttl now later s).1).0
        ≡ ok (granted req)
  unfolding issue_code hashed redeemed_of
  redeem-issue_code raw req ttl now later now' later' s unused early =
      let new = code_row (sha256 raw) req ttl now later in
      let (id, some_id, created, after) = lawful.creates new s in
      let row = code_schema.with_id id new in
      let s' = (c.create_entity new s).1 in
      let same : (issue_code c sha256 raw req ttl now later s).1 ≡ s' =
        issued-state raw (c.create_entity new s) in
      let found : take 1 (filter_list (hashed raw) (rows s')) ≡ row ∷ [] =
        ap (λ (rs : List AuthorizationCode). take 1 (filter_list (hashed raw) rs)) after
        ∙ ap (take 1) (filter-append_one (hashed raw) (rows s) row unused (eq_refl (sha256 raw))) in
      ap (λ (k : c.State). (redeem c sha256 raw req.client_id now' later' k).0) same
      ∙ ap (λ (o : Result RedeemedCode × c.State). o.0)
          (redeem-found raw req.client_id now' later' s'
            ∙ ap
                (λ (rs : List AuthorizationCode).
                  redeem_first c sha256 req.client_id now' later' rs s')
                found)
      ∙ redeem_row-fresh now' later' row s' refl early (
          subst (λ (rs : List AuthorizationCode). Member row rs) (sym after)
            (Member-append_one (rows s) row))
