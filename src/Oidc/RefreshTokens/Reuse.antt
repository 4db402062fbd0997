-- ===== src/Oidc/RefreshTokens/Reuse.antt =====
-- libraries/dbal/production/src/oidc/tokens/refresh_token_store.cpp: what a token that is presented
-- a second time does to its family.
use dbal.Prelude.{
  ℕ, ◌≤◌, ◌≡◌, refl, sym, ap, ◌∙◌, subst, String, true, false, ◌||◌, List, [], ◌∷◌, map, leb,
  str_eq, eq_iff, is_empty, arith, length, length-take, take, Member, inl, inr, Bool-cases,
  if◌then◌else◌,
}
use dbal.Result.{Result, ok, err}
use dbal.Listing.{filter_list}
use dbal.Listing.Pages.{take_all}
use dbal.Listing.Sorting.{Member-filter_list}
use dbal.Oidc.Client.{Client, IsLawful, matches}
use dbal.Oidc.Client.Rows.{
  filter-map, length-map, Member-map, take-map, map_fuse, map_same, map_agree,
}
use dbal.Oidc.RefreshTokens.{
  RefreshToken, RotatedRefreshToken, token_schema, is_revoked, revoke_each, revoke_family,
  rotated_of, consumed, reuse_detected, rotate_row, rotate_first, rotate,
}
use dbal.Oidc.RefreshTokens.Sweep.{
  marked, marked-family, marked-hash, marked-id, marked_self, sweep, sweep_one, sweep-family,
  sweep-Member,
}

module _ (c : Client RefreshToken) (sha256 : String → String) (rows : c.State → List RefreshToken)
    (lawful : IsLawful token_schema c rows) where
  one_round :
      (now : ℕ) (l : RefreshToken) (s : c.State)
      → rows
          (if is_revoked l || is_empty l.id then s else (c.update_entity l.id "revokedAt" now s).1)
        ≡ map (sweep_one now l) (rows s)
  one_round now l s = elim (Bool-cases (is_revoked l || is_empty l.id)) [
    | inl e ↦ rw e (sym (map_same (sweep_one now l) (rows s) (λ r. rw e refl)))
    | inr e ↦ rw e (
        lawful.updates l.id "revokedAt" now s
        ∙ map_agree (marked l.id now) (sweep_one now l) (rows s) (λ r. rw e refl))
  ]

  -- The loop makes a sweep over every row.
  rows-revoke_each :
      (now : ℕ) (ls : List RefreshToken) (s : c.State)
      → rows (revoke_each c sha256 now ls s) ≡ map (sweep now ls) (rows s)
  unfolding revoke_each sweep
  rows-revoke_each now [] s = sym (map_same (λ r. r) (rows s) (λ r. refl))
  rows-revoke_each now (l ∷ ls) s =
      rows-revoke_each now ls _
      ∙ rw (one_round now l s) (map_fuse (sweep now ls) (sweep_one now l) (rows s))

  -- Where a family fits in one list and its tokens have ids, the family is revoked as a whole.
  pub revoke_family-revokes :
      (now : ℕ) (family : String) (s : c.State)
      → length (filter_list (matches token_schema "familyId" family) (rows s)) ≤ 1000
      → ((r : RefreshToken) → Member r (rows s) → is_empty r.id ≡ false)
      → (r : RefreshToken) → Member r (rows (revoke_family c sha256 now family s))
      → r.family_id ≡ family
      → is_revoked r ≡ true
  unfolding revoke_family
  revoke_family-revokes now family s fits ids r m is_family =
      let found = filter_list (matches token_schema "familyId" family) (rows s) in
      let e : rows (revoke_family c sha256 now family s) ≡ map (sweep now found) (rows s) =
        rw (lawful.lists "familyId" family 1000 s, revoke_family)
          (rw (take_all 1000 found fits) (rows-revoke_each now found s)) in
      let (x, mx, rx) =
        Member-map (sweep now found) r (rows s)
          (subst (λ (l : List RefreshToken). Member r l) e m) in
      let same : x.family_id ≡ family =
        sym (sweep-family now found x)
        ∙ sym (ap (λ (k : RefreshToken). k.family_id) rx)
        ∙ is_family in
      let listed =
        (Member-filter_list (matches token_schema "familyId" family) x (rows s)).1
          (mx, (eq_iff x.family_id family).1 same) in
      subst (λ (k : RefreshToken). is_revoked k ≡ true) (sym rx)
        (sweep-Member now found x (ids x mx) listed)

  consumed-ok :
      (row : RefreshToken) (r : Result RefreshToken × c.State) {t : RotatedRefreshToken}
      {s' : c.State}
      → consumed c sha256 row r ≡ (ok t, s')
      → (t ≡ rotated_of row) × (s' ≡ r.1)
  consumed-ok row (ok x, s1) h = (cc, cc)
  consumed-ok row (err e, s1) h = (cc, cc)

  rotate_row-revoked :
      (client : String) (now later : ℕ) (row : RefreshToken) (s : c.State)
      → str_eq row.client_id client ≡ true
      → is_revoked row ≡ true
      → rotate_row c sha256 client now later row s
        ≡ (err reuse_detected, revoke_family c sha256 now row.family_id s)
  unfolding rotate_row
  rotate_row-revoked client now later row s e revoked = rw e (rw revoked refl)

  rotate_row-ok :
      (client : String) (now later : ℕ) (row : RefreshToken) (s : c.State) {t : RotatedRefreshToken}
      {s' : c.State}
      → rotate_row c sha256 client now later row s ≡ (ok t, s')
      → (str_eq row.client_id client ≡ true)
        × (t ≡ rotated_of row)
        × (s' ≡ (c.update_entity row.id "revokedAt" later s).1)
  unfolding rotate_row
  rotate_row-ok client now later row s {t} {s'} h =
      elim (Bool-cases (str_eq row.client_id client)) [
        | inr e ↦ absurd (ground arith)
        | inl e ↦ elim (Bool-cases (is_revoked row)) [
          | inl e2 ↦ absurd (ground arith)
          | inr e2 ↦ elim (Bool-cases (leb row.expires_at now)) [
            | inl e3 ↦ absurd (ground arith)
            | inr e3 ↦
                let h' = rw e at (rw e2 at (rw e3 at h)) in
                let r = consumed-ok row (c.update_entity row.id "revokedAt" later s) h' in
                (e, r.0, r.1)
          ]
        ]
      ]

  pub rotate_first-ok :
      (client : String) (now later : ℕ) (found : List RefreshToken) (s : c.State)
      {t : RotatedRefreshToken} {s' : c.State}
      → length found ≤ 1
      → rotate_first c sha256 client now later found s ≡ (ok t, s')
      → (row : RefreshToken) × (found ≡ row ∷ [])
        × (str_eq row.client_id client ≡ true)
        × (t ≡ rotated_of row)
        × (s' ≡ (c.update_entity row.id "revokedAt" later s).1)
  rotate_first-ok client now later [] s one h = absurd (cc)
  rotate_first-ok client now later (row ∷ []) s one h =
      let r = rotate_row-ok client now later row s h in (row, refl, r.0, r.1, r.2)
  rotate_first-ok client now later (row ∷ more ∷ rest) s one h = absurd (omega arith)

  -- What a rotation does is what it does with the first token of the hash.
  pub rotate-found :
      (raw client : String) (now later : ℕ) (s : c.State)
      → rotate c sha256 raw client now later s
        ≡ rotate_first c sha256 client now later
            (take 1 (filter_list (matches token_schema "tokenHash" (sha256 raw)) (rows s)))
            s
  unfolding rotate
  rotate-found raw client now later s = rw (lawful.lists "tokenHash" (sha256 raw) 1 s, rotate) refl

  -- The rows after a rotation, which has marked the token.
  rotate_again :
      (raw client : String) (now later now' later' : ℕ) (s : c.State) {t : RotatedRefreshToken}
      {s' : c.State}
      → rotate c sha256 raw client now later s ≡ (ok t, s')
      → (rotate c sha256 raw client now' later' s'
          ≡ (err reuse_detected, revoke_family c sha256 now' t.family_id s'))
        × (id : String) × (rows s' ≡ map (marked id later) (rows s))
  unfolding rotated_of
  rotate_again raw client now later now' later' s {t} {s'} h =
      let hashed = matches token_schema "tokenHash" (sha256 raw) in
      let (row, found, is_client, is_row, after) =
        rotate_first-ok client now later (take 1 (filter_list hashed (rows s))) s
          (omega (arith, length-take 1 (filter_list hashed (rows s))))
          (sym (rotate-found raw client now later s) ∙ h) in
      let m = marked row.id later in
      let left : rows s' ≡ map m (rows s) =
        ap rows after ∙ lawful.updates row.id "revokedAt" later s in
      let found' : take 1 (filter_list hashed (rows s')) ≡ m row ∷ [] =
        ap (λ (rs : List RefreshToken). take 1 (filter_list hashed rs)) left
        ∙ ap (take 1)
            (filter-map hashed m (rows s) (λ r. ground (arith, marked-hash row.id later r)))
        ∙ take-map 1 m (filter_list hashed (rows s))
        ∙ ap (map m) found in
      let again : rotate c sha256 raw client now' later' s'
          ≡ (err reuse_detected, revoke_family c sha256 now' (m row).family_id s') =
        rotate-found raw client now' later' s'
        ∙ ap (λ (rs : List RefreshToken). rotate_first c sha256 client now' later' rs s') found'
        ∙ rotate_row-revoked client now' later' (m row) s'
            (subst (λ (k : RefreshToken). str_eq k.client_id client ≡ true)
              (sym (marked_self later row)) is_client)
            (ap is_revoked (marked_self later row)) in
      let family : (m row).family_id ≡ t.family_id =
        ap (λ (k : RefreshToken). k.family_id) (marked_self later row)
        ∙ sym (ap (λ (k : RotatedRefreshToken). k.family_id) is_row) in
      let outcome : String → Result RotatedRefreshToken × c.State =
        λ f. (err reuse_detected, revoke_family c sha256 now' f s') in
      (again ∙ ap outcome family, row.id, left)

  -- A token that was rotated is presented again, with the same client: the rotation fails, and every
  -- token of its family is revoked, if the family has 1000 tokens at most and all tokens have ids,
  -- on an entity client that behaves as documented.
  pub rotate-reuse :
      (raw client : String) (now later now' later' : ℕ) (s : c.State) {t : RotatedRefreshToken}
      {s' : c.State}
      → rotate c sha256 raw client now later s ≡ (ok t, s')
      → length (filter_list (matches token_schema "familyId" t.family_id) (rows s)) ≤ 1000
      → ((r : RefreshToken) → Member r (rows s) → is_empty r.id ≡ false)
      → (r : RefreshToken) → Member r (rows (rotate c sha256 raw client now' later' s').1)
      → r.family_id ≡ t.family_id
      → ((rotate c sha256 raw client now' later' s').0 ≡ err reuse_detected) × (is_revoked r ≡ true)
  rotate-reuse raw client now later now' later' s {t} {s'} h fits ids r m of_family =
      let (again, id, left) = rotate_again raw client now later now' later' s h in
      let of = matches token_schema "familyId" t.family_id in
      let fits' : length (filter_list of (rows s')) ≤ 1000 =
        subst (λ (n : ℕ). n ≤ 1000)
          (sym (
            ap (λ (rs : List RefreshToken). length (filter_list of rs)) left
            ∙ ap (length {0}) (
                filter-map of (marked id later) (rows s)
                  (λ x. ground (arith, marked-family id later x)))
            ∙ length-map (marked id later) (filter_list of (rows s))))
          fits in
      (
        ap (λ (o : Result RotatedRefreshToken × c.State). o.0) again,
        revoke_family-revokes now' t.family_id s' fits'
            (λ x mx.
              let (y, my, e) =
                Member-map (marked id later) x (rows s)
                  (subst (λ (l : List RefreshToken). Member x l) left mx) in
              ap (λ (k : RefreshToken). is_empty k.id) e
              ∙ ap is_empty (marked-id id later y)
              ∙ ids y my)
            r (subst (λ (o : Result RotatedRefreshToken × c.State). Member r (rows o.1)) again m)
            of_family,
      )
