-- ===== src/Oidc/RefreshTokens/Sweep.antt =====
-- libraries/dbal/production/src/oidc/tokens/refresh_token_store.cpp: what the loop of revokeFamily
-- makes of one row.
use dbal.Prelude.{
  ℕ, ◌≡◌, ◌⊎◌, refl, sym, ap, ◌∙◌, subst, String, true, false, ◌||◌, some, List, [], ◌∷◌, str_eq,
  eq_refl, is_empty, arith, Member, inl, inr, Bool-cases, if◌then◌else◌,
}
use dbal.Oidc.Client.{assigned}
use dbal.Oidc.RefreshTokens.{RefreshToken, token_schema, is_revoked}

-- The mark that an update leaves on a row.
abbrev pub marked : String → ℕ → RefreshToken → RefreshToken
marked id time = assigned token_schema id "revokedAt" time

pub marked-family :
    (id : String) (t : ℕ) (r : RefreshToken) → (marked id t r).family_id ≡ r.family_id
marked-family id t r = ground arith

pub marked-hash :
    (id : String) (t : ℕ) (r : RefreshToken) → (marked id t r).token_hash ≡ r.token_hash
marked-hash id t r = ground arith

pub marked-id : (id : String) (t : ℕ) (r : RefreshToken) → (marked id t r).id ≡ r.id
marked-id id t r = ground arith

marked-is_revoked :
    (id : String) (t : ℕ) (r : RefreshToken)
    → is_revoked r ≡ true
    → is_revoked (marked id t r) ≡ true
marked-is_revoked id t r h = ground arith

pub marked_self : (t : ℕ) (r : RefreshToken) → marked r.id t r ≡ record r { revoked_at = some t }
marked_self t r = rw (eq_refl r.id) refl

-- What one round of the loop of `revokeFamily`, and the loop, make of one row.
abbrev pub sweep_one : ℕ → RefreshToken → RefreshToken → RefreshToken
sweep_one now l r = if is_revoked l || is_empty l.id then r else marked l.id now r

unfoldable pub sweep : ℕ → List RefreshToken → RefreshToken → RefreshToken
sweep now [] r = r
sweep now (l ∷ ls) r = sweep now ls (sweep_one now l r)

sweep-is_revoked :
    (now : ℕ) (ls : List RefreshToken) (r : RefreshToken)
    → is_revoked r ≡ true
    → is_revoked (sweep now ls r) ≡ true
unfolding sweep
sweep-is_revoked now [] r h = h
sweep-is_revoked now (l ∷ ls) r h =
    sweep-is_revoked now ls _ (ground (arith, marked-is_revoked l.id now r))

swept_self :
    (now : ℕ) (r : RefreshToken) → is_empty r.id ≡ false → is_revoked (sweep_one now r r) ≡ true
swept_self now r n = elim (Bool-cases (is_revoked r)) [
  | inl e ↦ rw e e
  | inr e ↦ rw e (rw n (ap is_revoked (marked_self now r)))
]

kept_or_revoked :
    (now : ℕ) (l r : RefreshToken)
    → (sweep_one now l r ≡ r) ⊎ (is_revoked (sweep_one now l r) ≡ true)
kept_or_revoked now l r = elim (Bool-cases (is_revoked l || is_empty l.id)) [
  | inl e ↦ inl (rw e refl)
  | inr e ↦ elim (Bool-cases (str_eq r.id l.id)) [
    | inl same ↦ inr (rw e (rw same refl))
    | inr other ↦ inl (rw e (rw other refl))
  ]
]

-- A row that is on the list, with an id, is revoked after the loop.
pub sweep-Member :
    (now : ℕ) (ls : List RefreshToken) (r : RefreshToken)
    → is_empty r.id ≡ false
    → Member r ls
    → is_revoked (sweep now ls r) ≡ true
unfolding sweep
sweep-Member now [] r n m = absurd m
sweep-Member now (l ∷ ls) r n (inl e) =
    sweep-is_revoked now ls _
      (subst (λ (k : RefreshToken). is_revoked (sweep_one now k r) ≡ true) e (swept_self now r n))
sweep-Member now (l ∷ ls) r n (inr m) = elim (kept_or_revoked now l r) [
  | inl kept ↦
      subst (λ (k : RefreshToken). is_revoked (sweep now ls k) ≡ true) (sym kept)
        (sweep-Member now ls r n m)
  | inr revoked ↦ sweep-is_revoked now ls _ revoked
]

pub sweep-family :
    (now : ℕ) (ls : List RefreshToken) (r : RefreshToken) → (sweep now ls r).family_id ≡ r.family_id
unfolding sweep
sweep-family now [] r = refl
sweep-family now (l ∷ ls) r =
    sweep-family now ls (sweep_one now l r) ∙ ground (arith, marked-family l.id now r)
