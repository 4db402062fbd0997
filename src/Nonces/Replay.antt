-- ===== src/Nonces/Replay.antt =====
-- libraries/dbal/production/src/security/nonce: what the calls keep of a nonce that they
-- have stored.
use dbal.Prelude.{
  ℕ, ◌+◌, ◌-◌, ◌*◌, ◌/◌, ◌≤◌, ◌≡◌, refl, sym, subst, String, true, false, some, List, [], ◌∷◌, leb,
  arith, eq_iff, Bool-cases, inl, inr,
}
use dbal.Map.{Map, contains, lookup, lookup-insert, lookup-insert_self}
use dbal.Nonces.{
  NonceStorage, nonce_check_and_store, is_expired, erase_expired, nonce_cleanup,
  nonce_maybe_cleanup, Readings, check_and_store, NonceCall, check_call, cleanup_call, call, calls,
}

module _ (tick : ℕ) where
  -- What a cleanup leaves of a young nonce.
  lookup-erase_expired :
      (nonce : String) (now expiry time : ℕ) (m : Map ℕ)
      → lookup nonce m ≡ some time
      → is_expired tick now expiry time ≡ false
      → lookup nonce (erase_expired tick now expiry m) ≡ some time
  unfolding lookup erase_expired
  lookup-erase_expired nonce now expiry time [] h young = h
  lookup-erase_expired nonce now expiry time ((k, t) ∷ m) h young =
      ground (arith, lookup-erase_expired nonce now expiry time m, eq_iff k nonce)

  -- The store has the nonce from the time `t` on, and forgets it after `expiry` seconds.
  Knows : String → ℕ → ℕ → NonceStorage → Type 0
  Knows nonce t expiry s = (lookup nonce s.nonces ≡ some t) × (s.expiry_seconds ≡ expiry)

  nonce_cleanup-Knows :
      (nonce : String) (t expiry now : ℕ) (s : NonceStorage)
      → Knows nonce t expiry s
      → now ≤ t + expiry * tick
      → Knows nonce t expiry (nonce_cleanup tick now s)
  unfolding Knows nonce_cleanup
  nonce_cleanup-Knows nonce t expiry now s h young =
      let not_expired : is_expired tick now s.expiry_seconds t ≡ false =
        subst (λ (e : ℕ). is_expired tick now e t ≡ false) (sym h.1) (ground arith) in
      (lookup-erase_expired nonce now s.expiry_seconds t s.nonces h.0 not_expired, h.1)

  nonce_maybe_cleanup-Knows :
      (nonce : String) (t expiry now later : ℕ) (s : NonceStorage)
      → Knows nonce t expiry s
      → later ≤ t + expiry * tick
      → Knows nonce t expiry (nonce_maybe_cleanup tick now later s)
  unfolding nonce_maybe_cleanup
  nonce_maybe_cleanup-Knows nonce t expiry now later s h young =
      elim (Bool-cases (leb s.cleanup_interval_seconds ((now - s.last_cleanup) / tick))) [
        | inl e ↦ rw e (nonce_cleanup-Knows nonce t expiry later s h young)
        | inr e ↦ rw e h
      ]

  nonce_check_and_store-Knows :
      (nonce other : String) (t expiry now : ℕ) (s : NonceStorage)
      → Knows nonce t expiry s
      → Knows nonce t expiry (nonce_check_and_store other now s).1
  unfolding Knows nonce_check_and_store contains
  nonce_check_and_store-Knows nonce other t expiry now s h =
      ground (arith, lookup-insert other nonce now s.nonces, eq_iff other nonce)

  check_and_store-Knows :
      (nonce other : String) (t expiry : ℕ) (r : Readings) (s : NonceStorage)
      → Knows nonce t expiry s
      → r.cleaned_at ≤ t + expiry * tick
      → Knows nonce t expiry (check_and_store tick other r s).1
  unfolding check_and_store
  check_and_store-Knows nonce other t expiry r s h young =
      nonce_check_and_store-Knows nonce other t expiry r.stored_at _
        (nonce_maybe_cleanup-Knows nonce t expiry r.elapsed_at r.cleaned_at s h young)

  -- The clock of each cleanup in the calls reads the deadline at most.
  abbrev pub Within : ℕ → List NonceCall → Type 0
  Within deadline [] = Unit
  Within deadline (check_call nonce r ∷ xs) = (r.cleaned_at ≤ deadline) × Within deadline xs
  Within deadline (cleanup_call now ∷ xs) = (now ≤ deadline) × Within deadline xs

  calls-Knows :
      (nonce : String) (t expiry : ℕ) (xs : List NonceCall) (s : NonceStorage)
      → Knows nonce t expiry s
      → Within (t + expiry * tick) xs
      → Knows nonce t expiry (calls tick xs s)
  unfolding calls call
  calls-Knows nonce t expiry [] s h young = h
  calls-Knows nonce t expiry (check_call other r ∷ xs) s h young =
      calls-Knows nonce t expiry xs _ (check_and_store-Knows nonce other t expiry r s h young.0)
        young.1
  calls-Knows nonce t expiry (cleanup_call now ∷ xs) s h young =
      calls-Knows nonce t expiry xs _ (nonce_cleanup-Knows nonce t expiry now s h young.0) young.1

  refused :
      (nonce : String) (t expiry now : ℕ) (s : NonceStorage)
      → Knows nonce t expiry s
      → (nonce_check_and_store nonce now s).0 ≡ false
  unfolding nonce_check_and_store contains Knows
  refused nonce t expiry now s h =
      let known : contains nonce s.nonces ≡ true = rw (h.0, contains) refl in rw known refl

  accepted-Knows :
      (nonce : String) (now : ℕ) (s : NonceStorage)
      → (nonce_check_and_store nonce now s).0 ≡ true
      → Knows nonce now s.expiry_seconds (nonce_check_and_store nonce now s).1
  unfolding nonce_check_and_store Knows
  accepted-Knows nonce now s h = elim (Bool-cases (contains nonce s.nonces)) [
    | inl e ↦ absurd (ground arith)
    | inr e ↦ rw e (lookup-insert_self nonce now s.nonces, refl)
  ]

  cleanup-expiry :
      (now later : ℕ) (s : NonceStorage)
      → (nonce_maybe_cleanup tick now later s).expiry_seconds ≡ s.expiry_seconds
  unfolding nonce_maybe_cleanup
  cleanup-expiry now later s = ground arith

  -- A nonce that was accepted is refused, after any calls, until it is older than the expiry: as long
  -- as no cleanup reads a later time.
  pub check_and_store-replay :
      (nonce : String) (r : Readings) (xs : List NonceCall) (r' : Readings) (s : NonceStorage)
      → (check_and_store tick nonce r s).0 ≡ true
      → Within (r.stored_at + s.expiry_seconds * tick) xs
      → r'.cleaned_at ≤ r.stored_at + s.expiry_seconds * tick
      → (check_and_store tick nonce r' (calls tick xs (check_and_store tick nonce r s).1)).0 ≡ false
  unfolding check_and_store
  check_and_store-replay nonce r xs r' s h young young' =
      let cleaned = nonce_maybe_cleanup tick r.elapsed_at r.cleaned_at s in
      let known =
        subst (λ (e : ℕ). Knows nonce r.stored_at e (check_and_store tick nonce r s).1)
          (cleanup-expiry r.elapsed_at r.cleaned_at s)
          (accepted-Knows nonce r.stored_at cleaned h) in
      let after = calls-Knows nonce r.stored_at s.expiry_seconds xs _ known young in
      refused nonce r.stored_at s.expiry_seconds r'.stored_at _ (
        nonce_maybe_cleanup-Knows nonce r.stored_at s.expiry_seconds r'.elapsed_at r'.cleaned_at _
          after young')
