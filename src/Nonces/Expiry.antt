-- ===== src/Nonces/Expiry.antt =====
-- libraries/dbal/production/src/security/nonce: what a cleanup leaves of the nonces.
use dbal.Prelude.{
  ℕ, ◌+◌, ◌-◌, ◌*◌, ◌/◌, ◌≤◌, ◌<◌, ◌≡◌, refl, sym, ap, ◌∙◌, subst, String, true, false, none, some,
  List, [], ◌∷◌, leb, arith, str_eq, eq_iff, Bool-cases, inl, inr,
}
use dbal.Map.{Map, contains, lookup}
use dbal.Map.Order.{Above, IsOrdered, Above-weaken, Above-IsOrdered, insert-IsOrdered, lookup-Above}
use dbal.Nonces.{
  NonceStorage, nonce_store, nonce_check_and_store, is_expired, erase_expired, nonce_maybe_cleanup,
  Readings, check_and_store, NonceCall, check_call, cleanup_call, call, calls,
}

module _ (tick : ℕ) where
  erase_expired-Above :
      (k : String) (now expiry : ℕ) (m : Map ℕ)
      → Above k m
      → Above k (erase_expired tick now expiry m)
  unfolding erase_expired
  erase_expired-Above k now expiry [] h = h
  erase_expired-Above k now expiry ((j, t) ∷ m) h =
      elim (Bool-cases (is_expired tick now expiry t)) [
        | inl e ↦ rw e (Above-weaken k j _ h.0 (erase_expired-Above j now expiry m h.1))
        | inr e ↦ rw e (h.0, erase_expired-Above j now expiry m h.1)
      ]

  erase_expired-IsOrdered :
      (now expiry : ℕ) (m : Map ℕ) → IsOrdered m → IsOrdered (erase_expired tick now expiry m)
  unfolding erase_expired
  erase_expired-IsOrdered now expiry [] h = h
  erase_expired-IsOrdered now expiry ((j, t) ∷ m) h =
      elim (Bool-cases (is_expired tick now expiry t)) [
        | inl e ↦ rw e (Above-IsOrdered j _ (erase_expired-Above j now expiry m h))
        | inr e ↦ rw e (erase_expired-Above j now expiry m h)
      ]

  -- An expired nonce is gone after a cleanup.
  lookup-erase_expired_old :
      (nonce : String) (now expiry time : ℕ) (m : Map ℕ)
      → IsOrdered m
      → lookup nonce m ≡ some time
      → is_expired tick now expiry time ≡ true
      → lookup nonce (erase_expired tick now expiry m) ≡ none
  unfolding lookup erase_expired
  lookup-erase_expired_old nonce now expiry time [] o h old = refl
  lookup-erase_expired_old nonce now expiry time ((j, t) ∷ m) o h old =
      elim (Bool-cases (str_eq j nonce)) [
        | inl same ↦
            let is_time : t ≡ time = ground arith in
            let gone : is_expired tick now expiry t ≡ true =
              subst (λ (k : ℕ). is_expired tick now expiry k ≡ true) (sym is_time) old in
            rw gone (
              lookup-Above nonce _ (
                subst (λ (k : String). Above k (erase_expired tick now expiry m))
                  ((eq_iff j nonce).0 same) (erase_expired-Above j now expiry m o)))
        | inr other ↦
            let rest =
              lookup-erase_expired_old nonce now expiry time m (Above-IsOrdered j m o)
                (rw other at h) old in
            ground arith
      ]

  nonce_maybe_cleanup-IsOrdered :
      (now later : ℕ) (s : NonceStorage)
      → IsOrdered s.nonces
      → IsOrdered (nonce_maybe_cleanup tick now later s).nonces
  unfolding nonce_maybe_cleanup
  nonce_maybe_cleanup-IsOrdered now later s h =
      elim (Bool-cases (leb s.cleanup_interval_seconds ((now - s.last_cleanup) / tick))) [
        | inl e ↦ rw e (erase_expired-IsOrdered later s.expiry_seconds s.nonces h)
        | inr e ↦ rw e h
      ]

  nonce_check_and_store-IsOrdered :
      (nonce : String) (now : ℕ) (s : NonceStorage)
      → IsOrdered s.nonces
      → IsOrdered (nonce_check_and_store nonce now s).1.nonces
  unfolding nonce_check_and_store
  nonce_check_and_store-IsOrdered nonce now s h = elim (Bool-cases (contains nonce s.nonces)) [
    | inl e ↦ rw e h
    | inr e ↦ rw e (insert-IsOrdered nonce now s.nonces h)
  ]

  call-IsOrdered :
      (x : NonceCall) (s : NonceStorage) → IsOrdered s.nonces → IsOrdered (call tick x s).nonces
  unfolding call
  call-IsOrdered (check_call nonce r) s h =
      nonce_check_and_store-IsOrdered nonce r.stored_at _
        (nonce_maybe_cleanup-IsOrdered r.elapsed_at r.cleaned_at s h)
  call-IsOrdered (cleanup_call now) s h = erase_expired-IsOrdered now s.expiry_seconds s.nonces h

  calls-IsOrdered :
      (xs : List NonceCall) (s : NonceStorage)
      → IsOrdered s.nonces
      → IsOrdered (calls tick xs s).nonces
  unfolding calls
  calls-IsOrdered [] s h = h
  calls-IsOrdered (x ∷ xs) s h = calls-IsOrdered xs _ (call-IsOrdered x s h)

  cleaned :
      (now later : ℕ) (s : NonceStorage)
      → s.cleanup_interval_seconds ≤ (now - s.last_cleanup) / tick
      → (nonce_maybe_cleanup tick now later s).nonces
        ≡ erase_expired tick later s.expiry_seconds s.nonces
  unfolding nonce_maybe_cleanup
  cleaned now later s due =
      let e : leb s.cleanup_interval_seconds ((now - s.last_cleanup) / tick) ≡ true =
        ground arith in
      rw e refl

  unknown :
      (nonce : String) (now : ℕ) (s : NonceStorage)
      → lookup nonce s.nonces ≡ none
      → (nonce_check_and_store nonce now s).0 ≡ true
  unfolding nonce_check_and_store contains
  unknown nonce now s h =
      let e : contains nonce s.nonces ≡ false = rw (h, contains) refl in rw e refl

  accepted :
      (nonce : String) (time : ℕ) (r : Readings) (s : NonceStorage)
      → IsOrdered s.nonces
      → lookup nonce s.nonces ≡ some time
      → time + s.expiry_seconds * tick < r.cleaned_at
      → s.cleanup_interval_seconds ≤ (r.elapsed_at - s.last_cleanup) / tick
      → (check_and_store tick nonce r s).0 ≡ true
  unfolding check_and_store
  accepted nonce time r s o h old due =
      let expired : is_expired tick r.cleaned_at s.expiry_seconds time ≡ true = ground arith in
      unknown nonce r.stored_at _ (
        ap (lookup nonce) (cleaned r.elapsed_at r.cleaned_at s due)
        ∙ lookup-erase_expired_old nonce r.cleaned_at s.expiry_seconds time s.nonces o h expired)

  -- In a store after any calls, a nonce that has expired is accepted once more, if a cleanup is due.
  pub check_and_store-again :
      (expiry interval : ℕ) (xs : List NonceCall) (nonce : String) (time : ℕ) (r : Readings)
      → lookup nonce (calls tick xs (nonce_store expiry interval)).nonces ≡ some time
      → time + (calls tick xs (nonce_store expiry interval)).expiry_seconds * tick < r.cleaned_at
      → (calls tick xs (nonce_store expiry interval)).cleanup_interval_seconds
        ≤ (r.elapsed_at - (calls tick xs (nonce_store expiry interval)).last_cleanup) / tick
      → (check_and_store tick nonce r (calls tick xs (nonce_store expiry interval))).0 ≡ true
  unfolding check_and_store
  check_and_store-again expiry interval xs nonce time r h old due =
      accepted nonce time r (calls tick xs (nonce_store expiry interval))
        (calls-IsOrdered xs (nonce_store expiry interval) tt) h old due
