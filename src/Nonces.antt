-- ===== src/Nonces.antt =====
-- libraries/dbal/production/src/security/nonce: the store of nonces against replayed requests. The
-- map has no order, and nothing reads one: it is a map in the order of its keys here.
pub mod Replay
pub mod Expiry
use dbal.Prelude.{
  ℕ, ◌+◌, ◌-◌, ◌*◌, ◌/◌, String, Bool, true, false, Option, none, some, List, [], ◌∷◌, ltb, leb,
  length, if◌then◌else◌,
}
use dbal.Map.{Map, contains, insert}

pub record NonceStorage : Type 0 where
  pub nonces : Map ℕ
  pub last_cleanup : ℕ
  pub expiry_seconds : ℕ
  pub cleanup_interval_seconds : ℕ

-- The constructor of NonceStore.
abbrev pub nonce_store : ℕ → ℕ → NonceStorage
nonce_store expiry interval = record {
  nonces = [];
  last_cleanup = 0;
  expiry_seconds = expiry;
  cleanup_interval_seconds = interval;
}

unfoldable pub nonce_check_and_store : String → ℕ → NonceStorage → Bool × NonceStorage
nonce_check_and_store nonce now storage =
    if contains nonce storage.nonces
    then (false, storage)
    else (true, record storage { nonces = insert nonce now storage.nonces })

unfoldable pub nonce_size : NonceStorage → ℕ
nonce_size storage = length storage.nonces

-- The three readings of the clock under the lock.
pub record Readings : Type 0 where
  pub elapsed_at : ℕ
  pub cleaned_at : ℕ
  pub stored_at : ℕ

-- The calls that change a store, which its mutex puts in an order.
pub data NonceCall : Type 0 where
  check_call : String → Readings → NonceCall
  cleanup_call : ℕ → NonceCall

-- The steady clock counts `tick` ticks in a second, and does not go back.
module _ (tick : ℕ) where
  -- The entry is older than the cutoff, `now - seconds(expiry)`.
  abbrev pub is_expired : ℕ → ℕ → ℕ → Bool
  is_expired now expiry time = ltb (time + expiry * tick) now

  unfoldable pub erase_expired : ℕ → ℕ → Map ℕ → Map ℕ
  erase_expired now expiry [] = []
  erase_expired now expiry ((nonce, time) ∷ m) =
      let rest = erase_expired now expiry m in
      if is_expired now expiry time then rest else (nonce, time) ∷ rest

  unfoldable pub nonce_cleanup : ℕ → NonceStorage → NonceStorage
  unfolding erase_expired
  nonce_cleanup now storage = record storage {
    nonces = erase_expired now storage.expiry_seconds storage.nonces;
    last_cleanup = now;
  }

  -- `now` is the reading of this function, and `later` that of the cleanup.
  unfoldable pub nonce_maybe_cleanup : ℕ → ℕ → NonceStorage → NonceStorage
  unfolding nonce_cleanup
  nonce_maybe_cleanup now later storage =
      if leb storage.cleanup_interval_seconds ((now - storage.last_cleanup) / tick)
      then nonce_cleanup later storage
      else storage

  unfoldable pub check_and_store : String → Readings → NonceStorage → Bool × NonceStorage
  unfolding nonce_maybe_cleanup nonce_check_and_store
  check_and_store nonce t storage =
      nonce_check_and_store nonce t.stored_at
        (nonce_maybe_cleanup t.elapsed_at t.cleaned_at storage)

  unfoldable pub call : NonceCall → NonceStorage → NonceStorage
  unfolding check_and_store nonce_cleanup
  call (check_call nonce t) storage = (check_and_store nonce t storage).1
  call (cleanup_call now) storage = nonce_cleanup now storage

  unfoldable pub calls : List NonceCall → NonceStorage → NonceStorage
  calls [] storage = storage
  calls (x ∷ xs) storage = calls xs (call x storage)
