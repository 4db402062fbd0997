-- ===== src/Tests/Guards.antt =====
-- libraries/dbal/production/src/security/nonce: the theorems on small stores.
use dbal.Prelude.{ℕ, ◌≡◌, refl, true, false, List, [], ◌∷◌, arith}
use dbal.Map.{lookup, insert, contains}
use dbal.Nonces.{
  nonce_store, Readings, check_and_store, NonceCall, check_call, cleanup_call, calls, call,
  erase_expired,
}
use dbal.Nonces.Replay.{check_and_store-replay}
use dbal.Nonces.Expiry.{check_and_store-again}

-- A clock of ten ticks in a second.
abbrev at : ℕ → Readings
at t = record { elapsed_at = t; cleaned_at = t; stored_at = t }

abbrev history : List NonceCall
history = check_call "b" (at 1200) ∷ cleanup_call 1500 ∷ []

check_and_store-replay_example :
    (check_and_store 10 "a"
      (at 2000)
      (calls 10 history (check_and_store 10 "a" (at 1000) (nonce_store 300 60)).1)).0
    ≡ false
unfolding check_and_store contains lookup erase_expired
check_and_store-replay_example =
    check_and_store-replay 10 "a" (at 1000) history (at 2000) (nonce_store 300 60) refl
      (omega arith) (omega arith)

check_and_store-again_example :
    (check_and_store 10 "b" (at 9000) (calls 10 history (nonce_store 300 60))).0 ≡ true
unfolding calls call lookup insert contains erase_expired
check_and_store-again_example =
    check_and_store-again 10 300 60 history "b" 1200 (at 9000) refl (omega arith) (omega arith)
