-- ===== src/System/Rollback.antt =====
-- Transactions of libraries/dbal/production/src/store/in_memory_store.hpp around calls, and the users
-- of the store under calls.
use dbal.Prelude.{◌≡◌, refl, sym, ap, ◌∙◌, true, false, none, some, List}
use dbal.Store.{StoreData, InMemoryStore, begin_transaction, rollback_transaction}
use dbal.System.{Call, run}
use dbal.System.Frame.{run-keeps}

abbrev InTransaction : StoreData → InMemoryStore → Type 0
InTransaction saved s = (s.snapshot ≡ some saved) × (s.transaction_active ≡ true)

calls_keep_transaction :
    (saved : StoreData) (s : InMemoryStore) (cs : List Call)
    → InTransaction saved s
    → InTransaction saved (run s cs)
calls_keep_transaction saved s cs h =
    run-keeps (InTransaction saved) (λ _ _ _ x. x) (λ _ _ _ x. x) (λ _ _ _ x. x) (λ _ _ _ x. x)
      (λ _ x. x) (λ _ x. x) (λ _ x. x) s cs h

begin_idle :
    (s : InMemoryStore)
    → s.transaction_active ≡ false
    → begin_transaction s
      ≡ (true, record s { snapshot = some s.contents; transaction_active = true })
unfolding begin_transaction
begin_idle s idle = rw idle

rollback_active :
    (saved : StoreData) (t : InMemoryStore)
    → InTransaction saved t
    → rollback_transaction t
      ≡ (true, record { contents = saved; snapshot = none; transaction_active = false })
unfolding rollback_transaction
rollback_active saved t h = rw (h.1, h.0)

idle_store :
    (s : InMemoryStore)
    → s.transaction_active ≡ false
    → s.snapshot ≡ none
    → s ≡ record { contents = s.contents; snapshot = none; transaction_active = false }
idle_store s idle empty =
    λ i. record { contents = s.contents; snapshot = empty i; transaction_active = idle i }

-- From a store with no transaction open and no snapshot, a transaction that begins, makes any calls
-- on sessions, workflows, pages and packages, and rolls back ends in the store in which it began, the
-- counters and every map included.
pub rollback-run-begin :
    (s : InMemoryStore) (cs : List Call)
    → s.transaction_active ≡ false
    → s.snapshot ≡ none
    → rollback_transaction (run (begin_transaction s).1 cs) ≡ (true, s)
rollback-run-begin s cs idle empty = rw (begin_idle s idle) (
    rollback_active s.contents _ (calls_keep_transaction s.contents _ cs (refl, refl))
    ∙ ap (λ t. (true, t)) (sym (idle_store s idle empty)))
