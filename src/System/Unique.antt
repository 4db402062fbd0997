-- ===== src/System/Unique.antt =====
-- The unique fields of the entities (paths, names, tokens) after calls of the client.
use dbal.Prelude.{String, suc, ◌≡◌, some, List, length}
use dbal.Map.{lookup}
use dbal.Types.{Session, PageConfig, Workflow}
use dbal.Store.{InMemoryStore}
use dbal.System.{Call, run}
use dbal.System.Invariant.{IsValid, HasRoom, run-IsValid}

module _ (s : InMemoryStore) (cs : List Call) (room : HasRoom (suc (length cs)) s) (v : IsValid s)
    (i j : String) where
  -- From a consistent store, after any calls that leave the counters within `int`, no two sessions
  -- have one token.
  pub run-unique_token :
      (a b : Session)
      → lookup i (run s cs).sessions ≡ some a
      → lookup j (run s cs).sessions ≡ some b
      → a.token ≡ b.token
      → i ≡ j
  run-unique_token a b p q e =
      let w = (run-IsValid s cs room v).sessions in
      cc (w.index.forward i a p, w.index.forward j b q, e)

  -- From a consistent store, after any calls that leave the counters within `int`, no two pages have
  -- one path.
  pub run-unique_path :
      (a b : PageConfig)
      → lookup i (run s cs).pages ≡ some a
      → lookup j (run s cs).pages ≡ some b
      → a.path ≡ b.path
      → i ≡ j
  run-unique_path a b p q e =
      let w = (run-IsValid s cs room v).pages in
      cc (w.index.forward i a p, w.index.forward j b q, e)

  -- From a consistent store, after any calls that leave the counters within `int`, no two workflows
  -- have one name.
  pub run-unique_name :
      (a b : Workflow)
      → lookup i (run s cs).workflows ≡ some a
      → lookup j (run s cs).workflows ≡ some b
      → a.name ≡ b.name
      → i ≡ j
  run-unique_name a b p q e =
      let w = (run-IsValid s cs room v).workflows in
      cc (w.index.forward i a p, w.index.forward j b q, e)
