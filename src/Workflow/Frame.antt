-- ===== src/Workflow/Frame.antt =====
-- What the operations of libraries/dbal/production/src/entities/workflow
-- write: a property that the writes of the workflows keep, the operations keep.
use dbal.Prelude.{String}
use dbal.Map.{Map}
use dbal.Result.{Leaves, leaves_rules}
use dbal.Types.{Timestamp, Workflow, CreateWorkflowInput, UpdateWorkflowInput}
use dbal.Store.{InMemoryStore}
use dbal.Workflow.{create, remove, update, update_name, update_rest, with_workflows, count_workflow}

module _ (P : InMemoryStore → Type 0)
    (write : (s : InMemoryStore) (m : Map Workflow) (ix : Map String)
      → P s
      → P (with_workflows s m ix)) where
  pub remove-keeps : (s : InMemoryStore) (id : String) → P s → Leaves P (remove s id)
  unfolding remove
  remove-keeps s id h = search (leaves_rules, write) depth 8

  update_name-keeps :
      (s : InMemoryStore) (id : String) (a : Workflow) (input : UpdateWorkflowInput)
      → P s
      → Leaves P (update_name s id a input)
  unfolding update_name update_rest
  update_name-keeps s id a input h = search (leaves_rules, write) depth 10

  pub update-keeps :
      (s : InMemoryStore) (id : String) (input : UpdateWorkflowInput)
      → P s
      → Leaves P (update s id input)
  unfolding update
  update-keeps s id input h = search (leaves_rules, update_name-keeps) depth 8

module _ (P : InMemoryStore → Type 0)
    (write : (s : InMemoryStore) (m : Map Workflow) (ix : Map String)
      → P s
      → P (with_workflows s m ix))
    (count : (s : InMemoryStore) → P s → P (count_workflow s)) where
  pub create-keeps :
      (now : Timestamp) (s : InMemoryStore) (input : CreateWorkflowInput)
      → P s
      → Leaves P (create now s input)
  unfolding create
  create-keeps now s input h = search (leaves_rules, write, count) depth 10
