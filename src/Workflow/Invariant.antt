-- ===== src/Workflow/Invariant.antt =====
-- The consistency of the workflows, their ids and their index by name under the operations of
-- libraries/dbal/production/src/entities/workflow.
use dbal.Prelude.{suc, ◌<◌, String, ◌≡◌, refl, some}
use dbal.Map.{lookup, not-contains, lookup-insert_self}
use dbal.Result.{Leaves, leaves, Leaves-reject_if, Leaves-find_or, Leaves-when_set}
use dbal.Types.{Timestamp, Workflow, CreateWorkflowInput, UpdateWorkflowInput}
use dbal.Store.{InMemoryStore}
use dbal.Store.Ids.{fits_buffer, int_end}
use dbal.Store.Table.{IsTable, IsTable-insert, IsTable-erase, IsTable-replace, IsTable-rekey}
use dbal.Workflow.{create, remove, update, update_name, update_rest, new_workflow, set_rest}

abbrev pub name_of : Workflow → String
name_of w = w.name

abbrev pub id_of : Workflow → String
id_of w = w.id

abbrev pub IsValid : InMemoryStore → Type 0
IsValid s = IsTable "workflow" name_of id_of s.workflow_counter s.workflows s.workflow_names

pub create-IsValid :
    (now : Timestamp) (s : InMemoryStore) (input : CreateWorkflowInput)
    → IsValid s
    → suc s.workflow_counter < int_end
    → Leaves IsValid (create now s input)
unfolding create
create-IsValid now s input v small = Leaves-reject_if _ _ _ _ v λ _.
    Leaves-reject_if _ _ _ _ v λ free. leaves _ _ (
      IsTable-insert "workflow" name_of id_of v (new_workflow now s input)
        (unfold fits_buffer in refl) small refl (not-contains _ _ free))

pub remove-IsValid : (s : InMemoryStore) (id : String) → IsValid s → Leaves IsValid (remove s id)
unfolding remove
remove-IsValid s id v = Leaves-reject_if _ _ _ _ v λ _.
    Leaves-find_or _ _ _ _ v λ w e. leaves _ _ (IsTable-erase "workflow" name_of id_of v id w e)

update_name-IsValid :
    (s : InMemoryStore) (id : String) (a : Workflow) (input : UpdateWorkflowInput)
    → IsValid s
    → lookup id s.workflows ≡ some a
    → Leaves IsValid (update_name s id a input)
unfolding update_name update_rest
update_name-IsValid s id a input v held =
    Leaves-when_set _ _ _
      (leaves _ _
        (IsTable-replace "workflow" name_of id_of v id a (set_rest input a) held refl refl))
      λ name _. Leaves-reject_if _ _ _ _ v λ _. Leaves-reject_if _ _ _ _ v λ free.
        let b : Workflow = record a { name = name } in
        leaves _ _ (
          IsTable-replace "workflow" name_of id_of
            (IsTable-rekey "workflow" name_of id_of v id a b held refl free) id b (set_rest input b)
            (lookup-insert_self id b s.workflows) refl refl)

pub update-IsValid :
    (s : InMemoryStore) (id : String) (input : UpdateWorkflowInput)
    → IsValid s
    → Leaves IsValid (update s id input)
unfolding update
update-IsValid s id input v =
    Leaves-reject_if _ _ _ _ v
      λ _. Leaves-find_or _ _ _ _ v (λ a e. update_name-IsValid s id a input v e)
