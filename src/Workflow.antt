-- ===== src/Workflow.antt =====
-- libraries/dbal/production/src/entities/workflow: workflows of the in-memory store, with a unique
-- index by name. `now` is the reading of the system clock.
pub mod Invariant
pub mod Frame
use dbal.Prelude.{
  suc, String, ◌<>◌, Bool, true, not, ◌&&◌, Option, none, some, List, is_empty, value_or, or_else,
  ltb, if◌then◌else◌,
}
use dbal.Map.{Map, lookup, insert, erase, contains, values, taken, str_lt}
use dbal.Result.{Result, ok, validation_error, not_found, conflict, reject_if, find_or, when_set}
use dbal.Types.{Timestamp, Workflow, CreateWorkflowInput, UpdateWorkflowInput, ListOptions}
use dbal.Store.{InMemoryStore}
use dbal.Store.Ids.{generate_id}
use dbal.Validation.{is_valid_workflow_name}
use dbal.Listing.{Outcome, sort_by, paginate, filter_list, matches_optional, matches_flag}

abbrev pub with_workflows : InMemoryStore → Map Workflow → Map String → InMemoryStore
with_workflows s workflows names = record s {
  contents = record s.contents { workflows = workflows; workflow_names = names };
}

abbrev pub count_workflow : InMemoryStore → InMemoryStore
count_workflow s = record s {
  contents = record s.contents { workflow_counter = suc s.workflow_counter };
}

abbrev pub new_workflow : Timestamp → InMemoryStore → CreateWorkflowInput → Workflow
new_workflow now s input = record {
  id = generate_id "workflow" (suc s.workflow_counter);
  tenant_id = input.tenant_id;
  name = input.name;
  description = input.description;
  enabled = input.enabled;
  version = input.version;
  created_at = some (value_or input.created_at now);
  updated_at = input.updated_at;
  created_by = input.created_by;
}

unfoldable pub create :
    Timestamp → InMemoryStore → CreateWorkflowInput → Result Workflow × InMemoryStore
create now store input =
    reject_if (not (is_valid_workflow_name input.name))
      (validation_error "Workflow name must be 1-255 characters") store
      (reject_if (contains input.name store.workflow_names)
        (conflict ("Workflow name already exists: " <> input.name)) store
        (let workflow = new_workflow now store input in
          (
            ok workflow,
            with_workflows (count_workflow store) (insert workflow.id workflow store.workflows)
                (insert workflow.name workflow.id store.workflow_names),
          )))

unfoldable pub remove : InMemoryStore → String → Result Bool × InMemoryStore
remove store id = reject_if (is_empty id) (validation_error "Workflow ID cannot be empty") store (
    find_or (lookup id store.workflows) (not_found ("Workflow not found: " <> id)) store λ workflow.
      (
        ok true,
        with_workflows store (erase id store.workflows) (erase workflow.name store.workflow_names),
      ))

unfoldable pub get : InMemoryStore → String → Result Workflow × InMemoryStore
get store id = reject_if (is_empty id) (validation_error "Workflow ID cannot be empty") store (
    find_or (lookup id store.workflows) (not_found ("Workflow not found: " <> id)) store
      λ workflow. (ok workflow, store))

-- What `update` assigns to the reference `Workflow& workflow` is in the map at once.
abbrev pub put_workflow : InMemoryStore → String → Workflow → InMemoryStore
put_workflow store id workflow =
    with_workflows store (insert id workflow store.workflows) store.workflow_names

-- The fields after the name, which cannot fail.
abbrev pub set_rest : UpdateWorkflowInput → Workflow → Workflow
set_rest input workflow = record workflow {
  description = or_else input.description workflow.description;
  enabled = value_or input.enabled workflow.enabled;
  version = value_or input.version workflow.version;
  created_by = or_else input.created_by workflow.created_by;
  created_at = or_else input.created_at workflow.created_at;
  updated_at = or_else input.updated_at workflow.updated_at;
  tenant_id = or_else input.tenant_id workflow.tenant_id;
}

unfoldable pub update_rest :
    InMemoryStore → String → Workflow → UpdateWorkflowInput → Result Workflow × InMemoryStore
update_rest store id workflow input =
    let workflow' = set_rest input workflow in (ok workflow', put_workflow store id workflow')

abbrev pub rename : InMemoryStore → String → Workflow → String → InMemoryStore
rename store id workflow name =
    with_workflows store (insert id (record workflow { name = name }) store.workflows)
      (insert name id (erase workflow.name store.workflow_names))

unfoldable pub update_name :
    InMemoryStore → String → Workflow → UpdateWorkflowInput → Result Workflow × InMemoryStore
update_name store id workflow input =
    when_set input.name (update_rest store id workflow input) λ name.
      reject_if (not (is_valid_workflow_name name))
        (validation_error "Workflow name must be 1-255 characters") store
        (reject_if (taken (lookup name store.workflow_names) id)
          (conflict ("Workflow name already exists: " <> name)) store
          (update_rest (rename store id workflow name) id (record workflow { name = name }) input))

unfoldable pub update :
    InMemoryStore → String → UpdateWorkflowInput → Result Workflow × InMemoryStore
update store id input =
    reject_if (is_empty id) (validation_error "Workflow ID cannot be empty") store (
      find_or (lookup id store.workflows) (not_found ("Workflow not found: " <> id)) store
        λ workflow. update_name store id workflow input)

unfoldable pub workflow_matches : ListOptions → Workflow → Bool
workflow_matches options workflow =
    matches_flag options "enabled" workflow.enabled
    && matches_optional options "tenantId" workflow.tenant_id
    && matches_optional options "createdBy" workflow.created_by

unfoldable pub sort_workflows : ListOptions → List Workflow → List Workflow
sort_workflows options workflows =
    if contains "name" options.sort
    then sort_by (λ a b. str_lt a.name b.name) workflows
    else if contains "createdAt" options.sort
    then sort_by (λ a b. ltb (value_or a.created_at 0) (value_or b.created_at 0)) workflows
    else workflows

unfoldable pub list : InMemoryStore → ListOptions → Outcome (List Workflow)
list store options =
    paginate options.page options.limit
      (sort_workflows options (filter_list (workflow_matches options) (values store.workflows)))
