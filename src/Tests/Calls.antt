-- ===== src/Tests/Calls.antt =====
-- The theorems on calls at concrete stores.
use dbal.Prelude.{◌≡◌, refl, false, true, none, some, List, [], ◌∷◌, arith}
use dbal.Map.{lookup, insert, contains}
use dbal.Result.{reject_if}
use dbal.Types.{CreatePackageInput, CreatePageInput, CreateWorkflowInput}
use dbal.Store.{begin_transaction, rollback_transaction}
use dbal.Store.Ids.{generate_id}
use dbal.Session
use dbal.Page
use dbal.Workflow
use dbal.Prelude.Int.{pos, ltb_ℤ}
use dbal.Validation.{is_valid_path, is_valid_workflow_name}
use dbal.System
use dbal.System.{
  Call, run, create_session, delete_session, create_package, create_page, create_workflow,
  batch_delete_packages,
}
use dbal.System.Invariant.{IsValid, init-IsValid, run-IsValid}
use dbal.System.Rollback.{rollback-run-begin}
use dbal.Tests.Values.{store_0, login, second_login}

abbrev forum : CreatePackageInput
forum = record {
  package_id = "forum";
  tenant_id = none;
  installed_at = none;
  version = "1.0.0";
  enabled = true;
}

abbrev calls : List Call
calls =
    create_session 5 login
    ∷ create_session 6 second_login
    ∷ create_package 7 forum
    ∷ delete_session "session_00000002"
    ∷ batch_delete_packages ("forum" ∷ "chat" ∷ [])
    ∷ []

all-IsValid_0 : IsValid store_0
all-IsValid_0 = record {
  sessions = init-IsValid.sessions;
  workflows = init-IsValid.workflows;
  pages = init-IsValid.pages;
  packages = init-IsValid.packages;
}

run-IsValid_example : IsValid (run store_0 calls)
run-IsValid_example = run-IsValid store_0 calls (omega arith) all-IsValid_0

rollback-run-begin_example :
    rollback_transaction (run (begin_transaction store_0).1 calls) ≡ (true, store_0)
rollback-run-begin_example = rollback-run-begin store_0 calls refl refl

-- One entity of each kind that has a unique field.
abbrev home : CreatePageInput
home = record {
  tenant_id = none;
  package_id = none;
  path = "/home";
  title = "Home";
  description = none;
  icon = none;
  component = none;
  level = pos 1;
  requires_auth = false;
  required_role = none;
  parent_path = none;
  sort_order = pos 0;
  is_published = true;
  params = none;
  meta = none;
}

abbrev flow : CreateWorkflowInput
flow = record {
  tenant_id = none;
  name = "mail";
  description = none;
  enabled = true;
  version = pos 1;
  created_at = none;
  updated_at = none;
  created_by = none;
}

abbrev three : List Call
three = create_session 5 login ∷ create_page 6 home ∷ create_workflow 7 flow ∷ []

session_there :
    lookup "session_00000001" (run store_0 three).sessions
    ≡ some (Session.new_session 5 store_0 login)
unfolding run System.step Session.create Page.create Workflow.create is_valid_path
    is_valid_workflow_name reject_if contains lookup insert generate_id ltb_ℤ
session_there = refl

page_there : lookup "page_00000001" (run store_0 three).pages ≡ some (Page.new_page 6 store_0 home)
unfolding run System.step Session.create Page.create Workflow.create is_valid_path
    is_valid_workflow_name reject_if contains lookup insert generate_id ltb_ℤ
page_there = refl

workflow_there :
    lookup "workflow_00000001" (run store_0 three).workflows
    ≡ some (Workflow.new_workflow 7 store_0 flow)
unfolding run System.step Session.create Page.create Workflow.create is_valid_path
    is_valid_workflow_name reject_if contains lookup insert generate_id ltb_ℤ
workflow_there = refl
