-- ===== src/System.antt =====
-- Calls of the in-memory client API in any order
-- (libraries/dbal/production/src/client_page_component_ops.cpp and client_misc_ops.cpp pass each of
-- them on to the process-wide store).
pub mod Frame
pub mod Invariant
pub mod Rollback
pub mod Unique
use dbal.Prelude.{ℕ, suc, ◌<◌, String, List, [], ◌∷◌}
use dbal.Types.{
  Timestamp, CreateSessionInput, UpdateSessionInput, CreateWorkflowInput, UpdateWorkflowInput,
  CreatePageInput, UpdatePageInput, CreatePackageInput, UpdatePackageInput, UpdatePackageBatchItem,
  ListOptions,
}
use dbal.Store.{InMemoryStore}
use dbal.Session
use dbal.Workflow
use dbal.Page
use dbal.Package

-- The calls on sessions, workflows, pages and packages that can change the store, each with the
-- reading of the clock where it takes one.
pub data Call : Type 0 where
  create_session : Timestamp → CreateSessionInput → Call
  update_session : String → UpdateSessionInput → Call
  delete_session : String → Call
  get_session : Timestamp → String → Call
  list_sessions : Timestamp → ListOptions → Call
  create_workflow : Timestamp → CreateWorkflowInput → Call
  update_workflow : String → UpdateWorkflowInput → Call
  delete_workflow : String → Call
  create_page : Timestamp → CreatePageInput → Call
  update_page : String → UpdatePageInput → Call
  delete_page : String → Call
  create_package : Timestamp → CreatePackageInput → Call
  update_package : String → UpdatePackageInput → Call
  delete_package : String → Call
  batch_create_packages : List (Timestamp × CreatePackageInput) → Call
  batch_update_packages : List UpdatePackageBatchItem → Call
  batch_delete_packages : List String → Call

-- The store that a call leaves, whatever it returns.
unfoldable pub step : InMemoryStore → Call → InMemoryStore
step s (create_session now input) = (Session.create now s input).1
step s (update_session id input) = (Session.update s id input).1
step s (delete_session id) = (Session.remove s id).1
step s (get_session now id) = (Session.get now s id).1
step s (list_sessions now options) = (Session.list now s options).1
step s (create_workflow now input) = (Workflow.create now s input).1
step s (update_workflow id input) = (Workflow.update s id input).1
step s (delete_workflow id) = (Workflow.remove s id).1
step s (create_page now input) = (Page.create now s input).1
step s (update_page id input) = (Page.update s id input).1
step s (delete_page id) = (Page.remove s id).1
step s (create_package now input) = (Package.create now s input).1
step s (update_package id input) = (Package.update s id input).1
step s (delete_package id) = (Package.remove s id).1
step s (batch_create_packages inputs) = (Package.batch_create s inputs).1
step s (batch_update_packages items) = (Package.batch_update s items).1
step s (batch_delete_packages ids) = (Package.batch_delete s ids).1

unfoldable pub run : InMemoryStore → List Call → InMemoryStore
run s [] = s
run s (c ∷ cs) = run (step s c) cs
