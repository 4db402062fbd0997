-- ===== src/System/Frame.antt =====
-- What the calls of the client write, from the writes of the operations in
-- libraries/dbal/production/src/entities.
use dbal.Prelude.{String, List, [], ◌∷◌}
use dbal.Map.{Map}
use dbal.Types.{Session, Workflow, PageConfig, InstalledPackage}
use dbal.Store.{InMemoryStore}
use dbal.Session
use dbal.Workflow
use dbal.Page
use dbal.Package
use dbal.System.{
  Call, step, run, create_session, update_session, delete_session, get_session, list_sessions,
  create_workflow, update_workflow, delete_workflow, create_page, update_page, delete_page,
  create_package, update_package, delete_package, batch_create_packages, batch_update_packages,
  batch_delete_packages,
}

-- What a call keeps if its writes do.
module _ (P : InMemoryStore → Type 0)
    (sessions : (s : InMemoryStore) (m : Map Session) (ix : Map String)
      → P s
      → P (Session.with_sessions s m ix))
    (workflows : (s : InMemoryStore) (m : Map Workflow) (ix : Map String)
      → P s
      → P (Workflow.with_workflows s m ix))
    (pages : (s : InMemoryStore) (m : Map PageConfig) (ix : Map String)
      → P s
      → P (Page.with_pages s m ix))
    (packages : (s : InMemoryStore) (m : Map InstalledPackage) (ix : Map String)
      → P s
      → P (Package.with_packages s m ix))
    (count_session : (s : InMemoryStore) → P s → P (Session.count_session s))
    (count_workflow : (s : InMemoryStore) → P s → P (Workflow.count_workflow s))
    (count_page : (s : InMemoryStore) → P s → P (Page.count_page s)) where
  pub step-keeps : (s : InMemoryStore) (c : Call) → P s → P (step s c)
  unfolding step Package.batch_create Package.batch_update Package.batch_delete
  step-keeps s (create_session now input) h =
      (Session.Frame.create-keeps P sessions count_session now s input h).left
  step-keeps s (update_session id input) h =
      (Session.Frame.update-keeps P sessions s id input h).left
  step-keeps s (delete_session id) h = (Session.Frame.remove-keeps P sessions s id h).left
  step-keeps s (get_session now id) h = (Session.Frame.get-keeps P sessions now s id h).left
  step-keeps s (list_sessions now options) h = Session.Frame.list-keeps P sessions now s options h
  step-keeps s (create_workflow now input) h =
      (Workflow.Frame.create-keeps P workflows count_workflow now s input h).left
  step-keeps s (update_workflow id input) h =
      (Workflow.Frame.update-keeps P workflows s id input h).left
  step-keeps s (delete_workflow id) h = (Workflow.Frame.remove-keeps P workflows s id h).left
  step-keeps s (create_page now input) h =
      (Page.Frame.create-keeps P pages count_page now s input h).left
  step-keeps s (update_page id input) h = (Page.Frame.update-keeps P pages s id input h).left
  step-keeps s (delete_page id) h = (Page.Frame.remove-keeps P pages s id h).left
  step-keeps s (create_package now input) h =
      (Package.Frame.create-keeps P packages now s input h).left
  step-keeps s (update_package id input) h =
      (Package.Frame.update-keeps P packages s id input h).left
  step-keeps s (delete_package id) h = (Package.Frame.remove-keeps P packages s id h).left
  step-keeps s (batch_create_packages inputs) h =
      (Package.Frame.create_each_induction (Package.Frame.create-keeps P packages)
        (Package.Frame.undo-keeps P packages) inputs [] s h).left
  step-keeps s (batch_update_packages items) h =
      (Package.Frame.update_each_induction (Package.Frame.update-keeps P packages) items 0 s h).left
  step-keeps s (batch_delete_packages ids) h =
      (Package.Frame.remove_each_induction (Package.Frame.remove-keeps P packages) ids 0 s h).left

  pub run-keeps : (s : InMemoryStore) (cs : List Call) → P s → P (run s cs)
  unfolding run
  run-keeps s [] h = h
  run-keeps s (c ∷ cs) h = run-keeps (step s c) cs (step-keeps s c h)
