-- ===== src/System/Invariant.antt =====
-- The consistency of the whole store under the calls of
-- libraries/dbal/production/src/client_page_component_ops.cpp and client_misc_ops.cpp.
use dbal.Prelude.{ℕ, suc, ◌+◌, ◌<◌, List, [], ◌∷◌, length, arith}
use dbal.Map.{lookup}
use dbal.Result.{Leaves, leaves_rules}
use dbal.Store.{InMemoryStore, init}
use dbal.Store.Ids.{int_end}
use dbal.Session
use dbal.Workflow
use dbal.Page
use dbal.Package
use dbal.System.{
  Call, step, run, create_session, update_session, delete_session, get_session, list_sessions,
  create_workflow, update_workflow, delete_workflow, create_page, update_page, delete_page,
  create_package, update_package, delete_package, batch_create_packages, batch_update_packages,
  batch_delete_packages,
}

-- The sessions, workflows, pages and packages are consistent with their ids and indexes.
pub record IsValid (s : InMemoryStore) : Type 0 where
  pub sessions : Session.Invariant.IsValid s
  pub workflows : Workflow.Invariant.IsValid s
  pub pages : Page.Invariant.IsValid s
  pub packages : Package.Invariant.IsValid s

-- The counters can make `n` more ids.
abbrev pub HasRoom : ℕ → InMemoryStore → Type 0
HasRoom n s =
    (s.session_counter + n < int_end)
    × (s.workflow_counter + n < int_end)
    × (s.page_counter + n < int_end)

abbrev NotSessions : InMemoryStore → Type 0
NotSessions t =
    Workflow.Invariant.IsValid t × Page.Invariant.IsValid t × Package.Invariant.IsValid t

abbrev NotWorkflows : InMemoryStore → Type 0
NotWorkflows t =
    Session.Invariant.IsValid t × Page.Invariant.IsValid t × Package.Invariant.IsValid t

abbrev NotPages : InMemoryStore → Type 0
NotPages t =
    Session.Invariant.IsValid t × Workflow.Invariant.IsValid t × Package.Invariant.IsValid t

abbrev NotPackages : InMemoryStore → Type 0
NotPackages t =
    Session.Invariant.IsValid t × Workflow.Invariant.IsValid t × Page.Invariant.IsValid t

of_session : {t : InMemoryStore} → Session.Invariant.IsValid t → NotSessions t → IsValid t
of_session a h = record { sessions = a; workflows = h.0; pages = h.1; packages = h.2 }

of_workflow : {t : InMemoryStore} → Workflow.Invariant.IsValid t → NotWorkflows t → IsValid t
of_workflow a h = record { sessions = h.0; workflows = a; pages = h.1; packages = h.2 }

of_page : {t : InMemoryStore} → Page.Invariant.IsValid t → NotPages t → IsValid t
of_page a h = record { sessions = h.0; workflows = h.1; pages = a; packages = h.2 }

of_package : {t : InMemoryStore} → Package.Invariant.IsValid t → NotPackages t → IsValid t
of_package a h = record { sessions = h.0; workflows = h.1; pages = h.2; packages = a }

pub step-IsValid : (s : InMemoryStore) (c : Call) → HasRoom 1 s → IsValid s → IsValid (step s c)
unfolding step Package.batch_create Package.batch_update Package.batch_delete
step-IsValid s (create_session now input) room v =
    of_session (Session.Invariant.create-IsValid now s input v.sessions (omega arith)).left
      (Session.Frame.create-keeps NotSessions (λ _ _ _ x. x) (λ _ x. x) now s input
        (v.workflows, v.pages, v.packages)).left
step-IsValid s (update_session id input) room v =
    of_session (Session.Invariant.update-IsValid s id input v.sessions).left
      (Session.Frame.update-keeps NotSessions (λ _ _ _ x. x) s id input
        (v.workflows, v.pages, v.packages)).left
step-IsValid s (delete_session id) room v =
    of_session (Session.Invariant.remove-IsValid s id v.sessions).left
      (Session.Frame.remove-keeps NotSessions (λ _ _ _ x. x) s id
        (v.workflows, v.pages, v.packages)).left
step-IsValid s (get_session now id) room v =
    of_session (Session.Invariant.get-IsValid now s id v.sessions).left
      (Session.Frame.get-keeps NotSessions (λ _ _ _ x. x) now s id
        (v.workflows, v.pages, v.packages)).left
step-IsValid s (list_sessions now options) room v =
    of_session (Session.Invariant.list-IsValid now s options v.sessions) (
      Session.Frame.list-keeps NotSessions (λ _ _ _ x. x) now s options
        (v.workflows, v.pages, v.packages))
step-IsValid s (create_workflow now input) room v =
    of_workflow (Workflow.Invariant.create-IsValid now s input v.workflows (omega arith)).left
      (Workflow.Frame.create-keeps NotWorkflows (λ _ _ _ x. x) (λ _ x. x) now s input
        (v.sessions, v.pages, v.packages)).left
step-IsValid s (update_workflow id input) room v =
    of_workflow (Workflow.Invariant.update-IsValid s id input v.workflows).left
      (Workflow.Frame.update-keeps NotWorkflows (λ _ _ _ x. x) s id input
        (v.sessions, v.pages, v.packages)).left
step-IsValid s (delete_workflow id) room v =
    of_workflow (Workflow.Invariant.remove-IsValid s id v.workflows).left
      (Workflow.Frame.remove-keeps NotWorkflows (λ _ _ _ x. x) s id
        (v.sessions, v.pages, v.packages)).left
step-IsValid s (create_page now input) room v =
    of_page (Page.Invariant.create-IsValid now s input v.pages (omega arith)).left
      (Page.Frame.create-keeps NotPages (λ _ _ _ x. x) (λ _ x. x) now s input
        (v.sessions, v.workflows, v.packages)).left
step-IsValid s (update_page id input) room v =
    of_page (Page.Invariant.update-IsValid s id input v.pages).left
      (Page.Frame.update-keeps NotPages (λ _ _ _ x. x) s id input
        (v.sessions, v.workflows, v.packages)).left
step-IsValid s (delete_page id) room v =
    of_page (Page.Invariant.remove-IsValid s id v.pages).left
      (Page.Frame.remove-keeps NotPages (λ _ _ _ x. x) s id
        (v.sessions, v.workflows, v.packages)).left
step-IsValid s (create_package now input) room v =
    of_package (Package.Invariant.create-IsValid now s input v.packages).left
      (Package.Frame.create-keeps NotPackages (λ _ _ _ x. x) now s input
        (v.sessions, v.workflows, v.pages)).left
step-IsValid s (update_package id input) room v =
    of_package (Package.Invariant.update-IsValid s id input v.packages).left
      (Package.Frame.update-keeps NotPackages (λ _ _ _ x. x) s id input
        (v.sessions, v.workflows, v.pages)).left
step-IsValid s (delete_package id) room v =
    of_package (Package.Invariant.remove-IsValid s id v.packages).left
      (Package.Frame.remove-keeps NotPackages (λ _ _ _ x. x) s id
        (v.sessions, v.workflows, v.pages)).left
step-IsValid s (batch_create_packages inputs) room v =
    of_package
      (Package.Frame.create_each_induction Package.Invariant.create-IsValid
        (Package.Frame.undo_induction Package.Invariant.undo_one-IsValid) inputs [] s
        v.packages).left
      (Package.Frame.create_each_induction (Package.Frame.create-keeps NotPackages (λ _ _ _ x. x))
        (Package.Frame.undo-keeps NotPackages (λ _ _ _ x. x)) inputs [] s
        (v.sessions, v.workflows, v.pages)).left
step-IsValid s (batch_update_packages items) room v =
    of_package
      (Package.Frame.update_each_induction Package.Invariant.update-IsValid items 0 s
        v.packages).left
      (Package.Frame.update_each_induction (Package.Frame.update-keeps NotPackages (λ _ _ _ x. x))
        items 0 s (v.sessions, v.workflows, v.pages)).left
step-IsValid s (batch_delete_packages ids) room v =
    of_package
      (Package.Frame.remove_each_induction Package.Invariant.remove-IsValid ids 0 s v.packages).left
      (Package.Frame.remove_each_induction (Package.Frame.remove-keeps NotPackages (λ _ _ _ x. x))
        ids 0 s (v.sessions, v.workflows, v.pages)).left

-- A call uses one value of a counter at most.
step-HasRoom : (n : ℕ) (s : InMemoryStore) (c : Call) → HasRoom (suc n) s → HasRoom n (step s c)
unfolding step Package.batch_create Package.batch_update Package.batch_delete Session.create
    Workflow.create Page.create
step-HasRoom n s (create_session now input) h =
    let same : HasRoom n s = omega arith in
    let counted : HasRoom n (Session.count_session s) = omega arith in
    let r : Leaves (HasRoom n) (Session.create now s input) =
      search (leaves_rules, same, counted) depth 12 in
    r.left
step-HasRoom n s (update_session id input) h =
    (Session.Frame.update-keeps (HasRoom n) (λ _ _ _ x. x) s id input (omega arith)).left
step-HasRoom n s (delete_session id) h =
    (Session.Frame.remove-keeps (HasRoom n) (λ _ _ _ x. x) s id (omega arith)).left
step-HasRoom n s (get_session now id) h =
    (Session.Frame.get-keeps (HasRoom n) (λ _ _ _ x. x) now s id (omega arith)).left
step-HasRoom n s (list_sessions now options) h =
    Session.Frame.list-keeps (HasRoom n) (λ _ _ _ x. x) now s options (omega arith)
step-HasRoom n s (create_workflow now input) h =
    let same : HasRoom n s = omega arith in
    let counted : HasRoom n (Workflow.count_workflow s) = omega arith in
    let r : Leaves (HasRoom n) (Workflow.create now s input) =
      search (leaves_rules, same, counted) depth 12 in
    r.left
step-HasRoom n s (update_workflow id input) h =
    (Workflow.Frame.update-keeps (HasRoom n) (λ _ _ _ x. x) s id input (omega arith)).left
step-HasRoom n s (delete_workflow id) h =
    (Workflow.Frame.remove-keeps (HasRoom n) (λ _ _ _ x. x) s id (omega arith)).left
step-HasRoom n s (create_page now input) h =
    let same : HasRoom n s = omega arith in
    let counted : HasRoom n (Page.count_page s) = omega arith in
    let r : Leaves (HasRoom n) (Page.create now s input) =
      search (leaves_rules, same, counted) depth 12 in
    r.left
step-HasRoom n s (update_page id input) h =
    (Page.Frame.update-keeps (HasRoom n) (λ _ _ _ x. x) s id input (omega arith)).left
step-HasRoom n s (delete_page id) h =
    (Page.Frame.remove-keeps (HasRoom n) (λ _ _ _ x. x) s id (omega arith)).left
step-HasRoom n s (create_package now input) h =
    (Package.Frame.create-keeps (HasRoom n) (λ _ _ _ x. x) now s input (omega arith)).left
step-HasRoom n s (update_package id input) h =
    (Package.Frame.update-keeps (HasRoom n) (λ _ _ _ x. x) s id input (omega arith)).left
step-HasRoom n s (delete_package id) h =
    (Package.Frame.remove-keeps (HasRoom n) (λ _ _ _ x. x) s id (omega arith)).left
step-HasRoom n s (batch_create_packages inputs) h =
    (Package.Frame.create_each_induction {P = HasRoom n}
      (Package.Frame.create-keeps (HasRoom n) (λ _ _ _ x. x))
      (Package.Frame.undo-keeps (HasRoom n) (λ _ _ _ x. x)) inputs [] s (omega arith)).left
step-HasRoom n s (batch_update_packages items) h =
    (Package.Frame.update_each_induction {P = HasRoom n}
      (Package.Frame.update-keeps (HasRoom n) (λ _ _ _ x. x)) items 0 s (omega arith)).left
step-HasRoom n s (batch_delete_packages ids) h =
    (Package.Frame.remove_each_induction {P = HasRoom n}
      (Package.Frame.remove-keeps (HasRoom n) (λ _ _ _ x. x)) ids 0 s (omega arith)).left

-- A consistent store stays consistent under any calls on sessions, workflows, pages and packages, in
-- any order, successful or not, while the counters do not leave `int`.
pub run-IsValid :
    (s : InMemoryStore) (cs : List Call)
    → HasRoom (suc (length cs)) s
    → IsValid s
    → IsValid (run s cs)
unfolding run
run-IsValid s [] room v = v
run-IsValid s (c ∷ cs) room v =
    run-IsValid (step s c) cs (step-HasRoom (suc (length cs)) s c room)
      (step-IsValid s c (omega arith) v)

pub init-IsValid : IsValid init
unfolding lookup
init-IsValid = record {
  sessions = record {
    index = record { forward = λ i e p. cc; backward = λ k i p. cc };
    ids = record { numbered = λ i e p. cc };
    ordered = tt;
  };
  workflows = record {
    index = record { forward = λ i e p. cc; backward = λ k i p. cc };
    ids = record { numbered = λ i e p. cc };
    ordered = tt;
  };
  pages = record {
    index = record { forward = λ i e p. cc; backward = λ k i p. cc };
    ids = record { numbered = λ i e p. cc };
    ordered = tt;
  };
  packages = record {
    index = record { forward = λ i e p. cc; backward = λ k i p. cc };
    own = λ i e p. cc;
    ordered = tt;
    keys_ordered = tt;
  };
}
