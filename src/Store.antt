-- ===== src/Store.antt =====
-- libraries/dbal/production/src/store/in_memory_store.hpp: the process-wide store, and its
-- transactions by a snapshot of the whole store.
pub mod Ids
pub mod Index
pub mod Table
use dbal.Prelude.{ℕ, String, Bool, true, false, Option, none, some, List, []}
use dbal.Map.{Map}
use dbal.Types.{User, Session, PageConfig, Workflow, InstalledPackage, Credential, ComponentNode}

-- What `copyTo` copies.
pub record StoreData : Type 0 where
  pub users : Map User
  pub pages : Map PageConfig
  pub workflows : Map Workflow
  pub sessions : Map Session
  pub packages : Map InstalledPackage
  pub credentials : Map Credential
  pub page_paths : Map String
  pub workflow_names : Map String
  pub session_tokens : Map String
  pub package_keys : Map String
  pub user_counter : ℕ
  pub page_counter : ℕ
  pub workflow_counter : ℕ
  pub session_counter : ℕ
  pub package_counter : ℕ
  pub credential_counter : ℕ
  pub components : Map ComponentNode
  pub components_by_page : Map (List String)
  pub components_by_parent : Map (List String)
  pub component_counter : ℕ

pub record InMemoryStore : Type 0 where
  pub contents : StoreData
  pub open contents use *
  pub snapshot : Option StoreData
  pub transaction_active : Bool

abbrev pub empty_data : StoreData
empty_data = record {
  users = [];
  pages = [];
  workflows = [];
  sessions = [];
  packages = [];
  credentials = [];
  page_paths = [];
  workflow_names = [];
  session_tokens = [];
  package_keys = [];
  user_counter = 0;
  page_counter = 0;
  workflow_counter = 0;
  session_counter = 0;
  package_counter = 0;
  credential_counter = 0;
  components = [];
  components_by_page = [];
  components_by_parent = [];
  component_counter = 0;
}

-- The store of a fresh process.
abbrev pub init : InMemoryStore
init = record { contents = empty_data; snapshot = none; transaction_active = false }

-- `clear` resets the data; the snapshot and its flag stay.
unfoldable pub clear : InMemoryStore → InMemoryStore
clear s = record s { contents = empty_data }

unfoldable pub begin_transaction : InMemoryStore → Bool × InMemoryStore
begin_transaction s = elim s.transaction_active [
  | true ↦ (false, s)
  | false ↦ (true, record s { snapshot = some s.contents; transaction_active = true })
]

unfoldable pub commit_transaction : InMemoryStore → Bool × InMemoryStore
commit_transaction s = elim s.transaction_active [
  | true ↦ (true, record s { snapshot = none; transaction_active = false })
  | false ↦ (false, s)
]

unfoldable pub rollback_transaction : InMemoryStore → Bool × InMemoryStore
rollback_transaction s = elim s.transaction_active [
  | true ↦ elim s.snapshot [
    | none ↦ (false, s)
    | some saved ↦
        (true, record s { contents = saved; snapshot = none; transaction_active = false })
  ]
  | false ↦ (false, s)
]

unfoldable pub is_transaction_active : InMemoryStore → Bool
is_transaction_active s = s.transaction_active
