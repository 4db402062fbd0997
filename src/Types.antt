-- ===== src/Types.antt =====
-- The entities of the in-memory store and the inputs of its operations
-- (libraries/dbal/production/include/dbal/core/types.hpp; the entity structs come from a generated
-- header, so they hold the fields that the operations of src/entities assign or read; those of a
-- credential are in libraries/dbal/shared/api/schema/entities/access/credential.json). The creation
-- time of a session and of a page is always set.
-- A `Timestamp` is the number of ticks since the epoch; `int` is `ℤ`.
use dbal.Prelude.{ℕ, String, Bool, Option}
use dbal.Prelude.Int.{ℤ}
use dbal.Map.{Map}

abbrev pub Timestamp : Type 0
Timestamp = ℕ

pub record User : Type 0 where
  pub id : String
  pub username : String
  pub first_login : Option Bool

pub record Credential : Type 0 where
  pub id : String
  pub password_hash : String
  pub salt : Option String
  pub tenant_id : Option String
  pub email : Option String

pub record Session : Type 0 where
  pub id : String
  pub user_id : String
  pub token : String
  pub expires_at : Timestamp
  pub created_at : Timestamp
  pub last_activity : Option Timestamp
  pub ip_address : Option String
  pub user_agent : Option String

pub record CreateSessionInput : Type 0 where
  pub user_id : String
  pub token : String
  pub expires_at : Timestamp
  pub created_at : Option Timestamp
  pub last_activity : Option Timestamp
  pub ip_address : Option String
  pub user_agent : Option String

pub record UpdateSessionInput : Type 0 where
  pub user_id : Option String
  pub token : Option String
  pub expires_at : Option Timestamp
  pub last_activity : Option Timestamp
  pub ip_address : Option String
  pub user_agent : Option String

pub record PageConfig : Type 0 where
  pub id : String
  pub tenant_id : Option String
  pub package_id : Option String
  pub path : String
  pub title : String
  pub description : Option String
  pub icon : Option String
  pub component : Option String
  pub level : ℤ
  pub requires_auth : Bool
  pub required_role : Option String
  pub parent_path : Option String
  pub sort_order : ℤ
  pub is_published : Bool
  pub params : Option String
  pub meta : Option String
  pub created_at : Timestamp

pub record CreatePageInput : Type 0 where
  pub tenant_id : Option String
  pub package_id : Option String
  pub path : String
  pub title : String
  pub description : Option String
  pub icon : Option String
  pub component : Option String
  pub level : ℤ
  pub requires_auth : Bool
  pub required_role : Option String
  pub parent_path : Option String
  pub sort_order : ℤ
  pub is_published : Bool
  pub params : Option String
  pub meta : Option String

pub record UpdatePageInput : Type 0 where
  pub tenant_id : Option String
  pub package_id : Option String
  pub path : Option String
  pub title : Option String
  pub description : Option String
  pub icon : Option String
  pub component : Option String
  pub level : Option ℤ
  pub requires_auth : Option Bool
  pub required_role : Option String
  pub parent_path : Option String
  pub sort_order : Option ℤ
  pub is_published : Option Bool
  pub params : Option String
  pub meta : Option String

pub record Workflow : Type 0 where
  pub id : String
  pub tenant_id : Option String
  pub name : String
  pub description : Option String
  pub enabled : Bool
  pub version : ℤ
  pub created_at : Option Timestamp
  pub updated_at : Option Timestamp
  pub created_by : Option String

pub record CreateWorkflowInput : Type 0 where
  pub tenant_id : Option String
  pub name : String
  pub description : Option String
  pub enabled : Bool
  pub version : ℤ
  pub created_at : Option Timestamp
  pub updated_at : Option Timestamp
  pub created_by : Option String

pub record UpdateWorkflowInput : Type 0 where
  pub tenant_id : Option String
  pub name : Option String
  pub description : Option String
  pub enabled : Option Bool
  pub version : Option ℤ
  pub created_at : Option Timestamp
  pub updated_at : Option Timestamp
  pub created_by : Option String

pub record InstalledPackage : Type 0 where
  pub package_id : String
  pub tenant_id : Option String
  pub installed_at : Timestamp
  pub version : String
  pub enabled : Bool

pub record CreatePackageInput : Type 0 where
  pub package_id : String
  pub tenant_id : Option String
  pub installed_at : Option Timestamp
  pub version : String
  pub enabled : Bool

pub record UpdatePackageInput : Type 0 where
  pub tenant_id : Option String
  pub installed_at : Option Timestamp
  pub version : Option String
  pub enabled : Option Bool

pub record UpdatePackageBatchItem : Type 0 where
  pub id : String
  pub changes : UpdatePackageInput

pub record ComponentNode : Type 0 where
  pub id : String
  pub page_id : String
  pub parent_id : Option String
  pub kind : String
  pub child_ids : String
  pub order : ℤ

pub record CreateComponentNodeInput : Type 0 where
  pub page_id : String
  pub parent_id : Option String
  pub kind : String
  pub child_ids : String
  pub order : ℤ

pub record UpdateComponentNodeInput : Type 0 where
  pub parent_id : Option String
  pub kind : Option String
  pub child_ids : Option String
  pub order : Option ℤ

pub record ComponentOrderUpdate : Type 0 where
  pub id : String
  pub order : ℤ

pub record MoveComponentInput : Type 0 where
  pub id : String
  pub new_parent_id : String
  pub order : ℤ

pub record ListOptions : Type 0 where
  pub filters : Map String
  pub sort : Map String
  pub page : ℤ
  pub limit : ℤ
