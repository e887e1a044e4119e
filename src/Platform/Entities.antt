-- ===== src/Platform/Entities.antt =====
-- The rows of the database (src/database/entities). An id is a UUID that is only compared: it is
-- a number here, and 0 stands for the empty string and for the id of an entity that is not saved
-- yet. Dates are milliseconds, and a nullable column is an `Option`. Relations that a query may
-- join (`workspace`, `assignee` and the like) are not columns and are left out.
use task_scheduling_platform.Base.{ℕ, String, Bool, Option, List}

pub record User : Type 0 where
  pub id : ℕ
  pub email : String
  pub password : Option String
  pub name : String
  pub avatar : Option String
  pub is_verified : Bool
  pub created_at : ℕ
  pub updated_at : ℕ

pub record UserSession : Type 0 where
  pub id : ℕ
  pub user_id : ℕ
  pub token_hash : String
  pub device_fingerprint : Option String
  pub ip_address : Option String
  pub expires_at : ℕ
  pub is_revoked : Bool
  pub created_at : ℕ
  pub updated_at : ℕ

pub record Workspace : Type 0 where
  pub id : ℕ
  pub name : String
  pub slug : String
  pub owner_id : ℕ
  pub created_at : ℕ
  pub updated_at : ℕ

-- `role` is a plain text column, as in the code; the guards read it.
pub record WorkspaceMember : Type 0 where
  pub workspace_id : ℕ
  pub user_id : ℕ
  pub role : String
  pub created_at : ℕ
  pub updated_at : ℕ

pub record Project : Type 0 where
  pub id : ℕ
  pub workspace_id : ℕ
  pub name : String
  pub description : Option String
  pub status : String
  pub created_at : ℕ
  pub updated_at : ℕ

pub record Attachment : Type 0 where
  pub name : String
  pub url : String
  pub size : ℕ
  pub mime_type : String

pub record Task : Type 0 where
  pub id : ℕ
  pub workspace_id : ℕ
  pub project_id : ℕ
  pub parent_task_id : Option ℕ
  pub title : String
  pub description : Option String
  pub status : String
  pub priority : String
  pub assigned_to : Option ℕ
  pub due_date : Option ℕ
  pub created_by : ℕ
  pub completed_at : Option ℕ
  pub labels : Option (List String)
  pub attachments : Option (List Attachment)
  pub version : ℕ
  pub deleted_at : Option ℕ
  pub created_at : ℕ
  pub updated_at : ℕ

pub record Comment : Type 0 where
  pub id : ℕ
  pub task_id : ℕ
  pub user_id : ℕ
  pub message : String
  pub created_at : ℕ
  pub updated_at : ℕ

pub record Notification : Type 0 where
  pub id : ℕ
  pub user_id : ℕ
  pub type : String
  pub title : String
  pub message : String
  pub is_read : Bool
  pub created_at : ℕ

pub record Reminder : Type 0 where
  pub id : ℕ
  pub task_id : ℕ
  pub scheduled_at : ℕ
  pub status : String
  pub created_at : ℕ

pub record Activity : Type 0 where
  pub id : ℕ
  pub workspace_id : ℕ
  pub entity_type : String
  pub entity_id : ℕ
  pub action : String
  pub performed_by : ℕ
  pub created_at : ℕ

-- A JSON value, as the audit log stores it.
mutual
  pub data Json : Type 0 where
    null : Json
    text : String → Json
    number : ℕ → Json
    boolean : Bool → Json
    arr : Items → Json
    obj : Fields → Json

  pub data Items : Type 0 where
    nil : Items
    item : Json → Items → Items

  pub data Fields : Type 0 where
    end : Fields
    field : String → Json → Fields → Fields

pub record AuditLog : Type 0 where
  pub id : ℕ
  pub action : String
  pub user_id : Option ℕ
  pub payload : Json
  pub created_at : ℕ
