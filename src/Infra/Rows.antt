-- ===== src/Infra/Rows.antt =====
-- The rows of the tables that the repositories read and write (the `select`s and `data` of
-- node/node.repository.ts, edge/edge.repository.ts, workspace/workspace.repository.ts and
-- user/user.repository.ts), and the integers of their columns.
pub mod Int
use aideep_backend.Common.{ℕ, String, ◌≡◌, Option, none, some, List}
use aideep_backend.Infra.Rows.Int.{ℤ}

-- A value of a JSON object: a text, or any other value by its JSON text.
pub data Json : Type 0 where
  text : String → Json
  raw : String → Json

-- `Record<string, any>`: the fields of an object, the earlier of two fields with one name counts
abbrev pub Content : Type 0
Content = List (String × Json)

pub data NodeType : Type 0 where
  project data_node resource : NodeType

pub data Role : Type 0 where
  owner editor viewer : Role

-- `RawNodeItem`, over a type of coordinates
pub record NodeRow (Num : Type 0) : Type 0 where
  pub node_id : String
  pub title : String
  pub node_type : NodeType
  pub content : Option Content
  pub version : ℕ
  pub created_at : ℕ
  pub updated_at : ℕ
  pub deleted_at : Option ℕ
  pub position_x : Option Num
  pub position_y : Option Num
  pub workspace_id : String
  pub depth : Option ℤ

-- `RawEdgeItem`
pub record EdgeRow : Type 0 where
  pub edge_id : String
  pub workspace_id : String
  pub source_id : String
  pub target_id : String
  pub source_handle : String
  pub target_handle : String
  pub version : ℕ
  pub created_at : ℕ
  pub updated_at : ℕ
  pub deleted_at : Option ℕ

-- a row of `users_workspaces`, less its `joined_at`
pub record MemberRow : Type 0 where
  pub user_id : String
  pub workspace_id : String
  pub role : Role

pub record WorkspaceRow : Type 0 where
  pub workspace_id : String
  pub title : String

pub record UserRow : Type 0 where
  pub user_id : String
  pub email : String
  pub password : String
  pub username : String
  pub created_at : ℕ
