-- ===== src/Infra/Platform.antt =====
-- What the program runs on and does not implement: numbers, dates, JSON, tokens, password hashes,
-- the database and Redis. Each is a field with the documented behaviour that the code relies on.
use aideep_backend.Common.{ℕ, String, ◌≡◌, Bool, Option, none, some}
use aideep_backend.Infra.Rows.{
  Content, NodeType, NodeRow, EdgeRow, MemberRow, WorkspaceRow, UserRow,
}
use aideep_backend.Infra.Rows.Int.{ℤ}
use aideep_backend.Infra.Table.{Table}
use aideep_backend.Infra.Redis.{Redis}

-- JavaScript's numbers, as far as positions use them
pub record Numbers : Type 1 where
  pub Num : Type 0
  pub zero_num : Num
  pub plus : Num → Num → Num
  pub minus : Num → Num → Num
  pub is_finite : Num → Bool

-- `data` of `nodes.create` in `insertNode`
pub record NodeInput (Num : Type 0) : Type 0 where
  pub title : String
  pub node_type : NodeType
  pub position_x : Num
  pub position_y : Num
  pub workspace_id : String
  pub depth : ℤ
  pub content : Content

-- `data` of `edges.create` in `createEdge`
pub record EdgeInput : Type 0 where
  pub source_id : String
  pub target_id : String
  pub workspace_id : String
  pub source_handle : String
  pub target_handle : String

-- `data` of `workspaces.create` in `insertWorkspace`
pub record WorkspaceInput : Type 0 where
  pub title : String

-- `data` of `users.create` in `UserRepository.create`
pub record UserInput : Type 0 where
  pub email : String
  pub password : String
  pub username : String

pub record HoldsNode {Num : Type 0} (i : NodeInput Num) (r : NodeRow Num) : Type 0 where
  pub title : r.title ≡ i.title
  pub node_type : r.node_type ≡ i.node_type
  pub position_x : r.position_x ≡ some i.position_x
  pub position_y : r.position_y ≡ some i.position_y
  pub workspace_id : r.workspace_id ≡ i.workspace_id
  pub depth : r.depth ≡ some i.depth
  pub content : r.content ≡ some i.content
  pub live : r.deleted_at ≡ none

-- the columns of ids are of the type uuid: a row holds an id in the form that the database gives it
pub record HoldsEdge (uuid : String → Option String) (i : EdgeInput) (r : EdgeRow) : Type 0 where
  pub source_id : (id : String) → uuid i.source_id ≡ some id → r.source_id ≡ id
  pub target_id : (id : String) → uuid i.target_id ≡ some id → r.target_id ≡ id
  pub workspace_id : (id : String) → uuid i.workspace_id ≡ some id → r.workspace_id ≡ id
  pub source_handle : r.source_handle ≡ i.source_handle
  pub target_handle : r.target_handle ≡ i.target_handle
  pub live : r.deleted_at ≡ none

pub record HoldsWorkspace (i : WorkspaceInput) (r : WorkspaceRow) : Type 0 where
  pub title : r.title ≡ i.title

pub record HoldsUser (i : UserInput) (r : UserRow) : Type 0 where
  pub email : r.email ≡ i.email
  pub password : r.password ≡ i.password
  pub username : r.username ≡ i.username

pub record Platform : Type 1 where
  pub numbers : Numbers
  pub open numbers use {Num, zero_num, plus, minus, is_finite}
  -- `date.toDateString()`
  pub to_date_string : ℕ → String
  pub nodes : Table (NodeInput Num) (NodeRow Num) HoldsNode
  -- how the database reads a text that it is given for a uuid: in the one form in which it stores and
  -- returns it, whatever the case of its letters, or not at all
  pub uuid : String → Option String
  pub edges : Table EdgeInput EdgeRow (HoldsEdge uuid)
  pub members : Table MemberRow MemberRow (λ i r. r ≡ i)
  pub workspaces : Table WorkspaceInput WorkspaceRow HoldsWorkspace
  pub users : Table UserInput UserRow HoldsUser
  pub redis : Redis

-- The text is an id in the form in which the database returns it. The repositories' queries are those for such
-- texts, on which the comparison of texts is that of uuids.
abbrev pub IsId : Platform → String → Type 0
IsId P text = P.uuid text ≡ some text
