-- ===== src/Ws/Event.antt =====
-- ws/ws.event.ts: what `WsGateway.broadcast` sends to the members of a workspace.
use aideep_backend.Common.{String, Option}
use aideep_backend.Infra.Rows.{Content, NodeType}

-- `NodeCreateEvent.node`
pub record CreatedNode (Num : Type 0) : Type 0 where
  pub node_id : String
  pub title : String
  pub node_type : NodeType
  pub position_x : Option Num
  pub position_y : Option Num
  pub content : Option Content
  pub created_at : String

-- `NodeUpdateEvent.patch`
pub record Patch : Type 0 where
  pub title : Option String
  pub content : Option Content

-- `EdgeCreateEvent.edge`
pub record CreatedEdge : Type 0 where
  pub edge_id : String
  pub source_id : String
  pub target_id : String
  pub source_handle : String
  pub target_handle : String

-- `WsEvent`; the fields in the order of the interfaces, the workspace first
pub data WsEvent (Num : Type 0) : Type 0 where
  node_move : String → String → String → Num → Num → WsEvent Num
  node_create : String → String → CreatedNode Num → WsEvent Num
  node_delete : String → String → WsEvent Num
  node_update : String → String → String → Patch → WsEvent Num
  edge_create : String → String → CreatedEdge → WsEvent Num
  edge_deleted : String → String → String → WsEvent Num
