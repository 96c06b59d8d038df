-- ===== src/Http/Frame.antt =====
-- What the stores and the services of the HTTP interface do to the edges.
pub mod Nodes
pub mod Members
pub mod Accounts
use aideep_backend.Common.{String, Bool, true, false, Option, none, some, List, [], ◌∷◌}
use aideep_backend.Auth.Service as Auth
use aideep_backend.Auth.Service.{SignUpBody, VerifyEmailBody, ValidUser}
use aideep_backend.Auth.Tokens.{Tokens, AuthCode, Payload}
use aideep_backend.Edge.Service.Acyclic.{EdgesAcyclic, IsData-EdgesAcyclic}
use aideep_backend.Infra.Action.{Outcome, returned, thrown}
use aideep_backend.Infra.Codec.{Codec}
use aideep_backend.Infra.Frame.{
  Keeps-redis_get, Keeps-redis_set, Keeps-redis_del, Keeps-broadcast, Keeps-run_in_transaction,
}
use aideep_backend.Infra.Keeps.{Keeps, Keeps-pure, Keeps-then, keeps_rules}
use aideep_backend.Infra.Platform.{Platform, WorkspaceInput, UserInput}
use aideep_backend.Infra.Redis.{Expiry}
use aideep_backend.Infra.Rows.{Role}
use aideep_backend.Infra.World.{
  World, Mail, redis_get, redis_set, redis_del, broadcast, draw_code, send_mail,
}
use aideep_backend.Node.Frame.{
  Keeps-node_permission, Keeps-check_workspace, Keeps-select_node_by_id, Keeps-select_nodes_by_ids,
  Keeps-select_all_descendant_ids, Keeps-update_node, Keeps-update_node_position_delta,
  Keeps-insert_node,
}
use aideep_backend.Node.Repository.{
  NodeOf, NodeUpdates, select_all_node, select_all_edge, update_node,
}
use aideep_backend.Node.Service as Node
use aideep_backend.Node.Service.{NodeMoveBody, UpdateNodeMetaBody}
use aideep_backend.User.Repository.{find_by_user_id, find_by_email, create_user, find_user_info}
use aideep_backend.Workspace.Repository.{
  select_user_workspace, insert_workspace, insert_workspace_user,
}
use aideep_backend.Workspace.Service as Workspace
use aideep_backend.Workspace.Service.{
  CreateWorkspaceBody, WorkspaceInfo, InviteBody, Invitation, cached_or_read,
}
use aideep_backend.Ws.Event.{WsEvent}

module _ (P : Platform) where
  pub Keeps-get : (key : String) → Keeps (EdgesAcyclic P) (redis_get P key)
  Keeps-get key = Keeps-redis_get P (λ w r o q. q) key

  pub Keeps-set :
      (key value : String) (e : Expiry) → Keeps (EdgesAcyclic P) (redis_set P key value e)
  Keeps-set key value e = Keeps-redis_set P (λ w r o q. q) key value e

  pub Keeps-del : (key : String) → Keeps (EdgesAcyclic P) (redis_del P key)
  Keeps-del key = Keeps-redis_del P (λ w r o q. q) key

  pub Keeps-tell : (e : WsEvent P.Num) → Keeps (EdgesAcyclic P) (broadcast P e)
  Keeps-tell e = Keeps-broadcast P (λ w l q. q) e

  pub Keeps-change :
      (ws id : String) (u : NodeUpdates P.Num) → Keeps (EdgesAcyclic P) (update_node P ws id u)
  Keeps-change ws id u = Keeps-update_node P (λ w n q. q) ws id u

  pub ruleset frame_rules = (keeps_rules, Keeps-get, Keeps-set, Keeps-del, Keeps-tell, Keeps-change)
