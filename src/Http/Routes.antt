-- ===== src/Http/Routes.antt =====
-- The routes of src/node/node.controller.ts, src/edge/edge.controller.ts, src/workspace/workspace.controller.ts,
-- src/user/user.controller.ts and the logout of src/auth/auth.controller.ts, behind `JwtAuthGuard`.
use aideep_backend.Common.{String, Option, List}
use aideep_backend.Auth.Controller as AuthController
use aideep_backend.Auth.Guard.{Credentials, authenticate}
use aideep_backend.Auth.Tokens.{Tokens}
use aideep_backend.Edge.Controller as EdgeController
use aideep_backend.Edge.Repository.{ConnectNodeDto}
use aideep_backend.Infra.Action.{Outcome, returned, thrown, ◌>>=◌}
use aideep_backend.Infra.Codec.{Codec}
use aideep_backend.Infra.Platform.{Platform}
use aideep_backend.Infra.World.{Handler}
use aideep_backend.Node.Controller as NodeController
use aideep_backend.Node.Controller.{NodeIdReply}
use aideep_backend.Node.Model.{CreateNodeBody, ProjectBody, MarkDownBody}
use aideep_backend.Node.Repository.{NodeOf}
use aideep_backend.Node.Service.{NodeMoveBody, UpdateNodeMetaBody}
use aideep_backend.User.Controller as UserController
use aideep_backend.User.Repository.{UserInfo}
use aideep_backend.Workspace.Controller as WorkspaceController
use aideep_backend.Workspace.Repository.{UserWorkspace}
use aideep_backend.Workspace.Service.{
  CreateWorkspaceBody, WorkspaceInfo, InviteBody, Invitation, InviteResponse,
}

-- a request that changes a workspace's nodes or edges: its path, its parameters and its body
pub data EditRoute (Num : Type 0) : Type 0 where
  create_project_node : CreateNodeBody Num ProjectBody → EditRoute Num
  create_markdown_node : CreateNodeBody Num MarkDownBody → EditRoute Num
  update_node_meta : String → UpdateNodeMetaBody → EditRoute Num
  move_node : String → NodeMoveBody Num → EditRoute Num
  delete_node : String → EditRoute Num
  connect_nodes : ConnectNodeDto → EditRoute Num
  delete_edge : String → EditRoute Num

pub data Route (Num : Type 0) : Type 0 where
  edit : String → EditRoute Num → Route Num
  query_detail_node : String → String → Route Num
  workspace_list : Route Num
  create_workspace : CreateWorkspaceBody → Route Num
  invite_workspace : InviteBody → Route Num
  join_workspace : String → String → Route Num
  sync_workspace : String → Route Num
  get_me : Route Num
  logout : Route Num

-- `JSON.stringify` and `JSON.parse` on what is kept in Redis
pub record Codecs (Num : Type 0) : Type 0 where
  pub views : Codec (WorkspaceInfo Num)
  pub invitations : Codec Invitation

module _ (P : Platform) where
  -- what a controller returns
  pub data Reply : Type 0 where
    message : String → Reply
    created : NodeIdReply → Reply
    node : NodeOf P → Reply
    workspaces : List UserWorkspace → Reply
    invitation : InviteResponse → Reply
    view : WorkspaceInfo P.Num → Reply
    user : UserInfo → Reply

  abbrev pub reply_with : {A : Type 0} → (A → Reply) → Outcome A → Outcome Reply
  reply_with f (returned a) = returned (f a)
  reply_with f (thrown e) = thrown e

  abbrev pub as_reply : {A : Type 0} → (A → Reply) → Handler P A → Handler P Reply
  as_reply f call w = (reply_with f (call w).0, (call w).1)

  unfoldable pub run_edit : EditRoute P.Num → String → String → Handler P Reply
  run_edit (create_project_node body) workspace_id user_id =
      as_reply created (NodeController.create_project_node P workspace_id body user_id)
  run_edit (create_markdown_node body) workspace_id user_id =
      as_reply created (NodeController.create_markdown_node P workspace_id body user_id)
  run_edit (update_node_meta node_id body) workspace_id user_id =
      as_reply message (NodeController.update_node_meta P body node_id workspace_id user_id)
  run_edit (move_node node_id body) workspace_id user_id =
      as_reply message (NodeController.move_node P body node_id workspace_id user_id)
  run_edit (delete_node node_id) workspace_id user_id =
      as_reply message (NodeController.delete_node P workspace_id node_id user_id)
  run_edit (connect_nodes body) workspace_id user_id =
      as_reply message (EdgeController.connect_nodes P workspace_id body user_id)
  run_edit (delete_edge edge_id) workspace_id user_id =
      as_reply message (EdgeController.delete_edge P workspace_id edge_id user_id)

  module _ (T : Tokens) (C : Codecs P.Num) where
    unfoldable pub run_route : Route P.Num → Credentials → String → Handler P Reply
    run_route (edit workspace_id route) c user_id = run_edit route workspace_id user_id
    run_route (query_detail_node workspace_id node_id) c user_id =
        as_reply node (NodeController.query_detail_node P workspace_id node_id user_id)
    run_route workspace_list c user_id =
        as_reply workspaces (WorkspaceController.workspace_list P user_id)
    run_route (create_workspace body) c user_id =
        as_reply message (WorkspaceController.create_workspace P body user_id)
    run_route (invite_workspace body) c user_id =
        as_reply invitation (WorkspaceController.invite_workspace P C.invitations body user_id)
    run_route (join_workspace workspace_id code) c user_id =
        as_reply message
          (WorkspaceController.join_workspace P C.invitations workspace_id code user_id)
    run_route (sync_workspace workspace_id) c user_id =
        as_reply view (WorkspaceController.sync_workspace P C.views workspace_id user_id)
    run_route get_me c user_id = as_reply user (UserController.get_me P user_id)
    run_route logout c user_id = as_reply message (AuthController.logout P T c user_id)

    -- a request: the guard, then the controller
    unfoldable pub request : (String → Option String) → Credentials → Route P.Num → Handler P Reply
    request bearer c route = do
      payload ← authenticate P T bearer c
      run_route route c payload.user_id
