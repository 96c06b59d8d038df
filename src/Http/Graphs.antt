-- ===== src/Http/Graphs.antt =====
-- What a request of the HTTP interface does to the graphs of the workspaces.
use aideep_backend.Edge.Repository.{ConnectNodeDto, HasIds, edge_of_dto}
use aideep_backend.Common.{String, Option}
use aideep_backend.Auth.Controller as AuthController
use aideep_backend.Auth.Guard.{Credentials, no_session, token_of, verified_now, authenticate}
use aideep_backend.Auth.Tokens.{Tokens}
use aideep_backend.Edge.Controller as EdgeController
use aideep_backend.Edge.Service.Acyclic.{EdgesAcyclic, connect_nodes-EdgesAcyclic}
use aideep_backend.Edge.Service.Delete.{delete_edge-EdgesAcyclic, delete_node-EdgesAcyclic}
use aideep_backend.Http.Frame.Accounts.{Keeps-validate, Keeps-logout}
use aideep_backend.Http.Frame.Members.{
  Keeps-user_workspace_info, Keeps-create_workspace, Keeps-invite_to_workspace,
  Keeps-join_workspace, Keeps-get_workspace_info, Keeps-find_user_info,
}
use aideep_backend.Http.Frame.Nodes.{
  Keeps-create_node, Keeps-update_node_position, Keeps-update_node_meta, Keeps-query_detail_node,
}
use aideep_backend.Http.Routes as Routes
use aideep_backend.Http.Routes.{
  EditRoute, Route, Codecs, Reply, run_edit, run_route, request, as_reply,
}
use aideep_backend.Infra.Action.{Outcome, or_throw}
use aideep_backend.Infra.Keeps.{Keeps, Keeps-pure, Keeps-or_throw, Keeps-bind, Keeps-then}
use aideep_backend.Infra.Platform.{IsId, Platform}
use aideep_backend.Infra.World.{Handler}
use aideep_backend.Node.Controller as NodeController
use aideep_backend.Node.Controller.{run_pure}
use aideep_backend.Node.Service as NodeService
use aideep_backend.Node.Service.{NodeMoveBody, UpdateNodeMetaBody}
use aideep_backend.Node.Model.{CreateNodeBody, ProjectBody, MarkDownBody}
use aideep_backend.Workspace.Service as Workspace
use aideep_backend.User.Controller as UserController
use aideep_backend.Workspace.Controller as WorkspaceController

module _ (P : Platform) where
  -- the ids in a request are in the form in which the database returns them
  abbrev pub EditIds : String → EditRoute P.Num → Type 0
  EditIds workspace_id (Routes.create_project_node body) = IsId P workspace_id
  EditIds workspace_id (Routes.create_markdown_node body) = IsId P workspace_id
  EditIds workspace_id (Routes.update_node_meta node_id body) = IsId P workspace_id × IsId P node_id
  EditIds workspace_id (Routes.move_node node_id body) = IsId P workspace_id × IsId P node_id
  EditIds workspace_id (Routes.delete_node node_id) = IsId P workspace_id × IsId P node_id
  EditIds workspace_id (Routes.connect_nodes body) =
      IsId P workspace_id × IsId P body.source_id × IsId P body.target_id
  EditIds workspace_id (Routes.delete_edge edge_id) = IsId P workspace_id × IsId P edge_id

  abbrev pub RouteIds : Route P.Num → Type 0
  RouteIds (Routes.edit workspace_id route) = EditIds workspace_id route
  RouteIds (Routes.query_detail_node workspace_id node_id) = IsId P workspace_id × IsId P node_id
  RouteIds Routes.workspace_list = Unit
  RouteIds (Routes.create_workspace body) = Unit
  RouteIds (Routes.invite_workspace body) = IsId P body.workspace_id
  RouteIds (Routes.join_workspace workspace_id code) = IsId P workspace_id
  RouteIds (Routes.sync_workspace workspace_id) = IsId P workspace_id
  RouteIds Routes.get_me = Unit
  RouteIds Routes.logout = Unit

module _ (P : Platform) where
  Keeps-as_reply :
      {A : Type 0} (f : A → Reply P) (call : Handler P A)
      → Keeps (EdgesAcyclic P) call
      → Keeps (EdgesAcyclic P) (as_reply P f call)
  Keeps-as_reply f call k = record { at = k.at }

  Keeps-run_pure : {A : Type 0} (o : Outcome A) → Keeps (EdgesAcyclic P) (run_pure P o)
  Keeps-run_pure o = record { at = λ w q. q }

  Keeps-create_project_node :
      (workspace_id : String) (body : CreateNodeBody P.Num ProjectBody) (user_id : String)
      → Keeps (EdgesAcyclic P) (NodeController.create_project_node P workspace_id body user_id)
  unfolding NodeController.create_project_node NodeService.create_project_node
  Keeps-create_project_node workspace_id body user_id =
      Keeps-bind (run_pure P _) _ (Keeps-run_pure _) (λ node.
        Keeps-bind (NodeService.create_node P node) _ (Keeps-create_node P node)
          (λ _. Keeps-pure _))

  Keeps-create_markdown_node :
      (workspace_id : String) (body : CreateNodeBody P.Num MarkDownBody) (user_id : String)
      → Keeps (EdgesAcyclic P) (NodeController.create_markdown_node P workspace_id body user_id)
  unfolding NodeController.create_markdown_node NodeService.create_markdown_node
  Keeps-create_markdown_node workspace_id body user_id =
      Keeps-bind (run_pure P _) _ (Keeps-run_pure _) (λ node.
        Keeps-bind (NodeService.create_node P node) _ (Keeps-create_node P node)
          (λ _. Keeps-pure _))

  Keeps-update_meta :
      (body : UpdateNodeMetaBody) (node_id workspace_id user_id : String)
      → Keeps (EdgesAcyclic P) (NodeController.update_node_meta P body node_id workspace_id user_id)
  unfolding NodeController.update_node_meta
  Keeps-update_meta body node_id workspace_id user_id =
      Keeps-bind (NodeService.update_node_meta P user_id node_id workspace_id body) _
        (Keeps-update_node_meta P user_id node_id workspace_id body) (λ _. Keeps-pure _)

  Keeps-move_node :
      (body : NodeMoveBody P.Num) (node_id workspace_id user_id : String)
      → Keeps (EdgesAcyclic P) (NodeController.move_node P body node_id workspace_id user_id)
  unfolding NodeController.move_node
  Keeps-move_node body node_id workspace_id user_id =
      Keeps-bind (NodeService.update_node_position P body user_id workspace_id node_id) _
        (Keeps-update_node_position P body user_id workspace_id node_id) (λ _. Keeps-pure _)

  edge_of_dto-HasIds :
      (body : ConnectNodeDto) (workspace_id user_id : String)
      → EditIds P workspace_id (Routes.connect_nodes body)
      → HasIds P (edge_of_dto body workspace_id user_id)
  unfolding edge_of_dto
  edge_of_dto-HasIds body workspace_id user_id ids = record {
    source_id = ids.1;
    target_id = ids.2;
    workspace_id = ids.0;
  }

  Keeps-run_edit :
      (route : EditRoute P.Num) (workspace_id user_id : String)
      → EditIds P workspace_id route
      → Keeps (EdgesAcyclic P) (run_edit P route workspace_id user_id)
  unfolding run_edit NodeController.delete_node EdgeController.connect_nodes
      EdgeController.delete_edge
  Keeps-run_edit (Routes.create_project_node body) workspace_id user_id ids =
      Keeps-as_reply _ _ (Keeps-create_project_node workspace_id body user_id)
  Keeps-run_edit (Routes.create_markdown_node body) workspace_id user_id ids =
      Keeps-as_reply _ _ (Keeps-create_markdown_node workspace_id body user_id)
  Keeps-run_edit (Routes.update_node_meta node_id body) workspace_id user_id ids =
      Keeps-as_reply _ _ (Keeps-update_meta body node_id workspace_id user_id)
  Keeps-run_edit (Routes.move_node node_id body) workspace_id user_id ids =
      Keeps-as_reply _ _ (Keeps-move_node body node_id workspace_id user_id)
  Keeps-run_edit (Routes.delete_node node_id) workspace_id user_id ids =
      Keeps-as_reply _ _ (record { at = delete_node-EdgesAcyclic P workspace_id user_id node_id })
  Keeps-run_edit (Routes.connect_nodes body) workspace_id user_id ids = Keeps-as_reply _ _ (record {
    at =
        connect_nodes-EdgesAcyclic P (edge_of_dto body workspace_id user_id)
          (edge_of_dto-HasIds body workspace_id user_id ids);
  })
  Keeps-run_edit (Routes.delete_edge edge_id) workspace_id user_id ids =
      Keeps-as_reply _ _ (record { at = delete_edge-EdgesAcyclic P workspace_id user_id edge_id })

  module _ (T : Tokens) (C : Codecs P.Num) where
    Keeps-run_route :
        (route : Route P.Num) (c : Credentials) (user_id : String)
        → RouteIds P route
        → Keeps (EdgesAcyclic P) (run_route P T C route c user_id)
    unfolding run_route NodeController.query_detail_node WorkspaceController.workspace_list
        WorkspaceController.create_workspace WorkspaceController.invite_workspace
        WorkspaceController.join_workspace WorkspaceController.sync_workspace UserController.get_me
        AuthController.logout
    Keeps-run_route (Routes.edit workspace_id route) c user_id ids =
        Keeps-run_edit route workspace_id user_id ids
    Keeps-run_route (Routes.query_detail_node workspace_id node_id) c user_id ids =
        Keeps-as_reply _ _ (Keeps-query_detail_node P workspace_id node_id user_id)
    Keeps-run_route Routes.workspace_list c user_id ids =
        Keeps-as_reply _ _ (Keeps-user_workspace_info P user_id)
    Keeps-run_route (Routes.create_workspace body) c user_id ids =
        Keeps-as_reply _ _ (Keeps-create_workspace P user_id body)
    Keeps-run_route (Routes.invite_workspace body) c user_id ids =
        Keeps-as_reply _ _ (Keeps-invite_to_workspace P C.invitations body user_id)
    Keeps-run_route (Routes.join_workspace workspace_id code) c user_id ids = Keeps-as_reply _ _ (
        Keeps-then (Workspace.join_workspace P C.invitations code user_id workspace_id) _
          (Keeps-join_workspace P C.invitations code user_id workspace_id) (Keeps-pure _))
    Keeps-run_route (Routes.sync_workspace workspace_id) c user_id ids =
        Keeps-as_reply _ _ (Keeps-get_workspace_info P C.views user_id workspace_id)
    Keeps-run_route Routes.get_me c user_id ids =
        Keeps-as_reply _ _ (Keeps-find_user_info P user_id)
    Keeps-run_route Routes.logout c user_id ids = Keeps-as_reply _ _ (Keeps-logout P T user_id _)

    module _ (bearer : String → Option String) where
      Keeps-authenticate : (c : Credentials) → Keeps (EdgesAcyclic P) (authenticate P T bearer c)
      unfolding authenticate
      Keeps-authenticate c =
          Keeps-bind (or_throw (token_of P T bearer c) no_session) _ (Keeps-or_throw _ _) (λ token.
            Keeps-bind (verified_now P T bearer token) _ (record { at = λ w q. q })
              (λ valid.
                Keeps-bind (or_throw valid no_session) _ (Keeps-or_throw _ _)
                  (Keeps-validate P T token)))

      pub Keeps-request :
          (c : Credentials) (route : Route P.Num)
          → RouteIds P route
          → Keeps (EdgesAcyclic P) (request P T C bearer c route)
      unfolding request
      Keeps-request c route ids =
          Keeps-bind (authenticate P T bearer c) _ (Keeps-authenticate c)
            (λ payload. Keeps-run_route route c payload.user_id ids)
