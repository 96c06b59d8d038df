-- ===== src/Http/Rights.antt =====
-- What a user who may not edit a workspace can change of it by any request.
use aideep_backend.Common.{String, ◌≡◌, refl, ap, ◌∙◌, true, false, Option, none}
use aideep_backend.Auth.Guard.{Credentials, authenticate}
use aideep_backend.Auth.Tokens.{Tokens, Payload}
use aideep_backend.Edge.Controller as EdgeController
use aideep_backend.Edge.Repository.{edge_of_dto}
use aideep_backend.Http.Routes as Routes
use aideep_backend.Http.Routes.{
  EditRoute, Route, Codecs, Reply, run_edit, run_route, request, reply_with, as_reply,
}
use aideep_backend.Infra.Action.{Outcome, returned, thrown, ◌>>=◌}
use aideep_backend.Infra.Exception.{Exception}
use aideep_backend.Infra.Platform.{Platform}
use aideep_backend.Infra.World.{World, Handler}
use aideep_backend.Node.Controller as NodeController
use aideep_backend.Node.Controller.{NodeIdReply, run_pure}
use aideep_backend.Node.Model.{
  from_project_dto, from_mark_down_dto, from_project_dto-made, from_mark_down_dto-made,
}
use aideep_backend.Node.Permission.{
  cannot_edit, membership, node_requests-Refused, delete_edge-Refused, create_node-Refused,
  connect_nodes-Refused,
}
use aideep_backend.Node.Service as NodeService
use aideep_backend.Node.Service.{Node, NodeMoveBody, UpdateNodeMetaBody}

module _ (P : Platform) where
  -- the request throws, and nothing has changed
  pub record IsRefused {A : Type 0} (w : World P) (call : Handler P A) : Type 0 where
    pub exception : Exception
    pub thrown_unchanged : call w ≡ (thrown exception, w)

  IsRefused-as_reply :
      {A : Type 0} (f : A → Reply P) (call : Handler P A) (w : World P)
      → IsRefused w call
      → IsRefused w (as_reply P f call)
  IsRefused-as_reply f call w r = record {
    exception = r.exception;
    thrown_unchanged = rw r.thrown_unchanged refl;
  }

  IsRefused-bind :
      {A B : Type 0} (m : Handler P A) (k : A → Handler P B) (w : World P)
      → IsRefused w m
      → IsRefused w (m >>= k)
  IsRefused-bind m k w r = record {
    exception = r.exception;
    thrown_unchanged = rw r.thrown_unchanged refl;
  }

  -- a body that is not valid is refused, and a node that is made from one needs the user's rights
  IsRefused-made :
      {B : Type 0} (o : Outcome (Node P.Num)) (k : Node P.Num → Handler P B) (w : World P)
      → ((n : Node P.Num) → o ≡ returned n → IsRefused w (k n))
      → IsRefused w (run_pure P o >>= k)
  IsRefused-made (returned n) k w h =
      let r = h n refl in record { exception = r.exception; thrown_unchanged = r.thrown_unchanged }
  IsRefused-made (thrown e) k w h = record { exception = e; thrown_unchanged = refl }

  IsRefused-thrown :
      {A : Type 0} (call : Handler P A) (w : World P) (e : Exception)
      → call w ≡ (thrown e, w)
      → IsRefused w call
  IsRefused-thrown call w e h = record { exception = e; thrown_unchanged = h }

  -- bodies for the requests that a lemma is not about
  abbrev no_move : NodeMoveBody P.Num
  no_move = record { x = P.zero_num; y = P.zero_num }

  abbrev no_change : UpdateNodeMetaBody
  no_change = record {
    title = none;
    color = none;
    text_color = none;
    propagate_to_children = false;
  }

  module _ (user_id workspace_id : String) (w : World P)
      (h : cannot_edit (membership P w user_id workspace_id) ≡ true)
      (out : w.in_transaction ≡ false) where
    same_rights :
        (n : Node P.Num)
        → (n.user_id ≡ user_id) × (n.workspace_id ≡ workspace_id)
        → cannot_edit (membership P w n.user_id n.workspace_id) ≡ true
    same_rights n (same_user, same_workspace) =
        ap (λ u. cannot_edit (membership P w u n.workspace_id)) same_user
        ∙ ap (λ x. cannot_edit (membership P w user_id x)) same_workspace
        ∙ h

    run_edit-IsRefused :
        (route : EditRoute P.Num) → IsRefused w (run_edit P route workspace_id user_id)
    unfolding run_edit NodeController.create_project_node NodeController.create_markdown_node
        NodeController.update_node_meta NodeController.move_node NodeController.delete_node
        EdgeController.connect_nodes EdgeController.delete_edge edge_of_dto
    run_edit-IsRefused (Routes.create_project_node body) = IsRefused-as_reply _ _ w (
        IsRefused-made (from_project_dto P body workspace_id user_id) _ w (λ n made.
          IsRefused-bind (NodeService.create_project_node P n) _ w (
            IsRefused-thrown _ w _
              (create_node-Refused P n w
                (same_rights n (from_project_dto-made P body workspace_id user_id n made))).0)))
    run_edit-IsRefused (Routes.create_markdown_node body) = IsRefused-as_reply _ _ w (
        IsRefused-made (from_mark_down_dto P body workspace_id user_id) _ w (λ n made.
          IsRefused-bind (NodeService.create_markdown_node P n) _ w (
            IsRefused-thrown _ w _
              (create_node-Refused P n w
                (same_rights n (from_mark_down_dto-made P body workspace_id user_id n made))).1)))
    run_edit-IsRefused (Routes.update_node_meta node_id body) = IsRefused-as_reply _ _ w (
        IsRefused-bind (NodeService.update_node_meta P user_id node_id workspace_id body) _ w (
          IsRefused-thrown _ w _
            (node_requests-Refused P user_id workspace_id w h node_id no_move body out).1))
    run_edit-IsRefused (Routes.move_node node_id body) = IsRefused-as_reply _ _ w (
        IsRefused-bind (NodeService.update_node_position P body user_id workspace_id node_id) _ w (
          IsRefused-thrown _ w _
            (node_requests-Refused P user_id workspace_id w h node_id body no_change out).0))
    run_edit-IsRefused (Routes.delete_node node_id) = IsRefused-as_reply _ _ w (
        IsRefused-thrown _ w _
          (node_requests-Refused P user_id workspace_id w h node_id no_move no_change out).2)
    run_edit-IsRefused (Routes.connect_nodes body) = IsRefused-as_reply _ _ w (
        IsRefused-thrown _ w _
          (connect_nodes-Refused P (edge_of_dto body workspace_id user_id) w h out))
    run_edit-IsRefused (Routes.delete_edge edge_id) =
        IsRefused-as_reply _ _ w
          (IsRefused-thrown _ w _ (delete_edge-Refused P user_id workspace_id w h edge_id))

  module _ (T : Tokens) (C : Codecs P.Num) (bearer : String → Option String) where
    -- A user who is no member of a workspace, or only views it, can change nothing of its nodes and edges: outside of a transaction and with a session that the guard accepts, each of the seven requests that would throws an exception, whatever its body is, and the whole state is unchanged.
    pub request-IsRefused :
        (c : Credentials) (workspace_id : String) (route : EditRoute P.Num) (p : Payload)
        (w : World P)
        → authenticate P T bearer c w ≡ (returned p, w)
        → cannot_edit (membership P w p.user_id workspace_id) ≡ true
        → w.in_transaction ≡ false
        → IsRefused w (request P T C bearer c (Routes.edit workspace_id route))
    unfolding request run_route
    request-IsRefused c workspace_id route p w session h out =
        let r = run_edit-IsRefused p.user_id workspace_id w h out route in
        record { exception = r.exception; thrown_unchanged = rw session r.thrown_unchanged }
