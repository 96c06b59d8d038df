-- ===== src/Node/Permission.antt =====
-- `checkEditPermission` of node/node.service.ts and edge/edge.service.ts: what a user who may not edit
-- gets, and what the requests of such a user change.
use aideep_backend.Common.{String, ◌≡◌, Bool, true, false, Option, none, some, not, arith}
use aideep_backend.Infra.Exception.{Exception, not_found, unauthorized, forbidden}
use aideep_backend.Infra.Action.{Outcome, thrown}
use aideep_backend.Infra.Failure.{run_in_transaction-refused}
use aideep_backend.Infra.Platform.{Platform}
use aideep_backend.Infra.Rows.{MemberRow}
use aideep_backend.Infra.World.{World}
use aideep_backend.Edge.Repository.{Edge}
use aideep_backend.Edge.Service.{
  connect_nodes, check_connection, delete_edge, check_edit_permission as check_edge_permission,
}
use aideep_backend.Node.Service.{
  Node, NodeMoveBody, UpdateNodeMetaBody, may_edit, check_edit_permission, create_project_node,
  create_markdown_node, update_node_position, update_node_meta, delete_node,
}
use aideep_backend.Workspace.Repository.{is_member, check_workspace}

-- the exception for a user with this membership who may not edit, by the name of the service
abbrev pub refusal : Exception → Option MemberRow → Exception
refusal e none = not_found "해당 유저의 워크스페이스가 존재하지 않습니다."
refusal e (some _) = e

-- no member, or one who only views
abbrev pub cannot_edit : Option MemberRow → Bool
cannot_edit none = true
cannot_edit (some row) = not (may_edit row.role)

abbrev pub no_node_rights : Exception
no_node_rights = unauthorized "노드를 수정할 권한이 없습니다."

abbrev pub no_edge_rights : Exception
no_edge_rights = forbidden "엣지를 수정할 권한이 없습니다."

module _ (P : Platform) where
  abbrev pub membership : World P → String → String → Option MemberRow
  membership w user_id workspace_id =
      P.members.find_first w.members (is_member user_id workspace_id)

  abbrev pub node_refusal : World P → String → String → Exception
  node_refusal w user_id workspace_id = refusal no_node_rights (membership w user_id workspace_id)

  abbrev pub edge_refusal : World P → String → String → Exception
  edge_refusal w user_id workspace_id = refusal no_edge_rights (membership w user_id workspace_id)

  -- the outcome of a request that is refused, and the state behind it
  abbrev pub Refused : {A : Type 0} → Exception → World P → Outcome A × World P → Type 0
  Refused e w r = r ≡ (thrown e, w)

  check_edit_permission-refused :
      (user_id workspace_id : String) (w : World P)
      → cannot_edit (membership w user_id workspace_id) ≡ true
      → check_edit_permission P user_id workspace_id w
        ≡ (thrown (refusal no_node_rights (membership w user_id workspace_id)), w)
  unfolding check_edit_permission check_workspace
  check_edit_permission-refused user_id workspace_id w h = ground arith

  check_edge_permission-refused :
      (user_id workspace_id : String) (w : World P)
      → cannot_edit (membership w user_id workspace_id) ≡ true
      → check_edge_permission P user_id workspace_id w
        ≡ (thrown (refusal no_edge_rights (membership w user_id workspace_id)), w)
  unfolding check_edge_permission check_workspace
  check_edge_permission-refused user_id workspace_id w h = ground arith

  module _ (user_id workspace_id : String) (w : World P)
      (h : cannot_edit (membership w user_id workspace_id) ≡ true) where
    -- A user who is no member of the workspace, or only views it, can move, change or delete no node there: outside of another transaction each of the three requests throws the exception that the membership calls for, and the whole state is unchanged.
    pub node_requests-Refused :
        (node_id : String) (position : NodeMoveBody P.Num) (meta : UpdateNodeMetaBody)
        → w.in_transaction ≡ false
        → Refused
            (node_refusal w user_id workspace_id)
            w
            (update_node_position P position user_id workspace_id node_id w)
          × Refused
              (node_refusal w user_id workspace_id)
              w
              (update_node_meta P user_id node_id workspace_id meta w)
          × Refused
              (node_refusal w user_id workspace_id)
              w
              (delete_node P workspace_id user_id node_id w)
    unfolding update_node_position update_node_meta delete_node
    node_requests-Refused node_id position meta out =
        let begun : World P = record w { in_transaction = true } in
        (
          rw (check_edit_permission-refused user_id workspace_id w h),
          rw (check_edit_permission-refused user_id workspace_id w h),
          run_in_transaction-refused P _ w out
              (rw (check_edit_permission-refused user_id workspace_id begun h)),
        )

    -- A user who is no member of the workspace, or only views it, can delete no edge there: the request throws the exception that the membership calls for, and the whole state is unchanged.
    pub delete_edge-Refused :
        (edge_id : String)
        → Refused
            (edge_refusal w user_id workspace_id)
            w
            (delete_edge P workspace_id user_id edge_id w)
    unfolding delete_edge
    delete_edge-Refused edge_id = rw (check_edge_permission-refused user_id workspace_id w h)

  module _ (node : Node P.Num) (w : World P)
      (h : cannot_edit (membership w node.user_id node.workspace_id) ≡ true) where
    -- A user who is no member of the workspace, or only views it, can create no node there: both requests throw the exception that the membership calls for, and the whole state is unchanged.
    pub create_node-Refused :
        Refused (node_refusal w node.user_id node.workspace_id) w (create_project_node P node w)
        × Refused (node_refusal w node.user_id node.workspace_id) w (create_markdown_node P node w)
    unfolding create_project_node create_markdown_node
    create_node-Refused = (
      rw (check_edit_permission-refused node.user_id node.workspace_id w h),
      rw (check_edit_permission-refused node.user_id node.workspace_id w h),
    )

  -- A user who is no member of the workspace, or only views it, can connect no nodes there: outside of another transaction the request throws the exception that the membership calls for, and the whole state is unchanged.
  pub connect_nodes-Refused :
      (dto : Edge) (w : World P)
      (h : cannot_edit (membership w dto.user_id dto.workspace_id) ≡ true)
      → w.in_transaction ≡ false
      → Refused (edge_refusal w dto.user_id dto.workspace_id) w (connect_nodes P dto w)
  unfolding connect_nodes check_connection
  connect_nodes-Refused dto w h out = run_in_transaction-refused P _ w out (
      rw (
        check_edge_permission-refused dto.user_id dto.workspace_id
          (record w { in_transaction = true }) h))
