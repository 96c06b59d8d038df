-- ===== src/Edge/Service/Checks.antt =====
-- What `connectNodes` of edge/edge.service.ts has checked when it begins to write.
use aideep_backend.Common.{
  ◌≡◌, true, false, Option, none, some, List, map, arith, ◌==◌, ◌&&◌, Option-cases, inl, inr,
}
use aideep_backend.Infra.Action.{returned}
use aideep_backend.Infra.Platform.{Platform}
use aideep_backend.Infra.Rows.{MemberRow}
use aideep_backend.Infra.World.{World}
use aideep_backend.Edge.Walk.{Link}
use aideep_backend.Edge.Cycle.{has_cycle}
use aideep_backend.Edge.Repository.{Edge, row_link, find_edge, find_all_edges_in_workspace}
use aideep_backend.Edge.Service.{is_project, check_edit_permission, check_connection}
use aideep_backend.Node.Repository.{NodeOf, is_node, select_node_by_id}
use aideep_backend.Node.Service.{may_edit}
use aideep_backend.Workspace.Repository.{is_member, check_workspace}

module _ (P : Platform) (dto : Edge) (w : World P) where
  -- the edges that `hasCycle` is given
  abbrev pub asked_links : List Link
  asked_links = map row_link (P.edges.find_many w.edges (λ r. r.workspace_id == dto.workspace_id))

  abbrev found_target : Option (NodeOf P)
  found_target = P.nodes.find_first w.nodes (is_node dto.workspace_id dto.target_id)

  -- the checks only read, also where they throw
  pub check_connection-reads : (check_connection P dto w).1 ≡ w
  unfolding check_connection check_edit_permission find_edge find_all_edges_in_workspace
      select_node_by_id check_workspace
  check_connection-reads = ground arith

  module _ (source : NodeOf P) {w' : World P}
      (h : check_connection P dto w ≡ (returned source, w')) where
    -- the user is a member who may edit
    pub check_connection-member :
        (member : MemberRow) × (P.members.find_first w.members
            (is_member dto.user_id dto.workspace_id)
          ≡ some member)
        × (may_edit member.role ≡ true)
    unfolding check_connection check_edit_permission find_edge find_all_edges_in_workspace
        select_node_by_id check_workspace
    check_connection-member = ground arith

    -- the two nodes differ, and the first is the node that is returned
    pub check_connection-source :
        ((dto.source_id == dto.target_id) ≡ false)
        × (P.nodes.find_first w.nodes (is_node dto.workspace_id dto.source_id) ≡ some source)
    unfolding check_connection check_edit_permission find_edge find_all_edges_in_workspace
        select_node_by_id check_workspace
    check_connection-source = ground arith

    -- the second is there too, and is no project
    pub check_connection-target :
        (target : NodeOf P) × (found_target ≡ some target) × (is_project target.node_type ≡ false)
    unfolding check_connection check_edit_permission find_edge find_all_edges_in_workspace
        select_node_by_id check_workspace
    check_connection-target = elim (Option-cases found_target) [
      | inl missing ↦ absurd (ground arith)
      | inr (target, e) ↦ (target, e, ground arith)
    ]

    -- neither the edge nor its reverse is there
    pub check_connection-no_edge :
        (P.edges.find_first w.edges
            (λ r. r.source_id == dto.source_id && r.target_id == dto.target_id)
          ≡ none)
        × (P.edges.find_first w.edges
              (λ r. r.source_id == dto.target_id && r.target_id == dto.source_id)
            ≡ none)
    unfolding check_connection check_edit_permission find_edge find_all_edges_in_workspace
        select_node_by_id check_workspace
    check_connection-no_edge = ground arith

    -- the search found no cycle
    pub check_connection-acyclic : has_cycle dto.source_id dto.target_id asked_links ≡ some false
    unfolding check_connection check_edit_permission find_edge find_all_edges_in_workspace
        select_node_by_id check_workspace
    check_connection-acyclic = ground arith
