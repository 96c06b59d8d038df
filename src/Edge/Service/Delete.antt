-- ===== src/Edge/Service/Delete.antt =====
-- `deleteEdge` (edge/edge.service.ts) and `deleteNode` (node/node.service.ts) keep the graph of every
-- workspace free of cycles.
use aideep_backend.Common.{String}
use aideep_backend.Infra.Keeps.{Keeps, keeps_rules}
use aideep_backend.Infra.Frame.{Keeps-redis_del, Keeps-broadcast, Keeps-run_in_transaction}
use aideep_backend.Infra.Platform.{Platform}
use aideep_backend.Infra.World.{World}
use aideep_backend.Edge.Repository.{find_edge_by_id}
use aideep_backend.Edge.Service.{check_edit_permission, delete_edge}
use aideep_backend.Edge.Service.Acyclic.{
  EdgesAcyclic, IsData-EdgesAcyclic, Keeps-delete_edge_by_id, Keeps-delete_edges_by_node_id,
}
use aideep_backend.Node.Frame.{
  Keeps-propagate_depth, Keeps-delete_node_row, Keeps-select_node_by_id, Keeps-node_permission,
  Keeps-check_workspace,
}
use aideep_backend.Node.Service.{delete_node}

module _ (P : Platform) where
  Keeps-find_edge_by_id : (edge_id : String) → Keeps (EdgesAcyclic P) (find_edge_by_id P edge_id)
  unfolding find_edge_by_id
  Keeps-find_edge_by_id edge_id = record { at = λ w q. q }

  -- Deleting an edge, whatever comes of the request, leaves every workspace's graph free of cycles if it was.
  pub delete_edge-EdgesAcyclic :
      (workspace_id user_id edge_id : String) (w : World P)
      → EdgesAcyclic P w
      → EdgesAcyclic P (delete_edge P workspace_id user_id edge_id w).1
  unfolding delete_edge check_edit_permission
  delete_edge-EdgesAcyclic workspace_id user_id edge_id w q =
      let kept : Keeps (EdgesAcyclic P) (delete_edge P workspace_id user_id edge_id) =
        search
          (
            keeps_rules,
            Keeps-check_workspace P,
            Keeps-find_edge_by_id,
            Keeps-select_node_by_id P,
            Keeps-propagate_depth P {Q = EdgesAcyclic P} (λ w n a. a),
            Keeps-delete_edge_by_id P,
            Keeps-redis_del P {Q = EdgesAcyclic P} (λ w s o q. q),
            Keeps-broadcast P {Q = EdgesAcyclic P} (λ w l q. q),
          )
          depth 12 in
      kept.at w q

  -- Deleting a node and its edges, whatever comes of the request, leaves every workspace's graph free of cycles if it was.
  pub delete_node-EdgesAcyclic :
      (workspace_id user_id node_id : String) (w : World P)
      → EdgesAcyclic P w
      → EdgesAcyclic P (delete_node P workspace_id user_id node_id w).1
  unfolding delete_node
  delete_node-EdgesAcyclic workspace_id user_id node_id w q =
      let kept : Keeps (EdgesAcyclic P) (delete_node P workspace_id user_id node_id) =
        Keeps-run_in_transaction P (IsData-EdgesAcyclic P) _ (
          search
            (
              keeps_rules,
              Keeps-node_permission P,
              Keeps-select_node_by_id P,
              Keeps-delete_edges_by_node_id P,
              Keeps-delete_node_row P {Q = EdgesAcyclic P} (λ w n a. a),
              Keeps-redis_del P {Q = EdgesAcyclic P} (λ w s o q. q),
              Keeps-broadcast P {Q = EdgesAcyclic P} (λ w l q. q),
            )
            depth 12) in
      kept.at w q
