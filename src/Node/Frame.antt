-- ===== src/Node/Frame.antt =====
-- What the methods of node/node.repository.ts and node/node.service.ts leave alone: all but the nodes.
use aideep_backend.Common.{String, Bool, Option, none, some, List, [], ◌∷◌, ◌==◌}
use aideep_backend.Infra.Keeps.{Keeps, Keeps-pure, keeps_rules}
use aideep_backend.Infra.Platform.{Platform, NodeInput}
use aideep_backend.Infra.Rows.Int.{ℤ}
use aideep_backend.Infra.World.{World}
use aideep_backend.Node.Descendants.{live_links, descendants}
use aideep_backend.Node.Repository.{
  NodeUpdates, deepened, is_node, updated, stored_nodes, finished, select_node_by_id, insert_node,
  select_all_descendant_ids, select_nodes_by_ids, update_node_position_delta, update_node,
  delete_node_row, increas_depth, increase_depth_many,
}
use aideep_backend.Node.Service.{check_edit_permission, deepen_descendants, propagate_depth}
use aideep_backend.Workspace.Repository.{check_workspace}

module _ (P : Platform) {Q : World P → Type 0} where
  pub Keeps-check_workspace :
      (user_id workspace_id : String) → Keeps Q (check_workspace P user_id workspace_id)
  unfolding check_workspace
  Keeps-check_workspace user_id workspace_id = record { at = λ w q. q }

  pub Keeps-select_node_by_id :
      (workspace_id node_id : String) → Keeps Q (select_node_by_id P workspace_id node_id)
  unfolding select_node_by_id
  Keeps-select_node_by_id workspace_id node_id = record { at = λ w q. q }

  pub Keeps-select_nodes_by_ids :
      (workspace_id : String) (ids : List String) → Keeps Q (select_nodes_by_ids P workspace_id ids)
  unfolding select_nodes_by_ids
  Keeps-select_nodes_by_ids workspace_id ids = record { at = λ w q. q }

  Keeps-finished : (ids : Option (List String)) → Keeps Q (finished P ids)
  Keeps-finished none = record { at = λ w q. q }
  Keeps-finished (some ids) = record { at = λ w q. q }

  pub Keeps-select_all_descendant_ids :
      (workspace_id node_id : String) → Keeps Q (select_all_descendant_ids P workspace_id node_id)
  unfolding select_all_descendant_ids
  Keeps-select_all_descendant_ids workspace_id node_id = record {
    at = λ w q.
        (Keeps-finished (descendants (live_links workspace_id (P.edges.rows w.edges)) node_id)).at w
          q;
  }

  pub Keeps-node_permission :
      (user_id workspace_id : String) → Keeps Q (check_edit_permission P user_id workspace_id)
  unfolding check_edit_permission
  Keeps-node_permission user_id workspace_id = search (keeps_rules, Keeps-check_workspace)

-- a property that does not mention the nodes
module _ (P : Platform) {Q : World P → Type 0}
    (free : (w : World P) (nodes : P.nodes.Store) → Q w → Q (record w { nodes = nodes })) where
  Keeps-stored_nodes : (nodes : Option P.nodes.Store) → Keeps Q (stored_nodes P nodes)
  Keeps-stored_nodes none = record { at = λ w q. q }
  Keeps-stored_nodes (some nodes) = record { at = λ w q. free w nodes q }

  pub Keeps-increas_depth : (node_id : String) (d : ℤ) → Keeps Q (increas_depth P node_id d)
  unfolding increas_depth
  Keeps-increas_depth node_id d = record {
    at = λ w q.
        (Keeps-stored_nodes (P.nodes.update w.nodes (λ r. r.node_id == node_id) (deepened d))).at w
          q;
  }

  pub Keeps-increase_depth_many :
      (ws : String) (ids : List String) (d : ℤ) → Keeps Q (increase_depth_many P ws ids d)
  unfolding increase_depth_many
  Keeps-increase_depth_many ws ids d = record { at = λ w q. free w _ q }

  pub Keeps-delete_node_row : (node_id : String) → Keeps Q (delete_node_row P node_id)
  unfolding delete_node_row
  Keeps-delete_node_row node_id = record {
    at = λ w q.
        (Keeps-stored_nodes (
            P.nodes.update w.nodes (λ r. r.node_id == node_id)
              (λ r. record r { deleted_at = some w.now; updated_at = w.now }))).at
          w q;
  }

  pub Keeps-update_node : (ws id : String) (u : NodeUpdates P.Num) → Keeps Q (update_node P ws id u)
  unfolding update_node
  Keeps-update_node ws id u = record {
    at = λ w q. (Keeps-stored_nodes (P.nodes.update w.nodes (is_node ws id) (updated u))).at w q;
  }

  pub Keeps-update_node_position_delta :
      (ws : String) (ids : List String) (x y : P.Num)
      → Keeps Q (update_node_position_delta P ws ids x y)
  unfolding update_node_position_delta
  Keeps-update_node_position_delta ws ids x y = record { at = λ w q. free w _ q }

  pub Keeps-insert_node : (i : NodeInput P.Num) → Keeps Q (insert_node P i)
  unfolding insert_node
  Keeps-insert_node i = record { at = λ w q. free w _ q }

  Keeps-deepen_descendants :
      (ws : String) (ids : List String) (d : ℤ) → Keeps Q (deepen_descendants P ws ids d)
  unfolding deepen_descendants
  Keeps-deepen_descendants ws [] d = Keeps-pure tt
  Keeps-deepen_descendants ws (id ∷ ids) d = Keeps-increase_depth_many ws (id ∷ ids) d

  pub Keeps-propagate_depth :
      (ws id : String) (d : Option ℤ) (up : Bool) → Keeps Q (propagate_depth P ws id d up)
  unfolding propagate_depth
  Keeps-propagate_depth ws id d up = search (
    keeps_rules,
    Keeps-increas_depth,
    Keeps-select_all_descendant_ids P,
    Keeps-deepen_descendants,
  )
