-- ===== src/Node/Move.antt =====
-- `updateNodePosition` of node/node.service.ts: what a move does to the tables and to the clients.
pub mod Subtree
use aideep_backend.Common.{
  any_of_found, String, ◌≡◌, refl, sym, ap, ◌∙◌, subst, Bool, true, false, not, ◌&&◌, Option, none,
  some, List, [], ◌∷◌, ◌++◌, map, arith, any, contains, is_some, ◌==◌, if◌then◌else◌, Memᴰ,
  Memᴰ-nil, Memᴰ-cons, ⊎_elim,
}
use aideep_backend.Infra.Action.{Outcome, returned, thrown}
use aideep_backend.Infra.Platform.{Platform}
use aideep_backend.Infra.Redis.Keys.{redis_key, workspace_sync}
use aideep_backend.Infra.Rows.{NodeRow, MemberRow}
use aideep_backend.Infra.World.{World, Handler, redis_del, broadcast}
use aideep_backend.Node.Descendants.{live_links, descendants}
use aideep_backend.Node.Repository.{
  NodeOf, NodeUpdates, is_node, is_one_of, updated, moved, select_node_by_id, update_node,
  update_node_position_delta, select_all_descendant_ids,
}
use aideep_backend.Node.Service.{
  NodeMoveBody, may_edit, check_edit_permission, or_zero, update_node_position, move_descendants,
}
use aideep_backend.Node.Permission.{membership}
use aideep_backend.Workspace.Repository.{check_workspace}
use aideep_backend.Ws.Event.{WsEvent, node_move}

module _ (P : Platform) (body : NodeMoveBody P.Num) where
  -- the change of the moved node's own row
  abbrev pub position_update : NodeUpdates P.Num
  position_update = record {
    title = none;
    position_x = some body.x;
    position_y = some body.y;
    content = none;
  }

  abbrev pub delta_x : NodeOf P → P.Num
  delta_x current = P.minus body.x (or_zero P current.position_x)

  abbrev pub delta_y : NodeOf P → P.Num
  delta_y current = P.minus body.y (or_zero P current.position_y)

  abbrev pub shift_nodes : String → NodeOf P → List String → P.nodes.Store → P.nodes.Store
  shift_nodes ws current [] nodes = nodes
  shift_nodes ws current (d ∷ ids) nodes =
      P.nodes.update_many nodes (is_one_of ws (d ∷ ids))
        (moved P (delta_x current) (delta_y current))

  module _ (user_id ws id : String) (w : World P) (row : MemberRow) (current : NodeOf P)
      (ids : List String) where
    -- the state behind the move
    abbrev pub after_move : World P
    after_move = record w {
      nodes =
          shift_nodes ws current ids
            (P.nodes.update_many w.nodes (is_node ws id) (updated position_update));
      redis = P.redis.del w.redis (redis_key workspace_sync ws);
      sent = w.sent ++ node_move ws user_id id body.x body.y ∷ [];
    }

    update_position-returned :
        P.nodes.find_first w.nodes (is_node ws id) ≡ some current
        → P.nodes.update w.nodes (is_node ws id) (updated position_update)
          ≡ some (P.nodes.update_many w.nodes (is_node ws id) (updated position_update))
    update_position-returned found =
        let (m, t) = P.nodes.find_first_some w.nodes (is_node ws id) current found in
        P.nodes.update_one w.nodes (is_node ws id) (updated position_update)
        ∙ rw (any_of_found (is_node ws id) current (P.nodes.rows w.nodes) m t)

    pub update_node_position-returned :
        membership P w user_id ws ≡ some row
        → may_edit row.role ≡ true
        → P.nodes.find_first w.nodes (is_node ws id) ≡ some current
        → descendants (live_links ws (P.edges.rows w.edges)) id ≡ some ids
        → w.outages ≡ []
        → update_node_position P body user_id ws id w ≡ (returned tt, after_move)
    unfolding update_node_position check_edit_permission check_workspace select_node_by_id
        update_node redis_del select_all_descendant_ids move_descendants update_node_position_delta
        broadcast
    update_node_position-returned member allowed found below answers =
        ground (arith, update_position-returned found)
