-- ===== src/Node/Move/Subtree.antt =====
-- `updateNodePosition` of node/node.service.ts moves a node with everything below it.
use aideep_backend.Common.{
  String, ◌≡◌, ap, ◌∙◌, true, false, some, List, [], ◌∷◌, ◌++◌, map, arith, contains, if◌then◌else◌,
  eq-cases, map-map_eq, inl, inr,
}
use aideep_backend.Infra.Action.{Outcome, returned}
use aideep_backend.Infra.Platform.{Platform}
use aideep_backend.Infra.Redis.Keys.{redis_key, workspace_sync}
use aideep_backend.Infra.Rows.{MemberRow}
use aideep_backend.Infra.World.{World}
use aideep_backend.Edge.Graph.{AllAcyclic}
use aideep_backend.Node.Descendants.Live.{IsBelow, finds_below}
use aideep_backend.Node.Move.{
  position_update, delta_x, delta_y, shift_nodes, update_node_position-returned,
}
use aideep_backend.Node.Permission.{membership}
use aideep_backend.Node.Repository.{NodeOf, is_node, is_one_of, updated, moved}
use aideep_backend.Node.Service.{NodeMoveBody, may_edit, update_node_position}
use aideep_backend.Ws.Event.{node_move}

module _ (P : Platform) (body : NodeMoveBody P.Num) (ws id : String) (current : NodeOf P)
    (ids : List String) where
  -- what the move makes of a row
  abbrev pub moved_row : NodeOf P → NodeOf P
  moved_row r =
      if is_node ws id r
      then updated (position_update P body) r
      else if is_one_of ws ids r
      then moved P (delta_x P body current) (delta_y P body current) r
      else r

  abbrev placed : NodeOf P → NodeOf P
  placed r = if is_node ws id r then updated (position_update P body) r else r

  moved_row-descendants :
      (r : NodeOf P)
      → contains ids id ≡ false
      → (if is_one_of ws ids (placed r)
          then moved P (delta_x P body current) (delta_y P body current) (placed r)
          else placed r)
        ≡ moved_row r
  moved_row-descendants r apart = elim (eq-cases r.node_id id) [
    | inl (t, e) ↦
        let elsewhere : contains ids r.node_id ≡ false = ap (contains ids) e ∙ apart in ground arith
    | inr (f, _) ↦ ground arith
  ]

module _ (P : Platform) (body : NodeMoveBody P.Num) (ws id : String) (current : NodeOf P) where
  shift_nodes-rows :
      (ids : List String) (nodes : P.nodes.Store)
      → contains ids id ≡ false
      → P.nodes.rows (
          shift_nodes P body ws current ids
            (P.nodes.update_many nodes (is_node ws id) (updated (position_update P body))))
        ≡ map (moved_row P body ws id current ids) (P.nodes.rows nodes)
  shift_nodes-rows [] nodes apart =
      P.nodes.update_many_rows nodes (is_node ws id) (updated (position_update P body))
  shift_nodes-rows (d ∷ ids) nodes apart =
      P.nodes.update_many_rows _ _ _
      ∙ ap (map _) (P.nodes.update_many_rows nodes _ _)
      ∙ map-map_eq (placed P body ws id current ids) _ (moved_row P body ws id current (d ∷ ids))
          (λ r. moved_row-descendants P body ws id current (d ∷ ids) r apart) (P.nodes.rows nodes)

module _ (P : Platform) (body : NodeMoveBody P.Num) (user_id ws id : String) (w : World P) where
  -- a user who may edit the workspace, and whose node is there
  pub record CanMove (row : MemberRow) (current : NodeOf P) : Type 0 where
    pub member : membership P w user_id ws ≡ some row
    pub allowed : may_edit row.role ≡ true
    pub found : P.nodes.find_first w.nodes (is_node ws id) ≡ some current

  -- what a move is to do, below the node `ids`
  pub record MovesSubtree (current : NodeOf P) (ids : List String)
      (r : Outcome (Unit {0}) × World P) : Type 0 where
    pub returns : r.0 ≡ returned tt
    pub below : IsBelow P ws id w.edges ids
    pub nodes :
        P.nodes.rows r.1.nodes ≡ map (moved_row P body ws id current ids) (P.nodes.rows w.nodes)
    pub redis : r.1.redis ≡ P.redis.del w.redis (redis_key workspace_sync ws)
    pub sent : r.1.sent ≡ w.sent ++ node_move ws user_id id body.x body.y ∷ []
    pub edges : r.1.edges ≡ w.edges
    pub members : r.1.members ≡ w.members
    pub outages : r.1.outages ≡ w.outages

  pub update_node_position-MovesSubtree :
      (row : MemberRow) (current : NodeOf P)
      → CanMove row current
      → AllAcyclic P w.edges
      → w.outages ≡ []
      → (ids : List String) × MovesSubtree current ids (update_node_position P body user_id ws id w)
  update_node_position-MovesSubtree row current can acyclic answers =
      let (ids, finds) = finds_below P ws id w.edges acyclic in
      let moved_to =
        update_node_position-returned P body user_id ws id w row current ids can.member can.allowed
          can.found finds.found answers in
      (
        ids,
        record {
          returns = ap (λ r. r.0) moved_to;
          below = finds.below;
          nodes =
              ap (λ r. P.nodes.rows r.1.nodes) moved_to
              ∙ shift_nodes-rows P body ws id current ids w.nodes finds.apart;
          redis = ap (λ r. r.1.redis) moved_to;
          sent = ap (λ r. r.1.sent) moved_to;
          edges = ap (λ r. r.1.edges) moved_to;
          members = ap (λ r. r.1.members) moved_to;
          outages = ap (λ r. r.1.outages) moved_to;
        },
      )
