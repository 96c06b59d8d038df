-- ===== src/Edge/Service/Disconnects.antt =====
-- `deleteEdge` of edge/edge.service.ts where every check passes.
use aideep_backend.Common.{
  String, ◌≡◌, Bool, true, false, not, some, List, [], ◌∷◌, ◌++◌, map, keep, ◌==◌,
}
use aideep_backend.Infra.Action.{Outcome, returned}
use aideep_backend.Infra.Platform.{Platform}
use aideep_backend.Infra.Redis.Keys.{redis_key, workspace_sync}
use aideep_backend.Infra.Rows.{EdgeRow, MemberRow}
use aideep_backend.Infra.Rows.Int.{pos, ℤ}
use aideep_backend.Infra.World.{World}
use aideep_backend.Node.Descendants.Live.{IsBelow}
use aideep_backend.Node.Depth.{with_depths, deepened_row}
use aideep_backend.Node.Permission.{membership}
use aideep_backend.Node.Repository.{NodeOf, is_node, increment}
use aideep_backend.Node.Service.{may_edit, depth_change}
use aideep_backend.Ws.Event.{edge_deleted}

module _ (P : Platform) (ws user_id edge_id : String) (w : World P) where
  abbrev is_edge : EdgeRow → Bool
  is_edge r = r.edge_id == edge_id

  -- what the code asks of a deletion
  pub record CanDisconnect (row : MemberRow) (edge : EdgeRow) (target : NodeOf P) : Type 0 where
    pub member : membership P w user_id ws ≡ some row
    pub allowed : may_edit row.role ≡ true
    pub edge_found : P.edges.find_first w.edges is_edge ≡ some edge
    pub target_found : P.nodes.find_first w.nodes (is_node ws edge.target_id) ≡ some target

  -- the state behind the deletion
  abbrev disconnected : EdgeRow → NodeOf P → List String → World P
  disconnected edge target ids = record (with_depths P ws edge.target_id target.depth false ids w) {
    edges = P.edges.delete_many w.edges is_edge;
    redis = P.redis.del w.redis (redis_key workspace_sync ws);
    sent = w.sent ++ edge_deleted ws user_id edge_id ∷ [];
  }

  -- what a deletion is to do, where the nodes below the edge's target are `ids`
  pub record Disconnects (edge : EdgeRow) (target : NodeOf P) (ids : List String)
      (r : Outcome String × World P) : Type 0 where
    pub returns : r.0 ≡ returned "엣지 삭제"
    pub edges : P.edges.rows r.1.edges ≡ keep (λ e. not (is_edge e)) (P.edges.rows w.edges)
    pub below : IsBelow P ws edge.target_id w.edges ids
    pub nodes :
        P.nodes.rows r.1.nodes
        ≡ map
            (deepened_row P ws edge.target_id (depth_change target.depth false) ids)
            (P.nodes.rows w.nodes)
    pub to_top :
        (d : ℤ)
        → target.depth ≡ some d
        → increment (depth_change target.depth false) target.depth ≡ some (pos 0)
    pub redis : r.1.redis ≡ P.redis.del w.redis (redis_key workspace_sync ws)
    pub sent : r.1.sent ≡ w.sent ++ edge_deleted ws user_id edge_id ∷ []
