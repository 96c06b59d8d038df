-- ===== src/Edge/Service/Connects.antt =====
-- `connectNodes` of edge/edge.service.ts where every check passes.
use aideep_backend.Common.{
  String, ◌≡◌, true, false, ◌&&◌, Option, none, some, List, [], ◌∷◌, ◌++◌, map, ◌==◌,
}
use aideep_backend.Infra.Action.{Outcome, returned}
use aideep_backend.Infra.Platform.{Platform, HoldsEdge}
use aideep_backend.Infra.Redis.Keys.{redis_key, workspace_sync}
use aideep_backend.Infra.Rows.{EdgeRow, MemberRow}
use aideep_backend.Infra.World.{World}
use aideep_backend.Edge.Repository.{row_link, Edge, edge_input}
use aideep_backend.Edge.Service.{is_project, created_edge}
use aideep_backend.Edge.Service.Checks.{asked_links}
use aideep_backend.Edge.Walk.{link, Walk}
use aideep_backend.Node.Descendants.Live.{IsBelow}
use aideep_backend.Node.Depth.{with_depths, deepened_row}
use aideep_backend.Node.Permission.{membership}
use aideep_backend.Node.Repository.{NodeOf, is_node}
use aideep_backend.Node.Service.{may_edit, depth_change}
use aideep_backend.Ws.Event.{edge_create}

module _ (P : Platform) (dto : Edge) (w : World P) where
  abbrev pub find_link : String → String → Option EdgeRow
  find_link a b = P.edges.find_first w.edges (λ r. r.source_id == a && r.target_id == b)

  -- what the code asks of a connection
  pub record CanConnect (row : MemberRow) (source target : NodeOf P) : Type 0 where
    pub member : membership P w dto.user_id dto.workspace_id ≡ some row
    pub allowed : may_edit row.role ≡ true
    pub differ : (dto.source_id == dto.target_id) ≡ false
    pub source_found :
        P.nodes.find_first w.nodes (is_node dto.workspace_id dto.source_id) ≡ some source
    pub target_found :
        P.nodes.find_first w.nodes (is_node dto.workspace_id dto.target_id) ≡ some target
    pub no_project : is_project target.node_type ≡ false
    pub no_edge : find_link dto.source_id dto.target_id ≡ none
    pub no_reverse : find_link dto.target_id dto.source_id ≡ none
    pub no_way_back : ¬ Walk (asked_links P dto w) dto.target_id dto.source_id

  abbrev made : EdgeRow
  made = (P.edges.create w.edges (edge_input dto)).0

  -- the state behind the connection
  abbrev connected : NodeOf P → List String → World P
  connected source ids =
      record (with_depths P dto.workspace_id dto.target_id source.depth true ids w) {
        edges = (P.edges.create w.edges (edge_input dto)).1;
        redis = P.redis.del w.redis (redis_key workspace_sync dto.workspace_id);
        sent = w.sent ++ edge_create dto.workspace_id dto.user_id (created_edge dto made) ∷ [];
      }

module _ (P : Platform) (dto : Edge) (w : World P) where
  -- what a connection is to do, where the nodes below the target are `ids`
  pub record Connects (source : NodeOf P) (ids : List String) (r : Outcome String × World P)
      : Type 0 where
    pub edge : EdgeRow
    pub returns : r.0 ≡ returned edge.edge_id
    pub ends : row_link edge ≡ link dto.source_id dto.target_id
    pub workspace : edge.workspace_id ≡ dto.workspace_id
    pub holds : HoldsEdge P.uuid (edge_input dto) edge
    pub edges : P.edges.rows r.1.edges ≡ P.edges.rows w.edges ++ edge ∷ []
    pub below : IsBelow P dto.workspace_id dto.target_id w.edges ids
    pub nodes :
        P.nodes.rows r.1.nodes
        ≡ map
            (deepened_row P dto.workspace_id dto.target_id (depth_change source.depth true) ids)
            (P.nodes.rows w.nodes)
    pub redis : r.1.redis ≡ P.redis.del w.redis (redis_key workspace_sync dto.workspace_id)
    pub sent :
        r.1.sent ≡ w.sent ++ edge_create dto.workspace_id dto.user_id (created_edge dto edge) ∷ []
