-- ===== src/Edge/Repository.antt =====
-- edge/edge.repository.ts and edge/edge.model.ts. The queries compare ids as texts: as uuids are compared for
-- texts that are `IsId` (Infra.Platform).
use aideep_backend.Common.{String, Bool, Option, none, some, List, map, ◌==◌, ◌&&◌, ◌||◌}
use aideep_backend.Infra.Exception.{record_not_found}
use aideep_backend.Infra.Action.{returned, thrown}
use aideep_backend.Infra.Platform.{Platform, IsId, EdgeInput}
use aideep_backend.Infra.Rows.{EdgeRow}
use aideep_backend.Infra.World.{Handler}
use aideep_backend.Edge.Walk.{Link, link}

-- `ConnectNodeDto`
pub record ConnectNodeDto : Type 0 where
  pub source_id : String
  pub target_id : String
  pub target_handle : String
  pub source_handle : String

-- `class Edge`; its `id` is never set
pub record Edge : Type 0 where
  pub workspace_id : String
  pub user_id : String
  pub source_id : String
  pub target_id : String
  pub source_handle : String
  pub target_handle : String

-- `Edge.create`
unfoldable pub edge_of_dto : ConnectNodeDto → String → String → Edge
edge_of_dto dto workspace_id user_id = record {
  workspace_id = workspace_id;
  user_id = user_id;
  source_id = dto.source_id;
  target_id = dto.target_id;
  source_handle = dto.source_handle;
  target_handle = dto.target_handle;
}

-- `select: { source_id: true, target_id: true }`
abbrev pub row_link : EdgeRow → Link
row_link r = link r.source_id r.target_id

abbrev pub edge_input : Edge → EdgeInput
edge_input dto = record {
  source_id = dto.source_id;
  target_id = dto.target_id;
  workspace_id = dto.workspace_id;
  source_handle = dto.source_handle;
  target_handle = dto.target_handle;
}

-- `where: { OR: [{ source_id: nodeId }, { target_id: nodeId }] }`
abbrev pub touches : String → EdgeRow → Bool
touches node_id r = r.source_id == node_id || r.target_id == node_id

-- the ids of the request are in the form in which the database returns them
pub record HasIds (P : Platform) (dto : Edge) : Type 0 where
  pub source_id : IsId P dto.source_id
  pub target_id : IsId P dto.target_id
  pub workspace_id : IsId P dto.workspace_id

module _ (P : Platform) where
  unfoldable pub find_edge : String → String → Handler P (Option EdgeRow)
  find_edge source_id target_id w = (
    returned
        (P.edges.find_first w.edges (λ r. r.source_id == source_id && r.target_id == target_id)),
    w,
  )

  unfoldable pub find_edge_by_id : String → Handler P (Option EdgeRow)
  find_edge_by_id edge_id w = (returned (P.edges.find_first w.edges (λ r. r.edge_id == edge_id)), w)

  pub find_edges_by_source : String → Handler P (List EdgeRow)
  find_edges_by_source source_id w =
      (returned (P.edges.find_many w.edges (λ r. r.source_id == source_id)), w)

  unfoldable pub find_all_edges_in_workspace : String → Handler P (List Link)
  find_all_edges_in_workspace workspace_id w =
      (returned (map row_link (P.edges.find_many w.edges (λ r. r.workspace_id == workspace_id))), w)

  unfoldable pub delete_edges_by_node_id : String → Handler P (Unit {0})
  delete_edges_by_node_id node_id w =
      (returned tt, record w { edges = P.edges.delete_many w.edges (touches node_id) })

  abbrev pub stored_edges : Option P.edges.Store → Handler P (Unit {0})
  stored_edges none w = (thrown record_not_found, w)
  stored_edges (some edges) w = (returned tt, record w { edges = edges })

  unfoldable pub delete_edge_by_id : String → Handler P (Unit {0})
  delete_edge_by_id edge_id w = stored_edges (P.edges.delete w.edges (λ r. r.edge_id == edge_id)) w

  unfoldable pub create_edge : Edge → Handler P EdgeRow
  create_edge dto w =
      let made = P.edges.create w.edges (edge_input dto) in
      (returned made.0, record w { edges = made.1 })
