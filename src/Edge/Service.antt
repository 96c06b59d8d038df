-- ===== src/Edge/Service.antt =====
-- edge/edge.service.ts; `hasCycle` is in `Edge.Cycle`.
pub mod Checks
pub mod Connects
pub mod Disconnects
pub mod Acyclic
pub mod Atomic
pub mod Delete
use aideep_backend.Common.{String, Bool, true, false, not, Option, none, some, List, ◌==◌, is_some}
use aideep_backend.Infra.Exception.{bad_request, forbidden, not_found, type_error, diverged}
use aideep_backend.Infra.Action.{
  Outcome, returned, Action, pure, throw, or_throw, ensure, resume, ◌>>=◌, ◌>>◌,
}
use aideep_backend.Infra.Platform.{Platform}
use aideep_backend.Infra.Redis.Keys.{redis_key, workspace_sync}
use aideep_backend.Infra.Rows.{NodeType, project, data_node, resource, NodeRow, EdgeRow, MemberRow}
use aideep_backend.Infra.World.{World, Handler, redis_del, broadcast, run_in_transaction}
use aideep_backend.Edge.Cycle.{has_cycle}
use aideep_backend.Edge.Repository.{
  Edge, find_edge, find_edge_by_id, find_all_edges_in_workspace, delete_edge_by_id, create_edge,
}
use aideep_backend.Node.Repository.{NodeOf, select_node_by_id}
use aideep_backend.Node.Service.{may_edit, propagate_depth}
use aideep_backend.Workspace.Repository.{check_workspace}
use aideep_backend.Ws.Event.{WsEvent, edge_create, edge_deleted, CreatedEdge}

abbrev pub is_project : NodeType → Bool
is_project project = true
is_project _ = false

abbrev pub created_edge : Edge → EdgeRow → CreatedEdge
created_edge dto r = record {
  edge_id = r.edge_id;
  source_id = dto.source_id;
  target_id = dto.target_id;
  source_handle = dto.source_handle;
  target_handle = dto.target_handle;
}

module _ (P : Platform) where
  unfoldable pub check_edit_permission : String → String → Handler P (Unit {0})
  check_edit_permission user_id workspace_id = do
    member ← check_workspace P user_id workspace_id
    row ← or_throw member (not_found "해당 유저의 워크스페이스가 존재하지 않습니다.")
    ensure (may_edit row.role) (forbidden "엣지를 수정할 권한이 없습니다.")

  -- The checks of `connectNodes`, up to the first write; the source node is what they return.
  unfoldable pub check_connection : Edge → Handler P (NodeOf P)
  check_connection dto = do
    check_edit_permission dto.user_id dto.workspace_id
    ensure (not (dto.source_id == dto.target_id)) (bad_request "자기 자신과 연결할 수 없습니다.")
    source? ← select_node_by_id P dto.workspace_id dto.source_id
    target? ← select_node_by_id P dto.workspace_id dto.target_id
    source ← or_throw source? (not_found "해당 노드가 존재하지 않습니다.")
    target ← or_throw target? (not_found "해당 노드가 존재하지 않습니다.")
    ensure (not (is_project target.node_type)) (bad_request "프로젝트 노드는 연결 할 수 없습니다")
    existing ← find_edge P dto.source_id dto.target_id
    ensure (not (is_some existing)) (bad_request "이미 존재하는 엣지입니다.")
    reverse ← find_edge P dto.target_id dto.source_id
    ensure (not (is_some reverse)) (bad_request "역방향 엣지가 이미 존재합니다.")
    all_edges ← find_all_edges_in_workspace P dto.workspace_id
    cyclic ← or_throw (has_cycle dto.source_id dto.target_id all_edges) diverged
    ensure (not cyclic) (bad_request "순환 관계가 생성됩니다.")
    pure source

  -- The writes of `connectNodes`.
  unfoldable pub make_connection : Edge → NodeOf P → Handler P String
  make_connection dto source = do
    propagate_depth P dto.workspace_id dto.target_id source.depth true
    result ← create_edge P dto
    redis_del P (redis_key workspace_sync dto.workspace_id)
    broadcast P (edge_create dto.workspace_id dto.user_id (created_edge dto result))
    pure result.edge_id

  unfoldable pub connect_nodes : Edge → Handler P String
  connect_nodes dto =
      run_in_transaction P (do source ← check_connection dto; make_connection dto source)

  unfoldable pub delete_edge : String → String → String → Handler P String
  delete_edge workspace_id user_id edge_id = do
    check_edit_permission user_id workspace_id
    found ← find_edge_by_id P edge_id
    edge ← or_throw found (not_found "해당 엣지가 존재하지 않습니다.")
    source? ← select_node_by_id P workspace_id edge.target_id
    source ← or_throw source? type_error
    propagate_depth P workspace_id edge.target_id source.depth false
    delete_edge_by_id P edge_id
    redis_del P (redis_key workspace_sync workspace_id)
    broadcast P (edge_deleted workspace_id user_id edge_id)
    pure "엣지 삭제"
