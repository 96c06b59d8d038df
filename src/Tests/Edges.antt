-- ===== src/Tests/Edges.antt =====
-- edge/edge.service.ts on the sample board.
use aideep_backend.Infra.Failure.{SameData}
use aideep_backend.Common.{String, ◌≡◌, refl, [], ◌∷◌, true, some, none, ◌↔◌}
use aideep_backend.Infra.Action.{throw, ◌>>=◌, returned, thrown}
use aideep_backend.Infra.Exception.{type_error, bad_request, rejected}
use aideep_backend.Infra.Transactions.{
  tables_behind, transactional, on_module_init, transactional-nested,
}
use aideep_backend.Infra.World.{World, run_in_transaction, redis_del, broadcast}
use aideep_backend.Edge.Cycle.{has_cycle, fill, push, next_of, search_from}
use aideep_backend.Edge.Repository.{
  HasIds, Edge, find_edge, find_all_edges_in_workspace, create_edge, delete_edges_by_node_id,
}
use aideep_backend.Edge.Service.{
  connect_nodes, check_connection, make_connection, check_edit_permission as check_edge_permission,
}
use aideep_backend.Edge.Service.Acyclic.{EdgesAcyclic, connect_nodes-EdgesAcyclic}
use aideep_backend.Edge.Service.Atomic.{Untouched, connect_nodes-thrown, delete_node-thrown}
use aideep_backend.Edge.Service.Connects.{Connects}
use aideep_backend.Infra.Rows.{data_node, editor}
use aideep_backend.Edge.Service.Disconnects.{Disconnects}
use aideep_backend.Edge.Walk.{link, Walk}
use aideep_backend.Edge.Cycle.Decides.{has_cycle_decides}
use aideep_backend.Node.Service.{
  delete_node, delete_node_body, check_edit_permission, propagate_depth, deepen_descendants,
}
use aideep_backend.Node.Deletion.{Deletes, delete_node-Deletes}
use aideep_backend.Node.Descendants.{descendants, live_links, union_all, join, distinct}
use aideep_backend.Node.Repository.{
  select_node_by_id, increas_depth, select_all_descendant_ids, increase_depth_many, delete_node_row,
}
use aideep_backend.Workspace.Repository.{check_workspace}
use aideep_backend.Samples.Tables.{sample}
use aideep_backend.Samples.Worlds.{board, member, node_at}
use aideep_backend.Tests.Graph.{board-AllAcyclic}

abbrev edge_dto : String → String → String → Edge
edge_dto user a b = record {
  workspace_id = "w";
  user_id = user;
  source_id = a;
  target_id = b;
  source_handle = "right";
  target_handle = "left";
}

-- the board, where the next Redis call fails
abbrev offline : World sample
offline = record board { outages = true ∷ [] }

a_to_b : (connect_nodes sample (edge_dto "eve" "b" "c") board).0 ≡ returned "00"
unfolding connect_nodes run_in_transaction check_connection check_edge_permission check_workspace
    select_node_by_id find_edge find_all_edges_in_workspace has_cycle fill push next_of search_from
    make_connection propagate_depth increas_depth select_all_descendant_ids deepen_descendants
    increase_depth_many create_edge redis_del broadcast descendants live_links union_all join
    distinct
a_to_b = refl

back :
    (connect_nodes sample (edge_dto "eve" "b" "a") board).0
    ≡ thrown (bad_request "역방향 엣지가 이미 존재합니다.")
unfolding connect_nodes run_in_transaction check_connection check_edge_permission check_workspace
    select_node_by_id find_edge find_all_edges_in_workspace
back = refl

known_ids : HasIds sample (edge_dto "eve" "b" "c")
known_ids = record { source_id = refl; target_id = refl; workspace_id = refl }

connect_nodes-EdgesAcyclic_example :
    EdgesAcyclic sample (connect_nodes sample (edge_dto "eve" "b" "c") board).1
connect_nodes-EdgesAcyclic_example =
    connect_nodes-EdgesAcyclic sample (edge_dto "eve" "b" "c") known_ids board board-AllAcyclic

connect_nodes-thrown_example :
    Untouched sample rejected (connect_nodes sample (edge_dto "eve" "b" "c") offline).1 offline
unfolding connect_nodes run_in_transaction check_connection check_edge_permission check_workspace
    select_node_by_id find_edge find_all_edges_in_workspace has_cycle fill push next_of search_from
    make_connection propagate_depth increas_depth select_all_descendant_ids deepen_descendants
    increase_depth_many create_edge redis_del broadcast descendants live_links union_all join
    distinct
connect_nodes-thrown_example =
    connect_nodes-thrown sample {e = rejected} (edge_dto "eve" "b" "c") offline refl refl

delete_node-thrown_example :
    Untouched sample rejected (delete_node sample "w" "eve" "a" offline).1 offline
unfolding delete_node run_in_transaction delete_node_body check_edit_permission check_workspace
    select_node_by_id delete_edges_by_node_id delete_node_row redis_del
delete_node-thrown_example =
    delete_node-thrown sample {e = rejected} "w" "eve" "a" offline refl refl

has_cycle_decides_example :
    (b : _) × (has_cycle "a" "b" (link "b" "c" ∷ link "c" "a" ∷ []) ≡ some b)
    × ((b ≡ true) ↔ ∥ Walk (link "b" "c" ∷ link "c" "a" ∷ []) "b" "a" ∥₁)
has_cycle_decides_example = has_cycle_decides "a" "b" (link "b" "c" ∷ link "c" "a" ∷ [])

delete_node-Deletes_example :
    Deletes sample "w" "eve" "a" board (delete_node sample "w" "eve" "a" board)
delete_node-Deletes_example =
    delete_node-Deletes sample "w" "eve" "a" board (member "eve" editor)
      (node_at "a" data_node 10 0) (record { member = refl; allowed = refl; found = refl }) refl
      refl

transactional-nested_example :
    let runner = on_module_init sample none in
    let r =
      transactional sample runner
        (λ (id : String).
          transactional sample runner (delete_node_body sample "w" "eve") id >>= λ _.
          throw type_error)
        "a"
        board in
    (r
      ≡ transactional sample runner
          (λ (id : String).
            delete_node_body sample "w" "eve" id >>= λ _. throw {A = String} type_error)
          "a"
          board)
    × SameData sample r.1 (tables_behind sample r.0 board r.1)
transactional-nested_example =
    transactional-nested sample none (delete_node_body sample "w" "eve") (λ _. throw type_error) "a"
      board refl
