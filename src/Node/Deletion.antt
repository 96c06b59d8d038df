-- ===== src/Node/Deletion.antt =====
-- `deleteNode` of node/node.service.ts where every check passes.
use aideep_backend.Common.{
  String, ◌≡◌, ap, ◌∙◌, Bool, true, false, not, some, [], ◌∷◌, ◌++◌, map, keep, arith, ◌==◌,
  any_of_found, if◌then◌else◌,
}
use aideep_backend.Infra.Action.{Outcome, returned}
use aideep_backend.Infra.Platform.{Platform}
use aideep_backend.Infra.Redis.Keys.{redis_key, workspace_sync}
use aideep_backend.Infra.Rows.{MemberRow}
use aideep_backend.Infra.World.{World, redis_del, broadcast, run_in_transaction}
use aideep_backend.Edge.Repository.{touches, delete_edges_by_node_id}
use aideep_backend.Node.Permission.{membership}
use aideep_backend.Node.Repository.{NodeOf, is_node, select_node_by_id, delete_node_row}
use aideep_backend.Node.Service.{may_edit, check_edit_permission, delete_node, delete_node_body}
use aideep_backend.Workspace.Repository.{check_workspace}
use aideep_backend.Ws.Event.{node_delete}

module _ (P : Platform) (ws user_id id : String) (w : World P) where
  abbrev is_row : NodeOf P → Bool
  is_row r = r.node_id == id

  abbrev marked : NodeOf P → NodeOf P
  marked r = record r { deleted_at = some w.now; updated_at = w.now }

  -- what the code asks of a deletion
  pub record CanDelete (row : MemberRow) (existing : NodeOf P) : Type 0 where
    pub member : membership P w user_id ws ≡ some row
    pub allowed : may_edit row.role ≡ true
    pub found : P.nodes.find_first w.nodes (is_node ws id) ≡ some existing

  mark-found :
      (existing : NodeOf P)
      → P.nodes.find_first w.nodes (is_node ws id) ≡ some existing
      → P.nodes.update w.nodes is_row marked ≡ some (P.nodes.update_many w.nodes is_row marked)
  mark-found existing found =
      let (m, t) = P.nodes.find_first_some w.nodes (is_node ws id) existing found in
      P.nodes.update_one w.nodes is_row marked
      ∙ rw (any_of_found is_row existing (P.nodes.rows w.nodes) m (ground (arith, t)))

  abbrev deleted : World P
  deleted = record w {
    nodes = P.nodes.update_many w.nodes is_row marked;
    edges = P.edges.delete_many w.edges (touches id);
    redis = P.redis.del w.redis (redis_key workspace_sync ws);
    sent = w.sent ++ node_delete ws id ∷ [];
    in_transaction = false;
  }

  delete_node-returned :
      (row : MemberRow) (existing : NodeOf P)
      → CanDelete row existing
      → w.outages ≡ []
      → w.in_transaction ≡ false
      → delete_node P ws user_id id w ≡ (returned "노드 삭제", deleted)
  unfolding delete_node run_in_transaction delete_node_body check_edit_permission check_workspace
      select_node_by_id delete_edges_by_node_id delete_node_row redis_del broadcast
  delete_node-returned row existing c answers out =
      ground (arith, out, c.member, c.allowed, c.found, mark-found existing c.found, answers)

  -- what a deletion is to do
  pub record Deletes (r : Outcome String × World P) : Type 0 where
    pub returns : r.0 ≡ returned "노드 삭제"
    pub nodes :
        P.nodes.rows r.1.nodes ≡ map (λ n. if is_row n then marked n else n) (P.nodes.rows w.nodes)
    pub edges : P.edges.rows r.1.edges ≡ keep (λ e. not (touches id e)) (P.edges.rows w.edges)
    pub redis : r.1.redis ≡ P.redis.del w.redis (redis_key workspace_sync ws)
    pub sent : r.1.sent ≡ w.sent ++ node_delete ws id ∷ []
    pub members : r.1.members ≡ w.members

  -- Where the user may edit the workspace, the node is there, Redis answers, the commit does not fail and no other transaction is open, a deletion returns: the node's row stays and is marked as deleted, all other rows stay as they are, the edges from and to the node are gone and all others stay, the cached view is deleted, and one event is sent.
  pub delete_node-Deletes :
      (row : MemberRow) (existing : NodeOf P)
      → CanDelete row existing
      → w.outages ≡ []
      → w.in_transaction ≡ false
      → Deletes (delete_node P ws user_id id w)
  delete_node-Deletes row existing c answers out =
      let done = delete_node-returned row existing c answers out in
      record {
        returns = ap (λ r. r.0) done;
        nodes =
            ap (λ r. P.nodes.rows r.1.nodes) done ∙ P.nodes.update_many_rows w.nodes is_row marked;
        edges =
            ap (λ r. P.edges.rows r.1.edges) done ∙ P.edges.delete_many_rows w.edges (touches id);
        redis = ap (λ r. r.1.redis) done;
        sent = ap (λ r. r.1.sent) done;
        members = ap (λ r. r.1.members) done;
      }
