-- ===== src/Workspace/Service/View.antt =====
-- `getWorkspaceInfo` of workspace/workspace.service.ts, with the view of a workspace that it keeps in Redis.
use aideep_backend.Common.{String, ◌≡◌, refl, ap, ◌∙◌, Option, none, some, [], arith}
use aideep_backend.Infra.Action.{returned}
use aideep_backend.Infra.Codec.{Codec}
use aideep_backend.Infra.Platform.{Platform}
use aideep_backend.Infra.Redis.{ex}
use aideep_backend.Infra.Redis.Keys.{redis_key, workspace_sync}
use aideep_backend.Infra.Redis.Lookups.{get_set_same, get_del_same}
use aideep_backend.Infra.Rows.{MemberRow}
use aideep_backend.Infra.World.{World, redis_get, redis_set}
use aideep_backend.Edge.Graph.{AllAcyclic}
use aideep_backend.Node.Move.Subtree.{CanMove, update_node_position-MovesSubtree}
use aideep_backend.Node.Permission.{membership}
use aideep_backend.Node.Repository.{
  NodeOf, is_listed_node, is_listed_edge, select_all_node, select_all_edge,
}
use aideep_backend.Node.Service.{NodeMoveBody, update_node_position}
use aideep_backend.Workspace.Repository.{check_workspace, is_member}
use aideep_backend.Workspace.Service.{WorkspaceInfo, cached_or_read, get_workspace_info}

module _ (P : Platform) (C : Codec (WorkspaceInfo P.Num)) where
  -- the nodes and edges of the workspace that the tables show the user
  abbrev pub view_of : World P → String → String → WorkspaceInfo P.Num
  view_of w user_id workspace_id = record {
    nodes = P.nodes.find_many w.nodes (is_listed_node P w workspace_id user_id);
    edges = P.edges.find_many w.edges (is_listed_edge P w workspace_id user_id);
  }

  abbrev pub cached_view : World P → String → Option String
  cached_view w workspace_id = P.redis.get w.redis (redis_key workspace_sync workspace_id)

  -- the user is a member of the workspace, and Redis answers
  pub record CanRead (user_id workspace_id : String) (row : MemberRow) (w : World P) : Type 0 where
    pub member : membership P w user_id workspace_id ≡ some row
    pub answers : w.outages ≡ []

  abbrev with_view : String → WorkspaceInfo P.Num → World P → World P
  with_view workspace_id view w = record w {
    redis = P.redis.set w.redis (redis_key workspace_sync workspace_id) (C.encode view) (ex 600);
  }

  get_workspace_info-missing :
      (user_id workspace_id : String) (row : MemberRow) (w : World P)
      → CanRead user_id workspace_id row w
      → cached_view w workspace_id ≡ none
      → get_workspace_info P C user_id workspace_id w ≡ (
        returned (view_of w user_id workspace_id),
        with_view workspace_id (view_of w user_id workspace_id) w,
      )
  unfolding get_workspace_info check_workspace redis_get cached_or_read select_all_node
      select_all_edge redis_set
  get_workspace_info-missing user_id workspace_id row w c missing =
      ground (arith, c.member, c.answers, missing)

  get_workspace_info-cached :
      (user_id workspace_id : String) (row : MemberRow) (w : World P) (view : WorkspaceInfo P.Num)
      → CanRead user_id workspace_id row w
      → cached_view w workspace_id ≡ some (C.encode view)
      → get_workspace_info P C user_id workspace_id w ≡ (returned view, w)
  unfolding get_workspace_info check_workspace redis_get cached_or_read
  get_workspace_info-cached user_id workspace_id row w view c there =
      ground (arith, c.member, c.answers, there, C.decode_encode view, C.encode_nonempty view)

  -- Where no view of the workspace is cached and Redis answers, a member's request returns the view of the tables, and any member's next request returns that same view from the cache and changes nothing.
  pub get_workspace_info-cached_view :
      (user_id other workspace_id : String) (row other_row : MemberRow) (w : World P)
      → CanRead user_id workspace_id row w
      → membership P w other workspace_id ≡ some other_row
      → cached_view w workspace_id ≡ none
      → let r = get_workspace_info P C user_id workspace_id w in
        (r.0 ≡ returned (view_of w user_id workspace_id))
        × (get_workspace_info P C other workspace_id r.1
            ≡ (returned (view_of w user_id workspace_id), r.1))
  get_workspace_info-cached_view user_id other workspace_id row other_row w c member missing =
      rw (get_workspace_info-missing user_id workspace_id row w c missing) (
        refl,
        get_workspace_info-cached other workspace_id other_row _ _
            (record { member = member; answers = c.answers })
            (get_set_same P.redis w.redis (redis_key workspace_sync workspace_id) _ (ex 600)),
      )

  -- Whatever view was cached before, any member's request directly behind a move that returned is answered with the view that the moved tables give that member: where the mover may edit, the node is there, no workspace's graph has a cycle and Redis answers.
  pub update_node_position-view_of :
      (body : NodeMoveBody P.Num) (user_id reader workspace_id id : String) (row other : MemberRow)
      (current : NodeOf P) (w : World P)
      → CanMove P body user_id workspace_id id w row current
      → membership P w reader workspace_id ≡ some other
      → AllAcyclic P w.edges
      → w.outages ≡ []
      → let t = (update_node_position P body user_id workspace_id id w).1 in
        (get_workspace_info P C reader workspace_id t).0 ≡ returned (view_of t reader workspace_id)
  update_node_position-view_of body user_id reader workspace_id id row other current w can member
        acyclic answers =
      let (ids, moves) =
        update_node_position-MovesSubtree P body user_id workspace_id id w row current can acyclic
          answers in
      ap (λ r. r.0)
        (get_workspace_info-missing reader workspace_id other _
          (record {
            member =
                ap (λ m. P.members.find_first m (is_member reader workspace_id)) moves.members
                ∙ member;
            answers = moves.outages ∙ answers;
          })
          (ap (λ s. P.redis.get s (redis_key workspace_sync workspace_id)) moves.redis
            ∙ get_del_same P.redis w.redis (redis_key workspace_sync workspace_id)))
