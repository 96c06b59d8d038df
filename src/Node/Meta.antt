-- ===== src/Node/Meta.antt =====
-- `updateNodeMeta` of node/node.service.ts for the node itself.
pub mod Found
pub mod Below
pub mod Colours
pub mod Propagates
use aideep_backend.Common.{
  String, ◌≡◌, ap, ◌∙◌, Bool, true, false, ◌&&◌, ◌||◌, some, [], ◌∷◌, ◌++◌, map, arith,
  any_of_found, is_some, if◌then◌else◌,
}
use aideep_backend.Infra.Action.{Outcome, returned}
use aideep_backend.Infra.Platform.{Platform}
use aideep_backend.Infra.Redis.Keys.{redis_key, workspace_sync}
use aideep_backend.Infra.Rows.{MemberRow, Content}
use aideep_backend.Infra.World.{World, redis_del, broadcast}
use aideep_backend.Node.Content.{recolour}
use aideep_backend.Node.Permission.{membership}
use aideep_backend.Node.Repository.{
  NodeOf, NodeUpdates, is_node, updated, select_node_by_id, update_node,
}
use aideep_backend.Node.Service.{
  UpdateNodeMetaBody, may_edit, meta_patch, check_edit_permission, content_update,
  propagate_colours, update_node_meta,
}
use aideep_backend.Workspace.Repository.{check_workspace}
use aideep_backend.Ws.Event.{node_update}

module _ (P : Platform) (user_id id ws : String) (body : UpdateNodeMetaBody) (w : World P) where
  -- the new content of the node, and what is written to its row
  abbrev pub new_content : NodeOf P → Content
  new_content existing = recolour body.color body.text_color existing.content

  abbrev pub meta_update : NodeOf P → NodeUpdates P.Num
  meta_update existing = content_update P body.title (new_content existing)

  -- the change is to reach the nodes below
  abbrev pub propagates : Bool
  propagates = body.propagate_to_children && (is_some body.color || is_some body.text_color)

  abbrev pub after_meta : NodeOf P → World P
  after_meta existing = record w {
    nodes = P.nodes.update_many w.nodes (is_node ws id) (updated (meta_update existing));
    redis = P.redis.del w.redis (redis_key workspace_sync ws);
    sent =
        w.sent
        ++ node_update ws existing.node_id user_id (meta_patch body (new_content existing)) ∷ [];
  }

  -- a user who may edit the workspace, and whose node is there
  pub record CanChange (row : MemberRow) (existing : NodeOf P) : Type 0 where
    pub member : membership P w user_id ws ≡ some row
    pub allowed : may_edit row.role ≡ true
    pub found : P.nodes.find_first w.nodes (is_node ws id) ≡ some existing
    pub answers : w.outages ≡ []

  pub update_meta-found :
      (existing : NodeOf P)
      → P.nodes.find_first w.nodes (is_node ws id) ≡ some existing
      → P.nodes.update w.nodes (is_node ws id) (updated (meta_update existing))
        ≡ some (P.nodes.update_many w.nodes (is_node ws id) (updated (meta_update existing)))
  update_meta-found existing found =
      let (m, t) = P.nodes.find_first_some w.nodes (is_node ws id) existing found in
      P.nodes.update_one w.nodes (is_node ws id) (updated (meta_update existing))
      ∙ rw (any_of_found (is_node ws id) existing (P.nodes.rows w.nodes) m t)

  update_node_meta-returned :
      (row : MemberRow) (existing : NodeOf P)
      → CanChange row existing
      → propagates ≡ false
      → update_node_meta P user_id id ws body w ≡ (returned tt, after_meta existing)
  unfolding update_node_meta check_edit_permission check_workspace select_node_by_id update_node
      redis_del broadcast propagate_colours
  update_node_meta-returned row existing c alone =
      ground
        (arith, c.member, c.allowed, c.found, c.answers, update_meta-found existing c.found, alone)

  -- what a change of the node alone is to do
  pub record ChangesNode (existing : NodeOf P) (r : Outcome (Unit {0}) × World P) : Type 0 where
    pub returns : r.0 ≡ returned tt
    pub nodes :
        P.nodes.rows r.1.nodes
        ≡ map
            (λ n. if is_node ws id n then updated (meta_update existing) n else n)
            (P.nodes.rows w.nodes)
    pub redis : r.1.redis ≡ P.redis.del w.redis (redis_key workspace_sync ws)
    pub sent :
        r.1.sent
        ≡ w.sent
          ++ node_update ws existing.node_id user_id (meta_patch body (new_content existing)) ∷ []
    pub edges : r.1.edges ≡ w.edges

  -- Where the user may edit the workspace, the node is there, Redis answers and the request does not ask to recolour the nodes below, a change of title and colours returns: the node's row gets the given title and the recoloured content, all other rows stay as they are, the cached view is deleted, and one event carries what was given.
  pub update_node_meta-ChangesNode :
      (row : MemberRow) (existing : NodeOf P)
      → CanChange row existing
      → propagates ≡ false
      → ChangesNode existing (update_node_meta P user_id id ws body w)
  update_node_meta-ChangesNode row existing c alone =
      let done = update_node_meta-returned row existing c alone in
      record {
        returns = ap (λ r. r.0) done;
        nodes =
            ap (λ r. P.nodes.rows r.1.nodes) done
            ∙ P.nodes.update_many_rows w.nodes (is_node ws id) (updated (meta_update existing));
        redis = ap (λ r. r.1.redis) done;
        sent = ap (λ r. r.1.sent) done;
        edges = ap (λ r. r.1.edges) done;
      }
