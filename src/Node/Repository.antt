-- ===== src/Node/Repository.antt =====
-- node/node.repository.ts, whose queries compare ids as texts: as uuids are compared for texts that are `IsId`
-- (Infra.Platform).
use aideep_backend.Common.{
  ◌+◌, String, Bool, not, Option, none, some, List, ◌==◌, ◌&&◌, any, contains, is_some,
}
use aideep_backend.Infra.Exception.{record_not_found, diverged}
use aideep_backend.Infra.Action.{returned, thrown}
use aideep_backend.Infra.Platform.{Platform, NodeInput}
use aideep_backend.Infra.Rows.{Content, NodeRow, EdgeRow}
use aideep_backend.Infra.Rows.Int.{ℤ, ◌+ℤ◌}
use aideep_backend.Infra.World.{World, Handler}
use aideep_backend.Node.Descendants.{live_links, descendants}

-- `where: { node_id, workspace_id, deleted_at: null }`
abbrev pub is_node : {Num : Type 0} → String → String → NodeRow Num → Bool
is_node workspace_id node_id r =
    r.node_id == node_id && (r.workspace_id == workspace_id && not (is_some r.deleted_at))

-- `where: { node_id: { in: nodeIds }, workspace_id, deleted_at: null }`
abbrev pub is_one_of : {Num : Type 0} → String → List String → NodeRow Num → Bool
is_one_of workspace_id node_ids r =
    contains node_ids r.node_id && (r.workspace_id == workspace_id && not (is_some r.deleted_at))

-- `{ increment: amount }` of a nullable column: NULL stays NULL
abbrev pub increment : ℤ → Option ℤ → Option ℤ
increment amount none = none
increment amount (some depth) = some (depth +ℤ amount)

-- `updates` of `updateNode`
pub record NodeUpdates (Num : Type 0) : Type 0 where
  pub title : Option String
  pub position_x : Option Num
  pub position_y : Option Num
  pub content : Option Content

-- `...(value !== undefined && { column: value })`
abbrev pub given {ℓ} : {A : Type ℓ} → Option A → A → A
given none old = old
given (some new) old = new

abbrev pub given_some {ℓ} : {A : Type ℓ} → Option A → Option A → Option A
given_some none old = old
given_some (some new) old = some new

abbrev pub updated : {Num : Type 0} → NodeUpdates Num → NodeRow Num → NodeRow Num
updated u r = record r {
  title = given u.title r.title;
  position_x = given_some u.position_x r.position_x;
  position_y = given_some u.position_y r.position_y;
  content = given_some u.content r.content;
  version = r.version + 1;
}

abbrev pub deepened : {Num : Type 0} → ℤ → NodeRow Num → NodeRow Num
deepened amount r = record r { depth = increment amount r.depth }

module _ (P : Platform) where
  abbrev pub NodeOf : Type 0
  NodeOf = NodeRow P.Num

  -- `workspaces: { users_workspaces: { some: { user_id } } }`
  abbrev pub shared_with : World P → String → String → Bool
  shared_with w user_id workspace_id =
      any (λ m. m.workspace_id == workspace_id && m.user_id == user_id) (P.members.rows w.members)

  -- `where` of `selectAllNode`
  abbrev pub is_listed_node : World P → String → String → NodeOf → Bool
  is_listed_node w workspace_id user_id r =
      r.workspace_id == workspace_id
      && (not (is_some r.deleted_at) && shared_with w user_id r.workspace_id)

  -- `where` of `selectAllEdge`
  abbrev pub is_listed_edge : World P → String → String → EdgeRow → Bool
  is_listed_edge w workspace_id user_id r =
      r.workspace_id == workspace_id
      && (not (is_some r.deleted_at) && shared_with w user_id r.workspace_id)

  unfoldable pub select_all_node : String → String → Handler P (List NodeOf)
  select_all_node workspace_id user_id w =
      (returned (P.nodes.find_many w.nodes (is_listed_node w workspace_id user_id)), w)

  unfoldable pub select_all_edge : String → String → Handler P (List EdgeRow)
  select_all_edge workspace_id user_id w =
      (returned (P.edges.find_many w.edges (is_listed_edge w workspace_id user_id)), w)

  unfoldable pub select_node_by_id : String → String → Handler P (Option NodeOf)
  select_node_by_id workspace_id node_id w =
      (returned (P.nodes.find_first w.nodes (is_node workspace_id node_id)), w)

  unfoldable pub insert_node : NodeInput P.Num → Handler P NodeOf
  insert_node input w =
      let made = P.nodes.create w.nodes input in (returned made.0, record w { nodes = made.1 })

  abbrev pub finished : Option (List String) → Handler P (List String)
  finished none w = (thrown diverged, w)
  finished (some ids) w = (returned ids, w)

  unfoldable pub select_all_descendant_ids : String → String → Handler P (List String)
  select_all_descendant_ids workspace_id node_id w =
      finished (descendants (live_links workspace_id (P.edges.rows w.edges)) node_id) w

  unfoldable pub select_nodes_by_ids : String → List String → Handler P (List NodeOf)
  select_nodes_by_ids workspace_id node_ids w =
      (returned (P.nodes.find_many w.nodes (is_one_of workspace_id node_ids)), w)

  -- `increment` of a nullable position
  abbrev shifted : P.Num → Option P.Num → Option P.Num
  shifted delta none = none
  shifted delta (some v) = some (P.plus v delta)

  abbrev pub moved : P.Num → P.Num → NodeOf → NodeOf
  moved delta_x delta_y r = record r {
    position_x = shifted delta_x r.position_x;
    position_y = shifted delta_y r.position_y;
    version = r.version + 1;
  }

  unfoldable pub update_node_position_delta :
      String → List String → P.Num → P.Num → Handler P (Unit {0})
  update_node_position_delta workspace_id node_ids delta_x delta_y w = (
    returned tt,
    record w {
      nodes = P.nodes.update_many w.nodes (is_one_of workspace_id node_ids) (moved delta_x delta_y);
    },
  )

  abbrev pub stored_nodes : Option P.nodes.Store → Handler P (Unit {0})
  stored_nodes none w = (thrown record_not_found, w)
  stored_nodes (some nodes) w = (returned tt, record w { nodes = nodes })

  unfoldable pub update_node : String → String → NodeUpdates P.Num → Handler P (Unit {0})
  update_node workspace_id node_id updates w =
      stored_nodes (P.nodes.update w.nodes (is_node workspace_id node_id) (updated updates)) w

  -- `deleteNode`: the row stays, marked as deleted
  unfoldable pub delete_node_row : String → Handler P (Unit {0})
  delete_node_row node_id w =
      stored_nodes
        (P.nodes.update w.nodes (λ r. r.node_id == node_id)
          (λ r. record r { deleted_at = some w.now; updated_at = w.now }))
        w

  unfoldable pub increas_depth : String → ℤ → Handler P (Unit {0})
  increas_depth node_id increase w =
      stored_nodes (P.nodes.update w.nodes (λ r. r.node_id == node_id) (deepened increase)) w

  unfoldable pub increase_depth_many : String → List String → ℤ → Handler P (Unit {0})
  increase_depth_many workspace_id node_ids amount w = (
    returned tt,
    record w {
      nodes = P.nodes.update_many w.nodes (is_one_of workspace_id node_ids) (deepened amount);
    },
  )
