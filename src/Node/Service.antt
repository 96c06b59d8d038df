-- ===== src/Node/Service.antt =====
-- node/node.service.ts
use aideep_backend.Common.{
  String, Bool, true, false, Option, none, some, List, [], ◌∷◌, ◌||◌, ◌&&◌, is_some, if◌then◌else◌,
}
use aideep_backend.Infra.Exception.{not_found, unauthorized}
use aideep_backend.Infra.Action.{pure, or_throw, ensure, ◌>>=◌, ◌>>◌}
use aideep_backend.Infra.Platform.{Platform, NodeInput}
use aideep_backend.Infra.Redis.Keys.{redis_key, workspace_sync}
use aideep_backend.Infra.Rows.{Json, Content, Role, owner, editor, viewer}
use aideep_backend.Infra.Rows.Int.{ℤ, pos, ◌+ℤ◌, negate}
use aideep_backend.Infra.World.{Handler, redis_del, broadcast, run_in_transaction}
use aideep_backend.Node.Content.{recolour}
use aideep_backend.Node.Repository.{
  NodeUpdates, NodeOf, select_node_by_id, insert_node, select_all_descendant_ids,
  select_nodes_by_ids, update_node_position_delta, update_node, delete_node_row, increas_depth,
  increase_depth_many,
}
use aideep_backend.Edge.Repository.{delete_edges_by_node_id}
use aideep_backend.Workspace.Repository.{check_workspace}
use aideep_backend.Ws.Event.{node_move, node_create, node_delete, node_update, CreatedNode, Patch}

-- `role === 'OWNER' || role === 'EDITOR'`
abbrev pub may_edit : Role → Bool
may_edit owner = true
may_edit editor = true
may_edit viewer = false

-- `class Node`, as the factories of node/node.model.ts fill it; its `id` is never set
pub record Node (Num : Type 0) : Type 0 where
  pub user_id : String
  pub input : NodeInput Num
  pub open input use *

-- `NodeMoveBody.position`
pub record NodeMoveBody (Num : Type 0) : Type 0 where
  pub x : Num
  pub y : Num

-- `@IsOptional()` lets a null through as well as a text, and a null that is given is stored
pub record UpdateNodeMetaBody : Type 0 where
  pub title : Option String
  pub color : Option Json
  pub text_color : Option Json
  pub propagate_to_children : Bool

abbrev is_empty {ℓ} : {A : Type ℓ} → List A → Bool
is_empty [] = true
is_empty (_ ∷ _) = false

-- `sourceDepth + 1` and `-sourceDepth`, where null counts as 0
abbrev pub depth_change : Option ℤ → Bool → ℤ
depth_change none true = pos 1
depth_change none false = pos 0
depth_change (some d) true = d +ℤ pos 1
depth_change (some d) false = negate d

-- `patch` of `updateNodeMeta`
abbrev pub meta_patch : UpdateNodeMetaBody → Content → Patch
meta_patch body content = record {
  title = body.title;
  content = if is_some body.color || is_some body.text_color then some content else none;
}

module _ (P : Platform) where
  unfoldable pub check_edit_permission : String → String → Handler P (Unit {0})
  check_edit_permission user_id workspace_id = do
    member ← check_workspace P user_id workspace_id
    row ← or_throw member (not_found "해당 유저의 워크스페이스가 존재하지 않습니다.")
    ensure (may_edit row.role) (unauthorized "노드를 수정할 권한이 없습니다.")

  abbrev pub created_node : NodeOf P → CreatedNode P.Num
  created_node r = record {
    node_id = r.node_id;
    title = r.title;
    node_type = r.node_type;
    position_x = r.position_x;
    position_y = r.position_y;
    content = r.content;
    created_at = P.to_date_string r.created_at;
  }

  -- the common body of `createProjectNode` and `createMarkdownNode`
  unfoldable pub create_node : Node P.Num → Handler P String
  create_node node = do
    check_edit_permission node.user_id node.workspace_id
    ans ← insert_node P node.input
    redis_del P (redis_key workspace_sync node.workspace_id)
    broadcast P (node_create ans.workspace_id node.user_id (created_node ans))
    pure ans.node_id

  unfoldable pub create_project_node : Node P.Num → Handler P String
  unfolding create_node
  create_project_node node = create_node node

  unfoldable pub create_markdown_node : Node P.Num → Handler P String
  unfolding create_node
  create_markdown_node node = create_node node

  unfoldable pub query_detail_node : String → String → String → Handler P (NodeOf P)
  query_detail_node workspace_id node_id user_id = do
    member ← check_workspace P user_id workspace_id
    _ ← or_throw member (not_found "해당 유저의 워크스페이스가 존재하지 않습니다.")
    node ← select_node_by_id P workspace_id node_id
    or_throw node (not_found "노드를 찾을 수 없습니다.")

  -- `currentNode.position_x ?? 0`
  abbrev pub or_zero : Option P.Num → P.Num
  or_zero none = P.zero_num
  or_zero (some v) = v

  unfoldable pub move_descendants : String → List String → P.Num → P.Num → Handler P (Unit {0})
  move_descendants workspace_id [] delta_x delta_y = pure tt
  move_descendants workspace_id (d ∷ ids) delta_x delta_y =
      update_node_position_delta P workspace_id (d ∷ ids) delta_x delta_y

  unfoldable pub update_node_position :
      NodeMoveBody P.Num → String → String → String → Handler P (Unit {0})
  unfolding move_descendants
  update_node_position body user_id workspace_id node_id = do
    check_edit_permission user_id workspace_id
    found ← select_node_by_id P workspace_id node_id
    current ← or_throw found (not_found "노드를 찾을 수 없습니다.")
    let delta_x = P.minus body.x (or_zero current.position_x)
    let delta_y = P.minus body.y (or_zero current.position_y)
    update_node P workspace_id node_id (record {
      title = none;
      position_x = some body.x;
      position_y = some body.y;
      content = none;
    })
    redis_del P (redis_key workspace_sync workspace_id)
    descendant_ids ← select_all_descendant_ids P workspace_id node_id
    move_descendants workspace_id descendant_ids delta_x delta_y
    broadcast P (node_move workspace_id user_id node_id body.x body.y)

  abbrev pub content_update : Option String → Content → NodeUpdates P.Num
  content_update title content = record {
    title = title;
    position_x = none;
    position_y = none;
    content = some content;
  }

  -- the `for` loop over the descendants
  unfoldable pub recolour_all :
      String → String → Option Json → Option Json → List (NodeOf P) → Handler P (Unit {0})
  recolour_all workspace_id user_id color text_color [] = pure tt
  recolour_all workspace_id user_id color text_color (d ∷ rest) = do
    let content = recolour color text_color d.content
    update_node P workspace_id d.node_id (content_update none content)
    broadcast P (
        node_update workspace_id d.node_id user_id
          (record { title = none; content = some content }))
    recolour_all workspace_id user_id color text_color rest

  unfoldable pub recolour_descendants :
      String → String → UpdateNodeMetaBody → List String → Handler P (Unit {0})
  unfolding recolour_all
  recolour_descendants workspace_id user_id body [] = pure tt
  recolour_descendants workspace_id user_id body (d ∷ ids) = do
    descendants ← select_nodes_by_ids P workspace_id (d ∷ ids)
    recolour_all workspace_id user_id body.color body.text_color descendants

  -- `if (propagateToChildren && (color !== undefined || textColor !== undefined))`
  unfoldable pub propagate_colours :
      Bool → String → String → String → UpdateNodeMetaBody → Handler P (Unit {0})
  unfolding recolour_descendants
  propagate_colours false user_id node_id workspace_id body = pure tt
  propagate_colours true user_id node_id workspace_id body = do
    descendant_ids ← select_all_descendant_ids P workspace_id node_id
    recolour_descendants workspace_id user_id body descendant_ids

  unfoldable pub update_node_meta :
      String → String → String → UpdateNodeMetaBody → Handler P (Unit {0})
  unfolding propagate_colours
  update_node_meta user_id node_id workspace_id body = do
    check_edit_permission user_id workspace_id
    found ← select_node_by_id P workspace_id node_id
    existing ← or_throw found (not_found "노드를 찾을 수 없습니다.")
    let content = recolour body.color body.text_color existing.content
    update_node P workspace_id node_id (content_update body.title content)
    redis_del P (redis_key workspace_sync workspace_id)
    broadcast P (node_update workspace_id existing.node_id user_id (meta_patch body content))
    propagate_colours
        (body.propagate_to_children && (is_some body.color || is_some body.text_color)) user_id
        node_id workspace_id body

  unfoldable pub deepen_descendants : String → List String → ℤ → Handler P (Unit {0})
  deepen_descendants workspace_id [] amount = pure tt
  deepen_descendants workspace_id (d ∷ ids) amount =
      increase_depth_many P workspace_id (d ∷ ids) amount

  unfoldable pub propagate_depth : String → String → Option ℤ → Bool → Handler P (Unit {0})
  unfolding deepen_descendants
  propagate_depth workspace_id target_id source_depth increase = do
    increas_depth P target_id (depth_change source_depth increase)
    descendant_ids ← select_all_descendant_ids P workspace_id target_id
    deepen_descendants workspace_id descendant_ids (depth_change source_depth increase)

  unfoldable pub delete_node_body : String → String → String → Handler P String
  delete_node_body workspace_id user_id node_id = do
    check_edit_permission user_id workspace_id
    found ← select_node_by_id P workspace_id node_id
    _ ← or_throw found (not_found "노드를 찾을 수 없습니다.")
    delete_edges_by_node_id P node_id
    delete_node_row P node_id
    redis_del P (redis_key workspace_sync workspace_id)
    broadcast P (node_delete workspace_id node_id)
    pure "노드 삭제"

  unfoldable pub delete_node : String → String → String → Handler P String
  unfolding delete_node_body
  delete_node workspace_id user_id node_id =
      run_in_transaction P (delete_node_body workspace_id user_id node_id)
