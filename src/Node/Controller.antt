-- ===== src/Node/Controller.antt =====
-- node/node.controller.ts; the user is `req.user.user_id`, which the guard set.
use aideep_backend.Common.{String}
use aideep_backend.Infra.Action.{Outcome, pure, ◌>>=◌}
use aideep_backend.Infra.Platform.{Platform}
use aideep_backend.Infra.World.{Handler}
use aideep_backend.Node.Model.{
  CreateNodeBody, ProjectBody, MarkDownBody, from_project_dto, from_mark_down_dto,
}
use aideep_backend.Node.Repository.{NodeOf}
use aideep_backend.Node.Service as Service
use aideep_backend.Node.Service.{NodeMoveBody, UpdateNodeMetaBody}

-- `{ nodeId }`
pub record NodeIdReply : Type 0 where
  pub node_id : String

module _ (P : Platform) where
  -- a part that calls nothing and may throw
  abbrev pub run_pure : {A : Type 0} → Outcome A → Handler P A
  run_pure o w = (o, w)

  unfoldable pub create_project_node :
      String → CreateNodeBody P.Num ProjectBody → String → Handler P NodeIdReply
  create_project_node workspace_id body user_id = do
    node ← run_pure (from_project_dto P body workspace_id user_id)
    node_id ← Service.create_project_node P node
    pure (record { node_id = node_id })

  unfoldable pub create_markdown_node :
      String → CreateNodeBody P.Num MarkDownBody → String → Handler P NodeIdReply
  create_markdown_node workspace_id body user_id = do
    node ← run_pure (from_mark_down_dto P body workspace_id user_id)
    node_id ← Service.create_markdown_node P node
    pure (record { node_id = node_id })

  unfoldable pub query_detail_node : String → String → String → Handler P (NodeOf P)
  query_detail_node workspace_id node_id user_id =
      Service.query_detail_node P workspace_id node_id user_id

  unfoldable pub update_node_meta : UpdateNodeMetaBody → String → String → String → Handler P String
  update_node_meta body node_id workspace_id user_id = do
    _ ← Service.update_node_meta P user_id node_id workspace_id body
    pure "수정 성공"

  unfoldable pub move_node : NodeMoveBody P.Num → String → String → String → Handler P String
  move_node body node_id workspace_id user_id = do
    _ ← Service.update_node_position P body user_id workspace_id node_id
    pure "이동 성공"

  unfoldable pub delete_node : String → String → String → Handler P String
  delete_node workspace_id node_id user_id = Service.delete_node P workspace_id user_id node_id
