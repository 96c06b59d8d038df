-- ===== src/Edge/Controller.antt =====
-- edge/edge.controller.ts; the user is `req.user.user_id`, which the guard set.
use aideep_backend.Common.{String}
use aideep_backend.Edge.Repository.{ConnectNodeDto, edge_of_dto}
use aideep_backend.Edge.Service as Service
use aideep_backend.Infra.Platform.{Platform}
use aideep_backend.Infra.World.{Handler}

module _ (P : Platform) where
  unfoldable pub connect_nodes : String → ConnectNodeDto → String → Handler P String
  connect_nodes workspace_id body user_id =
      Service.connect_nodes P (edge_of_dto body workspace_id user_id)

  unfoldable pub delete_edge : String → String → String → Handler P String
  delete_edge workspace_id edge_id user_id = Service.delete_edge P workspace_id user_id edge_id
