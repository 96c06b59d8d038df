-- ===== src/Workspace/Controller.antt =====
-- workspace/workspace.controller.ts; the user is `req.user.user_id`, which the guard set.
use aideep_backend.Common.{String, List}
use aideep_backend.Infra.Action.{pure, ◌>>◌}
use aideep_backend.Infra.Codec.{Codec}
use aideep_backend.Infra.Platform.{Platform}
use aideep_backend.Infra.World.{Handler}
use aideep_backend.Workspace.Repository.{UserWorkspace}
use aideep_backend.Workspace.Service as Service
use aideep_backend.Workspace.Service.{
  CreateWorkspaceBody, WorkspaceInfo, InviteBody, Invitation, InviteResponse,
}

module _ (P : Platform) where
  unfoldable pub workspace_list : String → Handler P (List UserWorkspace)
  workspace_list user_id = Service.user_workspace_info P user_id

  unfoldable pub create_workspace : CreateWorkspaceBody → String → Handler P String
  create_workspace body user_id = Service.create_workspace P user_id body

  unfoldable pub invite_workspace :
      Codec Invitation → InviteBody → String → Handler P InviteResponse
  invite_workspace C body user_id = Service.invite_to_workspace P C body user_id

  unfoldable pub join_workspace : Codec Invitation → String → String → String → Handler P String
  join_workspace C workspace_id code user_id = do
    Service.join_workspace P C code user_id workspace_id
    pure "참가 성공"

  unfoldable pub sync_workspace :
      Codec (WorkspaceInfo P.Num) → String → String → Handler P (WorkspaceInfo P.Num)
  sync_workspace C workspace_id user_id = Service.get_workspace_info P C user_id workspace_id
