-- ===== src/Http/Frame/Members.antt =====
-- What the requests of workspace/workspace.service.ts and user/user.service.ts do to the edges.
use aideep_backend.Common.{String, Option, none, some}
use aideep_backend.Edge.Service.Acyclic.{EdgesAcyclic, IsData-EdgesAcyclic}
use aideep_backend.Infra.Codec.{Codec}
use aideep_backend.Infra.Frame.{Keeps-run_in_transaction}
use aideep_backend.Infra.Keeps.{Keeps}
use aideep_backend.Infra.Platform.{Platform, WorkspaceInput}
use aideep_backend.Infra.Rows.{Role}
use aideep_backend.Infra.World.{draw_code}
use aideep_backend.Node.Frame.{Keeps-check_workspace}
use aideep_backend.Node.Repository.{select_all_node, select_all_edge}
use aideep_backend.User.Repository.{find_by_user_id, find_user_info}
use aideep_backend.Workspace.Repository.{
  select_user_workspace, insert_workspace, insert_workspace_user,
}
use aideep_backend.Workspace.Service as Workspace
use aideep_backend.Workspace.Service.{
  CreateWorkspaceBody, WorkspaceInfo, InviteBody, Invitation, cached_or_read,
}
use aideep_backend.Http.Frame.{frame_rules}

module _ (P : Platform) where
  -- what reads or writes other tables only
  pub Keeps-draw_code : Keeps (EdgesAcyclic P) (draw_code P)
  unfolding draw_code
  Keeps-draw_code = record { at = λ w q. q }

  pub Keeps-find_by_user_id : (id : String) → Keeps (EdgesAcyclic P) (find_by_user_id P id)
  unfolding find_by_user_id
  Keeps-find_by_user_id id = record { at = λ w q. q }

  pub Keeps-user_workspace_info :
      (id : String) → Keeps (EdgesAcyclic P) (Workspace.user_workspace_info P id)
  unfolding Workspace.user_workspace_info select_user_workspace
  Keeps-user_workspace_info id = record { at = λ w q. q }

  Keeps-insert_workspace : (i : WorkspaceInput) → Keeps (EdgesAcyclic P) (insert_workspace P i)
  unfolding insert_workspace
  Keeps-insert_workspace i = record { at = λ w q. q }

  Keeps-insert_workspace_user :
      (user_id ws : String) (role : Role)
      → Keeps (EdgesAcyclic P) (insert_workspace_user P user_id ws role)
  unfolding insert_workspace_user
  Keeps-insert_workspace_user user_id ws role = record { at = λ w q. q }

  Keeps-select_all_node :
      (ws user_id : String) → Keeps (EdgesAcyclic P) (select_all_node P ws user_id)
  unfolding select_all_node
  Keeps-select_all_node ws user_id = record { at = λ w q. q }

  Keeps-select_all_edge :
      (ws user_id : String) → Keeps (EdgesAcyclic P) (select_all_edge P ws user_id)
  unfolding select_all_edge
  Keeps-select_all_edge ws user_id = record { at = λ w q. q }

  pub Keeps-find_user_info : (id : String) → Keeps (EdgesAcyclic P) (find_user_info P id)
  unfolding find_user_info
  Keeps-find_user_info id = search (frame_rules, Keeps-find_by_user_id)

  pub Keeps-create_workspace :
      (user_id : String) (body : CreateWorkspaceBody)
      → Keeps (EdgesAcyclic P) (Workspace.create_workspace P user_id body)
  unfolding Workspace.create_workspace
  Keeps-create_workspace user_id body =
      Keeps-run_in_transaction P (IsData-EdgesAcyclic P) _
        (search (frame_rules, Keeps-insert_workspace, Keeps-insert_workspace_user))

  Keeps-cached_or_read :
      (C : Codec (WorkspaceInfo P.Num)) (cached : Option String) (user_id ws : String)
      → Keeps (EdgesAcyclic P) (cached_or_read P C cached user_id ws)
  unfolding cached_or_read
  Keeps-cached_or_read C (some cached) user_id ws = search frame_rules
  Keeps-cached_or_read C none user_id ws =
      search (frame_rules, Keeps-select_all_node, Keeps-select_all_edge)

  pub Keeps-get_workspace_info :
      (C : Codec (WorkspaceInfo P.Num)) (user_id ws : String)
      → Keeps (EdgesAcyclic P) (Workspace.get_workspace_info P C user_id ws)
  unfolding Workspace.get_workspace_info
  Keeps-get_workspace_info C user_id ws =
      search (frame_rules, Keeps-check_workspace P, Keeps-cached_or_read C)

  pub Keeps-invite_to_workspace :
      (C : Codec Invitation) (body : InviteBody) (user_id : String)
      → Keeps (EdgesAcyclic P) (Workspace.invite_to_workspace P C body user_id)
  unfolding Workspace.invite_to_workspace
  Keeps-invite_to_workspace C body user_id =
      search (frame_rules, Keeps-check_workspace P, Keeps-draw_code)

  pub Keeps-join_workspace :
      (C : Codec Invitation) (code user_id ws : String)
      → Keeps (EdgesAcyclic P) (Workspace.join_workspace P C code user_id ws)
  unfolding Workspace.join_workspace
  Keeps-join_workspace C code user_id ws =
      search (frame_rules, Keeps-check_workspace P, Keeps-insert_workspace_user) depth 12
