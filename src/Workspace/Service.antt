-- ===== src/Workspace/Service.antt =====
-- workspace/workspace.service.ts
pub mod Joining
pub mod Founding
pub mod View
use Prim.Native.String.{◌++◌ as ◌++ˢ◌}
use aideep_backend.Common.{
  String, Bool, true, false, not, Option, none, some, List, map, ◌==◌, is_some,
}
use aideep_backend.Infra.Action.{
  Outcome, returned, Action, pure, throw, or_throw, ensure, resume, ◌>>=◌, ◌>>◌,
}
use aideep_backend.Infra.Codec.{Codec}
use aideep_backend.Infra.Exception.{forbidden, not_found, syntax_error}
use aideep_backend.Infra.Platform.{Platform, WorkspaceInput}
use aideep_backend.Infra.Redis.{ex}
use aideep_backend.Infra.Redis.Keys.{redis_key, workspace_sync, invite_workspace}
use aideep_backend.Infra.Rows.{NodeRow, EdgeRow, MemberRow, Role, owner, editor, viewer}
use aideep_backend.Infra.Text.{truthy, to_string}
use aideep_backend.Infra.World.{World, Handler, redis_get, redis_set, draw_code, run_in_transaction}
use aideep_backend.Node.Repository.{NodeOf, select_all_node, select_all_edge}
use aideep_backend.Workspace.Repository.{
  UserWorkspace, check_workspace, select_user_workspace, insert_workspace, insert_workspace_user,
}

-- `CreateWorkspaceBody`
pub record CreateWorkspaceBody : Type 0 where
  pub title : String
  pub role : Role

-- `WorkspaceInfoDto`
pub record WorkspaceInfo (Num : Type 0) : Type 0 where
  pub nodes : List (NodeRow Num)
  pub edges : List EdgeRow

-- `JoinWorkspaceBody`, which `inviteWorkspace` takes
pub record InviteBody : Type 0 where
  pub workspace_id : String
  pub role : Role

-- `{ code, role }`
pub record Invitation : Type 0 where
  pub code : String
  pub role : Role

-- `InviteWOrkspaceResponseDto`
pub record InviteResponse : Type 0 where
  pub code : String
  pub url : String

abbrev pub can_invite : Option MemberRow → Bool
can_invite none = false
can_invite (some row) = elim row.role [ owner ↦ true | editor ↦ true | viewer ↦ false ]

module _ (P : Platform) where
  unfoldable pub create_workspace : String → CreateWorkspaceBody → Handler P String
  create_workspace user_id body = run_in_transaction P (do
    workspace ← insert_workspace P (record { title = body.title })
    insert_workspace_user P user_id workspace.workspace_id body.role
    pure workspace.workspace_id)

  unfoldable pub user_workspace_info : String → Handler P (List UserWorkspace)
  user_workspace_info user_id = select_user_workspace P user_id

  module _ (C : Codec (WorkspaceInfo P.Num)) where
    -- `return JSON.parse(cached)`, or the tables' view, which is then cached for ten minutes
    unfoldable pub cached_or_read :
        Option String → String → String → Handler P (WorkspaceInfo P.Num)
    cached_or_read (some cached) user_id workspace_id = or_throw (C.decode cached) syntax_error
    cached_or_read none user_id workspace_id = do
      nodes ← select_all_node P workspace_id user_id
      edges ← select_all_edge P workspace_id user_id
      let result : WorkspaceInfo P.Num = record { nodes = nodes; edges = edges }
      redis_set P (redis_key workspace_sync workspace_id) (C.encode result) (ex 600)
      pure result

    unfoldable pub get_workspace_info : String → String → Handler P (WorkspaceInfo P.Num)
    get_workspace_info user_id workspace_id = do
      check ← check_workspace P user_id workspace_id
      _ ← or_throw check (not_found "해당 유저의 워크스페이스가 존재하지 않습니다.")
      cached ← redis_get P (redis_key workspace_sync workspace_id)
      cached_or_read (truthy cached) user_id workspace_id

  module _ (C : Codec Invitation) where
    unfoldable pub invite_to_workspace : InviteBody → String → Handler P InviteResponse
    invite_to_workspace body user_id = do
      member ← check_workspace P user_id body.workspace_id
      ensure (can_invite member) (forbidden "해당 워크스페이스 맴버가 아니거나 워크스페이스에 대한 권한이 존재하지 않습니다")
      drawn ← draw_code P
      let code = to_string drawn
      redis_set P (redis_key invite_workspace body.workspace_id)
          (C.encode (record { code = code; role = body.role })) (ex 18000)
      pure (record {
        code = code;
        url = "http://localhost:3000/workspace/join/" ++ˢ body.workspace_id;
      })

    unfoldable pub join_workspace : String → String → String → Handler P (Unit {0})
    join_workspace code user_id workspace_id = do
      check ← redis_get P (redis_key invite_workspace workspace_id)
      raw ← or_throw (truthy check) (not_found "존재하지 않는 초대 코드입니다.")
      stored ← or_throw (C.decode raw) syntax_error
      ensure (stored.code == code) (forbidden "코드가 일치하지 않습니다.")
      existing ← check_workspace P user_id workspace_id
      ensure (not (is_some existing)) (forbidden "이미 워크스페이스 맴버입니다.")
      insert_workspace_user P user_id workspace_id stored.role
