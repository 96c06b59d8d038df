-- ===== src/Workspace/Repository.antt =====
-- workspace/workspace.repository.ts
use aideep_backend.Common.{String, Bool, Option, none, some, List, map, ◌==◌, ◌&&◌}
use aideep_backend.Infra.Action.{returned}
use aideep_backend.Infra.Platform.{Platform, WorkspaceInput}
use aideep_backend.Infra.Rows.{Role, MemberRow, WorkspaceRow}
use aideep_backend.Infra.World.{World, Handler}

-- `where: { user_id, workspace_id }`
abbrev pub is_member : String → String → MemberRow → Bool
is_member user_id workspace_id r = r.user_id == user_id && r.workspace_id == workspace_id

-- a member's row with the title of its workspace (`UserWokrpaceInfoDto`, less the date of joining)
pub record UserWorkspace : Type 0 where
  pub workspace_id : String
  pub title : Option String
  pub role : Role

abbrev title_of : Option WorkspaceRow → Option String
title_of none = none
title_of (some r) = some r.title

module _ (P : Platform) where
  unfoldable pub check_workspace : String → String → Handler P (Option MemberRow)
  check_workspace user_id workspace_id w =
      (returned (P.members.find_first w.members (is_member user_id workspace_id)), w)

  -- `include: { workspaces: { select: { title: true } } }`; the key to `workspaces` is a foreign one
  abbrev with_title : World P → MemberRow → UserWorkspace
  with_title w r = record {
    workspace_id = r.workspace_id;
    title = title_of (P.workspaces.find_first w.workspaces (λ x. x.workspace_id == r.workspace_id));
    role = r.role;
  }

  unfoldable pub select_user_workspace : String → Handler P (List UserWorkspace)
  select_user_workspace user_id w =
      (returned (map (with_title w) (P.members.find_many w.members (λ r. r.user_id == user_id))), w)

  unfoldable pub insert_workspace : WorkspaceInput → Handler P WorkspaceRow
  insert_workspace body w =
      let made = P.workspaces.create w.workspaces body in
      (returned made.0, record w { workspaces = made.1 })

  unfoldable pub insert_workspace_user : String → String → Role → Handler P (Unit {0})
  insert_workspace_user user_id workspace_id role w =
      let made =
        P.members.create w.members
          (record { user_id = user_id; workspace_id = workspace_id; role = role }) in
      (returned tt, record w { members = made.1 })
