-- ===== src/Tests/Workspaces.antt =====
-- workspace/workspace.service.ts on the sample board.
use aideep_backend.Infra.World.{next_draw}
use aideep_backend.Common.{◌≡◌, refl}
use aideep_backend.Infra.Action.{returned}
use aideep_backend.Infra.Rows.{data_node, owner, editor, viewer}
use aideep_backend.Infra.Text.{to_string}
use aideep_backend.Node.Service.{update_node_position}
use aideep_backend.Samples.Codec.{views, invitations}
use aideep_backend.Samples.Tables.{sample}
use aideep_backend.Samples.Worlds.{board, member, node_at}
use aideep_backend.Tests.Graph.{board-AllAcyclic}
use aideep_backend.Tests.Nodes.{to_the_right}
use aideep_backend.Workspace.Service.{
  CreateWorkspaceBody, create_workspace, InviteBody, Invitation, invite_to_workspace,
  join_workspace, get_workspace_info,
}
use aideep_backend.Workspace.Service.Founding.{Founds, create_workspace-Founds}
use aideep_backend.Workspace.Service.Joining.{Joins, response, invite_to_workspace-Joins}
use aideep_backend.Workspace.Service.View.{
  view_of, get_workspace_info-cached_view, update_node_position-view_of,
}

abbrev as_viewer : InviteBody
as_viewer = record { workspace_id = "w"; role = viewer }

invite_to_workspace-Joins_example :
    let r = invite_to_workspace sample invitations as_viewer "olga" board in
    let i : Invitation = record { code = to_string 123456; role = viewer } in
    (r.0 ≡ returned (response sample invitations as_viewer board))
    × Joins sample invitations i "nina" "w"
        (join_workspace sample invitations i.code "nina" "w" r.1)
unfolding next_draw
invite_to_workspace-Joins_example =
    invite_to_workspace-Joins sample invitations as_viewer "olga" "nina" board refl refl refl

update_node_position-view_of_example :
    let t = (update_node_position sample to_the_right "eve" "w" "a" board).1 in
    (get_workspace_info sample views "vic" "w" t).0 ≡ returned (view_of sample views t "vic" "w")
update_node_position-view_of_example =
    update_node_position-view_of sample views to_the_right "eve" "vic" "w" "a" (member "eve" editor)
      (member "vic" viewer) (node_at "a" data_node 10 0) board
      (record { member = refl; allowed = refl; found = refl }) refl board-AllAcyclic refl

abbrev new_board : CreateWorkspaceBody
new_board = record { title = "second"; role = owner }

create_workspace-Founds_example :
    Founds sample "eve" new_board board (create_workspace sample "eve" new_board board)
create_workspace-Founds_example =
    create_workspace-Founds sample "eve" new_board board refl refl refl

get_workspace_info-cached_view_example :
    let r = get_workspace_info sample views "eve" "w" board in
    (r.0 ≡ returned (view_of sample views board "eve" "w"))
    × (get_workspace_info sample views "vic" "w" r.1
        ≡ (returned (view_of sample views board "eve" "w"), r.1))
get_workspace_info-cached_view_example =
    get_workspace_info-cached_view sample views "eve" "vic" "w" (member "eve" editor)
      (member "vic" viewer) board (record { member = refl; answers = refl }) refl refl
