-- ===== src/Workspace/Membership.antt =====
-- The members of a workspace, behind the `insertWorkspaceUser` of workspace/workspace.repository.ts.
use aideep_backend.Common.{
  String, ◌≡◌, sym, ap, subst, ◌∙◌, true, Option, none, some, eq_refl, arith,
}
use aideep_backend.Infra.Platform.{Platform}
use aideep_backend.Infra.Rows.{MemberRow, Role}
use aideep_backend.Infra.Table.Created.{find_first-created}
use aideep_backend.Infra.World.{World}
use aideep_backend.Workspace.Repository.{is_member}

module _ (P : Platform) where
  abbrev pub member_of : World P → String → String → Option MemberRow
  member_of w user_id workspace_id = P.members.find_first w.members (is_member user_id workspace_id)

  abbrev pub as_member : String → String → Role → MemberRow
  as_member user_id workspace_id role = record {
    user_id = user_id;
    workspace_id = workspace_id;
    role = role;
  }

  abbrev pub joined : String → String → Role → World P → World P
  joined user_id workspace_id role w = record w {
    members = (P.members.create w.members (as_member user_id workspace_id role)).1;
  }

  pub created_member :
      (user_id workspace_id : String) (role : Role) (w : World P)
      → member_of w user_id workspace_id ≡ none
      → member_of (joined user_id workspace_id role w) user_id workspace_id
        ≡ some (as_member user_id workspace_id role)
  created_member user_id workspace_id role w new =
      let i = as_member user_id workspace_id role in
      let held : (P.members.create w.members i).0 ≡ i = P.members.create_holds w.members i in
      find_first-created P.members w.members i (is_member user_id workspace_id) new (
        subst (λ r. is_member user_id workspace_id r ≡ true) (sym held)
          (ground (arith, eq_refl user_id, eq_refl workspace_id)))
      ∙ ap some held
