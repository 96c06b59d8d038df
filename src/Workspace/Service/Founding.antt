-- ===== src/Workspace/Service/Founding.antt =====
-- `createWorkspace` of workspace/workspace.service.ts.
use aideep_backend.Common.{String, ◌≡◌, ap, ◌∙◌, false, none, some, [], ◌∷◌, ◌++◌, arith}
use aideep_backend.Infra.Action.{Outcome, returned}
use aideep_backend.Infra.Platform.{Platform}
use aideep_backend.Infra.Rows.{WorkspaceRow, MemberRow}
use aideep_backend.Infra.World.{World, run_in_transaction}
use aideep_backend.Workspace.Repository.{insert_workspace, insert_workspace_user}
use aideep_backend.Workspace.Service.{CreateWorkspaceBody, create_workspace}
use aideep_backend.Workspace.Membership.{member_of, as_member, created_member}

module _ (P : Platform) (user_id : String) (body : CreateWorkspaceBody) (w : World P) where
  -- the row of the new workspace
  abbrev pub new_row : WorkspaceRow
  new_row = (P.workspaces.create w.workspaces (record { title = body.title })).0

  abbrev founder : MemberRow
  founder = as_member P user_id new_row.workspace_id body.role

  create_workspace-returned :
      w.in_transaction ≡ false
      → w.outages ≡ []
      → create_workspace P user_id body w ≡ (
        returned new_row.workspace_id,
        record w {
          workspaces = (P.workspaces.create w.workspaces (record { title = body.title })).1;
          members = (P.members.create w.members founder).1;
          in_transaction = false;
        },
      )
  unfolding create_workspace run_in_transaction insert_workspace insert_workspace_user
  create_workspace-returned out answers = ground (arith, out, answers)

  -- what the creation is to do
  pub record Founds (r : Outcome String × World P) : Type 0 where
    pub returns : r.0 ≡ returned new_row.workspace_id
    pub title : new_row.title ≡ body.title
    pub workspaces :
        P.workspaces.rows r.1.workspaces ≡ P.workspaces.rows w.workspaces ++ new_row ∷ []
    pub members : P.members.rows r.1.members ≡ P.members.rows w.members ++ founder ∷ []
    pub member : member_of P r.1 user_id new_row.workspace_id ≡ some founder
    pub quiet : r.1.sent ≡ w.sent

  -- Outside of another transaction, where the commit does not fail and the user is no member under the new id yet, a user who creates a workspace becomes its only new member, with whatever role the request gives, that of a viewer included: the request returns the id of a new row with the given title, and the user's membership is found under that id.
  pub create_workspace-Founds :
      w.in_transaction ≡ false
      → w.outages ≡ []
      → member_of P w user_id new_row.workspace_id ≡ none
      → Founds (create_workspace P user_id body w)
  create_workspace-Founds out answers new =
      let done = create_workspace-returned out answers in
      record {
        returns = ap (λ r. r.0) done;
        title = (P.workspaces.create_holds w.workspaces (record { title = body.title })).title;
        workspaces =
            ap (λ r. P.workspaces.rows r.1.workspaces) done
            ∙ P.workspaces.create_rows w.workspaces (record { title = body.title });
        members =
            ap (λ r. P.members.rows r.1.members) done
            ∙ P.members.create_rows w.members founder
            ∙ ap (λ m. P.members.rows w.members ++ m ∷ [])
                (P.members.create_holds w.members founder);
        member =
            ap (λ r. member_of P r.1 user_id new_row.workspace_id) done
            ∙ created_member P user_id new_row.workspace_id body.role w new;
        quiet = ap (λ r. r.1.sent) done;
      }
