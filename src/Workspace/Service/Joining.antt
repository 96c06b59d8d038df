-- ===== src/Workspace/Service/Joining.antt =====
-- `inviteWorkspace` and `joinWorkspace` of workspace/workspace.service.ts: who can join, and as what.
use aideep_backend.Common.{
  String, ◌≡◌, refl, sym, subst, true, Option, none, some, eq_refl, arith, [],
}
use Prim.Native.String.{◌++◌ as ◌++ˢ◌}
use aideep_backend.Infra.Action.{Outcome, returned, thrown}
use aideep_backend.Infra.Codec.{Codec}
use aideep_backend.Infra.Exception.{forbidden}
use aideep_backend.Infra.Platform.{Platform}
use aideep_backend.Infra.Redis.{ex}
use aideep_backend.Infra.Redis.Keys.{redis_key, invite_workspace}
use aideep_backend.Infra.Redis.Lookups.{get_set_same}
use aideep_backend.Infra.Rows.{MemberRow}
use aideep_backend.Infra.Text.{to_string}
use aideep_backend.Infra.World.{World, next_draw, later_draws, draw_code, redis_get, redis_set}
use aideep_backend.Workspace.Membership.{member_of, as_member, joined, created_member}
use aideep_backend.Workspace.Repository.{check_workspace, insert_workspace_user}
use aideep_backend.Workspace.Service.{
  InviteBody, Invitation, InviteResponse, can_invite, invite_to_workspace, join_workspace,
}

module _ (P : Platform) (C : Codec Invitation) where
  abbrev pub open_invitation : World P → String → Option String
  open_invitation w workspace_id = P.redis.get w.redis (redis_key invite_workspace workspace_id)

  -- an invitation is open, and Redis answers
  pub record IsInvited (i : Invitation) (workspace_id : String) (w : World P) : Type 0 where
    pub open_now : open_invitation w workspace_id ≡ some (C.encode i)
    pub answers : w.outages ≡ []

  join_workspace-returned :
      (i : Invitation) (user_id workspace_id : String) (w : World P)
      → IsInvited i workspace_id w
      → member_of P w user_id workspace_id ≡ none
      → join_workspace P C i.code user_id workspace_id w
        ≡ (returned tt, joined P user_id workspace_id i.role w)
  unfolding join_workspace redis_get check_workspace insert_workspace_user
  join_workspace-returned i user_id workspace_id w invited new = ground (
    arith,
    invited.open_now,
    invited.answers,
    C.decode_encode i,
    C.encode_nonempty i,
    eq_refl i.code,
    new,
  )

  join_workspace-member :
      (i : Invitation) (user_id workspace_id : String) (w : World P) (row : MemberRow)
      → IsInvited i workspace_id w
      → member_of P w user_id workspace_id ≡ some row
      → join_workspace P C i.code user_id workspace_id w
        ≡ (thrown (forbidden "이미 워크스페이스 맴버입니다."), w)
  unfolding join_workspace redis_get check_workspace
  join_workspace-member i user_id workspace_id w row invited old = ground (
    arith,
    invited.open_now,
    invited.answers,
    C.decode_encode i,
    C.encode_nonempty i,
    eq_refl i.code,
    old,
  )

  -- what it means that a user has joined P
  pub record Joins (i : Invitation) (user_id workspace_id : String)
      (r : Outcome (Unit {0}) × World P) : Type 0 where
    pub returns : r.0 ≡ returned tt
    pub member :
        member_of P r.1 user_id workspace_id ≡ some (as_member P user_id workspace_id i.role)
    pub once :
        join_workspace P C i.code user_id workspace_id r.1
        ≡ (thrown (forbidden "이미 워크스페이스 맴버입니다."), r.1)

  join_workspace-Joins :
      (i : Invitation) (user_id workspace_id : String) (w : World P)
      → IsInvited i workspace_id w
      → member_of P w user_id workspace_id ≡ none
      → Joins i user_id workspace_id (join_workspace P C i.code user_id workspace_id w)
  join_workspace-Joins i user_id workspace_id w invited new =
      let there = created_member P user_id workspace_id i.role w new in
      subst (Joins i user_id workspace_id)
        (sym (join_workspace-returned i user_id workspace_id w invited new))
        (record {
          returns = refl;
          member = there;
          once =
              join_workspace-member i user_id workspace_id _ _
                (record { open_now = invited.open_now; answers = invited.answers }) there;
        })

  abbrev invited : InviteBody → World P → World P
  invited body w = record w {
    draws = later_draws P w.draws;
    redis =
        P.redis.set w.redis (redis_key invite_workspace body.workspace_id)
          (C.encode (record { code = to_string (next_draw P w.draws); role = body.role }))
          (ex 18000);
  }

  abbrev pub response : InviteBody → World P → InviteResponse
  response body w = record {
    code = to_string (next_draw P w.draws);
    url = "http://localhost:3000/workspace/join/" ++ˢ body.workspace_id;
  }

  invite_to_workspace-returned :
      (body : InviteBody) (user_id : String) (w : World P)
      → can_invite (member_of P w user_id body.workspace_id) ≡ true
      → w.outages ≡ []
      → invite_to_workspace P C body user_id w ≡ (returned (response body w), invited body w)
  unfolding invite_to_workspace check_workspace draw_code redis_set
  invite_to_workspace-returned body user_id w allowed answers = ground (arith, allowed, answers)

  -- Where a user may invite and Redis answers, an invitation returns a code with which a user who is no member joins: the request returns, the user is then a member with the role of the invitation, and the same code does not make that user join again.
  pub invite_to_workspace-Joins :
      (body : InviteBody) (user_id guest : String) (w : World P)
      → can_invite (member_of P w user_id body.workspace_id) ≡ true
      → w.outages ≡ []
      → member_of P w guest body.workspace_id ≡ none
      → let r = invite_to_workspace P C body user_id w in
        let i : Invitation = record { code = to_string (next_draw P w.draws); role = body.role } in
        (r.0 ≡ returned (response body w))
        × Joins i guest body.workspace_id (join_workspace P C i.code guest body.workspace_id r.1)
  invite_to_workspace-Joins body user_id guest w allowed answers new =
      rw (invite_to_workspace-returned body user_id w allowed answers) (
        refl,
        join_workspace-Joins _ guest body.workspace_id (invited body w)
            (record { open_now = get_set_same P.redis w.redis _ _ (ex 18000); answers = answers })
            new,
      )
