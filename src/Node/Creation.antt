-- ===== src/Node/Creation.antt =====
-- The requests of node/node.controller.ts that create a node, with the validation of node/node.model.ts and
-- the service of node/node.service.ts behind them.
use aideep_backend.Common.{
  String, ◌≡◌, refl, ap, ◌∙◌, Bool, true, false, ◌&&◌, some, [], ◌∷◌, ◌++◌, arith, leb, Bool-cases,
  inl, inr, if◌then◌else◌,
}
use aideep_backend.Infra.Action.{Outcome, returned, thrown}
use aideep_backend.Infra.Exception.{Exception}
use aideep_backend.Infra.Platform.{Platform, NodeInput, HoldsNode}
use aideep_backend.Infra.Redis.Keys.{redis_key, workspace_sync}
use aideep_backend.Infra.Rows.{MemberRow, project}
use aideep_backend.Infra.World.{World, redis_del, broadcast}
use aideep_backend.Node.Controller.{NodeIdReply, create_project_node}
use aideep_backend.Node.Model.{
  CreateNodeBody, ProjectBody, PositionDto, from_project_dto, js_length, max_title_length,
  title_too_long, bad_position, node_of, project_data,
}
use aideep_backend.Node.Permission.{membership}
use aideep_backend.Node.Repository.{NodeOf, insert_node}
use aideep_backend.Node.Service as Service
use aideep_backend.Node.Service.{Node, may_edit, check_edit_permission, create_node, created_node}
use aideep_backend.Workspace.Repository.{check_workspace}
use aideep_backend.Ws.Event.{node_create}

module _ (P : Platform) (ws user_id : String) (w : World P) where
  -- a user who may edit the workspace, while Redis answers
  pub record CanCreate (row : MemberRow) : Type 0 where
    pub member : membership P w user_id ws ≡ some row
    pub allowed : may_edit row.role ≡ true
    pub answers : w.outages ≡ []

  abbrev made : NodeInput P.Num → NodeOf P
  made input = (P.nodes.create w.nodes input).0

  abbrev created : NodeInput P.Num → World P
  created input = record w {
    nodes = (P.nodes.create w.nodes input).1;
    redis = P.redis.del w.redis (redis_key workspace_sync ws);
    sent =
        w.sent ++ node_create (made input).workspace_id user_id (created_node P (made input)) ∷ [];
  }

  create_node-returned :
      (row : MemberRow) (input : NodeInput P.Num)
      → CanCreate row
      → input.workspace_id ≡ ws
      → create_node P (record { user_id = user_id; input = input }) w
        ≡ (returned (made input).node_id, created input)
  unfolding create_node check_edit_permission check_workspace insert_node redis_del broadcast
  create_node-returned row input c same = ground (arith, c.member, c.allowed, c.answers, same)

  -- what a valid request is to do: the row holds what the body says, and the clients are told
  pub record Creates (input : NodeInput P.Num) (r : Outcome NodeIdReply × World P) : Type 0 where
    pub row : NodeOf P
    pub returns : r.0 ≡ returned (record { node_id = row.node_id })
    pub holds : HoldsNode input row
    pub nodes : P.nodes.rows r.1.nodes ≡ P.nodes.rows w.nodes ++ row ∷ []
    pub redis : r.1.redis ≡ P.redis.del w.redis (redis_key workspace_sync ws)
    pub sent : r.1.sent ≡ w.sent ++ node_create ws user_id (created_node P row) ∷ []

  -- the exception for a body that is not valid: that for the title comes first
  abbrev pub complaint : String → Exception
  complaint title = if leb (js_length title) max_title_length then bad_position else title_too_long

  -- a title and a position that a node may have
  abbrev pub is_valid : String → PositionDto P.Num → Bool
  is_valid title position =
      leb (js_length title) max_title_length && (P.is_finite position.x && P.is_finite position.y)

  -- what a request is to do, by whether its body is valid
  abbrev pub Answered : Bool → String → NodeInput P.Num → Outcome NodeIdReply × World P → Type 0
  Answered true title input r = Creates input r
  Answered false title input r = r ≡ (thrown (complaint title), w)

  created-Creates :
      (input : NodeInput P.Num) (r : Outcome NodeIdReply × World P)
      → input.workspace_id ≡ ws
      → r ≡ (returned (record { node_id = (made input).node_id }), created input)
      → Creates input r
  created-Creates input r same done =
      let holds = P.nodes.create_holds w.nodes input in
      record {
        row = made input;
        returns = ap (λ r. r.0) done;
        holds = holds;
        nodes = ap (λ r. P.nodes.rows r.1.nodes) done ∙ P.nodes.create_rows w.nodes input;
        redis = ap (λ r. r.1.redis) done;
        sent =
            ap (λ r. r.1.sent) done
            ∙ ap (λ i. w.sent ++ node_create i user_id (created_node P (made input)) ∷ [])
                (holds.workspace_id ∙ same);
      }

  -- the same for a project node
  pub create_project_node-Answered :
      (row : MemberRow) (body : CreateNodeBody P.Num ProjectBody)
      → CanCreate row
      → Answered
          (is_valid body.title body.position)
          body.title
          (node_of P body project (project_data body.body) ws user_id).input
          (create_project_node P ws body user_id w)
  unfolding create_project_node from_project_dto Service.create_project_node
  create_project_node-Answered row body c =
      let input = (node_of P body project (project_data body.body) ws user_id).input in
      elim (Bool-cases (is_valid body.title body.position)) [
        | inl t ↦ rw t (
            created-Creates input (create_project_node P ws body user_id w) refl
              (ground (arith, t, create_node-returned row input c refl)))
        | inr f ↦ rw f (ground (arith, f))
      ]
