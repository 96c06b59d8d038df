-- ===== src/Http/Served.antt =====
-- The HTTP interface as a whole: the handlers of node/, edge/, workspace/, user/ and auth/, called one
-- after another in any order.
use aideep_backend.Common.{ℕ, String, Bool, Option, List}
use aideep_backend.Auth.Controller as AuthController
use aideep_backend.Auth.Guard.{Credentials, authenticate_local}
use aideep_backend.Auth.Service as Auth
use aideep_backend.Auth.Service.{SignUpBody, VerifyEmailBody}
use aideep_backend.Auth.Tokens.{Tokens}
use aideep_backend.Edge.Service.Acyclic.{EdgesAcyclic}
use aideep_backend.Http.Frame.Accounts.{
  Keeps-validate_user, Keeps-login, Keeps-refresh, Keeps-sign_up, Keeps-issue_master_token,
  Keeps-send_code, Keeps-verify_email,
}
use aideep_backend.Http.Graphs.{RouteIds, Keeps-request}
use aideep_backend.Http.Routes.{Route, Codecs, request}
use aideep_backend.Infra.Keeps.{Keeps, Keeps-pure, Keeps-bind, Keeps-then}
use aideep_backend.Infra.Platform.{Platform, IsId}
use aideep_backend.Infra.World.{World}
use aideep_backend.Node.Descendants.Live.{FindsBelow, finds_below}

module _ (P : Platform) (T : Tokens) where
  Keeps-controller_login :
      (email password : String) → Keeps (EdgesAcyclic P) (AuthController.login P T email password)
  unfolding AuthController.login authenticate_local
  Keeps-controller_login email password =
      Keeps-bind (Auth.validate_user P T email password) _ (Keeps-validate_user P T email password)
        (Keeps-login P T)

  Keeps-controller_sign_up :
      (body : SignUpBody) → Keeps (EdgesAcyclic P) (AuthController.sign_up P T body)
  unfolding AuthController.sign_up
  Keeps-controller_sign_up body =
      Keeps-then (Auth.sign_up P T body) _ (Keeps-sign_up P T body) (Keeps-pure _)

  module _ (C : Codecs P.Num) (bearer : String → Option String) where
    -- one call, whether it returns or throws, or what changes outside the program: the clock, which
    -- Redis calls and commits will be rejected, which random numbers will come
    pub data Serve (w : World P) : World P → Type 0 where
      answers :
          (c : Credentials) (route : Route P.Num)
          → RouteIds P route
          → Serve w (request P T C bearer c route w).1
      logs_in : (email password : String) → Serve w (AuthController.login P T email password w).1
      refreshes : (token : String) → Serve w (AuthController.refresh P T token w).1
      signs_up : (body : SignUpBody) → Serve w (AuthController.sign_up P T body w).1
      issues_master :
          (user_id : String)
          → IsId P user_id
          → Serve w (AuthController.issue_master P T user_id w).1
      mails_code : (email : String) → Serve w (AuthController.send_message P T email w).1
      verifies : (body : VerifyEmailBody) → Serve w (AuthController.verify_email P T body w).1
      passes :
          (now : ℕ) (outages : List Bool) (draws : List ℕ)
          → Serve w (record w { now = now; outages = outages; draws = draws })

    pub data Served (w : World P) : World P → Type 0 where
      none_yet : Served w w
      next : {v u : World P} → Served w v → Serve v u → Served w u

    Serve-EdgesAcyclic : {w v : World P} → EdgesAcyclic P w → Serve w v → EdgesAcyclic P v
    unfolding AuthController.refresh AuthController.issue_master AuthController.send_message
        AuthController.verify_email
    Serve-EdgesAcyclic {w} q (answers c route ids) = (Keeps-request P T C bearer c route ids).at w q
    Serve-EdgesAcyclic {w} q (logs_in email password) =
        (Keeps-controller_login email password).at w q
    Serve-EdgesAcyclic {w} q (refreshes token) = (Keeps-refresh P T token).at w q
    Serve-EdgesAcyclic {w} q (signs_up body) = (Keeps-controller_sign_up body).at w q
    Serve-EdgesAcyclic {w} q (issues_master user_id known) =
        (Keeps-issue_master_token P T user_id).at w q
    Serve-EdgesAcyclic {w} q (mails_code email) = (Keeps-send_code P T email).at w q
    Serve-EdgesAcyclic {w} q (verifies body) = (Keeps-verify_email P T body).at w q
    Serve-EdgesAcyclic q (passes now outages draws) = q

    reached-EdgesAcyclic : {w v : World P} → EdgesAcyclic P w → Served w v → EdgesAcyclic P v
    reached-EdgesAcyclic q none_yet = q
    reached-EdgesAcyclic q (next before step) =
        Serve-EdgesAcyclic (reached-EdgesAcyclic q before) step

    -- When the graph of every workspace is free of cycles and calls of the HTTP interface are answered
    -- one after another, whose ids are in the form in which the database returns them, with whatever
    -- tokens, bodies, clock, rejected Redis calls, failed commits and drawn numbers, the graph of every
    -- workspace is free of cycles afterwards, and the query for the ids below an id of that form comes to an
    -- end and finds, each once, the ids to which the workspace's live edges lead from the
    -- node, and not the node itself.
    pub Served-EdgesAcyclic :
        {w v : World P} (workspace_id node_id : String)
        → EdgesAcyclic P w
        → Served w v
        → IsId P workspace_id
        → IsId P node_id
        → EdgesAcyclic P v × ((ids : List String) × FindsBelow P workspace_id node_id v.edges ids)
    Served-EdgesAcyclic {w} {v} workspace_id node_id q calls _ _ =
        let after = reached-EdgesAcyclic q calls in
        (after, finds_below P workspace_id node_id v.edges after)
