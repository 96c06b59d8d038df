-- ===== src/Http/Frame/Accounts.antt =====
-- What auth/auth.service.ts does to the edges.
use aideep_backend.Common.{String, Bool, true, false}
use aideep_backend.Auth.Service as Auth
use aideep_backend.Auth.Service.{SignUpBody, VerifyEmailBody, ValidUser}
use aideep_backend.Auth.Tokens.{Tokens, AuthCode, Payload}
use aideep_backend.Edge.Service.Acyclic.{EdgesAcyclic}
use aideep_backend.Infra.Action.{Outcome, returned, thrown}
use aideep_backend.Infra.Keeps.{Keeps, Keeps-bind, Keeps-pure, Keeps-then}
use aideep_backend.Infra.Platform.{Platform, UserInput}
use aideep_backend.Infra.World.{World, Mail, redis_set, draw_code, send_mail}
use aideep_backend.User.Repository.{find_by_email, create_user}
use aideep_backend.Http.Frame.{Keeps-set, frame_rules}
use aideep_backend.Http.Frame.Members.{Keeps-draw_code, Keeps-find_by_user_id}

module _ (P : Platform) where
  Keeps-send_mail : (m : Mail) → Keeps (EdgesAcyclic P) (send_mail P m)
  unfolding send_mail
  Keeps-send_mail m = record { at = λ w q. q }

  Keeps-find_by_email : (email : String) → Keeps (EdgesAcyclic P) (find_by_email P email)
  unfolding find_by_email
  Keeps-find_by_email email = record { at = λ w q. q }

  Keeps-create_user : (i : UserInput) → Keeps (EdgesAcyclic P) (create_user P i)
  unfolding create_user
  Keeps-create_user i = record { at = λ w q. q }

  module _ (T : Tokens) where
    Keeps-issue_pair : (p : Payload) → Keeps (EdgesAcyclic P) (Auth.issue_pair P T p)
    unfolding Auth.issue_pair
    Keeps-issue_pair p = search frame_rules

    pub Keeps-refresh : (token : String) → Keeps (EdgesAcyclic P) (Auth.refresh P T token)
    unfolding Auth.refresh
    Keeps-refresh token = search (frame_rules, Keeps-issue_pair)

    pub Keeps-logout : (id token : String) → Keeps (EdgesAcyclic P) (Auth.logout P T id token)
    unfolding Auth.logout
    Keeps-logout id token = search frame_rules

    pub Keeps-validate :
        (token : String) (p : Payload) → Keeps (EdgesAcyclic P) (Auth.validate P T token p)
    unfolding Auth.validate
    Keeps-validate token p = search frame_rules

    pub Keeps-issue_master_token :
        (id : String) → Keeps (EdgesAcyclic P) (Auth.issue_master_token P T id)
    unfolding Auth.issue_master_token
    Keeps-issue_master_token id = search (frame_rules, Keeps-find_by_user_id P)

    Keeps-clock : Keeps (EdgesAcyclic P) (Auth.clock P T)
    Keeps-clock = record { at = λ w q. q }

    pub Keeps-validate_user :
        (email password : String) → Keeps (EdgesAcyclic P) (Auth.validate_user P T email password)
    unfolding Auth.validate_user
    Keeps-validate_user email password = search (frame_rules, Keeps-find_by_email)

    Keeps-mail_code : (email : String) → Keeps (EdgesAcyclic P) (Auth.mail_code P T email)
    unfolding Auth.mail_code
    Keeps-mail_code email = Keeps-bind (draw_code P) _ (Keeps-draw_code P) (λ drawn.
        Keeps-bind (Auth.clock P T) _ Keeps-clock (λ now.
          Keeps-then (redis_set P _ _ _) _ (Keeps-set P _ _ _)
            (Keeps-then (send_mail P _) _ (Keeps-send_mail _) (Keeps-pure _))))

    Keeps-caught :
        (o : Outcome String) (w : World P)
        → EdgesAcyclic P w
        → EdgesAcyclic P (Auth.caught P T o w).1
    Keeps-caught (returned a) w q = q
    Keeps-caught (thrown e) w q = q

    pub Keeps-send_code : (email : String) → Keeps (EdgesAcyclic P) (Auth.send_code P T email)
    unfolding Auth.send_code
    Keeps-send_code email = record {
      at = λ w q.
          let r = Auth.mail_code P T email w in
          Keeps-caught r.0 r.1 ((Keeps-mail_code email).at w q);
    }

    Keeps-count_attempt :
        (over : Bool) (email : String) (stored : AuthCode)
        → Keeps (EdgesAcyclic P) (Auth.count_attempt P T over email stored)
    unfolding Auth.count_attempt
    Keeps-count_attempt true email stored = search frame_rules
    Keeps-count_attempt false email stored = search frame_rules

    Keeps-check_code :
        (same : Bool) (email : String) (stored : AuthCode)
        → Keeps (EdgesAcyclic P) (Auth.check_code P T same email stored)
    unfolding Auth.check_code
    Keeps-check_code true email stored = search frame_rules
    Keeps-check_code false email stored = Keeps-count_attempt _ email _

    pub Keeps-verify_email :
        (dto : VerifyEmailBody) → Keeps (EdgesAcyclic P) (Auth.verify_email P T dto)
    unfolding Auth.verify_email
    Keeps-verify_email dto = search (frame_rules, Keeps-check_code)

    pub Keeps-sign_up : (dto : SignUpBody) → Keeps (EdgesAcyclic P) (Auth.sign_up P T dto)
    unfolding Auth.sign_up
    Keeps-sign_up dto = search (frame_rules, Keeps-find_by_email, Keeps-create_user) depth 12

    pub Keeps-login : (user : ValidUser) → Keeps (EdgesAcyclic P) (Auth.login P T user)
    unfolding Auth.login
    Keeps-login user = Keeps-issue_pair (Auth.payload_of P T user)
