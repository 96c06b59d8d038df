-- ===== src/Auth/Service/Accounts.antt =====
-- From a mailed code to an account (`sendMail`, `verify`, `signUp` and `validateUser` of auth/auth.service.ts).
use aideep_backend.Common.{
  ℕ, String, ◌≡◌, refl, sym, ap, subst, ◌∙◌, true, Option, none, some, [], ◌==◌, eq_iff, arith,
}
use aideep_backend.Auth.Service.{
  mail_code, SignUpBody, ValidUser, send_code, verify_email, check_code, sign_up, validate_user,
}
use aideep_backend.Infra.Text.{to_string}
use aideep_backend.Auth.Service.Guesses.{Keeps, next_code, send_code-Keeps}
use aideep_backend.Auth.Tokens.{Tokens, AuthCode}
use aideep_backend.Infra.Action.{returned, thrown}
use aideep_backend.Infra.Exception.{forbidden}
use aideep_backend.Infra.Platform.{Platform, UserInput}
use aideep_backend.Infra.Redis.{ex}
use aideep_backend.Infra.Redis.Keys.{redis_key, auth_code, verified}
use aideep_backend.Infra.Redis.Lookups.{get_set_same, get_del_same, get_set_other}
use aideep_backend.Infra.Rows.{UserRow}
use aideep_backend.Infra.Table.Created.{find_first-created}
use aideep_backend.Infra.World.{World, redis_get, redis_set, redis_del, draw_code, send_mail}
use aideep_backend.User.Repository.{find_by_email, create_user}

module _ (P : Platform) (T : Tokens) where
  -- what Redis holds of the address's verification
  abbrev pub verification : World P → String → Option String
  verification w email = P.redis.get w.redis (redis_key verified email)

  -- an account of the address
  abbrev pub account : World P → String → Option UserRow
  account w email = P.users.find_first w.users (λ r. r.email == email)

  pub record IsVerified (email : String) (w : World P) : Type 0 where
    pub holds : verification w email ≡ some "1"
    pub used_up : P.redis.get w.redis (redis_key auth_code email) ≡ none
    pub answers : w.outages ≡ []

  -- the right guess of a code that is kept
  verify_email-right :
      (email : String) (n : ℕ) (w : World P) (c : AuthCode)
      → Keeps P T email (some (T.encode c)) w
      → (c.code == to_string n) ≡ true
      → verify_email P T (record { email = email; code = n }) w ≡ check_code P T true email c w
  unfolding verify_email redis_get
  verify_email-right email n w c k right =
      ground (arith, k.holds, k.answers, T.encode_nonempty c, T.decode_encode c, right)

  check_code-IsVerified :
      (email : String) (w : World P) (c : AuthCode)
      → w.outages ≡ []
      → ((check_code P T true email c w).0 ≡ returned "인증에 성공했습니다.")
        × IsVerified email (check_code P T true email c w).1
        × ((check_code P T true email c w).1.users ≡ w.users)
  unfolding check_code redis_del redis_set
  check_code-IsVerified email w c answers = rw answers (
    refl,
    record {
      holds = get_set_same P.redis _ (redis_key verified email) "1" (ex 600);
      used_up =
          get_set_other P.redis _ verified auth_code email email "1" (ex 600) (λ e. cc)
          ∙ get_del_same P.redis _ (redis_key auth_code email);
      answers = refl;
    },
    refl,
  )

  -- the account that a successful registration makes
  pub record Registered (dto : SignUpBody) (w : World P) : Type 0 where
    pub can_log_in :
        (user : ValidUser) × (validate_user P T dto.email dto.password w ≡ (returned user, w))
        × (user.email ≡ dto.email)
        × (user.user_name ≡ dto.name)
    pub not_again : (sign_up P T dto w).0 ≡ thrown (forbidden "이미 존재하는 아이디 입니다.")

  abbrev input_of : SignUpBody → UserInput
  input_of dto = record { email = dto.email; password = T.hash dto.password; username = dto.name }

  abbrev registered : SignUpBody → World P → World P
  registered dto w = record w {
    redis = P.redis.del w.redis (redis_key verified dto.email);
    users = (P.users.create w.users (input_of dto)).1;
  }

  sign_up-returned :
      (dto : SignUpBody) (w : World P)
      → IsVerified dto.email w
      → account w dto.email ≡ none
      → sign_up P T dto w ≡ (returned tt, registered dto w)
  unfolding sign_up redis_get redis_del find_by_email create_user
  sign_up-returned dto w v new = ground (arith, v.holds, v.answers, new)

  create_user-account :
      (i : UserInput) (users : P.users.Store)
      → P.users.find_first users (λ r. r.email == i.email) ≡ none
      → P.users.find_first (P.users.create users i).1 (λ r. r.email == i.email)
        ≡ some (P.users.create users i).0
  create_user-account i users new =
      find_first-created P.users users i (λ r. r.email == i.email) new
        ((eq_iff (P.users.create users i).0.email i.email).1 (P.users.create_holds users i).email)

  validate_user-found :
      (email password : String) (w : World P) (row : UserRow)
      → account w email ≡ some row
      → T.compare password row.password ≡ true
      → validate_user P T email password w ≡ (
        returned (record { user_name = row.username; email = row.email; user_id = row.user_id }),
        w,
      )
  unfolding validate_user find_by_email
  validate_user-found email password w row found right = ground (arith, found, right)

  sign_up-taken :
      (dto : SignUpBody) (w : World P) (row : UserRow)
      → account w dto.email ≡ some row
      → (sign_up P T dto w).0 ≡ thrown (forbidden "이미 존재하는 아이디 입니다.")
  unfolding sign_up find_by_email
  sign_up-taken dto w row found = ground (arith, found)

  sign_up-Registered :
      (dto : SignUpBody) (w : World P)
      → IsVerified dto.email w
      → account w dto.email ≡ none
      → ((sign_up P T dto w).0 ≡ returned tt) × Registered dto (sign_up P T dto w).1
  sign_up-Registered dto w v new =
      let done = sign_up-returned dto w v new in
      let there = create_user-account (input_of dto) w.users new in
      let made = (P.users.create w.users (input_of dto)).0 in
      (
        ap (λ r. r.0) done,
        subst (λ r. Registered dto r.1) (sym done)
            (record {
              can_log_in = (
                record { user_name = made.username; email = made.email; user_id = made.user_id },
                validate_user-found dto.email dto.password (registered dto w) made there (
                    subst (λ h. T.compare dto.password h ≡ true)
                      (sym (P.users.create_holds w.users (input_of dto)).password)
                      (T.compare_hash dto.password)),
                (P.users.create_holds w.users (input_of dto)).email,
                (P.users.create_holds w.users (input_of dto)).username,
              );
              not_again = sign_up-taken dto (registered dto w) made there;
            }),
      )

  send_code-users :
      (email : String) (w : World P) → w.outages ≡ [] → (send_code P T email w).1.users ≡ w.users
  unfolding send_code mail_code draw_code redis_set send_mail
  send_code-users email w answers = rw answers refl

  -- Behind a mail to an address without an account, while Redis answers, the mailed code is accepted, the address then can sign up, and behind that the given password logs the new account in and the address cannot sign up again.
  pub sign_up-roundtrip :
      (dto : SignUpBody) (n : ℕ) (w : World P)
      → w.outages ≡ []
      → account w dto.email ≡ none
      → to_string n ≡ next_code P T dto.email w
      → let mailed = (send_code P T dto.email w).1 in
        let checked = verify_email P T (record { email = dto.email; code = n }) mailed in
        (checked.0 ≡ returned "인증에 성공했습니다.")
        × ((sign_up P T dto checked.1).0 ≡ returned tt)
        × Registered dto (sign_up P T dto checked.1).1
  sign_up-roundtrip dto n w answers new right =
      let mailed : World P = (send_code P T dto.email w).1 in
      let code : AuthCode = record {
        code = next_code P T dto.email w;
        attempts = 0;
        generated_at = w.now;
      } in
      let keeps = send_code-Keeps P T dto.email w answers in
      let (accepted, v, same) = check_code-IsVerified dto.email mailed code keeps.answers in
      let made = sign_up-Registered dto _ v (
        ap (λ users. P.users.find_first users (λ r. r.email == dto.email))
          (same ∙ send_code-users dto.email w answers)
        ∙ new) in
      rw
        (verify_email-right dto.email n mailed code keeps
          ((eq_iff code.code (to_string n)).1 (sym right)))
        (accepted, made.0, made.1)
