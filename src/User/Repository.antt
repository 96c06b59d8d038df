-- ===== src/User/Repository.antt =====
-- user/user.repository.ts, and `findUserInfo` of user/user.service.ts
use aideep_backend.Common.{ℕ, String, Option, none, some, ◌==◌}
use aideep_backend.Infra.Action.{returned, pure, or_throw, ◌>>=◌}
use aideep_backend.Infra.Exception.{not_found}
use aideep_backend.Infra.Platform.{Platform, UserInput}
use aideep_backend.Infra.Rows.{UserRow}
use aideep_backend.Infra.World.{Handler}

-- `UserInfoDto`
pub record UserInfo : Type 0 where
  pub user_id : String
  pub username : String
  pub email : String
  pub created_at : ℕ

module _ (P : Platform) where
  unfoldable pub find_by_user_id : String → Handler P (Option UserRow)
  find_by_user_id user_id w = (returned (P.users.find_first w.users (λ r. r.user_id == user_id)), w)

  -- `findUser`, which selects two columns: the name and the address
  unfoldable pub find_user : String → Handler P (Option (String × String))
  unfolding find_by_user_id
  find_user user_id = do
    found ← find_by_user_id user_id
    pure (elim found [ none ↦ none | some r ↦ some (r.username, r.email) ])

  unfoldable pub find_by_email : String → Handler P (Option UserRow)
  find_by_email email w = (returned (P.users.find_first w.users (λ r. r.email == email)), w)

  unfoldable pub create_user : UserInput → Handler P UserRow
  create_user input w =
      let made = P.users.create w.users input in (returned made.0, record w { users = made.1 })

  unfoldable pub find_user_info : String → Handler P UserInfo
  find_user_info user_id = do
    found ← find_by_user_id user_id
    user ← or_throw found (not_found "존재하지 않는 유저입니다.")
    pure (record {
      user_id = user.user_id;
      username = user.username;
      email = user.email;
      created_at = user.created_at;
    })
