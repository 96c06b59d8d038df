-- ===== src/User/Controller.antt =====
-- user/user.controller.ts; the user is `req.user.user_id`, which the guard set.
use aideep_backend.Common.{String}
use aideep_backend.Infra.Platform.{Platform}
use aideep_backend.Infra.World.{Handler}
use aideep_backend.User.Repository.{UserInfo, find_user_info}

module _ (P : Platform) where
  unfoldable pub get_me : String → Handler P UserInfo
  get_me user_id = find_user_info P user_id
