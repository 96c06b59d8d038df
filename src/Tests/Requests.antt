-- ===== src/Tests/Requests.antt =====
-- Requests with sessions, as src/auth/guards and the controllers answer them.
use Prim.Native.Char.{Char}
use Prim.Native.String.{◌++◌ as ◌++ˢ◌}
use aideep_backend.Common.{
  String, ◌≡◌, refl, Option, none, some, chars, text_of, strip, List, inl, false,
}
use aideep_backend.Auth.Guard.{Credentials, authenticate}
use aideep_backend.Auth.Service.{refresh}
use aideep_backend.Auth.Service.Sessions.{used}
use aideep_backend.Auth.Tokens.{Payload}
use aideep_backend.Http.Rights.{IsRefused, request-IsRefused}
use aideep_backend.Http.Routes as Routes
use aideep_backend.Http.Routes.{Codecs, Route, EditRoute, request}
use aideep_backend.Http.Sessions.{
  IsLive, request-unauthorized, request-logged_out, authenticate-query_token, authenticate-live,
}
use aideep_backend.Infra.Action.{returned, thrown}
use aideep_backend.Infra.Exception.{unauthorized}
use aideep_backend.Infra.Rows.Int.{ℤ}
use aideep_backend.Infra.World.{World}
use aideep_backend.Samples.Codec.{tokens, views, invitations}
use aideep_backend.Samples.Tables.{sample}
use aideep_backend.Samples.Worlds.{board}

abbrev pub codecs : Codecs ℤ
codecs = record { views = views; invitations = invitations }

-- the token of a header that begins with "Bearer "
abbrev as_text : Option (List Char) → Option String
as_text none = none
as_text (some l) = some (text_of l)

abbrev pub bearer : String → Option String
bearer header = as_text (strip (chars "Bearer ") (chars header))

abbrev vic : Payload
vic = record { user_name = "Vic"; email = "vic@example.org"; user_id = "vic"; is_master = false }

abbrev token : String
token = tokens.sign vic "15m" 1000

abbrev by_header : Credentials
by_header = record { authorization = some ("Bearer " ++ˢ token); query_token = none }

abbrev by_query : Credentials
by_query = record { authorization = none; query_token = some token }

vic-IsLive : IsLive sample tokens codecs bearer token vic board
vic-IsLive = record { valid = tokens.verify_sign vic "15m" 1000; clear = refl; answers = refl }

request-unauthorized_example :
    (text : String) × (request sample tokens codecs bearer
        (record { authorization = none; query_token = none })
        (Routes.edit "w" (Routes.delete_node "a"))
        board
      ≡ (thrown (unauthorized text), board))
request-unauthorized_example =
    request-unauthorized sample tokens codecs bearer
      (record { authorization = none; query_token = none })
      (Routes.edit "w" (Routes.delete_node "a")) board (inl refl)

-- Redis still has what the logout wrote
abbrev a_while_later : World sample
a_while_later = record board {
  redis = (request sample tokens codecs bearer by_header Routes.logout board).1.redis;
  now = 500000;
}

request-logged_out_example :
    let r = request sample tokens codecs bearer by_header Routes.logout board in
    (r.0 ≡ returned (Routes.message "로그아웃 성공"))
    × ((text : String) × (request sample tokens codecs bearer by_query Routes.get_me a_while_later
          ≡ (thrown (unauthorized text), a_while_later)))
    × (refresh sample tokens token r.1 ≡ (thrown (used sample tokens), r.1))
request-logged_out_example =
    request-logged_out sample tokens codecs bearer token vic board vic-IsLive ("Bearer " ++ˢ token)
      by_query Routes.get_me token vic a_while_later refl refl refl
      (tokens.verify_sign vic "15m" 1000) refl refl refl

authenticate-query_token_example :
    let r = request sample tokens codecs bearer by_query Routes.logout board in
    (r.0 ≡ returned (Routes.message "로그아웃 성공"))
    × (authenticate sample tokens bearer by_query r.1 ≡ (returned vic, r.1))
authenticate-query_token_example =
    authenticate-query_token sample tokens codecs bearer token vic board vic-IsLive
      (tokens.sign_nonempty vic "15m" 1000)

vic_session : authenticate sample tokens bearer by_query board ≡ (returned vic, board)
vic_session = authenticate-live sample tokens codecs bearer token vic board vic-IsLive by_query refl

request-IsRefused_example :
    IsRefused sample board
      (request sample tokens codecs bearer by_query (Routes.edit "w" (Routes.delete_node "a")))
request-IsRefused_example =
    request-IsRefused sample tokens codecs bearer by_query "w" (Routes.delete_node "a") vic board
      vic_session refl refl
