-- ===== src/Tests/Served.antt =====
-- An editor's calls, one after another, on a workspace with an edge from "a" to "b".
use Prim.Native.String.{◌++◌ as ◌++ˢ◌}
use aideep_backend.Common.{refl, String, none, some, List, [], true, false, ◌∷◌}
use aideep_backend.Auth.Guard.{Credentials}
use aideep_backend.Auth.Tokens.{Payload}
use aideep_backend.Edge.Repository.{ConnectNodeDto}
use aideep_backend.Edge.Service.Acyclic.{EdgesAcyclic}
use aideep_backend.Http.Routes as Routes
use aideep_backend.Http.Routes.{request}
use aideep_backend.Http.Served.{answers, passes, none_yet, next, Served-EdgesAcyclic}
use aideep_backend.Infra.World.{World}
use aideep_backend.Node.Descendants.Live.{FindsBelow}
use aideep_backend.Samples.Codec.{tokens}
use aideep_backend.Samples.Tables.{sample}
use aideep_backend.Samples.Worlds.{board}
use aideep_backend.Tests.Graph.{board-AllAcyclic}
use aideep_backend.Tests.Requests.{codecs, bearer}

abbrev eve : Payload
eve = record { user_name = "Eve"; email = "eve@example.org"; user_id = "eve"; is_master = false }

abbrev by_eve : Credentials
by_eve = record {
  authorization = some ("Bearer " ++ˢ tokens.sign eve "15m" 1000);
  query_token = none;
}

abbrev between : String → String → ConnectNodeDto
between from_id to_id = record {
  source_id = from_id;
  target_id = to_id;
  target_handle = "left";
  source_handle = "right";
}

abbrev connects : String → String → World sample → World sample
connects from_id to_id w =
    (request sample tokens codecs bearer by_eve
      (Routes.edit "w" (Routes.connect_nodes (between from_id to_id))) w).1

-- "b" → "c" is asked for, a call of Redis is to be rejected, and "c" → "a", which closes a cycle, is asked for
abbrev later : World sample
later =
    connects "c" "a"
      (record (connects "b" "c" board) { now = 2000; outages = true ∷ []; draws = [] })

Served-EdgesAcyclic_example :
    EdgesAcyclic sample later × ((ids : List String) × FindsBelow sample "w" "a" later.edges ids)
Served-EdgesAcyclic_example =
    Served-EdgesAcyclic sample tokens codecs bearer {w = board} {v = later} "w" "a" board-AllAcyclic
      (next
        (next
          (next none_yet (
            answers by_eve (Routes.edit "w" (Routes.connect_nodes (between "b" "c")))
              (refl, refl, refl)))
          (passes 2000 (true ∷ []) []))
        (answers by_eve (Routes.edit "w" (Routes.connect_nodes (between "c" "a")))
          (refl, refl, refl)))
      refl refl
