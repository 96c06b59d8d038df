-- ===== src/Node/Meta/Propagates.antt =====
-- `updateNodeMeta` of node/node.service.ts when it passes the colours on to the nodes below.
use aideep_backend.Common.{String, ◌≡◌, ◌↔◌, true, List, [], ◌∷◌, ◌++◌, map, Memᴰ, IsKeyed}
use aideep_backend.Infra.Action.{Outcome, returned}
use aideep_backend.Infra.Platform.{Platform}
use aideep_backend.Infra.Redis.Keys.{redis_key, workspace_sync}
use aideep_backend.Infra.World.{World}
use aideep_backend.Node.Meta.{new_content}
use aideep_backend.Node.Descendants.Live.{IsBelow}
use aideep_backend.Node.Meta.Below.{store_below, events_of}
use aideep_backend.Node.Meta.Found.{id_of, rows_below}
use aideep_backend.Node.Meta.Colours.{coloured_row}
use aideep_backend.Node.Repository.{NodeOf, is_one_of}
use aideep_backend.Node.Service.{UpdateNodeMetaBody, meta_patch}
use aideep_backend.Ws.Event.{node_update}

module _ (P : Platform) (user_id id ws : String) (body : UpdateNodeMetaBody) where
  abbrev below : List String → P.nodes.Store → List (NodeOf P)
  below = rows_below P ws

  abbrev after_below : List String → World P → World P
  after_below ids w = record w {
    nodes = store_below P ws user_id body.color body.text_color (below ids w.nodes) w.nodes;
    sent = w.sent ++ events_of P ws user_id body.color body.text_color (below ids w.nodes);
  }

  module _ (w : World P) where
    -- what a change of colours is to do that is passed on to the nodes `ids` below
    pub record RecoloursBelow (existing : NodeOf P) (ids : List String) (ds : List (NodeOf P))
        (r : Outcome (Unit {0}) × World P) : Type 0 where
      pub returns : r.0 ≡ returned tt
      pub below_it : IsBelow P ws id w.edges ids
      pub nodes :
          P.nodes.rows r.1.nodes
          ≡ map (coloured_row P user_id id ws body w existing ids) (P.nodes.rows w.nodes)
      pub redis : r.1.redis ≡ P.redis.del w.redis (redis_key workspace_sync ws)
      pub rows_once : IsKeyed (id_of P) ds
      pub rows_descendants :
          (d : NodeOf P) → Memᴰ d ds ↔ (Memᴰ d (P.nodes.rows w.nodes) × (is_one_of ws ids d ≡ true))
      pub sent :
          r.1.sent
          ≡ (w.sent
              ++ node_update ws existing.node_id user_id
                  (meta_patch body (new_content P user_id id ws body w existing))
                ∷ [])
            ++ events_of P ws user_id body.color body.text_color ds
      pub edges : r.1.edges ≡ w.edges
