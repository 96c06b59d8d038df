-- ===== src/Ws/Gateway/Tracking.antt =====
-- The gateway of ws/ws.gateway.ts knows every document that a socket is a client of: `yjsRooms` against
-- the clients that the document manager keeps.
use aideep_backend.Common.{
  String, ◌≡◌, refl, ◌∙◌, Bool, true, false, not, ◌&&◌, ◌||◌, Option, none, some, List, [], ◌∷◌,
  ◌==◌, contains, arith, Bool-cases, eq-cases, eq_refl, if◌then◌else◌,
}
use aideep_backend.Common.Assoc.{lookup, put, remove, lookup-put, lookup-remove}
use aideep_backend.Ws.Gateway.Connections.{leave_each, leave_documents}
use aideep_backend.Ws.Gateway.Editing.{
  rooms_of, track, enter, keep_rooms, untrack, handle_yjs_leave,
}
use aideep_backend.Ws.Gateway.State.{Gateway}
use aideep_backend.Ws.Sockets.{Ports}
use aideep_backend.Yjs.Manager.{Manager, without, remove_client}
use aideep_backend.Yjs.Manager.Holds.{
  holds, contains-add, contains-without, holds-add_client, holds-remove_client,
}

-- whether `yjsRooms` has the node for the socket
abbrev pub tracks : List (String × List String) → String → String → Bool
tracks rooms socket node_id = contains (rooms_of (lookup socket rooms)) node_id

module _ (G : Ports) where
  -- every client of a document is tracked
  abbrev pub IsTracked : Gateway G → Type 0
  IsTracked g =
      (node_id socket : String)
      → holds G.documents g.manager node_id socket ≡ true
      → tracks g.yjs_rooms socket node_id ≡ true

  tracks-put :
      (socket other node_id : String) (node_ids : List String) (rooms : List (String × List String))
      → tracks (put socket node_ids rooms) other node_id
        ≡ (if socket == other then contains node_ids node_id else tracks rooms other node_id)
  tracks-put socket other node_id node_ids rooms =
      ground (arith, lookup-put socket other node_ids rooms)

  tracks-remove :
      (socket other node_id : String) (rooms : List (String × List String))
      → tracks (remove socket rooms) other node_id
        ≡ (if socket == other then false else tracks rooms other node_id)
  tracks-remove socket other node_id rooms = ground (arith, lookup-remove socket other rooms)

  pub tracks-track :
      (socket node_id other n : String) (g : Gateway G)
      → tracks (track G socket node_id g).yjs_rooms other n
        ≡ (tracks g.yjs_rooms other n || (socket == other && node_id == n))
  tracks-track socket node_id other n g =
      tracks-put socket other n _ g.yjs_rooms
      ∙ ground (
        arith,
        eq-cases socket other,
        contains-add G.documents node_id n (rooms_of (lookup socket g.yjs_rooms)),
      )

  tracks-keep_rooms :
      (node_ids : List String) (socket other n : String) (rooms : List (String × List String))
      → tracks (keep_rooms node_ids socket rooms) other n
        ≡ (if socket == other then contains node_ids n else tracks rooms other n)
  tracks-keep_rooms [] socket other n rooms = tracks-remove socket other n rooms
  tracks-keep_rooms (x ∷ xs) socket other n rooms = tracks-put socket other n (x ∷ xs) rooms

  tracks-untrack :
      (o : Option (List String)) (socket node_id other n : String)
      (rooms : List (String × List String))
      → lookup socket rooms ≡ o
      → tracks (untrack G o socket node_id rooms) other n
        ≡ (tracks rooms other n && not (node_id == n && socket == other))
  tracks-untrack none socket node_id other n rooms e = ground (arith, eq-cases socket other)
  tracks-untrack (some node_ids) socket node_id other n rooms e =
      tracks-keep_rooms (without G.documents node_id node_ids) socket other n rooms
      ∙ ground (arith, eq-cases socket other, contains-without G.documents node_id n node_ids)

  pub IsTracked-enter :
      (socket node_id : String) (read_only : Bool) (doc : G.documents.Doc) (g : Gateway G)
      → IsTracked g
      → IsTracked (enter G socket node_id read_only doc g)
  unfolding enter
  IsTracked-enter socket node_id read_only doc g tracked n s held = ground (
    arith,
    held,
    tracked n s,
    holds-add_client G.documents node_id n socket s g.manager,
    tracks-track socket node_id s n g,
  )

  pub IsTracked-handle_yjs_leave :
      (socket node_id : String) (g : Gateway G)
      → IsTracked g
      → IsTracked (handle_yjs_leave G socket node_id g)
  unfolding handle_yjs_leave
  IsTracked-handle_yjs_leave socket node_id g tracked n s held = ground (
    arith,
    held,
    tracked n s,
    holds-remove_client G.documents node_id n socket s g.manager,
    tracks-untrack (lookup socket g.yjs_rooms) socket node_id s n g.yjs_rooms refl,
  )

  holds-leave_each :
      (node_ids : List String) (socket node_id other : String) (m : Manager G.documents)
      → holds G.documents (leave_each G node_ids socket m) node_id other
        ≡ (holds G.documents m node_id other && not (contains node_ids node_id && socket == other))
  holds-leave_each [] socket node_id other m = ground arith
  holds-leave_each (x ∷ xs) socket node_id other m =
      holds-leave_each xs socket node_id other (remove_client G.documents x socket m)
      ∙ ground (arith, holds-remove_client G.documents x node_id socket other m)

  -- a socket that disconnects is a client of no document, and nothing is tracked of it
  pub leave_documents-holds :
      (o : Option (List String)) (socket node_id : String) (g : Gateway G)
      → lookup socket g.yjs_rooms ≡ o
      → IsTracked g
      → holds G.documents (leave_documents G o socket g).manager node_id socket ≡ false
  leave_documents-holds none socket node_id g e tracked =
      ground
        (arith, tracked node_id socket, Bool-cases (holds G.documents g.manager node_id socket))
  leave_documents-holds (some node_ids) socket node_id g e tracked = ground (
    arith,
    tracked node_id socket,
    holds-leave_each node_ids socket node_id socket g.manager,
    eq_refl socket,
  )

  pub IsTracked-leave_documents :
      (o : Option (List String)) (socket : String) (g : Gateway G)
      → lookup socket g.yjs_rooms ≡ o
      → IsTracked g
      → IsTracked (leave_documents G o socket g)
  IsTracked-leave_documents none socket g e tracked n s held = tracked n s held
  IsTracked-leave_documents (some node_ids) socket g e tracked n s held = ground (
    arith,
    held,
    tracked n s,
    eq-cases socket s,
    holds-leave_each node_ids socket n s g.manager,
    tracks-remove socket s n g.yjs_rooms,
  )
