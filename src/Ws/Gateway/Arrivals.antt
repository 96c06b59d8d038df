-- ===== src/Ws/Gateway/Arrivals.antt =====
-- Sockets that connect to ws/ws.gateway.ts and disconnect from it.
use aideep_backend.Common.{
  ◌+◌, String, ◌≡◌, refl, sym, ap, ◌∙◌, subst, true, false, Option, none, some, List, ◌==◌, is_some,
  eq_refl, arith, if◌then◌else◌,
}
use aideep_backend.Auth.Tokens.{Payload}
use aideep_backend.Common.Assoc.{lookup, put, remove, lookup-put_same, lookup-remove_same}
use aideep_backend.Common.Assoc.Count.{
  IsUnique, put-IsUnique, remove-IsUnique, one, one_of, count, count-put, count-remove,
}
use aideep_backend.Infra.Text.{truthy}
use aideep_backend.Ws.Gateway.Connections.{
  Handshake, token_of, admit, check_token, handle_connection, count_leaving, tell_leaving,
  leave_documents, handle_disconnect, connect, disconnect,
}
use aideep_backend.Ws.Gateway.Sound.{is_named, IsSound}
use aideep_backend.Ws.Gateway.State.{SocketData, no_data, Gateway, data_of, or_no_data}
use aideep_backend.Ws.Gateway.Tracking.{
  IsTracked, tracks, IsTracked-leave_documents, leave_documents-holds,
}
use aideep_backend.Ws.Sockets.{Ports}
use aideep_backend.Yjs.Manager.Holds.{holds}

module _ (G : Ports) where
  -- the handshake's token, if it is valid, names a user
  abbrev pub NamesUser : Option String → Gateway G → Type 0
  NamesUser given g =
      (token : String) (p : Payload)
      → given ≡ some token
      → G.tokens.verify token g.world.now ≡ some p
      → (p.user_id == "") ≡ false

  -- a socket that came without a name is given one, and is counted
  IsSound-admit :
      (p : Option Payload) (socket : String) (g : Gateway G)
      → ((q : Payload) → p ≡ some q → (q.user_id == "") ≡ false)
      → lookup socket g.sockets ≡ some no_data
      → IsSound G g
      → IsSound G (admit G p socket g)
  IsSound-admit none socket g names found sound = record {
    tracked = sound.tracked;
    unique = sound.unique;
    counted = sound.counted;
  }
  IsSound-admit (some p) socket g names found sound =
      let named : SocketData = record no_data { user_id = some p.user_id } in
      let put_named = count-put is_named socket named g.sockets in
      let was : one_of is_named (lookup socket g.sockets) ≡ 0 = ap (one_of is_named) found in
      let is_one : one is_named named ≡ 1 = rw (names p refl) refl in
      rw found (record {
        tracked = sound.tracked;
        unique = put-IsUnique socket named g.sockets sound.unique;
        counted = omega (arith, put_named, was, is_one, sound.counted);
      })

  IsSound-check_token :
      (token : Option String) (socket : String) (g : Gateway G)
      → NamesUser token g
      → lookup socket g.sockets ≡ some no_data
      → IsSound G g
      → IsSound G (check_token G token socket g)
  IsSound-check_token none socket g names found sound = record {
    tracked = sound.tracked;
    unique = sound.unique;
    counted = sound.counted;
  }
  IsSound-check_token (some token) socket g names found sound =
      IsSound-admit (G.tokens.verify token g.world.now) socket g (λ p. names token p refl) found
        sound

  pub IsSound-connect :
      (socket : String) (handshake : Handshake) (g : Gateway G)
      → NamesUser (truthy (token_of handshake)) g
      → lookup socket g.sockets ≡ none
      → IsSound G g
      → IsSound G (connect G socket handshake g)
  unfolding connect handle_connection
  IsSound-connect socket handshake g names missing sound =
      IsSound-check_token _ socket (record g { sockets = put socket no_data g.sockets }) names
        (lookup-put_same socket no_data g.sockets)
        (record {
          tracked = sound.tracked;
          unique = put-IsUnique socket no_data g.sockets sound.unique;
          counted =
              let more = count-put is_named socket no_data g.sockets in
              let was : one_of is_named (lookup socket g.sockets) ≡ 0 =
                ap (one_of is_named) missing in
              omega (arith, more, was, sound.counted);
        })

  -- what `handleDisconnect` does before it leaves the documents
  abbrev pub told : String → Gateway G → Gateway G
  told socket g =
      let d = data_of G socket g in
      tell_leaving G (truthy d.workspace_id) socket d.user_id (count_leaving G (truthy d.user_id) g)

  told-same :
      (user_id workspace_id shown : Option String) (socket : String) (g : Gateway G)
      → let t = tell_leaving G workspace_id socket shown (count_leaving G user_id g) in
        (t.manager ≡ g.manager)
        × (t.yjs_rooms ≡ g.yjs_rooms)
        × (t.sockets ≡ g.sockets)
        × (t.increments ≡ g.increments)
        × (t.decrements ≡ g.decrements + (if is_some user_id then 1 else 0))
  told-same none none shown socket g = (refl, refl, refl, refl, omega arith)
  told-same none (some w) shown socket g = (refl, refl, refl, refl, omega arith)
  told-same (some u) none shown socket g = (refl, refl, refl, refl, omega arith)
  told-same (some u) (some w) shown socket g = (refl, refl, refl, refl, omega arith)

  leave_documents-same :
      (o : Option (List String)) (socket : String) (g : Gateway G)
      → let t = leave_documents G o socket g in
        (t.sockets ≡ g.sockets) × (t.increments ≡ g.increments) × (t.decrements ≡ g.decrements)
  leave_documents-same none socket g = (refl, refl, refl)
  leave_documents-same (some node_ids) socket g = (refl, refl, refl)

  one_of-named :
      (o : Option SocketData)
      → one_of is_named o ≡ (if is_some (truthy (or_no_data G o).user_id) then 1 else 0)
  one_of-named none = refl
  one_of-named (some d) = refl

  IsTracked-cong :
      (g t : Gateway G)
      → t.manager ≡ g.manager
      → t.yjs_rooms ≡ g.yjs_rooms
      → IsTracked G g
      → IsTracked G t
  IsTracked-cong g t same_manager same_rooms tracked node_id s held =
      subst (λ r. tracks r s node_id ≡ true) (sym same_rooms)
        (tracked node_id s (subst (λ m. holds G.documents m node_id s ≡ true) same_manager held))

  pub IsSound-disconnect :
      (socket : String) (g : Gateway G) → IsSound G g → IsSound G (disconnect G socket g)
  unfolding disconnect handle_disconnect
  IsSound-disconnect socket g sound =
      let roomless : Gateway G = record g { rooms = G.rooms.leave_all g.rooms socket } in
      let d = data_of G socket g in
      let (manager, rooms, sockets, increments, decrements) =
        told-same (truthy d.user_id) (truthy d.workspace_id) d.user_id socket roomless in
      let o = lookup socket g.yjs_rooms in
      let (sockets', increments', decrements') =
        leave_documents-same o socket (told socket roomless) in
      record {
        tracked =
            IsTracked-leave_documents G o socket (told socket roomless) (ap (lookup socket) rooms)
              (IsTracked-cong g (told socket roomless) manager rooms sound.tracked);
        unique =
            subst (λ entries. IsUnique (remove socket entries)) (sym (sockets' ∙ sockets))
              (remove-IsUnique socket g.sockets sound.unique);
        counted =
            let fewer = count-remove is_named socket g.sockets sound.unique in
            let one_less = one_of-named (lookup socket g.sockets) in
            let rest =
              ap (λ entries. count is_named (remove socket entries)) (sockets' ∙ sockets) in
            omega (
              arith, fewer, one_less, rest, increments, decrements, increments', decrements',
              sound.counted,
            );
      }

  -- what is left of a socket that disconnected
  pub record IsGone (socket : String) (g : Gateway G) : Type 0 where
    pub in_no_document : (node_id : String) → holds G.documents g.manager node_id socket ≡ false
    pub in_no_room : (room : String) → G.rooms.has g.rooms socket room ≡ false
    pub untracked : (node_id : String) → tracks g.yjs_rooms socket node_id ≡ false
    pub no_data_kept : lookup socket g.sockets ≡ none

  leave_documents-untracked :
      (o : Option (List String)) (socket node_id : String) (g : Gateway G)
      → lookup socket g.yjs_rooms ≡ o
      → tracks (leave_documents G o socket g).yjs_rooms socket node_id ≡ false
  leave_documents-untracked none socket node_id g e = ground (arith, e)
  leave_documents-untracked (some node_ids) socket node_id g e =
      ground (arith, lookup-remove_same socket g.yjs_rooms)

  told-rooms :
      (user_id workspace_id shown : Option String) (socket : String) (g : Gateway G)
      → (tell_leaving G workspace_id socket shown (count_leaving G user_id g)).rooms ≡ g.rooms
  told-rooms none none shown socket g = refl
  told-rooms none (some w) shown socket g = refl
  told-rooms (some u) none shown socket g = refl
  told-rooms (some u) (some w) shown socket g = refl

  leave_documents-rooms :
      (o : Option (List String)) (socket : String) (g : Gateway G)
      → (leave_documents G o socket g).rooms ≡ g.rooms
  leave_documents-rooms none socket g = refl
  leave_documents-rooms (some node_ids) socket g = refl

  pub disconnect-IsGone :
      (socket : String) (g : Gateway G) → IsSound G g → IsGone socket (disconnect G socket g)
  unfolding disconnect handle_disconnect
  disconnect-IsGone socket g sound =
      let roomless : Gateway G = record g { rooms = G.rooms.leave_all g.rooms socket } in
      let d = data_of G socket g in
      let (manager, rooms, sockets, increments, decrements) =
        told-same (truthy d.user_id) (truthy d.workspace_id) d.user_id socket roomless in
      let o = lookup socket g.yjs_rooms in
      let left = leave_documents-rooms o socket (told socket roomless) in
      let same_rooms =
        left ∙ told-rooms (truthy d.user_id) (truthy d.workspace_id) d.user_id socket roomless in
      record {
        in_no_document = λ node_id.
            leave_documents-holds G o socket node_id (told socket roomless)
              (ap (lookup socket) rooms)
              (IsTracked-cong g (told socket roomless) manager rooms sound.tracked);
        in_no_room = λ room.
            ap (λ r. G.rooms.has r socket room) same_rooms
            ∙ G.rooms.has_leave_all g.rooms socket socket room
            ∙ rw (eq_refl socket) refl;
        untracked = λ node_id.
            leave_documents-untracked o socket node_id (told socket roomless)
              (ap (lookup socket) rooms);
        no_data_kept = lookup-remove_same socket _;
      }
