-- ===== src/Ws/Gateway/Presence.antt =====
-- The presence of a workspace's members at ws/ws.gateway.ts, and who gets the events of a workspace.
use aideep_backend.Common.{
  String, ◌≡◌, refl, sym, subst, ◌∙◌, true, false, Option, none, some, [], ◌∷◌, ◌++◌, ◌==◌, eq_refl,
  arith,
}
use aideep_backend.Infra.Action.{Outcome, returned, thrown}
use aideep_backend.Ws.Event.{
  WsEvent, node_delete, node_move, node_create, node_update, edge_create, edge_deleted,
}
use aideep_backend.Ws.Gateway.Connections.{
  same_workspace, handle_join, handle_ws_awareness, send_cached, workspace_of, broadcast,
}
use aideep_backend.Ws.Gateway.State.{
  Gateway, data_of, workspace_awareness, workspace_event, to_client, to_others, to_room,
  yjs_ws_room, reaches, set_data, Bytes, Num,
}
use aideep_backend.Ws.Sockets.{Ports}
use aideep_backend.Yjs.Presence.{get_cached_awareness}
use aideep_backend.Yjs.Presence.Cached.{cache_awareness-returned, get_cached_awareness-cached}

module _ (G : Ports) where
  -- Where a socket that joined the workspace sends its presence while Redis answers, the others in the presence room are sent it at once, and a socket that joins the workspace behind that is sent it as well, unless it is empty.
  pub handle_join-late :
      (socket late workspace_id : String) (bytes : Bytes G) (g : Gateway G)
      → (data_of G socket g).workspace_id ≡ some workspace_id
      → (workspace_id == "") ≡ false
      → (G.wire.to_base64 bytes == "") ≡ false
      → g.world.outages ≡ []
      → (handle_join G late workspace_id
          (handle_ws_awareness G socket (some workspace_id) (some bytes) g)).emitted
        ≡ (g.emitted
            ++ to_others socket (yjs_ws_room workspace_id) (workspace_awareness workspace_id bytes)
              ∷ [])
          ++ to_client late (workspace_awareness workspace_id bytes) ∷ []
  unfolding handle_join handle_ws_awareness
  handle_join-late socket late workspace_id bytes g joined chosen full answers =
      rw
        (
          chosen,
          joined,
          eq_refl workspace_id,
          cache_awareness-returned G.platform G.wire workspace_id bytes g.world answers,
          get_cached_awareness-cached G.platform G.wire workspace_id bytes g.world answers full,
        )
        refl

  -- Presence from a socket that has not joined the workspace that it names is dropped, and so is presence without data or workspace.
  pub handle_ws_awareness-stranger :
      (socket workspace_id : String) (given : Option (Bytes G)) (g : Gateway G)
      → same_workspace (data_of G socket g).workspace_id workspace_id ≡ false
      → handle_ws_awareness G socket (some workspace_id) given g ≡ g
  unfolding handle_ws_awareness
  handle_ws_awareness-stranger socket workspace_id given g stranger = ground (arith, stranger)

  send_cached-rooms :
      (r : Outcome (Option (Bytes G))) (socket workspace_id : String) (g : Gateway G)
      → (send_cached G r socket workspace_id g).rooms ≡ g.rooms
  send_cached-rooms (returned (some bytes)) socket workspace_id g = refl
  send_cached-rooms (returned none) socket workspace_id g = refl
  send_cached-rooms (thrown e) socket workspace_id g = refl

  handle_join-rooms :
      (socket workspace_id : String) (g : Gateway G)
      → (handle_join G socket workspace_id g).rooms
        ≡ G.rooms.join (G.rooms.join g.rooms socket workspace_id) socket (yjs_ws_room workspace_id)
  unfolding handle_join
  handle_join-rooms socket workspace_id g =
      let r = get_cached_awareness G.platform G.wire workspace_id g.world in
      let in_room : Gateway G = record g { rooms = G.rooms.join g.rooms socket workspace_id } in
      let named = set_data G socket (λ d. record d { workspace_id = some workspace_id }) in_room in
      send_cached-rooms r.0 socket workspace_id (record named {
        rooms = G.rooms.join named.rooms socket (yjs_ws_room workspace_id);
        world = r.1;
      })

  broadcast-emitted :
      (event : WsEvent (Num G)) (g : Gateway G)
      → (broadcast G event g).emitted
        ≡ g.emitted ++ to_room (workspace_of G event) (workspace_event event) ∷ []
  unfolding broadcast
  broadcast-emitted (node_delete workspace_id node_id) g = refl
  broadcast-emitted (node_move workspace_id user_id node_id x y) g = refl
  broadcast-emitted (node_create workspace_id user_id node) g = refl
  broadcast-emitted (node_update workspace_id node_id user_id patch) g = refl
  broadcast-emitted (edge_create workspace_id user_id edge) g = refl
  broadcast-emitted (edge_deleted workspace_id user_id edge_id) g = refl

  broadcast-rooms :
      (event : WsEvent (Num G)) (g : Gateway G) → (broadcast G event g).rooms ≡ g.rooms
  unfolding broadcast
  broadcast-rooms (node_delete workspace_id node_id) g = refl
  broadcast-rooms (node_move workspace_id user_id node_id x y) g = refl
  broadcast-rooms (node_create workspace_id user_id node) g = refl
  broadcast-rooms (node_update workspace_id node_id user_id patch) g = refl
  broadcast-rooms (edge_create workspace_id user_id edge) g = refl
  broadcast-rooms (edge_deleted workspace_id user_id edge_id) g = refl

  -- Any socket that asks to join a workspace, whoever its user is and whether or not it has one, gets an event of that workspace that is broadcast directly behind that: the broadcast sends that event, nothing else and to that workspace's room only, and the socket is among those whom it reaches.
  pub handle_join-anyone :
      (socket : String) (event : WsEvent (Num G)) (g : Gateway G)
      → let h = handle_join G socket (workspace_of G event) g in
        let sent = to_room (workspace_of G event) (workspace_event event) in
        ((broadcast G event h).emitted ≡ h.emitted ++ sent ∷ [])
        × (reaches G (broadcast G event h).rooms sent socket ≡ true)
  handle_join-anyone socket event g =
      let w = workspace_of G event in
      let h = handle_join G socket w g in
      let again =
        G.rooms.has_join (G.rooms.join g.rooms socket w) socket (yjs_ws_room w) socket w in
      let first = G.rooms.has_join g.rooms socket w socket w in
      (
        broadcast-emitted event h,
        subst (λ r. G.rooms.has r socket w ≡ true)
            (sym (broadcast-rooms event h ∙ handle_join-rooms socket w g))
            (ground (arith, again, first, eq_refl socket, eq_refl w)),
      )
