-- ===== src/Ws/Gateway/Connections.antt =====
-- How sockets of ws/ws.gateway.ts come and go, and what they send to each other without documents.
use aideep_backend.Common.{suc, String, Bool, true, false, Option, none, some, List, [], ◌∷◌, ◌==◌}
use aideep_backend.Auth.Tokens.{Payload}
use aideep_backend.Common.Assoc.{lookup, put, remove}
use aideep_backend.Infra.Action.{Outcome, returned}
use aideep_backend.Infra.Text.{truthy}
use aideep_backend.Ws.Event.{
  WsEvent, node_move, node_create, node_delete, node_update, edge_create, edge_deleted,
}
use aideep_backend.Ws.Gateway.State.{
  no_data, LivePosition, CursorMove, yjs_ws_room, cursor_leave, node_position_live, cursor_move,
  workspace_awareness, workspace_event, to_client, to_others, to_room, Gateway, data_of, set_data,
  emit, on_manager, Bytes, Num,
}
use aideep_backend.Ws.Sockets.{Ports}
use aideep_backend.Yjs.Manager.{Manager, remove_client, cleanup_node}
use aideep_backend.Yjs.Presence.{cache_awareness, get_cached_awareness}

-- `client.handshake`: `auth.token` and `query.token`
pub record Handshake : Type 0 where
  pub auth_token : Option String
  pub query_token : Option String

-- `auth?.token ?? query?.token ?? null`
abbrev pub token_of : Handshake → Option String
token_of h = elim h.auth_token [ none ↦ h.query_token | some t ↦ some t ]

abbrev pub same_workspace : Option String → String → Bool
same_workspace none workspace_id = false
same_workspace (some w) workspace_id = w == workspace_id

module _ (G : Ports) where
  -- `client.disconnect()`: Socket.IO then tells of the disconnection
  abbrev pub close : String → Gateway G → Gateway G
  close socket g = record g { closing = socket ∷ g.closing }

  -- `catch { client.disconnect() }`
  abbrev pub admit : Option Payload → String → Gateway G → Gateway G
  admit none socket g = close socket g
  admit (some payload) socket g =
      record (set_data G socket (λ d. record d { user_id = some payload.user_id }) g) {
        increments = suc g.increments;
      }

  -- `if (!token)`
  abbrev pub check_token : Option String → String → Gateway G → Gateway G
  check_token none socket g = close socket g
  check_token (some token) socket g = admit (G.tokens.verify token g.world.now) socket g

  unfoldable pub handle_connection : String → Handshake → Gateway G → Gateway G
  handle_connection socket handshake g = check_token (truthy (token_of handshake)) socket g

  abbrev pub count_leaving : Option String → Gateway G → Gateway G
  count_leaving none g = g
  count_leaving (some user_id) g = record g { decrements = suc g.decrements }

  abbrev pub tell_leaving : Option String → String → Option String → Gateway G → Gateway G
  tell_leaving none socket user_id g = g
  tell_leaving (some workspace_id) socket user_id g =
      emit G (to_others socket workspace_id (cursor_leave user_id)) g

  -- `for (const nodeId of nodeIds)`
  abbrev pub leave_each : List String → String → Manager G.documents → Manager G.documents
  leave_each [] socket m = m
  leave_each (node_id ∷ node_ids) socket m =
      leave_each node_ids socket (remove_client G.documents node_id socket m)

  abbrev pub leave_documents : Option (List String) → String → Gateway G → Gateway G
  leave_documents none socket g = g
  leave_documents (some node_ids) socket g = record g {
    manager = leave_each node_ids socket g.manager;
    yjs_rooms = remove socket g.yjs_rooms;
  }

  unfoldable pub handle_disconnect : String → Gateway G → Gateway G
  handle_disconnect socket g =
      let d = data_of G socket g in
      let told =
        tell_leaving (truthy d.workspace_id) socket d.user_id
          (count_leaving (truthy d.user_id) g) in
      leave_documents (lookup socket g.yjs_rooms) socket told

  -- what Socket.IO does around the two handlers
  unfoldable pub connect : String → Handshake → Gateway G → Gateway G
  connect socket handshake g =
      handle_connection socket handshake (record g { sockets = put socket no_data g.sockets })

  unfoldable pub disconnect : String → Gateway G → Gateway G
  disconnect socket g =
      let after =
        handle_disconnect socket (record g { rooms = G.rooms.leave_all g.rooms socket }) in
      record after { sockets = remove socket after.sockets }

  -- `if (cached)`
  abbrev pub send_cached : Outcome (Option (Bytes G)) → String → String → Gateway G → Gateway G
  send_cached (returned (some bytes)) socket workspace_id g =
      emit G (to_client socket (workspace_awareness workspace_id bytes)) g
  send_cached _ socket workspace_id g = g

  unfoldable pub handle_join : String → String → Gateway G → Gateway G
  handle_join socket workspace_id g =
      let in_room = record g { rooms = G.rooms.join g.rooms socket workspace_id } in
      let named = set_data G socket (λ d. record d { workspace_id = some workspace_id }) in_room in
      let r = get_cached_awareness G.platform G.wire workspace_id g.world in
      send_cached r.0 socket workspace_id (record named {
        rooms = G.rooms.join named.rooms socket (yjs_ws_room workspace_id);
        world = r.1;
      })

  unfoldable pub handle_live_position : String → LivePosition (Num G) → Gateway G → Gateway G
  handle_live_position socket payload g =
      emit G (to_others socket payload.workspace_id (node_position_live payload)) g

  unfoldable pub handle_cursor_move : String → CursorMove (Num G) → Gateway G → Gateway G
  handle_cursor_move socket payload g =
      emit G
        (to_others socket payload.workspace_id (cursor_move (data_of G socket g).user_id payload)) g

  abbrev pub relay : Bool → String → String → Bytes G → Gateway G → Gateway G
  relay false socket workspace_id bytes g = g
  relay true socket workspace_id bytes g =
      emit G (to_others socket (yjs_ws_room workspace_id) (workspace_awareness workspace_id bytes))
        (record g { world = (cache_awareness G.platform G.wire workspace_id bytes g.world).1 })

  -- `if (!workspaceId || !data) return`, where the data may be missing
  abbrev pub relay_given : Option String → Option (Bytes G) → String → Gateway G → Gateway G
  relay_given none given socket g = g
  relay_given (some workspace_id) none socket g = g
  relay_given (some workspace_id) (some bytes) socket g =
      relay (same_workspace (data_of G socket g).workspace_id workspace_id) socket workspace_id
        bytes g

  unfoldable pub handle_ws_awareness :
      String → Option String → Option (Bytes G) → Gateway G → Gateway G
  handle_ws_awareness socket workspace_id bytes g = relay_given (truthy workspace_id) bytes socket g

  abbrev pub workspace_of : WsEvent (Num G) → String
  workspace_of (node_move workspace_id user_id node_id x y) = workspace_id
  workspace_of (node_create workspace_id user_id node) = workspace_id
  workspace_of (node_delete workspace_id node_id) = workspace_id
  workspace_of (node_update workspace_id node_id user_id patch) = workspace_id
  workspace_of (edge_create workspace_id user_id edge) = workspace_id
  workspace_of (edge_deleted workspace_id user_id edge_id) = workspace_id

  -- `if (event.type === 'NODE_DELETE')`
  abbrev pub clean_up : WsEvent (Num G) → Gateway G → Gateway G
  clean_up (node_delete workspace_id node_id) g = on_manager G (cleanup_node G.documents node_id) g
  clean_up (node_move workspace_id user_id node_id x y) g = g
  clean_up (node_create workspace_id user_id node) g = g
  clean_up (node_update workspace_id node_id user_id patch) g = g
  clean_up (edge_create workspace_id user_id edge) g = g
  clean_up (edge_deleted workspace_id user_id edge_id) g = g

  unfoldable pub broadcast : WsEvent (Num G) → Gateway G → Gateway G
  broadcast event g =
      clean_up event (emit G (to_room (workspace_of event) (workspace_event event)) g)
