-- ===== src/Ws/Gateway/State.antt =====
-- The state of ws/ws.gateway.ts: what it keeps, what it wrote to its sockets, and the state of the
-- services that it calls.
use Prim.Native.String.{◌++◌ as ◌++ˢ◌}
use aideep_backend.Common.{
  ℕ, String, Bool, not, ◌&&◌, Option, none, some, List, [], ◌∷◌, ◌++◌, ◌==◌,
}
use aideep_backend.Common.Assoc.{lookup, put}
use aideep_backend.Infra.Action.{Action}
use aideep_backend.Infra.Rows.{MemberRow}
use aideep_backend.Infra.World.{World, Handler}
use aideep_backend.Ws.Event.{WsEvent}
use aideep_backend.Ws.Sockets.{Ports}
use aideep_backend.Yjs.Manager.{Manager}

-- `client.data`
pub record SocketData : Type 0 where
  pub user_id : Option String
  pub workspace_id : Option String
  -- `null` stands for a user who is no member
  pub membership_cache : List (String × Option MemberRow)
  pub yjs_read_only : List (String × Bool)

abbrev pub no_data : SocketData
no_data = record { user_id = none; workspace_id = none; membership_cache = []; yjs_read_only = [] }

-- the room of a node's document, and that of a workspace's presence
abbrev pub yjs_room : String → String
yjs_room node_id = "yjs:" ++ˢ node_id

abbrev pub yjs_ws_room : String → String
yjs_ws_room workspace_id = "yjs:ws:" ++ˢ workspace_id

-- the payload of `node_position_live`
pub record LivePosition (Num : Type 0) : Type 0 where
  pub workspace_id : String
  pub node_id : String
  pub x : Num
  pub y : Num

-- the payload of `cursor_move`
pub record CursorMove (Num : Type 0) : Type 0 where
  pub workspace_id : String
  pub x : Num
  pub y : Num
  pub user_name : String
  pub color : String

module _ (G : Ports) where
  abbrev pub Num : Type 0
  Num = G.platform.Num

  abbrev pub Bytes : Type 0
  Bytes = G.wire.Bytes

  -- the event's name and its payload
  pub data Message : Type 0 where
    cursor_leave : Option String → Message
    node_position_live : LivePosition Num → Message
    cursor_move : Option String → CursorMove Num → Message
    sync awareness : String → Bytes → Message
    workspace_awareness : String → Bytes → Message
    workspace_event : WsEvent Num → Message

  -- `client.emit`, `client.to(room).emit` and `server.to(room).emit`; the client first
  pub data Emission : Type 0 where
    to_client : String → Message → Emission
    to_others : String → String → Message → Emission
    to_room : String → Message → Emission

  -- whether a socket gets it
  abbrev pub reaches : G.rooms.Store → Emission → String → Bool
  reaches rooms (to_client socket message) other = socket == other
  reaches rooms (to_others socket room message) other =
      G.rooms.has rooms other room && not (socket == other)
  reaches rooms (to_room room message) other = G.rooms.has rooms other room

  pub record Gateway : Type 0 where
    pub world : World G.platform
    pub manager : Manager G.documents
    pub rooms : G.rooms.Store
    -- the connected sockets with their `data`
    pub sockets : List (String × SocketData)
    -- `yjsRooms`
    pub yjs_rooms : List (String × List String)
    -- the calls of `wsMetrics.increment()` and of `wsMetrics.decrement()`
    pub increments : ℕ
    pub decrements : ℕ
    -- the sockets on which `disconnect()` was called, the last one first
    pub closing : List String
    -- what was written, the first first
    pub emitted : List Emission

  abbrev pub or_no_data : Option SocketData → SocketData
  or_no_data none = no_data
  or_no_data (some d) = d

  abbrev pub data_of : String → Gateway → SocketData
  data_of socket g = or_no_data (lookup socket g.sockets)

  abbrev set_found :
      Option SocketData
      → String
      → (SocketData → SocketData)
      → List (String × SocketData)
      → List (String × SocketData)
  set_found none socket f sockets = sockets
  set_found (some d) socket f sockets = put socket (f d) sockets

  -- an assignment to a field of `client.data`; that of a socket that is gone is read no more
  abbrev pub set_data : String → (SocketData → SocketData) → Gateway → Gateway
  set_data socket f g = record g {
    sockets = set_found (lookup socket g.sockets) socket f g.sockets;
  }

  abbrev pub emit : Emission → Gateway → Gateway
  emit e g = record g { emitted = g.emitted ++ e ∷ [] }

  abbrev pub on_manager : (Manager G.documents → Manager G.documents) → Gateway → Gateway
  on_manager f g = record g { manager = f g.manager }

  -- a call of a service whose state is `World`
  abbrev pub on_world : {A : Type 0} → Handler G.platform A → Action Gateway A
  on_world h g = ((h g.world).0, record g { world = (h g.world).1 })
