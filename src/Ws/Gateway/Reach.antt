-- ===== src/Ws/Gateway/Reach.antt =====
-- Any sequence of events at the gateway of ws/ws.gateway.ts. What a handler does behind an `await` is a
-- step of its own where other events may come in between.
use aideep_backend.Common.{ℕ, String, ◌≡◌, sym, ap, ◌∙◌, Bool, Option, none}
use aideep_backend.Common.Assoc.{lookup}
use aideep_backend.Infra.Rows.{MemberRow}
use aideep_backend.Infra.Text.{truthy}
use aideep_backend.Ws.Event.{WsEvent}
use aideep_backend.Ws.Gateway.Arrivals.{
  NamesUser, IsSound-connect, IsSound-disconnect, IsGone, disconnect-IsGone,
}
use aideep_backend.Ws.Gateway.Connections.{
  Handshake, token_of, connect, disconnect, handle_join, handle_live_position, handle_cursor_move,
  handle_ws_awareness, broadcast,
}
use aideep_backend.Ws.Gateway.Editing.{
  remember, enter, handle_yjs_join, handle_yjs_sync, handle_yjs_awareness, handle_yjs_leave,
}
use aideep_backend.Ws.Gateway.Messages.{
  IsSound-handle_yjs_sync, IsSound-handle_join, IsSound-handle_ws_awareness, IsSound-broadcast,
}
use aideep_backend.Ws.Gateway.Sound.{
  IsSound, IsSound-on_manager, IsSound-emit, IsSound-enter, IsSound-remember, IsSound-opens,
  IsSound-handle_yjs_join, IsSound-handle_yjs_leave,
}
use aideep_backend.Ws.Gateway.State.{LivePosition, CursorMove, Gateway, on_manager, Bytes, Num}
use aideep_backend.Ws.Sockets.{Ports}
use aideep_backend.Yjs.Manager.{TimerKind, timer, get_or_create_doc, flush_all, fire}
use aideep_backend.Yjs.Manager.Clients.{view-flush_all}
use aideep_backend.Yjs.Manager.Holds.{has_client, holds-fire}

module _ (G : Ports) where
  -- Socket.IO gives each connection a new id
  pub data Step (g : Gateway G) : Gateway G → Type 0 where
    connects :
        (socket : String) (handshake : Handshake)
        → lookup socket g.sockets ≡ none
        → NamesUser G (truthy (token_of handshake)) g
        → Step g (connect G socket handshake g)
    disconnects : (socket : String) → Step g (disconnect G socket g)
    joins : (socket workspace_id : String) → Step g (handle_join G socket workspace_id g)
    positions :
        (socket : String) (payload : LivePosition (Num G))
        → Step g (handle_live_position G socket payload g)
    moves :
        (socket : String) (payload : CursorMove (Num G))
        → Step g (handle_cursor_move G socket payload g)
    presents :
        (socket : String) (workspace_id : Option String) (bytes : Option (Bytes G))
        → Step g (handle_ws_awareness G socket workspace_id bytes g)
    opens : (socket node_id : String) → Step g (handle_yjs_join G socket node_id g).1
    -- the three parts of `handleYjsJoin`, with other events in between
    remembers :
        (socket workspace_id : String) (membership : Option MemberRow)
        → Step g (remember G socket workspace_id membership g)
    loads :
        (node_id workspace_id : String)
        → Step g (on_manager G (get_or_create_doc G.documents node_id workspace_id) g)
    enters :
        (socket node_id : String) (read_only : Bool) (doc : G.documents.Doc)
        → Step g (enter G socket node_id read_only doc g)
    syncs :
        (socket node_id : String) (bytes : Bytes G)
        → Step g (handle_yjs_sync G socket node_id bytes g).1
    shows :
        (socket node_id : String) (bytes : Bytes G)
        → Step g (handle_yjs_awareness G socket node_id bytes g)
    leaves : (socket node_id : String) → Step g (handle_yjs_leave G socket node_id g)
    broadcasts : (event : WsEvent (Num G)) → Step g (broadcast G event g)
    flushes : Step g (on_manager G (flush_all G.documents g.manager.docs) g)
    fires :
        (handle : ℕ) (node_id : String) (kind : TimerKind)
        → Step g (on_manager G (fire G.documents (timer handle node_id kind)) g)

  pub data Reach (g : Gateway G) : Gateway G → Type 0 where
    stay : Reach g g
    next : {h k : Gateway G} → Reach g h → Step h k → Reach g k

  Step-IsSound : {g h : Gateway G} → IsSound G g → Step g h → IsSound G h
  Step-IsSound {g} sound (connects socket handshake new names) =
      IsSound-connect G socket handshake g names new sound
  Step-IsSound {g} sound (disconnects socket) = IsSound-disconnect G socket g sound
  Step-IsSound {g} sound (joins socket workspace_id) =
      IsSound-handle_join G socket workspace_id g sound
  Step-IsSound {g} sound (positions socket payload) =
      unfold handle_live_position in IsSound-emit G _ g sound
  Step-IsSound {g} sound (moves socket payload) =
      unfold handle_cursor_move in IsSound-emit G _ g sound
  Step-IsSound {g} sound (presents socket workspace_id bytes) =
      IsSound-handle_ws_awareness G socket workspace_id bytes g sound
  Step-IsSound {g} sound (opens socket node_id) = IsSound-handle_yjs_join G socket node_id g sound
  Step-IsSound {g} sound (remembers socket workspace_id membership) =
      IsSound-remember G socket workspace_id membership g sound
  Step-IsSound {g} sound (loads node_id workspace_id) = IsSound-opens G node_id workspace_id g sound
  Step-IsSound {g} sound (enters socket node_id read_only doc) =
      IsSound-enter G socket node_id read_only doc g sound
  Step-IsSound {g} sound (syncs socket node_id bytes) =
      IsSound-handle_yjs_sync G socket node_id bytes g sound
  Step-IsSound {g} sound (shows socket node_id bytes) =
      unfold handle_yjs_awareness in IsSound-emit G _ g sound
  Step-IsSound {g} sound (leaves socket node_id) = IsSound-handle_yjs_leave G socket node_id g sound
  Step-IsSound {g} sound (broadcasts event) = IsSound-broadcast G event g sound
  Step-IsSound {g} sound flushes =
      IsSound-on_manager G (flush_all G.documents g.manager.docs) g
        (λ node_id socket held.
          ap (λ v. has_client (v node_id) socket)
            (sym (view-flush_all G.documents g.manager.docs g.manager))
          ∙ held)
        sound
  Step-IsSound {g} sound (fires handle node_id kind) =
      IsSound-on_manager G (fire G.documents (timer handle node_id kind)) g
        (λ other socket held.
          sym (holds-fire G.documents handle node_id kind other socket g.manager) ∙ held)
        sound

  -- Where the valid tokens of connections name a user and every connection has a new id, any sequence of events at the gateway, timers and parts of a handler included, leads from a sound state to a sound one: every client of a document is tracked by the gateway, no socket has two entries, and the gauge's increments exceed its decrements by exactly the number of connected sockets with a user.
  pub Reach-IsSound : {g h : Gateway G} → IsSound G g → Reach g h → IsSound G h
  Reach-IsSound sound stay = sound
  Reach-IsSound sound (next r s) = Step-IsSound (Reach-IsSound sound r) s

  -- Where the valid tokens of connections name a user and every connection has a new id, at any time behind a sound start a socket that disconnects is then in no room and a client of no document, and the gateway keeps nothing of it.
  pub disconnect-IsGone_ever :
      {g h : Gateway G} (socket : String)
      → IsSound G g
      → Reach g h
      → IsGone G socket (disconnect G socket h)
  disconnect-IsGone_ever {h} socket sound r = disconnect-IsGone G socket h (Reach-IsSound sound r)
