-- ===== src/Ws/Gateway/Editing.antt =====
-- How sockets of ws/ws.gateway.ts open, change and leave the documents of nodes.
use aideep_backend.Common.{String, Bool, true, false, Option, none, some, List, [], ◌∷◌, eqb}
use aideep_backend.Common.Assoc.{lookup, put, remove}
use aideep_backend.Infra.Action.{returned, thrown, Action, pure, ◌>>=◌, modify, gets, ◌>>◌}
use aideep_backend.Infra.Exception.{rejected, plain_error}
use aideep_backend.Infra.Rows.{MemberRow, owner, editor, viewer}
use aideep_backend.Infra.Text.{truthy}
use aideep_backend.Workspace.Repository.{check_workspace}
use aideep_backend.Ws.Gateway.State.{
  yjs_room, sync, awareness, to_client, to_others, Gateway, data_of, set_data, emit, on_manager,
  on_world, Bytes,
}
use aideep_backend.Ws.Sockets.{Ports, SyncRead}
use aideep_backend.Yjs.Manager.{
  ManagedDoc, managed, set_doc, get_or_create_doc, add, without, add_client, remove_client,
  schedule_save,
}

-- `{ ok: false, error }` and `{ ok: true, readOnly }`
pub data Ack : Type 0 where
  refused : String → Ack
  accepted : Bool → Ack

abbrev pub is_viewer : MemberRow → Bool
is_viewer row = elim row.role [ owner ↦ false | editor ↦ false | viewer ↦ true ]

-- `this.yjsRooms.get(client.id)`, a new set if there is none
abbrev pub rooms_of : Option (List String) → List String
rooms_of none = []
rooms_of (some node_ids) = node_ids

-- `client.data.yjsReadOnly?.[nodeId]`
abbrev pub is_set : Option Bool → Bool
is_set none = false
is_set (some b) = b

-- `if (rooms.size === 0) this.yjsRooms.delete(client.id)`
abbrev pub keep_rooms :
    List String → String → List (String × List String) → List (String × List String)
keep_rooms [] socket rooms = remove socket rooms
keep_rooms (n ∷ node_ids) socket rooms = put socket (n ∷ node_ids) rooms

module _ (G : Ports) where
  -- `if (rooms)`
  abbrev pub untrack :
      Option (List String)
      → String
      → String
      → List (String × List String)
      → List (String × List String)
  untrack none socket node_id rooms = rooms
  untrack (some node_ids) socket node_id rooms =
      keep_rooms (without G.documents node_id node_ids) socket rooms

  abbrev pub remember : String → String → Option MemberRow → Gateway G → Gateway G
  remember socket workspace_id membership g =
      set_data G socket
        (λ d. record d { membership_cache = put workspace_id membership d.membership_cache }) g

  -- `if (membership === undefined)`
  abbrev pub find_membership :
      Option (Option MemberRow) → String → String → String → Action (Gateway G) (Option MemberRow)
  find_membership (some membership) socket user_id workspace_id = pure membership
  find_membership none socket user_id workspace_id = do
    membership ← on_world G (check_workspace G.platform user_id workspace_id)
    modify (remember socket workspace_id membership)
    pure membership

  abbrev pub opened : Option (ManagedDoc G.documents) → Action (Gateway G) G.documents.Doc
  opened none g = (thrown rejected, g)
  opened (some d) g = (returned d.doc, g)

  -- `await this.yjsDocManager.getOrCreateDoc(nodeId, workspaceId)`
  abbrev pub open_document : String → String → Action (Gateway G) G.documents.Doc
  open_document node_id workspace_id g =
      let loaded = on_manager G (get_or_create_doc G.documents node_id workspace_id) g in
      opened (managed G.documents loaded.manager node_id) loaded

  abbrev pub track : String → String → Gateway G → Gateway G
  track socket node_id g = record g {
    yjs_rooms =
        put socket (add G.documents node_id (rooms_of (lookup socket g.yjs_rooms))) g.yjs_rooms;
  }

  -- what is behind the load
  unfoldable pub enter : String → String → Bool → G.documents.Doc → Gateway G → Gateway G
  enter socket node_id read_only doc g =
      let in_room = record g { rooms = G.rooms.join g.rooms socket (yjs_room node_id) } in
      let tracked =
        track socket node_id (on_manager G (add_client G.documents node_id socket) in_room) in
      emit G (to_client socket (sync node_id (G.wire.write_step1 doc))) (
        set_data G socket (λ d. record d { yjs_read_only = put node_id read_only d.yjs_read_only })
          tracked)

  -- `if (!membership)`
  abbrev pub join_as : Option MemberRow → String → String → String → Action (Gateway G) Ack
  join_as none socket workspace_id node_id = pure (refused "워크스페이스 멤버가 아닙니다")
  join_as (some row) socket workspace_id node_id = do
    doc ← open_document node_id workspace_id
    modify (enter socket node_id (is_viewer row) doc)
    pure (accepted (is_viewer row))

  -- `if (!userId || !workspaceId)`
  abbrev pub join_named : Option String → Option String → String → String → Action (Gateway G) Ack
  join_named (some user_id) (some workspace_id) socket node_id = do
    cached ← gets (λ g. lookup workspace_id (data_of G socket g).membership_cache)
    membership ← find_membership cached socket user_id workspace_id
    join_as membership socket workspace_id node_id
  join_named none workspace_id socket node_id = pure (refused "join_workspace 먼저 호출하세요")
  join_named (some user_id) none socket node_id = pure (refused "join_workspace 먼저 호출하세요")

  unfoldable pub handle_yjs_join : String → String → Action (Gateway G) Ack
  handle_yjs_join socket node_id g =
      let d = data_of G socket g in
      join_named (truthy d.user_id) (truthy d.workspace_id) socket node_id g

  abbrev pub send_reply : Option (Bytes G) → String → String → Gateway G → Gateway G
  send_reply none socket node_id g = g
  send_reply (some bytes) socket node_id g = emit G (to_client socket (sync node_id bytes)) g

  -- `if (client.data.yjsReadOnly?.[nodeId]) return`
  abbrev pub pass_on : Bool → String → String → Bytes G → Gateway G → Gateway G
  pass_on true socket node_id bytes g = g
  pass_on false socket node_id bytes g =
      on_manager G (schedule_save G.documents node_id)
        (emit G (to_others socket (yjs_room node_id) (sync node_id bytes)) g)

  -- `if (messageType === 2)`
  abbrev pub if_update : Bool → String → String → Bytes G → Gateway G → Gateway G
  if_update false socket node_id bytes g = g
  if_update true socket node_id bytes g =
      pass_on (is_set (lookup node_id (data_of G socket g).yjs_read_only)) socket node_id bytes g

  -- what `readSyncMessage` did to the document, and what is behind it
  abbrev pub synced :
      Option (SyncRead G.documents.Doc (Bytes G))
      → ManagedDoc G.documents
      → String
      → String
      → Bytes G
      → Action (Gateway G) (Unit {0})
  synced none d socket node_id bytes g = (thrown (plain_error "Unknown message type"), g)
  synced (some r) d socket node_id bytes g =
      let applied = on_manager G (set_doc G.documents node_id (record d { doc = r.doc })) g in
      (
        returned tt,
        if_update (eqb r.message_type 2) socket node_id bytes
            (send_reply r.reply socket node_id applied),
      )

  -- `if (!managed) return`
  abbrev pub sync_managed :
      Option (ManagedDoc G.documents) → String → String → Bytes G → Action (Gateway G) (Unit {0})
  sync_managed none socket node_id bytes = pure tt
  sync_managed (some d) socket node_id bytes =
      synced (G.wire.read_sync bytes d.doc) d socket node_id bytes

  unfoldable pub handle_yjs_sync : String → String → Bytes G → Action (Gateway G) (Unit {0})
  handle_yjs_sync socket node_id bytes g =
      sync_managed (managed G.documents g.manager node_id) socket node_id bytes g

  unfoldable pub handle_yjs_awareness : String → String → Bytes G → Gateway G → Gateway G
  handle_yjs_awareness socket node_id bytes g =
      emit G (to_others socket (yjs_room node_id) (awareness node_id bytes)) g

  unfoldable pub handle_yjs_leave : String → String → Gateway G → Gateway G
  handle_yjs_leave socket node_id g =
      let left =
        on_manager G (remove_client G.documents node_id socket)
          (record g { rooms = G.rooms.leave g.rooms socket (yjs_room node_id) }) in
      record left { yjs_rooms = untrack (lookup socket g.yjs_rooms) socket node_id g.yjs_rooms }
