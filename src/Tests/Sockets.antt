-- ===== src/Tests/Sockets.antt =====
-- ws/ws.gateway.ts and yjs/yjs-doc-manager.ts with sockets that come, edit and leave.
use aideep_backend.Common.{
  ℕ, arith, String, ◌≡◌, refl, true, false, none, some, List, [], ◌∷◌, ◌++◌,
}
use aideep_backend.Auth.Tokens.{Payload, Tokens}
use aideep_backend.Common.Assoc.{lookup}
use aideep_backend.Infra.Action.{returned}
use aideep_backend.Infra.Rows.{viewer}
use aideep_backend.Infra.Text.{truthy}
use aideep_backend.Samples.Codec.{tokens}
use aideep_backend.Samples.Docs.{lists, idle_manager}
use aideep_backend.Samples.Sockets.{ports, quiet, busy}
use aideep_backend.Samples.Worlds.{member}
use aideep_backend.Ws.Event.{node_delete}
use aideep_backend.Ws.Gateway.Arrivals.{IsGone, NamesUser}
use aideep_backend.Ws.Gateway.Connections.{
  Handshake, token_of, connect, disconnect, handle_join, handle_ws_awareness, broadcast,
}
use aideep_backend.Ws.Gateway.Editing.{
  remember, refused, accepted, handle_yjs_join, handle_yjs_sync, enter,
}
use aideep_backend.Ws.Gateway.Joining.{HasJoined, handle_yjs_join-no_member, handle_yjs_join-member}
use aideep_backend.Ws.Gateway.Late.{enter-late}
use aideep_backend.Ws.Gateway.Presence.{handle_join-late, handle_join-anyone}
use aideep_backend.Ws.Gateway.Reach.{
  Reach, stay, next, connects, joins, opens, Reach-IsSound, disconnect-IsGone_ever,
}
use aideep_backend.Ws.Gateway.Sound.{IsSound}
use aideep_backend.Ws.Gateway.State.{
  Gateway, reaches, to_room, to_client, to_others, workspace_event, workspace_awareness,
  yjs_ws_room,
}
use aideep_backend.Ws.Gateway.Syncing.{IsPassedOn, handle_yjs_sync-update, handle_yjs_sync-viewer}
use aideep_backend.Ws.Sockets.{SyncRead}
use aideep_backend.Yjs.Manager.{
  Manager, ManagedDoc, managed, remove_client, flush_doc, stored_doc, evict_doc,
}
use aideep_backend.Yjs.Manager.Clients.{view}
use aideep_backend.Yjs.Manager.Holds.{holds}
use aideep_backend.Yjs.Manager.Idle.{WillClose, remove_client-WillClose}
use aideep_backend.Yjs.Manager.Refines.{Call, run, replay, run_refines}

abbrev calls : List (Call lists)
calls =
    Call.opens "n" "w"
    ∷ Call.joins "n" "s"
    ∷ Call.changes "n" ("new" ∷ [])
    ∷ Call.leaves "n" "s"
    ∷ []

run_refines_example :
    view lists (run lists calls idle_manager) ≡ replay lists calls (view lists idle_manager)
run_refines_example = run_refines lists calls idle_manager refl

abbrev eve : Payload
eve = record { user_name = "Eve"; email = "eve@example.org"; user_id = "eve"; is_master = false }

abbrev handshake : Handshake
handshake = record { auth_token = some (tokens.sign eve "15m" 1000); query_token = none }

quiet-IsSound : IsSound ports quiet
quiet-IsSound = record { tracked = λ node_id socket held. cc held; unique = tt; counted = refl }

-- a connection that brings a token of a user
named_by_token :
    (T : Tokens) (p : Payload) (now : ℕ) (token : String) (q : Payload)
    → truthy (some (T.sign p "15m" now)) ≡ some token
    → T.verify token now ≡ some q
    → q ≡ p
named_by_token T p now token q given valid =
    ground (arith, given, valid, T.verify_sign p "15m" now, T.sign_nonempty p "15m" now)

eve_names : NamesUser ports (truthy (token_of handshake)) quiet
eve_names token p given valid = rw (named_by_token tokens eve 1000 token p given valid) refl

abbrev came : Gateway ports
came = connect ports "s" handshake quiet

abbrev in_workspace : Gateway ports
in_workspace = handle_join ports "s" "w" came

abbrev editing : Gateway ports
editing = (handle_yjs_join ports "s" "n" in_workspace).1

session : Reach ports quiet editing
session =
    next (next (next stay (connects "s" handshake refl eve_names)) (joins "s" "w")) (opens "s" "n")

Reach-IsSound_example : IsSound ports editing
Reach-IsSound_example = Reach-IsSound ports quiet-IsSound session

disconnect-IsGone_ever_example : IsGone ports "s" (disconnect ports "s" editing)
disconnect-IsGone_ever_example = disconnect-IsGone_ever ports "s" quiet-IsSound session

handle_yjs_join-no_member_example :
    ((handle_yjs_join ports "x" "n" busy).0 ≡ returned (refused "워크스페이스 멤버가 아닙니다"))
    × ((handle_yjs_join ports "x" "n" busy).1 ≡ remember ports "x" "w" none busy)
handle_yjs_join-no_member_example =
    handle_yjs_join-no_member ports "x" "n" busy "mallory" "w" refl refl refl refl

handle_yjs_join-member_example :
    ((handle_yjs_join ports "v" "n" busy).0 ≡ returned (accepted true))
    × HasJoined ports "v" "n" "w" true busy (handle_yjs_join ports "v" "n" busy).1
handle_yjs_join-member_example =
    handle_yjs_join-member ports "v" "n" busy "vic" "w" refl refl refl (member "vic" viewer) refl
      refl

-- "s" and "v" have the document open
abbrev document : ManagedDoc lists
document = record {
  doc = "old" ∷ [];
  clients = "s" ∷ "v" ∷ [];
  workspace_id = "w";
  save_timer = none;
  idle_timer = none;
  last_activity = 0;
}

abbrev shared : Gateway ports
shared = record busy { manager = record idle_manager { docs = ("n", document) ∷ [] } }

abbrev change : SyncRead (List String) String
change = record { message_type = 2; reply = none; doc = "old" ∷ "new" ∷ [] }

handle_yjs_sync-update_example :
    ((handle_yjs_sync ports "s" "n" "new" shared).0 ≡ returned tt)
    × IsPassedOn ports "s" "n" "new" document change shared
        (handle_yjs_sync ports "s" "n" "new" shared).1
handle_yjs_sync-update_example =
    handle_yjs_sync-update ports "s" "n" "new" document change shared refl refl refl refl

handle_yjs_sync-viewer_example :
    let h = (handle_yjs_sync ports "v" "n" "new" shared).1 in
    (h.emitted ≡ [] ++ [])
    × (managed lists h.manager "n" ≡ some (record document { doc = "old" ∷ "new" ∷ [] }))
    × (h.manager.timers ≡ [])
    × (stored_doc lists (flush_doc lists "n" h.manager).stores "n" ≡ "old" ∷ "new" ∷ [])
handle_yjs_sync-viewer_example =
    handle_yjs_sync-viewer ports "v" "n" "new" document change shared refl refl refl refl refl

abbrev last_one : Manager lists
last_one = record idle_manager { docs = ("n", record document { clients = "s" ∷ [] }) ∷ [] }

remove_client-WillClose_example :
    WillClose lists "n" (remove_client lists "n" "s" last_one)
    × (stored_doc lists (remove_client lists "n" "s" last_one).stores "n" ≡ "old" ∷ [])
remove_client-WillClose_example =
    remove_client-WillClose lists "n" "s" (record document { clients = "s" ∷ [] }) last_one refl
      refl refl

handle_join-late_example :
    (handle_join ports "v" "w"
      (handle_ws_awareness ports "s" (some "w") (some "here") busy)).emitted
    ≡ ([] ++ to_others "s" (yjs_ws_room "w") (workspace_awareness "w" "here") ∷ [])
      ++ to_client "v" (workspace_awareness "w" "here") ∷ []
handle_join-late_example = handle_join-late ports "s" "v" "w" "here" busy refl refl refl refl

handle_join-anyone_example :
    let h = handle_join ports "x" "w" busy in
    let sent = to_room "w" (workspace_event (node_delete "w" "n")) in
    ((broadcast ports (node_delete "w" "n") h).emitted ≡ h.emitted ++ sent ∷ [])
    × (reaches ports (broadcast ports (node_delete "w" "n") h).rooms sent "x" ≡ true)
handle_join-anyone_example = handle_join-anyone ports "x" (node_delete "w" "n") busy

enter-late_example :
    let h = enter ports "gone" "n" false ("old" ∷ []) shared in
    (lookup "gone" h.sockets ≡ none)
    × (holds lists h.manager "n" "gone" ≡ true)
    × (evict_doc lists "n" h.manager ≡ h.manager)
enter-late_example = enter-late ports "gone" "n" false ("old" ∷ []) shared refl refl
