-- ===== src/Ws/Gateway/Messages.antt =====
-- The handlers of ws/ws.gateway.ts for what sockets send, and `broadcast`, keep the gateway sound.
use aideep_backend.Common.{
  String, ◌≡◌, refl, sym, ap, ◌∙◌, Bool, true, false, Option, none, some, arith, Option-cases, inl,
  inr,
}
use aideep_backend.Infra.Action.{Outcome, returned, thrown}
use aideep_backend.Infra.Text.{truthy}
use aideep_backend.Ws.Event.{
  WsEvent, node_move, node_create, node_delete, node_update, edge_create, edge_deleted,
}
use aideep_backend.Ws.Gateway.Connections.{
  relay, relay_given, handle_join, send_cached, handle_ws_awareness, clean_up, broadcast,
}
use aideep_backend.Ws.Gateway.Editing.{send_reply, pass_on, if_update, synced, handle_yjs_sync}
use aideep_backend.Ws.Gateway.Sound.{
  IsSound, IsSound-set_data, IsSound-on_manager, IsSound-emit, IsSound-world,
}
use aideep_backend.Ws.Gateway.State.{Gateway, on_manager, Bytes, Num, yjs_ws_room}
use aideep_backend.Ws.Sockets.{Ports, SyncRead}
use aideep_backend.Yjs.Manager.{ManagedDoc, managed, set_doc, schedule_save, cleanup_node}
use aideep_backend.Yjs.Manager.Clients.{view_same, view-schedule_save}
use aideep_backend.Yjs.Presence.{get_cached_awareness}
use aideep_backend.Yjs.Manager.Holds.{has_client, holds-cleanup_node}

module _ (G : Ports) where
  IsSound-schedule_save :
      (node_id : String) (g : Gateway G)
      → IsSound G g
      → IsSound G (on_manager G (schedule_save G.documents node_id) g)
  IsSound-schedule_save node_id g sound =
      IsSound-on_manager G (schedule_save G.documents node_id) g
        (λ other socket held.
          ap (λ v. has_client (v other) socket)
            (sym (view-schedule_save G.documents node_id g.manager))
          ∙ held)
        sound

  IsSound-send_reply :
      (reply : Option (Bytes G)) (socket node_id : String) (g : Gateway G)
      → IsSound G g
      → IsSound G (send_reply G reply socket node_id g)
  IsSound-send_reply none socket node_id g sound = sound
  IsSound-send_reply (some bytes) socket node_id g sound = IsSound-emit G _ g sound

  IsSound-pass_on :
      (read_only : Bool) (socket node_id : String) (bytes : Bytes G) (g : Gateway G)
      → IsSound G g
      → IsSound G (pass_on G read_only socket node_id bytes g)
  IsSound-pass_on true socket node_id bytes g sound = sound
  IsSound-pass_on false socket node_id bytes g sound =
      IsSound-schedule_save node_id _ (IsSound-emit G _ g sound)

  IsSound-if_update :
      (is_update : Bool) (socket node_id : String) (bytes : Bytes G) (g : Gateway G)
      → IsSound G g
      → IsSound G (if_update G is_update socket node_id bytes g)
  IsSound-if_update false socket node_id bytes g sound = sound
  IsSound-if_update true socket node_id bytes g sound =
      IsSound-pass_on _ socket node_id bytes g sound

  IsSound-synced :
      (r : Option (SyncRead G.documents.Doc (Bytes G))) (d : ManagedDoc G.documents)
      (socket node_id : String) (bytes : Bytes G) (g : Gateway G)
      → managed G.documents g.manager node_id ≡ some d
      → IsSound G g
      → IsSound G (synced G r d socket node_id bytes g).1
  IsSound-synced none d socket node_id bytes g found sound = sound
  IsSound-synced (some r) d socket node_id bytes g found sound =
      IsSound-if_update _ socket node_id bytes _ (
        IsSound-send_reply r.reply socket node_id _ (
          IsSound-on_manager G (set_doc G.documents node_id (record d { doc = r.doc })) g
            (λ other client held.
              ap (λ v. has_client (v other) client)
                (sym
                  (view_same G.documents node_id d (record d { doc = r.doc }) g.manager found refl))
              ∙ held)
            sound))

  pub IsSound-handle_yjs_sync :
      (socket node_id : String) (bytes : Bytes G) (g : Gateway G)
      → IsSound G g
      → IsSound G (handle_yjs_sync G socket node_id bytes g).1
  unfolding handle_yjs_sync
  IsSound-handle_yjs_sync socket node_id bytes g sound =
      elim (Option-cases (managed G.documents g.manager node_id)) [
        | inl missing ↦ rw missing sound
        | inr (d, e) ↦
            rw e (IsSound-synced (G.wire.read_sync bytes d.doc) d socket node_id bytes g e sound)
      ]

  IsSound-send_cached :
      (r : Outcome (Option (Bytes G))) (socket workspace_id : String) (g : Gateway G)
      → IsSound G g
      → IsSound G (send_cached G r socket workspace_id g)
  IsSound-send_cached (returned (some bytes)) socket workspace_id g sound = IsSound-emit G _ g sound
  IsSound-send_cached (returned none) socket workspace_id g sound = sound
  IsSound-send_cached (thrown e) socket workspace_id g sound = sound

  pub IsSound-handle_join :
      (socket workspace_id : String) (g : Gateway G)
      → IsSound G g
      → IsSound G (handle_join G socket workspace_id g)
  unfolding handle_join
  IsSound-handle_join socket workspace_id g sound =
      let in_room : Gateway G = record g { rooms = G.rooms.join g.rooms socket workspace_id } in
      let r = get_cached_awareness G.platform G.wire workspace_id g.world in
      let in_both = G.rooms.join in_room.rooms socket (yjs_ws_room workspace_id) in
      IsSound-send_cached r.0 socket workspace_id _ (
        IsSound-world G r.1 in_both _ (
          IsSound-set_data G socket (λ d. record d { workspace_id = some workspace_id }) in_room
            (λ d. refl) (IsSound-world G g.world in_room.rooms g sound)))

  IsSound-relay :
      (same : Bool) (socket workspace_id : String) (bytes : Bytes G) (g : Gateway G)
      → IsSound G g
      → IsSound G (relay G same socket workspace_id bytes g)
  IsSound-relay false socket workspace_id bytes g sound = sound
  IsSound-relay true socket workspace_id bytes g sound =
      IsSound-emit G _ _ (IsSound-world G _ g.rooms g sound)

  IsSound-relay_given :
      (workspace_id : Option String) (given : Option (Bytes G)) (socket : String) (g : Gateway G)
      → IsSound G g
      → IsSound G (relay_given G workspace_id given socket g)
  IsSound-relay_given none given socket g sound = sound
  IsSound-relay_given (some workspace_id) none socket g sound = sound
  IsSound-relay_given (some workspace_id) (some bytes) socket g sound =
      IsSound-relay _ socket workspace_id bytes g sound

  pub IsSound-handle_ws_awareness :
      (socket : String) (workspace_id : Option String) (bytes : Option (Bytes G)) (g : Gateway G)
      → IsSound G g
      → IsSound G (handle_ws_awareness G socket workspace_id bytes g)
  unfolding handle_ws_awareness
  IsSound-handle_ws_awareness socket workspace_id bytes g sound =
      IsSound-relay_given (truthy workspace_id) bytes socket g sound

  IsSound-clean_up :
      (event : WsEvent (Num G)) (g : Gateway G) → IsSound G g → IsSound G (clean_up G event g)
  IsSound-clean_up (node_delete workspace_id node_id) g sound =
      IsSound-on_manager G (cleanup_node G.documents node_id) g
        (λ other socket held.
          ground (arith, held, holds-cleanup_node G.documents node_id other socket g.manager))
        sound
  IsSound-clean_up (node_move workspace_id user_id node_id x y) g sound = sound
  IsSound-clean_up (node_create workspace_id user_id node) g sound = sound
  IsSound-clean_up (node_update workspace_id node_id user_id patch) g sound = sound
  IsSound-clean_up (edge_create workspace_id user_id edge) g sound = sound
  IsSound-clean_up (edge_deleted workspace_id user_id edge_id) g sound = sound

  pub IsSound-broadcast :
      (event : WsEvent (Num G)) (g : Gateway G) → IsSound G g → IsSound G (broadcast G event g)
  unfolding broadcast
  IsSound-broadcast event g sound = IsSound-clean_up event _ (IsSound-emit G _ g sound)
