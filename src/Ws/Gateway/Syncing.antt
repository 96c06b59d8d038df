-- ===== src/Ws/Gateway/Syncing.antt =====
-- What `handleYjsSync` of ws/ws.gateway.ts does with the changes of editors and of viewers.
use mathlib.Core.List.{append-nil}
use aideep_backend.Common.{
  ℕ, String, ◌≡◌, ◌≢◌, refl, sym, ap, ◌∙◌, subst, Bool, true, false, Option, none, some, List, [],
  ◌∷◌, ◌++◌, eqb, Memᴰ,
}
use aideep_backend.Common.Assoc.{lookup, lookup-put_same}
use aideep_backend.Infra.Action.{returned}
use aideep_backend.Ws.Gateway.Editing.{is_set, send_reply, pass_on, if_update, handle_yjs_sync}
use aideep_backend.Ws.Gateway.State.{
  Gateway, data_of, Emission, sync, to_client, to_others, yjs_room, on_manager, Bytes,
}
use aideep_backend.Ws.Sockets.{Ports, SyncRead}
use aideep_backend.Yjs.Manager.{
  ManagedDoc, managed, set_doc, schedule, schedule_save, flush_doc, on_managed, stored_doc,
}
use aideep_backend.Yjs.Manager.Safety.{IsDue, IsSafe, elsewhere, IsSafeElsewhere-set_doc}
use aideep_backend.Yjs.Manager.Steps.{IsSafe-schedule, flush_doc-stored}

module _ (G : Ports) where
  abbrev pub reply_to : Option (Bytes G) → String → String → List (Emission G)
  reply_to none socket node_id = []
  reply_to (some bytes) socket node_id = to_client socket (sync node_id bytes) ∷ []

  -- whether the socket's data marks it as a reader of the node's document
  abbrev pub reads_only : String → String → Gateway G → Bool
  reads_only socket node_id g = is_set (lookup node_id (data_of G socket g).yjs_read_only)

  -- the change is in the document, its save is due, and the others in its room are told
  pub record IsPassedOn (socket node_id : String) (bytes : Bytes G) (d : ManagedDoc G.documents)
      (r : SyncRead G.documents.Doc (Bytes G)) (g h : Gateway G) : Type 0 where
    pub after : ManagedDoc G.documents
    pub there : managed G.documents h.manager node_id ≡ some after
    pub changed : after.doc ≡ r.doc
    pub same_clients : after.clients ≡ d.clients
    pub due : IsDue G.documents node_id after h.manager.timers
    pub told :
        h.emitted
        ≡ (g.emitted ++ reply_to r.reply socket node_id)
          ++ to_others socket (yjs_room node_id) (sync node_id bytes) ∷ []
    pub safe : IsSafe G.documents g.manager → d.clients ≢ [] → IsSafe G.documents h.manager

  send_reply-emitted :
      (reply : Option (Bytes G)) (socket node_id : String) (g : Gateway G)
      → send_reply G reply socket node_id g
        ≡ record g { emitted = g.emitted ++ reply_to reply socket node_id }
  send_reply-emitted none socket node_id g =
      ap (λ es. record g { emitted = es }) (sym (append-nil g.emitted))
  send_reply-emitted (some bytes) socket node_id g = refl

  module _ (socket node_id : String) (bytes : Bytes G) (d : ManagedDoc G.documents)
      (r : SyncRead G.documents.Doc (Bytes G)) (g : Gateway G)
      (found : managed G.documents g.manager node_id ≡ some d)
      (read : G.wire.read_sync bytes d.doc ≡ some r) (is_update : r.message_type ≡ 2) where
    abbrev changed_doc : ManagedDoc G.documents
    changed_doc = record d { doc = r.doc }

    abbrev replied : Gateway G
    replied = record g {
      manager = set_doc G.documents node_id changed_doc g.manager;
      emitted = g.emitted ++ reply_to r.reply socket node_id;
    }

    abbrev passed_on : Gateway G
    passed_on = record replied {
      manager = schedule G.documents node_id changed_doc replied.manager;
      emitted = replied.emitted ++ to_others socket (yjs_room node_id) (sync node_id bytes) ∷ [];
    }

    handle_yjs_sync-replied :
        handle_yjs_sync G socket node_id bytes g
        ≡ (returned tt, pass_on G (reads_only socket node_id g) socket node_id bytes replied)
    unfolding handle_yjs_sync
    handle_yjs_sync-replied =
        rw (found, read)
          (ap (λ h. (returned tt, if_update G (eqb r.message_type 2) socket node_id bytes h))
              (send_reply-emitted r.reply socket node_id
                (on_manager G (set_doc G.documents node_id changed_doc) g))
            ∙ ap (λ (k : ℕ). (returned tt, if_update G (eqb k 2) socket node_id bytes replied))
                is_update)

    handle_yjs_sync-passed_on :
        reads_only socket node_id g ≡ false
        → handle_yjs_sync G socket node_id bytes g ≡ (returned tt, passed_on)
    unfolding schedule_save
    handle_yjs_sync-passed_on writes =
        handle_yjs_sync-replied
        ∙ ap (λ b. (returned tt, pass_on G b socket node_id bytes replied)) writes
        ∙ ap
            (λ o. (
              returned tt,
              record passed_on {
                manager = on_managed G.documents (schedule G.documents node_id) o replied.manager;
              },
            ))
            (lookup-put_same node_id changed_doc g.manager.docs)

    -- An update from a socket that does not only read the document is applied to it, its save is due, and it is sent on to the others in the document's room, behind any reply to the sender; the document keeps its clients, and if the manager was safe and the document has a client, it stays safe.
    pub handle_yjs_sync-update :
        reads_only socket node_id g ≡ false
        → ((handle_yjs_sync G socket node_id bytes g).0 ≡ returned tt)
          × IsPassedOn socket node_id bytes d r g (handle_yjs_sync G socket node_id bytes g).1
    handle_yjs_sync-update writes =
        let done = handle_yjs_sync-passed_on writes in
        (
          ap (λ o. o.0) done,
          subst (λ o. IsPassedOn socket node_id bytes d r g o.1) (sym done)
              (record {
                after = record changed_doc {
                  save_timer = some g.manager.next_handle;
                  last_activity = g.manager.now;
                };
                there = lookup-put_same node_id _ replied.manager.docs;
                changed = refl;
                same_clients = refl;
                due = record { handle = g.manager.next_handle; held = refl; set = Memᴰ.head refl };
                told = refl;
                safe = λ safe client.
                    IsSafe-schedule G.documents node_id changed_doc replied.manager
                      (IsSafeElsewhere-set_doc G.documents node_id changed_doc g.manager
                        (elsewhere G.documents node_id safe))
                      (λ alone. absurd (client alone));
              }),
        )

    -- An update from a socket that only reads the document is sent to nobody and no save of it is due, but it is applied to the document, and the next flush stores it while the stores answer.
    pub handle_yjs_sync-viewer :
        reads_only socket node_id g ≡ true
        → g.manager.stores.outages ≡ []
        → let h = (handle_yjs_sync G socket node_id bytes g).1 in
          (h.emitted ≡ g.emitted ++ reply_to r.reply socket node_id)
          × (managed G.documents h.manager node_id ≡ some (record d { doc = r.doc }))
          × (h.manager.timers ≡ g.manager.timers)
          × (stored_doc G.documents (flush_doc G.documents node_id h.manager).stores node_id
              ≡ r.doc)
    handle_yjs_sync-viewer reads answers =
        let done : handle_yjs_sync G socket node_id bytes g ≡ (returned tt, replied) =
          handle_yjs_sync-replied
          ∙ ap (λ b. (returned tt, pass_on G b socket node_id bytes replied)) reads in
        let there = lookup-put_same node_id changed_doc g.manager.docs in
        (
          ap (λ o. o.1.emitted) done,
          ap (λ o. managed G.documents o.1.manager node_id) done ∙ there,
          ap (λ o. o.1.manager.timers) done,
          ap
                (λ o.
                  stored_doc G.documents (flush_doc G.documents node_id o.1.manager).stores node_id)
                done
              ∙ flush_doc-stored G.documents node_id changed_doc replied.manager there answers,
        )
