-- ===== src/Yjs/Manager/Idle.antt =====
-- A document of yjs/yjs-doc-manager.ts that its last client left is stored, and dropped when idle.
use aideep_backend.Common.{ℕ, String, ◌≡◌, refl, ◌∙◌, none, some, [], Memᴰ}
use aideep_backend.Common.Assoc.{lookup-put_same, lookup-remove_same}
use aideep_backend.Yjs.Documents.{Documents}
use aideep_backend.Yjs.Manager.{
  Manager, ManagedDoc, timer, idle, managed, without, stored_doc, flush, remove_client, evict_doc,
  fire,
}
use aideep_backend.Yjs.Manager.Safety.{flush-stored}

module _ (Y : Documents) where
  -- the document's idle timer is set, and the document is dropped when it fires
  pub record WillClose (node_id : String) (m : Manager Y) : Type 0 where
    pub handle : ℕ
    pub held : (d : ManagedDoc Y) → managed Y m node_id ≡ some d → d.idle_timer ≡ some handle
    pub set : Memᴰ (timer handle node_id idle) m.timers
    pub closes : managed Y (fire Y (timer handle node_id idle) m) node_id ≡ none
    -- and it closes as well if other timers fired and other nodes changed before
    pub closes_later :
        (n : Manager Y)
        → managed Y n node_id ≡ managed Y m node_id
        → managed Y (fire Y (timer handle node_id idle) n) node_id ≡ none

  evict_doc-alone :
      (node_id : String) (d : ManagedDoc Y) (m : Manager Y)
      → managed Y m node_id ≡ some d
      → d.clients ≡ []
      → managed Y (evict_doc Y node_id m) node_id ≡ none
  unfolding evict_doc
  evict_doc-alone node_id d m found alone = rw (found, alone) (lookup-remove_same node_id m.docs)

  -- When the last client of a document leaves while the stores answer, the document is stored and its idle timer is set; when that fires and no client has come, the document is dropped from memory, whatever happened to other nodes in between.
  pub remove_client-WillClose :
      (node_id socket : String) (d : ManagedDoc Y) (m : Manager Y)
      → managed Y m node_id ≡ some d
      → without Y socket d.clients ≡ []
      → m.stores.outages ≡ []
      → WillClose node_id (remove_client Y node_id socket m)
        × (stored_doc Y (remove_client Y node_id socket m).stores node_id ≡ d.doc)
  unfolding remove_client fire
  remove_client-WillClose node_id socket d m found last answers =
      let bare : ManagedDoc Y = record d {
        clients = [];
        save_timer = none;
        idle_timer = some m.next_handle;
      } in
      rw (found, last)
        (
          record {
            handle = m.next_handle;
            held = λ e there. cc (
              there,
              lookup-put_same node_id bare (flush Y node_id (record d { clients = [] }) m).docs,
            );
            set = Memᴰ.head refl;
            closes = evict_doc-alone node_id bare _ (lookup-put_same node_id bare _) refl;
            closes_later = λ n same.
                evict_doc-alone node_id bare _ (same ∙ lookup-put_same node_id bare _) refl;
          },
          flush-stored Y node_id (record d { clients = [] }) m answers,
        )
