-- ===== src/Ws/Gateway/Late.antt =====
-- The rest of `handleYjsJoin` of ws/ws.gateway.ts for a socket that disconnected while it waited.
use aideep_backend.Common.{
  String, ◌≡◌, refl, sym, ap, ◌∙◌, Bool, true, none, some, ◌∷◌, [], eq_refl, is_some, arith, List,
  Option, contains,
}
use aideep_backend.Common.Assoc.{lookup}
use aideep_backend.Ws.Gateway.Editing.{enter}
use aideep_backend.Ws.Gateway.State.{Gateway}
use aideep_backend.Ws.Sockets.{Ports}
use aideep_backend.Yjs.Documents.{Documents}
use aideep_backend.Yjs.Manager.{Manager, ManagedDoc, managed, evict, evict_doc, on_managed}
use aideep_backend.Yjs.Manager.Clients.{view, clients_of}
use aideep_backend.Yjs.Manager.Holds.{holds, has_client, holds-add_client}

module _ (Y : Documents) where
  -- a document with a client is not evicted
  evict-held :
      (clients : List String) (node_id socket : String) (d : ManagedDoc Y) (m : Manager Y)
      → contains clients socket ≡ true
      → evict Y clients node_id d m ≡ m
  evict-held [] node_id socket d m held = cc held
  evict-held (c ∷ clients) node_id socket d m held = refl

  pub evict_doc-held :
      (node_id socket : String) (m : Manager Y)
      → holds Y m node_id socket ≡ true
      → evict_doc Y node_id m ≡ m
  unfolding evict_doc
  evict_doc-held node_id socket m held = at (managed Y m node_id) refl
    where
      at :
          (o : Option (ManagedDoc Y))
          → managed Y m node_id ≡ o
          → on_managed Y (λ d. evict Y d.clients node_id d) o m ≡ m
      at none e = refl
      at (some d) e =
          evict-held d.clients node_id socket d m
            (ap (λ o. has_client (clients_of Y o) socket) (sym e) ∙ held)

module _ (G : Ports) where
  -- If a socket that is no longer connected gets behind the load of an open document, it becomes a client of that document all the same, although it will not disconnect again, and the document is not evicted any more when its idle timer fires.
  pub enter-late :
      (socket node_id : String) (read_only : Bool) (doc : G.documents.Doc) (g : Gateway G)
      → lookup socket g.sockets ≡ none
      → is_some (view G.documents g.manager node_id) ≡ true
      → let h = enter G socket node_id read_only doc g in
        (lookup socket h.sockets ≡ none)
        × (holds G.documents h.manager node_id socket ≡ true)
        × (evict_doc G.documents node_id h.manager ≡ h.manager)
  unfolding enter
  enter-late socket node_id read_only doc g gone is_open =
      let held : holds G.documents (enter G socket node_id read_only doc g).manager node_id socket
          ≡ true =
        ground (
          arith,
          is_open,
          holds-add_client G.documents node_id node_id socket socket g.manager,
          eq_refl node_id,
          eq_refl socket,
        ) in
      (rw gone gone, held, evict_doc-held G.documents node_id socket _ held)
