-- ===== src/Yjs/Manager/Clients.antt =====
-- Which documents yjs/yjs-doc-manager.ts holds, and for which sockets: what every operation does to that.
use aideep_backend.Common.{
  String, ◌≡◌, refl, sym, ap, ◌∙◌, Option, none, some, List, [], ◌∷◌, ◌==◌, arith, if◌then◌else◌,
  Option-cases, inl, inr, eq-cases,
}
use mathlib.Core.Path.{fun_ext}
use aideep_backend.Common.Assoc.{lookup-put, lookup-remove}
use aideep_backend.Yjs.Documents.{Documents}
use aideep_backend.Yjs.Manager.{
  Manager, ManagedDoc, managed, set_doc, add, without, drop, left, flush, add_client, remove_client,
  apply_update, schedule_save, flush_doc, flush_all, evict_doc, cleanup_node, evict,
}

module _ (Y : Documents) where
  abbrev pub clients_of : Option (ManagedDoc Y) → Option (List String)
  clients_of none = none
  clients_of (some d) = some d.clients

  -- each node's open document, as the list of its clients
  abbrev pub view : Manager Y → String → Option (List String)
  view m node_id = clients_of (managed Y m node_id)

  -- a function, changed at one node
  abbrev pub update :
      (String → Option (List String))
      → String
      → Option (List String)
      → String
      → Option (List String)
  update f node_id v other = if node_id == other then v else f other

  pub view-set_doc :
      (node_id : String) (d : ManagedDoc Y) (m : Manager Y)
      → view (set_doc Y node_id d m) ≡ update (view m) node_id (some d.clients)
  view-set_doc node_id d m = fun_ext λ other. ground (arith, lookup-put node_id other d m.docs)

  pub view-drop :
      (node_id : String) (d : ManagedDoc Y) (m : Manager Y)
      → view (drop Y node_id d m) ≡ update (view m) node_id none
  view-drop node_id d m = fun_ext λ other. ground (arith, lookup-remove node_id other m.docs)

  -- an entry that is written again
  pub view_again :
      (node_id : String) (v : Option (List String)) (m : Manager Y)
      → view m node_id ≡ v
      → update (view m) node_id v ≡ view m
  view_again node_id v m e = fun_ext λ other. ground (arith, eq-cases node_id other)

  -- a change of the clients of an open document
  abbrev pub on_open : (List String → List String) → Option (List String) → Option (List String)
  on_open f none = none
  on_open f (some clients) = some (f clients)

  -- the document without clients is closed
  abbrev pub closed : Option (List String) → Option (List String)
  closed none = none
  closed (some []) = none
  closed (some (c ∷ clients)) = some (c ∷ clients)

  -- a document that was not open is opened without clients
  abbrev pub opened : Option (List String) → Option (List String)
  opened none = some []
  opened (some clients) = some clients

  pub view-add_client :
      (node_id socket : String) (m : Manager Y)
      → view (add_client Y node_id socket m)
        ≡ update (view m) node_id (on_open (add Y socket) (view m node_id))
  unfolding add_client
  view-add_client node_id socket m = elim (Option-cases (managed Y m node_id)) [
    | inl missing ↦ rw missing (sym (view_again node_id none m (ap clients_of missing)))
    | inr (d, e) ↦ rw e (view-set_doc node_id _ m)
  ]

  view-flush :
      (node_id : String) (d : ManagedDoc Y) (m : Manager Y)
      → view (flush Y node_id d m) ≡ update (view m) node_id (some d.clients)
  view-flush node_id d m =
      fun_ext
        λ other. ground (arith, lookup-put node_id other (record d { save_timer = none }) m.docs)

  view-left :
      (clients : List String) (node_id : String) (d : ManagedDoc Y) (m : Manager Y)
      → view (left Y clients node_id d m) ≡ update (view m) node_id (some d.clients)
  view-left (c ∷ clients) node_id d m = view-set_doc node_id d m
  view-left [] node_id d m = fun_ext λ other. ground (
    arith,
    lookup-put node_id other (record d { save_timer = none; idle_timer = some m.next_handle })
        (flush Y node_id d m).docs,
    lookup-put node_id other (record d { save_timer = none }) m.docs,
  )

  pub view-remove_client :
      (node_id socket : String) (m : Manager Y)
      → view (remove_client Y node_id socket m)
        ≡ update (view m) node_id (on_open (without Y socket) (view m node_id))
  unfolding remove_client
  view-remove_client node_id socket m = elim (Option-cases (managed Y m node_id)) [
    | inl missing ↦ rw missing (sym (view_again node_id none m (ap clients_of missing)))
    | inr (d, e) ↦ rw e (view-left _ node_id _ m)
  ]

  -- an entry with the same clients is written
  pub view_same :
      (node_id : String) (d e : ManagedDoc Y) (m : Manager Y)
      → managed Y m node_id ≡ some d
      → e.clients ≡ d.clients
      → view (set_doc Y node_id e m) ≡ view m
  view_same node_id d e m found same =
      view-set_doc node_id e m ∙ view_again node_id (some e.clients) m (cc (found, same))

  pub view-schedule_save :
      (node_id : String) (m : Manager Y) → view (schedule_save Y node_id m) ≡ view m
  unfolding schedule_save
  view-schedule_save node_id m = elim (Option-cases (managed Y m node_id)) [
    | inl missing ↦ rw missing refl
    | inr (d, e) ↦ rw e (view_same node_id d _ m e refl)
  ]

  pub view-apply_update :
      (node_id : String) (change : Y.Update) (m : Manager Y)
      → view (apply_update Y node_id change m) ≡ view m
  unfolding apply_update
  view-apply_update node_id change m = elim (Option-cases (managed Y m node_id)) [
    | inl missing ↦ rw missing refl
    | inr (d, e) ↦ rw e (view_same node_id d _ m e refl)
  ]

  pub view-flush_doc : (node_id : String) (m : Manager Y) → view (flush_doc Y node_id m) ≡ view m
  unfolding flush_doc
  view-flush_doc node_id m = elim (Option-cases (managed Y m node_id)) [
    | inl missing ↦ rw missing refl
    | inr (d, e) ↦ rw e (view_same node_id d _ m e refl)
  ]

  pub view-flush_all :
      (entries : List (String × ManagedDoc Y)) (m : Manager Y)
      → view (flush_all Y entries m) ≡ view m
  unfolding flush_all
  view-flush_all [] m = refl
  view-flush_all ((node_id, d) ∷ entries) m = view-flush_all entries _ ∙ view-flush_doc node_id m

  view-evict :
      (clients : List String) (node_id : String) (d : ManagedDoc Y) (m : Manager Y)
      → view m node_id ≡ some clients
      → view (evict Y clients node_id d m) ≡ update (view m) node_id (closed (some clients))
  view-evict [] node_id d m e = view-drop node_id d m
  view-evict (c ∷ clients) node_id d m e = sym (view_again node_id (some (c ∷ clients)) m e)

  pub view-evict_doc :
      (node_id : String) (m : Manager Y)
      → view (evict_doc Y node_id m) ≡ update (view m) node_id (closed (view m node_id))
  unfolding evict_doc
  view-evict_doc node_id m = elim (Option-cases (managed Y m node_id)) [
    | inl missing ↦ rw missing (sym (view_again node_id none m (ap clients_of missing)))
    | inr (d, e) ↦ rw e (view-evict d.clients node_id d m (ap clients_of e))
  ]

  pub view-cleanup_node :
      (node_id : String) (m : Manager Y)
      → view (cleanup_node Y node_id m) ≡ update (view m) node_id none
  unfolding cleanup_node
  view-cleanup_node node_id m = elim (Option-cases (managed Y m node_id)) [
    | inl missing ↦ rw missing (sym (view_again node_id none m (ap clients_of missing)))
    | inr (d, e) ↦ rw e (view-drop node_id d m)
  ]
