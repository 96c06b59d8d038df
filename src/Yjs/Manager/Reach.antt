-- ===== src/Yjs/Manager/Reach.antt =====
-- Any sequence of the operations and timers of yjs/yjs-doc-manager.ts.
use aideep_backend.Common.{
  ℕ, String, ◌≡◌, ◌≢◌, sym, ap, subst, ◌∙◌, Option, none, some, [], Memᴰ, false,
}
use aideep_backend.Common.Assoc.{lookup, lookup-put_same, lookup-remove_same}
use aideep_backend.Yjs.Documents.{Documents}
use aideep_backend.Yjs.Manager.{
  Manager, ManagedDoc, TimerKind, timer, managed, stored_doc, set_doc, drop, load_doc, load_second,
  called, doc_of, first_of, get_or_create_doc, add_client, remove_client, apply_update,
  schedule_save, flush_all, evict_doc, cleanup_node, fire,
}
use aideep_backend.Yjs.Manager.Leaving.{
  IsSafe-remove_client, IsSafe-cleanup_node, IsSafe-fire, IsSafe-drop,
}
use aideep_backend.Yjs.Manager.Loading.{
  IsSafe-get_or_create_doc, IsSafe-called, load_from_redis-answers,
}
use aideep_backend.Yjs.Manager.Safety.{IsSafe}
use aideep_backend.Yjs.Manager.Steps.{
  HasClient, IsSafe-add_client, IsSafe-schedule_save, IsSafe-apply_update, IsSafe-set_doc,
  IsSafe-flush_all,
}
use aideep_backend.Yjs.Stores.{is_down, load_from_db}

module _ (Y : Documents) where
  -- One operation, a timer that is set and fires, or a message from which `readSyncMessage` of the gateway
  -- changes a document in place, which sets no timer. A change comes while the document has a client.
  pub data Step (m : Manager Y) : Manager Y → Type 0 where
    opens : (node_id workspace_id : String) → Step m (get_or_create_doc Y node_id workspace_id m)
    joins : (node_id socket : String) → Step m (add_client Y node_id socket m)
    leaves : (node_id socket : String) → Step m (remove_client Y node_id socket m)
    changes :
        (node_id : String) (update : Y.Update)
        → HasClient Y m node_id
        → Step m (apply_update Y node_id update m)
    reads :
        (node_id : String) (d : ManagedDoc Y) (doc : Y.Doc)
        → managed Y m node_id ≡ some d
        → d.clients ≢ []
        → Step m (set_doc Y node_id (record d { doc = doc }) m)
    schedules : (node_id : String) → Step m (schedule_save Y node_id m)
    flushes : Step m (flush_all Y m.docs m)
    fires :
        (handle : ℕ) (node_id : String) (k : TimerKind)
        → Memᴰ (timer handle node_id k) m.timers
        → Step m (fire Y (timer handle node_id k) m)
    cleans : (node_id : String) → Step m (cleanup_node Y node_id m)

  pub data Reach (m : Manager Y) : Manager Y → Type 0 where
    stay : Reach m m
    next : {n o : Manager Y} → Reach m n → Step n o → Reach m o

  Step-IsSafe : {m n : Manager Y} → IsSafe Y m → Step m n → IsSafe Y n
  Step-IsSafe {m} safe (opens node_id workspace_id) =
      IsSafe-get_or_create_doc Y node_id workspace_id m safe
  Step-IsSafe {m} safe (joins node_id socket) = IsSafe-add_client Y node_id socket m safe
  Step-IsSafe {m} safe (leaves node_id socket) = IsSafe-remove_client Y node_id socket m safe
  Step-IsSafe {m} safe (changes node_id update joined) =
      IsSafe-apply_update Y node_id update m joined safe
  Step-IsSafe {m} safe (reads node_id d doc found joined) =
      IsSafe-set_doc Y node_id d doc m joined safe
  Step-IsSafe {m} safe (schedules node_id) = IsSafe-schedule_save Y node_id m safe
  Step-IsSafe {m} safe flushes = IsSafe-flush_all Y m.docs m safe
  Step-IsSafe {m} safe (fires handle node_id k set) = IsSafe-fire Y handle node_id k m safe
  Step-IsSafe {m} safe (cleans node_id) = IsSafe-cleanup_node Y node_id m safe

  -- From a state where the stores answer and every document without clients is as it is stored, every sequence of operations and timers, and of messages from editors or viewers that change a document with a client in any way, with or without a timer for its save, leads to such a state again.
  pub Reach-IsSafe : {m n : Manager Y} → IsSafe Y m → Reach m n → IsSafe Y n
  Reach-IsSafe safe stay = safe
  Reach-IsSafe safe (next r s) = Step-IsSafe (Reach-IsSafe safe r) s

  -- the document behind a load is the stored one
  abbrev pub Loaded : Y.Doc → String → Manager Y → Type 0
  Loaded doc node_id m = (d : ManagedDoc Y) × (managed Y m node_id ≡ some d) × (d.doc ≡ doc)

  load_second-Loaded :
      (node_id workspace_id : String) (m : Manager Y)
      → lookup node_id m.stores.redis ≡ none
      → Loaded (stored_doc Y m.stores node_id) node_id (load_second Y false node_id workspace_id m)
  load_second-Loaded node_id workspace_id m missing = (
    _,
    lookup-put_same node_id _ m.docs,
    ap (λ r. doc_of Y (first_of Y r (load_from_db Y node_id m.stores))) (sym missing),
  )

  load_doc-Loaded :
      (r : Option Y.Update) (node_id workspace_id : String) (m : Manager Y)
      → lookup node_id m.stores.redis ≡ r
      → m.stores.outages ≡ []
      → Loaded (stored_doc Y m.stores node_id) node_id (load_doc Y r node_id workspace_id m)
  load_doc-Loaded (some state) node_id workspace_id m e answers = (
    _,
    lookup-put_same node_id _ m.docs,
    ap (λ r. doc_of Y (first_of Y r (load_from_db Y node_id m.stores))) (sym e),
  )
  load_doc-Loaded none node_id workspace_id m e answers =
      subst
        (λ o.
          Loaded (stored_doc Y m.stores node_id) node_id
            (load_second Y (is_down Y o) node_id workspace_id m))
        (sym answers) (load_second-Loaded node_id workspace_id m e)

  pub get_or_create_doc-Loaded :
      (node_id workspace_id : String) (m : Manager Y)
      → managed Y m node_id ≡ none
      → IsSafe Y m
      → Loaded (stored_doc Y m.stores node_id) node_id (get_or_create_doc Y node_id workspace_id m)
  unfolding get_or_create_doc
  get_or_create_doc-Loaded node_id workspace_id m missing safe = rw missing (
      load_doc-Loaded _ node_id workspace_id (called Y m)
        (sym (load_from_redis-answers Y node_id m.stores safe.answers))
        (IsSafe-called Y m safe).answers)

  -- While the stores answer and documents without clients are as they are stored (`IsSafe`), a document without clients that is evicted from memory is the same document again when it is next opened.
  pub evict_doc-roundtrip :
      (node_id workspace_id : String) (d : ManagedDoc Y) (m : Manager Y)
      → IsSafe Y m
      → managed Y m node_id ≡ some d
      → d.clients ≡ []
      → (managed Y (evict_doc Y node_id m) node_id ≡ none)
        × ((e : ManagedDoc Y) × (managed Y
                (get_or_create_doc Y node_id workspace_id (evict_doc Y node_id m))
                node_id
              ≡ some e)
            × (e.doc ≡ d.doc))
  unfolding evict_doc
  evict_doc-roundtrip node_id workspace_id d m safe found alone =
      let gone = lookup-remove_same node_id m.docs in
      let (e, there, same) =
        get_or_create_doc-Loaded node_id workspace_id (drop Y node_id d m) gone
          (IsSafe-drop Y node_id d m safe) in
      rw (found, alone)
        (gone, (e, there, same ∙ sym ((safe.kept node_id d found).stored_alone alone)))
