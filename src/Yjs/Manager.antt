-- ===== src/Yjs/Manager.antt =====
-- yjs/yjs-doc-manager.ts. A load is one step: `loading` makes requests that come in between wait for the
-- same load. A timer that was set and not cleared may fire at any later step.
mod Timeouts
pub mod Timers
pub mod Safety
pub mod Steps
pub mod Loading
pub mod Leaving
pub mod Reach
pub mod Clients
pub mod Holds
pub mod Refines
pub mod Idle
pub mod Stopping
use aideep_backend.Common.{
  ℕ, suc, ◌+◌, String, Bool, true, false, not, ◌&&◌, Option, none, some, List, [], ◌∷◌, ◌++◌, ◌==◌,
  if◌then◌else◌, keep, contains, eqb,
}
use aideep_backend.Common.Assoc.{lookup, put, remove}
use aideep_backend.Yjs.Documents.{Documents}
pub use Timeouts.*
use aideep_backend.Yjs.Stores.{
  StoredNode, is_down, rest_of, Stores, load_from_redis, load_from_db, save_to_redis, save_to_db,
  delete_from_redis,
}

module _ (Y : Documents) where
  -- `ManagedDoc`; a timer is its handle
  pub record ManagedDoc : Type 0 where
    pub doc : Y.Doc
    pub clients : List String
    pub workspace_id : String
    pub save_timer : Option ℕ
    pub idle_timer : Option ℕ
    pub last_activity : ℕ

  pub record Manager : Type 0 where
    pub docs : List (String × ManagedDoc)
    pub timers : List Timer
    pub next_handle : ℕ
    pub now : ℕ
    pub stores : Stores Y

  abbrev pub managed : Manager → String → Option ManagedDoc
  managed m node_id = lookup node_id m.docs

  -- `this.docs.set`, or a change of the object that the map holds
  abbrev pub set_doc : String → ManagedDoc → Manager → Manager
  set_doc node_id d m = record m { docs = put node_id d m.docs }

  abbrev pub doc_of : Option Y.Update → Y.Doc
  doc_of none = Y.empty
  doc_of (some state) = Y.apply Y.empty state

  abbrev pub first_of : Option Y.Update → Option Y.Update → Option Y.Update
  first_of none later = later
  first_of (some state) later = some state

  -- the document that the stores hold of a node
  abbrev pub stored_doc : Stores Y → String → Y.Doc
  stored_doc s node_id = doc_of (first_of (lookup node_id s.redis) (load_from_db Y node_id s))

  abbrev pub fresh : Y.Doc → String → Manager → ManagedDoc
  fresh doc workspace_id m = record {
    doc = doc;
    clients = [];
    workspace_id = workspace_id;
    save_timer = none;
    idle_timer = none;
    last_activity = m.now;
  }

  -- one call of a store was made
  abbrev pub called : Manager → Manager
  called m = record m { stores = record m.stores { outages = rest_of Y m.stores.outages } }

  -- `if (dbResult?.state) { workspaceId = dbResult.workspaceId }`
  abbrev workspace_after : Option Y.Update → Option (StoredNode Y.Update) → String → String
  workspace_after none row workspace_id = workspace_id
  workspace_after (some _) none workspace_id = workspace_id
  workspace_after (some _) (some row) workspace_id = row.workspace_id

  -- the second source of `loadDoc`; a rejected call leaves no document behind
  abbrev pub load_second : Bool → String → String → Manager → Manager
  load_second true node_id workspace_id m = called m
  load_second false node_id workspace_id m =
      let state = load_from_db Y node_id m.stores in
      let owner = workspace_after state (lookup node_id m.stores.nodes) workspace_id in
      set_doc node_id (fresh (doc_of state) owner m) (called m)

  -- what `loadDoc` does with what Redis returned
  abbrev pub load_doc : Option Y.Update → String → String → Manager → Manager
  load_doc (some state) node_id workspace_id m =
      set_doc node_id (fresh (doc_of (some state)) workspace_id m) m
  load_doc none node_id workspace_id m =
      load_second (is_down Y m.stores.outages) node_id workspace_id m

  abbrev pub get_or_load : Option ManagedDoc → String → String → Manager → Manager
  get_or_load none node_id workspace_id m =
      load_doc (load_from_redis Y node_id m.stores) node_id workspace_id (called m)
  get_or_load (some d) node_id workspace_id m =
      record (set_doc node_id (record d { idle_timer = none }) m) {
        timers = clear d.idle_timer node_id idle m.timers;
      }

  unfoldable pub get_or_create_doc : String → String → Manager → Manager
  get_or_create_doc node_id workspace_id m = get_or_load (managed m node_id) node_id workspace_id m

  abbrev pub add : String → List String → List String
  add socket clients = if contains clients socket then clients else clients ++ socket ∷ []

  -- `if (!managed) return`
  abbrev pub on_managed : (ManagedDoc → Manager → Manager) → Option ManagedDoc → Manager → Manager
  on_managed f none m = m
  on_managed f (some d) m = f d m

  unfoldable pub add_client : String → String → Manager → Manager
  add_client node_id socket m =
      on_managed
        (λ d. set_doc node_id (record d { clients = add socket d.clients; last_activity = m.now }))
        (managed m node_id) m

  -- what `flushDoc` does with the document that it found
  abbrev pub flush : String → ManagedDoc → Manager → Manager
  flush node_id d m = record (set_doc node_id (record d { save_timer = none }) m) {
    timers = clear d.save_timer node_id save m.timers;
    stores =
        save_to_db Y node_id (Y.encode d.doc) (Y.to_text d.doc) d.workspace_id
          (save_to_redis Y node_id (Y.encode d.doc) m.stores);
  }

  unfoldable pub flush_doc : String → Manager → Manager
  flush_doc node_id m = on_managed (flush node_id) (managed m node_id) m

  -- `managed.idleTimer = setTimeout(() => this.evictDoc(nodeId), …)`
  abbrev pub set_idle : String → ManagedDoc → Manager → Manager
  set_idle node_id d m = record (set_doc node_id (record d { idle_timer = some m.next_handle }) m) {
    timers = timer m.next_handle node_id idle ∷ m.timers;
    next_handle = suc m.next_handle;
  }

  abbrev pub without : String → List String → List String
  without socket clients = keep (λ c. not (c == socket)) clients

  -- `if (managed.clients.size === 0)`
  abbrev pub left : List String → String → ManagedDoc → Manager → Manager
  left (c ∷ clients) node_id d m = set_doc node_id d m
  left [] node_id d m = set_idle node_id (record d { save_timer = none }) (flush node_id d m)

  unfoldable pub remove_client : String → String → Manager → Manager
  remove_client node_id socket m =
      on_managed
        (λ d.
          left (without socket d.clients) node_id (record d { clients = without socket d.clients }))
        (managed m node_id) m

  abbrev pub schedule : String → ManagedDoc → Manager → Manager
  schedule node_id d m =
      record (set_doc node_id (record d { save_timer = some m.next_handle; last_activity = m.now })
        m) {
          timers = timer m.next_handle node_id save ∷ clear d.save_timer node_id save m.timers;
          next_handle = suc m.next_handle;
        }

  unfoldable pub schedule_save : String → Manager → Manager
  schedule_save node_id m = on_managed (schedule node_id) (managed m node_id) m

  unfoldable pub apply_update : String → Y.Update → Manager → Manager
  apply_update node_id update m =
      on_managed (λ d. schedule node_id (record d { doc = Y.apply d.doc update }))
        (managed m node_id) m

  abbrev clear_both : String → ManagedDoc → List Timer → List Timer
  clear_both node_id d timers =
      clear d.idle_timer node_id idle (clear d.save_timer node_id save timers)

  abbrev pub drop : String → ManagedDoc → Manager → Manager
  drop node_id d m = record m {
    docs = remove node_id m.docs;
    timers = clear_both node_id d m.timers;
  }

  -- `if (managed.clients.size > 0) return`
  abbrev pub evict : List String → String → ManagedDoc → Manager → Manager
  evict (c ∷ clients) node_id d m = m
  evict [] node_id d m = drop node_id d m

  unfoldable pub evict_doc : String → Manager → Manager
  evict_doc node_id m = on_managed (λ d. evict d.clients node_id d) (managed m node_id) m

  unfoldable pub flush_all : List (String × ManagedDoc) → Manager → Manager
  flush_all [] m = m
  flush_all ((node_id, _) ∷ entries) m = flush_all entries (flush_doc node_id m)

  unfoldable pub cleanup_node : String → Manager → Manager
  cleanup_node node_id m =
      let emptied = on_managed (drop node_id) (managed m node_id) m in
      record emptied { stores = delete_from_redis Y node_id emptied.stores }

  -- a timer fires: it is no longer set, and its callback runs
  unfoldable pub fire : Timer → Manager → Manager
  fire t m =
      let rest = record m { timers = keep (λ s. not (same_timer s t)) m.timers } in
      elim t.kind [ save ↦ flush_doc t.node_id rest | idle ↦ evict_doc t.node_id rest ]
