-- ===== src/Yjs/Manager/Safety.antt =====
-- What yjs/yjs-doc-manager.ts is to keep of its documents: one that nobody has open is as it is stored.
use aideep_backend.Common.{
  ℕ, String, ◌≡◌, inl, inr, refl, sym, ap, subst, ◌∙◌, false, none, some, List, [], Memᴰ, ◌==◌,
  eq-cases,
}
use aideep_backend.Common.Assoc.{lookup, put, lookup-put_same, lookup-put_other}
use aideep_backend.Yjs.Documents.{Documents}
use aideep_backend.Yjs.Manager.{
  Manager, ManagedDoc, Timer, timer, save, managed, stored_doc, flush, set_doc, doc_of, first_of,
}
use aideep_backend.Yjs.Stores.Saved.{
  saved-outages, saved-redis_here, saved-redis_elsewhere, saved-nodes_elsewhere,
}
use aideep_backend.Yjs.Stores.{stored_state, Stores, load_from_db}

module _ (Y : Documents) where
  -- the timer that the document holds is set
  pub record IsDue (node_id : String) (d : ManagedDoc Y) (timers : List Timer) : Type 0 where
    pub handle : ℕ
    pub held : d.save_timer ≡ some handle
    pub set : Memᴰ (timer handle node_id save) timers

  -- without clients a document is as it is stored
  pub record IsKept (m : Manager Y) (node_id : String) (d : ManagedDoc Y) : Type 0 where
    pub stored_alone : d.clients ≡ [] → d.doc ≡ stored_doc Y m.stores node_id

  pub record IsSafe (m : Manager Y) : Type 0 where
    pub answers : m.stores.outages ≡ []
    pub kept :
        (node_id : String) (d : ManagedDoc Y) → managed Y m node_id ≡ some d → IsKept m node_id d

  -- safe, but for one node
  pub record IsSafeElsewhere (node_id : String) (m : Manager Y) : Type 0 where
    pub answers : m.stores.outages ≡ []
    pub kept :
        (other : String) (d : ManagedDoc Y)
        → (node_id == other) ≡ false
        → managed Y m other ≡ some d
        → IsKept m other d

  pub elsewhere : {m : Manager Y} (node_id : String) → IsSafe m → IsSafeElsewhere node_id m
  elsewhere node_id safe = record {
    answers = safe.answers;
    kept = λ other d differ e. safe.kept other d e;
  }

  -- Two states agree on the other nodes: their documents, and what is stored.
  pub record SameElsewhere (node_id : String) (m n : Manager Y) : Type 0 where
    pub docs : (other : String) → (node_id == other) ≡ false → managed Y n other ≡ managed Y m other
    pub stored :
        (other : String)
        → (node_id == other) ≡ false
        → stored_doc Y n.stores other ≡ stored_doc Y m.stores other

  pub stored_doc-cong :
      (s t : Stores Y) (other : String)
      → lookup other t.redis ≡ lookup other s.redis
      → lookup other t.nodes ≡ lookup other s.nodes
      → stored_doc Y t other ≡ stored_doc Y s other
  stored_doc-cong s t other e f =
      ap (λ r. doc_of Y (first_of Y r (stored_state Y (lookup other t.nodes)))) e
      ∙ ap (λ n. doc_of Y (first_of Y (lookup other s.redis) (stored_state Y n))) f

  -- a step at one node keeps the manager safe if that node's document is kept
  IsSafe-at :
      {node_id : String} {m n : Manager Y}
      → IsSafeElsewhere node_id m
      → SameElsewhere node_id m n
      → n.stores.outages ≡ []
      → ((d : ManagedDoc Y) → managed Y n node_id ≡ some d → IsKept n node_id d)
      → IsSafe n
  IsSafe-at {node_id} {m} {n} safe same answers here = record {
    answers = answers;
    kept = λ other d e. elim (eq-cases node_id other) [
      | inl (_, same_id) ↦
          subst (λ x. IsKept n x d) same_id
            (here d (subst (λ x. managed Y n x ≡ some d) (sym same_id) e))
      | inr (differ, _) ↦
          let old = safe.kept other d differ (sym (same.docs other differ) ∙ e) in
          record { stored_alone = λ alone. old.stored_alone alone ∙ sym (same.stored other differ) }
    ];
  }

  pub flush-stored :
      (node_id : String) (d : ManagedDoc Y) (m : Manager Y)
      → m.stores.outages ≡ []
      → stored_doc Y (flush Y node_id d m).stores node_id ≡ d.doc
  flush-stored node_id d m answers =
      ap (λ r. doc_of Y (first_of Y r (load_from_db Y node_id (flush Y node_id d m).stores)))
        (saved-redis_here Y node_id (Y.encode d.doc) _ _ m.stores answers)
      ∙ Y.apply_encode d.doc

  module _ (node_id : String) (d : ManagedDoc Y) (m : Manager Y)
      (safe : IsSafeElsewhere node_id m) where
    flush-SameElsewhere : SameElsewhere node_id m (flush Y node_id d m)
    flush-SameElsewhere = record {
      docs = λ other differ. lookup-put_other node_id other _ m.docs differ;
      stored = λ other differ.
          stored_doc-cong m.stores (flush Y node_id d m).stores other
            (saved-redis_elsewhere Y node_id _ _ _ m.stores safe.answers other differ)
            (saved-nodes_elsewhere Y node_id _ _ _ m.stores safe.answers other differ);
    }

    flush-answers : (flush Y node_id d m).stores.outages ≡ []
    flush-answers = saved-outages Y node_id _ _ _ m.stores safe.answers

    -- a flush makes any document of the node safe: it is then as it is stored
    pub IsSafe-flush : IsSafe (flush Y node_id d m)
    IsSafe-flush = IsSafe-at safe flush-SameElsewhere flush-answers (λ e h.
        let same : record d { save_timer = none } ≡ e =
          cc (lookup-put_same node_id (record d { save_timer = none }) m.docs, h) in
        subst (IsKept (flush Y node_id d m) node_id) same
          (record { stored_alone = λ _. sym (flush-stored node_id d m safe.answers) }))

  -- a new entry for a node, and other timers; the stores stay as they are
  module _ (node_id : String) (d : ManagedDoc Y) (timers : List Timer) (next : ℕ) (m : Manager Y)
      (safe : IsSafeElsewhere node_id m) where
    abbrev pub changed : Manager Y
    changed = record m { docs = put node_id d m.docs; timers = timers; next_handle = next }

    pub IsSafe-changed : IsKept changed node_id d → IsSafe changed
    IsSafe-changed here =
        IsSafe-at safe
          (record {
            docs = λ other differ. lookup-put_other node_id other d m.docs differ;
            stored = λ other differ. refl;
          })
          safe.answers
          (λ e h. subst (IsKept changed node_id) (cc (lookup-put_same node_id d m.docs, h)) here)

  -- any change of the one node's entry
  pub IsSafeElsewhere-set_doc :
      (node_id : String) (d : ManagedDoc Y) (m : Manager Y)
      → IsSafeElsewhere node_id m
      → IsSafeElsewhere node_id (set_doc Y node_id d m)
  IsSafeElsewhere-set_doc node_id d m safe = record {
    answers = safe.answers;
    kept = λ other e differ found.
        let old =
          safe.kept other e differ (sym (lookup-put_other node_id other d m.docs differ) ∙ found) in
        record { stored_alone = old.stored_alone };
  }

  -- a node's entry is gone; the stores may change at the node
  pub IsSafe-gone :
      (node_id : String) (m n : Manager Y)
      → IsSafeElsewhere node_id m
      → SameElsewhere node_id m n
      → n.stores.outages ≡ []
      → managed Y n node_id ≡ none
      → IsSafe n
  IsSafe-gone node_id m n safe same answers gone =
      IsSafe-at safe same answers (λ d e. absurd (cc (gone, e)))
