-- ===== src/Yjs/Manager/Steps.antt =====
-- The steps of yjs/yjs-doc-manager.ts, in any order, and what holds behind each of them.
use aideep_backend.Common.{String, ◌≡◌, ◌≢◌, inl, inr, some, List, [], ◌∷◌, arith, Option-cases}
use aideep_backend.Yjs.Documents.{Documents}
use aideep_backend.Yjs.Manager.{
  Manager, ManagedDoc, managed, stored_doc, set_doc, add, schedule, add_client, apply_update,
  schedule_save, flush_doc, flush_all,
}
use aideep_backend.Yjs.Manager.Safety.{
  IsSafe, IsSafeElsewhere, elsewhere, IsSafe-changed, IsSafe-flush, flush-stored,
}

module _ (Y : Documents) where
  -- `IsSafe` of a step that starts with `if (!managed) return`
  pub IsSafe-add_client :
      (node_id socket : String) (m : Manager Y)
      → IsSafe Y m
      → IsSafe Y (add_client Y node_id socket m)
  unfolding add_client
  IsSafe-add_client node_id socket m safe = elim (Option-cases (managed Y m node_id)) [
    | inl missing ↦ rw missing safe
    | inr (d, e) ↦ rw e (
        IsSafe-changed Y node_id _ m.timers m.next_handle m (elsewhere Y node_id safe)
          (record { stored_alone = λ alone. absurd (add-nonempty socket d.clients alone) }))
  ]
    where
      add-nonempty : (socket : String) (clients : List String) → ¬ (add Y socket clients ≡ [])
      add-nonempty socket [] e = cc
      add-nonempty socket (c ∷ clients) e = ground arith

  -- a save that is due from now on
  pub IsSafe-schedule :
      (node_id : String) (d : ManagedDoc Y) (m : Manager Y)
      → IsSafeElsewhere Y node_id m
      → (d.clients ≡ [] → d.doc ≡ stored_doc Y m.stores node_id)
      → IsSafe Y (schedule Y node_id d m)
  IsSafe-schedule node_id d m safe alone =
      IsSafe-changed Y node_id _ _ _ m safe (record { stored_alone = alone })

  pub IsSafe-schedule_save :
      (node_id : String) (m : Manager Y) → IsSafe Y m → IsSafe Y (schedule_save Y node_id m)
  unfolding schedule_save
  IsSafe-schedule_save node_id m safe = elim (Option-cases (managed Y m node_id)) [
    | inl missing ↦ rw missing safe
    | inr (d, e) ↦ rw e (
        IsSafe-schedule node_id d m (elsewhere Y node_id safe) (safe.kept node_id d e).stored_alone)
  ]

  -- the node's document has a client
  abbrev pub HasClient : Manager Y → String → Type 0
  HasClient m node_id = (d : ManagedDoc Y) → managed Y m node_id ≡ some d → d.clients ≢ []

  -- what `readSyncMessage` does to a document that has a client, with no timer
  pub IsSafe-set_doc :
      (node_id : String) (d : ManagedDoc Y) (doc : Y.Doc) (m : Manager Y)
      → d.clients ≢ []
      → IsSafe Y m
      → IsSafe Y (set_doc Y node_id (record d { doc = doc }) m)
  IsSafe-set_doc node_id d doc m joined safe =
      IsSafe-changed Y node_id _ m.timers m.next_handle m (elsewhere Y node_id safe)
        (record { stored_alone = λ alone. absurd (joined alone) })

  pub IsSafe-apply_update :
      (node_id : String) (update : Y.Update) (m : Manager Y)
      → HasClient m node_id
      → IsSafe Y m
      → IsSafe Y (apply_update Y node_id update m)
  unfolding apply_update
  IsSafe-apply_update node_id update m joined safe = elim (Option-cases (managed Y m node_id)) [
    | inl missing ↦ rw missing safe
    | inr (d, e) ↦ rw e (
        IsSafe-schedule node_id (record d { doc = Y.apply d.doc update }) m
          (elsewhere Y node_id safe) (λ alone. absurd (joined d e alone)))
  ]

  pub IsSafe-flush_doc :
      (node_id : String) (m : Manager Y) → IsSafe Y m → IsSafe Y (flush_doc Y node_id m)
  unfolding flush_doc
  IsSafe-flush_doc node_id m safe = elim (Option-cases (managed Y m node_id)) [
    | inl missing ↦ rw missing safe
    | inr (d, e) ↦ rw e (IsSafe-flush Y node_id d m (elsewhere Y node_id safe))
  ]

  pub IsSafe-flush_all :
      (entries : List (String × ManagedDoc Y)) (m : Manager Y)
      → IsSafe Y m
      → IsSafe Y (flush_all Y entries m)
  unfolding flush_all
  IsSafe-flush_all [] m safe = safe
  IsSafe-flush_all ((node_id, d) ∷ entries) m safe =
      IsSafe-flush_all entries _ (IsSafe-flush_doc node_id m safe)

  -- a flush that the stores answer stores the document, whatever the manager holds otherwise
  pub flush_doc-stored :
      (node_id : String) (d : ManagedDoc Y) (m : Manager Y)
      → managed Y m node_id ≡ some d
      → m.stores.outages ≡ []
      → stored_doc Y (flush_doc Y node_id m).stores node_id ≡ d.doc
  unfolding flush_doc
  flush_doc-stored node_id d m found answers = rw found (flush-stored Y node_id d m answers)
