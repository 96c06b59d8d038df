-- ===== src/Yjs/Manager/Leaving.antt =====
-- `removeClient`, `evictDoc`, `cleanupNode` and the timers of yjs/yjs-doc-manager.ts keep every change.
use aideep_backend.Common.{
  ℕ, String, ◌≡◌, inl, inr, refl, ap, ◌∙◌, not, none, List, [], ◌∷◌, arith, keep, Option-cases,
}
use aideep_backend.Common.Assoc.{
  lookup, remove, lookup-put_same, lookup-remove_same, lookup-remove_other,
}
use aideep_backend.Yjs.Documents.{Documents}
use aideep_backend.Yjs.Manager.{
  Manager, ManagedDoc, Timer, timer, save, idle, managed, stored_doc, same_timer, left, drop, flush,
  without, evict, TimerKind, remove_client, flush_doc, evict_doc, cleanup_node, fire,
}
use aideep_backend.Yjs.Manager.Safety.{
  IsSafe, IsSafeElsewhere, SameElsewhere, elsewhere, IsSafe-changed, IsSafe-flush, IsSafe-gone,
  stored_doc-cong,
}
use aideep_backend.Yjs.Stores.{Stores, rest_of, delete_from_redis}

module _ (Y : Documents) where
  -- the last client leaves, or another
  IsSafe-left :
      (clients : List String) (node_id : String) (d : ManagedDoc Y) (m : Manager Y)
      → d.clients ≡ clients
      → IsSafe Y m
      → IsSafe Y (left Y clients node_id d m)
  IsSafe-left (c ∷ clients) node_id d m e safe =
      IsSafe-changed Y node_id d m.timers m.next_handle m (elsewhere Y node_id safe)
        (record { stored_alone = λ alone. absurd (cc (e, alone)) })
  IsSafe-left [] node_id d m e safe =
      let flushed = IsSafe-flush Y node_id d m (elsewhere Y node_id safe) in
      let same : d.doc ≡ stored_doc Y (flush Y node_id d m).stores node_id =
        (flushed.kept node_id _
            (lookup-put_same node_id (record d { save_timer = none }) m.docs)).stored_alone
          e in
      IsSafe-changed Y node_id _ _ _ (flush Y node_id d m) (elsewhere Y node_id flushed)
        (record { stored_alone = λ _. same })

  pub IsSafe-remove_client :
      (node_id socket : String) (m : Manager Y)
      → IsSafe Y m
      → IsSafe Y (remove_client Y node_id socket m)
  unfolding remove_client
  IsSafe-remove_client node_id socket m safe = elim (Option-cases (managed Y m node_id)) [
    | inl missing ↦ rw missing safe
    | inr (d, e) ↦ rw e (
        IsSafe-left (without Y socket d.clients) node_id
          (record d { clients = without Y socket d.clients }) m refl safe)
  ]

  drop-SameElsewhere :
      (node_id : String) (d : ManagedDoc Y) (m : Manager Y)
      → SameElsewhere Y node_id m (drop Y node_id d m)
  drop-SameElsewhere node_id d m = record {
    docs = λ other differ. lookup-remove_other node_id other m.docs differ;
    stored = λ other differ. refl;
  }

  pub IsSafe-drop :
      (node_id : String) (d : ManagedDoc Y) (m : Manager Y)
      → IsSafe Y m
      → IsSafe Y (drop Y node_id d m)
  IsSafe-drop node_id d m safe =
      IsSafe-gone Y node_id m _ (elsewhere Y node_id safe) (drop-SameElsewhere node_id d m)
        safe.answers (lookup-remove_same node_id m.docs)

  IsSafe-evict :
      (clients : List String) (node_id : String) (d : ManagedDoc Y) (m : Manager Y)
      → IsSafe Y m
      → IsSafe Y (evict Y clients node_id d m)
  IsSafe-evict [] node_id d m safe = IsSafe-drop node_id d m safe
  IsSafe-evict (c ∷ clients) node_id d m safe = safe

  IsSafe-evict_doc :
      (node_id : String) (m : Manager Y) → IsSafe Y m → IsSafe Y (evict_doc Y node_id m)
  unfolding evict_doc
  IsSafe-evict_doc node_id m safe = elim (Option-cases (managed Y m node_id)) [
    | inl missing ↦ rw missing safe
    | inr (d, e) ↦ rw e (IsSafe-evict d.clients node_id d m safe)
  ]

  -- the entry in Redis goes with the node's document
  IsSafe-deleted :
      (node_id : String) (m : Manager Y)
      → managed Y m node_id ≡ none
      → IsSafe Y m
      → IsSafe Y (record m { stores = delete_from_redis Y node_id m.stores })
  IsSafe-deleted node_id m gone safe =
      IsSafe-gone Y node_id m _ (elsewhere Y node_id safe)
        (record {
          docs = λ other differ. refl;
          stored = λ other differ.
              stored_doc-cong Y m.stores (delete_from_redis Y node_id m.stores) other
                (ap (lookup other) (delete_from_redis-redis node_id m.stores safe.answers)
                  ∙ lookup-remove_other node_id other m.stores.redis differ)
                refl;
        })
        (ap (rest_of Y) safe.answers) gone
    where
      delete_from_redis-redis :
          (node_id : String) (s : Stores Y)
          → s.outages ≡ []
          → (delete_from_redis Y node_id s).redis ≡ remove node_id s.redis
      delete_from_redis-redis node_id s answers = ground (arith, answers)

  pub IsSafe-cleanup_node :
      (node_id : String) (m : Manager Y) → IsSafe Y m → IsSafe Y (cleanup_node Y node_id m)
  unfolding cleanup_node
  IsSafe-cleanup_node node_id m safe = elim (Option-cases (managed Y m node_id)) [
    | inl missing ↦ rw missing (IsSafe-deleted node_id m missing safe)
    | inr (d, e) ↦ rw e (
        IsSafe-deleted node_id (drop Y node_id d m) (lookup-remove_same node_id m.docs)
          (IsSafe-drop node_id d m safe))
  ]

  -- a timer that fires is no longer set
  abbrev fired : Timer → Manager Y → Manager Y
  fired t m = record m { timers = keep (λ s. not (same_timer s t)) m.timers }

  IsSafe-fired_idle :
      (handle : ℕ) (node_id : String) (m : Manager Y)
      → IsSafe Y m
      → IsSafe Y (fired (timer handle node_id idle) m)
  IsSafe-fired_idle handle node_id m safe = record {
    answers = safe.answers;
    kept = λ other d e. let old = safe.kept other d e in record { stored_alone = old.stored_alone };
  }

  IsSafeElsewhere-fired :
      (handle : ℕ) (node_id : String) (m : Manager Y)
      → IsSafe Y m
      → IsSafeElsewhere Y node_id (fired (timer handle node_id save) m)
  IsSafeElsewhere-fired handle node_id m safe = record {
    answers = safe.answers;
    kept = λ other d differ e.
        let old = safe.kept other d e in record { stored_alone = old.stored_alone };
  }

  IsSafe-fired_save :
      (handle : ℕ) (node_id : String) (m : Manager Y)
      → IsSafe Y m
      → IsSafe Y (flush_doc Y node_id (fired (timer handle node_id save) m))
  unfolding flush_doc
  IsSafe-fired_save handle node_id m safe =
      let rest : Manager Y = fired (timer handle node_id save) m in
      elim (Option-cases (managed Y m node_id)) [
        | inl missing ↦ rw missing (
            IsSafe-gone Y node_id rest rest (IsSafeElsewhere-fired handle node_id m safe)
              (record { docs = λ other differ. refl; stored = λ other differ. refl }) safe.answers
              missing)
        | inr (d, e) ↦
            rw e (IsSafe-flush Y node_id d rest (IsSafeElsewhere-fired handle node_id m safe))
      ]

  pub IsSafe-fire :
      (handle : ℕ) (node_id : String) (k : TimerKind) (m : Manager Y)
      → IsSafe Y m
      → IsSafe Y (fire Y (timer handle node_id k) m)
  unfolding fire
  IsSafe-fire handle node_id save m safe = IsSafe-fired_save handle node_id m safe
  IsSafe-fire handle node_id idle m safe =
      IsSafe-evict_doc node_id _ (IsSafe-fired_idle handle node_id m safe)
