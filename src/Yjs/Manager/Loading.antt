-- ===== src/Yjs/Manager/Loading.antt =====
-- `getOrCreateDoc` of yjs/yjs-doc-manager.ts: a document that is loaded is as it is stored.
use aideep_backend.Common.{
  String, ◌≡◌, inl, inr, sym, ap, subst, false, Option, none, some, [], arith, Option-cases,
}
use aideep_backend.Common.Assoc.{lookup}
use aideep_backend.Yjs.Documents.{Documents}
use aideep_backend.Yjs.Manager.{
  Manager, ManagedDoc, managed, stored_doc, get_or_load, load_doc, load_second, called, fresh,
  set_doc, doc_of, first_of, get_or_create_doc,
}
use aideep_backend.Yjs.Manager.Safety.{IsSafe, elsewhere, IsSafe-changed}
use aideep_backend.Yjs.Stores.{Stores, rest_of, is_down, load_from_redis, load_from_db}

module _ (Y : Documents) where
  pub IsSafe-called : (m : Manager Y) → IsSafe Y m → IsSafe Y (called Y m)
  IsSafe-called m safe = record {
    answers = ap (rest_of Y) safe.answers;
    kept = λ other d e. let old = safe.kept other d e in record { stored_alone = old.stored_alone };
  }

  -- a document that is loaded is as it is stored
  IsSafe-fresh :
      (node_id workspace_id : String) (doc : Y.Doc) (m : Manager Y)
      → IsSafe Y m
      → doc ≡ stored_doc Y m.stores node_id
      → IsSafe Y (set_doc Y node_id (fresh Y doc workspace_id m) m)
  IsSafe-fresh node_id workspace_id doc m safe same =
      IsSafe-changed Y node_id _ m.timers m.next_handle m (elsewhere Y node_id safe)
        (record { stored_alone = λ _. same })

  IsSafe-load_second :
      (node_id workspace_id : String) (m : Manager Y)
      → lookup node_id m.stores.redis ≡ none
      → IsSafe Y m
      → IsSafe Y (load_second Y false node_id workspace_id m)
  IsSafe-load_second node_id workspace_id m missing safe =
      IsSafe-fresh node_id _ _ (called Y m) (IsSafe-called m safe)
        (ap (λ r. doc_of Y (first_of Y r (load_from_db Y node_id m.stores))) (sym missing))

  IsSafe-load_doc :
      (r : Option Y.Update) (node_id workspace_id : String) (m : Manager Y)
      → lookup node_id m.stores.redis ≡ r
      → IsSafe Y m
      → IsSafe Y (load_doc Y r node_id workspace_id m)
  IsSafe-load_doc (some state) node_id workspace_id m e safe =
      IsSafe-fresh node_id workspace_id _ m safe
        (ap (λ r. doc_of Y (first_of Y r (load_from_db Y node_id m.stores))) (sym e))
  IsSafe-load_doc none node_id workspace_id m e safe =
      subst (λ o. IsSafe Y (load_second Y (is_down Y o) node_id workspace_id m)) (sym safe.answers)
        (IsSafe-load_second node_id workspace_id m e safe)

  pub load_from_redis-answers :
      (node_id : String) (s : Stores Y)
      → s.outages ≡ []
      → load_from_redis Y node_id s ≡ lookup node_id s.redis
  load_from_redis-answers node_id s answers = ground (arith, answers)

  IsSafe-load :
      (node_id workspace_id : String) (m : Manager Y)
      → IsSafe Y m
      → IsSafe Y (get_or_load Y none node_id workspace_id m)
  IsSafe-load node_id workspace_id m safe =
      IsSafe-load_doc _ node_id workspace_id (called Y m)
        (sym (load_from_redis-answers node_id m.stores safe.answers)) (IsSafe-called m safe)

  IsSafe-found :
      (d : ManagedDoc Y) (node_id workspace_id : String) (m : Manager Y)
      → managed Y m node_id ≡ some d
      → IsSafe Y m
      → IsSafe Y (get_or_load Y (some d) node_id workspace_id m)
  IsSafe-found d node_id workspace_id m e safe =
      let old = safe.kept node_id d e in
      IsSafe-changed Y node_id _ _ m.next_handle m (elsewhere Y node_id safe)
        (record { stored_alone = old.stored_alone })

  pub IsSafe-get_or_create_doc :
      (node_id workspace_id : String) (m : Manager Y)
      → IsSafe Y m
      → IsSafe Y (get_or_create_doc Y node_id workspace_id m)
  unfolding get_or_create_doc
  IsSafe-get_or_create_doc node_id workspace_id m safe = elim (Option-cases (managed Y m node_id)) [
    | inl missing ↦ rw missing (IsSafe-load node_id workspace_id m safe)
    | inr (d, e) ↦ rw e (IsSafe-found d node_id workspace_id m e safe)
  ]
