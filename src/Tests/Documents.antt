-- ===== src/Tests/Documents.antt =====
-- yjs/yjs-doc-manager.ts on documents that are lists of changes.
use aideep_backend.Common.{◌≡◌, refl, [], ◌∷◌, none, some}
use aideep_backend.Samples.Docs.{lists, idle_manager, idle_manager-IsSafe}
use aideep_backend.Yjs.Manager.{
  Manager, ManagedDoc, managed, get_or_create_doc, add_client, apply_update, evict_doc,
}
use aideep_backend.Yjs.Manager.Reach.{
  stay, next, opens, joins, changes, Reach-IsSafe, evict_doc-roundtrip,
}
use aideep_backend.Yjs.Manager.Safety.{IsSafe}
use aideep_backend.Yjs.Manager.Stopping.{started, on_module_destroy, on_module_destroy-roundtrip}
use aideep_backend.Yjs.Manager.Steps.{HasClient}

abbrev opened : Manager lists
opened = get_or_create_doc lists "n" "w" idle_manager

abbrev joined : Manager lists
joined = add_client lists "n" "s" opened

abbrev edited : Manager lists
edited = apply_update lists "n" ("new" ∷ []) joined

joined-HasClient : HasClient lists joined "n"
unfolding get_or_create_doc add_client
joined-HasClient d e none_left = absurd (cc (e, none_left))

Reach-IsSafe_example : IsSafe lists edited
Reach-IsSafe_example = Reach-IsSafe lists idle_manager-IsSafe (
    next (next (next stay (opens "n" "w")) (joins "n" "s"))
      (changes "n" ("new" ∷ []) joined-HasClient))

opened-IsSafe : IsSafe lists opened
opened-IsSafe = Reach-IsSafe lists idle_manager-IsSafe (next stay (opens "n" "w"))

abbrev loaded : ManagedDoc lists
loaded = record {
  doc = "old" ∷ [];
  clients = [];
  workspace_id = "w";
  save_timer = none;
  idle_timer = none;
  last_activity = 0;
}

evict_doc-roundtrip_example :
    (managed lists (evict_doc lists "n" opened) "n" ≡ none)
    × ((e : ManagedDoc lists) × (managed lists
            (get_or_create_doc lists "n" "w" (evict_doc lists "n" opened))
            "n"
          ≡ some e)
        × (e.doc ≡ loaded.doc))
unfolding get_or_create_doc
evict_doc-roundtrip_example =
    evict_doc-roundtrip lists "n" "w" loaded opened opened-IsSafe refl refl

on_module_destroy-roundtrip_example :
    ((on_module_destroy lists opened).docs ≡ [])
    × ((e : ManagedDoc lists) × (managed lists
            (get_or_create_doc lists "n" "w"
              (started lists 5 (on_module_destroy lists opened).stores))
            "n"
          ≡ some e)
        × (e.doc ≡ loaded.doc))
unfolding get_or_create_doc
on_module_destroy-roundtrip_example =
    on_module_destroy-roundtrip lists 5 "n" "w" loaded opened refl refl
