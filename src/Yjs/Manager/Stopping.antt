-- ===== src/Yjs/Manager/Stopping.antt =====
-- `YjsDocManager` of yjs/yjs-doc-manager.ts when the server stops, and when it starts again on the same stores.
use aideep_backend.Common.{
  ℕ, String, ◌≡◌, ◌⊎◌, inl, inr, ⊎_elim, refl, sym, ap, ◌∙◌, subst, false, none, some, List, [],
  ◌∷◌, ◌==◌, eq-cases, Option-cases,
}
use aideep_backend.Common.Assoc.{lookup, lookup-put_same, lookup-put_other}
use aideep_backend.Yjs.Documents.{Documents}
use aideep_backend.Yjs.Manager.{
  Manager, ManagedDoc, managed, stored_doc, flush, flush_doc, flush_all, get_or_create_doc,
}
use aideep_backend.Yjs.Manager.Reach.{get_or_create_doc-Loaded}
use aideep_backend.Yjs.Manager.Refines.{Answers, Answers-flush_doc, Answers-flush_all}
use aideep_backend.Yjs.Manager.Safety.{stored_doc-cong}
use aideep_backend.Yjs.Manager.Steps.{flush_doc-stored}
use aideep_backend.Yjs.Stores.{Stores}
use aideep_backend.Yjs.Stores.Saved.{saved-redis_elsewhere, saved-nodes_elsewhere}

module _ (Y : Documents) where
  -- a manager without documents, on the stores as they are
  unfoldable pub started : ℕ → Stores Y → Manager Y
  started now stores = record {
    docs = [];
    timers = [];
    next_handle = 0;
    now = now;
    stores = stores;
  }

  -- `onModuleDestroy`
  unfoldable pub on_module_destroy : Manager Y → Manager Y
  on_module_destroy m = record (flush_all Y m.docs m) { docs = [] }

  -- the manager has the document of the node
  abbrev Has : Manager Y → String → Y.Doc → Type 0
  Has m node_id doc = (d : ManagedDoc Y) × (managed Y m node_id ≡ some d) × (d.doc ≡ doc)

  flush-Has :
      (c : ManagedDoc Y) (node_id other : String) (doc : Y.Doc) (m : Manager Y)
      → managed Y m node_id ≡ some c
      → Has m other doc
      → Has (flush Y node_id c m) other doc
  flush-Has c node_id other doc m found_c (d, found, same) = elim (eq-cases node_id other) [
    | inl (_, e) ↦
        let one : c ≡ d = cc (found_c, found, e) in
        (
          record c { save_timer = none },
          subst (λ x. lookup x (flush Y node_id c m).docs ≡ some (record c { save_timer = none })) e
              (lookup-put_same node_id _ m.docs),
          ap (λ x. x.doc) one ∙ same,
        )
    | inr (differ, _) ↦ (d, lookup-put_other node_id other _ m.docs differ ∙ found, same)
  ]

  -- a flush changes no document
  flush_doc-Has :
      (node_id other : String) (doc : Y.Doc) (m : Manager Y)
      → Has m other doc
      → Has (flush_doc Y node_id m) other doc
  unfolding flush_doc
  flush_doc-Has node_id other doc m (d, found, same) = elim (Option-cases (managed Y m node_id)) [
    | inl missing ↦ rw missing (d, found, same)
    | inr (c, e) ↦ rw e (flush-Has c node_id other doc m e (d, found, same))
  ]

  -- what is stored of another node stays
  flush_doc-other :
      (node_id other : String) (m : Manager Y)
      → Answers Y m
      → (node_id == other) ≡ false
      → stored_doc Y (flush_doc Y node_id m).stores other ≡ stored_doc Y m.stores other
  unfolding flush_doc
  flush_doc-other node_id other m answers differ = elim (Option-cases (managed Y m node_id)) [
    | inl missing ↦ rw missing refl
    | inr (d, e) ↦ rw e (
        stored_doc-cong Y m.stores (flush Y node_id d m).stores other
          (saved-redis_elsewhere Y node_id _ _ _ m.stores answers other differ)
          (saved-nodes_elsewhere Y node_id _ _ _ m.stores answers other differ))
  ]

  -- the node's document is stored, or is still to be flushed
  abbrev IsAhead : List (String × ManagedDoc Y) → Manager Y → String → Y.Doc → Type 0
  IsAhead entries m node_id doc =
      ((d : ManagedDoc Y) × (lookup node_id entries ≡ some d))
      ⊎ (stored_doc Y m.stores node_id ≡ doc)

  IsAhead-flush_doc :
      (entries : List (String × ManagedDoc Y)) (first : ManagedDoc Y) (node_id other : String)
      (doc : Y.Doc) (m : Manager Y)
      → Answers Y m
      → Has m other doc
      → IsAhead ((node_id, first) ∷ entries) m other doc
      → IsAhead entries (flush_doc Y node_id m) other doc
  IsAhead-flush_doc entries first node_id other doc m answers (d, found, same) ahead =
      elim (eq-cases node_id other) [
        | inl (_, e) ↦ inr (
            subst (λ x. stored_doc Y (flush_doc Y x m).stores other ≡ doc) (sym e)
              (flush_doc-stored Y other d m found answers ∙ same))
        | inr (differ, _) ↦
            ⊎_elim (λ (e, listed). inl (e, rw (differ, lookup) at listed))
              (λ stored. inr (flush_doc-other node_id other m answers differ ∙ stored)) ahead
      ]

  flush_all-stored :
      (entries : List (String × ManagedDoc Y)) (node_id : String) (doc : Y.Doc) (m : Manager Y)
      → Answers Y m
      → Has m node_id doc
      → IsAhead entries m node_id doc
      → stored_doc Y (flush_all Y entries m).stores node_id ≡ doc
  unfolding flush_all
  flush_all-stored [] node_id doc m answers has ahead =
      ⊎_elim (λ (e, listed). absurd (cc listed)) (λ stored. stored) ahead
  flush_all-stored ((n, first) ∷ entries) node_id doc m answers has ahead =
      flush_all-stored entries node_id doc (flush_doc Y n m) (Answers-flush_doc Y n m answers)
        (flush_doc-Has n node_id doc m has)
        (IsAhead-flush_doc entries first n node_id doc m answers has ahead)

  -- While the stores answer, a server that stops keeps no document in memory, and every document that it had there is the same again when it is first opened behind the next start on these stores.
  pub on_module_destroy-roundtrip :
      (now : ℕ) (node_id workspace_id : String) (d : ManagedDoc Y) (m : Manager Y)
      → m.stores.outages ≡ []
      → managed Y m node_id ≡ some d
      → ((on_module_destroy m).docs ≡ [])
        × ((e : ManagedDoc Y) × (managed Y
                (get_or_create_doc Y node_id workspace_id
                  (started now (on_module_destroy m).stores))
                node_id
              ≡ some e)
            × (e.doc ≡ d.doc))
  unfolding on_module_destroy started
  on_module_destroy-roundtrip now node_id workspace_id d m answers found =
      let stored =
        flush_all-stored m.docs node_id d.doc m answers (d, found, refl) (inl (d, found)) in
      let again = started now (flush_all Y m.docs m).stores in
      let (e, there, same) = get_or_create_doc-Loaded Y node_id workspace_id again refl (record {
        answers = Answers-flush_all Y m.docs m answers;
        kept = λ other x held. absurd (cc held);
      }) in
      (refl, (e, there, same ∙ stored))
