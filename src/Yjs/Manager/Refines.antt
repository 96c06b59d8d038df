-- ===== src/Yjs/Manager/Refines.antt =====
-- yjs/yjs-doc-manager.ts against a specification that knows of each node only whether its document is
-- open, and for which sockets: no documents, no timers, no stores.
use aideep_backend.Common.{
  ℕ, String, ◌≡◌, refl, sym, ap, ◌∙◌, subst, Option, none, some, List, [], ◌∷◌, Option-cases, inl,
  inr,
}
use aideep_backend.Yjs.Documents.{Documents}
use aideep_backend.Yjs.Manager.{
  Manager, ManagedDoc, TimerKind, timer, save, idle, managed, add, without, on_managed, load_doc,
  load_second, called, get_or_create_doc, left, drop, evict, add_client, remove_client,
  apply_update, schedule_save, flush_doc, flush_all, evict_doc, cleanup_node, fire, flush,
}
use aideep_backend.Yjs.Manager.Clients.{
  view, update, on_open, opened, closed, view-set_doc, view-add_client, view-remove_client,
  view-apply_update, view-schedule_save, view-flush_doc, view-flush_all, view-evict_doc,
  view-cleanup_node,
}
use aideep_backend.Yjs.Stores.{is_down, rest_of}
use aideep_backend.Yjs.Stores.Saved.{saved-outages}

module _ (Y : Documents) where
  -- one call of the manager, or one timer that fires
  pub data Call : Type 0 where
    opens : (node_id workspace_id : String) → Call
    joins leaves : (node_id socket : String) → Call
    changes : (node_id : String) (change : Y.Update) → Call
    schedules cleans : (node_id : String) → Call
    flushes : Call
    fires : (handle : ℕ) (node_id : String) (kind : TimerKind) → Call

  unfoldable pub perform : Call → Manager Y → Manager Y
  perform (opens node_id workspace_id) m = get_or_create_doc Y node_id workspace_id m
  perform (joins node_id socket) m = add_client Y node_id socket m
  perform (leaves node_id socket) m = remove_client Y node_id socket m
  perform (changes node_id change) m = apply_update Y node_id change m
  perform (schedules node_id) m = schedule_save Y node_id m
  perform (cleans node_id) m = cleanup_node Y node_id m
  perform flushes m = flush_all Y m.docs m
  perform (fires handle node_id kind) m = fire Y (timer handle node_id kind) m

  unfoldable pub run : List Call → Manager Y → Manager Y
  run [] m = m
  run (c ∷ calls) m = run calls (perform c m)

  -- the same call, on what is open
  abbrev pub specified : Call → (String → Option (List String)) → String → Option (List String)
  specified (opens node_id workspace_id) f = update Y f node_id (opened Y (f node_id))
  specified (joins node_id socket) f = update Y f node_id (on_open Y (add Y socket) (f node_id))
  specified (leaves node_id socket) f =
      update Y f node_id (on_open Y (without Y socket) (f node_id))
  specified (changes node_id change) f = f
  specified (schedules node_id) f = f
  specified (cleans node_id) f = update Y f node_id none
  specified flushes f = f
  specified (fires handle node_id save) f = f
  specified (fires handle node_id idle) f = update Y f node_id (closed Y (f node_id))

  pub replay : List Call → (String → Option (List String)) → String → Option (List String)
  replay [] f = f
  replay (c ∷ calls) f = replay calls (specified c f)

  -- no call of a store is rejected
  abbrev pub Answers : Manager Y → Type 0
  Answers m = m.stores.outages ≡ []

  view-load_doc :
      (r : Option Y.Update) (node_id workspace_id : String) (m : Manager Y)
      → Answers m
      → view Y (load_doc Y r node_id workspace_id m) ≡ update Y (view Y m) node_id (some [])
  view-load_doc (some state) node_id workspace_id m answers = view-set_doc Y node_id _ m
  view-load_doc none node_id workspace_id m answers =
      subst
        (λ o.
          view Y (load_second Y (is_down Y o) node_id workspace_id m)
          ≡ update Y (view Y m) node_id (some []))
        (sym answers) (view-set_doc Y node_id _ (called Y m))

  pub view-get_or_create_doc :
      (node_id workspace_id : String) (m : Manager Y)
      → Answers m
      → view Y (get_or_create_doc Y node_id workspace_id m)
        ≡ update Y (view Y m) node_id (opened Y (view Y m node_id))
  unfolding get_or_create_doc
  view-get_or_create_doc node_id workspace_id m answers =
      elim (Option-cases (managed Y m node_id)) [
        | inl missing ↦
            rw missing (view-load_doc _ node_id workspace_id (called Y m) (ap (rest_of Y) answers))
        | inr (d, e) ↦ rw e (view-set_doc Y node_id _ m)
      ]

  Answers-load_doc :
      (r : Option Y.Update) (node_id workspace_id : String) (m : Manager Y)
      → Answers m
      → Answers (load_doc Y r node_id workspace_id m)
  Answers-load_doc (some state) node_id workspace_id m answers = answers
  Answers-load_doc none node_id workspace_id m answers =
      subst (λ o. Answers (load_second Y (is_down Y o) node_id workspace_id m)) (sym answers)
        (ap (rest_of Y) answers)

  pub Answers-get_or_create_doc :
      (node_id workspace_id : String) (m : Manager Y)
      → Answers m
      → Answers (get_or_create_doc Y node_id workspace_id m)
  unfolding get_or_create_doc
  Answers-get_or_create_doc node_id workspace_id m answers =
      elim (Option-cases (managed Y m node_id)) [
        | inl missing ↦
            rw missing
              (Answers-load_doc _ node_id workspace_id (called Y m) (ap (rest_of Y) answers))
        | inr (d, e) ↦ rw e answers
      ]

  -- what holds whether or not the node's document is open
  Answers-on_managed :
      (f : ManagedDoc Y → Manager Y → Manager Y) (o : Option (ManagedDoc Y)) (m : Manager Y)
      → Answers m
      → ((d : ManagedDoc Y) → Answers (f d m))
      → Answers (on_managed Y f o m)
  Answers-on_managed f none m answers h = answers
  Answers-on_managed f (some d) m answers h = h d

  Answers-left :
      (clients : List String) (node_id : String) (d : ManagedDoc Y) (m : Manager Y)
      → Answers m
      → Answers (left Y clients node_id d m)
  Answers-left (c ∷ clients) node_id d m answers = answers
  Answers-left [] node_id d m answers = saved-outages Y node_id _ _ _ m.stores answers

  Answers-evict :
      (clients : List String) (node_id : String) (d : ManagedDoc Y) (m : Manager Y)
      → Answers m
      → Answers (evict Y clients node_id d m)
  Answers-evict [] node_id d m answers = answers
  Answers-evict (c ∷ clients) node_id d m answers = answers

  pub Answers-flush_doc :
      (node_id : String) (m : Manager Y) → Answers m → Answers (flush_doc Y node_id m)
  unfolding flush_doc
  Answers-flush_doc node_id m answers =
      Answers-on_managed (flush Y node_id) (managed Y m node_id) m answers
        (λ d. saved-outages Y node_id _ _ _ m.stores answers)

  pub Answers-flush_all :
      (entries : List (String × ManagedDoc Y)) (m : Manager Y)
      → Answers m
      → Answers (flush_all Y entries m)
  unfolding flush_all
  Answers-flush_all [] m answers = answers
  Answers-flush_all ((node_id, d) ∷ entries) m answers =
      Answers-flush_all entries _ (Answers-flush_doc node_id m answers)

  Answers-perform : (c : Call) (m : Manager Y) → Answers m → Answers (perform c m)
  unfolding perform add_client remove_client apply_update schedule_save cleanup_node evict_doc fire
  Answers-perform (opens node_id workspace_id) m answers =
      Answers-get_or_create_doc node_id workspace_id m answers
  Answers-perform (joins node_id socket) m answers =
      Answers-on_managed _ (managed Y m node_id) m answers (λ d. answers)
  Answers-perform (leaves node_id socket) m answers =
      Answers-on_managed _ (managed Y m node_id) m answers (λ d. Answers-left _ node_id _ m answers)
  Answers-perform (changes node_id change) m answers =
      Answers-on_managed _ (managed Y m node_id) m answers (λ d. answers)
  Answers-perform (schedules node_id) m answers =
      Answers-on_managed _ (managed Y m node_id) m answers (λ d. answers)
  Answers-perform (cleans node_id) m answers =
      ap (rest_of Y)
        (Answers-on_managed (drop Y node_id) (managed Y m node_id) m answers (λ d. answers))
  Answers-perform flushes m answers = Answers-flush_all m.docs m answers
  Answers-perform (fires handle node_id save) m answers = Answers-flush_doc node_id _ answers
  Answers-perform (fires handle node_id idle) m answers =
      Answers-on_managed _ (managed Y m node_id) _ answers
        (λ d. Answers-evict d.clients node_id d _ answers)

  view-perform :
      (c : Call) (m : Manager Y) → Answers m → view Y (perform c m) ≡ specified c (view Y m)
  unfolding perform fire
  view-perform (opens node_id workspace_id) m answers =
      view-get_or_create_doc node_id workspace_id m answers
  view-perform (joins node_id socket) m answers = view-add_client Y node_id socket m
  view-perform (leaves node_id socket) m answers = view-remove_client Y node_id socket m
  view-perform (changes node_id change) m answers = view-apply_update Y node_id change m
  view-perform (schedules node_id) m answers = view-schedule_save Y node_id m
  view-perform (cleans node_id) m answers = view-cleanup_node Y node_id m
  view-perform flushes m answers = view-flush_all Y m.docs m
  view-perform (fires handle node_id save) m answers = view-flush_doc Y node_id _
  view-perform (fires handle node_id idle) m answers = view-evict_doc Y node_id _

  -- While the stores answer, the manager refines the specification: behind any sequence of calls and timers, a node's document is open, for exactly the sockets, as the same sequence of opening, joining, leaving, closing when idle, and deleting gives it on a function from nodes to lists of sockets; changes, saves and flushes do not show.
  pub run_refines :
      (calls : List Call) (m : Manager Y)
      → Answers m
      → view Y (run calls m) ≡ replay calls (view Y m)
  unfolding run replay
  run_refines [] m answers = refl
  run_refines (c ∷ calls) m answers =
      run_refines calls (perform c m) (Answers-perform c m answers)
      ∙ ap (replay calls) (view-perform c m answers)
