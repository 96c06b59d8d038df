-- ===== src/Yjs/Manager/Holds.antt =====
-- Which sockets are clients of which documents of yjs/yjs-doc-manager.ts, whether the stores answer or not.
use aideep_backend.Common.{
  ℕ, String, ◌≡◌, refl, ap, ◌∙◌, Bool, true, false, not, ◌&&◌, ◌||◌, Option, none, some, List, [],
  ◌∷◌, ◌++◌, ◌==◌, is_some, contains, arith, Option-cases, eq-cases, inl, inr,
}
use aideep_backend.Yjs.Documents.{Documents}
use aideep_backend.Yjs.Manager.{
  Manager, ManagedDoc, TimerKind, timer, save, idle, managed, set_doc, add, without, add_client,
  remove_client, cleanup_node, evict_doc, fire, get_or_create_doc, load_doc, load_second, called,
}
use aideep_backend.Yjs.Manager.Clients.{
  view, update, on_open, closed, clients_of, view-set_doc, view-add_client, view-remove_client,
  view-cleanup_node, view-evict_doc, view-flush_doc,
}
use aideep_backend.Yjs.Stores.{is_down}

pub contains-append :
    (xs : List String) (s t : String) → contains (xs ++ s ∷ []) t ≡ (contains xs t || s == t)
contains-append [] s t = ground arith
contains-append (x ∷ xs) s t = ground (arith, contains-append xs s t)

abbrev pub has_client : Option (List String) → String → Bool
has_client none socket = false
has_client (some clients) socket = contains clients socket

module _ (Y : Documents) where
  pub contains-add :
      (s t : String) (xs : List String) → contains (add Y s xs) t ≡ (contains xs t || s == t)
  contains-add s t xs = ground (arith, contains-append xs s t, eq-cases s t)

  pub contains-without :
      (s t : String) (xs : List String)
      → contains (without Y s xs) t ≡ (contains xs t && not (s == t))
  contains-without s t [] = refl
  contains-without s t (x ∷ xs) =
      ground (arith, contains-without s t xs, eq-cases x s, eq-cases x t, eq-cases s t)

  abbrev pub holds : Manager Y → String → String → Bool
  holds m node_id socket = has_client (view Y m node_id) socket

  module _ (node_id other socket client : String) (m : Manager Y) where
    pub holds-add_client : holds (add_client Y node_id socket m) other client ≡ (
        holds m other client
        || (is_some (view Y m node_id) && (node_id == other && socket == client)))
    holds-add_client =
        ap (λ v. has_client (v other) client) (view-add_client Y node_id socket m)
        ∙ after (view Y m node_id) refl
      where
        after :
            (v : Option (List String))
            → view Y m node_id ≡ v
            → has_client (update Y (view Y m) node_id (on_open Y (add Y socket) v) other) client
              ≡ (holds m other client || (is_some v && (node_id == other && socket == client)))
        after none e = ground (arith, eq-cases node_id other)
        after (some clients) e =
            ground (arith, eq-cases node_id other, contains-add socket client clients)

    pub holds-remove_client :
        holds (remove_client Y node_id socket m) other client
        ≡ (holds m other client && not (node_id == other && socket == client))
    holds-remove_client =
        ap (λ v. has_client (v other) client) (view-remove_client Y node_id socket m)
        ∙ after (view Y m node_id) refl
      where
        after :
            (v : Option (List String))
            → view Y m node_id ≡ v
            → has_client (update Y (view Y m) node_id (on_open Y (without Y socket) v) other) client
              ≡ (holds m other client && not (node_id == other && socket == client))
        after none e = ground (arith, eq-cases node_id other)
        after (some clients) e =
            ground (arith, eq-cases node_id other, contains-without socket client clients)

  pub holds-cleanup_node :
      (node_id other client : String) (m : Manager Y)
      → holds (cleanup_node Y node_id m) other client
        ≡ (holds m other client && not (node_id == other))
  holds-cleanup_node node_id other client m =
      ap (λ v. has_client (v other) client) (view-cleanup_node Y node_id m)
      ∙ ground (arith, eq-cases node_id other)

  pub holds-evict_doc :
      (node_id other client : String) (m : Manager Y)
      → holds (evict_doc Y node_id m) other client ≡ holds m other client
  holds-evict_doc node_id other client m =
      ap (λ v. has_client (v other) client) (view-evict_doc Y node_id m)
      ∙ after (view Y m node_id) refl
    where
      after :
          (v : Option (List String))
          → view Y m node_id ≡ v
          → has_client (update Y (view Y m) node_id (closed Y v) other) client
            ≡ holds m other client
      after none e = ground (arith, eq-cases node_id other)
      after (some []) e = ground (arith, eq-cases node_id other)
      after (some (c ∷ cs)) e = ground (arith, eq-cases node_id other)

  -- a document that was not there is loaded without clients, or not at all
  holds-set_doc :
      (node_id other client : String) (d : ManagedDoc Y) (m : Manager Y)
      → view Y m node_id ≡ none
      → d.clients ≡ []
      → holds (set_doc Y node_id d m) other client ≡ holds m other client
  holds-set_doc node_id other client d m missing alone =
      ap (λ v. has_client (v other) client) (view-set_doc Y node_id d m)
      ∙ ground (arith, eq-cases node_id other)

  holds-load_doc :
      (r : Option Y.Update) (node_id workspace_id other client : String) (m : Manager Y)
      → view Y m node_id ≡ none
      → holds (load_doc Y r node_id workspace_id m) other client ≡ holds m other client
  holds-load_doc (some state) node_id workspace_id other client m missing =
      holds-set_doc node_id other client _ m missing refl
  holds-load_doc none node_id workspace_id other client m missing =
      second (is_down Y m.stores.outages)
    where
      second :
          (down : Bool)
          → holds (load_second Y down node_id workspace_id m) other client ≡ holds m other client
      second true = refl
      second false = holds-set_doc node_id other client _ (called Y m) missing refl

  pub holds-get_or_create_doc :
      (node_id workspace_id other client : String) (m : Manager Y)
      → holds (get_or_create_doc Y node_id workspace_id m) other client ≡ holds m other client
  unfolding get_or_create_doc
  holds-get_or_create_doc node_id workspace_id other client m =
      elim (Option-cases (managed Y m node_id)) [
        | inl missing ↦ rw missing (
            holds-load_doc _ node_id workspace_id other client (called Y m)
              (ap (clients_of Y) missing))
        | inr (d, e) ↦ rw e (
            ap (λ v. has_client (v other) client) (view-set_doc Y node_id _ m)
            ∙ ground (arith, eq-cases node_id other))
      ]

  pub holds-fire :
      (handle : ℕ) (node_id : String) (kind : TimerKind) (other client : String) (m : Manager Y)
      → holds (fire Y (timer handle node_id kind) m) other client ≡ holds m other client
  unfolding fire
  holds-fire handle node_id save other client m =
      ap (λ v. has_client (v other) client) (view-flush_doc Y node_id _)
  holds-fire handle node_id idle other client m = holds-evict_doc node_id other client _
