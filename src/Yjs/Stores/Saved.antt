-- ===== src/Yjs/Stores/Saved.antt =====
-- What the stores of yjs/yjs-crdt.service.ts hold behind a flush that they answer, and behind a deletion.
use aideep_backend.Common.{String, ◌≡◌, refl, ap, ◌∙◌, false, Option, none, some, [], ◌==◌, arith}
use aideep_backend.Common.Assoc.{lookup, put, lookup-put_same, lookup-put_other}
use aideep_backend.Yjs.Documents.{Documents}
use aideep_backend.Yjs.Stores.{Stores, StoredNode, save_to_redis, save_to_db, save_row}

module _ (Y : Documents) (node_id : String) (state : Y.Update) (text workspace_id : String)
    (s : Stores Y) (answers : s.outages ≡ []) where
  abbrev pub saved : Stores Y
  saved = save_to_db Y node_id state text workspace_id (save_to_redis Y node_id state s)

  pub saved-outages : saved.outages ≡ []
  saved-outages = ground (arith, answers)

  pub saved-redis : saved.redis ≡ put node_id state s.redis
  saved-redis = ground (arith, answers)

  saved-nodes : saved.nodes ≡ save_row Y (lookup node_id s.nodes) node_id state text s.nodes
  saved-nodes = ground (arith, answers)

  save_row-elsewhere :
      (row : Option (StoredNode Y.Update)) (other : String)
      → (node_id == other) ≡ false
      → lookup other (save_row Y row node_id state text s.nodes) ≡ lookup other s.nodes
  save_row-elsewhere none other differ = refl
  save_row-elsewhere (some row) other differ = lookup-put_other node_id other _ s.nodes differ

  pub saved-nodes_elsewhere :
      (other : String)
      → (node_id == other) ≡ false
      → lookup other saved.nodes ≡ lookup other s.nodes
  saved-nodes_elsewhere other differ =
      ap (lookup other) saved-nodes ∙ save_row-elsewhere (lookup node_id s.nodes) other differ

  pub saved-redis_elsewhere :
      (other : String)
      → (node_id == other) ≡ false
      → lookup other saved.redis ≡ lookup other s.redis
  saved-redis_elsewhere other differ =
      ap (lookup other) saved-redis ∙ lookup-put_other node_id other state s.redis differ

  pub saved-redis_here : lookup node_id saved.redis ≡ some state
  saved-redis_here = ap (lookup node_id) saved-redis ∙ lookup-put_same node_id state s.redis
