-- ===== src/Yjs/Stores.antt =====
-- yjs/yjs-crdt.service.ts: where the documents are stored.
pub mod Saved
use aideep_backend.Common.{
  is_some, String, Bool, true, false, Option, none, some, List, [], ◌∷◌, ◌++◌, ◌==◌, if◌then◌else◌,
}
use aideep_backend.Common.Assoc.{lookup, put, remove}
use aideep_backend.Yjs.Documents.{Documents}

-- the columns `yjs_state` and `content.markdownBody` of a node's row
pub record StoredNode (Update : Type 0) : Type 0 where
  pub yjs_state : Option Update
  pub markdown_body : Option String
  pub workspace_id : String

module _ (Y : Documents) where
  pub record Stores : Type 0 where
    -- under `REDIS_KEYS.YJS_DOC(nodeId)`
    pub redis : List (String × Y.Update)
    pub nodes : List (String × StoredNode Y.Update)
    -- the workspaces whose cached view was deleted, the last one first
    pub invalidated : List String
    -- whether each of the next calls of Redis or of the database is rejected; behind the list's end
    -- all are answered
    pub outages : List Bool

  abbrev pub is_down : List Bool → Bool
  is_down [] = false
  is_down (down ∷ _) = down

  abbrev pub rest_of : List Bool → List Bool
  rest_of [] = []
  rest_of (_ ∷ outages) = outages

  -- `loadFromRedis`, where a rejected call counts as a missing entry
  abbrev pub load_from_redis : String → Stores → Option Y.Update
  load_from_redis node_id s = if is_down s.outages then none else lookup node_id s.redis

  -- the text of an old node, unless it is empty
  abbrev bootstrap : Option String → Option Y.Update
  bootstrap none = none
  bootstrap (some text) = if text == "" then none else some (Y.encode (Y.of_text text))

  abbrev state_of : Option Y.Update → Option String → Option Y.Update
  state_of (some state) body = some state
  state_of none body = bootstrap body

  abbrev pub stored_state : Option (StoredNode Y.Update) → Option Y.Update
  stored_state none = none
  stored_state (some row) = state_of row.yjs_state row.markdown_body

  -- `loadFromDb`
  abbrev pub load_from_db : String → Stores → Option Y.Update
  load_from_db node_id s = stored_state (lookup node_id s.nodes)

  -- `saveToRedis`
  abbrev pub save_to_redis : String → Y.Update → Stores → Stores
  save_to_redis node_id state s = record s {
    redis = if is_down s.outages then s.redis else put node_id state s.redis;
    outages = rest_of s.outages;
  }

  abbrev pub save_row :
      Option (StoredNode Y.Update)
      → String
      → Y.Update
      → String
      → List (String × StoredNode Y.Update)
      → List (String × StoredNode Y.Update)
  save_row none node_id state text nodes = nodes
  save_row (some row) node_id state text nodes =
      put node_id (record row { yjs_state = some state; markdown_body = some text }) nodes

  -- `saveToDb`: the update of a row that is missing is rejected
  abbrev pub save_to_db : String → Y.Update → String → String → Stores → Stores
  save_to_db node_id state text workspace_id s =
      if is_down s.outages then record s { outages = rest_of s.outages } else record s {
        nodes = save_row (lookup node_id s.nodes) node_id state text s.nodes;
        invalidated =
            if is_some (lookup node_id s.nodes)
            then workspace_id ∷ s.invalidated
            else s.invalidated;
        outages = rest_of s.outages;
      }

  -- `deleteFromRedis`
  abbrev pub delete_from_redis : String → Stores → Stores
  delete_from_redis node_id s = record s {
    redis = if is_down s.outages then s.redis else remove node_id s.redis;
    outages = rest_of s.outages;
  }
