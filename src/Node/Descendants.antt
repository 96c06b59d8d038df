-- ===== src/Node/Descendants.antt =====
-- The recursive query of `selectAllDescendantIds` in node/node.repository.ts.
pub mod Correct
pub mod Diverges
pub mod Live
use aideep_backend.Common.{
  ℕ, zero, suc, ◌+◌, String, Bool, Option, none, some, List, [], ◌∷◌, ◌++◌, map, ◌==◌, ◌&&◌,
  contains, length, keep, is_some, not, if◌then◌else◌,
}
use aideep_backend.Infra.Rows.{EdgeRow}
use aideep_backend.Edge.Walk.{Link, link}
use aideep_backend.Edge.Cycle.Adjacency.{targets}

-- `FROM edges WHERE workspace_id = … AND deleted_at IS NULL`
unfoldable pub live_links : String → List EdgeRow → List Link
live_links workspace_id [] = []
live_links workspace_id (r ∷ rows) =
    let rest = live_links workspace_id rows in
    if r.workspace_id == workspace_id && not (is_some r.deleted_at)
    then link r.source_id r.target_id ∷ rest
    else rest

-- `SELECT e.target_id FROM edges e INNER JOIN descendants d ON e.source_id = d.node_id`, over the
-- rows that the round before has added
unfoldable pub join : List Link → List String → List String
join links [] = []
join links (d ∷ added) = targets links d ++ join links added

-- The rounds of `UNION ALL`: they end when one adds no row; `none` means that the fuel ran out.
unfoldable pub union_all : ℕ → List Link → List String → Option (List String)
union_all zero links added = none
union_all (suc fuel) links [] = some []
union_all (suc fuel) links (d ∷ added) = elim (union_all fuel links (join links (d ∷ added))) [
  | none ↦ none
  | some rest ↦ some ((d ∷ added) ++ rest)
]

abbrev pub add_new : String → List String → List String
add_new x rest = if contains rest x then rest else x ∷ rest

-- `SELECT DISTINCT`
unfoldable pub distinct : List String → List String
distinct [] = []
distinct (x ∷ xs) = add_new x (distinct xs)

-- A graph without cycles has no walk longer than the number of its edges.
unfoldable pub descendants : List Link → String → Option (List String)
descendants links node_id = elim (union_all (length links + 1) links (targets links node_id)) [
  | none ↦ none
  | some rows ↦ some (distinct rows)
]
