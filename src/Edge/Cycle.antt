-- ===== src/Edge/Cycle.antt =====
-- `hasCycle` of edge/edge.service.ts: breadth-first search from the target of a new edge.
pub mod Adjacency
pub mod Sound
pub mod Complete
pub mod Ends
pub mod Decides
use aideep_backend.Common.{
  ℕ, zero, suc, ◌+◌, String, Bool, true, false, Option, none, some, List, [], ◌∷◌, ◌++◌, ◌==◌,
  contains, length, if◌then◌else◌,
}
use aideep_backend.Edge.Walk.{Link}

-- `Map<string, string[]>`, its entries in the order in which they were set
abbrev pub Adj : Type 0
Adj = List (String × List String)

-- `if (!adj.has(source)) adj.set(source, []); adj.get(source)!.push(target)`
unfoldable pub push : String → String → Adj → Adj
push source target [] = (source, target ∷ []) ∷ []
push source target ((s, ts) ∷ adj) =
    if s == source then (s, ts ++ target ∷ []) ∷ adj else (s, ts) ∷ push source target adj

-- the loop over `edges` that fills `adj`
unfoldable pub fill : Adj → List Link → Adj
fill adj [] = adj
fill adj (e ∷ es) = fill (push e.source_id e.target_id adj) es

-- `adj.get(current) ?? []`
unfoldable pub next_of : Adj → String → List String
next_of [] current = []
next_of ((s, ts) ∷ adj) current = if s == current then ts else next_of adj current

-- the `while` loop, one unit of fuel for each round; `none` means that the fuel ran out
unfoldable pub search_from : ℕ → String → Adj → List String → List String → Option Bool
search_from zero source adj visited queue = none
search_from (suc fuel) source adj visited [] = some false
search_from (suc fuel) source adj visited (current ∷ queue) = elim (current == source) [
  | true ↦ some true
  | false ↦ elim (contains visited current) [
    | true ↦ search_from fuel source adj visited queue
    | false ↦ search_from fuel source adj (current ∷ visited) (queue ++ next_of adj current)
  ]
]

-- The rounds are at most one for each edge and one for the target, and one more sees the empty
-- queue.
abbrev pub rounds : List Link → ℕ
rounds edges = length edges + 2

unfoldable pub has_cycle : String → String → List Link → Option Bool
has_cycle source_id target_id edges =
    search_from (rounds edges) source_id (fill [] edges) [] (target_id ∷ [])
