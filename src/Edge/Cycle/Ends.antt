-- ===== src/Edge/Cycle/Ends.antt =====
-- The `while` loop of `hasCycle` (edge/edge.service.ts) ends within its rounds: each edge is queued
-- at most once.
use aideep_backend.Common.{
  ℕ, zero, suc, ◌+◌, ◌<◌, String, ◌≡◌, ap, inl, inr, Bool, true, false, some, List, [], ◌∷◌, ◌++◌,
  arith, ◌==◌, eq_iff, contains, Bool-cases, length, length-append, refl,
}
use aideep_backend.Edge.Walk.{Link}
use aideep_backend.Edge.Cycle.{fill, next_of, search_from, has_cycle, rounds}
use aideep_backend.Edge.Cycle.Adjacency.{next_of-targets, targets}

-- the edges whose source is not visited yet
abbrev open_edges : List String → List Link → ℕ
open_edges visited [] = 0
open_edges visited (e ∷ es) =
    let rest = open_edges visited es in
    elim (contains visited e.source_id) [ true ↦ rest | false ↦ suc rest ]

open_edges-expand :
    (visited : List String) (current : String) (es : List Link)
    → contains visited current ≡ false
    → open_edges (current ∷ visited) es + length (targets es current) ≡ open_edges visited es
open_edges-expand visited current [] fresh = omega arith
open_edges-expand visited current (e ∷ es) fresh = ground (
  arith,
  eq_iff current e.source_id,
  eq_iff e.source_id current,
  open_edges-expand visited current es,
)

open_edges-start : (es : List Link) → open_edges [] es ≡ length es
open_edges-start [] = refl
open_edges-start (_ ∷ es) = ap suc (open_edges-start es)

module _ (es : List Link) (source : String) where
  search_from-ends :
      (fuel : ℕ) (visited queue : List String)
      → length queue + open_edges visited es < fuel
      → (b : Bool) × (search_from fuel source (fill [] es) visited queue ≡ some b)
  unfolding search_from
  search_from-ends zero visited queue h = absurd (omega arith)
  search_from-ends (suc fuel) visited [] h = (false, refl)
  search_from-ends (suc fuel) visited (current ∷ queue) h = elim (Bool-cases (current == source)) [
    | inl t ↦ (true, rw (t, search_from))
    | inr f ↦ elim (Bool-cases (contains visited current)) [
      | inl seen ↦ rw (f, seen, search_from) (search_from-ends fuel visited queue (omega arith))
      | inr fresh ↦
          rw (f, fresh, search_from)
            (search_from-ends fuel (current ∷ visited) (queue ++ next_of (fill [] es) current) (
              omega (
                arith,
                length-append queue (next_of (fill [] es) current),
                ap length (next_of-targets es current),
                open_edges-expand visited current es fresh,
              )))
    ]
  ]

  pub has_cycle-ends : (target : String) → (b : Bool) × (has_cycle source target es ≡ some b)
  unfolding has_cycle
  has_cycle-ends target =
      search_from-ends (rounds es) [] (target ∷ []) (omega (arith, open_edges-start es))
