-- ===== src/Edge/Cycle/Adjacency.antt =====
-- The map that `hasCycle` of edge/edge.service.ts fills lists, under each source, its targets.
use mathlib.Core.List.{append_assoc, append-nil}
use aideep_backend.Common.{
  String, ◌≡◌, refl, ◌↔◌, ◌∙◌, Bool, true, false, List, [], ◌∷◌, ◌++◌, Memᴰ, arith, ◌==◌, eq_iff,
  if◌then◌else◌, Memᴰ-cons, Memᴰ-nil,
}
use aideep_backend.Edge.Walk.{Link, link, HasEdge}
use aideep_backend.Edge.Cycle.{Adj, push, fill, next_of}

-- the targets of the edges out of `current`, in the order of the edges
abbrev pub targets : List Link → String → List String
targets [] current = []
targets (e ∷ es) current =
    let rest = targets es current in
    elim (e.source_id == current) [ true ↦ e.target_id ∷ rest | false ↦ rest ]

next_of-push :
    (s t current : String) (adj : Adj)
    → next_of (push s t adj) current
      ≡ (if s == current then next_of adj current ++ t ∷ [] else next_of adj current)
unfolding next_of push
next_of-push s t current [] = refl
next_of-push s t current ((j, ts) ∷ adj) =
    ground (arith, eq_iff j s, eq_iff j current, eq_iff s current, next_of-push s t current adj)

next_of-fill :
    (adj : Adj) (es : List Link) (current : String)
    → next_of (fill adj es) current ≡ next_of adj current ++ targets es current
unfolding fill
next_of-fill adj [] current = rw append-nil
next_of-fill adj (e ∷ es) current =
    let adj' = push e.source_id e.target_id adj in
    next_of-fill adj' es current
    ∙ rw (next_of-push e.source_id e.target_id current adj) (regroup (e.source_id == current))
  where
    regroup :
        (b : Bool)
        → (if b then next_of adj current ++ e.target_id ∷ [] else next_of adj current)
            ++ targets es current
          ≡ next_of adj current
            ++ elim b [ true ↦ e.target_id ∷ targets es current | false ↦ targets es current ]
    regroup true = append_assoc (next_of adj current) (e.target_id ∷ []) (targets es current)
    regroup false = refl

pub next_of-targets :
    (es : List Link) (current : String) → next_of (fill [] es) current ≡ targets es current
unfolding next_of
next_of-targets es current = next_of-fill [] es current

pub mem-targets : (es : List Link) (a b : String) → Memᴰ b (targets es a) ↔ HasEdge es a b
mem-targets [] a b = (λ m. absurd (Memᴰ-nil b m), λ m. absurd (Memᴰ-nil (link a b) m))
mem-targets (e ∷ es) a b = ground (
  arith,
  eq_iff e.source_id a,
  mem-targets es a b,
  Memᴰ-cons b e.target_id (targets es a),
  Memᴰ-cons (link a b) e es,
)
