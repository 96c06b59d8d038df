-- ===== src/Node/Descendants/Diverges.antt =====
-- The recursive query of `selectAllDescendantIds` (node/node.repository.ts) on a graph with a cycle.
use aideep_backend.Common.{
  ℕ, zero, suc, String, ◌≡◌, inl, inr, refl, sym, subst, none, List, [], ◌∷◌, Memᴰ, Memᴰ-nil,
}
use aideep_backend.Edge.Walk.{Link, HasEdge, Walk, Walk-head}
use aideep_backend.Node.Descendants.{join, union_all}
use aideep_backend.Node.Descendants.Correct.{mem-join}

-- a row of this round reaches a cycle
abbrev Endless : List Link → List String → Type 0
Endless links added =
    (u : String) × Memᴰ u added
    × (x : String) × Walk links u x
    × (y : String) × HasEdge links x y
    × Walk links y x

Endless-join :
    (links : List Link) (added : List String)
    → Endless links added
    → Endless links (join links added)
Endless-join links added (u, m, x, w, y, e, back) = elim (Walk-head w) [
  | inl same ↦ (
    y,
    (mem-join links added y).1 (u, m, subst (λ z. HasEdge links z y) (sym same) e),
    x,
    back,
    y,
    e,
    back,
  )
  | inr (c, f, rest) ↦ (c, (mem-join links added c).1 (u, m, f), x, rest, y, e, back)
]

-- Where a row of the first round reaches a cycle, the recursive query never ends, however many rounds it is given.
pub union_all_diverges :
    (links : List Link) (fuel : ℕ) (added : List String) (u x y : String)
    → Memᴰ u added
    → Walk links u x
    → HasEdge links x y
    → Walk links y x
    → union_all fuel links added ≡ none
unfolding union_all
union_all_diverges links fuel added u x y m w e back = go fuel added (u, m, x, w, y, e, back)
  where
    go : (fuel : ℕ) (added : List String) → Endless links added → union_all fuel links added ≡ none
    go zero added h = refl
    go (suc fuel) [] h = absurd (Memᴰ-nil h.0 h.1)
    go (suc fuel) (d ∷ added) h =
        rw (go fuel (join links (d ∷ added)) (Endless-join links (d ∷ added) h), union_all)
