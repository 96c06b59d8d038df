-- ===== src/Tests/Graph.antt =====
-- The graph of the sample board.
use aideep_backend.Common.{String, ◌≢◌, ap, [], ◌∷◌, ◌==◌, Memᴰ-nil, eq-cases, inl, inr, ⊎_elim}
use aideep_backend.Edge.Acyclic.{IsAcyclic-nil, IsAcyclic-extended}
use aideep_backend.Edge.Graph.{AllAcyclic, workspace_links}
use aideep_backend.Edge.Walk.{link, Walk, Walk-head, IsAcyclic}
use aideep_backend.Samples.Tables.{sample}
use aideep_backend.Samples.Worlds.{board}

no-Walk : (a b : String) → a ≢ b → ¬ Walk [] a b
no-Walk a b differ w = ⊎_elim differ (λ (c, e, rest). Memᴰ-nil (link a c) e) (Walk-head w)

b_apart : ◌≢◌ {A = String} "b" "a"
b_apart e = absurd (cc (ap (λ (x : String). x == "a") e))

pub one_edge-IsAcyclic : IsAcyclic (link "a" "b" ∷ [])
one_edge-IsAcyclic = IsAcyclic-extended [] "a" "b" IsAcyclic-nil (no-Walk "b" "a" b_apart)

pub board-AllAcyclic : AllAcyclic sample board.edges
board-AllAcyclic ws = elim (eq-cases "w" ws) [
  | inl (t, _) ↦ rw (t, workspace_links) one_edge-IsAcyclic
  | inr (f, _) ↦ rw (f, workspace_links) IsAcyclic-nil
]
