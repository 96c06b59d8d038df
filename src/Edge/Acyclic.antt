-- ===== src/Edge/Acyclic.antt =====
-- Graphs without cycles: what one more edge does to the walks (edge/edge.service.ts).
use aideep_backend.Common.{
  String, ◌≡◌, ◌⊎◌, inl, inr, sym, subst, List, [], ◌∷◌, ◌++◌, Memᴰ-append, Memᴰ-cons, Memᴰ-nil,
  arith,
}
use aideep_backend.Edge.Walk.{Link, link, HasEdge, Walk, here, step, Walk-trans, IsAcyclic}

-- Every edge of the one list is an edge of the other.
abbrev pub IsSubgraph : List Link → List Link → Type 0
IsSubgraph es fs = (a b : String) → HasEdge es a b → HasEdge fs a b

pub Walk-mono : {es fs : List Link} {a b : String} → IsSubgraph es fs → Walk es a b → Walk fs a b
Walk-mono h here = here
Walk-mono h (step {b} {c} w e) = step (Walk-mono h w) (h b c e)

pub IsAcyclic-mono : {es fs : List Link} → IsSubgraph es fs → IsAcyclic fs → IsAcyclic es
IsAcyclic-mono h acyclic = record {
  no_return = λ a b e w. acyclic.no_return a b (h a b e) (Walk-mono h w);
}

pub IsAcyclic-nil : IsAcyclic []
IsAcyclic-nil = record { no_return = λ a b e w. Memᴰ-nil (link a b) e }

module _ (es : List Link) (s t : String) where
  abbrev extended : List Link
  extended = es ++ link s t ∷ []

  HasEdge-extended : (a b : String) → HasEdge extended a b → HasEdge es a b ⊎ ((a ≡ s) × (b ≡ t))
  HasEdge-extended a b m = ground (
    arith,
    Memᴰ-append (link a b) es (link s t ∷ []),
    Memᴰ-cons (link a b) (link s t) [],
    Memᴰ-nil (link a b),
  )

  -- A walk in the extended graph avoids the new edge, or leads to its source and on from its target.
  Walk-split : {a b : String} → Walk extended a b → Walk es a b ⊎ (Walk es a s × Walk es t b)
  Walk-split here = inl here
  Walk-split {a} (step {b} {c} w e) = go (Walk-split w) (HasEdge-extended b c e)
    where
      go :
          Walk es a b ⊎ (Walk es a s × Walk es t b)
          → HasEdge es b c ⊎ ((b ≡ s) × (c ≡ t))
          → Walk es a c ⊎ (Walk es a s × Walk es t c)
      go (inl p) (inl old) = inl (step p old)
      go (inr (p, q)) (inl old) = inr (p, step q old)
      go (inl p) (inr (from, to)) = inr (subst (Walk es a) from p, subst (Walk es t) (sym to) here)
      go (inr (p, q)) (inr (from, to)) = inr (p, subst (Walk es t) (sym to) here)

  -- An edge whose target does not lead back to its source closes no cycle.
  pub IsAcyclic-extended : IsAcyclic es → ¬ Walk es t s → IsAcyclic (es ++ link s t ∷ [])
  IsAcyclic-extended acyclic apart = record {
    no_return = λ a b e w. close a b (HasEdge-extended a b e) (Walk-split w);
  }
    where
      close :
          (a b : String)
          → HasEdge es a b ⊎ ((a ≡ s) × (b ≡ t))
          → Walk es b a ⊎ (Walk es b s × Walk es t a)
          → ⊥
      close a b (inl old) (inl w) = acyclic.no_return a b old w
      close a b (inl old) (inr (p, q)) = apart (Walk-trans (step q old) p)
      close a b (inr (from, to)) (inl w) =
          apart (subst (λ x. Walk es x s) to (subst (Walk es b) from w))
      close a b (inr (from, to)) (inr (p, q)) = apart (subst (λ x. Walk es x s) to p)
