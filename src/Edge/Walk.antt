-- ===== src/Edge/Walk.antt =====
-- The directed graph of a list of edges (`{ source_id, target_id }[]` in edge/edge.service.ts),
-- and its walks, which say independently of any search what can be reached.
use aideep_backend.Common.{String, List, Memᴰ, ◌≡◌, ◌⊎◌, inl, inr, refl, sym, subst}

pub record Link : Type 0 where
  pub source_id : String
  pub target_id : String

abbrev pub link : String → String → Link
link a b = record { source_id = a; target_id = b }

-- an edge from `a` to `b` is in the list
abbrev pub HasEdge : List Link → String → String → Type 0
HasEdge es a b = Memᴰ (link a b) es

-- `Walk es a b`: some edges, none at all allowed, lead from `a` to `b`
pub data Walk (es : List Link) (a : String) : String → Type 0 where
  here : Walk es a a
  step : {b c : String} → Walk es a b → HasEdge es b c → Walk es a c

pub Walk-trans : {es : List Link} {a b c : String} → Walk es a b → Walk es b c → Walk es a c
Walk-trans p here = p
Walk-trans p (step q e) = step (Walk-trans p q) e

-- no edge starts a walk back to its own start
pub record IsAcyclic (es : List Link) : Type 0 where
  pub no_return : (a b : String) → HasEdge es a b → ¬ Walk es b a

pub Walk-cons : {es : List Link} {a b c : String} → HasEdge es a b → Walk es b c → Walk es a c
Walk-cons e w = Walk-trans (step here e) w

-- a walk is empty, or begins with an edge
pub Walk-head :
    {es : List Link} {a b : String}
    → Walk es a b
    → (a ≡ b) ⊎ ((c : String) × HasEdge es a c × Walk es c b)
Walk-head here = inl refl
Walk-head {es} {a} (step {b} {c} w e) = elim (Walk-head w) [
  | inl same ↦ inr (c, subst (λ x. HasEdge es x c) (sym same) e, here)
  | inr (d, first, rest) ↦ inr (d, first, step rest e)
]
