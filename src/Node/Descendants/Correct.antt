-- ===== src/Node/Descendants/Correct.antt =====
-- The recursive query of `selectAllDescendantIds` (node/node.repository.ts) ends on a graph without
-- cycles, and returns each node below the given one once.
use aideep_backend.Common.{
  ℕ, zero, suc, ◌+◌, ◌≤◌, String, ◌≡◌, ◌↔◌, ◌⊎◌, inl, inr, ⊎_elim, refl, sym, subst, true, false,
  some, List, [], ◌∷◌, ◌++◌, Memᴰ, arith, contains, contains_iff, length, Memᴰ-cons, Memᴰ-nil,
  Memᴰ-append, Bool-cases, Option-cases,
}
use aideep_backend.Edge.Walk.{Link, HasEdge, Walk, here, Walk-cons, Walk-head, IsAcyclic}
use aideep_backend.Edge.Steps.{Steps, Steps-snoc, Steps-le-length}
use aideep_backend.Edge.Cycle.Adjacency.{targets, mem-targets}
use aideep_backend.Node.Descendants.{join, union_all, add_new, distinct, descendants}

-- a row joins the next round exactly if an edge leads to it from this round
pub mem-join :
    (links : List Link) (added : List String) (v : String)
    → Memᴰ v (join links added) ↔ ((u : String) × Memᴰ u added × HasEdge links u v)
unfolding join
mem-join links [] v = (λ m. absurd (Memᴰ-nil v m), λ (u, m, e). absurd (Memᴰ-nil u m))
mem-join links (d ∷ added) v = (
  λ m.
      ⊎_elim (λ first. (d, (Memᴰ-cons d d added).1 (inl refl), (mem-targets links d v).0 first))
        (λ later.
          let (u, i, e) = (mem-join links added v).0 later in
          (u, (Memᴰ-cons u d added).1 (inr i), e))
        ((Memᴰ-append v (targets links d) (join links added)).0 m),
  λ (u, m, e). (Memᴰ-append v (targets links d) (join links added)).1 (
      ⊎_elim (λ same. inl ((mem-targets links d v).1 (subst (λ x. HasEdge links x v) same e)))
        (λ later. inr ((mem-join links added v).1 (u, later, e))) ((Memᴰ-cons u d added).0 m)),
)

-- every row of a round lies `j` edges below the node
abbrev AtDepth : List Link → String → List String → ℕ → Type 0
AtDepth links node_id added j = (v : String) → Memᴰ v added → Steps links node_id v j

AtDepth-join :
    (links : List Link) (node_id : String) (added : List String) (j : ℕ)
    → AtDepth links node_id added j
    → AtDepth links node_id (join links added) (suc j)
AtDepth-join links node_id added j h v m =
    let (u, i, e) = (mem-join links added v).0 m in Steps-snoc node_id j (h u i) e

union_all-ends :
    (links : List Link) (node_id : String)
    → IsAcyclic links
    → (fuel : ℕ) (added : List String) (j : ℕ) → 1 ≤ fuel
    → length links + 2 ≤ fuel + j
    → AtDepth links node_id added j
    → (rows : List String) × (union_all fuel links added ≡ some rows)
unfolding union_all
union_all-ends links node_id acyclic zero added j pos room h = absurd (omega arith)
union_all-ends links node_id acyclic (suc fuel) [] j pos room h = ([], refl)
union_all-ends links node_id acyclic (suc zero) (d ∷ added) j pos room h = absurd (
    omega (
      arith,
      Steps-le-length (length links) links node_id d j (omega arith) acyclic
          (h d ((Memᴰ-cons d d added).1 (inl refl))),
    ))
union_all-ends links node_id acyclic (suc (suc fuel)) (d ∷ added) j pos room h =
    let (rest, e) =
      union_all-ends links node_id acyclic (suc fuel) (join links (d ∷ added)) (suc j) (omega arith)
        (omega arith) (AtDepth-join links node_id (d ∷ added) j h) in
    ((d ∷ added) ++ rest, rw (e, union_all))

-- a walk from a row stops there, or goes on from a row of the next round
abbrev Below : List Link → List String → String → Type 0
Below links added v = (u : String) × Memᴰ u added × Walk links u v

Below-round :
    (links : List Link) (added rest : List String) (v : String)
    → Memᴰ v rest ↔ Below links (join links added) v
    → Memᴰ v (added ++ rest) ↔ Below links added v
Below-round links added rest v ih = (
  λ m.
      ⊎_elim (λ now. (v, now, here))
        (λ later.
          let (c, i, w) = ih.0 later in
          let (u, j, e) = (mem-join links added c).0 i in (u, j, Walk-cons e w))
        ((Memᴰ-append v added rest).0 m),
  λ (u, m, w). (Memᴰ-append v added rest).1 (
      ⊎_elim (λ same. inl (subst (λ x. Memᴰ x added) same m))
        (λ (c, e, next). inr (ih.1 (c, (mem-join links added c).1 (u, m, e), next))) (Walk-head w)),
)

-- The rows are what walks reach from the first round.
union_all_correct :
    (links : List Link) (fuel : ℕ) (added rows : List String) (v : String)
    → union_all fuel links added ≡ some rows
    → Memᴰ v rows ↔ ((u : String) × Memᴰ u added × Walk links u v)
unfolding union_all
union_all_correct links zero added rows v h = cc
union_all_correct links (suc fuel) [] rows v h =
    let e : [] ≡ rows = cc h in
    (λ m. absurd (Memᴰ-nil v (subst (Memᴰ v) (sym e) m)), λ (u, m, w). absurd (Memᴰ-nil u m))
union_all_correct links (suc fuel) (d ∷ added) rows v h =
    elim (Option-cases (union_all fuel links (join links (d ∷ added)))) [
      | inl none_left ↦ absurd (cc (rw (none_left, union_all) at h))
      | inr (rest, e) ↦
          let same : (d ∷ added) ++ rest ≡ rows = cc (rw (e, union_all) at h) in
          subst (λ r. Memᴰ v r ↔ Below links (d ∷ added) v) same
            (Below-round links (d ∷ added) rest v
              (union_all_correct links fuel (join links (d ∷ added)) rest v e))
    ]

-- no text stands twice in the list
abbrev pub IsDistinct : List String → Type 0
IsDistinct [] = Unit
IsDistinct (x ∷ xs) = (contains xs x ≡ false) × IsDistinct xs

add_new-cases :
    (x : String) (rest : List String)
    → ((contains rest x ≡ true) × (add_new x rest ≡ rest))
      ⊎ ((contains rest x ≡ false) × (add_new x rest ≡ x ∷ rest))
add_new-cases x rest = elim (Bool-cases (contains rest x)) [
  | inl old ↦ inl (old, ground arith)
  | inr new ↦ inr (new, ground arith)
]

mem-distinct : (xs : List String) (v : String) → Memᴰ v (distinct xs) ↔ Memᴰ v xs
unfolding distinct
mem-distinct [] v = (λ m. m, λ m. m)
mem-distinct (x ∷ xs) v = elim (add_new-cases x (distinct xs)) [
  | inl (old, e) ↦
      subst (λ d. Memᴰ v d ↔ Memᴰ v (x ∷ xs)) (sym e)
        (
          λ m. Memᴰ.tail ((mem-distinct xs v).0 m),
          λ m.
              ⊎_elim
                (λ same.
                  subst (λ y. Memᴰ y (distinct xs)) (sym same)
                    ((contains_iff (distinct xs) x).0 old))
                (mem-distinct xs v).1 ((Memᴰ-cons v x xs).0 m),
        )
  | inr (_, e) ↦
      subst (λ d. Memᴰ v d ↔ Memᴰ v (x ∷ xs)) (sym e)
        (ground (arith, mem-distinct xs v, Memᴰ-cons v x xs, Memᴰ-cons v x (distinct xs)))
]

distinct-IsDistinct : (xs : List String) → IsDistinct (distinct xs)
unfolding distinct
distinct-IsDistinct [] = tt
distinct-IsDistinct (x ∷ xs) = elim (add_new-cases x (distinct xs)) [
  | inl (_, e) ↦ subst IsDistinct (sym e) (distinct-IsDistinct xs)
  | inr (new, e) ↦ subst IsDistinct (sym e) (new, distinct-IsDistinct xs)
]

-- On a graph without cycles the recursive query ends, and it returns, each once, exactly the nodes to which an edge out of the given node and any walk on from there lead.
pub descendants_correct :
    (links : List Link) (node_id : String)
    → IsAcyclic links
    → (ids : List String) × (descendants links node_id ≡ some ids)
      × IsDistinct ids
      × ((v : String) → Memᴰ v ids ↔ ((u : String) × HasEdge links node_id u × Walk links u v))
unfolding descendants
descendants_correct links node_id acyclic =
    let (rows, e) =
      union_all-ends links node_id acyclic (length links + 1) (targets links node_id) 1
        (omega arith) (omega arith) (λ v m. (v, (mem-targets links node_id v).0 m, refl)) in
    (
      distinct rows,
      rw (e, descendants),
      distinct-IsDistinct rows,
      λ v.
          let reached =
            union_all_correct links (length links + 1) (targets links node_id) rows v e in
          (
            λ m.
                let (u, i, w) = reached.0 ((mem-distinct rows v).0 m) in
                (u, (mem-targets links node_id u).0 i, w),
            λ (u, f, w).
                (mem-distinct rows v).1 (reached.1 (u, (mem-targets links node_id u).1 f, w)),
          ),
    )
