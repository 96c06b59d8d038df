-- ===== src/Edge/Graph.antt =====
-- The graph of one workspace, as the rows of the `edges` table give it, and what the queries and
-- writes of edge/edge.repository.ts mean for it.
use aideep_backend.Common.{
  String, ◌≡◌, inl, inr, ⊎_elim, refl, sym, ap, subst, Bool, true, false, List, [], ◌∷◌, ◌++◌, Memᴰ,
  arith, ◌==◌, keep, Memᴰ-cons, Memᴰ-nil, Bool-cases, if◌then◌else◌,
}
use aideep_backend.Infra.Rows.{EdgeRow}
use aideep_backend.Infra.Platform.{Platform}
use aideep_backend.Edge.Walk.{Link, link, IsAcyclic}
use aideep_backend.Edge.Acyclic.{IsSubgraph}
use aideep_backend.Edge.Repository.{row_link}

-- the edges of a workspace
abbrev pub workspace_links : String → List EdgeRow → List Link
workspace_links workspace_id [] = []
workspace_links workspace_id (r ∷ rows) =
    let rest = workspace_links workspace_id rows in
    elim (r.workspace_id == workspace_id) [ true ↦ row_link r ∷ rest | false ↦ rest ]

pub workspace_links-append :
    (workspace_id : String) (rows : List EdgeRow) (r : EdgeRow)
    → workspace_links workspace_id (rows ++ r ∷ []) ≡ (
        if r.workspace_id == workspace_id
        then workspace_links workspace_id rows ++ row_link r ∷ []
        else workspace_links workspace_id rows)
workspace_links-append workspace_id [] r = ground arith
workspace_links-append workspace_id (q ∷ rows) r =
    ground (arith, workspace_links-append workspace_id rows r)

-- an edge of the graph is the link of a row
pub mem-workspace_links :
    (workspace_id : String) (rows : List EdgeRow) (r : EdgeRow)
    → Memᴰ r rows
    → (r.workspace_id == workspace_id) ≡ true
    → Memᴰ (row_link r) (workspace_links workspace_id rows)
mem-workspace_links workspace_id [] r m t = absurd (Memᴰ-nil r m)
mem-workspace_links workspace_id (q ∷ rows) r m t = elim ((Memᴰ-cons r q rows).0 m) [
  | inl e ↦ ground (
    arith,
    ap (λ (x : EdgeRow). x.workspace_id) e,
    Memᴰ-cons (row_link r) (row_link q) (workspace_links workspace_id rows),
    ap row_link e,
  )
  | inr n ↦ ground (
    arith,
    mem-workspace_links workspace_id rows r n t,
    Memᴰ-cons (row_link r) (row_link q) (workspace_links workspace_id rows),
  )
]

pub row_of_workspace_links :
    (workspace_id : String) (rows : List EdgeRow) (l : Link)
    → Memᴰ l (workspace_links workspace_id rows)
    → (r : EdgeRow) × Memᴰ r rows × ((r.workspace_id == workspace_id) ≡ true) × (row_link r ≡ l)
row_of_workspace_links workspace_id [] l m = absurd (Memᴰ-nil l m)
row_of_workspace_links workspace_id (q ∷ rows) l m =
    elim (Bool-cases (q.workspace_id == workspace_id)) [
      | inl t ↦
          elim ((Memᴰ-cons l (row_link q) (workspace_links workspace_id rows)).0
            (rw (t, workspace_links) at m)) [
              | inl e ↦ (q, Memᴰ.head refl, t, sym e)
              | inr n ↦
                  let (r, i, w, e) = row_of_workspace_links workspace_id rows l n in
                  (r, Memᴰ.tail i, w, e)
            ]
      | inr f ↦
          let (r, i, w, e) =
            row_of_workspace_links workspace_id rows l (rw (f, workspace_links) at m) in
          (r, Memᴰ.tail i, w, e)
    ]

-- a selection of rows that keeps no edge out of another list's rows
pub IsSubgraph-of_rows :
    (workspace_id : String) (rows rows' : List EdgeRow)
    → ((r : EdgeRow) → Memᴰ r rows → Memᴰ r rows')
    → IsSubgraph (workspace_links workspace_id rows) (workspace_links workspace_id rows')
IsSubgraph-of_rows workspace_id rows rows' h a b m =
    let (r, i, t, e) = row_of_workspace_links workspace_id rows (link a b) m in
    subst (λ l. Memᴰ l (workspace_links workspace_id rows')) e
      (mem-workspace_links workspace_id rows' r (h r i) t)

pub mem-keep {ℓ} :
    {A : Type ℓ} (p : A → Bool) (xs : List A) (a : A) → Memᴰ a (keep p xs) → Memᴰ a xs
mem-keep p [] a m = m
mem-keep p (x ∷ xs) a m = elim (Bool-cases (p x)) [
  | inl t ↦
      ⊎_elim Memᴰ.head (λ n. Memᴰ.tail (mem-keep p xs a n))
        ((Memᴰ-cons a x (keep p xs)).0 (rw (t, keep) at m))
  | inr f ↦ Memᴰ.tail (mem-keep p xs a (rw (f, keep) at m))
]

-- Every workspace's graph is free of cycles.
abbrev pub AllAcyclic : (P : Platform) → P.edges.Store → Type 0
AllAcyclic P edges =
    (workspace_id : String) → IsAcyclic (workspace_links workspace_id (P.edges.rows edges))
