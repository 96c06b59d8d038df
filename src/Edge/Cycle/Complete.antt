-- ===== src/Edge/Cycle/Complete.antt =====
-- `hasCycle` of edge/edge.service.ts answers false only if no walk leads from target to source.
use aideep_backend.Common.{
  ℕ, zero, suc, String, ◌≡◌, ◌≢◌, ◌⊎◌, inl, inr, ⊎_elim, refl, sym, subst, false, some, List, [],
  ◌∷◌, ◌++◌, Memᴰ, arith, eq-cases, contains, contains_iff, Bool-cases, Memᴰ-cons, Memᴰ-append,
  Memᴰ-nil,
}
use aideep_backend.Edge.Walk.{Link, HasEdge, Walk, here, step}
use aideep_backend.Edge.Cycle.{fill, next_of, search_from, has_cycle, rounds}
use aideep_backend.Edge.Cycle.Adjacency.{next_of-targets, mem-targets}

module _ (es : List Link) (source target : String) where
  record IsClosed (visited queue : List String) : Type 0 where
    no_source : ¬ Memᴰ source visited
    start : Memᴰ target visited ⊎ Memᴰ target queue
    closed : (u v : String) → Memᴰ u visited → HasEdge es u v → Memᴰ v visited ⊎ Memᴰ v queue

  -- a text that was visited before leaves the queue
  IsClosed-skip :
      (current : String) (visited queue : List String)
      → Memᴰ current visited
      → IsClosed visited (current ∷ queue)
      → IsClosed visited queue
  IsClosed-skip current visited queue seen c = record {
    no_source = c.no_source;
    start = dropped target c.start;
    closed = λ u v m e. dropped v (c.closed u v m e);
  }
    where
      dropped :
          (v : String) → Memᴰ v visited ⊎ Memᴰ v (current ∷ queue) → Memᴰ v visited ⊎ Memᴰ v queue
      dropped v (inl old) = inl old
      dropped v (inr m) =
          ⊎_elim (λ e. inl (subst (λ x. Memᴰ x visited) (sym e) seen)) inr
            ((Memᴰ-cons v current queue).0 m)

  -- a new text is marked, and its targets join the queue
  IsClosed-expand :
      (current : String) (visited queue : List String)
      → current ≢ source
      → IsClosed visited (current ∷ queue)
      → IsClosed (current ∷ visited) (queue ++ next_of (fill [] es) current)
  IsClosed-expand current visited queue ne c = record {
    no_source = λ m. ⊎_elim (λ e. ne (sym e)) c.no_source ((Memᴰ-cons source current visited).0 m);
    start = moved target c.start;
    closed = λ u v m e.
        ⊎_elim (λ p. inr (joined v (subst (λ x. HasEdge es x v) p e)))
          (λ old. moved v (c.closed u v old e)) ((Memᴰ-cons u current visited).0 m);
  }
    where
      moved :
          (v : String)
          → Memᴰ v visited ⊎ Memᴰ v (current ∷ queue)
          → Memᴰ v (current ∷ visited) ⊎ Memᴰ v (queue ++ next_of (fill [] es) current)
      moved v m = ground (
        arith,
        Memᴰ-cons v current queue,
        Memᴰ-cons v current visited,
        Memᴰ-append v queue (next_of (fill [] es) current),
      )

      joined : (v : String) → HasEdge es current v → Memᴰ v (queue ++ next_of (fill [] es) current)
      joined v e =
          (Memᴰ-append v queue (next_of (fill [] es) current)).1 (
            inr
              (subst (Memᴰ v) (sym (next_of-targets es current)) ((mem-targets es current v).1 e)))

  -- with an empty queue every walk from the target stays among the visited texts
  stays :
      (visited : List String)
      → IsClosed visited []
      → {v : String} → Walk es target v
      → Memᴰ v visited
  stays visited c here = ⊎_elim (λ m. m) (λ n. absurd (Memᴰ-nil target n)) c.start
  stays visited c (step {b} {c = v} w e) =
      ⊎_elim (λ m. m) (λ n. absurd (Memᴰ-nil v n)) (c.closed b v (stays visited c w) e)

  search_from_complete :
      (fuel : ℕ) (visited queue : List String)
      → IsClosed visited queue
      → search_from fuel source (fill [] es) visited queue ≡ some false
      → ¬ Walk es target source
  unfolding search_from
  search_from_complete zero visited queue c h = cc
  search_from_complete (suc fuel) visited [] c h = λ w. c.no_source (stays visited c w)
  search_from_complete (suc fuel) visited (current ∷ queue) c h = elim (eq-cases current source) [
    | inl (t, _) ↦ absurd (cc (rw (t, search_from) at h))
    | inr (f, ne) ↦ elim (Bool-cases (contains visited current)) [
      | inl seen ↦
          search_from_complete fuel visited queue
            (IsClosed-skip current visited queue ((contains_iff visited current).0 seen) c)
            (rw (f, seen, search_from) at h)
      | inr fresh ↦
          search_from_complete fuel (current ∷ visited) (queue ++ next_of (fill [] es) current)
            (IsClosed-expand current visited queue ne c) (rw (f, fresh, search_from) at h)
    ]
  ]

  pub has_cycle_complete : has_cycle source target es ≡ some false → ¬ Walk es target source
  unfolding has_cycle
  has_cycle_complete h =
      search_from_complete (rounds es) [] (target ∷ [])
        (record {
          no_source = Memᴰ-nil source;
          start = inr ((Memᴰ-cons target target []).1 (inl refl));
          closed = λ u v m e. absurd (Memᴰ-nil u m);
        })
        h
