-- ===== src/Edge/Cycle/Sound.antt =====
-- `hasCycle` of edge/edge.service.ts answers true only if the target reaches the source.
use aideep_backend.Common.{
  ℕ, zero, suc, String, ◌≡◌, ⊎_elim, true, some, List, [], ◌∷◌, ◌++◌, Memᴰ, eq-cases, contains,
  Bool-cases, Memᴰ-cons, Memᴰ-append, Memᴰ-nil, refl, sym, subst, inl, inr,
}
use aideep_backend.Edge.Walk.{Link, Walk, here, step}
use aideep_backend.Edge.Cycle.{fill, next_of, search_from, has_cycle, rounds}
use aideep_backend.Edge.Cycle.Adjacency.{next_of-targets, mem-targets}

module _ (es : List Link) (source target : String) where
  -- every text in the queue is reached
  abbrev Reached : List String → Type 0
  Reached queue = (v : String) → Memᴰ v queue → Walk es target v

  Reached-expand :
      (current : String) (queue : List String)
      → Reached (current ∷ queue)
      → Reached (queue ++ next_of (fill [] es) current)
  Reached-expand current queue r v m =
      ⊎_elim (λ old. r v ((Memᴰ-cons v current queue).1 (inr old)))
        (λ new.
          step (r current ((Memᴰ-cons current current queue).1 (inl refl)))
            ((mem-targets es current v).0 (subst (Memᴰ v) (next_of-targets es current) new)))
        ((Memᴰ-append v queue (next_of (fill [] es) current)).0 m)

  search_from_sound :
      (fuel : ℕ) (visited queue : List String)
      → Reached queue
      → search_from fuel source (fill [] es) visited queue ≡ some true
      → Walk es target source
  unfolding search_from
  search_from_sound zero visited queue r h = cc
  search_from_sound (suc fuel) visited [] r h = cc
  search_from_sound (suc fuel) visited (current ∷ queue) r h = elim (eq-cases current source) [
    | inl (t, e) ↦
        subst (Walk es target) e (r current ((Memᴰ-cons current current queue).1 (inl refl)))
    | inr (f, _) ↦ elim (Bool-cases (contains visited current)) [
      | inl seen ↦
          search_from_sound fuel visited queue (λ v m. r v ((Memᴰ-cons v current queue).1 (inr m)))
            (rw (f, seen, search_from) at h)
      | inr fresh ↦
          search_from_sound fuel (current ∷ visited) (queue ++ next_of (fill [] es) current)
            (Reached-expand current queue r) (rw (f, fresh, search_from) at h)
    ]
  ]

  pub has_cycle_sound : has_cycle source target es ≡ some true → Walk es target source
  unfolding has_cycle
  has_cycle_sound h =
      search_from_sound (rounds es) [] (target ∷ [])
        (λ v m.
          ⊎_elim (λ e. subst (Walk es target) (sym e) here) (λ n. absurd (Memᴰ-nil v n))
            ((Memᴰ-cons v target []).0 m))
        h
