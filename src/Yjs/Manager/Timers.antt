-- ===== src/Yjs/Manager/Timers.antt =====
-- Which timers stay set when one is cleared (yjs/yjs-doc-manager.ts).
use aideep_backend.Common.{
  ℕ, String, ◌≡◌, ap, Bool, true, false, not, Option, none, some, List, [], ◌∷◌, Memᴰ, Memᴰ-cons,
  ◌==◌, eq_iff, arith, keep, Bool-cases, inl, inr, ⊎_elim, eqb,
}
use aideep_backend.Yjs.Manager.{Timer, TimerKind, timer, save, idle, clear, same_timer}

pub keep-Memᴰ {ℓ} :
    {A : Type ℓ} (p : A → Bool) (a : A) (xs : List A) → Memᴰ a xs → p a ≡ true → Memᴰ a (keep p xs)
keep-Memᴰ p a [] m t = m
keep-Memᴰ p a (x ∷ xs) m t = elim (Bool-cases (p x)) [
  | inl u ↦
      rw (u, keep)
        (⊎_elim Memᴰ.head (λ n. Memᴰ.tail (keep-Memᴰ p a xs n t)) ((Memᴰ-cons a x xs).0 m))
  | inr f ↦
      rw (f, keep)
        (⊎_elim (λ e. absurd (cc (f, t, ap p e))) (λ n. keep-Memᴰ p a xs n t)
          ((Memᴰ-cons a x xs).0 m))
]

pub same_timer-elsewhere :
    (h j : ℕ) (node_id other : String) (k : TimerKind)
    → (node_id == other) ≡ false
    → same_timer (timer h other save) (timer j node_id k) ≡ false
same_timer-elsewhere h j node_id other k differ = ground (
  arith,
  differ,
  eq_iff node_id other,
  eq_iff other node_id,
  Bool-cases (eqb h j),
  Bool-cases (other == node_id),
)

-- clearing a timer of one node leaves the save timers of the others
pub clear-elsewhere :
    (handle : Option ℕ) (node_id other : String) (k : TimerKind) (h : ℕ) (timers : List Timer)
    → (node_id == other) ≡ false
    → Memᴰ (timer h other save) timers
    → Memᴰ (timer h other save) (clear handle node_id k timers)
clear-elsewhere none node_id other k h timers differ m = m
clear-elsewhere (some j) node_id other k h timers differ m =
    keep-Memᴰ _ (timer h other save) timers m
      (ap not (same_timer-elsewhere h j node_id other k differ))

-- clearing an idle timer leaves every save timer
pub clear-idle :
    (handle : Option ℕ) (node_id other : String) (h : ℕ) (timers : List Timer)
    → Memᴰ (timer h other save) timers
    → Memᴰ (timer h other save) (clear handle node_id idle timers)
clear-idle none node_id other h timers m = m
clear-idle (some j) node_id other h timers m =
    keep-Memᴰ _ (timer h other save) timers m
      (ground (arith, Bool-cases (eqb h j), Bool-cases (other == node_id)))
