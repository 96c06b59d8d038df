-- ===== src/Edge/Cycle/Decides.antt =====
-- `hasCycle` of edge/edge.service.ts decides reachability.
use mathlib.Core.Logic.{∥∥₁_elim}
use mathlib.Core.HLevel.{⊥_prop}
use aideep_backend.Common.{refl, String, ◌≡◌, ◌↔◌, Bool, true, false, some, List}
use aideep_backend.Edge.Walk.{Link, Walk}
use aideep_backend.Edge.Cycle.{has_cycle}
use aideep_backend.Edge.Cycle.Sound.{has_cycle_sound}
use aideep_backend.Edge.Cycle.Complete.{has_cycle_complete}
use aideep_backend.Edge.Cycle.Ends.{has_cycle-ends}

-- The search always returns, and it returns true if and only if some walk along the given edges leads from the target back to the source.
pub has_cycle_decides :
    (source target : String) (es : List Link)
    → (b : Bool) × (has_cycle source target es ≡ some b) × ((b ≡ true) ↔ ∥ Walk es target source ∥₁)
has_cycle_decides source target es =
    let (b, ends) = has_cycle-ends es source target in (b, ends, answer b ends)
  where
    answer :
        (b : Bool) → has_cycle source target es ≡ some b → (b ≡ true) ↔ ∥ Walk es target source ∥₁
    answer true h = (λ _. ∣ has_cycle_sound es source target h ∣₁, λ _. refl)
    answer false h =
        (λ e. cc, λ w. absurd (∥∥₁_elim w ⊥_prop (has_cycle_complete es source target h)))
