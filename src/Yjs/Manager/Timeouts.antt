-- ===== src/Yjs/Manager/Timeouts.antt =====
-- The timers of yjs/yjs-doc-manager.ts, as `setTimeout` and `clearTimeout` keep them.
use aideep_backend.Common.{
  ℕ, String, Bool, true, false, not, ◌&&◌, Option, none, some, List, ◌==◌, keep, eqb,
}

-- what the callback of a timer does: `flushDoc` or `evictDoc`
pub data TimerKind : Type 0 where
  save idle : TimerKind

abbrev pub same_kind : TimerKind → TimerKind → Bool
same_kind save save = true
same_kind save idle = false
same_kind idle save = false
same_kind idle idle = true

-- a timer that was set: its handle, the node of its callback, and the callback
pub record Timer : Type 0 where
  pub handle : ℕ
  pub node_id : String
  pub kind : TimerKind

abbrev pub timer : ℕ → String → TimerKind → Timer
timer handle node_id kind = record { handle = handle; node_id = node_id; kind = kind }

abbrev pub same_timer : Timer → Timer → Bool
same_timer s t = eqb s.handle t.handle && (s.node_id == t.node_id && same_kind s.kind t.kind)

-- `clearTimeout`, of the save or idle timer of a node
abbrev pub clear : Option ℕ → String → TimerKind → List Timer → List Timer
clear none node_id kind timers = timers
clear (some handle) node_id kind timers =
    keep (λ t. not (same_timer t (timer handle node_id kind))) timers
