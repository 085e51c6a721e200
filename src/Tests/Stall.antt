-- ===== src/Tests/Stall.antt =====
-- A request that nobody decides on for six minutes.
use agents_ensemble.Base.{ℕ, ◌≡◌, refl, true, false, List, [], ◌∷◌, ◌++◌, arith}
use agents_ensemble.Permission.Stall.{
  PendingEntry, PermissionDeadlockMonitor, create_permission_deadlock_monitor, start_stall_monitor,
  poll_stall, default_permission_deadlock_stall_ms,
}
use agents_ensemble.Permission.Stall.Refs.{IsUniqueRefs}
use agents_ensemble.Permission.Stall.Check.{told_by}
use agents_ensemble.Permission.Stall.Laws.{StallRun, begins, starts, polls, StallRun-tells_once}

abbrev waiting : PendingEntry
waiting = record { ref = 1; id = "p"; created_at = 40000 }

abbrev started : PermissionDeadlockMonitor
started = record create_permission_deadlock_monitor { started = true; timer = true }

started_run : StallRun default_permission_deadlock_stall_ms [] [] started
unfolding create_permission_deadlock_monitor start_stall_monitor
started_run = starts begins

abbrev told : List ℕ
told =
    told_by default_permission_deadlock_stall_ms 400000 (waiting ∷ [])
      (record started { timer = false })

none_told : ¬ (false ≡ true)
none_told = ground arith

StallRun-tells_once_example : IsUniqueRefs (told ++ [])
StallRun-tells_once_example =
    StallRun-tells_once default_permission_deadlock_stall_ms (told ++ []) (1 ∷ [])
      (poll_stall default_permission_deadlock_stall_ms 400000 (waiting ∷ []) started)
      (polls 400000 (waiting ∷ []) refl (refl, tt) (λ r e f. absurd (none_told e)) started_run)
